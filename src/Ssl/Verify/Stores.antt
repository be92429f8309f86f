-- ===== src/Ssl/Verify/Stores.antt =====
-- The ex data of btls/src/ssl/mod.rs follow the stores that BoringSSL has for a connection.
use btls.Prelude.{
  ℕ, ◌≡◌, ◌≢◌, refl, sym, ap, ◌∙◌, subst, true, false, Option, none, some, List, [], ◌∷◌, ◌==◌,
  Bool-cases, inl, inr, ==→eq, eq→==,
}
use btls.Io.{Fallible, fine, wrong}
use btls.Ssl.Connector.{bool_eq}
use btls.Ssl.Verify.{
  Verifier, Context, Ssl, created, new, after_set, set_verify_cert_store, dropped, after_change,
  set_ssl_context, pick, verify_store,
}
use btls.Ssl.Verify.Built.{
  IsVerifier, or_cert_store, Plan, built, FreshPlan, Mirrored, built-Mirrored,
}

-- What the owner of a connection does with stores and contexts.
pub data Change (K X S : Type 0) : Type 0 where
  own_store : S → Change K X S
  move_to : Plan K X S → Change K X S

module _ {K N X S P : Type 0} (v : Verifier K N X S P) where
  -- The connection after a change, whether the call succeeded, failed or panicked.
  unfoldable pub change : Change K X S → Ssl K N X S → Ssl K N X S
  change (own_store s) ssl = (set_verify_cert_store v s ssl).1
  change (move_to p) ssl = (set_ssl_context v (built v p) ssl).1

  unfoldable pub change_all : List (Change K X S) → Ssl K N X S → Ssl K N X S
  change_all [] ssl = ssl
  change_all (c ∷ cs) ssl = change_all cs (change c ssl)

module _ {K N X S P : Type 0} {v : Verifier K N X S P} (l : IsVerifier v) where
  abbrev pub FreshChange : Change K X S → Type 0
  FreshChange (own_store s) = Unit {0}
  FreshChange (move_to p) = FreshPlan l p

  abbrev pub FreshAll : List (Change K X S) → Type 0
  FreshAll [] = Unit {0}
  FreshAll (c ∷ cs) = FreshChange c × FreshAll cs

  -- The ex data of a connection name the store that BoringSSL has for it.
  record Follows (ssl : Ssl K N X S) : Type 0 where
    context : Mirrored l ssl.ssl_context
    own : (s : S) → ssl.verify_store ≡ some (some s) → l.ssl_store ssl.native ≡ some s
    inherited :
        ((s : S) → ssl.verify_store ≢ some (some s))
        → l.ssl_store ssl.native ≡ l.ctx_store ssl.ssl_context.native

  after_set-Follows :
      (s : S) (ssl : Ssl K N X S) (r : Fallible (Unit {0}) × N)
      → (r.0 ≡ fine tt → l.ssl_store r.1 ≡ some s)
      → (r.0 ≢ fine tt → l.ssl_store r.1 ≡ l.ssl_store ssl.native)
      → Follows ssl
      → Follows (after_set v s ssl r).1
  unfolding after_set
  after_set-Follows s ssl (fine u, n) sets keeps f = record {
    context = f.context;
    own = λ t e. let k : s ≡ t = cc in sets refl ∙ ap some k;
    inherited = λ h. absurd (h s refl);
  }
  after_set-Follows s ssl (wrong e, n) sets keeps f =
      let kept = keeps (λ p. cc) in
      record {
        context = f.context;
        own = λ t h. kept ∙ f.own t h;
        inherited = λ h. kept ∙ f.inherited h;
      }

  after_change-Follows :
      (c : Context K X S) (ssl : Ssl K N X S) (r : Fallible (Unit {0}) × N)
      → (r.0 ≡ fine tt
          → ssl.ssl_context.address ≢ c.address
          → l.ssl_store r.1 ≡ l.ctx_store c.native)
      → (ssl.ssl_context.address ≡ c.address → l.ssl_store r.1 ≡ l.ssl_store ssl.native)
      → (r.0 ≢ fine tt → l.ssl_store r.1 ≡ l.ssl_store ssl.native)
      → Mirrored l c
      → Follows ssl
      → Follows (after_change v c ssl r).1
  unfolding after_change dropped
  after_change-Follows c ssl (fine u, n) moves stays remains m f =
      elim (Bool-cases (ssl.ssl_context.address == c.address)) [
        | inl e ↦
            let kept = stays (==→eq ssl.ssl_context.address c.address e) in
            rw e (record {
              context = f.context;
              own = λ t h. kept ∙ f.own t h;
              inherited = λ h. kept ∙ f.inherited h;
            })
        | inr e ↦
            let moved = moves refl (λ q.
              let h : false ≡ true = sym e ∙ eq→== ssl.ssl_context.address c.address q in cc) in
            rw e (record {
              context = m;
              own = λ t h. absurd (never ssl.verify_store t h);
              inherited = λ h. moved;
            })
      ]
    where
      never : (o : Option (Option S)) (t : S) → dropped v o ≡ some (some t) → ⊥
      never none t h = cc
      never (some o) t h = cc
  after_change-Follows c ssl (wrong e, n) moves stays remains m f =
      let kept = remains (λ p. cc) in
      record {
        context = f.context;
        own = λ t h. kept ∙ f.own t h;
        inherited = λ h. kept ∙ f.inherited h;
      }

  set_ssl_ctx-stays :
      (a b : ℕ) (k : K) (n : N) → a ≡ b → l.ssl_store (v.set_ssl_ctx a b k n).1 ≡ l.ssl_store n
  set_ssl_ctx-stays a b k n e =
      ap (λ z. l.ssl_store (v.set_ssl_ctx a z k n).1) (sym e) ∙ l.stays a k n

  set_verify-Follows :
      (s : S) (ssl : Ssl K N X S) → Follows ssl → Follows (set_verify_cert_store v s ssl).1
  unfolding set_verify_cert_store
  set_verify-Follows s ssl f = elim (Bool-cases (v.has_x509_support ssl.ssl_context.native)) [
    | inl e ↦ rw e (
        after_set-Follows s ssl (v.set1_verify_cert_store s ssl.native) (l.ssl_sets s ssl.native)
          (l.ssl_keeps s ssl.native) f)
    | inr e ↦ rw e f
  ]

  set_context-Follows :
      (c : Context K X S) (ssl : Ssl K N X S)
      → Mirrored l c
      → Follows ssl
      → Follows (set_ssl_context v c ssl).1
  unfolding set_ssl_context
  set_context-Follows c ssl m f =
      let a = ssl.ssl_context.address in
      elim (Bool-cases
        (bool_eq (v.has_x509_support ssl.ssl_context.native) (v.has_x509_support c.native))) [
          | inl e ↦ rw e (
              after_change-Follows c ssl (v.set_ssl_ctx a c.address c.native ssl.native)
                (l.moves a c.address c.native ssl.native)
                (set_ssl_ctx-stays a c.address c.native ssl.native)
                (l.remains a c.address c.native ssl.native) m f)
          | inr e ↦ rw e f
        ]

  change-Follows :
      (c : Change K X S) (ssl : Ssl K N X S)
      → FreshChange c
      → Follows ssl
      → Follows (change v c ssl)
  unfolding change
  change-Follows (own_store s) ssl fresh f = set_verify-Follows s ssl f
  change-Follows (move_to p) ssl fresh f =
      set_context-Follows (built v p) ssl (built-Mirrored l p fresh) f

  change_all-Follows :
      (cs : List (Change K X S)) (ssl : Ssl K N X S)
      → FreshAll cs
      → Follows ssl
      → Follows (change_all v cs ssl)
  unfolding change_all
  change_all-Follows [] ssl fresh f = f
  change_all-Follows (c ∷ cs) ssl (h, hs) f =
      change_all-Follows cs (change v c ssl) hs (change-Follows c ssl h f)

  created-Follows :
      (c : Context K X S) (r : Fallible N) (ssl : Ssl K N X S)
      → ((n : N) → r ≡ fine n → l.ssl_store n ≡ l.ctx_store c.native)
      → Mirrored l c
      → created v c r ≡ fine ssl
      → Follows ssl
  unfolding created
  created-Follows c (wrong e) ssl starts m h = absurd (let k : wrong e ≡ fine ssl = h in cc)
  created-Follows c (fine n) ssl starts m h =
      let k : record { native = n; ssl_context = c; verify_store = none } ≡ ssl = cc in
      subst Follows k (record {
        context = m;
        own = λ t e. absurd (let z : none ≡ some (some t) = e in cc);
        inherited = λ e. starts n refl;
      })

  pick-none : (o : Option S) (c : S) → pick v none o c ≡ or_cert_store o c
  unfolding pick
  pick-none none c = refl
  pick-none (some s) c = refl

  pick-left : (o : Option S) (c : S) → pick v (some none) o c ≡ or_cert_store o c
  unfolding pick
  pick-left none c = refl
  pick-left (some s) c = refl

  -- The store that the two ex data choose is that of BoringSSL.
  Follows-verify_store :
      (ssl : Ssl K N X S)
      → Follows ssl
      → verify_store v ssl
        ≡ or_cert_store (l.ssl_store ssl.native) (v.cert_store ssl.ssl_context.native)
  unfolding verify_store pick
  Follows-verify_store ssl f = chosen ssl.verify_store f.own f.inherited
    where
      c : S
      c = v.cert_store ssl.ssl_context.native

      inherits :
          l.ssl_store ssl.native ≡ l.ctx_store ssl.ssl_context.native
          → or_cert_store ssl.ssl_context.verify_store c ≡ or_cert_store (l.ssl_store ssl.native) c
      inherits e = ap (λ o. or_cert_store o c) (f.context ∙ sym e)

      chosen :
          (o : Option (Option S))
          → ((s : S) → o ≡ some (some s) → l.ssl_store ssl.native ≡ some s)
          → (((s : S) → o ≢ some (some s))
              → l.ssl_store ssl.native ≡ l.ctx_store ssl.ssl_context.native)
          → pick v o ssl.ssl_context.verify_store c ≡ or_cert_store (l.ssl_store ssl.native) c
      chosen none own inherited =
          pick-none ssl.ssl_context.verify_store c ∙ inherits (inherited (λ s e. cc))
      chosen (some none) own inherited =
          pick-left ssl.ssl_context.verify_store c ∙ inherits (inherited (λ s e. cc))
      chosen (some (some s)) own inherited = sym (ap (λ o. or_cert_store o c) (own s refl))

  -- For a BoringSSL that keeps its contract, and contexts that are built from new ones with any
  -- stores given to SslContextBuilder::set_verify_cert_store: after Ssl::new and any sequence of
  -- calls of SslRef::set_verify_cert_store and set_ssl_context, whether they succeed, fail or panic,
  -- the store that verify_peer_cert_chain takes is the one that BoringSSL's own verifier takes.
  pub verify_store-builtin :
      (p : Plan K X S) (ssl : Ssl K N X S) (cs : List (Change K X S))
      → FreshPlan l p
      → FreshAll cs
      → new v (built v p) ≡ fine ssl
      → verify_store v (change_all v cs ssl)
        ≡ or_cert_store
            (l.ssl_store (change_all v cs ssl).native)
            (v.cert_store (change_all v cs ssl).ssl_context.native)
  unfolding new
  verify_store-builtin p ssl cs fresh all h = Follows-verify_store (change_all v cs ssl) (
      change_all-Follows cs ssl all (
        created-Follows (built v p) (v.ssl_new (built v p).native) ssl (l.starts (built v p).native)
          (built-Mirrored l p fresh) h))

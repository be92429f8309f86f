-- ===== src/Ssl/Verify/Built.antt =====
-- The contexts of btls/src/ssl/mod.rs: their ex data follow the stores that BoringSSL has for them.
use btls.Prelude.{
  ℕ, ℤ, ◌≡◌, ◌≢◌, refl, sym, ◌∙◌, Option, none, some, List, [], ◌∷◌, Bool-cases, inl, inr,
}
use btls.Io.{Fallible, fine, wrong}
use btls.Ssl.Verify.{Verifier, Context, ctx_after_set, ctx_set_verify_cert_store}

-- The documented behaviour of BoringSSL's stores: a context and a connection may each have one for
-- verification; a connection starts with that of its context, and takes that of a context it is
-- moved to. A call that fails changes none.
pub record IsVerifier {K N X S P : Type 0} (v : Verifier K N X S P) : Type 0 where
  pub ctx_store : K → Option S
  pub ssl_store : N → Option S
  pub ctx_sets :
      (s : S) (k : K)
      → (v.ctx_set1_verify_cert_store s k).0 ≡ fine tt
      → ctx_store (v.ctx_set1_verify_cert_store s k).1 ≡ some s
  pub ctx_keeps :
      (s : S) (k : K)
      → (v.ctx_set1_verify_cert_store s k).0 ≢ fine tt
      → ctx_store (v.ctx_set1_verify_cert_store s k).1 ≡ ctx_store k
  pub starts : (k : K) (n : N) → v.ssl_new k ≡ fine n → ssl_store n ≡ ctx_store k
  pub ssl_sets :
      (s : S) (n : N)
      → (v.set1_verify_cert_store s n).0 ≡ fine tt
      → ssl_store (v.set1_verify_cert_store s n).1 ≡ some s
  pub ssl_keeps :
      (s : S) (n : N)
      → (v.set1_verify_cert_store s n).0 ≢ fine tt
      → ssl_store (v.set1_verify_cert_store s n).1 ≡ ssl_store n
  pub moves :
      (a b : ℕ) (k : K) (n : N)
      → (v.set_ssl_ctx a b k n).0 ≡ fine tt
      → a ≢ b
      → ssl_store (v.set_ssl_ctx a b k n).1 ≡ ctx_store k
  pub stays : (a : ℕ) (k : K) (n : N) → ssl_store (v.set_ssl_ctx a a k n).1 ≡ ssl_store n
  pub remains :
      (a b : ℕ) (k : K) (n : N)
      → (v.set_ssl_ctx a b k n).0 ≢ fine tt
      → ssl_store (v.set_ssl_ctx a b k n).1 ≡ ssl_store n

-- The store that BoringSSL's own verifier takes: one for verification, or that of the context.
abbrev pub or_cert_store : {S : Type 0} → Option S → S → S
or_cert_store none c = c
or_cert_store (some s) c = s

-- A context as it is built: what BoringSSL made, and the stores that the builder was given in turn.
pub record Plan (K X S : Type 0) : Type 0 where
  pub address : ℕ
  pub native : K
  pub cert_verify : Option (X → ℤ × X)
  pub stores : List S

module _ {K N X S P : Type 0} (v : Verifier K N X S P) where
  give_stores : List S → Context K X S → Context K X S
  give_stores [] c = c
  give_stores (s ∷ ss) c = give_stores ss (ctx_set_verify_cert_store v s c).1

  unfoldable pub built : Plan K X S → Context K X S
  unfolding give_stores
  built p = give_stores p.stores (record {
    address = p.address;
    native = p.native;
    verify_store = none;
    cert_verify = p.cert_verify;
  })

module _ {K N X S P : Type 0} {v : Verifier K N X S P} (l : IsVerifier v) where
  -- A new context of BoringSSL has no store for verification.
  abbrev pub FreshPlan : Plan K X S → Type 0
  FreshPlan p = l.ctx_store p.native ≡ none

  abbrev pub Mirrored : Context K X S → Type 0
  Mirrored c = c.verify_store ≡ l.ctx_store c.native

  ctx_after_set-Mirrored :
      (s : S) (c : Context K X S) (r : Fallible (Unit {0}) × K)
      → (r.0 ≡ fine tt → l.ctx_store r.1 ≡ some s)
      → (r.0 ≢ fine tt → l.ctx_store r.1 ≡ l.ctx_store c.native)
      → Mirrored c
      → Mirrored (ctx_after_set v s c r).1
  unfolding ctx_after_set
  ctx_after_set-Mirrored s c (fine u, k) sets keeps m = sym (sets refl)
  ctx_after_set-Mirrored s c (wrong e, k) sets keeps m = m ∙ sym (keeps (λ p. cc))

  ctx_set-Mirrored :
      (s : S) (c : Context K X S) → Mirrored c → Mirrored (ctx_set_verify_cert_store v s c).1
  unfolding ctx_set_verify_cert_store
  ctx_set-Mirrored s c m = elim (Bool-cases (v.has_x509_support c.native)) [
    | inl e ↦ rw e (
        ctx_after_set-Mirrored s c (v.ctx_set1_verify_cert_store s c.native) (l.ctx_sets s c.native)
          (l.ctx_keeps s c.native) m)
    | inr e ↦ rw e m
  ]

  give_stores-Mirrored :
      (ss : List S) (c : Context K X S) → Mirrored c → Mirrored (give_stores v ss c)
  unfolding give_stores
  give_stores-Mirrored [] c m = m
  give_stores-Mirrored (s ∷ ss) c m =
      give_stores-Mirrored ss (ctx_set_verify_cert_store v s c).1 (ctx_set-Mirrored s c m)

  pub built-Mirrored : (p : Plan K X S) → FreshPlan p → Mirrored (built v p)
  unfolding built
  built-Mirrored p fresh = give_stores-Mirrored p.stores _ (sym fresh)

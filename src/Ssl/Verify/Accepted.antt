-- ===== src/Ssl/Verify/Accepted.antt =====
-- What a chain that `verify_peer_cert_chain` of btls/src/ssl/mod.rs accepts was verified with.
use btls.Prelude.{
  ℕ, zero, suc, ℤ, pos, negsuc, ◌≡◌, refl, sym, ap, ◌∙◌, true, Option, none, some, List, [], ◌∷◌,
  Bool-cases, inl, inr,
}
use btls.Io.{Fallible, fine, wrong, ◌>>=◌}
use btls.Ssl.Async.{ok, err}
use btls.Ssl.Verify.{
  Verifier, invalid_call, Purpose, Ssl, verify_store, set_host, run_verifier, decided, prepared,
  verified, in_store_ctx, of_chain, verify_peer_cert_chain,
}

-- What a store context has been given: the store, the leaf and the chain, and the name to check.
pub record Given (S P : Type 0) : Type 0 where
  pub store : S
  pub leaf : P
  pub chain : List P
  pub host : Option (List ℕ)

-- The documented behaviour of the calls on store contexts; `ssl_host` is the name in the parameters of
-- a connection.
pub record IsStoreCtx {K N X S P : Type 0} (v : Verifier K N X S P) : Type 0 where
  pub given : X → Given S P
  pub ssl_host : N → Option (List ℕ)
  pub inits :
      (s : S) (leaf : P) (chain : List P) (x y : X)
      → v.store_ctx_init s leaf chain x ≡ fine y
      → given y ≡ record { store = s; leaf = leaf; chain = chain; host = none }
  pub sets_ssl : (n : N) (x y : X) → v.store_ctx_set_ssl n x ≡ fine y → given y ≡ given x
  pub sets_default :
      (p : Purpose) (x y : X) → v.store_ctx_set_default p x ≡ fine y → given y ≡ given x
  pub sets_param :
      (n : N) (x y : X)
      → v.param_set1 n x ≡ fine y
      → given y ≡ record (given x) { host = ssl_host n }
  pub sets_host :
      (name : List ℕ) (x y : X)
      → v.param_set1_host name x ≡ fine y
      → given y ≡ record (given x) { host = some name }
  pub sets_callback : (n : N) (x : X) → given (v.set_verify_callback n x) ≡ given x

>>=-fine :
    {A B : Type 0} (m : Fallible A) (f : A → Fallible B) (b : B)
    → m >>= f ≡ fine b
    → (a : A) × (m ≡ fine a) × (f a ≡ fine b)
>>=-fine (fine a) f b h = (a, refl, h)
>>=-fine (wrong e) f b h = absurd (let k : wrong e ≡ fine b = h in cc)

abbrev with_host : {S P : Type 0} → Option (List ℕ) → Given S P → Given S P
with_host o g = record g { host = o }

-- The name that is checked: that of the ECH configuration, unless it is empty, or the connection's.
abbrev pub checked_host : Option (List ℕ) → Option (List ℕ) → Option (List ℕ)
checked_host none host = host
checked_host (some []) host = host
checked_host (some (b ∷ bs)) host = some (b ∷ bs)

module _ {K N X S P : Type 0} {v : Verifier K N X S P} (l : IsStoreCtx v) where
  set_host-given :
      (o : Option (List ℕ)) (x y : X)
      → set_host v o x ≡ fine y
      → l.given y ≡ record (l.given x) { host = checked_host o (l.given x).host }
  unfolding set_host
  set_host-given none x y h = let k : x ≡ y = cc in ap l.given (sym k)
  set_host-given (some []) x y h = let k : x ≡ y = cc in ap l.given (sym k)
  set_host-given (some (b ∷ bs)) x y h = l.sets_host (b ∷ bs) x y h

  -- What is to be verified: the chain of the peer in the chosen store, and the name.
  abbrev pub Asked : Ssl K N X S → P → List P → Given S P
  Asked ssl leaf chain = record {
    store = verify_store v ssl;
    leaf = leaf;
    chain = chain;
    host = checked_host (v.ech_name_override ssl.native) (l.ssl_host ssl.native);
  }

  prepared-given :
      (ssl : Ssl K N X S) (leaf : P) (chain : List P) (x y : X)
      → prepared v ssl leaf chain x ≡ fine y
      → l.given y ≡ Asked ssl leaf chain
  unfolding prepared
  prepared-given ssl leaf chain x y h =
      let a = >>=-fine (v.store_ctx_init (verify_store v ssl) leaf chain x) _ y h in
      let b = >>=-fine (v.store_ctx_set_ssl ssl.native a.0) _ y a.2 in
      let c = >>=-fine (v.store_ctx_set_default _ b.0) _ y b.2 in
      let d = >>=-fine (v.param_set1 ssl.native c.0) _ y c.2 in
      let e = >>=-fine (set_host v (v.ech_name_override ssl.native) d.0) _ y d.2 in
      let k : v.set_verify_callback ssl.native e.0 ≡ y = cc in
      ap l.given (sym k)
      ∙ l.sets_callback ssl.native e.0
      ∙ set_host-given (v.ech_name_override ssl.native) d.0 e.0 e.1
      ∙ ap (λ g. with_host (checked_host (v.ech_name_override ssl.native) g.host) g)
          (l.sets_param ssl.native c.0 d.0 d.1
            ∙ ap (with_host (l.ssl_host ssl.native)) (
                l.sets_default _ b.0 c.0 c.1
                ∙ l.sets_ssl ssl.native a.0 b.0 b.1
                ∙ l.inits (verify_store v ssl) leaf chain x a.0 a.1))

  decided-positive : (r : ℤ × X) → decided v r ≡ ok tt → (n : ℕ) × (r.0 ≡ pos (suc n))
  unfolding decided
  decided-positive (pos (suc n), x) h = (n, refl)
  decided-positive (pos zero, x) h = absurd (cc)
  decided-positive (negsuc n, x) h = absurd (cc)

  -- A run of the verifier that said yes.
  abbrev pub Accepts : Ssl K N X S → Type 0
  Accepts ssl =
      (leaf : P) × (rest : List P) × (x : X) × (n : ℕ) × (v.peer_full_cert_chain ssl.native
        ≡ some (leaf ∷ rest))
      × (l.given x ≡ Asked ssl leaf (leaf ∷ rest))
      × ((run_verifier v ssl.ssl_context.cert_verify x).0 ≡ pos (suc n))

  verified-Accepts :
      (ssl : Ssl K N X S) (leaf : P) (rest : List P) (r : Fallible X)
      → v.peer_full_cert_chain ssl.native ≡ some (leaf ∷ rest)
      → ((x : X) → r ≡ fine x → l.given x ≡ Asked ssl leaf (leaf ∷ rest))
      → verified v ssl r ≡ ok tt
      → Accepts ssl
  unfolding verified
  verified-Accepts ssl leaf rest (wrong e) chain g h = absurd cc
  verified-Accepts ssl leaf rest (fine x) chain g h =
      let d = decided-positive (run_verifier v ssl.ssl_context.cert_verify x) h in
      (leaf, rest, x, d.0, chain, g x refl, d.1)

  in_store-Accepts :
      (ssl : Ssl K N X S) (leaf : P) (rest : List P) (r : Fallible X)
      → v.peer_full_cert_chain ssl.native ≡ some (leaf ∷ rest)
      → in_store_ctx v ssl leaf (leaf ∷ rest) r ≡ ok tt
      → Accepts ssl
  unfolding in_store_ctx
  in_store-Accepts ssl leaf rest (wrong e) chain h = absurd cc
  in_store-Accepts ssl leaf rest (fine x) chain h =
      verified-Accepts ssl leaf rest (prepared v ssl leaf (leaf ∷ rest) x) chain
        (λ y e. prepared-given ssl leaf (leaf ∷ rest) x y e) h

  of_chain-Accepts :
      (ssl : Ssl K N X S) (o : Option (List P))
      → v.peer_full_cert_chain ssl.native ≡ o
      → of_chain v ssl o ≡ ok tt
      → Accepts ssl
  unfolding of_chain
  of_chain-Accepts ssl none e h = absurd cc
  of_chain-Accepts ssl (some []) e h = absurd cc
  of_chain-Accepts ssl (some (leaf ∷ rest)) e h = in_store-Accepts ssl leaf rest v.store_ctx_new e h

  -- For a BoringSSL that keeps its contract: when verify_peer_cert_chain returns Ok, the context has
  -- X.509 support, the peer has sent a chain that is not empty, and the verifier of the context, or
  -- X509_verify_cert without one, returned a positive number on a store context that was given the
  -- chosen store, the first certificate of the chain as the leaf, the whole chain, and as the name to check
  -- that of the ECH configuration where there is one that is not empty, else that of the connection.
  pub verify_peer_cert_chain-Accepts :
      (ssl : Ssl K N X S)
      → verify_peer_cert_chain v ssl ≡ ok tt
      → (v.has_x509_support ssl.ssl_context.native ≡ true) × Accepts ssl
  unfolding verify_peer_cert_chain
  verify_peer_cert_chain-Accepts ssl h =
      elim (Bool-cases (v.has_x509_support ssl.ssl_context.native)) [
        | inl e ↦ (e, of_chain-Accepts ssl (v.peer_full_cert_chain ssl.native) refl (rw e at h))
        | inr e ↦ let k : err invalid_call ≡ ok tt = rw e at h in absurd cc
      ]

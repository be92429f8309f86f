-- ===== src/Ssl/Verify.antt =====
-- The verification of a peer's chain in btls/src/ssl/mod.rs: the stores that contexts and connections
-- have for it, `set_ssl_context` and `verify_peer_cert_chain`.
pub mod Built
pub mod Stores
pub mod Accepted
use btls.Prelude.{
  ℕ, zero, suc, ℤ, pos, negsuc, Bool, true, false, Option, none, some, List, [], ◌∷◌, ◌==◌,
  if◌then◌else◌,
}
use btls.Io.{Fallible, fine, wrong, ◌>>=◌}
use btls.Ssl.Async.{Result, ok, err, Call, returned, panicked}
use btls.Ssl.Connector.{bool_eq}

-- `X509VerifyError`: the constants that the code names, and any other.
pub data X509VerifyError : Type 0 where
  invalid_call out_of_mem unspecified : X509VerifyError
  verify_code : ℕ → X509VerifyError

-- The purposes that it passes to `X509_STORE_CTX_set_default`
pub data Purpose : Type 0 where
  ssl_client ssl_server : Purpose

-- The functions of BoringSSL on contexts `K`, connections `N`, and store contexts `X`, with stores `S`
-- and certificates `P`; each has its `cvt`. `set_ssl_ctx` has the addresses of the two contexts.
pub record Verifier (K N X S P : Type 0) : Type 0 where
  pub has_x509_support : K → Bool
  pub cert_store : K → S
  pub ctx_set1_verify_cert_store : S → K → Fallible (Unit {0}) × K
  pub ssl_new : K → Fallible N
  pub set1_verify_cert_store : S → N → Fallible (Unit {0}) × N
  pub set_ssl_ctx : ℕ → ℕ → K → N → Fallible (Unit {0}) × N
  pub peer_full_cert_chain : N → Option (List P)
  pub is_server : N → Bool
  pub ech_name_override : N → Option (List ℕ)
  pub store_ctx_new : Fallible X
  pub store_ctx_init : S → P → List P → X → Fallible X
  pub store_ctx_set_ssl : N → X → Fallible X
  pub store_ctx_set_default : Purpose → X → Fallible X
  pub param_set1 : N → X → Fallible X
  pub param_set1_host : List ℕ → X → Fallible X
  pub set_verify_callback : N → X → X
  pub verify_cert : X → ℤ × X
  pub verify_result : X → Option X509VerifyError

-- `SslContext`: its address, BoringSSL's part, and the ex data at `VERIFY_STORE_INDEX` and
-- `CERT_VERIFY_INDEX`.
pub record Context (K X S : Type 0) : Type 0 where
  pub address : ℕ
  pub native : K
  pub verify_store : Option S
  pub cert_verify : Option (X → ℤ × X)

-- `Ssl`: BoringSSL's part, the context, and the ex data at `SSL_VERIFY_STORE_INDEX`.
pub record Ssl (K N X S : Type 0) : Type 0 where
  pub native : N
  pub ssl_context : Context K X S
  pub verify_store : Option (Option S)

module _ {K N X S P : Type 0} (v : Verifier K N X S P) where
  -- `SslContextBuilder::set_verify_cert_store`; `check_x509` panics without X.509 support.
  ctx_after_set : S → Context K X S → Fallible (Unit {0}) × K → Fallible (Unit {0}) × Context K X S
  ctx_after_set s c (fine u, k) = (fine u, record c { native = k; verify_store = some s })
  ctx_after_set s c (wrong e, k) = (wrong e, record c { native = k })

  unfoldable pub ctx_set_verify_cert_store :
      S → Context K X S → Call (Fallible (Unit {0})) × Context K X S
  unfolding ctx_after_set
  ctx_set_verify_cert_store s c =
      if v.has_x509_support c.native
      then (let r = ctx_after_set s c (v.ctx_set1_verify_cert_store s c.native) in
          (returned r.0, r.1))
      else (panicked, c)

  -- `Ssl::new`, without the ex data of other parts
  created : Context K X S → Fallible N → Fallible (Ssl K N X S)
  created c (fine n) = fine (record { native = n; ssl_context = c; verify_store = none })
  created c (wrong e) = wrong e

  unfoldable pub new : Context K X S → Fallible (Ssl K N X S)
  unfolding created
  new c = created c (v.ssl_new c.native)

  -- `SslRef::set_verify_cert_store`
  after_set : S → Ssl K N X S → Fallible (Unit {0}) × N → Fallible (Unit {0}) × Ssl K N X S
  after_set s ssl (fine u, n) = (fine u, record ssl { native = n; verify_store = some (some s) })
  after_set s ssl (wrong e, n) = (wrong e, record ssl { native = n })

  unfoldable pub set_verify_cert_store : S → Ssl K N X S → Call (Fallible (Unit {0})) × Ssl K N X S
  unfolding after_set
  set_verify_cert_store s ssl =
      if v.has_x509_support ssl.ssl_context.native
      then (let r = after_set s ssl (v.set1_verify_cert_store s ssl.native) in (returned r.0, r.1))
      else (panicked, ssl)

  -- `SslRef::set_ssl_context`: a store of the connection's own is dropped with its context.
  dropped : Option (Option S) → Option (Option S)
  dropped none = none
  dropped (some o) = some none

  after_change :
      Context K X S → Ssl K N X S → Fallible (Unit {0}) × N → Fallible (Unit {0}) × Ssl K N X S
  unfolding dropped
  after_change c ssl (fine u, n) =
      if ssl.ssl_context.address == c.address
      then (fine u, record ssl { native = n })
      else (fine u, record { native = n; ssl_context = c; verify_store = dropped ssl.verify_store })
  after_change c ssl (wrong e, n) = (wrong e, record ssl { native = n })

  unfoldable pub set_ssl_context :
      Context K X S → Ssl K N X S → Call (Fallible (Unit {0})) × Ssl K N X S
  unfolding after_change
  set_ssl_context c ssl =
      if bool_eq (v.has_x509_support ssl.ssl_context.native) (v.has_x509_support c.native)
      then (let r =
            after_change c ssl
              (v.set_ssl_ctx ssl.ssl_context.address c.address c.native ssl.native) in
          (returned r.0, r.1))
      else (panicked, ssl)

  -- The store of `verify_peer_cert_chain`
  pick : Option (Option S) → Option S → S → S
  pick (some (some s)) o c = s
  pick (some none) (some s) c = s
  pick (some none) none c = c
  pick none (some s) c = s
  pick none none c = c

  unfoldable pub verify_store : Ssl K N X S → S
  unfolding pick
  verify_store ssl =
      pick ssl.verify_store ssl.ssl_context.verify_store (v.cert_store ssl.ssl_context.native)

  set_host : Option (List ℕ) → X → Fallible X
  set_host none x = fine x
  set_host (some []) x = fine x
  set_host (some (b ∷ bs)) x = v.param_set1_host (b ∷ bs) x

  unfoldable pub run_verifier : Option (X → ℤ × X) → X → ℤ × X
  run_verifier none x = v.verify_cert x
  run_verifier (some callback) x = callback x

  -- `store_ctx.verify_result().err().unwrap_or(UNSPECIFIED)`
  rejection : Option X509VerifyError → X509VerifyError
  rejection none = unspecified
  rejection (some e) = e

  unfoldable pub decided : ℤ × X → Result (Unit {0}) X509VerifyError
  unfolding rejection
  decided (pos (suc n), x) = ok tt
  decided (pos zero, x) = err (rejection (v.verify_result x))
  decided (negsuc n, x) = err (rejection (v.verify_result x))

  -- What is set on the store context before the verifier runs, the store and the chain included.
  unfoldable pub prepared : Ssl K N X S → P → List P → X → Fallible X
  unfolding verify_store set_host
  prepared ssl leaf chain x = do
    a ← v.store_ctx_init (verify_store ssl) leaf chain x
    b ← v.store_ctx_set_ssl ssl.native a
    c ← v.store_ctx_set_default (if v.is_server ssl.native then ssl_client else ssl_server) b
    d ← v.param_set1 ssl.native c
    e ← set_host (v.ech_name_override ssl.native) d
    fine (v.set_verify_callback ssl.native e)

  verified : Ssl K N X S → Fallible X → Result (Unit {0}) X509VerifyError
  unfolding decided run_verifier
  verified ssl (fine x) = decided (run_verifier ssl.ssl_context.cert_verify x)
  verified ssl (wrong e) = err unspecified

  in_store_ctx : Ssl K N X S → P → List P → Fallible X → Result (Unit {0}) X509VerifyError
  unfolding verified prepared
  in_store_ctx ssl leaf chain (wrong e) = err out_of_mem
  in_store_ctx ssl leaf chain (fine x) = verified ssl (prepared ssl leaf chain x)

  of_chain : Ssl K N X S → Option (List P) → Result (Unit {0}) X509VerifyError
  unfolding in_store_ctx
  of_chain ssl none = err invalid_call
  of_chain ssl (some []) = err invalid_call
  of_chain ssl (some (leaf ∷ rest)) = in_store_ctx ssl leaf (leaf ∷ rest) v.store_ctx_new

  -- `verify_peer_cert_chain`
  unfoldable pub verify_peer_cert_chain : Ssl K N X S → Result (Unit {0}) X509VerifyError
  unfolding of_chain
  verify_peer_cert_chain ssl =
      if v.has_x509_support ssl.ssl_context.native
      then of_chain ssl (v.peer_full_cert_chain ssl.native)
      else err invalid_call

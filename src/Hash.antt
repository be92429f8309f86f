-- ===== src/Hash.antt =====
-- `Hasher` of btls/src/hash.rs: the state machine around a digest context of BoringSSL.
pub mod Chunks
use btls.Prelude.{ℕ, Bool, true, false, List, [], ◌∷◌, if◌then◌else◌, length}
use btls.Io.{ErrorStack, Fallible, fine, wrong}

-- `State`
pub data State : Type 0 where
  reset updated finalized : State

-- The functions of BoringSSL on a context `X` of one digest: whether each succeeds, and the context
-- after it. `absorbed` is no function: it names the bytes fed since the last initialisation.
pub record Evp (X : Type 0) : Type 0 where
  pub digest_init : X → Bool × X
  pub digest_update : X → List ℕ → Bool × X
  pub digest_final : X → Bool × List ℕ × X
  pub digest_final_xof : X → ℕ → Bool × List ℕ × X
  pub err_get : X → ErrorStack × X
  pub absorbed : X → List ℕ

-- `Hasher`: the digest is fixed by `Evp`.
pub record Hasher (X : Type 0) : Type 0 where
  pub ctx : X
  pub state : State

abbrev pub is_finalized : State → Bool
is_finalized finalized = true
is_finalized _ = false

module _ {X : Type 0} (v : Evp X) where
  -- `Result<A, ErrorStack>` with the hasher after the call
  abbrev pub Done : Type 0 → Type 0
  Done A = Fallible A × Hasher X

  -- `cvt(...)?`: the errors, with the hasher in the state that it was in.
  abbrev pub fails : {A : Type 0} → X → State → Done A
  fails c s = let (e, c') = v.err_get c in (wrong e, record { ctx = c'; state = s })

  -- `DigestBytes` of `EVP_DigestFinal_ex`, from a hasher that is not finalized
  pub final : State → Bool × List ℕ × X → Done (List ℕ)
  final s (true, out, c) = (fine out, record { ctx = c; state = finalized })
  final s (false, out, c) = fails c s

  pub finish_now : Hasher X → Done (List ℕ)
  unfolding final
  finish_now h = final h.state (v.digest_final h.ctx)

  -- `EVP_DigestInit_ex` at the end of `init`
  pub inited : State → Bool × X → Done (Unit {0})
  inited s (true, c) = (fine tt, record { ctx = c; state = reset })
  inited s (false, c) = fails c s

  pub after_finish : Done (List ℕ) → Done (Unit {0})
  unfolding inited
  after_finish (fine out, h) = inited h.state (v.digest_init h.ctx)
  after_finish (wrong e, h) = (wrong e, h)

  pub init_at : State → Hasher X → Done (Unit {0})
  unfolding after_finish finish_now
  init_at reset h = (fine tt, h)
  init_at updated h = after_finish (finish_now h)
  init_at finalized h = inited h.state (v.digest_init h.ctx)

  -- `init`; the `finish` that it calls does not call `init` again, since the state is `updated`.
  unfoldable pub init : Hasher X → Done (Unit {0})
  unfolding init_at
  init h = init_at h.state h

  -- `if self.state == Finalized { self.init()?; }`
  unfoldable pub ready : Hasher X → Done (Unit {0})
  unfolding init
  ready h = if is_finalized h.state then init h else (fine tt, h)

  pub fed : State → Bool × X → Done (Unit {0})
  fed s (true, c) = (fine tt, record { ctx = c; state = updated })
  fed s (false, c) = fails c s

  pub update_ready : List ℕ → Done (Unit {0}) → Done (Unit {0})
  unfolding fed
  update_ready bytes (fine _, h) = fed h.state (v.digest_update h.ctx bytes)
  update_ready bytes (wrong e, h) = (wrong e, h)

  -- `update`
  unfoldable pub update : Hasher X → List ℕ → Done (Unit {0})
  unfolding update_ready ready
  update h bytes = update_ready bytes (ready h)

  pub finish_ready : Done (Unit {0}) → Done (List ℕ)
  unfolding finish_now
  finish_ready (fine _, h) = finish_now h
  finish_ready (wrong e, h) = (wrong e, h)

  -- `finish`
  unfoldable pub finish : Hasher X → Done (List ℕ)
  unfolding finish_ready ready
  finish h = finish_ready (ready h)

  pub xof_ready : ℕ → Done (Unit {0}) → Done (List ℕ)
  unfolding final
  xof_ready n (fine _, h) = final h.state (v.digest_final_xof h.ctx n)
  xof_ready n (wrong e, h) = (wrong e, h)

  -- `finish_xof` into a buffer of `n` bytes
  unfoldable pub finish_xof : Hasher X → ℕ → Done (List ℕ)
  unfolding xof_ready ready
  finish_xof h n = xof_ready n (ready h)

  -- `Hasher::new` on a context from `EVP_MD_CTX_new`
  unfoldable pub new : X → Done (Unit {0})
  unfolding init
  new c = init (record { ctx = c; state = finalized })

  -- The calls of `update` with each of some chunks, which end at the first error.
  pub then_update : (Hasher X → Done (Unit {0})) → Done (Unit {0}) → Done (Unit {0})
  then_update f (fine _, h) = f h
  then_update f (wrong e, h) = (wrong e, h)

  unfoldable pub update_all : List (List ℕ) → Hasher X → Done (Unit {0})
  unfolding update then_update
  update_all [] h = (fine tt, h)
  update_all (b ∷ bs) h = then_update (update_all bs) (update h b)

  pub finish_done : Done (Unit {0}) → Done (List ℕ)
  unfolding finish
  finish_done (fine _, h) = finish h
  finish_done (wrong e, h) = (wrong e, h)

  -- `hash` of the chunks one after the other; for one chunk it is the function `hash`.
  unfoldable pub hash_chunks : X → List (List ℕ) → Done (List ℕ)
  unfolding new update_all finish_done then_update
  hash_chunks c chunks = finish_done (then_update (update_all chunks) (new c))

-- ===== src/Hash/Chunks.antt =====
-- What a digest of `Hasher` in btls/src/hash.rs depends on.
use btls.Prelude.{
  ℕ, ◌≡◌, refl, sym, ap, ◌∙◌, Bool, true, false, List, [], ◌∷◌, ◌++◌, flatten, append-nil,
  append_assoc, if◌then◌else◌,
}
use btls.Io.{fine, wrong}
use btls.Hash.{
  State, reset, updated, finalized, Evp, Hasher, Done, final, finish_now, inited, init_at, init,
  ready, is_finalized, fed, update_ready, update, finish_ready, finish, new, then_update,
  update_all, finish_done, hash_chunks,
}

-- The documented behaviour of a context: a success of each function does what it is for.
pub record IsEvp {X : Type 0} (v : Evp X) (digest : List ℕ → List ℕ) : Type 0 where
  pub inits : (c : X) → (v.digest_init c).0 ≡ true → v.absorbed (v.digest_init c).1 ≡ []
  pub updates :
      (c : X) (b : List ℕ)
      → (v.digest_update c b).0 ≡ true
      → v.absorbed (v.digest_update c b).1 ≡ v.absorbed c ++ b
  pub finals : (c : X) → (v.digest_final c).0 ≡ true → (v.digest_final c).1 ≡ digest (v.absorbed c)

-- `Excuse` follows where any call of BoringSSL fails: it is empty where none does.
pub record Excused {X : Type 0} (v : Evp X) (Excuse : Type 0) : Type 0 where
  pub init_failed : (c : X) → (v.digest_init c).0 ≡ false → Excuse
  pub update_failed : (c : X) (b : List ℕ) → (v.digest_update c b).0 ≡ false → Excuse
  pub final_failed : (c : X) → (v.digest_final c).0 ≡ false → Excuse

module _ {X : Type 0} {v : Evp X} {digest : List ℕ → List ℕ} (l : IsEvp v digest) {Excuse : Type 0}
    (x : Excused v Excuse) where
  -- `log` is what the next `finish` hashes.
  abbrev pub Tracks : State → X → List ℕ → Type 0
  Tracks finalized c log = log ≡ []
  Tracks reset c log = v.absorbed c ≡ log
  Tracks updated c log = v.absorbed c ≡ log

  -- After a call that returned `Ok`, `log` is hashed next.
  abbrev pub Leaves : List ℕ → Done v (Unit {0}) → Type 0
  Leaves log (fine _, h) = (v.absorbed h.ctx ≡ log) × (is_finalized h.state ≡ false)
  Leaves log (wrong e, h) = Excuse

  inited-Leaves :
      (s : State) (r : Bool × X)
      → (r.0 ≡ true → v.absorbed r.1 ≡ [])
      → (r.0 ≡ false → Excuse)
      → Leaves [] (inited v s r)
  unfolding inited
  inited-Leaves s (true, c) e f = (e refl, refl)
  inited-Leaves s (false, c) e f = f refl

  ready-Leaves :
      (h : Hasher X) (s : State) (log : List ℕ)
      → Tracks s h.ctx log
      → Leaves log (
          if is_finalized s
          then init_at v s (record { ctx = h.ctx; state = s })
          else (fine tt, record { ctx = h.ctx; state = s }))
  unfolding init_at
  ready-Leaves h reset log t = (t, refl)
  ready-Leaves h updated log t = (t, refl)
  ready-Leaves h finalized log t =
      rw t (inited-Leaves finalized (v.digest_init h.ctx) (l.inits h.ctx) (x.init_failed h.ctx))

  fed-Leaves :
      (s : State) (log bytes : List ℕ) (r : Bool × X)
      → (r.0 ≡ true → v.absorbed r.1 ≡ log ++ bytes)
      → (r.0 ≡ false → Excuse)
      → Leaves (log ++ bytes) (fed v s r)
  unfolding fed
  fed-Leaves s log bytes (true, c) e f = (e refl, refl)
  fed-Leaves s log bytes (false, c) e f = f refl

  update_ready-Leaves :
      (log bytes : List ℕ) (r : Done v (Unit {0}))
      → Leaves log r
      → Leaves (log ++ bytes) (update_ready v bytes r)
  unfolding update_ready
  update_ready-Leaves log bytes (fine _, h) (e, f) =
      fed-Leaves h.state log bytes (v.digest_update h.ctx bytes)
        (λ k. l.updates h.ctx bytes k ∙ ap (λ y. y ++ bytes) e) (x.update_failed h.ctx bytes)
  update_ready-Leaves log bytes (wrong e, h) t = t

  Leaves-Tracks :
      (log : List ℕ) (c : X) (s : State)
      → v.absorbed c ≡ log
      → is_finalized s ≡ false
      → Tracks s c log
  Leaves-Tracks log c reset e f = e
  Leaves-Tracks log c updated e f = e
  Leaves-Tracks log c finalized e f = cc

  update-Leaves :
      (h : Hasher X) (log bytes : List ℕ)
      → Tracks h.state h.ctx log
      → Leaves (log ++ bytes) (update v h bytes)
  unfolding update ready init
  update-Leaves h log bytes t = update_ready-Leaves log bytes _ (ready-Leaves h h.state log t)

  update_all-Leaves :
      (chunks : List (List ℕ)) (log : List ℕ) (r : Done v (Unit {0}))
      → Leaves log r
      → Leaves (log ++ flatten chunks) (then_update v (update_all v chunks) r)
  unfolding then_update update_all
  update_all-Leaves chunks log (wrong e, h) t = t
  update_all-Leaves [] log (fine _, h) t = (t.0 ∙ sym (append-nil log), t.1)
  update_all-Leaves (b ∷ bs) log (fine _, h) t = rw (← append_assoc log b (flatten bs)) (
      update_all-Leaves bs (log ++ b) (update v h b)
        (update-Leaves h log b (Leaves-Tracks log h.ctx h.state t.0 t.1)))

  -- A result that is the digest of `log`, or an error.
  abbrev pub Digests : List ℕ → Done v (List ℕ) → Type 0
  Digests log (fine out, h) = (out ≡ digest log) × (h.state ≡ finalized)
  Digests log (wrong e, h) = Excuse

  final-Digests :
      (s : State) (log : List ℕ) (r : Bool × List ℕ × X)
      → (r.0 ≡ true → r.1 ≡ digest log)
      → (r.0 ≡ false → Excuse)
      → Digests log (final v s r)
  unfolding final
  final-Digests s log (true, out, c) e f = (e refl, refl)
  final-Digests s log (false, out, c) e f = f refl

  finish_ready-Digests :
      (log : List ℕ) (r : Done v (Unit {0})) → Leaves log r → Digests log (finish_ready v r)
  unfolding finish_ready finish_now
  finish_ready-Digests log (fine _, h) t =
      final-Digests h.state log (v.digest_final h.ctx) (λ k. l.finals h.ctx k ∙ ap digest t.0)
        (x.final_failed h.ctx)
  finish_ready-Digests log (wrong e, h) t = t

  -- For a digest context that keeps its contract, unless a call of BoringSSL fails: finish returns
  -- Ok of the digest of what was fed since the last finish, of no bytes if nothing was, and leaves
  -- the hasher finalized.
  pub finish-Digests :
      (h : Hasher X) (log : List ℕ) → Tracks h.state h.ctx log → Digests log (finish v h)
  unfolding finish ready init
  finish-Digests h log t = finish_ready-Digests log _ (ready-Leaves h h.state log t)

  finish_done-Digests :
      (log : List ℕ) (r : Done v (Unit {0})) → Leaves log r → Digests log (finish_done v r)
  unfolding finish_done
  finish_done-Digests log (fine _, h) t =
      finish-Digests h log (Leaves-Tracks log h.ctx h.state t.0 t.1)
  finish_done-Digests log (wrong e, h) t = t

  -- For a digest context that keeps its contract, unless a call of BoringSSL fails: a new hasher
  -- that is fed chunks and finished returns Ok of the digest of the chunks one after the other,
  -- however they are cut.
  pub hash_chunks-Digests :
      (c : X) (chunks : List (List ℕ)) → Digests (flatten chunks) (hash_chunks v c chunks)
  unfolding hash_chunks new init init_at
  hash_chunks-Digests c chunks = finish_done-Digests (flatten chunks) _ (
      update_all-Leaves chunks [] _
        (inited-Leaves finalized (v.digest_init c) (l.inits c) (x.init_failed c)))

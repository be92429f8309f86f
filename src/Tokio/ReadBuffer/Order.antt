-- ===== src/Tokio/ReadBuffer/Order.antt =====
-- `ReadBuffer::read` of tokio-btls/src/lib.rs and the ciphertext that it hands to BoringSSL.
use btls.Prelude.{
  ℕ, ◌+◌, ◌≤◌, ◌<◌, ◌≡◌, ◌⊎◌, refl, sym, ap, ◌∙◌, inl, inr, min, List, [], ◌++◌, arith, ◌==◌, ==→eq,
  if◌then◌else◌, if_split, length, take, drop-drop, drop_all, take_all, append-nil, append_assoc,
  take-append-drop, length-drop, length-take,
}
use btls.Io.{would_block, from_kind, IoResult, ok, err, Poll, ready, pending}
use btls.Tokio.Limits.{read_buf_capacity}
use btls.Tokio.Host.{Host, IsHost, Fills}
use btls.Tokio.ReadBuffer.{
  ReadBuffer, default, is_empty, buffered, Filled, filled, fill, copy_out, ReadResult, after_fill,
  read,
}

-- Bytes wait exactly where the vector is not empty: "a drained buffer is released at once".
abbrev pub IsValid : ReadBuffer → Type 0
IsValid r = (r.pos < length r.bytes) ⊎ ((r.pos ≡ 0) × (r.bytes ≡ []))

module _ {S : Type 0} {h : Host S} (l : IsHost h) where
  -- `before` is what was handed out so far: with what waits, it is what the transport gave.
  abbrev pub Tracks : List ℕ → ReadBuffer → S → Type 0
  Tracks before r s = h.got s ≡ before ++ buffered r

  copy_out-lem :
      (room : ℕ) (r : ReadBuffer)
      → r.pos ≤ length r.bytes
      → let (bytes, r') = copy_out h room r in
        (bytes ++ buffered r' ≡ buffered r)
        × IsValid r'
        × (length bytes ≡ min (length (buffered r)) room)
  unfolding copy_out
  copy_out-lem room r p = (split, valid, omega (arith, length-take n (buffered r)))
    where
      n : ℕ
      n = min (length (buffered r)) room

      split :
          take n (buffered r)
            ++ buffered
                (if r.pos + n == length r.bytes then default else record r { pos = r.pos + n })
          ≡ buffered r
      split =
          if_split (λ x. take n (buffered r) ++ buffered x ≡ buffered r)
            (r.pos + n == length r.bytes)
            (λ e.
              append-nil _
              ∙ take_all n (buffered r) (omega (arith, ==→eq _ _ e, length-drop r.pos r.bytes)))
            λ _.
              ap (λ x. take n (buffered r) ++ x) (sym (drop-drop n r.pos r.bytes))
              ∙ take-append-drop n (buffered r)

      valid :
          IsValid (if r.pos + n == length r.bytes then default else record r { pos = r.pos + n })
      valid =
          if_split IsValid (r.pos + n == length r.bytes) (λ _. inr (refl, refl))
            λ ne. inl (ground (arith, length-drop r.pos r.bytes))

  -- What `read` may return, after `before` was handed out: bytes, no more than there is room for, or
  -- an error and nothing handed out.
  abbrev pub Delivers : ℕ → List ℕ → ReadResult h → Type 0
  Delivers room before (ok bytes, r, s) =
      (length bytes ≤ room) × Tracks (before ++ bytes) r s × IsValid r
  Delivers room before (err e, r, s) = Tracks before r s × IsValid r

  abbrev FillKeeps : List ℕ → Filled h → Type 0
  FillKeeps before (o, r, s) =
      Tracks before r s × (r.pos ≤ length r.bytes) × ((e : btls.Io.IoError) → o ≡ err e → IsValid r)

  filled-keeps :
      (before : List ℕ) (room : ℕ) (s s' : S) (polled : Poll (List ℕ))
      → h.got s ≡ before
      → Fills room (h.got s) polled (h.got s')
      → FillKeeps before (filled h polled s')
  unfolding filled
  filled-keeps before room s s' (ready (ok bytes)) e f =
      (f.1 ∙ ap (λ x. x ++ bytes) e, omega arith, λ x y. cc)
  filled-keeps before room s s' (ready (err x)) e f =
      (f ∙ e ∙ sym (append-nil before), omega arith, λ _ _. inr (refl, refl))
  filled-keeps before room s s' pending e f =
      (f ∙ e ∙ sym (append-nil before), omega arith, λ _ _. inr (refl, refl))

  after_fill-Delivers :
      (room : ℕ) (before : List ℕ) (f : Filled h)
      → FillKeeps before f
      → Delivers room before (after_fill h room f)
  unfolding after_fill
  after_fill-Delivers room before (ok u, r, s) (t, p, v) =
      let c = copy_out-lem room r p in
      (omega (arith, c.2), t ∙ ap (λ x. before ++ x) (sym c.0) ∙ sym (append_assoc before _ _), c.1)
  after_fill-Delivers room before (err e, r, s) (t, p, v) = (t, v e refl)

  -- For a transport that keeps its contract and a valid buffer: ReadBuffer::read returns the bytes
  -- that follow those handed out before, at most as many as fit, or an error; in both cases nothing
  -- that the transport gave is lost or repeated.
  pub read-Delivers :
      (room : ℕ) (before : List ℕ) (r : ReadBuffer) (s : S)
      → IsValid r
      → Tracks before r s
      → Delivers room before (read h r s room)
  unfolding read fill
  read-Delivers room before r s v t = after_fill-Delivers room before _ (
      if_split (FillKeeps before) (is_empty r)
        (λ e.
          filled-keeps before _ s _ _
            (t
              ∙ ap (λ x. before ++ x) (drop_all r.pos r.bytes (omega (arith, ==→eq _ _ e)))
              ∙ append-nil before)
            (l.reads (h.reserve 0 0 read_buf_capacity) s).0)
        (λ _. (t, ground (arith, v), λ x y. cc)))

  after_fill-host : (room : ℕ) (f : Filled h) → (after_fill h room f).2 ≡ f.2
  unfolding after_fill
  after_fill-host room (ok u, r, s) = refl
  after_fill-host room (err e, r, s) = refl

  filled-host : (polled : Poll (List ℕ)) (s : S) → (filled h polled s).2 ≡ s
  unfolding filled
  filled-host (ready (ok b)) s = refl
  filled-host (ready (err e)) s = refl
  filled-host pending s = refl

  -- Reading sends nothing.
  pub wire-read : (room : ℕ) (r : ReadBuffer) (s : S) → h.wire (read h r s room).2 ≡ h.wire s
  unfolding read fill
  wire-read room r s =
      ap h.wire (after_fill-host room _)
      ∙ if_split (λ (f : Filled h). h.wire f.2 ≡ h.wire s) (is_empty r)
          (λ _. ap h.wire (filled-host _ _) ∙ (l.reads (h.reserve 0 0 read_buf_capacity) s).1)
          (λ _. refl)

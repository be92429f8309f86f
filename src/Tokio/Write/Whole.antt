-- ===== src/Tokio/Write/Whole.antt =====
-- `write_records` of tokio-btls/src/lib.rs and the plaintext that it seals.
use btls.Prelude.{
  usize_max, ℕ, ◌+◌, ◌-◌, ◌≤◌, ◌≡◌, refl, sym, ap, ◌∙◌, min, true, ◌&&◌, Option, none, some, List,
  ◌++◌, arith, length, take, drop, flatten, if_split, if_both, length-drop, take_add, leb, ltb,
  ltb→lt, ◌==◌, ==→eq, append_assoc, append-nil, subst,
}
use btls.Io.{IoResult, ok, err}
use btls.Bio.{returned, panicked}
use btls.Ssl.Boring.{Boring, IsBoring}
use btls.Ssl.Seal.{Seal, sealed, declines, fails, seal_app_data}
use btls.Ssl.Seal.Laws.{Sealing, seal_app_data-Sealing}
use btls.Ssl.Stream.{Tried}
use btls.Tokio.Host.{Host}
use btls.Tokio.Limits.{max_record, seal_stack_len}
use btls.Tokio.WriteBuffer
use btls.Tokio.WriteBuffer.{WriteBuffer}
use btls.Tokio.Wrapper.{stream, with_write_buf}
use btls.Tokio.Write.{
  Tls, wrapper, put, write_buffered, on_stack, seal_on_stack, plus, after_stack, seal_all,
  after_retry, write_records, advance_slices, total_from,
}
use btls.Tokio.Write.Advance.{flatten-advance_slices, total_from_lem}
use btls.Tokio.Write.Loop.{Ends}
use btls.Tokio.Write.Plain.{Told, write_buffered-Told}

module _ {C S : Type 0} {g : Boring C} (l : IsBoring g) (h : Host S) (patience : ℕ) where
  -- The same of `seal_on_stack`.
  abbrev StackTold : List ℕ → List ℕ → IoResult (Option ℕ) × Tls C S → Type 0
  StackTold before all (ok (some n), s) =
      (n ≤ length all) × (min 1 (length all) ≤ n) × (g.sealed s.conn ≡ before ++ take n all)
  StackTold before all (ok none, s) = g.sealed s.conn ≡ before
  StackTold before all (err e, s) = g.sealed s.conn ≡ before

  on_stack-StackTold :
      (before all : List ℕ) (total max_out : ℕ) (s : Tls C S) (r : Seal × C)
      → Sealing l before all max_out r
      → StackTold before all (on_stack g h s total r)
  unfolding on_stack
  on_stack-StackTold before all total max_out s (sealed n out, c) t = (t.0, t.1, t.3)
  on_stack-StackTold before all total max_out s (declines, c) t = t
  on_stack-StackTold before all total max_out s (fails e, c) t = t

  seal_on_stack-StackTold :
      (s : Tls C S) (bufs : List (List ℕ)) (total : ℕ)
      → 1 ≤ total
      → StackTold (g.sealed s.conn) (flatten bufs) (seal_on_stack g h s bufs total)
  unfolding seal_on_stack
  seal_on_stack-StackTold s bufs total t =
      on_stack-StackTold (g.sealed s.conn) (flatten bufs) total seal_stack_len s
        (seal_app_data g s.conn bufs total seal_stack_len)
        (seal_app_data-Sealing l s.conn bufs total seal_stack_len (omega (arith, t)))

  -- The rest of the slices follows what was sealed on the stack.
  plus-Told :
      (before all : List ℕ) (n : ℕ)
      → n ≤ length all
      → min 1 (length all) ≤ n
      → (t : Tried g (stream h) ℕ) → Told l h patience (before ++ take n all) (drop n all) t
      → Told l h patience before all (plus g h n t)
  plus-Told before all n hi lo none t = t
  plus-Told before all n hi lo (some (returned (ok m), s)) t = (
    omega (arith, t.0, length-drop n all),
    omega (arith, lo),
    t.2
        ∙ append_assoc before (take n all) (take m (drop n all))
        ∙ ap (λ x. before ++ x) (take_add n m all),
  )
  plus-Told before all n hi lo (some (returned (err e), s)) t = (
    omega (arith, hi),
    omega (arith, lo),
    t ∙ ap (λ k. before ++ take k all) {x = n} {y = n + 0} (omega arith),
  )
  plus-Told before all n hi lo (some (panicked x, s)) (k, (hk, e)) = (
    n + k,
    (
      omega (arith, hk, length-drop n all),
      e
          ∙ append_assoc before (take n all) (take k (drop n all))
          ∙ ap (λ x. before ++ x) (take_add n k all),
    ),
  )

  after_stack-Told :
      (before : List ℕ) (bufs : List (List ℕ)) (total : ℕ)
      → Ends l h patience
      → 1 ≤ total
      → (r : IoResult (Option ℕ) × Tls C S) → StackTold before (flatten bufs) r
      → Told l h patience before (flatten bufs) (after_stack g h patience bufs total r)
  unfolding after_stack
  after_stack-Told before bufs total term t (err e, s) k = k
  after_stack-Told before bufs total term t (ok none, s) k =
      subst (λ b. Told l h patience b (flatten bufs) (write_buffered g h patience s bufs total)) k
        (write_buffered-Told l h patience bufs total s term t)
  after_stack-Told before bufs total term t (ok (some n), s) k =
      if_split (Told l h patience before (flatten bufs)) (ltb n total)
        (λ lt. plus-Told before (flatten bufs) n k.0 k.1 rest (after lt)) (λ _. k)
    where
      rest : Tried g (stream h) ℕ
      rest = write_buffered g h patience s (advance_slices n bufs) (total - n)

      after :
          ltb n total ≡ true
          → Told l h patience (before ++ take n (flatten bufs)) (drop n (flatten bufs)) rest
      after lt =
          subst (λ b. Told l h patience b (drop n (flatten bufs)) rest) k.2
            (subst (λ x. Told l h patience (g.sealed s.conn) x rest) (flatten-advance_slices n bufs)
              (write_buffered-Told l h patience (advance_slices n bufs) (total - n) s term
                (omega (arith, ltb→lt _ _ lt))))

  seal_all-Told :
      (bufs : List (List ℕ)) (total : ℕ) (s : Tls C S)
      → Ends l h patience
      → total ≡ min (length (flatten bufs)) usize_max
      → Told l h patience (g.sealed s.conn) (flatten bufs) (seal_all g h patience s bufs total)
  unfolding seal_all
  seal_all-Told bufs total s term e =
      if_split (Told l h patience (g.sealed s.conn) (flatten bufs)) (total == 0)
        (λ z. (omega arith, omega (arith, e, ==→eq total 0 z), sym (append-nil (g.sealed s.conn))))
        λ z.
          if_both (Told l h patience (g.sealed s.conn) (flatten bufs))
            (leb total max_record && WriteBuffer.is_empty (wrapper s).write_buf)
            (after_stack-Told (g.sealed s.conn) bufs total term (ground arith)
              (seal_on_stack g h s bufs total)
              (seal_on_stack-StackTold s bufs total (ground arith)))
            (write_buffered-Told l h patience bufs total s term (ground arith))

  after_retry-Told :
      (bufs : List (List ℕ)) (s : Tls C S)
      → Ends l h patience
      → (r : IoResult (Unit {0}) × WriteBuffer × S)
      → Told l h patience (g.sealed s.conn) (flatten bufs) (after_retry g h patience s bufs r)
  unfolding after_retry
  after_retry-Told bufs s term (err e, b, t) = refl
  after_retry-Told bufs s term (ok _, b, t) =
      seal_all-Told bufs (total_from 0 bufs) (put s (with_write_buf (wrapper s) (b, t))) term
        (total_from_lem 0 bufs (omega arith) ∙ omega arith)

  -- For a BoringSSL that keeps its contract, and when SslStream::write comes to an end within its
  -- retries: write_records returns. Ok(n) means that exactly the first n bytes of the slices were
  -- sealed, in order, after what was sealed before, with n not 0 unless the slices are empty; an
  -- error means that nothing was sealed; a panic that some prefix was.
  pub write_records-Told :
      (bufs : List (List ℕ)) (s : Tls C S)
      → Ends l h patience
      → Told l h patience (g.sealed s.conn) (flatten bufs) (write_records g h patience s bufs)
  unfolding write_records
  write_records-Told bufs s term =
      after_retry-Told bufs s term (WriteBuffer.retry h (wrapper s).write_buf (wrapper s).transport)

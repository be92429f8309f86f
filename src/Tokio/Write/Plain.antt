-- ===== src/Tokio/Write/Plain.antt =====
-- `ssl_write_records` and `write_buffered` of tokio-btls/src/lib.rs and the plaintext they seal.
use btls.Prelude.{
  max, div_ceil, saturating_add, saturating_mul, subst, ℕ, zero, suc, ◌-◌, ◌≤◌, ◌≡◌, refl, sym, ap,
  ◌∙◌, min, true, false, Option, none, some, List, ◌++◌, arith, length, take, flatten, if_split,
  leb, ◌==◌, ==→eq, append-nil,
}
use btls.Io.{ok, err}
use btls.Bio.{returned, panicked}
use btls.Ssl.Boring.{Boring, IsBoring}
use btls.Ssl.Seal.{
  sealed_len, Seal, sealed, declines, fails, seal_app_data, seal_app_data_limits, SealLimits,
}
use btls.Ssl.Seal.Laws.{Sealing, seal_app_data-Sealing, Limited, seal_app_data_limits-Limited}
use btls.Ssl.Stream.{Tried}
use btls.Tokio.Budget.{seal_budget}
use btls.Tokio.Limits.{write_buf_capacity, max_record}
use btls.Tokio.Host.{Host}
use btls.Tokio.Packer
use btls.Tokio.Packer.Rest.{new-IsValid, remaining-new}
use btls.Tokio.WriteBuffer
use btls.Tokio.WriteBuffer.{WriteBuffer}
use btls.Tokio.Wrapper.{stream}
use btls.Tokio.Write.{
  Tls, Ended, ended, blown, rounds, finish_records, drained, ssl_write_records, wrapper, SealOut,
  seal, seal_into, appended, after_seal, buffered_with, write_buffered,
}
use btls.Tokio.Write.Loop.{Ends, Sent, Stops, record_loop-Stops}

module _ {C S : Type 0} {g : Boring C} (l : IsBoring g) (h : Host S) (patience : ℕ) where
  -- `Ok(n)`: `n` bytes were sealed, and at least one if there was one. An error: none was. A panic of
  -- the transport: some number of them.
  abbrev pub Told : List ℕ → List ℕ → Tried g (stream h) ℕ → Type 0
  Told before all none = ⊥
  Told before all (some (returned (ok n), s)) =
      (n ≤ length all) × (min 1 (length all) ≤ n) × (g.sealed s.conn ≡ before ++ take n all)
  Told before all (some (returned (err e), s)) = g.sealed s.conn ≡ before
  Told before all (some (panicked x, s)) = (k : ℕ) × Sent l h patience before all k s

  finish_records-Told :
      (before all : List ℕ) (t : Option (Ended (Tls C S)))
      → Stops l h patience before all t
      → Told before all (finish_records g h t)
  unfolding finish_records
  finish_records-Told before all none c = c
  finish_records-Told before all (some (blown x s)) c = c
  finish_records-Told before all (some (ended n none s)) c = (c.0.0, c.1, c.0.1)
  finish_records-Told before all (some (ended n (some e) s)) c =
      if_split (λ r. Told before all (some (returned r, drained g h s))) (n == 0)
        (λ z.
          c.1 ∙ ap (λ k. before ++ take k all) {x = n} {y = 0} (==→eq n 0 z) ∙ append-nil before)
        (λ z. filled z)
    where
      filled :
          n == 0 ≡ false
          → (n ≤ length all)
            × (min 1 (length all) ≤ n)
            × (g.sealed (drained g h s).conn ≡ before ++ take n all)
      filled z = (c.0, ground arith, c.1)

  ssl_write_records-Told :
      (bufs : List (List ℕ)) (total : ℕ) (s : Tls C S)
      → Ends l h patience
      → Told (g.sealed s.conn) (flatten bufs) (ssl_write_records g h patience s bufs total)
  unfolding ssl_write_records
  ssl_write_records-Told bufs total s term =
      finish_records-Told (g.sealed s.conn) (flatten bufs) _ (
        record_loop-Stops l h patience (g.sealed s.conn) (flatten bufs) (rounds g h bufs) total 0
          (Packer.new bufs) true _ term (new-IsValid bufs) (remaining-new bufs)
          (omega arith, sym (append-nil (g.sealed s.conn)))
          (omega (arith, ap length (remaining-new bufs))))

  -- The same of `WriteBuffer::seal`.
  abbrev SealTold : List ℕ → List ℕ → SealOut g h → Type 0
  SealTold before all (ok (some n), b, c) =
      (n ≤ length all) × (min 1 (length all) ≤ n) × (g.sealed c ≡ before ++ take n all)
  SealTold before all (ok none, b, c) = g.sealed c ≡ before
  SealTold before all (err e, b, c) = g.sealed c ≡ before

  after_seal-Told :
      (before all : List ℕ) (fallback : Tls C S → Tried g (stream h) ℕ) (s : Tls C S)
      → ((s' : Tls C S) → g.sealed s'.conn ≡ before → Told before all (fallback s'))
      → (r : SealOut g h) → SealTold before all r
      → Told before all (after_seal g h fallback s r)
  unfolding after_seal
  after_seal-Told before all fallback s f (err e, b, c) t = t
  after_seal-Told before all fallback s f (ok none, b, c) t = f _ t
  after_seal-Told before all fallback s f (ok (some n), b, c) t = t

  saturating_mul-filled : (a b : ℕ) → 1 ≤ a → 1 ≤ b → 1 ≤ saturating_mul a b
  saturating_mul-filled zero b f k = absurd (omega arith)
  saturating_mul-filled (suc a) zero f k = absurd (omega arith)
  saturating_mul-filled (suc a) (suc b) f k = omega arith

  -- What room `seal_budget` leaves for a byte.
  seal_budget-filled :
      (fragment overhead pending buffered total : ℕ)
      → 1 ≤ fragment
      → 1 ≤ total
      → 1 ≤ seal_budget fragment overhead pending buffered total
  unfolding seal_budget
  seal_budget-filled fragment overhead pending buffered total f t =
      if_split (λ b. 1 ≤ b) (leb (total - cap) max_record) (λ _. t) (λ _. cap_filled)
    where
      records : ℕ
      records =
          max
            (div_ceil (write_buf_capacity - buffered - pending)
              (max (saturating_add fragment overhead) 1))
            1

      cap : ℕ
      cap = saturating_mul records fragment

      cap_filled : 1 ≤ cap
      cap_filled = saturating_mul-filled records fragment (omega arith) f

  appended-SealTold :
      (before all : List ℕ) (max_out : ℕ) (w : WriteBuffer) (r : Seal × C)
      → Sealing l before all max_out r
      → SealTold before all (appended g h w r)
  unfolding appended
  appended-SealTold before all max_out w (sealed n out, c) t = (t.0, t.1, t.3)
  appended-SealTold before all max_out w (declines, c) t = t
  appended-SealTold before all max_out w (fails e, c) t = t

  seal-SealTold :
      (w : WriteBuffer) (c : C) (limits : SealLimits) (bufs : List (List ℕ)) (total : ℕ)
      → 1 ≤ limits.max_fragment
      → 1 ≤ total
      → SealTold (g.sealed c) (flatten bufs) (seal g h w c limits bufs total)
  unfolding seal seal_into
  seal-SealTold w c limits bufs total f t = into (sealed_len limits budget)
    where
      budget : ℕ
      budget =
          seal_budget limits.max_fragment limits.record_overhead limits.pending_len
            (WriteBuffer.len w) total

      into : (o : Option ℕ) → SealTold (g.sealed c) (flatten bufs) (seal_into g h w c bufs budget o)
      into none = refl
      into (some max_out) =
          appended-SealTold _ _ max_out (WriteBuffer.make_room h w max_out)
            (seal_app_data g c bufs budget max_out)
            (seal_app_data-Sealing l c bufs budget max_out (
              omega (
                arith,
                seal_budget-filled limits.max_fragment limits.record_overhead limits.pending_len
                    (WriteBuffer.len w) total f t,
              )))

  pub write_buffered-Told :
      (bufs : List (List ℕ)) (total : ℕ) (s : Tls C S)
      → Ends l h patience
      → 1 ≤ total
      → Told (g.sealed s.conn) (flatten bufs) (write_buffered g h patience s bufs total)
  unfolding write_buffered buffered_with
  write_buffered-Told bufs total s term t =
      by_limits (seal_app_data_limits g s.conn) (seal_app_data_limits-Limited g s.conn)
    where
      by_limits :
          (o : Option SealLimits)
          → Limited o
          → Told (g.sealed s.conn) (flatten bufs) (buffered_with g h patience s bufs total o)
      by_limits none f = ssl_write_records-Told bufs total s term
      by_limits (some limits) f =
          after_seal-Told (g.sealed s.conn) (flatten bufs)
            (λ s'. ssl_write_records g h patience s' bufs total) s
            (λ s' e.
              subst (λ b. Told b (flatten bufs) (ssl_write_records g h patience s' bufs total)) e
                (ssl_write_records-Told bufs total s' term))
            (seal g h (wrapper s).write_buf s.conn limits bufs total)
            (seal-SealTold (wrapper s).write_buf s.conn limits bufs total f t)

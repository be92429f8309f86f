-- ===== src/Tokio/Write/Lossless.antt =====
-- `write_records` of tokio-btls/src/lib.rs and the ciphertext.
use btls.Prelude.{
  append_assoc, ℕ, ◌+◌, ◌-◌, ◌≤◌, ◌≡◌, refl, sym, ap, ◌∙◌, ◌&&◌, Option, none, some, List, [], ◌++◌,
  arith, length, length-append, append-nil, if_both, ltb, leb, ◌==◌, if◌then◌else◌,
}
use btls.Io.{IoResult, ok, err}
use btls.Bio.{returned, panicked}
use btls.Ssl.Boring.{Boring, IsBoring}
use btls.Ssl.Seal.{
  Seal, sealed, declines, fails, seal_app_data, seal_app_data_limits, SealLimits, sealed_len,
}
use btls.Ssl.Seal.Laws.{Bounded, seal_app_data-Bounded}
use btls.Ssl.Stream.{Tried}
use btls.Ssl.Stream.Growth.{Grew-trans}
use btls.Tokio.Budget.{seal_budget}
use btls.Tokio.Host.{Host, IsHost}
use btls.Tokio.Limits.{max_record, seal_stack_len}
use btls.Tokio.WriteBuffer
use btls.Tokio.WriteBuffer.{WriteBuffer}
use btls.Tokio.WriteBuffer.Room
use btls.Tokio.WriteBuffer.Room.{
  pos-le, make_room-Keeps, reserve-Keeps, extend-buffered, extend-IsValid, push-buffered,
}
use btls.Tokio.WriteBuffer.Drain.{sent}
use btls.Tokio.WriteBuffer.Retry.{retry-Retried}
use btls.Tokio.WriteBuffer.Last.{write_last-sent}
use btls.Tokio.Wrapper.{stream, with_write_buf}
use btls.Tokio.Wrapper.Log.{Ready, ciphertext, stream-logs}
use btls.Tokio.Write.{
  Tls, wrapper, put, ssl_write_records, SealOut, seal, seal_into, appended, after_seal,
  buffered_with, write_buffered, on_stack, seal_on_stack, plus, after_stack, seal_all, after_retry,
  write_records, advance_slices, total_from,
}
use btls.Tokio.Write.Cipher.{Gains, GainsTo, buffer-Gains, drain-Gains, ssl_write_records-Gains}

module _ {C S : Type 0} {g : Boring C} (l : IsBoring g) {h : Host S} (lh : IsHost h)
    (patience : ℕ) where
  -- The buffer that `seal` leaves: what waited, and then records.
  abbrev SealGains : WriteBuffer → SealOut g h → Type 0
  SealGains w (r, b, c) =
      Room.IsValid b × ((out : List ℕ) × (WriteBuffer.buffered b ≡ WriteBuffer.buffered w ++ out))

  appended-SealGains :
      (w w' : WriteBuffer) (max_out : ℕ) (r : Seal × C)
      → Room.IsValid w'
      → WriteBuffer.buffered w' ≡ WriteBuffer.buffered w
      → length w'.bytes + max_out ≤ w'.capacity
      → Bounded max_out r
      → SealGains w (appended g h w' r)
  unfolding appended
  appended-SealGains w w' max_out (sealed n out, c) v e room b = (
    record {
      within = (extend-IsValid lh w' out v).within;
      allocated = omega (arith, length-append w'.bytes out);
    },
    (out, extend-buffered lh w' out (pos-le v) ∙ ap (λ x. x ++ out) e),
  )
  appended-SealGains w w' max_out (declines, c) v e room b =
      (v, ([], e ∙ sym (append-nil (WriteBuffer.buffered w))))
  appended-SealGains w w' max_out (fails x, c) v e room b =
      (v, ([], e ∙ sym (append-nil (WriteBuffer.buffered w))))

  seal-SealGains :
      (w : WriteBuffer) (c : C) (limits : SealLimits) (bufs : List (List ℕ)) (total : ℕ)
      → Room.IsValid w
      → SealGains w (seal g h w c limits bufs total)
  unfolding seal seal_into
  seal-SealGains w c limits bufs total v = into (sealed_len limits budget)
    where
      budget : ℕ
      budget =
          seal_budget limits.max_fragment limits.record_overhead limits.pending_len
            (WriteBuffer.len w) total

      into : (o : Option ℕ) → SealGains w (seal_into g h w c bufs budget o)
      into none = (v, ([], sym (append-nil (WriteBuffer.buffered w))))
      into (some max_out) =
          let k = make_room-Keeps lh w max_out v in
          appended-SealGains w (WriteBuffer.make_room h w max_out) max_out
            (seal_app_data g c bufs budget max_out) k.0.valid k.0.same k.1
            (seal_app_data-Bounded g c bufs budget max_out)

  -- The stream with a buffer that gained records.
  gained :
      (s t u : Tls C S) (b : WriteBuffer) (out : List ℕ)
      → Gains l lh patience s t
      → Room.IsValid b
      → WriteBuffer.buffered b ≡ WriteBuffer.buffered (wrapper t).write_buf ++ out
      → (wrapper u).write_buf ≡ b
      → (wrapper u).transport ≡ (wrapper t).transport
      → Gains l lh patience s u
  gained s t u b out a v e same_buf same = buffer-Gains l lh patience s t u out a (rw same_buf v) (
      rw (same_buf, same, e)
        (sym (
          append_assoc (h.wire (wrapper t).transport) (WriteBuffer.buffered (wrapper t).write_buf)
            out)))

  after_seal-Gains :
      (s t : Tls C S) (fallback : Tls C S → Tried g (stream h) ℕ)
      → ((u : Tls C S) → Gains l lh patience s u → GainsTo l lh patience s (fallback u))
      → Gains l lh patience s t
      → (r : SealOut g h) → SealGains (wrapper t).write_buf r
      → GainsTo l lh patience s (after_seal g h fallback t r)
  unfolding after_seal
  after_seal-Gains s t fallback f a (err e, b, c) (v, (out, x)) = gained s t _ b out a v x refl refl
  after_seal-Gains s t fallback f a (ok none, b, c) (v, (out, x)) =
      f _ (gained s t _ b out a v x refl refl)
  after_seal-Gains s t fallback f a (ok (some n), b, c) (v, (out, x)) =
      drain-Gains l lh patience s
        (record (put t (record (wrapper t) { write_buf = b })) { conn = c }) _
        (record (wrapper t) { write_buf = b })
        (gained s t (record (put t (record (wrapper t) { write_buf = b })) { conn = c }) b out a v x
          refl refl)
        refl refl refl

  write_buffered-Gains :
      (bufs : List (List ℕ)) (total : ℕ) (s t : Tls C S)
      → Gains l lh patience s t
      → GainsTo l lh patience s (write_buffered g h patience t bufs total)
  unfolding write_buffered buffered_with
  write_buffered-Gains bufs total s t a = by_limits (seal_app_data_limits g t.conn)
    where
      by_limits :
          (o : Option SealLimits)
          → GainsTo l lh patience s (buffered_with g h patience t bufs total o)
      by_limits none = ssl_write_records-Gains l lh patience bufs total s t a
      by_limits (some limits) =
          after_seal-Gains s t (λ u. ssl_write_records g h patience u bufs total)
            (λ u b. ssl_write_records-Gains l lh patience bufs total s u b) a
            (seal g h (wrapper t).write_buf t.conn limits bufs total)
            (seal-SealGains (wrapper t).write_buf t.conn limits bufs total a.keeps)

  on_stack-Gains :
      (s : Tls C S) (total : ℕ) (r : Seal × C)
      → Ready lh (wrapper s)
      → Gains l lh patience s (on_stack g h s total r).1
  unfolding on_stack
  on_stack-Gains s total (declines, c) v = record {
    keeps = v;
    out = [];
    grew = sym (append-nil (ciphertext lh (wrapper s)));
  }
  on_stack-Gains s total (fails e, c) v = record {
    keeps = v;
    out = [];
    grew = sym (append-nil (ciphertext lh (wrapper s)));
  }
  on_stack-Gains s total (sealed n out, c) v = record { keeps = kept.0; out = out; grew = kept.1 }
    where
      p : WriteBuffer × S
      p =
          if ltb n total
          then (WriteBuffer.push h (wrapper s).write_buf out, (wrapper s).transport)
          else WriteBuffer.write_last h (wrapper s).write_buf (wrapper s).transport out

      kept : Room.IsValid p.0 × (sent lh p.0 p.1 ≡ ciphertext lh (wrapper s) ++ out)
      kept =
          let put = push-buffered lh (wrapper s).write_buf out v in
          let last = write_last-sent lh (wrapper s).write_buf (wrapper s).transport out v in
          if_both
            (λ (q : WriteBuffer × S).
              Room.IsValid q.0 × (sent lh q.0 q.1 ≡ ciphertext lh (wrapper s) ++ out))
            (ltb n total)
            (
              put.1,
              ap (λ x. h.wire (wrapper s).transport ++ x) put.0
                  ∙ sym (
                      append_assoc (h.wire (wrapper s).transport)
                        (WriteBuffer.buffered (wrapper s).write_buf) out),
            )
            (last.1, last.0)

  plus-Gains :
      (s : Tls C S) (n : ℕ) (t : Tried g (stream h) ℕ)
      → GainsTo l lh patience s t
      → GainsTo l lh patience s (plus g h n t)
  plus-Gains s n none a = tt
  plus-Gains s n (some (returned (ok m), t)) a = a
  plus-Gains s n (some (returned (err e), t)) a = a
  plus-Gains s n (some (panicked x, t)) a = a

  after_stack-Gains :
      (s : Tls C S) (bufs : List (List ℕ)) (total : ℕ) (r : IoResult (Option ℕ) × Tls C S)
      → Gains l lh patience s r.1
      → GainsTo l lh patience s (after_stack g h patience bufs total r)
  unfolding after_stack
  after_stack-Gains s bufs total (err e, t) a = a
  after_stack-Gains s bufs total (ok none, t) a = write_buffered-Gains bufs total s t a
  after_stack-Gains s bufs total (ok (some n), t) a =
      if_both (GainsTo l lh patience s) (ltb n total)
        (plus-Gains s n (write_buffered g h patience t (advance_slices n bufs) (total - n))
          (write_buffered-Gains (advance_slices n bufs) (total - n) s t a))
        a

  seal_all-Gains :
      (s t : Tls C S) (bufs : List (List ℕ)) (total : ℕ)
      → Gains l lh patience s t
      → GainsTo l lh patience s (seal_all g h patience t bufs total)
  unfolding seal_all seal_on_stack
  seal_all-Gains s t bufs total a = if_both (GainsTo l lh patience s) (total == 0) a (
      if_both (GainsTo l lh patience s)
        (leb total max_record && WriteBuffer.is_empty (wrapper t).write_buf)
        (after_stack-Gains s bufs total (seal_on_stack g h t bufs total) (
          Grew-trans l (stream-logs lh) s t _ a
            (on_stack-Gains t total (seal_app_data g t.conn bufs total seal_stack_len) a.keeps)))
        (write_buffered-Gains bufs total s t a))

  after_retry-Gains :
      (s : Tls C S) (bufs : List (List ℕ)) (r : IoResult (Unit {0}) × WriteBuffer × S)
      → Room.IsValid r.1
      → sent lh r.1 r.2 ≡ ciphertext lh (wrapper s)
      → GainsTo l lh patience s (after_retry g h patience s bufs r)
  unfolding after_retry
  after_retry-Gains s bufs (err x, b, t) v e = record {
    keeps = v;
    out = [];
    grew = e ∙ sym (append-nil (ciphertext lh (wrapper s)));
  }
  after_retry-Gains s bufs (ok _, b, t) v e =
      seal_all-Gains s (put s (with_write_buf (wrapper s) (b, t))) bufs (total_from 0 bufs)
        (record { keeps = v; out = []; grew = e ∙ sym (append-nil (ciphertext lh (wrapper s))) })

  -- For a BoringSSL and a transport that keep their contracts, from a stream whose write buffer is
  -- valid, and if it returns within patience retries of SslStream::write: on every outcome of
  -- write_records, errors and panics included, the ciphertext on the wire and in the buffer is what
  -- it was and then more, and the buffer is valid.
  pub write_records-Gains :
      (bufs : List (List ℕ)) (s : Tls C S)
      → Ready lh (wrapper s)
      → GainsTo l lh patience s (write_records g h patience s bufs)
  unfolding write_records
  write_records-Gains bufs s v =
      let k = retry-Retried lh (wrapper s).write_buf (wrapper s).transport v in
      after_retry-Gains s bufs (WriteBuffer.retry h (wrapper s).write_buf (wrapper s).transport)
        k.valid k.sent_same

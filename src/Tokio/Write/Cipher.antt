-- ===== src/Tokio/Write/Cipher.antt =====
-- `ssl_write_records` of tokio-btls/src/lib.rs and the ciphertext.
use btls.Prelude.{
  ℕ, zero, suc, ◌+◌, ◌-◌, ◌≡◌, refl, sym, ap, ◌∙◌, Bool, true, false, ◌&&◌, Option, none, some,
  List, [], ◌++◌, length, append-nil, if_both, ltb, leb, if◌then◌else◌, saturating_add,
}
use btls.Io.{ok, err}
use btls.Bio.{Caught, returned, panicked}
use btls.Ssl.Boring.{Boring, IsBoring}
use btls.Ssl.Stream
use btls.Ssl.Stream.{Tried}
use btls.Ssl.Stream.Growth.{Grew, Grew-trans, GrewTo, write-Grew}
use btls.Tokio.Host.{Host, IsHost}
use btls.Tokio.Limits.{max_record}
use btls.Tokio.Packer
use btls.Tokio.Packer.{Packer, next_record, advance}
use btls.Tokio.WriteBuffer
use btls.Tokio.WriteBuffer.{WriteBuffer}
use btls.Tokio.WriteBuffer.Room.{reserve-Keeps}
use btls.Tokio.WriteBuffer.Retry.{drain_unless_blocked-Kept}
use btls.Tokio.Wrapper.{StreamWrapper, stream, with_write_buf}
use btls.Tokio.Wrapper.Log.{Ready, ciphertext, stream-logs}
use btls.Tokio.Write.{
  Tls, Ended, ended, blown, wrapper, set_through, after_record, round, record_loop, rounds, drained,
  finish_records, ssl_write_records,
}

module _ {C S : Type 0} {g : Boring C} (l : IsBoring g) {h : Host S} (lh : IsHost h)
    (patience : ℕ) where
  abbrev pub Gains : Tls C S → Tls C S → Type 0
  Gains s t = Grew l (stream-logs lh) s t

  abbrev pub GainsTo : Tls C S → Tried g (stream h) ℕ → Type 0
  GainsTo s t = GrewTo l (stream-logs lh) {A = ℕ} s t

  -- A new buffer and transport with the invariant, and `out` after the ciphertext.
  pub buffer-Gains :
      (s t u : Tls C S) (out : List ℕ)
      → Gains s t
      → Ready lh (wrapper u)
      → ciphertext lh (wrapper u) ≡ ciphertext lh (wrapper t) ++ out
      → Gains s u
  buffer-Gains s t u out a v e =
      Grew-trans l (stream-logs lh) s t u a (record { keeps = v; out = out; grew = e })

  abbrev EndGains : Tls C S → Option (Ended (Tls C S)) → Type 0
  EndGains s none = Unit
  EndGains s (some (ended n e t)) = Gains s t
  EndGains s (some (blown x t)) = Gains s t

  after_record-Gains :
      (s : Tls C S) (again : Packer → ℕ → Bool → Tls C S → Option (Ended (Tls C S)))
      → (total : ℕ) (p : Packer) (written len : ℕ) (through : Bool)
      → ((q : Packer) (n : ℕ) (b : Bool) (t : Tls C S) → Gains s t → EndGains s (again q n b t))
      → (r : Option (Caught ℕ × Tls C S)) → GainsTo s r
      → EndGains s (after_record g h again total p written len through r)
  unfolding after_record
  after_record-Gains s again total p written len through ih none a = tt
  after_record-Gains s again total p written len through ih (some (panicked x, t)) a = a
  after_record-Gains s again total p written len through ih (some (returned (err e), t)) a = a
  after_record-Gains s again total p written len through ih (some (returned (ok n), t)) a =
      if_both (EndGains s)
        (WriteBuffer.is_full (wrapper t).write_buf && ltb max_record (total - (written + n)))
        {x = some (ended (written + n) none t)} a
        (ih (advance (if ltb n len then record p { limit = n } else p) n) (written + n)
          (if ltb n len then false else through) t a)

  through-Gains : (s t : Tls C S) (b : Bool) → Gains s t → Gains s (set_through b t)
  through-Gains s t b a = record { keeps = a.keeps; out = a.out; grew = a.grew }

  write-GainsTo :
      (s t : Tls C S) (r : List ℕ) → Gains s t → GainsTo s (Stream.write g (stream h) patience r t)
  write-GainsTo s t r a =
      joined (Stream.write g (stream h) patience r t)
        (write-Grew l (stream-logs lh) patience r t a.keeps)
    where
      joined : (x : Tried g (stream h) ℕ) → GainsTo t x → GainsTo s x
      joined none b = tt
      joined (some (y, u)) b = Grew-trans l (stream-logs lh) s t u a b

  round-Gains :
      (s : Tls C S) (again : Packer → ℕ → Bool → Tls C S → Option (Ended (Tls C S)))
      → (total written : ℕ) (through : Bool) (t : Tls C S)
      → ((q : Packer) (n : ℕ) (b : Bool) (u : Tls C S) → Gains s u → EndGains s (again q n b u))
      → Gains s t
      → (x : Option (List ℕ) × Packer)
      → EndGains s (round g h again patience total written through t x)
  unfolding round
  round-Gains s again total written through t ih a (none, q) = a
  round-Gains s again total written through t ih a (some r, q) =
      after_record-Gains s again total q written (length r) through ih
        (Stream.write g (stream h) patience r
          (set_through (through && leb total (saturating_add written (length r))) t))
        (write-GainsTo s (set_through (through && leb total (saturating_add written (length r))) t)
          r (through-Gains s t (through && leb total (saturating_add written (length r))) a))

  record_loop-Gains :
      (fuel total : ℕ) (p : Packer) (written : ℕ) (through : Bool) (s t : Tls C S)
      → Gains s t
      → EndGains s (record_loop g h patience total fuel p written through t)
  unfolding record_loop
  record_loop-Gains zero total p written through s t a = tt
  record_loop-Gains (suc fuel) total p written through s t a =
      round-Gains s (record_loop g h patience total fuel) total written through t
        (λ q n b u a'. record_loop-Gains fuel total q n b s u a') a (next_record p)

  -- The drain that ends a write, from a wrapper with the same buffer and transport.
  pub drain-Gains :
      (s t u : Tls C S) (w : StreamWrapper S)
      → Gains s t
      → w.write_buf ≡ (wrapper t).write_buf
      → w.transport ≡ (wrapper t).transport
      → wrapper u ≡ with_write_buf w (WriteBuffer.drain_unless_blocked h w.write_buf w.transport)
      → Gains s u
  drain-Gains s t u w a b e same =
      let k = drain_unless_blocked-Kept lh (wrapper t).write_buf (wrapper t).transport a.keeps in
      buffer-Gains s t u [] a (rw (same, b, e) k.valid)
        (rw (same, b, e) (k.sent_same ∙ sym (append-nil (ciphertext lh (wrapper t)))))

  finish_records-Gains :
      (s : Tls C S) (r : Option (Ended (Tls C S))) → EndGains s r → GainsTo s (finish_records g h r)
  unfolding finish_records
  finish_records-Gains s none a = tt
  finish_records-Gains s (some (blown x t)) a = a
  finish_records-Gains s (some (ended n none t)) a =
      drain-Gains s t (drained g h t) (record (wrapper t) { write_through = false }) a refl refl
        refl
  finish_records-Gains s (some (ended n (some e) t)) a =
      drain-Gains s t (drained g h t) (record (wrapper t) { write_through = false }) a refl refl
        refl

  pub ssl_write_records-Gains :
      (bufs : List (List ℕ)) (total : ℕ) (s t : Tls C S)
      → Gains s t
      → GainsTo s (ssl_write_records g h patience t bufs total)
  unfolding ssl_write_records
  ssl_write_records-Gains bufs total s t a =
      let k = reserve-Keeps lh (wrapper t).write_buf total a.keeps in
      finish_records-Gains s _ (
        record_loop-Gains (rounds g h bufs) total (Packer.new bufs) 0 true s _ (
          buffer-Gains s t _ [] a k.valid (
            ap (λ x. h.wire (wrapper t).transport ++ x) k.same
            ∙ sym (append-nil (ciphertext lh (wrapper t))))))

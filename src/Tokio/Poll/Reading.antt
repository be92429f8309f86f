-- ===== src/Tokio/Poll/Reading.antt =====
-- `poll_read` of tokio-btls/src/lib.rs and the plaintext that reaches the caller.
use btls.Prelude.{
  ℕ, zero, suc, ◌+◌, ◌-◌, ◌≤◌, ◌≡◌, refl, sym, ◌∙◌, Option, none, some, List, [], ◌∷◌, ◌++◌, ◌==◌,
  ◌||◌, arith, length, length-append, append-nil, append_assoc, if_split,
}
use btls.Io.{IoResult, ok, err, ready, pending}
use btls.Bio.{returned, panicked}
use btls.Ssl.Boring.{Boring, IsBoring}
use btls.Ssl.Stream
use btls.Ssl.Stream.{Tried}
use btls.Ssl.Stream.Opening.{Got, read_uninit-Got}
use btls.Tokio.Host.{Host}
use btls.Tokio.ReadBuffer
use btls.Tokio.Wrapper.{stream}
use btls.Tokio.Write.{Tls, wrapper}
use btls.Tokio.Poll.{
  ReadEnd, stopped, blew, Polled, polled, burst, after_read, read_loop, after_loop, unless_ended,
  poll_read,
}

module _ {C S : Type 0} {g : Boring C} (l : IsBoring g) (h : Host S) (patience : ℕ) where
  -- `SslStream::read_uninit` comes to an end within `patience` retries.
  abbrev pub Ends : Type 0
  Ends = (room : ℕ) (s : Tls C S) → ¬ Stream.read_uninit g (stream h) patience room s ≡ none

  -- `got` was handed out after `before`, and fits `room`.
  abbrev pub Filled : List ℕ → ℕ → List ℕ → Tls C S → Type 0
  Filled before room got s = (length got ≤ room) × (g.opened s.conn ≡ before ++ got)

  abbrev Stops : List ℕ → ℕ → Option (ReadEnd (Tls C S)) → Type 0
  Stops before room none = ⊥
  Stops before room (some (stopped e got s)) = Filled before room got s
  Stops before room (some (blew x got s)) = Filled before room got s

  after_read-Stops :
      (before : List ℕ) (room left : ℕ) (got : List ℕ)
      → (again : ℕ → List ℕ → Tls C S → Option (ReadEnd (Tls C S)))
      → ((left' : ℕ) (got' : List ℕ) (s : Tls C S)
          → length got' + left' ≤ room
          → left' + 1 ≤ left
          → 1 ≤ left'
          → g.opened s.conn ≡ before ++ got'
          → Stops before room (again left' got' s))
      → length got + left ≤ room
      → (t : Tried g (stream h) (List ℕ)) → Got l (stream h) (before ++ got) left t
      → ¬ t ≡ none
      → Stops before room (after_read g h again left got t)
  unfolding after_read
  after_read-Stops before room left got again ih hr none w k = k refl
  after_read-Stops before room left got again ih hr (some (panicked x, s)) w k = (omega arith, w)
  after_read-Stops before room left got again ih hr (some (returned (err e), s)) w k =
      (omega arith, w)
  after_read-Stops before room left got again ih hr (some (returned (ok []), s)) w k =
      (omega arith, w.1 ∙ append-nil (before ++ got))
  after_read-Stops before room left got again ih hr (some (returned (ok (x ∷ xs)), s)) w k =
      if_split (Stops before room)
        (left - length (x ∷ xs) == 0 || ReadBuffer.is_empty (wrapper s).read_buf)
        {x = some (stopped none (got ++ (x ∷ xs)) s)} (λ _. (omega (arith, size, w.0), place))
        (λ more.
          ih (left - length (x ∷ xs)) (got ++ (x ∷ xs)) s (omega (arith, size, w.0))
            (omega (arith, w.0)) (ground (arith, more)) place)
    where
      size : length (got ++ (x ∷ xs)) ≡ length got + length (x ∷ xs)
      size = length-append got (x ∷ xs)

      place : g.opened s.conn ≡ before ++ (got ++ (x ∷ xs))
      place = w.1 ∙ append_assoc before got (x ∷ xs)

  read_loop-Stops :
      (before : List ℕ) (fuel room left : ℕ) (got : List ℕ) (s : Tls C S)
      → Ends
      → length got + left ≤ room
      → 1 ≤ left
      → left ≤ fuel
      → g.opened s.conn ≡ before ++ got
      → Stops before room (read_loop g h patience fuel left got s)
  unfolding read_loop
  read_loop-Stops before zero room left got s term hr lo hf e = absurd (omega arith)
  read_loop-Stops before (suc fuel) room left got s term hr lo hf e =
      after_read-Stops before room left got (read_loop g h patience fuel)
        (λ left' got' s' hr' less lo' e'.
          read_loop-Stops before fuel room left' got' s' term hr' lo' (omega arith) e')
        hr (Stream.read_uninit g (stream h) patience left s)
        (read_uninit-Got l (stream h) patience left (before ++ got) s e) (term left s)

  -- What a poll gives: bytes come with `Ok` alone, and an error or a `Pending` with no bytes.
  abbrev pub Given : List ℕ → ℕ → Option (Polled (Tls C S)) → Type 0
  Given before room none = ⊥
  Given before room (some (polled (ready (ok _)) got s)) = Filled before room got s
  Given before room (some (polled (ready (err e)) got s)) = (got ≡ []) × (g.opened s.conn ≡ before)
  Given before room (some (polled pending got s)) = (got ≡ []) × (g.opened s.conn ≡ before)
  Given before room (some (burst x got s)) = Filled before room got s

  after_loop-Given :
      (before : List ℕ) (room : ℕ) (t : Option (ReadEnd (Tls C S)))
      → Stops before room t
      → Given before room (after_loop g h t)
  unfolding after_loop
  after_loop-Given before room none k = k
  after_loop-Given before room (some (blew x got s)) k = k
  after_loop-Given before room (some (stopped none [] s)) k = (refl, k.1 ∙ append-nil before)
  after_loop-Given before room (some (stopped (some (ok _)) [] s)) k = k
  after_loop-Given before room (some (stopped (some (err e)) [] s)) k =
      (refl, k.1 ∙ append-nil before)
  after_loop-Given before room (some (stopped e (x ∷ xs) s)) k = k

  unless_ended-Given :
      (room : ℕ) (s : Tls C S)
      → Ends
      → 1 ≤ room
      → (e : Option (IoResult (Unit {0})))
      → Given (g.opened s.conn) room (unless_ended g h patience room s e)
  unfolding unless_ended
  unless_ended-Given room s term lo (some (ok _)) =
      (omega arith, sym (append-nil (g.opened s.conn)))
  unless_ended-Given room s term lo (some (err e)) = (refl, refl)
  unless_ended-Given room s term lo none =
      after_loop-Given (g.opened s.conn) room (read_loop g h patience room room [] s) (
        read_loop-Stops (g.opened s.conn) room room room [] s term (omega arith) lo (omega arith)
          (sym (append-nil (g.opened s.conn))))

  -- For a BoringSSL that keeps its contract, and when SslStream::read_uninit comes to an end within
  -- its retries: poll_read returns, and what it put into the buffer is exactly the next plaintext
  -- of the connection, no more than fits; with an error or Pending it put nothing there and no
  -- plaintext was taken.
  pub poll_read-Given :
      (room : ℕ) (s : Tls C S) → Ends → Given (g.opened s.conn) room (poll_read g h patience room s)
  unfolding poll_read
  poll_read-Given zero s term = (omega arith, sym (append-nil (g.opened s.conn)))
  poll_read-Given (suc room) s term =
      unless_ended-Given (suc room) s term (omega arith) (wrapper s).read_end

-- ===== src/Tokio/Host.antt =====
-- What tokio-btls takes from code outside the repository: the stream under the TLS connection
-- (tokio's `AsyncRead` and `AsyncWrite`), and how `Vec::reserve` picks a capacity.
-- The waker in the task context carries no data, so it is left out.
use btls.Prelude.{ℕ, Bool, List, ◌++◌, ◌+◌, ◌≤◌, ◌≡◌, length, take, flatten}
use btls.Io.{Poll, ready, pending, ok, err}

-- `S` with its operations. `wire` and `got` are no operations: they name the bytes that the stream
-- has taken and those that it has handed out.
-- `poll_read` is given the room in the `ReadBuf` and returns the bytes that it filled.
pub record Host (S : Type 0) : Type 0 where
  pub poll_read : ℕ → S → Poll (List ℕ) × S
  pub poll_write : List ℕ → S → Poll ℕ × S
  pub poll_write_vectored : List (List ℕ) → S → Poll ℕ × S
  pub is_write_vectored : S → Bool
  pub poll_flush : S → Poll (Unit {0}) × S
  pub poll_shutdown : S → Poll (Unit {0}) × S
  pub wire : S → List ℕ
  pub got : S → List ℕ
  pub reserve : ℕ → ℕ → ℕ → ℕ

-- The contract of `poll_write`: a success takes a prefix of the bytes, anything else takes none.
abbrev pub Accepts : List ℕ → List ℕ → Poll ℕ → List ℕ → Type 0
Accepts sent bytes (ready (ok n)) sent' = (n ≤ length bytes) × (sent' ≡ sent ++ take n bytes)
Accepts sent bytes (ready (err e)) sent' = sent' ≡ sent
Accepts sent bytes pending sent' = sent' ≡ sent

-- The contract of `poll_read`: it fills no more than the room it is given.
abbrev pub Fills : ℕ → List ℕ → Poll (List ℕ) → List ℕ → Type 0
Fills room got (ready (ok bytes)) got' = (length bytes ≤ room) × (got' ≡ got ++ bytes)
Fills room got (ready (err e)) got' = got' ≡ got
Fills room got pending got' = got' ≡ got

-- The documented behaviour that the proofs rely on. `reserve capacity len extra` is the capacity
-- after `Vec::reserve(extra)` on `len` elements.
pub record IsHost {S : Type 0} (h : Host S) : Type 0 where
  pub writes :
      (b : List ℕ) (s : S) → Accepts (h.wire s) b (h.poll_write b s).0 (h.wire (h.poll_write b s).1)
  pub writes_vectored :
      (bs : List (List ℕ)) (s : S)
      → Accepts
          (h.wire s)
          (flatten bs)
          (h.poll_write_vectored bs s).0
          (h.wire (h.poll_write_vectored bs s).1)
  pub reads :
      (room : ℕ) (s : S)
      → Fills room (h.got s) (h.poll_read room s).0 (h.got (h.poll_read room s).1)
        × (h.wire (h.poll_read room s).1 ≡ h.wire s)
  pub flushes : (s : S) → h.wire (h.poll_flush s).1 ≡ h.wire s
  pub shuts : (s : S) → h.wire (h.poll_shutdown s).1 ≡ h.wire s
  pub reserves : (capacity len extra : ℕ) → len + extra ≤ h.reserve capacity len extra
  pub keeps : (capacity len extra : ℕ) → capacity ≤ h.reserve capacity len extra

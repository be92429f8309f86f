-- ===== src/Ssl/Boring.antt =====
-- The functions of BoringSSL that the code calls, as parameters. A connection `C` stands for the
-- `SSL` object and the thread's error queue; `Prog` says what a call does to the BIO.
use btls.Prelude.{ℕ, ℤ, pos, negsuc, zero, suc, List, ◌++◌, ◌≡◌, ◌≤◌, min, length, take, flatten}
use btls.Io.{ErrorCode, ErrorStack}
use btls.Bio.{Retry}
use btls.Bio.Calls.{Prog, Ends}

-- `SSL_seal_app_data`: the plaintext taken and the bytes written to `out`, or a refusal.
pub data SealResult : Type 0 where
  success : ℕ → List ℕ → SealResult
  declined failed : SealResult

-- Results of `SSL_seal_app_data_limits`: the return value and the three out-parameters.
pub record RawLimits : Type 0 where
  pub ret : ℕ
  pub max_fragment : ℕ
  pub record_overhead : ℕ
  pub pending_len : ℕ

-- `sealed` and `opened` are no functions of BoringSSL: they name the application data sealed and
-- handed out so far, in order.
pub record Boring (C : Type 0) : Type 0 where
  pub ssl_read : C → ℕ → Prog (ℤ × List ℕ × C)
  pub ssl_write : C → List ℕ → Prog (ℤ × C)
  pub ssl_shutdown : C → Prog (ℤ × C)
  pub ssl_connect : C → Prog (ℤ × C)
  pub ssl_accept : C → Prog (ℤ × C)
  pub ssl_do_handshake : C → Prog (ℤ × C)
  pub ssl_get_error : C → Retry → ℤ → ErrorCode
  pub err_get : C → ErrorStack × C
  pub ssl_seal_app_data_limits : C → RawLimits
  pub ssl_seal_app_data : C → List (List ℕ) → ℕ → ℕ → SealResult × C
  pub sealed : C → List ℕ
  pub opened : C → List ℕ

-- `SSL_write`: a positive result is the length of the prefix that was sealed; with any other result
-- nothing was.
abbrev pub Wrote : List ℕ → List ℕ → ℤ → List ℕ → Type 0
Wrote before buf (pos zero) after = after ≡ before
Wrote before buf (pos (suc n)) after = (suc n ≤ length buf) × (after ≡ before ++ take (suc n) buf)
Wrote before buf (negsuc _) after = after ≡ before

-- `SSL_read`: a positive result is the number of bytes put into the buffer. Reading seals nothing.
abbrev pub Read : List ℕ → ℕ → ℤ → List ℕ → List ℕ → Type 0
Read before room (pos n) bytes after = (length bytes ≡ n) × (n ≤ room) × (after ≡ before ++ bytes)
Read before room (negsuc _) bytes after = after ≡ before

-- `SSL_seal_app_data`: what it reports as consumed was sealed, in order; a success takes at least
-- one byte if there is one to take, and no more than it is given the room for.
abbrev pub Sealed : List ℕ → List ℕ → ℕ → ℕ → SealResult → List ℕ → Type 0
Sealed before plain max_in max_out (success consumed out) after =
    (consumed ≤ length plain)
    × (consumed ≤ max_in)
    × (length out ≤ max_out)
    × (min 1 (min max_in (length plain)) ≤ consumed)
    × (after ≡ before ++ take consumed plain)
Sealed before plain max_in max_out declined after = after ≡ before
Sealed before plain max_in max_out failed after = after ≡ before

-- The documented behaviour that the proofs rely on.
pub record IsBoring {C : Type 0} (g : Boring C) : Type 0 where
  pub writes :
      (c : C) (buf : List ℕ)
      → Ends (λ r. Wrote (g.sealed c) buf r.0 (g.sealed r.1)) (g.ssl_write c buf)
  pub reads :
      (c : C) (room : ℕ)
      → Ends
          (λ r. Read (g.opened c) room r.0 r.1 (g.opened r.2) × (g.sealed r.2 ≡ g.sealed c))
          (g.ssl_read c room)
  pub seals :
      (c : C) (bufs : List (List ℕ)) (max_in max_out : ℕ)
      → let (r, c') = g.ssl_seal_app_data c bufs max_in max_out in
        Sealed (g.sealed c) (flatten bufs) max_in max_out r (g.sealed c')
  pub shuts : (c : C) → Ends (λ r. g.sealed r.1 ≡ g.sealed c) (g.ssl_shutdown c)
  pub pops :
      (c : C) → (g.sealed (g.err_get c).1 ≡ g.sealed c) × (g.opened (g.err_get c).1 ≡ g.opened c)

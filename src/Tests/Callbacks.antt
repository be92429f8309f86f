-- ===== src/Tests/Callbacks.antt =====
-- Runs of the asynchronous callbacks, of certificate decompression and of stacks.
use btls.Prelude.{ℕ, zero, suc, ◌≡◌, refl, true, none, some, List, [], ◌∷◌, length, ap}
use btls.Ssl.Async.{Result, ok, Ssl, output, waits, returned, Poller, Finisher, with_ex_data_future}
use btls.Ssl.Async.Drive.{idle, arrive, drive, is_pending, Follows, awaited, drive-Follows}
use btls.Ssl.Async.Verify.{now, later, must_retry, verify_callback, concluded, drive_verify-ends}
use btls.Ssl.Callbacks.Compression.{Program, done, write, Decompressed, raw_ssl_cert_decompress}
use btls.Ssl.Callbacks.Compression.Filled.{Fills, raw_ssl_cert_decompress-Fills}

-- A future that waits for as many polls as its number says, and then puts out a closure.
abbrev counting : Poller ℕ ℕ ℕ (Result ℕ ℕ)
counting w zero g = (output (ok 7), g)
counting w (suc n) g = (waits n, g)

abbrev accept : Finisher ℕ (Ssl ℕ ℕ ℕ) (Result (Unit {0}) ℕ)
accept finish s = (ok tt, s)

abbrev make_two : Ssl ℕ ℕ ℕ → Result ℕ ℕ × Ssl ℕ ℕ ℕ
make_two s = (ok 2, s)

abbrev new_ssl : Ssl ℕ ℕ ℕ
new_ssl = record { task_waker = none; future = none; world = 0 }

abbrev three_rounds : List (ℕ × ℕ)
three_rounds = (1, 10) ∷ (2, 20) ∷ (3, 30) ∷ []

abbrev two_rounds : List (ℕ × ℕ)
two_rounds = (2, 20) ∷ (3, 30) ∷ []

drive_example :
    Follows
      (awaited counting (λ r. r) 1 two_rounds (make_two (arrive 1 10 new_ssl)))
      (drive is_pending (with_ex_data_future counting make_two (λ r. r)) three_rounds new_ssl)
drive_example = drive-Follows counting make_two (λ r. r) 1 10 two_rounds new_ssl refl (λ s e. e)

verify_example :
    (last : Ssl ℕ ℕ ℕ) × (idle last.future ≡ true)
    × (drive must_retry (verify_callback counting accept make_two 50) three_rounds new_ssl
        ≡ concluded counting accept make_two 50 (ok 7) last)
verify_example =
    drive_verify-ends counting accept make_two 50 1 10 two_rounds new_ssl (arrive 1 10 new_ssl) 2
      (ok 7) refl (λ s e. e) refl (later refl (later refl (now refl)))

-- A decompressor that writes its input twice.
abbrev twice : List ℕ → Program
twice input = write input (λ r. write input (λ r. done true))

abbrev blank : ℕ → List ℕ
blank zero = []
blank (suc n) = 9 ∷ blank n

length-blank : (n : ℕ) → length (blank n) ≡ n
length-blank zero = refl
length-blank (suc n) = ap suc (length-blank n)

decompress_example :
    (d : Decompressed) × (raw_ssl_cert_decompress
        (some twice)
        (λ n. some (blank n))
        4
        (1 ∷ 2 ∷ [])
        zero
      ≡ (returned d, zero))
    × Fills 4 (twice (1 ∷ 2 ∷ [])) (some (blank 4)) d
decompress_example =
    raw_ssl_cert_decompress-Fills twice (λ n. some (blank n)) 4 (1 ∷ 2 ∷ []) zero
      (λ b e. let k : blank 4 ≡ b = cc in ap length {x = b} {y = blank 4} (cc))

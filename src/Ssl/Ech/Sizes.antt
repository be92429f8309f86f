-- ===== src/Ssl/Ech/Sizes.antt =====
-- The payload lengths of an ECH GREASE extension: their shape and their bounds.
use btls.Prelude.{
  ℕ, ◌+◌, ◌*◌, ◌%◌, ◌≤◌, ◌<◌, ◌≡◌, refl, ◌∙◌, Bool, true, false, ◌&&◌, not, arith, ltb, leb, ◌==◌,
  if_split, if◌then◌else◌,
}
use btls.Io.{Fallible, fine, wrong}
use btls.Ssl.Ech.{
  Rounding, nss_pre_3127, nss_3127, Aead, aes_128_gcm, chacha20_poly1305, Parameters, SizeInfo,
  ExtensionTypes, nss_payload_length, checked_payload_length, Random, with_length,
  boringssl_parameters, toss, nss_parameters,
}

-- The residue modulo 32 that a rounding leads to.
abbrev pub residue : Rounding → ℕ
residue nss_pre_3127 = 31
residue nss_3127 = 0

-- `n` is the least number from `len` on with that residue.
pub record IsRounded (r : Rounding) (len n : ℕ) : Type 0 where
  pub shape : n % 32 ≡ residue r
  pub above : len ≤ n
  pub below : n < len + 32

-- A length that `checked_payload_length` may accept, and its result.
abbrev pub Fits : SizeInfo → ℕ → Type 0
Fits info len = (1 ≤ len) × (len < 65536) × (len ≤ info.max_payload_length)

abbrev pub Checked : SizeInfo → ℕ → Fallible ℕ → Type 0
Checked info len (fine n) = (n ≡ len) × Fits info len
Checked info len (wrong e) = ¬ Fits info len

-- `checked_payload_length` returns the length itself when it is not 0 and fits both 16 bits and
-- `max_payload_length`, and fails otherwise.
pub checked_payload_length-Checked :
    (info : SizeInfo) (len : ℕ) → Checked info len (checked_payload_length info len)
unfolding checked_payload_length
checked_payload_length-Checked info len =
    if_split (Checked info len) (ltb len 65536 && leb len info.max_payload_length && not (len == 0))
      (λ e. (refl, (ground (arith, e), ground (arith, e), ground (arith, e))))
      λ e f. ground (arith, e, f)

-- Parameters of length `len` that fit the budget, or a failure.
abbrev pub Drawn : SizeInfo → ℕ → Fallible Parameters → Type 0
Drawn info len (fine p) = (p.payload_length ≡ len) × Fits info len
Drawn info len (wrong e) = Unit

with_length-Drawn :
    (info : SizeInfo) (len : ℕ) (a : Aead) (b : Bool) (n : Fallible ℕ)
    → Checked info len n
    → Drawn info len (with_length a b n)
unfolding with_length
with_length-Drawn info len a b (fine n) c = c
with_length-Drawn info len a b (wrong e) c = tt

toss-Drawn :
    (info : SizeInfo) (len : ℕ) (coin : Random) (n : Fallible ℕ)
    → Checked info len n
    → Drawn info len (toss coin n)
unfolding toss
toss-Drawn info len coin (wrong e) c = tt
toss-Drawn info len (wrong e) (fine n) c = tt
toss-Drawn info len (fine x) (fine n) c =
    with_length-Drawn info len (if x % 2 == 1 then aes_128_gcm else chacha20_poly1305) true (fine n)
      c

-- The parameters that `nss_parameters` returns have the length of `nss_payload_length`, which fits 16
-- bits and the budget.
pub nss_parameters-Drawn :
    (t : ExtensionTypes) (info : SizeInfo) (max_name_len host_len : ℕ) (r : Rounding)
    (coin : Random)
    → Drawn info
        (nss_payload_length t info max_name_len host_len r)
        (nss_parameters t info max_name_len host_len r coin)
unfolding nss_parameters
nss_parameters-Drawn t info max_name_len host_len r coin =
    toss-Drawn info (nss_payload_length t info max_name_len host_len r) coin _
      (checked_payload_length-Checked info (nss_payload_length t info max_name_len host_len r))

-- The four sizes of BoringSSL's own draw, with the tag.
abbrev pub Draws : SizeInfo → Fallible Parameters → Type 0
Draws info (fine p) =
    (j : ℕ) × (j < 4)
    × (p.payload_length ≡ 128 + 32 * j + info.aead_overhead)
    × Fits info p.payload_length
Draws info (wrong e) = Unit

payload-Draws :
    (info : SizeInfo) (j : ℕ) (r : Fallible Parameters)
    → j < 4
    → Drawn info (32 * (4 + j) + info.aead_overhead) r
    → Draws info r
payload-Draws info j (fine p) lt d = (
  j,
  lt,
  d.0 ∙ omega arith,
  (omega (arith, d.0, d.1.0), omega (arith, d.0, d.1.1), omega (arith, d.0, d.1.2)),
)
payload-Draws info j (wrong e) lt d = tt

-- The parameters that `boringssl_parameters` returns have 128, 160, 192 or 224 bytes of payload and
-- the AEAD's overhead, within 16 bits and the budget.
pub boringssl_parameters-Draws :
    (info : SizeInfo) (aead : Aead) (draw : Random)
    → Draws info (boringssl_parameters info aead draw)
unfolding boringssl_parameters
boringssl_parameters-Draws info aead (wrong e) = tt
boringssl_parameters-Draws info aead (fine x) = payload-Draws info (x % 4) _ (omega arith) (
    with_length-Drawn info _ aead false _
      (checked_payload_length-Checked info (32 * (4 + x % 4) + info.aead_overhead)))

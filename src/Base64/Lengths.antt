-- ===== src/Base64/Lengths.antt =====
-- The room that btls/src/base64.rs makes is what BoringSSL documents that it needs.
use btls.Prelude.{ℕ, ◌+◌, ◌*◌, ◌/◌, ◌%◌, ◌≤◌, ◌≡◌, some, arith, c_int_max}
use btls.Base64.{encoded_len, decoded_len}

-- Four characters for each three bytes that have begun.
abbrev pub encoded_size : ℕ → ℕ
encoded_size n = (n + 2) / 3 * 4

pub encoded_len-room : (n : ℕ) → n ≤ c_int_max → encoded_len n ≡ some (encoded_size n + 1)
unfolding encoded_len
encoded_len-room n h = ground arith

pub decoded_len-room : (n : ℕ) → n ≤ c_int_max → n % 4 ≡ 0 → decoded_len n ≡ some (n / 4 * 3)
unfolding decoded_len
decoded_len-room n h e = ground arith

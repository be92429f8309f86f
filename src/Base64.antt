-- ===== src/Base64.antt =====
-- btls/src/base64.rs. A text is its characters, as numbers.
pub mod Lengths
pub mod Decoding
use btls.Prelude.{
  ℕ, zero, suc, ◌+◌, ◌-◌, ◌*◌, ◌/◌, ◌%◌, Bool, true, false, ◌&&◌, ◌||◌, not, Option, none, some,
  List, [], ◌∷◌, ltb, leb, ◌==◌, if◌then◌else◌, length, take, usize_max, c_int_max,
}
use btls.Io.{Fallible, fine, wrong}
use btls.Symm.{Run, finished, panicked, overran, ◌>>=◌}

-- The functions of BoringSSL: what `EVP_EncodeBlock` writes before its 0, and what `EVP_DecodeBlock`
-- writes, with its `cvt_n`.
pub record Evp : Type 0 where
  pub encode : List ℕ → List ℕ
  pub decode : List ℕ → Fallible (List ℕ)

-- `usize::checked_mul` and `checked_add`
abbrev pub checked : ℕ → Option ℕ
checked n = if leb n usize_max then some n else none

abbrev pub then_checked : Option ℕ → (ℕ → Option ℕ) → Option ℕ
then_checked none f = none
then_checked (some n) f = f n

-- `encoded_len` and `decoded_len`
unfoldable pub encoded_len : ℕ → Option ℕ
encoded_len src_len = then_checked (checked (src_len / 3 * 4)) λ len.
    then_checked (if src_len % 3 == 0 then some len else checked (len + 4))
      λ len'. checked (len' + 1)

unfoldable pub decoded_len : ℕ → Option ℕ
decoded_len src_len =
    then_checked (checked (src_len / 4 * 3))
      λ len. if src_len % 4 == 0 then some len else checked (len + 3)

-- `char::is_whitespace`
abbrev pub is_whitespace : ℕ → Bool
is_whitespace c =
    (leb 9 c && leb c 13)
    || c == 32
    || c == 133
    || c == 160
    || c == 5760
    || (leb 8192 c && leb c 8202)
    || c == 8232
    || c == 8233
    || c == 8239
    || c == 8287
    || c == 12288

-- `str::trim`
unfoldable pub trim_start : List ℕ → List ℕ
trim_start [] = []
trim_start (c ∷ cs) = let rest = trim_start cs in if is_whitespace c then rest else c ∷ cs

abbrev pub is_empty : List ℕ → Bool
is_empty [] = true
is_empty (c ∷ cs) = false

unfoldable pub trim_end : List ℕ → List ℕ
trim_end [] = []
trim_end (c ∷ cs) =
    let rest = trim_end cs in if is_empty rest && is_whitespace c then [] else c ∷ rest

-- `str::len`: the bytes of the text in UTF-8
abbrev pub len_utf8 : ℕ → ℕ
len_utf8 c = if ltb c 128 then 1 else if ltb c 2048 then 2 else if ltb c 65536 then 3 else 4

unfoldable pub str_len : List ℕ → ℕ
str_len [] = 0
str_len (c ∷ cs) = len_utf8 c + str_len cs

-- `ends_with('=')` and `ends_with("==")`
unfoldable pub ends_with_pad : List ℕ → Bool
ends_with_pad [] = false
ends_with_pad (c ∷ []) = c == 61
ends_with_pad (c ∷ d ∷ cs) = ends_with_pad (d ∷ cs)

unfoldable pub ends_with_pads : List ℕ → Bool
ends_with_pads [] = false
ends_with_pads (c ∷ []) = false
ends_with_pads (c ∷ d ∷ []) = c == 61 && d == 61
ends_with_pads (c ∷ d ∷ e ∷ cs) = ends_with_pads (d ∷ e ∷ cs)

-- `Vec::pop`
abbrev pub pop : List ℕ → List ℕ
pop out = take (length out - 1) out

abbrev pub stripped : List ℕ → List ℕ → List ℕ
stripped src out =
    if ends_with_pad src then (if ends_with_pads src then pop (pop out) else pop out) else out

module _ (v : Evp) where
  -- `EVP_EncodeBlock` into a vector with the capacity `len`: a 0 follows what it returns the size of.
  encoded : Option ℕ → List ℕ → Run (List ℕ)
  encoded none out = panicked
  encoded (some len) out = if leb (length out + 1) len then finished (fine out) else overran

  -- `encode_block`
  unfoldable pub encode_block : List ℕ → Run (List ℕ)
  unfolding encoded encoded_len
  encode_block src =
      if leb (length src) c_int_max
      then encoded (encoded_len (length src)) (v.encode src)
      else panicked

  decoded : List ℕ → Option ℕ → Fallible (List ℕ) → Run (List ℕ)
  unfolding ends_with_pad ends_with_pads
  decoded src none r = panicked
  decoded src (some len) (wrong e) = finished (wrong e)
  decoded src (some len) (fine out) =
      if leb (length out) len then finished (fine (stripped src out)) else overran

  decode_trimmed : List ℕ → Run (List ℕ)
  unfolding decoded decoded_len str_len
  decode_trimmed [] = finished (fine [])
  decode_trimmed (c ∷ cs) =
      if leb (str_len (c ∷ cs)) c_int_max
      then decoded (c ∷ cs) (decoded_len (str_len (c ∷ cs))) (v.decode (c ∷ cs))
      else panicked

  -- `decode_block`
  unfoldable pub decode_block : List ℕ → Run (List ℕ)
  unfolding decode_trimmed trim_start trim_end
  decode_block src = decode_trimmed (trim_end (trim_start src))

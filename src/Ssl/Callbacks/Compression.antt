-- ===== src/Ssl/Callbacks/Compression.antt =====
-- Certificate compression in btls/src/ssl/callbacks.rs: the two callbacks, and the writers that
-- a `CertificateCompressor` has.
pub mod Filled
use btls.Prelude.{
  ℕ, ◌+◌, ◌-◌, min, Bool, true, false, Option, none, some, List, [], ◌++◌, length, take, drop, ◌==◌,
  if◌then◌else◌,
}
use btls.Io.{IoResult, ok, err, from_kind, other}
use btls.Ssl.Callbacks.{expecting}
use btls.Ssl.Callbacks.Handshake.{Done}
use btls.Ssl.Async.{returned}

-- What a compressor does with its writer: writes, each with its result, and then `Ok` or an error. A
-- flush moves no bytes and is left out.
pub data Program : Type 0 where
  done : Bool → Program
  write : List ℕ → (IoResult ℕ → Program) → Program

-- `CryptoByteBuilder::write`; `add_bytes` is `CBB_add_bytes` on a byte builder `B`.
module _ {B : Type 0} (add_bytes : B → List ℕ → Bool × B) where
  unfoldable pub cbb_write : List ℕ → B → IoResult ℕ × B
  cbb_write buf b =
      let (success, b') = add_bytes b buf in
      (if success then ok (length buf) else err (from_kind other), b')

  unfoldable pub compress : Program → B → Bool × B
  unfolding cbb_write
  compress (done success) b = (success, b)
  compress (write buf k) b = let (r, b') = cbb_write buf b in compress (k r) b'

  -- `raw_ssl_cert_compress`: the closure has the certificate.
  compressed : Bool × B → Done B ℕ
  compressed (true, b) = (returned 1, b)
  compressed (false, b) = (returned 0, b)

  unfoldable pub raw_ssl_cert_compress : Option (List ℕ → Program) → List ℕ → B → Done B ℕ
  unfolding compress compressed
  raw_ssl_cert_compress compressor input b =
      expecting compressor b (λ f. compressed (compress (f input) b))

-- `CryptoBufferBuilder`: the bytes of the buffer of BoringSSL, and the cursor's position in them.
pub record CryptoBufferBuilder : Type 0 where
  pub buffer : List ℕ
  pub position : ℕ

-- `Cursor::<&mut [u8]>::write`: what fits.
unfoldable pub cursor_write : List ℕ → CryptoBufferBuilder → IoResult ℕ × CryptoBufferBuilder
cursor_write buf c =
    let n = min (length buf) (length c.buffer - c.position) in
    (
      ok n,
      record {
        buffer = take c.position c.buffer ++ (take n buf ++ drop (c.position + n) c.buffer);
        position = c.position + n;
      },
    )

unfoldable pub decompress : Program → CryptoBufferBuilder → Bool × CryptoBufferBuilder
unfolding cursor_write
decompress (done success) c = (success, c)
decompress (write buf k) c = let (r, c') = cursor_write buf c in decompress (k r) c'

-- The return value, the buffer in `*out`, and how often `CRYPTO_BUFFER_free` was called.
pub record Decompressed : Type 0 where
  pub code : ℕ
  pub out : Option (List ℕ)
  pub frees : ℕ

-- `CryptoBufferBuilder::build`, and the drop of the builder after it: a buffer that was not given
-- out is freed.
unfoldable pub build : CryptoBufferBuilder → Decompressed
build c =
    if c.position == length c.buffer
    then record { code = 1; out = some c.buffer; frees = 0 }
    else record { code = 0; out = none; frees = 1 }

unfoldable pub finish_decompress : Bool × CryptoBufferBuilder → Decompressed
unfolding build
finish_decompress (true, c) = build c
finish_decompress (false, c) = record { code = 0; out = none; frees = 1 }

-- `raw_ssl_cert_decompress`; `alloc` is what `CRYPTO_BUFFER_alloc` gives: the bytes that stand in the
-- new buffer, or nothing.
unfoldable pub with_buffer : (List ℕ → Program) → List ℕ → Option (List ℕ) → Decompressed
unfolding finish_decompress decompress
with_buffer f input none = record { code = 0; out = none; frees = 0 }
with_buffer f input (some bytes) =
    finish_decompress (decompress (f input) (record { buffer = bytes; position = 0 }))

unfoldable pub raw_ssl_cert_decompress :
    {S : Type 0}
    → Option (List ℕ → Program)
    → (ℕ → Option (List ℕ))
    → ℕ
    → List ℕ
    → S
    → Done S Decompressed
unfolding with_buffer
raw_ssl_cert_decompress compressor alloc uncompressed_len input s =
    expecting compressor s (λ f. (returned (with_buffer f input (alloc uncompressed_len)), s))

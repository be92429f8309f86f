-- ===== src/Ssl/Ech.antt =====
-- btls/src/ssl/ech_grease.rs: the parameters of an ECH GREASE extension, and the callback for them.
pub mod Sizes
pub mod Policy
use btls.Prelude.{
  ℕ, ◌+◌, ◌-◌, ◌*◌, ◌/◌, ◌%◌, Bool, true, false, ◌&&◌, ◌||◌, not, Option, none, some, List, [], ◌∷◌,
  ltb, leb, ◌==◌, if◌then◌else◌, length, bit_and,
}
use btls.Io.{ErrorStack, lib_none, reason, Fallible, fine, wrong}

-- `EchGreaseRounding`
pub data Rounding : Type 0 where
  nss_pre_3127 nss_3127 : Rounding

-- `EchGreaseAead`: `AES_128_GCM` and `CHACHA20_POLY1305`, or one that BoringSSL names by its identifier.
pub data Aead : Type 0 where
  aes_128_gcm chacha20_poly1305 : Aead
  aead_id : ℕ → Aead

-- `EchGreaseParameters`
pub record Parameters : Type 0 where
  pub aead : Aead
  pub payload_length : ℕ
  pub random_enc : Bool

-- `EchGreaseParameters::new`
abbrev pub new : Aead → ℕ → Parameters
new aead payload_length = record {
  aead = aead;
  payload_length = payload_length;
  random_enc = false;
}

-- `EchGreaseSizeInfo`: what its methods return, each reading a field that BoringSSL filled in.
-- `extensions` are the types and body lengths, in wire order.
pub record SizeInfo : Type 0 where
  pub cipher_suites : List ℕ
  pub extensions : List (ℕ × ℕ)
  pub psk_extension_length : ℕ
  pub server_name_length : Option ℕ
  pub aead_overhead : ℕ
  pub max_payload_length : ℕ
  pub default_aead : Aead
  pub message_length : ℕ
  pub is_dtls : Bool
  pub is_quic : Bool

-- The codes of the extension types that the rule names, which the generated bindings hold.
pub record ExtensionTypes : Type 0 where
  pub server_name : ℕ
  pub supported_versions : ℕ
  pub ec_point_formats : ℕ
  pub extended_master_secret : ℕ
  pub session_ticket : ℕ
  pub renegotiate : ℕ

-- `NSS_TICKET_EARLY_DATA_INFO` and `TLS_EXTENSION_HEADER_LEN`
abbrev pub nss_ticket_early_data_info : ℕ
nss_ticket_early_data_info = 46

abbrev pub tls_extension_header_len : ℕ
tls_extension_header_len = 4

-- `ExtensionType::is_grease`: the masks are 0x0f0f, 0x0a0a and 0xff.
unfoldable pub is_grease : ℕ → Bool
is_grease x = bit_and x 3855 == 2570 && x / 256 == bit_and x 255

-- `ErrorStack::internal_error_str`
abbrev pub internal_error : ErrorStack
internal_error = record { library_code = lib_none; reason_code = reason 0 } ∷ []

module _ (t : ExtensionTypes) where
  -- The array of the loop in `nss_payload_length`, and whether it holds a type.
  abbrev pub omitted : ℕ → Bool
  omitted x =
      x == t.server_name
      || x == t.supported_versions
      || x == t.ec_point_formats
      || x == t.extended_master_secret
      || x == t.session_ticket
      || x == nss_ticket_early_data_info
      || x == t.renegotiate

  -- The loop: `compressed` and `grease_version`.
  unfoldable pub scan : List (ℕ × ℕ) → ℕ → Bool → ℕ × Bool
  unfolding is_grease
  scan [] compressed grease = (compressed, grease)
  scan ((x, n) ∷ xs) compressed grease =
      scan xs (if omitted x then compressed else compressed + 1)
        (if is_grease x then true else grease)

  abbrev sni_length : Option ℕ → ℕ
  sni_length none = 0
  sni_length (some n) = tls_extension_header_len + 5 + n

  -- `len` of `nss_payload_length` before it is rounded. `host_len as u8` is the length modulo 256.
  unfoldable pub unpadded_length : SizeInfo → ℕ → ℕ → ℕ
  unfolding scan
  unpadded_length info max_name_len host_len =
      let (compressed, grease_version) = scan info.extensions 0 false in
      2
      + 32
      + 1
      + 2
      + length info.cipher_suites
      + 1
      + 1
      + 2
      + (tls_extension_header_len + 1)
      + sni_length info.server_name_length
      + (tls_extension_header_len + 3 + (if grease_version then 2 else 0))
      + (if info.psk_extension_length == 0
          then 0
          else tls_extension_header_len + info.psk_extension_length)
      + (if compressed == 0 then 0 else tls_extension_header_len + 1 + 2 * compressed)
      + (max_name_len - host_len % 256)

  abbrev pub remainder : Rounding → ℕ → ℕ
  remainder nss_pre_3127 len = len % 32
  remainder nss_3127 len = (len - 1) % 32

  -- `nss_payload_length`. Sums that pass `usize::MAX` are left out: no ClientHello is that long.
  unfoldable pub nss_payload_length : SizeInfo → ℕ → ℕ → Rounding → ℕ
  unfolding unpadded_length
  nss_payload_length info max_name_len host_len rounding =
      let len = unpadded_length info max_name_len host_len in
      len + (31 - remainder rounding len) + info.aead_overhead

-- `checked_payload_length`
unfoldable pub checked_payload_length : SizeInfo → ℕ → Fallible ℕ
checked_payload_length info len =
    if ltb len 65536 && leb len info.max_payload_length && not (len == 0)
    then fine len
    else wrong internal_error

-- `rand_bytes` of one byte: the byte, or an error.
abbrev pub Random : Type 0
Random = Fallible ℕ

with_length : Aead → Bool → Fallible ℕ → Fallible Parameters
with_length aead random_enc (wrong e) = wrong e
with_length aead random_enc (fine n) =
    fine (record { aead = aead; payload_length = n; random_enc = random_enc })

-- `boringssl_parameters`
unfoldable pub boringssl_parameters : SizeInfo → Aead → Random → Fallible Parameters
unfolding with_length checked_payload_length
boringssl_parameters info aead (wrong e) = wrong e
boringssl_parameters info aead (fine draw) =
    with_length aead false (checked_payload_length info (32 * (4 + draw % 4) + info.aead_overhead))

toss : Random → Fallible ℕ → Fallible Parameters
unfolding with_length
toss coin (wrong e) = wrong e
toss (wrong e) (fine n) = wrong e
toss (fine coin) (fine n) =
    with_length (if coin % 2 == 1 then aes_128_gcm else chacha20_poly1305) true (fine n)

-- `nss_parameters`; `coin & 1` is `coin % 2`.
unfoldable pub nss_parameters :
    ExtensionTypes → SizeInfo → ℕ → ℕ → Rounding → Random → Fallible Parameters
unfolding toss nss_payload_length checked_payload_length
nss_parameters t info max_name_len host_len rounding coin =
    toss coin
      (checked_payload_length info (nss_payload_length t info max_name_len host_len rounding))

-- A closure for the callback: its outcome may depend on the connection, which is part of it here.
abbrev pub Closure : Type 0
Closure = SizeInfo → Fallible Parameters

-- The slot for one closure type (`ex_data`: not there, empty or filled), and whether BoringSSL has
-- `parameter_callback` for that type.
pub record Slot : Type 0 where
  pub stored : Option (Option Closure)
  pub registered : Bool

-- `parameter_callback`: the return value, what it wrote to `out`, and the errors it put.
abbrev answer : Fallible Parameters → ℕ × Option Parameters × ErrorStack
answer (fine p) = (1, some p, [])
answer (wrong e) = (0, none, e)

unfoldable pub parameter_callback : Slot → SizeInfo → ℕ × Option Parameters × ErrorStack
parameter_callback s info = elim s.stored [
  | none ↦ (0, none, [])
  | some c ↦ elim c [ none ↦ (0, none, []) | some f ↦ answer (f info) ]
]

-- `SslContextBuilder::set_ech_grease_callback` and `clear_ech_grease_callback`
unfoldable pub set_context : Closure → Slot → Slot
set_context f s = record { stored = some (some f); registered = true }

unfoldable pub clear_context : Slot → Slot
clear_context s = record s { registered = false }

opened : Option (Option Closure) → Option (Option Closure)
opened none = some none
opened (some c) = some c

-- `SslRef::set_ech_grease_callback`; `accepted` is what `SSL_set_ech_grease_callback` returns. The
-- slot is there once it has been made, so the lookup after that does not fail.
unfoldable pub set_connection : Bool → Closure → Slot → Fallible (Unit {0}) × Slot
unfolding opened
set_connection accepted f s =
    if accepted
    then (fine tt, record { stored = some (some f); registered = true })
    else (wrong internal_error, record s { stored = opened s.stored })

-- `SslRef::clear_ech_grease_callback`
unfoldable pub clear_connection : Bool → Slot → Fallible (Unit {0}) × Slot
clear_connection accepted s =
    if accepted then (fine tt, record s { registered = false }) else (wrong internal_error, s)

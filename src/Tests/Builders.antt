-- ===== src/Tests/Builders.antt =====
-- Runs of the X.509 builders and of the ECH GREASE parameters.
use btls.Prelude.{◌≡◌, refl, true, false, some, none, [], ◌∷◌}
use btls.Io.{fine, wrong}
use btls.Extension.Native.{X509}
use btls.Extension.BasicConstraints
use btls.Extension.KeyUsage
use btls.Extension.ExtendedKeyUsage
use btls.Extension.ExtendedKeyUsage.{build-fine}
use btls.Extension.KeyIdentifier.{
  AuthorityKeyIdentifier, authority_value, authority_table, authority_value-join, new_authority,
  keyid, issuer,
}
use btls.Extension.Text.{join, enabled, decimal}
use btls.Extension.SubjectAlternativeName
use btls.Extension.SubjectAlternativeName.{RustGeneralName, names-fine}
use btls.Ssl.Ech.{
  SizeInfo, ExtensionTypes, nss_3127, nss_payload_length, nss_parameters, aes_128_gcm, Slot,
  Closure, new,
}
use btls.Ssl.Ech.Sizes.{Drawn, nss_parameters-Drawn}
use Prim.Native.String.{String}

-- Every text is an object and a name, and none is an address.
abbrev texts : X509 String String String String
texts = record {
  new_nid = λ c n s. fine s;
  new_objects = λ n c os. fine "objects";
  new_names = λ n c ns. fine "names";
  stack_new = fine tt;
  object_from_str = λ s. fine s;
  parse_ip = λ s. wrong [];
  new_dns = λ s. fine s;
  new_email = λ s. fine s;
  new_uri = λ s. fine s;
  new_ip = λ s. fine s;
  new_rid = λ s. fine s;
}

key_usage_text :
    KeyUsage.value (KeyUsage.crl_sign (KeyUsage.digital_signature (KeyUsage.critical KeyUsage.new)))
    ≡ "critical,digitalSignature,cRLSign"
unfolding KeyUsage.value
key_usage_text = refl

basic_text :
    BasicConstraints.value (BasicConstraints.pathlen (BasicConstraints.ca BasicConstraints.new) 120)
    ≡ "CA:TRUE,pathlen:120"
unfolding BasicConstraints.value decimal
basic_text = refl

abbrev usages : ExtendedKeyUsage.ExtendedKeyUsage
usages = ExtendedKeyUsage.client_auth (ExtendedKeyUsage.server_auth ExtendedKeyUsage.new)

abbrev hosts : SubjectAlternativeName.SubjectAlternativeName
hosts = SubjectAlternativeName.ip (SubjectAlternativeName.dns SubjectAlternativeName.new "a") "b"

abbrev host : SubjectAlternativeName.SubjectAlternativeName
host = SubjectAlternativeName.dns SubjectAlternativeName.new "a"

value-join_example :
    KeyUsage.value (KeyUsage.crl_sign KeyUsage.new)
    ≡ join (enabled (KeyUsage.table (KeyUsage.crl_sign KeyUsage.new)))
value-join_example = KeyUsage.value-join (KeyUsage.crl_sign KeyUsage.new)

abbrev authority : AuthorityKeyIdentifier
authority = issuer (keyid new_authority true) false

authority_example : authority_value authority ≡ join (enabled (authority_table authority))
authority_example = authority_value-join authority

abbrev types : ExtensionTypes
types = record {
  server_name = 0;
  supported_versions = 43;
  ec_point_formats = 11;
  extended_master_secret = 23;
  session_ticket = 35;
  renegotiate = 65281;
}

abbrev info : SizeInfo
info = record {
  cipher_suites = 19 ∷ 1 ∷ 19 ∷ 3 ∷ [];
  extensions = (2570, 0) ∷ (0, 16) ∷ (10, 8) ∷ (51, 38) ∷ (43, 7) ∷ [];
  psk_extension_length = 0;
  server_name_length = some 11;
  aead_overhead = 16;
  max_payload_length = 60000;
  default_aead = aes_128_gcm;
  message_length = 300;
  is_dtls = false;
  is_quic = false;
}

nss_example :
    Drawn info
      (nss_payload_length types info 100 11 nss_3127)
      (nss_parameters types info 100 11 nss_3127 (fine 7))
nss_example = nss_parameters-Drawn types info 100 11 nss_3127 (fine 7)

abbrev policy : Closure
policy x = fine (new aes_128_gcm 144)

abbrev slot : Slot
slot = record { stored = none; registered = false }

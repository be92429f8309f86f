-- ===== src/Extension/KeyUsage.antt =====
-- `KeyUsage`
use btls.Prelude.{◌≡◌, Bool, true, false, List, [], ◌∷◌}
use btls.Io.{Fallible}
use btls.Extension.Text.{append, append_all, enabled, join, append_all-join}
use btls.Extension.Native
use btls.Extension.Native.{X509}
use Prim.Native.String.{String}

-- `KeyUsage`
pub record KeyUsage : Type 0 where
  pub is_critical : Bool
  pub has_digital_signature : Bool
  pub has_non_repudiation : Bool
  pub has_key_encipherment : Bool
  pub has_data_encipherment : Bool
  pub has_key_agreement : Bool
  pub has_key_cert_sign : Bool
  pub has_crl_sign : Bool
  pub has_encipher_only : Bool
  pub has_decipher_only : Bool

-- `new`, `critical` and the setters of the usages
abbrev pub new : KeyUsage
new = record {
  is_critical = false;
  has_digital_signature = false;
  has_non_repudiation = false;
  has_key_encipherment = false;
  has_data_encipherment = false;
  has_key_agreement = false;
  has_key_cert_sign = false;
  has_crl_sign = false;
  has_encipher_only = false;
  has_decipher_only = false;
}

abbrev pub critical : KeyUsage → KeyUsage
critical k = record k { is_critical = true }

abbrev pub digital_signature : KeyUsage → KeyUsage
digital_signature k = record k { has_digital_signature = true }

abbrev pub non_repudiation : KeyUsage → KeyUsage
non_repudiation k = record k { has_non_repudiation = true }

abbrev pub key_encipherment : KeyUsage → KeyUsage
key_encipherment k = record k { has_key_encipherment = true }

abbrev pub data_encipherment : KeyUsage → KeyUsage
data_encipherment k = record k { has_data_encipherment = true }

abbrev pub key_agreement : KeyUsage → KeyUsage
key_agreement k = record k { has_key_agreement = true }

abbrev pub key_cert_sign : KeyUsage → KeyUsage
key_cert_sign k = record k { has_key_cert_sign = true }

abbrev pub crl_sign : KeyUsage → KeyUsage
crl_sign k = record k { has_crl_sign = true }

abbrev pub encipher_only : KeyUsage → KeyUsage
encipher_only k = record k { has_encipher_only = true }

abbrev pub decipher_only : KeyUsage → KeyUsage
decipher_only k = record k { has_decipher_only = true }

-- The text that `build` makes, with one `append` for each flag.
unfoldable pub value : KeyUsage → String
unfolding append
value k =
    let v = append ("", true) k.is_critical "critical" in
    let v = append v k.has_digital_signature "digitalSignature" in
    let v = append v k.has_non_repudiation "nonRepudiation" in
    let v = append v k.has_key_encipherment "keyEncipherment" in
    let v = append v k.has_data_encipherment "dataEncipherment" in
    let v = append v k.has_key_agreement "keyAgreement" in
    let v = append v k.has_key_cert_sign "keyCertSign" in
    let v = append v k.has_crl_sign "cRLSign" in
    let v = append v k.has_encipher_only "encipherOnly" in
    let v = append v k.has_decipher_only "decipherOnly" in v.0

-- `build`
unfoldable pub build : {E O N A : Type 0} → X509 E O N A → KeyUsage → Fallible E
unfolding value
build x k = x.new_nid false Native.key_usage (value k)

-- The names of the usages, beside their flags, in the order of the ASN.1 type.
abbrev pub table : KeyUsage → List (Bool × String)
table k =
    (k.is_critical, "critical")
    ∷ (k.has_digital_signature, "digitalSignature")
    ∷ (k.has_non_repudiation, "nonRepudiation")
    ∷ (k.has_key_encipherment, "keyEncipherment")
    ∷ (k.has_data_encipherment, "dataEncipherment")
    ∷ (k.has_key_agreement, "keyAgreement")
    ∷ (k.has_key_cert_sign, "keyCertSign")
    ∷ (k.has_crl_sign, "cRLSign")
    ∷ (k.has_encipher_only, "encipherOnly")
    ∷ (k.has_decipher_only, "decipherOnly")
    ∷ []

-- The text of `KeyUsage::build` is the names of the usages that are set, in the order of their bits,
-- after `critical` if that is set, with a comma between each two and no other.
pub value-join : (k : KeyUsage) → value k ≡ join (enabled (table k))
unfolding value append_all
value-join k = append_all-join (table k)

-- ===== src/Extension/KeyIdentifier.antt =====
-- `SubjectKeyIdentifier` and `AuthorityKeyIdentifier`
use btls.Prelude.{◌≡◌, refl, ap, ◌∙◌, Bool, true, false, Option, none, some, List, [], ◌∷◌}
use btls.Io.{Fallible}
use btls.Extension.Text.{append, append_all, enabled, join, append_all-join}
use btls.Extension.Native.{X509, subject_key_identifier, authority_key_identifier}
use Prim.Native.String.{String}

-- `SubjectKeyIdentifier`, its `new` and `critical`
pub record SubjectKeyIdentifier : Type 0 where
  pub is_critical : Bool

abbrev pub new_subject : SubjectKeyIdentifier
new_subject = record { is_critical = false }

abbrev pub critical_subject : SubjectKeyIdentifier → SubjectKeyIdentifier
critical_subject k = record k { is_critical = true }

-- The text of its `build`, and `build`
unfoldable pub subject_value : SubjectKeyIdentifier → String
unfolding append
subject_value k = (append (append ("", true) k.is_critical "critical") true "hash").0

unfoldable pub build_subject : {E O N A : Type 0} → X509 E O N A → SubjectKeyIdentifier → Fallible E
unfolding subject_value
build_subject x k = x.new_nid true subject_key_identifier (subject_value k)

-- `AuthorityKeyIdentifier`, its `new`, `critical`, `keyid` and `issuer`
pub record AuthorityKeyIdentifier : Type 0 where
  pub is_critical : Bool
  pub keyid_always : Option Bool
  pub issuer_always : Option Bool

abbrev pub new_authority : AuthorityKeyIdentifier
new_authority = record { is_critical = false; keyid_always = none; issuer_always = none }

abbrev pub critical_authority : AuthorityKeyIdentifier → AuthorityKeyIdentifier
critical_authority k = record k { is_critical = true }

abbrev pub keyid : AuthorityKeyIdentifier → Bool → AuthorityKeyIdentifier
keyid k always = record k { keyid_always = some always }

abbrev pub issuer : AuthorityKeyIdentifier → Bool → AuthorityKeyIdentifier
issuer k always = record k { issuer_always = some always }

-- The two `match`es of `build`.
append_keyid : Option Bool → String × Bool → String × Bool
unfolding append
append_keyid (some true) v = append v true "keyid:always"
append_keyid (some false) v = append v true "keyid"
append_keyid none v = v

append_issuer : Option Bool → String × Bool → String × Bool
unfolding append
append_issuer (some true) v = append v true "issuer:always"
append_issuer (some false) v = append v true "issuer"
append_issuer none v = v

-- The text of its `build`, and `build`
unfoldable pub authority_value : AuthorityKeyIdentifier → String
unfolding append append_keyid append_issuer
authority_value k =
    (append_issuer k.issuer_always
      (append_keyid k.keyid_always (append ("", true) k.is_critical "critical"))).0

unfoldable pub build_authority :
    {E O N A : Type 0} → X509 E O N A → AuthorityKeyIdentifier → Fallible E
unfolding authority_value
build_authority x k = x.new_nid true authority_key_identifier (authority_value k)

-- An identifier beside whether it is asked for.
abbrev pub keyid_element : Option Bool → Bool × String
keyid_element none = (false, "")
keyid_element (some true) = (true, "keyid:always")
keyid_element (some false) = (true, "keyid")

abbrev pub issuer_element : Option Bool → Bool × String
issuer_element none = (false, "")
issuer_element (some true) = (true, "issuer:always")
issuer_element (some false) = (true, "issuer")

abbrev pub authority_table : AuthorityKeyIdentifier → List (Bool × String)
authority_table k =
    (k.is_critical, "critical") ∷ keyid_element k.keyid_always ∷ issuer_element k.issuer_always ∷ []

append_keyid_lem :
    (o : Option Bool) (v : String × Bool)
    → append_keyid o v ≡ append v (keyid_element o).0 (keyid_element o).1
unfolding append_keyid
append_keyid_lem none v = nothing v
  where
    nothing : (v : String × Bool) → v ≡ append v false ""
    nothing (a, true) = refl
    nothing (a, false) = refl
append_keyid_lem (some true) v = refl
append_keyid_lem (some false) v = refl

append_issuer_lem :
    (o : Option Bool) (v : String × Bool)
    → append_issuer o v ≡ append v (issuer_element o).0 (issuer_element o).1
unfolding append_issuer
append_issuer_lem none v = nothing v
  where
    nothing : (v : String × Bool) → v ≡ append v false ""
    nothing (a, true) = refl
    nothing (a, false) = refl
append_issuer_lem (some true) v = refl
append_issuer_lem (some false) v = refl

-- The text of `AuthorityKeyIdentifier::build` is `critical`, the key identifier and the issuer, each
-- if it is asked for and with `:always` where that is, with a comma between each two and no other.
pub authority_value-join :
    (k : AuthorityKeyIdentifier) → authority_value k ≡ join (enabled (authority_table k))
unfolding authority_value append_all
authority_value-join k =
    ap (λ v. v.0)
      (append_issuer_lem k.issuer_always _
        ∙ ap (λ v. append v (issuer_element k.issuer_always).0 (issuer_element k.issuer_always).1)
            (append_keyid_lem k.keyid_always _))
    ∙ append_all-join (authority_table k)

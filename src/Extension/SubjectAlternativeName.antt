-- ===== src/Extension/SubjectAlternativeName.antt =====
-- `SubjectAlternativeName`
use btls.Prelude.{◌≡◌, refl, Bool, true, false, List, [], ◌∷◌, ◌++◌}
use btls.Io.{Fallible, fine}
use btls.Extension.Native.{X509, subject_alt_name, ◌>>=◌, push_all, Turns, push_all-fine}
use Prim.Native.String.{String}

-- `RustGeneralName`
pub data RustGeneralName : Type 0 where
  dns_name email_name uri_name ip_name rid_name : String → RustGeneralName

-- `SubjectAlternativeName`
pub record SubjectAlternativeName : Type 0 where
  pub is_critical : Bool
  pub items : List RustGeneralName

-- `new`, `critical` and the setters of the names
abbrev pub new : SubjectAlternativeName
new = record { is_critical = false; items = [] }

abbrev pub critical : SubjectAlternativeName → SubjectAlternativeName
critical k = record k { is_critical = true }

abbrev pub item : SubjectAlternativeName → RustGeneralName → SubjectAlternativeName
item k n = record k { items = k.items ++ (n ∷ []) }

abbrev pub email : SubjectAlternativeName → String → SubjectAlternativeName
email k s = item k (email_name s)

abbrev pub uri : SubjectAlternativeName → String → SubjectAlternativeName
uri k s = item k (uri_name s)

abbrev pub dns : SubjectAlternativeName → String → SubjectAlternativeName
dns k s = item k (dns_name s)

abbrev pub rid : SubjectAlternativeName → String → SubjectAlternativeName
rid k s = item k (rid_name s)

abbrev pub ip : SubjectAlternativeName → String → SubjectAlternativeName
ip k s = item k (ip_name s)

module _ {E O N A : Type 0} (x : X509 E O N A) where
  -- The `match` of the loop of `build`. `parse_ip` fails with what is in the error queue.
  abbrev pub general_name : RustGeneralName → Fallible N
  general_name (dns_name s) = x.new_dns s
  general_name (email_name s) = x.new_email s
  general_name (uri_name s) = x.new_uri s
  general_name (ip_name s) = x.parse_ip s >>= x.new_ip
  general_name (rid_name s) = x.object_from_str s >>= x.new_rid

  -- `build`
  unfoldable pub build : SubjectAlternativeName → Fallible E
  unfolding push_all
  build k = do
    _ ← x.stack_new
    stack ← push_all general_name k.items []
    x.new_names subject_alt_name k.is_critical stack

  -- Where a stack can be made and every name is accepted, `SubjectAlternativeName::build` makes the
  -- extension of those names, in the order in which they were added.
  pub names-fine :
      (k : SubjectAlternativeName) (names : List N)
      → x.stack_new ≡ fine tt
      → Turns general_name k.items names
      → build k ≡ x.new_names subject_alt_name k.is_critical names
  unfolding build
  names-fine k names s t = rw (s, push_all-fine general_name k.items names [] t) refl

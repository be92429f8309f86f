-- ===== src/Extension/ExtendedKeyUsage.antt =====
-- `ExtendedKeyUsage`
use btls.Prelude.{◌≡◌, refl, Bool, true, false, List, [], ◌∷◌, ◌++◌}
use btls.Io.{Fallible, fine}
use btls.Extension.Native.{X509, ext_key_usage, ◌>>=◌, push_all, Turns, push_all-fine}
use Prim.Native.String.{String}

-- `ExtendedKeyUsage`
pub record ExtendedKeyUsage : Type 0 where
  pub is_critical : Bool
  pub items : List String

-- `new`, `critical`, `other` and the setters of the usages
abbrev pub new : ExtendedKeyUsage
new = record { is_critical = false; items = [] }

abbrev pub critical : ExtendedKeyUsage → ExtendedKeyUsage
critical k = record k { is_critical = true }

abbrev pub other : ExtendedKeyUsage → String → ExtendedKeyUsage
other k item = record k { items = k.items ++ (item ∷ []) }

abbrev pub server_auth : ExtendedKeyUsage → ExtendedKeyUsage
server_auth k = other k "serverAuth"

abbrev pub client_auth : ExtendedKeyUsage → ExtendedKeyUsage
client_auth k = other k "clientAuth"

abbrev pub code_signing : ExtendedKeyUsage → ExtendedKeyUsage
code_signing k = other k "codeSigning"

abbrev pub time_stamping : ExtendedKeyUsage → ExtendedKeyUsage
time_stamping k = other k "timeStamping"

abbrev pub ms_code_ind : ExtendedKeyUsage → ExtendedKeyUsage
ms_code_ind k = other k "msCodeInd"

abbrev pub ms_code_com : ExtendedKeyUsage → ExtendedKeyUsage
ms_code_com k = other k "msCodeCom"

abbrev pub ms_ctl_sign : ExtendedKeyUsage → ExtendedKeyUsage
ms_ctl_sign k = other k "msCTLSign"

abbrev pub ms_sgc : ExtendedKeyUsage → ExtendedKeyUsage
ms_sgc k = other k "msSGC"

abbrev pub ms_efs : ExtendedKeyUsage → ExtendedKeyUsage
ms_efs k = other k "msEFS"

abbrev pub ns_sgc : ExtendedKeyUsage → ExtendedKeyUsage
ns_sgc k = other k "nsSGC"

-- `build`
unfoldable pub build : {E O N A : Type 0} → X509 E O N A → ExtendedKeyUsage → Fallible E
unfolding push_all
build x k = do
  _ ← x.stack_new
  stack ← push_all x.object_from_str k.items []
  x.new_objects ext_key_usage k.is_critical stack

-- Where a stack can be made and every item names an object, `ExtendedKeyUsage::build` makes the
-- extension of those objects, in the order in which they were added.
pub build-fine :
    {E O N A : Type 0} (x : X509 E O N A) (k : ExtendedKeyUsage) (objects : List O)
    → x.stack_new ≡ fine tt
    → Turns x.object_from_str k.items objects
    → build x k ≡ x.new_objects ext_key_usage k.is_critical objects
unfolding build
build-fine x k objects s t = rw (s, push_all-fine x.object_from_str k.items objects [] t) refl

-- ===== src/Extension/BasicConstraints.antt =====
-- `BasicConstraints`
use btls.Prelude.{ℕ, Bool, true, false, Option, none, some, if◌then◌else◌}
use btls.Io.{Fallible}
use btls.Extension.Text.{decimal}
use btls.Extension.Native.{X509, basic_constraints}
use Prim.Native.String.{String, ◌++◌}

-- `BasicConstraints`
pub record BasicConstraints : Type 0 where
  pub is_critical : Bool
  pub is_ca : Bool
  pub max_pathlen : Option ℕ

-- `new`, `critical`, `ca` and `pathlen`
abbrev pub new : BasicConstraints
new = record { is_critical = false; is_ca = false; max_pathlen = none }

abbrev pub critical : BasicConstraints → BasicConstraints
critical b = record b { is_critical = true }

abbrev pub ca : BasicConstraints → BasicConstraints
ca b = record b { is_ca = true }

abbrev pub pathlen : BasicConstraints → ℕ → BasicConstraints
pathlen b n = record b { max_pathlen = some n }

abbrev pub pathlen_text : Option ℕ → String
pathlen_text none = ""
pathlen_text (some n) = ",pathlen:" ++ decimal n

-- The text that `build` makes.
unfoldable pub value : BasicConstraints → String
value b =
    (if b.is_critical then "critical," else "")
    ++ ("CA:" ++ ((if b.is_ca then "TRUE" else "FALSE") ++ pathlen_text b.max_pathlen))

-- `build`
unfoldable pub build : {E O N A : Type 0} → X509 E O N A → BasicConstraints → Fallible E
unfolding value
build x b = x.new_nid false basic_constraints (value b)

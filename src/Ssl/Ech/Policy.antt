-- ===== src/Ssl/Ech/Policy.antt =====
-- Which policy the callback runs, after it is set, refused or cleared.
use btls.Prelude.{◌≡◌, true, some}
use btls.Io.{Fallible, fine, wrong}
use btls.Ssl.Ech.{SizeInfo, Closure, Slot, parameter_callback}

-- After `set_ech_grease_callback` on a connection.
abbrev pub Installs : Closure → Slot → Fallible (Unit {0}) × Slot → Type 0
Installs f s (fine _, s') = (s'.registered ≡ true) × (s'.stored ≡ some (some f))
Installs f s (wrong e, s') =
    (s'.registered ≡ s.registered)
    × ((info : SizeInfo) → parameter_callback s' info ≡ parameter_callback s info)

-- ===== src/Ssl/Seal/Laws.antt =====
-- `seal_app_data` of btls/src/ssl/mod.rs and its limits, under the law of `SSL_seal_app_data`.
use btls.Prelude.{
  leb, ℕ, ◌≤◌, ◌≡◌, ◌∙◌, min, ◌&&◌, Option, none, some, List, ◌++◌, arith, length, take, flatten,
  ltb, le→leb, ◌==◌, if_split,
}
use btls.Ssl.Boring.{Boring, IsBoring, SealResult, success, declined, failed, Sealed, RawLimits}
use btls.Ssl.Seal.{
  Seal, sealed, declines, fails, seal_result, seal_app_data, limits_of, seal_app_data_limits,
  SealLimits,
}

module _ {C : Type 0} {g : Boring C} (l : IsBoring g) where
  -- An outcome of `seal_app_data` on the plaintext `all`, after the plaintext `before`.
  abbrev pub Sealing : List ℕ → List ℕ → ℕ → Seal × C → Type 0
  Sealing before all max_out (sealed n out, c) =
      (n ≤ length all)
      × (min 1 (length all) ≤ n)
      × (length out ≤ max_out)
      × (g.sealed c ≡ before ++ take n all)
  Sealing before all max_out (declines, c) = g.sealed c ≡ before
  Sealing before all max_out (fails e, c) = g.sealed c ≡ before

  seal_result-Sealing :
      (before all : List ℕ) (max_in max_out : ℕ)
      → min 1 (length all) ≤ max_in
      → (r : SealResult × C) → Sealed before all max_in max_out r.0 (g.sealed r.1)
      → Sealing before all max_out (seal_result g max_in max_out r)
  unfolding seal_result
  seal_result-Sealing before all max_in max_out lo (success n out, c) (a, b, d, e, f) =
      rw (le→leb _ _ d, le→leb _ _ b) (a, omega (arith, lo, e), d, f)
  seal_result-Sealing before all max_in max_out lo (declined, c) e = e
  seal_result-Sealing before all max_in max_out lo (failed, c) e = (l.pops c).0 ∙ e

  pub seal_app_data-Sealing :
      (c : C) (bufs : List (List ℕ)) (max_in max_out : ℕ)
      → min 1 (length (flatten bufs)) ≤ max_in
      → Sealing (g.sealed c) (flatten bufs) max_out (seal_app_data g c bufs max_in max_out)
  unfolding seal_app_data
  seal_app_data-Sealing c bufs max_in max_out lo =
      seal_result-Sealing (g.sealed c) (flatten bufs) max_in max_out lo
        (g.ssl_seal_app_data c bufs max_in max_out) (l.seals c bufs max_in max_out)

-- The limits that are reported allow a byte in a record.
abbrev pub Limited : Option SealLimits → Type 0
Limited none = Unit
Limited (some x) = 1 ≤ x.max_fragment

limits_of-Limited : (r : RawLimits) → Limited (limits_of r)
limits_of-Limited r =
    if_split Limited (r.ret == 1 && ltb 0 r.max_fragment) (λ e. ground arith) (λ e. tt)

pub seal_app_data_limits-Limited :
    {C : Type 0} → (g : Boring C) (c : C) → Limited (seal_app_data_limits g c)
unfolding seal_app_data_limits
seal_app_data_limits-Limited g c = limits_of-Limited (g.ssl_seal_app_data_limits c)

-- A success is no longer than the output, by the check of `seal_app_data` itself.
abbrev pub Bounded : {C : Type 0} → ℕ → Seal × C → Type 0
Bounded max_out (sealed n out, c) = length out ≤ max_out
Bounded max_out (declines, c) = Unit
Bounded max_out (fails e, c) = Unit

seal_result-Bounded :
    {C : Type 0} (g : Boring C) (max_in max_out : ℕ) (r : SealResult × C)
    → Bounded max_out (seal_result g max_in max_out r)
unfolding seal_result
seal_result-Bounded g max_in max_out (success n out, c) =
    if_split (Bounded max_out) (leb (length out) max_out && leb n max_in) (λ e. ground (arith, e))
      (λ e. tt)
seal_result-Bounded g max_in max_out (declined, c) = tt
seal_result-Bounded g max_in max_out (failed, c) = tt

pub seal_app_data-Bounded :
    {C : Type 0} (g : Boring C) (c : C) (bufs : List (List ℕ)) (max_in max_out : ℕ)
    → Bounded max_out (seal_app_data g c bufs max_in max_out)
unfolding seal_app_data
seal_app_data-Bounded g c bufs max_in max_out =
    seal_result-Bounded g max_in max_out (g.ssl_seal_app_data c bufs max_in max_out)

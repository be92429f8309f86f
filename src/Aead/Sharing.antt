-- ===== src/Aead/Sharing.antt =====
-- One `StatelessAeadCtx` of btls/src/aead.rs that is used again and again, in any order.
use btls.Prelude.{ℕ, List, [], ◌∷◌}
use btls.Symm.{Run}
use btls.Aead.{EvpAead, seal_in_place, open_in_place}

-- A call on a context, and what it returns with the buffer that it leaves.
pub data Use : Type 0 where
  sealing opening : List ℕ → List ℕ → List ℕ → List ℕ → Use

pub data Outcome : Type 0 where
  sealed : Run (List ℕ) → List ℕ → Outcome
  opened : Run (Unit {0}) → List ℕ → Outcome

module _ {C : Type 0} (v : EvpAead C) where
  from_seal : Run (List ℕ) × List ℕ × C → Outcome × C
  from_seal (r, buffer, c) = (sealed r buffer, c)

  from_open : Run (Unit {0}) × List ℕ × C → Outcome × C
  from_open (r, buffer, c) = (opened r buffer, c)

  unfoldable pub use_once : Use → C → Outcome × C
  unfolding from_seal from_open
  use_once (sealing nonce buffer tag ad) c = from_seal (seal_in_place v nonce buffer tag ad c)
  use_once (opening nonce buffer tag ad) c = from_open (open_in_place v nonce buffer tag ad c)

  -- The calls one after the other, on the context that the call before left.
  unfoldable pub use_all : List Use → C → List Outcome × C
  unfolding use_once
  use_all [] c = ([], c)
  use_all (u ∷ us) c =
      let first = use_once u c in let rest = use_all us first.1 in (first.0 ∷ rest.0, rest.1)

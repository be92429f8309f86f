-- ===== src/Stack.antt =====
-- btls/src/stack.rs: `Stack`, which owns its elements, and its iterators.
pub mod Owned
pub mod Dropped
use btls.Prelude.{
  ℕ, zero, suc, ◌+◌, ◌-◌, Bool, Option, none, some, List, [], ◌∷◌, ◌++◌, ltb, leb, ◌==◌,
  if◌then◌else◌,
}
use btls.Io.{ErrorStack, Fallible, fine, wrong}

-- The functions of BoringSSL on a stack `S` of pointers `P`. `OPENSSL_sk_push` has its `cvt_0`, and
-- `OPENSSL_sk_pop` gives no pointer from an empty stack.
pub record Sk (S P : Type 0) : Type 0 where
  pub sk_new_null : Fallible S
  pub sk_num : S → ℕ
  pub sk_value : S → ℕ → P
  pub sk_push : S → P → Fallible (Unit {0}) × S
  pub sk_pop : S → Option P × S

-- What has been freed: elements, in order, and the stack itself so many times.
pub record Freed (P : Type 0) : Type 0 where
  pub elements : List P
  pub stacks : ℕ

-- `IntoIter`, `Iter` and `IterMut`: the stack and the range of indices that are left.
pub record Iter (S : Type 0) : Type 0 where
  pub stack : S
  pub start : ℕ
  pub stop : ℕ

module _ {S P : Type 0} (v : Sk S P) where
  -- `Stack::new`
  unfoldable pub new : Fallible S
  new = v.sk_new_null

  -- `StackRef::len`, `is_empty`, `get` (and `get_mut`), `push` and `pop`
  unfoldable pub len : S → ℕ
  len s = v.sk_num s

  unfoldable pub is_empty : S → Bool
  unfolding len
  is_empty s = len s == 0

  unfoldable pub get : S → ℕ → Option P
  unfolding len
  get s idx = if leb (len s) idx then none else some (v.sk_value s idx)

  -- `push`: the element is the stack's unless the call fails; then it is dropped.
  pushed : P → Fallible (Unit {0}) × S → Fallible (Unit {0}) × S × List P
  pushed x (fine u, s) = (fine u, s, [])
  pushed x (wrong e, s) = (wrong e, s, x ∷ [])

  unfoldable pub push : P → S → Fallible (Unit {0}) × S × List P
  unfolding pushed
  push x s = pushed x (v.sk_push s x)

  unfoldable pub pop : S → Option P × S
  pop s = v.sk_pop s

  -- `while self.pop().is_some() {}` in the drop of `Stack`; `none` means that the fuel ran out.
  pop_step : (S → List P → Option (List P)) → List P → Option P × S → Option (List P)
  pop_step k freed (none, s) = some freed
  pop_step k freed (some x, s) = k s (freed ++ (x ∷ []))

  unfoldable pub pop_all : ℕ → S → List P → Option (List P)
  unfolding pop pop_step
  pop_all zero s freed = none
  pop_all (suc fuel) s freed = pop_step (pop_all fuel) freed (pop s)

  freed_stack : Option (List P) → Option (Freed P)
  freed_stack none = none
  freed_stack (some xs) = some (record { elements = xs; stacks = 1 })

  -- The drop of `Stack`
  unfoldable pub drop_stack : ℕ → S → Option (Freed P)
  unfolding pop_all freed_stack
  drop_stack fuel s = freed_stack (pop_all fuel s [])

  -- `into_iter`, `iter` and `iter_mut`
  unfoldable pub iter : S → Iter S
  unfolding len
  iter s = record { stack = s; start = 0; stop = len s }

  -- `Iterator::next`
  unfoldable pub next : Iter S → Option P × Iter S
  next it =
      if ltb it.start it.stop
      then (some (v.sk_value it.stack it.start), record it { start = it.start + 1 })
      else (none, it)

  -- `DoubleEndedIterator::next_back`
  unfoldable pub next_back : Iter S → Option P × Iter S
  next_back it =
      if ltb it.start it.stop
      then (some (v.sk_value it.stack (it.stop - 1)), record it { stop = it.stop - 1 })
      else (none, it)

  -- `size_hint`, which is exact
  unfoldable pub size_hint : Iter S → ℕ
  size_hint it = it.stop - it.start

  -- `for _ in &mut *self {}` in the drop of `IntoIter`: each element that comes is dropped.
  next_step : (Iter S → List P → Option (List P)) → List P → Option P × Iter S → Option (List P)
  next_step k freed (none, it) = some freed
  next_step k freed (some x, it) = k it (freed ++ (x ∷ []))

  unfoldable pub drain : ℕ → Iter S → List P → Option (List P)
  unfolding next next_step
  drain zero it freed = none
  drain (suc fuel) it freed = next_step (drain fuel) freed (next it)

  -- The drop of `IntoIter`
  unfoldable pub drop_iter : ℕ → Iter S → Option (Freed P)
  unfolding drain freed_stack
  drop_iter fuel it = freed_stack (drain fuel it [])

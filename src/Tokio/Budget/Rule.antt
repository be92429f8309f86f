-- ===== src/Tokio/Budget/Rule.antt =====
-- `seal_budget` of tokio-btls/src/lib.rs beside the record-by-record rule of its unit test.
use btls.Prelude.{
  ℕ, zero, suc, ◌+◌, ◌-◌, ◌*◌, ◌≤◌, ◌<◌, ◌≡◌, ◌∙◌, sym, min, max, arith, leb, if◌then◌else◌,
  usize_max, saturating_add, saturating_mul, div_ceil,
}
use native.Mathlib.Nat.{div-add-mod', mod-lt}
use btls.Tokio.Limits.{write_buf_capacity, max_record}
use btls.Tokio.Budget.{seal_budget, legacy_loop, legacy}

module _ (fragment overhead total : ℕ) (some_bytes : 1 ≤ fragment) where
  -- Near the end, the rule takes everything.
  legacy_loop_tail :
      (fuel out written : ℕ)
      → total ≤ written + fuel
      → written ≤ total
      → total - (written + fragment) ≤ max_record
      → legacy_loop fuel fragment overhead total out written ≡ total
  unfolding legacy_loop
  legacy_loop_tail zero out written f w h = omega arith
  legacy_loop_tail (suc fuel) out written f w h = ground (
    arith,
    legacy_loop_tail fuel (out + (min fragment (total - written) + overhead))
        (written + min fragment (total - written)),
  )

  -- What is left to seal at `written`, where `r` more full records reach the capacity.
  abbrev target : ℕ → ℕ → ℕ
  target r written =
      if leb (total - (written + r * fragment)) max_record then total else written + r * fragment

  legacy_loop-target :
      (r fuel out written : ℕ)
      → total ≤ written + fuel
      → written ≤ total
      → write_buf_capacity ≤ out + suc r * (fragment + overhead)
      → (1 ≤ r → out + r * (fragment + overhead) < write_buf_capacity)
      → legacy_loop fuel fragment overhead total out written ≡ target (suc r) written
  unfolding legacy_loop
  legacy_loop-target r zero out written f w hi lo = ground arith
  legacy_loop-target zero (suc fuel) out written f w hi lo = ground (
    arith,
    legacy_loop_tail fuel (out + (min fragment (total - written) + overhead))
        (written + min fragment (total - written)),
  )
  legacy_loop-target (suc r) (suc fuel) out written f w hi lo = ground (
    arith,
    lo (omega arith),
    legacy_loop_tail fuel (out + (min fragment (total - written) + overhead))
        (written + min fragment (total - written)),
    legacy_loop-target r fuel (out + (fragment + overhead)) (written + fragment),
  )

-- `div_ceil a d` is the least number of `d`s that reach `a`.
div_ceil-ge : (a d : ℕ) → 1 ≤ d → a ≤ div_ceil a d * d
div_ceil-ge a d h = omega (arith, div-add-mod' (a + (d - 1)) d, mod-lt (a + (d - 1)) {m = d} h)

div_ceil-lt : (a d : ℕ) → 1 ≤ d → div_ceil a d * d < a + d
div_ceil-lt a d h = omega (arith, div-add-mod' (a + (d - 1)) d)

-- So many records, and at least one, reach the capacity from `base`.
reach_capacity :
    (q d b p : ℕ)
    → write_buf_capacity - b - p ≤ q * d
    → write_buf_capacity ≤ b + p + suc (max q 1 - 1) * d
reach_capacity zero d b p h = omega arith
reach_capacity (suc q) d b p h = let e : max (suc q) 1 - 1 ≡ q = omega arith in rw e (omega arith)

-- One record fewer does not, where that leaves any.
below_capacity :
    (q d b p : ℕ)
    → q * d < write_buf_capacity - b - p + d
    → 1 ≤ max q 1 - 1
    → b + p + (max q 1 - 1) * d < write_buf_capacity
below_capacity zero d b p h k = absurd (omega arith)
below_capacity (suc zero) d b p h k = absurd (omega arith)
below_capacity (suc (suc q)) d b p h k =
    let e : max (suc (suc q)) 1 - 1 ≡ suc q = omega arith in rw e (omega arith)

-- For a connection with a fragment of at least one byte, and lengths that fit a `usize`,
-- `seal_budget` is the plaintext that sealing record by record takes until the buffered ciphertext
-- reaches `WRITE_BUF_CAPACITY` with more than `MAX_RECORD` bytes left.
pub seal_budget-eq-legacy :
    (fragment overhead pending buffered total : ℕ)
    → 1 ≤ fragment
    → fragment + overhead ≤ usize_max
    → total ≤ usize_max
    → seal_budget fragment overhead pending buffered total
      ≡ legacy fragment overhead pending buffered total
unfolding seal_budget legacy
seal_budget-eq-legacy fragment overhead pending buffered total f fits t =
    clipped
    ∙ sym (
        legacy_loop-target fragment overhead total f r total (buffered + pending) 0 (omega arith)
          (omega arith) reach below)
  where
    d : ℕ
    d = fragment + overhead

    room : ℕ
    room = write_buf_capacity - buffered - pending

    r : ℕ
    r = max (div_ceil room d) 1 - 1

    reach : write_buf_capacity ≤ buffered + pending + suc r * d
    reach = reach_capacity (div_ceil room d) d buffered pending (div_ceil-ge room d (omega arith))

    below : 1 ≤ r → buffered + pending + r * d < write_buf_capacity
    below h =
        below_capacity (div_ceil room d) d buffered pending (div_ceil-lt room d (omega arith)) h

    divisor : max (saturating_add fragment overhead) 1 ≡ d
    divisor = omega arith

    count : (q : ℕ) → suc (max q 1 - 1) ≡ max q 1
    count q = omega arith

    clipped :
        (let records = max (div_ceil room (max (saturating_add fragment overhead) 1)) 1 in
          let cap = saturating_mul records fragment in
          if leb (total - cap) max_record then total else cap)
        ≡ target fragment overhead total f (suc r) 0
    clipped = rw (divisor, ← count (div_ceil room d)) (ground arith)

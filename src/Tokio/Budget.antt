-- ===== src/Tokio/Budget.antt =====
-- `seal_budget` of tokio-btls/src/lib.rs, and the record-by-record rule that its unit test states
-- (`legacy`): how much plaintext one call seals.
pub mod Rule
use btls.Prelude.{
  ℕ, zero, suc, ◌+◌, ◌-◌, ◌*◌, min, max, ◌&&◌, ltb, leb, if◌then◌else◌, saturating_add,
  saturating_mul, div_ceil,
}
use btls.Tokio.Limits.{write_buf_capacity, max_record}

-- `seal_budget`; `-` on ℕ is `saturating_sub`.
unfoldable pub seal_budget : ℕ → ℕ → ℕ → ℕ → ℕ → ℕ
seal_budget fragment overhead pending buffered total =
    let room = write_buf_capacity - buffered - pending in
    let records = max (div_ceil room (max (saturating_add fragment overhead) 1)) 1 in
    let cap = saturating_mul records fragment in if leb (total - cap) max_record then total else cap

-- The loop of `legacy`. It seals at least a byte a round, so `total` rounds are enough.
unfoldable pub legacy_loop : ℕ → ℕ → ℕ → ℕ → ℕ → ℕ → ℕ
legacy_loop zero fragment overhead total out written = written
legacy_loop (suc fuel) fragment overhead total out written =
    let len = min fragment (total - written) in
    let rest = legacy_loop fuel fragment overhead total (out + (len + overhead)) (written + len) in
    if ltb written total
    then (if leb write_buf_capacity (out + (len + overhead))
          && ltb max_record (total - (written + len))
        then written + len
        else rest)
    else written

-- `legacy`
unfoldable pub legacy : ℕ → ℕ → ℕ → ℕ → ℕ → ℕ
unfolding legacy_loop
legacy fragment overhead pending buffered total =
    legacy_loop total fragment overhead total (buffered + pending) 0

-- ===== src/Tokio/Packer.antt =====
-- `Packer` of tokio-btls/src/lib.rs: the slices of one write cut into the plaintext of records.
pub mod Rest
pub mod Records
pub mod Next
use btls.Prelude.{
  ℕ, ◌+◌, ◌-◌, ◌/◌, min, Bool, true, false, ◌&&◌, ◌||◌, not, Option, none, some, List, [], ◌∷◌,
  ◌++◌, ltb, leb, ◌==◌, if◌then◌else◌, length, get_or, take, drop, flatten,
}
use btls.Tokio.Limits.{max_record}

-- `bufs`, `i`, `off`, `limit`, `scratch`
pub record Packer : Type 0 where
  pub bufs : List (List ℕ)
  pub i : ℕ
  pub off : ℕ
  pub limit : ℕ
  pub scratch : List ℕ

-- `Packer::new`
unfoldable pub new : List (List ℕ) → Packer
new bufs = record { bufs = bufs; i = 0; off = 0; limit = max_record; scratch = [] }

-- `bufs[i]`; `i` is in bounds wherever the code indexes.
abbrev pub buf_at : Packer → ℕ → List ℕ
buf_at p i = get_or p.bufs i []

abbrev pub is_empty : List ℕ → Bool
is_empty [] = true
is_empty (_ ∷ _) = false

-- `.any(|buf| !buf.is_empty())`
abbrev pub any_filled : List (List ℕ) → Bool
any_filled [] = false
any_filled (b ∷ bs) = not (is_empty b) || any_filled bs

-- The loop of `pack` over `bufs[end..]`, given as a list: the length, `end` and `tail`.
pub pack_loop : List (List ℕ) → ℕ → ℕ → ℕ → ℕ → ℕ × ℕ × ℕ
pack_loop [] limit head_len len end = (len, end, 0)
pack_loop (b ∷ bs) limit head_len len end =
    let next = length b in
    let more = pack_loop bs limit head_len (len + next) (end + 1) in
    if ltb len limit
    then (if leb (len + next) limit
        then more
        else (if leb next (limit / 2) && (ltb head_len len || any_filled bs)
            then (limit, end, limit - len)
            else (len, end, 0)))
    else (len, end, 0)

-- `Packer::pack`
pub pack : Packer → ℕ × ℕ × ℕ
unfolding pack_loop
pack p =
    let head_len = min (length (buf_at p p.i) - p.off) p.limit in
    pack_loop (drop (p.i + 1) p.bufs) p.limit head_len head_len (p.i + 1)

-- `bufs[a..b]`
abbrev pub slices : List (List ℕ) → ℕ → ℕ → List (List ℕ)
slices bufs a b = take (b - a) (drop a bufs)

-- `Packer::gather`: the new `scratch`, which is also the result.
pub gather : Packer → List ℕ → ℕ → ℕ → List ℕ
gather p head end tail =
    head
    ++ (flatten (slices p.bufs (p.i + 1) end)
        ++ (if ltb 0 tail then take tail (buf_at p end) else []))

-- The loop of `next_record` that skips empty slices, over `bufs[i..]`, given as a list: `i`, `off`
-- where it stops, and `&bufs[i][off..]` if that is a slice with bytes left.
pub skip_empty : List (List ℕ) → ℕ → ℕ → ℕ × ℕ × Option (List ℕ)
skip_empty [] i off = (i, off, none)
skip_empty (b ∷ bs) i off =
    let rest = skip_empty bs (i + 1) 0 in
    elim (drop off b) [ [] ↦ rest | x ∷ xs ↦ (i, off, some (x ∷ xs)) ]

-- The record that `next_record` returns at a slice with bytes left, by what `pack` chose.
pub record_with : Packer → List ℕ → ℕ × ℕ × ℕ → List ℕ × Packer
unfolding gather
record_with p head (len, end, tail) =
    if len == min (length head) p.limit
    then (take len head, p)
    else (gather p head end tail, record p { scratch = gather p head end tail })

-- What follows the loop: `head` is `none` where `bufs.get(self.i)?` returns.
pub record_of : Packer → Option (List ℕ) → Option (List ℕ) × Packer
unfolding record_with
record_of p none = (none, p)
record_of p (some head) = let (r, q) = record_with p head (pack p) in (some r, q)

-- `Packer::next_record`
pub next_record : Packer → Option (List ℕ) × Packer
unfolding skip_empty record_of
next_record p =
    let (i, off, head) = skip_empty (drop p.i p.bufs) p.i p.off in
    record_of (record p { i = i; off = off }) head

-- The loop of `advance`, over `bufs[i..]`, given as a list; past its end the code would panic.
pub advance_loop : List (List ℕ) → ℕ → ℕ → ℕ → ℕ × ℕ
advance_loop [] i off n = (i, off)
advance_loop (b ∷ bs) i off n =
    let left = length b - off in
    let rest = advance_loop bs (i + 1) 0 (n - left) in
    if n == 0 then (i, off) else (if ltb n left then (i, off + n) else rest)

-- `Packer::advance`
pub advance : Packer → ℕ → Packer
unfolding advance_loop
advance p n =
    let (i, off) = advance_loop (drop p.i p.bufs) p.i p.off n in record p { i = i; off = off }

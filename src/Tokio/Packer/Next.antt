-- ===== src/Tokio/Packer/Next.antt =====
-- `next_record` of tokio-btls/src/lib.rs.
use btls.Prelude.{
  ℕ, ◌+◌, ◌-◌, ◌≤◌, ◌≡◌, refl, ap, ◌∙◌, min, Option, none, some, List, [], ◌++◌, arith, length,
  drop, flatten, get_or, drop_next, get_or_of_drop, length-drop,
}
use btls.Tokio.Packer.{Packer, pack, record_with, record_of, next_record}
use btls.Tokio.Packer.Rest.{rest_at, remaining, IsValid}
use btls.Tokio.Packer.Records.{
  Packed, pack_loop-Packed, Skipped, skip_empty-Skipped, IsRecord, SamePlace, record_with-IsRecord,
}

-- What `next_record` may return: `none` when nothing remains; otherwise a record cut from what
-- remains, which stays as it was until `advance`.
abbrev pub Next : Packer → Option (List ℕ) × Packer → Type 0
Next p (none, q) = (remaining p ≡ []) × (remaining q ≡ []) × IsValid q
Next p (some r, q) =
    IsRecord p.limit (remaining p) r × (remaining q ≡ remaining p) × IsValid q × (q.limit ≡ p.limit)

SamePlace-IsValid : (p q : Packer) → SamePlace p q → IsValid p → IsValid q
SamePlace-IsValid p q s v = record {
  within = rw (s.bufs_same, s.i_same, s.off_same) v.within;
  limited = rw s.limit_same v.limited;
}

SamePlace-remaining : (p q : Packer) → SamePlace p q → remaining q ≡ remaining p
SamePlace-remaining p q s = rw (s.bufs_same, s.i_same, s.off_same)

record_of-Next :
    (p : Packer) (i off : ℕ) (head : Option (List ℕ))
    → 1 ≤ p.limit
    → Skipped p.bufs (drop p.i p.bufs) p.off (i, off, head)
    → Next p (record_of (record p { i = i; off = off }) head)
unfolding record_of pack
record_of-Next p i off none l (e, f, w) = (e, f, record { within = w; limited = l })
record_of-Next p i off (some head) l (b, bs, e, d, h, w, f) = (
  rw f at cut.0,
  SamePlace-remaining at_head q cut.1 ∙ place,
  SamePlace-IsValid at_head q cut.1 (record { within = rw e w; limited = l }),
  cut.1.limit_same,
)
  where
    at_head : Packer
    at_head = record p { i = i; off = off }

    head_len : ℕ
    head_len = min (length head) p.limit

    place : remaining at_head ≡ rest_at (drop p.i p.bufs) p.off
    place = rw (e, d) f

    head_same : min (length (get_or p.bufs i []) - off) p.limit ≡ head_len
    head_same = rw (get_or_of_drop i p.bufs [] e) (omega (arith, ap length d, length-drop off b))

    packed : Packed bs p.limit head_len (i + 1) (pack at_head)
    packed =
        rw (head_same, drop_next i p.bufs e)
          (pack_loop-Packed bs p.limit head_len head_len (i + 1) (omega arith))

    q : Packer
    q = (record_with at_head head (pack at_head)).1

    cut :
        IsRecord p.limit (head ++ flatten bs) (record_with at_head head (pack at_head)).0
        × SamePlace at_head q
    cut =
        record_with-IsRecord at_head head bs head_len (pack at_head) (drop_next i p.bufs e) h l refl
          packed

-- For a valid packer: next_record returns none exactly when no plaintext remains, and otherwise a
-- non-empty prefix of the remaining plaintext that fits the limit; the plaintext that remains is as
-- before.
pub next_record-Next : (p : Packer) → IsValid p → Next p (next_record p)
unfolding next_record
next_record-Next p v =
    record_of-Next p _ _ _ v.limited
      (skip_empty-Skipped p.bufs (drop p.i p.bufs) p.i p.off refl v.within)

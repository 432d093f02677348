-- ===== src/Api/Ranges/Bounds.antt =====
-- What `parseRange` of internal/api/server.go answers.
use booth_storage.Base.{
  ℕ, ◌≤◌, ◌<◌, ◌≡◌, inl, inr, Option, none, some, Bytes, cut_prefix, cut, ℤ, pos, negsuc, zero, suc,
  codes, Option-cases, Bool-cases, arith, any, ◌==◌,
}
use booth_storage.Backend.{ByteRange}
use booth_storage.Api.Ranges.{
  satisfied, suffix_range, bounded_range, from_range, parse_spec, parse_range, parse_int,
}

-- A range lies within the object.
abbrev pub IsWithin : ℕ → ByteRange → Type 0
IsWithin size r = (r.start ≤ r.end) × (r.end < size)

suffix-IsWithin :
    (n : Option ℤ) (size : ℕ) (r : ByteRange) → suffix_range n size ≡ satisfied r → IsWithin size r
unfolding suffix_range
suffix-IsWithin none size r h = cc
suffix-IsWithin (some (negsuc n)) size r h = cc
suffix-IsWithin (some (pos zero)) size r h = cc
suffix-IsWithin (some (pos (suc n))) size r h = ground arith

bounded-IsWithin :
    (start : ℕ) (e : Option ℤ) (size : ℕ) (r : ByteRange)
    → start < size
    → bounded_range start e size ≡ satisfied r
    → IsWithin size r
unfolding bounded_range
bounded-IsWithin start none size r small h = cc
bounded-IsWithin start (some (negsuc n)) size r small h = cc
bounded-IsWithin start (some (pos e)) size r small h = ground arith

from_IsWithin :
    (first : Option ℤ) (last : Bytes) (size : ℕ) (r : ByteRange)
    → from_range first last size ≡ satisfied r
    → IsWithin size r
unfolding from_range
from_IsWithin none last size r h = cc
from_IsWithin (some (negsuc n)) last size r h = cc
from_IsWithin (some (pos start)) last size r h =
    ground (arith, bounded-IsWithin start (parse_int last) size r)

spec-IsWithin :
    (spec : Option (Bytes × Bytes)) (size : ℕ) (r : ByteRange)
    → parse_spec spec size ≡ satisfied r
    → IsWithin size r
unfolding parse_spec
spec-IsWithin none size r h = cc
spec-IsWithin (some (first, last)) size r h =
    ground
      (arith, suffix-IsWithin (parse_int last) size r, from_IsWithin (parse_int first) last size r)

-- A range that is served lies within the object, whatever the header: its start is not after its end, and
-- its end is before the size.
pub parse_range-IsWithin :
    (header : Bytes) (size : ℕ) (r : ByteRange)
    → parse_range header size ≡ satisfied r
    → IsWithin size r
unfolding parse_range
parse_range-IsWithin header size r h = elim (Option-cases (cut_prefix header (codes "bytes="))) [
  | inl other ↦ cc (rw (other, parse_range) at h)
  | inr (spec, found) ↦ elim (Bool-cases (any (λ c. c == b',') spec)) [
    | inl several ↦ cc (rw (found, several, parse_range) at h)
    | inr single ↦ spec-IsWithin (cut spec b'-') size r (rw (found, single, parse_range) at h)
  ]
]

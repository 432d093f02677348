-- ===== src/Api/Ranges.antt =====
-- `parseRange` of internal/api/server.go, with what it uses of `strconv.ParseInt`. A signed 64-bit number
-- is a ℤ; the size of an object is at most 2^63 - 1, so no sum here wraps around.
pub mod Bounds
use booth_storage.Base.{
  ℕ, ◌+◌, ◌-◌, ◌*◌, zero, suc, ℤ, pos, negsuc, Bool, true, false, not, ◌&&◌, ◌||◌, Option, none,
  some, List, [], ◌∷◌, Bytes, codes, bytes_eq, cut_prefix, cut, ltb, leb, ◌==◌, contains, any,
  if◌then◌else◌,
}
use booth_storage.Backend.{ByteRange}

-- The value of decimal digits; `none` at any other byte.
unfoldable pub digits : ℕ → Bytes → Option ℕ
digits n [] = some n
digits n (c ∷ s) =
    let rest = digits (n * 10 + (c - b'0')) s in if leb b'0' c && leb c b'9' then rest else none

abbrev pub max_int64 : ℕ
max_int64 = 9_223_372_036_854_775_807

unfoldable pub within : ℕ → Option ℕ → Option ℕ
within bound none = none
within bound (some n) = if leb n bound then some n else none

unfoldable pub magnitude : Bytes → Option ℕ
magnitude [] = none
magnitude (c ∷ s) = digits 0 (c ∷ s)

unfoldable pub signed : Option ℕ → Option ℤ
signed none = none
signed (some zero) = some (pos 0)
signed (some (suc n)) = some (negsuc n)

unfoldable pub unsigned : Option ℕ → Option ℤ
unsigned none = none
unsigned (some n) = some (pos n)

-- `strconv.ParseInt(s, 10, 64)`: an optional sign, then at least one digit, in range.
unfoldable pub parse_int : Bytes → Option ℤ
parse_int [] = none
parse_int (c ∷ s) =
    if c == b'-'
    then signed (within (suc max_int64) (magnitude s))
    else if c == b'+'
    then unsigned (within max_int64 (magnitude s))
    else unsigned (within max_int64 (magnitude (c ∷ s)))

-- The three answers of `parseRange`.
pub data Ranged : Type 0 where
  ignored : Ranged
  unsatisfiable : Ranged
  satisfied : ByteRange → Ranged

-- A suffix range, the last `n` bytes.
unfoldable pub suffix_range : Option ℤ → ℕ → Ranged
suffix_range none size = ignored
suffix_range (some (negsuc _)) size = ignored
suffix_range (some (pos zero)) size = ignored
suffix_range (some (pos (suc n))) size =
    if size == 0 then unsatisfiable else satisfied (record { start = size - suc n; end = size - 1 })

-- The range from a start that lies within the object.
unfoldable pub bounded_range : ℕ → Option ℤ → ℕ → Ranged
bounded_range start none size = ignored
bounded_range start (some (negsuc _)) size = ignored
bounded_range start (some (pos e)) size =
    if ltb e start
    then ignored
    else satisfied (record { start = start; end = if ltb e (size - 1) then e else size - 1 })

unfoldable pub from_range : Option ℤ → Bytes → ℕ → Ranged
from_range none last size = ignored
from_range (some (negsuc _)) last size = ignored
from_range (some (pos start)) last size =
    if leb size start
    then unsatisfiable
    else if bytes_eq last []
    then satisfied (record { start = start; end = size - 1 })
    else bounded_range start (parse_int last) size

unfoldable pub parse_spec : Option (Bytes × Bytes) → ℕ → Ranged
parse_spec none size = ignored
parse_spec (some (first, last)) size =
    if bytes_eq first []
    then suffix_range (parse_int last) size
    else from_range (parse_int first) last size

unfoldable pub parse_range : Bytes → ℕ → Ranged
parse_range header size = elim (cut_prefix header (codes "bytes=")) [
  | none ↦ ignored
  | some spec ↦ if any (λ c. c == b',') spec then ignored else parse_spec (cut spec b'-') size
]

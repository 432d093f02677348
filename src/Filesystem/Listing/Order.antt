-- ===== src/Filesystem/Listing/Order.antt =====
-- The order of `comparePaths` of internal/backend/filesystem/filesystem.go.
use booth_storage.Base.{◌≡◌, refl, List, [], ◌∷◌, ◌++◌, Bytes, arith}
use booth_storage.Base.Assoc.{bytes_lt_irrefl, bytes_lt_trans, bytes_lt_total, bytes_lt_asym}
use booth_storage.Filesystem.Listing.{before, level, after, compare_segments}

-- A common front does not matter.
pub compare-append :
    (p q r : List Bytes) → compare_segments (p ++ q) (p ++ r) ≡ compare_segments q r
unfolding compare_segments
compare-append [] q r = refl
compare-append (a ∷ p) q r = rw (bytes_lt_irrefl a) (compare-append p q r)

pub compare_refl : (p : List Bytes) → compare_segments p p ≡ level
unfolding compare_segments
compare_refl [] = refl
compare_refl (a ∷ p) = rw (bytes_lt_irrefl a) (compare_refl p)

pub compare_trans :
    (p q r : List Bytes)
    → compare_segments p q ≡ before
    → compare_segments q r ≡ before
    → compare_segments p r ≡ before
unfolding compare_segments
compare_trans [] [] r h k = cc
compare_trans [] (b ∷ q) [] h k = cc
compare_trans [] (b ∷ q) (c ∷ r) h k = refl
compare_trans (a ∷ p) [] r h k = cc
compare_trans (a ∷ p) (b ∷ q) [] h k = cc
compare_trans (a ∷ p) (b ∷ q) (c ∷ r) h k = ground (
  arith,
  compare_trans p q r,
  bytes_lt_trans a b c,
  bytes_lt_total a b,
  bytes_lt_total b c,
  bytes_lt_asym b a,
  bytes_lt_asym c b,
  bytes_lt_asym b c,
  bytes_lt_asym a b,
)

-- The order turns round with its sides.
pub compare_flip : (p q : List Bytes) → compare_segments p q ≡ before → compare_segments q p ≡ after
unfolding compare_segments
compare_flip [] [] h = cc
compare_flip [] (b ∷ q) h = refl
compare_flip (a ∷ p) [] h = cc
compare_flip (a ∷ p) (b ∷ q) h = ground (arith, compare_flip p q, bytes_lt_asym a b)

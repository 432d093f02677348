-- ===== src/Backend/Flat/Move/Keys.antt =====
-- Keys under two folders: where neither folder lies in the other, no key is under both.
use booth_storage.Base.{
  ◌≡◌, ◌⊎◌, refl, true, false, some, List, [], ◌∷◌, ◌++◌, ◌||◌, map, Bytes, contains, bytes_eq,
  bytes_eq_iff, has_prefix, has_prefix-append, trim_prefix, cut_prefix, cut_prefix_iff,
  append-trim_prefix, All, arith, if◌then◌else◌,
}

has_prefix_comparable :
    (j a b : Bytes)
    → has_prefix j a ≡ true
    → has_prefix j b ≡ true
    → (has_prefix a b ≡ true) ⊎ (has_prefix b a ≡ true)
unfolding has_prefix
has_prefix_comparable j [] b h k = ground arith
has_prefix_comparable j (x ∷ a) [] h k = ground arith
has_prefix_comparable [] (x ∷ a) (y ∷ b) h k = cc
has_prefix_comparable (z ∷ j) (x ∷ a) (y ∷ b) h k = ground (arith, has_prefix_comparable j a b)

pub has_prefix_trans :
    (j a b : Bytes) → has_prefix j a ≡ true → has_prefix a b ≡ true → has_prefix j b ≡ true
unfolding has_prefix
has_prefix_trans j a [] h k = ground arith
has_prefix_trans j [] (y ∷ b) h k = cc
has_prefix_trans [] (x ∷ a) (y ∷ b) h k = cc
has_prefix_trans (z ∷ j) (x ∷ a) (y ∷ b) h k = ground (arith, has_prefix_trans j a b)

-- `apart from to` for two folders of which neither lies in the other.
pub prefix_apart :
    (from to j : Bytes)
    → has_prefix to from ≡ false
    → has_prefix from to ≡ false
    → has_prefix j from ≡ true
    → has_prefix j to ≡ false
prefix_apart from to j h k under = ground (arith, has_prefix_comparable j from to)

cut_prefix-append : (t r : Bytes) → cut_prefix (t ++ r) t ≡ some r
cut_prefix-append t r = (cut_prefix_iff (t ++ r) t r).1 refl

pub trim_prefix-append : (t r : Bytes) → trim_prefix (t ++ r) t ≡ r
unfolding trim_prefix
trim_prefix-append t r = rw (cut_prefix-append t r, trim_prefix)

-- The key at the same place under another folder.
abbrev pub rebase : Bytes → Bytes → Bytes → Bytes
rebase from to k = to ++ trim_prefix k from

pub rebase_back :
    (from to k : Bytes) → has_prefix k from ≡ true → rebase to from (rebase from to k) ≡ k
rebase_back from to k h =
    rw (trim_prefix-append to (trim_prefix k from)) (append-trim_prefix k from h)

pub rebase_under : (from to k : Bytes) → has_prefix (rebase from to k) to ≡ true
rebase_under from to k = has_prefix-append to (trim_prefix k from)

abbrev pub AllUnder : Bytes → List Bytes → Type 0
AllUnder folder = All (λ k. has_prefix k folder ≡ true)

pub contains_under :
    (folder : Bytes) (ks : List Bytes) (j : Bytes)
    → AllUnder folder ks
    → contains ks j ≡ true
    → has_prefix j folder ≡ true
unfolding contains
contains_under folder [] j h c = cc
contains_under folder (k ∷ ks) j (h, hs) c =
    ground (arith, contains_under folder ks j hs, bytes_eq_iff k j)

pub contains-append :
    (ks : List Bytes) (x j : Bytes) → contains (ks ++ x ∷ []) j ≡ (contains ks j || bytes_eq x j)
unfolding contains
contains-append [] x j = ground arith
contains-append (k ∷ ks) x j = ground (arith, contains-append ks x j)

bytes_eq-rebase :
    (from to k j : Bytes)
    → has_prefix k from ≡ true
    → has_prefix j to ≡ true
    → bytes_eq (rebase from to k) j ≡ bytes_eq k (rebase to from j)
bytes_eq-rebase from to k j h g = ground (
  arith,
  bytes_eq_iff (rebase from to k) j,
  bytes_eq_iff k (rebase to from j),
  rebase_back from to k h,
  rebase_back to from j g,
)

-- The keys that were rebased are those whose place under the first folder is listed.
pub contains-map-rebase :
    (from to : Bytes) (ks : List Bytes) (j : Bytes)
    → AllUnder from ks
    → contains (map (rebase from to) ks) j
      ≡ (if has_prefix j to then contains ks (rebase to from j) else false)
unfolding contains
contains-map-rebase from to [] j _ = ground arith
contains-map-rebase from to (k ∷ ks) j (h, hs) = ground (
  arith,
  contains-map-rebase from to ks j hs,
  bytes_eq-rebase from to k j h,
  rebase_under from to k,
  bytes_eq_iff (rebase from to k) j,
)

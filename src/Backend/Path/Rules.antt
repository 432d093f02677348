-- ===== src/Backend/Path/Rules.antt =====
-- `CleanPath` against an independent description of the object paths that the program admits.
use booth_storage.Base.{
  ℕ, ◌≤◌, ◌≡◌, ◌≢◌, ◌↔◌, refl, sym, Bool, true, false, List, [], ◌∷◌, Bytes, codes, arith,
  bytes_eq_iff, ends_in, trim_suffix, split, join, any, length, All, All-map, Lacks, ltb, ok,
  refuse_if,
}
use booth_storage.Base.Split.{
  split-ne-nil, join-split, split-Lacks, split-join, trim_suffix_absent, ends_in-join, join-ne-nil,
}
use booth_storage.Backend.Path.{
  slash, backslash, max_path_len, is_forbidden, check_each, check_segments, clean_path,
}

-- A name that may stand between two slashes.
abbrev pub IsSegment : Bytes → Type 0
IsSegment s = (s ≢ []) × (s ≢ codes ".") × (s ≢ codes "..")

abbrev pub IsAllowed : ℕ → Type 0
IsAllowed c = (c ≢ 0) × (c ≢ backslash)

-- Segments joined by single slashes.
pub record IsJoined (p : Bytes) : Type 0 where
  pub segments : List Bytes
  pub some_segment : segments ≢ []
  pub named : All IsSegment segments
  pub no_slash : All (Lacks slash) segments
  pub joined : p ≡ join segments slash

-- The object paths: at most 1024 bytes, none of them NUL or a backslash, and named segments.
pub record IsClean (p : Bytes) : Type 0 where
  pub short : length p ≤ max_path_len
  pub allowed : All IsAllowed p
  pub relative : IsJoined p

refuse_if-eq-ok : {E : Type 0} (b : Bool) (e : E) {u : Unit {0}} → refuse_if b e ≡ ok u → b ≡ false
refuse_if-eq-ok true e h = cc
refuse_if-eq-ok false e h = refl

IsAllowed-of_any : (p : Bytes) → any is_forbidden p ≡ false → All IsAllowed p
IsAllowed-of_any [] h = tt
IsAllowed-of_any (c ∷ p) h = (ground arith, IsAllowed-of_any p (ground arith))

any_of_allowed : (p : Bytes) → All IsAllowed p → any is_forbidden p ≡ false
any_of_allowed [] _ = refl
any_of_allowed (c ∷ p) (h, k) = ground (arith, any_of_allowed p k)

check_each_sound : (segs : List Bytes) → check_each segs ≡ ok tt → All IsSegment segs
unfolding check_each
check_each_sound [] h = tt
check_each_sound (s ∷ segs) h = ground (
  arith,
  bytes_eq_iff s [],
  bytes_eq_iff s (codes "."),
  bytes_eq_iff s (codes ".."),
  check_each_sound segs,
)

check_each_complete : (segs : List Bytes) → All IsSegment segs → check_each segs ≡ ok tt
unfolding check_each
check_each_complete [] _ = refl
check_each_complete (s ∷ segs) (h, k) = ground (
  arith,
  bytes_eq_iff s [],
  bytes_eq_iff s (codes "."),
  bytes_eq_iff s (codes ".."),
  check_each_complete segs k,
)

-- What `checkSegments` has established of a text, with or without one slash at the end.
pub record IsChecked (p : Bytes) : Type 0 where
  pub short : length p ≤ max_path_len
  pub allowed : All IsAllowed p
  pub relative : IsJoined (trim_suffix p slash)

check_segments_parts :
    (p : Bytes)
    → (check_segments p ≡ ok tt) ↔ (
        (ltb max_path_len (length p) ≡ false)
        × (any is_forbidden p ≡ false)
        × (check_each (split (trim_suffix p slash) slash) ≡ ok tt))
unfolding check_segments
check_segments_parts p = ground arith

relative_of_split : (t : Bytes) → check_each (split t slash) ≡ ok tt → IsJoined t
relative_of_split t h = record {
  segments = split t slash;
  some_segment = split-ne-nil t slash;
  named = check_each_sound (split t slash) h;
  no_slash = split-Lacks t slash;
  joined = sym (join-split t slash);
}

split_of_relative : {t : Bytes} → IsJoined t → check_each (split t slash) ≡ ok tt
split_of_relative j =
    rw (j.joined, split-join j.segments slash j.some_segment j.no_slash)
      (check_each_complete j.segments j.named)

pub check_segments_iff : (p : Bytes) → (check_segments p ≡ ok tt) ↔ IsChecked p
check_segments_iff p =
    let (to, from) = check_segments_parts p in
    (
      λ h.
          let (short, allowed, each) = to h in
          record {
            short = ground arith;
            allowed = IsAllowed-of_any p allowed;
            relative = relative_of_split (trim_suffix p slash) each;
          },
      λ c. from (ground arith, any_of_allowed p c.allowed, split_of_relative c.relative),
    )

pub IsJoined-ends_in : {p : Bytes} → IsJoined p → ends_in p slash ≡ false
IsJoined-ends_in j =
    rw j.joined (ends_in-join j.segments slash (All-map (λ s k. k.0) j.segments j.named) j.no_slash)

pub IsJoined-ne-nil : {p : Bytes} → IsJoined p → p ≢ []
IsJoined-ne-nil j =
    rw j.joined
      (join-ne-nil j.segments slash j.some_segment (All-map (λ s k. k.0) j.segments j.named))

pub IsClean-IsChecked : {p : Bytes} → IsClean p → IsChecked p
IsClean-IsChecked {p} c = record {
  short = c.short;
  allowed = c.allowed;
  relative = rw (trim_suffix_absent p slash (IsJoined-ends_in c.relative)) c.relative;
}

pub clean_path_parts :
    (p q : Bytes)
    → (clean_path p ≡ ok q)
      ↔ ((p ≢ []) × (check_segments p ≡ ok tt) × (ends_in p slash ≡ false) × (q ≡ p))
unfolding clean_path
clean_path_parts p q = ground (arith, bytes_eq_iff p [])

-- `CleanPath` accepts exactly the object paths, and gives an accepted path back unchanged.
pub clean_path_iff : (p q : Bytes) → (clean_path p ≡ ok q) ↔ ((q ≡ p) × IsClean p)
clean_path_iff p q =
    let (to, from) = clean_path_parts p q in
    (
      λ h.
          let (_, checked, open_end, same) = to h in
          let c = (check_segments_iff p).0 checked in
          (
            same,
            record {
              short = c.short;
              allowed = c.allowed;
              relative = rw (trim_suffix_absent p slash open_end) at c.relative;
            },
          ),
      λ (same, c). from (
        IsJoined-ne-nil c.relative,
        (check_segments_iff p).1 (IsClean-IsChecked c),
        IsJoined-ends_in c.relative,
        same,
      ),
    )

-- ===== src/Filesystem/Listing/Sorted.antt =====
-- The tree order of the files of a disk is that of `comparePaths` of
-- internal/backend/filesystem/filesystem.go, and a cursor cuts the list at its place.
use booth_storage.Base.{
  ◌≡◌, ◌≢◌, refl, sym, ap, ◌∙◌, subst, inl, inr, true, false, List, [], ◌∷◌, ◌++◌, Bytes, bytes_eq,
  bytes_eq_iff, All, All-map, All-append, join, append_assoc, Bool-cases, arith, All-split,
  All-both,
}
use booth_storage.Base.Assoc.{bytes_lt}
use booth_storage.Base.Split.{join-ne-nil}
use booth_storage.Backend.{ObjectInfo}
use booth_storage.Backend.Path.{slash}
use booth_storage.Filesystem.{info_for}
use booth_storage.Filesystem.Disk.{Node, file, folder, special, Entries, vacant, entry}
use booth_storage.Filesystem.Disk.Lookup.{File}
use booth_storage.Filesystem.Disk.Tidy.{IsName, IsTidy, IsTidyIn, IsAbove}
use booth_storage.Filesystem.Listing.{before, compare_segments, after_cursor, is_after, is_temp}
use booth_storage.Filesystem.Listing.Order.{compare-append, compare_refl, compare_flip}
use booth_storage.Filesystem.Listing.Walk.{
  files, files_in, infos, infos-append, infos-none, IsBelow, files-IsBelow, All-last,
}
use booth_storage.Filesystem.Listing.Paths.{segments-join}

-- Each file comes before all that follow it.
unfoldable pub Ascending : List (List Bytes × File) → Type 0
Ascending [] = Unit
Ascending (x ∷ xs) = All (λ y. compare_segments x.0 y.0 ≡ before) xs × Ascending xs

Ascending-append :
    (xs ys : List (List Bytes × File))
    → Ascending xs
    → Ascending ys
    → All (λ x. All (λ y. compare_segments x.0 y.0 ≡ before) ys) xs
    → Ascending (xs ++ ys)
unfolding Ascending
Ascending-append [] ys _ h _ = h
Ascending-append (x ∷ xs) ys (first, h) k (cross, crosses) = (
  All-append (λ y. compare_segments x.0 y.0 ≡ before) xs ys first cross,
  Ascending-append xs ys h k crosses,
)

below-before :
    (at p q : List Bytes) (name other : Bytes)
    → bytes_lt name other ≡ true
    → compare_segments (at ++ name ∷ p) (at ++ other ∷ q) ≡ before
below-before at p q name other h =
    compare-append at (name ∷ p) (other ∷ q) ∙ unfold compare_segments in (rw h refl)

-- All that is below the later entries of a directory comes after what is below the name.
files_in-after :
    (at p : List Bytes) (name : Bytes) (es : Entries)
    → All IsName at
    → IsTidyIn es
    → IsAbove name es
    → All (λ y. compare_segments (at ++ name ∷ p) y.0 ≡ before) (files_in at es)
unfolding files_in IsTidyIn IsAbove
files_in-after at p name vacant names tidy above = tt
files_in-after at p name (entry other n es) names (proper, tidy, _, tidies) (less, above) =
    let rest = files_in-after at p name es names tidies above in
    elim (Bool-cases (is_temp other)) [
      | inl temp ↦ rw (temp, files_in) rest
      | inr plain ↦
          rw (plain, files_in)
            (All-append (λ y. compare_segments (at ++ name ∷ p) y.0 ≡ before)
              (files (at ++ other ∷ []) n) (files_in at es)
              (All-map
                (λ y (r, same, _).
                  ap (λ q. compare_segments (at ++ name ∷ p) q)
                    (same ∙ append_assoc at (other ∷ []) r)
                  ∙ below-before at p r name other less)
                (files (at ++ other ∷ []) n)
                (files-IsBelow (at ++ other ∷ []) n (All-last at other names proper) tidy))
              rest)
    ]

mutual
  unfolding files files_in IsTidy IsTidyIn Ascending

  pub files-Ascending :
      (at : List Bytes) (n : Node) → All IsName at → IsTidy n → Ascending (files at n)
  files-Ascending at (file c t) names tidy = (tt, tt)
  files-Ascending at (folder es) names tidy = files_in-Ascending at es names tidy
  files-Ascending at special names tidy = tt

  pub files_in-Ascending :
      (at : List Bytes) (es : Entries) → All IsName at → IsTidyIn es → Ascending (files_in at es)
  files_in-Ascending at vacant names tidy = tt
  files_in-Ascending at (entry name n es) names (proper, tidy, above, tidies) =
      let rest = files_in-Ascending at es names tidies in
      let here = files-Ascending (at ++ name ∷ []) n (All-last at name names proper) tidy in
      elim (Bool-cases (is_temp name)) [
        | inl temp ↦ rw (temp, files_in) rest
        | inr plain ↦
            rw (plain, files_in)
              (Ascending-append (files (at ++ name ∷ []) n) (files_in at es) here rest (
                All-map
                  (λ x (r, same, _).
                    subst (λ q. All (λ y. compare_segments q y.0 ≡ before) (files_in at es))
                      (sym (same ∙ append_assoc at (name ∷ []) r))
                      (files_in-after at r name es names tidies above))
                  (files (at ++ name ∷ []) n)
                  (files-IsBelow (at ++ name ∷ []) n (All-last at name names proper) tidy)))
      ]

-- A file by a proper path.
abbrev pub IsNamed : List Bytes × File → Type 0
IsNamed x = (x.0 ≢ []) × All IsName x.0

ne-nil-append : (p r : List Bytes) (s : Bytes) → p ++ s ∷ r ≢ []
ne-nil-append [] r s h = cc
ne-nil-append (a ∷ p) r s h = cc

below-IsNamed :
    (at : List Bytes) (name : Bytes) (x : List Bytes × File)
    → IsBelow (at ++ name ∷ []) x
    → IsNamed x
below-IsNamed at name x (r, same, names) = (
  λ empty. ne-nil-append at r name (sym (append_assoc at (name ∷ []) r) ∙ sym same ∙ empty),
  subst (λ q. All IsName q) (sym same) names,
)

pub files_in-IsNamed :
    (at : List Bytes) (es : Entries) → All IsName at → IsTidyIn es → All IsNamed (files_in at es)
unfolding files_in IsTidyIn
files_in-IsNamed at vacant names tidy = tt
files_in-IsNamed at (entry name n es) names (proper, tidy, _, tidies) =
    let rest = files_in-IsNamed at es names tidies in
    elim (Bool-cases (is_temp name)) [
      | inl temp ↦ rw (temp, files_in) rest
      | inr plain ↦
          rw (plain, files_in)
            (All-append IsNamed (files (at ++ name ∷ []) n) (files_in at es)
              (All-map (λ x below. below-IsNamed at name x below) (files (at ++ name ∷ []) n)
                (files-IsBelow (at ++ name ∷ []) n (All-last at name names proper) tidy))
              rest)
    ]

Ascending-around :
    (front rest : List (List Bytes × File)) (x : List Bytes × File)
    → Ascending (front ++ x ∷ rest)
    → All (λ y. compare_segments y.0 x.0 ≡ before) front
      × All (λ y. compare_segments x.0 y.0 ≡ before) rest
unfolding Ascending
Ascending-around [] rest x (first, _) = (tt, first)
Ascending-around (y ∷ front) rest x (first, h) =
    let (_, later) = All-split (λ z. compare_segments y.0 z.0 ≡ before) front (x ∷ rest) first in
    let (fronts, rests) = Ascending-around front rest x h in ((later.0, fronts), rests)

module _ (mime_type : Bytes → Bytes) where
  -- The entries of a listing for these files.
  unfoldable pub listed : List (List Bytes × File) → List ObjectInfo
  listed [] = []
  listed ((at, (content, time)) ∷ xs) = info_for mime_type (join at slash) content time ∷ listed xs

  infos-listed :
      (cursor : Bytes) (xs : List (List Bytes × File))
      → All (λ x. after_cursor (join x.0 slash) cursor ≡ true) xs
      → infos mime_type cursor xs ≡ listed xs
  unfolding infos listed
  infos-listed cursor [] _ = refl
  infos-listed cursor ((at, (c, t)) ∷ xs) (h, hs) = rw (h, infos-listed cursor xs hs) refl

  -- No cursor passes over nothing.
  pub infos_first : (xs : List (List Bytes × File)) → infos mime_type [] xs ≡ listed xs
  unfolding infos listed bytes_eq
  infos_first [] = refl
  infos_first ((at, (c, t)) ∷ xs) = rw (infos_first xs) refl

  passed_by :
      (y x : List Bytes × File)
      → IsNamed y
      → IsNamed x
      → after_cursor (join y.0 slash) (join x.0 slash) ≡ is_after (compare_segments y.0 x.0)
  passed_by y x (named, names) (named', names') =
      let some_cursor : bytes_eq (join x.0 slash) [] ≡ false = ground (
        arith,
        bytes_eq_iff (join x.0 slash) [],
        join-ne-nil x.0 slash named' (All-map (λ s n. n.0) x.0 names'),
      ) in
      rw (some_cursor, segments-join y.0 named names, segments-join x.0 named' names') refl

  infos-passed :
      (cursor : Bytes) (x : List Bytes × File) (xs : List (List Bytes × File))
      → after_cursor (join x.0 slash) cursor ≡ false
      → infos mime_type cursor (x ∷ xs) ≡ infos mime_type cursor xs
  unfolding infos
  infos-passed cursor (at, (c, t)) xs h = rw h refl

  -- A file's path as the cursor leaves what follows the file.
  pub infos_cut :
      (front rest : List (List Bytes × File)) (x : List Bytes × File)
      → Ascending (front ++ x ∷ rest)
      → All IsNamed (front ++ x ∷ rest)
      → infos mime_type (join x.0 slash) (front ++ x ∷ rest) ≡ listed rest
  infos_cut front rest x ascending named =
      let cursor : Bytes = join x.0 slash in
      let (fronts, rests) = Ascending-around front rest x ascending in
      let (names, others) = All-split IsNamed front (x ∷ rest) named in
      let own = others.0 in
      let names' = others.1 in
      let before_it = infos-none mime_type cursor front (
        All-both (λ y order proper. passed_by y x proper own ∙ ap is_after order) front fronts
          names) in
      let itself : after_cursor cursor cursor ≡ false =
        passed_by x x own own ∙ ap is_after (compare_refl x.0) in
      let after_it = infos-listed cursor rest (
        All-both
          (λ y order proper. passed_by y x proper own ∙ ap is_after (compare_flip x.0 y.0 order))
          rest rests names') in
      infos-append mime_type cursor front (x ∷ rest)
      ∙ ap (λ l. l ++ infos mime_type cursor (x ∷ rest)) before_it
      ∙ infos-passed cursor x rest itself
      ∙ after_it

-- ===== src/Filesystem/Listing/Walk.antt =====
-- `walk` of internal/backend/filesystem/filesystem.go against the plain list of all files in tree order.
use booth_storage.Base.{
  ℕ, zero, suc, ◌-◌, ◌≡◌, refl, sym, ap, ◌∙◌, subst, inl, inr, true, false, List, [], ◌∷◌, ◌++◌,
  Bytes, bytes_eq, All, All-map, All-append, join, has_prefix, append_assoc, append-nil, length,
  take, Bool-cases, if◌then◌else◌,
}
use booth_storage.Backend.{ObjectInfo}
use booth_storage.Backend.Path.{slash}
use booth_storage.Filesystem.{info_for}
use booth_storage.Filesystem.Disk.{Node, file, folder, special, Entries, vacant, entry}
use booth_storage.Filesystem.Disk.Lookup.{File}
use booth_storage.Filesystem.Disk.Tidy.{IsName, IsTidy, IsTidyIn}
use booth_storage.Filesystem.Listing.{
  before, compare_segments, segments_of, compare_paths, is_before, after_cursor, is_temp, skips,
}
use booth_storage.Filesystem.Listing.Paths.{
  segments-join, take-nil, take-append, compare-extend, skip-parts, is_before-eq, prefix-inside,
}

-- The regular files at and below a path that have no temporary name, in tree order.
unfoldable mutual
  pub files : List Bytes → Node → List (List Bytes × File)
  files at (file content time) = (at, (content, time)) ∷ []
  files at (folder es) = files_in at es
  files at special = []

  pub files_in : List Bytes → Entries → List (List Bytes × File)
  files_in at vacant = []
  files_in at (entry name n es) =
      let here = files (at ++ name ∷ []) n in (if is_temp name then [] else here) ++ files_in at es

-- At or below the path, by proper names.
abbrev pub IsBelow : List Bytes → List Bytes × File → Type 0
IsBelow at x = (r : List Bytes) × (x.0 ≡ at ++ r) × All IsName (at ++ r)

pub All-last :
    (at : List Bytes) (name : Bytes) → All IsName at → IsName name → All IsName (at ++ name ∷ [])
All-last at name names proper = All-append IsName at (name ∷ []) names (proper, tt)

lift-IsBelow :
    (at : List Bytes) (name : Bytes) (x : List Bytes × File)
    → IsBelow (at ++ name ∷ []) x
    → IsBelow at x
lift-IsBelow at name x (r, same, names) =
    let e : (at ++ name ∷ []) ++ r ≡ at ++ name ∷ r = append_assoc at (name ∷ []) r in
    (name ∷ r, same ∙ e, subst (λ q. All IsName q) e names)

mutual
  unfolding files files_in IsTidy IsTidyIn

  pub files-IsBelow :
      (at : List Bytes) (n : Node) → All IsName at → IsTidy n → All (IsBelow at) (files at n)
  files-IsBelow at (file c t) names tidy =
      (([], sym (append-nil at), subst (λ q. All IsName q) (sym (append-nil at)) names), tt)
  files-IsBelow at (folder es) names tidy = files_in-IsBelow at es names tidy
  files-IsBelow at special names tidy = tt

  pub files_in-IsBelow :
      (at : List Bytes) (es : Entries)
      → All IsName at
      → IsTidyIn es
      → All (IsBelow at) (files_in at es)
  files_in-IsBelow at vacant names tidy = tt
  files_in-IsBelow at (entry name n es) names (proper, tidy, _, tidies) =
      let rest = files_in-IsBelow at es names tidies in
      let here = files-IsBelow (at ++ name ∷ []) n (All-last at name names proper) tidy in
      elim (Bool-cases (is_temp name)) [
        | inl temp ↦ rw (temp, files_in) rest
        | inr plain ↦
            rw (plain, files_in)
              (All-append (IsBelow at) (files (at ++ name ∷ []) n) (files_in at es)
                (All-map (λ x below. lift-IsBelow at name x below) (files (at ++ name ∷ []) n) here)
                rest)
      ]

module _ (mime_type : Bytes → Bytes) (cursor : Bytes) where
  -- The entries of a listing for these files, without those that the cursor has passed.
  unfoldable pub infos : List (List Bytes × File) → List ObjectInfo
  infos [] = []
  infos ((at, (content, time)) ∷ xs) =
      let rest = infos xs in
      if after_cursor (join at slash) cursor
      then info_for mime_type (join at slash) content time ∷ rest
      else rest

  pub infos-append : (xs ys : List (List Bytes × File)) → infos (xs ++ ys) ≡ infos xs ++ infos ys
  unfolding infos
  infos-append [] ys = refl
  infos-append ((at, (c, t)) ∷ xs) ys = elim (Bool-cases (after_cursor (join at slash) cursor)) [
    | inl h ↦ rw (h, infos-append xs ys) refl
    | inr h ↦ rw (h, infos-append xs ys) refl
  ]

  pub infos-none :
      (xs : List (List Bytes × File))
      → All (λ x. after_cursor (join x.0 slash) cursor ≡ false) xs
      → infos xs ≡ []
  unfolding infos
  infos-none [] _ = refl
  infos-none ((at, (c, t)) ∷ xs) (h, hs) = rw h (infos-none xs hs)

  -- The files that a walk finds where it can read every directory, until there is no room in the page.
  unfoldable mutual
    pub walk_at : ℕ → List Bytes → Node → List ObjectInfo
    walk_at room at (file content time) =
        if after_cursor (join at slash) cursor
        then info_for mime_type (join at slash) content time ∷ []
        else []
    walk_at room at (folder es) =
        let below = walk_in room at es in if skips mime_type cursor at then [] else below
    walk_at room at special = []

    pub walk_in : ℕ → List Bytes → Entries → List ObjectInfo
    walk_in zero at es = []
    walk_in (suc room) at vacant = []
    walk_in (suc room) at (entry name n es) =
        let visit = walk_at (suc room) (at ++ name ∷ []) n in
        let here = if is_temp name then [] else visit in
        here ++ walk_in (suc room - length here) at es

  -- A subtree that is skipped holds nothing that the cursor has not passed.
  skips-passed :
      (at r : List Bytes)
      → All IsName at
      → All IsName (at ++ r)
      → skips mime_type cursor at ≡ true
      → after_cursor (join (at ++ r) slash) cursor ≡ false
  unfolding skips
  skips-passed [] r names names' h = cc
  skips-passed (s ∷ at) r names names' h =
      let p : List Bytes = s ∷ at in
      let (named, less, out) =
        skip-parts (bytes_eq cursor []) (is_before (compare_paths (join p slash) cursor))
          (has_prefix cursor (join p slash ++ slash ∷ [])) h in
      let first : compare_segments p (segments_of cursor) ≡ before =
        ap (λ q. compare_segments q (segments_of cursor)) (sym (segments-join p (λ e. cc) names))
        ∙ is_before-eq _ less in
      elim (compare-extend p (segments_of cursor) first) [
        | inl (rest, some_more, same) ↦
            let inside = prefix-inside p rest cursor (λ e. cc) some_more same in cc
        | inr all_before ↦ rw (named, segments-join (p ++ r) (λ e. cc) names', all_before r) refl
      ]

  skipped-none :
      (at : List Bytes) (n : Node)
      → All IsName at
      → IsTidy n
      → skips mime_type cursor at ≡ true
      → infos (files at n) ≡ []
  skipped-none at n names tidy h = infos-none (files at n) (
      All-map
        (λ x (r, same, names').
          ap (λ q. after_cursor (join q slash) cursor) same ∙ skips-passed at r names names' h)
        (files at n) (files-IsBelow at n names tidy))

  -- What two parts of a listing share of the room in the page.
  share-room :
      (room : ℕ) (xs ys : List (List Bytes × File)) (here rest : List ObjectInfo)
      → here ≡ take room (infos xs)
      → rest ≡ take (room - length here) (infos ys)
      → here ++ rest ≡ take room (infos (xs ++ ys))
  share-room room xs ys here rest first then_rest =
      ap (λ l. here ++ l) then_rest
      ∙ ap (λ l. l ++ take (room - length l) (infos ys)) first
      ∙ sym (take-append room (infos xs) (infos ys))
      ∙ ap (λ l. take room l) (sym (infos-append xs ys))

  mutual
    unfolding walk_at walk_in files files_in infos IsTidy IsTidyIn

    pub walk_at-take :
        (room : ℕ) (at : List Bytes) (n : Node)
        → All IsName at
        → IsTidy n
        → walk_at (suc room) at n ≡ take (suc room) (infos (files at n))
    walk_at-take room at (file c t) names tidy =
        elim (Bool-cases (after_cursor (join at slash) cursor)) [
          | inl h ↦
              rw h (ap (λ l. info_for mime_type (join at slash) c t ∷ l) (sym (take-nil room)))
          | inr h ↦ rw h refl
        ]
    walk_at-take room at special names tidy = refl
    walk_at-take room at (folder es) names tidy = elim (Bool-cases (skips mime_type cursor at)) [
      | inl skip ↦
          rw (skip, walk_at)
            (ap (λ l. take (suc room) l) (sym (skipped-none at (folder es) names tidy skip)))
      | inr visit ↦ rw (visit, walk_at) (walk_in-take (suc room) at es names tidy)
    ]

    pub walk_in-take :
        (room : ℕ) (at : List Bytes) (es : Entries)
        → All IsName at
        → IsTidyIn es
        → walk_in room at es ≡ take room (infos (files_in at es))
    walk_in-take zero at es names tidy = refl
    walk_in-take (suc room) at vacant names tidy = refl
    walk_in-take (suc room) at (entry name n es) names (proper, tidy, _, tidies) =
        let kept = if is_temp name then [] else files (at ++ name ∷ []) n in
        let visit = walk_at (suc room) (at ++ name ∷ []) n in
        let here = if is_temp name then [] else visit in
        let first : here ≡ take (suc room) (infos kept) = elim (Bool-cases (is_temp name)) [
          | inl temp ↦ rw temp refl
          | inr plain ↦
              rw plain (walk_at-take room (at ++ name ∷ []) n (All-last at name names proper) tidy)
        ] in
        share-room (suc room) kept (files_in at es) here (walk_in (suc room - length here) at es)
          first (walk_in-take (suc room - length here) at es names tidies)

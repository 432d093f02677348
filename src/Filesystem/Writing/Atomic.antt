-- ===== src/Filesystem/Writing/Atomic.antt =====
-- `Write` of internal/backend/filesystem/filesystem.go: at every moment a path shows the old object or the
-- complete new one.
use booth_storage.Base.{
  ℕ, ◌≡◌, refl, sym, ap, ◌∙◌, subst, inl, inr, ◌⊎◌, ◌≢◌, Bool, true, false, none, some, List, [],
  ◌∷◌, ◌++◌, Bytes, bytes_eq, bytes_eq_refl, any, All-map, Bool-cases, Option-cases, Result, ok,
  err, Result-cases, arith,
}
use booth_storage.Backend.{BackendError, precondition_failed, invalid_path, not_storable}
use booth_storage.Filesystem.{
  Trail, step, fill, link_in, rename_in, name_in, placed, Body, write_temp, write_below,
}
use booth_storage.Filesystem.Disk.{
  OsError, exist, Node, file, folder, special, Entries, find_entry, assign, erase, alter, add_new,
  put_file,
}
use booth_storage.Filesystem.Disk.Lookup.{
  object, descend, object-cons, find-assign, find-erase, alter-inside, ok_entries-injective,
  add_new-ok,
}
use booth_storage.Filesystem.Disk.Change.{keep, sets, under-sets, Does, alter-Does}
use booth_storage.Filesystem.Writing.{Passed, concat, entries-sets, add_new-Only}
use booth_storage.Filesystem.Writing.Steps.{
  Shows, Holds, temp-Shows, add_new-Holds, fill-Shows, remove_temp-Passed,
}

link_in-Does :
    (temp name c : Bytes) (t : ℕ) (es after : Entries)
    → find_entry temp es ≡ some (file c t)
    → link_in temp name es ≡ ok after
    → Does (λ s. bytes_eq temp s) (sets (name ∷ []) (some (c, t))) (folder es) (folder after)
      × (find_entry name es ≡ none)
unfolding link_in
link_in-Does temp name c t es after there h =
    let (free, same) = add_new-ok name (file c t) es after (rw (there, link_in) at h) in
    (
      entries-sets (λ s. bytes_eq temp s) es after name c t
          (rw (same, find-assign name name (file c t) es, bytes_eq_refl name) refl) (λ below e. cc)
          (λ k _ other. rw (same, find-assign name k (file c t) es, other) refl),
      free,
    )

put_file-over :
    (name : Bytes) (n m : Node) (es after : Entries)
    → find_entry name es ≡ some m
    → put_file name n es ≡ ok after
    → ((below : Entries) → find_entry name es ≢ some (folder below)) × (after ≡ assign name n es)
unfolding put_file
put_file-over name n (folder below) es after there h = cc (rw (there, put_file) at h)
put_file-over name n (file c t) es after there h =
    (λ below e. cc, sym (ok_entries-injective (rw (there, put_file) at h)))
put_file-over name n special es after there h =
    (λ below e. cc, sym (ok_entries-injective (rw (there, put_file) at h)))

put_file-ok :
    (name : Bytes) (n : Node) (es after : Entries)
    → put_file name n es ≡ ok after
    → ((below : Entries) → find_entry name es ≢ some (folder below)) × (after ≡ assign name n es)
unfolding put_file
put_file-ok name n es after h = elim (Option-cases (find_entry name es)) [
  | inl free ↦ (λ below e. cc, sym (ok_entries-injective (rw (free, put_file) at h)))
  | inr (m, there) ↦ put_file-over name n m es after there h
]

rename_in-Does :
    (temp name c : Bytes) (t : ℕ) (es after : Entries)
    → bytes_eq temp name ≡ false
    → find_entry temp es ≡ some (file c t)
    → rename_in temp name es ≡ ok after
    → Does (λ s. bytes_eq temp s) (sets (name ∷ []) (some (c, t))) (folder es) (folder after)
unfolding rename_in
rename_in-Does temp name c t es after apart there h =
    let (free, same) =
      put_file-ok name (file c t) (erase temp es) after (rw (there, rename_in) at h) in
    entries-sets (λ s. bytes_eq temp s) es after name c t
      (rw (same, find-assign name name (file c t) (erase temp es), bytes_eq_refl name) refl)
      (λ below e. free below (rw (find-erase temp name es, apart) e))
      (λ k public other.
        rw
          (same, find-assign name k (file c t) (erase temp es), other, find-erase temp k es, public)
          refl)

any-last :
    (p : Bytes → Bool) (dir : List Bytes) (name : Bytes)
    → any p (dir ++ name ∷ []) ≡ false
    → p name ≡ false
any-last p [] name h = ground arith
any-last p (s ∷ dir) name h = any-last p dir name (ground arith)

link_in-free :
    (create_only : Bool) (temp name : Bytes) (es after : Entries)
    → name_in create_only temp name es ≡ ok after
    → create_only ≡ true
    → find_entry name es ≡ none
unfolding link_in
link_in-free true temp name es after h _ = elim (Option-cases (find_entry temp es)) [
  | inl gone ↦ cc (rw (gone, link_in) at h)
  | inr (n, there) ↦ (add_new-ok name n es after (rw (there, link_in) at h)).0
]
link_in-free false temp name es after h e = cc

name_in-Does :
    (create_only : Bool) (temp name c : Bytes) (t : ℕ) (es after : Entries)
    → bytes_eq temp name ≡ false
    → find_entry temp es ≡ some (file c t)
    → name_in create_only temp name es ≡ ok after
    → Does (λ s. bytes_eq temp s) (sets (name ∷ []) (some (c, t))) (folder es) (folder after)
name_in-Does true temp name c t es after apart there h =
    (link_in-Does temp name c t es after there h).0
name_in-Does false temp name c t es after apart there h =
    rename_in-Does temp name c t es after apart there h

abbrev ok_node : Node → Result OsError Node
ok_node n = ok n

abbrev folder_of : Entries → Node
folder_of es = folder es

entries_same : (a b : Entries) → ok_node (folder_of a) ≡ ok_node (folder_of b) → a ≡ b
entries_same a b h = cc

module _ (root : Node) (dir : List Bytes) (temp name : Bytes)
    (hidden : any (λ s. bytes_eq temp s) (dir ++ name ∷ []) ≡ false) where
  abbrev pub Old : Node → Type 0
  Old n = Shows root dir temp keep n

  abbrev pub New : Bytes → ℕ → Node → Type 0
  New c t n = Shows root dir temp (sets (dir ++ name ∷ []) (some (c, t))) n

  name_in-New :
      (create_only : Bool) (c : Bytes) (t : ℕ) (n m : Node)
      → Holds root dir temp c t n
      → Old n
      → alter (name_in create_only temp name) n dir ≡ ok m
      → New c t m × (create_only ≡ true → object root (dir ++ name ∷ []) ≡ none)
  name_in-New create_only c t n m (es, at, there) old h =
      let apart = any-last (λ s. bytes_eq temp s) dir name hidden in
      let does =
        alter-Does (λ s. bytes_eq temp s) (name_in create_only temp name)
          (sets (name ∷ []) (some (c, t))) n m dir
          (λ es' after at' e.
            name_in-Does create_only temp name c t es' after apart
              (subst (λ x. find_entry temp x ≡ some (file c t)) (entries_same es es' (sym at ∙ at'))
                there)
              e)
          h in
      let (before, after, e, _, _, inside, _) =
        alter-inside (name_in create_only temp name) n m dir h in
      (
        λ q seen.
            does q seen
            ∙ under-sets dir (name ∷ []) q (some (c, t)) (object n q)
            ∙ ap (λ o. sets (dir ++ name ∷ []) (some (c, t)) q o) (old q seen),
        λ only.
            sym (old (dir ++ name ∷ []) hidden)
            ∙ inside (name ∷ [])
            ∙ object-cons before name []
            ∙ ap (λ o. descend o []) (link_in-free create_only temp name before after e only),
      )

  abbrev pub Either : Bytes → ℕ → Node → Type 0
  Either c t n = Old n ⊎ New c t n

  -- A write that succeeds ends with the new object, and one that fails never shows it.
  abbrev pub Stored : Bool → Bool → Bytes → ℕ → Result BackendError (Unit {0}) → Trail → Type 0
  Stored create_only broken c t r d =
      ((r ≡ ok tt)
        × (broken ≡ false)
        × New c t d.now
        × Passed (Either c t) d
        × (create_only ≡ true → object root (dir ++ name ∷ []) ≡ none))
      ⊎ ((e : BackendError) × (r ≡ err e) × Passed Old d)

  Old-Either : (c : Bytes) (t : ℕ) (d : Trail) → Passed Old d → Passed (Either c t) d
  Old-Either c t d h = (inl h.0, All-map (λ n old. inl old) d.past h.1)

  placed-Stored :
      (create_only : Bool) (c : Bytes) (t : ℕ) (d : Trail) (r : Result OsError Node)
      → ((m : Node)
          → r ≡ ok m
          → New c t m × (create_only ≡ true → object root (dir ++ name ∷ []) ≡ none))
      → Passed Old d
      → Stored create_only false c t
          (placed create_only dir temp d r).0
          (placed create_only dir temp d r).1
  placed-Stored true c t d (ok n) good h =
      let (new, free) = good n refl in
      let (passed, now) =
        remove_temp-Passed root dir temp (Either c t) (sets (dir ++ name ∷ []) (some (c, t)))
          (step n d) (λ m shows. inr shows) new (inr new, Old-Either c t d h) in
      inl (refl, refl, now, passed, free)
  placed-Stored false c t d (ok n) good h =
      let (new, free) = good n refl in inl (refl, refl, new, (inr new, Old-Either c t d h), free)
  placed-Stored true c t d (err e) good h =
      let (passed, _) = remove_temp-Passed root dir temp Old keep d (λ m shows. shows) h.0 h in
      elim e
        as (λ k.
          Stored true false c t (placed true dir temp d (err k)).0
            (placed true dir temp d (err k)).1) [
              | exist ↦ inr (precondition_failed, refl, passed)
              | _ ↦ inr (invalid_path not_storable, refl, passed)
            ]
  placed-Stored false c t d (err e) good h =
      let (passed, _) = remove_temp-Passed root dir temp Old keep d (λ m shows. shows) h.0 h in
      inr (invalid_path not_storable, refl, passed)

  write_temp-Stored :
      (create_only : Bool) (t : ℕ) (body : Body) (d : Trail)
      → Holds root dir temp [] t d.now
      → Passed Old d
      → Stored create_only body.broken
          (concat body.pieces)
          t
          (write_temp create_only dir temp name t body d).0
          (write_temp create_only dir temp name t body d).1
  unfolding write_temp
  write_temp-Stored create_only t body d holds h =
      let (full, passed) = fill-Shows root dir temp keep t body.pieces [] d holds h in
      let filled : Trail = fill dir temp t [] body.pieces d in
      elim (Bool-cases body.broken) [
        | inl broken ↦
            let (after, _) =
              remove_temp-Passed root dir temp Old keep filled (λ m shows. shows) passed.0 passed in
            rw (broken, write_temp) (inr (_, refl, after))
        | inr whole ↦
            rw (whole, write_temp)
              (placed-Stored create_only (concat body.pieces) t filled
                (alter (name_in create_only temp name) filled.now dir)
                (λ m e. name_in-New create_only (concat body.pieces) t filled.now m full passed.0 e)
                passed)
      ]

  pub write_below-Stored :
      (create_only : Bool) (t : ℕ) (body : Body) (d : Trail)
      → Passed Old d
      → Stored create_only body.broken
          (concat body.pieces)
          t
          (write_below create_only dir temp name t body d).0
          (write_below create_only dir temp name t body d).1
  unfolding write_below
  write_below-Stored create_only t body d h =
      elim (Result-cases (alter (add_new temp (file [] t)) d.now dir)) [
        | inl (n, e) ↦
            rw (e, write_below)
              (write_temp-Stored create_only t body (step n d)
                (add_new-Holds root dir temp t d.now n e)
                (
                  temp-Shows root dir temp (add_new temp (file [] t)) keep d.now n
                      (add_new-Only temp (file [] t)) e h.0,
                  h,
                ))
        | inr (reason, e) ↦ rw (e, write_below) (inr (_, refl, h))
      ]

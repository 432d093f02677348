-- ===== src/Filesystem/Writing.antt =====
-- `Write` of internal/backend/filesystem/filesystem.go: what the disks between its steps show at the paths
-- that have no segment of the temporary file's name.
pub mod Steps
pub mod Atomic
pub mod Outcome
use booth_storage.Base.{
  ℕ, ◌≡◌, refl, sym, ap, ◌∙◌, subst, inl, inr, ◌⊎◌, ◌≢◌, Bool, true, false, Option, none, some,
  List, [], ◌∷◌, ◌++◌, Bytes, bytes_eq, bytes_eq_iff, bytes_eq_refl, any, All, All-map, append-nil,
  append_assoc, Bool-cases, Option-cases, Result, ok, err, Result-cases, arith, if◌then◌else◌,
}
use booth_storage.Backend.{BackendError, precondition_failed}
use booth_storage.Filesystem.{
  temp_prefix, Trail, step, attempt, parents, leaf, made, mkdir_all, fill, remove_temp, link_in,
  rename_in, name_in, placed, place, Body, write_temp, write_at,
}
use booth_storage.Filesystem.Disk.{
  OsError, exist, Node, file, folder, special, Entries, vacant, entry, find_entry, assign, erase,
  stat, alter, add_new, mkdir, refill, drop_entry, is_vacant, put_file,
}
use booth_storage.Filesystem.Disk.Lookup.{
  File, object, descend, object-cons, find-assign, find-erase, alter-inside, ok_entries-injective,
  add_new-ok, drop_entry-ok,
}
use booth_storage.Filesystem.Disk.Change.{
  path_eq, keep, sets, under-keep, under-sets, Does, alter-Does, alter-total,
}

-- Every disk that an operation passes through, the last one included.
abbrev pub Passed : (Node → Type 0) → Trail → Type 0
Passed P d = P d.now × All P d.past

pub attempt-Passed :
    (P : Node → Type 0) (r : Result OsError Node) (d : Trail)
    → ((n : Node) → r ≡ ok n → P n)
    → Passed P d
    → Passed P (attempt r d).1
attempt-Passed P (ok n) d good h = (good n refl, h)
attempt-Passed P (err e) d good h = h

pub parents-leaf : (path : List Bytes) → path ≢ [] → parents path ++ leaf path ∷ [] ≡ path
unfolding parents leaf
parents-leaf [] h = absurd (h refl)
parents-leaf (s ∷ []) h = refl
parents-leaf (s ∷ t ∷ path) h = ap (λ rest. s ∷ rest) (parents-leaf (t ∷ path) (λ e. cc))

unfoldable pub concat : List Bytes → Bytes
concat [] = []
concat (piece ∷ pieces) = piece ++ concat pieces

pub made-Passed :
    (P : Node → Type 0) (d : Trail) (at : List Bytes) (r : Result OsError Node)
    → ((n : Node) → r ≡ ok n → P n)
    → Passed P d
    → Passed P (made d at r).1
made-Passed P d at (ok n) good h = (good n refl, h)
made-Passed P d at (err e) good h = elim e as (λ k. Passed P (made d at (err k)).1) [
  | exist ↦ h
  | _ ↦ h
]

free-name :
    (o : Option Node)
    → ((below : Entries) → o ≢ some (folder below))
    → (s : Bytes) (q : List Bytes) → descend o (s ∷ q) ≡ none
unfolding object
free-name none free s q = refl
free-name (some (file c t)) free s q = refl
free-name (some special) free s q = refl
free-name (some (folder below)) free s q = absurd (free below refl)

leads :
    (es : Entries) (name c : Bytes) (t : ℕ)
    → ((below : Entries) → find_entry name es ≢ some (folder below))
    → (q : List Bytes)
    → object (file c t) q ≡ (if path_eq [] q then some (c, t) else descend (find_entry name es) q)
unfolding object path_eq
leads es name c t free [] = refl
leads es name c t free (s ∷ q) = sym (free-name (find_entry name es) free s q)

vacant-none : (q : List Bytes) → object (folder vacant) q ≡ none
unfolding object find_entry
vacant-none [] = refl
vacant-none (s ∷ q) = refl

module _ (secret : Bytes → Bool) where
  -- A change of a directory's entries that only touches secret names.
  pub entries-keep :
      (es after : Entries)
      → ((k : Bytes) → secret k ≡ false → find_entry k after ≡ find_entry k es)
      → Does secret keep (folder es) (folder after)
  entries-keep es after same [] seen = unfold object in refl
  entries-keep es after same (k ∷ q) seen =
      object-cons after k q
      ∙ ap (λ o. descend o q) (same k (ground arith))
      ∙ sym (object-cons es k q)

  -- A change of a directory's entries that puts a file to a name where there is no directory.
  pub entries-sets :
      (es after : Entries) (name c : Bytes) (t : ℕ)
      → find_entry name after ≡ some (file c t)
      → ((below : Entries) → find_entry name es ≢ some (folder below))
      → ((k : Bytes)
          → secret k ≡ false
          → bytes_eq name k ≡ false
          → find_entry k after ≡ find_entry k es)
      → Does secret (sets (name ∷ []) (some (c, t))) (folder es) (folder after)
  unfolding path_eq
  entries-sets es after name c t there free same [] seen = unfold object in refl
  entries-sets es after name c t there free same (k ∷ q) seen =
      rw (object-cons after k q, object-cons es k q)
        (elim (Bool-cases (bytes_eq name k)) [
          | inr other ↦ rw other (ap (λ o. descend o q) (same k (ground arith) other))
          | inl here ↦ rw (here, ← (bytes_eq_iff name k).0 here, there) (leads es name c t free q)
        ])

  new_folder :
      (es after : Entries) (name : Bytes)
      → add_new name (folder vacant) es ≡ ok after
      → Does secret keep (folder es) (folder after)
  new_folder es after name h [] seen = unfold object in refl
  new_folder es after name h (k ∷ q) seen =
      let (free, same) = add_new-ok name (folder vacant) es after h in
      rw (object-cons after k q, object-cons es k q, same, find-assign name k (folder vacant) es)
        (elim (Bool-cases (bytes_eq name k)) [
          | inr other ↦ rw other refl
          | inl here ↦ rw (here, ← (bytes_eq_iff name k).0 here, free) (vacant-none q)
        ])

  -- A new directory brings no object.
  pub mkdir-keep :
      (n m : Node) (dir : List Bytes) (name : Bytes)
      → mkdir n dir name ≡ ok m
      → Does secret keep n m
  mkdir-keep n m dir name h q seen =
      alter-Does secret (add_new name (folder vacant)) keep n m dir
        (λ es after _. new_folder es after name) h q seen
      ∙ under-keep dir q (object n q)

  pub mkdir_all-Passed :
      (root : Node) (path built : List Bytes) (d : Trail)
      → Passed (Does secret keep root) d
      → Passed (Does secret keep root) (mkdir_all built path d).1
  unfolding mkdir_all
  mkdir_all-Passed root [] built d h = h
  mkdir_all-Passed root (s ∷ path) built d h =
      let next =
        made-Passed (Does secret keep root) d (built ++ s ∷ []) (mkdir d.now built s)
          (λ n e q seen. mkdir-keep d.now n built s e q seen ∙ h.0 q seen) h in
      elim (Result-cases (made d (built ++ s ∷ []) (mkdir d.now built s)).0) [
        | inl (_, good) ↦
            rw (good, mkdir_all)
              (mkdir_all-Passed root path (built ++ s ∷ [])
                (made d (built ++ s ∷ []) (mkdir d.now built s)).1 next)
        | inr (e, bad) ↦ rw (bad, mkdir_all) next
      ]

-- A change of a directory's entries that concerns the temporary name only.
abbrev pub Only : Bytes → (Entries → Result OsError Entries) → Type 0
Only temp f =
    (es after : Entries)
    → f es ≡ ok after
    → (k : Bytes) → bytes_eq temp k ≡ false
    → find_entry k after ≡ find_entry k es

pub add_new-Only : (temp : Bytes) (n : Node) → Only temp (add_new temp n)
add_new-Only temp n es after h k other =
    let (_, same) = add_new-ok temp n es after h in rw (same, find-assign temp k n es, other) refl

pub refill-Only : (temp content : Bytes) (time : ℕ) → Only temp (refill temp content time)
unfolding refill
refill-Only temp content time es after h k other =
    rw (← ok_entries-injective h, find-assign temp k (file content time) es, other) refl

pub drop_entry-Only : (temp : Bytes) → Only temp (drop_entry temp)
drop_entry-Only temp es after h k other =
    rw (drop_entry-ok temp es after h, find-erase temp k es, other) refl

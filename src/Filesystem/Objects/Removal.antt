-- ===== src/Filesystem/Objects/Removal.antt =====
-- `DeleteObject` and `DeleteFolder` of internal/backend/filesystem/filesystem.go: what they leave.
use booth_storage.Base.{
  ℕ, ◌≡◌, refl, sym, ap, ◌∙◌, subst, inl, inr, ◌≢◌, Bool, true, false, Option, none, some, List, [],
  ◌∷◌, ◌++◌, Bytes, bytes_eq, bytes_eq_iff, Bool-cases, Option-cases, split, Result, ok, err,
  Result-cases, if◌then◌else◌, ◌⊎◌,
}
use booth_storage.Base.Split.{split-ne-nil}
use booth_storage.Backend.{not_found}
use booth_storage.Backend.Path.{slash, clean_path}
use booth_storage.Filesystem.{Trail, map_err, parents, leaf}
use booth_storage.Filesystem.Writing.{parents-leaf}
use booth_storage.Filesystem.Disk.{
  OsError, Node, file, folder, special, Entries, find_entry, erase, stat, drop_entry,
}
use booth_storage.Filesystem.Disk.Lookup.{File, object, object-seen, seen}
use booth_storage.Filesystem.Disk.Change.{path_eq, alter-total}
use booth_storage.Filesystem.Disk.Graft.{
  strip, grafted, graft, Grafts, drop_entry-Grafts, object-append, stat-parent,
}
use booth_storage.Filesystem.Objects.{first_disk, delete_found, delete_object}

abbrev err_node : OsError → Result OsError Node
err_node e = err e

err-injective : {a b : OsError} → err_node a ≡ err_node b → a ≡ b
err-injective h = cc

abbrev some_path : List Bytes → Option (List Bytes)
some_path p = some p

some-injective : {p q : List Bytes} → some_path p ≡ some_path q → p ≡ q
some-injective h = cc

-- Why nothing is found at a path: one of its names is missing, or it leads through what is no directory.
pub stat-missing :
    (root : Node) (path : List Bytes) (e : OsError) → stat root path ≡ err e → map_err e ≡ not_found
unfolding stat map_err
stat-missing root [] e h = cc
stat-missing (file c t) (s ∷ path) e h = ap map_err (sym (err-injective h))
stat-missing special (s ∷ path) e h = ap map_err (sym (err-injective h))
stat-missing (folder es) (s ∷ path) e h = elim (Option-cases (find_entry s es)) [
  | inl missing ↦ ap map_err (sym (err-injective (rw (missing, stat) at h)))
  | inr (n, found) ↦ stat-missing n path e (rw (found, stat) at h)
]

is_whole : Option (List Bytes) → Bool
is_whole none = false
is_whole (some []) = true
is_whole (some (s ∷ r)) = false

path_eq-strip : (p q : List Bytes) → path_eq p q ≡ is_whole (strip p q)
unfolding path_eq strip is_whole
path_eq-strip [] [] = refl
path_eq-strip [] (k ∷ q) = refl
path_eq-strip (s ∷ p) [] = refl
path_eq-strip (s ∷ p) (k ∷ q) = elim (Bool-cases (bytes_eq s k)) [
  | inl h ↦ rw h (path_eq-strip p q)
  | inr h ↦ rw h refl
]

pub strip-append : (p q r : List Bytes) → strip p q ≡ some r → q ≡ p ++ r
unfolding strip
strip-append [] q r h = some-injective h
strip-append (s ∷ p) [] r h = cc
strip-append (s ∷ p) (k ∷ q) r h = elim (Bool-cases (bytes_eq s k)) [
  | inl here ↦
      rw (← (bytes_eq_iff s k).0 here) (ap (λ t. s ∷ t) (strip-append p q r (rw here at h)))
  | inr other ↦ cc (rw other at h)
]

-- Below a file there is nothing.
below-file : (c : Bytes) (t : ℕ) (s : Bytes) (r : List Bytes) → object (file c t) (s ∷ r) ≡ none
unfolding object
below-file c t s r = refl

-- Without its subtree, a path that led to a file is the only one to change.
graft-file :
    (root : Node) (path q : List Bytes) (c : Bytes) (t : ℕ)
    → stat root path ≡ ok (file c t)
    → graft path (λ r. none) q (object root q) ≡ (if path_eq path q then none else object root q)
unfolding grafted is_whole
graft-file root path q c t h = elim (Option-cases (strip path q)) [
  | inl out ↦ rw (path_eq-strip path q, out) refl
  | inr ([], at) ↦ rw (path_eq-strip path q, at) refl
  | inr (s ∷ r, below) ↦
      rw (path_eq-strip path q, below)
        (sym (
          ap (object root) (strip-append path q (s ∷ r) below)
          ∙ object-append root (file c t) path (s ∷ r) h
          ∙ below-file c t s r))
]

drop_entry-file :
    (name c : Bytes) (t : ℕ) (es : Entries)
    → find_entry name es ≡ some (file c t)
    → drop_entry name es ≡ ok (erase name es)
unfolding drop_entry
drop_entry-file name c t es h = rw (h, drop_entry) refl

-- What a deletion leaves: the given path without its object.
abbrev pub Deleted : List Bytes → Node → Node → Type 0
Deleted path root after =
    (q : List Bytes) → object after q ≡ (if path_eq path q then none else object root q)

delete_found-file :
    (path : List Bytes) (root : Node) (c : Bytes) (t : ℕ)
    → path ≢ []
    → stat root path ≡ ok (file c t)
    → (d : Trail) × (delete_found path root (stat root path) ≡ (ok tt, d)) × Deleted path root d.now
delete_found-file path root c t named at =
    let whole = parents-leaf path named in
    let (es, there, found) = stat-parent root (file c t) (parents path) (leaf path) (rw whole at) in
    let (after, e, _) =
      alter-total (drop_entry (leaf path)) root (parents path) es (erase (leaf path) es) there
        (drop_entry-file (leaf path) c t es found) in
    let grafts : Grafts path (λ r. none) root after =
      subst (λ p. Grafts p (λ r. none) root after) whole
        (drop_entry-Grafts root after (parents path) (leaf path) e) in
    (
      record { now = after; past = root ∷ [] },
      rw (at, e) refl,
      λ q. grafts q ∙ graft-file root path q c t at,
    )

-- A deletion at a clean path: an object is removed, and nothing else changes, or there is none and the disk
-- stays as it is.
pub delete_object_lem :
    (p clean : Bytes) (root : Node)
    → clean_path p ≡ ok clean
    → ((f : File) × (object root (split clean slash) ≡ some f)
        × (d : Trail) × (delete_object p root ≡ (ok tt, d))
        × Deleted (split clean slash) root d.now)
      ⊎ ((object root (split clean slash) ≡ none)
          × (delete_object p root ≡ (err not_found, first_disk root)))
unfolding delete_object
delete_object_lem p clean root valid =
    let path : List Bytes = split clean slash in
    elim (Result-cases (stat root path)) [
      | inl (file c t, at) ↦
          let (d, same, after) = delete_found-file path root c t (split-ne-nil clean slash) at in
          inl ((c, t), object-seen root path ∙ ap seen at, d, rw (valid, delete_object) same, after)
      | inl (folder es, at) ↦
          inr (object-seen root path ∙ ap seen at, rw (valid, at, delete_object) refl)
      | inl (special, at) ↦
          inr (object-seen root path ∙ ap seen at, rw (valid, at, delete_object) refl)
      | inr (e, at) ↦ inr (
        object-seen root path ∙ ap seen at,
        rw (valid, at, delete_object, stat-missing root path e at) refl,
      )
    ]

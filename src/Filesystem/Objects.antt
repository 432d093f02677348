-- ===== src/Filesystem/Objects.antt =====
-- internal/backend/filesystem/filesystem.go: reading, folders, deletion and moves. A range that starts
-- below zero, which the type of a range does not have here, is not modelled.
pub mod Reading
pub mod Removal
pub mod Renames
pub mod Moved
pub mod Moves
use booth_storage.Base.{
  ℕ, suc, ◌+◌, ◌-◌, Bool, true, false, not, ◌&&◌, ◌||◌, Option, none, some, List, [], ◌∷◌, ◌++◌,
  Bytes, codes, bytes_eq, split, has_prefix, ends_in, refuse_if, trim_suffix, length, take, drop,
  ltb, leb, Result, ok, err, ◌>>=◌, if◌then◌else◌,
}
use booth_storage.Backend.{
  BackendError, not_found, conflict, invalid_range, invalid_path, into_itself, ObjectInfo,
  ByteRange,
}
use booth_storage.Backend.Path.{slash, clean_path, clean_folder}
use booth_storage.Filesystem.{
  map_err, map_write_err, is_valid_path, Trail, step, attempt, info_for, parents, leaf,
  must_be_folder, mkdir_all,
}
use booth_storage.Filesystem.Disk.{
  OsError, not_exist, exist, not_dir, not_empty, escapes, invalid, Node, file, folder, special,
  Entries, vacant, entry, find_entry, stat, alter, put_over, drop_entry, drop_all,
}

abbrev pub content_at :
    (Bytes → Bytes) → Bytes → Result OsError Node → Result BackendError (Bytes × ObjectInfo)
content_at mime_type p (err e) = err (map_err e)
content_at mime_type p (ok (file content time)) = ok (content, info_for mime_type p content time)
content_at mime_type p (ok n) = err not_found

-- `Read`
unfoldable pub read : (Bytes → Bytes) → Bytes → Node → Result BackendError (Bytes × ObjectInfo)
read mime_type p root =
    clean_path p >>= λ clean. content_at mime_type clean (stat root (split clean slash))

unfoldable pub range_of : ByteRange → Bytes × ObjectInfo → Result BackendError (Bytes × ObjectInfo)
range_of rg (content, info) =
    if ltb rg.end rg.start || leb (length content) rg.start || leb (length content) rg.end
    then err invalid_range
    else ok (take (rg.end - rg.start + 1) (drop rg.start content), info)

-- `ReadRange`
unfoldable pub read_range :
    (Bytes → Bytes) → Bytes → ByteRange → Node → Result BackendError (Bytes × ObjectInfo)
read_range mime_type p rg root = clean_path p >>= λ clean.
    content_at mime_type clean (stat root (split clean slash)) >>= range_of rg

-- What `Mkdir` finds in the end.
abbrev pub folder_there : Result OsError (Unit {0}) → Result BackendError (Unit {0})
folder_there (ok _) = ok tt
folder_there (err e) = err conflict

-- The path of a clean folder without the slash behind it; another may be left at its end.
abbrev pub dir_of : Bytes → Bytes
dir_of clean = trim_suffix clean slash

-- The names of a path as the root takes it, which ignores a slash at the end.
abbrev pub names_of : Bytes → List Bytes
names_of p = split (trim_suffix p slash) slash

abbrev pub folder_path : Bytes → List Bytes
folder_path clean = names_of (dir_of clean)

abbrev pub first_disk : Node → Trail
first_disk root = record { now = root; past = [] }

-- `Mkdir`
unfoldable pub mkdir_folder : Bytes → Node → Result BackendError (Unit {0}) × Trail
mkdir_folder p root = elim (clean_folder p) [
  | err e ↦ (err e, first_disk root)
  | ok clean ↦
      let (made, d) = mkdir_all [] (folder_path clean) (first_disk root) in
      elim made [
        | err e ↦ (err (map_write_err e), d)
        | ok _ ↦ (folder_there (must_be_folder (stat d.now (folder_path clean))), d)
      ]
]

abbrev pub mapped : Result OsError (Unit {0}) × Trail → Result BackendError (Unit {0}) × Trail
mapped (ok _, d) = (ok tt, d)
mapped (err e, d) = (err (map_err e), d)

-- `DeleteObject` of a path that leads to this.
abbrev pub delete_found :
    List Bytes → Node → Result OsError Node → Result BackendError (Unit {0}) × Trail
delete_found path root (err e) = (err (map_err e), first_disk root)
delete_found path root (ok (file content time)) =
    mapped (attempt (alter (drop_entry (leaf path)) root (parents path)) (first_disk root))
delete_found path root (ok n) = (err not_found, first_disk root)

-- `DeleteObject`
unfoldable pub delete_object : Bytes → Node → Result BackendError (Unit {0}) × Trail
delete_object p root = elim (clean_path p) [
  | err e ↦ (err e, first_disk root)
  | ok clean ↦ delete_found (split clean slash) root (stat root (split clean slash))
]

module _ (valid_path : Bytes → Bool) where
  -- The regular files that `DeleteFolder` counts at and below a path: its walk goes on behind a directory
  -- whose path is refused.
  unfoldable mutual
    pub count_files : List Bytes → Node → ℕ
    count_files at (file content time) = 1
    count_files at (folder es) =
        let below = count_entries at es in if is_valid_path valid_path at then below else 0
    count_files at special = 0

    pub count_entries : List Bytes → Entries → ℕ
    count_entries at vacant = 0
    count_entries at (entry name n es) = count_files (at ++ name ∷ []) n + count_entries at es

  -- The count of a clean folder; one that is written with a slash behind it is no valid path.
  abbrev pub count_folder : Bytes → Entries → ℕ
  count_folder clean es =
      if ends_in (dir_of clean) slash then 0 else count_files (folder_path clean) (folder es)

abbrev pub removed : ℕ → Result OsError (Unit {0}) × Trail → Result BackendError ℕ × Trail
removed files (ok _, d) = (ok files, d)
removed files (err e, d) = (err (map_err e), d)

module _ (valid_path : Bytes → Bool) where
  -- `DeleteFolder` of a clean folder whose path leads to this.
  abbrev pub delete_folder_found :
      Bytes → Node → Result OsError Node → Result BackendError ℕ × Trail
  delete_folder_found clean root (err e) = (err (map_err e), first_disk root)
  delete_folder_found clean root (ok (folder es)) =
      let path = folder_path clean in
      removed (count_folder valid_path clean es)
        (attempt (alter (drop_all (leaf path)) root (parents path)) (first_disk root))
  delete_folder_found clean root (ok n) = (err not_found, first_disk root)

  -- `DeleteFolder`
  unfoldable pub delete_folder : Bytes → Node → Result BackendError ℕ × Trail
  delete_folder p root = elim (clean_folder p) [
    | err e ↦ (err e, first_disk root)
    | ok clean ↦ delete_folder_found clean root (stat root (folder_path clean))
  ]

-- Whether a path is at or below another.
unfoldable pub is_inside : List Bytes → List Bytes → Bool
is_inside [] dst = true
is_inside (s ∷ src) [] = false
is_inside (s ∷ src) (t ∷ dst) = bytes_eq s t && is_inside src dst

-- `Root.Rename`, as rename(2) does it.
abbrev pub rename : List Bytes → List Bytes → Node → Result OsError Node
rename src dst root = stat root src >>= λ n. refuse_if (is_inside src dst) invalid >>= λ _.
    alter (drop_all (leaf src)) root (parents src) >>= λ without.
    alter (put_over (leaf dst) n) without (parents dst)

-- The last steps of `move`, from the creation of the target's directory.
unfoldable pub move_free :
    List Bytes → List Bytes → List Bytes → Node → Result BackendError (Unit {0}) × Trail
move_free src dst dir root =
    let (made, d) = mkdir_all [] dir (first_disk root) in
    elim made [
      | err e ↦ (err (map_write_err e), d)
      | ok _ ↦ mapped (attempt (rename src dst d.now) d)
    ]

-- What `move` does, by what is at the target.
abbrev pub move_to :
    List Bytes
    → List Bytes
    → List Bytes
    → Node
    → Result OsError Node
    → Result BackendError (Unit {0}) × Trail
move_to src dst dir root (ok there) = (err conflict, first_disk root)
move_to src dst dir root (err not_exist) = move_free src dst dir root
move_to src dst dir root (err e) = (err (map_err e), first_disk root)

abbrev pub has_kind : Bool → Node → Bool
has_kind true (folder es) = true
has_kind false (file content time) = true
has_kind want_dir n = false

-- `path.Dir`: behind a slash at the end there is an empty last element.
abbrev pub parent_of : Bytes → List Bytes
parent_of p = if ends_in p slash then names_of p else parents (names_of p)

unfoldable pub move : Bytes → Bytes → Bool → Node → Result BackendError (Unit {0}) × Trail
move src dst want_dir root = elim (stat root (names_of src)) [
  | err e ↦ (err (map_err e), first_disk root)
  | ok n ↦
      if not (has_kind want_dir n)
      then (err not_found, first_disk root)
      else if bytes_eq src dst
      then (ok tt, first_disk root)
      else move_to (names_of src) (names_of dst) (parent_of dst) root (stat root (names_of dst))
]

-- `MoveObject`
unfoldable pub move_object : Bytes → Bytes → Node → Result BackendError (Unit {0}) × Trail
move_object from to root = elim (clean_path from) [
  | err e ↦ (err e, first_disk root)
  | ok f ↦ elim (clean_path to) [ err e ↦ (err e, first_disk root) | ok t ↦ move f t false root ]
]

-- `MoveFolder`
unfoldable pub move_folder : Bytes → Bytes → Node → Result BackendError (Unit {0}) × Trail
move_folder from to root = elim (clean_folder from) [
  | err e ↦ (err e, first_disk root)
  | ok f ↦ elim (clean_folder to) [
    | err e ↦ (err e, first_disk root)
    | ok t ↦
        if has_prefix t f
        then (err (invalid_path into_itself), first_disk root)
        else move (dir_of f) (dir_of t) true root
  ]
]

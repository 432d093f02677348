-- ===== src/Filesystem.antt =====
-- internal/backend/filesystem/filesystem.go: objects as files below a root. An operation keeps the disks
-- that it passes through, so that what another request may see in between can be stated. The root itself
-- can be opened. A file's type by its name (package mime) and the suffix of a temporary name, the hex text
-- of random bytes, are arguments.
pub mod Disk
pub mod Writing
pub mod Objects
pub mod Listing
pub mod Abstract
mod Tests
use booth_storage.Base.{
  ℕ, zero, suc, ◌+◌, ◌-◌, ◌/◌, ◌%◌, Bool, true, false, not, ◌&&◌, ◌||◌, Option, none, some, List,
  [], ◌∷◌, ◌++◌, Bytes, codes, bytes_eq, any, split, join, has_prefix, trim_suffix, length, ltb,
  leb, Result, ok, err, ◌>>=◌, if◌then◌else◌,
}
use booth_storage.Backend.{
  BackendError, not_found, conflict, precondition_failed, invalid_range, invalid_path, outside_root,
  not_storable, into_itself, failed, ObjectInfo, ByteRange, WriteOptions,
}
use booth_storage.Backend.Path.{slash, clean_path, clean_folder}
use booth_storage.Filesystem.Disk.{
  OsError, not_exist, exist, not_dir, not_empty, escapes, invalid, Node, file, folder, special,
  Entries, vacant, entry, find_entry, assign, erase, stat, alter, add_new, mkdir, refill,
  drop_entry, drop_all, put_file,
}

abbrev pub temp_prefix : Bytes
temp_prefix = codes ".booth-tmp-"

-- `mapErr`
unfoldable pub map_err : OsError → BackendError
map_err not_exist = not_found
map_err not_dir = not_found
map_err escapes = invalid_path outside_root
map_err exist = failed (codes "file exists")
map_err not_empty = failed (codes "directory not empty")
map_err invalid = failed (codes "invalid argument")

-- `mapWriteErr`
unfoldable pub map_write_err : OsError → BackendError
map_write_err not_dir = conflict
map_write_err e = map_err e

-- Whether the file system of a root takes this path, which `fs.ValidPath` decides but for ".".
abbrev pub is_valid_path : (Bytes → Bool) → List Bytes → Bool
is_valid_path valid_path [] = true
is_valid_path valid_path (s ∷ at) = valid_path (join (s ∷ at) slash)

-- The disk now, and the ones before it, the latest first.
pub record Trail : Type 0 where
  pub now : Node
  pub past : List Node

abbrev pub step : Node → Trail → Trail
step n d = record { now = n; past = d.now ∷ d.past }

abbrev pub attempt : Result OsError Node → Trail → Result OsError (Unit {0}) × Trail
attempt (ok n) d = (ok tt, step n d)
attempt (err e) d = (err e, d)

-- `%x`
unfoldable pub hex_from : ℕ → ℕ → Bytes
hex_from zero n = []
hex_from (suc fuel) n =
    let digit = if ltb (n % 16) 10 then b'0' + n % 16 else 87 + n % 16 in
    let front = hex_from fuel (n / 16) in if ltb n 16 then digit ∷ [] else front ++ digit ∷ []

abbrev pub hex : ℕ → Bytes
hex n = hex_from (suc n) n

-- `infoFor` of a regular file.
unfoldable pub info_for : (Bytes → Bytes) → Bytes → Bytes → ℕ → ObjectInfo
info_for mime_type p content time = record {
  path = p;
  size = length content;
  mod_time = time;
  content_type = mime_type p;
  etag = codes "W/\"" ++ (hex time ++ (b'-' ∷ (hex (length content) ++ codes "\"")));
  is_dir = false;
}

-- All segments but the last, which is `path.Dir` of a clean path, and the last.
unfoldable pub parents : List Bytes → List Bytes
parents [] = []
parents (s ∷ []) = []
parents (s ∷ t ∷ path) = s ∷ parents (t ∷ path)

unfoldable pub leaf : List Bytes → Bytes
leaf [] = []
leaf (s ∷ []) = s
leaf (s ∷ t ∷ path) = leaf (t ∷ path)

abbrev pub must_be_folder : Result OsError Node → Result OsError (Unit {0})
must_be_folder (ok (folder es)) = ok tt
must_be_folder (ok n) = err not_dir
must_be_folder (err e) = err e

-- After `Root.Mkdir` at a path: what is there already must be a directory.
abbrev pub made : Trail → List Bytes → Result OsError Node → Result OsError (Unit {0}) × Trail
made d at (ok n) = (ok tt, step n d)
made d at (err exist) = (must_be_folder (stat d.now at), d)
made d at (err e) = (err e, d)

-- `mkdirAll`; `built` is the path that is made already.
unfoldable pub mkdir_all : List Bytes → List Bytes → Trail → Result OsError (Unit {0}) × Trail
mkdir_all built [] d = (ok tt, d)
mkdir_all built (s ∷ path) d =
    let (r, next) = made d (built ++ s ∷ []) (mkdir d.now built s) in
    elim r [ err e ↦ (err e, next) | ok _ ↦ mkdir_all (built ++ s ∷ []) path next ]

-- The copy of a body that arrives in pieces; `content` is what has arrived already.
unfoldable pub fill : List Bytes → Bytes → ℕ → Bytes → List Bytes → Trail → Trail
fill dir temp time content [] d = d
fill dir temp time content (piece ∷ pieces) d =
    fill dir temp time (content ++ piece) pieces
      (attempt (alter (refill temp (content ++ piece) time) d.now dir) d).1

abbrev pub remove_temp : List Bytes → Bytes → Trail → Trail
remove_temp dir temp d = (attempt (alter (drop_entry temp) d.now dir) d).1

-- `Root.Link` and `Root.Rename` of the temporary file to its name in the same directory.
unfoldable pub link_in : Bytes → Bytes → Entries → Result OsError Entries
link_in temp name es = elim (find_entry temp es) [
  | none ↦ err not_exist
  | some n ↦ add_new name n es
]

unfoldable pub rename_in : Bytes → Bytes → Entries → Result OsError Entries
rename_in temp name es = elim (find_entry temp es) [
  | none ↦ err not_exist
  | some n ↦ put_file name n (erase temp es)
]

-- After the temporary file is linked or renamed: a link leaves it behind, and so does a failure.
abbrev pub placed :
    Bool → List Bytes → Bytes → Trail → Result OsError Node → Result BackendError (Unit {0}) × Trail
placed true dir temp d (ok n) = (ok tt, remove_temp dir temp (step n d))
placed false dir temp d (ok n) = (ok tt, step n d)
placed true dir temp d (err exist) = (err precondition_failed, remove_temp dir temp d)
placed create_only dir temp d (err e) = (err (invalid_path not_storable), remove_temp dir temp d)

abbrev pub name_in : Bool → Bytes → Bytes → Entries → Result OsError Entries
name_in true = link_in
name_in false = rename_in

abbrev pub place :
    Bool → List Bytes → Bytes → Bytes → Trail → Result BackendError (Unit {0}) × Trail
place create_only dir temp name d =
    placed create_only dir temp d (alter (name_in create_only temp name) d.now dir)

-- The body of a write: its pieces, and whether the reader fails behind them.
pub record Body : Type 0 where
  pub pieces : List Bytes
  pub broken : Bool

-- What follows once the temporary file is there.
unfoldable pub write_temp :
    Bool → List Bytes → Bytes → Bytes → ℕ → Body → Trail → Result BackendError (Unit {0}) × Trail
write_temp create_only dir temp name time body d =
    let filled = fill dir temp time [] body.pieces d in
    if body.broken
    then (err (failed (codes "writing object")), remove_temp dir temp filled)
    else place create_only dir temp name filled

-- What follows once the directory is there.
unfoldable pub write_below :
    Bool → List Bytes → Bytes → Bytes → ℕ → Body → Trail → Result BackendError (Unit {0}) × Trail
write_below create_only dir temp name time body d =
    elim (alter (add_new temp (file [] time)) d.now dir) [
      | err e ↦ (err (map_write_err e), d)
      | ok n ↦ write_temp create_only dir temp name time body (step n d)
    ]

-- `Write` of an object at a clean path.
unfoldable pub write_at :
    Bool → List Bytes → Bytes → ℕ → Body → Node → Result BackendError (Unit {0}) × Trail
write_at create_only path suffix time body root =
    let (made, d) = mkdir_all [] (parents path) (record { now = root; past = [] }) in
    elim made [
      | err e ↦ (err (map_write_err e), d)
      | ok _ ↦
          write_below create_only (parents path) (temp_prefix ++ suffix) (leaf path) time body d
    ]

abbrev pub info_at : (Bytes → Bytes) → Bytes → Result OsError Node → Result BackendError ObjectInfo
info_at mime_type p (err e) = err (map_err e)
info_at mime_type p (ok (file content time)) = ok (info_for mime_type p content time)
info_at mime_type p (ok n) = err not_found

-- `Stat`
unfoldable pub stat_object : (Bytes → Bytes) → Bytes → Node → Result BackendError ObjectInfo
stat_object mime_type p root =
    clean_path p >>= λ clean. info_at mime_type clean (stat root (split clean slash))

-- `Write`
unfoldable pub write :
    (Bytes → Bytes)
    → WriteOptions
    → Bytes
    → Bytes
    → ℕ
    → Body
    → Node
    → Result BackendError ObjectInfo × Trail
write mime_type opts p suffix time body root = elim (clean_path p) [
  | err e ↦ (err e, record { now = root; past = [] })
  | ok clean ↦
      let (stored, d) = write_at opts.create_only (split clean slash) suffix time body root in
      elim stored [
        | err e ↦ (err e, d)
        | ok _ ↦ (info_at mime_type clean (stat d.now (split clean slash)), d)
      ]
]

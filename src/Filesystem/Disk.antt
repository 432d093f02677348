-- ===== src/Filesystem/Disk.antt =====
-- The disk below a registered root, as far as internal/backend/filesystem/filesystem.go reads and changes
-- it: a tree of regular files with their content and time, directories in the order of their names, and
-- special files (devices, sockets), which are never objects. Symbolic links and faults of the device are
-- not modelled. A path below the root is the list of its segments.
pub mod Lookup
pub mod Change
pub mod Graft
pub mod Tidy
use booth_storage.Base.{
  ℕ, Bool, true, false, Option, none, some, List, [], ◌∷◌, ◌++◌, Bytes, bytes_eq, Result, ok, err,
  ◌>>=◌, if◌then◌else◌,
}
use booth_storage.Base.Assoc.{bytes_lt}

pub data OsError : Type 0 where
  not_exist exist not_dir not_empty escapes invalid : OsError

mutual
  pub data Node : Type 0 where
    file : Bytes → ℕ → Node
    folder : Entries → Node
    special : Node

  pub data Entries : Type 0 where
    vacant : Entries
    entry : Bytes → Node → Entries → Entries

unfoldable pub find_entry : Bytes → Entries → Option Node
find_entry name vacant = none
find_entry name (entry other n es) = if bytes_eq other name then some n else find_entry name es

-- An entry is replaced where its name is there, and goes in at the place of its name where it is not.
unfoldable pub assign : Bytes → Node → Entries → Entries
assign name n vacant = entry name n vacant
assign name n (entry other m es) =
    let rest = assign name n es in
    if bytes_eq other name
    then entry name n es
    else if bytes_lt name other
    then entry name n (entry other m es)
    else entry other m rest

unfoldable pub erase : Bytes → Entries → Entries
erase name vacant = vacant
erase name (entry other n es) =
    let rest = erase name es in if bytes_eq other name then rest else entry other n rest

-- `Root.Stat` and `Root.Lstat`
unfoldable pub stat : Node → List Bytes → Result OsError Node
stat n [] = ok n
stat (file content time) (s ∷ path) = err not_dir
stat special (s ∷ path) = err not_dir
stat (folder es) (s ∷ path) = elim (find_entry s es) [ none ↦ err not_exist | some n ↦ stat n path ]

-- A change of the directory at a path.
unfoldable pub alter : (Entries → Result OsError Entries) → Node → List Bytes → Result OsError Node
alter f (file content time) path = err not_dir
alter f special path = err not_dir
alter f (folder es) [] = f es >>= λ changed. ok (folder changed)
alter f (folder es) (s ∷ path) = elim (find_entry s es) [
  | none ↦ err not_exist
  | some n ↦ alter f n path >>= λ m. ok (folder (assign s m es))
]

-- A new entry, which must not be there: `Root.Mkdir`, and `Root.OpenFile` with `O_EXCL`.
unfoldable pub add_new : Bytes → Node → Entries → Result OsError Entries
add_new name n es = elim (find_entry name es) [ some _ ↦ err exist | none ↦ ok (assign name n es) ]

abbrev pub mkdir : Node → List Bytes → Bytes → Result OsError Node
mkdir root dir name = alter (add_new name (folder vacant)) root dir

-- The file that a descriptor is open on is written.
unfoldable pub refill : Bytes → Bytes → ℕ → Entries → Result OsError Entries
refill name content time es = ok (assign name (file content time) es)

abbrev pub is_vacant : Node → Bool
is_vacant (folder (entry name n es)) = false
is_vacant n = true

-- `Root.Remove`: a file, or an empty directory.
unfoldable pub drop_entry : Bytes → Entries → Result OsError Entries
drop_entry name es = elim (find_entry name es) [
  | none ↦ err not_exist
  | some n ↦ if is_vacant n then ok (erase name es) else err not_empty
]

-- `Root.RemoveAll`: with all that is below; what is missing is no error.
unfoldable pub drop_all : Bytes → Entries → Result OsError Entries
drop_all name es = ok (erase name es)

-- Where a file is renamed to: in place of a file, or as a new entry, not in place of a directory.
unfoldable pub put_file : Bytes → Node → Entries → Result OsError Entries
put_file name n es = elim (find_entry name es) [
  | some (folder _) ↦ err exist
  | some _ ↦ ok (assign name n es)
  | none ↦ ok (assign name n es)
]

-- What a rename may replace: an empty directory by a directory.
abbrev pub replaces : Node → Node → Bool
replaces (folder es) (folder vacant) = true
replaces n m = false

-- Where a file or a directory is moved to.
unfoldable pub put_over : Bytes → Node → Entries → Result OsError Entries
put_over name n es = elim (find_entry name es) [
  | none ↦ ok (assign name n es)
  | some m ↦ if replaces n m then ok (assign name n es) else err exist
]

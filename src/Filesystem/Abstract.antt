-- ===== src/Filesystem/Abstract.antt =====
-- The objects of internal/backend/filesystem/filesystem.go as a map from paths to files, and commands on
-- it: `Write`, `DeleteObject` and `MoveObject`.
pub mod Steps
pub mod Refines
use booth_storage.Base.{
  ℕ, Bool, true, false, Option, none, some, List, [], ◌∷◌, ◌++◌, Bytes, any, has_prefix, split,
  Result, ok, err, if◌then◌else◌,
}
use booth_storage.Backend.{BackendError, WriteOptions}
use booth_storage.Backend.Path.{slash}
use booth_storage.Filesystem.{temp_prefix, Trail, Body, write}
use booth_storage.Filesystem.Disk.{Node}
use booth_storage.Filesystem.Disk.Lookup.{File}
use booth_storage.Filesystem.Disk.Change.{path_eq}
use booth_storage.Filesystem.Disk.Graft.{strip, grafted}
use booth_storage.Filesystem.Writing.{concat}
use booth_storage.Filesystem.Objects.{delete_object, move_object}

abbrev pub Objects : Type 0
Objects = List Bytes → Option File

pub data Command : Type 0 where
  put_object : WriteOptions → Bytes → Bytes → ℕ → Body → Command
  drop_object : Bytes → Command
  move_one : Bytes → Bytes → Command

-- What a command that succeeds does to the map.
unfoldable pub effect : Command → Objects → Objects
effect (put_object opts p suffix time body) m q =
    if path_eq (split p slash) q then some (concat body.pieces, time) else m q
effect (drop_object p) m q = if path_eq (split p slash) q then none else m q
effect (move_one from to) m q =
    grafted (λ r. m (split from slash ++ r))
      (grafted (λ r. none) (m q) (strip (split from slash) q)) (strip (split to slash) q)

abbrev pub result_of {ℓ} : {A : Type ℓ} → Result BackendError A × Trail → Bool × Node
result_of (ok a, d) = (true, d.now)
result_of (err e, d) = (false, d.now)

-- Whether a command succeeds on the disk, and the disk behind it.
unfoldable pub run : (Bytes → Bytes) → Command → Node → Bool × Node
run mime_type (put_object opts p suffix time body) root =
    result_of (write mime_type opts p suffix time body root)
run mime_type (drop_object p) root = result_of (delete_object p root)
run mime_type (move_one from to) root = result_of (move_object from to root)

unfoldable pub run_all : (Bytes → Bytes) → List Command → Node → List Bool × Node
run_all mime_type [] root = ([], root)
run_all mime_type (c ∷ cs) root =
    let (good, next) = run mime_type c root in
    let (goods, last) = run_all mime_type cs next in (good ∷ goods, last)

-- The map behind these commands, of which those succeed that are marked.
unfoldable pub effects : List Command → List Bool → Objects → Objects
effects (c ∷ cs) (true ∷ goods) m = effects cs goods (effect c m)
effects (c ∷ cs) (false ∷ goods) m = effects cs goods m
effects cs goods m = m

-- A segment begins like a temporary name.
abbrev pub has_temp : List Bytes → Bool
has_temp path = any (λ s. has_prefix s temp_prefix) path

-- ===== src/Backend.antt =====
-- internal/backend/backend.go: the storage kinds, the sentinel errors, the options of a call and
-- the entity tag helper. The path rules and the folder operations of flat stores are the children.
-- An error that wraps a sentinel is the sentinel's constructor; the message text is not modelled,
-- but each rule of the path checks keeps a constructor of its own (`PathFault`).
pub mod Path
pub mod Options
pub mod Flat
mod Tests
use booth_storage.Base.{ℕ, Bool, false, List, [], ◌∷◌, ◌||◌, Bytes, codes, bytes_eq, ℤ}

pub data PathFault : Type 0 where
  path_empty too_long forbidden_byte empty_segment dot_segment trailing_slash : PathFault
  folder_required into_itself outside_root not_storable : PathFault

pub data BackendError : Type 0 where
  not_found conflict precondition_failed invalid_range canceled : BackendError
  invalid_path : PathFault → BackendError
  too_many_objects : ℕ → BackendError
  failed : Bytes → BackendError

-- `Kind` is a string type in Go, so that a request may carry any text.
abbrev pub Kind : Type 0
Kind = Bytes

abbrev pub kind_s3 : Kind
kind_s3 = codes "s3"

abbrev pub kind_filesystem : Kind
kind_filesystem = codes "filesystem"

abbrev pub kind_azure : Kind
kind_azure = codes "azure"

abbrev pub kind_gcs : Kind
kind_gcs = codes "gcs"

abbrev pub kinds : List Kind
kinds = kind_s3 ∷ kind_filesystem ∷ kind_azure ∷ kind_gcs ∷ []

is_known : Kind → List Kind → Bool
is_known k [] = false
is_known k (known ∷ rest) = bytes_eq k known || is_known k rest

-- `Kind.Valid`
unfoldable pub kind_valid : Kind → Bool
unfolding is_known
kind_valid k = is_known k kinds

-- `ObjectInfo`; the modification time is a number of nanoseconds, zero where it is not set.
pub record ObjectInfo : Type 0 where
  pub path : Bytes
  pub size : ℕ
  pub mod_time : ℕ
  pub content_type : Bytes
  pub etag : Bytes
  pub is_dir : Bool

pub record ListOptions : Type 0 where
  pub prefix : Bytes
  pub recursive : Bool
  pub limit : ℤ
  pub cursor : Bytes
  pub include_folder_markers : Bool

pub record ListResult : Type 0 where
  pub entries : List ObjectInfo
  pub next_cursor : Bytes

pub record WriteOptions : Type 0 where
  pub content_type : Bytes
  pub create_only : Bool

-- `ByteRange`, with `End` inclusive.
pub record ByteRange : Type 0 where
  pub start : ℕ
  pub end : ℕ

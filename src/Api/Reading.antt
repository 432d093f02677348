-- ===== src/Api/Reading.antt =====
-- The handlers of internal/api/server.go that read objects. A call on the open backend is a parameter; what
-- is sent is the status, the range and the length that the headers name.
pub mod Served
use booth_storage.Base.{
  ℕ, ◌+◌, ◌-◌, suc, zero, ℤ, pos, negsuc, Bool, true, false, not, ◌&&◌, Option, none, some, List,
  [], ◌∷◌, ◌++◌, Bytes, codes, bytes_eq, trim_prefix, Result, ok, err, if◌then◌else◌,
}
use booth_storage.Backend.{BackendError, ObjectInfo, ByteRange, ListOptions, ListResult}
use booth_storage.Api.{backend_status}
use booth_storage.Api.Ranges.{Ranged, ignored, unsatisfiable, satisfied, parse_range, parse_int}

-- What an open backend answers.
pub record Reads : Type 0 where
  pub stat : Bytes → Result BackendError ObjectInfo
  pub read : Bytes → Result BackendError ObjectInfo
  pub read_range : Bytes → ByteRange → Result BackendError ObjectInfo
  pub list : ListOptions → Result BackendError ListResult

-- What is sent: an error's status, the object with the length that is announced, a part of it with the
-- total, or the total alone.
pub data Reply : Type 0 where
  error : ℕ → Reply
  whole : ℕ → Reply
  part : ByteRange → ℕ → ℕ → Reply
  out_of_range : ℕ → Reply
  listing : ListResult → Reply

-- `objectPath`
unfoldable pub object_path : Bytes → Bytes → Bytes
object_path url id = trim_prefix url (codes "/api/backends/" ++ (id ++ codes "/objects/"))

-- `serveWholeObject`
unfoldable pub serve_whole : Reads → Bytes → Reply
serve_whole b path = elim (b.read path) [
  | err e ↦ error (backend_status e)
  | ok info ↦ whole info.size
]

-- `serveObjectRange`
unfoldable pub serve_range : Reads → Bytes → ByteRange → ℕ → Reply
serve_range b path r total = elim (b.read_range path r) [
  | err e ↦ error (backend_status e)
  | ok _ ↦ part r (r.end - r.start + 1) total
]

unfoldable pub serve : Reads → Bytes → ℕ → Ranged → Reply
serve b path size unsatisfiable = out_of_range size
serve b path size ignored = serve_whole b path
serve b path size (satisfied r) = serve_range b path r size

-- `handleReadObject` behind the opening of the backend.
unfoldable pub read_object : Reads → Bytes → Bytes → Reply
read_object b path range = if bytes_eq range [] then serve_whole b path else elim (b.stat path) [
  | err e ↦ error (backend_status e)
  | ok info ↦ serve b path info.size (parse_range range info.size)
]

-- `handleStatObject` behind the opening of the backend.
unfoldable pub stat_object : Reads → Bytes → Reply
stat_object b path = elim (b.stat path) [
  | err e ↦ error (backend_status e)
  | ok info ↦ whole info.size
]

-- The limit of a listing: `strconv.Atoi` and a lower bound of 1; 0 where the query names none.
unfoldable pub listing_limit : Bytes → Option ℤ
listing_limit [] = some (pos 0)
listing_limit (c ∷ s) = elim (parse_int (c ∷ s)) [
  | none ↦ none
  | some (negsuc _) ↦ none
  | some (pos zero) ↦ none
  | some (pos (suc n)) ↦ some (pos (suc n))
]

-- `handleListObjects` behind the opening of the backend.
unfoldable pub list_objects : Reads → Bytes → Bytes → Bytes → Bytes → Reply
list_objects b prefix cursor recursive limit = elim (listing_limit limit) [
  | none ↦ error 400
  | some n ↦
      elim (b.list (record {
        prefix = prefix;
        recursive = bytes_eq recursive (codes "true");
        limit = n;
        cursor = cursor;
        include_folder_markers = false;
      })) [ err e ↦ error (backend_status e) | ok result ↦ listing result ]
]

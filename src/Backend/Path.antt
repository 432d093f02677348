-- ===== src/Backend/Path.antt =====
-- The path rules of internal/backend/backend.go: `CleanPath`, `CleanPrefix`, `CleanFolder` and
-- `checkSegments`.
pub mod Rules
pub mod Prefix
use booth_storage.Base.{
  ℕ, Bool, List, [], ◌∷◌, ◌++◌, ◌||◌, Bytes, codes, bytes_eq, ends_in, trim_suffix, split, any,
  length, ltb, ◌==◌, if◌then◌else◌, Result, ok, err, ◌>>=◌, ◌>>◌, refuse_if,
}
use booth_storage.Backend.{
  BackendError, invalid_path, path_empty, too_long, forbidden_byte, empty_segment, dot_segment,
  trailing_slash, folder_required,
}

abbrev pub slash : ℕ
slash = b'/'

abbrev pub backslash : ℕ
backslash = 92

abbrev pub max_path_len : ℕ
max_path_len = 1024

-- `strings.ContainsAny(p, "\x00\\")`
abbrev pub is_forbidden : ℕ → Bool
is_forbidden c = c == 0 || c == backslash

-- The loop of `checkSegments`.
unfoldable pub check_each : List Bytes → Result BackendError (Unit {0})
check_each [] = ok tt
check_each (seg ∷ segs) =
    let rest = check_each segs in
    if bytes_eq seg []
    then err (invalid_path empty_segment)
    else if bytes_eq seg (codes ".") || bytes_eq seg (codes "..")
    then err (invalid_path dot_segment)
    else rest

unfoldable pub check_segments : Bytes → Result BackendError (Unit {0})
check_segments p = do
  refuse_if (ltb max_path_len (length p)) (invalid_path too_long)
  refuse_if (any is_forbidden p) (invalid_path forbidden_byte)
  check_each (split (trim_suffix p slash) slash)

unfoldable pub clean_path : Bytes → Result BackendError Bytes
clean_path p = do
  refuse_if (bytes_eq p []) (invalid_path path_empty)
  check_segments p
  refuse_if (ends_in p slash) (invalid_path trailing_slash)
  ok p

unfoldable pub clean_prefix : Bytes → Result BackendError Bytes
clean_prefix p =
    let trimmed = trim_suffix p slash in
    if bytes_eq trimmed [] then ok [] else do check_segments trimmed; ok (trimmed ++ slash ∷ [])

unfoldable pub clean_folder : Bytes → Result BackendError Bytes
clean_folder p = do
  prefix ← clean_prefix p
  refuse_if (bytes_eq prefix []) (invalid_path folder_required)
  ok prefix

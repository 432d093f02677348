-- ===== src/UploadGrant.antt =====
-- internal/uploadgrant/model.go: upload grants and the validation of their fields. A validation error
-- is the field that it names; message texts are not modelled.
pub mod Principals
pub mod Extensions
pub mod Store
pub mod Service
mod Tests
use booth_storage.Base.{
  ℕ, ℤ, Bool, true, false, not, ◌&&◌, ◌||◌, Option, none, some, List, [], ◌∷◌, ◌++◌, Bytes, codes,
  bytes_eq, contains, length, leb, ◌==◌, all, to_lower, trim_prefix, has_suffix, after_last, Result,
  ok, err, if◌then◌else◌,
}
use booth_storage.Base.Pattern.{is_lower_digit, slug_then}

pub data Field : Type 0 where
  principal backend_id prefix extensions max_bytes : Field

pub data GrantError : Type 0 where
  invalid : Field → GrantError
  not_found : GrantError
  failed : Bytes → GrantError

-- `Grant`; the creation time is in microseconds.
pub record Grant : Type 0 where
  pub id : Bytes
  pub workspace : Bytes
  pub principal : Bytes
  pub backend_id : Bytes
  pub prefix : Bytes
  pub extensions : List Bytes
  pub max_bytes : ℤ
  pub granted_by : Bytes
  pub created_at : ℕ

-- `[A-Za-z0-9._-]`
abbrev pub is_app_byte : ℕ → Bool
is_app_byte c =
    is_lower_digit c || (leb b'A' c && leb c b'Z') || c == b'.' || c == b'_' || c == b'-'

-- `[A-Za-z0-9._-]{1,128}`
unfoldable pub is_app_id : Bytes → Bool
is_app_id s = leb 1 (length s) && leb (length s) 128 && all is_app_byte s

-- `principalRE` and `principalWorkspace`
unfoldable pub principal_workspace : Bytes → Option Bytes
principal_workspace p = elim (slug_then (codes "streamlit:") b':' p) [
  | none ↦ none
  | some (workspace, app) ↦ if is_app_id app then some workspace else none
]

unfoldable pub validate_principal : Bytes → Bytes → Result GrantError (Unit {0})
validate_principal p workspace = elim (principal_workspace p) [
  | none ↦ err (invalid principal)
  | some ws ↦
      if has_suffix p (codes ":grants")
      then err (invalid principal)
      else if bytes_eq ws workspace
      then ok tt
      else err (invalid principal)
]

-- `extensionRE`: `^[a-z0-9]{1,15}$`
unfoldable pub is_extension : Bytes → Bool
is_extension e = leb 1 (length e) && leb (length e) 15 && all is_lower_digit e

abbrev pub normalize_extension : Bytes → Bytes
normalize_extension e = to_lower (trim_prefix e (codes "."))

-- The loop of `ValidateExtensions`; `seen` in Go is the set of what is in `out`.
unfoldable pub collect_extensions : List Bytes → List Bytes → Result GrantError (List Bytes)
collect_extensions out [] = ok out
collect_extensions out (e ∷ es) =
    let ext = normalize_extension e in
    let rest = collect_extensions (if contains out ext then out else out ++ ext ∷ []) es in
    if is_extension ext then rest else err (invalid extensions)

unfoldable pub validate_extensions : List Bytes → Result GrantError (List Bytes)
validate_extensions [] = err (invalid extensions)
validate_extensions (e ∷ es) = collect_extensions [] (e ∷ es)

-- `HasExtension`
unfoldable pub has_extension : Bytes → List Bytes → Bool
has_extension name exts = elim (after_last name b'.') [
  | none ↦ false
  | some ext ↦ if bytes_eq ext [] then false else contains exts (to_lower ext)
]

-- ===== src/UploadGrant/Service.antt =====
-- internal/uploadgrant/service.go over the store in memory: creating grants and the admission lookup.
-- The new ID (a random UUID) and the clock's reading are arguments.
pub mod Admission
pub mod Creation
use booth_storage.Base.{
  ℕ, suc, ℤ, pos, negsuc, Bool, true, false, not, ◌&&◌, Option, none, some, List, [], ◌∷◌, ◌++◌,
  Bytes, codes, bytes_eq, trim_space, ◌==◌, Result, ok, err, if◌then◌else◌, take, length,
  after_last, ◌-◌, ◌>>=◌, refuse_if,
}
use booth_storage.Backend.Path.{slash, clean_prefix}
use booth_storage.UploadGrant.{
  Grant, GrantError, invalid, backend_id, prefix, extensions, max_bytes, validate_principal,
  validate_extensions,
}
use booth_storage.UploadGrant.Store.{Grants, upsert, list}

pub record CreateInput : Type 0 where
  pub principal : Bytes
  pub backend_id : Bytes
  pub prefix : Bytes
  pub extensions : List Bytes
  pub max_bytes : ℤ

unfoldable pub is_positive : ℤ → Bool
is_positive (pos n) = not (n == 0)
is_positive (negsuc n) = false

abbrev pub new_grant : Bytes → ℕ → Bytes → Bytes → CreateInput → Bytes → List Bytes → Grant
new_grant id now workspace granted_by i cleaned exts = record {
  id = id;
  workspace = workspace;
  principal = i.principal;
  backend_id = i.backend_id;
  prefix = cleaned;
  extensions = exts;
  max_bytes = i.max_bytes;
  granted_by = granted_by;
  created_at = now;
}

unfoldable pub checked_prefix : Bytes → Result GrantError Bytes
checked_prefix p = elim (clean_prefix p) [ err _ ↦ err (invalid prefix) | ok cleaned ↦ ok cleaned ]

-- The checks of `Create` and the grant that it stores.
unfoldable pub build_grant : Bytes → ℕ → Bytes → Bytes → CreateInput → Result GrantError Grant
build_grant id now workspace granted_by i = validate_principal i.principal workspace >>= λ _.
    refuse_if (bytes_eq (trim_space i.backend_id) []) (invalid backend_id) >>= λ _.
    checked_prefix i.prefix >>= λ cleaned. validate_extensions i.extensions >>= λ exts.
    refuse_if (not (is_positive i.max_bytes)) (invalid max_bytes) >>= λ _.
    ok (new_grant id now workspace granted_by i cleaned exts)

unfoldable pub create :
    Bytes → ℕ → Bytes → Bytes → CreateInput → Grants → Result GrantError Grant × Grants
create id now workspace granted_by i gs = elim (build_grant id now workspace granted_by i) [
  | err e ↦ (err e, gs)
  | ok g ↦ (ok g, upsert g gs)
]

-- `dirOf`: up to and with the last slash.
unfoldable pub dir_of : Bytes → Bytes
dir_of [] = []
dir_of (c ∷ path) =
    let rest = dir_of path in
    if c == slash then c ∷ rest else if bytes_eq rest [] then [] else c ∷ rest

-- The loop of `MatchForUpload`.
unfoldable pub find_match : Bytes → Bytes → Grants → Option Grant
find_match backend dir [] = none
find_match backend dir (g ∷ gs) =
    if bytes_eq g.backend_id backend && bytes_eq g.prefix dir
    then some g
    else find_match backend dir gs

unfoldable pub match_for_upload : Bytes → Bytes → Bytes → Bytes → Grants → Option Grant
match_for_upload workspace principal backend path gs =
    find_match backend (dir_of path) (list workspace principal gs)

-- ===== src/UploadGrant/Tests.antt =====
-- Instances of the theorems about upload grants.
use booth_storage.Base.{
  ◌≡◌, ◌≢◌, refl, true, none, some, [], ◌∷◌, Bytes, codes, bytes_eq, contains, cut_prefix, cut,
  trim_prefix, All, pos, arith, ok, split, trim_suffix, ends_in, trim_space, has_suffix,
}
use booth_storage.Base.Pattern.{is_slug, slug_then}
use booth_storage.Backend.Path.{clean_prefix, check_segments, check_each}
use booth_storage.UploadGrant.{
  Grant, is_app_id, principal_workspace, validate_principal, is_extension, collect_extensions,
  validate_extensions,
}
use booth_storage.UploadGrant.Extensions.{Distinct, normalized, validate_extensions_sound}
use booth_storage.UploadGrant.Store.{scope_key, drop_scope, drop_id, upsert, delete_by_principal}
use booth_storage.UploadGrant.Store.Laws.{IsUnique, Apart, upsert-IsUnique}
use booth_storage.UploadGrant.Service.{
  CreateInput, create, build_grant, checked_prefix, is_positive, dir_of, match_for_upload,
}
use booth_storage.UploadGrant.Service.Admission.{
  In, Admits, match_for_upload_lem, revoked-never_admitted,
}

runs : Unit {0}
unfolding validate_principal principal_workspace is_app_id collect_extensions validate_extensions
    is_extension create build_grant checked_prefix is_positive clean_prefix check_segments
    check_each bytes_eq split trim_suffix ends_in slug_then is_slug upsert drop_scope drop_id
    scope_key dir_of cut_prefix cut has_suffix trim_space trim_prefix contains
runs = tt

abbrev app : Bytes
app = codes "streamlit:lab:plot"

abbrev lab : Bytes
lab = codes "lab"

abbrev wanted : CreateInput
wanted = record {
  principal = app;
  backend_id = codes "s3";
  prefix = codes "in";
  extensions = codes ".CSV" ∷ codes "csv" ∷ [];
  max_bytes = pos 10;
}

abbrev granted : Grant
granted = record {
  id = codes "g1";
  workspace = lab;
  principal = app;
  backend_id = codes "s3";
  prefix = codes "in/";
  extensions = codes "csv" ∷ [];
  max_bytes = pos 10;
  granted_by = codes "ada";
  created_at = 7;
}

named : app ≢ []
named = ground arith

valid_extensions : validate_extensions wanted.extensions ≡ ok (codes "csv" ∷ [])
unfolding runs
valid_extensions = refl

validate_extensions_sound_example :
    (wanted.extensions ≢ [])
    × All (λ e. is_extension e ≡ true) (codes "csv" ∷ [])
    × Distinct (codes "csv" ∷ [])
    × ((x : Bytes) → contains (codes "csv" ∷ []) x ≡ contains (normalized wanted.extensions) x)
validate_extensions_sound_example =
    validate_extensions_sound wanted.extensions (codes "csv" ∷ []) valid_extensions

one-IsUnique : IsUnique (granted ∷ [])
unfolding IsUnique Apart
one-IsUnique = (tt, tt)

upsert-IsUnique_example : IsUnique (upsert granted (granted ∷ []))
upsert-IsUnique_example = upsert-IsUnique granted (granted ∷ []) one-IsUnique

match_for_upload_lem_example :
    ((g : Grant)
      → match_for_upload lab app (codes "s3") (codes "in/a.csv") (granted ∷ []) ≡ some g
      → In g (granted ∷ []) × Admits lab app (codes "s3") (codes "in/a.csv") g)
    × (match_for_upload lab app (codes "s3") (codes "in/a.csv") (granted ∷ []) ≡ none
        → (g : Grant) → In g (granted ∷ [])
        → ¬ (Admits lab app (codes "s3") (codes "in/a.csv") g))
match_for_upload_lem_example =
    match_for_upload_lem lab app (codes "s3") (codes "in/a.csv") (granted ∷ []) named

revoked-never_admitted_example :
    match_for_upload lab app
      (codes "s3")
      (codes "in/a.csv")
      (delete_by_principal lab app (granted ∷ [])).1
    ≡ none
revoked-never_admitted_example =
    revoked-never_admitted lab app (codes "s3") (codes "in/a.csv") (granted ∷ []) named

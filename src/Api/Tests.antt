-- ===== src/Api/Tests.antt =====
-- Instances of the theorems about the handlers.
use booth_storage.Base.{
  Option, trim_space, ◌+◌, ◌≡◌, ◌≢◌, ◌⊎◌, refl, inl, pos, true, false, some, [], ◌∷◌, Bytes, codes,
  bytes_eq, contains, cut, cut_prefix, split, trim_suffix, ends_in, after_last, ok, err,
}
use booth_storage.Base.Assoc.{find, remove}
use booth_storage.Base.Pattern.{is_slug}
use booth_storage.Backend.{ByteRange, ObjectInfo, kind_filesystem, precondition_failed, not_found}
use booth_storage.Backend.Path.{clean_path, check_segments, check_each}
use booth_storage.Auth.{
  Identity, admitted, role_viewer, role_owner, role_grants_service, can_write, is_admin,
  is_grants_service,
}
use booth_storage.Auth.{
  Claims, Headers, middleware, admit_claims, admit_member, grants_service_workspace,
  grants_service_match, role_in_workspace, best_role, better, group_match, rank, effective_role,
  bearer_token,
}
use booth_storage.Auth.Tokens.{IdToken, verify, named_claims}
use booth_storage.Base.Pattern.{slug_then}
use booth_storage.Api.Writing.Uploads.{write_needs_standing}
use booth_storage.UploadGrant.{Grant, validate_principal, has_extension}
use booth_storage.UploadGrant.Store.{keep, sort_by_id, insert_by_id, list, delete_by_principal}
use booth_storage.UploadGrant.Service.{is_positive, dir_of, find_match, match_for_upload}
use booth_storage.UploadGrant.Service.Admission.{In}
use booth_storage.Registry.{Record, validate_workspace, supports_create_only}
use booth_storage.Registry.Metadata.{Records, Secrets, key, memory, get_record}
use booth_storage.Registry.Service.{Platform, State, get, root_ready}
use booth_storage.Registry.Opening.{cached_for, open_creds, build, open_backend}
use booth_storage.Api.Ranges.{
  satisfied, parse_range, parse_spec, from_range, bounded_range, parse_int, magnitude, digits,
  within, unsigned,
}
use booth_storage.Api.Ranges.Bounds.{IsWithin, parse_range-IsWithin}
use booth_storage.Api.Reading.{Reads, part, serve, serve_range, read_object}
use booth_storage.Api.Reading.Served.{read_object-part}
use booth_storage.Api.Routes.{
  Route, IsOwn, is_public, enter, handled, handled_openly, answered, service-enter,
}
use booth_storage.Api.Grants.{may_revoke, revoke_principal_lem}
use booth_storage.Api.Writing.{
  WriteRequest, Plan, body_limit, wants_create_only, admit_grant, cleaned, check_create_only,
  opened, admit, plan,
}
use booth_storage.Api.Writing.Admission.{in_store, IsLetIn, IsProven}

ranges : Unit {0}
unfolding parse_range parse_spec from_range bounded_range parse_int magnitude digits within unsigned
    bytes_eq cut cut_prefix serve serve_range read_object
ranges = tt

abbrev middle : ByteRange
middle = record { start = 2; end = 5 }

parsed : parse_range (codes "bytes=2-5") 10 ≡ satisfied middle
unfolding ranges
parsed = refl

parse_range-IsWithin_example : IsWithin 10 middle
parse_range-IsWithin_example = parse_range-IsWithin (codes "bytes=2-5") 10 middle parsed

abbrev ten : ObjectInfo
ten = record {
  path = codes "a";
  size = 10;
  mod_time = 0;
  content_type = [];
  etag = [];
  is_dir = false;
}

abbrev stored : Reads
stored = record {
  stat = λ path. ok ten;
  read = λ path. ok ten;
  read_range = λ path r. ok ten;
  list = λ opts. err not_found;
}

served : read_object stored (codes "a") (codes "bytes=2-5") ≡ part middle 4 10
unfolding ranges
served = refl

read_object-part_example :
    (info : ObjectInfo) × (stored.stat (codes "a") ≡ ok info)
    × (10 ≡ info.size)
    × IsWithin 10 middle
    × (4 + 2 ≡ 5 + 1)
read_object-part_example =
    read_object-part stored (codes "a") (codes "bytes=2-5") middle 4 10 served

abbrev service : Identity
service = record {
  subject = codes "streamlit:lab:grants";
  workspace = codes "lab";
  role = role_grants_service;
}

is_service : is_grants_service service ≡ true
unfolding is_grants_service bytes_eq
is_service = refl

service-enter_example :
    (IsOwn Route.write_object × (enter Route.write_object (admitted service) ≡ handled service))
    ⊎ ((is_public Route.write_object ≡ true)
        × (enter Route.write_object (admitted service) ≡ handled_openly))
    ⊎ (¬ (IsOwn Route.write_object)
        × (is_public Route.write_object ≡ false)
        × (enter Route.write_object (admitted service) ≡ answered 403))
service-enter_example = service-enter Route.write_object service is_service

abbrev app : Bytes
app = codes "streamlit:lab:plot"

abbrev granted : Grant
granted = record {
  id = codes "g1";
  workspace = codes "lab";
  principal = app;
  backend_id = codes "disk";
  prefix = codes "in/";
  extensions = codes "csv" ∷ [];
  max_bytes = pos 10;
  granted_by = codes "ada";
  created_at = 7;
}

abbrev owner : Identity
owner = record { subject = codes "ada"; workspace = codes "lab"; role = role_owner }

held : In granted (granted ∷ [])
unfolding In
held = inl refl

gone : ¬ (In granted (booth_storage.Api.Grants.revoke_principal owner app (granted ∷ [])).1)
unfolding In booth_storage.Api.Grants.revoke_principal may_revoke is_admin bytes_eq
    delete_by_principal keep
gone h = h

revoke_principal_lem_example :
    (codes "lab" ≡ codes "lab")
    × (app ≡ app)
    × ((is_admin owner ≡ true)
        ⊎ ((is_grants_service owner ≡ true) × (validate_principal app (codes "lab") ≡ ok tt)))
revoke_principal_lem_example = revoke_principal_lem owner app (granted ∷ []) granted held gone

abbrev platform : Platform Bytes
platform = record {
  normalize_config = λ kind raw workspace. ok raw;
  build_backend = λ kind config creds workspace. ok config;
  check_root = λ config create. ok root_ready;
  service_account = λ text. ok tt;
  check = λ b. ok tt;
  first_write = λ b. ok tt;
  second_write = λ b. err precondition_failed;
}

abbrev disk : Record
disk = record {
  workspace = codes "lab";
  id = codes "disk";
  display_name = codes "disk";
  kind = kind_filesystem;
  config = codes "{}";
  has_credentials = false;
  create_only_verified = false;
  created_by = codes "ada";
  created_at = 5;
  updated_at = 5;
}

abbrev state : State Records Secrets Bytes
state = record { meta = (codes "lab/disk", disk) ∷ []; creds = []; cache = [] }

abbrev upload : WriteRequest
upload = record {
  identity = record { subject = app; workspace = codes "lab"; role = role_viewer };
  backend_id = codes "disk";
  path = codes "in/a.csv";
  if_none_match = codes "*";
  content_type = [];
}

abbrev made : Plan Bytes
made = record {
  client = codes "{}";
  path = codes "in/a.csv";
  create_only = true;
  grant = some granted;
  limit = pos 10;
}

planned : (plan memory platform (in_store (granted ∷ [])) (pos 50) 8 9 upload state).0 ≡ ok made
unfolding plan admit cleaned admit_grant check_create_only opened body_limit wants_create_only
    can_write clean_path check_segments check_each split trim_suffix ends_in bytes_eq
    match_for_upload find_match list keep sort_by_id insert_by_id dir_of has_extension contains
    is_positive get get_record find remove key validate_workspace is_slug supports_create_only
    open_backend cached_for build open_creds after_last
planned = refl

abbrev checked_token : IdToken
checked_token = record {
  subject = app;
  groups = some (codes "/workspaces/lab/viewer" ∷ []);
  booth_module = some (codes "streamlit");
}

abbrev issuer : Bytes → Option Bytes
issuer token = some (codes "core")

abbrev trusted : Bytes → Option (Bytes → Option IdToken)
trusted name = some (λ token. some checked_token)

abbrev headers : Headers
headers = record {
  authorization = codes "Bearer t";
  booth_workspace = codes "lab";
  booth_role = [];
}

entered : middleware (verify issuer trusted) headers ≡ admitted upload.identity
unfolding middleware admit_claims admit_member grants_service_workspace grants_service_match
    role_in_workspace best_role better group_match rank effective_role bearer_token bytes_eq
    slug_then is_slug trim_space cut_prefix cut verify named_claims
entered = refl

write_needs_standing_example :
    ((claims : Claims) × (verify issuer trusted (bearer_token headers.authorization) ≡ some claims)
      × (app ≡ claims.subject)
      × (codes "lab" ≡ codes "lab"))
    × (app ≢ [])
    × (clean_path (codes "in/a.csv") ≡ ok (codes "in/a.csv"))
    × IsLetIn (granted ∷ []) upload (codes "in/a.csv") (some granted)
    × (true ≡ wants_create_only upload)
    × (pos 10 ≡ body_limit (pos 50) (some granted))
    × (wants_create_only upload ≡ true → IsProven memory platform (pos 50) upload state)
write_needs_standing_example =
    write_needs_standing memory platform (pos 50) issuer trusted headers (granted ∷ []) 8 9 upload
      state made entered planned

positive : is_positive (pos 10) ≡ true
unfolding is_positive
positive = refl

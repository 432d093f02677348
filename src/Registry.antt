-- ===== src/Registry.antt =====
-- internal/registry/model.go and the parts of internal/registry/kinds.go that stand on their own: the
-- record of a registered backend, the errors, and the checks of a workspace, an ID and a credential set.
-- A configuration is its canonical JSON text.
pub mod Metadata
pub mod Service
pub mod Editing
pub mod Opening
mod Tests
use booth_storage.Base.{
  ℕ, ◌+◌, zero, suc, Bool, true, false, not, ◌&&◌, ◌||◌, Option, none, some, List, [], ◌∷◌, ◌++◌,
  Bytes, codes, bytes_eq, contains, length, ltb, leb, ◌==◌, all, trim_space, Result, ok, err,
  if◌then◌else◌, ◌>>◌, ◌>>=◌, refuse_if,
}
use booth_storage.Base.Pattern.{is_lower_digit, is_slug_byte, is_slug}
use booth_storage.Backend.{Kind, kind_s3, kind_azure, kind_gcs, kind_filesystem}

-- The sentinels, a `ValidationError` with its field, and any other error with its text.
pub data RegistryError : Type 0 where
  not_found exists no_credentials : RegistryError
  invalid : Bytes → RegistryError
  failed : Bytes → RegistryError

-- The credentials of a backend: its fields and their values.
abbrev pub Credentials : Type 0
Credentials = List (Bytes × Bytes)

-- `Record`; times are in microseconds.
pub record Record : Type 0 where
  pub workspace : Bytes
  pub id : Bytes
  pub display_name : Bytes
  pub kind : Kind
  pub config : Bytes
  pub has_credentials : Bool
  pub create_only_verified : Bool
  pub created_by : Bytes
  pub created_at : ℕ
  pub updated_at : ℕ

-- `SupportsCreateOnly`
unfoldable pub supports_create_only : Record → Bool
supports_create_only r = not (bytes_eq r.kind kind_s3) || r.create_only_verified

unfoldable pub validate_workspace : Bytes → Result RegistryError (Unit {0})
validate_workspace ws =
    if leb (length ws) 0 || ltb 63 (length ws) || not (is_slug ws)
    then err (invalid (codes "workspace"))
    else ok tt

-- What may follow the first byte of an ID: at most 61 bytes and a last one that is no hyphen.
unfoldable pub is_id_tail : ℕ → Bytes → Bool
is_id_tail n [] = false
is_id_tail n (c ∷ []) = is_lower_digit c
is_id_tail zero (c ∷ d ∷ s) = false
is_id_tail (suc n) (c ∷ d ∷ s) = is_slug_byte c && is_id_tail n (d ∷ s)

-- `idRE`: `^[a-z0-9]([a-z0-9-]{0,61}[a-z0-9])?$`
unfoldable pub is_id : Bytes → Bool
is_id [] = false
is_id (c ∷ []) = is_lower_digit c
is_id (c ∷ d ∷ s) = is_lower_digit c && is_id_tail 61 (d ∷ s)

unfoldable pub validate_id : Bytes → Result RegistryError (Unit {0})
validate_id id = if is_id id then ok tt else err (invalid (codes "id"))

abbrev pub cred_access_key : Bytes
cred_access_key = codes "accessKeyId"

abbrev pub cred_secret_key : Bytes
cred_secret_key = codes "secretAccessKey"

abbrev pub cred_session_token : Bytes
cred_session_token = codes "sessionToken"

abbrev pub cred_account_key : Bytes
cred_account_key = codes "accountKey"

abbrev pub cred_sas_token : Bytes
cred_sas_token = codes "sasToken"

abbrev pub cred_service_account : Bytes
cred_service_account = codes "serviceAccountJson"

-- The credential fields of a kind.
unfoldable pub allowed_keys : Kind → List Bytes
allowed_keys kind =
    if bytes_eq kind kind_s3
    then cred_access_key ∷ cred_secret_key ∷ cred_session_token ∷ []
    else if bytes_eq kind kind_azure
    then cred_account_key ∷ cred_sas_token ∷ []
    else if bytes_eq kind kind_gcs
    then cred_service_account ∷ []
    else []

-- `creds[k]`: empty where the field is missing.
unfoldable pub field : Bytes → Credentials → Bytes
field k [] = []
field k ((name, value) ∷ creds) = if bytes_eq name k then value else field k creds

abbrev pub max_credential_bytes : ℕ
max_credential_bytes = 32_768

-- The loop of `validateCredentials`, with the total of the values' lengths as its result.
unfoldable pub check_fields : List Bytes → Credentials → Result RegistryError ℕ
check_fields allowed [] = ok 0
check_fields allowed ((name, value) ∷ creds) =
    let rest = check_fields allowed creds in
    if not (contains allowed name)
    then err (invalid (codes "credentials"))
    else if bytes_eq (trim_space value) []
    then err (invalid (codes "credentials." ++ name))
    else rest >>= λ total. ok (length value + total)

abbrev pub is_set : Bytes → Credentials → Bool
is_set k creds = not (bytes_eq (field k creds) [])

abbrev pub differ : Bool → Bool → Bool
differ a b = if a then not b else b

-- The `switch` of `validateCredentials`; the shape of a Google service account is a parameter.
unfoldable pub check_together :
    (Bytes → Result RegistryError (Unit {0})) → Kind → Credentials → Result RegistryError (Unit {0})
check_together service_account kind creds =
    if bytes_eq kind kind_s3
    then refuse_if (differ (is_set cred_access_key creds) (is_set cred_secret_key creds))
        (invalid (codes "credentials"))
      >> refuse_if (is_set cred_session_token creds && not (is_set cred_access_key creds))
          (invalid (codes "credentials"))
    else if bytes_eq kind kind_azure
    then refuse_if (not (differ (is_set cred_account_key creds) (is_set cred_sas_token creds)))
        (invalid (codes "credentials"))
    else if bytes_eq kind kind_gcs && is_set cred_service_account creds
    then service_account (field cred_service_account creds)
    else ok tt

unfoldable pub validate_credentials :
    (Bytes → Result RegistryError (Unit {0})) → Kind → Credentials → Result RegistryError (Unit {0})
validate_credentials service_account kind creds =
    check_fields (allowed_keys kind) creds >>= λ total.
    refuse_if (ltb max_credential_bytes total) (invalid (codes "credentials")) >>= λ _.
    check_together service_account kind creds

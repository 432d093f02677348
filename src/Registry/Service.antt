-- ===== src/Registry/Service.antt =====
-- internal/registry/service.go and the probe of internal/registry/probe.go. The stores are an interface;
-- decoding and building of a kind's configuration, the check of a filesystem root and the calls on an
-- open backend stand in `Platform`. The clock's readings are arguments, and each operation returns
-- the state it leaves. Lines that are only logged are left out.
pub mod Registering
use booth_storage.Base.{
  ℕ, suc, ◌+◌, Bool, true, false, not, ◌&&◌, ◌||◌, Option, none, some, List, [], ◌∷◌, ◌++◌, Bytes,
  codes, bytes_eq, length, ltb, leb, ◌==◌, trim_space, Result, ok, err, ◌>>=◌, ◌>>◌, refuse_if,
  if◌then◌else◌,
}
use booth_storage.Base.Assoc.{Assoc, find, remove, put}
use booth_storage.Backend.{
  Kind, kind_s3, kind_filesystem, kind_valid, BackendError, precondition_failed,
}
use booth_storage.Registry.{
  Record, RegistryError, Credentials, not_found, exists, no_credentials, invalid, failed,
  validate_workspace, validate_id, validate_credentials,
}
use booth_storage.Registry.Metadata.{Stores, key}

pub data RootStatus : Type 0 where
  root_ready root_will_be_created : RootStatus

-- What the service asks of the kinds, the disk and an open backend of type `B`.
pub record Platform {ℓ} (B : Type ℓ) : Type ℓ where
  pub normalize_config : Kind → Bytes → Bytes → Result RegistryError Bytes
  pub build_backend : Kind → Bytes → Credentials → Bytes → Result Bytes B
  pub check_root : Bytes → Bool → Result RegistryError RootStatus
  pub service_account : Bytes → Result RegistryError (Unit {0})
  pub check : B → Result Bytes (Unit {0})
  -- Two create-only writes to the fresh key of the probe, in this order.
  pub first_write : B → Result BackendError (Unit {0})
  pub second_write : B → Result BackendError (Unit {0})

-- `cachedBackend`
pub record Cached {ℓ} (B : Type ℓ) : Type ℓ where
  pub updated_at : ℕ
  pub loaded_at : ℕ
  pub opened : B

-- The stores and the cache of a `Service`.
pub record State {ℓ κ ν} (M : Type ℓ) (C : Type κ) (B : Type ν) : Type (ℓ ⊔ κ ⊔ ν) where
  pub meta : M
  pub creds : C
  pub cache : Assoc (Cached B)

pub record CreateInput : Type 0 where
  pub id : Bytes
  pub display_name : Bytes
  pub kind : Kind
  pub config : Bytes
  pub credentials : Credentials

pub record UpdateInput : Type 0 where
  pub display_name : Option Bytes
  pub config : Bytes
  pub credentials : Option Credentials

-- `preparedUpdate`; `new_creds` is `none` where the request keeps the stored ones.
pub record PreparedUpdate : Type 0 where
  pub rec : Record
  pub creds : Credentials
  pub new_creds : Option Credentials

-- `openCacheTTL`, ten minutes in microseconds.
abbrev pub open_cache_ttl : ℕ
open_cache_ttl = 600_000_000

-- The display name of a request: trimmed, the ID where it is blank, of at most 100 bytes.
unfoldable pub name_or_id : Bytes → Bytes → Result RegistryError Bytes
name_or_id name id =
    let trimmed = trim_space name in
    let chosen = if bytes_eq trimmed [] then id else trimmed in
    if ltb 100 (length chosen) then err (invalid (codes "displayName")) else ok chosen

-- An error of `buildBackend`, which the service reports as a problem of the request.
unfoldable pub as_invalid {ℓ} : {B : Type ℓ} → Result Bytes B → Result RegistryError B
as_invalid (ok b) = ok b
as_invalid (err _) = err (invalid [])

abbrev pub is_empty : Credentials → Bool
is_empty [] = true
is_empty (c ∷ cs) = false

module _ {ℓ κ ν} {M : Type ℓ} {C : Type κ} {B : Type ν} (stores : Stores M C) (p : Platform B) where
  -- `checkFilesystemRoot` where the kind has a root.
  unfoldable pub ready_root : Kind → Bytes → Result RegistryError (Unit {0})
  ready_root kind config =
      if bytes_eq kind kind_filesystem then (p.check_root config true >>= λ _. ok tt) else ok tt

  abbrev pub new_record : ℕ → Bytes → Bytes → CreateInput → Bytes → Bytes → Record
  new_record now workspace actor i name config = record {
    workspace = workspace;
    id = i.id;
    display_name = name;
    kind = i.kind;
    config = config;
    has_credentials = not (is_empty i.credentials);
    create_only_verified = false;
    created_by = actor;
    created_at = now;
    updated_at = now;
  }

  -- The checks of `Create` and the record that it stores.
  unfoldable pub build_record : ℕ → Bytes → Bytes → CreateInput → Result RegistryError Record
  build_record now workspace actor i = validate_workspace workspace >>= λ _.
      validate_id i.id >>= λ _. name_or_id i.display_name i.id >>= λ name.
      refuse_if (not (kind_valid i.kind)) (invalid (codes "kind")) >>= λ _.
      p.normalize_config i.kind i.config workspace >>= λ config.
      validate_credentials p.service_account i.kind i.credentials >>= λ _.
      ready_root i.kind config >>= λ _.
      as_invalid (p.build_backend i.kind config i.credentials workspace) >>= λ _.
      ok (new_record now workspace actor i name config)

  -- After the ID is reserved: the credentials, and the rollback where they cannot be written.
  unfoldable pub store_new_creds :
      Record → Credentials → State M C B → Result RegistryError Record × State M C B
  store_new_creds r creds s =
      if is_empty creds
      then (ok r, s)
      else let (answer, left) = stores.put_creds r.workspace r.id creds s.creds in
        elim answer [
          | ok _ ↦ (ok r, record { meta = s.meta; creds = left; cache = s.cache })
          | err _ ↦ (
            err (failed (codes "storing credentials")),
            record {
              meta = (stores.delete r.workspace r.id s.meta).1;
              creds = left;
              cache = s.cache;
            },
          )
        ]

  unfoldable pub create :
      ℕ → Bytes → Bytes → CreateInput → State M C B → Result RegistryError Record × State M C B
  create now workspace actor i s = elim (build_record now workspace actor i) [
    | err e ↦ (err e, s)
    | ok r ↦
        let (answer, left) = stores.create r s.meta in
        elim answer [
          | err e ↦ (err e, record { meta = left; creds = s.creds; cache = s.cache })
          | ok _ ↦
              store_new_creds r i.credentials
                (record { meta = left; creds = s.creds; cache = s.cache })
        ]
  ]

  unfoldable pub get : Bytes → Bytes → State M C B → Result RegistryError Record
  get workspace id s = validate_workspace workspace >>= λ _. stores.get workspace id s.meta

  unfoldable pub list : Bytes → State M C B → Result RegistryError (List Record)
  list workspace s = validate_workspace workspace >>= λ _. stores.list workspace s.meta

  abbrev pub invalidate : Bytes → Bytes → State M C B → State M C B
  invalidate workspace id s = record {
    meta = s.meta;
    creds = s.creds;
    cache = remove (key workspace id) s.cache;
  }

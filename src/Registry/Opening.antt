-- ===== src/Registry/Opening.antt =====
-- `Open`, `RawCredentials`, `Test`, `TestUpdate` and `TestSaved` of internal/registry/service.go, and
-- the probe of internal/registry/probe.go.
pub mod Laws
use booth_storage.Base.{
  ℕ, suc, ◌+◌, Bool, true, false, not, ◌&&◌, ◌||◌, Option, none, some, List, [], ◌∷◌, ◌++◌, Bytes,
  codes, bytes_eq, length, ltb, ◌==◌, Result, ok, err, ◌>>=◌, ◌>>◌, refuse_if, if◌then◌else◌,
}
use booth_storage.Base.Assoc.{Assoc, find, put}
use booth_storage.Backend.{
  Kind, kind_s3, kind_filesystem, kind_valid, BackendError, precondition_failed,
}
use booth_storage.Registry.{
  Record, RegistryError, Credentials, not_found, exists, no_credentials, invalid, failed,
  validate_workspace, validate_credentials,
}
use booth_storage.Registry.Metadata.{Stores, key}
use booth_storage.Registry.Service.{
  Platform, State, Cached, CreateInput, UpdateInput, PreparedUpdate, RootStatus, root_ready,
  root_will_be_created, open_cache_ttl, as_invalid, get,
}
use booth_storage.Registry.Editing.{prepare_update}

module _ {ν} {B : Type ν} where
  -- Whether `Open` may answer with the cached client.
  unfoldable pub is_current : ℕ → Record → Cached B → Bool
  is_current now r c = c.updated_at == r.updated_at && ltb now (c.loaded_at + open_cache_ttl)

  unfoldable pub cached_for : ℕ → Record → Option (Cached B) → Option B
  cached_for now r none = none
  cached_for now r (some c) = if is_current now r c then some c.opened else none

  -- `probeCreateOnly`: the first write must succeed and the second be refused by the precondition.
  unfoldable pub probe_create_only : Platform B → B → Bool
  probe_create_only p b = elim (p.first_write b) [
    | err _ ↦ false
    | ok _ ↦ elim (p.second_write b) [
      | ok _ ↦ false
      | err precondition_failed ↦ true
      | err _ ↦ false
    ]
  ]

module _ {ℓ κ ν} {M : Type ℓ} {C : Type κ} {B : Type ν} (stores : Stores M C) (p : Platform B) where
  unfoldable pub open_creds :
      Record → Bytes → Bytes → State M C B → Result RegistryError Credentials
  open_creds r workspace id s =
      if not r.has_credentials then ok [] else elim (stores.get_creds workspace id s.creds) [
        | ok creds ↦ ok creds
        | err no_credentials ↦ err (failed (codes "credentials are missing"))
        | err _ ↦ err (failed (codes "reading credentials"))
      ]

  -- The client that `Open` builds.
  unfoldable pub build : Record → Bytes → Bytes → State M C B → Result RegistryError B
  build r workspace id s = open_creds r workspace id s >>= λ creds.
      elim (p.build_backend r.kind r.config creds workspace) [
        | ok b ↦ ok b
        | err e ↦ err (failed e)
      ]

  -- `Open`, with the clock's readings before and after the client is built.
  unfoldable pub open_backend :
      ℕ → ℕ → Bytes → Bytes → State M C B → Result RegistryError B × State M C B
  open_backend now later workspace id s = elim (get stores p workspace id s) [
    | err e ↦ (err e, s)
    | ok r ↦ elim (cached_for now r (find (key workspace id) s.cache)) [
      | some b ↦ (ok b, s)
      | none ↦ elim (build r workspace id s) [
        | err e ↦ (err e, s)
        | ok b ↦ (
          ok b,
          record {
            meta = s.meta;
            creds = s.creds;
            cache =
                put (key workspace id)
                  (record { updated_at = r.updated_at; loaded_at = later; opened = b }) s.cache;
          },
        )
      ]
    ]
  ]

  unfoldable pub raw_credentials :
      Bytes → Bytes → State M C B → Result RegistryError (Record × Credentials)
  raw_credentials workspace id s = get stores p workspace id s >>= λ r.
      refuse_if (not r.has_credentials) no_credentials >>= λ _.
      stores.get_creds workspace id s.creds >>= λ creds. ok (r, creds)

  -- `b.Check` behind a build; its error is reported as it is.
  abbrev pub checked : Result Bytes B → Result RegistryError (Unit {0})
  checked (err _) = err (invalid [])
  checked (ok b) = elim (p.check b) [ ok _ ↦ ok tt | err e ↦ err (failed e) ]

  -- `asTestFailure`
  unfoldable pub as_test_failure : RegistryError → RegistryError
  as_test_failure (invalid field) = failed field
  as_test_failure e = e

  -- The root's part of a test: a missing root that saving would create is a success.
  unfoldable pub test_root :
      Bool → Bytes → Result RegistryError (Unit {0}) → Result RegistryError (Unit {0})
  test_root false config rest = rest
  test_root true config rest = elim (p.check_root config false) [
    | err e ↦ err (as_test_failure e)
    | ok root_will_be_created ↦ ok tt
    | ok root_ready ↦ rest
  ]

  unfoldable pub test_new : Bytes → CreateInput → Result RegistryError (Unit {0})
  test_new workspace i = validate_workspace workspace >>= λ _.
      refuse_if (not (kind_valid i.kind)) (invalid (codes "kind")) >>= λ _.
      p.normalize_config i.kind i.config workspace >>= λ config.
      validate_credentials p.service_account i.kind i.credentials >>= λ _.
      test_root (bytes_eq i.kind kind_filesystem) config
        (checked (p.build_backend i.kind config i.credentials workspace))

  unfoldable pub test_update :
      ℕ → Bytes → Bytes → UpdateInput → State M C B → Result RegistryError (Unit {0})
  test_update now workspace id i s = prepare_update stores p now workspace id i s >>= λ prepared.
      test_root (bytes_eq prepared.rec.kind kind_filesystem && not (bytes_eq i.config []))
        prepared.rec.config
        (checked (p.build_backend prepared.rec.kind prepared.rec.config prepared.creds workspace))

  -- `TestSaved`: the probe's outcome is stored for an S3 backend; a failure to store it is logged.
  unfoldable pub test_saved :
      ℕ → ℕ → Bytes → Bytes → State M C B → Result RegistryError (Unit {0}) × State M C B
  test_saved now later workspace id s =
      let (answer, t) = open_backend now later workspace id s in
      elim answer [
        | err e ↦ (err e, t)
        | ok b ↦ elim (p.check b) [
          | err e ↦ (err (failed e), t)
          | ok _ ↦ elim (get stores p workspace id t) [
            | err e ↦ (err e, t)
            | ok r ↦ if not (bytes_eq r.kind kind_s3) then (ok tt, t) else (
              ok tt,
              record {
                meta =
                    (stores.set_create_only_verified workspace id (probe_create_only p b) t.meta).1;
                creds = t.creds;
                cache = t.cache;
              },
            )
          ]
        ]
      ]

-- ===== src/Registry/Editing.antt =====
-- `prepareUpdate`, `Update` and `Delete` of internal/registry/service.go.
pub mod Laws
use booth_storage.Base.{
  ℕ, suc, ◌+◌, Bool, true, false, not, ◌&&◌, ◌||◌, Option, none, some, List, [], ◌∷◌, ◌++◌, Bytes,
  codes, bytes_eq, length, ltb, Result, ok, err, ◌>>=◌, ◌>>◌, refuse_if, if◌then◌else◌,
}
use booth_storage.Backend.{Kind, kind_filesystem}
use booth_storage.Registry.{
  Record, RegistryError, Credentials, not_found, exists, no_credentials, invalid, failed,
  validate_workspace, validate_credentials,
}
use booth_storage.Registry.Metadata.{Stores, key}
use booth_storage.Registry.Service.{
  Platform, State, UpdateInput, PreparedUpdate, name_or_id, as_invalid, is_empty, ready_root, get,
  invalidate,
}

-- The display name of an update: left as it is where the request has none.
unfoldable pub new_name : Option Bytes → Bytes → Record → Result RegistryError Bytes
new_name none id r = ok r.display_name
new_name (some name) id r = name_or_id name id

-- The clock's reading, or the microsecond after the last change where it is not later.
unfoldable pub stamp : ℕ → ℕ → ℕ
stamp now prev = if ltb prev now then now else suc prev

module _ {ℓ κ ν} {M : Type ℓ} {C : Type κ} {B : Type ν} (stores : Stores M C) (p : Platform B) where
  -- The configuration of an update and whether it keeps what the probe found.
  unfoldable pub new_config : Bytes → Bytes → Record → Result RegistryError (Bytes × Bool)
  new_config raw workspace r =
      if bytes_eq raw []
      then ok (r.config, r.create_only_verified)
      else p.normalize_config r.kind raw workspace >>= λ config. ok (config, false)

  -- The stored credentials; none where they are missing.
  unfoldable pub stored_creds :
      Record → Bytes → Bytes → State M C B → Result RegistryError Credentials
  stored_creds r workspace id s =
      if not r.has_credentials then ok [] else elim (stores.get_creds workspace id s.creds) [
        | ok creds ↦ ok creds
        | err no_credentials ↦ ok []
        | err _ ↦ err (failed (codes "reading stored credentials"))
      ]

  -- The credentials that the updated backend will use.
  unfoldable pub used_creds :
      Option Credentials → Record → Bytes → Bytes → State M C B → Result RegistryError Credentials
  used_creds none r workspace id s = stored_creds r workspace id s
  used_creds (some creds) r workspace id s =
      validate_credentials p.service_account r.kind creds >>= λ _. ok creds

  unfoldable pub has_creds : Option Credentials → Record → Bool
  has_creds none r = r.has_credentials
  has_creds (some creds) r = not (is_empty creds)

  abbrev pub changed : ℕ → Record → Bytes → Bytes × Bool → Option Credentials → Record
  changed now r name config creds = record {
    workspace = r.workspace;
    id = r.id;
    display_name = name;
    kind = r.kind;
    config = config.0;
    has_credentials = has_creds creds r;
    create_only_verified = config.1;
    created_by = r.created_by;
    created_at = r.created_at;
    updated_at = stamp now r.updated_at;
  }

  unfoldable pub prepare_update :
      ℕ → Bytes → Bytes → UpdateInput → State M C B → Result RegistryError PreparedUpdate
  prepare_update now workspace id i s = get stores p workspace id s >>= λ r.
      new_name i.display_name id r >>= λ name. new_config i.config workspace r >>= λ config.
      used_creds i.credentials r workspace id s >>= λ creds.
      as_invalid (p.build_backend r.kind config.0 creds workspace) >>= λ _. ok (record {
        rec = changed now r name config i.credentials;
        creds = creds;
        new_creds = i.credentials;
      })

  -- The write of the credentials, which comes before the record's.
  unfoldable pub replace_creds :
      Option Credentials → Bytes → Bytes → C → Result RegistryError (Unit {0}) × C
  replace_creds none workspace id c = (ok tt, c)
  replace_creds (some creds) workspace id c =
      if is_empty creds
      then stores.delete_creds workspace id c
      else stores.put_creds workspace id creds c

  -- The second half of `Update`: the record, and the cache.
  unfoldable pub store_update :
      Record → Bytes → Bytes → State M C B → Result RegistryError Record × State M C B
  store_update r workspace id s =
      let (answer, left) = stores.update r s.meta in
      let t : State M C B = record { meta = left; creds = s.creds; cache = s.cache } in
      elim answer [ err e ↦ (err e, t) | ok _ ↦ (ok r, invalidate stores p workspace id t) ]

  unfoldable pub update :
      ℕ → Bytes → Bytes → UpdateInput → State M C B → Result RegistryError Record × State M C B
  update now workspace id i s = elim (prepare_update now workspace id i s) [
    | err e ↦ (err e, s)
    | ok prepared ↦
        elim (if bytes_eq i.config []
          then ok tt
          else ready_root stores p prepared.rec.kind prepared.rec.config) [
            | err e ↦ (err e, s)
            | ok _ ↦
                let (answer, left) = replace_creds prepared.new_creds workspace id s.creds in
                let t : State M C B = record { meta = s.meta; creds = left; cache = s.cache } in
                elim answer [
                  | err _ ↦ (err (failed (codes "storing credentials")), t)
                  | ok _ ↦ store_update prepared.rec workspace id t
                ]
          ]
  ]

  -- The record goes first; a failure to remove the credentials is only logged.
  unfoldable pub delete :
      Bytes → Bytes → State M C B → Result RegistryError (Unit {0}) × State M C B
  delete workspace id s = elim (validate_workspace workspace) [
    | err e ↦ (err e, s)
    | ok _ ↦
        let (answer, left) = stores.delete workspace id s.meta in
        elim answer [
          | err e ↦ (err e, record { meta = left; creds = s.creds; cache = s.cache })
          | ok _ ↦ (
            ok tt,
            invalidate stores p workspace id (record {
              meta = left;
              creds = (stores.delete_creds workspace id s.creds).1;
              cache = s.cache;
            }),
          )
        ]
  ]

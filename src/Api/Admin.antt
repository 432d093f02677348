-- ===== src/Api/Admin.antt =====
-- The handlers of internal/api/server.go that manage backends, and those that show them. A request's
-- body is decoded already; a decoding failure answers before anything else happens.
use booth_storage.Base.{
  ℕ, Bool, true, false, not, ◌&&◌, Option, none, some, List, [], ◌∷◌, Bytes, bytes_eq, Result, ok,
  err, if◌then◌else◌,
}
use booth_storage.Auth.{Identity}
use booth_storage.Backend.{Kind, kind_filesystem}
use booth_storage.Registry.{Record, RegistryError, supports_create_only}
use booth_storage.Registry.Metadata.{Stores}
use booth_storage.Registry.Service.{Platform, State, CreateInput, UpdateInput, get, list, create}
use booth_storage.Registry.Editing.{update, delete}
use booth_storage.Registry.Opening.{test_new, test_update, test_saved}
use booth_storage.Api.{registry_status}

-- `BackendSummary`, with the rendering of the location as a parameter.
pub record Summary : Type 0 where
  pub id : Bytes
  pub display_name : Bytes
  pub kind : Kind
  pub location : Bytes
  pub created_at : ℕ
  pub updated_at : ℕ

-- `AdminBackend`
pub record AdminBackend : Type 0 where
  pub summary : Summary
  pub config : Bytes
  pub credentials_set : Bool
  pub created_by : Bytes
  pub create_only_supported : Bool

unfoldable pub summarize : (Kind → Bytes → Bytes) → Record → Summary
summarize location r = record {
  id = r.id;
  display_name = r.display_name;
  kind = r.kind;
  location = location r.kind r.config;
  created_at = r.created_at;
  updated_at = r.updated_at;
}

unfoldable pub admin_view : (Kind → Bytes → Bytes) → Record → AdminBackend
admin_view location r = record {
  summary = summarize location r;
  config = r.config;
  credentials_set = r.has_credentials;
  created_by = r.created_by;
  create_only_supported = supports_create_only r;
}

-- `handleKinds`
unfoldable pub listed_kinds : Bool → List Kind → List Kind
listed_kinds enabled [] = []
listed_kinds enabled (k ∷ ks) =
    let rest = listed_kinds enabled ks in
    if bytes_eq k kind_filesystem && not enabled then rest else k ∷ rest

unfoldable pub views : {V : Type 0} → (Record → V) → List Record → List V
views view [] = []
views view (r ∷ rs) = view r ∷ views view rs

-- `TestResult` or an error's status; a failed check is an answer of 200.
unfoldable pub test_reply : Result RegistryError (Unit {0}) → ℕ × Option Bool
test_reply (ok _) = (200, some true)
test_reply (err RegistryError.not_found) = (404, none)
test_reply (err (RegistryError.invalid field)) = (422, none)
test_reply (err RegistryError.exists) = (200, some false)
test_reply (err RegistryError.no_credentials) = (200, some false)
test_reply (err (RegistryError.failed text)) = (200, some false)

module _ {ℓ κ ν} {M : Type ℓ} {C : Type κ} {B : Type ν} (stores : Stores M C) (p : Platform B)
    (location : Kind → Bytes → Bytes) where
  -- `handleListBackends` and `handleAdminList`
  unfoldable pub shown_list :
      {V : Type 0} → (Record → V) → Identity → State M C B → Result ℕ (List V)
  shown_list view id s = elim (list stores p id.workspace s) [
    | err e ↦ err (registry_status e)
    | ok rs ↦ ok (views view rs)
  ]

  -- `handleGetBackend` and `handleAdminGet`
  unfoldable pub shown : {V : Type 0} → (Record → V) → Identity → Bytes → State M C B → Result ℕ V
  shown view id backend_id s = elim (get stores p id.workspace backend_id s) [
    | err e ↦ err (registry_status e)
    | ok r ↦ ok (view r)
  ]

  -- `handleAdminCreate`
  unfoldable pub admin_create :
      ℕ → Identity → CreateInput → State M C B → Result ℕ AdminBackend × State M C B
  admin_create now id i s =
      let (answer, t) = create stores p now id.workspace id.subject i s in
      elim answer [ err e ↦ (err (registry_status e), t) | ok r ↦ (ok (admin_view location r), t) ]

  -- `handleAdminUpdate`
  unfoldable pub admin_update :
      ℕ → Identity → Bytes → UpdateInput → State M C B → Result ℕ AdminBackend × State M C B
  admin_update now id backend_id i s =
      let (answer, t) = update stores p now id.workspace backend_id i s in
      elim answer [ err e ↦ (err (registry_status e), t) | ok r ↦ (ok (admin_view location r), t) ]

  -- `handleAdminDelete`
  unfoldable pub admin_delete : Identity → Bytes → State M C B → ℕ × State M C B
  admin_delete id backend_id s =
      let (answer, t) = delete stores p id.workspace backend_id s in
      elim answer [ err e ↦ (registry_status e, t) | ok _ ↦ (204, t) ]

  -- `handleAdminTestNew`
  unfoldable pub admin_test_new : Identity → CreateInput → ℕ × Option Bool
  admin_test_new id i = test_reply (test_new stores p id.workspace i)

  abbrev pub is_empty_update : UpdateInput → Bool
  is_empty_update i =
      elim i.display_name [ none ↦ true | some _ ↦ false ]
      && bytes_eq i.config []
      && elim i.credentials [ none ↦ true | some _ ↦ false ]

  -- `handleAdminTestSaved`
  unfoldable pub admin_test_saved :
      ℕ → ℕ → Identity → Bytes → UpdateInput → State M C B → (ℕ × Option Bool) × State M C B
  admin_test_saved now later id backend_id i s =
      if is_empty_update i
      then (
        test_reply (test_saved stores p now later id.workspace backend_id s).0,
        (test_saved stores p now later id.workspace backend_id s).1,
      )
      else (test_reply (test_update stores p now id.workspace backend_id i s), s)

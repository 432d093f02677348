-- ===== src/Api/Writing.antt =====
-- `handleWriteObject` of internal/api/server.go. The grant lookup may fail, so it is a parameter; so is the
-- write on an open backend, which reads at most the limit of the body. `plan` is the handler up to the
-- write.
pub mod Admission
pub mod Uploads
use booth_storage.Base.{
  ℕ, ℤ, pos, negsuc, Bool, true, false, not, ◌&&◌, ◌||◌, Option, none, some, List, [], ◌∷◌, Bytes,
  codes, bytes_eq, ltb, Result, ok, err, ◌>>=◌, ◌>>◌, refuse_if, if◌then◌else◌,
}
use booth_storage.Backend.{BackendError, ObjectInfo, WriteOptions, precondition_failed}
use booth_storage.Backend.Path.{clean_path}
use booth_storage.Auth.{Identity, can_write}
use booth_storage.UploadGrant.{Grant, GrantError, has_extension}
use booth_storage.UploadGrant.Service.{is_positive}
use booth_storage.Registry.{Record, RegistryError, supports_create_only}
use booth_storage.Registry.Metadata.{Stores}
use booth_storage.Registry.Service.{Platform, State, get}
use booth_storage.Registry.Opening.{open_backend}
use booth_storage.Api.{backend_status, registry_status}

-- What the handler reads of a request.
pub record WriteRequest : Type 0 where
  pub identity : Identity
  pub backend_id : Bytes
  pub path : Bytes
  pub if_none_match : Bytes
  pub content_type : Bytes

-- A write that is about to be made; `limit` is not positive where there is none.
pub record Plan {ν} (B : Type ν) : Type ν where
  pub client : B
  pub path : Bytes
  pub create_only : Bool
  pub grant : Option Grant
  pub limit : ℤ

pub data WriteFault : Type 0 where
  too_big : WriteFault
  refused_by : BackendError → WriteFault

-- An object is announced with the backend, the path, the size, and whether a grant let it in.
pub record Created : Type 0 where
  pub backend_id : Bytes
  pub path : Bytes
  pub size : ℕ
  pub principal : Bytes
  pub via_grant : Bool

abbrev pub less : ℤ → ℤ → Bool
less (pos a) (pos b) = ltb a b
less (pos a) (negsuc b) = false
less (negsuc a) (pos b) = true
less (negsuc a) (negsuc b) = ltb b a

-- The limit of the body: the server's, or the grant's where that is lower or the server has none.
unfoldable pub body_limit : ℤ → Option Grant → ℤ
body_limit server none = server
body_limit server (some g) =
    if not (is_positive server) || less g.max_bytes server then g.max_bytes else server

unfoldable pub wants_create_only : WriteRequest → Bool
wants_create_only q = bytes_eq q.if_none_match (codes "*")

abbrev pub Lookup : Type 0
Lookup = Bytes → Bytes → Bytes → Bytes → Result GrantError (Option Grant)

-- The grant's part: an editor or owner needs none.
unfoldable pub admit_grant : Lookup → WriteRequest → Bytes → Result ℕ (Option Grant)
admit_grant lookup q clean =
    if can_write q.identity
    then ok none
    else if not (wants_create_only q)
    then err 403
    else elim (lookup q.identity.workspace q.identity.subject q.backend_id clean) [
      | err _ ↦ err 502
      | ok none ↦ err 403
      | ok (some g) ↦ if has_extension clean g.extensions then ok (some g) else err 415
    ]

unfoldable pub cleaned : Bytes → Result ℕ Bytes
cleaned path = elim (clean_path path) [ err e ↦ err (backend_status e) | ok clean ↦ ok clean ]

module _ {ℓ κ ν} {M : Type ℓ} {C : Type κ} {B : Type ν} (stores : Stores M C) (p : Platform B)
    (lookup : Lookup) (server_limit : ℤ) where
  unfoldable pub check_create_only : WriteRequest → State M C B → Result ℕ (Unit {0})
  check_create_only q s =
      if not (wants_create_only q)
      then ok tt
      else elim (get stores p q.identity.workspace q.backend_id s) [
        | err e ↦ err (registry_status e)
        | ok r ↦ if supports_create_only r then ok tt else err 501
      ]

  -- `openBackend`
  unfoldable pub opened : ℕ → ℕ → WriteRequest → State M C B → Result ℕ B × State M C B
  opened now later q s =
      let (answer, t) = open_backend stores p now later q.identity.workspace q.backend_id s in
      elim answer [ err e ↦ (err (registry_status e), t) | ok b ↦ (ok b, t) ]

  -- The checks before the backend is opened: the clean path and the grant.
  unfoldable pub admit : WriteRequest → State M C B → Result ℕ (Bytes × Option Grant)
  admit q s = cleaned q.path >>= λ clean.
      admit_grant lookup q clean >>= λ grant. check_create_only q s >>= λ _. ok (clean, grant)

  unfoldable pub plan : ℕ → ℕ → WriteRequest → State M C B → Result ℕ (Plan B) × State M C B
  plan now later q s = elim (admit q s) [
    | err e ↦ (err e, s)
    | ok (clean, grant) ↦
        let (answer, t) = opened now later q s in
        (
          answer >>= λ b. ok (record {
            client = b;
            path = clean;
            create_only = wants_create_only q;
            grant = grant;
            limit = body_limit server_limit grant;
          }),
          t,
        )
  ]

  abbrev pub is_some_grant : Option Grant → Bool
  is_some_grant none = false
  is_some_grant (some g) = true

  unfoldable pub fault_status : WriteFault → ℕ
  fault_status too_big = 413
  fault_status (refused_by precondition_failed) = 412
  fault_status (refused_by e) = backend_status e

  -- The whole handler: its status, and the event of a write that was made.
  unfoldable pub write_object :
      (Plan B → Bytes → Result WriteFault ObjectInfo)
      → ℕ
      → ℕ
      → WriteRequest
      → State M C B
      → (ℕ × Option Created) × State M C B
  write_object write now later q s =
      let (answer, t) = plan now later q s in
      elim answer [
        | err status ↦ ((status, none), t)
        | ok made ↦ elim (write made q.content_type) [
          | err fault ↦ ((fault_status fault, none), t)
          | ok info ↦ (
            (
              200,
              some (record {
                backend_id = q.backend_id;
                path = made.path;
                size = info.size;
                principal = q.identity.subject;
                via_grant = is_some_grant made.grant;
              }),
            ),
            t,
          )
        ]
      ]

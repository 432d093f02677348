-- ===== src/Api/Grants.antt =====
-- The upload-grant handlers of internal/api/server.go over the store in memory. The body of a request is
-- decoded already; a decoding failure answers before anything else happens.
use booth_storage.Base.{
  ℕ, ◌≡◌, ◌⊎◌, inl, inr, Bool, true, false, List, [], Bytes, bytes_eq_iff, Bool-cases, Result-cases,
  arith, ok, err, if◌then◌else◌,
}
use booth_storage.Auth.{Identity, is_admin, is_grants_service}
use booth_storage.UploadGrant.{Grant, validate_principal}
use booth_storage.UploadGrant.Store.{Grants, list, delete, delete_by_principal}
use booth_storage.UploadGrant.Service.{CreateInput, create}
use booth_storage.UploadGrant.Service.Admission.{In, delete_by_principal_lem}
use booth_storage.Registry.Metadata.{Stores}
use booth_storage.Registry.Service.{Platform, State, get}
use booth_storage.Api.{registry_status, grant_status}

-- `handleAdminListUploadGrants`
unfoldable pub list_grants : Identity → Bytes → Grants → ℕ × List Grant
list_grants id principal gs = (200, list id.workspace principal gs)

-- `handleAdminDeleteUploadGrant`
unfoldable pub delete_grant : Identity → Bytes → Grants → ℕ × Grants
delete_grant id grant_id gs =
    let (answer, left) = delete id.workspace grant_id gs in
    elim answer [ err e ↦ (grant_status e, left) | ok _ ↦ (204, left) ]

-- Who may revoke: an owner whatever the principal, the service identity its workspace's apps.
unfoldable pub may_revoke : Identity → Bytes → Bool
may_revoke id principal =
    if is_admin id
    then true
    else if is_grants_service id
    then elim (validate_principal principal id.workspace) [ ok _ ↦ true | err _ ↦ false ]
    else false

-- `handleRevokeUploadGrantsByPrincipal`
unfoldable pub revoke_principal : Identity → Bytes → Grants → (ℕ × List Grant) × Grants
revoke_principal id principal gs =
    if may_revoke id principal
    then (
      (200, (delete_by_principal id.workspace principal gs).0),
      (delete_by_principal id.workspace principal gs).1,
    )
    else ((403, []), gs)

module _ {ℓ κ ν} {M : Type ℓ} {C : Type κ} {B : Type ν} (stores : Stores M C) (p : Platform B) where
  -- `handleAdminCreateUploadGrant`
  unfoldable pub create_grant :
      Bytes → ℕ → Identity → CreateInput → State M C B → Grants → ℕ × Grants
  create_grant grant_id now id i s gs = elim (get stores p id.workspace i.backend_id s) [
    | err e ↦ (registry_status e, gs)
    | ok _ ↦
        let (answer, left) = create grant_id now id.workspace id.subject i gs in
        elim answer [ err e ↦ (grant_status e, left) | ok _ ↦ (201, left) ]
  ]

valid_of_may :
    (id : Identity) (principal : Bytes)
    → may_revoke id principal ≡ true
    → is_admin id ≡ false
    → (is_grants_service id ≡ true) × (validate_principal principal id.workspace ≡ ok tt)
unfolding may_revoke
valid_of_may id principal h plain =
    elim (Result-cases (validate_principal principal id.workspace)) [
      | inl (_, good) ↦ (ground (arith, h, plain), good)
      | inr (e, bad) ↦ absurd (ground (arith, rw (plain, bad, may_revoke) at h))
    ]

-- A grant that is in the store and not in it after a revocation is one of the named principal in the
-- caller's workspace, and the caller is an owner of it or the service identity naming an app of it.
pub revoke_principal_lem :
    (id : Identity) (principal : Bytes) (gs : Grants) (g : Grant)
    → In g gs
    → ¬ (In g (revoke_principal id principal gs).1)
    → (g.workspace ≡ id.workspace)
      × (g.principal ≡ principal)
      × ((is_admin id ≡ true)
          ⊎ ((is_grants_service id ≡ true) × (validate_principal principal id.workspace ≡ ok tt)))
unfolding revoke_principal
revoke_principal_lem id principal gs g i gone = elim (Bool-cases (may_revoke id principal)) [
  | inl may ↦
      let left : ¬ (In g (delete_by_principal id.workspace principal gs).1) =
        rw (may, revoke_principal) at gone in
      ground (
        arith,
        delete_by_principal_lem id.workspace principal gs g,
        valid_of_may id principal may,
        left,
        bytes_eq_iff g.workspace id.workspace,
        bytes_eq_iff g.principal principal,
      )
  | inr never ↦ absurd (rw (never, revoke_principal) at gone i)
]

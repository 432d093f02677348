-- ===== src/Auth.antt =====
-- internal/auth/auth.go: workspace roles, the groups claim, the identity that the middleware
-- attaches, and the role checks in front of the routes. The verification of a token's signature is
-- the OIDC library's: `verify` is a parameter, `none` where it refuses the token.
pub mod Tokens
pub mod Groups
pub mod Roles
pub mod Middleware
pub mod Gates
mod Tests
use booth_storage.Base.{
  ℕ, take, drop, Bool, true, false, not, ◌&&◌, ◌||◌, Option, none, some, List, [], ◌∷◌, ◌++◌, Bytes,
  codes, bytes_eq, length, ltb, leb, to_lower, trim_space, if◌then◌else◌,
}
use booth_storage.Base.Pattern.{slug_then}

-- `Role` is a string type in Go, and a forwarded header may carry any text.
abbrev pub Role : Type 0
Role = Bytes

abbrev pub role_owner : Role
role_owner = codes "owner"

abbrev pub role_editor : Role
role_editor = codes "editor"

abbrev pub role_viewer : Role
role_viewer = codes "viewer"

abbrev pub role_grants_service : Role
role_grants_service = codes "grants-service"

-- `Claims`
pub record Claims : Type 0 where
  pub subject : Bytes
  pub groups : List Bytes
  pub booth_module : Bytes

abbrev pub is_role : Bytes → Bool
is_role r = bytes_eq r role_owner || bytes_eq r role_editor || bytes_eq r role_viewer

-- `groupRE`: `^/workspaces/([a-z0-9-]+)/(owner|editor|viewer)$`, with its two submatches.
unfoldable pub group_match : Bytes → Option (Bytes × Role)
group_match g = elim (slug_then (codes "/workspaces/") b'/' g) [
  | none ↦ none
  | some (workspace, role) ↦ if is_role role then some (workspace, role) else none
]

-- `grantsServiceRE`: `^streamlit:([a-z0-9-]+):grants$`
unfoldable pub grants_service_match : Bytes → Option Bytes
grants_service_match subject = elim (slug_then (codes "streamlit:") b':' subject) [
  | none ↦ none
  | some (workspace, last) ↦ if bytes_eq last (codes "grants") then some workspace else none
]

-- `grantsServiceWorkspace`
unfoldable pub grants_service_workspace : Claims → Option Bytes
grants_service_workspace claims =
    if bytes_eq claims.booth_module (codes "streamlit")
    then grants_service_match claims.subject
    else none

unfoldable pub rank : Role → ℕ
rank r =
    if bytes_eq r role_owner
    then 3
    else if bytes_eq r role_editor
    then 2
    else if bytes_eq r role_viewer
    then 1
    else 0

-- The loop of `RoleInWorkspace`, one group a round.
unfoldable pub better : Bytes → Option (Bytes × Role) → Role → Role
better workspace none best = best
better workspace (some (ws, r)) best =
    if bytes_eq ws workspace && ltb (rank best) (rank r) then r else best

unfoldable pub best_role : Role → List Bytes → Bytes → Role
best_role best [] workspace = best
best_role best (g ∷ gs) workspace = best_role (better workspace (group_match g) best) gs workspace

unfoldable pub role_in_workspace : List Bytes → Bytes → Role
role_in_workspace groups workspace = best_role [] groups workspace

unfoldable pub effective_role : Role → Role → Role
effective_role forwarded granted =
    if bytes_eq forwarded []
    then granted
    else if leb (rank forwarded) 0
    then []
    else if ltb (rank forwarded) (rank granted)
    then forwarded
    else granted

-- `Identity`
pub record Identity : Type 0 where
  pub subject : Bytes
  pub workspace : Bytes
  pub role : Role

unfoldable pub can_read : Identity → Bool
can_read i =
    bytes_eq i.role role_owner || bytes_eq i.role role_editor || bytes_eq i.role role_viewer

unfoldable pub can_write : Identity → Bool
can_write i = bytes_eq i.role role_owner || bytes_eq i.role role_editor

unfoldable pub is_admin : Identity → Bool
is_admin i = bytes_eq i.role role_owner

unfoldable pub is_grants_service : Identity → Bool
is_grants_service i = bytes_eq i.role role_grants_service

-- The headers that the middleware reads.
pub record Headers : Type 0 where
  pub authorization : Bytes
  pub booth_workspace : Bytes
  pub booth_role : Bytes

-- `bearerToken`; `strings.EqualFold` against a text without the letters k and s folds ASCII only.
unfoldable pub bearer_token : Bytes → Bytes
bearer_token h =
    if ltb (length h) 7 || not (bytes_eq (to_lower (take 7 h)) (codes "bearer "))
    then []
    else trim_space (drop 7 h)

-- What `Middleware` does with a request: it answers with a status, or lets the request on with an
-- identity.
pub data Admission : Type 0 where
  refused : ℕ → Admission
  admitted : Identity → Admission

unfoldable pub admit_member : Claims → Bytes → Role → Admission
admit_member claims workspace forwarded =
    let granted = role_in_workspace claims.groups workspace in
    if bytes_eq granted []
    then refused 403
    else if ltb (rank granted) (rank forwarded)
    then refused 403
    else admitted (record {
      subject = claims.subject;
      workspace = workspace;
      role = effective_role forwarded granted;
    })

unfoldable pub admit_service : Claims → Bytes → Bytes → Admission
admit_service claims workspace own =
    if bytes_eq workspace own
    then admitted
        (record { subject = claims.subject; workspace = workspace; role = role_grants_service })
    else refused 403

unfoldable pub admit_claims : Claims → Headers → Admission
admit_claims claims h =
    if bytes_eq h.booth_workspace [] then refused 400 else elim (grants_service_workspace claims) [
      | some own ↦ admit_service claims h.booth_workspace own
      | none ↦ admit_member claims h.booth_workspace h.booth_role
    ]

unfoldable pub middleware : (Bytes → Option Claims) → Headers → Admission
middleware verify h =
    let token = bearer_token h.authorization in
    if bytes_eq token []
    then refused 401
    else elim (verify token) [ none ↦ refused 401 | some claims ↦ admit_claims claims h ]

-- `Require` behind `Middleware`: the request goes on only if the check holds of its identity.
unfoldable pub require : (Identity → Bool) → Admission → Admission
require check (refused code) = refused code
require check (admitted id) = if check id then admitted id else refused 403

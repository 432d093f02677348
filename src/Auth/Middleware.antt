-- ===== src/Auth/Middleware.antt =====
-- `Middleware` and `Require` of internal/auth/auth.go: who gets through, and with which role.
use booth_storage.Base.{
  ◌≤◌, ◌≡◌, ◌≢◌, ◌↔◌, ◌⊎◌, sym, ◌∙◌, inl, inr, Option, some, [], Bytes, codes, bytes_eq,
  bytes_eq_iff, Option-cases, Bool-cases, arith,
}
use mathlib.Core.Bool.{false≢true}
use booth_storage.Auth.{
  Role, Claims, Identity, Headers, admitted, role_grants_service, rank, role_in_workspace,
  effective_role, grants_service_workspace, bearer_token, admit_member, admit_service, admit_claims,
  middleware,
}
use booth_storage.Auth.Groups.{service_subject, grants_service_workspace_iff}
use booth_storage.Auth.Roles.{effective_role_bounds}

-- What the token of an admitted request vouches for.
pub record IsMember (claims : Claims) (h : Headers) (id : Identity) : Type 0 where
  pub granted : role_in_workspace claims.groups h.booth_workspace ≢ []
  pub not_widened : rank id.role ≤ rank (role_in_workspace claims.groups h.booth_workspace)
  pub not_above_header : h.booth_role ≢ [] → rank id.role ≤ rank h.booth_role
  pub header_allowed : rank h.booth_role ≤ rank (role_in_workspace claims.groups h.booth_workspace)
  pub effective :
      id.role ≡ effective_role h.booth_role (role_in_workspace claims.groups h.booth_workspace)

pub record IsService (claims : Claims) (h : Headers) (id : Identity) : Type 0 where
  pub from_streamlit : claims.booth_module ≡ codes "streamlit"
  pub own_workspace : claims.subject ≡ service_subject h.booth_workspace
  pub role : id.role ≡ role_grants_service

pub record IsGenuine (claims : Claims) (h : Headers) (id : Identity) : Type 0 where
  pub named : h.booth_workspace ≢ []
  pub subject : id.subject ≡ claims.subject
  pub workspace : id.workspace ≡ h.booth_workspace
  pub standing : IsMember claims h id ⊎ IsService claims h id

pub admit_member_parts :
    (claims : Claims) (ws : Bytes) (forwarded : Role) (id : Identity)
    → (admit_member claims ws forwarded ≡ admitted id) ↔ (
        (role_in_workspace claims.groups ws ≢ [])
        × (rank forwarded ≤ rank (role_in_workspace claims.groups ws))
        × (id.subject ≡ claims.subject)
        × (id.workspace ≡ ws)
        × (id.role ≡ effective_role forwarded (role_in_workspace claims.groups ws)))
unfolding admit_member
admit_member_parts claims ws forwarded id =
    ground (arith, bytes_eq_iff (role_in_workspace claims.groups ws) [])

admit_service_parts :
    (claims : Claims) (ws own : Bytes) (id : Identity)
    → (admit_service claims ws own ≡ admitted id) ↔ (
        (ws ≡ own)
        × (id.subject ≡ claims.subject)
        × (id.workspace ≡ ws)
        × (id.role ≡ role_grants_service))
unfolding admit_service
admit_service_parts claims ws own id = ground (arith, bytes_eq_iff ws own)

admit_claims_sound :
    (claims : Claims) (h : Headers) (id : Identity)
    → admit_claims claims h ≡ admitted id
    → IsGenuine claims h id
unfolding admit_claims
admit_claims_sound claims h id e = elim (Bool-cases (bytes_eq h.booth_workspace [])) [
  | inl blank ↦ cc (rw (blank, admit_claims) at e)
  | inr named ↦
      let present = λ (p : h.booth_workspace ≡ []).
        false≢true (sym named ∙ (bytes_eq_iff h.booth_workspace []).1 p) in
      elim (Option-cases (grants_service_workspace claims)) [
        | inl other ↦
            let (granted, allowed, subject, workspace, role) =
              (admit_member_parts claims h.booth_workspace h.booth_role id).0
                (rw (named, other, admit_claims) at e) in
            let (bound, header_bound, _, _) =
              effective_role_bounds h.booth_role
                (role_in_workspace claims.groups h.booth_workspace) in
            record {
              named = present;
              subject = subject;
              workspace = workspace;
              standing = inl (record {
                granted = granted;
                not_widened = rw role bound;
                not_above_header = rw role header_bound;
                header_allowed = allowed;
                effective = role;
              });
            }
        | inr (own, service) ↦
            let (same, subject, workspace, role) =
              (admit_service_parts claims h.booth_workspace own id).0
                (rw (named, service, admit_claims) at e) in
            let (from_streamlit, own_subject, _) =
              (grants_service_workspace_iff claims own).0 service in
            record {
              named = present;
              subject = subject;
              workspace = workspace;
              standing = inr (record {
                from_streamlit = from_streamlit;
                own_workspace = rw same own_subject;
                role = role;
              });
            }
      ]
]

-- A request is admitted only with a token that the verifier accepts, under the subject of that
-- token and the workspace of the header; and either the token's groups grant a role there, and the
-- identity's role is not above it nor above a forwarded role, or it is the grants service of this
-- workspace.
pub middleware_sound :
    (verify : Bytes → Option Claims) (h : Headers) (id : Identity)
    → middleware verify h ≡ admitted id
    → (claims : Claims) × (verify (bearer_token h.authorization) ≡ some claims)
      × IsGenuine claims h id
unfolding middleware
middleware_sound verify h id e = elim (Bool-cases (bytes_eq (bearer_token h.authorization) [])) [
  | inl blank ↦ cc (rw (blank, middleware) at e)
  | inr present ↦ elim (Option-cases (verify (bearer_token h.authorization))) [
    | inl bad ↦ cc (rw (present, bad, middleware) at e)
    | inr (claims, good) ↦
        (claims, good, admit_claims_sound claims h id (rw (present, good, middleware) at e))
  ]
]

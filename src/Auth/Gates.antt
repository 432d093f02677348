-- ===== src/Auth/Gates.antt =====
-- The role checks behind the middleware of internal/auth/auth.go, traced to the token's groups, and
-- the requests that are let in without a role.
use booth_storage.Base.{
  ℕ, ◌≤◌, ◌≡◌, ◌≢◌, ◌⊎◌, suc, subst, refl, sym, ap, inl, inr, Bool, true, Option, none, some, List,
  [], Bytes, contains, bytes_eq, bytes_eq_iff, Bool-cases, arith,
}
use booth_storage.Auth.{
  Role, Claims, Identity, Headers, Admission, refused, admitted, is_role, role_owner, role_editor,
  role_viewer, role_grants_service, rank, role_in_workspace, grants_service_workspace, bearer_token,
  admit_claims, middleware, require, can_write, is_admin,
}
use booth_storage.Auth.Groups.{group_text}
use booth_storage.Auth.Roles.{role_in_workspace_best, effective_role_bounds}
use booth_storage.Auth.Middleware.{IsGenuine, middleware_sound, admit_member_parts}

rank_of_role :
    (r : Role)
    → is_role r ≡ true
    → ((r ≡ role_owner) × (rank r ≡ 3))
      ⊎ ((r ≡ role_editor) × (rank r ≡ 2))
      ⊎ ((r ≡ role_viewer) × (rank r ≡ 1))
unfolding rank
rank_of_role r h =
    ground
      (arith, bytes_eq_iff r role_owner, bytes_eq_iff r role_editor, bytes_eq_iff r role_viewer)

rank_of_writer : (i : Identity) → can_write i ≡ true → 2 ≤ rank i.role
unfolding can_write rank
rank_of_writer i h = ground arith

rank_of_admin : (i : Identity) → is_admin i ≡ true → 3 ≤ rank i.role
unfolding is_admin rank
rank_of_admin i h = ground arith

rank_of_service : rank role_grants_service ≡ 0
unfolding rank bytes_eq
rank_of_service = refl

admitted-injective : {a b : Identity} → admitted a ≡ admitted b → a ≡ b
admitted-injective h = cc

require_parts :
    (check : Identity → Bool) (a : Admission) (id : Identity)
    → require check a ≡ admitted id
    → (a ≡ admitted id) × (check id ≡ true)
unfolding require
require_parts check (refused c) id h = cc
require_parts check (admitted i) id h = elim (Bool-cases (check i)) [
  | inl passed ↦
      let same : admitted i ≡ admitted id = rw (passed, require) at h in
      (same, subst (λ (a : Identity). check a ≡ true) (admitted-injective same) passed)
  | inr failed ↦ cc (rw (failed, require) at h)
]

-- The group that a role of some rank rests on.
group_behind :
    (gs : List Bytes) (ws : Bytes)
    → role_in_workspace gs ws ≢ []
    → (((rank (role_in_workspace gs ws) ≡ 3) × (contains gs (group_text ws role_owner) ≡ true))
        ⊎ ((rank (role_in_workspace gs ws) ≡ 2) × (contains gs (group_text ws role_editor) ≡ true))
        ⊎ (rank (role_in_workspace gs ws) ≡ 1))
group_behind gs ws h = elim (role_in_workspace_best gs ws).0 [
  | inl nothing ↦ absurd (h nothing)
  | inr (role, _, listed) ↦ elim (rank_of_role (role_in_workspace gs ws) role) [
    | inl (owner, three) ↦ inl (three, rw owner at listed)
    | inr (inl (editor, two)) ↦ inr (inl (two, rw editor at listed))
    | inr (inr (_, one)) ↦ inr (inr one)
  ]
]

-- A role with a rank is a member's, and the groups grant one of that rank at least.
ranked_member :
    {claims : Claims} {h : Headers} {id : Identity} {n : ℕ}
    → suc n ≤ rank id.role
    → IsGenuine claims h id
    → (role_in_workspace claims.groups h.booth_workspace ≢ [])
      × (suc n ≤ rank (role_in_workspace claims.groups h.booth_workspace))
ranked_member strong g = elim g.standing [
  | inl m ↦ (m.granted, omega (arith, m.not_widened))
  | inr s ↦ absurd (omega (arith, rank_of_service, ap rank s.role))
]

-- Behind the owner check a request has a verified token with the owner group of the workspace.
pub admin_needs_owner_group :
    (verify : Bytes → Option Claims) (h : Headers) (id : Identity)
    → require is_admin (middleware verify h) ≡ admitted id
    → (claims : Claims) × (verify (bearer_token h.authorization) ≡ some claims)
      × (contains claims.groups (group_text h.booth_workspace role_owner) ≡ true)
admin_needs_owner_group verify h id e =
    let (admitted_id, passed) = require_parts is_admin (middleware verify h) id e in
    let (claims, good, genuine) = middleware_sound verify h id admitted_id in
    let (granted, strong) = ranked_member (rank_of_admin id passed) genuine in
    (claims, good, ground (arith, group_behind claims.groups h.booth_workspace granted))

-- Behind the write check a request has a verified token with the owner or the editor group of the
-- workspace.
pub write_needs_group :
    (verify : Bytes → Option Claims) (h : Headers) (id : Identity)
    → require can_write (middleware verify h) ≡ admitted id
    → (claims : Claims) × (verify (bearer_token h.authorization) ≡ some claims)
      × ((contains claims.groups (group_text h.booth_workspace role_owner) ≡ true)
          ⊎ (contains claims.groups (group_text h.booth_workspace role_editor) ≡ true))
write_needs_group verify h id e =
    let (admitted_id, passed) = require_parts can_write (middleware verify h) id e in
    let (claims, good, genuine) = middleware_sound verify h id admitted_id in
    let (granted, strong) = ranked_member (rank_of_writer id passed) genuine in
    (claims, good, ground (arith, group_behind claims.groups h.booth_workspace granted))

-- A forwarded role that is not empty and none of the three does not keep a member out: a verified request of a
-- member, not of the grants service, is admitted with the empty role.
pub unknown_role_admitted :
    (verify : Bytes → Option Claims) (h : Headers) (claims : Claims)
    → bearer_token h.authorization ≢ []
    → verify (bearer_token h.authorization) ≡ some claims
    → h.booth_workspace ≢ []
    → grants_service_workspace claims ≡ none
    → role_in_workspace claims.groups h.booth_workspace ≢ []
    → h.booth_role ≢ []
    → rank h.booth_role ≡ 0
    → middleware verify h
      ≡ admitted (record { subject = claims.subject; workspace = h.booth_workspace; role = [] })
unfolding middleware admit_claims
unknown_role_admitted verify h claims token good named member granted given unknown =
    let (_, _, _, nothing) =
      effective_role_bounds h.booth_role (role_in_workspace claims.groups h.booth_workspace) in
    let let_in =
      (admit_member_parts claims h.booth_workspace h.booth_role
          (record { subject = claims.subject; workspace = h.booth_workspace; role = [] })).1
        (granted, omega arith, refl, refl, sym (nothing given unknown)) in
    ground (
      arith,
      let_in,
      bytes_eq_iff (bearer_token h.authorization) [],
      bytes_eq_iff h.booth_workspace [],
    )

-- ===== src/Auth/Groups.antt =====
-- The texts that the group and service patterns of internal/auth/auth.go match.
use booth_storage.Base.{
  ◌≡◌, ◌↔◌, refl, inl, inr, true, some, ◌∷◌, ◌++◌, Bytes, codes, bytes_eq_iff, Option-cases, arith,
}
use booth_storage.Base.Pattern.{is_slug, slug_then, slug_then_iff}
use booth_storage.Auth.{
  Role, Claims, is_role, group_match, grants_service_match, grants_service_workspace,
}

-- The group that grants a role in a workspace.
abbrev pub group_text : Bytes → Role → Bytes
group_text workspace role = codes "/workspaces/" ++ (workspace ++ b'/' ∷ role)

group_match_parts :
    (g ws : Bytes) (r : Role)
    → (group_match g ≡ some (ws, r))
      ↔ ((slug_then (codes "/workspaces/") b'/' g ≡ some (ws, r)) × (is_role r ≡ true))
unfolding group_match
group_match_parts g ws r = ground arith

-- A group matches exactly if it is the group of a slug and one of the three roles, and these are
-- its submatches.
pub group_match_iff :
    (g ws : Bytes) (r : Role)
    → (group_match g ≡ some (ws, r))
      ↔ ((g ≡ group_text ws r) × (is_slug ws ≡ true) × (is_role r ≡ true))
group_match_iff g ws r =
    let (to, from) = group_match_parts g ws r in
    let (sound, complete) = slug_then_iff (codes "/workspaces/") b'/' g ws r refl in
    (
      λ h. let (matched, role) = to h in let (text, slug) = sound matched in (text, slug, role),
      λ (text, slug, role). from (complete (text, slug), role),
    )

-- The subject of the grants service of a workspace.
abbrev pub service_subject : Bytes → Bytes
service_subject workspace = codes "streamlit:" ++ (workspace ++ b':' ∷ codes "grants")

service_parts :
    (claims : Claims) (ws : Bytes)
    → (grants_service_workspace claims ≡ some ws) ↔ (
        (claims.booth_module ≡ codes "streamlit")
        × (slug_then (codes "streamlit:") b':' claims.subject ≡ some (ws, codes "grants")))
unfolding grants_service_workspace grants_service_match
service_parts claims ws =
    let same_module = bytes_eq_iff claims.booth_module (codes "streamlit") in
    elim (Option-cases (slug_then (codes "streamlit:") b':' claims.subject)) [
      | inl missing ↦ ground (arith, same_module)
      | inr ((slug, last), found) ↦ ground (arith, same_module, bytes_eq_iff last (codes "grants"))
    ]

-- The grants service is recognised exactly by its module claim and by the subject of a workspace.
pub grants_service_workspace_iff :
    (claims : Claims) (ws : Bytes)
    → (grants_service_workspace claims ≡ some ws) ↔ (
        (claims.booth_module ≡ codes "streamlit")
        × (claims.subject ≡ service_subject ws)
        × (is_slug ws ≡ true))
grants_service_workspace_iff claims ws =
    let (to, from) = service_parts claims ws in
    let (sound, complete) =
      slug_then_iff (codes "streamlit:") b':' claims.subject ws (codes "grants") refl in
    (
      λ h.
          let (of_module, matched) = to h in
          let (text, slug) = sound matched in (of_module, text, slug),
      λ (of_module, text, slug). from (of_module, complete (text, slug)),
    )

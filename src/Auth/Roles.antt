-- ===== src/Auth/Roles.antt =====
-- `RoleInWorkspace` and `EffectiveRole` of internal/auth/auth.go: the strongest role that the groups
-- grant, and what a forwarded role may make of it.
use booth_storage.Base.{
  ◌≤◌, ◌≡◌, ◌≢◌, ◌⊎◌, refl, sym, ap, ◌∙◌, inl, inr, Bool, true, ◌||◌, Option, none, some, List, [],
  ◌∷◌, Bytes, contains, bytes_eq, bytes_eq_iff, Bool-cases, arith,
}
use booth_storage.Base.Pattern.{is_slug}
use booth_storage.Auth.{
  Role, is_role, group_match, rank, better, best_role, role_in_workspace, effective_role,
}
use booth_storage.Auth.Groups.{group_text, group_match_iff}

better-le :
    (ws : Bytes) (m : Option (Bytes × Role)) (best : Role) → rank best ≤ rank (better ws m best)
unfolding better
better-le ws none best = omega arith
better-le ws (some (w, r)) best = ground arith

best_role-le :
    (best : Role) (gs : List Bytes) (ws : Bytes) → rank best ≤ rank (best_role best gs ws)
unfolding best_role
best_role-le best [] ws = omega arith
best_role-le best (g ∷ gs) ws =
    omega (
      arith,
      better-le ws (group_match g) best,
      best_role-le (better ws (group_match g) best) gs ws,
    )

better_takes : (ws : Bytes) (r best : Role) → rank r ≤ rank (better ws (some (ws, r)) best)
unfolding better
better_takes ws r best = ground (arith, bytes_eq_iff ws ws)

best_role_max :
    (best : Role) (gs : List Bytes) (ws : Bytes) (r : Role)
    → is_slug ws ≡ true
    → is_role r ≡ true
    → contains gs (group_text ws r) ≡ true
    → rank r ≤ rank (best_role best gs ws)
unfolding best_role contains
best_role_max best [] ws r slug role h = cc
best_role_max best (g ∷ gs) ws r slug role h = elim (Bool-cases (bytes_eq g (group_text ws r))) [
  | inl same ↦
      let matched = (group_match_iff g ws r).1 ((bytes_eq_iff _ _).0 same, slug, role) in
      rw matched
        (omega (arith, better_takes ws r best, best_role-le (better ws (some (ws, r)) best) gs ws))
  | inr other ↦ best_role_max (better ws (group_match g) best) gs ws r slug role (rw other at h)
]

better_step :
    (ws : Bytes) (m : Option (Bytes × Role)) (best : Role)
    → (better ws m best ≡ best) ⊎ (m ≡ some (ws, better ws m best))
unfolding better
better_step ws none best = inl refl
better_step ws (some (w, r)) best = ground (arith, bytes_eq_iff w ws)

or_right : (a b : Bool) → b ≡ true → (a || b) ≡ true
or_right a b h = ground arith

or_left : (a b : Bool) → a ≡ true → (a || b) ≡ true
or_left a b h = ground arith

-- A role that is taken from the groups stands in them.
best_role_found :
    (best : Role) (gs : List Bytes) (ws : Bytes)
    → (best_role best gs ws ≡ best)
      ⊎ ((is_role (best_role best gs ws) ≡ true)
          × (is_slug ws ≡ true)
          × (contains gs (group_text ws (best_role best gs ws)) ≡ true))
unfolding best_role contains
best_role_found best [] ws = inl refl
best_role_found best (g ∷ gs) ws =
    let now = better ws (group_match g) best in
    elim (best_role_found now gs ws) [
      | inr (role, slug, listed) ↦ inr (role, slug, or_right _ _ listed)
      | inl kept ↦ elim (better_step ws (group_match g) best) [
        | inl same ↦ inl (kept ∙ same)
        | inr matched ↦
            let (text, slug, role) = (group_match_iff g ws now).0 matched in
            inr (
              rw kept role,
              slug,
              or_left _ _ ((bytes_eq_iff _ _).1 (text ∙ ap (group_text ws) (sym kept))),
            )
      ]
    ]

-- `RoleInWorkspace` gives no role, or one whose group is listed; and no listed group grants a
-- stronger one.
pub role_in_workspace_best :
    (gs : List Bytes) (ws : Bytes)
    → ((role_in_workspace gs ws ≡ [])
        ⊎ ((is_role (role_in_workspace gs ws) ≡ true)
            × (is_slug ws ≡ true)
            × (contains gs (group_text ws (role_in_workspace gs ws)) ≡ true)))
      × ((r : Role)
          → is_slug ws ≡ true
          → is_role r ≡ true
          → contains gs (group_text ws r) ≡ true
          → rank r ≤ rank (role_in_workspace gs ws))
unfolding role_in_workspace
role_in_workspace_best gs ws = (best_role_found [] gs ws, best_role_max [] gs ws)

pub rank_nil : rank [] ≡ 0
unfolding rank bytes_eq
rank_nil = refl

-- The effective role is never stronger than the granted one, nor than a forwarded one; without a
-- forwarded role it is the granted one, and a forwarded role of no rank leaves none.
pub effective_role_bounds :
    (forwarded granted : Role)
    → (rank (effective_role forwarded granted) ≤ rank granted)
      × (forwarded ≢ [] → rank (effective_role forwarded granted) ≤ rank forwarded)
      × (forwarded ≡ [] → effective_role forwarded granted ≡ granted)
      × (forwarded ≢ [] → rank forwarded ≡ 0 → effective_role forwarded granted ≡ [])
unfolding effective_role
effective_role_bounds forwarded granted = (
  ground (arith, bytes_eq_iff forwarded [], rank_nil),
  ground (arith, bytes_eq_iff forwarded [], rank_nil),
  ground (arith, bytes_eq_iff forwarded []),
  ground (arith, bytes_eq_iff forwarded []),
)

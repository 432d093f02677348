-- ===== src/Api/Routes.antt =====
-- `NewRouter` of internal/api/server.go: its routes, which of them need a token, and their role checks. The
-- matching of a URL with a route is the chi library's.
use booth_storage.Base.{
  ℕ, ◌≡◌, ◌⊎◌, refl, ap, inl, inr, Bool, true, false, bytes_eq, bytes_eq_iff, if◌then◌else◌, arith,
}
use booth_storage.Auth.{
  Identity, Admission, refused, admitted, can_read, can_write, is_admin, is_grants_service, require,
  role_grants_service,
}

pub data Route : Type 0 where
  healthz livez broker_credentials : Route
  get_kinds list_backends get_backend list_objects read_object stat_object : Route
  write_object : Route
  delete_object create_folder delete_folder move : Route
  admin_list admin_create admin_get admin_update admin_delete admin_test_saved admin_test_new :
      Route
  list_grants create_grant delete_grant : Route
  revoke_principal : Route

-- The routes outside the group that the authentication guards.
unfoldable pub is_public : Route → Bool
is_public healthz = true
is_public livez = true
is_public broker_credentials = true
is_public route = false

-- The check in front of a route's handler; two handlers behind the authentication do their own.
unfoldable pub gate : Route → Identity → Bool
gate healthz id = true
gate livez id = true
gate broker_credentials id = true
gate get_kinds id = can_read id
gate list_backends id = can_read id
gate get_backend id = can_read id
gate list_objects id = can_read id
gate read_object id = can_read id
gate stat_object id = can_read id
gate write_object id = true
gate delete_object id = can_write id
gate create_folder id = can_write id
gate delete_folder id = can_write id
gate move id = can_write id
gate admin_list id = is_admin id
gate admin_create id = is_admin id
gate admin_get id = is_admin id
gate admin_update id = is_admin id
gate admin_delete id = is_admin id
gate admin_test_saved id = is_admin id
gate admin_test_new id = is_admin id
gate list_grants id = is_admin id
gate create_grant id = is_admin id
gate delete_grant id = is_admin id
gate revoke_principal id = true

-- What becomes of a request: its handler runs, with or without an identity, or it is answered before.
pub data Reached : Type 0 where
  handled_openly : Reached
  handled : Identity → Reached
  answered : ℕ → Reached

abbrev after_require : Admission → Reached
after_require (refused code) = answered code
after_require (admitted id) = handled id

unfoldable pub enter : Route → Admission → Reached
enter route a = if is_public route then handled_openly else after_require (require (gate route) a)

role_checks :
    (id : Identity)
    → is_grants_service id ≡ true
    → (can_read id ≡ false) × (can_write id ≡ false) × (is_admin id ≡ false)
unfolding is_grants_service can_read can_write is_admin bytes_eq
role_checks id h = ground (arith, (bytes_eq_iff id.role role_grants_service).0 h)

-- The two routes whose handlers decide for themselves.
abbrev pub IsOwn : Route → Type 0
IsOwn route = (route ≡ write_object) ⊎ (route ≡ revoke_principal)

own_gate : (route : Route) (id : Identity) → IsOwn route → gate route id ≡ true
unfolding gate
own_gate route id (inl same) = ap (λ r. gate r id) same
own_gate route id (inr same) = ap (λ r. gate r id) same

own_private : (route : Route) → IsOwn route → is_public route ≡ false
unfolding is_public
own_private route (inl same) = ap is_public same
own_private route (inr same) = ap is_public same

-- How a route is guarded.
abbrev Guarded : Route → Identity → Type 0
Guarded route id =
    (is_public route ≡ true)
    ⊎ IsOwn route
    ⊎ ((is_public route ≡ false)
        × ((gate route id ≡ can_read id)
            ⊎ (gate route id ≡ can_write id)
            ⊎ (gate route id ≡ is_admin id)))

gated : (route : Route) (id : Identity) → Guarded route id
unfolding gate is_public
gated healthz id = inl refl
gated livez id = inl refl
gated broker_credentials id = inl refl
gated get_kinds id = inr (inr (refl, inl refl))
gated list_backends id = inr (inr (refl, inl refl))
gated get_backend id = inr (inr (refl, inl refl))
gated list_objects id = inr (inr (refl, inl refl))
gated read_object id = inr (inr (refl, inl refl))
gated stat_object id = inr (inr (refl, inl refl))
gated write_object id = inr (inl (inl refl))
gated delete_object id = inr (inr (refl, inr (inl refl)))
gated create_folder id = inr (inr (refl, inr (inl refl)))
gated delete_folder id = inr (inr (refl, inr (inl refl)))
gated move id = inr (inr (refl, inr (inl refl)))
gated admin_list id = inr (inr (refl, inr (inr refl)))
gated admin_create id = inr (inr (refl, inr (inr refl)))
gated admin_get id = inr (inr (refl, inr (inr refl)))
gated admin_update id = inr (inr (refl, inr (inr refl)))
gated admin_delete id = inr (inr (refl, inr (inr refl)))
gated admin_test_saved id = inr (inr (refl, inr (inr refl)))
gated admin_test_new id = inr (inr (refl, inr (inr refl)))
gated list_grants id = inr (inr (refl, inr (inr refl)))
gated create_grant id = inr (inr (refl, inr (inr refl)))
gated delete_grant id = inr (inr (refl, inr (inr refl)))
gated revoke_principal id = inr (inl (inr refl))

-- The service identity of the grants behind the authentication: it reaches the handlers of two routes, the
-- writing of an object and the revocation of a principal; the three public routes do not look at it; and
-- every other route answers it with 403.
pub service-enter :
    (route : Route) (id : Identity)
    → is_grants_service id ≡ true
    → (IsOwn route × (enter route (admitted id) ≡ handled id))
      ⊎ ((is_public route ≡ true) × (enter route (admitted id) ≡ handled_openly))
      ⊎ (¬ (IsOwn route) × (is_public route ≡ false) × (enter route (admitted id) ≡ answered 403))
unfolding enter require
service-enter route id service = elim (gated route id) [
  | inl open_route ↦ inr (inl (open_route, rw open_route refl))
  | inr (inl own) ↦ inl (own, rw (own_private route own, own_gate route id own) refl)
  | inr (inr (private, guard)) ↦
      let closed : gate route id ≡ false = ground (arith, role_checks id service, guard) in
      inr (inr (λ own. cc (closed, own_gate route id own), private, rw (private, closed) refl))
]

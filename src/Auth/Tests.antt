-- ===== src/Auth/Tests.antt =====
-- Instances of the theorems about roles and the middleware.
use booth_storage.Base.{
  ℕ, ◌≤◌, ◌≡◌, ◌≢◌, ◌⊎◌, refl, true, Option, none, some, [], ◌∷◌, Bytes, codes, bytes_eq, contains,
  arith, cut, cut_prefix, trim_space,
}
use booth_storage.Base.Pattern.{is_slug, slug_then}
use booth_storage.Auth.{
  Role, Claims, Identity, Headers, admitted, is_role, role_owner, rank, best_role, better,
  group_match, role_in_workspace, effective_role, grants_service_match, grants_service_workspace,
  bearer_token, admit_member, admit_claims, middleware, require, can_write, is_admin,
}
use booth_storage.Auth.Groups.{group_text}
use booth_storage.Auth.Roles.{role_in_workspace_best}
use booth_storage.Auth.Middleware.{IsGenuine, middleware_sound}
use booth_storage.Auth.Gates.{admin_needs_owner_group, unknown_role_admitted}

abbrev owner_claims : Claims
owner_claims = record {
  subject = codes "ada";
  groups = codes "/workspaces/lab/viewer" ∷ codes "/workspaces/lab/owner" ∷ [];
  booth_module = [];
}

abbrev verify_all : Bytes → Option Claims
verify_all token = some owner_claims

abbrev asked : Headers
asked = record { authorization = codes "Bearer t"; booth_workspace = codes "lab"; booth_role = [] }

abbrev odd : Headers
odd = record asked { booth_role = codes "auditor" }

abbrev ada : Role → Identity
ada r = record { subject = codes "ada"; workspace = codes "lab"; role = r }

runs : Unit {0}
unfolding middleware admit_claims admit_member grants_service_workspace grants_service_match
    role_in_workspace best_role better group_match rank effective_role bearer_token require is_admin
    can_write bytes_eq slug_then is_slug trim_space cut_prefix cut
runs = tt

let_in : middleware verify_all asked ≡ admitted (ada role_owner)
unfolding runs
let_in = refl

behind_admin : require is_admin (middleware verify_all asked) ≡ admitted (ada role_owner)
unfolding runs
behind_admin = refl

behind_write : require can_write (middleware verify_all asked) ≡ admitted (ada role_owner)
unfolding runs
behind_write = refl

role_in_workspace_best_example :
    ((role_in_workspace owner_claims.groups (codes "lab") ≡ [])
      ⊎ ((is_role (role_in_workspace owner_claims.groups (codes "lab")) ≡ true)
          × (is_slug (codes "lab") ≡ true)
          × (contains owner_claims.groups
                (group_text (codes "lab") (role_in_workspace owner_claims.groups (codes "lab")))
              ≡ true)))
    × ((r : Role)
        → is_slug (codes "lab") ≡ true
        → is_role r ≡ true
        → contains owner_claims.groups (group_text (codes "lab") r) ≡ true
        → rank r ≤ rank (role_in_workspace owner_claims.groups (codes "lab")))
role_in_workspace_best_example = role_in_workspace_best owner_claims.groups (codes "lab")

abbrev service_claims : Claims
service_claims = record {
  subject = codes "streamlit:lab:grants";
  groups = [];
  booth_module = codes "streamlit";
}

middleware_sound_example :
    (claims : Claims) × (verify_all (bearer_token asked.authorization) ≡ some claims)
    × IsGenuine claims asked (ada role_owner)
middleware_sound_example = middleware_sound verify_all asked (ada role_owner) let_in

admin_needs_owner_group_example :
    (claims : Claims) × (verify_all (bearer_token asked.authorization) ≡ some claims)
    × (contains claims.groups (group_text asked.booth_workspace role_owner) ≡ true)
admin_needs_owner_group_example =
    admin_needs_owner_group verify_all asked (ada role_owner) behind_admin

differs : (n : ℕ) (s : Bytes) → (n ∷ s) ≢ []
differs n s = ground arith

token_given : bearer_token odd.authorization ≢ []
unfolding runs
token_given = differs b't' []

no_service : grants_service_workspace owner_claims ≡ none
unfolding runs
no_service = refl

a_member : role_in_workspace owner_claims.groups odd.booth_workspace ≢ []
unfolding runs
a_member = differs b'o' (codes "wner")

unranked : rank odd.booth_role ≡ 0
unfolding runs
unranked = refl

unknown_role_admitted_example : middleware verify_all odd ≡ admitted (ada [])
unknown_role_admitted_example =
    unknown_role_admitted verify_all odd owner_claims token_given refl (differs b'l' (codes "ab"))
      no_service a_member (differs b'a' (codes "uditor")) unranked

-- ===== src/UploadGrant/Store.antt =====
-- internal/uploadgrant/memory.go: the grants in memory. The Go map from IDs is the list of its
-- entries; a lock makes each operation one step. `clone` copies a grant, which a value is already.
pub mod Laws
use booth_storage.Base.{
  ℕ, Bool, true, false, not, ◌&&◌, ◌||◌, Option, none, some, List, [], ◌∷◌, ◌++◌, Bytes, codes,
  bytes_eq, length, ltb, ◌==◌, Result, ok, err, if◌then◌else◌,
}
use booth_storage.Base.Assoc.{bytes_lt}
use booth_storage.UploadGrant.{Grant, GrantError, not_found}

abbrev pub Grants : Type 0
Grants = List Grant

unfoldable pub scope_key : Bytes → Bytes → Bytes → Bytes → Bytes
scope_key workspace principal backend_id prefix =
    workspace ++ (0 ∷ (principal ++ (0 ∷ (backend_id ++ 0 ∷ prefix))))

abbrev pub scope_of : Grant → Bytes
scope_of g = scope_key g.workspace g.principal g.backend_id g.prefix

-- The loop of `Upsert`: the first grant of the scope goes.
unfoldable pub drop_scope : Bytes → Grants → Grants
drop_scope target [] = []
drop_scope target (g ∷ gs) =
    let rest = drop_scope target gs in if bytes_eq (scope_of g) target then gs else g ∷ rest

-- `m.grants[id] = g`
unfoldable pub drop_id : Bytes → Grants → Grants
drop_id id [] = []
drop_id id (g ∷ gs) = let rest = drop_id id gs in if bytes_eq g.id id then rest else g ∷ rest

unfoldable pub upsert : Grant → Grants → Grants
upsert g gs = g ∷ drop_id g.id (drop_scope (scope_of g) gs)

unfoldable pub find_id : Bytes → Grants → Option Grant
find_id id [] = none
find_id id (g ∷ gs) = if bytes_eq g.id id then some g else find_id id gs

unfoldable pub get : Bytes → Bytes → Grants → Result GrantError Grant
get workspace id gs = elim (find_id id gs) [
  | none ↦ err not_found
  | some g ↦ if bytes_eq g.workspace workspace then ok g else err not_found
]

abbrev pub is_wanted : Bytes → Bytes → Grant → Bool
is_wanted workspace principal g =
    bytes_eq g.workspace workspace && (bytes_eq principal [] || bytes_eq g.principal principal)

unfoldable pub keep : (Grant → Bool) → Grants → Grants
keep p [] = []
keep p (g ∷ gs) = let rest = keep p gs in if p g then g ∷ rest else rest

-- `sort.Slice` by ID.
unfoldable pub insert_by_id : Grant → Grants → Grants
insert_by_id g [] = g ∷ []
insert_by_id g (h ∷ hs) =
    let rest = insert_by_id g hs in if bytes_lt h.id g.id then h ∷ rest else g ∷ h ∷ hs

unfoldable pub sort_by_id : Grants → Grants
sort_by_id [] = []
sort_by_id (g ∷ gs) = insert_by_id g (sort_by_id gs)

unfoldable pub list : Bytes → Bytes → Grants → Grants
list workspace principal gs = sort_by_id (keep (is_wanted workspace principal) gs)

unfoldable pub delete : Bytes → Bytes → Grants → Result GrantError (Unit {0}) × Grants
delete workspace id gs = elim (get workspace id gs) [
  | err e ↦ (err e, gs)
  | ok _ ↦ (ok tt, drop_id id gs)
]

abbrev pub is_held : Bytes → Bytes → Grant → Bool
is_held workspace principal g = bytes_eq g.workspace workspace && bytes_eq g.principal principal

unfoldable pub delete_by_principal : Bytes → Bytes → Grants → Grants × Grants
delete_by_principal workspace principal gs = (
  sort_by_id (keep (is_held workspace principal) gs),
  keep (λ g. not (is_held workspace principal g)) gs,
)

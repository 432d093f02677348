-- ===== src/UploadGrant/Store/Laws.antt =====
-- The invariant of internal/uploadgrant/memory.go: no two grants share an ID or a scope.
use booth_storage.Base.{
  ◌≢◌, subst, inl, inr, Bool, not, [], ◌∷◌, Bytes, bytes_eq, bytes_eq_iff, Bool-cases, arith,
}
use booth_storage.UploadGrant.{Grant}
use booth_storage.UploadGrant.Store.{
  Grants, scope_of, drop_scope, drop_id, upsert, keep, is_held, delete, delete_by_principal,
}

-- None of the grants has the ID or the scope of `g`.
unfoldable pub Apart : Grant → Grants → Type 0
Apart g [] = Unit {0}
Apart g (h ∷ hs) = (h.id ≢ g.id) × (scope_of h ≢ scope_of g) × Apart g hs

unfoldable pub IsUnique : Grants → Type 0
IsUnique [] = Unit {0}
IsUnique (g ∷ gs) = Apart g gs × IsUnique gs

Apart-drop_scope : (t : Bytes) (g : Grant) (gs : Grants) → Apart g gs → Apart g (drop_scope t gs)
unfolding Apart drop_scope
Apart-drop_scope t g [] h = tt
Apart-drop_scope t g (a ∷ gs) (i, s, h) = elim (Bool-cases (bytes_eq (scope_of a) t)) [
  | inl same ↦ ground (arith, same)
  | inr other ↦ ground (arith, other, Apart-drop_scope t g gs h)
]

Apart-drop_id : (t : Bytes) (g : Grant) (gs : Grants) → Apart g gs → Apart g (drop_id t gs)
unfolding Apart drop_id
Apart-drop_id t g [] h = tt
Apart-drop_id t g (a ∷ gs) (i, s, h) = ground (arith, Apart-drop_id t g gs h)

Apart-keep : (p : Grant → Bool) (g : Grant) (gs : Grants) → Apart g gs → Apart g (keep p gs)
unfolding Apart keep
Apart-keep p g [] h = tt
Apart-keep p g (a ∷ gs) (i, s, h) = ground (arith, Apart-keep p g gs h)

IsUnique-drop_scope : (t : Bytes) (gs : Grants) → IsUnique gs → IsUnique (drop_scope t gs)
unfolding IsUnique drop_scope
IsUnique-drop_scope t [] h = tt
IsUnique-drop_scope t (a ∷ gs) (r, h) =
    ground (arith, IsUnique-drop_scope t gs h, Apart-drop_scope t a gs r)

IsUnique-drop_id : (t : Bytes) (gs : Grants) → IsUnique gs → IsUnique (drop_id t gs)
unfolding IsUnique drop_id
IsUnique-drop_id t [] h = tt
IsUnique-drop_id t (a ∷ gs) (r, h) = ground (arith, IsUnique-drop_id t gs h, Apart-drop_id t a gs r)

IsUnique-keep : (p : Grant → Bool) (gs : Grants) → IsUnique gs → IsUnique (keep p gs)
unfolding IsUnique keep
IsUnique-keep p [] h = tt
IsUnique-keep p (a ∷ gs) (r, h) = ground (arith, IsUnique-keep p gs h, Apart-keep p a gs r)

-- No scope but the head's: what is apart from a grant of the scope has it nowhere.
unfoldable NoScope : Bytes → Grants → Type 0
NoScope t [] = Unit {0}
NoScope t (h ∷ hs) = (scope_of h ≢ t) × NoScope t hs

NoScope-Apart : (g : Grant) (gs : Grants) → Apart g gs → NoScope (scope_of g) gs
unfolding Apart NoScope
NoScope-Apart g [] h = tt
NoScope-Apart g (a ∷ gs) (i, s, h) = (s, NoScope-Apart g gs h)

NoScope-drop_scope : (t : Bytes) (gs : Grants) → IsUnique gs → NoScope t (drop_scope t gs)
unfolding IsUnique drop_scope NoScope
NoScope-drop_scope t [] h = tt
NoScope-drop_scope t (a ∷ gs) (r, h) = elim (Bool-cases (bytes_eq (scope_of a) t)) [
  | inl same ↦
      rw (same, drop_scope)
        (subst (λ u. NoScope u gs) ((bytes_eq_iff (scope_of a) t).0 same) (NoScope-Apart a gs r))
  | inr other ↦ ground (arith, other, NoScope-drop_scope t gs h, bytes_eq_iff (scope_of a) t)
]

Apart-upserted : (g : Grant) (gs : Grants) → NoScope (scope_of g) gs → Apart g (drop_id g.id gs)
unfolding Apart drop_id NoScope
Apart-upserted g [] h = tt
Apart-upserted g (a ∷ gs) (s, h) = ground (arith, Apart-upserted g gs h, bytes_eq_iff a.id g.id)

-- Storing a grant keeps the store without two grants of one ID or one scope.
pub upsert-IsUnique : (g : Grant) (gs : Grants) → IsUnique gs → IsUnique (upsert g gs)
unfolding upsert IsUnique
upsert-IsUnique g gs h = (
  Apart-upserted g (drop_scope (scope_of g) gs) (NoScope-drop_scope (scope_of g) gs h),
  IsUnique-drop_id g.id (drop_scope (scope_of g) gs) (IsUnique-drop_scope (scope_of g) gs h),
)

-- Deleting one grant, or all of a principal, keeps the store without two grants of one ID or one scope.
pub deletes-IsUnique :
    (workspace x : Bytes) (gs : Grants)
    → IsUnique gs
    → IsUnique (delete workspace x gs).1 × IsUnique (delete_by_principal workspace x gs).1
unfolding delete delete_by_principal
deletes-IsUnique workspace x gs h =
    ground (arith, IsUnique-drop_id x gs h, IsUnique-keep (λ g. not (is_held workspace x g)) gs h)

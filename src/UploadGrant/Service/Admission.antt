-- ===== src/UploadGrant/Service/Admission.antt =====
-- What the admission lookup of internal/uploadgrant/service.go finds, and what revoking leaves of it.
use booth_storage.Base.{
  ◌≡◌, ◌≢◌, ◌↔◌, ◌⊎◌, refl, sym, ap, ◌∙◌, inl, inr, Bool, true, false, not, ◌&&◌, none, some, [],
  ◌∷◌, ◌++◌, Bytes, bytes_eq, bytes_eq_iff, Lacks, Option-cases, Bool-cases, arith, ◌==◌,
}
use booth_storage.Backend.Path.{slash}
use booth_storage.Base.Assoc.{bytes_lt}
use booth_storage.UploadGrant.{Grant}
use booth_storage.UploadGrant.Store.{
  Grants, keep, insert_by_id, sort_by_id, list, is_wanted, is_held, delete_by_principal,
}
use booth_storage.UploadGrant.Service.{dir_of, find_match, match_for_upload}

-- A grant of the store.
unfoldable pub In : Grant → Grants → Type 0
In g [] = ⊥
In g (h ∷ hs) = (g ≡ h) ⊎ In g hs

In-insert : (g h : Grant) (gs : Grants) → In g (insert_by_id h gs) ↔ ((g ≡ h) ⊎ In g gs)
unfolding In insert_by_id
In-insert g h [] = ground arith
In-insert g h (a ∷ gs) = elim (Bool-cases (bytes_lt a.id h.id)) [
  | inl less ↦ ground (arith, less, In-insert g h gs)
  | inr more ↦ ground (arith, more)
]

In-sort : (g : Grant) (gs : Grants) → In g (sort_by_id gs) ↔ In g gs
unfolding In sort_by_id
In-sort g [] = ground arith
In-sort g (h ∷ gs) = ground (arith, In-insert g h (sort_by_id gs), In-sort g gs)

In-keep : (p : Grant → Bool) (g : Grant) (gs : Grants) → In g (keep p gs) ↔ (In g gs × (p g ≡ true))
unfolding In keep
In-keep p g [] = ground arith
In-keep p g (h ∷ gs) = elim (Bool-cases (p h)) [
  | inl kept ↦ ground (arith, kept, In-keep p g gs, λ (e : g ≡ h). ap p e)
  | inr gone ↦ ground (arith, gone, In-keep p g gs, λ (e : g ≡ h). ap p e)
]

-- The grants that admit a write.
abbrev pub Admits : Bytes → Bytes → Bytes → Bytes → Grant → Type 0
Admits workspace principal backend path g =
    (g.workspace ≡ workspace)
    × (g.principal ≡ principal)
    × (g.backend_id ≡ backend)
    × (g.prefix ≡ dir_of path)

find_match_sound :
    (backend dir : Bytes) (g : Grant) (gs : Grants)
    → find_match backend dir gs ≡ some g
    → In g gs × (g.backend_id ≡ backend) × (g.prefix ≡ dir)
unfolding In find_match
find_match_sound backend dir g [] h = ground arith
find_match_sound backend dir g (a ∷ gs) h =
    elim (Bool-cases (bytes_eq a.backend_id backend && bytes_eq a.prefix dir)) [
      | inl found ↦
          let same : a ≡ g = ground (arith, found) in
          let parts : (a.backend_id ≡ backend) × (a.prefix ≡ dir) =
            ground (arith, bytes_eq_iff a.backend_id backend, bytes_eq_iff a.prefix dir) in
          (
            inl (sym same),
            sym (ap (λ (x : Grant). x.backend_id) same) ∙ parts.0,
            sym (ap (λ (x : Grant). x.prefix) same) ∙ parts.1,
          )
      | inr other ↦ ground (arith, other, find_match_sound backend dir g gs)
    ]

find_match_complete :
    (backend dir : Bytes) (g : Grant) (gs : Grants)
    → find_match backend dir gs ≡ none
    → In g gs
    → ¬ ((g.backend_id ≡ backend) × (g.prefix ≡ dir))
unfolding In find_match
find_match_complete backend dir g [] h i = absurd i
find_match_complete backend dir g (a ∷ gs) h (inl same) = λ both. ground (
  arith,
  bytes_eq_iff a.backend_id backend,
  bytes_eq_iff a.prefix dir,
  sym (ap (λ (x : Grant). x.backend_id) same) ∙ both.0,
  sym (ap (λ (x : Grant). x.prefix) same) ∙ both.1,
)
find_match_complete backend dir g (a ∷ gs) h (inr later) =
    elim (Bool-cases (bytes_eq a.backend_id backend && bytes_eq a.prefix dir)) [
      | inl found ↦ ground (arith, found)
      | inr other ↦ find_match_complete backend dir g gs (ground (arith, other)) later
    ]

In-list :
    (workspace principal : Bytes) (g : Grant) (gs : Grants)
    → principal ≢ []
    → In g (list workspace principal gs)
      ↔ (In g gs × (g.workspace ≡ workspace) × (g.principal ≡ principal))
unfolding list
In-list workspace principal g gs given = ground (
  arith,
  In-sort g (keep (is_wanted workspace principal) gs),
  In-keep (is_wanted workspace principal) g gs,
  bytes_eq_iff g.workspace workspace,
  bytes_eq_iff g.principal principal,
  bytes_eq_iff principal [],
)

-- For a principal that is not empty, a grant that the lookup finds is in the store and admits the write: it is of that workspace,
-- principal and backend, and its prefix is the directory of the path. Where it finds none, no grant
-- of the store admits the write.
pub match_for_upload_lem :
    (workspace principal backend path : Bytes) (gs : Grants)
    → principal ≢ []
    → ((g : Grant)
        → match_for_upload workspace principal backend path gs ≡ some g
        → In g gs × Admits workspace principal backend path g)
      × (match_for_upload workspace principal backend path gs ≡ none
          → (g : Grant) → In g gs
          → ¬ (Admits workspace principal backend path g))
unfolding match_for_upload
match_for_upload_lem workspace principal backend path gs given = (sound, complete)
  where
    sound :
        (g : Grant)
        → match_for_upload workspace principal backend path gs ≡ some g
        → In g gs × Admits workspace principal backend path g
    sound g h = ground (
      arith,
      find_match_sound backend (dir_of path) g (list workspace principal gs) h,
      In-list workspace principal g gs given,
    )

    complete :
        match_for_upload workspace principal backend path gs ≡ none
        → (g : Grant) → In g gs
        → ¬ (Admits workspace principal backend path g)
    complete h g i (ws, p, b, d) =
        find_match_complete backend (dir_of path) g (list workspace principal gs) h
          ((In-list workspace principal g gs given).1 (i, ws, p)) (b, d)

-- What `RevokePrincipal` returns is the grants of the principal in the workspace, and what it leaves
-- is every other grant of the store.
pub delete_by_principal_lem :
    (workspace principal : Bytes) (gs : Grants) (g : Grant)
    → (In g (delete_by_principal workspace principal gs).0
        ↔ (In g gs × (g.workspace ≡ workspace) × (g.principal ≡ principal)))
      × (In g (delete_by_principal workspace principal gs).1
          ↔ (In g gs × ¬ ((g.workspace ≡ workspace) × (g.principal ≡ principal))))
unfolding delete_by_principal
delete_by_principal_lem workspace principal gs g = ground (
  arith,
  In-sort g (keep (is_held workspace principal) gs),
  In-keep (is_held workspace principal) g gs,
  In-keep (λ x. not (is_held workspace principal x)) g gs,
  bytes_eq_iff g.workspace workspace,
  bytes_eq_iff g.principal principal,
)

-- After a principal, not the empty one, is revoked, the lookup finds no grant for any write of it in that
-- workspace.
pub revoked-never_admitted :
    (workspace principal backend path : Bytes) (gs : Grants)
    → principal ≢ []
    → match_for_upload workspace principal backend path
        (delete_by_principal workspace principal gs).1
      ≡ none
revoked-never_admitted workspace principal backend path gs given =
    let left = (delete_by_principal workspace principal gs).1 in
    elim (Option-cases (match_for_upload workspace principal backend path left)) [
      | inl nothing ↦ nothing
      | inr (g, found) ↦
          let (i, (ws, p, _, _)) =
            (match_for_upload_lem workspace principal backend path left given).0 g found in
          absurd (((delete_by_principal_lem workspace principal gs g).1.0 i).1 (ws, p))
    ]

ne_nil : (p : Bytes) → (p ++ slash ∷ []) ≢ []
ne_nil [] = ground arith
ne_nil (c ∷ p) = ground arith

-- The directory of a path is what stands before its last segment: empty, or with a slash at its end.
pub dir_of_lem :
    (path : Bytes)
    → (base : Bytes) × (path ≡ dir_of path ++ base)
      × (Lacks slash base)
      × ((dir_of path ≡ []) ⊎ ((parent : Bytes) × (dir_of path ≡ parent ++ slash ∷ [])))
unfolding dir_of
dir_of_lem [] = ([], refl, tt, inl refl)
dir_of_lem (c ∷ path) =
    let (base, text, free, ends) = dir_of_lem path in
    elim ends [
      | inl top ↦ elim (Bool-cases (c == slash)) [
        | inl sep ↦ (base, ground (arith, text, top, sep), free, inr ([], ground (arith, top, sep)))
        | inr other ↦
            let none_yet : bytes_eq (dir_of path) [] ≡ true =
              ground (arith, bytes_eq_iff (dir_of path) [], top) in
            (
              c ∷ base,
              ground (arith, text, top, other, none_yet),
              (ground (arith, other), free),
              inl (ground (arith, top, other, none_yet)),
            )
      ]
      | inr (parent, last) ↦ elim (Bool-cases (c == slash)) [
        | inl sep ↦
            (base, ground (arith, text, sep), free, inr (c ∷ parent, ground (arith, last, sep)))
        | inr other ↦
            let full : bytes_eq (dir_of path) [] ≡ false =
              ground (arith, ne_nil parent, bytes_eq_iff (dir_of path) [], last) in
            (
              base,
              ground (arith, text, other, full),
              free,
              inr (c ∷ parent, ground (arith, last, other, full)),
            )
      ]
    ]

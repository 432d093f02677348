-- ===== src/Registry/Metadata/Laws.antt =====
-- What internal/registry/model.go documents of a metadata store, and that the one in
-- internal/registry/memory.go keeps it. `same` compares the keys of two backends.
use booth_storage.Base.{
  ◌≡◌, refl, sym, ap, ◌∙◌, inl, inr, Bool, true, some, Bytes, bytes_eq, bytes_eq_iff, Lacks,
  Option-cases, arith, ok, err, if◌then◌else◌, cut, cut_complete,
}
use booth_storage.Base.Assoc.{find, remove, put, find-put, find-remove}
use booth_storage.Base.Pattern.{is_slug-Lacks}
use booth_storage.Registry.{Record, RegistryError, not_found, validate_workspace}
use booth_storage.Registry.Metadata.{
  Stores, Records, key, edited, create_record, get_record, update_record, delete_record, memory,
}

abbrev pub same : Bytes → Bytes → Bytes → Bytes → Bool
same workspace id ws' id' = bytes_eq (key workspace id) (key ws' id')

pub record MetadataLaws {ℓ κ} {M : Type ℓ} {C : Type κ} (stores : Stores M C) : Type ℓ where
  pub by_key :
      (ws id ws' id' : Bytes) (m : M)
      → same ws id ws' id' ≡ true
      → stores.get ws id m ≡ stores.get ws' id' m
  pub create_done :
      (r : Record) (m : M)
      → (stores.create r m).0 ≡ ok tt
      → (stores.get r.workspace r.id m ≡ err not_found)
        × ((ws id : Bytes)
            → stores.get ws id (stores.create r m).1
              ≡ (if same r.workspace r.id ws id then ok r else stores.get ws id m))
  pub create_failed :
      (r : Record) (m : M) (e : RegistryError)
      → (stores.create r m).0 ≡ err e
      → (ws id : Bytes) → stores.get ws id (stores.create r m).1 ≡ stores.get ws id m
  pub delete_done :
      (ws id : Bytes) (m : M)
      → (stores.delete ws id m).0 ≡ ok tt
      → (ws' id' : Bytes)
      → stores.get ws' id' (stores.delete ws id m).1
        ≡ (if same ws id ws' id' then err not_found else stores.get ws' id' m)
  pub update_done :
      (r cur : Record) (m : M)
      → stores.get r.workspace r.id m ≡ ok cur
      → (stores.update r m).0 ≡ ok tt
      → (ws id : Bytes)
      → stores.get ws id (stores.update r m).1
        ≡ (if same r.workspace r.id ws id then ok (edited cur r) else stores.get ws id m)

workspace-Lacks : (ws : Bytes) → validate_workspace ws ≡ ok tt → Lacks b'/' ws
unfolding validate_workspace
workspace-Lacks ws h = is_slug-Lacks b'/' ws refl (ground arith)

pair_of_key : (ws id : Bytes) → validate_workspace ws ≡ ok tt → cut (key ws id) b'/' ≡ some (ws, id)
unfolding key
pair_of_key ws id h = cut_complete b'/' ws id (workspace-Lacks ws h)

some-injective : {a b : Bytes × Bytes} → some a ≡ some b → a ≡ b
some-injective h = cc

-- Two backends have one key only if they are one backend, where the workspaces are valid.
pub key-injective :
    (ws id ws' id' : Bytes)
    → validate_workspace ws ≡ ok tt
    → validate_workspace ws' ≡ ok tt
    → key ws id ≡ key ws' id'
    → (ws ≡ ws') × (id ≡ id')
key-injective ws id ws' id' h h' e =
    let both =
      some-injective
        (sym (pair_of_key ws id h) ∙ ap (λ k. cut k b'/') e ∙ pair_of_key ws' id' h') in
    (ap (λ x. x.0) both, ap (λ x. x.1) both)

get_put :
    (k ws id : Bytes) (r : Record) (m : Records)
    → get_record ws id (put k r m) ≡ (if bytes_eq k (key ws id) then ok r else get_record ws id m)
unfolding get_record
get_put k ws id r m = ground (arith, find-put k (key ws id) r m)

get_remove :
    (k ws id : Bytes) (m : Records)
    → get_record ws id (remove k m)
      ≡ (if bytes_eq k (key ws id) then err not_found else get_record ws id m)
unfolding get_record
get_remove k ws id m = ground (arith, find-remove k (key ws id) m)

memory_by_key :
    (ws id ws' id' : Bytes) (m : Records)
    → same ws id ws' id' ≡ true
    → get_record ws id m ≡ get_record ws' id' m
unfolding get_record
memory_by_key ws id ws' id' m h = rw ((bytes_eq_iff (key ws id) (key ws' id')).0 h, get_record) refl

memory_create_done :
    (r : Record) (m : Records)
    → (create_record r m).0 ≡ ok tt
    → (get_record r.workspace r.id m ≡ err not_found)
      × ((ws id : Bytes)
          → get_record ws id (create_record r m).1
            ≡ (if same r.workspace r.id ws id then ok r else get_record ws id m))
unfolding create_record get_record
memory_create_done r m h = elim (Option-cases (find (key r.workspace r.id) m)) [
  | inl free ↦ (
    rw (free, get_record) refl,
    λ ws id. rw (free, create_record) (get_put (key r.workspace r.id) ws id r m),
  )
  | inr (old, taken) ↦ cc (rw (taken, create_record) at h)
]

memory_create_failed :
    (r : Record) (m : Records) (e : RegistryError)
    → (create_record r m).0 ≡ err e
    → (ws id : Bytes) → get_record ws id (create_record r m).1 ≡ get_record ws id m
unfolding create_record
memory_create_failed r m e h ws id = elim (Option-cases (find (key r.workspace r.id) m)) [
  | inl free ↦ cc (rw (free, create_record) at h)
  | inr (old, taken) ↦ rw (taken, create_record) refl
]

memory_delete_done :
    (ws id : Bytes) (m : Records)
    → (delete_record ws id m).0 ≡ ok tt
    → (ws' id' : Bytes)
    → get_record ws' id' (delete_record ws id m).1
      ≡ (if same ws id ws' id' then err not_found else get_record ws' id' m)
unfolding delete_record
memory_delete_done ws id m h ws' id' = elim (Option-cases (find (key ws id) m)) [
  | inl missing ↦ cc (rw (missing, delete_record) at h)
  | inr (old, found) ↦ rw (found, delete_record) (get_remove (key ws id) ws' id' m)
]

get-eq-ok :
    (ws id : Bytes) (r : Record) (m : Records)
    → get_record ws id m ≡ ok r
    → find (key ws id) m ≡ some r
unfolding get_record
get-eq-ok ws id r m h = ground arith

memory_update_done :
    (r cur : Record) (m : Records)
    → get_record r.workspace r.id m ≡ ok cur
    → (update_record r m).0 ≡ ok tt
    → (ws id : Bytes)
    → get_record ws id (update_record r m).1
      ≡ (if same r.workspace r.id ws id then ok (edited cur r) else get_record ws id m)
unfolding update_record
memory_update_done r cur m h _ ws id =
    rw (get-eq-ok r.workspace r.id cur m h, update_record)
      (get_put (key r.workspace r.id) ws id (edited cur r) m)

-- The store in memory keeps what a metadata store promises.
pub memory_laws : MetadataLaws memory
memory_laws = record {
  by_key = memory_by_key;
  create_done = memory_create_done;
  create_failed = memory_create_failed;
  delete_done = memory_delete_done;
  update_done = memory_update_done;
}

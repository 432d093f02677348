-- ===== src/Registry/Service/Registering.antt =====
-- What registering a backend leaves behind, by `Create` of internal/registry/service.go.
use booth_storage.Base.{
  ℕ, ◌≡◌, refl, sym, ap, ◌∙◌, inl, inr, not, Bytes, bytes_eq_iff, Result-cases, Bool-cases, arith,
  Result, ok, err, >>=-eq-ok, refuse_if, codes,
}
use booth_storage.Backend.{kind_valid}
use booth_storage.Registry.{
  Record, RegistryError, Credentials, not_found, invalid, validate_workspace, validate_id,
  validate_credentials,
}
use booth_storage.Registry.Metadata.{Stores, key}
use booth_storage.Registry.Metadata.Laws.{MetadataLaws}
use booth_storage.Registry.Service.{
  Platform, State, CreateInput, build_record, store_new_creds, create, is_empty, name_or_id,
  ready_root, as_invalid,
}

abbrev ok_record : Record → Result RegistryError Record
ok_record r = ok r

record-injective : {a b : Record} → ok_record a ≡ ok_record b → a ≡ b
record-injective h = cc

module _ {ℓ κ ν} {M : Type ℓ} {C : Type κ} {B : Type ν} (stores : Stores M C) (p : Platform B) where
  -- The rollback takes the reserved record away again.
  rolled_back :
      (laws : MetadataLaws stores) (r : Record) (m : M) (ws id : Bytes)
      → (stores.create r m).0 ≡ ok tt
      → (stores.delete r.workspace r.id (stores.create r m).1).0 ≡ ok tt
      → stores.get ws id (stores.delete r.workspace r.id (stores.create r m).1).1
        ≡ stores.get ws id m
  rolled_back laws r m ws id made deleted = ground (
    arith,
    laws.create_done r m made,
    (laws.create_done r m made).1 ws id,
    laws.delete_done r.workspace r.id (stores.create r m).1 deleted ws id,
    laws.by_key r.workspace r.id ws id m,
  )

  reserved :
      (laws : MetadataLaws stores) (r : Record) (m : M)
      → (stores.create r m).0 ≡ ok tt
      → stores.get r.workspace r.id (stores.create r m).1 ≡ ok r
  reserved laws r m made = ground (
    arith,
    (laws.create_done r m made).1 r.workspace r.id,
    bytes_eq_iff (key r.workspace r.id) (key r.workspace r.id),
  )

  build_record_names :
      (now : ℕ) (workspace actor : Bytes) (i : CreateInput) (r : Record)
      → build_record stores p now workspace actor i ≡ ok r
      → (r.workspace ≡ workspace) × (r.id ≡ i.id)
  unfolding build_record
  build_record_names now workspace actor i r h =
      let (_, _, h1) = >>=-eq-ok (validate_workspace workspace) _ h in
      let (_, _, h2) = >>=-eq-ok (validate_id i.id) _ h1 in
      let (name, _, h3) = >>=-eq-ok (name_or_id i.display_name i.id) _ h2 in
      let (_, _, h4) =
        >>=-eq-ok (refuse_if (not (kind_valid i.kind)) (invalid (codes "kind"))) _ h3 in
      let (config, _, h5) = >>=-eq-ok (p.normalize_config i.kind i.config workspace) _ h4 in
      let (_, _, h6) =
        >>=-eq-ok (validate_credentials p.service_account i.kind i.credentials) _ h5 in
      let (_, _, h7) = >>=-eq-ok (ready_root stores p i.kind config) _ h6 in
      let (_, _, h8) =
        >>=-eq-ok (as_invalid (p.build_backend i.kind config i.credentials workspace)) _ h7 in
      (
        ap (λ (x : Record). x.workspace) (sym (record-injective h8)),
        ap (λ (x : Record). x.id) (sym (record-injective h8)),
      )

  store_new_creds-eq-err :
      (r : Record) (creds : Credentials) (s : State M C B) (e : RegistryError)
      → (store_new_creds stores p r creds s).0 ≡ err e
      → (store_new_creds stores p r creds s).1.meta ≡ (stores.delete r.workspace r.id s.meta).1
  unfolding store_new_creds
  store_new_creds-eq-err r creds s e h = elim (Bool-cases (is_empty creds)) [
    | inl nothing ↦ cc (rw (nothing, store_new_creds) at h)
    | inr given ↦ elim (Result-cases (stores.put_creds r.workspace r.id creds s.creds).0) [
      | inl (_, stored) ↦ cc (rw (given, stored, store_new_creds) at h)
      | inr (_, failed_put) ↦ rw (given, failed_put, store_new_creds) refl
    ]
  ]

  -- Over a metadata store that keeps its laws, a creation that answers with an error leaves every record as it was, also where the credentials could
  -- not be written after the ID was reserved, if the store's deletions succeed.
  pub create-eq-err :
      (laws : MetadataLaws stores) (now : ℕ) (workspace actor : Bytes) (i : CreateInput)
      (s : State M C B) (e : RegistryError) (ws id : Bytes)
      → ((ws id : Bytes) (m : M) (r : Record)
          → stores.get ws id m ≡ ok r
          → (stores.delete ws id m).0 ≡ ok tt)
      → (create stores p now workspace actor i s).0 ≡ err e
      → stores.get ws id (create stores p now workspace actor i s).1.meta ≡ stores.get ws id s.meta
  unfolding create
  create-eq-err laws now workspace actor i s e ws id deletes h =
      elim (Result-cases (build_record stores p now workspace actor i)) [
        | inr (_, bad) ↦ rw (bad, create) refl
        | inl (r, good) ↦ elim (Result-cases (stores.create r s.meta).0) [
          | inr (_, taken) ↦ rw (good, taken, create) (laws.create_failed r s.meta _ taken ws id)
          | inl (_, made) ↦
              let left : State M C B = record {
                meta = (stores.create r s.meta).1;
                creds = s.creds;
                cache = s.cache;
              } in
              let undone =
                store_new_creds-eq-err r i.credentials left e (rw (good, made, create) at h) in
              rw (good, made, create)
                (ap (stores.get ws id) undone
                  ∙ rolled_back laws r s.meta ws id made (
                      deletes r.workspace r.id (stores.create r s.meta).1 r
                        (reserved laws r s.meta made)))
        ]
      ]

  -- Over a metadata store that keeps its laws, a request with the ID of a registered backend is refused, and the credentials of every backend are
  -- untouched.
  pub create-taken :
      (laws : MetadataLaws stores) (now : ℕ) (workspace actor : Bytes) (i : CreateInput)
      (s : State M C B) (old : Record)
      → stores.get workspace i.id s.meta ≡ ok old
      → ((e : RegistryError) × ((create stores p now workspace actor i s).0 ≡ err e))
        × ((create stores p now workspace actor i s).1.creds ≡ s.creds)
  unfolding create
  create-taken laws now workspace actor i s old h =
      elim (Result-cases (build_record stores p now workspace actor i)) [
        | inr (e, bad) ↦ ((e, rw (bad, create) refl), rw (bad, create) refl)
        | inl (r, good) ↦ elim (Result-cases (stores.create r s.meta).0) [
          | inr (e, taken) ↦ ((e, rw (good, taken, create) refl), rw (good, taken, create) refl)
          | inl (_, made) ↦
              let names = build_record_names now workspace actor i r good in
              let free = (laws.create_done r s.meta made).0 in
              let old_here : stores.get r.workspace r.id s.meta ≡ ok old =
                rw (names.0, names.1) h in
              let clash : err not_found ≡ ok old = sym free ∙ old_here in cc
        ]
      ]

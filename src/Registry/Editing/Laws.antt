-- ===== src/Registry/Editing/Laws.antt =====
-- What an update may change, by `prepareUpdate` and `Update` of internal/registry/service.go.
use booth_storage.Base.{
  ℕ, ◌<◌, ◌≡◌, ◌≢◌, refl, sym, ap, ◌∙◌, subst, inl, inr, Bool, false, none, [], Bytes, bytes_eq,
  bytes_eq_iff, Result-cases, arith, Result, ok, if◌then◌else◌, >>=-eq-ok,
}
use booth_storage.Base.Assoc.{find, find-remove}
use booth_storage.Registry.{Record, RegistryError}
use booth_storage.Registry.Metadata.{Stores, key}
use booth_storage.Registry.Service.{
  Platform, State, UpdateInput, PreparedUpdate, as_invalid, get, ready_root,
}
use booth_storage.Registry.Editing.{
  new_name, stamp, new_config, used_creds, prepare_update, replace_creds, store_update, update,
}

-- What an update leaves of a record and what it moves: the key, the kind and the creation stay, the time of
-- the change grows, and the probe's finding stays only where the configuration does.
pub record IsEdit (i : UpdateInput) (r q : Record) : Type 0 where
  pub workspace_kept : q.workspace ≡ r.workspace
  pub id_kept : q.id ≡ r.id
  pub kind_kept : q.kind ≡ r.kind
  pub creator_kept : q.created_by ≡ r.created_by
  pub creation_kept : q.created_at ≡ r.created_at
  pub later : r.updated_at < q.updated_at
  pub config_same :
      i.config ≡ [] → (q.config ≡ r.config) × (q.create_only_verified ≡ r.create_only_verified)
  pub config_new : i.config ≢ [] → q.create_only_verified ≡ false

stamp_later : (now prev : ℕ) → prev < stamp now prev
unfolding stamp
stamp_later now prev = ground arith

abbrev pub ok_update : PreparedUpdate → Result RegistryError PreparedUpdate
ok_update u = ok u

abbrev pub ok_config : Bytes × Bool → Result RegistryError (Bytes × Bool)
ok_config c = ok c

config-injective : {a b : Bytes × Bool} → ok_config a ≡ ok_config b → a ≡ b
config-injective h = cc

abbrev pub ok_record : Record → Result RegistryError Record
ok_record r = ok r

record-injective : {a b : Record} → ok_record a ≡ ok_record b → a ≡ b
record-injective h = cc

update-injective : {a b : PreparedUpdate} → ok_update a ≡ ok_update b → a ≡ b
update-injective h = cc

module _ {ℓ κ ν} {M : Type ℓ} {C : Type κ} {B : Type ν} (stores : Stores M C) (p : Platform B) where
  new_config_same :
      (raw workspace : Bytes) (r : Record) (config : Bytes × Bool)
      → raw ≡ []
      → new_config stores p raw workspace r ≡ ok config
      → (config.0 ≡ r.config) × (config.1 ≡ r.create_only_verified)
  unfolding new_config
  new_config_same raw workspace r config given h =
      let kept : ok_config (r.config, r.create_only_verified) ≡ ok config =
        rw ((bytes_eq_iff raw []).1 given, new_config) at h in
      (
        sym (ap (λ (c : Bytes × Bool). c.0) (config-injective kept)),
        sym (ap (λ (c : Bytes × Bool). c.1) (config-injective kept)),
      )

  new_config_reset :
      (raw workspace : Bytes) (r : Record) (config : Bytes × Bool)
      → raw ≢ []
      → new_config stores p raw workspace r ≡ ok config
      → config.1 ≡ false
  unfolding new_config
  new_config_reset raw workspace r config given h =
      let other : bytes_eq raw [] ≡ false = ground (arith, bytes_eq_iff raw []) in
      let (c, _, last) =
        >>=-eq-ok (p.normalize_config r.kind raw workspace) _ (rw (other, new_config) at h) in
      sym (ap (λ (c : Bytes × Bool). c.1) (config-injective last))

  -- A prepared update is an edit of the stored record.
  pub prepare_update-IsEdit :
      (now : ℕ) (workspace id : Bytes) (i : UpdateInput) (s : State M C B) (u : PreparedUpdate)
      → prepare_update stores p now workspace id i s ≡ ok u
      → (r : Record) × (get stores p workspace id s ≡ ok r) × IsEdit i r u.rec
  unfolding prepare_update
  prepare_update-IsEdit now workspace id i s u h =
      let (r, found, h1) = >>=-eq-ok (get stores p workspace id s) _ h in
      let (name, _, h2) = >>=-eq-ok (new_name i.display_name id r) _ h1 in
      let (config, moved, h3) = >>=-eq-ok (new_config stores p i.config workspace r) _ h2 in
      let (creds, _, h4) = >>=-eq-ok (used_creds stores p i.credentials r workspace id s) _ h3 in
      let (b, _, h5) =
        >>=-eq-ok (as_invalid (p.build_backend r.kind config.0 creds workspace)) _ h4 in
      let same = ap (λ (x : PreparedUpdate). x.rec) (update-injective h5) in
      (
        r,
        found,
        subst (IsEdit i r) same (record {
          workspace_kept = refl;
          id_kept = refl;
          kind_kept = refl;
          creator_kept = refl;
          creation_kept = refl;
          later = stamp_later now r.updated_at;
          config_same = λ given. new_config_same i.config workspace r config given moved;
          config_new = λ given. new_config_reset i.config workspace r config given moved;
        }),
      )

  store_update_lem :
      (r q : Record) (workspace id : Bytes) (s : State M C B)
      → (store_update stores p r workspace id s).0 ≡ ok q
      → (q ≡ r)
        × (find (key workspace id) (store_update stores p r workspace id s).1.cache ≡ none)
        × ((store_update stores p r workspace id s).1.meta ≡ (stores.update r s.meta).1)
  unfolding store_update
  store_update_lem r q workspace id s h = elim (Result-cases (stores.update r s.meta).0) [
    | inr (e, bad) ↦ cc (rw (bad, store_update) at h)
    | inl (_, done) ↦ (
      sym (record-injective (rw (done, store_update) at h)),
      rw (done, store_update)
          (ground (
            arith,
            find-remove (key workspace id) (key workspace id) s.cache,
            bytes_eq_iff (key workspace id) (key workspace id),
          )),
      rw (done, store_update) refl,
    )
  ]

  -- An update that succeeds answers with an edit of the stored record, hands it to the metadata store, and
  -- leaves no open client of the backend in the cache.
  pub update_lem :
      (now : ℕ) (workspace id : Bytes) (i : UpdateInput) (s : State M C B) (q : Record)
      → (update stores p now workspace id i s).0 ≡ ok q
      → ((r : Record) × (get stores p workspace id s ≡ ok r) × IsEdit i r q)
        × ((update stores p now workspace id i s).1.meta ≡ (stores.update q s.meta).1)
        × (find (key workspace id) (update stores p now workspace id i s).1.cache ≡ none)
  unfolding update
  update_lem now workspace id i s q h =
      elim (Result-cases (prepare_update stores p now workspace id i s)) [
        | inr (e, bad) ↦ cc (rw (bad, update) at h)
        | inl (u, good) ↦
            elim (Result-cases (
              if bytes_eq i.config []
              then ok tt
              else ready_root stores p u.rec.kind u.rec.config)) [
                | inr (e, bad) ↦ cc (rw (good, bad, update) at h)
                | inl (_, ready) ↦
                    elim (Result-cases
                      (replace_creds stores p u.new_creds workspace id s.creds).0) [
                        | inr (e, bad) ↦ cc (rw (good, ready, bad, update) at h)
                        | inl (_, replaced) ↦
                            let left : State M C B = record {
                              meta = s.meta;
                              creds = (replace_creds stores p u.new_creds workspace id s.creds).1;
                              cache = s.cache;
                            } in
                            let (same, gone, stored) =
                              store_update_lem u.rec q workspace id left
                                (rw (good, ready, replaced, update) at h) in
                            let (r, found, edit) =
                              prepare_update-IsEdit now workspace id i s u good in
                            (
                              (r, found, subst (IsEdit i r) (sym same) edit),
                              rw (good, ready, replaced, update)
                                  (stored
                                    ∙ ap (λ (x : Record). (stores.update x s.meta).1) (sym same)),
                              rw (good, ready, replaced, update) gone,
                            )
                      ]
              ]
      ]

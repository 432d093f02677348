-- ===== src/Registry/Opening/Laws.antt =====
-- Which client `Open` of internal/registry/service.go answers with.
use booth_storage.Base.{
  ℕ, ◌+◌, ◌<◌, ◌≡◌, ◌⊎◌, refl, true, false, [], sym, ap, ◌∙◌, subst, inl, inr, Option, none, some,
  Bytes, bytes_eq_iff, Option-cases, Result-cases, Bool-cases, arith, Result, ok, err, >>=-eq-ok,
}
use booth_storage.Base.Assoc.{Assoc, find, put, find-put}
use booth_storage.Registry.{Record, RegistryError, Credentials, failed}
use booth_storage.Registry.Metadata.{Stores, key}
use booth_storage.Registry.Service.{Platform, State, Cached, open_cache_ttl, get}
use booth_storage.Registry.Opening.{is_current, cached_for, open_creds, build, open_backend}

module _ {ν} {B : Type ν} where
  -- A cached client that is used is one of this state of the record, and not yet ten minutes old.
  abbrev pub IsFresh : ℕ → Record → Option (Cached B) → B → Type ν
  IsFresh now r found b =
      (c : Cached B) × (found ≡ some c)
      × (c.updated_at ≡ r.updated_at)
      × (now < c.loaded_at + open_cache_ttl)
      × (b ≡ c.opened)

  some-injective : {a b : B} → some a ≡ some b → a ≡ b
  some-injective h = cc

  abbrev pub ok_client : B → Result RegistryError B
  ok_client b = ok b

  ok-injective : {a b : B} → ok_client a ≡ ok_client b → a ≡ b
  ok-injective h = cc

  found_now : (k : Bytes) (c : Cached B) (m : Assoc (Cached B)) → find k (put k c m) ≡ some c
  found_now k c m = ground (arith, find-put k k c m, bytes_eq_iff k k)

  cached_for_lem :
      (now : ℕ) (r : Record) (found : Option (Cached B)) (b : B)
      → cached_for now r found ≡ some b
      → IsFresh now r found b
  unfolding cached_for is_current
  cached_for_lem now r none b h = cc
  cached_for_lem now r (some c) b h = elim (Bool-cases (is_current now r c)) [
    | inr stale ↦ cc (rw (stale, cached_for) at h)
    | inl current ↦ (
      c,
      refl,
      ground (arith, current),
      ground (arith, current),
      sym (some-injective (rw (current, cached_for) at h)),
    )
  ]

module _ {ℓ κ ν} {M : Type ℓ} {C : Type κ} {B : Type ν} (stores : Stores M C) (p : Platform B) where
  -- The credentials that a record's client is opened with: those that are stored for it, or none where the
  -- record says that it has none.
  abbrev pub Stored : Record → Bytes → Bytes → State M C B → Credentials → Type 0
  Stored r workspace id s creds =
      ((r.has_credentials ≡ true) × (stores.get_creds workspace id s.creds ≡ ok creds))
      ⊎ ((r.has_credentials ≡ false) × (creds ≡ []))

  -- A client that the platform builds from the record's kind and configuration and these credentials.
  abbrev pub Builds : Record → Bytes → Bytes → State M C B → B → Type ν
  Builds r workspace id s b =
      (creds : Credentials) × Stored r workspace id s creds
      × (p.build_backend r.kind r.config creds workspace ≡ ok b)

  open_held :
      (r : Record) (workspace id : Bytes) (s : State M C B) (creds : Credentials)
      → r.has_credentials ≡ true
      → open_creds stores p r workspace id s ≡ ok creds
      → stores.get_creds workspace id s.creds ≡ ok creds
  unfolding open_creds
  open_held r workspace id s creds held h = ground (arith, h, held)

  open_creds_lem :
      (r : Record) (workspace id : Bytes) (s : State M C B) (creds : Credentials)
      → open_creds stores p r workspace id s ≡ ok creds
      → Stored r workspace id s creds
  unfolding open_creds
  open_creds_lem r workspace id s creds h = elim (Bool-cases r.has_credentials) [
    | inl held ↦ inl (held, open_held r workspace id s creds held h)
    | inr bare ↦ inr (bare, ground (arith, h, bare))
  ]

  build_lem :
      (r : Record) (workspace id : Bytes) (s : State M C B) (b : B)
      → build stores p r workspace id s ≡ ok b
      → Builds r workspace id s b
  unfolding build
  build_lem r workspace id s b h =
      let (creds, opened, rest) =
        >>=-eq-ok (open_creds stores p r workspace id s)
          (λ creds. elim (p.build_backend r.kind r.config creds workspace) [
            | ok b ↦ ok_client b
            | err e ↦ err (failed e)
          ])
          h in
      elim (Result-cases (p.build_backend r.kind r.config creds workspace)) [
        | inr (e, bad) ↦ cc (rw bad at rest)
        | inl (a, built) ↦ (
          creds,
          open_creds_lem r workspace id s creds opened,
          built ∙ ap ok (ok-injective (rw built at rest)),
        )
      ]

  -- An opened client is either a cached one, built for the record as it is now and less than ten minutes
  -- old, or newly built by the platform from the record's kind and configuration and the credentials
  -- that are stored for it (none where the record has none); then it is in the cache, marked with the
  -- record's time of change. The stores are not written.
  pub open_backend_lem :
      (now later : ℕ) (workspace id : Bytes) (s : State M C B) (b : B)
      → (open_backend stores p now later workspace id s).0 ≡ ok b
      → (r : Record) × (get stores p workspace id s ≡ ok r)
        × (IsFresh now r (find (key workspace id) s.cache) b
            ⊎ (Builds r workspace id s b
                × (find (key workspace id) (open_backend stores p now later workspace id s).1.cache
                    ≡ some (record { updated_at = r.updated_at; loaded_at = later; opened = b }))))
        × ((open_backend stores p now later workspace id s).1.meta ≡ s.meta)
        × ((open_backend stores p now later workspace id s).1.creds ≡ s.creds)
  unfolding open_backend
  open_backend_lem now later workspace id s b h =
      elim (Result-cases (get stores p workspace id s)) [
        | inr (e, bad) ↦ cc (rw (bad, open_backend) at h)
        | inl (r, found) ↦
            elim (Option-cases (cached_for now r (find (key workspace id) s.cache))) [
              | inr (a, hit) ↦
                  let same = ok-injective (rw (found, hit, open_backend) at h) in
                  (
                    r,
                    found,
                    inl (
                        subst (IsFresh now r (find (key workspace id) s.cache)) same
                          (cached_for_lem now r (find (key workspace id) s.cache) a hit)),
                    rw (found, hit, open_backend) refl,
                    rw (found, hit, open_backend) refl,
                  )
              | inl miss ↦ elim (Result-cases (build stores p r workspace id s)) [
                | inr (e, bad) ↦ cc (rw (found, miss, bad, open_backend) at h)
                | inl (a, built) ↦
                    let same = ok-injective (rw (found, miss, built, open_backend) at h) in
                    (
                      r,
                      found,
                      inr (
                        build_lem r workspace id s b (built ∙ ap ok same),
                        rw (found, miss, built, open_backend)
                            (found_now (key workspace id)
                                (record {
                                  updated_at = r.updated_at;
                                  loaded_at = later;
                                  opened = a;
                                })
                                s.cache
                              ∙ ap
                                  (λ x. some (record {
                                    updated_at = r.updated_at;
                                    loaded_at = later;
                                    opened = x;
                                  }))
                                  same),
                      ),
                      rw (found, miss, built, open_backend) refl,
                      rw (found, miss, built, open_backend) refl,
                    )
              ]
            ]
      ]

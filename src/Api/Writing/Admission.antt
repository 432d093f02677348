-- ===== src/Api/Writing/Admission.antt =====
-- Which writes `handleWriteObject` of internal/api/server.go makes.
use booth_storage.Base.{
  ℕ, ◌≡◌, ◌≢◌, refl, ap, ◌∙◌, subst, inl, inr, ℤ, pos, negsuc, true, false, not, ◌||◌, Option, none,
  some, [], Bytes, Option-cases, Result-cases, Bool-cases, arith, Result, ok, >>=-eq-ok,
  if◌then◌else◌,
}
use booth_storage.Backend.Path.{clean_path}
use booth_storage.Auth.{can_write}
use booth_storage.UploadGrant.{Grant, has_extension}
use booth_storage.UploadGrant.Store.{Grants}
use booth_storage.UploadGrant.Service.{is_positive, match_for_upload}
use booth_storage.UploadGrant.Service.Admission.{In, Admits, match_for_upload_lem}
use booth_storage.Registry.{Record, supports_create_only}
use booth_storage.Registry.Metadata.{Stores}
use booth_storage.Registry.Service.{Platform, State, get}
use booth_storage.Api.Writing.{
  WriteRequest, Plan, Lookup, less, body_limit, wants_create_only, admit_grant, cleaned,
  check_create_only, opened, admit, plan,
}

-- The lookup over the store in memory, which never fails.
abbrev pub in_store : Grants → Lookup
in_store gs workspace principal backend path =
    ok (match_for_upload workspace principal backend path gs)

-- Why a write of a clean path is let in: by the role, or as a create-only write by a grant of the store.
abbrev pub IsLetIn : Grants → WriteRequest → Bytes → Option Grant → Type 0
IsLetIn gs q clean none = can_write q.identity ≡ true
IsLetIn gs q clean (some g) =
    (wants_create_only q ≡ true)
    × In g gs
    × Admits q.identity.workspace q.identity.subject q.backend_id clean g
    × (has_extension clean g.extensions ≡ true)

cleaned-eq-ok : (path clean : Bytes) → cleaned path ≡ ok clean → clean_path path ≡ ok clean
unfolding cleaned
cleaned-eq-ok path clean h = ground arith

abbrev pub ok_status {ℓ} : {A : Type ℓ} → A → Result ℕ A
ok_status a = ok a

pub ok-injective {ℓ} : {A : Type ℓ} {a b : A} → ok_status a ≡ ok_status b → a ≡ b
ok-injective h = cc

admit_grant-eq-ok :
    (gs : Grants) (q : WriteRequest) (clean : Bytes) (grant : Option Grant)
    → q.identity.subject ≢ []
    → admit_grant (in_store gs) q clean ≡ ok grant
    → IsLetIn gs q clean grant
unfolding admit_grant
admit_grant-eq-ok gs q clean grant named h = elim (Bool-cases (can_write q.identity)) [
  | inl may ↦ subst (IsLetIn gs q clean) (ok-injective (rw (may, admit_grant) at h)) may
  | inr below ↦ elim (Bool-cases (wants_create_only q)) [
    | inr plain ↦ cc (rw (below, plain, admit_grant) at h)
    | inl wants ↦
        elim (Option-cases
          (match_for_upload q.identity.workspace q.identity.subject q.backend_id clean gs)) [
            | inl missing ↦ cc (rw (below, wants, missing, admit_grant) at h)
            | inr (g, found) ↦ elim (Bool-cases (has_extension clean g.extensions)) [
              | inr other ↦ cc (rw (below, wants, found, other, admit_grant) at h)
              | inl allowed ↦
                  let (stored, admits) =
                    (match_for_upload_lem q.identity.workspace q.identity.subject q.backend_id clean
                        gs named).0
                      g found in
                  subst (IsLetIn gs q clean)
                    (ok-injective (rw (below, wants, found, allowed, admit_grant) at h))
                    (wants, stored, admits, allowed)
            ]
          ]
  ]
]

module _ {ℓ κ ν} {M : Type ℓ} {C : Type κ} {B : Type ν} (stores : Stores M C) (p : Platform B)
    (limit : ℤ) where
  -- The record that a create-only write rests on.
  abbrev pub IsProven : WriteRequest → State M C B → Type 0
  IsProven q s =
      (r : Record) × (get stores p q.identity.workspace q.backend_id s ≡ ok r)
      × (supports_create_only r ≡ true)

  check_create_only-eq-ok :
      (lookup : Lookup) (q : WriteRequest) (s : State M C B) (u : Unit {0})
      → check_create_only stores p lookup limit q s ≡ ok u
      → wants_create_only q ≡ true
      → IsProven q s
  unfolding check_create_only
  check_create_only-eq-ok lookup q s u h wants =
      elim (Result-cases (get stores p q.identity.workspace q.backend_id s)) [
        | inr (e, bad) ↦ cc (rw (wants, bad, check_create_only) at h)
        | inl (r, good) ↦ elim (Bool-cases (supports_create_only r)) [
          | inl proven ↦ (r, good, proven)
          | inr other ↦ cc (rw (wants, good, other, check_create_only) at h)
        ]
      ]

  admit-eq-ok :
      (gs : Grants) (q : WriteRequest) (s : State M C B) (clean : Bytes) (grant : Option Grant)
      → q.identity.subject ≢ []
      → admit stores p (in_store gs) limit q s ≡ ok (clean, grant)
      → (clean_path q.path ≡ ok clean)
        × IsLetIn gs q clean grant
        × (wants_create_only q ≡ true → IsProven q s)
  unfolding admit
  admit-eq-ok gs q s clean grant named h =
      let (path, ok_path, h1) = >>=-eq-ok (cleaned q.path) _ h in
      let (g, ok_grant, h2) = >>=-eq-ok (admit_grant (in_store gs) q path) _ h1 in
      let (u, ok_proven, h3) =
        >>=-eq-ok (check_create_only stores p (in_store gs) limit q s) _ h2 in
      let both : (path, g) ≡ (clean, grant) = ok-injective h3 in
      let same_path : path ≡ clean = ap (λ x. x.0) both in
      let same_grant : g ≡ grant = ap (λ x. x.1) both in
      (
        cleaned-eq-ok q.path path ok_path ∙ ap ok same_path,
        subst (λ c. IsLetIn gs q c grant) same_path
            (subst (IsLetIn gs q path) same_grant (admit_grant-eq-ok gs q path g named ok_grant)),
        check_create_only-eq-ok (in_store gs) q s u ok_proven,
      )

  -- A write that is made is of a clean path. Either the caller may write, or the write is create-only and
  -- the store has a grant of the caller's workspace and subject for that backend, whose prefix is the
  -- path's directory and whose extensions have the path's. A create-only write is made only to a backend
  -- that is known to honour it.
  pub plan_lem :
      (gs : Grants) (now later : ℕ) (q : WriteRequest) (s : State M C B) (made : Plan B)
      → q.identity.subject ≢ []
      → (plan stores p (in_store gs) limit now later q s).0 ≡ ok made
      → (clean_path q.path ≡ ok made.path)
        × IsLetIn gs q made.path made.grant
        × (made.create_only ≡ wants_create_only q)
        × (made.limit ≡ body_limit limit made.grant)
        × (wants_create_only q ≡ true → IsProven q s)
  unfolding plan
  plan_lem gs now later q s made named h =
      elim (Result-cases (admit stores p (in_store gs) limit q s)) [
        | inr (e, bad) ↦ cc (rw (bad, plan) at h)
        | inl ((clean, grant), good) ↦
            let (b, opens, h1) =
              >>=-eq-ok (opened stores p (in_store gs) limit now later q s).0 _
                (rw (good, plan) at h) in
            let same = ok-injective h1 in
            let (path, let_in, proven) = admit-eq-ok gs q s clean grant named good in
            subst
              (λ (m : Plan B).
                (clean_path q.path ≡ ok m.path)
                × IsLetIn gs q m.path m.grant
                × (m.create_only ≡ wants_create_only q)
                × (m.limit ≡ body_limit limit m.grant)
                × (wants_create_only q ≡ true → IsProven q s))
              same (path, let_in, refl, refl, proven)
      ]

limit_bounds :
    (server own : ℤ)
    → is_positive own ≡ true
    → (is_positive (if not (is_positive server) || less own server then own else server) ≡ true)
      × (less own (if not (is_positive server) || less own server then own else server) ≡ false)
      × (is_positive server ≡ true
          → less server (if not (is_positive server) || less own server then own else server)
            ≡ false)
unfolding is_positive
limit_bounds (pos a) (pos b) h = ground arith
limit_bounds (negsuc a) (pos b) h = ground arith
limit_bounds server (negsuc b) h = cc

-- Under a grant with a positive limit, the limit of the body is positive and at most the grant's; and where the server has one,
-- at most the server's.
pub body_limit_bounds :
    (server : ℤ) (g : Grant)
    → is_positive g.max_bytes ≡ true
    → (is_positive (body_limit server (some g)) ≡ true)
      × (less g.max_bytes (body_limit server (some g)) ≡ false)
      × (is_positive server ≡ true → less server (body_limit server (some g)) ≡ false)
unfolding body_limit is_positive
body_limit_bounds server g h = limit_bounds server g.max_bytes h

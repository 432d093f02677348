-- ===== src/Leases/Broker/Laws.antt =====
-- When internal/credentialbroker/provider.go issues a credential, and for what.
use booth_storage.Base.{
  ◌≡◌, ◌≢◌, refl, ap, ◌∙◌, subst, ◌⊎◌, inl, inr, Bool, true, false, not, ◌&&◌, Option, none, some,
  [], Bytes, codes, bytes_eq, bytes_eq_iff, Bool-cases, Result, ok, err, ◌>>=◌, >>=-eq-ok,
  Result-cases, refuse_if, arith,
}
use booth_storage.Backend.{kind_s3}
use booth_storage.Backend.Path.{slash}
use booth_storage.Backend.Options.{trim}
use booth_storage.Leases.{Store}
use booth_storage.Leases.Sweep.{AdminKeys, Answer}
use booth_storage.Leases.Broker.{
  Inbound, Scope, MintRequest, SeaweedLease, Minted, MintError, scope_not_supported, mint_failed,
  Outbound, Refusal, refusal, bad_request, unsupported, internal, presented, authenticate,
  access_read, access_read_write, Order, usable, or_refuse, session_token_of, check_request, check,
  record_for, reply_of, serve,
}

refuse_ok {ℓ} :
    {A : Type ℓ} (b : Bool) (r : Refusal) (next : Result Refusal A) {a : A}
    → (refuse_if b r >>= λ _. next) ≡ ok a
    → (b ≡ false) × (next ≡ ok a)
refuse_ok true r next h = cc
refuse_ok false r next h = (refl, h)

or_refuse_ok {ℓ} :
    {A : Type ℓ} (r : Refusal) (o : Option A) {a : A} → or_refuse r o ≡ ok a → o ≡ some a
or_refuse_ok r none h = cc
or_refuse_ok r (some a) h = cc

authenticate_sound :
    (credential header : Bytes)
    → not (authenticate credential header) ≡ false
    → (credential ≢ []) × (presented header ≡ credential)
unfolding authenticate
authenticate_sound credential header h = (
  λ empty. ground (arith, bytes_eq_iff credential []),
  ground (arith, bytes_eq_iff (presented header) credential),
)

allowed_access :
    (access : Bytes)
    → not (bytes_eq access access_read) && not (bytes_eq access access_read_write) ≡ false
    → (access ≡ access_read) ⊎ (access ≡ access_read_write)
allowed_access access h = elim (Bool-cases (bytes_eq access access_read)) [
  | inl same ↦ inl ((bytes_eq_iff access access_read).0 same)
  | inr other ↦ inr ((bytes_eq_iff access access_read_write).0 (ground arith))
]

module _ {C : Type 0} where
  abbrev ok_order : Order C → Result Refusal (Order C)
  ok_order o = ok o

  ok_order-injective : {a b : Order C} → ok_order a ≡ ok_order b → a ≡ b
  ok_order-injective h = cc

abbrev ok_minted : Minted → Result MintError Minted
ok_minted m = ok m

abbrev ok_outbound : Outbound → Result Refusal Outbound
ok_outbound o = ok o

ok_outbound-injective : {a b : Outbound} → ok_outbound a ≡ ok_outbound b → a ≡ b
ok_outbound-injective h = cc

module _ {C : Type 0} (decode : Bytes → Option Inbound) (parse_scope : Bytes → Option Scope)
    (parse_options : Bytes → Option Bytes) (raw : Bytes → Bytes → Answer)
    (parse_config : Bytes → Option C) where
  -- What a mint is asked for is what the request said, for an S3 backend of the requester's workspace.
  abbrev pub Asks : Inbound → Order C → Type 0
  Asks req o =
      (req.kind ≡ kind_s3)
      × ((req.access ≡ access_read) ⊎ (req.access ≡ access_read_write))
      × (o.request.access ≡ req.access)
      × (o.workspace ≡ req.requester.workspace)
      × (scope : Scope) × (parse_scope req.scope ≡ some scope)
      × (scope.backend_id ≢ [])
      × (o.backend_id ≡ scope.backend_id)
      × (o.request.path ≡ scope.path)
      × ((raw o.workspace o.backend_id).0.kind ≡ kind_s3)
      × (parse_config (raw o.workspace o.backend_id).0.config ≡ some o.config)

  check_request-Asks :
      (req : Inbound) (o : Order C)
      → check_request decode parse_scope parse_options raw parse_config req ≡ ok o
      → Asks req o
  unfolding check_request
  check_request-Asks req o h =
      let (kind, h1) = refuse_ok (not (bytes_eq req.kind kind_s3)) unsupported _ h in
      let (access, h2) =
        refuse_ok
          (not (bytes_eq req.access access_read) && not (bytes_eq req.access access_read_write))
          bad_request _ h1 in
      let (scope, parsed, h3) =
        >>=-eq-ok (or_refuse (refusal 400 (codes "bad_scope")) (parse_scope req.scope)) _ h2 in
      let (named, h4) =
        refuse_ok (bytes_eq scope.backend_id []) (refusal 400 (codes "bad_scope")) _ h3 in
      let (session, _, h5) =
        >>=-eq-ok (session_token_of decode parse_scope parse_options raw parse_config req.options) _
          h4 in
      let (_, h6) =
        refuse_ok
          (not (bytes_eq session [])
            && not (bytes_eq session (codes "forbidden"))
            && not (bytes_eq session (codes "allowed")))
          bad_request _ h5 in
      let (creds, _, h7) =
        >>=-eq-ok (usable (raw req.requester.workspace scope.backend_id).1) _ h6 in
      let (s3, h8) =
        refuse_ok (not (bytes_eq (raw req.requester.workspace scope.backend_id).0.kind kind_s3))
          unsupported _ h7 in
      let (config, found, last) =
        >>=-eq-ok
          (or_refuse internal
            (parse_config (raw req.requester.workspace scope.backend_id).0.config))
          _ h8 in
      subst (Asks req) (ok_order-injective last) (
        ground (arith, bytes_eq_iff req.kind kind_s3),
        allowed_access req.access access,
        refl,
        refl,
        scope,
        or_refuse_ok (refusal 400 (codes "bad_scope")) (parse_scope req.scope) parsed,
        λ empty. ground (arith, bytes_eq_iff scope.backend_id []),
        refl,
        refl,
        ground (arith, bytes_eq_iff (raw req.requester.workspace scope.backend_id).0.kind kind_s3),
        or_refuse_ok internal (parse_config (raw req.requester.workspace scope.backend_id).0.config)
            found,
      )

  check-Asks :
      (credential header body : Bytes) (o : Order C)
      → check decode parse_scope parse_options raw parse_config credential header body ≡ ok o
      → (credential ≢ [])
        × (presented header ≡ credential)
        × (req : Inbound) × (decode body ≡ some req)
        × Asks req o
  unfolding check
  check-Asks credential header body o h =
      let (allowed, h1) =
        refuse_ok (not (authenticate credential header)) (refusal 401 (codes "unauthorized")) _ h in
      let (req, decoded, last) = >>=-eq-ok (or_refuse bad_request (decode body)) _ h1 in
      let (named, same) = authenticate_sound credential header allowed in
      (
        named,
        same,
        req,
        or_refuse_ok bad_request (decode body) decoded,
        check_request-Asks req o last,
      )

  -- A minted credential of this outcome is the one that the answer carries, under this lease.
  reply-Minted :
      (lease_id : Bytes) (o : Order C) (result : Result MintError Minted) (out : Outbound)
      → reply_of decode parse_scope parse_options raw parse_config lease_id o result ≡ ok out
      → (result ≡ ok out.credential)
        × (out.lease_id ≡ lease_id)
        × (out.backend_id ≡ o.backend_id)
        × (out.access ≡ o.request.access)
        × (out.path ≡ trim slash o.request.path)
  reply-Minted lease_id o (ok minted) out h =
      subst
        (λ x.
          (ok_minted minted ≡ ok_minted x.credential)
          × (x.lease_id ≡ lease_id)
          × (x.backend_id ≡ o.backend_id)
          × (x.access ≡ o.request.access)
          × (x.path ≡ trim slash o.request.path))
        (ok_outbound-injective h) (refl, refl, refl, refl, refl)
  reply-Minted lease_id o (err scope_not_supported) out h = cc
  reply-Minted lease_id o (err (mint_failed e)) out h = cc

  -- What stands behind an issued credential: the caller's secret, the request, and the mint's own result.
  abbrev pub Issues :
      (C
        → AdminKeys
        → MintRequest
        → (SeaweedLease → Store → Result Bytes (Unit {0}) × Store)
        → Store
        → Result MintError Minted × Store)
      → Bool
      → Bytes
      → Bytes
      → Bytes
      → Bytes
      → Store
      → Outbound
      → Type 0
  Issues mint has_leases lease_id credential header body st out =
      (credential ≢ [])
      × (presented header ≡ credential)
      × (req : Inbound) × (decode body ≡ some req)
      × (o : Order C) × Asks req o
      × (mint o.config o.admin o.request
            (record_for decode parse_scope parse_options raw parse_config has_leases lease_id o) st
          ≡ (
            ok out.credential,
            (serve decode parse_scope parse_options raw parse_config mint has_leases lease_id
                credential header body st).1,
          ))
      × (out.lease_id ≡ lease_id)
      × (out.backend_id ≡ o.backend_id)
      × (out.access ≡ req.access)
      × (out.path ≡ trim slash o.request.path)

  -- A credential is only issued to a caller that presents the configured, non-empty shared secret, with a
  -- body that asks for an S3 credential to read or to read and write; the backend is an S3 backend of the
  -- requester's workspace, and the answer holds exactly what the mint made for its configuration, path and
  -- access, under the lease that the mint could record.
  pub serve_sound :
      (mint : C
        → AdminKeys
        → MintRequest
        → (SeaweedLease → Store → Result Bytes (Unit {0}) × Store)
        → Store
        → Result MintError Minted × Store)
      (has_leases : Bool) (lease_id credential header body : Bytes) (st : Store) (out : Outbound)
      → (serve decode parse_scope parse_options raw parse_config mint has_leases lease_id credential
          header body st).0
        ≡ ok out
      → Issues mint has_leases lease_id credential header body st out
  unfolding serve
  serve_sound mint has_leases lease_id credential header body st out h =
      elim (Result-cases
        (check decode parse_scope parse_options raw parse_config credential header body)) [
          | inr (r, refused) ↦ cc (rw (refused, serve) at h)
          | inl (o, passed) ↦
              let minted =
                mint o.config o.admin o.request
                  (record_for decode parse_scope parse_options raw parse_config has_leases lease_id
                    o)
                  st in
              let (made, lease, backend, access, path) =
                reply-Minted lease_id o minted.0 out (rw (passed, serve) at h) in
              let (named, same, req, decoded, asks) = check-Asks credential header body o passed in
              (
                named,
                same,
                req,
                decoded,
                o,
                asks,
                rw (passed, serve) (ap (λ (a : Result MintError Minted). (a, minted.1)) made),
                lease,
                backend,
                access ∙ asks.2,
                path,
              )
        ]

-- ===== src/Auth/Tokens.antt =====
-- `Verify` of internal/auth/auth.go. The decoding of a token's payload for its issuer (base64 and JSON)
-- and the OIDC library's check of a token are parameters.
use booth_storage.Base.{
  ◌≡◌, ◌≢◌, ap, inl, inr, Option, none, some, List, [], Bytes, bytes_eq, bytes_eq_iff, Option-cases,
  Bool-cases, arith, if◌then◌else◌,
}
use booth_storage.Auth.{Claims}

-- What is read of a checked token; `none` where a claim is missing or has another shape.
pub record IdToken : Type 0 where
  pub subject : Bytes
  pub groups : Option (List Bytes)
  pub booth_module : Option Bytes

abbrev pub claims_of : IdToken → Claims
claims_of t = record {
  subject = t.subject;
  groups = elim t.groups [ none ↦ [] | some gs ↦ gs ];
  booth_module = elim t.booth_module [ none ↦ [] | some name ↦ name ];
}

unfoldable pub named_claims : IdToken → Option Claims
named_claims t = if bytes_eq t.subject [] then none else some (claims_of t)

-- A token goes to the verifier of the issuer that it names, if that issuer is trusted.
unfoldable pub verify :
    (Bytes → Option Bytes) → (Bytes → Option (Bytes → Option IdToken)) → Bytes → Option Claims
verify issuer trusted token = elim (issuer token) [
  | none ↦ none
  | some name ↦ elim (trusted name) [
    | none ↦ none
    | some check ↦ elim (check token) [ none ↦ none | some t ↦ named_claims t ]
  ]
]

claims-injective : {a b : Claims} → some a ≡ some b → a ≡ b
claims-injective h = cc

named_claims-eq-some :
    (t : IdToken) (claims : Claims) → named_claims t ≡ some claims → claims.subject ≢ []
unfolding named_claims
named_claims-eq-some t claims h = elim (Bool-cases (bytes_eq t.subject [])) [
  | inl blank ↦ cc (rw (blank, named_claims) at h)
  | inr named ↦
      let same : t.subject ≡ claims.subject =
        ap (λ (c : Claims). c.subject) (claims-injective (rw (named, named_claims) at h)) in
      ground (arith, bytes_eq_iff t.subject [])
]

-- The subject of a verified token is not empty.
pub verify-eq-some :
    (issuer : Bytes → Option Bytes) (trusted : Bytes → Option (Bytes → Option IdToken))
    (token : Bytes) (claims : Claims)
    → verify issuer trusted token ≡ some claims
    → claims.subject ≢ []
unfolding verify
verify-eq-some issuer trusted token claims h = elim (Option-cases (issuer token)) [
  | inl bad ↦ cc (rw (bad, verify) at h)
  | inr (name, given) ↦ elim (Option-cases (trusted name)) [
    | inl bad ↦ cc (rw (given, bad, verify) at h)
    | inr (check, known) ↦ elim (Option-cases (check token)) [
      | inl bad ↦ cc (rw (given, known, bad, verify) at h)
      | inr (t, good) ↦ named_claims-eq-some t claims (rw (given, known, good, verify) at h)
    ]
  ]
]

-- ===== src/Api/Writing/Uploads.antt =====
-- From the token of a request to the write that internal/api/server.go makes for it.
use booth_storage.Base.{ℕ, ℤ, ◌≡◌, ◌≢◌, sym, ◌∙◌, true, Option, some, [], Bytes, ok}
use booth_storage.Backend.Path.{clean_path}
use booth_storage.Auth.{Claims, Headers, admitted, bearer_token, middleware}
use booth_storage.Auth.Tokens.{IdToken, verify, verify-eq-some}
use booth_storage.Auth.Middleware.{middleware_sound}
use booth_storage.UploadGrant.Store.{Grants}
use booth_storage.Registry.Metadata.{Stores}
use booth_storage.Registry.Service.{Platform, State}
use booth_storage.Api.Writing.{WriteRequest, Plan, body_limit, wants_create_only, plan}
use booth_storage.Api.Writing.Admission.{in_store, IsLetIn, IsProven, plan_lem}

module _ {ℓ κ ν} {M : Type ℓ} {C : Type κ} {B : Type ν} (stores : Stores M C) (p : Platform B)
    (limit : ℤ) where
  -- A write that is made for a request that the middleware has let in: a verified token names the caller's
  -- subject, which is not empty, and the path is clean. Either the caller may write, or the write is
  -- create-only and the store has a grant of the caller's workspace and subject for that backend, whose
  -- prefix is the path's directory and whose extensions have the path's. A create-only write is made only
  -- to a backend that is known to honour it, and the limit is the one of the server and the grant.
  pub write_needs_standing :
      (issuer : Bytes → Option Bytes) (trusted : Bytes → Option (Bytes → Option IdToken))
      (h : Headers) (gs : Grants) (now later : ℕ) (q : WriteRequest) (s : State M C B)
      (made : Plan B)
      → middleware (verify issuer trusted) h ≡ admitted q.identity
      → (plan stores p (in_store gs) limit now later q s).0 ≡ ok made
      → ((claims : Claims) × (verify issuer trusted (bearer_token h.authorization) ≡ some claims)
          × (q.identity.subject ≡ claims.subject)
          × (q.identity.workspace ≡ h.booth_workspace))
        × (q.identity.subject ≢ [])
        × (clean_path q.path ≡ ok made.path)
        × IsLetIn gs q made.path made.grant
        × (made.create_only ≡ wants_create_only q)
        × (made.limit ≡ body_limit limit made.grant)
        × (wants_create_only q ≡ true → IsProven stores p limit q s)
  write_needs_standing issuer trusted h gs now later q s made entered planned =
      let (claims, good, genuine) = middleware_sound (verify issuer trusted) h q.identity entered in
      let named : q.identity.subject ≢ [] = λ blank.
        verify-eq-some issuer trusted (bearer_token h.authorization) claims good
          (sym genuine.subject ∙ blank) in
      let (path, let_in, create_only, bound, proven) =
        plan_lem stores p limit gs now later q s made named planned in
      (
        (claims, good, genuine.subject, genuine.workspace),
        named,
        path,
        let_in,
        create_only,
        bound,
        proven,
      )

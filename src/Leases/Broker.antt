-- ===== src/Leases/Broker.antt =====
-- internal/credentialbroker/provider.go: the route on which booth-core has credentials minted. The JSON
-- decoders, the registry's answer and `MintScopedCredential` are arguments. A mint gets the recorder of its
-- lease and may call it; the time to live stays in seconds.
pub mod Laws
use booth_storage.Base.{
  ℕ, ◌+◌, ◌-◌, Bool, true, false, not, ◌&&◌, ◌||◌, Option, none, some, List, [], ◌∷◌, Bytes, codes,
  bytes_eq, ℤ, length, take, drop, ltb, to_lower, trim_space, Result, ok, err, ◌>>=◌, ◌>>◌,
  refuse_if, if◌then◌else◌,
}
use booth_storage.Backend.{kind_s3}
use booth_storage.Backend.Path.{slash}
use booth_storage.Backend.Options.{trim}
use booth_storage.Registry.{
  RegistryError, Record, Credentials, no_credentials, cred_access_key, cred_secret_key,
  cred_session_token,
}
use booth_storage.Leases.{Lease, Store, record_lease}
use booth_storage.Leases.Sweep.{AdminKeys, Answer, field_of}

pub record Requester : Type 0 where
  pub subject : Bytes
  pub workspace : Bytes
  pub role : Bytes

-- `inboundRequest`, with the scope and the options as JSON texts.
pub record Inbound : Type 0 where
  pub kind : Bytes
  pub ttl_seconds : ℤ
  pub access : Bytes
  pub scope : Bytes
  pub options : Bytes
  pub requester : Requester

-- `s3Scope`
pub record Scope : Type 0 where
  pub backend_id : Bytes
  pub path : Bytes

pub record MintRequest : Type 0 where
  pub path : Bytes
  pub access : Bytes
  pub ttl_seconds : ℤ
  pub allow_session_token : Bool

-- `s3.SeaweedFSLease`
pub record SeaweedLease : Type 0 where
  pub iam_user_name : Bytes
  pub access_key_id : Bytes
  pub prefix : Bytes
  pub access : Bytes
  pub expires_at : ℕ
  pub created_at : ℕ

-- `s3.MintedCredential`
pub record Minted : Type 0 where
  pub endpoint : Bytes
  pub region : Bytes
  pub bucket : Bytes
  pub key_prefix : Bytes
  pub path_style : Bool
  pub access_key_id : Bytes
  pub secret_access_key : Bytes
  pub session_token : Bytes
  pub expires_at : ℕ

pub data MintError : Type 0 where
  scope_not_supported : MintError
  mint_failed : Bytes → MintError

-- `outboundResponse`, with the echo of the scope and the credential.
pub record Outbound : Type 0 where
  pub lease_id : Bytes
  pub backend_id : Bytes
  pub path : Bytes
  pub access : Bytes
  pub credential : Minted

-- A refusal: its status and its code.
pub record Refusal : Type 0 where
  pub status : ℕ
  pub code : Bytes

abbrev pub refusal : ℕ → Bytes → Refusal
refusal status code = record { status = status; code = code }

-- `bearerToken`; `strings.EqualFold` against a text without the letters k and s folds ASCII only.
unfoldable pub presented : Bytes → Bytes
presented h =
    if ltb (length h) 7 || not (bytes_eq (to_lower (take 7 h)) (codes "bearer "))
    then []
    else trim_space (drop 7 h)

-- `authenticate`
unfoldable pub authenticate : Bytes → Bytes → Bool
authenticate credential h =
    not (bytes_eq (presented h) [])
    && not (bytes_eq credential [])
    && bytes_eq (presented h) credential

abbrev pub access_read : Bytes
access_read = codes "read"

abbrev pub access_read_write : Bytes
access_read_write = codes "readwrite"

-- What a mint is called with.
pub record Order (C : Type 0) : Type 0 where
  pub config : C
  pub admin : AdminKeys
  pub request : MintRequest
  pub workspace : Bytes
  pub backend_id : Bytes

abbrev pub bad_request : Refusal
bad_request = refusal 400 (codes "invalid_request")

abbrev pub unsupported : Refusal
unsupported = refusal 422 (codes "scope_not_supported")

abbrev pub internal : Refusal
internal = refusal 500 (codes "internal_error")

-- The credentials that the registry answers with; none at all is not an error here.
abbrev pub usable : Result RegistryError Credentials → Result Refusal Credentials
usable (ok creds) = ok creds
usable (err RegistryError.not_found) = err (refusal 404 (codes "no_such_backend"))
usable (err no_credentials) = ok []
usable (err e) = err internal

abbrev pub or_refuse {ℓ} : {A : Type ℓ} → Refusal → Option A → Result Refusal A
or_refuse r none = err r
or_refuse r (some a) = ok a

module _ {C : Type 0} (decode : Bytes → Option Inbound) (parse_scope : Bytes → Option Scope)
    (parse_options : Bytes → Option Bytes) (raw : Bytes → Bytes → Answer)
    (parse_config : Bytes → Option C) where
  -- `options.sessionToken`, empty where there are no options.
  unfoldable pub session_token_of : Bytes → Result Refusal Bytes
  session_token_of options =
      if bytes_eq options [] then ok [] else or_refuse bad_request (parse_options options)

  abbrev pub order_of : Inbound → Scope → Bytes → C → Credentials → Order C
  order_of req scope session config creds = record {
    config = config;
    admin = record {
      access_key_id = field_of creds cred_access_key;
      secret_access_key = field_of creds cred_secret_key;
      session_token = field_of creds cred_session_token;
    };
    request = record {
      path = scope.path;
      access = req.access;
      ttl_seconds = req.ttl_seconds;
      allow_session_token = not (bytes_eq session (codes "forbidden"));
    };
    workspace = req.requester.workspace;
    backend_id = scope.backend_id;
  }

  -- `ServeHTTP` behind the decoding of the body, up to the mint.
  unfoldable pub check_request : Inbound → Result Refusal (Order C)
  check_request req = do
    refuse_if (not (bytes_eq req.kind kind_s3)) unsupported
    refuse_if (not (bytes_eq req.access access_read) && not (bytes_eq req.access access_read_write))
        bad_request
    scope ← or_refuse (refusal 400 (codes "bad_scope")) (parse_scope req.scope)
    refuse_if (bytes_eq scope.backend_id []) (refusal 400 (codes "bad_scope"))
    session ← session_token_of req.options
    refuse_if
        (not (bytes_eq session [])
          && not (bytes_eq session (codes "forbidden"))
          && not (bytes_eq session (codes "allowed")))
        bad_request
    creds ← usable (raw req.requester.workspace scope.backend_id).1
    refuse_if (not (bytes_eq (raw req.requester.workspace scope.backend_id).0.kind kind_s3))
        unsupported
    config ←
        or_refuse internal (parse_config (raw req.requester.workspace scope.backend_id).0.config)
    ok (order_of req scope session config creds)

  -- `ServeHTTP` up to the mint.
  unfoldable pub check : Bytes → Bytes → Bytes → Result Refusal (Order C)
  check credential header body = do
    refuse_if (not (authenticate credential header)) (refusal 401 (codes "unauthorized"))
    req ← or_refuse bad_request (decode body)
    check_request req

  -- `RecordLease`
  unfoldable pub record_for :
      Bool → Bytes → Order C → SeaweedLease → Store → Result Bytes (Unit {0}) × Store
  record_for false lease_id o l st = (err (codes "no lease store configured"), st)
  record_for true lease_id o l st = (
    ok tt,
    record_lease
        record {
          id = lease_id;
          workspace = o.workspace;
          backend_id = o.backend_id;
          iam_user_name = l.iam_user_name;
          access_key_id = l.access_key_id;
          prefix = l.prefix;
          access = l.access;
          expires_at = l.expires_at;
          created_at = l.created_at;
          swept_at = none;
        }
        st,
  )

  abbrev pub reply_of : Bytes → Order C → Result MintError Minted → Result Refusal Outbound
  reply_of lease_id o (ok minted) = ok record {
    lease_id = lease_id;
    backend_id = o.backend_id;
    path = trim slash o.request.path;
    access = o.request.access;
    credential = minted;
  }
  reply_of lease_id o (err scope_not_supported) = err unsupported
  reply_of lease_id o (err (mint_failed e)) = err (refusal 502 (codes "mint_failed"))

  -- `ServeHTTP`, with what `Mint` does to the leases.
  unfoldable pub serve :
      (C
        → AdminKeys
        → MintRequest
        → (SeaweedLease → Store → Result Bytes (Unit {0}) × Store)
        → Store
        → Result MintError Minted × Store)
      → Bool
      → Bytes
      → Bytes
      → Bytes
      → Bytes
      → Store
      → Result Refusal Outbound × Store
  serve mint has_leases lease_id credential header body st = elim (check credential header body) [
    | err r ↦ (err r, st)
    | ok o ↦
        let (minted, st') = mint o.config o.admin o.request (record_for has_leases lease_id o) st in
        (reply_of lease_id o minted, st')
  ]

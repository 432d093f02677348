-- ===== src/Leases/Tests.antt =====
-- Concrete runs of the lease store, the sweeper and the credential broker.
use booth_storage.Base.{
  ℕ, zero, suc, ap, All, ◌≡◌, refl, ◌+◌, true, false, ◌&&◌, Option, none, some, [], ◌∷◌, Bytes,
  codes, bytes_eq, any, length, pos, Result, ok, err, if◌then◌else◌, arith, trim_space, drop_space,
  drop_space_end,
}
use booth_storage.Backend.{kind_s3}
use booth_storage.Backend.Options.{trim, trim_left, trim_right}
use booth_storage.Leases.{Lease, Store, keep_pending, pending_sweep}
use booth_storage.Leases.Sweep.{
  AdminKeys, Answer, batch_size, delete_at, sweep_lease, sweep_once, cycles,
}
use booth_storage.Leases.Sweep.Laws.{find_lease, mark_option, count_pending}
use booth_storage.Leases.Sweep.Progress.{done, sweep_once_lem, ticks, cycles_finish}
use booth_storage.Leases.Sweep.Starving.{IsDead, cycles-starve}
use booth_storage.Leases.Broker.{
  Inbound, Scope, MintRequest, SeaweedLease, Minted, MintError, Outbound, presented, authenticate,
  check, check_request, session_token_of, serve,
}
use booth_storage.Leases.Broker.Laws.{serve_sound, Issues}

abbrev a_lease : Bytes → ℕ → Lease
a_lease id time = record {
  id = id;
  workspace = codes "team";
  backend_id = codes "main";
  iam_user_name = codes "user";
  access_key_id = codes "key";
  prefix = [];
  access = codes "read";
  expires_at = time;
  created_at = 0;
  swept_at = none;
}

abbrev two_leases : Store
two_leases = a_lease (codes "l1") 5 ∷ a_lease (codes "l2") 3 ∷ a_lease (codes "l3") 90 ∷ []

abbrev s3_answer : Bytes → Bytes → Answer
s3_answer workspace id = (
  record {
    workspace = workspace;
    id = id;
    display_name = [];
    kind = kind_s3;
    config = codes "cfg";
    has_credentials = true;
    create_only_verified = false;
    created_by = [];
    created_at = 0;
    updated_at = 0;
  },
  ok [],
)

abbrev same_config : Bytes → Option Bytes
same_config c = some c

abbrev deletes : Bytes → AdminKeys → Bytes → Bytes → Result Bytes (Unit {0})
deletes cfg keys user key = ok tt

abbrev unreachable : Bytes → AdminKeys → Bytes → Bytes → Result Bytes (Unit {0})
unreachable cfg keys user key = err (codes "unreachable")

sweep_once_lem_example :
    (find_lease (codes "l2") (sweep_once s3_answer same_config deletes 10 two_leases).0 ≡ (
      if any
        (λ l. bytes_eq l.id (codes "l2") && done s3_answer same_config deletes l)
        (pending_sweep 10 batch_size two_leases)
      then mark_option 10 (find_lease (codes "l2") two_leases)
      else find_lease (codes "l2") two_leases))
    × ((sweep_once s3_answer same_config deletes 10 two_leases).1.swept
          + (sweep_once s3_answer same_config deletes 10 two_leases).1.failed
        ≡ length (pending_sweep 10 batch_size two_leases))
sweep_once_lem_example = sweep_once_lem s3_answer same_config deletes 10 two_leases (codes "l2")

all_deleted : (l : Lease) → sweep_lease s3_answer same_config deletes l ≡ ok tt
unfolding sweep_lease delete_at bytes_eq
all_deleted l = refl

cycles_finish_example :
    keep_pending 10 (cycles s3_answer same_config deletes (ticks 2 10) two_leases) ≡ []
unfolding count_pending
cycles_finish_example =
    cycles_finish s3_answer same_config deletes all_deleted 2 10 two_leases (omega arith)

-- A lease whose key is at SeaweedFS, behind many whose key cannot be deleted.
abbrev behind : Lease
behind = record (a_lease (codes "last") 8) { access_key_id = codes "other" }

unfoldable crowd : ℕ → Store
crowd zero = behind ∷ []
crowd (suc n) = a_lease (n ∷ []) 3 ∷ crowd n

abbrev only_other : Bytes → AdminKeys → Bytes → Bytes → Result Bytes (Unit {0})
only_other cfg keys user key = if bytes_eq key (codes "key") then err (codes "gone") else ok tt

behind-done : done s3_answer same_config only_other behind ≡ true
unfolding sweep_lease delete_at bytes_eq
behind-done = refl

crowd-IsDead : (n : ℕ) → All (IsDead s3_answer same_config only_other 5) (crowd n)
unfolding crowd sweep_lease delete_at bytes_eq
crowd-IsDead zero = (λ h. cc, tt)
crowd-IsDead (suc n) = (λ h. refl, crowd-IsDead n)

count-crowd : (n : ℕ) → count_pending 5 (crowd n) ≡ n
unfolding crowd count_pending
count-crowd zero = refl
count-crowd (suc n) = ap suc (count-crowd n)

cycles-starve_example :
    cycles s3_answer same_config only_other (10 ∷ 70 ∷ 130 ∷ []) (crowd 200) ≡ crowd 200
cycles-starve_example =
    cycles-starve s3_answer same_config only_other 5 (10 ∷ 70 ∷ 130 ∷ []) (crowd 200)
      (crowd-IsDead 200) (omega (arith, count-crowd 200))
      (omega arith, (omega arith, (omega arith, tt)))

abbrev a_request : Inbound
a_request = record {
  kind = codes "s3";
  ttl_seconds = pos 300;
  access = codes "read";
  scope = codes "scope";
  options = [];
  requester = record { subject = codes "ann"; workspace = codes "team"; role = codes "owner" };
}

abbrev decode_all : Bytes → Option Inbound
decode_all body = some a_request

abbrev scope_all : Bytes → Option Scope
scope_all text = some (record { backend_id = codes "main"; path = codes "/in/" })

abbrev a_credential : Minted
a_credential = record {
  endpoint = codes "e";
  region = [];
  bucket = codes "b";
  key_prefix = codes "in/";
  path_style = true;
  access_key_id = codes "AK";
  secret_access_key = codes "SK";
  session_token = [];
  expires_at = 300;
}

abbrev a_seaweed_lease : SeaweedLease
a_seaweed_lease = record {
  iam_user_name = codes "u";
  access_key_id = codes "AK";
  prefix = codes "in/";
  access = codes "read";
  expires_at = 300;
  created_at = 0;
}

-- A mint that records its lease first.
abbrev recording_mint :
    Bytes
    → AdminKeys
    → MintRequest
    → (SeaweedLease → Store → Result Bytes (Unit {0}) × Store)
    → Store
    → Result MintError Minted × Store
recording_mint cfg keys request remember st = (ok a_credential, (remember a_seaweed_lease st).1)

abbrev issued : Outbound
issued = record {
  lease_id = codes "L";
  backend_id = codes "main";
  path = codes "in";
  access = codes "read";
  credential = a_credential;
}

serve_runs :
    (serve decode_all scope_all
      (λ t. none)
      s3_answer
      same_config
      recording_mint
      true
      (codes "L")
      (codes "sesame")
      (codes "Bearer sesame")
      (codes "{}")
      []).0
    ≡ ok issued
unfolding serve check check_request session_token_of authenticate presented bytes_eq trim trim_left
    trim_right trim_space drop_space drop_space_end
serve_runs = refl

serve_sound_example :
    Issues decode_all scope_all
      (λ t. none)
      s3_answer
      same_config
      recording_mint
      true
      (codes "L")
      (codes "sesame")
      (codes "Bearer sesame")
      (codes "{}")
      []
      issued
serve_sound_example =
    serve_sound decode_all scope_all (λ t. none) s3_answer same_config recording_mint true
      (codes "L") (codes "sesame") (codes "Bearer sesame") (codes "{}") [] issued serve_runs

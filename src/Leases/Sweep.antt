-- ===== src/Leases/Sweep.antt =====
-- internal/seaweedfssweep/sweep.go: one cycle of the sweeper, and the cycles of `Run`. The registry, the
-- decoding of a configuration and the deletion at SeaweedFS are arguments; a cycle tries each lease once,
-- so that an outcome for each lease describes it.
pub mod Laws
pub mod Progress
pub mod Starving
use booth_storage.Base.{
  ℕ, zero, suc, ◌-◌, Bool, true, false, not, Option, none, some, List, [], ◌∷◌, Bytes, codes,
  bytes_eq, Result, ok, err, if◌then◌else◌,
}
use booth_storage.Base.Assoc.{find}
use booth_storage.Backend.{kind_s3}
use booth_storage.Registry.{RegistryError, Record, Credentials, cred_access_key, cred_secret_key}
use booth_storage.Leases.{Lease, Store, pending_sweep, mark_swept, active_count}

abbrev pub batch_size : ℕ
batch_size = 200

-- A credential field, empty where it is missing.
unfoldable pub field_of : Credentials → Bytes → Bytes
field_of creds name = elim (find name creds) [ none ↦ [] | some value ↦ value ]

-- `s3.Credentials`
pub record AdminKeys : Type 0 where
  pub access_key_id : Bytes
  pub secret_access_key : Bytes
  pub session_token : Bytes

abbrev pub admin_keys : Credentials → AdminKeys
admin_keys creds = record {
  access_key_id = field_of creds cred_access_key;
  secret_access_key = field_of creds cred_secret_key;
  session_token = [];
}

-- The answer of `RawCredentials`: a record, and the credentials or an error.
abbrev pub Answer : Type 0
Answer = Record × Result RegistryError Credentials

-- `cycleResult`
pub record Cycle : Type 0 where
  pub swept : ℕ
  pub failed : ℕ
  pub active : ℕ
  pub oldest_backlog_age : ℕ

abbrev pub age_of : ℕ → List Lease → ℕ
age_of now [] = 0
age_of now (l ∷ ls) = now - l.expires_at

module _ {C : Type 0} (raw : Bytes → Bytes → Answer) (parse : Bytes → Option C)
    (delete : C → AdminKeys → Bytes → Bytes → Result Bytes (Unit {0})) where
  -- The last steps of `sweepLease`, for an S3 backend.
  unfoldable pub delete_at : Lease → Bytes → Credentials → Result Bytes (Unit {0})
  delete_at l config creds = elim (parse config) [
    | none ↦ err (codes "unparseable backend config")
    | some cfg ↦ delete cfg (admin_keys creds) l.iam_user_name l.access_key_id
  ]

  -- `sweepLease`, by what the registry answers.
  abbrev pub sweep_found :
      Lease → Record → Result RegistryError Credentials → Result Bytes (Unit {0})
  sweep_found l r (err RegistryError.not_found) = ok tt
  sweep_found l r (err e) = err (codes "reading backend")
  sweep_found l r (ok creds) =
      if not (bytes_eq r.kind kind_s3) then ok tt else delete_at l r.config creds

  unfoldable pub sweep_lease : Lease → Result Bytes (Unit {0})
  sweep_lease l = let (r, answer) = raw l.workspace l.backend_id in sweep_found l r answer

  -- The loop of `sweepOnce`: the store, and how many leases were swept and how many not.
  unfoldable pub sweep_each : ℕ → List Lease → Store → Store × ℕ × ℕ
  sweep_each now [] ls = (ls, 0, 0)
  sweep_each now (l ∷ rest) ls = elim (sweep_lease l) [
    | err e ↦ let (ls', done, failed) = sweep_each now rest ls in (ls', done, suc failed)
    | ok _ ↦
        let (ls', done, failed) = sweep_each now rest (mark_swept l.id now ls) in
        (ls', suc done, failed)
  ]

  -- `sweepOnce`
  unfoldable pub sweep_once : ℕ → Store → Store × Cycle
  sweep_once now ls =
      let pending = pending_sweep now batch_size ls in
      let (ls', done, failed) = sweep_each now pending ls in
      let result : Cycle = record {
        swept = done;
        failed = failed;
        active = active_count now ls';
        oldest_backlog_age = age_of now pending;
      } in
      (ls', result)

  -- `Run` until it is cancelled: a cycle at each tick, with what the clock reads then.
  unfoldable pub cycles : List ℕ → Store → Store
  cycles [] ls = ls
  cycles (now ∷ later) ls = cycles later (sweep_once now ls).0

-- ===== src/Leases.antt =====
-- internal/seaweedfslease/model.go and memory.go: the leases of minted SeaweedFS credentials and their
-- store in memory, each operation one step under its lock. Leases that expire at the same time keep the
-- order of the store, which the code leaves open. A limit below one stands for no limit.
pub mod Sweep
pub mod Broker
mod Tests
use booth_storage.Base.{
  ℕ, zero, suc, Bool, true, false, not, ◌&&◌, Option, none, some, List, [], ◌∷◌, Bytes, bytes_eq,
  length, take, ltb, if◌then◌else◌,
}

-- `Lease`; times are in nanoseconds.
pub record Lease : Type 0 where
  pub id : Bytes
  pub workspace : Bytes
  pub backend_id : Bytes
  pub iam_user_name : Bytes
  pub access_key_id : Bytes
  pub prefix : Bytes
  pub access : Bytes
  pub expires_at : ℕ
  pub created_at : ℕ
  pub swept_at : Option ℕ

-- The map of `MemoryStore`: its values, each under its own ID.
abbrev pub Store : Type 0
Store = List Lease

unfoldable pub drop_id : Bytes → Store → Store
drop_id id [] = []
drop_id id (l ∷ ls) = let rest = drop_id id ls in if bytes_eq l.id id then rest else l ∷ rest

-- `Record`
abbrev pub record_lease : Lease → Store → Store
record_lease l ls = l ∷ drop_id l.id ls

abbrev pub is_unswept : Option ℕ → Bool
is_unswept none = true
is_unswept (some at) = false

abbrev pub is_pending : ℕ → Lease → Bool
is_pending now l = is_unswept l.swept_at && ltb l.expires_at now

unfoldable pub keep_pending : ℕ → Store → List Lease
keep_pending now [] = []
keep_pending now (l ∷ ls) =
    let rest = keep_pending now ls in if is_pending now l then l ∷ rest else rest

unfoldable pub insert_by_expiry : Lease → List Lease → List Lease
insert_by_expiry l [] = l ∷ []
insert_by_expiry l (m ∷ ms) =
    let rest = insert_by_expiry l ms in
    if ltb m.expires_at l.expires_at then m ∷ rest else l ∷ m ∷ ms

unfoldable pub sort_by_expiry : List Lease → List Lease
sort_by_expiry [] = []
sort_by_expiry (l ∷ ls) = insert_by_expiry l (sort_by_expiry ls)

-- `PendingSweep`
unfoldable pub pending_sweep : ℕ → ℕ → Store → List Lease
pending_sweep now limit ls =
    let out = sort_by_expiry (keep_pending now ls) in
    if ltb 0 limit && ltb limit (length out) then take limit out else out

abbrev pub swept : ℕ → Lease → Lease
swept at l = record {
  id = l.id;
  workspace = l.workspace;
  backend_id = l.backend_id;
  iam_user_name = l.iam_user_name;
  access_key_id = l.access_key_id;
  prefix = l.prefix;
  access = l.access;
  expires_at = l.expires_at;
  created_at = l.created_at;
  swept_at = some at;
}

-- `MarkSwept`
unfoldable pub mark_swept : Bytes → ℕ → Store → Store
mark_swept id at [] = []
mark_swept id at (l ∷ ls) =
    let rest = mark_swept id at ls in if bytes_eq l.id id then swept at l ∷ rest else l ∷ rest

-- `ActiveCount`
unfoldable pub active_count : ℕ → Store → ℕ
active_count now [] = 0
active_count now (l ∷ ls) =
    let rest = active_count now ls in
    if is_unswept l.swept_at && not (ltb l.expires_at now) then suc rest else rest

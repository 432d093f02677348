-- ===== src/Leases/Sweep/Laws.antt =====
-- What a cycle of internal/seaweedfssweep/sweep.go does to the leases, and what many cycles do.
use booth_storage.Base.{
  ℕ, zero, suc, ◌≤◌, ◌<◌, ◌≡◌, refl, inl, inr, Bool, true, false, ◌&&◌, Option, none, some, List,
  [], ◌∷◌, Bytes, bytes_eq, bytes_eq_iff, bytes_eq_refl, any, All, All-map, length, take, ltb,
  Bool-cases, Result, ok, err, arith, if◌then◌else◌,
}
use booth_storage.Leases.{
  Lease, Store, is_pending, keep_pending, insert_by_expiry, sort_by_expiry, pending_sweep, swept,
  mark_swept,
}

-- The lease of an ID.
unfoldable pub find_lease : Bytes → Store → Option Lease
find_lease id [] = none
find_lease id (l ∷ ls) = if bytes_eq l.id id then some l else find_lease id ls

abbrev pub mark_option : ℕ → Option Lease → Option Lease
mark_option now none = none
mark_option now (some l) = some (swept now l)

pub mark_option_idem :
    (now : ℕ) (o : Option Lease) → mark_option now (mark_option now o) ≡ mark_option now o
mark_option_idem now none = refl
mark_option_idem now (some l) = refl

pub find-mark_swept :
    (id k : Bytes) (now : ℕ) (ls : Store)
    → find_lease k (mark_swept id now ls)
      ≡ (if bytes_eq id k then mark_option now (find_lease k ls) else find_lease k ls)
unfolding find_lease mark_swept
find-mark_swept id k now [] = ground arith
find-mark_swept id k now (l ∷ ls) = ground (
  arith,
  find-mark_swept id k now ls,
  bytes_eq_iff l.id id,
  bytes_eq_iff l.id k,
  bytes_eq_iff id k,
)

abbrev pub is_ok : Result Bytes (Unit {0}) → Bool
is_ok (ok _) = true
is_ok (err e) = false

unfoldable pub count_pending : ℕ → Store → ℕ
count_pending now [] = 0
count_pending now (l ∷ ls) =
    let rest = count_pending now ls in if is_pending now l then suc rest else rest

-- A pending lease of this ID is in the store.
abbrev pub waits : ℕ → Bytes → Store → Bool
waits now id ls = any (λ l. bytes_eq l.id id && is_pending now l) ls

pub mark-count :
    (id : Bytes) (now : ℕ) (ls : Store)
    → count_pending now (mark_swept id now ls) ≤ count_pending now ls
unfolding count_pending mark_swept
mark-count id now [] = omega arith
mark-count id now (l ∷ ls) = ground (arith, mark-count id now ls)

pub mark-less :
    (id : Bytes) (now : ℕ) (ls : Store)
    → waits now id ls ≡ true
    → count_pending now (mark_swept id now ls) < count_pending now ls
unfolding count_pending mark_swept
mark-less id now [] h = cc
mark-less id now (l ∷ ls) h = ground (arith, mark-less id now ls, mark-count id now ls)

-- A lease that waits for its sweep in this store.
abbrev pub Waiting : ℕ → Store → Lease → Type 0
Waiting now ls l = waits now l.id ls ≡ true

pub keep-Waiting : (now : ℕ) (ls : Store) → All (Waiting now ls) (keep_pending now ls)
unfolding keep_pending
keep-Waiting now [] = tt
keep-Waiting now (l ∷ ls) =
    let rest =
      All-map {P = Waiting now ls} {Q = Waiting now (l ∷ ls)} (λ m h. ground arith)
        (keep_pending now ls) (keep-Waiting now ls) in
    elim (Bool-cases (is_pending now l)) [
      | inl h ↦ rw h (ground (arith, bytes_eq_refl l.id), rest)
      | inr h ↦ rw h rest
    ]

module _ (P : Lease → Type 0) where
  insert-All : (l : Lease) (ls : List Lease) → P l → All P ls → All P (insert_by_expiry l ls)
  unfolding insert_by_expiry
  insert-All l [] p _ = (p, tt)
  insert-All l (m ∷ ms) p (q, h) = elim (Bool-cases (ltb m.expires_at l.expires_at)) [
    | inl later ↦ rw later (q, insert-All l ms p h)
    | inr first ↦ rw first (p, (q, h))
  ]

  sort-All : (ls : List Lease) → All P ls → All P (sort_by_expiry ls)
  unfolding sort_by_expiry
  sort-All [] _ = tt
  sort-All (l ∷ ls) (p, h) = insert-All l (sort_by_expiry ls) p (sort-All ls h)

  take-All : (n : ℕ) (ls : List Lease) → All P ls → All P (take n ls)
  take-All zero ls _ = tt
  take-All (suc n) [] _ = tt
  take-All (suc n) (l ∷ ls) (p, h) = (p, take-All n ls h)

  pub pending-All :
      (now limit : ℕ) (ls : Store)
      → All P (keep_pending now ls)
      → All P (pending_sweep now limit ls)
  unfolding pending_sweep
  pending-All now limit ls h =
      let sorted = sort-All (keep_pending now ls) h in
      elim (Bool-cases (ltb 0 limit && ltb limit (length (sort_by_expiry (keep_pending now ls))))) [
        | inl cut ↦ rw cut (take-All limit (sort_by_expiry (keep_pending now ls)) sorted)
        | inr whole ↦ rw whole sorted
      ]

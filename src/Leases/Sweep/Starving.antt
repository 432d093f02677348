-- ===== src/Leases/Sweep/Starving.antt =====
-- The batch of internal/seaweedfssweep/sweep.go, the oldest pending leases, when they cannot be cleaned up.
use booth_storage.Base.{
  ℕ, zero, suc, ◌≤◌, ◌<◌, ◌≡◌, refl, ap, ◌∙◌, inl, inr, Bool, true, false, ◌&&◌, Option, List, [],
  ◌∷◌, Bytes, All, length, take, ltb, Bool-cases, Result, Result-cases, arith, if◌then◌else◌,
}
use booth_storage.Leases.{
  Lease, Store, is_pending, keep_pending, insert_by_expiry, sort_by_expiry, pending_sweep,
}
use booth_storage.Leases.Sweep.{
  AdminKeys, Answer, batch_size, sweep_lease, sweep_each, sweep_once, cycles,
}
use booth_storage.Leases.Sweep.Laws.{count_pending, pending-All}
use booth_storage.Leases.Sweep.Progress.{done}

module _ (bound : ℕ) where
  abbrev is_old : Lease → Bool
  is_old l = ltb l.expires_at bound

  -- How many leases expired before the bound.
  unfoldable count_old : List Lease → ℕ
  count_old [] = 0
  count_old (l ∷ ls) = let rest = count_old ls in if is_old l then suc rest else rest

  -- The leases that expired before the bound stand first.
  unfoldable IsOldFirst : List Lease → Type 0
  IsOldFirst [] = Unit
  IsOldFirst (l ∷ ls) = if is_old l then IsOldFirst ls else (count_old ls ≡ 0)

  count-insert :
      (l : Lease) (ls : List Lease) → count_old (insert_by_expiry l ls) ≡ count_old (l ∷ ls)
  unfolding count_old insert_by_expiry
  count-insert l [] = refl
  count-insert l (m ∷ ms) = ground (arith, count-insert l ms)

  count-sort : (ls : List Lease) → count_old (sort_by_expiry ls) ≡ count_old ls
  unfolding count_old sort_by_expiry
  count-sort [] = refl
  count-sort (l ∷ ls) = ground (arith, count-insert l (sort_by_expiry ls), count-sort ls)

  insert-IsOldFirst :
      (l : Lease) (ls : List Lease) → IsOldFirst ls → IsOldFirst (insert_by_expiry l ls)
  unfolding count_old insert_by_expiry IsOldFirst
  insert-IsOldFirst l [] h = elim (Bool-cases (is_old l)) [
    | inl old ↦ rw old tt
    | inr new ↦ rw new refl
  ]
  insert-IsOldFirst l (m ∷ ms) h = elim (Bool-cases (ltb m.expires_at l.expires_at)) [
    | inl later ↦ elim (Bool-cases (is_old m)) [
      | inl old ↦ rw (later, old) (insert-IsOldFirst l ms (rw old at h))
      | inr new ↦
          let none_old : count_old ms ≡ 0 = rw new at h in
          rw (later, new) (ground (arith, later, new, none_old, count-insert l ms))
    ]
    | inr before ↦ elim (Bool-cases (is_old l)) [
      | inl old ↦ rw (before, old) h
      | inr new ↦
          let newer : is_old m ≡ false = ground (arith, before, new) in
          let none_old : count_old ms ≡ 0 = rw newer at h in
          rw (before, new) (ground (arith, newer, none_old))
    ]
  ]

  sort-IsOldFirst : (ls : List Lease) → IsOldFirst (sort_by_expiry ls)
  unfolding sort_by_expiry IsOldFirst
  sort-IsOldFirst [] = tt
  sort-IsOldFirst (l ∷ ls) = insert-IsOldFirst l (sort_by_expiry ls) (sort-IsOldFirst ls)

  count_old-length : (ls : List Lease) → count_old ls ≤ length ls
  unfolding count_old
  count_old-length [] = omega arith
  count_old-length (l ∷ ls) = ground (arith, count_old-length ls)

  take-old :
      (n : ℕ) (ls : List Lease)
      → n ≤ count_old ls
      → IsOldFirst ls
      → All (λ l. is_old l ≡ true) (take n ls)
  unfolding count_old IsOldFirst
  take-old zero ls h first = tt
  take-old (suc n) [] h first = tt
  take-old (suc n) (l ∷ ls) h first = elim (Bool-cases (is_old l)) [
    | inl old ↦ (old, take-old n ls (ground (arith, h, old)) (rw old at first))
    | inr new ↦ let none_old : count_old ls ≡ 0 = rw new at first in absurd (ground (arith, h, new))
  ]

  old_throughout : (ls : List Lease) → length ls ≤ count_old ls → All (λ l. is_old l ≡ true) ls
  unfolding count_old
  old_throughout [] h = tt
  old_throughout (l ∷ ls) h = elim (Bool-cases (is_old l)) [
    | inl old ↦ (old, old_throughout ls (ground (arith, h, old)))
    | inr new ↦ absurd (ground (arith, h, new, count_old-length ls))
  ]

  count-keep :
      (now : ℕ) (ls : Store)
      → bound ≤ now
      → count_old (keep_pending now ls) ≡ count_pending bound ls
  unfolding count_old keep_pending count_pending
  count-keep now [] h = refl
  count-keep now (l ∷ ls) h = ground (arith, h, count-keep now ls h)

  pending-old :
      (now limit : ℕ) (ls : Store)
      → bound ≤ now
      → 0 < limit
      → limit ≤ count_pending bound ls
      → All (λ l. is_old l ≡ true) (pending_sweep now limit ls)
  unfolding pending_sweep
  pending-old now limit ls late some_limit many =
      let out = sort_by_expiry (keep_pending now ls) in
      let counted : count_old out ≡ count_pending bound ls =
        count-sort (keep_pending now ls) ∙ count-keep now ls late in
      let first = sort-IsOldFirst (keep_pending now ls) in
      let short = count_old-length out in
      elim (Bool-cases (ltb 0 limit && ltb limit (length out))) [
        | inl cut ↦ rw cut (take-old limit out (omega (arith, counted, many)) first)
        | inr whole ↦
            rw whole (old_throughout out (ground (arith, counted, many, whole, some_limit, short)))
      ]

module _ {C : Type 0} (raw : Bytes → Bytes → Answer) (parse : Bytes → Option C)
    (delete : C → AdminKeys → Bytes → Bytes → Result Bytes (Unit {0})) where
  -- A lease that expired before the bound cannot be cleaned up.
  abbrev pub IsDead : ℕ → Lease → Type 0
  IsDead bound l = ltb l.expires_at bound ≡ true → done raw parse delete l ≡ false

  keep-IsDead :
      (bound now : ℕ) (ls : Store)
      → All (IsDead bound) ls
      → All (IsDead bound) (keep_pending now ls)
  unfolding keep_pending
  keep-IsDead bound now [] h = tt
  keep-IsDead bound now (l ∷ ls) (dead, h) = elim (Bool-cases (is_pending now l)) [
    | inl p ↦ rw p (dead, keep-IsDead bound now ls h)
    | inr p ↦ rw p (keep-IsDead bound now ls h)
  ]

  both-dead :
      (bound : ℕ) (ls : List Lease)
      → All (IsDead bound) ls
      → All (λ l. ltb l.expires_at bound ≡ true) ls
      → All (λ l. done raw parse delete l ≡ false) ls
  both-dead bound [] h k = tt
  both-dead bound (l ∷ ls) (dead, h) (old, k) = (dead old, both-dead bound ls h k)

  sweep_each-dead :
      (now : ℕ) (batch : List Lease) (ls : Store)
      → All (λ l. done raw parse delete l ≡ false) batch
      → (sweep_each raw parse delete now batch ls).0 ≡ ls
  unfolding sweep_each
  sweep_each-dead now [] ls h = refl
  sweep_each-dead now (l ∷ rest) ls (h, hs) = elim (Result-cases (sweep_lease raw parse delete l)) [
    | inl (_, good) ↦ cc (rw good at h)
    | inr (e, failed) ↦ rw (failed, sweep_each) (sweep_each-dead now rest ls hs)
  ]

  -- If none of the leases that expired before some time can be cleaned up, and as many of them are pending
  -- as a batch holds, then no cycle from that time on marks any lease, whenever the cycles run: those that
  -- expired later stay pending too, even if they could be cleaned up.
  pub cycles-starve :
      (bound : ℕ) (times : List ℕ) (ls : Store)
      → All (IsDead bound) ls
      → batch_size ≤ count_pending bound ls
      → All (λ now. bound ≤ now) times
      → cycles raw parse delete times ls ≡ ls
  unfolding cycles sweep_once
  cycles-starve bound [] ls dead many late = refl
  cycles-starve bound (now ∷ times) ls dead many (here, late) =
      let batch = pending_sweep now batch_size ls in
      let stuck = sweep_each-dead now batch ls (
        both-dead bound batch
          (pending-All (IsDead bound) now batch_size ls (keep-IsDead bound now ls dead))
          (pending-old bound now batch_size ls here (omega arith) many)) in
      ap (cycles raw parse delete times) stuck ∙ cycles-starve bound times ls dead many late

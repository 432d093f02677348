-- ===== src/Leases/Sweep/Progress.antt =====
-- The cycles of internal/seaweedfssweep/sweep.go: what one does, and when they get to the end.
use booth_storage.Base.{
  ℕ, zero, suc, ◌+◌, ◌≤◌, ◌<◌, ◌≡◌, ◌≢◌, refl, sym, ap, ◌∙◌, subst, inl, inr, Bool, true, false,
  ◌&&◌, ◌||◌, Option, List, [], ◌∷◌, Bytes, bytes_eq, any, All, length, take, ltb, Bool-cases,
  List-cases, Result, ok, Result-cases, arith, if◌then◌else◌,
}
use booth_storage.Leases.{
  Lease, Store, is_pending, keep_pending, insert_by_expiry, sort_by_expiry, pending_sweep,
  mark_swept,
}
use booth_storage.Leases.Sweep.{
  AdminKeys, Answer, batch_size, sweep_lease, sweep_each, sweep_once, cycles,
}
use booth_storage.Leases.Sweep.Laws.{
  find_lease, mark_option, mark_option_idem, find-mark_swept, is_ok, count_pending, mark-count,
  mark-less, Waiting, keep-Waiting, pending-All,
}

insert-ne-nil : (l : Lease) (ls : List Lease) → insert_by_expiry l ls ≢ []
unfolding insert_by_expiry
insert-ne-nil l [] = λ e. cc
insert-ne-nil l (m ∷ ms) = elim (Bool-cases (ltb m.expires_at l.expires_at)) [
  | inl later ↦ rw later (λ e. cc)
  | inr first ↦ rw first (λ e. cc)
]

cut-ne-nil : (b : Bool) (ls : List Lease) → ls ≢ [] → (if b then take batch_size ls else ls) ≢ []
cut-ne-nil b [] h = absurd (h refl)
cut-ne-nil true (l ∷ ls) h = λ e. cc
cut-ne-nil false (l ∷ ls) h = λ e. cc

-- So many ticks in which the clock reads the same.
unfoldable pub ticks : ℕ → ℕ → List ℕ
ticks zero now = []
ticks (suc n) now = now ∷ ticks n now

pick_failed :
    (b c : Bool) (x y : Option Lease) → (if c then x else y) ≡ (if (b && false) || c then x else y)
pick_failed true c x y = refl
pick_failed false c x y = refl

pick_done :
    (now : ℕ) (b c : Bool) (o : Option Lease)
    → (if c
        then mark_option now (if b then mark_option now o else o)
        else if b
        then mark_option now o
        else o)
      ≡ (if (b && true) || c then mark_option now o else o)
pick_done now true true o = mark_option_idem now o
pick_done now true false o = refl
pick_done now false true o = refl
pick_done now false false o = refl

-- Where a lease is pending, a batch of it is not empty.
none_pending :
    (now : ℕ) (ls : Store) → pending_sweep now batch_size ls ≡ [] → keep_pending now ls ≡ []
unfolding pending_sweep
none_pending now ls h = elim (List-cases (keep_pending now ls)) [
  | inl empty ↦ empty
  | inr (l, rest, some_left) ↦ absurd (
      cut-ne-nil _ (sort_by_expiry (keep_pending now ls))
        (subst (λ x. sort_by_expiry x ≢ []) (sym some_left)
          (unfold sort_by_expiry in insert-ne-nil l (sort_by_expiry rest)))
        h)
]

none_kept : (now : ℕ) (ls : Store) → keep_pending now ls ≡ [] → count_pending now ls ≡ 0
unfolding count_pending keep_pending
none_kept now [] h = refl
none_kept now (l ∷ ls) h = elim (Bool-cases (is_pending now l)) [
  | inl p ↦ cc (rw p at h)
  | inr p ↦ rw p (none_kept now ls (rw p at h))
]

none_counted : (now : ℕ) (ls : Store) → count_pending now ls ≡ 0 → keep_pending now ls ≡ []
unfolding count_pending keep_pending
none_counted now [] h = refl
none_counted now (l ∷ ls) h = elim (Bool-cases (is_pending now l)) [
  | inl p ↦ cc (rw p at h)
  | inr p ↦ rw p (none_counted now ls (rw p at h))
]

module _ {C : Type 0} (raw : Bytes → Bytes → Answer) (parse : Bytes → Option C)
    (delete : C → AdminKeys → Bytes → Bytes → Result Bytes (Unit {0})) where
  abbrev pub done : Lease → Bool
  done l = is_ok (sweep_lease raw parse delete l)

  sweep_each-find :
      (now : ℕ) (batch : List Lease) (ls : Store) (k : Bytes)
      → find_lease k (sweep_each raw parse delete now batch ls).0 ≡ (
          if any (λ l. bytes_eq l.id k && done l) batch
          then mark_option now (find_lease k ls)
          else find_lease k ls)
  unfolding sweep_each
  sweep_each-find now [] ls k = refl
  sweep_each-find now (l ∷ rest) ls k = elim (Result-cases (sweep_lease raw parse delete l)) [
    | inr (e, failed) ↦
        rw (failed, sweep_each)
          (sweep_each-find now rest ls k
            ∙ pick_failed (bytes_eq l.id k) (any (λ m. bytes_eq m.id k && done m) rest)
                (mark_option now (find_lease k ls)) (find_lease k ls))
    | inl (_, good) ↦
        rw (good, sweep_each)
          (sweep_each-find now rest (mark_swept l.id now ls) k
            ∙ ap (λ o. if any (λ m. bytes_eq m.id k && done m) rest then mark_option now o else o)
                (find-mark_swept l.id k now ls)
            ∙ pick_done now (bytes_eq l.id k) (any (λ m. bytes_eq m.id k && done m) rest)
                (find_lease k ls))
  ]

  sweep_each-count :
      (now : ℕ) (batch : List Lease) (ls : Store)
      → count_pending now (sweep_each raw parse delete now batch ls).0 ≤ count_pending now ls
  unfolding sweep_each
  sweep_each-count now [] ls = omega arith
  sweep_each-count now (l ∷ rest) ls = elim (Result-cases (sweep_lease raw parse delete l)) [
    | inr (e, failed) ↦ rw (failed, sweep_each) (sweep_each-count now rest ls)
    | inl (_, good) ↦
        rw (good, sweep_each)
          (omega
            (arith, sweep_each-count now rest (mark_swept l.id now ls), mark-count l.id now ls))
  ]

  sweep_each-total :
      (now : ℕ) (batch : List Lease) (ls : Store)
      → (sweep_each raw parse delete now batch ls).1 + (sweep_each raw parse delete now batch ls).2
        ≡ length batch
  unfolding sweep_each
  sweep_each-total now [] ls = omega arith
  sweep_each-total now (l ∷ rest) ls = elim (Result-cases (sweep_lease raw parse delete l)) [
    | inr (e, failed) ↦ rw (failed, sweep_each) (omega (arith, sweep_each-total now rest ls))
    | inl (_, good) ↦
        rw (good, sweep_each) (omega (arith, sweep_each-total now rest (mark_swept l.id now ls)))
  ]

  -- One cycle of the sweeper: every lease of the batch is counted once, as swept or as failed, a lease is
  -- marked exactly when its own cleanup succeeded, and every other lease stays as it is.
  pub sweep_once_lem :
      (now : ℕ) (ls : Store) (k : Bytes)
      → (find_lease k (sweep_once raw parse delete now ls).0 ≡ (
          if any (λ l. bytes_eq l.id k && done l) (pending_sweep now batch_size ls)
          then mark_option now (find_lease k ls)
          else find_lease k ls))
        × ((sweep_once raw parse delete now ls).1.swept
              + (sweep_once raw parse delete now ls).1.failed
            ≡ length (pending_sweep now batch_size ls))
  unfolding sweep_once
  sweep_once_lem now ls k = (
    sweep_each-find now (pending_sweep now batch_size ls) ls k,
    sweep_each-total now (pending_sweep now batch_size ls) ls,
  )

  module _ (succeeds : (l : Lease) → sweep_lease raw parse delete l ≡ ok tt) where
    batch-less :
        (now : ℕ) (batch : List Lease) (ls : Store)
        → batch ≢ []
        → All (Waiting now ls) batch
        → count_pending now (sweep_each raw parse delete now batch ls).0 < count_pending now ls
    unfolding sweep_each
    batch-less now [] ls some_left h = absurd (some_left refl)
    batch-less now (l ∷ rest) ls some_left (waits_here, _) =
        rw (succeeds l, sweep_each)
          (omega (
            arith,
            sweep_each-count now rest (mark_swept l.id now ls),
            mark-less l.id now ls waits_here,
          ))

    -- If every cleanup succeeds, the sweeper gets to the end of its work: after as many cycles at one time
    -- as leases were pending at first, none is.
    pub cycles_finish :
        (n now : ℕ) (ls : Store)
        → count_pending now ls ≤ n
        → keep_pending now (cycles raw parse delete (ticks n now) ls) ≡ []
    unfolding cycles ticks sweep_once sweep_each
    cycles_finish zero now ls h = none_counted now ls (omega arith)
    cycles_finish (suc n) now ls h = elim (List-cases (pending_sweep now batch_size ls)) [
      | inl empty ↦
          rw (empty, cycles)
            (cycles_finish n now ls (omega (arith, none_kept now ls (none_pending now ls empty))))
      | inr (l, rest, batch) ↦
          let less =
            batch-less now (pending_sweep now batch_size ls) ls (λ e. cc)
              (pending-All (Waiting now ls) now batch_size ls (keep-Waiting now ls)) in
          cycles_finish n now
            (sweep_each raw parse delete now (pending_sweep now batch_size ls) ls).0
            (omega (arith, less))
    ]

-- ===== src/Retry/Bounds.antt =====
-- `Retry` of internal/dbwait/retry.go ends, and how.
use booth_storage.Base.{
  ℕ, zero, suc, ◌+◌, ◌*◌, ◌≤◌, ◌<◌, ◌≡◌, sym, ap, ◌∙◌, inl, inr, Bool, true, false, Option, none,
  some, ltb, Bool-cases, Option-cases, arith,
}
use booth_storage.Retry.{
  ConnError, initial_backoff, is_retryable, Outcome, connected, final, gave_up, canceled,
  out_of_fuel, next_backoff, retry_from, retry,
}

backoff-grows : (b : ℕ) → initial_backoff ≤ b → initial_backoff ≤ next_backoff b
backoff-grows b h = ground arith

module _ (attempt : ℕ → Option ConnError) (takes : ℕ → ℕ) (is_done : ℕ → Bool) where
  -- The attempts from `n` on, before `k`, failed in a way that is worth another one.
  abbrev pub Retried : ℕ → ℕ → Type 0
  Retried n k =
      (j : ℕ) → n ≤ j → j < k → (e : ConnError) × (attempt j ≡ some e) × (is_retryable e ≡ true)

  -- When the attempt that is the `m`th after the attempt `n` ends, in a loop that begins with `n` now.
  unfoldable pub ends_at : ℕ → ℕ → ℕ → ℕ → ℕ
  ends_at zero now backoff n = now + takes n
  ends_at (suc m) now backoff n = ends_at m (now + takes n + backoff) (next_backoff backoff) (suc n)

  -- Why a loop that begins with attempt `n` now ends like this.
  unfoldable pub Ends : ℕ → ℕ → ℕ → ℕ → Outcome → Type 0
  Ends deadline now backoff n connected = (k : ℕ) × (n ≤ k) × (attempt k ≡ none) × Retried n k
  Ends deadline now backoff n (final e) =
      (k : ℕ) × (n ≤ k) × (attempt k ≡ some e) × (is_retryable e ≡ false) × Retried n k
  Ends deadline now backoff n (gave_up k e) =
      (m : ℕ) × (k ≡ n + m)
      × (deadline ≤ ends_at m now backoff n)
      × (attempt k ≡ some e)
      × (is_retryable e ≡ true)
      × Retried n k
  Ends deadline now backoff n canceled = (k : ℕ) × (n ≤ k) × (is_done k ≡ true) × Retried n (suc k)
  Ends deadline now backoff n out_of_fuel = ⊥

  at_once : (n : ℕ) → Retried n n
  at_once n j low high = absurd (omega arith)

  one_more :
      (n k : ℕ) (e : ConnError)
      → attempt n ≡ some e
      → is_retryable e ≡ true
      → Retried (suc n) k
      → Retried n k
  one_more n k e failed again rest j low high = elim (Bool-cases (ltb n j)) [
    | inl behind ↦ rest j (ground arith) high
    | inr here ↦ let same : n ≡ j = ground arith in (e, ap attempt (sym same) ∙ failed, again)
  ]

  Ends-later :
      (deadline now backoff n : ℕ) (e : ConnError) (r : Outcome)
      → attempt n ≡ some e
      → is_retryable e ≡ true
      → Ends deadline (now + takes n + backoff) (next_backoff backoff) (suc n) r
      → Ends deadline now backoff n r
  unfolding Ends ends_at
  Ends-later deadline now backoff n e connected failed again (k, low, good, rest) =
      (k, omega (arith, low), good, one_more n k e failed again rest)
  Ends-later deadline now backoff n e (final f) failed again (k, low, bad, last, rest) =
      (k, omega (arith, low), bad, last, one_more n k e failed again rest)
  Ends-later deadline now backoff n e (gave_up k f) failed again (m, at, late, bad, worth, rest) =
      (suc m, omega (arith, at), late, bad, worth, one_more n k e failed again rest)
  Ends-later deadline now backoff n e canceled failed again (k, low, stop, rest) =
      (k, omega (arith, low), stop, one_more n (suc k) e failed again rest)
  Ends-later deadline now backoff n e out_of_fuel failed again h = h

  -- One turn of the loop, with what is known of the turns behind it.
  retry_step :
      (fuel deadline now backoff n : ℕ)
      → (ltb (now + takes n) deadline ≡ true
          → Ends deadline (now + takes n + backoff) (next_backoff backoff) (suc n) (
              retry_from attempt takes is_done fuel deadline
                (now + takes n + backoff)
                (next_backoff backoff)
                (suc n)))
      → Ends deadline now backoff n
          (retry_from attempt takes is_done (suc fuel) deadline now backoff n)
  unfolding retry_from Ends ends_at
  retry_step fuel deadline now backoff n onwards = elim (Option-cases (attempt n)) [
    | inl good ↦ rw (good, retry_from) (n, omega arith, good, at_once n)
    | inr (e, bad) ↦ elim (Bool-cases (is_retryable e)) [
      | inr last ↦ rw (bad, retry_from, last) (n, omega arith, bad, last, at_once n)
      | inl again ↦ elim (Bool-cases (ltb (now + takes n) deadline)) [
        | inr late ↦
            rw (bad, retry_from, again, late) (0, omega arith, ground arith, bad, again, at_once n)
        | inl early ↦ elim (Bool-cases (is_done n)) [
          | inl stop ↦
              rw (bad, retry_from, again, early, stop)
                (n, omega arith, stop, one_more n (suc n) e bad again (at_once (suc n)))
          | inr go_on ↦
              rw (bad, retry_from, again, early, go_on)
                (Ends-later deadline now backoff n e _ bad again (onwards early))
        ]
      ]
    ]
  ]

  retry_from-Ends :
      (fuel deadline now backoff n : ℕ)
      → initial_backoff ≤ backoff
      → deadline ≤ now + fuel * initial_backoff
      → Ends deadline now backoff n
          (retry_from attempt takes is_done (suc fuel) deadline now backoff n)
  retry_from-Ends zero deadline now backoff n slow enough =
      retry_step zero deadline now backoff n (λ early. absurd (ground (arith, enough)))
  retry_from-Ends (suc fuel) deadline now backoff n slow enough =
      retry_step (suc fuel) deadline now backoff n (λ early.
        retry_from-Ends fuel deadline (now + takes n + backoff) (next_backoff backoff) (suc n)
          (backoff-grows backoff slow) (omega (arith, slow, enough)))

  -- A retry ends, within one attempt more than the half seconds that it may take, and it ends for one of
  -- four reasons: an attempt succeeded; an attempt failed in a way that no retry can mend; an attempt failed
  -- and ended at the deadline or later; or the context was done. Every attempt before the last failed in a way that is worth
  -- another one.
  pub retry-Ends :
      (fuel max_elapsed start : ℕ)
      → max_elapsed ≤ fuel * initial_backoff
      → Ends
          (start + max_elapsed)
          start
          initial_backoff
          1
          (retry attempt takes is_done (suc fuel) max_elapsed start)
  retry-Ends fuel max_elapsed start enough =
      retry_from-Ends fuel (start + max_elapsed) start initial_backoff 1 (omega arith)
        (omega (arith, enough))

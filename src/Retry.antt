-- ===== src/Retry.antt =====
-- internal/dbwait/retry.go: `Retry`. The attempts, how long each takes and when the context is done are
-- arguments; times are in milliseconds and a wait takes as long as its timer. The loop runs on fuel.
pub mod Bounds
mod Tests
use booth_storage.Base.{
  ℕ, zero, suc, ◌+◌, ◌*◌, Bool, true, false, not, ◌||◌, Option, none, some, List, [], ◌∷◌, Bytes,
  codes, bytes_eq, has_prefix, ltb, if◌then◌else◌,
}

-- What is found in an error's chain: a PostgreSQL error with its code, a DNS error, a network error; and
-- its text.
pub record ConnError : Type 0 where
  pub pg_code : Option Bytes
  pub is_dns : Bool
  pub is_net : Bool
  pub text : Bytes

abbrev pub default_max_elapsed : ℕ
default_max_elapsed = 60000

abbrev pub initial_backoff : ℕ
initial_backoff = 500

abbrev pub max_backoff : ℕ
max_backoff = 8000

-- `strings.Contains`
unfoldable pub has_part : Bytes → Bytes → Bool
has_part [] part = has_prefix [] part
has_part (c ∷ s) part = has_prefix (c ∷ s) part || has_part s part

-- `isRetryableConnectionError`
unfoldable pub is_retryable : ConnError → Bool
is_retryable e = elim e.pg_code [
  | some code ↦ bytes_eq code (codes "57P03")
  | none ↦
      e.is_dns
      || e.is_net
      || has_part e.text (codes "connection refused")
      || has_part e.text (codes "i/o timeout")
]

pub data Outcome : Type 0 where
  connected : Outcome
  final : ConnError → Outcome
  gave_up : ℕ → ConnError → Outcome
  canceled : Outcome
  out_of_fuel : Outcome

-- The longer of two waits is bounded.
abbrev pub next_backoff : ℕ → ℕ
next_backoff b = if ltb max_backoff (2 * b) then max_backoff else 2 * b

module _ (attempt : ℕ → Option ConnError) (takes : ℕ → ℕ) (is_done : ℕ → Bool) where
  -- The loop, from the attempt of this number on, at this time.
  unfoldable pub retry_from : ℕ → ℕ → ℕ → ℕ → ℕ → Outcome
  retry_from zero deadline now backoff n = out_of_fuel
  retry_from (suc fuel) deadline now backoff n =
      let later = now + takes n in
      let again = retry_from fuel deadline (later + backoff) (next_backoff backoff) (suc n) in
      elim (attempt n) [
        | none ↦ connected
        | some e ↦
            if not (is_retryable e)
            then final e
            else if not (ltb later deadline)
            then gave_up n e
            else if is_done n
            then canceled
            else again
      ]

  -- `Retry`
  abbrev pub retry : ℕ → ℕ → ℕ → Outcome
  retry fuel max_elapsed start = retry_from fuel (start + max_elapsed) start initial_backoff 1

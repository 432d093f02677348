-- ===== src/Retry/Tests.antt =====
-- Concrete runs of the retry loop.
use booth_storage.Base.{
  ℕ, ◌+◌, ◌≡◌, refl, false, Option, none, some, [], codes, ltb, arith, bytes_eq, if◌then◌else◌,
}
use booth_storage.Retry.{
  ConnError, default_max_elapsed, initial_backoff, is_retryable, connected, retry_from, retry,
}
use booth_storage.Retry.Bounds.{Ends, retry-Ends}

abbrev starting_up : ConnError
starting_up = record { pg_code = some (codes "57P03"); is_dns = false; is_net = false; text = [] }

-- Two refusals while the server starts, then a connection.
abbrev third_time : ℕ → Option ConnError
third_time n = if ltb n 3 then some starting_up else none

retry-Ends_example :
    Ends third_time
      (λ n. 20)
      (λ n. false)
      (0 + default_max_elapsed)
      0
      initial_backoff
      1
      (retry third_time (λ n. 20) (λ n. false) 121 default_max_elapsed 0)
retry-Ends_example =
    retry-Ends third_time (λ n. 20) (λ n. false) 120 default_max_elapsed 0 (omega arith)

third_connects : retry third_time (λ n. 20) (λ n. false) 121 default_max_elapsed 0 ≡ connected
unfolding retry_from is_retryable bytes_eq
third_connects = refl

-- ===== src/Retry/Examples.antt =====
-- An upstream that is overloaded at every attempt; the world counts the sends.
use agentic_loop.Prelude.{ℕ, ◌+◌, none, Option, ◌≤◌, some, refl, [], false, ◌≡◌, ◌⊎◌}
use agentic_loop.Prelude.Int.{pos, negsuc}
use agentic_loop.Errors.{Error, api}
use agentic_loop.Retry.{Answer, RetryAttempt, RetryPolicy, attempts, retry_cause, retry_with}
use agentic_loop.Retry.Attempts.{retry_with-attempts}
use agentic_loop.Retry.Settled.{retry_with-Settled}

abbrev overloaded : ℕ → Answer × ℕ
overloaded n = ((none, some (api 503 [] false)), n + 1)

abbrev agrees : RetryAttempt → ℕ → Option Error × ℕ
agrees a n = (none, n)

abbrev naps : ℕ → ℕ → Option Error × ℕ
naps d n = (none, n)

abbrev twice : RetryPolicy
twice = record { max_attempts = pos 2; base_delay = negsuc 0 }

retry_with-attempts_example :
    (0 + 1 ≤ (retry_with overloaded agrees naps twice 0).1)
    × ((retry_with overloaded agrees naps twice 0).1 ≤ 0 + attempts twice)
retry_with-attempts_example =
    retry_with-attempts overloaded agrees naps twice (λ n. n) (λ n. refl) (λ a n. refl)
      (λ d n. refl) 0

retry_with-Settled_example :
    (retry_cause (retry_with overloaded agrees naps twice 0).0 ≡ none)
    ⊎ ((retry_with overloaded agrees naps twice 0).1 ≡ 0 + attempts twice)
retry_with-Settled_example =
    retry_with-Settled overloaded agrees naps twice (λ n. n) (λ n. refl) (λ a n. refl) (λ d n. refl)
      (λ a n. refl) (λ d n. refl) 0

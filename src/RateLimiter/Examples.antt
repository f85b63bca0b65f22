-- ===== src/RateLimiter/Examples.antt =====
-- Callers that come together.
use agentic_loop.Prelude.{◌+◌, ◌*◌, ◌≤◌, ◌∷◌, [], refl, ◌≡◌}
use agentic_loop.Prelude.Int.{pos}
use agentic_loop.RateLimiter.{new_rate_limiter, wait}
use agentic_loop.RateLimiter.Spacing.{starts, starts_apart}

starts_apart_example : 5 + 2 * (new_rate_limiter (pos 60)).interval ≤ 2_000_000_006
unfolding starts wait new_rate_limiter
starts_apart_example =
    starts_apart ((5, 0) ∷ (5, 900) ∷ (6, 1) ∷ []) (new_rate_limiter (pos 60)) 0 2 5 5 2_000_000_006
      refl refl refl

-- A caller that sleeps too long starts close to the next one.
starts_close :
    starts ((0, 0) ∷ (0, 500_000_000) ∷ (0, 0) ∷ []) (new_rate_limiter (pos 60))
    ≡ 0 ∷ 1_500_000_000 ∷ 2_000_000_000 ∷ []
unfolding starts wait new_rate_limiter
starts_close = refl

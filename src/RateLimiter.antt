-- ===== src/RateLimiter.antt =====
-- extras/ratelimit.go: a gate that spaces the starts of requests. Times and durations are numbers of
-- nanoseconds; Go's zero time is `none`. The mutex makes `Wait` up to its sleep one step.
pub mod Spacing
mod Examples
use agentic_loop.Prelude.{ℕ, ◌/◌, Option, none, some, suc, ◌+◌, if◌then◌else◌, zero, leb, ◌-◌}
use agentic_loop.Prelude.Int.{ℤ, pos, negsuc}

pub record RateLimiter : Type 0 where
  pub interval : ℕ
  pub next : Option ℕ

abbrev minute : ℕ
minute = 60_000_000_000

-- `n` clamped to at least one.
abbrev pub at_least_one : ℤ → ℕ
at_least_one (pos zero) = 1
at_least_one (pos (suc n)) = suc n
at_least_one (negsuc n) = 1

pub new_rate_limiter : ℤ → RateLimiter
new_rate_limiter n = record { interval = minute / at_least_one n; next = none }

abbrev admit : ℕ → RateLimiter → ℕ × RateLimiter
admit t l = (0, record l { next = some (t + l.interval) })

abbrev queue_up : ℕ → RateLimiter → Option ℕ → ℕ × RateLimiter
queue_up t l none = admit t l
queue_up t l (some next) =
    if leb next t then admit t l else (next - t, record l { next = some (next + l.interval) })

-- What a caller that arrives at `t` sleeps, and the limiter after that.
pub wait : ℕ → RateLimiter → ℕ × RateLimiter
wait t l = queue_up t l l.next

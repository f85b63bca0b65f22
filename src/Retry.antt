-- ===== src/Retry.antt =====
-- extras/retry.go: a model call with retry and exponential backoff. `W` is the state of everything
-- outside; sending, announcing and sleeping are functions on it. Delays are nanoseconds.
pub mod Attempts
pub mod Settled
mod Examples
use agentic_loop.Prelude.{
  ℕ, Text, ◌*◌, codes, Bool, Option, suc, ◌^◌, not, false, if◌then◌else◌, ◌+◌, ◌-◌, zero, some, ◌%◌,
  is_nil, none, ◌||◌, trim_space, anyb,
}
use agentic_loop.Prelude.Int.{ℤ, pos, negsuc, ltb_ℤ}
use agentic_loop.Message.{Message, ThinkingBlock, ToolCall}
use agentic_loop.Errors.{Error, plain, is_transient}

-- The fields of a core completion that the retry reads.
pub record Completion : Type 0 where
  pub message : Message
  pub stop_reason : Text

pub record RetryPolicy : Type 0 where
  pub max_attempts : ℤ
  pub base_delay : ℤ

abbrev default_attempts : ℕ
default_attempts = 10

abbrev default_base : ℕ
default_base = 500_000_000

abbrev pub or_default : ℤ → ℕ → ℕ
or_default (pos zero) d = d
or_default (pos (suc n)) d = suc n
or_default (negsuc n) d = d

unfoldable pub attempts : RetryPolicy → ℕ
attempts p = or_default p.max_attempts default_attempts

unfoldable pub base : RetryPolicy → ℕ
base p = or_default p.base_delay default_base

-- `p.base() << (attempt - 1)` in an int64, by its bit pattern.
pub delay : RetryPolicy → ℕ → ℕ
unfolding base
delay p attempt = base p * 2 ^ (attempt - 1) % 2 ^ 64

pub empty_completion : Error
empty_completion = plain (codes "upstream returned no text, tool call, or thinking")

abbrev carries : ThinkingBlock → Bool
carries b = not (is_nil b.text) || not (is_nil b.redacted)

abbrev pub has_output : Message → Bool
has_output m =
    not (is_nil (trim_space m.content))
    || not (is_nil m.tool_calls)
    || not (is_nil m.parts)
    || anyb carries m.thinking_blocks

pub completion_is_empty : Option Completion → Bool
completion_is_empty none = false
completion_is_empty (some c) = not (has_output c.message)

pub record RetryAttempt : Type 0 where
  pub attempt : ℕ
  pub limit : ℕ
  pub delay : ℕ
  pub cause : Error

abbrev pub Answer : Type 0
Answer = Option Completion × Option Error

-- Why an answer is asked for again, if it is.
pub retry_cause : Answer → Option Error
unfolding completion_is_empty
retry_cause (comp, none) = if completion_is_empty comp then some empty_completion else none
retry_cause (none, some e) = if is_transient (some e) then some e else none
retry_cause (some c, some e) = none

module _ {W : Type 0} (send : W → Answer × W) (announce : RetryAttempt → W → Option Error × W)
    (sleep : ℕ → W → Option Error × W) (policy : RetryPolicy) where
  abbrev Loop : Type 0
  Loop = W → Answer × W

  abbrev after_sleep : Answer → Loop → Option Error × W → Answer × W
  after_sleep a again (none, w) = again w
  after_sleep a again (some e, w) = (a, w)

  abbrev after_announce : Answer → ℕ → Loop → Option Error × W → Answer × W
  after_announce (comp, err) attempt again (none, w) =
      after_sleep (comp, err) again (sleep (delay policy attempt) w)
  after_announce (comp, err) attempt again (some e, w) = ((comp, some e), w)

  abbrev decide : Answer → ℕ → Loop → Option Error → W → Answer × W
  decide a attempt again none w = (a, w)
  decide a attempt again (some cause) w = after_announce a attempt again (
      announce
        (record {
          attempt = attempt;
          limit = attempts policy;
          delay = delay policy attempt;
          cause = cause;
        })
        w)

  -- The loop of `retryWith`, by the attempts that are left after this one.
  pub retry_from : ℕ → ℕ → W → Answer × W
  retry_from zero attempt w = send w
  retry_from (suc left) attempt w =
      let (a, w') = send w in
      decide a attempt (λ v. retry_from left (attempt + 1) v) (retry_cause a) w'

  pub retry_with : W → Answer × W
  unfolding retry_from
  retry_with w = retry_from (attempts policy - 1) 1 w

  abbrev after_nap : Error → (W → Option Error × W) → Option Error × W → Option Error × W
  after_nap e again (none, w) = again w
  after_nap e again (some _, w) = (some e, w)

  abbrev after_call : ℕ → (W → Option Error × W) → Option Error × W → Option Error × W
  after_call attempt again (none, w) = (none, w)
  after_call attempt again (some e, w) =
      if is_transient (some e)
      then after_nap e again (sleep (delay policy attempt) w)
      else (some e, w)

  -- `Do`: the same policy over a call that has no value.
  pub do_from : (W → Option Error × W) → ℕ → ℕ → W → Option Error × W
  do_from fn zero attempt w = fn w
  do_from fn (suc left) attempt w = after_call attempt (λ v. do_from fn left (attempt + 1) v) (fn w)

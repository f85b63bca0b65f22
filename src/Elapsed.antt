-- ===== src/Elapsed.antt =====
-- internal/loop/elapsed.go: the notice of the time that has passed, which rides each model call. A
-- duration is a number of nanoseconds; one below zero reads like one below a second. The layout of
-- the wall clock is a parameter, and so is the comparison with Go's zero time.
pub mod Units
mod Examples
use agentic_loop.Prelude.{
  ℕ, List, Text, Option, ◌*◌, [], decimal, ◌∷◌, if◌then◌else◌, Bool, codes, ◌++◌, ltb, is_nil, suc,
  some, ◌/◌, ◌==◌, ◌-◌, true, none, zero, false,
}
use agentic_loop.Message.{Message, user, empty_message, text}

abbrev second : ℕ
second = 1_000_000_000

-- A unit: its size, its name for one, its name for more.
pub record ElapsedUnit : Type 0 where
  pub size : ℕ
  pub one : Text
  pub many : Text

abbrev pub elapsed_units : List ElapsedUnit
elapsed_units =
    record { size = 86400 * second; one = codes "d"; many = codes "d" }
    ∷ record { size = 3600 * second; one = codes "hr"; many = codes "hrs" }
    ∷ record { size = 60 * second; one = codes "min"; many = codes "mins" }
    ∷ record { size = second; one = codes "sec"; many = codes "secs" }
    ∷ []

abbrev pub Part : Type 0
Part = ℕ × ElapsedUnit

-- The loop of `FormatElapsed`: `left` parts may still be added.
pub elapsed_parts : ℕ → ℕ → List ElapsedUnit → List Part
elapsed_parts zero d us = []
elapsed_parts (suc left) d [] = []
elapsed_parts (suc left) d (u ∷ us) =
    let n = d / u.size in
    let next = elapsed_parts left (d - n * u.size) us in
    let skipped = elapsed_parts (suc left) d us in if n == 0 then skipped else (n, u) ∷ next

abbrev part_text : Part → Text
part_text (n, u) = decimal n ++ (if n == 1 then u.one else u.many)

abbrev join_parts : List Part → Text
join_parts [] = []
join_parts (p ∷ []) = part_text p
join_parts (p ∷ q ∷ ps) = part_text p ++ 0x20 ∷ join_parts (q ∷ ps)

pub format_elapsed : ℕ → Text
unfolding elapsed_parts
format_elapsed d =
    if ltb d second then codes "<1sec" else join_parts (elapsed_parts 2 d elapsed_units)

abbrev pub notice_tail : Text → Bool → ℕ → Text
unfolding format_elapsed
notice_tail head true gap = head ++ codes ", " ++ format_elapsed gap ++ codes " have passed"
notice_tail head false gap = head

-- `since` is none for Go's zero time. `clock` is the layout of the wall clock.
pub format_elapsed_notice : (ℕ → Text) → ℕ → Option ℕ → Text
format_elapsed_notice clock now none = codes "Current time is " ++ clock now
format_elapsed_notice clock now (some since) =
    notice_tail (codes "Current time is " ++ clock now) (ltb since now) (now - since)

-- The tracker keeps when the last call was made.
abbrev pub ElapsedTracker : Type 0
ElapsedTracker = Option ℕ

unfoldable pub mark_call : (ℕ → Text) → ℕ → Option ElapsedTracker → Text × Option ElapsedTracker
unfolding format_elapsed_notice
mark_call clock at none = ([], none)
mark_call clock at (some prev) = (format_elapsed_notice clock at prev, some (some at))

unfoldable pub elapsed_messages : List Message → Text → List Message
elapsed_messages msgs note =
    if is_nil note
    then msgs
    else msgs
      ++ record (empty_message user) { kind_of_note = codes "elapsed_time"; content = note } ∷ []

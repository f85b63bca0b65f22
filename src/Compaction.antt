-- ===== src/Compaction.antt =====
-- internal/loop/compact.go and autocompact.go: a conversation replaced by the model's summary of it,
-- in parts where it is too long for one call. `W` is the state of everything outside, which the
-- provider's `complete` reads and changes, and `U` the usage record of a call.
pub mod Split
pub mod Returns
pub mod Stall
mod Examples
use agentic_loop.Prelude.{
  Text, List, ℕ, Bool, codes, ◌++◌, ◌-◌, true, ◌∷◌, Option, if◌then◌else◌, trim_space, [], ◌+◌,
  false, ◌==◌, length, is_nil, some, none, ◌||◌, ◌/◌, ◌&&◌, not, suc, ltb, drop, zero, take,
}
use agentic_loop.Prelude.Int.{ℤ, pos, negsuc, ltb_ℤ}
use agentic_loop.Message.{Message, Role, user, empty_message, text, tool}
use agentic_loop.Errors.{Error, plain, is_context_overflow}

-- The fields of a completion that compaction reads.
pub record Completion (U : Type 0) : Type 0 where
  pub message : Message
  pub usage : U

pub data Result {ℓ} (A : Type ℓ) : Type ℓ where
  ok : A → Result A
  failed : Error → Result A

pub record CompactResult (U : Type 0) : Type 0 where
  pub summary : Text
  pub messages : List Message
  pub completion : Completion U

abbrev compact_request_text : Text
compact_request_text =
    codes "Summarize this entire conversation in detail for a future instance of yourself to pick "
    ++ codes "up. Output only the summary."

abbrev pub compaction_kind : Text
compaction_kind = codes "compaction"

abbrev compaction_handoff_prefix : Text
compaction_handoff_prefix =
    codes "The conversation so far exceeded the context window and was summarized. "
    ++ codes "This summary replaces the earlier messages; treat it as what you already know, not "
    ++ codes "as a request. Continue the work it describes."
    ++ 0x0a ∷ 0x0a ∷ []

pub summary_message : Text → Message
summary_message summary = record (empty_message user) {
  kind_of_note = compaction_kind;
  content = compaction_handoff_prefix ++ summary;
}

unfoldable pub compact_request : List Message → List Message
compact_request msgs = msgs ++ record (empty_message user) { content = compact_request_text } ∷ []

abbrev distance : ℕ → ℕ → ℕ
distance i j = (i - j) + (j - i)

abbrev pub is_user : Message → Bool
is_user m = elim m.role [ user ↦ true | _ ↦ false ]

-- The loop of `splitPoint` from index `i`, with half of the length.
pub split_from : ℕ → ℕ → ℕ → List Message → ℕ
split_from half i best [] = best
split_from half i best (m ∷ ms) =
    let closer = best == 0 || ltb (distance i half) (distance best half) in
    split_from half (i + 1) (if is_user m && closer then i else best) ms

pub split_point : List Message → ℕ
unfolding split_from
split_point [] = 0
split_point (m ∷ ms) = split_from (length (m ∷ ms) / 2) 1 0 ms

-- int(req.AutoCompact * float64(cfg.window)) is a parameter: `threshold` of the window.
unfoldable pub should_compact : Bool → (ℤ → ℤ) → ℤ → Option (Bool × ℤ) → Bool
should_compact armed threshold window none = false
should_compact armed threshold window (some (usage_reported, prompt_tokens)) =
    armed && ltb_ℤ (pos 0) window && usage_reported && not (ltb_ℤ prompt_tokens (threshold window))

module _ {W U : Type 0} (complete : List Message → W → Result (Completion U) × W) where
  abbrev summarized : Completion U → Text → Result (CompactResult U)
  summarized comp summary =
      if is_nil summary
      then failed (plain (codes "the model returned an empty summary; nothing was compacted"))
      else ok
          (record { summary = summary; messages = summary_message summary ∷ []; completion = comp })

  abbrev compacted : Result (Completion U) × W → Result (CompactResult U) × W
  compacted (ok comp, w) = (summarized comp (trim_space comp.message.content), w)
  compacted (failed e, w) = (failed e, w)

  pub compact : List Message → W → Result (CompactResult U) × W
  unfolding compact_request
  compact msgs w = compacted (complete (compact_request msgs) w)

  -- The result, the usages that were added, and the world.
  abbrev pub Fitted : Type 0
  Fitted = Result (CompactResult U) × List U × W

  abbrev pub Run : Type 0
  Run = List Message → List U → W → Option Fitted

  -- After the older part: its summary stands in for it, and the loop goes round.
  abbrev resume : Run → List Message → Option Fitted → Option Fitted
  resume again newer none = none
  resume again newer (some (failed e, us, w)) = some (failed e, us, w)
  resume again newer (some (ok older, us, w)) = again (older.messages ++ newer) us w

  abbrev one_round : Run → List Message → List U → Result (CompactResult U) × W → Option Fitted
  one_round again msgs us (ok cr, w) = some (ok cr, us ++ cr.completion.usage ∷ [], w)
  one_round again msgs us (failed e, w) =
      let cut = split_point msgs in
      if not (is_context_overflow (some e)) || cut == 0
      then some (failed e, us, w)
      else resume again (drop cut msgs) (again (take cut msgs) us w)

  -- `none` where the fuel runs out. Both the loop's next round and its call of itself take one unit.
  pub compact_to_fit : ℕ → List Message → List U → W → Option Fitted
  unfolding compact split_point
  compact_to_fit zero msgs us w = none
  compact_to_fit (suc fuel) msgs us w =
      one_round (λ ms vs v. compact_to_fit fuel ms vs v) msgs us (compact msgs w)

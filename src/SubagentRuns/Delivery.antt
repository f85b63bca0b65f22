-- ===== src/SubagentRuns/Delivery.antt =====
-- internal/loop/subagent_runs.go: the text of a delivery. `quote` stands for strconv.Quote.
use agentic_loop.Prelude.{
  Text, ◌∷◌, codes, trim_space, List, ℕ, [], ◌++◌, if◌then◌else◌, is_nil, ◌==◌, ltb, decimal,
}
use agentic_loop.SubagentRuns.{SubagentReport}

abbrev blank_line : Text
blank_line = 0x0a ∷ 0x0a ∷ []

abbrev pub subagent_delivery_header : Text
subagent_delivery_header =
    codes "[automated delivery -- this is the sub-agent notification you were promised, not a "
    ++ codes "message from the user]"

abbrev closing : ℕ → ℕ → Text
closing still abandoned =
    if abandoned == 1
    then codes "1 sub-agent was still running when this turn hit its limit and was abandoned; "
      ++ codes "its work is lost. Answer with what you have, or relaunch it in your next turn."
    else if ltb 1 abandoned
    then decimal abandoned
      ++ codes " sub-agents were still running when this turn hit its limit "
      ++ codes "and were abandoned; their work is lost. Answer with what you have, or relaunch "
      ++ codes "them in your next turn."
    else if still == 1
    then codes "1 sub-agent is still running; you will be notified when it reports. "
      ++ codes "Continue with other work, or if you have nothing to do until it lands, say so "
      ++ codes "briefly and stop."
    else if ltb 1 still
    then decimal still
      ++ codes " sub-agents are still running; you will be notified as each reports. "
      ++ codes "Continue with other work, or if you have nothing to do until they land, say so "
      ++ codes "briefly and stop."
    else codes "No sub-agents are still running."

module _ (quote : Text → Text) where
  pub describe_subagent : Text → Text
  describe_subagent label =
      let l = trim_space label in if is_nil l then codes "(no description given)" else quote l

  module _ {U : Type 0} where
    abbrev report_text : SubagentReport U → Text
    unfolding describe_subagent
    report_text rep =
        let text = trim_space rep.text in
        blank_line
        ++ codes "Sub-agent "
        ++ (if rep.is_error then codes "FAILED" else codes "finished")
        ++ codes " -- "
        ++ describe_subagent rep.label
        ++ codes ":"
        ++ blank_line
        ++ (if is_nil text then codes "(the sub-agent returned no report)" else text)

    abbrev report_texts : List (SubagentReport U) → Text
    unfolding report_text
    report_texts [] = []
    report_texts (rep ∷ reps) = report_text rep ++ report_texts reps

    pub format_subagent_delivery : List (SubagentReport U) → ℕ → ℕ → Text
    unfolding report_texts
    format_subagent_delivery reports still abandoned =
        subagent_delivery_header ++ report_texts reports ++ blank_line ++ closing still abandoned

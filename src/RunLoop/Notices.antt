-- ===== src/RunLoop/Notices.antt =====
-- internal/loop/resources.go: the notice of what changed among the watched resources. `quote` stands
-- for strconv.Quote.
use agentic_loop.Prelude.{
  List, ℕ, Text, Bool, codes, ◌∷◌, if◌then◌else◌, ◌++◌, is_nil, [], ◌==◌, not, ◌&&◌, length,
  decimal, text_eq,
}
use agentic_loop.RunLoop.{ResourceChange, ResourcePoll}

unfoldable pub poll_is_empty : ResourcePoll → Bool
poll_is_empty p = is_nil p.changes && is_nil p.warnings

abbrev pub resource_notice_header : Text
resource_notice_header =
    codes
      "[automated notice -- the host is watching this conversation's MCP resources; this is not "
    ++ codes "a message from the user]"

-- One line break, and two.
abbrev pub line : Text
line = 0x0a ∷ []

abbrev pub gap : Text
gap = 0x0a ∷ 0x0a ∷ []

unfoldable pub plural : ℕ → Text → Text → Text
plural n one many = if n == 1 then codes "1 " ++ one else decimal n ++ 0x20 ∷ many

module _ (quote : Text → Text) where
  unfoldable pub resource_title : ResourceChange → Text
  resource_title c =
      (if not (is_nil c.label) && not (text_eq c.label c.uri)
        then quote c.label ++ codes " (" ++ c.uri
        else codes "(" ++ c.uri)
      ++ (if is_nil c.server then [] else codes ", server " ++ quote c.server)
      ++ codes ")"

  unfoldable pub describe_resource_change : Bool → ResourceChange → Text
  unfolding resource_title
  describe_resource_change baseline c =
      (if baseline && text_eq c.kind (codes "added") then codes "watching" else c.kind)
      ++ codes " -- "
      ++ resource_title c
      ++ (if is_nil c.summary then [] else codes " -- " ++ c.summary)
      ++ (if is_nil c.note then [] else line ++ codes "  note: " ++ c.note)
      ++ line
      ++ codes "  change_id: "
      ++ c.change_id

  abbrev pub change_blocks : Bool → List ResourceChange → Text
  unfolding describe_resource_change
  change_blocks baseline [] = []
  change_blocks baseline (c ∷ cs) =
      gap ++ describe_resource_change baseline c ++ change_blocks baseline cs

  abbrev pub warning_lines : List Text → Text
  warning_lines [] = []
  warning_lines (w ∷ ws) = line ++ codes "- " ++ w ++ warning_lines ws

  abbrev pub changes_text : ResourcePoll → Text
  unfolding change_blocks plural
  changes_text poll =
      gap
      ++ (if poll.baseline
          then plural (length poll.changes) (codes "MCP resource is") (codes "MCP resources are")
            ++ codes " available on the connected servers and now being watched:"
          else plural (length poll.changes) (codes "MCP resource changed")
              (codes "MCP resources changed")
            ++ codes " since the last turn:")
      ++ change_blocks poll.baseline poll.changes

  abbrev pub diff_hint : Text → Text
  diff_hint tool =
      gap
      ++ codes "Call "
      ++ tool
      ++ codes
          " with a change_id to see exactly what changed (or the full contents, for a resource "
      ++ codes
          "that was just added). Each id stays resolvable for the rest of this conversation and "
      ++ codes
          "always returns the before/after captured at that moment, so fetch one when it becomes "
      ++ codes
          "relevant -- there is no need to fetch them now, and no need to fetch any you do not "
      ++ codes "care about."

  unfoldable pub format_resource_notice : ResourcePoll → Text → Text
  unfolding changes_text
  format_resource_notice poll diff_tool =
      resource_notice_header
      ++ (if is_nil poll.changes then [] else changes_text poll)
      ++ (if is_nil poll.warnings
          then []
          else gap
            ++ codes "The watch could not account for everything this pass:"
            ++ warning_lines poll.warnings
            ++ line
            ++ codes "Treat those resources as unknown rather than unchanged.")
      ++ (if not (is_nil poll.changes) && not (is_nil diff_tool) then diff_hint diff_tool else [])

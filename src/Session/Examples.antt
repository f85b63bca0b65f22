-- ===== src/Session/Examples.antt =====
-- Runs of the session on small conversations.
use agentic_loop.Prelude.{List, refl, [], codes, ◌≡◌, ◌∷◌, ◌++◌, false, trim_space}
use agentic_loop.Message.{tool_call_part, new_message, Part, effective_parts}
use agentic_loop.Node.{Node}
use agentic_loop.Session.{
  Session, new_session, append_flat, messages, tool_calls, omit_calls, compact_session, tool_result,
  add_all, answered,
}
use agentic_loop.Session.Answered.{Pending}
use agentic_loop.Session.Settling.{omit_calls-Pending}
use agentic_loop.Session.Appended.{
  answer_message, note_message, messages-append_flat_answer, messages-append_flat_note,
}
use agentic_loop.Session.Grows.{Changes, appended, unchanged, then_change, changes-Grows, history}
use agentic_loop.Session.Numbered.{changes-IsNumbered}
use agentic_loop.Session.Compacted.{messages-compact_session, handoff_message}

abbrev asked : Session
asked = append_flat (note_message [] [] (codes "hi")) new_session

abbrev reads : List Part
reads = tool_call_part (codes "a") (codes "read") (codes "{\"p\":1}") ∷ []

-- A question, and a turn that calls a tool.
abbrev called : Session
called = append_flat (answer_message (codes "m1") reads) asked

abbrev to_called : Changes new_session called
to_called =
    then_change (then_change unchanged (appended (note_message [] [] (codes "hi"))))
      (appended (answer_message (codes "m1") reads))

messages-append_flat_answer_example :
    messages called ≡ messages asked ++ answer_message (codes "m1") reads ∷ []
unfolding trim_space
messages-append_flat_answer_example =
    messages-append_flat_answer (codes "m1")
      (tool_call_part (codes "a") (codes "read") (codes "{\"p\":1}")) [] asked
      (changes-IsNumbered (then_change unchanged (appended (note_message [] [] (codes "hi"))))) refl

messages-append_flat_note_example :
    messages asked ≡ messages new_session ++ note_message [] [] (codes "hi") ∷ []
messages-append_flat_note_example =
    messages-append_flat_note [] [] (codes "hi") new_session (changes-IsNumbered unchanged)

changes-Grows_example : (more : List Node) × (history called ≡ history new_session ++ more)
changes-Grows_example = changes-Grows to_called

messages-compact_session_example :
    messages (compact_session (codes "so far") (codes "row") called)
    ≡ handoff_message (codes "so far") (codes "row") ∷ []
messages-compact_session_example =
    messages-compact_session (codes "so far") (codes "row") called (changes-IsNumbered to_called)

-- The turn's one call is pending, and nothing is once it is omitted.
omit_calls-Pending_example :
    Pending [] (omit_calls (tool_calls called.path) (codes "cancelled") called)
unfolding append_flat tool_calls new_session new_message add_all effective_parts answered
omit_calls-Pending_example =
    omit_calls-Pending (tool_calls called.path) (codes "cancelled") called refl

omitted_twice : Pending [] (tool_result (1, codes "a") (codes "ok") false [] called)
unfolding append_flat new_session new_message tool_result add_all effective_parts answered
omitted_twice = refl

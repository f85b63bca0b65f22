-- ===== src/StreamString/Examples.antt =====
-- A field that streams, ends on another value, and is edited by the host.
use agentic_loop.Prelude.{List, codes, refl, ◌∷◌, []}
use agentic_loop.StreamString.{new_stream_string, append, finish, set, revisions, host_edit}
use agentic_loop.StreamString.History.{
  Op, append_op, finish_op, set_op, Carries, perform, perform_all, never_replaced, never_shrinks,
  append_op,
}

abbrev a_stream : List Op
a_stream =
    append_op (codes "he") ∷ finish_op (codes "hello") 2 ∷ set_op (codes "hi") host_edit 3 ∷ []

never_shrinks_example :
    Carries
      (revisions (new_stream_string 1))
      (revisions (perform_all a_stream (new_stream_string 1)))
unfolding never_replaced new_stream_string perform append finish set
never_shrinks_example = never_shrinks a_stream (new_stream_string 1) refl

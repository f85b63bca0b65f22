-- ===== src/StreamString.antt =====
-- core/streamstring.go: a text field that fills while a model streams, with the history of the values
-- it held. The mutex makes every call one step; a clock's reading is an argument. The events told to
-- listeners are not modelled.
pub mod History
mod Examples
-- `RevisionSource`.
use agentic_loop.Prelude.{
  Text, ℕ, List, if◌then◌else◌, Bool, [], length, ◌++◌, is_nil, not, true, false, ◌∷◌, ◌&&◌,
  text_eq,
}

pub data RevisionSource : Type 0 where
  streamed final retried host_edit : RevisionSource

pub record Revision : Type 0 where
  pub value : Text
  pub source : RevisionSource
  pub at_time : ℕ

pub record StreamString : Type 0 where
  pub built : Text
  pub fixed : Text
  pub is_done : Bool
  pub source : RevisionSource
  pub started : ℕ
  pub revs : List Revision

pub new_stream_string : ℕ → StreamString
new_stream_string now = record {
  built = [];
  fixed = [];
  is_done = false;
  source = streamed;
  started = now;
  revs = [];
}

pub finished_string : Text → ℕ → StreamString
finished_string value now = record {
  built = [];
  fixed = value;
  is_done = true;
  source = final;
  started = now;
  revs = [];
}

unfoldable pub current : StreamString → Text
current s = if s.is_done then s.fixed else s.built

pub len : StreamString → ℕ
len s = if s.is_done then length s.fixed else length s.built

unfoldable pub revisions : StreamString → List Revision
unfolding current
revisions s = s.revs ++ record { value = current s; source = s.source; at_time = s.started } ∷ []

abbrev push_revision : RevisionSource → ℕ → StreamString → StreamString
unfolding current
push_revision src now s = record s {
  revs = s.revs ++ record { value = current s; source = src; at_time = s.started } ∷ [];
  built = [];
  fixed = [];
  started = now;
}

-- A late piece after the end opens the field again.
abbrev reopen : StreamString → StreamString
reopen s =
    if s.is_done
    then record s {
      revs = s.revs ++ record { value = s.fixed; source = s.source; at_time = s.started } ∷ [];
      built = s.fixed;
      fixed = [];
      is_done = false;
      source = streamed;
    }
    else s

pub append : Text → StreamString → StreamString
append delta s = if is_nil delta then s else record (reopen s) { built = (reopen s).built ++ delta }

abbrev keep_streamed : Text → ℕ → StreamString → StreamString
unfolding current
keep_streamed fin now s =
    if not s.is_done && not (is_nil (current s)) && not (text_eq fin (current s))
    then record s {
      revs = s.revs ++ record { value = current s; source = streamed; at_time = s.started } ∷ [];
      started = now;
    }
    else s

pub finish : Text → ℕ → StreamString → StreamString
finish fin now s = record (keep_streamed fin now s) {
  built = [];
  fixed = fin;
  is_done = true;
  source = final;
}

pub finish_streamed : ℕ → StreamString → StreamString
unfolding finish current
finish_streamed now s = finish (current s) now s

pub restart : ℕ → StreamString → StreamString
unfolding current
restart now s =
    if is_nil (current s) && is_nil s.revs
    then s
    else record (push_revision retried now s) { is_done = false; source = streamed }

pub set : Text → RevisionSource → ℕ → StreamString → StreamString
set value src now s = record (push_revision s.source now s) {
  fixed = value;
  is_done = true;
  source = src;
}

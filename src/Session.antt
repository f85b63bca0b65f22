-- ===== src/Session.antt =====
-- internal/loop/session.go with core/tree.go: a conversation during a run. A run only adds nodes under
-- the leaf, so the tree's path is a list, root first. Adding a node with an id that the tree has makes
-- the source panic: ids are taken to be distinct. Keys are handed out in order.
pub mod Held
pub mod Grows
pub mod Compacted
pub mod Numbered
pub mod Answered
pub mod Settling
pub mod Appended
mod Examples
use agentic_loop.Prelude.{
  List, [], Option, Bool, Text, ℕ, none, false, ◌∷◌, true, if◌then◌else◌, codes, some, anyb, ◌++◌,
  ◌==◌, ◌+◌, ◌||◌,
}
use agentic_loop.Message.{Message, Role, assistant, ToolCall, Part, text_part, text, tool}
use agentic_loop.Node.{
  Node, Body, user_body, system_body, assistant_body, thinking_body, redacted_body, tool_call_body,
  tool_result_body, compaction_body, Draft, nodes_from_message, messages_from_path,
  message_from_nodes,
}

pub record Session : Type 0 where
  pub path : List Node
  pub next_key : ℕ
  -- The next call record.
  pub next_call : ℕ
  -- The key of the newest compaction.
  pub window : Option ℕ

unfoldable pub new_session : Session
new_session = record { path = []; next_key = 0; next_call = 0; window = none }

-- Links a new node under the leaf and makes it the leaf.
unfoldable pub add : Draft → Option ℕ → Session → Node × Session
add d call s =
    let n : Node = record {
      key = s.next_key;
      host_id = d.id;
      kind = d.kind;
      call = call;
      superseded = false;
      body = d.body;
    } in
    (n, record s { path = s.path ++ n ∷ []; next_key = s.next_key + 1 })

unfoldable pub add_all : List Draft → Option ℕ → Session → List Node × Session
unfolding add
add_all [] call s = ([], s)
add_all (d ∷ ds) call s =
    let (n, s1) = add d call s in let (ns, s2) = add_all ds call s1 in (n ∷ ns, s2)

abbrev is_assistant : Role → Bool
is_assistant r = elim r [ assistant ↦ true | _ ↦ false ]

-- A flat assistant message gets a call record of its own.
unfoldable pub append_flat : Message → Session → Session
unfolding nodes_from_message
append_flat m s =
    if is_assistant m.role
    then (add_all (nodes_from_message m) (some s.next_call)
        (record s { next_call = s.next_call + 1 })).1
    else (add_all (nodes_from_message m) none s).1

abbrev from_key : Option ℕ → List Node → List Node
from_key none path = path
from_key (some k) [] = []
from_key (some k) (n ∷ ns) = if n.key == k then n ∷ ns else from_key (some k) ns

abbrev has_key : Option ℕ → List Node → Bool
has_key none path = false
has_key (some k) path = anyb (λ n. n.key == k) path

-- The newest compaction to the leaf; the whole path where that is not on it.
unfoldable pub window_path : Session → List Node
window_path s = if has_key s.window s.path then from_key s.window s.path else s.path

unfoldable pub messages : Session → List Message
unfolding window_path messages_from_path
messages s = messages_from_path (window_path s)

pub compact_session : Text → Text → Session → Session
unfolding add
compact_session summary id s =
    let (n, s1) =
      add (record { id = id; kind = codes "compaction"; body = compaction_body summary }) none s in
    record s1 { window = some n.key }

-- What answers a call: the node, its id.
abbrev pub CallNode : Type 0
CallNode = ℕ × Text

unfoldable pub tool_result : CallNode → Text → Bool → Text → Session → Session
unfolding add
tool_result (key, id) content is_error omitted s =
    (add
      (record {
        id = [];
        kind = [];
        body = tool_result_body (some key) id (text_part content ∷ []) is_error omitted;
      })
      none s).1

abbrev pub call_node : Node → Body → List CallNode → List CallNode
call_node n (tool_call_body i name a) rest = if n.superseded then rest else (n.key, i) ∷ rest
call_node n _ rest = rest

-- The tool-call nodes that are still on the wire.
unfoldable pub tool_calls : List Node → List CallNode
tool_calls [] = []
tool_calls (n ∷ ns) = call_node n n.body (tool_calls ns)

abbrev pub answers : ℕ → Body → Bool
answers k (tool_result_body (some j) i ps e o) = j == k
answers k _ = false

unfoldable pub answered : ℕ → List Node → Bool
answered k path = anyb (λ n. answers k n.body) path

-- `omitCalls` over the calls that are left; what is answered is asked of the path at the start.
unfoldable pub omit_each : List Node → List CallNode → Text → Session → Session
unfolding answered tool_result
omit_each path [] reason s = s
omit_each path ((k, i) ∷ calls) reason s =
    omit_each path calls reason
      (if answered k path then s else tool_result (k, i) reason true reason s)

unfoldable pub omit_calls : List CallNode → Text → Session → Session
unfolding omit_each
omit_calls calls reason s = omit_each s.path calls reason s

abbrev pub has_call_key : List CallNode → ℕ → Bool
has_call_key [] k = false
has_call_key ((j, i) ∷ calls) k = j == k || has_call_key calls k

abbrev pub mark_superseded : List CallNode → List Node → List Node
mark_superseded calls [] = []
mark_superseded calls (n ∷ ns) =
    (if has_call_key calls n.key then record n { superseded = true } else n)
    ∷ mark_superseded calls ns

unfoldable pub add_calls : List ToolCall → Option ℕ → Session → List CallNode × Session
unfolding add
add_calls [] rec_ s = ([], s)
add_calls (c ∷ cs) rec_ s =
    let (n, s1) =
      add (record { id = []; kind = []; body = tool_call_body c.id c.name c.arguments }) rec_ s in
    let (ns, s2) = add_calls cs rec_ s1 in ((n.key, c.id) ∷ ns, s2)

-- The record of the last of the calls that are replaced; all calls of a turn share it.
unfoldable pub replace_calls :
    List CallNode → Option ℕ → List ToolCall → Session → List CallNode × Session
unfolding add_calls
replace_calls calls rec_ replacement s =
    add_calls replacement rec_ (record s { path = mark_superseded calls s.path })

-- Loop-written text of a model turn.
pub add_text : Option ℕ → Text → Session → Session
unfolding add
add_text rec_ t s = (add (record { id = []; kind = []; body = assistant_body t }) rec_ s).1

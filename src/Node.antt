-- ===== src/Node.antt =====
-- core/node.go and core/convert.go: the nodes of a conversation, and the two directions between nodes
-- and flat messages. A node is told from others by its `key`, which stands for its address. A stream
-- field is its final text. A reasoning node's opaque blob is one text: each dialect has its own field
-- for it, and a dialect reads back the field that it wrote. A host's own node types, raw blocks, which
-- the source holds and never sends, a blob that is kept in a file, citations, and what a provider adds
-- to a call, are not modelled.
pub mod RoundTrip
use agentic_loop.Prelude.{
  List, ℕ, Text, Option, ◌++◌, Bool, if◌then◌else◌, some, ◌∷◌, codes, none, [], is_nil, ◌==◌, true,
  not, trim_space, false, ◌&&◌, text_eq,
}
use agentic_loop.Message.{
  Message, Role, system, user, assistant, tool, Part, text_part, image_part, thinking_part,
  redacted_thinking_part, tool_call_part, effective_parts, sync_views, empty_message, text,
}

pub data Body : Type 0 where
  -- A user turn, and a note that this side writes: texts and images in order.
  user_body : List Part → Body
  system_body : List Part → Body
  assistant_body : Text → Body
  -- Text, blob, item id, raw; and redacted data.
  thinking_body : Text → Text → Text → Bool → Body
  redacted_body : Text → Body
  -- Call id, name, arguments.
  tool_call_body : Text → Text → Text → Body
  -- The node that is answered, if it is in the tree, its call id, content, error, why it was omitted.
  tool_result_body : Option ℕ → Text → List Part → Bool → Text → Body
  compaction_body : Text → Body

pub record Node : Type 0 where
  pub key : ℕ
  -- What a host or a provider named it: HostID.
  pub host_id : Text
  pub kind : Text
  -- The call record that it belongs to.
  pub call : Option ℕ
  pub superseded : Bool
  pub body : Body

-- `toolArgs` of core/message.go.
unfoldable pub tool_args : Text → Text
tool_args args = if is_nil (trim_space args) then codes "{}" else args

unfoldable pub part_of : Body → Option Part
unfolding tool_args
part_of (thinking_body t b i r) = some (thinking_part t b i r)
part_of (redacted_body d) = some (redacted_thinking_part d)
part_of (assistant_body t) = if is_nil t then none else some (text_part t)
part_of (tool_call_body i n a) = some (tool_call_part i n (tool_args a))
part_of _ = none

abbrev pub add_part : Option Part → List Part → List Part
add_part none ps = ps
add_part (some p) ps = p ∷ ps

unfoldable pub parts_of : List Node → List Part
unfolding part_of
parts_of [] = []
parts_of (n ∷ ns) = add_part (part_of n.body) (parts_of ns)

-- The assistant turn that one call produced.
unfoldable pub message_from_nodes : List Node → Message
unfolding parts_of sync_views
message_from_nodes ns = sync_views (record (empty_message assistant) { parts = parts_of ns })

abbrev pub content_only : List Part → List Part
content_only [] = []
content_only (text_part t ∷ ps) = text_part t ∷ content_only ps
content_only (image_part m s d ∷ ps) = image_part m s d ∷ content_only ps
content_only (_ ∷ ps) = content_only ps

abbrev pub one_text : Message → List Part → Message
unfolding sync_views
one_text m (text_part t ∷ []) = record m { content = t }
one_text m ps = sync_views (record m { parts = ps })

unfoldable pub flat_content : Role → Node → List Part → Message
unfolding one_text
flat_content r n ps =
    one_text (record (empty_message r) { id = n.host_id; kind_of_note = n.kind }) ps

abbrev pub handoff_prefix : Text
handoff_prefix =
    codes "The conversation so far exceeded the context window and was summarized. "
    ++ codes "This summary replaces the earlier messages; treat it as what you already know, not "
    ++ codes "as a request. Continue the work it describes."
    ++ 0x0a ∷ 0x0a ∷ []

-- What a node is in a request: part of a model turn, a message of its own.
pub data Shape : Type 0 where
  of_turn : Shape
  alone : Message → Shape

unfoldable pub shape_of : Node → Body → Shape
unfolding flat_content
shape_of n (user_body ps) = alone (flat_content user n ps)
shape_of n (system_body ps) = alone (flat_content user n ps)
shape_of n (tool_result_body key id ps e why) =
    alone (record (flat_content tool n ps) { tool_call_id = id; tool_is_error = e })
shape_of n (compaction_body s) = alone (record (empty_message user) {
  id = n.host_id;
  kind_of_note = n.kind;
  content = handoff_prefix ++ s;
})
shape_of n _ = of_turn

-- The turn that the group makes, under the name of its first node.
unfoldable pub flush : List Node → List Message
flush [] = []
flush (n ∷ ns) = record (message_from_nodes (n ∷ ns)) { id = n.host_id } ∷ []

abbrev pub same_call : Option ℕ → Option ℕ → Bool
same_call (some a) (some b) = a == b
same_call _ _ = false

abbrev last_call : List Node → Option ℕ
last_call [] = none
last_call (n ∷ []) = n.call
last_call (n ∷ m ∷ ns) = last_call (m ∷ ns)

-- A model-output node joins the group of its own call, or ends it and begins another.
abbrev joins : List Node → Node → Bool
joins [] n = true
joins (g ∷ gs) n = same_call n.call (last_call (g ∷ gs))

abbrev flush_then : List Node → List Message → List Message
unfolding flush
flush_then group ms = flush group ++ ms

-- `MessagesFromPath` with the nodes of the group that is open.
unfoldable pub path_messages : List Node → List Node → List Message
unfolding flush
path_messages group [] = flush group
path_messages group (n ∷ ns) =
    let skipped = path_messages group ns in
    let joined = path_messages (group ++ n ∷ []) ns in
    let begun = path_messages (n ∷ []) ns in
    let apart = path_messages [] ns in
    if n.superseded then skipped else elim (shape_of n n.body) [
      | of_turn ↦ if joins group n then joined else flush group ++ begun
      | alone m ↦ flush group ++ m ∷ apart
    ]

unfoldable pub messages_from_path : List Node → List Message
unfolding path_messages
messages_from_path path = path_messages [] path

-- `NodesFromMessage`: a node before it joins a tree is its body, with the kind and the id to take.
pub record Draft : Type 0 where
  pub id : Text
  pub kind : Text
  pub body : Body

-- `NewEncryptedReasoning` of no data is nil, which leaves an empty reasoning node.
abbrev pub redacted_of : Text → Body
redacted_of [] = thinking_body [] [] [] false
redacted_of (c ∷ d) = redacted_body (c ∷ d)

abbrev pub bodies_of_parts : List Part → List Body
bodies_of_parts [] = []
bodies_of_parts (thinking_part t b i r ∷ ps) = thinking_body t b i r ∷ bodies_of_parts ps
bodies_of_parts (redacted_thinking_part d ∷ ps) = redacted_of d ∷ bodies_of_parts ps
bodies_of_parts (text_part t ∷ ps) = assistant_body t ∷ bodies_of_parts ps
bodies_of_parts (tool_call_part i n a ∷ ps) = tool_call_body i n a ∷ bodies_of_parts ps
bodies_of_parts (_ ∷ ps) = bodies_of_parts ps

abbrev pub bodies_of : Role → Message → List Body
bodies_of user m =
    let content = content_only (effective_parts m) in
    (if not (is_nil m.kind_of_note) && not (text_eq m.kind_of_note (codes "compaction"))
      then system_body content
      else user_body content)
    ∷ []
bodies_of system m = user_body (content_only (effective_parts m)) ∷ []
bodies_of tool m =
    tool_result_body none m.tool_call_id (content_only (effective_parts m)) m.tool_is_error [] ∷ []
bodies_of assistant m = bodies_of_parts (effective_parts m)

-- The first node takes the message's id; the rest get their own from the tree.
abbrev pub drafts : Text → Text → List Body → List Draft
drafts id kind [] = []
drafts id kind (b ∷ bs) = record { id = id; kind = kind; body = b } ∷ drafts [] kind bs

unfoldable pub nodes_from_message : Message → List Draft
nodes_from_message m = drafts m.id m.kind_of_note (bodies_of m.role m)

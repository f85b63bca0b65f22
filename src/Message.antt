-- ===== src/Message.antt =====
-- core/message.go: the neutral message model that the loop, the providers and the hosts share, and
-- the two directions between a message's ordered parts and its flattened views.
pub mod RoundTrip
mod Examples
use agentic_loop.Prelude.{
  Bool, true, false, not, ◌||◌, Option, none, some, List, [], ◌∷◌, ◌++◌, map, Text, codes, is_nil,
  if◌then◌else◌,
}

pub data Role : Type 0 where
  system user assistant tool : Role

pub record ThinkingBlock : Type 0 where
  pub text : Text
  pub signature : Text
  pub id : Text
  pub redacted : Text
  pub raw : Bool

pub record ToolCall : Type 0 where
  pub id : Text
  pub name : Text
  pub arguments : Text

-- The interface `Part` with its five concrete types.
pub data Part : Type 0 where
  text_part : Text → Part
  image_part : Text → Text → Text → Part
  thinking_part : Text → Text → Text → Bool → Part
  redacted_thinking_part : Text → Part
  tool_call_part : Text → Text → Text → Part

-- The values of `PartKind`.
pub data PartKind : Type 0 where
  text image thinking redacted_thinking tool_call : PartKind

pub kind : Part → PartKind
kind (text_part t) = text
kind (image_part m d s) = image
kind (thinking_part t s i r) = thinking
kind (redacted_thinking_part d) = redacted_thinking
kind (tool_call_part i n a) = tool_call

pub record Message : Type 0 where
  pub role : Role
  pub id : Text
  pub kind_of_note : Text
  pub parts : List Part
  pub content : Text
  pub thinking_blocks : List ThinkingBlock
  pub tool_calls : List ToolCall
  pub tool_call_id : Text
  pub tool_is_error : Bool

-- Go's zero value of the struct, with a role.
abbrev pub empty_message : Role → Message
empty_message r = record {
  role = r;
  id = [];
  kind_of_note = [];
  parts = [];
  content = [];
  thinking_blocks = [];
  tool_calls = [];
  tool_call_id = [];
  tool_is_error = false;
}

-- One round of the first loop of `EffectiveParts`.
abbrev part_of_block : ThinkingBlock → Part
part_of_block b =
    if is_nil b.redacted
    then thinking_part b.text b.signature b.id b.raw
    else redacted_thinking_part b.redacted

abbrev part_of_call : ToolCall → Part
part_of_call c = tool_call_part c.id c.name c.arguments

abbrev content_parts : Text → List Part
content_parts t = if is_nil t then [] else text_part t ∷ []

unfoldable pub effective_parts : Message → List Part
effective_parts m =
    if not (is_nil m.parts)
    then m.parts
    else map part_of_block m.thinking_blocks
      ++ content_parts m.content
      ++ map part_of_call m.tool_calls

-- The three views that the type switch of `SyncViews` fills, one for each kind of part.
abbrev pub text_of_parts : List Part → Text
text_of_parts [] = []
text_of_parts (text_part t ∷ ps) = t ++ text_of_parts ps
text_of_parts (_ ∷ ps) = text_of_parts ps

abbrev pub blocks_of_parts : List Part → List ThinkingBlock
blocks_of_parts [] = []
blocks_of_parts (thinking_part t s i r ∷ ps) =
    record { text = t; signature = s; id = i; redacted = []; raw = r } ∷ blocks_of_parts ps
blocks_of_parts (redacted_thinking_part d ∷ ps) =
    record { text = []; signature = []; id = []; redacted = d; raw = false } ∷ blocks_of_parts ps
blocks_of_parts (_ ∷ ps) = blocks_of_parts ps

abbrev pub calls_of_parts : List Part → List ToolCall
calls_of_parts [] = []
calls_of_parts (tool_call_part i n a ∷ ps) =
    record { id = i; name = n; arguments = a } ∷ calls_of_parts ps
calls_of_parts (_ ∷ ps) = calls_of_parts ps

unfoldable pub sync_views : Message → Message
sync_views m = if is_nil m.parts then m else record m {
  content = text_of_parts m.parts;
  thinking_blocks = blocks_of_parts m.parts;
  tool_calls = calls_of_parts m.parts;
}

unfoldable pub new_message : Role → List Part → Message
unfolding sync_views
new_message r ps = sync_views (record (empty_message r) { parts = ps })

pub record ToolDecl : Type 0 where
  pub name : Text
  pub description : Text
  pub input_schema : Text
  pub readonly : Bool
  pub destructive : Option Bool
  pub idempotent : Bool
  pub open_world : Option Bool
  pub unvouched : Bool

-- A nil pointer stands for true.
abbrev true_by_default : Option Bool → Bool
true_by_default none = true
true_by_default (some b) = b

pub is_destructive : ToolDecl → Bool
is_destructive t = if t.readonly then false else true_by_default t.destructive

pub is_idempotent : ToolDecl → Bool
is_idempotent t = t.readonly || t.idempotent

pub is_open_world : ToolDecl → Bool
is_open_world t = true_by_default t.open_world

pub vouched : ToolDecl → Bool
vouched t = not t.unvouched

abbrev default_tool_schema : Text
default_tool_schema = codes "{\"type\":\"object\"}"

pub schema : ToolDecl → Text
schema t = if is_nil t.input_schema then default_tool_schema else t.input_schema

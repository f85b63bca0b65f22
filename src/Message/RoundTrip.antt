-- ===== src/Message/RoundTrip.antt =====
-- The views that `SyncViews` fills against the parts that `EffectiveParts` derives.
use agentic_loop.Prelude.{
  ◌≡◌, ◌≢◌, refl, false, List, [], ◌∷◌, ◌++◌, map, append-nil, append_assoc, arith, All, Text,
}
use agentic_loop.Message.{
  ThinkingBlock, ToolCall, Part, Message, effective_parts, sync_views, part_of_block, part_of_call,
  content_parts, text_of_parts, blocks_of_parts, calls_of_parts,
}

-- A block holds an opaque payload or reasoning, never both, as the type's comment asks.
pub record IsPure (b : ThinkingBlock) : Type 0 where
  pub no_text : b.redacted ≢ [] → b.text ≡ []
  pub no_signature : b.redacted ≢ [] → b.signature ≡ []
  pub no_id : b.redacted ≢ [] → b.id ≡ []
  pub not_raw : b.redacted ≢ [] → b.raw ≡ false

text-blocks :
    (bs : List ThinkingBlock) (rest : List Part)
    → text_of_parts (map part_of_block bs ++ rest) ≡ text_of_parts rest
text-blocks [] rest = refl
text-blocks (b ∷ bs) rest = ground (arith, text-blocks bs rest)

calls-blocks :
    (bs : List ThinkingBlock) (rest : List Part)
    → calls_of_parts (map part_of_block bs ++ rest) ≡ calls_of_parts rest
calls-blocks [] rest = refl
calls-blocks (b ∷ bs) rest = ground (arith, calls-blocks bs rest)

blocks-blocks :
    (bs : List ThinkingBlock) (rest : List Part)
    → All IsPure bs
    → blocks_of_parts (map part_of_block bs ++ rest) ≡ bs ++ blocks_of_parts rest
blocks-blocks [] rest h = refl
blocks-blocks (b ∷ bs) rest (p, h) =
    ground (arith, blocks-blocks bs rest h, p.no_text, p.no_signature, p.no_id, p.not_raw)

blocks-calls : (cs : List ToolCall) → blocks_of_parts (map part_of_call cs) ≡ []
blocks-calls [] = refl
blocks-calls (c ∷ cs) = blocks-calls cs

text-calls : (cs : List ToolCall) → text_of_parts (map part_of_call cs) ≡ []
text-calls [] = refl
text-calls (c ∷ cs) = text-calls cs

calls-calls : (cs : List ToolCall) → calls_of_parts (map part_of_call cs) ≡ cs
calls-calls [] = refl
calls-calls (c ∷ cs) = ground (arith, calls-calls cs)

module _ (t : Text) (rest : List Part) where
  text-content : text_of_parts (content_parts t ++ rest) ≡ t ++ text_of_parts rest
  text-content = ground arith

  blocks-content : blocks_of_parts (content_parts t ++ rest) ≡ blocks_of_parts rest
  blocks-content = ground arith

  calls-content : calls_of_parts (content_parts t ++ rest) ≡ calls_of_parts rest
  calls-content = ground arith

ruleset view_laws = (
  text-blocks, calls-blocks, text-calls, blocks-calls, calls-calls, text-content, blocks-content,
  calls-content, append-nil,
)

-- A message whose views agree with its parts is left as it is.
sync_views_stable :
    (m : Message)
    → text_of_parts m.parts ≡ m.content
    → blocks_of_parts m.parts ≡ m.thinking_blocks
    → calls_of_parts m.parts ≡ m.tool_calls
    → sync_views m ≡ m
unfolding sync_views
sync_views_stable m text_agrees blocks_agree calls_agree = ground arith

abbrev derived : Message → List Part
derived m =
    map part_of_block m.thinking_blocks ++ content_parts m.content ++ map part_of_call m.tool_calls

effective_parts-derived : (m : Message) → m.parts ≡ [] → effective_parts m ≡ derived m
unfolding effective_parts
effective_parts-derived m none_set = ground arith

-- Giving a message that has views only the parts derived from them changes none of its views, where
-- each of its blocks holds reasoning or an opaque payload and not both.
pub sync_views-effective_parts :
    (m : Message)
    → m.parts ≡ []
    → All IsPure m.thinking_blocks
    → sync_views (record m { parts = effective_parts m }) ≡ record m { parts = effective_parts m }
sync_views-effective_parts m none_set pure = rw (effective_parts-derived m none_set) (
    sync_views_stable (record m { parts = derived m }) (rw append_assoc (simp view_laws))
      (rw append_assoc (rw (blocks-blocks m.thinking_blocks _ pure) (simp view_laws)))
      (rw append_assoc (simp view_laws)))

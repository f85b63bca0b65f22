-- ===== src/Dedup.antt =====
-- internal/loop/dedup.go: repeats of a read-only tool's output collapse into a marker. The digest is
-- a parameter: `hex_sha256` stands for the hex encoding of crypto/sha256 of a text.
pub mod Invariant
pub mod Memory
pub mod Honesty
mod Examples
use agentic_loop.Prelude.{
  ℕ, List, Text, codes, [], ◌∷◌, ◌++◌, Bool, Option, if◌then◌else◌, decimal, ◌&&◌, ltb, false, some,
  not, length, ◌+◌, is_nil, true, none,
}
use agentic_loop.Prelude.Dict.{Dict, lookup, put, remove}
use agentic_loop.Message.{ToolDecl}
use agentic_loop.Tools.{ToolResult}

abbrev pub unchanged_prefix : Text
unchanged_prefix = codes "[unchanged]"

abbrev pub max_dedup_entries : ℕ
max_dedup_entries = 512

pub record OutputDeduper : Type 0 where
  pub keys : List Text
  pub seen : Dict ℕ

unfoldable pub new_output_deduper : OutputDeduper
new_output_deduper = record { keys = []; seen = [] }

pub reset : OutputDeduper → OutputDeduper
reset d = record { keys = []; seen = [] }

-- The em dash, as its three bytes.
abbrev em_dash : Text
em_dash = 0xe2 ∷ 0x80 ∷ 0x94 ∷ []

pub unchanged_marker : Text → ℕ → Text
unchanged_marker tool n =
    unchanged_prefix
    ++ codes " The output of "
    ++ tool
    ++ codes " is byte-identical to an earlier call in this conversation (repeat #"
    ++ decimal n
    ++ codes "). Nothing has changed "
    ++ em_dash
    ++ codes " reference that earlier result rather than re-reading it. If you did change the "
    ++ codes "arguments, the difference made no difference: either it genuinely does not affect "
    ++ codes "the result, or this tool ignores the field you changed "
    ++ em_dash
    ++ codes " check its schema before trying a third phrasing."

-- The first guard of `Collapse`, turned round: such a result is looked at.
abbrev pub eligible : ToolDecl → ToolResult → Bool
eligible tool result = tool.readonly && not (is_nil tool.name) && not result.is_error

-- Past the cap the oldest key goes, from the list and from the map.
abbrev evict : List Text → Dict ℕ → OutputDeduper
evict [] seen = record { keys = []; seen = seen }
evict (oldest ∷ keys) seen =
    if ltb max_dedup_entries (length (oldest ∷ keys))
    then record { keys = keys; seen = remove oldest seen }
    else record { keys = oldest ∷ keys; seen = seen }

abbrev pub Outcome : Type 0
Outcome = Text × Bool × OutputDeduper

abbrev remember : Text → ToolDecl → ToolResult → OutputDeduper → Option ℕ → Outcome
remember key tool result d (some n) =
    (unchanged_marker tool.name (n + 1), true, record d { seen = put key (n + 1) d.seen })
remember key tool result d none =
    (result.content, false, evict (d.keys ++ key ∷ []) (put key 1 d.seen))

module _ (hex_sha256 : Text → Text) where
  abbrev pub key_of : ToolDecl → ToolResult → Text
  key_of tool result = tool.name ++ 0 ∷ hex_sha256 result.content

  unfoldable pub collapse : ToolDecl → ToolResult → OutputDeduper → Outcome
  collapse tool result d =
      let key = key_of tool result in
      if eligible tool result
      then remember key tool result d (lookup key d.seen)
      else (result.content, false, d)

-- ===== src/Tools.antt =====
-- internal/loop/tools.go, message.go and run_tools.go: the flat tool set, the approval gate in front
-- of every call, and the fingerprint of a batch. `W` is the state of everything outside the loop
-- that an approver or a tool may read or change.
pub mod Fingerprint
pub mod Gate
mod Examples
use mathlib.Core.List.{reverse}
use agentic_loop.Prelude.{
  ℕ, Text, Bool, List, ◌∷◌, Option, codes, ◌==◌, if◌then◌else◌, none, map, [], ◌++◌, decimal, some,
  ◌||◌, is_nil, text_eq, ◌&&◌, not, true, length, leb, anyb, trim_space,
}
use agentic_loop.Message.{ToolCall, ToolDecl}

-- The fields of `ToolContentPart`, as a host receives them.
pub record ToolContentPart : Type 0 where
  pub block_type : Text
  pub text : Text
  pub payload : Text
  pub mime_type : Text
  pub uri : Text
  pub name : Text
  pub description : Text

pub record ToolResult : Type 0 where
  pub content : Text
  pub parts : List ToolContentPart
  pub is_error : Bool

pub record Approval : Type 0 where
  pub allowed : Bool
  pub reason : Text

-- A Go pair of a value and an error; the error is kept by its text.
pub data Result {ℓ} (A : Type ℓ) : Type ℓ where
  ok : A → Result A
  err : Text → Result A

abbrev pub denied_message : Text
denied_message = codes "The user denied permission to run this tool."

pub denied_text : Text → Text
denied_text reason = let r = trim_space reason in if is_nil r then denied_message else r

module _ (W : Type 0) where
  pub record Tool : Type 0 where
    pub decl : ToolDecl
    -- The call's id travels on the context.
    pub execute : Text → Text → W → Result ToolResult × W

  -- An entry may be a nil interface.
  abbrev pub Tools : Type 0
  Tools = List (Option Tool)

  abbrev add_decl : ToolDecl → List ToolDecl → List ToolDecl
  add_decl d ds = if is_nil d.name then ds else d ∷ ds

  unfoldable pub decls : Tools → List ToolDecl
  decls [] = []
  decls (none ∷ ts) = decls ts
  decls (some t ∷ ts) = add_decl t.decl (decls ts)

  unfoldable pub find : Tools → Text → Option Tool
  find [] name = none
  find (none ∷ ts) name = find ts name
  find (some t ∷ ts) name = if text_eq t.decl.name name then some t else find ts name

  pub readonly_tools : Tools → Tools
  readonly_tools [] = []
  readonly_tools (none ∷ ts) = readonly_tools ts
  readonly_tools (some t ∷ ts) =
      let rest = readonly_tools ts in
      if t.decl.readonly && not (is_nil t.decl.name) then some t ∷ rest else rest

  -- The set of the names asked for is only ever tested.
  pub subset : Tools → List Text → Tools
  subset [] names = []
  subset (none ∷ ts) names = subset ts names
  subset (some t ∷ ts) names =
      let rest = subset ts names in
      if not (is_nil t.decl.name) && anyb (text_eq t.decl.name) names then some t ∷ rest else rest

  pub names : Tools → List Text
  unfolding decls
  names ts = map (λ d. d.name) (decls ts)

  pub record Approver : Type 0 where
    pub ask : ToolCall → W → Result Approval × W

  -- The fields of `Config` that a call reads.
  pub record CallConfig : Type 0 where
    pub tools : Tools
    pub approver : Option Approver
    pub unknown_tool : Option (Text → Text)

  abbrev refused : Text → Result ToolResult
  refused t = ok (record { content = t; parts = []; is_error = true })

  abbrev unknown_text : Option (Text → Text) → Text → Text
  unknown_text none name = codes "unknown tool: " ++ name
  unknown_text (some f) name = f name

  -- An error of the tool becomes the text that the model reads.
  abbrev surface : Result ToolResult × W → Result ToolResult × W
  surface (ok r, w) = (ok r, w)
  surface (err e, w) = (refused (codes "tool execution failed: " ++ e), w)

  abbrev pub run_tool : Tool → ToolCall → W → Result ToolResult × W
  run_tool t call w = surface (t.execute call.id call.arguments w)

  abbrev on_verdict : Tool → ToolCall → Result Approval × W → Result ToolResult × W
  on_verdict t call (err e, w) = (err (codes "agentic: tool approval interrupted: " ++ e), w)
  on_verdict t call (ok v, w) =
      if v.allowed then run_tool t call w else (refused (denied_text v.reason), w)

  abbrev gate : Option Approver → Tool → ToolCall → W → Result ToolResult × W
  gate none t call w = if t.decl.readonly then run_tool t call w else (refused denied_message, w)
  gate (some a) t call w = on_verdict t call (a.ask call w)

  abbrev resolve : CallConfig → ToolCall → Option Tool → W → Result ToolResult × W
  resolve cfg call none w = (refused (unknown_text cfg.unknown_tool call.name), w)
  resolve cfg call (some t) w = gate cfg.approver t call w

  unfoldable pub resolve_call : CallConfig → ToolCall → W → Result ToolResult × W
  unfolding find
  resolve_call cfg call w = resolve cfg call (find cfg.tools call.name) w

abbrev field : Text → Text
field s = decimal (length s) ++ b':' ∷ s ++ b'|' ∷ []

unfoldable pub batch_fingerprint : List ToolCall → Text
batch_fingerprint [] = []
batch_fingerprint (c ∷ cs) = field c.name ++ field c.arguments ++ batch_fingerprint cs

-- ===== src/RunLoop/Batch.antt =====
-- The batch of run_loop.go: a turn's tool calls are handed to the host, run, and answered in order. A
-- read-only call's goroutine is run when it is started: the interleavings of those goroutines are not
-- modelled.
use agentic_loop.Prelude.{
  List, Text, codes, Option, [], some, Bool, ◌∷◌, if◌then◌else◌, none, ◌++◌, false, text_eq, is_nil,
  true, ◌||◌, anyb,
}
use agentic_loop.Message.{Message, ToolCall, tool, empty_message}
use agentic_loop.Errors.{Error, plain, wrap_callback_err}
use agentic_loop.Session.{CallNode, tool_result}
use agentic_loop.Tools.{ToolResult, ToolContentPart, Result, Tool, resolve_call, find}
use agentic_loop.Dedup.{OutputDeduper, collapse}
use agentic_loop.RunLoop.{Config, Loop}

-- A call of the batch: the node that records it, the call, what ran for it, and its result.
pub record Item : Type 0 where
  pub node : CallNode
  pub call : ToolCall
  pub ask : ToolCall
  pub result : ToolResult

pub data Verdict : Type 0 where
  items : List Item → Verdict
  aborted : Error → Verdict

-- What starting one call comes to: the hook's error, a mutating call's error, which breaks the loop,
-- or a result, with the error of a read-only call.
pub data Started : Type 0 where
  hook_failed broke : Error → Started
  went : ToolCall → ToolResult → Option Error → Started

abbrev pub empty_result : ToolResult
empty_result = record { content = []; parts = []; is_error = false }

abbrev pub refusal_of : List (Text × ToolResult) → Text → Option ToolResult
refusal_of [] id = none
refusal_of ((k, res) ∷ more) id = if text_eq k id then some res else refusal_of more id

abbrev pub wrapped_hook : Error → Error
wrapped_hook e = elim (wrap_callback_err (some e)) [ none ↦ e | some e' ↦ e' ]

-- The first error is kept.
abbrev pub keep_first : Option Error → Option Error → Option Error
keep_first (some e) new = some e
keep_first none new = new

abbrev pub first_or : Option Error → Error → Error
first_or (some e) new = e
first_or none new = new

abbrev pub refusal_text : Text → Text
refusal_text id = codes "agentic: OnToolBatch left a call with an empty or repeated id " ++ id

-- Every id is there, and none is repeated; or the first that is not so.
unfoldable pub bad_id : (Text → Text) → List Text → List ToolCall → Option Error
bad_id quote seen [] = none
bad_id quote seen (c ∷ cs) =
    if is_nil c.id || anyb (text_eq c.id) seen
    then some (plain (refusal_text (quote c.id)))
    else bad_id quote (c.id ∷ seen) cs

abbrev pub no_calls_left : Error
no_calls_left = plain (codes "agentic: OnToolBatch left no calls in a turn that asked for tools")

abbrev pub checked_batch : (Text → Text) → List ToolCall → Option Error
unfolding bad_id
checked_batch quote [] = some no_calls_left
checked_batch quote (c ∷ cs) = bad_id quote [] (c ∷ cs)

abbrev pub or_if_none : Option Error → Option Error → Option Error
or_if_none (some e) other = some e
or_if_none none other = other

-- The calls with the nodes that record them.
abbrev pub zip_calls : List CallNode → List ToolCall → List (CallNode × ToolCall)
zip_calls (n ∷ ns) (c ∷ cs) = (n, c) ∷ zip_calls ns cs
zip_calls _ _ = []

module _ {W : Type 0} (cfg : Config W) where
  -- `emitToolBatch`: the batch that the host leaves, and why it is refused, if it is.
  unfoldable pub emit_tool_batch : List ToolCall → W → (List ToolCall × Option Error) × W
  unfolding checked_batch
  emit_tool_batch calls w =
      let left : (List ToolCall × Option Error) × W = cfg.host.tool_batch calls w in
      (
        (left.0.0, wrap_callback_err (or_if_none left.0.1 (checked_batch cfg.quote left.0.0))),
        left.1,
      )

  abbrev pub tool_is_readonly : Option (Tool W) → Bool
  tool_is_readonly none = false
  tool_is_readonly (some t) = t.decl.readonly

  abbrev pub ran : ToolCall → Bool → Result ToolResult × W → Started × W
  ran call readonly (Result.ok res, w) = (went call res none, w)
  ran call true (Result.err e, w) = (went call empty_result (some (plain e)), w)
  ran call false (Result.err e, w) = (broke (plain e), w)

  -- A tool that refused the call from its streamed arguments answers it, and nothing runs it.
  abbrev pub run_call : Option ToolResult → ToolCall → W → Started × W
  run_call (some res) call w = (went call res none, w)
  run_call none call w =
      ran call (tool_is_readonly (find W cfg.call.tools call.name)) (resolve_call W cfg.call call w)

  abbrev pub hooked : List (Text × ToolResult) → (ToolCall × Option Error) × W → Started × W
  hooked refused ((call, some e), w) = (hook_failed (wrapped_hook e), w)
  hooked refused ((call, none), w) = run_call (refusal_of refused call.id) call w

  unfoldable pub start : List (Text × ToolResult) → ToolCall → W → Started × W
  start refused asked w = hooked refused (cfg.host.tool_call asked w)

  abbrev pub verdict : Option Error → Verdict
  verdict none = items []
  verdict (some e) = aborted e

  abbrev pub add_item : Item → Verdict × W → Verdict × W
  add_item it (items its, w) = (items (it ∷ its), w)
  add_item it (aborted e, w) = (aborted e, w)

  -- What follows once a call was started; `rest` goes on with the first error so far.
  abbrev pub started_by :
      (Option Error → W → Verdict × W)
      → CallNode
      → ToolCall
      → Option Error
      → Started × W
      → Verdict × W
  started_by rest node call first (hook_failed e, w) = (aborted e, w)
  started_by rest node call first (broke e, w) = (aborted (first_or first e), w)
  started_by rest node call first (went ask res err, w) =
      add_item (record { node = node; call = call; ask = ask; result = res })
        (rest (keep_first first err) w)

  -- The dispatch loop, with the first error of the read-only calls so far.
  unfoldable pub dispatch :
      List (Text × ToolResult) → List (CallNode × ToolCall) → Option Error → W → Verdict × W
  dispatch refused [] first w = (verdict first, w)
  dispatch refused ((node, call) ∷ rest) first w =
      started_by (λ e v. dispatch refused rest e v) node call first (start refused call w)

  pub record Collapsed : Type 0 where
    pub content : Text
    pub parts : List ToolContentPart
    pub deduper : Option OutputDeduper

  abbrev pub collapse_known : Item → Option (Tool W) → Option OutputDeduper → Collapsed
  collapse_known it none d = record {
    content = it.result.content;
    parts = it.result.parts;
    deduper = d;
  }
  collapse_known it (some t) none = record {
    content = it.result.content;
    parts = it.result.parts;
    deduper = none;
  }
  collapse_known it (some t) (some d) =
      let c : Text × Bool × OutputDeduper = collapse cfg.hex_sha256 t.decl it.result d in
      if c.1
      then record { content = c.0; parts = []; deduper = some c.2 }
      else record { content = it.result.content; parts = it.result.parts; deduper = some c.2 }

  unfoldable pub collapsed : Item → Option OutputDeduper → Collapsed
  collapsed it d = collapse_known it (find W cfg.call.tools it.call.name) d

  abbrev pub recorded_message : Item → Text → Message
  recorded_message it content = record (empty_message tool) {
    content = content;
    tool_call_id = it.call.id;
    tool_is_error = it.result.is_error;
  }

  -- The host has stored the result, or the run ends.
  abbrev pub stored_by :
      (Loop W → Option Error × Loop W) → Loop W → Option Error × W → Option Error × Loop W
  stored_by rest r (some e, w) = (some e, record r { world = w })
  stored_by rest r (none, w) = rest (record r { world = w })

  -- The host has seen the result, and the conversation takes it; or the run ends.
  abbrev pub seen_by :
      (Loop W → Option Error × Loop W)
      → Text
      → Item
      → Collapsed
      → Option Error × W
      → Loop W
      → Option Error × Loop W
  seen_by rest id it c (some e, w) r =
      (some (wrapped_hook e), record r { deduper = c.deduper; world = w })
  seen_by rest id it c (none, w) r =
      stored_by rest
        (record r {
          deduper = c.deduper;
          session = tool_result it.node c.content it.result.is_error [] r.session;
        })
        (cfg.host.tool_message it.call.id id c.content c.parts it.result.is_error w)

  -- Every result in call order: the host sees it, the conversation takes it, the host stores it.
  unfoldable pub record_results : Text → List Item → Loop W → Option Error × Loop W
  record_results id [] r = (none, r)
  record_results id (it ∷ its) r =
      let c = collapsed it r.deduper in
      seen_by (λ l. record_results id its l) id it c
        (cfg.host.tool_result it.ask it.result (recorded_message it c.content) r.world) r

-- ===== src/SubagentRuns.antt =====
-- internal/loop/subagent_runs.go: the registry of launched sub-agents. The mutex makes every call one
-- step. The updates that a call hands to the host are part of its result, and the clock's reading is
-- an argument in nanoseconds. A nil registry is `none` for the two
-- counts; Collect, Take and CancelRemaining, which give nothing on a nil registry, are modelled on a
-- real one. `U` stands for the
-- usage record of a model call, which the registry only carries.
pub mod Ledger
pub mod World
pub mod Lifecycle
pub mod Delivery
mod Examples
use agentic_loop.Prelude.{
  Text, List, [], Option, ℕ, Bool, false, codes, length, ◌∷◌, some, ◌++◌, ◌-◌, ◌+◌, none, decimal,
  if◌then◌else◌, true,
}
use agentic_loop.Prelude.Dict.{Dict, lookup, put, remove}

-- `SubagentState`.
pub data SubagentState : Type 0 where
  queued running done failed abandoned : SubagentState

pub record SubagentReport (U : Type 0) : Type 0 where
  pub call_id : Text
  pub label : Text
  pub text : Text
  pub is_error : Bool
  pub usages : List U
  pub duration : ℕ

pub record SubagentRun : Type 0 where
  pub call_id : Text
  pub label : Text
  pub prompt : Text
  pub state : SubagentState
  pub started_at : ℕ

pub record SubagentUpdate (U : Type 0) : Type 0 where
  pub call_id : Text
  pub label : Text
  pub prompt : Text
  pub state : SubagentState
  pub report : Text
  pub is_error : Bool
  pub usages : List U
  pub duration : ℕ

module _ (U : Type 0) where
  -- `signal` tells whether a token waits in the channel of capacity one.
  pub record SubagentRuns : Type 0 where
    pub active : Dict SubagentRun
    pub ready : List (SubagentReport U)
    pub signal : Bool
    pub seq : ℕ

  pub new_subagent_runs : SubagentRuns
  new_subagent_runs = record { active = []; ready = []; signal = false; seq = 0 }

  abbrev pub Emitted : Type 0
  Emitted = SubagentRuns × List (SubagentUpdate U)

  pub new_call_id : SubagentRuns → Text × SubagentRuns
  new_call_id r = (codes "subagent_" ++ decimal (r.seq + 1), record r { seq = r.seq + 1 })

  -- An update that carries no report.
  abbrev update : Text → Text → Text → SubagentState → SubagentUpdate U
  update call_id label prompt state = record {
    call_id = call_id;
    label = label;
    prompt = prompt;
    state = state;
    report = [];
    is_error = false;
    usages = [];
    duration = 0;
  }

  abbrev launch_new : Text → Text → Text → ℕ → SubagentRuns → Option SubagentRun → Emitted
  launch_new call_id label prompt now r (some _) = (r, [])
  launch_new call_id label prompt now r none =
      let run : SubagentRun = record {
        call_id = call_id;
        label = label;
        prompt = prompt;
        state = queued;
        started_at = now;
      } in
      (record r { active = put call_id run r.active }, update call_id label prompt queued ∷ [])

  pub launch : Text → Text → Text → ℕ → SubagentRuns → Emitted
  launch call_id label prompt now r =
      launch_new call_id label prompt now r (lookup call_id r.active)

  abbrev mark : Text → SubagentRuns → Option SubagentRun → Emitted
  mark call_id r none = (r, [])
  mark call_id r (some run) = (
    record r { active = put call_id (record run { state = running }) r.active },
    update call_id run.label [] running ∷ [],
  )

  pub mark_running : Text → SubagentRuns → Emitted
  mark_running call_id r = mark call_id r (lookup call_id r.active)

  abbrev complete_known :
      Text → Text → Bool → List U → ℕ → SubagentRuns → Option SubagentRun → Emitted
  complete_known call_id text is_err usages now r none = (r, [])
  complete_known call_id text is_err usages now r (some run) =
      let rep : SubagentReport U = record {
        call_id = call_id;
        label = run.label;
        text = text;
        is_error = is_err;
        usages = usages;
        duration = now - run.started_at;
      } in
      let told : SubagentUpdate U = record {
        call_id = call_id;
        label = run.label;
        prompt = [];
        state = if is_err then failed else done;
        report = text;
        is_error = is_err;
        usages = usages;
        duration = now - run.started_at;
      } in
      (
        record r { active = remove call_id r.active; ready = r.ready ++ rep ∷ []; signal = true },
        told ∷ [],
      )

  -- The clock does not run backwards, so the difference is the source's.
  pub complete : Text → Text → Bool → List U → ℕ → SubagentRuns → Emitted
  complete call_id text is_err usages now r =
      complete_known call_id text is_err usages now r (lookup call_id r.active)

  pub pending : Option SubagentRuns → ℕ
  pending none = 0
  pending (some r) = length r.active + length r.ready

  pub running_count : Option SubagentRuns → ℕ
  running_count none = 0
  running_count (some r) = length r.active

  pub take_reports : SubagentRuns → List (SubagentReport U) × SubagentRuns
  take_reports r = (r.ready, record r { ready = [] })

  -- Map iteration has no order, so the updates come in an arbitrary one: here the map's own.
  abbrev strand : Dict SubagentRun → List (SubagentUpdate U)
  strand [] = []
  strand ((k, run) ∷ m) = update run.call_id run.label [] abandoned ∷ strand m

  pub cancel_remaining : SubagentRuns → ℕ × Emitted
  cancel_remaining r = (length r.active, (record r { active = [] }, strand r.active))

  -- One round of the loop of `Collect`: what is ready, nothing because nothing is out, or a wait.
  pub data Round : Type 0 where
    hand_over : List (SubagentReport U) → SubagentRuns → Round
    nothing_out wait : Round

  abbrev waits : Dict SubagentRun → Round
  waits [] = nothing_out
  waits (run ∷ runs) = wait

  abbrev round_of : List (SubagentReport U) → SubagentRuns → Round
  round_of [] r = waits r.active
  round_of (rep ∷ reps) r = hand_over (rep ∷ reps) (record r { ready = [] })

  pub collect_round : SubagentRuns → Round
  collect_round r = round_of r.ready r

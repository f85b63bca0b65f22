-- ===== src/SubagentRuns/World.antt =====
-- The registry with all that it told and delivered, and what it means that the books balance.
use agentic_loop.Prelude.{
  Text, Bool, List, [], ◌++◌, ℕ, ◌≡◌, All, ◌∷◌, ◌≤◌, if◌then◌else◌, ◌+◌, text_eq, arith, ◌&&◌,
  append-nil,
}
use agentic_loop.Prelude.Dict.{Dict}
use agentic_loop.SubagentRuns.{
  SubagentState, abandoned, SubagentReport, SubagentRun, SubagentUpdate, SubagentRuns,
  new_subagent_runs, launch, mark_running, complete, take_reports, cancel_remaining, collect_round,
  Round, hand_over, nothing_out, wait, strand, new_call_id,
}
use agentic_loop.SubagentRuns.Ledger.{
  entries, Keyed, tally, tally-append, reports_of, is_launch, is_report, is_loss,
}

module _ (U : Type 0) where
  pub tally-strand :
      (p : SubagentState → Bool) (k : Text) (m : Dict SubagentRun)
      → All Keyed m
      → tally p k (strand U m) ≡ (if p abandoned then entries k m else 0)
  unfolding tally entries
  tally-strand p k [] h = ground arith
  tally-strand p k ((j, run) ∷ m) (hj, h) = ground (arith, tally-strand p k m h, hj)

  -- A call of the registry.
  pub data Op : Type 0 where
    launch_op : Text → Text → Text → ℕ → Op
    mark_running_op : Text → Op
    complete_op : Text → Text → Bool → List U → ℕ → Op
    take_op collect_op cancel_op new_call_id_op : Op

  -- The registry with what the host was told and what went into the conversation.
  pub record World : Type 0 where
    pub runs : SubagentRuns U
    pub told : List (SubagentUpdate U)
    pub delivered : List (SubagentReport U)

  unfoldable pub start : World
  start = record { runs = new_subagent_runs U; told = []; delivered = [] }

  abbrev pub tell : World → SubagentRuns U × List (SubagentUpdate U) → World
  tell w (r, us) = record w { runs = r; told = w.told ++ us }

  abbrev pub receive : World → Round U → World
  receive w (hand_over reps r) = record w { runs = r; delivered = w.delivered ++ reps }
  receive w nothing_out = w
  receive w wait = w

  unfoldable pub perform : Op → World → World
  perform (launch_op k l p now) w = tell w (launch U k l p now w.runs)
  perform (mark_running_op k) w = tell w (mark_running U k w.runs)
  perform (complete_op k t e us now) w = tell w (complete U k t e us now w.runs)
  perform take_op w = record w {
    runs = (take_reports U w.runs).1;
    delivered = w.delivered ++ (take_reports U w.runs).0;
  }
  perform collect_op w = receive w (collect_round U w.runs)
  perform cancel_op w = tell w (cancel_remaining U w.runs).1
  perform new_call_id_op w = record w { runs = (new_call_id U w.runs).1 }

  unfoldable pub perform_all : List Op → World → World
  perform_all [] w = w
  perform_all (op ∷ ops) w = perform_all ops (perform op w)

  -- A launch has ended, in a report or in a loss, or is still out, once. A report that was told of
  -- waits or is delivered.
  pub record IsBalanced (w : World) : Type 0 where
    pub once : (k : Text) → entries k w.runs.active ≤ 1
    pub keyed : All Keyed w.runs.active
    pub launched :
        (k : Text)
        → tally is_launch k w.told
          ≡ tally is_report k w.told + tally is_loss k w.told + entries k w.runs.active
    pub reported :
        (k : Text) → tally is_report k w.told ≡ reports_of k w.runs.ready + reports_of k w.delivered

  abbrev pub one : (SubagentState → Bool) → Text → SubagentUpdate U → ℕ
  one p k u = if p u.state && text_eq u.call_id k then 1 else 0

  -- Telling of one change that the registry itself reflects.
  pub tell-IsBalanced :
      (w : World) (r : SubagentRuns U) (u : SubagentUpdate U)
      → IsBalanced w
      → ((k : Text) → entries k r.active ≤ 1)
      → All Keyed r.active
      → ((k : Text)
          → entries k r.active + one is_report k u + one is_loss k u
            ≡ entries k w.runs.active + one is_launch k u)
      → ((k : Text) → reports_of k r.ready ≡ reports_of k w.runs.ready + one is_report k u)
      → IsBalanced (tell w (r, u ∷ []))
  unfolding tally
  tell-IsBalanced w r u b once keyed moved filed = record {
    once = once;
    keyed = keyed;
    launched = λ k. ground (
      arith,
      tally-append is_launch k w.told (u ∷ []),
      tally-append is_report k w.told (u ∷ []),
      tally-append is_loss k w.told (u ∷ []),
      b.launched k,
      moved k,
    );
    reported = λ k. ground (arith, tally-append is_report k w.told (u ∷ []), b.reported k, filed k);
  }

  pub tell_nothing : (w : World) → IsBalanced w → IsBalanced (tell w (w.runs, []))
  tell_nothing w b = record {
    once = b.once;
    keyed = b.keyed;
    launched = λ k. rw (append-nil w.told) (b.launched k);
    reported = λ k. rw (append-nil w.told) (b.reported k);
  }

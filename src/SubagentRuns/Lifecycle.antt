-- ===== src/SubagentRuns/Lifecycle.antt =====
-- Every sub-agent that was launched is accounted for: each call id's launches, ends and reports
-- balance, whatever calls the registry receives and in whatever order.
use agentic_loop.Prelude.{
  Text, Bool, List, [], ◌++◌, ℕ, ◌≡◌, true, ◌∷◌, if◌then◌else◌, none, some, ◌+◌, false, Option,
  text_eq, arith, text_eq_iff, refl, ◌-◌, sym,
}
use agentic_loop.Prelude.Dict.{Dict, lookup}
use agentic_loop.SubagentRuns.{
  queued, running, done, failed, SubagentReport, SubagentRun, new_subagent_runs, launch,
  mark_running, complete, take_reports, cancel_remaining, collect_round, strand, waits, round_of,
  launch_new, mark, complete_known, new_call_id,
}
use agentic_loop.SubagentRuns.Ledger.{
  entries, entries-remove, entries-put, entries-none, entries-some, Keyed-remove, Keyed-put,
  lookup-Keyed, tally, tally-append, reports_of, reports_of-append, is_launch, is_report, is_loss,
}
use agentic_loop.SubagentRuns.World.{
  Op, launch_op, mark_running_op, complete_op, take_op, collect_op, cancel_op, new_call_id_op,
  World, start, tell, receive, perform, perform_all, IsBalanced, tally-strand, tell-IsBalanced,
  tell_nothing,
}

module _ (U : Type 0) where
  launch-IsBalanced :
      (i l p : Text) (now : ℕ) (w : World U)
      → IsBalanced U w
      → IsBalanced U (tell U w (launch U i l p now w.runs))
  unfolding launch
  launch-IsBalanced i l p now w b = go (lookup i w.runs.active) refl
    where
      run : SubagentRun
      run = record { call_id = i; label = l; prompt = p; state = queued; started_at = now }

      go :
          (o : Option SubagentRun)
          → lookup i w.runs.active ≡ o
          → IsBalanced U (tell U w (launch_new U i l p now w.runs o))
      go (some known) e = tell_nothing U w b
      go none e =
          tell-IsBalanced U w _ _ b
            (λ k. ground (arith, entries-put i k run w.runs.active, b.once k))
            (Keyed-put i run w.runs.active refl b.keyed)
            (λ k. ground (
              arith,
              entries-put i k run w.runs.active,
              entries-none i w.runs.active e,
              text_eq_iff i k,
            ))
            (λ k. omega arith)

  mark_running-IsBalanced :
      (i : Text) (w : World U) → IsBalanced U w → IsBalanced U (tell U w (mark_running U i w.runs))
  unfolding mark_running
  mark_running-IsBalanced i w b = go (lookup i w.runs.active) refl
    where
      go :
          (o : Option SubagentRun)
          → lookup i w.runs.active ≡ o
          → IsBalanced U (tell U w (mark U i w.runs o))
      go none e = tell_nothing U w b
      go (some run) e =
          tell-IsBalanced U w _ _ b
            (λ k.
              ground
                (arith, entries-put i k (record run { state = running }) w.runs.active, b.once k))
            (Keyed-put i (record run { state = running }) w.runs.active
              (lookup-Keyed i w.runs.active run b.keyed e) b.keyed)
            (λ k. ground (
              arith,
              entries-put i k (record run { state = running }) w.runs.active,
              entries-some i w.runs.active run e,
              b.once i,
              text_eq_iff i k,
            ))
            (λ k. omega arith)

  -- How a run ends is told as a report.
  end_kind :
      (e : Bool)
      → (is_report (if e then failed else done) ≡ true)
        × (is_loss (if e then failed else done) ≡ false)
        × (is_launch (if e then failed else done) ≡ false)
  end_kind true = (refl, refl, refl)
  end_kind false = (refl, refl, refl)

  reports_of-filed :
      (k : Text) (rep : SubagentReport U) (rs : List (SubagentReport U))
      → reports_of k (rs ++ rep ∷ []) ≡ reports_of k rs + (if text_eq rep.call_id k then 1 else 0)
  unfolding reports_of
  reports_of-filed k rep rs = ground (arith, reports_of-append k rs (rep ∷ []))

  complete-IsBalanced :
      (i text : Text) (is_err : Bool) (usages : List U) (now : ℕ) (w : World U)
      → IsBalanced U w
      → IsBalanced U (tell U w (complete U i text is_err usages now w.runs))
  unfolding complete
  complete-IsBalanced i text is_err usages now w b = go (lookup i w.runs.active) refl
    where
      go :
          (o : Option SubagentRun)
          → lookup i w.runs.active ≡ o
          → IsBalanced U (tell U w (complete_known U i text is_err usages now w.runs o))
      go none e = tell_nothing U w b
      go (some run) e =
          tell-IsBalanced U w _ _ b
            (λ k. ground (arith, entries-remove i k w.runs.active, b.once k))
            (Keyed-remove i w.runs.active b.keyed)
            (λ k. ground (
              arith,
              end_kind is_err,
              entries-remove i k w.runs.active,
              entries-some i w.runs.active run e,
              b.once i,
              text_eq_iff i k,
            ))
            (λ k. rw ((end_kind is_err).0) (
              reports_of-filed k
                (record {
                  call_id = i;
                  label = run.label;
                  text = text;
                  is_error = is_err;
                  usages = usages;
                  duration = now - run.started_at;
                })
                w.runs.ready))

  -- What waits goes into the conversation.
  deliver-IsBalanced :
      (w : World U)
      → IsBalanced U w
      → IsBalanced U (record w {
        runs = record w.runs { ready = [] };
        delivered = w.delivered ++ w.runs.ready;
      })
  unfolding reports_of
  deliver-IsBalanced w b = record {
    once = b.once;
    keyed = b.keyed;
    launched = b.launched;
    reported = λ k. ground (arith, b.reported k, reports_of-append k w.delivered w.runs.ready);
  }

  collect-IsBalanced :
      (w : World U) → IsBalanced U w → IsBalanced U (receive U w (collect_round U w.runs))
  unfolding collect_round
  collect-IsBalanced w b = go w.runs.ready refl
    where
      go :
          (reps : List (SubagentReport U))
          → w.runs.ready ≡ reps
          → IsBalanced U (receive U w (round_of U reps w.runs))
      go [] e = idle w.runs.active
        where
          idle : (m : Dict SubagentRun) → IsBalanced U (receive U w (waits U m))
          idle [] = b
          idle (run ∷ runs) = b
      go (rep ∷ reps) e = rw (sym e) (deliver-IsBalanced w b)

  cancel-IsBalanced :
      (w : World U) → IsBalanced U w → IsBalanced U (tell U w (cancel_remaining U w.runs).1)
  unfolding cancel_remaining entries
  cancel-IsBalanced w b = record {
    once = λ k. omega arith;
    keyed = tt;
    launched = λ k. ground (
      arith,
      tally-append is_launch k w.told (strand U w.runs.active),
      tally-append is_report k w.told (strand U w.runs.active),
      tally-append is_loss k w.told (strand U w.runs.active),
      tally-strand U is_launch k w.runs.active b.keyed,
      tally-strand U is_report k w.runs.active b.keyed,
      tally-strand U is_loss k w.runs.active b.keyed,
      b.launched k,
    );
    reported = λ k. ground (
      arith,
      tally-append is_report k w.told (strand U w.runs.active),
      tally-strand U is_report k w.runs.active b.keyed,
      b.reported k,
    );
  }

  perform-IsBalanced : (op : Op U) (w : World U) → IsBalanced U w → IsBalanced U (perform U op w)
  unfolding perform take_reports new_call_id
  perform-IsBalanced (launch_op k l p now) w b = launch-IsBalanced k l p now w b
  perform-IsBalanced (mark_running_op k) w b = mark_running-IsBalanced k w b
  perform-IsBalanced (complete_op k t e us now) w b = complete-IsBalanced k t e us now w b
  perform-IsBalanced take_op w b = deliver-IsBalanced w b
  perform-IsBalanced collect_op w b = collect-IsBalanced w b
  perform-IsBalanced cancel_op w b = cancel-IsBalanced w b
  perform-IsBalanced new_call_id_op w b = record {
    once = b.once;
    keyed = b.keyed;
    launched = b.launched;
    reported = b.reported;
  }

  perform_all-IsBalanced :
      (ops : List (Op U)) (w : World U) → IsBalanced U w → IsBalanced U (perform_all U ops w)
  unfolding perform_all
  perform_all-IsBalanced [] w b = b
  perform_all-IsBalanced (op ∷ ops) w b = perform_all-IsBalanced ops _ (perform-IsBalanced op w b)

  start-IsBalanced : IsBalanced U (start U)
  unfolding start new_subagent_runs entries tally reports_of
  start-IsBalanced = record {
    once = λ k. omega arith;
    keyed = tt;
    launched = λ k. refl;
    reported = λ k. refl;
  }

  -- Whatever calls the registry receives, each id's launches are as many as its reports, its losses
  -- and its runs that are out, of which there is at most one, and its reports are as many as those
  -- that wait and those that were delivered.
  pub every_run_accounted : (ops : List (Op U)) → IsBalanced U (perform_all U ops (start U))
  every_run_accounted ops = perform_all-IsBalanced ops (start U) start-IsBalanced

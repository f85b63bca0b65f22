-- ===== src/RunLoop/Sound/Whole.antt =====
-- The whole run of run_loop.go: the rounds that it needs, and the conversation that it leaves.
use agentic_loop.Prelude.{
  List, ℕ, suc, zero, Option, none, [], ◌*◌, ◌≡◌, ◌<◌, some, Bool-cases, ◌+◌, ◌-◌, ◌≤◌, ◌==◌, ltb,
  if◌then◌else◌, arith, ◌&&◌, inl, leb, inr, is_nil, refl, ◌++◌, subst,
}
use agentic_loop.Message.{effective_parts}
use agentic_loop.Errors.{Error}
use agentic_loop.Node.{Node, nodes_from_message}
use agentic_loop.Session.{Session}
use agentic_loop.Session.Answered.{PendingBut, unanswered_at, start-PendingBut}
use agentic_loop.Session.Grows.{unchanged, changes-Grows, history}
use agentic_loop.Session.Held.{Held, append-Held}
use agentic_loop.Session.Settling.{Callless}
use agentic_loop.ContextWindow.{
  WindowError, WindowConfig, Outcome, Event, check_window_config, resolve_context_window,
}
use agentic_loop.RunLoop.{Config, Loop, Step, ended, next_turn, same_turn, SubagentPort, QueuePort}
use agentic_loop.RunLoop.Turn.{one_turn, retried_here}
use agentic_loop.RunLoop.Run.{
  Result, run_loop, run_on, after_turn, capped_end, given_up, placeholder_message, closed_by,
  closed_run, with_window, started, new_loop, with_event, refused_start,
}
use agentic_loop.RunLoop.Sound.{Kept, KeptStep, HostCallless}
use agentic_loop.RunLoop.Sound.Turns.{one_turn-Kept}
use agentic_loop.RunLoop.Sound.Between.{user_note}

placeholder-Callless : Callless placeholder_message
unfolding nodes_from_message effective_parts
placeholder-Callless = refl

module _ {W : Type 0} (cfg : Config W) (start : Session) (host : HostCallless cfg) where
  -- What a run that returned leaves.
  abbrev Good : Option (Result W) → Type 0
  Good none = Unit
  Good (some res) = Held start none [] res.last.session

  given_up-Held :
      (port : Option (SubagentPort W)) (r : Loop W)
      → Held start none [] r.session
      → Held start none [] (given_up cfg port r).session
  given_up-Held none r k = k
  given_up-Held (some port) r k = elim (Bool-cases (port.pending r.world == 0)) [
    | inl e ↦ rw e k
    | inr e ↦
        rw e
          (elim (Bool-cases (
            is_nil (port.take_reports r.world).0
            && (port.cancel_remaining (port.take_reports r.world).1).0 == 0)) [
              | inl f ↦ rw f k
              | inr f ↦ rw f (append-Held start none [] _ r.session (user_note _ _ []) k)
            ])
  ]

  capped_end-Held :
      (r : Loop W)
      → Held start none [] r.session
      → Held start none [] (capped_end cfg r).last.session
  unfolding capped_end
  capped_end-Held r k =
      append-Held start none [] placeholder_message (given_up cfg cfg.subagents r).session
        placeholder-Callless (given_up-Held cfg.subagents r k)

  run_loop-Good :
      (fuel turn : ℕ) (o : Option ℕ) (r : Loop W)
      → Kept start o none [] r
      → Good (run_loop cfg fuel turn r)
  unfolding run_loop
  run_loop-Good zero turn o r k = tt
  run_loop-Good (suc fuel) turn o r k =
      elim (Bool-cases (ltb 0 cfg.max_turns && leb cfg.max_turns turn)) [
        | inl e ↦ rw e (capped_end-Held r k.0)
        | inr e ↦ rw e (
            go (one_turn cfg turn r) (one_turn-Kept cfg start o turn host r k)
              (λ t p l h. run_loop-Good fuel t p l h))
      ]
    where
      go :
          (st : Step W)
          → KeptStep start o turn st
          → ((t : ℕ) (p : Option ℕ) (l : Loop W)
              → Kept start p none [] l
              → Good (run_loop cfg fuel t l))
          → Good (after_turn cfg (λ t l. run_loop cfg fuel t l) turn st)
      go (next_turn l) h ih = ih (turn + 1) o l h
      go (same_turn l) h ih = ih turn (some turn) l (h.0, h.1)
      go (ended l final e) h ih = h

  -- The rounds that are left at `turn`: two for each turn, and one less where this one was retried.
  abbrev rounds_left : ℕ → Option ℕ → ℕ
  rounds_left turn o = 2 * (cfg.max_turns - turn) + (if retried_here turn o then 1 else 2)

  abbrev Returns : Option (Result W) → Type 0
  Returns out = (res : Result W) × (out ≡ some res)

  run_loop-Returns :
      (fuel turn : ℕ) (o : Option ℕ) (r : Loop W)
      → 0 < cfg.max_turns
      → rounds_left turn o ≤ fuel
      → Kept start o none [] r
      → Returns (run_loop cfg fuel turn r)
  unfolding run_loop
  run_loop-Returns zero turn o r cap enough k = absurd (ground arith)
  run_loop-Returns (suc fuel) turn o r cap enough k =
      elim (Bool-cases (ltb 0 cfg.max_turns && leb cfg.max_turns turn)) [
        | inl e ↦ (capped_end cfg r, rw e)
        | inr e ↦ rw e (
            go (ground arith) (one_turn cfg turn r) (one_turn-Kept cfg start o turn host r k)
              (λ t p l m h. run_loop-Returns fuel t p l cap m h))
      ]
    where
      go :
          turn < cfg.max_turns
          → (st : Step W) → KeptStep start o turn st
          → ((t : ℕ) (p : Option ℕ) (l : Loop W)
              → rounds_left t p ≤ fuel
              → Kept start p none [] l
              → Returns (run_loop cfg fuel t l))
          → Returns (after_turn cfg (λ t l. run_loop cfg fuel t l) turn st)
      go less (next_turn l) h ih = ih (turn + 1) o l (ground arith) h
      go less (same_turn l) h ih = ih turn (some turn) l (ground arith) (h.0, h.1)
      go less (ended l final e) h ih =
          (record { last = l; final = final; undelivered = []; error = e }, refl)

  closed_by-Held :
      (port : Option (QueuePort W)) (res : Result W)
      → Held start none [] res.last.session
      → Held start none [] (closed_by cfg port res).last.session
  closed_by-Held none res h = h
  closed_by-Held (some q) res h = h

  closed_run-Good : (out : Option (Result W)) → Good out → Good (closed_run cfg out)
  closed_run-Good none h = tt
  closed_run-Good (some res) h = closed_by-Held cfg.messages res h

  closed_run-Returns : (out : Option (Result W)) → Returns out → Returns (closed_run cfg out)
  closed_run-Returns none (res, e) = cc
  closed_run-Returns (some out) (res, e) = (closed_by cfg cfg.messages out, refl)

module _ {W : Type 0} (cfg : Config W) (s : Session) (w : W) (host : HostCallless cfg) where
  begins-Held : Held s none [] s
  begins-Held = (start-PendingBut s, unchanged, refl)

  event_session :
      (ev : Option (Event Error)) (r : Loop W)
      → Kept s none none [] r
      → Kept s none none [] (with_event cfg ev r)
  event_session none r k = k
  event_session (some ev) r k = k

  begins-Kept :
      (win : WindowConfig) (v : W) (ev : Option (Event Error))
      → Kept s none none [] (with_event cfg ev (record (new_loop cfg s v) { window = win }))
  begins-Kept win v ev =
      event_session ev (record (new_loop cfg s v) { window = win })
        (unfold new_loop in (begins-Held, refl))

  run_on-Good : (fuel : ℕ) → Good cfg s host (run_on cfg fuel s w)
  unfolding run_on
  run_on-Good fuel = go (check_window_config cfg.window)
    where
      window :
          (out : Outcome (WindowConfig × Option (Event Error)) × W)
          → Good cfg s host (with_window cfg fuel s out)
      window (Outcome.refused e, v) = begins-Held
      window (Outcome.ok (win, ev), v) = closed_run-Good cfg s host _ (
          run_loop-Good cfg s host fuel 0 none
            (with_event cfg ev (record (new_loop cfg s v) { window = win })) (begins-Kept win v ev))

      go : (e : Option WindowError) → Good cfg s host (started cfg fuel s w e)
      go none =
          window (resolve_context_window Error cfg.host.ask_limits cfg.window cfg.armed cfg.model w)
      go (some e) = begins-Held

  run_on-Returns :
      (fuel : ℕ)
      → 0 < cfg.max_turns
      → 2 * cfg.max_turns + 2 ≤ fuel
      → Returns cfg s host (run_on cfg fuel s w)
  unfolding run_on
  run_on-Returns fuel cap enough = go (check_window_config cfg.window)
    where
      window :
          (out : Outcome (WindowConfig × Option (Event Error)) × W)
          → Returns cfg s host (with_window cfg fuel s out)
      window (Outcome.refused e, v) = (refused_start cfg (cfg.host.window_error e) s v, refl)
      window (Outcome.ok (win, ev), v) = closed_run-Returns cfg s host _ (
          run_loop-Returns cfg s host fuel 0 none
            (with_event cfg ev (record (new_loop cfg s v) { window = win })) cap (ground arith)
            (begins-Kept win v ev))

      go : (e : Option WindowError) → Returns cfg s host (started cfg fuel s w e)
      go none =
          window (resolve_context_window Error cfg.host.ask_limits cfg.window cfg.armed cfg.model w)
      go (some e) = (refused_start cfg (cfg.host.window_error e) s w, refl)

  -- Where the host queues no message with a call of its own, a run that ends, on an answer, an error, a
  -- cancellation or its cap, leaves no call on the wire without an answer but those that had none when
  -- the run began, and leaves all nodes that the conversation held before, in their places, with new
  -- ones after them.
  pub run_on-answers :
      (fuel : ℕ) (res : Result W)
      → run_on cfg fuel s w ≡ some res
      → PendingBut (unanswered_at s) [] res.last.session
        × ((more : List Node) × (history res.last.session ≡ history s ++ more))
  run_on-answers fuel res e =
      let h : Held s none [] res.last.session = subst (Good cfg s host) e (run_on-Good fuel) in
      (h.0, changes-Grows h.1)

  -- With a positive cap, twice as many rounds of the loop as turns, and two more, are enough for the run
  -- to end, whatever the provider, the tools and the host answer; where each of their calls returns, each
  -- run of compactToFit too, and the host queues no message with a call of its own.
  pub run_on-ends :
      0 < cfg.max_turns → (res : Result W) × (run_on cfg (2 * cfg.max_turns + 2) s w ≡ some res)
  run_on-ends cap = run_on-Returns (2 * cfg.max_turns + 2) cap (omega arith)

-- ===== src/RunLoop/Sound/Ends.antt =====
-- The conversation through a turn of run_loop.go that runs no tools.
use agentic_loop.Prelude.{
  List, ℕ, Option, [], Text, none, Bool-cases, some, Bool, is_nil, not, ◌∷◌, ◌==◌, refl,
  if◌then◌else◌, trim_space, inl, ◌+◌, inr, ◌&&◌, true, codes, false,
}
use agentic_loop.Message.{Message}
use agentic_loop.Errors.{Error, is_ended}
use agentic_loop.Session.{Session, tool_calls, messages, add_text}
use agentic_loop.Session.Held.{Held, omit-Held, text-Held, append-Held}
use agentic_loop.SubagentRuns.{SubagentReport}
use agentic_loop.RunLoop.{
  Config, Loop, Step, ended, next_turn, Completion, complete, Usage, SubagentPort, tell, finalized,
  stopping,
}
use agentic_loop.RunLoop.Calling.{
  ModelCall, run_model_call, turn_message, without_calls, fallback_output,
}
use agentic_loop.RunLoop.Delivery.{
  note, append, answer, queue_pending, more_turns_allowed, drain_inbox_now, drain, deliver,
}
use agentic_loop.RunLoop.Ending.{
  omit, not_run, finalize, with_fallback, last_resort, wrapped_up, after_wrap_up, wrap_up,
  wrap_up_instruction, conclude, deliver_last, collected, finish_with, finish_turn, is_last_turn,
}
use agentic_loop.RunLoop.Sound.{if_kept, Kept, KeptStep, HostCallless}
use agentic_loop.RunLoop.Sound.Batch.{call-Kept, call_below_still}
use agentic_loop.RunLoop.Sound.Between.{user_note, drain_inbox_now-Kept, drain-Kept, deliver-Kept}

module _ {W : Type 0} (cfg : Config W) (start : Session) (o : Option ℕ) (turn : ℕ)
    (host : HostCallless cfg) where
  pub loose : (rec_ : Option ℕ) (r : Loop W) → Kept start o rec_ [] r → Kept start o none [] r
  loose rec_ r k = ((k.0.0, k.0.1, refl), k.1)

  answer-Kept :
      (comp : Option Completion) (id : Text) (final : Message) (r : Loop W)
      → Kept start o none [] r
      → KeptStep start o turn (answer cfg turn comp id final r)
  unfolding answer
  answer-Kept comp id final r k =
      let told : Loop W =
        tell cfg (finalized id (some final) complete) (tell cfg (stopping (turn + 1) comp) r) in
      let got : Bool × Loop W = drain_inbox_now cfg told in
      let kept : Kept start o none [] got.1 = drain_inbox_now-Kept cfg start o told host.1 k in
      elim (Bool-cases (queue_pending cfg told && more_turns_allowed cfg turn)) [
        | inl e ↦ rw e k
        | inr e ↦ rw e (elim (Bool-cases (not (more_turns_allowed cfg turn))) [
          | inl f ↦ rw f k.0
          | inr f ↦ rw f (go got kept)
        ])
      ]
    where
      go :
          (got : Bool × Loop W)
          → Kept start o none [] got.1
          → KeptStep start o turn (if got.0 then next_turn got.1 else ended got.1 (some final) none)
      go (true, l) h = h
      go (false, l) h = h.0

  module _ (id : Text) (mc : ModelCall) (m : Message) where
    shown-Kept :
        (final : Message) (r : Loop W)
        → Kept start o mc.call [] r
        → Kept start o mc.call [] (with_fallback cfg mc final r).1
    shown-Kept final r k = elim (Bool-cases (is_nil (trim_space final.content))) [
      | inl e ↦ rw e (text-Held start mc.call [] _ r.session k.0, k.1)
      | inr e ↦ rw e k
    ]

    last_resort-Kept :
        (r : Loop W)
        → Kept start o mc.call [] r
        → KeptStep start o turn (last_resort cfg turn id mc m r)
    unfolding last_resort
    last_resort-Kept r k =
        let shown : Message × Loop W = with_fallback cfg mc (without_calls m id) r in
        answer-Kept mc.comp id shown.0 shown.1
          (loose mc.call shown.1 (shown-Kept (without_calls m id) r k))

    wrapped_up-Kept :
        (mc2 : ModelCall) (e : Option Error) (r : Loop W)
        → Kept start o mc.call [] r
        → KeptStep start o turn (wrapped_up cfg turn id mc m mc2 e r)
    unfolding last_resort
    wrapped_up-Kept mc2 (some e) r k = last_resort-Kept r k
    wrapped_up-Kept mc2 none r k =
        elim (Bool-cases (is_nil (trim_space (turn_message mc2).content))) [
          | inl e ↦ rw e (last_resort-Kept r k)
          | inr e ↦
              rw e (
                answer-Kept mc2.comp id (without_calls (turn_message mc2) id) r (loose mc.call r k))
        ]

    asked-Kept :
        (r : Loop W)
        → Kept start o mc.call [] r
        → KeptStep start o turn (
            after_wrap_up cfg turn id mc m
              (run_model_call cfg (turn + 2) (messages r.session) [] [] r))
    unfolding wrap_up
    asked-Kept r k =
        let called = run_model_call cfg (turn + 2) (messages r.session) [] [] r in
        let kept : Kept start o called.0.call (tool_calls called.0.nodes) called.1 =
          call-Kept cfg start o (turn + 2) (messages r.session) [] [] r (loose mc.call r k) in
        let both : Kept start o mc.call (tool_calls called.0.nodes) called.1 = (
          (
            kept.0.0,
            kept.0.1,
            call_below_still cfg start o (turn + 2) (messages r.session) [] [] mc.call r k.0.2,
          ),
          kept.1,
        ) in
        wrapped_up-Kept called.0 called.0.error (omit cfg called.0 (not_run cfg) called.1) (
          omit-Held start mc.call (tool_calls called.0.nodes) (not_run cfg) called.1.session both.0,
          both.1,
        )

    wrap_up-Kept :
        (r : Loop W)
        → Kept start o mc.call [] r
        → KeptStep start o turn (wrap_up cfg turn id mc m r)
    unfolding wrap_up
    wrap_up-Kept r k =
        elim (Bool-cases (not (is_nil cfg.call.tools) && not (is_last_turn cfg turn))) [
          | inl e ↦ rw e (
              asked-Kept (append (note (codes "wrap_up") wrap_up_instruction) r)
                (append-Held start mc.call [] _ r.session (user_note _ _ []) k.0, k.1))
          | inr e ↦ rw e (last_resort-Kept r k)
        ]

    conclude-Kept :
        (r : Loop W)
        → Kept start o mc.call [] r
        → KeptStep start o turn (conclude cfg turn id mc m r)
    unfolding conclude
    conclude-Kept r k = elim (Bool-cases (not (is_nil (trim_space m.content)))) [
      | inl e ↦ rw e (answer-Kept mc.comp id (without_calls m id) r (loose mc.call r k))
      | inr e ↦ rw e (elim (Bool-cases (queue_pending cfg r && more_turns_allowed cfg turn)) [
        | inl f ↦
            let t : Held start mc.call [] (add_text mc.call (fallback_output m) r.session) =
              text-Held start mc.call [] (fallback_output m) r.session k.0 in
            rw f ((t.0, t.1, refl), k.1)
        | inr f ↦ rw f (wrap_up-Kept r k)
      ])
    ]

    deliver_last-Kept :
        (port : SubagentPort W) (r : Loop W)
        → Kept start o mc.call [] r
        → KeptStep start o turn (deliver_last cfg turn id mc m port r)
    unfolding conclude
    deliver_last-Kept port r k =
        elim (Bool-cases (
          is_nil (port.take_reports r.world).0
          && (port.cancel_remaining (port.take_reports r.world).1).0 == 0)) [
            | inl e ↦ rw e (conclude-Kept (record r { world = w }) k)
            | inr e ↦ rw e (told _)
          ]
      where
        w : W
        w = (port.cancel_remaining (port.take_reports r.world).1).1

        shown : Message × Loop W
        shown = with_fallback cfg mc (without_calls m id) (record r { world = w })

        told :
            (content : Text)
            → Held start none []
                (drain cfg
                  (deliver cfg content (finalize cfg id (some shown.0) complete shown.1))).session
        told content =
            (drain-Kept cfg start o _ host.0 (
              deliver-Kept cfg start o content (finalize cfg id (some shown.0) complete shown.1) (
                loose mc.call shown.1
                  (shown-Kept (without_calls m id) (record r { world = w }) k)))).0

    collected-Kept :
        (port : SubagentPort W) (got : (List (SubagentReport Usage) × Option Error) × W)
        (r : Loop W)
        → Kept start o mc.call [] r
        → KeptStep start o turn (collected cfg turn id mc m port got r)
    unfolding conclude
    collected-Kept port ((reps, some e), w) r k =
        let shown : Message × Loop W =
          with_fallback cfg mc (without_calls m id) (record r { world = w }) in
        elim (Bool-cases (is_ended e)) [
          | inl f ↦
              rw f
                (loose mc.call shown.1
                  (shown-Kept (without_calls m id) (record r { world = w }) k)).0
          | inr f ↦ rw f (loose mc.call r k).0
        ]
    collected-Kept port (([], none), w) r k = conclude-Kept (record r { world = w }) k
    collected-Kept port ((rep ∷ reps, none), w) r k =
        elim (Bool-cases (is_nil (trim_space m.content))) [
          | inl f ↦ rw f (deliver-Kept cfg start o _ (record r { world = w }) (loose mc.call r k))
          | inr f ↦ rw f (
              deliver-Kept cfg start o _
                (finalize cfg id (some (without_calls m id)) complete (record r { world = w }))
                (loose mc.call r k))
        ]

    finish_with-Kept :
        (port : Option (SubagentPort W)) (r : Loop W)
        → Kept start o mc.call [] r
        → KeptStep start o turn (finish_with cfg turn id mc m port r)
    unfolding conclude
    finish_with-Kept none r k = conclude-Kept r k
    finish_with-Kept (some port) r k =
        let last : Step W = deliver_last cfg turn id mc m port r in
        let rest : Step W = collected cfg turn id mc m port (port.collect r.world) r in
        if_kept start o turn (port.pending r.world == 0) (conclude cfg turn id mc m r)
          (if is_last_turn cfg turn then last else rest) (conclude-Kept r k)
          (if_kept start o turn (is_last_turn cfg turn) last rest (deliver_last-Kept port r k)
            (collected-Kept port (port.collect r.world) r k))

    pub finish_turn-Kept :
        (r : Loop W)
        → Kept start o mc.call (tool_calls mc.nodes) r
        → KeptStep start o turn (finish_turn cfg turn id mc m r)
    unfolding finish_turn
    finish_turn-Kept r k =
        finish_with-Kept cfg.subagents (omit cfg mc (not_run cfg) r)
          (omit-Held start mc.call (tool_calls mc.nodes) (not_run cfg) r.session k.0, k.1)

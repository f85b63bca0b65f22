-- ===== src/RunLoop/Sound/Between.antt =====
-- The conversation through what run_loop.go brings into it between model calls.
use agentic_loop.Prelude.{
  List, ℕ, Text, Option, All, none, some, [], ◌+◌, suc, ◌∷◌, zero, ◌≢◌, ◌≡◌, Bool-cases, Bool, refl,
  true, false, ltb, inl, ◌&&◌, inr,
}
use agentic_loop.Message.{Message, user, assistant}
use agentic_loop.Errors.{Error}
use agentic_loop.Session.{Session, messages}
use agentic_loop.Session.Held.{append-Held, compact-Held}
use agentic_loop.Session.Settling.{Callless, role-Callless}
use agentic_loop.Compaction as Compaction
use agentic_loop.Compaction.{should_compact}
use agentic_loop.ContextWindow.Keeps.{cap_keeps}
use agentic_loop.ContextWindow.{Outcome}
use agentic_loop.SubagentRuns.{SubagentReport}
use agentic_loop.RunLoop.{
  Config, Loop, Stage, going, halted, QueuePort, InboxPort, SubagentPort, ResourcePoll, then_stage,
  Fitted, Usage,
}
use agentic_loop.RunLoop.Compacting.{
  usage_pair, last_call_of, compact_now, compact_here, forget_sent, cap, fitted, capped,
}
use agentic_loop.RunLoop.Delivery.{
  note, append_all, announce, drain, drain_port, deliver_to, ready_from, poll_failed, watch_by,
  subagent_report_kind, receive_all, received, inbox_messages, drain_inbox_now, deliver,
  deliver_some, deliver_ready, watch, polled, notice_of, subagent_report_kind,
}
use agentic_loop.RunLoop.Turn.{boundary}
use agentic_loop.RunLoop.Notices.{poll_is_empty}
use agentic_loop.RunLoop.Sound.{QueueBrings, InboxBrings, HostCallless, Kept, KeptStage}

absurd_role : user ≢ assistant
absurd_role e = cc

pub user_note : (kind_ t id : Text) → Callless (record (note kind_ t) { id = id })
user_note kind_ t id =
    role-Callless (record (note kind_ t) { id = id }) (λ (e : user ≡ assistant). absurd_role e)

module _ {W : Type 0} (cfg : Config W) (start : Session) (o : Option ℕ) where
  pub append_all-Kept :
      (ms : List Message) (r : Loop W)
      → All Callless ms
      → Kept start o none [] r
      → Kept start o none [] (append_all cfg ms r)
  unfolding append_all
  append_all-Kept [] r c k = k
  append_all-Kept (m ∷ ms) r c k =
      append_all-Kept ms (announce cfg m r) c.1 (append-Held start none [] m r.session c.0 k.0, k.1)

  drain_port-Kept :
      (port : Option (QueuePort W)) (r : Loop W)
      → QueueBrings port
      → Kept start o none [] r
      → Kept start o none [] (drain_port cfg port r)
  unfolding append_all
  drain_port-Kept none r c k = k
  drain_port-Kept (some q) r c k =
      append_all-Kept (q.drain r.world).0 (record r { world = (q.drain r.world).1 }) (c r.world) k

  pub drain-Kept :
      (r : Loop W)
      → QueueBrings cfg.messages
      → Kept start o none [] r
      → Kept start o none [] (drain cfg r)
  unfolding drain
  drain-Kept r c k = drain_port-Kept cfg.messages r c k

  received-Callless :
      (e : Option Error) (got : Option Message × W) (rest : W → List Message × W) (w : W)
      → ((m : Message) → got.0 ≡ some m → Callless m)
      → ((v : W) → All Callless (rest v).0)
      → All Callless (received cfg e got rest w).0
  received-Callless (some e) got rest w c d = tt
  received-Callless none (none, w') rest w c d = tt
  received-Callless none (some m, w') rest w c d = (c m refl, d w')

  receive_all-Callless :
      (inbox : InboxPort W) (fuel : ℕ) (w : W)
      → InboxBrings (some inbox)
      → All Callless (receive_all cfg inbox fuel w).0
  unfolding receive_all
  receive_all-Callless inbox zero w c = tt
  receive_all-Callless inbox (suc fuel) w c =
      received-Callless (cfg.host.context_error w) (inbox.receive w)
        (λ v. receive_all cfg inbox fuel v) w (c w) (λ v. receive_all-Callless inbox fuel v c)

  inbox_messages-Callless :
      (inbox : Option (InboxPort W)) (w : W)
      → InboxBrings inbox
      → All Callless (inbox_messages cfg inbox w).0
  unfolding receive_all
  inbox_messages-Callless none w c = tt
  inbox_messages-Callless (some inbox) w c = receive_all-Callless inbox (inbox.backlog w + 1) w c

  pub drain_inbox_now-Kept :
      (r : Loop W)
      → InboxBrings cfg.inbox
      → Kept start o none [] r
      → Kept start o none [] (drain_inbox_now cfg r).1
  unfolding drain_inbox_now
  drain_inbox_now-Kept r c k =
      append_all-Kept (inbox_messages cfg cfg.inbox r.world).0 _
        (inbox_messages-Callless cfg.inbox r.world c) k

  pub deliver-Kept :
      (content : Text) (r : Loop W)
      → Kept start o none [] r
      → Kept start o none [] (deliver cfg content r)
  unfolding deliver
  deliver-Kept content r k = go cfg.messages
    where
      go :
          (port : Option (QueuePort W))
          → Kept start o none [] (deliver_to cfg port (note subagent_report_kind content) r)
      go none = (append-Held start none [] _ r.session (user_note _ content []) k.0, k.1)
      go (some q) = k

  deliver_some-Kept :
      (port : SubagentPort W) (reps : List (SubagentReport Usage)) (r : Loop W)
      → Kept start o none [] r
      → Kept start o none [] (deliver_some cfg port reps r)
  unfolding deliver
  deliver_some-Kept port [] r k = k
  deliver_some-Kept port (rep ∷ reps) r k = deliver-Kept _ r k

  deliver_ready-Kept :
      (turn : ℕ) (r : Loop W)
      → Kept start o none [] r
      → Kept start o none [] (deliver_ready cfg turn r)
  unfolding deliver_ready
  deliver_ready-Kept turn r k = go cfg.subagents
    where
      go : (port : Option (SubagentPort W)) → Kept start o none [] (ready_from cfg port turn r)
      go none = k
      go (some port) = elim (Bool-cases (ltb 0 turn && ltb 0 (port.pending r.world))) [
        | inl e ↦ rw e (
            deliver_some-Kept port (port.take_reports r.world).0
              (record r { world = (port.take_reports r.world).1 }) k)
        | inr e ↦ rw e k
      ]

  notice_of-Kept :
      (p : ResourcePoll) (r : Loop W)
      → Kept start o none [] r
      → KeptStage start o (notice_of cfg p r)
  notice_of-Kept p r k = elim (Bool-cases (poll_is_empty p)) [
    | inl e ↦ rw e k
    | inr e ↦ rw e (append-Held start none [] _ r.session (user_note _ _ _) k.0, k.1)
  ]

  polled-Kept :
      (got : (ResourcePoll × Option Error) × W) (r : Loop W)
      → Kept start o none [] r
      → KeptStage start o (polled cfg got r)
  polled-Kept ((p, none), w) r k = notice_of-Kept p (record r { world = w }) k
  polled-Kept ((p, some e), w) r k = go (cfg.host.context_error w)
    where
      go : (c : Option Error) → KeptStage start o (poll_failed cfg p e c (record r { world = w }))
      go none = notice_of-Kept _ (record r { world = w }) k
      go (some c) = k.0

  watch-Kept : (r : Loop W) → Kept start o none [] r → KeptStage start o (watch cfg r)
  unfolding watch
  watch-Kept r k = go cfg.watcher
    where
      go :
          (by_ : Option (W → (ResourcePoll × Option Error) × W))
          → KeptStage start o (watch_by cfg by_ r)
      go none = k
      go (some poll) = polled-Kept (poll r.world) r k

  fitted-Kept :
      (r : Loop W) (f : Fitted W) → Kept start o none [] r → Kept start o none [] (fitted cfg r f).1
  fitted-Kept r (Compaction.failed e, us, w) k = k
  fitted-Kept r (Compaction.ok cr, us, w) k = (compact-Held start none [] _ _ r.session k.0, k.1)

  pub compact_now-Kept :
      (r : Loop W) → Kept start o none [] r → Kept start o none [] (compact_now cfg r).1
  unfolding compact_now
  compact_now-Kept r k = fitted-Kept r _ k

  compact_here-Kept :
      (r : Loop W) → Kept start o none [] r → Kept start o none [] (compact_here cfg r).1
  unfolding compact_here
  compact_here-Kept r k =
      elim (Bool-cases
        (should_compact cfg.armed cfg.threshold r.window.window (usage_pair r.last_comp))) [
          | inl e ↦ rw e (compact_now-Kept r k)
          | inr e ↦ rw e k
        ]

  forget_sent-Kept :
      (p : Bool × Loop W) → Kept start o none [] p.1 → Kept start o none [] (forget_sent cfg p)
  unfolding forget_sent
  forget_sent-Kept (true, r) k = k
  forget_sent-Kept (false, r) k = k

  capped-Kept :
      (p : Outcome Bool × Loop W) → Kept start o none [] p.1 → KeptStage start o (capped cfg p)
  capped-Kept (Outcome.refused e, r) k = k.0
  capped-Kept (Outcome.ok true, r) k = k
  capped-Kept (Outcome.ok false, r) k = k

  cap-Kept : (r : Loop W) → Kept start o none [] r → KeptStage start o (cap cfg r)
  unfolding cap
  cap-Kept r k = capped-Kept _ (
      cap_keeps (Kept start o none []) (compact_now cfg) r.window cfg.armed (messages r.session)
        (last_call_of r.last_comp) r.last_sent r k (compact_now-Kept r k))

  then_cap-Kept :
      (st : Stage W) → KeptStage start o st → KeptStage start o (then_stage st (cap cfg))
  then_cap-Kept (going r) k = cap-Kept r k
  then_cap-Kept (halted r final e) k = k

  pub boundary-Kept :
      (turn : ℕ) (r : Loop W)
      → HostCallless cfg
      → Kept start o none [] r
      → KeptStage start o (boundary cfg turn r)
  unfolding boundary
  boundary-Kept turn r host k =
      let r1 = forget_sent cfg (compact_here cfg r) in
      let r2 = deliver_ready cfg turn r1 in
      let r3 = drain cfg r2 in
      let k1 : Kept start o none [] r1 =
        forget_sent-Kept (compact_here cfg r) (compact_here-Kept r k) in
      let k3 : Kept start o none [] r3 = drain-Kept r2 host.0 (deliver_ready-Kept turn r1 k1) in
      then_cap-Kept _ (watch-Kept (drain_inbox_now cfg r3).1 (drain_inbox_now-Kept r3 host.1 k3))

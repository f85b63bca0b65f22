-- ===== src/RunLoop/Delivery.antt =====
-- What the loop of run_loop.go brings into the conversation between model calls: queued messages, the
-- inbox, sub-agent reports and the resource watch; and how it ends on an answer.
use agentic_loop.Prelude.{
  List, ℕ, Text, codes, ◌∷◌, Option, Bool, [], map, if◌then◌else◌, some, ◌+◌, not, ◌++◌, none, ◌==◌,
  suc, false, is_nil, ltb, ◌||◌, ◌&&◌, zero,
}
use agentic_loop.Message.{Message, user, empty_message}
use agentic_loop.Errors.{Error}
use agentic_loop.Session.{append_flat}
use agentic_loop.SubagentRuns.{SubagentReport}
use agentic_loop.SubagentRuns.Delivery.{format_subagent_delivery}
use agentic_loop.RunLoop.{
  Config, Loop, Completion, announced, stopping, finalized, tell, Usage, Stage, going, halted,
  QueuePort, InboxPort, SubagentPort, Step, next_turn, ended, ResourcePoll, complete,
}
use agentic_loop.RunLoop.Notices.{poll_is_empty, format_resource_notice}

abbrev pub note : Text → Text → Message
note kind_ t = record (empty_message user) { kind_of_note = kind_; content = t }

abbrev pub subagent_report_kind : Text
subagent_report_kind = codes "subagent_report"

module _ {W : Type 0} where
  abbrev pub append : Message → Loop W → Loop W
  append m r = record r { session = append_flat m r.session }

module _ {W : Type 0} (cfg : Config W) where
  abbrev pub announce : Message → Loop W → Loop W
  announce m r = append m (tell cfg (announced m) r)

  -- Each message is announced, then added.
  unfoldable pub append_all : List Message → Loop W → Loop W
  append_all [] r = r
  append_all (m ∷ ms) r = append_all ms (announce m r)

  abbrev pub drain_port : Option (QueuePort W) → Loop W → Loop W
  unfolding append_all
  drain_port none r = r
  drain_port (some q) r = append_all (q.drain r.world).0 (record r { world = (q.drain r.world).1 })

  unfoldable pub drain : Loop W → Loop W
  unfolding drain_port
  drain r = drain_port cfg.messages r

  abbrev pub queue_pending : Loop W → Bool
  queue_pending r = elim cfg.messages [ none ↦ false | some q ↦ q.pending r.world ]

  -- One round of `drainInbox`: the context is asked before each message.
  abbrev pub received :
      Option Error → Option Message × W → (W → List Message × W) → W → List Message × W
  received (some e) got rest w = ([], w)
  received none (none, w') rest w = ([], w')
  received none (some m, w') rest w = (m ∷ (rest w').0, (rest w').1)

  -- Fuel for the rounds that are left.
  unfoldable pub receive_all : InboxPort W → ℕ → W → List Message × W
  receive_all inbox zero w = ([], w)
  receive_all inbox (suc fuel) w =
      received (cfg.host.context_error w) (inbox.receive w) (λ v. receive_all inbox fuel v) w

  abbrev pub inbox_messages : Option (InboxPort W) → W → List Message × W
  unfolding receive_all
  inbox_messages none w = ([], w)
  inbox_messages (some inbox) w = receive_all inbox (inbox.backlog w + 1) w

  -- Whether any message came.
  unfoldable pub drain_inbox_now : Loop W → Bool × Loop W
  unfolding inbox_messages append_all
  drain_inbox_now r =
      let got : List Message × W = inbox_messages cfg.inbox r.world in
      (not (is_nil got.0), append_all got.0 (record r { world = got.1 }))

  abbrev pub deliver_to : Option (QueuePort W) → Message → Loop W → Loop W
  deliver_to (some q) m r = record r { world = q.post m r.world }
  deliver_to none m r = announce m r

  -- A sub-agent delivery goes through the queue where there is one, else into the conversation.
  unfoldable pub deliver : Text → Loop W → Loop W
  deliver content r = deliver_to cfg.messages (note subagent_report_kind content) r

  abbrev pub deliver_some : SubagentPort W → List (SubagentReport Usage) → Loop W → Loop W
  unfolding deliver
  deliver_some port [] r = r
  deliver_some port (rep ∷ reps) r =
      deliver (format_subagent_delivery cfg.quote (rep ∷ reps) (port.running r.world) 0) r

  abbrev pub ready_from : Option (SubagentPort W) → ℕ → Loop W → Loop W
  ready_from none turn r = r
  ready_from (some port) turn r =
      if ltb 0 turn && ltb 0 (port.pending r.world)
      then deliver_some port (port.take_reports r.world).0
          (record r { world = (port.take_reports r.world).1 })
      else r

  -- The reports that are ready at the top of a turn, the first turn left out.
  unfoldable pub deliver_ready : ℕ → Loop W → Loop W
  deliver_ready turn r = ready_from cfg.subagents turn r

  abbrev pub change_ids : ResourcePoll → List Text
  change_ids p = map (λ c. c.change_id) p.changes

  abbrev pub notice_of : ResourcePoll → Loop W → Stage W
  notice_of p r =
      let text = format_resource_notice cfg.quote p cfg.diff_tool in
      let told : Text × W = cfg.host.resource_notice text (change_ids p) r.world in
      if poll_is_empty p
      then going r
      else going (
          append (record (note (codes "resource_notice") text) { id = told.0 })
            (record r { world = told.1 }))

  abbrev pub watch_failed : Text → Text
  watch_failed e =
      codes "the resource watch itself failed this turn ("
      ++ e
      ++ codes "), so no resource is known to be current"

  -- A poll that failed stops the run where the context has ended, and else becomes a warning.
  abbrev pub poll_failed : ResourcePoll → Error → Option Error → Loop W → Stage W
  poll_failed p e (some c) r = halted r none (some c)
  poll_failed p e none r =
      notice_of (record p { warnings = p.warnings ++ watch_failed (cfg.host.error_text e) ∷ [] }) r

  abbrev pub polled : (ResourcePoll × Option Error) × W → Loop W → Stage W
  polled ((p, none), w) r = notice_of p (record r { world = w })
  polled ((p, some e), w) r = poll_failed p e (cfg.host.context_error w) (record r { world = w })

  abbrev pub watch_by : Option (W → (ResourcePoll × Option Error) × W) → Loop W → Stage W
  watch_by none r = going r
  watch_by (some poll) r = polled (poll r.world) r

  -- The resource watch: a poll with something to tell becomes a notice.
  unfoldable pub watch : Loop W → Stage W
  watch r = watch_by cfg.watcher r

  abbrev pub more_turns_allowed : ℕ → Bool
  more_turns_allowed turn = cfg.max_turns == 0 || ltb (turn + 1) cfg.max_turns

  abbrev pub finished : Message → Loop W → Step W
  finished final r = ended r (some final) none

  -- The run ends on `final`, unless a queued message or the inbox takes another turn.
  unfoldable pub answer : ℕ → Option Completion → Text → Message → Loop W → Step W
  unfolding drain_inbox_now
  answer turn comp id final r =
      let told : Loop W =
        tell cfg (finalized id (some final) complete) (tell cfg (stopping (turn + 1) comp) r) in
      let got : Bool × Loop W = drain_inbox_now told in
      if queue_pending told && more_turns_allowed turn
      then next_turn told
      else if not (more_turns_allowed turn)
      then finished final told
      else if got.0
      then next_turn got.1
      else finished final got.1

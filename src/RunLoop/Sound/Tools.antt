-- ===== src/RunLoop/Sound/Tools.antt =====
-- The conversation through a tool turn of run_loop.go.
use agentic_loop.Prelude.{
  List, ℕ, ◌≡◌, Option, Bool, allb, Text, true, length, not, [], ◌∷◌, Bool-cases, ap, arith, ◌==◌,
  refl, suc, ◌∙◌, inl, inr, some, none, subst, ◌+◌, sym, text_eq, leb,
}
use agentic_loop.Message.{
  Message, ToolCall, ToolDecl, Part, calls_of_parts, sync_views, empty_message, assistant,
}
use agentic_loop.Elapsed.{mark_call, elapsed_messages}
use agentic_loop.Errors.{Error}
use agentic_loop.Node.{
  Node, Draft, drafts, Body, user_body, system_body, assistant_body, thinking_body, redacted_body,
  tool_call_body, tool_result_body, compaction_body, parts_of, part_of, add_part,
  message_from_nodes,
}
use agentic_loop.Session.{
  Session, CallNode, tool_calls, call_node, replace_calls, add_calls, add_all, add,
}
use agentic_loop.Session.Held.{replace-Held, append-Held}
use agentic_loop.Tools.{batch_fingerprint}
use agentic_loop.RunLoop.{
  tell, finalized, Config, Loop, next_turn, Request, Streamed, complete, cancelled,
}
use agentic_loop.RunLoop.Calling.{ModelCall, run_model_call, begun, made_call, same_calls}
use agentic_loop.RunLoop.Batch.{
  Verdict, items, aborted, dispatch, zip_calls, record_results, emit_tool_batch,
}
use agentic_loop.RunLoop.ToolTurn.{
  abort_batch, run_calls, run_batch, nudged, after_results, after_dispatch, after_batch_hook,
  counted, stuck_error, stuck_fail_at, stuck_nudge_at,
}
use agentic_loop.RunLoop.Sound.{Kept, KeptStep}
use agentic_loop.RunLoop.Sound.Batch.{
  stop_turn-Kept, record_results-Recorded, Recorded, dispatch_nodes, AreItemsOf,
  pair_nodes-zip_calls,
}
use agentic_loop.RunLoop.Sound.Between.{user_note}

same_calls-length : (a b : List ToolCall) → same_calls a b ≡ true → length a ≡ length b
unfolding same_calls
same_calls-length [] [] h = refl
same_calls-length [] (y ∷ b) h = cc
same_calls-length (x ∷ a) [] h = cc
same_calls-length (x ∷ a) (y ∷ b) h = ap suc (same_calls-length a b (ground arith))

length-add_calls :
    (batch : List ToolCall) (rec_ : Option ℕ) (s : Session)
    → length (add_calls batch rec_ s).0 ≡ length batch
unfolding add_calls
length-add_calls [] rec_ s = refl
length-add_calls (c ∷ cs) rec_ s =
    let d : Draft = record { id = []; kind = []; body = tool_call_body c.id c.name c.arguments } in
    ap suc (length-add_calls cs rec_ (add d rec_ s).1)

abbrev pub unsuperseded : Node → Bool
unsuperseded n = not n.superseded

-- The turn's message lists as many calls as its nodes hold.
tool_calls_length :
    (ns : List Node)
    → allb unsuperseded ns ≡ true
    → length (tool_calls ns) ≡ length (calls_of_parts (parts_of ns))
unfolding tool_calls parts_of
tool_calls_length [] h = refl
tool_calls_length (n ∷ ns) h = go n.body (tool_calls_length ns (ground arith))
  where
    go :
        (b : Body)
        → length (tool_calls ns) ≡ length (calls_of_parts (parts_of ns))
        → length (call_node n b (tool_calls ns))
          ≡ length (calls_of_parts (add_part (part_of b) (parts_of ns)))
    go (user_body ps) ih = ih
    go (system_body ps) ih = ih
    go (assistant_body []) ih = ih
    go (assistant_body (c ∷ t)) ih = ih
    go (thinking_body t b i r) ih = ih
    go (redacted_body d) ih = ih
    go (tool_call_body i name a) ih = ground arith
    go (tool_result_body k i ps e w) ih = ih
    go (compaction_body t) ih = ih

pub turn_calls_length :
    (ns : List Node)
    → allb unsuperseded ns ≡ true
    → length (tool_calls ns) ≡ length (message_from_nodes ns).tool_calls
unfolding message_from_nodes
turn_calls_length ns h = tool_calls_length ns h ∙ go (parts_of ns)
  where
    go :
        (ps : List Part)
        → length (calls_of_parts ps)
          ≡ length (sync_views (record (empty_message assistant) { parts = ps })).tool_calls
    go [] = refl
    go (p ∷ ps) = refl

add_all-unsuperseded :
    (ds : List Draft) (call : Option ℕ) (s : Session)
    → allb unsuperseded (add_all ds call s).0 ≡ true
unfolding add_all
add_all-unsuperseded [] call s = refl
add_all-unsuperseded (d ∷ ds) call s = unfold add in add_all-unsuperseded ds call (add d call s).1

module _ {W : Type 0} (cfg : Config W) where
  pub call_unsuperseded :
      (turn : ℕ) (msgs : List Message) (tools : List ToolDecl) (id : Text) (r : Loop W)
      → allb unsuperseded (run_model_call cfg turn msgs tools id r).0.nodes ≡ true
  unfolding run_model_call
  call_unsuperseded turn msgs tools id r =
      let marked = mark_call cfg.clock (cfg.host.now r.world) r.tracker in
      go (record r { tracker = marked.1 })
        (cfg.host.turn_begin turn
          (record { messages = elapsed_messages msgs marked.0; tools = tools }) r.world)
    where
      made :
          (l : Loop W) (st : Streamed × W)
          → allb unsuperseded (made_call cfg turn id l st).0.nodes ≡ true
      made l (st, v) =
          add_all-unsuperseded (drafts id [] st.bodies) (some l.session.next_call)
            (record l.session { next_call = l.session.next_call + 1 })

      go :
          (l : Loop W) (got : (Request × Option Error) × W)
          → allb unsuperseded (begun cfg turn id l got).0.nodes ≡ true
      go l ((req, none), w) = made l (cfg.host.stream turn id req w)
      go l ((req, some e), w) = refl

module _ {W : Type 0} (cfg : Config W) (start : Session) (o : Option ℕ) (turn : ℕ) where
  nudged-Kept :
      (rec_ : Option ℕ) (r : Loop W)
      → Kept start o rec_ [] r
      → KeptStep start o turn (next_turn (nudged cfg r))
  nudged-Kept rec_ r k = elim (Bool-cases (r.repeats == stuck_nudge_at)) [
    | inl e ↦
        rw e (append-Held start none [] _ r.session (user_note _ _ []) (k.0.0, k.0.1, refl), k.1)
    | inr e ↦ rw e ((k.0.0, k.0.1, refl), k.1)
  ]

  module _ (rec_ : Option ℕ) (nodes : List CallNode) (id : Text) (m : Message) where
    abort_batch-Kept :
        (e : Error) (r : Loop W)
        → Kept start o rec_ nodes r
        → KeptStep start o turn (abort_batch cfg nodes id m e r)
    unfolding abort_batch
    abort_batch-Kept e r k =
        stop_turn-Kept cfg start o turn rec_ nodes _ id m cancelled (some e) r k

    after_results-Kept :
        (p : Option Error × Loop W)
        → Recorded cfg start o rec_ nodes p
        → KeptStep start o turn (after_results cfg nodes id m p)
    unfolding abort_batch
    after_results-Kept (some e, r) k = abort_batch-Kept e r k
    after_results-Kept (none, r) k = nudged-Kept rec_ r k

    after_dispatch-Kept :
        (r : Loop W) (p : Verdict × W)
        → AreItemsOf nodes p.0
        → Kept start o rec_ nodes r
        → KeptStep start o turn (after_dispatch cfg nodes id m r p)
    unfolding abort_batch
    after_dispatch-Kept r (aborted e, w) are k = abort_batch-Kept e (record r { world = w }) k
    after_dispatch-Kept r (items its, w) are k = after_results-Kept _ (
        subst
          (λ ns. Recorded cfg start o rec_ ns (record_results cfg id its (record r { world = w })))
          are
          (record_results-Recorded cfg start o rec_ id its (record r { world = w })
            (subst (λ ns. Kept start o rec_ ns r) (sym are) k)))

  run_calls-Kept :
      (rec_ : Option ℕ) (nodes : List CallNode) (calls : List ToolCall) (id : Text) (m : Message)
      (mc : ModelCall) (r : Loop W)
      → length nodes ≡ length calls
      → Kept start o rec_ nodes r
      → KeptStep start o turn (run_calls cfg nodes calls id m mc r)
  unfolding run_calls
  run_calls-Kept rec_ nodes calls id m mc r len k =
      let told = tell cfg (finalized id (some (record m { tool_calls = calls })) complete) r in
      let ran : Verdict × W = dispatch cfg mc.refused (zip_calls nodes calls) none told.world in
      after_dispatch-Kept rec_ nodes id (record m { tool_calls = calls }) told ran
        (subst (λ ns. AreItemsOf ns ran.0) (pair_nodes-zip_calls nodes calls len)
          (dispatch_nodes cfg mc.refused (zip_calls nodes calls) none told.world))
        k

  batch_hook-Kept :
      (calls : List ToolCall) (id : Text) (m : Message) (mc : ModelCall) (r : Loop W)
      (left : (List ToolCall × Option Error) × W)
      → length (tool_calls mc.nodes) ≡ length calls
      → Kept start o mc.call (tool_calls mc.nodes) r
      → KeptStep start o turn (after_batch_hook cfg calls id m mc r left)
  unfolding run_calls
  batch_hook-Kept calls id m mc r ((expanded, some e), w) len k =
      stop_turn-Kept cfg start o turn mc.call (tool_calls mc.nodes) _ id m cancelled (some e)
        (record r { world = w }) k
  batch_hook-Kept calls id m mc r ((expanded, none), w) len k =
      elim (Bool-cases (same_calls calls expanded)) [
        | inl e ↦ rw e (
            run_calls-Kept mc.call (tool_calls mc.nodes) expanded id m mc (record r { world = w })
              (len ∙ same_calls-length calls expanded e) k)
        | inr e ↦ rw e (
            run_calls-Kept mc.call _ expanded id m mc _
              (unfold replace_calls in length-add_calls expanded mc.call _)
              (replace-Held start mc.call (tool_calls mc.nodes) expanded r.session k.0, k.1))
      ]

  -- A tool turn answers its calls, whether it runs them, the host replaces them, or it is stopped.
  pub run_batch-Kept :
      (calls : List ToolCall) (id : Text) (m : Message) (mc : ModelCall) (r : Loop W)
      → length (tool_calls mc.nodes) ≡ length calls
      → Kept start o mc.call (tool_calls mc.nodes) r
      → KeptStep start o turn (run_batch cfg calls id m mc r)
  unfolding run_batch
  run_batch-Kept calls id m mc r len k =
      elim (Bool-cases (leb stuck_fail_at (counted cfg calls r).repeats)) [
        | inl e ↦ rw e (
            stop_turn-Kept cfg start o turn mc.call (tool_calls mc.nodes) _ id m complete
              (some (stuck_error (counted cfg calls r).repeats)) (counted cfg calls r) counted_too)
        | inr e ↦ rw e (
            batch_hook-Kept calls id m mc (counted cfg calls r)
              (emit_tool_batch cfg calls (counted cfg calls r).world) len counted_too)
      ]
    where
      counted_too : Kept start o mc.call (tool_calls mc.nodes) (counted cfg calls r)
      counted_too = elim (Bool-cases (text_eq (batch_fingerprint calls) r.last_batch)) [
        | inl e ↦ rw e k
        | inr e ↦ rw e k
      ]

-- ===== src/Session/Held.antt =====
-- What holds of a conversation through a run: which calls are still to be answered, that every change to
-- it was a `Change`, and that a call's record was handed out.
use agentic_loop.Prelude.{
  List, ℕ, Option, Text, ◌≤◌, none, ◌≡◌, arith, [], Bool, ◌∷◌, some, true, ◌∙◌, if◌then◌else◌, ◌+◌,
  refl, false,
}
use agentic_loop.Message.{Message, ToolCall}
use agentic_loop.Node.{Node, Draft, tool_call_body, nodes_from_message}
use agentic_loop.Session.{
  Session, add, add_all, append_flat, compact_session, CallNode, tool_result, omit_each, omit_calls,
  tool_calls, mark_superseded, has_call_key, add_calls, replace_calls, add_text, is_assistant,
  answered,
}
use agentic_loop.Session.Answered.{PendingBut, unanswered_at, Pending-mono, add_all-Pending}
use agentic_loop.Session.Settling.{
  Callless, tool_result-Pending, omit_calls-PendingBut, replace_calls-Pending,
  compact_session-Pending, add_text-Pending, append_flat-Pending,
}
use agentic_loop.Session.Appended.{call_below}
use agentic_loop.Session.Grows.{
  Change, Changes, streamed, appended, compacted, answered_call, omitted, replaced, text_added,
  then_change,
}

next-add_all :
    (ds : List Draft) (call : Option ℕ) (s : Session)
    → (add_all ds call s).1.next_call ≡ s.next_call
unfolding add_all
next-add_all [] call s = refl
next-add_all (d ∷ ds) call s = next-add_all ds call (add d call s).1 ∙ (unfold add in refl)

next-omit :
    (path : List Node) (calls : List CallNode) (reason : Text) (s : Session)
    → (omit_each path calls reason s).next_call ≡ s.next_call
unfolding omit_each
next-omit path [] reason s = refl
next-omit path ((k, i) ∷ calls) reason s =
    next-omit path calls reason
      (if answered k path then s else tool_result (k, i) reason true reason s)
    ∙ go (answered k path)
  where
    go :
        (b : Bool)
        → (if b then s else tool_result (k, i) reason true reason s).next_call ≡ s.next_call
    go true = refl
    go false = unfold tool_result add in refl

next-add_calls :
    (batch : List ToolCall) (rec_ : Option ℕ) (s : Session)
    → (add_calls batch rec_ s).1.next_call ≡ s.next_call
unfolding add_calls
next-add_calls [] rec_ s = refl
next-add_calls (c ∷ cs) rec_ s =
    let d : Draft = record { id = []; kind = []; body = tool_call_body c.id c.name c.arguments } in
    next-add_calls cs rec_ (add d rec_ s).1 ∙ (unfold add in refl)

-- Call records are never handed out twice.
change-next_call : {s t : Session} → Change s t → s.next_call ≤ t.next_call
unfolding omit_calls add_text replace_calls compact_session append_flat tool_result add
change-next_call {s} (streamed ds) =
    omega (arith, next-add_all ds (some s.next_call) (record s { next_call = s.next_call + 1 }))
change-next_call {s} (appended m) = go (is_assistant m.role)
  where
    go :
        (b : Bool)
        → s.next_call
          ≤ (if b
              then (add_all
                  (nodes_from_message m)
                  (some s.next_call)
                  (record s { next_call = s.next_call + 1 })).1
              else (add_all (nodes_from_message m) none s).1).next_call
    go true = omega (
      arith,
      next-add_all (nodes_from_message m) (some s.next_call)
          (record s { next_call = s.next_call + 1 }),
    )
    go false = omega (arith, next-add_all (nodes_from_message m) none s)
change-next_call {s} (compacted summary id) = omega arith
change-next_call {s} (answered_call c content is_error) = omega arith
change-next_call {s} (omitted calls reason) = omega (arith, next-omit s.path calls reason s)
change-next_call {s} (replaced calls rec_ batch h) =
    omega (arith, next-add_calls batch rec_ (record s { path = mark_superseded calls s.path }))
change-next_call {s} (text_added rec_ t h) = omega arith

pub below_later :
    (rec_ : Option ℕ) (m n : ℕ) → m ≤ n → call_below m rec_ ≡ true → call_below n rec_ ≡ true
below_later none m n le h = refl
below_later (some c) m n le h = ground arith

pub streamed_below :
    (ds : List Draft) (rec_ : Option ℕ) (s : Session)
    → call_below s.next_call rec_ ≡ true
    → call_below
        (add_all ds (some s.next_call) (record s { next_call = s.next_call + 1 })).1.next_call
        rec_
      ≡ true
streamed_below ds rec_ s = below_later rec_ _ _ (change-next_call (streamed ds))

module _ (start : Session) where
  -- Nothing but `calls` and what had no answer at the start is left without an answer, and `rec_` was
  -- handed out.
  abbrev pub Held : Option ℕ → List CallNode → Session → Type 0
  Held rec_ calls s =
      PendingBut (unanswered_at start) calls s
      × Changes start s
      × (call_below s.next_call rec_ ≡ true)

  pub change-Held :
      {s t : Session} (rec_ : Option ℕ) (before calls : List CallNode)
      → Change s t
      → PendingBut (unanswered_at start) calls t
      → Held rec_ before s
      → Held rec_ calls t
  change-Held {s} {t} rec_ before calls c p (q, r, b) =
      (p, then_change r c, below_later rec_ s.next_call t.next_call (change-next_call c) b)

  pub Held-mono :
      (rec_ : Option ℕ) (calls more : List CallNode) (s : Session)
      → ((k : ℕ) → has_call_key calls k ≡ true → has_call_key more k ≡ true)
      → Held rec_ calls s
      → Held rec_ more s
  Held-mono rec_ calls more s f (p, r, b) =
      (Pending-mono (unanswered_at start) calls more s f p, r, b)

  pub append-Held :
      (rec_ : Option ℕ) (calls : List CallNode) (m : Message) (s : Session)
      → Callless m
      → Held rec_ calls s
      → Held rec_ calls (append_flat m s)
  append-Held rec_ calls m s f h =
      change-Held rec_ calls calls (appended m)
        (append_flat-Pending (unanswered_at start) calls m s f h.0) h

  pub compact-Held :
      (rec_ : Option ℕ) (calls : List CallNode) (summary id : Text) (s : Session)
      → Held rec_ calls s
      → Held rec_ calls (compact_session summary id s)
  compact-Held rec_ calls summary id s h =
      change-Held rec_ calls calls (compacted summary id)
        (compact_session-Pending (unanswered_at start) calls summary id s h.0) h

  pub text-Held :
      (rec_ : Option ℕ) (calls : List CallNode) (t : Text) (s : Session)
      → Held rec_ calls s
      → Held rec_ calls (add_text rec_ t s)
  text-Held rec_ calls t s h =
      change-Held rec_ calls calls (text_added rec_ t h.2)
        (add_text-Pending (unanswered_at start) calls rec_ t s h.0) h

  pub omit-Held :
      (rec_ : Option ℕ) (calls : List CallNode) (reason : Text) (s : Session)
      → Held rec_ calls s
      → Held rec_ [] (omit_calls calls reason s)
  omit-Held rec_ calls reason s h =
      change-Held rec_ calls [] (omitted calls reason)
        (omit_calls-PendingBut (unanswered_at start) calls reason s h.0) h

  pub result-Held :
      (rec_ : Option ℕ) (c : CallNode) (calls : List CallNode) (content : Text) (is_error : Bool)
      (s : Session)
      → Held rec_ (c ∷ calls) s
      → Held rec_ calls (tool_result c content is_error [] s)
  result-Held rec_ (k, i) calls content is_error s h =
      change-Held rec_ ((k, i) ∷ calls) calls (answered_call (k, i) content is_error)
        (tool_result-Pending (unanswered_at start) k i calls content is_error [] s h.0) h

  pub replace-Held :
      (rec_ : Option ℕ) (calls : List CallNode) (batch : List ToolCall) (s : Session)
      → Held rec_ calls s
      → Held rec_ (replace_calls calls rec_ batch s).0 (replace_calls calls rec_ batch s).1
  replace-Held rec_ calls batch s h =
      change-Held rec_ calls _ (replaced calls rec_ batch h.2)
        (replace_calls-Pending (unanswered_at start) calls rec_ batch s h.0) h

  -- The nodes of a model call, under a record of their own.
  pub stream-Held :
      (ds : List Draft) (s : Session)
      → Held none [] s
      → Held
          (some s.next_call)
          (tool_calls (add_all ds (some s.next_call) (record s { next_call = s.next_call + 1 })).0)
          (add_all ds (some s.next_call) (record s { next_call = s.next_call + 1 })).1
  stream-Held ds s (p, r, b) = (
    add_all-Pending (unanswered_at start) [] ds (some s.next_call)
        (record s { next_call = s.next_call + 1 }) p,
    then_change r (streamed ds),
    rw (next-add_all ds (some s.next_call) (record s { next_call = s.next_call + 1 }))
        (ground arith),
  )

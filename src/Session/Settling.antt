-- ===== src/Session/Settling.antt =====
-- How a call comes to be answered: by its result, by an omitted one, or by a batch that replaces it.
use agentic_loop.Prelude.{
  List, ℕ, Text, allb, ◌≡◌, [], Option, ◌≢◌, Bool-cases, Bool, true, ◌∷◌, arith, ◌++◌, none, refl,
  inl, false, ◌==◌, if◌then◌else◌, append-nil, some, ==_iff, subst, ◌+◌, sym, inr, append_assoc,
  allb_mono,
}
use agentic_loop.Node.{
  Node, tool_call_body, tool_result_body, Draft, drafts, bodies_of, nodes_from_message,
}
use agentic_loop.Message.{ToolCall, Message, Role, text_part, user, system, assistant, tool}
use agentic_loop.Session.{
  Session, add, CallNode, tool_result, answered, omit_each, omit_calls, mark_superseded, add_calls,
  replace_calls, add_text, compact_session, append_flat, is_assistant,
}
use agentic_loop.Session.Answered.{
  settled, Pending, PendingBut, none_left, no_calls, answered-append, add-Pending_call, add-Pending,
  add-Pending_other, add_all-Pending_other,
}

abbrev result_node : CallNode → Text → Bool → Text → Session → Node
result_node (k, i) content e why s = record {
  key = s.next_key;
  host_id = [];
  kind = [];
  call = none;
  superseded = false;
  body = tool_result_body (some k) i (text_part content ∷ []) e why;
}

pub tool_result-Pending :
    (left : ℕ → Bool) (k : ℕ) (i : Text) (calls : List CallNode) (content : Text) (is_error : Bool)
    (why : Text) (s : Session)
    → PendingBut left ((k, i) ∷ calls) s
    → PendingBut left calls (tool_result (k, i) content is_error why s)
unfolding tool_result
tool_result-Pending left k i calls content is_error why s h =
    add-Pending left ((k, i) ∷ calls) calls _ none s h
      (λ j has.
        unfold add answered in
        ground (arith, answered-append j s.path (result_node (k, i) content is_error why s ∷ [])))
      (unfold add in refl)

-- What was answered stays so.
answered-tool_result :
    (c : CallNode) (content : Text) (is_error : Bool) (why : Text) (s : Session) (k : ℕ)
    → answered k s.path ≡ true
    → answered k (tool_result c content is_error why s).path ≡ true
unfolding tool_result add
answered-tool_result (j, i) content is_error why s k h =
    ground (arith, answered-append k s.path (result_node (j, i) content is_error why s ∷ []))

-- A call that has its answer need not be listed.
Pending-drop :
    (left : ℕ → Bool) (k : ℕ) (i : Text) (calls : List CallNode) (s : Session)
    → answered k s.path ≡ true
    → PendingBut left ((k, i) ∷ calls) s
    → PendingBut left calls s
Pending-drop left k i calls s has h =
    allb_mono (settled left ((k, i) ∷ calls) s.path) (settled left calls s.path) s.path
      (λ n e. elim (Bool-cases (k == n.key)) [
        | inl same ↦ rw (← (==_iff k n.key).0 same) (ground arith)
        | inr other ↦ ground arith
      ])
      h

omit_each-Pending :
    (left : ℕ → Bool) (path : List Node) (calls : List CallNode) (reason : Text) (s : Session)
    → ((k : ℕ) → answered k path ≡ true → answered k s.path ≡ true)
    → PendingBut left calls s
    → PendingBut left [] (omit_each path calls reason s)
unfolding omit_each
omit_each-Pending left path [] reason s old h = h
omit_each-Pending left path ((k, i) ∷ calls) reason s old h =
    let after : Bool → Session = λ b. if b then s else tool_result (k, i) reason true reason s in
    let P : Bool → Type 0 = λ b. PendingBut left [] (omit_each path calls reason (after b)) in
    elim (Bool-cases (answered k path)) [
      | inl has ↦ subst P (sym has) (
          omit_each-Pending left path calls reason s old
            (Pending-drop left k i calls s (old k has) h))
      | inr hasnt ↦ subst P (sym hasnt) (
          omit_each-Pending left path calls reason (tool_result (k, i) reason true reason s)
            (λ j e. answered-tool_result (k, i) reason true reason s j (old j e))
            (tool_result-Pending left k i calls reason true reason s h))
    ]

-- `omit_calls` answers the calls that it is given.
pub omit_calls-PendingBut :
    (left : ℕ → Bool) (calls : List CallNode) (reason : Text) (s : Session)
    → PendingBut left calls s
    → PendingBut left [] (omit_calls calls reason s)
unfolding omit_calls
omit_calls-PendingBut left calls reason s h =
    omit_each-Pending left s.path calls reason s (λ k e. e) h

-- Where nothing but calls of these is left without an answer, nothing is after `omit_calls`.
pub omit_calls-Pending :
    (calls : List CallNode) (reason : Text) (s : Session)
    → Pending calls s
    → Pending [] (omit_calls calls reason s)
omit_calls-Pending = omit_calls-PendingBut none_left

-- Calls that are left out of requests need no answer.
mark_superseded-settled :
    (left : ℕ → Bool) (calls : List CallNode) (path ns : List Node)
    → allb (settled left calls path) ns ≡ true
    → allb (settled left [] path) (mark_superseded calls ns) ≡ true
mark_superseded-settled left calls path [] h = refl
mark_superseded-settled left calls path (n ∷ ns) h =
    ground (arith, mark_superseded-settled left calls path ns)

answered-mark_superseded :
    (calls : List CallNode) (ns : List Node) (k : ℕ)
    → answered k (mark_superseded calls ns) ≡ answered k ns
unfolding answered
answered-mark_superseded calls [] k = refl
answered-mark_superseded calls (n ∷ ns) k = ground (arith, answered-mark_superseded calls ns k)

supersede-Pending :
    (left : ℕ → Bool) (calls : List CallNode) (s : Session)
    → PendingBut left calls s
    → PendingBut left [] (record s { path = mark_superseded calls s.path })
supersede-Pending left calls s h =
    allb_mono (settled left [] s.path) (settled left [] (mark_superseded calls s.path))
      (mark_superseded calls s.path)
      (λ n e. ground (arith, answered-mark_superseded calls s.path n.key))
      (mark_superseded-settled left calls s.path s.path h)

add_calls-Pending :
    (left : ℕ → Bool) (calls : List CallNode) (cs : List ToolCall) (rec_ : Option ℕ) (s : Session)
    → PendingBut left calls s
    → PendingBut left (calls ++ (add_calls cs rec_ s).0) (add_calls cs rec_ s).1
unfolding add_calls
add_calls-Pending left calls [] rec_ s h = rw (append-nil calls) h
add_calls-Pending left calls (c ∷ cs) rec_ s h =
    let d : Draft = record { id = []; kind = []; body = tool_call_body c.id c.name c.arguments } in
    let one : List CallNode = ((add d rec_ s).0.key, c.id) ∷ [] in
    let rest : List CallNode = (add_calls cs rec_ (add d rec_ s).1).0 in
    let made : PendingBut left (calls ++ one) (add d rec_ s).1 =
      unfold add in add-Pending_call left calls d rec_ s h in
    subst (λ l. PendingBut left l (add_calls cs rec_ (add d rec_ s).1).1)
      (append_assoc calls one rest)
      (add_calls-Pending left (calls ++ one) cs rec_ (add d rec_ s).1 made)

-- A replaced batch: the model's own calls need no answer any more, the host's do.
pub replace_calls-Pending :
    (left : ℕ → Bool) (calls : List CallNode) (rec_ : Option ℕ) (cs : List ToolCall) (s : Session)
    → PendingBut left calls s
    → PendingBut left (replace_calls calls rec_ cs s).0 (replace_calls calls rec_ cs s).1
unfolding replace_calls
replace_calls-Pending left calls rec_ cs s h =
    add_calls-Pending left [] cs rec_ _ (supersede-Pending left calls s h)

pub compact_session-Pending :
    (left : ℕ → Bool) (calls : List CallNode) (summary id : Text) (s : Session)
    → PendingBut left calls s
    → PendingBut left calls (compact_session summary id s)
unfolding compact_session
compact_session-Pending left calls summary id s h = add-Pending_other left calls _ none s refl h

pub add_text-Pending :
    (left : ℕ → Bool) (calls : List CallNode) (rec_ : Option ℕ) (t : Text) (s : Session)
    → PendingBut left calls s
    → PendingBut left calls (add_text rec_ t s)
unfolding add_text
add_text-Pending left calls rec_ t s h = add-Pending_other left calls _ rec_ s refl h

-- A message that brings no call into the conversation.
abbrev pub Callless : Message → Type 0
Callless m = no_calls (nodes_from_message m) ≡ true

pub role-Callless : (m : Message) → m.role ≢ assistant → Callless m
unfolding nodes_from_message
role-Callless m other = go m.role other
  where
    go : (r : Role) → r ≢ assistant → no_calls (drafts m.id m.kind_of_note (bodies_of r m)) ≡ true
    go user e = ground arith
    go system e = refl
    go tool e = refl
    go assistant e = absurd (e refl)

pub append_flat-Pending :
    (left : ℕ → Bool) (calls : List CallNode) (m : Message) (s : Session)
    → Callless m
    → PendingBut left calls s
    → PendingBut left calls (append_flat m s)
unfolding append_flat
append_flat-Pending left calls m s other h = elim (Bool-cases (is_assistant m.role)) [
  | inl e ↦ rw e (
      add_all-Pending_other left calls (nodes_from_message m) (some s.next_call)
        (record s { next_call = s.next_call + 1 }) other h)
  | inr e ↦ rw e (add_all-Pending_other left calls (nodes_from_message m) none s other h)
]

-- ===== src/Session/Numbered.antt =====
-- The numbering of nodes and of call records through the changes of internal/loop/session.go.
use agentic_loop.Prelude.{
  List, ℕ, Option, ◌≡◌, true, ◌++◌, ltb, ◌+◌, some, ◌∷◌, arith, allb-append, none, [], refl,
  allb_mono, Text, Bool, allb, if◌then◌else◌, codes, false,
}
use agentic_loop.Message.{Message, ToolCall}
use agentic_loop.Node.{Node, Draft, tool_call_body, compaction_body, nodes_from_message}
use agentic_loop.Session.{
  Session, add, add_all, append_flat, compact_session, CallNode, tool_result, omit_each, omit_calls,
  mark_superseded, add_calls, replace_calls, add_text, is_assistant, answered, has_key, new_session,
}
use agentic_loop.Session.Appended.{IsNumbered, call_below, window_kept}
use agentic_loop.Session.Grows.{
  Change, Changes, streamed, appended, compacted, answered_call, omitted, replaced, text_added,
  unchanged, then_change,
}

has_key-append :
    (w : Option ℕ) (p q : List Node) → window_kept w p ≡ true → window_kept w (p ++ q) ≡ true
has_key-append none p q h = refl
has_key-append (some k) [] q h = cc
has_key-append (some k) (n ∷ p) q h = ground (arith, has_key-append (some k) p q)

pub add-IsNumbered :
    (d : Draft) (call : Option ℕ) (s : Session)
    → call_below s.next_call call ≡ true
    → IsNumbered s
    → IsNumbered (add d call s).1
unfolding add
add-IsNumbered d call s b v = record {
  keys = rw (allb-append (λ n. ltb n.key (s.next_key + 1)) s.path ((add d call s).0 ∷ [])) (
      ground (
        arith,
        allb_mono (λ n. ltb n.key s.next_key) (λ n. ltb n.key (s.next_key + 1)) s.path
            (λ (n : Node) (h : ltb n.key s.next_key ≡ true). up n.key h),
      ));
  calls =
      rw (allb-append (λ n. call_below s.next_call n.call) s.path ((add d call s).0 ∷ []))
        (ground arith);
  window_lem = has_key-append s.window s.path ((add d call s).0 ∷ []) v.window_lem;
}
  where
    up : (k : ℕ) → ltb k s.next_key ≡ true → ltb k (s.next_key + 1) ≡ true
    up k h = ground arith

new_call-IsNumbered :
    (s : Session) → IsNumbered s → IsNumbered (record s { next_call = s.next_call + 1 })
new_call-IsNumbered s v = record {
  keys = v.keys;
  calls =
      allb_mono (λ n. call_below s.next_call n.call) (λ n. call_below (s.next_call + 1) n.call)
        s.path (λ n h. up n.call h) v.calls;
  window_lem = v.window_lem;
}
  where
    up : (o : Option ℕ) → call_below s.next_call o ≡ true → call_below (s.next_call + 1) o ≡ true
    up none h = refl
    up (some c) h = ground arith

add_all-IsNumbered :
    (ds : List Draft) (call : Option ℕ) (s : Session)
    → call_below s.next_call call ≡ true
    → IsNumbered s
    → IsNumbered (add_all ds call s).1
unfolding add_all
add_all-IsNumbered [] call s b v = v
add_all-IsNumbered (d ∷ ds) call s b v =
    add_all-IsNumbered ds call (add d call s).1 (unfold add in b) (add-IsNumbered d call s b v)

turn-IsNumbered :
    (ds : List Draft) (s : Session)
    → IsNumbered s
    → IsNumbered (add_all ds (some s.next_call) (record s { next_call = s.next_call + 1 })).1
turn-IsNumbered ds s v =
    add_all-IsNumbered ds (some s.next_call) (record s { next_call = s.next_call + 1 })
      (ground arith) (new_call-IsNumbered s v)

result-IsNumbered :
    (c : CallNode) (content : Text) (is_error : Bool) (why : Text) (s : Session)
    → IsNumbered s
    → IsNumbered (tool_result c content is_error why s)
unfolding tool_result
result-IsNumbered (k, i) content is_error why s v = add-IsNumbered _ none s refl v

omit-IsNumbered :
    (path : List Node) (calls : List CallNode) (reason : Text) (s : Session)
    → IsNumbered s
    → IsNumbered (omit_each path calls reason s)
unfolding omit_each
omit-IsNumbered path [] reason s v = v
omit-IsNumbered path ((k, i) ∷ calls) reason s v =
    omit-IsNumbered path calls reason
      (if answered k path then s else tool_result (k, i) reason true reason s)
      (go (answered k path))
  where
    go : (b : Bool) → IsNumbered (if b then s else tool_result (k, i) reason true reason s)
    go true = v
    go false = result-IsNumbered (k, i) reason true reason s v

append_flat-IsNumbered : (m : Message) (s : Session) → IsNumbered s → IsNumbered (append_flat m s)
unfolding append_flat
append_flat-IsNumbered m s v = go (is_assistant m.role)
  where
    go :
        (b : Bool)
        → IsNumbered (
            if b
            then (add_all
                (nodes_from_message m)
                (some s.next_call)
                (record s { next_call = s.next_call + 1 })).1
            else (add_all (nodes_from_message m) none s).1)
    go true = turn-IsNumbered (nodes_from_message m) s v
    go false = add_all-IsNumbered (nodes_from_message m) none s refl v

has_key_last :
    (k : ℕ) (p : List Node) (n : Node) → n.key ≡ k → has_key (some k) (p ++ n ∷ []) ≡ true
has_key_last k [] n e = ground arith
has_key_last k (x ∷ p) n e = ground (arith, has_key_last k p n)

compact-IsNumbered :
    (summary id : Text) (s : Session) → IsNumbered s → IsNumbered (compact_session summary id s)
unfolding compact_session
compact-IsNumbered summary id s v =
    let d : Draft = record { id = id; kind = codes "compaction"; body = compaction_body summary } in
    let w : IsNumbered (add d none s).1 = add-IsNumbered d none s refl v in
    record {
      keys = w.keys;
      calls = w.calls;
      window_lem = unfold add in has_key_last s.next_key s.path (add d none s).0 refl;
    }

marked_keys :
    (calls : List CallNode) (k : ℕ) (ns : List Node)
    → allb (λ n. ltb n.key k) ns ≡ true
    → allb (λ n. ltb n.key k) (mark_superseded calls ns) ≡ true
marked_keys calls k [] h = refl
marked_keys calls k (n ∷ ns) h = ground (arith, marked_keys calls k ns)

marked_calls :
    (calls : List CallNode) (k : ℕ) (ns : List Node)
    → allb (λ n. call_below k n.call) ns ≡ true
    → allb (λ n. call_below k n.call) (mark_superseded calls ns) ≡ true
marked_calls calls k [] h = refl
marked_calls calls k (n ∷ ns) h = ground (arith, marked_calls calls k ns)

marked_window :
    (calls : List CallNode) (w : Option ℕ) (ns : List Node)
    → window_kept w ns ≡ true
    → window_kept w (mark_superseded calls ns) ≡ true
marked_window calls none ns h = refl
marked_window calls (some k) [] h = cc
marked_window calls (some k) (n ∷ ns) h = ground (arith, marked_window calls (some k) ns)

add_calls-IsNumbered :
    (batch : List ToolCall) (rec_ : Option ℕ) (s : Session)
    → call_below s.next_call rec_ ≡ true
    → IsNumbered s
    → IsNumbered (add_calls batch rec_ s).1
unfolding add_calls
add_calls-IsNumbered [] rec_ s b v = v
add_calls-IsNumbered (c ∷ cs) rec_ s b v =
    let d : Draft = record { id = []; kind = []; body = tool_call_body c.id c.name c.arguments } in
    add_calls-IsNumbered cs rec_ (add d rec_ s).1 (unfold add in b) (add-IsNumbered d rec_ s b v)

change-IsNumbered : {s t : Session} → Change s t → IsNumbered s → IsNumbered t
unfolding omit_calls add_text replace_calls
change-IsNumbered {s} (streamed ds) v = turn-IsNumbered ds s v
change-IsNumbered {s} (appended m) v = append_flat-IsNumbered m s v
change-IsNumbered {s} (compacted summary id) v = compact-IsNumbered summary id s v
change-IsNumbered {s} (answered_call c content is_error) v =
    result-IsNumbered c content is_error [] s v
change-IsNumbered {s} (omitted calls reason) v = omit-IsNumbered s.path calls reason s v
change-IsNumbered {s} (replaced calls rec_ batch h) v =
    add_calls-IsNumbered batch rec_ (record s { path = mark_superseded calls s.path }) h
      (record {
        keys = marked_keys calls s.next_key s.path v.keys;
        calls = marked_calls calls s.next_call s.path v.calls;
        window_lem = marked_window calls s.window s.path v.window_lem;
      })
change-IsNumbered {s} (text_added rec_ t h) v = add-IsNumbered _ rec_ s h v

pub changes-IsNumbered : {s : Session} → Changes new_session s → IsNumbered s
unfolding new_session
changes-IsNumbered unchanged = record { keys = refl; calls = refl; window_lem = refl }
changes-IsNumbered (then_change r c) = change-IsNumbered c (changes-IsNumbered r)

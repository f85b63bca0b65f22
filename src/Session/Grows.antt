-- ===== src/Session/Grows.antt =====
-- What a run does to a conversation (internal/loop/session.go), as a relation, and the nodes that the
-- conversation holds through it.
use agentic_loop.Prelude.{
  List, ℕ, some, false, map, ◌≡◌, [], ◌++◌, Option, Text, ◌+◌, ◌∷◌, sym, ◌∙◌, Bool, true, ap,
  append-nil, none, if◌then◌else◌, arith, append_assoc, refl,
}
use agentic_loop.Message.{Message, ToolCall}
use agentic_loop.Node.{Node, Draft, tool_call_body, nodes_from_message}
use agentic_loop.Session.{
  Session, add, add_all, append_flat, compact_session, CallNode, tool_result, omit_each, omit_calls,
  mark_superseded, add_calls, replace_calls, add_text, is_assistant, answered,
}
use agentic_loop.Session.Appended.{call_below}

-- A change that a run makes to its conversation. The nodes of a model call come under a new record;
-- a replaced batch and loop-written text come under the record of a call that was made.
pub data Change (s : Session) : Session → Type 0 where
  streamed :
      (ds : List Draft)
      → Change s (add_all ds (some s.next_call) (record s { next_call = s.next_call + 1 })).1
  appended : (m : Message) → Change s (append_flat m s)
  compacted : (summary id : Text) → Change s (compact_session summary id s)
  answered_call :
      (c : CallNode) (content : Text) (is_error : Bool)
      → Change s (tool_result c content is_error [] s)
  omitted : (calls : List CallNode) (reason : Text) → Change s (omit_calls calls reason s)
  replaced :
      (calls : List CallNode) (rec_ : Option ℕ) (batch : List ToolCall)
      → call_below s.next_call rec_ ≡ true
      → Change s (replace_calls calls rec_ batch s).1
  text_added :
      (rec_ : Option ℕ) (t : Text)
      → call_below s.next_call rec_ ≡ true
      → Change s (add_text rec_ t s)

pub data Changes (s : Session) : Session → Type 0 where
  unchanged : Changes s s
  then_change : {t u : Session} → Changes s t → Change t u → Changes s u

-- A node but for the mark that leaves it out of requests.
abbrev pub bare : Node → Node
bare n = record n { superseded = false }

abbrev pub history : Session → List Node
history s = map bare s.path

abbrev pub Grows : Session → Session → Type 0
Grows s t = (more : List Node) × (history t ≡ history s ++ more)

map_append : (xs ys : List Node) → map bare (xs ++ ys) ≡ map bare xs ++ map bare ys
map_append [] ys = refl
map_append (x ∷ xs) ys = ap (λ l. bare x ∷ l) (map_append xs ys)

Grows-refl : (s : Session) → Grows s s
Grows-refl s = ([], sym (append-nil (history s)))

Grows-trans : (s t u : Session) → Grows s t → Grows t u → Grows s u
Grows-trans s t u (a, e) (b, f) = (a ++ b, f ∙ ap (λ l. l ++ b) e ∙ append_assoc (history s) a b)

Grows-add : (d : Draft) (call : Option ℕ) (s : Session) → Grows s (add d call s).1
unfolding add
Grows-add d call s = (map bare ((add d call s).0 ∷ []), map_append s.path ((add d call s).0 ∷ []))

Grows-add_all : (ds : List Draft) (call : Option ℕ) (s : Session) → Grows s (add_all ds call s).1
unfolding add_all
Grows-add_all [] call s = Grows-refl s
Grows-add_all (d ∷ ds) call s =
    Grows-trans s (add d call s).1 (add_all ds call (add d call s).1).1 (Grows-add d call s)
      (Grows-add_all ds call (add d call s).1)

Grows-result :
    (c : CallNode) (content : Text) (is_error : Bool) (why : Text) (s : Session)
    → Grows s (tool_result c content is_error why s)
unfolding tool_result
Grows-result (k, i) content is_error why s = Grows-add _ none s

Grows-omit :
    (path : List Node) (calls : List CallNode) (reason : Text) (s : Session)
    → Grows s (omit_each path calls reason s)
unfolding omit_each
Grows-omit path [] reason s = Grows-refl s
Grows-omit path ((k, i) ∷ calls) reason s =
    let one : Bool → Session = λ b. if b then s else tool_result (k, i) reason true reason s in
    Grows-trans s (one (answered k path)) (omit_each path calls reason (one (answered k path)))
      (go (answered k path)) (Grows-omit path calls reason (one (answered k path)))
  where
    go : (b : Bool) → Grows s (if b then s else tool_result (k, i) reason true reason s)
    go true = Grows-refl s
    go false = Grows-result (k, i) reason true reason s

history-mark_superseded :
    (calls : List CallNode) (ns : List Node) → map bare (mark_superseded calls ns) ≡ map bare ns
history-mark_superseded calls [] = refl
history-mark_superseded calls (n ∷ ns) = ground (arith, history-mark_superseded calls ns)

Grows-add_calls :
    (batch : List ToolCall) (rec_ : Option ℕ) (s : Session) → Grows s (add_calls batch rec_ s).1
unfolding add_calls
Grows-add_calls [] rec_ s = Grows-refl s
Grows-add_calls (c ∷ cs) rec_ s =
    let d : Draft = record { id = []; kind = []; body = tool_call_body c.id c.name c.arguments } in
    Grows-trans s (add d rec_ s).1 (add_calls cs rec_ (add d rec_ s).1).1 (Grows-add d rec_ s)
      (Grows-add_calls cs rec_ (add d rec_ s).1)

Grows-append : (m : Message) (s : Session) → Grows s (append_flat m s)
unfolding append_flat
Grows-append m s = go (is_assistant m.role)
  where
    go :
        (b : Bool)
        → Grows s (
            if b
            then (add_all
                (nodes_from_message m)
                (some s.next_call)
                (record s { next_call = s.next_call + 1 })).1
            else (add_all (nodes_from_message m) none s).1)
    go true =
        Grows-add_all (nodes_from_message m) (some s.next_call)
          (record s { next_call = s.next_call + 1 })
    go false = Grows-add_all (nodes_from_message m) none s

Grows-replace :
    (calls : List CallNode) (rec_ : Option ℕ) (batch : List ToolCall) (s : Session)
    → Grows s (replace_calls calls rec_ batch s).1
unfolding replace_calls
Grows-replace calls rec_ batch s =
    let marked : Session = record s { path = mark_superseded calls s.path } in
    Grows-trans s marked (add_calls batch rec_ marked).1
      ([], history-mark_superseded calls s.path ∙ sym (append-nil (history s)))
      (Grows-add_calls batch rec_ marked)

change-Grows : {s t : Session} → Change s t → Grows s t
unfolding compact_session omit_calls add_text
change-Grows {s} (streamed ds) =
    Grows-add_all ds (some s.next_call) (record s { next_call = s.next_call + 1 })
change-Grows {s} (appended m) = Grows-append m s
change-Grows {s} (compacted summary id) = Grows-add _ none s
change-Grows {s} (answered_call c content is_error) = Grows-result c content is_error [] s
change-Grows {s} (omitted calls reason) = Grows-omit s.path calls reason s
change-Grows {s} (replaced calls rec_ batch h) = Grows-replace calls rec_ batch s
change-Grows {s} (text_added rec_ t h) = Grows-add _ rec_ s

-- Nothing is cut out of the tree: after any run of changes the conversation holds all nodes that it
-- held, in the same places and with the same content, with new ones after them.
pub changes-Grows :
    {s t : Session} → Changes s t → (more : List Node) × (history t ≡ history s ++ more)
changes-Grows {s} unchanged = Grows-refl s
changes-Grows {s} (then_change {t} {u} r c) = Grows-trans s t u (changes-Grows r) (change-Grows c)

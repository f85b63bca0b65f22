-- ===== src/Session/Answered.antt =====
-- The calls of a conversation (internal/loop/session.go) that are still to be answered.
use agentic_loop.Prelude.{
  Bool, List, ℕ, true, not, allb, ◌≡◌, ◌++◌, Option, false, ◌&&◌, ◌∷◌, ◌||◌, arith, [], refl,
  append-nil, allb_mono, allb-append, anyb, ◌==◌,
}
use agentic_loop.Node.{
  Node, Body, tool_call_body, tool_result_body, Draft, user_body, system_body, assistant_body,
  thinking_body, redacted_body, compaction_body,
}
use agentic_loop.Session.{
  Session, add, add_all, CallNode, tool_calls, call_node, answered, has_call_key,
}

abbrev pub is_call : Body → Bool
is_call (tool_call_body i n a) = true
is_call _ = false

-- A node that is no call on the wire, or has its answer on the path, or is still to be answered, or is
-- left out of account.
abbrev pub settled : (ℕ → Bool) → List CallNode → List Node → Node → Bool
settled left calls path n =
    not (is_call n.body && not n.superseded)
    || answered n.key path
    || has_call_key calls n.key
    || left n.key

-- Of the calls that are not left out of account, nothing but these is left without an answer.
abbrev pub PendingBut : (ℕ → Bool) → List CallNode → Session → Type 0
PendingBut left calls s = allb (settled left calls s.path) s.path ≡ true

abbrev pub none_left : ℕ → Bool
none_left k = false

-- Nothing but these calls is left without an answer.
abbrev pub Pending : List CallNode → Session → Type 0
Pending calls s = PendingBut none_left calls s

-- Whether the conversation has a call on the wire with this key that has no answer.
abbrev pub unanswered_at : Session → ℕ → Bool
unanswered_at s k = anyb (λ m. m.key == k && not (settled none_left [] s.path m)) s.path

pub answered-append :
    (k : ℕ) (p q : List Node) → answered k (p ++ q) ≡ (answered k p || answered k q)
unfolding answered
answered-append k [] q = refl
answered-append k (n ∷ p) q = ground (arith, answered-append k p q)

pub has_call_key-append :
    (cs ds : List CallNode) (k : ℕ)
    → has_call_key (cs ++ ds) k ≡ (has_call_key cs k || has_call_key ds k)
has_call_key-append [] ds k = refl
has_call_key-append ((j, i) ∷ cs) ds k = ground (arith, has_call_key-append cs ds k)

-- A new node at the end: the old ones stay settled, and it has to be settled itself.
pub add-Pending :
    (left : ℕ → Bool) (calls more : List CallNode) (d : Draft) (rec_ : Option ℕ) (s : Session)
    → PendingBut left calls s
    → ((k : ℕ)
        → has_call_key calls k ≡ true
        → (answered k (add d rec_ s).1.path || has_call_key more k) ≡ true)
    → settled left more (add d rec_ s).1.path (add d rec_ s).0 ≡ true
    → PendingBut left more (add d rec_ s).1
unfolding add
add-Pending left calls more d rec_ s h kept new = ground (
  arith,
  allb-append (settled left more (add d rec_ s).1.path) s.path ((add d rec_ s).0 ∷ []),
  allb_mono (settled left calls s.path) (settled left more (add d rec_ s).1.path) s.path
      (λ (n : Node). grows n) h,
)
  where
    grows :
        (n : Node)
        → settled left calls s.path n ≡ true
        → settled left more (add d rec_ s).1.path n ≡ true
    grows n e = ground (arith, answered-append n.key s.path ((add d rec_ s).0 ∷ []), kept n.key)

-- Bodies that are no calls.
abbrev pub no_calls : List Draft → Bool
no_calls [] = true
no_calls (d ∷ ds) = not (is_call d.body) && no_calls ds

pub add-Pending_other :
    (left : ℕ → Bool) (calls : List CallNode) (d : Draft) (rec_ : Option ℕ) (s : Session)
    → is_call d.body ≡ false
    → PendingBut left calls s
    → PendingBut left calls (add d rec_ s).1
add-Pending_other left calls d rec_ s other h =
    add-Pending left calls calls d rec_ s h (λ k e. ground arith) (unfold add in ground arith)

pub add_all-Pending_other :
    (left : ℕ → Bool) (calls : List CallNode) (ds : List Draft) (rec_ : Option ℕ) (s : Session)
    → no_calls ds ≡ true
    → PendingBut left calls s
    → PendingBut left calls (add_all ds rec_ s).1
unfolding add_all
add_all-Pending_other left calls [] rec_ s other h = h
add_all-Pending_other left calls (d ∷ ds) rec_ s other h =
    add_all-Pending_other left calls ds rec_ (add d rec_ s).1 (ground arith)
      (add-Pending_other left calls d rec_ s (ground arith) h)

call_node-append :
    (n : Node) (b : Body) (calls rest : List CallNode) (k : ℕ)
    → has_call_key (calls ++ call_node n b rest) k
      ≡ (has_call_key (calls ++ call_node n b []) k || has_call_key rest k)
call_node-append n b calls rest k = ground (
  arith,
  has_call_key-append calls (call_node n b rest) k,
  has_call_key-append calls (call_node n b []) k,
)

pub Pending-mono :
    (left : ℕ → Bool) (calls more : List CallNode) (s : Session)
    → ((k : ℕ) → has_call_key calls k ≡ true → has_call_key more k ≡ true)
    → PendingBut left calls s
    → PendingBut left more s
Pending-mono left calls more s f h =
    allb_mono (settled left calls s.path) (settled left more s.path) s.path
      (λ n e. ground (arith, f n.key)) h

settled_new :
    (calls : List CallNode) (path : List Node) (n : Node) (b : Body)
    → not (is_call b && not n.superseded) || has_call_key (call_node n b []) n.key ≡ true
settled_new calls path n (tool_call_body i name a) = ground arith
settled_new calls path n (user_body ps) = refl
settled_new calls path n (system_body ps) = refl
settled_new calls path n (assistant_body t) = refl
settled_new calls path n (thinking_body t b i r) = refl
settled_new calls path n (redacted_body d) = refl
settled_new calls path n (tool_result_body k i ps e w) = refl
settled_new calls path n (compaction_body t) = refl

pub add-Pending_call :
    (left : ℕ → Bool) (calls : List CallNode) (d : Draft) (rec_ : Option ℕ) (s : Session)
    → PendingBut left calls s
    → PendingBut left (calls ++ call_node (add d rec_ s).0 d.body []) (add d rec_ s).1
unfolding add
add-Pending_call left calls d rec_ s h =
    add-Pending left calls (calls ++ call_node (add d rec_ s).0 d.body []) d rec_ s h
      (λ k e. ground (arith, has_call_key-append calls (call_node (add d rec_ s).0 d.body []) k))
      (ground (
        arith,
        has_call_key-append calls (call_node (add d rec_ s).0 d.body []) s.next_key,
        settled_new calls (add d rec_ s).1.path (add d rec_ s).0 d.body,
      ))

-- The calls of new nodes are to be answered.
pub add_all-Pending :
    (left : ℕ → Bool) (calls : List CallNode) (ds : List Draft) (rec_ : Option ℕ) (s : Session)
    → PendingBut left calls s
    → PendingBut left (calls ++ tool_calls (add_all ds rec_ s).0) (add_all ds rec_ s).1
unfolding add_all tool_calls
add_all-Pending left calls [] rec_ s h = rw (append-nil calls) h
add_all-Pending left calls (d ∷ ds) rec_ s h =
    let c : List CallNode = call_node (add d rec_ s).0 d.body [] in
    let rest : List CallNode = tool_calls (add_all ds rec_ (add d rec_ s).1).0 in
    Pending-mono left ((calls ++ c) ++ rest) _ (add_all ds rec_ (add d rec_ s).1).1
      (λ k e.
        unfold add in
        ground (
          arith,
          has_call_key-append (calls ++ call_node (add d rec_ s).0 d.body []) rest k,
          call_node-append (add d rec_ s).0 d.body calls rest k,
        ))
      (add_all-Pending left (calls ++ c) ds rec_ (add d rec_ s).1
        (add-Pending_call left calls d rec_ s h))

found_or_settled :
    (s : Session) (ns : List Node)
    → ((k : ℕ)
        → anyb (λ (m : Node). m.key == k && not (settled none_left [] s.path m)) ns ≡ true
        → unanswered_at s k ≡ true)
    → allb (settled (unanswered_at s) [] s.path) ns ≡ true
found_or_settled s [] inside = refl
found_or_settled s (n ∷ ns) inside =
    ground (arith, inside n.key, found_or_settled s ns (λ k e. inside k (ground arith)))

-- The calls that a conversation begins with and that have no answer are left out of account.
pub start-PendingBut : (s : Session) → PendingBut (unanswered_at s) [] s
start-PendingBut s = found_or_settled s s.path (λ k e. e)

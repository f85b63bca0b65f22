-- ===== src/Node/RoundTrip.antt =====
-- core/convert.go: what `MessagesFromPath` makes of a path that goes on, and of one turn's nodes.
use agentic_loop.Prelude.{
  List, ℕ, Option, allb, ◌≡◌, Bool, ◌∷◌, false, not, true, arith, ◌++◌, [], ◌∙◌, ap, sym, refl,
  append_assoc, some, allb-append, ◌&&◌, append-nil, none,
}
use agentic_loop.Message.{Message}
use agentic_loop.Node.{
  Node, Shape, of_turn, alone, shape_of, flush, same_call, joins, path_messages, last_call,
}

abbrev pub apart : Option ℕ → Node → Bool
apart call n = not (same_call call n.call)

joins-apart :
    (g : Node) (gs : List Node) (n : Node)
    → allb (apart n.call) (g ∷ gs) ≡ true
    → joins (g ∷ gs) n ≡ false
joins-apart g [] n h = ground arith
joins-apart g (x ∷ gs) n h = joins-apart x gs n (ground arith)

path_skip :
    (group : List Node) (n : Node) (ns : List Node)
    → n.superseded ≡ true
    → path_messages group (n ∷ ns) ≡ path_messages group ns
unfolding path_messages
path_skip group n ns e = ground arith

path_alone :
    (group : List Node) (n : Node) (ns : List Node) (m : Message)
    → n.superseded ≡ false
    → shape_of n n.body ≡ alone m
    → path_messages group (n ∷ ns) ≡ flush group ++ m ∷ path_messages [] ns
unfolding path_messages
path_alone group n ns m e f = ground arith

path_joined :
    (group : List Node) (n : Node) (ns : List Node)
    → n.superseded ≡ false
    → shape_of n n.body ≡ of_turn
    → joins group n ≡ true
    → path_messages group (n ∷ ns) ≡ path_messages (group ++ n ∷ []) ns
unfolding path_messages
path_joined group n ns e f j = ground arith

path_begun :
    (group : List Node) (n : Node) (ns : List Node)
    → n.superseded ≡ false
    → shape_of n n.body ≡ of_turn
    → joins group n ≡ false
    → path_messages group (n ∷ ns) ≡ flush group ++ path_messages (n ∷ []) ns
unfolding path_messages
path_begun group n ns e f j = ground arith

first_node :
    (group : List Node) (n : Node) (q : List Node) (sh : Shape)
    → shape_of n n.body ≡ sh
    → n.superseded ≡ false
    → allb (apart n.call) group ≡ true
    → path_messages group (n ∷ q) ≡ flush group ++ path_messages [] (n ∷ q)
unfolding flush
first_node [] n q sh e sent h = refl
first_node (g ∷ gs) n q (alone m) e sent h =
    path_alone (g ∷ gs) n q m sent e
    ∙ ap (λ l. flush (g ∷ gs) ++ l) (sym (path_alone [] n q m sent e))
first_node (g ∷ gs) n q of_turn e sent h =
    path_begun (g ∷ gs) n q sent e (joins-apart g gs n h)
    ∙ ap (λ l. flush (g ∷ gs) ++ l) (sym (path_joined [] n q sent e refl))

-- One round of the loop, where what follows the round is known to go on with `r`.
path_step :
    (group : List Node) (x : Node) (p more : List Node) (r : List Message) (n : Node)
    → ((g : List Node)
        → allb (apart n.call) g ≡ true
        → path_messages g more ≡ path_messages g p ++ r)
    → allb (apart n.call) group ≡ true
    → apart n.call x ≡ true
    → (b : Bool) → x.superseded ≡ b
    → (sh : Shape) → shape_of x x.body ≡ sh
    → (j : Bool) → joins group x ≡ j
    → path_messages group (x ∷ more) ≡ path_messages group (x ∷ p) ++ r
path_step group x p more r n ih hg hx true e sh f j k =
    path_skip group x more e ∙ ih group hg ∙ ap (λ l. l ++ r) (sym (path_skip group x p e))
path_step group x p more r n ih hg hx false e (alone m) f j k =
    path_alone group x more m e f
    ∙ ap (λ l. flush group ++ m ∷ l) (ih [] refl)
    ∙ sym (append_assoc (flush group) (m ∷ path_messages [] p) r)
    ∙ ap (λ l. l ++ r) (sym (path_alone group x p m e f))
path_step group x p more r n ih hg hx false e of_turn f true k =
    path_joined group x more e f k
    ∙ ih (group ++ x ∷ []) (ground (arith, allb-append (apart n.call) group (x ∷ [])))
    ∙ ap (λ l. l ++ r) (sym (path_joined group x p e f k))
path_step group x p more r n ih hg hx false e of_turn f false k =
    path_begun group x more e f k
    ∙ ap (λ l. flush group ++ l) (ih (x ∷ []) (ground arith))
    ∙ sym (append_assoc (flush group) (path_messages (x ∷ []) p) r)
    ∙ ap (λ l. l ++ r) (sym (path_begun group x p e f k))

-- A node that is sent and begins a turn of its own: what follows it does not depend on what precedes.
pub path_messages-append :
    (p group : List Node) (n : Node) (q : List Node)
    → n.superseded ≡ false
    → allb (apart n.call) group ≡ true
    → allb (apart n.call) p ≡ true
    → path_messages group (p ++ n ∷ q) ≡ path_messages group p ++ path_messages [] (n ∷ q)
path_messages-append [] group n q sent hg hp =
    unfold path_messages in first_node group n q _ refl sent hg
path_messages-append (x ∷ p) group n q sent hg hp =
    path_step group x p (p ++ n ∷ q) (path_messages [] (n ∷ q)) n
      (λ g h. path_messages-append p g n q sent h (ground arith)) hg (ground arith) _ refl _ refl _
      refl

abbrev is_of_turn : Shape → Bool
is_of_turn of_turn = true
is_of_turn (alone m) = false

-- The nodes of one turn are read as one message.
abbrev pub in_turn : ℕ → Node → Bool
in_turn c n = same_call (some c) n.call && not n.superseded && is_of_turn (shape_of n n.body)

same_call_eq : (c : ℕ) (o : Option ℕ) → same_call (some c) o ≡ true → o ≡ some c
same_call_eq c none h = cc
same_call_eq c (some d) h = ground arith

is_of_turn_eq : (sh : Shape) → is_of_turn sh ≡ true → sh ≡ of_turn
is_of_turn_eq of_turn h = refl
is_of_turn_eq (alone m) h = cc

last_call_turn :
    (c : ℕ) (g : Node) (gs : List Node)
    → allb (in_turn c) (g ∷ gs) ≡ true
    → last_call (g ∷ gs) ≡ some c
last_call_turn c g [] h = same_call_eq c g.call (ground arith)
last_call_turn c g (x ∷ gs) h = last_call_turn c x gs (ground arith)

joins_turn :
    (c : ℕ) (group : List Node) (n : Node)
    → allb (in_turn c) group ≡ true
    → in_turn c n ≡ true
    → joins group n ≡ true
joins_turn c [] n hg h = refl
joins_turn c (g ∷ gs) n hg h =
    rw (last_call_turn c g gs hg, same_call_eq c n.call (ground arith)) (ground arith)

pub path_messages_turn :
    (c : ℕ) (ns group : List Node)
    → allb (in_turn c) group ≡ true
    → allb (in_turn c) ns ≡ true
    → path_messages group ns ≡ flush (group ++ ns)
path_messages_turn c [] group hg h = rw (append-nil group) (unfold path_messages in refl)
path_messages_turn c (n ∷ ns) group hg h =
    path_joined group n ns (ground arith) (is_of_turn_eq (shape_of n n.body) (ground arith))
      (joins_turn c group n hg (ground arith))
    ∙ path_messages_turn c ns (group ++ n ∷ [])
        (ground (arith, allb-append (in_turn c) group (n ∷ []))) (ground arith)
    ∙ ap flush (append_assoc group (n ∷ []) ns)

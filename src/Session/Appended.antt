-- ===== src/Session/Appended.antt =====
-- `appendFlat` and `messages` of internal/loop/session.go: a flat message as nodes and back.
use agentic_loop.Prelude.{
  List, ℕ, Option, allb, some, Bool, true, ltb, ◌∷◌, ◌≡◌, if◌then◌else◌, none, false, ap, ◌++◌,
  arith, not, [], ◌+◌, sym, allb_mono, refl, append-nil, ◌∙◌, append_assoc, is_nil, Text,
  trim_space,
}
use agentic_loop.Message.{
  Message, user, assistant, Part, text_part, image_part, thinking_part, redacted_thinking_part,
  tool_call_part, new_message, empty_message, effective_parts,
}
use agentic_loop.Node.{
  Node, Draft, drafts, bodies_of_parts, nodes_from_message, path_messages, content_only, user_body,
  system_body, message_from_nodes, parts_of, flush, shape_of, flat_content, same_call,
}
use agentic_loop.Node.RoundTrip.{path_messages-append, path_messages_turn, apart, in_turn}
use agentic_loop.Session.{Session, add, add_all, append_flat, messages, has_key, from_key}

abbrev pub call_below : ℕ → Option ℕ → Bool
call_below k none = true
call_below k (some c) = ltb c k

abbrev pub window_kept : Option ℕ → List Node → Bool
window_kept none path = true
window_kept (some k) path = has_key (some k) path

-- Keys and call records are handed out in order, and the window starts at a node of the path.
pub record IsNumbered (s : Session) : Type 0 where
  pub keys : allb (λ n. ltb n.key s.next_key) s.path ≡ true
  pub calls : allb (λ n. call_below s.next_call n.call) s.path ≡ true
  pub window_lem : window_kept s.window s.path ≡ true

-- The nodes that a run of `add` makes.
abbrev pub nodes_at : ℕ → Option ℕ → List Draft → List Node
nodes_at k call [] = []
nodes_at k call (d ∷ ds) =
    record {
      key = k;
      host_id = d.id;
      kind = d.kind;
      call = call;
      superseded = false;
      body = d.body;
    }
    ∷ nodes_at (k + 1) call ds

pub add_all_nodes :
    (ds : List Draft) (call : Option ℕ) (s : Session)
    → (add_all ds call s).0 ≡ nodes_at s.next_key call ds
unfolding add_all
add_all_nodes [] call s = refl
add_all_nodes (d ∷ ds) call s =
    ap (λ l. (add d call s).0 ∷ l) (add_all_nodes ds call (add d call s).1)

pub add_all_path :
    (ds : List Draft) (call : Option ℕ) (s : Session)
    → (add_all ds call s).1.path ≡ s.path ++ nodes_at s.next_key call ds
unfolding add_all
add_all_path [] call s = sym (append-nil s.path)
add_all_path (d ∷ ds) call s =
    add_all_path ds call (add d call s).1
    ∙ append_assoc s.path ((add d call s).0 ∷ []) (nodes_at (s.next_key + 1) call ds)

pub add_all_window :
    (ds : List Draft) (call : Option ℕ) (s : Session) → (add_all ds call s).1.window ≡ s.window
unfolding add_all
add_all_window [] call s = refl
add_all_window (d ∷ ds) call s = add_all_window ds call (add d call s).1

-- The part of the path that a request carries.
abbrev carried : Option ℕ → List Node → List Node
carried w path = if has_key w path then from_key w path else path

pub from_key-append :
    (k : ℕ) (p q : List Node)
    → has_key (some k) p ≡ true
    → (has_key (some k) (p ++ q) ≡ true) × (from_key (some k) (p ++ q) ≡ from_key (some k) p ++ q)
from_key-append k [] q h = cc
from_key-append k (n ∷ p) q h = ground (arith, from_key-append k p q)

carried-append :
    (w : Option ℕ) (p q : List Node)
    → window_kept w p ≡ true
    → carried w (p ++ q) ≡ carried w p ++ q
carried-append none p q h = refl
carried-append (some k) p q h = rw (h, (from_key-append k p q h).0) ((from_key-append k p q h).1)

allb-from_key :
    (f : Node → Bool) (w : Option ℕ) (p : List Node)
    → allb f p ≡ true
    → allb f (from_key w p) ≡ true
allb-from_key f none p h = h
allb-from_key f (some k) [] h = refl
allb-from_key f (some k) (n ∷ p) h = ground (arith, allb-from_key f (some k) p)

allb-carried :
    (f : Node → Bool) (w : Option ℕ) (p : List Node) → allb f p ≡ true → allb f (carried w p) ≡ true
allb-carried f w p h = ground (arith, allb-from_key f w p)

apart-none : (p : List Node) → allb (apart none) p ≡ true
apart-none [] = refl
apart-none (n ∷ p) = apart-none p

apart_new :
    (c : ℕ) (p : List Node)
    → allb (λ n. call_below c n.call) p ≡ true
    → allb (apart (some c)) p ≡ true
apart_new c p h = allb_mono (λ n. call_below c n.call) (apart (some c)) p (λ n e. go n.call e) h
  where
    go : (o : Option ℕ) → call_below c o ≡ true → not (same_call (some c) o) ≡ true
    go none e = refl
    go (some d) e = ground arith

-- What is appended under a record that no node before has is read on its own.
messages-add_all :
    (ds : List Draft) (call : Option ℕ) (s : Session)
    → is_nil ds ≡ false
    → window_kept s.window s.path ≡ true
    → allb (apart call) s.path ≡ true
    → messages (add_all ds call s).1 ≡ messages s ++ path_messages [] (nodes_at s.next_key call ds)
unfolding messages
messages-add_all [] call s some_ w h = cc
messages-add_all (d ∷ ds) call s some_ w h =
    let ns : List Node = nodes_at s.next_key call (d ∷ ds) in
    rw
      (
        add_all_path (d ∷ ds) call s,
        add_all_window (d ∷ ds) call s,
        carried-append s.window s.path ns w,
      )
      (path_messages-append (carried s.window s.path) [] _ (nodes_at (s.next_key + 1) call ds) refl
        refl (allb-carried (apart call) s.window s.path h))

-- Parts that go on the wire as they are: no empty text, no redacted block without data, no blank
-- arguments, which are sent as "{}", no image.
abbrev pub sendable : Part → Bool
sendable (text_part t) = not (is_nil t)
sendable (image_part m s d) = false
sendable (redacted_thinking_part d) = not (is_nil d)
sendable (tool_call_part i n a) = not (is_nil (trim_space a))
sendable _ = true

turn_nodes :
    (k c : ℕ) (id kind_ : Text) (ps : List Part)
    → allb sendable ps ≡ true
    → allb (in_turn c) (nodes_at k (some c) (drafts id kind_ (bodies_of_parts ps))) ≡ true
unfolding shape_of
turn_nodes k c id kind_ [] h = refl
turn_nodes k c id kind_ (text_part t ∷ ps) h = ground (arith, turn_nodes (k + 1) c [] kind_ ps)
turn_nodes k c id kind_ (image_part m s d ∷ ps) h = cc
turn_nodes k c id kind_ (thinking_part t b i r ∷ ps) h =
    ground (arith, turn_nodes (k + 1) c [] kind_ ps)
turn_nodes k c id kind_ (redacted_thinking_part [] ∷ ps) h = cc
turn_nodes k c id kind_ (redacted_thinking_part (x ∷ d) ∷ ps) h =
    ground (arith, turn_nodes (k + 1) c [] kind_ ps)
turn_nodes k c id kind_ (tool_call_part i n a ∷ ps) h =
    ground (arith, turn_nodes (k + 1) c [] kind_ ps)

turn_parts :
    (k c : ℕ) (id kind_ : Text) (ps : List Part)
    → allb sendable ps ≡ true
    → parts_of (nodes_at k (some c) (drafts id kind_ (bodies_of_parts ps))) ≡ ps
unfolding parts_of
turn_parts k c id kind_ [] h = refl
turn_parts k c id kind_ (text_part t ∷ ps) h = ground (arith, turn_parts (k + 1) c [] kind_ ps)
turn_parts k c id kind_ (image_part m s d ∷ ps) h = cc
turn_parts k c id kind_ (thinking_part t b i r ∷ ps) h =
    ground (arith, turn_parts (k + 1) c [] kind_ ps)
turn_parts k c id kind_ (redacted_thinking_part [] ∷ ps) h = cc
turn_parts k c id kind_ (redacted_thinking_part (x ∷ d) ∷ ps) h =
    ground (arith, turn_parts (k + 1) c [] kind_ ps)
turn_parts k c id kind_ (tool_call_part i n a ∷ ps) h =
    ground (arith, turn_parts (k + 1) c [] kind_ ps)

turn_begun :
    (id kind_ : Text) (p : Part) (ps : List Part)
    → sendable p ≡ true
    → is_nil (drafts id kind_ (bodies_of_parts (p ∷ ps))) ≡ false
turn_begun id kind_ (text_part t) ps h = refl
turn_begun id kind_ (image_part m s d) ps h = cc
turn_begun id kind_ (thinking_part t b i r) ps h = refl
turn_begun id kind_ (redacted_thinking_part d) ps h = refl
turn_begun id kind_ (tool_call_part i n a) ps h = refl

abbrev pub answer_message : Text → List Part → Message
answer_message id ps = record (new_message assistant ps) { id = id }

flush_turn :
    (k c : ℕ) (id kind_ : Text) (p : Part) (ps : List Part)
    → allb sendable (p ∷ ps) ≡ true
    → flush (nodes_at k (some c) (drafts id kind_ (bodies_of_parts (p ∷ ps))))
      ≡ answer_message id (p ∷ ps) ∷ []
unfolding flush message_from_nodes new_message
flush_turn k c id kind_ p ps h = go p (ground arith) (turn_parts k c id kind_ (p ∷ ps) h)
  where
    go :
        (p : Part)
        → sendable p ≡ true
        → parts_of (nodes_at k (some c) (drafts id kind_ (bodies_of_parts (p ∷ ps)))) ≡ p ∷ ps
        → flush (nodes_at k (some c) (drafts id kind_ (bodies_of_parts (p ∷ ps))))
          ≡ answer_message id (p ∷ ps) ∷ []
    go (text_part t) f e = ap (λ l. answer_message id l ∷ []) e
    go (image_part m s d) f e = cc
    go (thinking_part t b i r) f e = ap (λ l. answer_message id l ∷ []) e
    go (redacted_thinking_part []) f e = cc
    go (redacted_thinking_part (x ∷ d)) f e = ap (λ l. answer_message id l ∷ []) e
    go (tool_call_part i n a) f e = ap (λ l. answer_message id l ∷ []) e

abbrev pub note_message : Text → Text → Text → Message
note_message id kind_ t = record (empty_message user) { id = id; kind_of_note = kind_; content = t }

-- A model turn goes in as one node for each part, and comes out as the one message that it was, after
-- all messages that stood before it; where keys and call records are handed out in order and its
-- parts, one at least, are no images, no empty texts, no redacted blocks without data and no calls with
-- blank arguments.
pub messages-append_flat_answer :
    (id : Text) (p : Part) (ps : List Part) (s : Session)
    → IsNumbered s
    → allb sendable (p ∷ ps) ≡ true
    → messages (append_flat (answer_message id (p ∷ ps)) s)
      ≡ messages s ++ answer_message id (p ∷ ps) ∷ []
unfolding append_flat new_message effective_parts messages
messages-append_flat_answer id p ps s v h =
    let ns : List Node =
      nodes_at s.next_key (some s.next_call) (drafts id [] (bodies_of_parts (p ∷ ps))) in
    messages-add_all (drafts id [] (bodies_of_parts (p ∷ ps))) (some s.next_call)
      (record s { next_call = s.next_call + 1 }) (turn_begun id [] p ps (ground arith)) v.window_lem
      (apart_new s.next_call s.path v.calls)
    ∙ ap (λ l. messages s ++ l)
        (path_messages_turn s.next_call ns [] refl
            (turn_nodes s.next_key s.next_call id [] (p ∷ ps) h)
          ∙ flush_turn s.next_key s.next_call id [] p ps h)

note_path :
    (k : ℕ) (id kind_ t : Text) (note : Bool)
    → path_messages [] (
        nodes_at k none (
          record {
            id = id;
            kind = kind_;
            body =
                let content = content_only (effective_parts (note_message id kind_ t)) in
                if note then system_body content else user_body content;
          }
          ∷ []))
      ≡ note_message id kind_ t ∷ []
unfolding path_messages shape_of flat_content effective_parts
note_path k id kind_ [] true = refl
note_path k id kind_ [] false = refl
note_path k id kind_ (c ∷ t) true = refl
note_path k id kind_ (c ∷ t) false = refl

-- A note of text with its kind and id comes out as it went in, after all that stood before it.
pub messages-append_flat_note :
    (id kind_ t : Text) (s : Session)
    → IsNumbered s
    → messages (append_flat (note_message id kind_ t) s)
      ≡ messages s ++ note_message id kind_ t ∷ []
unfolding append_flat
messages-append_flat_note id kind_ t s v =
    messages-add_all (nodes_from_message (note_message id kind_ t)) none s refl v.window_lem
      (apart-none s.path)
    ∙ ap (λ l. messages s ++ l) (note_path s.next_key id kind_ t _)

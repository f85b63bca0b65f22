-- ===== src/Session/Compacted.antt =====
-- `compact` of internal/loop/session.go and the request that follows it.
use agentic_loop.Prelude.{
  List, ℕ, refl, ◌≡◌, Text, allb, codes, ◌∷◌, ltb, ◌++◌, [], true, none, some, arith,
}
use agentic_loop.Message.{Message, user, empty_message}
use agentic_loop.Node.{Node, compaction_body, shape_of, handoff_prefix, flush}
use agentic_loop.Session.{Session, add, compact_session, messages, has_key, from_key}
use agentic_loop.Session.Appended.{IsNumbered}

newest :
    (k : ℕ) (p : List Node) (n : Node)
    → n.key ≡ k
    → allb (λ x. ltb x.key k) p ≡ true
    → (has_key (some k) (p ++ n ∷ []) ≡ true) × (from_key (some k) (p ++ n ∷ []) ≡ n ∷ [])
newest k [] n e h = ground arith
newest k (x ∷ p) n e h = ground (arith, newest k p n)

-- What a compaction puts on the wire: the summary, headed so that it is not read as a request.
abbrev pub handoff_message : Text → Text → Message
handoff_message summary id = record (empty_message user) {
  id = id;
  kind_of_note = codes "compaction";
  content = handoff_prefix ++ summary;
}

-- Where keys are handed out in order, the next request after a compaction carries one message, the
-- summary with its heading and the host's id, whatever stood before.
pub messages-compact_session :
    (summary id : Text) (s : Session)
    → IsNumbered s
    → messages (compact_session summary id s) ≡ handoff_message summary id ∷ []
unfolding messages compact_session add shape_of flush
messages-compact_session summary id s v =
    let n : Node =
      (add (record { id = id; kind = codes "compaction"; body = compaction_body summary }) none
        s).0 in
    rw ((newest s.next_key s.path n refl v.keys).0, (newest s.next_key s.path n refl v.keys).1)

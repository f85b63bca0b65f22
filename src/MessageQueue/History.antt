-- ===== src/MessageQueue/History.antt =====
-- The queue under any interleaving of producers, drains and closes: each call holds the lock, so an
-- interleaving is a sequence of whole calls.
use mathlib.Core.List.{Perm, perm_middle, map-append}
use mathlib.Core.List.Perm
use agentic_loop.Prelude.{
  ◌≡◌, refl, Bool, true, false, Option, none, some, List, [], ◌∷◌, ◌++◌, map, append-nil,
  append_assoc, Bool-cases, inl, inr, subst,
}
use agentic_loop.Message.{Message}
use agentic_loop.MessageQueue.{
  ConcurrentQueue, QueuedMessage, system_message, user_message, queued_message, MessageQueue,
  new_queue, queue, drain, close,
}
use agentic_loop.MessageQueue.Laws.{systems, users, Drains, drain_and_close}

pub data Call : Type 0 where
  queue_call : QueuedMessage → Call
  drain_call close_call : Call

module _ (c : ConcurrentQueue QueuedMessage) where
  -- The queue, what its producers were told that it took, and what its drains handed over.
  pub record History : Type 0 where
    pub now : Option (MessageQueue c)
    pub accepted : List Message
    pub delivered : List Message

  abbrev after_queue : QueuedMessage → History → Option (MessageQueue c) × Bool → History
  after_queue msg h (q, true) = record h {
    now = q;
    accepted = h.accepted ++ queued_message msg ∷ [];
  }
  after_queue msg h (q, false) = record h { now = q }

  abbrev after_drain : History → Option (List Message × Option (MessageQueue c)) → Option History
  after_drain h none = none
  after_drain h (some (msgs, q)) = some (record h { now = q; delivered = h.delivered ++ msgs })

  pub perform : Call → History → Option History
  perform (queue_call msg) h = some (after_queue msg h (queue c h.now msg))
  perform drain_call h = after_drain h (drain c h.now)
  perform close_call h = after_drain h (close c h.now)

  abbrev continue : Option History → (History → Option History) → Option History
  continue none k = none
  continue (some h) k = k h

  pub perform_all : List Call → History → Option History
  unfolding perform
  perform_all [] h = some h
  perform_all (x ∷ xs) h = continue (perform x h) (perform_all xs)

  abbrev pub start : History
  start = record { now = some (new_queue c); accepted = []; delivered = [] }

  abbrev pub waiting : Option (MessageQueue c) → List QueuedMessage
  waiting none = []
  waiting (some q) = c.contents q.items

  -- What the producers were told that the queue took is what was handed over and what still waits.
  pub record IsConserved (h : History) : Type 0 where
    pub exists : (q : MessageQueue c) × (h.now ≡ some q)
    pub balance : Perm (h.delivered ++ map queued_message (waiting h.now)) h.accepted

  drained_perm : (l : List QueuedMessage) → Perm (systems l ++ users l) (map queued_message l)
  unfolding queued_message
  drained_perm [] = Perm.refl []
  drained_perm (system_message m ∷ l) = Perm.cons m (drained_perm l)
  drained_perm (user_message m ∷ l) =
      Perm.trans (perm_middle (systems l) (users l)) (Perm.cons m (drained_perm l))

  after_drain-IsConserved :
      (h : History) (q : MessageQueue c) (closed : Bool)
      (r : Option (List Message × Option (MessageQueue c)))
      → Perm (h.delivered ++ map queued_message (c.contents q.items)) h.accepted
      → Drains c (c.contents q.items) closed r
      → (h' : History) × (after_drain h r ≡ some h') × IsConserved h'
  after_drain-IsConserved h q closed r balance (q', e, empty, _) = (
    record h {
      now = some q';
      delivered = h.delivered ++ (systems (c.contents q.items) ++ users (c.contents q.items));
    },
    rw e,
    record {
      exists = (q', refl);
      balance =
          rw (empty, append-nil)
            (Perm.trans (Perm.append_left h.delivered (drained_perm (c.contents q.items))) balance);
    },
  )

  after_queue-IsConserved :
      (h : History) (q : MessageQueue c) (msg : QueuedMessage)
      → Perm (h.delivered ++ map queued_message (c.contents q.items)) h.accepted
      → IsConserved (after_queue msg h (queue c (some q) msg))
  unfolding queue
  after_queue-IsConserved h q msg balance = elim (Bool-cases q.closed) [
    | inl closed ↦ rw closed (record { exists = (_, refl); balance = balance })
    | inr open_still ↦ rw open_still (record {
      exists = (_, refl);
      balance =
          rw (c.contents-enqueue, map-append, ← append_assoc)
            (Perm.append_right (queued_message msg ∷ []) balance);
    })
  ]

  balance_at :
      (h : History) (q : MessageQueue c)
      → h.now ≡ some q
      → IsConserved h
      → Perm (h.delivered ++ map queued_message (c.contents q.items)) h.accepted
  balance_at h q e k =
      subst (λ t. Perm (h.delivered ++ map queued_message (waiting t)) h.accepted) e k.balance

  perform-IsConserved :
      (x : Call) (h : History)
      → IsConserved h
      → (h' : History) × (perform x h ≡ some h') × IsConserved h'
  unfolding perform
  perform-IsConserved (queue_call msg) h k =
      let (q, e) = k.exists in
      (
        after_queue msg h (queue c h.now msg),
        refl,
        rw e (after_queue-IsConserved h q msg (balance_at h q e k)),
      )
  perform-IsConserved drain_call h k =
      let (q, e) = k.exists in
      rw e (
        after_drain-IsConserved h q q.closed (drain c (some q)) (balance_at h q e k)
          (drain_and_close c q).0)
  perform-IsConserved close_call h k =
      let (q, e) = k.exists in
      rw e (
        after_drain-IsConserved h q true (close c (some q)) (balance_at h q e k)
          (drain_and_close c q).1)

  perform_all-IsConserved :
      (xs : List Call) (h : History)
      → IsConserved h
      → (h' : History) × (perform_all xs h ≡ some h') × IsConserved h'
  unfolding perform_all
  perform_all-IsConserved [] h k = (h, refl, k)
  perform_all-IsConserved (x ∷ xs) h k =
      let (h1, e1, k1) = perform-IsConserved x h k in
      let (h2, e2, k2) = perform_all-IsConserved xs h1 k1 in (h2, rw e1 e2, k2)

  start-IsConserved : IsConserved start
  unfolding new_queue
  start-IsConserved = record { exists = (_, refl); balance = rw c.contents-new (Perm.refl []) }

  -- Whatever calls arrive, in any order, every one of them returns. Up to order the messages that
  -- the queue said it took are those handed over by the drains and closes and those that still
  -- wait: none is lost and none is handed over twice.
  pub perform_all_conserves :
      (xs : List Call)
      → (h : History) × (perform_all xs start ≡ some h)
        × Perm (h.delivered ++ map queued_message (waiting h.now)) h.accepted
  perform_all_conserves xs =
      let (h, e, k) = perform_all-IsConserved xs start start-IsConserved in (h, e, k.balance)

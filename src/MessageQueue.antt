-- ===== src/MessageQueue.antt =====
-- internal/loop/message_queue.go and queued_message.go: the queue that delivers messages into a
-- running loop. The container below it is a third-party package, and stands as an interface.
pub mod Laws
pub mod History
mod Examples
use agentic_loop.Prelude.{
  ℕ, zero, suc, ◌≡◌, Bool, true, false, not, Option, none, some, List, [], ◌∷◌, ◌++◌, length,
  is_nil, if◌then◌else◌,
}
use agentic_loop.Message.{Message}

-- `TryDequeue` answers with the oldest element, and refuses on the empty queue only.
pub data Dequeues {S A : Type 0} (contents : S → List A) (q : S) : Option (A × S) → Type 0 where
  dry : contents q ≡ [] → Dequeues contents q none
  took : (a : A) (rest : S) → contents q ≡ a ∷ contents rest → Dequeues contents q (some (a, rest))

-- What go-containers/concurrentqueue documents of its FIFO.
pub record ConcurrentQueue (A : Type 0) : Type 1 where
  pub State : Type 0
  pub contents : State → List A
  pub new : State
  pub enqueue : State → A → State
  pub try_dequeue : State → Option (A × State)
  pub is_empty : State → Bool
  pub len : State → ℕ
  pub contents-new : contents new ≡ []
  pub contents-enqueue : (q : State) (a : A) → contents (enqueue q a) ≡ contents q ++ a ∷ []
  pub try_dequeue-Dequeues : (q : State) → Dequeues contents q (try_dequeue q)
  pub is_empty-contents : (q : State) → is_empty q ≡ is_nil (contents q)
  pub len-contents : (q : State) → len q ≡ length (contents q)

-- The closed set of types that implement `QueuedMessage`.
pub data QueuedMessage : Type 0 where
  system_message user_message : Message → QueuedMessage

pub queued_message : QueuedMessage → Message
queued_message (system_message m) = m
queued_message (user_message m) = m

pub is_system_message : QueuedMessage → Bool
is_system_message (system_message m) = true
is_system_message (user_message m) = false

module _ (c : ConcurrentQueue QueuedMessage) where
  pub record MessageQueue : Type 0 where
    pub items : c.State
    pub closed : Bool

  -- The zero value.
  pub new_queue : MessageQueue
  new_queue = record { items = c.new; closed = false }

  -- The receiver may be a nil pointer, which is `none`.
  pub queue : Option MessageQueue → QueuedMessage → Option MessageQueue × Bool
  queue none msg = (none, false)
  queue (some q) msg =
      if q.closed
      then (some q, false)
      else (some (record q { items = c.enqueue q.items msg }), true)

  -- The take-loop of `drainLocked`, with fuel: `none` means that the fuel ran out.
  pub take_loop : ℕ → c.State → List Message → List Message → Option (List Message × c.State)
  unfolding queued_message is_system_message
  take_loop zero items sys user = none
  take_loop (suc fuel) items sys user = elim (c.try_dequeue items) [
    | none ↦ some (sys ++ user, items)
    | some (msg, rest) ↦ elim (is_system_message msg) [
      | true ↦ take_loop fuel rest (sys ++ queued_message msg ∷ []) user
      | false ↦ take_loop fuel rest sys (user ++ queued_message msg ∷ [])
    ]
  ]

  -- One round more than there are elements finds the queue empty.
  pub drain_locked : MessageQueue → Option (List Message × MessageQueue)
  unfolding take_loop
  drain_locked q =
      if c.is_empty q.items
      then some ([], q)
      else elim (take_loop (suc (c.len q.items)) q.items [] []) [
        | none ↦ none
        | some (msgs, rest) ↦ some (msgs, record q { items = rest })
      ]

  abbrev lift_drain :
      Option (List Message × MessageQueue) → Option (List Message × Option MessageQueue)
  lift_drain none = none
  lift_drain (some (msgs, q)) = some (msgs, some q)

  pub drain : Option MessageQueue → Option (List Message × Option MessageQueue)
  drain none = some ([], none)
  drain (some q) = lift_drain (drain_locked q)

  pub close : Option MessageQueue → Option (List Message × Option MessageQueue)
  close none = some ([], none)
  close (some q) = lift_drain (drain_locked (record q { closed = true }))

  pub is_closed : Option MessageQueue → Bool
  is_closed none = true
  is_closed (some q) = q.closed

  pub pending : Option MessageQueue → Bool
  pending none = false
  pending (some q) = not (c.is_empty q.items)

  pub len : Option MessageQueue → ℕ
  len none = 0
  len (some q) = c.len q.items

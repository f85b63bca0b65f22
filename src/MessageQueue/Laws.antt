-- ===== src/MessageQueue/Laws.antt =====
-- What one drain delivers, and what the queue does once it is closed.
use agentic_loop.Prelude.{
  ℕ, zero, suc, ◌<◌, ◌≡◌, refl, ap, Option, none, some, List, [], ◌∷◌, ◌++◌, append-nil,
  append_assoc, length, arith, Bool, true, Bool-cases, inl, inr,
}
use agentic_loop.Message.{Message}
use agentic_loop.MessageQueue.{
  ConcurrentQueue, Dequeues, dry, took, QueuedMessage, system_message, user_message, take_loop,
  drain_locked, drain, close, MessageQueue,
}

-- What the program promises of a drain: the system messages, then the user messages, each kind in
-- the order of its arrival.
abbrev pub systems : List QueuedMessage → List Message
systems [] = []
systems (system_message m ∷ l) = m ∷ systems l
systems (user_message m ∷ l) = systems l

abbrev pub users : List QueuedMessage → List Message
users [] = []
users (system_message m ∷ l) = users l
users (user_message m ∷ l) = m ∷ users l

module _ (c : ConcurrentQueue QueuedMessage) where
  -- A drain answers with `msgs` and leaves a queue that is empty, and closed as `closed` says.
  abbrev pub Drains :
      List QueuedMessage → Bool → Option (List Message × Option (MessageQueue c)) → Type 0
  Drains waiting closed r =
      (q : MessageQueue c) × (r ≡ some (systems waiting ++ users waiting, some q))
      × (c.contents q.items ≡ [])
      × (q.closed ≡ closed)

  abbrev Delivers : List Message → List Message → c.State → Option (List Message × c.State) → Type 0
  Delivers sys user items r =
      (rest : c.State) × (r
        ≡ some ((sys ++ systems (c.contents items)) ++ (user ++ users (c.contents items)), rest))
      × (c.contents rest ≡ [])

  take_loop-Delivers :
      (fuel : ℕ) (items : c.State) (sys user : List Message)
      → length (c.contents items) < fuel
      → Delivers sys user items (take_loop c fuel items sys user)
  unfolding take_loop
  take_loop-Delivers zero items sys user h = elim h [ ]
  take_loop-Delivers (suc fuel) items sys user h =
      go (c.try_dequeue items) (c.try_dequeue-Dequeues items) refl (take_loop-Delivers fuel)
    where
      go :
          (r : Option (QueuedMessage × c.State))
          → Dequeues c.contents items r
          → c.try_dequeue items ≡ r
          → ((rest : c.State) (s u : List Message)
              → length (c.contents rest) < fuel
              → Delivers s u rest (take_loop c fuel rest s u))
          → Delivers sys user items (take_loop c (suc fuel) items sys user)
      go none (dry e) r ih = (items, rw (r, take_loop, e) (simp append-nil), e)
      go (some (system_message m, rest)) (took a rest' e) r ih =
          let (left, done, empty) = ih rest (sys ++ m ∷ []) user (omega (arith, ap length e)) in
          (left, rw (r, take_loop, e) (simp (done, append_assoc)), empty)
      go (some (user_message m, rest)) (took a rest' e) r ih =
          let (left, done, empty) = ih rest sys (user ++ m ∷ []) (omega (arith, ap length e)) in
          (left, rw (r, take_loop, e) (simp (done, append_assoc)), empty)

  is_nil-eq-nil : (items : c.State) → c.is_empty items ≡ true → c.contents items ≡ []
  is_nil-eq-nil items h = ground (arith, c.is_empty-contents items)

  drain_locked-Drains :
      (q : MessageQueue c)
      → (q' : MessageQueue c) × (drain_locked c q
          ≡ some (systems (c.contents q.items) ++ users (c.contents q.items), q'))
        × (c.contents q'.items ≡ [])
        × (q'.closed ≡ q.closed)
  unfolding drain_locked
  drain_locked-Drains q = elim (Bool-cases (c.is_empty q.items)) [
    | inl none_waiting ↦
        let e = is_nil-eq-nil q.items none_waiting in (q, rw (none_waiting, e), e, refl)
    | inr some_waiting ↦
        let (rest, done, empty) =
          take_loop-Delivers (suc (c.len q.items)) q.items [] []
            (omega (arith, c.len-contents q.items)) in
        (record q { items = rest }, rw (some_waiting, done), empty, refl)
  ]

  -- `Drain` and `Close` always return. They hand over all that waits, the system messages first and
  -- each kind in the order of its arrival, and leave the queue empty. `Drain` leaves the queue open
  -- or closed as it was, and `Close` leaves it closed.
  pub drain_and_close :
      (q : MessageQueue c)
      → Drains (c.contents q.items) q.closed (drain c (some q))
        × Drains (c.contents q.items) true (close c (some q))
  unfolding drain close
  drain_and_close q =
      let (q1, e1, n1, c1) = drain_locked-Drains q in
      let (q2, e2, n2, c2) = drain_locked-Drains (record q { closed = true }) in
      ((q1, rw e1, n1, c1), (q2, rw e2, n2, c2))

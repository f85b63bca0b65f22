-- ===== src/MessageQueue/Examples.antt =====
-- The queue's interface met by lists, and its theorems at concrete calls.
use mathlib.Core.List.{Perm}
use agentic_loop.Prelude.{
  true, false, Option, none, some, List, [], ◌∷◌, ◌++◌, map, ◌≡◌, refl, length, is_nil,
}
use agentic_loop.Message.{Message, user, empty_message}
use agentic_loop.MessageQueue.{
  ConcurrentQueue, Dequeues, dry, took, QueuedMessage, system_message, user_message, queued_message,
  MessageQueue, drain, close,
}
use agentic_loop.MessageQueue.Laws.{Drains, drain_and_close}
use agentic_loop.MessageQueue.History.{
  Call, queue_call, drain_call, close_call, History, perform_all, start, waiting,
  perform_all_conserves,
}

abbrev uncons : List QueuedMessage → Option (QueuedMessage × List QueuedMessage)
uncons [] = none
uncons (m ∷ ms) = some (m, ms)

uncons-Dequeues : (ms : List QueuedMessage) → Dequeues (λ q. q) ms (uncons ms)
uncons-Dequeues [] = dry refl
uncons-Dequeues (m ∷ ms) = took m ms refl

abbrev list_queue : ConcurrentQueue QueuedMessage
list_queue = record {
  State = List QueuedMessage;
  contents = λ q. q;
  new = [];
  enqueue = λ q m. q ++ m ∷ [];
  try_dequeue = uncons;
  is_empty = is_nil;
  len = length;
  contents-new = refl;
  contents-enqueue = λ q m. refl;
  try_dequeue-Dequeues = uncons-Dequeues;
  is_empty-contents = λ q. refl;
  len-contents = λ q. refl;
}

abbrev note : Message
note = empty_message user

abbrev two_waiting : MessageQueue list_queue
two_waiting = record { items = user_message note ∷ system_message note ∷ []; closed = false }

drain_and_close_example :
    Drains list_queue (two_waiting.items) false (drain list_queue (some two_waiting))
    × Drains list_queue (two_waiting.items) true (close list_queue (some two_waiting))
drain_and_close_example = drain_and_close list_queue two_waiting

abbrev calls : List Call
calls =
    queue_call (user_message note) ∷ drain_call ∷ close_call ∷ queue_call (system_message note) ∷ []

perform_all_conserves_example :
    (h : History list_queue) × (perform_all list_queue calls (start list_queue) ≡ some h)
    × Perm (h.delivered ++ map queued_message (waiting list_queue h.now)) h.accepted
perform_all_conserves_example = perform_all_conserves list_queue calls

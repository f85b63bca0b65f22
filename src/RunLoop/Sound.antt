-- ===== src/RunLoop/Sound.antt =====
-- What is kept through the steps of run_loop.go: predicates on the loop, on a stage and on a step, and a
-- module for each part of a turn.
pub mod Between
pub mod Window
pub mod Batch
pub mod Tools
pub mod Ends
pub mod Turns
pub mod Whole
use agentic_loop.Prelude.{
  List, ℕ, Option, ◌≡◌, none, some, All, [], false, Bool, if◌then◌else◌, true,
}
use agentic_loop.Message.{Message}
use agentic_loop.Session.{Session, CallNode}
use agentic_loop.Session.Held.{Held}
use agentic_loop.Session.Settling.{Callless}
use agentic_loop.RunLoop.{
  Config, Loop, Step, next_turn, same_turn, ended, Stage, going, halted, QueuePort, InboxPort,
}
use agentic_loop.RunLoop.Turn.{retried_here}

module _ {W : Type 0} where
  abbrev pub QueueBrings : Option (QueuePort W) → Type 0
  QueueBrings none = Unit
  QueueBrings (some q) = (w : W) → All Callless (q.drain w).0

  abbrev pub InboxBrings : Option (InboxPort W) → Type 0
  InboxBrings none = Unit
  InboxBrings (some i) = (w : W) (m : Message) → (i.receive w).0 ≡ some m → Callless m

  -- No message that a host queues or puts into the inbox carries a tool call of its own.
  abbrev pub HostCallless : Config W → Type 0
  HostCallless cfg = QueueBrings cfg.messages × InboxBrings cfg.inbox

module _ {W : Type 0} (start : Session) (o : Option ℕ) where
  abbrev pub Kept : Option ℕ → List CallNode → Loop W → Type 0
  Kept rec_ calls r = Held start rec_ calls r.session × (r.overflow_turn ≡ o)

  abbrev pub KeptStage : Stage W → Type 0
  KeptStage (going r) = Kept none [] r
  KeptStage (halted r final e) = Held start none [] r.session

  -- After a turn that began with `o` as the turn that was retried last.
  abbrev pub KeptStep : ℕ → Step W → Type 0
  KeptStep turn (next_turn r) = Kept none [] r
  KeptStep turn (same_turn r) =
      Held start none [] r.session × (r.overflow_turn ≡ some turn) × (retried_here turn o ≡ false)
  KeptStep turn (ended r final e) = Held start none [] r.session

  pub if_kept :
      (turn : ℕ) (b : Bool) (x y : Step W)
      → KeptStep turn x
      → KeptStep turn y
      → KeptStep turn (if b then x else y)
  if_kept turn true x y h g = h
  if_kept turn false x y h g = g

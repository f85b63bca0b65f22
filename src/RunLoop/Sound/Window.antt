-- ===== src/RunLoop/Sound/Window.antt =====
-- The conversation through the question about the model that was served (internal/loop/contextwindow.go).
use agentic_loop.Prelude.{List, ℕ, Option, Text, some, none}
use agentic_loop.Session.{Session, CallNode}
use agentic_loop.ContextWindow.Served as Served
use agentic_loop.ContextWindow.{Outcome}
use agentic_loop.RunLoop.{Config, Loop, Completion}
use agentic_loop.RunLoop.Compacting.{served_window, use_window, served_by}
use agentic_loop.RunLoop.Sound.{Kept}

module _ {W : Type 0} (cfg : Config W) (start : Session) (o : Option ℕ) where
  use_window-Kept :
      (rec_ : Option ℕ) (calls : List CallNode)
      (out : Served.Settings cfg.host.ask_limits × Text × W) (r : Loop W)
      → Kept start o rec_ calls r
      → Kept start o rec_ calls (use_window cfg out r).1
  use_window-Kept rec_ calls (Outcome.refused e, asked, w) r k = k
  use_window-Kept rec_ calls (Outcome.ok (win, none), asked, w) r k = k
  use_window-Kept rec_ calls (Outcome.ok (win, some (Served.settled ev)), asked, w) r k = k
  use_window-Kept rec_ calls (Outcome.ok (win, some (Served.nothing_known n es)), asked, w) r k = k

  pub served-Kept :
      (rec_ : Option ℕ) (calls : List CallNode) (comp : Option Completion) (r : Loop W)
      → Kept start o rec_ calls r
      → Kept start o rec_ calls (served_window cfg comp r).1
  unfolding served_window
  served-Kept rec_ calls comp r k =
      use_window-Kept rec_ calls
        (Served.resolve_served_window cfg.host.ask_limits r.window cfg.armed cfg.model
          (served_by cfg comp) r.served_asked r.world)
        r k

-- ===== src/Errors/Examples.antt =====
-- A cancelled context inside a callback's error, and a failed status inside another.
use agentic_loop.Prelude.{some, [], codes, false, ◌≡◌, ◌≢◌, none, inr}
use agentic_loop.Errors.{
  api, deadline_exceeded, error_kind, canceled_kind, callback, wrapped, is_transient,
  wrap_callback_err, as_api,
}
use agentic_loop.Errors.Classes.{bare, in_callback, in_text, ended_permanent, callback_permanent}

ended_permanent_example :
    (is_transient (some (wrapped (codes "run") (callback deadline_exceeded))) ≡ false)
    × (error_kind (some (wrapped (codes "run") (callback deadline_exceeded))) ≡ canceled_kind)
ended_permanent_example =
    ended_permanent (wrapped (codes "run") (callback deadline_exceeded))
      (inr (in_text (codes "run") (in_callback bare)))

callback_permanent_example :
    (as_api (api 503 [] false) ≡ none
      → is_transient (wrap_callback_err (some (api 503 [] false))) ≡ false)
    × (as_api (api 503 [] false) ≢ none
        → is_transient (wrap_callback_err (some (api 503 [] false)))
          ≡ is_transient (some (api 503 [] false)))
callback_permanent_example = callback_permanent (api 503 [] false)

-- ===== src/Errors/Classes.antt =====
-- What the two classifications say of one another, however an error is wrapped.
use agentic_loop.Prelude.{Text, ◌≡◌, some, true, false, ◌≢◌, arith, none, ◌⊎◌, refl, inl, inr}
use agentic_loop.Errors.{
  Error, callback, wrapped, is_transient, error_kind, no_error, request_kind, canceled_kind,
  wrap_callback_err, is_ended, as_api, canceled, deadline_exceeded, is_unsupported_in,
  is_context_overflow, is_unsupported,
}

-- Any layers of `%w` and of callbackError around an error.
pub data Wraps (e : Error) : Error → Type 0 where
  bare : Wraps e e
  in_callback : {o : Error} → Wraps e o → Wraps e (callback o)
  in_text : {o : Error} (t : Text) → Wraps e o → Wraps e (wrapped t o)

Wraps-ended : (e o : Error) → Wraps e o → is_ended e ≡ true → is_ended o ≡ true
Wraps-ended e o bare h = h
Wraps-ended e (callback o) (in_callback w) h = Wraps-ended e o w h
Wraps-ended e (wrapped t o) (in_text _ w) h = Wraps-ended e o w h

Wraps-canceled_kind :
    (e o : Error)
    → Wraps e o
    → as_api e ≡ none
    → is_unsupported_in e ≡ false
    → (as_api o ≡ none) × (is_unsupported_in o ≡ false)
Wraps-canceled_kind e o bare h g = (h, g)
Wraps-canceled_kind e (callback o) (in_callback w) h g = Wraps-canceled_kind e o w h g
Wraps-canceled_kind e (wrapped t o) (in_text _ w) h g = Wraps-canceled_kind e o w h g

ended_of :
    (e o : Error)
    → is_ended e ≡ true
    → as_api e ≡ none
    → is_unsupported_in e ≡ false
    → Wraps e o
    → (is_transient (some o) ≡ false) × (error_kind (some o) ≡ canceled_kind)
unfolding is_transient error_kind is_context_overflow is_unsupported
ended_of e o h a u w =
    let (api_, unsupported_) = Wraps-canceled_kind e o w a u in
    rw (Wraps-ended e o w h, api_, unsupported_) (refl, refl)

-- A context that was cancelled or whose deadline has passed is never transient, whatever layers wrap
-- it, and its kind is that of a cancellation.
pub ended_permanent :
    (o : Error)
    → Wraps canceled o ⊎ Wraps deadline_exceeded o
    → (is_transient (some o) ≡ false) × (error_kind (some o) ≡ canceled_kind)
ended_permanent o (inl w) = ended_of canceled o refl refl refl w
ended_permanent o (inr w) = ended_of deadline_exceeded o refl refl refl w

-- A transient failure is never reported as a refused request, as an ended context or as no failure.
pub transient_kinds :
    (e : Error)
    → is_transient (some e) ≡ true
    → (error_kind (some e) ≢ request_kind)
      × (error_kind (some e) ≢ canceled_kind)
      × (error_kind (some e) ≢ no_error)
unfolding is_transient error_kind
transient_kinds e h = ground arith

-- Once marked as a callback's, an error with no API error in its chain is not transient, and one
-- with an API error is transient exactly when it was before.
pub callback_permanent :
    (e : Error)
    → (as_api e ≡ none → is_transient (wrap_callback_err (some e)) ≡ false)
      × (as_api e ≢ none → is_transient (wrap_callback_err (some e)) ≡ is_transient (some e))
unfolding is_transient wrap_callback_err
callback_permanent e = (λ h. ground arith, λ h. ground arith)

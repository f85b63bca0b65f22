-- ===== src/Errors.antt =====
-- core/errors.go and core/errorkind.go: the errors of the library and how a caller classifies them.
-- An error is a chain: `errors.As` and `errors.Is` walk it from the outside in.
pub mod Classes
mod Examples
use agentic_loop.Prelude.{
  ℕ, Text, Bool, Option, some, true, false, ◌==◌, none, ◌||◌, not, if◌then◌else◌, leb, ◌&&◌,
}

pub data Error : Type 0 where
  -- An APIError: its status, its body, and whether the body names a context overflow.
  api : ℕ → Text → Bool → Error
  request : Text → Error
  unsupported : Text → Error
  canceled deadline_exceeded : Error
  plain : Text → Error
  -- A callbackError, and an error that fmt.Errorf wraps by %w.
  callback : Error → Error
  wrapped : Text → Error → Error

pub record ApiError : Type 0 where
  pub status : ℕ
  pub body : Text
  pub context_overflow : Bool

-- errors.As for the first APIError of the chain.
abbrev pub as_api : Error → Option ApiError
as_api (api s b o) = some (record { status = s; body = b; context_overflow = o })
as_api (callback e) = as_api e
as_api (wrapped t e) = as_api e
as_api _ = none

-- errors.Is for one of the two ends of a context.
abbrev pub is_ended : Error → Bool
is_ended canceled = true
is_ended deadline_exceeded = true
is_ended (callback e) = is_ended e
is_ended (wrapped t e) = is_ended e
is_ended _ = false

abbrev pub is_request : Error → Bool
is_request (request t) = true
is_request (callback e) = is_request e
is_request (wrapped t e) = is_request e
is_request _ = false

abbrev pub is_callback : Error → Bool
is_callback (callback e) = true
is_callback (wrapped t e) = is_callback e
is_callback _ = false

abbrev pub is_unsupported_in : Error → Bool
is_unsupported_in (unsupported t) = true
is_unsupported_in (callback e) = is_unsupported_in e
is_unsupported_in (wrapped t e) = is_unsupported_in e
is_unsupported_in _ = false

abbrev overflow_of : Option ApiError → Bool
overflow_of none = false
overflow_of (some a) = a.context_overflow

unfoldable pub is_context_overflow : Option Error → Bool
is_context_overflow none = false
is_context_overflow (some e) = overflow_of (as_api e)

abbrev pub retried_status : ℕ → Bool
retried_status s = s == 408 || s == 429 || leb 500 s

abbrev classify : Error → Option ApiError → Bool
classify e (some a) = retried_status a.status
classify e none = not (is_request e) && not (is_callback e)

unfoldable pub is_transient : Option Error → Bool
is_transient none = false
is_transient (some e) = if is_ended e then false else classify e (as_api e)

unfoldable pub wrap_callback_err : Option Error → Option Error
wrap_callback_err none = none
wrap_callback_err (some e) = if is_callback e then some e else some (callback e)

unfoldable pub is_unsupported : Option Error → Bool
is_unsupported none = false
is_unsupported (some e) = is_unsupported_in e

pub is_bad_request : Option Error → Bool
is_bad_request none = false
is_bad_request (some e) = is_request e

-- The kinds, and the empty kind of no error.
pub data ErrorKind : Type 0 where
  no_error api_kind overflow request_kind canceled_kind unsupported_kind transport : ErrorKind

abbrev kind_of_rest : Error → Option ApiError → ErrorKind
kind_of_rest e (some a) = api_kind
kind_of_rest e none = if is_request e then request_kind else transport

unfoldable pub error_kind : Option Error → ErrorKind
unfolding is_context_overflow is_unsupported
error_kind none = no_error
error_kind (some e) =
    if is_context_overflow (some e)
    then overflow
    else if is_unsupported (some e)
    then unsupported_kind
    else if is_ended e
    then canceled_kind
    else kind_of_rest e (as_api e)

-- ===== src/ParamStrip.antt =====
-- core/paramstrip.go: a refused parameter is removed and the call is sent once more. `V` is a
-- parameter's value and `W` the state of everything outside. Parameters: `to_lower` of the strings
-- package, and `refused_name`, which finds a refused name in an error with regular expressions.
pub mod Recovery
mod Examples
use agentic_loop.Prelude.{
  Bool, Text, List, true, ◌∷◌, anyb, if◌then◌else◌, Option, false, ◌==◌, text_eq, is_nil, none,
  some, [], ◌||◌,
}
use agentic_loop.Prelude.Dict.{Dict, lookup, remove}
use agentic_loop.Errors.{Error, canceled, callback, wrapped}

-- errors.Is for the cancellation of a context.
abbrev pub is_canceled : Error → Bool
is_canceled canceled = true
is_canceled (callback e) = is_canceled e
is_canceled (wrapped t e) = is_canceled e
is_canceled _ = false

abbrev without_underscores : Text → Text
without_underscores [] = []
without_underscores (c ∷ s) =
    let rest = without_underscores s in if c == b'_' then rest else c ∷ rest

-- The normal names of the parameters that were refused, as a set that is only tested.
abbrev pub Stripped : Type 0
Stripped = List Text

abbrev pub contains : Text → Stripped → Bool
contains k ks = anyb (text_eq k) ks

module _ (to_lower : Text → Text) where
  pub normalize_param_name : Text → Text
  normalize_param_name name = without_underscores (to_lower name)

  module _ {V : Type 0} where
    abbrev keep_allowed : Stripped → Dict V → Dict V
    unfolding normalize_param_name
    keep_allowed stripped [] = []
    keep_allowed stripped ((k, v) ∷ extra) =
        let rest = keep_allowed stripped extra in
        if contains (normalize_param_name k) stripped then rest else (k, v) ∷ rest

    -- Where nothing is to be removed, the source gives the map itself, which is equal.
    pub without_stripped : Stripped → Dict V → Dict V
    unfolding keep_allowed
    without_stripped stripped extra =
        if is_nil stripped || is_nil extra then extra else keep_allowed stripped extra

    -- A map has no order, so any key that matches may be taken: here the first.
    pub first_match : Text → Dict V → Option Text
    unfolding normalize_param_name
    first_match target [] = none
    first_match target ((k, v) ∷ extra) =
        if text_eq (normalize_param_name k) target then some k else first_match target extra

    module _ (refused_name : Error → Option Text) where
      abbrev pub match_name : Dict V → Option Text → Option Text
      unfolding first_match normalize_param_name
      match_name extra none = none
      match_name extra (some name) = first_match (normalize_param_name name) extra

      pub match_rejected_key : Dict V → Error → Option Text
      unfolding match_name
      match_rejected_key extra e = match_name extra (refused_name e)

      module _ {W C : Type 0} (send : Dict V → W → (Option C × Option Error) × W)
          (announce : Error → W → W) where
        abbrev Sent : Type 0
        Sent = (Option C × Option Error) × W × Stripped

        abbrev pub resend : Stripped → Dict V → Error → W → Option Text → Sent
        unfolding normalize_param_name
        resend stripped extra e w none = ((none, some e), w, stripped)
        resend stripped extra e w (some key) =
            let (answer, w') = send (remove key extra) (announce e w) in
            (answer, w', normalize_param_name key ∷ stripped)

        abbrev pub after_send : Stripped → Dict V → (Option C × Option Error) × W → Sent
        unfolding match_rejected_key resend
        after_send stripped extra ((none, some e), w) =
            if is_canceled e
            then ((none, some e), w, stripped)
            else resend stripped extra e w (match_rejected_key extra e)
        after_send stripped extra ((some c, err), w) = ((some c, err), w, stripped)
        after_send stripped extra ((none, none), w) = ((none, none), w, stripped)

        pub do_call : Stripped → Dict V → W → Sent
        unfolding without_stripped after_send
        do_call stripped extra w =
            let allowed = without_stripped stripped extra in
            after_send stripped allowed (send allowed w)

-- ===== src/ParamStrip/Recovery.antt =====
-- Which requests the stripper of core/paramstrip.go sends. The world is the list of the requests sent so
-- far, and the provider's answer may depend on all of them.
use agentic_loop.Prelude.{
  none, some, [], ◌∷◌, ◌≡◌, arith, if◌then◌else◌, text_eq_iff, Text, refl, filterb, Bool, ◌≢◌, not,
  anyb, ◌==◌, text_eq, Option, List, ◌++◌, false, ◌||◌, subst, true, sym, ◌∙◌, Bool-cases, inl, inr,
}
use agentic_loop.Prelude.Dict.{Dict, lookup, remove, lookup-remove}
use agentic_loop.Errors.{Error}
use agentic_loop.ParamStrip.{
  Stripped, normalize_param_name, without_stripped, keep_allowed, first_match, without_underscores,
  is_canceled, match_name, resend, after_send, do_call,
}

module _ (to_lower : Text → Text) where
  -- A name without case and without underscores.
  abbrev pub letters : Text → Text
  letters name = filterb (λ c. not (c == 0x5f)) (to_lower name)

  -- A parameter whose name was refused, in this or another spelling.
  abbrev pub forbidden : Stripped → Text → Bool
  forbidden stripped k = anyb (text_eq (letters k)) stripped

  underscores_lem : (t : Text) → without_underscores t ≡ filterb (λ c. not (c == 0x5f)) t
  underscores_lem [] = refl
  underscores_lem (c ∷ t) = ground (arith, underscores_lem t)

  normalize_lem : (name : Text) → normalize_param_name to_lower name ≡ letters name
  unfolding normalize_param_name
  normalize_lem name = underscores_lem (to_lower name)

  module _ {V : Type 0} where
    -- What is sent of the parameters `extra`: all but the forbidden ones.
    abbrev pub Allowed : Stripped → Dict V → Dict V → Type 0
    Allowed stripped extra first =
        (k : Text) → lookup k first ≡ (if forbidden stripped k then none else lookup k extra)

    keep_allowed-Allowed :
        (stripped : Stripped) (extra : Dict V)
        → Allowed stripped extra (keep_allowed to_lower stripped extra)
    unfolding keep_allowed lookup
    keep_allowed-Allowed stripped [] k = ground arith
    keep_allowed-Allowed stripped ((j, v) ∷ extra) k =
        ground (arith, keep_allowed-Allowed stripped extra k, text_eq_iff j k, normalize_lem j)

    without_stripped-Allowed :
        (stripped : Stripped) (extra : Dict V)
        → Allowed stripped extra (without_stripped to_lower stripped extra)
    unfolding without_stripped lookup
    without_stripped-Allowed [] extra k = refl
    without_stripped-Allowed (n ∷ stripped) [] k = ground arith
    without_stripped-Allowed (n ∷ stripped) ((j, v) ∷ extra) k =
        keep_allowed-Allowed (n ∷ stripped) ((j, v) ∷ extra) k

    first_match-some :
        (target : Text) (extra : Dict V) (key : Text)
        → first_match to_lower target extra ≡ some key
        → (letters key ≡ target) × (lookup key extra ≢ none)
    unfolding first_match lookup
    first_match-some target [] key e = cc
    first_match-some target ((k, v) ∷ extra) key e = ground (
      arith,
      first_match-some target extra key,
      normalize_lem k,
      text_eq_iff (normalize_param_name to_lower k) target,
      text_eq_iff k key,
    )

    first_match-none :
        (target : Text) (extra : Dict V) (k : Text)
        → first_match to_lower target extra ≡ none
        → letters k ≡ target
        → lookup k extra ≡ none
    unfolding first_match lookup
    first_match-none target [] k e same = refl
    first_match-none target ((j, v) ∷ extra) k e same = ground (
      arith,
      first_match-none target extra k,
      normalize_lem j,
      text_eq_iff (normalize_param_name to_lower j) target,
      text_eq_iff j k,
    )

    module _ {C : Type 0} (refused_name : Error → Option Text)
        (answer : List (Dict V) → Option C × Option Error) where
      abbrev send : Dict V → List (Dict V) → (Option C × Option Error) × List (Dict V)
      send extra log = (answer (log ++ extra ∷ []), log ++ extra ∷ [])

      abbrev announce : Error → List (Dict V) → List (Dict V)
      announce e log = log

      -- The answer refuses a parameter under this name, after nothing was streamed.
      abbrev pub Refuses : Option C × Option Error → Error → Text → Type 0
      Refuses a e name =
          (a ≡ (none, some e)) × (is_canceled e ≡ false) × (refused_name e ≡ some name)

      -- What a call sent, what it answered, and what is forbidden after it.
      pub data Recovered (stripped : Stripped) (extra : Dict V) (log : List (Dict V))
          : (Option C × Option Error) × List (Dict V) × Stripped → Type 0 where
        sent_once :
            (first : Dict V)
            → Allowed stripped extra first
            → ((e : Error) (name k : Text)
                → Refuses (answer (log ++ first ∷ [])) e name
                → letters k ≡ letters name
                → lookup k first ≡ none)
            → Recovered stripped extra log (answer (log ++ first ∷ []), log ++ first ∷ [], stripped)
        sent_twice :
            (first second : Dict V) (stripped' : Stripped) (e : Error) (name key : Text)
            → Allowed stripped extra first
            → Refuses (answer (log ++ first ∷ [])) e name
            → letters key ≡ letters name
            → lookup key first ≢ none
            → ((k : Text) → lookup k second ≡ (if text_eq key k then none else lookup k first))
            → ((k : Text)
                → forbidden stripped' k
                  ≡ (text_eq (letters k) (letters name) || forbidden stripped k))
            → Recovered stripped extra log (
              answer ((log ++ first ∷ []) ++ second ∷ []),
              (log ++ first ∷ []) ++ second ∷ [],
              stripped',
            )

      -- A call sends the parameters that are not forbidden. Where the answer then refuses, by a name
      -- in any spelling, a parameter that was sent, and nothing was streamed or cancelled, it sends
      -- once more without that parameter, and every spelling of the name is forbidden to later calls;
      -- else it sends nothing more and forbids nothing more.
      pub do_call-Recovered :
          (stripped : Stripped) (extra : Dict V) (log : List (Dict V))
          → Recovered stripped extra log
              (do_call to_lower refused_name send announce stripped extra log)
      unfolding do_call first_match normalize_param_name
      do_call-Recovered stripped extra log =
          let first = without_stripped to_lower stripped extra in
          go first (without_stripped-Allowed stripped extra) (answer (log ++ first ∷ [])) refl
        where
          matched :
              (first : Dict V) (e : Error)
              → Allowed stripped extra first
              → answer (log ++ first ∷ []) ≡ (none, some e)
              → is_canceled e ≡ false
              → (name : Option Text) → refused_name e ≡ name
              → (key : Option Text) → match_name to_lower refused_name first name ≡ key
              → Recovered stripped extra log (
                  resend to_lower refused_name send announce stripped first e
                    (log ++ first ∷ [])
                    key)
          matched first e allowed a c none is none m =
              subst (λ x. Recovered stripped extra log (x, log ++ first ∷ [], stripped)) a
                (sent_once first allowed (λ d name k r same. cc (r.0, r.2, a, is)))
          matched first e allowed a c none is (some key) m = cc
          matched first e allowed a c (some name) is none m =
              subst (λ x. Recovered stripped extra log (x, log ++ first ∷ [], stripped)) a
                (sent_once first allowed (λ d other k r same. none_sent d other k r same))
            where
              none_sent :
                  (d : Error) (other k : Text)
                  → Refuses (answer (log ++ first ∷ [])) d other
                  → letters k ≡ letters other
                  → lookup k first ≡ none
              none_sent d other k r same =
                  let errors : d ≡ e = cc (r.0, a) in
                  let names : other ≡ name = cc (errors, r.2, is) in
                  first_match-none (normalize_param_name to_lower name) first k m
                    (cc (same, names, normalize_lem name))
          matched first e allowed a c (some name) is (some key) m =
              let found = first_match-some (normalize_param_name to_lower name) first key m in
              let spelled : letters key ≡ letters name = cc (found.0, normalize_lem name) in
              sent_twice first (remove key first) (normalize_param_name to_lower key ∷ stripped) e
                name key allowed (a, c, is) spelled found.1 (λ k. lookup-remove key k first)
                (λ k. rw (normalize_lem key, spelled) refl)

          once :
              (first : Dict V)
              → Allowed stripped extra first
              → (a : Option C × Option Error) → answer (log ++ first ∷ []) ≡ a
              → ((d : Error) → a ≡ (none, some d) → is_canceled d ≡ true)
              → Recovered stripped extra log (a, log ++ first ∷ [], stripped)
          once first allowed a is ends =
              subst (λ x. Recovered stripped extra log (x, log ++ first ∷ [], stripped)) is
                (sent_once first allowed (λ d name k r same. cc (ends d (sym is ∙ r.0), r.1)))

          go :
              (first : Dict V)
              → Allowed stripped extra first
              → (a : Option C × Option Error) → answer (log ++ first ∷ []) ≡ a
              → Recovered stripped extra log (
                  after_send to_lower refused_name send announce stripped first
                    (a, log ++ first ∷ []))
          go first allowed (none, some e) is = elim (Bool-cases (is_canceled e)) [
            | inl over ↦ rw over (once first allowed (none, some e) is (λ d same. cc (same, over)))
            | inr goes_on ↦ rw goes_on (
                matched first e allowed is goes_on (refused_name e) refl
                  (match_name to_lower refused_name first (refused_name e)) refl)
          ]
          go first allowed (some c, err) is = once first allowed (some c, err) is (λ d same. cc)
          go first allowed (none, none) is = once first allowed (none, none) is (λ d same. cc)

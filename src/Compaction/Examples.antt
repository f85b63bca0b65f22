-- ===== src/Compaction/Examples.antt =====
-- A provider with a small window, and one that takes a single message only.
use agentic_loop.Prelude.{
  ℕ, List, [], codes, ◌+◌, ◌∷◌, arith, ◌≡◌, true, none, refl, trim_space, if◌then◌else◌, leb,
  length, ◌≤◌, length-append, ◌≢◌, some, suc, subst, take, ◌++◌, zero, drop,
}
use agentic_loop.Message.{Message, user, assistant, empty_message}
use agentic_loop.Errors.{Error, api, is_context_overflow}
use agentic_loop.Compaction.{
  Completion, Result, ok, failed, compact, compact_to_fit, split_point, Error, compact_request,
  CompactResult, split_from, summary_message,
}
use agentic_loop.Compaction.Split.{IsSplit, split_point-IsSplit}
use agentic_loop.Compaction.Returns.{
  Meets, itself, in_older, in_rest, CutsBehind, Returned, compact_to_fit-Returned, Meets, in_older,
  in_rest, CutsBehind,
}
use agentic_loop.Compaction.Stall.{TakesOne, no_user, compact_to_fit_stalls}

abbrev summary : Completion ℕ
summary = record { message = record (empty_message assistant) { content = codes "sum" }; usage = 3 }

-- The request has the summary instruction as its last message.
abbrev takes_one : List Message → ℕ → Result (Completion ℕ) × ℕ
takes_one (a ∷ b ∷ []) w = (ok summary, w + 1)
takes_one _ w = (failed (api 400 [] true), w + 1)

abbrev asked : Message
asked = empty_message user

abbrev answered : Message
answered = empty_message assistant

abbrev talk : List Message
talk = asked ∷ asked ∷ answered ∷ []

split_point-IsSplit_example : IsSplit talk (split_point talk)
split_point-IsSplit_example = split_point-IsSplit talk

-- A provider whose window holds three messages and the summary instruction.
abbrev windowed : List Message → ℕ → Result (Completion ℕ) × ℕ
windowed msgs w =
    if leb (length msgs) 4 then (ok summary, w + 1) else (failed (api 400 [] true), w + 1)

abbrev long_talk : List Message
long_talk = asked ∷ answered ∷ asked ∷ answered ∷ []

short_taken :
    (msgs : List Message) (w : ℕ)
    → length msgs ≤ 3
    → (cr : CompactResult ℕ) × ((compact windowed msgs w ≡ (ok cr, w + 1))
        × (length cr.messages ≡ 1))
unfolding compact compact_request trim_space
short_taken [] w h = (_, (refl, refl))
short_taken (a ∷ []) w h = (_, (refl, refl))
short_taken (a ∷ b ∷ []) w h = (_, (refl, refl))
short_taken (a ∷ b ∷ c ∷ []) w h = (_, (refl, refl))
short_taken (a ∷ b ∷ c ∷ d ∷ ms) w h = absurd (omega (arith, h))

short_fits :
    (msgs : List Message) (w w' : ℕ) (e : Error)
    → length msgs ≤ 3
    → compact windowed msgs w ≢ (failed e, w')
short_fits msgs w w' e h asks = let (cr, (taken, one)) = short_taken msgs w h in cc (taken, asks)

-- Nothing that is met from a short conversation is found too long.
short_met :
    (msgs m : List Message) (w v v' : ℕ) (e : Error)
    → length msgs ≤ 3
    → Meets windowed msgs w m v
    → compact windowed m v ≢ (failed e, v')
short_met msgs m w v v' e h itself asks = short_fits msgs w v' e h asks
short_met msgs m w v v' e h (in_older over k) asks = short_fits msgs w _ _ h over
short_met msgs m w v v' e h (in_rest fuel us vs cr over got k) asks = short_fits msgs w _ _ h over

short_summary :
    (fuel : ℕ) (msgs : List Message) (us vs : List ℕ) (w w' : ℕ) (cr : CompactResult ℕ)
    → length msgs ≤ 3
    → compact_to_fit windowed fuel msgs us w ≡ some (ok cr, vs, w')
    → length cr.messages ≡ 1
unfolding compact_to_fit
short_summary zero msgs us vs w w' cr h e = cc
short_summary (suc fuel) msgs us vs w w' cr h e =
    let (made, (taken, one)) = short_taken msgs w h in
    let same : made ≡ cr = cc (rw taken at e) in
    subst (λ (c : CompactResult ℕ). length c.messages ≡ 1) same one

long_talk-CutsBehind : CutsBehind windowed long_talk 0
unfolding split_point split_from
long_talk-CutsBehind m v v' e itself asks long = λ (one : 2 ≡ 1). omega (arith, one)
long_talk-CutsBehind m v v' e (in_older over k) asks long =
    absurd (short_met _ m _ v v' e (omega arith) k asks)
long_talk-CutsBehind m v v' e (in_rest fuel us vs cr over got k) asks long =
    let one : length cr.messages ≡ 1 =
      short_summary fuel (take 2 long_talk) us vs _ _ cr (omega arith) got in
    absurd (
      short_met (cr.messages ++ drop 2 long_talk) m _ v v' e
        (omega (arith, one, length-append cr.messages (drop 2 long_talk))) k asks)

compact_to_fit-Returned_example : Returned windowed (compact_to_fit windowed 5 long_talk [] 0)
compact_to_fit-Returned_example =
    compact_to_fit-Returned windowed 5 long_talk [] 0 (omega arith) long_talk-CutsBehind

-- The older half is summarized, and then the summary with the newer half.
split_once :
    compact_to_fit windowed 5 long_talk [] 0
    ≡ some (
      ok (record {
        summary = codes "sum";
        messages = summary_message (codes "sum") ∷ [];
        completion = summary;
      }),
      3 ∷ 3 ∷ [],
      3,
    )
unfolding compact_to_fit compact compact_request trim_space split_point split_from
    is_context_overflow
split_once = refl

too_long :
    (m n : Message) (ms : List Message) (w : ℕ)
    → compact takes_one (m ∷ n ∷ ms) w ≡ (failed (api 400 [] true), w + 1)
unfolding compact
too_long m n [] w = refl
too_long m n (x ∷ xs) w = refl

takes_one-TakesOne : TakesOne takes_one
unfolding compact is_context_overflow trim_space
takes_one-TakesOne = record {
  one = λ m w. (_, _, _, refl, refl);
  more = λ m n ms w. (api 400 [] true, w + 1, too_long m n ms w, refl);
}

compact_to_fit_stalls_example : compact_to_fit takes_one 9 talk [] 0 ≡ none
unfolding no_user
compact_to_fit_stalls_example =
    compact_to_fit_stalls takes_one takes_one-TakesOne 9 asked asked (answered ∷ []) [] 0 refl refl

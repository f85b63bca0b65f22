-- ===== src/Compaction/Returns.antt =====
-- When the loop that summarizes a conversation in parts comes to an end.
use agentic_loop.Prelude.{
  List, ◌≡◌, Option, some, length, false, none, Text, trim_space, ◌++◌, ◌<◌, ℕ, ◌∷◌, not, arith,
  ◌||◌, [], suc, ◌==◌, zero, drop, take, ◌≤◌, length-take, length-append, length-drop, Bool-cases,
  inl, inr, refl, true, ◌≢◌, ap,
}
use agentic_loop.Message.{Message}
use agentic_loop.Errors.{Error, is_context_overflow}
use agentic_loop.Compaction.{
  Completion, Result, ok, failed, CompactResult, compact, compact_to_fit, split_point, one_round,
  resume, Fitted, Run, summarized, compacted, compact_request,
}
use agentic_loop.Compaction.Split.{split_point-IsSplit}

module _ {W U : Type 0} (complete : List Message → W → Result (Completion U) × W) where
  -- A conversation, in its world, that the loop asks about on its way: the one that it begins with, one
  -- on the way to the summary of the older part, or one after that summary has replaced it.
  pub data Meets : List Message → W → List Message → W → Type 0 where
    itself : {msgs : List Message} {w : W} → Meets msgs w msgs w
    in_older :
        {msgs m : List Message} {w w' v : W} {e : Error}
        → compact complete msgs w ≡ (failed e, w')
        → Meets (take (split_point msgs) msgs) w' m v
        → Meets msgs w m v
    in_rest :
        (fuel : ℕ) (us vs : List U) (cr : CompactResult U) {msgs m : List Message} {w w' w'' v : W}
        {e : Error}
        → compact complete msgs w ≡ (failed e, w')
        → compact_to_fit complete fuel (take (split_point msgs) msgs) us w' ≡ some (ok cr, vs, w'')
        → Meets (cr.messages ++ drop (split_point msgs) msgs) w'' m v
        → Meets msgs w m v

  -- No conversation on the way that is found too long is cut after its first message.
  abbrev pub CutsBehind : List Message → W → Type 0
  CutsBehind msgs w =
      (m : List Message) (v v' : W) (e : Error)
      → Meets msgs w m v
      → compact complete m v ≡ (failed e, v')
      → is_context_overflow (some e) ≡ true
      → split_point m ≢ 1

  -- A result was given, and a summary that was made is one message.
  abbrev pub Returned : Option (Fitted complete) → Type 0
  Returned none = ⊥
  Returned (some (ok cr, us, w)) = length cr.messages ≡ 1
  Returned (some (failed e, us, w)) = Unit

  summarized-one :
      (comp : Completion U) (summary : Text) (cr : CompactResult U)
      → summarized complete comp summary ≡ ok cr
      → length cr.messages ≡ 1
  summarized-one comp [] cr e = cc
  summarized-one comp (c ∷ summary) cr e = ground (arith, e)

  compacted-one :
      (r : Result (Completion U) × W) (cr : CompactResult U)
      → (compacted complete r).0 ≡ ok cr
      → length cr.messages ≡ 1
  compacted-one (ok comp, w) cr e = summarized-one comp (trim_space comp.message.content) cr e
  compacted-one (failed x, w) cr e = cc

  resume-Returned :
      (again : Run complete) (newer : List Message) (o : Option (Fitted complete))
      → Returned o
      → ((older : CompactResult U) (us : List U) (w : W)
          → o ≡ some (ok older, us, w)
          → length older.messages ≡ 1
          → Returned (again (older.messages ++ newer) us w))
      → Returned (resume complete again newer o)
  resume-Returned again newer none r f = r
  resume-Returned again newer (some (ok older, us, w)) r f = f older us w refl r
  resume-Returned again newer (some (failed e, us, w)) r f = tt

  module _ (fuel : ℕ)
      (shorter : (ms : List Message) (vs : List U) (v : W)
        → length ms < fuel
        → CutsBehind ms v
        → Returned (compact_to_fit complete fuel ms vs v)) where
    by_parts :
        (msgs : List Message) (us : List U) (w w' : W) (e : Error)
        → length msgs ≤ fuel
        → compact complete msgs w ≡ (failed e, w')
        → (not (is_context_overflow (some e)) || split_point msgs == 0) ≡ false
        → CutsBehind msgs w
        → Returned (
            resume complete
              (λ ms vs v. compact_to_fit complete fuel ms vs v)
              (drop (split_point msgs) msgs)
              (compact_to_fit complete fuel (take (split_point msgs) msgs) us w'))
    by_parts msgs us w w' e enough asks splits behind =
        let cut = split_point msgs in
        let s = split_point-IsSplit msgs in
        let not_one : cut ≢ 1 = behind msgs w w' e itself asks (ground arith) in
        let two : 2 ≤ split_point msgs = two_of cut (ground arith) not_one in
        let inside = s.in_bounds (omega (arith, two)) in
        resume-Returned (λ ms vs v. compact_to_fit complete fuel ms vs v) (drop cut msgs)
          (compact_to_fit complete fuel (take cut msgs) us w')
          (shorter (take cut msgs) us w' (omega (arith, length-take cut msgs, inside, enough))
            (λ m v v' d k. behind m v v' d (in_older asks k)))
          (λ older vs v got single.
            shorter (older.messages ++ drop cut msgs) vs v
              (omega (
                arith,
                length-append older.messages (drop cut msgs),
                length-drop cut msgs,
                single,
                inside,
                two,
                enough,
              ))
              (λ m u u' d k. behind m u u' d (in_rest fuel us vs older asks got k)))
      where
        two_of : (n : ℕ) → (n == 0) ≡ false → n ≢ 1 → 2 ≤ n
        two_of zero h g = cc
        two_of (suc zero) h g = absurd (g refl)
        two_of (suc (suc n)) h g = omega arith

    one_round-Returned :
        (msgs : List Message) (us : List U) (w : W) (r : Result (CompactResult U) × W)
        → length msgs ≤ fuel
        → compact complete msgs w ≡ r
        → CutsBehind msgs w
        → Returned (one_round complete (λ ms vs v. compact_to_fit complete fuel ms vs v) msgs us r)
    unfolding compact
    one_round-Returned msgs us w (ok cr, w') enough asks behind =
        compacted-one (complete (compact_request msgs) w) cr (ap (λ p. p.0) asks)
    one_round-Returned msgs us w (failed e, w') enough asks behind =
        elim (Bool-cases (not (is_context_overflow (some e)) || split_point msgs == 0)) [
          | inl gives_up ↦ rw gives_up tt
          | inr splits ↦ rw splits (by_parts msgs us w w' e enough asks splits behind)
        ]

  -- Where no conversation that compactToFit finds too long on its way is cut after its first message,
  -- fuel for one more round than there are messages gives a result, and a summary that is made is one
  -- message.
  pub compact_to_fit-Returned :
      (fuel : ℕ) (msgs : List Message) (us : List U) (w : W)
      → length msgs < fuel
      → CutsBehind msgs w
      → Returned (compact_to_fit complete fuel msgs us w)
  unfolding compact_to_fit
  compact_to_fit-Returned zero msgs us w h behind = absurd (omega (arith, h))
  compact_to_fit-Returned (suc fuel) msgs us w h behind =
      one_round-Returned fuel (λ ms vs v less. compact_to_fit-Returned fuel ms vs v less) msgs us w
        (compact complete msgs w) (omega (arith, h)) refl behind

  -- An error that names no overflow is the loop's answer, whatever was asked.
  pub refused_once :
      (fuel : ℕ) (msgs : List Message) (us : List U) (w w' : W) (e : Error) (out : Fitted complete)
      → complete (compact_request msgs) w ≡ (failed e, w')
      → is_context_overflow (some e) ≡ false
      → compact_to_fit complete fuel msgs us w ≡ some out
      → (failed e, us, w') ≡ out
  unfolding compact_to_fit
  refused_once zero msgs us w w' e out h plain_ k = cc
  refused_once (suc fuel) msgs us w w' e out h plain_ k = cc (rw (h, plain_) at k)

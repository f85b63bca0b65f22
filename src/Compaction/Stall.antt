-- ===== src/Compaction/Stall.antt =====
-- A conversation on which the loop never ends.
use agentic_loop.Prelude.{
  List, ◌∷◌, Bool, ℕ, ◌≡◌, [], true, some, not, arith, none, ◌&&◌, ◌+◌, suc, refl, zero, ap, ◌++◌,
  ◌∙◌,
}
use agentic_loop.Message.{Message}
use agentic_loop.Errors.{Error, is_context_overflow}
use agentic_loop.Compaction.{
  Completion, Result, ok, failed, CompactResult, compact, compact_to_fit, split_point, split_from,
  resume, is_user,
}

module _ {W U : Type 0} (complete : List Message → W → Result (Completion U) × W) where
  -- The provider summarizes one message, and finds a longer conversation too long.
  pub record TakesOne : Type 0 where
    pub one :
        (m : Message) (w : W)
        → (cr : CompactResult U) × (m' : Message) × (w' : W) × (compact complete (m ∷ []) w
            ≡ (ok cr, w'))
          × (cr.messages ≡ m' ∷ [])
    pub more :
        (m n : Message) (ms : List Message) (w : W)
        → (e : Error) × (w' : W) × (compact complete (m ∷ n ∷ ms) w ≡ (failed e, w'))
          × (is_context_overflow (some e) ≡ true)

  -- No message is the user's.
  unfoldable pub no_user : List Message → Bool
  no_user [] = true
  no_user (m ∷ ms) = not (is_user m) && no_user ms

  split_from-no_user :
      (half i best : ℕ) (ms : List Message) → no_user ms ≡ true → split_from half i best ms ≡ best
  unfolding no_user split_from
  split_from-no_user half i best [] h = refl
  split_from-no_user half i best (m ∷ ms) h =
      ground (arith, split_from-no_user half (i + 1) best ms)

  split_after_first :
      (m n : Message) (ms : List Message)
      → is_user n ≡ true
      → no_user ms ≡ true
      → split_point (m ∷ n ∷ ms) ≡ 1
  unfolding split_point split_from
  split_after_first m n ms u h = rw u (split_from-no_user _ 2 1 ms h)

  -- The older part is summarized, and the loop goes round on as many messages as before.
  resume_stalls :
      TakesOne
      → (fuel : ℕ) (m : Message) (rest : List Message) (us : List U) (w : W)
      → ((m' : Message) (vs : List U) (v : W)
          → compact_to_fit complete fuel (m' ∷ rest) vs v ≡ none)
      → resume complete
          (λ ms vs v. compact_to_fit complete fuel ms vs v)
          rest
          (compact_to_fit complete fuel (m ∷ []) us w)
        ≡ none
  unfolding compact_to_fit
  resume_stalls takes zero m rest us w again = refl
  resume_stalls takes (suc fuel) m rest us w again =
      let (cr, m', w', answered, single) = takes.one m w in
      let vs = us ++ cr.completion.usage ∷ [] in
      rw answered
        (ap (λ l. compact_to_fit complete (suc fuel) (l ++ rest) vs w') single ∙ again m' vs w')

  round_stalls :
      TakesOne
      → (fuel : ℕ) (m n : Message) (ms : List Message) (us : List U) (w : W) → is_user n ≡ true
      → no_user ms ≡ true
      → ((m' : Message) (vs : List U) (v : W)
          → compact_to_fit complete fuel (m' ∷ n ∷ ms) vs v ≡ none)
      → compact_to_fit complete (suc fuel) (m ∷ n ∷ ms) us w ≡ none
  unfolding compact_to_fit
  round_stalls takes fuel m n ms us w u h again =
      let (e, w', answered, over) = takes.more m n ms w in
      rw (answered, over, split_after_first m n ms u h)
        (resume_stalls takes fuel m (n ∷ ms) us w' again)

  -- Where the second message is the user's and no later one is, and the provider summarizes single
  -- messages but finds every longer conversation too long, no fuel is enough: the loop goes on for
  -- ever.
  pub compact_to_fit_stalls :
      TakesOne
      → (fuel : ℕ) (m n : Message) (ms : List Message) (us : List U) (w : W) → is_user n ≡ true
      → no_user ms ≡ true
      → compact_to_fit complete fuel (m ∷ n ∷ ms) us w ≡ none
  unfolding compact_to_fit
  compact_to_fit_stalls takes zero m n ms us w u h = refl
  compact_to_fit_stalls takes (suc fuel) m n ms us w u h =
      round_stalls takes fuel m n ms us w u h
        (λ m' vs v. compact_to_fit_stalls takes fuel m' n ms vs v u h)

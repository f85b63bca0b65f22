-- ===== src/ContextWindow/Bounds.antt =====
-- What the window is, and what the cap lets through.
use mathlib.Core.Bool.{false≢true}
use agentic_loop.Prelude.{
  none, some, subst, ◌≡◌, Option, Bool, true, false, Text, List, arith, Bool-cases, ℕ, drop, ◌⊎◌,
  inl, not, length, inr, ◌||◌, ltb, refl, sym, ◌∙◌, ◌*◌, ◌/◌, ◌+◌, if◌then◌else◌, ◌≤◌, ◌-◌, leb,
}
use agentic_loop.Prelude.Int.{ℤ, pos, negsuc, ltb_ℤ, pos_part, neg_part, ◌+ℤ◌}
use agentic_loop.Message.{Message}
use agentic_loop.ContextWindow.{
  WindowConfig, override_too_large, Outcome, ok, refused, positive, below_zero, ReportError, Event,
  apply_window, LastCall, next_prompt_estimate, cap_to_window, over_window, total_chars,
}

positive-below_zero : (z : ℤ) → positive z ≡ true → below_zero z ≡ false
positive-below_zero (pos n) h = ground arith
positive-below_zero (negsuc n) h = ground arith

ltb_ℤ-irrefl : (z : ℤ) → ltb_ℤ z z ≡ false
ltb_ℤ-irrefl (pos n) = ground arith
ltb_ℤ-irrefl (negsuc n) = ground arith

module _ {E : Type 0} (cfg : WindowConfig) (reported : ℤ) where
  -- A refusal names an override above the reported window. Otherwise the window is not negative, no
  -- larger than a reported one, and the override if that is set; the fallback counts only where
  -- nothing is reported.
  abbrev pub Settled : Outcome (WindowConfig × Event E) → Type 0
  Settled (refused e) =
      (e ≡ override_too_large cfg.override reported)
      × (positive reported ≡ true)
      × (ltb_ℤ reported cfg.override ≡ true)
  Settled (ok (c, ev)) =
      (c.window ≡ ev.window)
      × (c.window_reported ≡ positive reported)
      × (below_zero c.window ≡ false)
      × (positive reported ≡ true → ltb_ℤ reported c.window ≡ false)
      × (positive cfg.override ≡ true → c.window ≡ cfg.override)
      × (positive reported ≡ true → positive cfg.override ≡ false → c.window ≡ reported)
      × (ev.from_fallback ≡ true → (positive reported ≡ false) × (c.window ≡ cfg.fallback))

  -- The window that applyWindow sets is not negative, no larger than a reported one, the override
  -- where that is set and else the reported one, and the fallback only where nothing is reported;
  -- it refuses only an override above the reported window.
  pub apply_window-Settled :
      (err : Option (ReportError E)) (served : Text)
      → Settled (apply_window E cfg reported err served)
  unfolding apply_window
  apply_window-Settled err served = elim (Bool-cases (positive reported)) [
    | inl known ↦ elim (Bool-cases (ltb_ℤ reported cfg.override)) [
      | inl above ↦ rw (known, above) (refl, known, above)
      | inr within ↦ elim (Bool-cases (positive cfg.override)) [
        | inl capped ↦
            rw (known, within, capped)
              (
                refl,
                sym known,
                positive-below_zero cfg.override capped,
                λ _. within,
                λ _. refl,
                λ _ free. absurd (false≢true (sym free ∙ capped)),
                λ never. absurd (false≢true never),
              )
        | inr free ↦
            rw (known, within, free)
              (
                refl,
                sym known,
                positive-below_zero reported known,
                λ _. ltb_ℤ-irrefl reported,
                λ capped. absurd (false≢true (sym free ∙ capped)),
                λ _ _. refl,
                λ never. absurd (false≢true never),
              )
      ]
    ]
    | inr unknown ↦ elim (Bool-cases (positive cfg.override)) [
      | inl capped ↦
          rw (unknown, capped)
            (
              refl,
              sym unknown,
              positive-below_zero cfg.override capped,
              λ known. absurd (false≢true (sym unknown ∙ known)),
              λ _. refl,
              λ known _. absurd (false≢true (sym unknown ∙ known)),
              λ never. absurd (false≢true never),
            )
      | inr free ↦ elim (Bool-cases (positive cfg.fallback)) [
        | inl given ↦
            rw (unknown, free, given)
              (
                refl,
                sym unknown,
                positive-below_zero cfg.fallback given,
                λ known. absurd (false≢true (sym unknown ∙ known)),
                λ capped. absurd (false≢true (sym free ∙ capped)),
                λ known _. absurd (false≢true (sym unknown ∙ known)),
                λ _. (unknown, refl),
              )
        | inr nothing ↦
            rw (unknown, free, nothing)
              (
                refl,
                sym unknown,
                ground arith,
                λ known. absurd (false≢true (sym unknown ∙ known)),
                λ capped. absurd (false≢true (sym free ∙ capped)),
                λ known _. absurd (false≢true (sym unknown ∙ known)),
                λ never. absurd (false≢true never),
              )
      ]
    ]
  ]

-- `prompt` tokens and a third of the characters, rounded down, are no less than `window`: without the
-- division, and with each integer by its two parts.
abbrev pub Reaches : ℤ → ℤ → ℕ → Type 0
Reaches window prompt chars =
    3 * pos_part window + 3 * neg_part prompt ≤ 3 * pos_part prompt + 3 * neg_part window + chars

reaches_lem :
    (window prompt : ℤ) (chars : ℕ) (b : Bool)
    → ltb_ℤ (prompt +ℤ pos (chars / 3)) window ≡ b
    → (if b then ¬ Reaches window prompt chars else Reaches window prompt chars)
unfolding ◌+ℤ◌
reaches_lem window prompt chars b e =
    elim (Bool-cases (leb (neg_part prompt + 0) (pos_part prompt + chars / 3))) [
      | inl up ↦ go b up (rw up at e)
      | inr down ↦ gone b down (rw down at e)
    ]
  where
    go :
        (b : Bool)
        → leb (neg_part prompt + 0) (pos_part prompt + chars / 3) ≡ true
        → ltb_ℤ (pos (pos_part prompt + chars / 3 - (neg_part prompt + 0))) window ≡ b
        → (if b then ¬ Reaches window prompt chars else Reaches window prompt chars)
    go true up e = λ h. ground arith
    go false up e = ground arith

    gone :
        (b : Bool)
        → leb (neg_part prompt + 0) (pos_part prompt + chars / 3) ≡ false
        → ltb_ℤ (negsuc (neg_part prompt + 0 - (pos_part prompt + chars / 3) - 1)) window ≡ b
        → (if b then ¬ Reaches window prompt chars else Reaches window prompt chars)
    gone true down e = λ h. ground arith
    gone false down e = ground arith

module _ {W : Type 0} (compact_now : W → Bool × W) (cfg : WindowConfig) (armed : Bool)
    (transcript : List Message) (last : Option LastCall) (sent : ℕ) (w : W) where
  -- A window is known, the transcript begins with what was sent, and the prompt tokens that the last
  -- call reported reach the window with a third of the characters appended since.
  abbrev pub Overflows : Type 0
  Overflows =
      (positive cfg.window ≡ true)
      × (sent ≤ length transcript)
      × ((l : LastCall) × ((last ≡ some l)
            × (l.usage_reported ≡ true)
            × Reaches cfg.window l.prompt_tokens (total_chars (drop sent transcript))))

  -- Nothing is done to a request that does not overflow; one that does is compacted, or refused where
  -- that is not armed or fails.
  abbrev pub Capped : Outcome Bool × W → Type 0
  Capped (ok false, w') = (w' ≡ w) × ¬ Overflows
  Capped (ok true, w') = Overflows × (armed ≡ true) × (compact_now w ≡ (true, w'))
  Capped (refused e, w') =
      Overflows × (((armed ≡ false) × (w' ≡ w)) ⊎ ((armed ≡ true) × (compact_now w ≡ (false, w'))))

  over_window-Capped :
      (est : ℤ) (a : Bool) (r : Bool × W)
      → armed ≡ a
      → compact_now w ≡ r
      → Overflows
      → Capped (over_window compact_now a est cfg.window w)
  over_window-Capped est false r e c over = (over, inl (e, refl))
  over_window-Capped est true (true, w') e c over = rw c (over, e, c)
  over_window-Capped est true (false, w') e c over = rw c (over, inr (e, c))

  -- The comparison of the code decides whether the request overflows.
  estimate_lem :
      (o : Option LastCall) (b : Bool)
      → last ≡ o
      → positive cfg.window ≡ true
      → sent ≤ length transcript
      → ltb_ℤ (next_prompt_estimate o (drop sent transcript)) cfg.window ≡ b
      → (if b then ¬ Overflows else Overflows)
  unfolding next_prompt_estimate
  estimate_lem none true e known le h = λ (_, _, (l, (is, _, _))). cc (e, is)
  estimate_lem none false e known le h = absurd (false≢true (sym h ∙ known))
  estimate_lem (some l) b e known le h = elim (Bool-cases l.usage_reported) [
    | inl told ↦ reported b told (
        reaches_lem cfg.window l.prompt_tokens (total_chars (drop sent transcript)) b
          (rw told at h))
    | inr untold ↦ silent b untold (rw untold at h)
  ]
    where
      reported :
          (b : Bool)
          → l.usage_reported ≡ true
          → (if b
              then ¬ Reaches cfg.window l.prompt_tokens (total_chars (drop sent transcript))
              else Reaches cfg.window l.prompt_tokens (total_chars (drop sent transcript)))
          → (if b then ¬ Overflows else Overflows)
      reported true told h = λ (_, _, (m, (is, _, r))).
          let same : m ≡ l = cc (e, is) in
          h (
            subst
              (λ (x : LastCall).
                Reaches cfg.window x.prompt_tokens (total_chars (drop sent transcript)))
              same r)
      reported false told h = (known, le, (l, (e, told, h)))

      silent :
          (b : Bool)
          → l.usage_reported ≡ false
          → ltb_ℤ (pos 0) cfg.window ≡ b
          → (if b then ¬ Overflows else Overflows)
      silent true untold h = λ (_, _, (m, (is, told, _))). cc (e, is, told, untold)
      silent false untold h = absurd (false≢true (sym h ∙ known))

  -- capToWindow refuses or compacts a request exactly where a window is known, the transcript is no
  -- shorter than what was sent, the last call reported its usage, and its prompt tokens with a third
  -- of the characters appended since reach the window; it compacts where that is armed and succeeds,
  -- and refuses where not. It lets every other request through and changes nothing.
  pub cap_to_window-Capped : Capped (cap_to_window compact_now cfg armed transcript last sent w)
  unfolding cap_to_window
  cap_to_window-Capped =
      elim (Bool-cases (not (positive cfg.window) || ltb (length transcript) sent)) [
        | inl unbounded ↦ rw unbounded (refl, λ (known, le, _). ground arith)
        | inr bounded ↦
            elim (Bool-cases
              (ltb_ℤ (next_prompt_estimate last (drop sent transcript)) cfg.window)) [
                | inl below ↦
                    rw (bounded, below)
                      (refl, estimate_lem last true refl (ground arith) (ground arith) below)
                | inr over ↦
                    rw (bounded, over)
                      (over_window-Capped _ armed (compact_now w) refl refl
                        (estimate_lem last false refl (ground arith) (ground arith) over))
              ]
      ]

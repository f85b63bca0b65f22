-- ===== src/StreamString/History.antt =====
-- What a stream field never loses.
use agentic_loop.Prelude.{
  Text, List, Bool, ℕ, true, ◌≡◌, ◌++◌, false, not, ◌∷◌, ◌||◌, ◌==◌, arith, text_eq, [], ◌&&◌, refl,
  ◌∙◌, Bool-cases, ap, sym, is_nil, inl, inr, text_eq_iff, text_eq_refl,
}
use agentic_loop.StreamString.{
  StreamString, Revision, RevisionSource, current, revisions, append, finish, restart, set,
  finish_streamed, retried, streamed,
}

-- The start of a text.
unfoldable pub begins : Text → Text → Bool
begins [] t = true
begins (c ∷ s) [] = false
begins (c ∷ s) (d ∷ t) = c == d && begins s t

begins_refl : (s : Text) → begins s s ≡ true
unfolding begins
begins_refl [] = refl
begins_refl (c ∷ s) = ground (arith, begins_refl s)

begins-append : (s t : Text) → begins s (s ++ t) ≡ true
unfolding begins
begins-append [] t = refl
begins-append (c ∷ s) t = ground (arith, begins-append s t)

begins_trans : (s t u : Text) → begins s t ≡ true → begins t u ≡ true → begins s u ≡ true
unfolding begins
begins_trans [] t u p q = refl
begins_trans (c ∷ s) [] u p q = cc
begins_trans (c ∷ s) (d ∷ t) [] p q = cc
begins_trans (c ∷ s) (d ∷ t) (e ∷ u) p q = ground (arith, begins_trans s t u)

-- A value is among those held, or one of them continues it.
unfoldable pub kept : Text → List Revision → Bool
kept v [] = false
kept v (r ∷ rs) = begins v r.value || kept v rs

kept-append : (v : Text) (rs qs : List Revision) → kept v (rs ++ qs) ≡ (kept v rs || kept v qs)
unfolding kept
kept-append v [] qs = refl
kept-append v (r ∷ rs) qs = ground (arith, kept-append v rs qs)

-- What one list of revisions keeps, another keeps too.
abbrev pub Carries : List Revision → List Revision → Type 0
Carries rs qs = (v : Text) → kept v rs ≡ true → kept v qs ≡ true

pub data Op : Type 0 where
  append_op : Text → Op
  finish_op : Text → ℕ → Op
  finish_streamed_op : ℕ → Op
  restart_op : ℕ → Op
  set_op : Text → RevisionSource → ℕ → Op

unfoldable pub perform : Op → StreamString → StreamString
perform (append_op d) s = append d s
perform (finish_op v now) s = finish v now s
perform (finish_streamed_op now) s = finish_streamed now s
perform (restart_op now) s = restart now s
perform (set_op v src now) s = set v src now s

-- No call ends the field again with another value.
abbrev pub finishes_once : Op → StreamString → Bool
finishes_once (finish_op v now) s = not s.is_done || text_eq v s.fixed
finishes_once op s = true

or_false : (b : Bool) → (b || false) ≡ b
or_false true = refl
or_false false = refl

begins-is_nil : (v u f : Text) → is_nil u ≡ true → begins v u ≡ true → begins v f ≡ true
unfolding begins
begins-is_nil [] u f e h = refl
begins-is_nil (c ∷ v) [] f e h = cc
begins-is_nil (c ∷ v) (d ∷ u) f e h = cc

kept-revisions :
    (v : Text) (s : StreamString) → kept v (revisions s) ≡ (kept v s.revs || begins v (current s))
unfolding revisions kept
kept-revisions v s =
    kept-append v s.revs _ ∙ ap (λ b. kept v s.revs || b) (or_false (begins v (current s)))

kept-snoc :
    (v : Text) (rs : List Revision) (r : Revision)
    → kept v (rs ++ r ∷ []) ≡ (kept v rs || begins v r.value)
unfolding kept
kept-snoc v rs r =
    kept-append v rs (r ∷ []) ∙ ap (λ b. kept v rs || b) (or_false (begins v r.value))

-- One list of revisions and a current value after another.
Carries-of :
    (s t : StreamString)
    → ((v : Text)
        → (kept v s.revs || begins v (current s)) ≡ true
        → (kept v t.revs || begins v (current t)) ≡ true)
    → Carries (revisions s) (revisions t)
Carries-of s t f v h = kept-revisions v t ∙ f v (sym (kept-revisions v s) ∙ h)

append-Carries : (d : Text) (s : StreamString) → Carries (revisions s) (revisions (append d s))
unfolding append current
append-Carries [] s = λ v h. h
append-Carries (c ∷ d) s = Carries-of s _ (λ v h. go v h)
  where
    go :
        (v : Text)
        → (kept v s.revs || begins v (current s)) ≡ true
        → (kept v (append (c ∷ d) s).revs || begins v (current (append (c ∷ d) s))) ≡ true
    go v h = elim (Bool-cases s.is_done) [
      | inl done ↦ rw done (
          ground (
            arith,
            done,
            kept-snoc v s.revs (record { value = s.fixed; source = s.source; at_time = s.started }),
          ))
      | inr filling ↦ rw filling (
          ground (
            arith,
            filling,
            begins-append s.built (c ∷ d),
            begins_trans v s.built (s.built ++ c ∷ d),
          ))
    ]

finish-Carries :
    (f : Text) (now : ℕ) (s : StreamString)
    → (not s.is_done || text_eq f s.fixed) ≡ true
    → Carries (revisions s) (revisions (finish f now s))
unfolding finish current
finish-Carries f now s once = Carries-of s _ (λ v h. go v h)
  where
    go :
        (v : Text)
        → (kept v s.revs || begins v (current s)) ≡ true
        → (kept v (finish f now s).revs || begins v (current (finish f now s))) ≡ true
    go v h = elim (Bool-cases s.is_done) [
      | inl done ↦ rw done (ground (arith, done, text_eq_iff f s.fixed))
      | inr filling ↦ elim (Bool-cases (is_nil s.built)) [
        | inl empty ↦ rw (filling, empty) (ground (arith, filling, begins-is_nil v s.built f empty))
        | inr full ↦
            rw (filling, full)
              (ground (
                arith,
                filling,
                text_eq_iff f s.built,
                kept-snoc v s.revs
                    (record { value = s.built; source = streamed; at_time = s.started }),
              ))
      ]
    ]

restart-Carries : (now : ℕ) (s : StreamString) → Carries (revisions s) (revisions (restart now s))
unfolding restart current
restart-Carries now s = Carries-of s _ (λ v h. go v h)
  where
    go :
        (v : Text)
        → (kept v s.revs || begins v (current s)) ≡ true
        → (kept v (restart now s).revs || begins v (current (restart now s))) ≡ true
    go v h = elim (Bool-cases (is_nil (current s) && is_nil s.revs)) [
      | inl empty ↦ rw empty h
      | inr some_value ↦ rw some_value (
          ground (
            arith,
            kept-snoc v s.revs
                (record { value = current s; source = retried; at_time = s.started }),
          ))
    ]

set-Carries :
    (f : Text) (src : RevisionSource) (now : ℕ) (s : StreamString)
    → Carries (revisions s) (revisions (set f src now s))
unfolding set current
set-Carries f src now s = Carries-of s _ (λ v h. ground (
  arith,
  kept-snoc v s.revs (record { value = current s; source = s.source; at_time = s.started }),
))

own_value : (s : StreamString) → (not s.is_done || text_eq (current s) s.fixed) ≡ true
unfolding current
own_value s = elim (Bool-cases s.is_done) [
  | inl done ↦ rw (done, text_eq_refl s.fixed)
  | inr filling ↦ rw filling
]

perform-Carries :
    (op : Op) (s : StreamString)
    → finishes_once op s ≡ true
    → Carries (revisions s) (revisions (perform op s))
unfolding perform finish_streamed
perform-Carries (append_op d) s h = append-Carries d s
perform-Carries (finish_op v now) s h = finish-Carries v now s h
perform-Carries (finish_streamed_op now) s h = finish-Carries (current s) now s (own_value s)
perform-Carries (restart_op now) s h = restart-Carries now s
perform-Carries (set_op v src now) s h = set-Carries v src now s

unfoldable pub perform_all : List Op → StreamString → StreamString
perform_all [] s = s
perform_all (op ∷ ops) s = perform_all ops (perform op s)

-- No call of a history ends the field again with another value.
unfoldable pub never_replaced : List Op → StreamString → Bool
never_replaced [] s = true
never_replaced (op ∷ ops) s = finishes_once op s && never_replaced ops (perform op s)

-- Where no call finishes a finished field with another value, every value that the field or its
-- history held is held afterwards, or a value that it begins is.
pub never_shrinks :
    (ops : List Op) (s : StreamString)
    → never_replaced ops s ≡ true
    → Carries (revisions s) (revisions (perform_all ops s))
unfolding never_replaced perform_all
never_shrinks [] s h = λ v k. k
never_shrinks (op ∷ ops) s h = λ v k.
    never_shrinks ops (perform op s) (ground arith) v (perform-Carries op s (ground arith) v k)

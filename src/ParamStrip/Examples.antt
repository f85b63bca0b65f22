-- ===== src/ParamStrip/Examples.antt =====
-- A provider that refuses a parameter in its other spelling, once.
use agentic_loop.Prelude.{
  refl, ◌++◌, ◌≡◌, Text, none, some, [], ◌∷◌, codes, ℕ, Option, List, false, text_eq,
}
use agentic_loop.Prelude.Dict.{Dict, remove}
use agentic_loop.Errors.{Error, api}
use agentic_loop.ParamStrip.{do_call}
use agentic_loop.ParamStrip.Recovery.{Recovered, do_call-Recovered}

abbrev same : Text → Text
same t = t

abbrev extra : Dict ℕ
extra = (codes "top_k", 3) ∷ (codes "seed", 7) ∷ []

abbrev names_topk : Error → Option Text
names_topk e = some (codes "topk")

abbrev refuses_first : List (Dict ℕ) → Option ℕ × Option Error
refuses_first (a ∷ []) = (none, some (api 400 [] false))
refuses_first _ = (some 1, none)

do_call-Recovered_example : Recovered same names_topk refuses_first [] extra [] (
    do_call same names_topk
      (λ r log. (refuses_first (log ++ r ∷ []), log ++ r ∷ []))
      (λ e log. log)
      []
      extra
      [])
do_call-Recovered_example = do_call-Recovered same names_topk refuses_first [] extra []

-- The second request goes without the parameter, whose name is kept.
recovered :
    do_call same names_topk
      (λ r log. (refuses_first (log ++ r ∷ []), log ++ r ∷ []))
      (λ e log. log)
      []
      extra
      []
    ≡ ((some 1, none), extra ∷ ((codes "seed", 7) ∷ []) ∷ [], codes "topk" ∷ [])
unfolding do_call text_eq remove
recovered = refl

-- ===== src/SubagentRuns/Ledger.antt =====
-- The runs, the updates and the reports of one call id, counted.
use agentic_loop.Prelude.{
  Text, Bool, ℕ, ◌≡◌, All, List, true, if◌then◌else◌, none, some, ◌∷◌, ◌++◌, false, text_eq, arith,
  ◌≤◌, Bool-cases, ◌&&◌, ◌+◌, suc, text_eq_iff, [], inl, refl, inr,
}
use agentic_loop.Prelude.Dict.{Dict, lookup, put, remove}
use agentic_loop.SubagentRuns.{
  SubagentState, queued, done, failed, abandoned, SubagentReport, SubagentRun, SubagentUpdate,
}

-- How many runs are out under an id.
unfoldable pub entries : Text → Dict SubagentRun → ℕ
entries k [] = 0
entries k ((j, run) ∷ m) = let rest = entries k m in if text_eq j k then suc rest else rest

pub entries-remove :
    (j k : Text) (m : Dict SubagentRun)
    → entries k (remove j m) ≡ (if text_eq j k then 0 else entries k m)
unfolding entries remove
entries-remove j k [] = ground arith
entries-remove j k ((i, run) ∷ m) =
    ground (arith, entries-remove j k m, text_eq_iff i j, text_eq_iff i k, text_eq_iff j k)

pub entries-put :
    (j k : Text) (run : SubagentRun) (m : Dict SubagentRun)
    → entries k (put j run m) ≡ (if text_eq j k then 1 else entries k m)
unfolding entries put
entries-put j k run m = ground (arith, entries-remove j k m)

pub entries-none : (k : Text) (m : Dict SubagentRun) → lookup k m ≡ none → entries k m ≡ 0
unfolding entries lookup
entries-none k [] h = refl
entries-none k ((i, run) ∷ m) h = ground (arith, entries-none k m)

pub entries-some :
    (k : Text) (m : Dict SubagentRun) (run : SubagentRun) → lookup k m ≡ some run → 1 ≤ entries k m
unfolding entries lookup
entries-some k [] run h = cc
entries-some k ((i, r) ∷ m) run h = ground (arith, entries-some k m run)

-- A run is kept under its own id.
abbrev pub Keyed : Text × SubagentRun → Type 0
Keyed (k, run) = run.call_id ≡ k

pub Keyed-remove : (k : Text) (m : Dict SubagentRun) → All Keyed m → All Keyed (remove k m)
unfolding remove
Keyed-remove k [] h = tt
Keyed-remove k ((j, run) ∷ m) (hj, h) = elim (Bool-cases (text_eq j k)) [
  | inl same ↦ rw (same, All) (Keyed-remove k m h)
  | inr other ↦ rw (other, All) (hj, Keyed-remove k m h)
]

pub lookup-Keyed :
    (k : Text) (m : Dict SubagentRun) (run : SubagentRun)
    → All Keyed m
    → lookup k m ≡ some run
    → run.call_id ≡ k
unfolding lookup
lookup-Keyed k [] run h e = cc
lookup-Keyed k ((j, r) ∷ m) run (hj, h) e = ground (arith, lookup-Keyed k m run h, text_eq_iff j k)

pub Keyed-put :
    (k : Text) (run : SubagentRun) (m : Dict SubagentRun)
    → run.call_id ≡ k
    → All Keyed m
    → All Keyed (put k run m)
unfolding put
Keyed-put k run m same h = (same, Keyed-remove k m h)

module _ {U : Type 0} where
  -- The updates of an id in the states of a kind.
  unfoldable pub tally : (SubagentState → Bool) → Text → List (SubagentUpdate U) → ℕ
  tally p k [] = 0
  tally p k (u ∷ us) =
      let rest = tally p k us in if p u.state && text_eq u.call_id k then suc rest else rest

  pub tally-append :
      (p : SubagentState → Bool) (k : Text) (us vs : List (SubagentUpdate U))
      → tally p k (us ++ vs) ≡ tally p k us + tally p k vs
  unfolding tally
  tally-append p k [] vs = ground arith
  tally-append p k (u ∷ us) vs = ground (arith, tally-append p k us vs)

  -- The reports of an id.
  unfoldable pub reports_of : Text → List (SubagentReport U) → ℕ
  reports_of k [] = 0
  reports_of k (r ∷ rs) =
      let rest = reports_of k rs in if text_eq r.call_id k then suc rest else rest

  pub reports_of-append :
      (k : Text) (rs qs : List (SubagentReport U))
      → reports_of k (rs ++ qs) ≡ reports_of k rs + reports_of k qs
  unfolding reports_of
  reports_of-append k [] qs = ground arith
  reports_of-append k (r ∷ rs) qs = ground (arith, reports_of-append k rs qs)

abbrev pub is_launch : SubagentState → Bool
is_launch s = elim s [ queued ↦ true | _ ↦ false ]

abbrev pub is_report : SubagentState → Bool
is_report s = elim s [ done ↦ true | failed ↦ true | _ ↦ false ]

abbrev pub is_loss : SubagentState → Bool
is_loss s = elim s [ abandoned ↦ true | _ ↦ false ]

-- ===== src/Tools/Gate.antt =====
-- What stands between a model's call and the tool that runs it.
use agentic_loop.Prelude.{
  Option, none, some, ◌≡◌, refl, true, inl, inr, Bool-cases, subst, sym, ◌∷◌, [], text_eq,
  text_eq_sound, Text,
}
use agentic_loop.Message.{ToolCall}
use agentic_loop.Tools.{
  Tools, Result, ok, err, ToolResult, Approval, Tool, Approver, CallConfig, find, resolve_call,
  run_tool, on_verdict,
}

module _ (W : Type 0) where
  -- The permission to run a tool: nobody is there to ask and the tool only reads, or the approver
  -- was asked about this very call and allowed it.
  pub data Permitted (cfg : CallConfig W) (call : ToolCall) (t : Tool W) (w : W) : W → Type 0 where
    by_default : cfg.approver ≡ none → t.decl.readonly ≡ true → Permitted cfg call t w w
    by_verdict :
        (a : Approver W) (v : Approval) {w' : W}
        → cfg.approver ≡ some a
        → a.ask call w ≡ (ok v, w')
        → v.allowed ≡ true
        → Permitted cfg call t w w'

  -- The tool stands in the set.
  pub data Offers (t : Tool W) : Tools W → Type 0 where
    here : {ts : Tools W} → Offers t (some t ∷ ts)
    there : {o : Option (Tool W)} {ts : Tools W} → Offers t ts → Offers t (o ∷ ts)

  find_sound :
      (ts : Tools W) (name : Text) (t : Tool W)
      → find W ts name ≡ some t
      → Offers t ts × (t.decl.name ≡ name)
  unfolding find
  find_sound [] name t e = cc
  find_sound (none ∷ ts) name t e = (there (find_sound ts name t e).0, (find_sound ts name t e).1)
  find_sound (some u ∷ ts) name t e = elim (Bool-cases (text_eq u.decl.name name)) [
    | inl same ↦
        let first : u ≡ t = cc (rw same at e) in
        subst (λ v. Offers v (some u ∷ ts) × (v.decl.name ≡ name)) first
          (here, text_eq_sound u.decl.name name same)
    | inr other ↦
        let later : find W ts name ≡ some t = rw other at e in
        (there (find_sound ts name t later).0, (find_sound ts name t later).1)
  ]

  -- One run of the tool on the call's id and arguments made all that changed, and its result is the
  -- answer as it is; its error is no error of the call.
  abbrev pub RanOnce : Tool W → ToolCall → W → Result ToolResult × W → Type 0
  RanOnce t call w r =
      (r.1 ≡ (t.execute call.id call.arguments w).1)
      × ((res : ToolResult) → (t.execute call.id call.arguments w).0 ≡ ok res → r.0 ≡ ok res)
      × ((e : Text)
          → (t.execute call.id call.arguments w).0 ≡ err e
          → (res : ToolResult) × ((r.0 ≡ ok res) × (res.is_error ≡ true)))

  run_tool-RanOnce : (t : Tool W) (call : ToolCall) (w : W) → RanOnce t call w (run_tool W t call w)
  run_tool-RanOnce t call w = go (t.execute call.id call.arguments w) refl
    where
      go :
          (p : Result ToolResult × W)
          → t.execute call.id call.arguments w ≡ p
          → RanOnce t call w (run_tool W t call w)
      go (ok x, v) e = rw e (refl, λ res h. h, λ t h. cc)
      go (err x, v) e = rw e (refl, λ res h. cc, λ t h. (_, (refl, refl)))

  -- What became of a call: a tool of the set that it names ran once under a permission, or no tool was
  -- touched and nothing changed but what asking an approver about the call changes.
  pub data Resolved (cfg : CallConfig W) (call : ToolCall) (w : W) (r : Result ToolResult × W)
      : Type 0 where
    ran :
        (t : Tool W) {w' : W}
        → Offers t cfg.tools
        → t.decl.name ≡ call.name
        → Permitted cfg call t w w'
        → RanOnce t call w' r
        → Resolved cfg call w r
    unchanged : r.1 ≡ w → Resolved cfg call w r
    asked_only :
        (a : Approver W) → cfg.approver ≡ some a → r.1 ≡ (a.ask call w).1 → Resolved cfg call w r

  ran_by :
      (cfg : CallConfig W) (call : ToolCall) (w : W) (t : Tool W) (w' : W)
      → find W cfg.tools call.name ≡ some t
      → Permitted cfg call t w w'
      → Resolved cfg call w (run_tool W t call w')
  ran_by cfg call w t w' e p =
      let (offered, named) = find_sound cfg.tools call.name t e in
      ran t offered named p (run_tool-RanOnce t call w')

  -- A tool runs only if it is in the set under the call's name and is permitted, by an approver that
  -- was asked about this call and allowed it or, with nobody to ask, by being read-only; it then runs
  -- once, on the call's arguments, and its result is the answer. Otherwise nothing outside changes but
  -- what asking the approver changes.
  pub resolve_call-Resolved :
      (cfg : CallConfig W) (call : ToolCall) (w : W)
      → Resolved cfg call w (resolve_call W cfg call w)
  unfolding resolve_call
  resolve_call-Resolved cfg call w = go (find W cfg.tools call.name) refl cfg.approver refl
    where
      on_asked :
          (t : Tool W) (a : Approver W)
          → find W cfg.tools call.name ≡ some t
          → cfg.approver ≡ some a
          → (r : Result Approval) (w' : W) → a.ask call w ≡ (r, w')
          → Resolved cfg call w (on_verdict W t call (r, w'))
      on_asked t a e ea (err x) w' asks = asked_only a ea (rw asks)
      on_asked t a e ea (ok v) w' asks = elim (Bool-cases v.allowed) [
        | inl allowed ↦ rw allowed (ran_by cfg call w t w' e (by_verdict a v ea asks allowed))
        | inr refused ↦ asked_only a ea (rw (refused, asks))
      ]

      go :
          (f : Option (Tool W))
          → find W cfg.tools call.name ≡ f
          → (a : Option (Approver W)) → cfg.approver ≡ a
          → Resolved cfg call w (resolve_call W cfg call w)
      go none e a ea = unchanged (rw e)
      go (some t) e none ea = elim (Bool-cases t.decl.readonly) [
        | inl reads ↦
            let same : resolve_call W cfg call w ≡ run_tool W t call w = rw (e, ea, reads) in
            subst (Resolved cfg call w) (sym same) (ran_by cfg call w t w e (by_default ea reads))
        | inr writes ↦ unchanged (rw (e, ea, writes))
      ]
      go (some t) e (some a) ea =
          let same : resolve_call W cfg call w ≡ on_verdict W t call (a.ask call w) = rw (e, ea) in
          subst (Resolved cfg call w) (sym same)
            (on_asked t a e ea (a.ask call w).0 (a.ask call w).1 refl)

-- ===== src/Todo/Untouched.antt =====
-- What a call of a tool of todo/todo.go leaves as it was: the tasks that it does not name.
use agentic_loop.Prelude.{
  List, ℕ, ◌≡◌, ◌∷◌, Bool, some, none, true, ◌++◌, Text, Option, refl, if◌then◌else◌, false, arith,
  ◌+◌, subst, [], is_nil, suc, Bool-cases, sym, leb, zero, ◌∙◌, append-nil, length, inl, inr, ◌&&◌,
}
use agentic_loop.Prelude.Int.{ℤ}
use agentic_loop.Todo.{
  Todo, TodoStore, TodoKind, TodoConfig, TodoArgs, Decoded, Checked, Found, Reply, kind_add,
  kind_edit, kind_cancel, kind_complete, decoded, malformed, accepted, rejected, at_index,
  unresolved, same_id, update_at, remove_at, with_valid, with_found, with_args, written,
  valid_title, valid_state, added, do_add, do_edit, do_cancel, do_complete, retitled, restated,
  resolve, resolve_from, unmarshal_args, if_writable, run_kind, execute, todo_max_items, todo_done,
}
use agentic_loop.Todo.Kept.{restated_id}

-- The tasks of another id.
abbrev pub others : ℤ → List Todo → List Todo
others id [] = []
others id (t ∷ ts) = if same_id t.id id then others id ts else t ∷ others id ts

abbrev named_at : ℕ → ℤ → List Todo → Bool
named_at k id [] = false
named_at zero id (t ∷ ts) = same_id t.id id
named_at (suc k) id (t ∷ ts) = named_at k id ts

-- Once found, the index stays, or the id is refused.
resolve_from_second :
    (i j k : ℕ) (id : ℤ) (ts : List Todo) → resolve_from i (some j) id ts ≡ at_index k → k ≡ j
resolve_from_second i j k id [] h = cc
resolve_from_second i j k id (t ∷ ts) h = ground (arith, resolve_from_second (i + 1) j k id ts)

resolve_from-named_at :
    (i k : ℕ) (id : ℤ) (ts : List Todo)
    → resolve_from i none id ts ≡ at_index k
    → (m : ℕ) × ((k ≡ i + m) × (named_at m id ts ≡ true))
resolve_from-named_at i k id [] h = cc
resolve_from-named_at i k id (t ∷ ts) h = elim (Bool-cases (same_id t.id id)) [
  | inl e ↦ (0, (resolve_from_second (i + 1) i k id ts (sym (rw e) ∙ h) ∙ omega arith, e))
  | inr e ↦
      let (m, (at, named)) = resolve_from-named_at (i + 1) k id ts (sym (rw e) ∙ h) in
      (suc m, (at ∙ omega arith, named))
]

resolve-named_at :
    (k : ℕ) (id : ℤ) (ts : List Todo) → resolve id ts ≡ at_index k → named_at k id ts ≡ true
unfolding resolve
resolve-named_at k id ts h =
    let (m, (at, named)) = resolve_from-named_at 0 k id ts h in
    let same : m ≡ k = omega arith in subst (λ j. named_at j id ts ≡ true) same named

others-update_at :
    (f : Todo → Todo)
    → ((t : Todo) → (f t).id ≡ t.id)
    → (k : ℕ) (id : ℤ) (ts : List Todo) → named_at k id ts ≡ true
    → others id (update_at k f ts) ≡ others id ts
others-update_at f keeps k id [] h = refl
others-update_at f keeps zero id (t ∷ ts) h = rw (keeps t, h)
others-update_at f keeps (suc k) id (t ∷ ts) h = ground (arith, others-update_at f keeps k id ts)

others-remove_at :
    (k : ℕ) (id : ℤ) (ts : List Todo)
    → named_at k id ts ≡ true
    → others id (remove_at k ts) ≡ others id ts
others-remove_at k id [] h = refl
others-remove_at zero id (t ∷ ts) h = ground arith
others-remove_at (suc k) id (t ∷ ts) h = ground (arith, others-remove_at k id ts)

-- An added task comes after all others; a tool that names a task leaves the tasks of other ids.
abbrev pub Untouched : TodoKind → Decoded → List Todo → List Todo → Type 0
Untouched kind_add d xs ys = (more : List Todo) × (ys ≡ xs ++ more)
Untouched kind_edit (decoded a) xs ys = others a.id ys ≡ others a.id xs
Untouched kind_edit (malformed e) xs ys = ys ≡ xs
Untouched kind_cancel (decoded a) xs ys = others a.id ys ≡ others a.id xs
Untouched kind_cancel (malformed e) xs ys = ys ≡ xs
Untouched kind_complete (decoded a) xs ys = others a.id ys ≡ others a.id xs
Untouched kind_complete (malformed e) xs ys = ys ≡ xs

module _ {W : Type 0} (s : TodoStore) (w : W) (P : List Todo → Type 0) (same : P s.items) where
  abbrev Leaves : Reply W → Type 0
  Leaves out = P out.1.0.items

  with_valid-Leaves :
      (c : Checked) (f : Text → Reply W) → ((t : Text) → Leaves (f t)) → Leaves (with_valid c s w f)
  with_valid-Leaves (accepted t) f h = h t
  with_valid-Leaves (rejected msg) f h = same

  with_found-Leaves :
      (c : Found) (f : ℕ → Reply W)
      → ((k : ℕ) → c ≡ at_index k → Leaves (f k))
      → Leaves (with_found c s w f)
  with_found-Leaves (at_index k) f h = h k refl
  with_found-Leaves (unresolved msg) f h = same

  if-Leaves : (b : Bool) (x y : Reply W) → Leaves x → Leaves y → Leaves (if b then x else y)
  if-Leaves true x y h g = h
  if-Leaves false x y h g = g

  written-Leaves :
      (cfg : TodoConfig W) (t : TodoStore) (r : Option Text × W)
      → P t.items
      → Leaves (written cfg t r)
  written-Leaves cfg t (none, u) h = h
  written-Leaves cfg t (some e, u) h = h

module _ {W : Type 0} (s : TodoStore) (w : W) where
  unchanged : (more : List Todo) × (s.items ≡ s.items ++ more)
  unchanged = ([], sym (append-nil s.items))

  with_args-Untouched :
      (kind : TodoKind) (d : Decoded) (f : TodoArgs → Reply W)
      → ((a : TodoArgs) → Untouched kind (decoded a) s.items (f a).1.0.items)
      → Untouched kind d s.items (with_args d kind s w f).1.0.items
  with_args-Untouched kind (decoded a) f h = h a
  with_args-Untouched kind_add (malformed e) f h = unchanged
  with_args-Untouched kind_edit (malformed e) f h = refl
  with_args-Untouched kind_cancel (malformed e) f h = refl
  with_args-Untouched kind_complete (malformed e) f h = refl

module _ {W : Type 0} (cfg : TodoConfig W) (write : List Todo → W → Option Text × W) (s : TodoStore)
    (w : W) where
  abbrev Added : List Todo → Type 0
  Added ys = (more : List Todo) × (ys ≡ s.items ++ more)

  abbrev Others : ℤ → List Todo → Type 0
  Others id ys = others id ys ≡ others id s.items

  do_add-Untouched :
      (args : Text)
      → Untouched kind_add
          (unmarshal_args cfg kind_add args)
          s.items
          (do_add cfg write args s w).1.0.items
  unfolding do_add added
  do_add-Untouched args =
      with_args-Untouched s w kind_add (unmarshal_args cfg kind_add args) _ (λ a.
        with_valid-Leaves s w Added (unchanged s w) (valid_title cfg a.title) _ (λ title.
          if-Leaves s w Added (unchanged s w) (is_nil title) _ _ (unchanged s w) (
            with_valid-Leaves s w Added (unchanged s w) (valid_state cfg a.state) _ (λ state.
              if-Leaves s w Added (unchanged s w) (leb todo_max_items (length s.items)) _ _
                (unchanged s w)
                (written-Leaves s w Added (unchanged s w) cfg (added title state s)
                  (write (added title state s).items w) (_, refl))))))

  do_edit-Untouched :
      (args : Text)
      → Untouched kind_edit
          (unmarshal_args cfg kind_edit args)
          s.items
          (do_edit cfg write args s w).1.0.items
  unfolding do_edit
  do_edit-Untouched args =
      with_args-Untouched s w kind_edit (unmarshal_args cfg kind_edit args) _ (λ a.
        with_found-Leaves s w (Others a.id) refl (resolve a.id s.items) _ (λ k e.
          if-Leaves s w (Others a.id) refl (is_nil a.title && is_nil a.state) _ _ refl (
            with_valid-Leaves s w (Others a.id) refl (valid_title cfg a.title) _ (λ title.
              with_valid-Leaves s w (Others a.id) refl (valid_state cfg a.state) _ (λ state.
                written-Leaves s w (Others a.id) refl cfg _ (write _ w) (
                  others-update_at (λ t. restated state (retitled title t))
                    (restated_id state title) k a.id s.items
                    (resolve-named_at k a.id s.items e)))))))

  do_cancel-Untouched :
      (args : Text)
      → Untouched kind_cancel
          (unmarshal_args cfg kind_cancel args)
          s.items
          (do_cancel cfg write args s w).1.0.items
  unfolding do_cancel
  do_cancel-Untouched args =
      with_args-Untouched s w kind_cancel (unmarshal_args cfg kind_cancel args) _ (λ a.
        with_found-Leaves s w (Others a.id) refl (resolve a.id s.items) _ (λ k e.
          written-Leaves s w (Others a.id) refl cfg _ (write _ w)
            (others-remove_at k a.id s.items (resolve-named_at k a.id s.items e))))

  do_complete-Untouched :
      (args : Text)
      → Untouched kind_complete
          (unmarshal_args cfg kind_complete args)
          s.items
          (do_complete cfg write args s w).1.0.items
  unfolding do_complete
  do_complete-Untouched args =
      with_args-Untouched s w kind_complete (unmarshal_args cfg kind_complete args) _ (λ a.
        with_found-Leaves s w (Others a.id) refl (resolve a.id s.items) _ (λ k e.
          written-Leaves s w (Others a.id) refl cfg _ (write _ w) (
            others-update_at (λ t. record t { state = todo_done }) (λ t. refl) k a.id s.items
              (resolve-named_at k a.id s.items e))))

no_change : (kind : TodoKind) (d : Decoded) (xs : List Todo) → Untouched kind d xs xs
no_change kind_add d xs = ([], sym (append-nil xs))
no_change kind_edit (decoded a) xs = refl
no_change kind_edit (malformed e) xs = refl
no_change kind_cancel (decoded a) xs = refl
no_change kind_cancel (malformed e) xs = refl
no_change kind_complete (decoded a) xs = refl
no_change kind_complete (malformed e) xs = refl

module _ {W : Type 0} (cfg : TodoConfig W) where
  run_kind-Untouched :
      (kind : TodoKind) (write : List Todo → W → Option Text × W) (args : Text) (s : TodoStore)
      (w : W)
      → Untouched kind
          (unmarshal_args cfg kind args)
          s.items
          (run_kind cfg kind write args s w).1.0.items
  unfolding run_kind
  run_kind-Untouched kind_add write args s w = do_add-Untouched cfg write s w args
  run_kind-Untouched kind_edit write args s w = do_edit-Untouched cfg write s w args
  run_kind-Untouched kind_cancel write args s w = do_cancel-Untouched cfg write s w args
  run_kind-Untouched kind_complete write args s w = do_complete-Untouched cfg write s w args

  -- Whatever comes of a call: todo_add leaves all tasks and puts new ones only after them; another
  -- tool leaves, in their order, all tasks whose id is not the one that it names, and leaves the whole
  -- list where its arguments cannot be read.
  pub execute-Untouched :
      (kind : TodoKind) (args : Text) (s : TodoStore) (w : W)
      → Untouched kind (unmarshal_args cfg kind args) s.items (execute cfg kind args s w).1.0.items
  unfolding execute
  execute-Untouched kind args s w = go cfg.write
    where
      go :
          (o : Option (List Todo → W → Option Text × W))
          → Untouched kind
              (unmarshal_args cfg kind args)
              s.items
              (if_writable cfg o kind args s w).1.0.items
      go none = no_change kind (unmarshal_args cfg kind args) s.items
      go (some write) = run_kind-Untouched kind write args s w

-- ===== src/Todo/Kept.antt =====
-- The task list of todo/todo.go through any calls of its four tools.
use agentic_loop.Prelude.{
  ℕ, List, Text, Bool, Option, ◌≤◌, ◌≡◌, ◌+◌, if◌then◌else◌, is_nil, some, arith, true, ◌∷◌, ◌∙◌,
  leb, ◌&&◌, none, refl, length, [], false, Bool-cases, ◌<◌, ◌==◌, suc, subst, inl, sym, inr,
}
use agentic_loop.Prelude.Int.{ℤ, pos, negsuc, ltb_ℤ}
use agentic_loop.Todo.{
  max_int, succ_int, Todo, TodoStore, TodoKind, TodoConfig, TodoArgs, Decoded, Checked, Found,
  Reply, kind_add, kind_edit, kind_cancel, kind_complete, decoded, malformed, accepted, rejected,
  at_index, unresolved, above, mint_above, new_todo_store, update_at, remove_at, with_valid,
  with_found, with_args, written, valid_title, valid_state, added, do_add, do_edit, do_cancel,
  do_complete, retitled, restated, resolve, unmarshal_args, if_writable, run_kind, execute,
  todo_max_items, todo_done,
}
use agentic_loop.Todo.Minted.{
  IsMinted, unique, below, all_below, has_id_fresh, below_mono, all_below_mono, unique-snoc,
  all_below-snoc, unique-update_at, all_below-update_at, unique-remove_at, all_below-remove_at,
}

-- Below a bound that is no more than the largest int, the next id does not wrap.
above_lem :
    (bound : ℕ) (i : ℤ) (n : ℕ)
    → bound ≤ max_int
    → n ≤ bound
    → below bound i ≡ true
    → (m : ℕ) × ((above i (pos n) ≡ pos m) × (n ≤ m) × (m ≤ bound) × (below m i ≡ true))
unfolding above succ_int
above_lem bound (pos k) n cap le h = elim (Bool-cases (ltb_ℤ (pos k) (pos n))) [
  | inl less ↦ (n, (rw less, omega arith, le, ground arith))
  | inr more ↦
      let small : (k == max_int) ≡ false = ground arith in
      (k + 1, (rw (more, small), ground arith, ground arith, ground arith))
]
above_lem bound (negsuc k) n cap le h =
    let less : ltb_ℤ (negsuc k) (pos n) ≡ true = ground arith in
    (n, (rw less, omega arith, le, refl))

-- The ids of a restored list leave the next one above them.
mint_above_lem :
    (bound : ℕ) (ts : List Todo) (n : ℕ)
    → bound ≤ max_int
    → n ≤ bound
    → all_below bound ts ≡ true
    → (m : ℕ) × ((mint_above ts (pos n) ≡ pos m) × (n ≤ m) × (m ≤ bound) × (all_below m ts ≡ true))
unfolding mint_above
mint_above_lem bound [] n cap le h = (n, (refl, omega arith, le, refl))
mint_above_lem bound (t ∷ ts) n cap le h =
    let (k, (first, up, in_bound, here)) = above_lem bound t.id n cap le (ground arith) in
    let (m, (last, further, in_bound', rest)) =
      mint_above_lem bound ts k cap in_bound (ground arith) in
    let still : below m t.id ≡ true = below_mono k m t.id further here in
    (m, (rw first last, omega arith, in_bound', ground arith))

new_todo_store-IsMinted :
    (bound room : ℕ) (initial : List Todo)
    → unique initial ≡ true
    → all_below bound initial ≡ true
    → 0 < bound
    → bound + room ≤ max_int
    → IsMinted room (new_todo_store initial)
unfolding new_todo_store
new_todo_store-IsMinted bound room initial h below_ some_ space =
    let (m, (next, up, in_bound, under)) =
      mint_above_lem bound initial 1 (omega arith) (omega arith) below_ in
    record { top = m; next_lem = next; room_lem = omega arith; unique_lem = h; below_lem = under }

retitled_id : (title : Text) (t : Todo) → (retitled title t).id ≡ t.id
retitled_id [] t = refl
retitled_id (c ∷ cs) t = refl

pub restated_id : (state title : Text) (t : Todo) → (restated state (retitled title t)).id ≡ t.id
restated_id [] title t = retitled_id title t
restated_id (c ∷ cs) title t = retitled_id title t

less_room : (room : ℕ) (s : TodoStore) → IsMinted (room + 1) s → IsMinted room s
less_room room s v = record {
  top = v.top;
  next_lem = v.next_lem;
  room_lem = omega (arith, v.room_lem);
  unique_lem = v.unique_lem;
  below_lem = v.below_lem;
}

update_at-IsMinted :
    (room k : ℕ) (f : Todo → Todo) (s : TodoStore)
    → ((t : Todo) → (f t).id ≡ t.id)
    → IsMinted room s
    → IsMinted room (record s { items = update_at k f s.items })
update_at-IsMinted room k f s keeps v = record {
  top = v.top;
  next_lem = v.next_lem;
  room_lem = v.room_lem;
  unique_lem = unique-update_at f keeps k s.items ∙ v.unique_lem;
  below_lem = all_below-update_at f keeps v.top k s.items ∙ v.below_lem;
}

remove_at-IsMinted :
    (room k : ℕ) (s : TodoStore)
    → IsMinted room s
    → IsMinted room (record s { items = remove_at k s.items })
remove_at-IsMinted room k s v = record {
  top = v.top;
  next_lem = v.next_lem;
  room_lem = v.room_lem;
  unique_lem = unique-remove_at k s.items v.unique_lem;
  below_lem = all_below-remove_at v.top k s.items v.below_lem;
}

added-IsMinted :
    (room : ℕ) (title state : Text) (s : TodoStore)
    → IsMinted (room + 1) s
    → IsMinted room (added title state s)
unfolding added succ_int
added-IsMinted room title state s v =
    let small : (v.top == max_int) ≡ false = ground (arith, v.room_lem) in
    record {
      top = v.top + 1;
      next_lem = rw (v.next_lem, small);
      room_lem = omega (arith, v.room_lem);
      unique_lem =
          rw v.next_lem
            (unique-snoc _ s.items v.unique_lem (has_id_fresh v.top s.items v.below_lem));
      below_lem = rw v.next_lem (
          all_below-snoc (v.top + 1) _ s.items
            (all_below_mono v.top (v.top + 1) s.items (omega arith) v.below_lem) (ground arith));
    }

module _ {W : Type 0} (room : ℕ) (s : TodoStore) (w : W) (v : IsMinted (room + 1) s) where
  kept : IsMinted room s
  kept = less_room room s v

  abbrev KeepsMinted : Reply W → Type 0
  KeepsMinted out = IsMinted room out.1.0

  with_valid-Kept :
      (c : Checked) (f : Text → Reply W)
      → ((t : Text) → KeepsMinted (f t))
      → KeepsMinted (with_valid c s w f)
  with_valid-Kept (accepted t) f h = h t
  with_valid-Kept (rejected msg) f h = kept

  with_found-Kept :
      (c : Found) (f : ℕ → Reply W)
      → ((k : ℕ) → KeepsMinted (f k))
      → KeepsMinted (with_found c s w f)
  with_found-Kept (at_index k) f h = h k
  with_found-Kept (unresolved msg) f h = kept

  with_args-Kept :
      (c : Decoded) (kind : TodoKind) (f : TodoArgs → Reply W)
      → ((a : TodoArgs) → KeepsMinted (f a))
      → KeepsMinted (with_args c kind s w f)
  with_args-Kept (decoded a) kind f h = h a
  with_args-Kept (malformed e) kind f h = kept

  if-Kept :
      (b : Bool) (x y : Reply W) → KeepsMinted x → KeepsMinted y → KeepsMinted (if b then x else y)
  if-Kept true x y h g = h
  if-Kept false x y h g = g

  written-Kept :
      (cfg : TodoConfig W) (t : TodoStore) (r : Option Text × W)
      → IsMinted room t
      → KeepsMinted (written cfg t r)
  written-Kept cfg t (none, u) h = h
  written-Kept cfg t (some e, u) h = h

  module _ (cfg : TodoConfig W) (write : List Todo → W → Option Text × W) where
    do_add-Kept : (args : Text) → KeepsMinted (do_add cfg write args s w)
    unfolding do_add
    do_add-Kept args = with_args-Kept (unmarshal_args cfg kind_add args) kind_add _ (λ a.
        with_valid-Kept (valid_title cfg a.title) _ (λ title. if-Kept (is_nil title) _ _ kept (
          with_valid-Kept (valid_state cfg a.state) _ (λ state.
            if-Kept (leb todo_max_items (length s.items)) _ _ kept (
              written-Kept cfg (added title state s) (write (added title state s).items w)
                (added-IsMinted room title state s v))))))

    do_edit-Kept : (args : Text) → KeepsMinted (do_edit cfg write args s w)
    unfolding do_edit
    do_edit-Kept args = with_args-Kept (unmarshal_args cfg kind_edit args) kind_edit _ (λ a.
        with_found-Kept (resolve a.id s.items) _ (λ k.
          if-Kept (is_nil a.title && is_nil a.state) _ _ kept (
            with_valid-Kept (valid_title cfg a.title) _ (λ title.
              with_valid-Kept (valid_state cfg a.state) _ (λ state. written-Kept cfg _ (write _ w) (
                update_at-IsMinted room k (λ t. restated state (retitled title t)) s
                  (restated_id state title) kept))))))

    do_cancel-Kept : (args : Text) → KeepsMinted (do_cancel cfg write args s w)
    unfolding do_cancel
    do_cancel-Kept args = with_args-Kept (unmarshal_args cfg kind_cancel args) kind_cancel _ (λ a.
        with_found-Kept (resolve a.id s.items) _
          (λ k. written-Kept cfg _ (write _ w) (remove_at-IsMinted room k s kept)))

    do_complete-Kept : (args : Text) → KeepsMinted (do_complete cfg write args s w)
    unfolding do_complete
    do_complete-Kept args =
        with_args-Kept (unmarshal_args cfg kind_complete args) kind_complete _ (λ a.
          with_found-Kept (resolve a.id s.items) _ (λ k.
            written-Kept cfg _ (write _ w)
              (update_at-IsMinted room k (λ t. record t { state = todo_done }) s (λ t. refl) kept)))

    run_kind-Kept : (kind : TodoKind) (args : Text) → KeepsMinted (run_kind cfg kind write args s w)
    unfolding run_kind
    run_kind-Kept kind_add args = do_add-Kept args
    run_kind-Kept kind_edit args = do_edit-Kept args
    run_kind-Kept kind_cancel args = do_cancel-Kept args
    run_kind-Kept kind_complete args = do_complete-Kept args

module _ {W : Type 0} (cfg : TodoConfig W) where
  execute-Kept :
      (room : ℕ) (s : TodoStore) (w : W)
      → IsMinted (room + 1) s
      → (kind : TodoKind) (args : Text) → IsMinted room (execute cfg kind args s w).1.0
  unfolding execute
  execute-Kept room s w v kind args = go cfg.write
    where
      go :
          (o : Option (List Todo → W → Option Text × W))
          → IsMinted room (if_writable cfg o kind args s w).1.0
      go none = kept room s w v
      go (some write) = run_kind-Kept room s w v cfg write kind args

  -- The store after some calls, in this order.
  unfoldable pub after_calls : List (TodoKind × Text) → TodoStore → W → TodoStore
  unfolding execute
  after_calls [] s w = s
  after_calls ((kind, args) ∷ calls) s w =
      after_calls calls (execute cfg kind args s w).1.0 (execute cfg kind args s w).1.1

  after_calls-Kept :
      (calls : List (TodoKind × Text)) (s : TodoStore) (w : W)
      → IsMinted (length calls) s
      → IsMinted 0 (after_calls calls s w)
  unfolding after_calls
  after_calls-Kept [] s w v = v
  after_calls-Kept ((kind, args) ∷ calls) s w v =
      let next : length calls + 1 ≡ suc (length calls) = omega arith in
      after_calls-Kept calls (execute cfg kind args s w).1.0 (execute cfg kind args s w).1.1
        (execute-Kept (length calls) s w (subst (λ n. IsMinted n s) (sym next) v) kind args)

  -- Where the initial list has each id once, and its ids are so small that the calls cannot use up the
  -- ints of 64 bits, then after any calls of the four tools, failed ones too, each id of the list names
  -- one task, and the next id to be handed out is above all of them.
  pub after_calls-IsMinted :
      (initial : List Todo) (calls : List (TodoKind × Text)) (w : W) (bound : ℕ)
      → unique initial ≡ true
      → all_below bound initial ≡ true
      → 0 < bound
      → bound + length calls ≤ max_int
      → IsMinted 0 (after_calls calls (new_todo_store initial) w)
  after_calls-IsMinted initial calls w bound h under some_ space =
      after_calls-Kept calls (new_todo_store initial) w
        (new_todo_store-IsMinted bound (length calls) initial h under some_ space)

-- ===== src/Todo.antt =====
-- todo/todo.go: the task list of a run and the four tools that change it. A tool's result is given with
-- the store that it leaves. A decoder gives the fields of a tool's argument struct; those that the
-- struct lacks are at their zero values. The tools' declarations, with their schemas, are left out.
pub mod Minted
pub mod Kept
pub mod Untouched
mod Examples
use agentic_loop.Prelude.{
  Text, codes, ℕ, List, Bool, if◌then◌else◌, Option, trim_space, ◌∷◌, text_eq, is_nil, [], ◌++◌,
  leb, some, ◌||◌, decimal, true, false, ltb, length, ◌&&◌, suc, ◌==◌, ◌+◌, none, zero,
}
use agentic_loop.Prelude.Int.{ℤ, pos, negsuc, ltb_ℤ}
use agentic_loop.Tools.{ToolResult, ToolContentPart}

-- A string type that is not closed: a restored list may hold any text.
abbrev pub TodoState : Type 0
TodoState = Text

abbrev pub todo_pending : TodoState
todo_pending = codes "pending"

abbrev pub todo_in_progress : TodoState
todo_in_progress = codes "in_progress"

abbrev pub todo_done : TodoState
todo_done = codes "done"

abbrev pub todo_max_items : ℕ
todo_max_items = 100

abbrev pub todo_max_title_runes : ℕ
todo_max_title_runes = 200

pub record Todo : Type 0 where
  pub id : ℤ
  pub title : Text
  pub state : TodoState

pub record TodoStore : Type 0 where
  pub items : List Todo
  -- The next id to hand out.
  pub next : ℤ

pub data TodoKind : Type 0 where
  kind_add kind_edit kind_cancel kind_complete : TodoKind

pub record TodoArgs : Type 0 where
  pub id : ℤ
  pub title : Text
  pub state : TodoState

pub data Decoded : Type 0 where
  decoded : TodoArgs → Decoded
  malformed : Text → Decoded

-- A field after its check: its value, or the text of what is wrong.
pub data Checked : Type 0 where
  accepted : Text → Checked
  rejected : Text → Checked

pub data Found : Type 0 where
  at_index : ℕ → Found
  unresolved : Text → Found

unfoldable pub same_id : ℤ → ℤ → Bool
same_id (pos a) (pos b) = a == b
same_id (negsuc a) (negsuc b) = a == b
same_id _ _ = false

-- strconv.Itoa
abbrev itoa : ℤ → Text
itoa (pos n) = decimal n
itoa (negsuc n) = codes "-" ++ decimal (n + 1)

-- The largest int of 64 bits.
abbrev pub max_int : ℕ
max_int = 9_223_372_036_854_775_807

-- One more, as an int of 64 bits, which wraps round.
unfoldable pub succ_int : ℤ → ℤ
succ_int (pos n) = if n == max_int then negsuc max_int else pos (n + 1)
succ_int (negsuc zero) = pos 0
succ_int (negsuc (suc n)) = negsuc n

-- An id as high as the next one moves that above it.
unfoldable pub above : ℤ → ℤ → ℤ
unfolding succ_int
above id next = if ltb_ℤ id next then next else succ_int id

abbrev pub mint_above : List Todo → ℤ → ℤ
unfolding above
mint_above [] next = next
mint_above (t ∷ ts) next = mint_above ts (above t.id next)

unfoldable pub new_todo_store : List Todo → TodoStore
unfolding mint_above
new_todo_store initial = record { items = initial; next = mint_above initial (pos 1) }

abbrev at_end : ℤ → Option ℕ → Found
at_end id none =
    unresolved
      (codes "no task with id " ++ itoa id ++ codes "; use a task id from the latest reply")
at_end id (some k) = at_index k

abbrev if_first : ℤ → Option ℕ → Found → Found
if_first id none rest = rest
if_first id (some k) rest =
    unresolved (codes "task id " ++ itoa id ++ codes " is ambiguous: it names more than one task")

-- The items from index `i` on, with the index that was found before.
abbrev pub resolve_from : ℕ → Option ℕ → ℤ → List Todo → Found
resolve_from i idx id [] = at_end id idx
resolve_from i idx id (t ∷ ts) =
    let hit = resolve_from (i + 1) (some i) id ts in
    let rest = resolve_from (i + 1) idx id ts in
    if same_id t.id id then if_first id idx hit else rest

unfoldable pub resolve : ℤ → List Todo → Found
resolve id items = resolve_from 0 none id items

abbrev pub update_at : ℕ → (Todo → Todo) → List Todo → List Todo
update_at k f [] = []
update_at zero f (t ∷ ts) = f t ∷ ts
update_at (suc k) f (t ∷ ts) = t ∷ update_at k f ts

abbrev pub remove_at : ℕ → List Todo → List Todo
remove_at k [] = []
remove_at zero (t ∷ ts) = ts
remove_at (suc k) (t ∷ ts) = t ∷ remove_at k ts

abbrev known_todo_state : TodoState → Bool
known_todo_state s = text_eq todo_pending s || text_eq todo_in_progress s || text_eq todo_done s

abbrev pub todo_default_state : TodoState → TodoState
todo_default_state s = if is_nil s then todo_pending else s

abbrev todo_mark : TodoState → Text
todo_mark s =
    if text_eq s todo_done
    then codes "[x]"
    else if text_eq s todo_in_progress
    then codes "[~]"
    else codes "[ ]"

abbrev todo_lines : List Todo → Text
todo_lines [] = []
todo_lines (t ∷ ts) =
    0x0a ∷ todo_mark t.state ++ codes " #" ++ itoa t.id ++ codes " " ++ t.title ++ todo_lines ts

abbrev pub render_todos : List Todo → Text
render_todos [] = codes "Task list cleared."
render_todos (t ∷ ts) =
    codes "Task list updated ("
    ++ decimal (length (t ∷ ts))
    ++ codes " tasks):"
    ++ todo_lines (t ∷ ts)

module _ (W : Type 0) where
  pub record TodoConfig : Type 0 where
    -- An error by its text; none where the host gives no function.
    pub write : Option (List Todo → W → Option Text × W)
    -- encoding/json on a tool's arguments, and on the list that the host gets.
    pub decode : TodoKind → Text → Decoded
    pub marshal : List Todo → Text
    -- The length in runes; strconv.Quote.
    pub rune_count : Text → ℕ
    pub quote : Text → Text

  abbrev pub Reply : Type 0
  Reply = ToolResult × (TodoStore × W)

abbrev pub tool_name : TodoKind → Text
tool_name kind_add = codes "todo_add"
tool_name kind_edit = codes "todo_edit"
tool_name kind_cancel = codes "todo_cancel"
tool_name kind_complete = codes "todo_complete"

abbrev todo_list_part : Text → ToolContentPart
todo_list_part list = record {
  block_type = codes "todo_list";
  text = list;
  payload = [];
  mime_type = codes "application/json";
  uri = [];
  name = [];
  description = [];
}

module _ {W : Type 0} where
  abbrev pub failed : Text → TodoStore → W → Reply W
  failed msg s w = (record { content = msg; parts = []; is_error = true }, (s, w))

  abbrev pub with_valid : Checked → TodoStore → W → (Text → Reply W) → Reply W
  with_valid (accepted t) s w f = f t
  with_valid (rejected msg) s w f = failed msg s w

  abbrev pub with_found : Found → TodoStore → W → (ℕ → Reply W) → Reply W
  with_found (at_index k) s w f = f k
  with_found (unresolved msg) s w f = failed msg s w

  abbrev pub with_args : Decoded → TodoKind → TodoStore → W → (TodoArgs → Reply W) → Reply W
  with_args (decoded a) kind s w f = f a
  with_args (malformed e) kind s w f =
      failed (codes "invalid " ++ tool_name kind ++ codes " arguments: " ++ e) s w

  abbrev pub written : TodoConfig W → TodoStore → Option Text × W → Reply W
  written cfg s (some e, w) = failed (codes "could not save the task list: " ++ e) s w
  written cfg s (none, w) = (
    record {
      content = render_todos s.items;
      parts = todo_list_part (cfg.marshal s.items) ∷ [];
      is_error = false;
    },
    (s, w),
  )

  -- The store keeps the change where the host's write fails.
  abbrev pub write_list : TodoConfig W → (List Todo → W → Option Text × W) → TodoStore → W → Reply W
  write_list cfg write s w = written cfg s (write s.items w)

unfoldable pub added : Text → TodoState → TodoStore → TodoStore
unfolding succ_int
added title state s = record {
  items = s.items ++ record { id = s.next; title = title; state = todo_default_state state } ∷ [];
  next = succ_int s.next;
}

abbrev pub retitled : Text → Todo → Todo
retitled title t = if is_nil title then t else record t { title = title }

abbrev pub restated : TodoState → Todo → Todo
restated state t = if is_nil state then t else record t { state = state }

module _ {W : Type 0} (cfg : TodoConfig W) where
  abbrev pub unmarshal_args : TodoKind → Text → Decoded
  unmarshal_args kind args =
      if is_nil args then malformed (codes "empty payload") else cfg.decode kind args

  abbrev pub valid_title : Text → Checked
  valid_title title =
      let trimmed = trim_space title in
      if is_nil title
      then accepted []
      else if is_nil trimmed
      then rejected (codes "title is empty; every task needs one")
      else if ltb todo_max_title_runes (cfg.rune_count trimmed)
      then rejected (
          codes "title has "
          ++ decimal (cfg.rune_count trimmed)
          ++ codes " characters; the limit is "
          ++ decimal todo_max_title_runes
          ++ codes ". It is a task name, not a description.")
      else accepted trimmed

  abbrev pub valid_state : TodoState → Checked
  valid_state state =
      let s = trim_space state in
      if is_nil s
      then accepted []
      else if known_todo_state s
      then accepted s
      else rejected
          (codes "state " ++ cfg.quote s ++ codes "; it must be one of pending, in_progress, done")

  abbrev pub add_valid :
      (List Todo → W → Option Text × W) → TodoStore → W → Text → TodoState → Reply W
  add_valid write s w title state =
      if leb todo_max_items (length s.items)
      then failed
          (codes "too many tasks: the list holds at most "
            ++ decimal todo_max_items
            ++ codes ". Track the work at a coarser grain.")
          s w
      else write_list cfg write (added title state s) w

  unfoldable pub do_add : (List Todo → W → Option Text × W) → Text → TodoStore → W → Reply W
  do_add write args s w = with_args (unmarshal_args kind_add args) kind_add s w (λ a.
      with_valid (valid_title a.title) s w (λ title.
        if is_nil title
        then failed (codes "title is empty; every task needs one") s w
        else with_valid (valid_state a.state) s w (λ state. add_valid write s w title state)))

  unfoldable pub do_edit : (List Todo → W → Option Text × W) → Text → TodoStore → W → Reply W
  unfolding resolve
  do_edit write args s w = with_args (unmarshal_args kind_edit args) kind_edit s w (λ a.
      with_found (resolve a.id s.items) s w (λ k.
        if is_nil a.title && is_nil a.state
        then failed (codes "todo_edit: nothing to change; provide a title and/or a state") s w
        else with_valid (valid_title a.title) s w (λ title.
          with_valid (valid_state a.state) s w (λ state.
            write_list cfg write
              (record s { items = update_at k (λ t. restated state (retitled title t)) s.items })
              w))))

  unfoldable pub do_cancel : (List Todo → W → Option Text × W) → Text → TodoStore → W → Reply W
  unfolding resolve
  do_cancel write args s w = with_args (unmarshal_args kind_cancel args) kind_cancel s w (λ a.
      with_found (resolve a.id s.items) s w
        (λ k. write_list cfg write (record s { items = remove_at k s.items }) w))

  unfoldable pub do_complete : (List Todo → W → Option Text × W) → Text → TodoStore → W → Reply W
  unfolding resolve
  do_complete write args s w = with_args (unmarshal_args kind_complete args) kind_complete s w (λ a.
      with_found (resolve a.id s.items) s w (λ k.
        write_list cfg write
          (record s { items = update_at k (λ t. record t { state = todo_done }) s.items }) w))

  abbrev pub run_kind :
      TodoKind → (List Todo → W → Option Text × W) → Text → TodoStore → W → Reply W
  unfolding do_add do_edit do_cancel do_complete
  run_kind kind_add write = do_add write
  run_kind kind_edit write = do_edit write
  run_kind kind_cancel write = do_cancel write
  run_kind kind_complete write = do_complete write

  abbrev pub if_writable :
      Option (List Todo → W → Option Text × W) → TodoKind → Text → TodoStore → W → Reply W
  unfolding run_kind
  if_writable none kind args s w =
      failed (codes "the task list is unavailable: this run has nowhere to keep it") s w
  if_writable (some write) kind args s w = run_kind kind write args s w

  unfoldable pub execute : TodoKind → Text → TodoStore → W → Reply W
  unfolding if_writable
  execute kind args s w = if_writable cfg.write kind args s w

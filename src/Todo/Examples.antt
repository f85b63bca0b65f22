-- ===== src/Todo/Examples.antt =====
-- A task list whose host keeps it, restored with one task.
use agentic_loop.Prelude.{
  Text, ℕ, List, codes, trim_space, length, some, ◌∷◌, refl, [], none, ◌+◌, ◌≡◌, arith,
}
use agentic_loop.Prelude.Int.{pos, negsuc}
use agentic_loop.Todo.{
  max_int, mint_above, above, succ_int, added, Todo, TodoKind, TodoConfig, Decoded, kind_add,
  kind_cancel, kind_complete, decoded, new_todo_store, execute, todo_pending, todo_done,
  todo_in_progress, unmarshal_args, do_add, do_cancel, do_complete, resolve, same_id,
}
use agentic_loop.Todo.Minted.{IsMinted}
use agentic_loop.Todo.Kept.{after_calls, after_calls-IsMinted}
use agentic_loop.Todo.Untouched.{Untouched, execute-Untouched}

-- The payload's length is the id; its text is the title.
abbrev decode_length : TodoKind → Text → Decoded
decode_length kind args = decoded (record { id = pos (length args); title = args; state = [] })

abbrev kept_list : TodoConfig ℕ
kept_list = record {
  write = some (λ items w. (none, w + 1));
  decode = decode_length;
  marshal = λ items. [];
  rune_count = length;
  quote = λ t. t;
}

abbrev restored : List Todo
restored = record { id = pos 2; title = codes "read"; state = todo_in_progress } ∷ []

abbrev some_calls : List (TodoKind × Text)
some_calls = (kind_add, codes "write") ∷ (kind_complete, codes "ab") ∷ []

after_calls-IsMinted_example :
    IsMinted 0 (after_calls kept_list some_calls (new_todo_store restored) 0)
after_calls-IsMinted_example =
    after_calls-IsMinted kept_list restored some_calls 0 3 refl refl (omega arith) (omega arith)

execute-Untouched_example :
    Untouched kind_cancel
      (unmarshal_args kept_list kind_cancel (codes "ab"))
      restored
      (execute kept_list kind_cancel (codes "ab") (new_todo_store restored) 0).1.0.items
unfolding new_todo_store
execute-Untouched_example =
    execute-Untouched kept_list kind_cancel (codes "ab") (new_todo_store restored) 0

-- The new task gets an id above the restored one, which is then done.
added_and_done :
    (after_calls kept_list some_calls (new_todo_store restored) 0).items
    ≡ record { id = pos 2; title = codes "read"; state = todo_done }
      ∷ record { id = pos 3; title = codes "write"; state = todo_pending }
      ∷ []
unfolding after_calls execute new_todo_store do_add do_complete resolve same_id trim_space
    mint_above above succ_int added
added_and_done = refl

-- A cancelled id is not handed out again.
not_reused :
    (after_calls kept_list
      ((kind_cancel, codes "ab") ∷ (kind_add, codes "new") ∷ [])
      (new_todo_store restored)
      0).items
    ≡ record { id = pos 3; title = codes "new"; state = todo_pending } ∷ []
unfolding after_calls execute new_todo_store do_add do_cancel resolve same_id trim_space mint_above
    above succ_int added
not_reused = refl

-- At the largest int the next id wraps round, so that a list with both ends of the range gives one of
-- its ids out again.
wraps :
    (new_todo_store (
      record { id = negsuc max_int; title = codes "a"; state = todo_done }
      ∷ record { id = pos max_int; title = codes "b"; state = todo_done }
      ∷ [])).next
    ≡ negsuc max_int
unfolding new_todo_store mint_above above succ_int
wraps = refl

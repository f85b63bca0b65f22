-- ===== src/Tools/Examples.antt =====
-- A call of a read-only tool with nobody to ask, and two batches.
use agentic_loop.Prelude.{codes, ℕ, ◌∷◌, [], none, true, false, some, ◌≡◌, ◌+◌, ◌↔◌}
use agentic_loop.Message.{ToolCall, ToolDecl}
use agentic_loop.Tools.{Tool, CallConfig, ok, resolve_call, batch_fingerprint}
use agentic_loop.Tools.Gate.{Resolved, resolve_call-Resolved}
use agentic_loop.Tools.Fingerprint.{requests, batch_fingerprint_iff}

abbrev list_files : ToolDecl
list_files = record {
  name = codes "ls";
  description = [];
  input_schema = [];
  readonly = true;
  destructive = none;
  idempotent = false;
  open_world = none;
  unvouched = false;
}

-- The tool counts its runs.
abbrev counting : Tool ℕ
counting = record {
  decl = list_files;
  execute =
      λ id args n. (ok (record { content = codes "a b"; parts = []; is_error = false }), n + 1);
}

abbrev config : CallConfig ℕ
config = record { tools = none ∷ some counting ∷ []; approver = none; unknown_tool = none }

abbrev call : ToolCall
call = record { id = codes "1"; name = codes "ls"; arguments = codes "{}" }

resolve_call-Resolved_example : Resolved ℕ config call 0 (resolve_call ℕ config call 0)
resolve_call-Resolved_example = resolve_call-Resolved ℕ config call 0

abbrev other_call : ToolCall
other_call = record { id = codes "2"; name = codes "ls"; arguments = codes "{}" }

batch_fingerprint_iff_example :
    (batch_fingerprint (call ∷ []) ≡ batch_fingerprint (other_call ∷ []))
    ↔ (requests (call ∷ []) ≡ requests (other_call ∷ []))
batch_fingerprint_iff_example = batch_fingerprint_iff (call ∷ []) (other_call ∷ [])

-- ===== src/ArgScan.antt =====
-- internal/loop/argscan.go: reads the top-level members of a JSON object off a stream, as each
-- completes. `unquote` stands for encoding/json's Unmarshal of a JSON string literal.
pub mod Objects
mod Examples
use agentic_loop.Prelude.{
  Text, [], Bool, ℕ, Option, false, true, ◌==◌, ◌++◌, if◌then◌else◌, none, List, some, ◌||◌, ◌∷◌,
  ◌&&◌, not, ◌+◌, ◌-◌,
}

pub record ArgMember : Type 0 where
  pub key : Text
  pub value : Text

pub data ArgScanState : Type 0 where
  start key_or_end in_key colon value_start val_string val_nested val_scalar after_value scan_done
        scan_dead :
      ArgScanState

pub record ArgScanner : Type 0 where
  pub state : ArgScanState
  pub key : Text
  pub value : Text
  pub esc : Bool
  pub in_str : Bool
  pub depth : ℕ
  pub key_raw : Text

pub new_arg_scanner : ArgScanner
new_arg_scanner = record {
  state = start;
  key = [];
  value = [];
  esc = false;
  in_str = false;
  depth = 0;
  key_raw = [];
}

pub ended : ArgScanner → Bool
ended s = elim s.state [ scan_done ↦ true | scan_dead ↦ true | _ ↦ false ]

abbrev pub is_json_space : ℕ → Bool
is_json_space c = c == 0x20 || c == 0x09 || c == 0x0a || c == 0x0d

abbrev pub Scanned : Type 0
Scanned = ArgScanner × Option ArgMember

abbrev go_to : ArgScanState → ArgScanner → ArgScanner
go_to st s = record s { state = st }

abbrev write : ℕ → ArgScanner → ArgScanner
write c s = record s { value = s.value ++ c ∷ [] }

abbrev step_start : ℕ → ArgScanner → ArgScanner
step_start c s =
    if is_json_space c then s else if c == b'{' then go_to key_or_end s else go_to scan_dead s

abbrev step_key_or_end : ℕ → ArgScanner → ArgScanner
step_key_or_end c s =
    if is_json_space c || c == b','
    then s
    else if c == 0x22
    then record s { key = c ∷ []; esc = false; state = in_key }
    else if c == b'}'
    then go_to scan_done s
    else go_to scan_dead s

abbrev step_key : ℕ → ArgScanner → ArgScanner
step_key c s =
    let key = s.key ++ c ∷ [] in
    if s.esc
    then record s { key = key; esc = false }
    else if c == 0x5c
    then record s { key = key; esc = true }
    else if c == 0x22
    then record s { key = key; key_raw = key; state = colon }
    else record s { key = key }

abbrev step_colon : ℕ → ArgScanner → ArgScanner
step_colon c s =
    if is_json_space c then s else if c == b':' then go_to value_start s else go_to scan_dead s

abbrev opens : ℕ → Bool
opens c = c == b'{' || c == b'['

abbrev closes : ℕ → Bool
closes c = c == b'}' || c == b']'

abbrev step_value_start : ℕ → ArgScanner → ArgScanner
step_value_start c s =
    if is_json_space c
    then s
    else if c == 0x22
    then record s { value = c ∷ []; esc = false; state = val_string }
    else if opens c
    then record s { value = c ∷ []; esc = false; depth = 1; in_str = false; state = val_nested }
    else record s { value = c ∷ []; esc = false; state = val_scalar }

abbrev step_after_value : ℕ → ArgScanner → ArgScanner
step_after_value c s =
    if is_json_space c
    then s
    else if c == b','
    then go_to key_or_end s
    else if c == b'}'
    then go_to scan_done s
    else go_to scan_dead s

-- The inner `s.step(c)` of a scalar: `complete` has left the scanner after a value, or dead.
abbrev read_delimiter : ℕ → ArgScanner → ArgScanner
read_delimiter c s = elim s.state [ after_value ↦ step_after_value c s | _ ↦ s ]

module _ (unquote : Text → Option Text) where
  abbrev completed : ArgScanner → Option Text → Scanned
  completed s none = (go_to scan_dead s, none)
  completed s (some key) = (go_to after_value s, some (record { key = key; value = s.value }))

  pub complete : ArgScanner → Scanned
  complete s = completed s (unquote s.key_raw)

  abbrev step_string : ℕ → ArgScanner → Scanned
  unfolding complete
  step_string c s =
      if s.esc
      then (record (write c s) { esc = false }, none)
      else if c == 0x5c
      then (record (write c s) { esc = true }, none)
      else if c == 0x22
      then complete (write c s)
      else (write c s, none)

  abbrev step_close : ArgScanner → Scanned
  unfolding complete
  step_close s = if s.depth == 0 then complete s else (s, none)

  abbrev step_nested : ℕ → ArgScanner → Scanned
  step_nested c s =
      if s.esc
      then (record (write c s) { esc = false }, none)
      else if s.in_str && c == 0x5c
      then (record (write c s) { esc = true }, none)
      else if c == 0x22
      then (record (write c s) { in_str = not s.in_str }, none)
      else if s.in_str
      then (write c s, none)
      else if opens c
      then (record (write c s) { depth = s.depth + 1 }, none)
      else if closes c
      then step_close (record (write c s) { depth = s.depth - 1 })
      else (write c s, none)

  abbrev with_delimiter : ℕ → Scanned → Scanned
  with_delimiter c (s, m) = (read_delimiter c s, m)

  abbrev step_scalar : ℕ → ArgScanner → Scanned
  unfolding complete
  step_scalar c s =
      if c == b',' || c == b'}' || is_json_space c
      then with_delimiter c (complete s)
      else (write c s, none)

  abbrev step_in : ArgScanState → ℕ → ArgScanner → Scanned
  step_in start c s = (step_start c s, none)
  step_in key_or_end c s = (step_key_or_end c s, none)
  step_in in_key c s = (step_key c s, none)
  step_in colon c s = (step_colon c s, none)
  step_in value_start c s = (step_value_start c s, none)
  step_in val_string c s = step_string c s
  step_in val_nested c s = step_nested c s
  step_in val_scalar c s = step_scalar c s
  step_in after_value c s = (step_after_value c s, none)
  step_in scan_done c s = (s, none)
  step_in scan_dead c s = (s, none)

  pub step : ℕ → ArgScanner → Scanned
  step c s = step_in s.state c s

  abbrev collected : Option ArgMember → List ArgMember → List ArgMember
  collected none ms = ms
  collected (some m) ms = m ∷ ms

  -- The members in order, with the scanner that is left.
  pub feed : Text → ArgScanner → List ArgMember × ArgScanner
  unfolding step
  feed [] s = ([], s)
  feed (c ∷ delta) s = let rest = feed delta (step c s).0 in (collected (step c s).1 rest.0, rest.1)

-- ===== src/ArgScan/Objects.antt =====
-- Whole objects of string members, read by the scanner of internal/loop/argscan.go.
use agentic_loop.Prelude.{
  refl, append_assoc, ℕ, Bool, List, Text, not, ◌∷◌, Option, [], ◌==◌, ◌++◌, false, allb, ◌&&◌, ◌≡◌,
  true, append-nil, arith, append_assoc, some, ◌∙◌, All, map, ap,
}
use agentic_loop.ArgScan.{
  ArgMember, ArgScanner, ArgScanState, key_or_end, in_key, val_string, after_value, scan_done, step,
  feed, complete, step_string,
}

-- A byte of a string literal by itself, and one after a backslash.
pub data Piece : Type 0 where
  plain escaped : ℕ → Piece

abbrev pub is_clean : Piece → Bool
is_clean (plain c) = not (c == 0x22) && not (c == 0x5c)
is_clean (escaped c) = true

abbrev pub bytes : List Piece → Text
bytes [] = []
bytes (plain c ∷ ps) = c ∷ bytes ps
bytes (escaped c ∷ ps) = 0x5c ∷ c ∷ bytes ps

abbrev pub literal : List Piece → Text
literal ps = 0x22 ∷ bytes ps ++ 0x22 ∷ []

pub record Entry : Type 0 where
  pub name : List Piece
  pub value : List Piece

-- One member, and then `rest`.
abbrev pub entry_then : Entry → Text → Text
entry_then e rest = 0x22 ∷ bytes e.name ++ (0x22 ∷ b':' ∷ 0x22 ∷ bytes e.value ++ (0x22 ∷ rest))

abbrev pub entries_then : List Entry → Text
entries_then [] = b'}' ∷ []
entries_then (e ∷ es) = b',' ∷ entry_then e (entries_then es)

-- The text of an object.
abbrev pub object_text : List Entry → Text
object_text [] = b'{' ∷ b'}' ∷ []
object_text (e ∷ es) = b'{' ∷ entry_then e (entries_then es)

abbrev pub member : (Entry → Text) → Entry → ArgMember
member key e = record { key = key e; value = literal e.value }

module _ (unquote : Text → Option Text) where
  abbrev reading : ArgScanState → Text → Text → Bool → ℕ → Text → ArgScanner
  reading st k v i d r = record {
    state = st;
    key = k;
    value = v;
    esc = false;
    in_str = i;
    depth = d;
    key_raw = r;
  }

  key_bytes :
      (ps : List Piece) (rest k v : Text) (i : Bool) (d : ℕ) (r : Text)
      → allb is_clean ps ≡ true
      → feed unquote (bytes ps ++ rest) (reading in_key k v i d r)
        ≡ feed unquote rest (reading in_key (k ++ bytes ps) v i d r)
  unfolding feed step
  key_bytes [] rest k v i d r h = rw (append-nil k)
  key_bytes (plain c ∷ ps) rest k v i d r h =
      let quote : (c == 0x22) ≡ false = ground arith in
      let slash : (c == 0x5c) ≡ false = ground arith in
      rw (quote, slash, ← append_assoc k (c ∷ []) (bytes ps))
        (key_bytes ps rest (k ++ c ∷ []) v i d r (ground arith))
  key_bytes (escaped c ∷ ps) rest k v i d r h =
      rw (← append_assoc k (0x5c ∷ c ∷ []) (bytes ps), ← append_assoc k (0x5c ∷ []) (c ∷ []))
        (key_bytes ps rest ((k ++ 0x5c ∷ []) ++ c ∷ []) v i d r h)

  value_bytes :
      (ps : List Piece) (rest k v : Text) (i : Bool) (d : ℕ) (r : Text)
      → allb is_clean ps ≡ true
      → feed unquote (bytes ps ++ rest) (reading val_string k v i d r)
        ≡ feed unquote rest (reading val_string k (v ++ bytes ps) i d r)
  unfolding feed step step_string
  value_bytes [] rest k v i d r h = rw (append-nil v)
  value_bytes (plain c ∷ ps) rest k v i d r h =
      let quote : (c == 0x22) ≡ false = ground arith in
      let slash : (c == 0x5c) ≡ false = ground arith in
      rw (quote, slash, ← append_assoc v (c ∷ []) (bytes ps))
        (value_bytes ps rest k (v ++ c ∷ []) i d r (ground arith))
  value_bytes (escaped c ∷ ps) rest k v i d r h =
      rw (← append_assoc v (0x5c ∷ c ∷ []) (bytes ps), ← append_assoc v (0x5c ∷ []) (c ∷ []))
        (value_bytes ps rest k ((v ++ 0x5c ∷ []) ++ c ∷ []) i d r h)

  -- The names are read as `key` says, and the pieces are what they say.
  abbrev pub Readable : (Entry → Text) → Entry → Type 0
  Readable key e =
      (allb is_clean e.name ≡ true)
      × (allb is_clean e.value ≡ true)
      × (unquote (literal e.name) ≡ some (key e))

  one_entry :
      (key : Entry → Text) (e : Entry) (rest k v : Text) (i : Bool) (d : ℕ) (r : Text)
      → Readable key e
      → feed unquote (entry_then e rest) (reading key_or_end k v i d r) ≡ (
        member key e
            ∷ (feed unquote rest
                (reading after_value (literal e.name) (literal e.value) i d (literal e.name))).0,
        (feed unquote rest
            (reading after_value (literal e.name) (literal e.value) i d (literal e.name))).1,
      )
  unfolding feed step step_string complete
  one_entry key e rest k v i d r (name, value, known) =
      let named : Text = literal e.name in
      let tail : Text = 0x22 ∷ b':' ∷ 0x22 ∷ bytes e.value ++ (0x22 ∷ rest) in
      let opened : feed unquote (entry_then e rest) (reading key_or_end k v i d r)
          ≡ feed unquote (bytes e.name ++ tail) (reading in_key (0x22 ∷ []) v i d r) =
        refl in
      let between : feed unquote tail (reading in_key (0x22 ∷ bytes e.name) v i d r)
          ≡ feed unquote (bytes e.value ++ 0x22 ∷ rest)
              (reading val_string named (0x22 ∷ []) i d named) =
        refl in
      opened
      ∙ key_bytes e.name tail (0x22 ∷ []) v i d r name
      ∙ between
      ∙ value_bytes e.value (0x22 ∷ rest) named (0x22 ∷ []) i d named value
      ∙ rw known refl

  entries :
      (key : Entry → Text) (es : List Entry) (k v : Text) (i : Bool) (d : ℕ) (r : Text)
      → All (Readable key) es
      → ((feed unquote (entries_then es) (reading after_value k v i d r)).0 ≡ map (member key) es)
        × ((feed unquote (entries_then es) (reading after_value k v i d r)).1.state ≡ scan_done)
  unfolding feed step
  entries key [] k v i d r h = (refl, refl)
  entries key (e ∷ es) k v i d r (h, hs) =
      let named : Text = literal e.name in
      let rest = entries key es named (literal e.value) i d named hs in
      let first = one_entry key e (entries_then es) k v i d r h in
      (ap (λ p. p.0) first ∙ ap (λ l. member key e ∷ l) rest.0, ap (λ p. p.1.state) first ∙ rest.1)

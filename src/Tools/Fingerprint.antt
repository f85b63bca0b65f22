-- ===== src/Tools/Fingerprint.antt =====
-- The fingerprint of a batch, by which the run tells that a model repeats itself.
use agentic_loop.Prelude.{
  ℕ, List, Text, ◌≤◌, ◌∷◌, ◌*◌, [], ◌+◌, ◌-◌, ◌<◌, decimal, All, length, ◌++◌, ◌≡◌, digits_before,
  suc, arith, append_assoc, sym, ◌↔◌, ◌/◌, Bool-cases, ap, ◌∙◌, refl, ◌%◌, ltb, zero, inl, inr, ◌≢◌,
}
use agentic_loop.Message.{ToolCall}
use agentic_loop.Tools.{batch_fingerprint, field}

-- What the fingerprint is meant to identify: the names and the raw arguments, in order.
abbrev pub requests : List ToolCall → List (Text × Text)
requests [] = []
requests (c ∷ cs) = (c.name, c.arguments) ∷ requests cs

-- The value of a decimal number.
value : ℕ → Text → ℕ
value n [] = n
value n (c ∷ s) = value (n * 10 + (c - b'0')) s

IsDigit : ℕ → Type 0
IsDigit c = (b'0' ≤ c) × (c ≤ b'9')

digits_before-value :
    (fuel n : ℕ) (out : Text) → n < fuel → value 0 (digits_before fuel n out) ≡ value n out
unfolding value
digits_before-value zero n out h = elim h [ ]
digits_before-value (suc fuel) n out h =
    ground (arith, digits_before-value fuel (n / 10) ((b'0' + n % 10) ∷ out))

digits_before-All :
    (fuel n : ℕ) (out : Text) → n < fuel → All IsDigit out → All IsDigit (digits_before fuel n out)
unfolding IsDigit
digits_before-All zero n out h d = elim h [ ]
digits_before-All (suc fuel) n out h d = elim (Bool-cases (ltb n 10)) [
  | inl small ↦ rw (small, All) ((ground arith, ground arith), d)
  | inr big ↦
      rw (big, All)
        (digits_before-All fuel (n / 10) _ (ground arith) ((ground arith, ground arith), d))
]

decimal-injective : (m n : ℕ) → decimal m ≡ decimal n → m ≡ n
unfolding decimal value
decimal-injective m n e = cc (
  digits_before-value (suc m) m [] (omega arith),
  digits_before-value (suc n) n [] (omega arith),
  ap (value 0) e,
)

decimal-All : (n : ℕ) → All IsDigit (decimal n)
unfolding decimal
decimal-All n = digits_before-All (suc n) n [] (omega arith) tt

-- A colon ends a number.
cut_at_colon :
    (u v r s : Text)
    → All IsDigit u
    → All IsDigit v
    → u ++ b':' ∷ r ≡ v ++ b':' ∷ s
    → (u ≡ v) × (r ≡ s)
unfolding IsDigit
cut_at_colon [] [] r s du dv e = (refl, ground arith)
cut_at_colon [] (d ∷ v) r s du (hd, dv) e = absurd (ground arith)
cut_at_colon (c ∷ u) [] r s (hc, du) dv e = absurd (ground arith)
cut_at_colon (c ∷ u) (d ∷ v) r s (hc, du) (hd, dv) e = ground (arith, cut_at_colon u v r s du dv)

cut_at_length : (a b r s : Text) → length a ≡ length b → a ++ r ≡ b ++ s → (a ≡ b) × (r ≡ s)
cut_at_length [] [] r s l e = (refl, e)
cut_at_length [] (d ∷ b) r s l e = absurd (omega arith)
cut_at_length (c ∷ a) [] r s l e = absurd (omega arith)
cut_at_length (c ∷ a) (d ∷ b) r s l e = ground (arith, cut_at_length a b r s)

field-append : (a r : Text) → field a ++ r ≡ decimal (length a) ++ b':' ∷ (a ++ b'|' ∷ r)
field-append a r = simp append_assoc

field-injective : (a b r s : Text) → field a ++ r ≡ field b ++ s → (a ≡ b) × (r ≡ s)
field-injective a b r s e =
    let (lengths, rest) =
      cut_at_colon _ _ _ _ (decimal-All (length a)) (decimal-All (length b))
        (sym (field-append a r) ∙ e ∙ field-append b s) in
    let (same, bars) = cut_at_length a b _ _ (decimal-injective _ _ lengths) rest in
    (same, ground arith)

cons-ne-nil : (u r : Text) (c : ℕ) → u ++ c ∷ r ≢ []
cons-ne-nil [] r c e = cc
cons-ne-nil (d ∷ u) r c e = cc

batch-cons :
    (c : ToolCall) (cs : List ToolCall)
    → batch_fingerprint (c ∷ cs) ≡ field c.name ++ (field c.arguments ++ batch_fingerprint cs)
unfolding batch_fingerprint
batch-cons c cs = append_assoc (field c.name) (field c.arguments) (batch_fingerprint cs)

batch-ne-nil : (c : ToolCall) (cs : List ToolCall) → batch_fingerprint (c ∷ cs) ≢ []
batch-ne-nil c cs e = cons-ne-nil (decimal (length c.name)) _ b':' (
    sym (field-append c.name (field c.arguments ++ batch_fingerprint cs))
    ∙ sym (batch-cons c cs)
    ∙ e)

batch-injective :
    (a b : List ToolCall) → batch_fingerprint a ≡ batch_fingerprint b → requests a ≡ requests b
batch-injective [] [] e = refl
batch-injective [] (d ∷ ds) e = absurd (batch-ne-nil d ds (unfold batch_fingerprint in sym e))
batch-injective (c ∷ cs) [] e = absurd (batch-ne-nil c cs (unfold batch_fingerprint in e))
batch-injective (c ∷ cs) (d ∷ ds) e =
    let (names, rest) =
      field-injective c.name d.name _ _ (sym (batch-cons c cs) ∙ e ∙ batch-cons d ds) in
    let (arguments, tails) = field-injective c.arguments d.arguments _ _ rest in
    cc (names, arguments, batch-injective cs ds tails)

batch-respects :
    (a b : List ToolCall) → requests a ≡ requests b → batch_fingerprint a ≡ batch_fingerprint b
unfolding batch_fingerprint
batch-respects [] [] e = refl
batch-respects [] (d ∷ ds) e = cc
batch-respects (c ∷ cs) [] e = cc
batch-respects (c ∷ cs) (d ∷ ds) e = ground (arith, batch-respects cs ds)

-- Two batches have the same fingerprint exactly when they ask for the same tools with the same raw
-- arguments in the same order.
pub batch_fingerprint_iff :
    (a b : List ToolCall) → (batch_fingerprint a ≡ batch_fingerprint b) ↔ (requests a ≡ requests b)
batch_fingerprint_iff a b = (batch-injective a b, batch-respects a b)

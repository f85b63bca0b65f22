-- ===== src/Prelude/Trim.antt =====
-- `strings.TrimSpace` over the bytes of a text: the white space of ASCII, and that of Unicode in UTF-8.
use mathlib.Core.List.{reverse, map}
use Prim.Native.Nat.{ℕ, zero, suc}
use mathlib.Core.Bool.{Bool, true, false, ◌&&◌, ◌||◌}
use mathlib.Core.List.{List, [], ◌∷◌}
use agentic_loop.Prelude.Tests.{leb, ◌==◌, if◌then◌else◌}
use agentic_loop.Prelude.Lists.{anyb}
use agentic_loop.Prelude.Strings.{Text}

unfoldable pub starts_with : Text → Text → Bool
starts_with s [] = true
starts_with [] (p ∷ ps) = false
starts_with (c ∷ s) (p ∷ ps) = c == p && starts_with s ps

abbrev is_space : ℕ → Bool
is_space c = c == b' ' || leb 9 c && leb c 13

-- U+0085 and U+00A0.
abbrev two_bytes : List Text
two_bytes = (0xc2 ∷ 0x85 ∷ []) ∷ (0xc2 ∷ 0xa0 ∷ []) ∷ []

-- U+1680, U+2000 to U+200A, U+2028, U+2029, U+202F, U+205F and U+3000.
abbrev three_bytes : List Text
three_bytes =
    (0xe1 ∷ 0x9a ∷ 0x80 ∷ [])
    ∷ (0xe2 ∷ 0x81 ∷ 0x9f ∷ [])
    ∷ (0xe3 ∷ 0x80 ∷ 0x80 ∷ [])
    ∷ map (λ c. 0xe2 ∷ 0x80 ∷ c ∷ [])
        (0x80 ∷ 0x81 ∷ 0x82 ∷ 0x83 ∷ 0x84 ∷ 0x85 ∷ 0x86 ∷ 0x87 ∷ 0x88 ∷ 0x89 ∷ 0x8a ∷ 0xa8 ∷ 0xa9
          ∷ 0xaf ∷ [])

-- How many bytes of white space a text begins with: one character's, or none.
space_width : List Text → List Text → Text → ℕ
unfolding starts_with
space_width two three [] = 0
space_width two three (c ∷ s) =
    if is_space c
    then 1
    else if anyb (starts_with (c ∷ s)) two
    then 2
    else if anyb (starts_with (c ∷ s)) three
    then 3
    else 0

-- The first argument counts the bytes of a character that are still to be dropped.
drop_space : List Text → List Text → ℕ → Text → Text
unfolding space_width
drop_space two three k [] = []
drop_space two three zero (c ∷ s) = elim (space_width two three (c ∷ s)) [
  | zero ↦ c ∷ s
  | suc k ↦ drop_space two three k s
]
drop_space two three (suc k) (c ∷ s) = drop_space two three k s

unfoldable pub trim_space : Text → Text
unfolding drop_space
trim_space s = reverse (
    drop_space (map reverse two_bytes) (map reverse three_bytes) 0
      (reverse (drop_space two_bytes three_bytes 0 s)))

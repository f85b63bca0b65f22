-- ===== src/ArgScan/Examples.antt =====
-- A member with a number, and an object of strings.
use agentic_loop.Prelude.{
  Text, ◌++◌, Option, codes, ◌≡◌, some, ◌∷◌, drop, [], take, refl, length, ◌-◌, List,
}
use agentic_loop.ArgScan.Objects.{plain, escaped, Entry, literal}
use agentic_loop.ArgScan.{new_arg_scanner, feed, step_scalar}

-- The key between its quotes.
abbrev between : Text → Option Text
between t = some (drop 1 (take (length t - 1) t))

abbrev first_half : Text
first_half = codes "{\"a\":"

abbrev second_half : Text
second_half = codes "17}"

reads_member :
    (feed between (first_half ++ second_half) new_arg_scanner).0
    ≡ record { key = codes "a"; value = codes "17" } ∷ []
unfolding feed new_arg_scanner step_scalar
reads_member = refl

-- {"a":"x\"","b":""}
abbrev two_entries : List Entry
two_entries =
    record { name = plain 0x61 ∷ []; value = plain 0x78 ∷ escaped 0x22 ∷ [] }
    ∷ record { name = plain 0x62 ∷ []; value = [] }
    ∷ []

abbrev first_byte : Entry → Text
first_byte e = drop 1 (take (length (literal e.name) - 1) (literal e.name))

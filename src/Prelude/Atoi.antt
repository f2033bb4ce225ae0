-- ===== src/Prelude/Atoi.antt =====
-- `strconv.Atoi` and `strings.Split`, of Go's library.
use Prim.Native.Nat.{ℕ, zero, suc, ◌+◌, ◌*◌, ◌-◌}
use mathlib.Core.Bool.{◌&&◌}
use mathlib.Core.Option.{Option, none, some}
use mathlib.Core.List.{List, [], ◌∷◌}
use axis_chat_server.Prelude.Tests.{leb, ◌==◌, if◌then◌else◌}
use axis_chat_server.Prelude.Lists.{Text}
use axis_chat_server.Prelude.Int.{ℤ, pos, negsuc}

-- `strconv.Atoi`, 0 on a text that is no number; the text of a number that does not fit is left out
abbrev pub digits_of : ℕ → Text → Option ℕ
digits_of n [] = some n
digits_of n (b ∷ bs) =
    let rest = digits_of (n * 10 + (b - 48)) bs in if leb 48 b && leb b 57 then rest else none

abbrev negative : ℕ → ℤ
negative zero = pos 0
negative (suc n) = negsuc n

unfoldable pub atoi : Text → ℤ
atoi [] = pos 0
atoi (b ∷ bs) =
    if b == b'-'
    then elim (digits_of 0 bs) [ none ↦ pos 0 | some n ↦ negative n ]
    else elim (digits_of 0 (b ∷ bs)) [ none ↦ pos 0 | some n ↦ pos n ]

-- the first part joined with the parts behind it
abbrev pub with_first : ℕ → List Text → List Text
with_first c [] = (c ∷ []) ∷ []
with_first c (part ∷ parts) = (c ∷ part) ∷ parts

-- `strings.Split` at a byte
unfoldable pub split : ℕ → Text → List Text
split sep [] = [] ∷ []
split sep (c ∷ s) = let rest = split sep s in if c == sep then [] ∷ rest else with_first c rest

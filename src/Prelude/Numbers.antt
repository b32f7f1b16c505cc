-- ===== src/Prelude/Numbers.antt =====
-- `strconv.Atoi` of Go's library, where an `int` has 64 bits.
use Prim.Native.Nat.{ℕ, ◌+◌, ◌-◌, ◌*◌, ◌^◌}
use mathlib.Core.Bool.{Bool, true, false, ◌&&◌}
use mathlib.Core.List.{[], ◌∷◌}
use mathlib.Core.Option.{Option, none, some}
use ngrok.Prelude.Tests.{leb, ltb, ◌==◌, if◌then◌else◌}
use ngrok.Prelude.Text.{Text}

unfoldable pub digits_value : ℕ → Text → Option ℕ
digits_value n [] = some n
digits_value n (c ∷ s) =
    let rest = digits_value (10 * n + (c - b'0')) s in
    if leb b'0' c && leb c b'9' then rest else none

unfoldable pub unsigned : Text → Option ℕ
unfolding digits_value
unsigned [] = none
unsigned (c ∷ s) = digits_value 0 (c ∷ s)

-- The number without its sign, if it is below the bound.
unfoldable pub below : ℕ → Bool → Option ℕ → Option (Bool × ℕ)
below bound negative none = none
below bound negative (some n) = if ltb n bound then some (negative, n) else none

-- Whether there is a minus sign, and the number behind it.
unfoldable pub atoi : Text → Option (Bool × ℕ)
unfolding unsigned below
atoi [] = none
atoi (c ∷ s) =
    if c == b'-'
    then below (2 ^ 63 + 1) true (unsigned s)
    else if c == b'+'
    then below (2 ^ 63) false (unsigned s)
    else below (2 ^ 63) false (unsigned (c ∷ s))

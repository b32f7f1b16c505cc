-- ===== src/Prelude/Text.antt =====
-- Texts as lists of code points, and the functions of Go's `strings` and `fmt` packages that the
-- program calls. Letters and white space are those of ASCII.
use Prim.Native.Char.{code}
use Prim.Native.Nat.{ℕ, zero, suc, ◌+◌, ◌-◌, ◌/◌, ◌%◌}
use Prim.Native.String.{String}
use mathlib.Core.Bool.{Bool, ◌&&◌, ◌||◌}
use mathlib.Core.List.{List, [], ◌∷◌, ◌++◌}
use mathlib.Core.Option.{Option, none, some}
use native.Mathlib.Decide.{ℕ_discrete}
use ngrok.Prelude.Tests.{ltb, leb, ◌==◌, if◌then◌else◌, holds}
use ngrok.Prelude.Lists.{length, drop}

abbrev pub Text : Type 0
Text = List ℕ

abbrev pub text : String → Text
text String.[] = []
text (String.◌∷◌ c s) = code c ∷ text s

unfoldable pub text_dec : Discrete Text
unfolding ℕ_discrete
text_dec = hlevel ℕ_discrete

-- `a == b` on texts.
abbrev pub same : Text → Text → Bool
same a b = holds (text_dec a b)

-- `strings.ToLower`
abbrev pub lower : ℕ → ℕ
lower c = if leb b'A' c && leb c b'Z' then c + 32 else c

unfoldable pub to_lower : Text → Text
to_lower [] = []
to_lower (c ∷ s) = lower c ∷ to_lower s

-- `strings.TrimSpace`: the text from its first to its last character that is no space.
abbrev pub is_space : ℕ → Bool
is_space c = c == 32 || (leb 9 c && leb c 13)

unfoldable pub trim_left : (ℕ → Bool) → Text → Text
trim_left p [] = []
trim_left p (c ∷ s) = let rest = trim_left p s in if p c then rest else c ∷ s

unfoldable pub trim_right : (ℕ → Bool) → Text → Text
trim_right p [] = []
trim_right p (c ∷ s) = elim (trim_right p s) [ [] ↦ if p c then [] else c ∷ [] | d ∷ r ↦ c ∷ d ∷ r ]

unfoldable pub trim_space : Text → Text
unfolding trim_left trim_right
trim_space s = trim_right is_space (trim_left is_space s)

-- `strings.Split` by one character: always at least one part.
abbrev pub cons_head : ℕ → List Text → List Text
cons_head c [] = (c ∷ []) ∷ []
cons_head c (p ∷ ps) = (c ∷ p) ∷ ps

unfoldable pub split : ℕ → Text → List Text
split sep [] = [] ∷ []
split sep (c ∷ s) = let rest = split sep s in if c == sep then [] ∷ rest else cons_head c rest

-- `strings.SplitN`: at most `n` parts, the last of which holds what is left.
unfoldable pub split_n : ℕ → ℕ → Text → List Text
split_n sep n [] = if n == 0 then [] else [] ∷ []
split_n sep n (c ∷ s) =
    let next = split_n sep (n - 1) s in
    let same_part = split_n sep n s in
    if leb n 1
    then (if n == 0 then [] else (c ∷ s) ∷ [])
    else if c == sep
    then [] ∷ next
    else cons_head c same_part

-- `strings.Join`
unfoldable pub join : Text → List Text → Text
join sep [] = []
join sep (p ∷ []) = p
join sep (p ∷ q ∷ ps) = p ++ sep ++ join sep (q ∷ ps)

-- `strings.HasPrefix` and `strings.TrimPrefix`
unfoldable pub after_prefix : Text → Text → Option Text
after_prefix [] s = some s
after_prefix (p ∷ ps) [] = none
after_prefix (p ∷ ps) (c ∷ s) = if p == c then after_prefix ps s else none

-- `strings.HasSuffix`
unfoldable pub has_suffix : Text → Text → Bool
unfolding text_dec
has_suffix s suffix =
    leb (length suffix) (length s) && same (drop (length s - length suffix) s) suffix

-- The text without its last `n` characters, `s[0 : len(s)-n]`.
unfoldable pub drop_last : ℕ → Text → Text
drop_last n [] = []
drop_last n (c ∷ s) = if leb (suc (length s)) n then [] else c ∷ drop_last n s

-- `strings.TrimSuffix`
unfoldable pub trim_suffix : Text → Text → Text
unfolding has_suffix drop_last
trim_suffix s suffix = if has_suffix s suffix then drop_last (length suffix) s else s

-- `strings.Replace(s, old, "", 1)` for a text that is not empty: the first occurrence is taken out.
unfoldable pub remove_first : Text → Text → Text
unfolding after_prefix
remove_first old [] = []
remove_first old (c ∷ s) = elim (after_prefix old (c ∷ s)) [
  | none ↦ c ∷ remove_first old s
  | some rest ↦ rest
]

-- `%d` of a number that is not negative; the fuel is the number and one more.
unfoldable pub digits : ℕ → ℕ → Text
digits zero n = []
digits (suc f) n =
    let rest = digits f (n / 10) in
    if ltb n 10 then (b'0' + n) ∷ [] else rest ++ (b'0' + n % 10) ∷ []

unfoldable pub decimal : ℕ → Text
unfolding digits
decimal n = digits (suc n) n

-- `%x`
abbrev pub hex_digit : ℕ → ℕ
hex_digit d = if ltb d 10 then b'0' + d else 87 + d

unfoldable pub hex_digits : ℕ → ℕ → Text
hex_digits zero n = []
hex_digits (suc f) n =
    let rest = hex_digits f (n / 16) in
    if ltb n 16 then hex_digit n ∷ [] else rest ++ hex_digit (n % 16) ∷ []

unfoldable pub hex : ℕ → Text
unfolding hex_digits
hex n = hex_digits (suc n) n

-- ===== src/Client/Config/Lines.antt =====
-- The lines of a configuration file and their parts, `src/ngrok/client/config.go`, with
-- `bufio.ScanLines` and `strconv.ParseUint` of Go's library.
use ngrok.Prelude.{
  ℕ, suc, ◌^◌, Bool, ◌||◌, List, [], ◌∷◌, Option, none, some, if◌then◌else◌, ltb, ◌==◌,
}
use ngrok.Prelude.Text.{
  Text, text, same, to_lower, trim_space, trim_left, trim_right, split, split_n,
}
use ngrok.Prelude.Numbers.{unsigned}

-- The lines of a text: what follows the last newline is a line unless it is empty.
unfoldable pub drop_empty_last : List Text → List Text
drop_empty_last [] = []
drop_empty_last (l ∷ []) = elim l [ [] ↦ [] | c ∷ s ↦ (c ∷ s) ∷ [] ]
drop_empty_last (l ∷ k ∷ ls) = l ∷ drop_empty_last (k ∷ ls)

unfoldable pub raw_lines : Text → List Text
unfolding drop_empty_last
raw_lines s = drop_empty_last (split b'\n' s)

-- A line loses one carriage return at its end.
unfoldable pub drop_cr : Text → Text
drop_cr [] = []
drop_cr (c ∷ []) = if c == 13 then [] else c ∷ []
drop_cr (c ∷ d ∷ s) = c ∷ drop_cr (d ∷ s)

-- `stripComment`
unfoldable pub strip_comment : Text → Text
strip_comment [] = []
strip_comment (c ∷ s) = let rest = strip_comment s in if c == b'#' then [] else c ∷ rest

-- `leadingSpaces`
unfoldable pub leading_spaces : Text → ℕ
leading_spaces [] = 0
leading_spaces (c ∷ s) = let rest = leading_spaces s in if c == 32 then suc rest else 0

abbrev pub is_quote : ℕ → Bool
is_quote c = c == 34 || c == 39

-- `strings.Trim` of both kinds of quotes.
unfoldable pub trim_quotes : Text → Text
trim_quotes s = trim_right is_quote (trim_left is_quote s)

-- The parts of a line, of which there are two if it has a colon; a key that is empty is none.
unfoldable pub pair_of : List Text → Option (Text × Text)
pair_of (k ∷ v ∷ []) =
    if same (trim_space k) [] then none else some (trim_space k, trim_quotes (trim_space v))
pair_of _ = none

-- `splitKeyValue`
unfoldable pub split_key_value : Text → Option (Text × Text)
split_key_value line = pair_of (split_n b':' 2 line)

unfoldable pub parse_bool : Text → Bool
parse_bool value =
    same (to_lower value) (text "true")
    || same (to_lower value) (text "yes")
    || same (to_lower value) (text "1")
    || same (to_lower value) (text "on")

-- `strconv.ParseUint(value, 10, 16)`
unfoldable pub parse_uint16 : Text → Option ℕ
parse_uint16 value = elim (unsigned value) [
  | none ↦ none
  | some n ↦ if ltb n (2 ^ 16) then some n else none
]

-- ===== src/Client/Config/Load/Legacy.antt =====
-- The old format of the configuration file, which holds only the token, in `LoadConfiguration` of
-- `src/ngrok/client/config.go`.
use ngrok.Prelude.{ℕ, ◌<◌, true, false, [], ◌∷◌, ◌≡◌, refl, none, length, leb, arith}
use ngrok.Prelude.Text.{Text, trim_space, trim_left, trim_right, is_space, split, split_n}
use ngrok.Prelude.Affixes.{same-false_iff}
use ngrok.Client.Config.{err, expected_pair}
use ngrok.Client.Config.Lines.{
  raw_lines, drop_empty_last, drop_cr, strip_comment, split_key_value, pair_of,
}
use ngrok.Client.Config.Parse.{Parser, parse_configuration, parse_lines, parse_line, max_line}
use ngrok.Client.Config.Load.{all_old_chars, is_old_format, read_configuration}

split_old : (s : Text) → all_old_chars s ≡ true → split b'\n' s ≡ s ∷ []
unfolding split all_old_chars
split_old [] h = refl
split_old (c ∷ s) h = ground (arith, split_old s)

split_n_old : (s : Text) → all_old_chars s ≡ true → split_n b':' 2 s ≡ s ∷ []
unfolding split_n all_old_chars
split_n_old [] h = refl
split_n_old (c ∷ s) h = ground (arith, split_n_old s)

strip_comment_old : (s : Text) → all_old_chars s ≡ true → strip_comment s ≡ s
unfolding strip_comment all_old_chars
strip_comment_old [] h = refl
strip_comment_old (c ∷ s) h = ground (arith, strip_comment_old s)

drop_cr_old : (s : Text) → all_old_chars s ≡ true → drop_cr s ≡ s
unfolding drop_cr all_old_chars
drop_cr_old [] h = refl
drop_cr_old (c ∷ []) h = ground arith
drop_cr_old (c ∷ d ∷ s) h = ground (arith, drop_cr_old (d ∷ s))

trim_right_old : (s : Text) → all_old_chars s ≡ true → trim_right is_space s ≡ s
unfolding trim_right all_old_chars
trim_right_old [] h = refl
trim_right_old (c ∷ []) h = ground arith
trim_right_old (c ∷ d ∷ s) h = ground (arith, trim_right_old (d ∷ s))

trim_left_old : (s : Text) → all_old_chars s ≡ true → trim_left is_space s ≡ s
unfolding trim_left all_old_chars
trim_left_old [] h = refl
trim_left_old (c ∷ s) h = ground arith

trim_space_old : (s : Text) → all_old_chars s ≡ true → trim_space s ≡ s
unfolding trim_space
trim_space_old s h = rw (trim_left_old s h) (trim_right_old s h)

no_pair : (s : Text) → all_old_chars s ≡ true → split_key_value s ≡ none
unfolding split_key_value pair_of
no_pair s h = rw (split_n_old s h) refl

raw_lines_old : (c : ℕ) (s : Text) → all_old_chars (c ∷ s) ≡ true → raw_lines (c ∷ s) ≡ (c ∷ s) ∷ []
unfolding raw_lines
raw_lines_old c s h = rw (split_old (c ∷ s) h, drop_empty_last) refl

parse_line_old :
    (n c : ℕ) (s : Text) (p : Parser)
    → all_old_chars (c ∷ s) ≡ true
    → parse_line n (c ∷ s) p ≡ err (expected_pair n)
unfolding parse_line
parse_line_old n c s p h =
    rw
      (
        strip_comment_old (c ∷ s) h,
        parse_line,
        trim_space_old (c ∷ s) h,
        (same-false_iff (c ∷ s) []).1 (λ e. absurd cc),
        no_pair (c ∷ s) h,
      )
      refl

parse_lines_old :
    (n c : ℕ) (s : Text) (p : Parser)
    → all_old_chars (c ∷ s) ≡ true
    → length (c ∷ s) < max_line
    → parse_lines n ((c ∷ s) ∷ []) p ≡ err (expected_pair n)
unfolding parse_lines
parse_lines_old n c s p h short =
    let fits : leb max_line (length (c ∷ s)) ≡ false = ground (arith, short) in
    rw (fits, parse_lines, drop_cr_old (c ∷ s) h, parse_line_old n c s p h) refl

-- A file in the old format, a token and nothing else, is never read: its only line is refused for
-- having no colon, before the old format is looked for. The token is not empty and shorter than the
-- lines that the scanner holds.
pub read_configuration_old :
    (c : ℕ) (s : Text)
    → is_old_format (c ∷ s) ≡ true
    → length (c ∷ s) < max_line
    → read_configuration (c ∷ s) ≡ err (expected_pair 1)
unfolding is_old_format read_configuration parse_configuration
read_configuration_old c s h short =
    let old : all_old_chars (c ∷ s) ≡ true = ground (arith, h) in
    rw (raw_lines_old c s old, parse_configuration, parse_lines_old 1 c s _ old short) refl

-- ===== src/Admin/Pages/Lines.antt =====
-- A line of a configuration file as the client reads it, `src/ngrok/client/config.go`.
use ngrok.Prelude.{
  ℕ, suc, ◌<◌, false, List, [], ◌∷◌, ◌++◌, ◌≡◌, refl, ap, some, length, leb, ◌==◌, All, arith,
}
use ngrok.Prelude.Text.{Text, text_dec, is_space, trim_left, trim_space}
use ngrok.Prelude.Affixes.{same-false_iff}
use ngrok.Prelude.HostPort.{contains_byte}
use ngrok.Prelude.Parts.{
  Lacks, split_n-pair, trim_right-append, trim_right-none, trim_left-head, trim_space-whole,
  trim_space-none,
}
use ngrok.Client.Config.{ok}
use ngrok.Client.Config.Lines.{
  drop_cr, strip_comment, leading_spaces, is_quote, trim_quotes, split_key_value, pair_of,
}
use ngrok.Client.Config.Parse.{Parser, step_indent, parse_line, parse_lines, max_line}

-- A byte that stands for itself in a configuration file: no white space, number sign or quote.
abbrev pub IsPlain : ℕ → Type 0
IsPlain c = (is_space c ≡ false) × ((c == b'#') ≡ false) × (is_quote c ≡ false)

plain_spaces : (s : Text) → All IsPlain s → All (λ c. is_space c ≡ false) s
plain_spaces [] h = tt
plain_spaces (c ∷ s) h = (h.0.0, plain_spaces s h.1)

pub plain_newline : (s : Text) → All IsPlain s → Lacks b'\n' s
unfolding contains_byte
plain_newline [] h = refl
plain_newline (c ∷ s) h =
    let other : (c == b'\n') ≡ false = ground (arith, h.0.0) in
    rw (other, contains_byte) (plain_newline s h.1)

plain_quotes : (s : Text) → All IsPlain s → trim_quotes s ≡ s
unfolding trim_quotes trim_left
plain_quotes [] h = trim_right-none is_quote [] tt
plain_quotes (c ∷ s) h =
    rw (trim_left-head is_quote c s h.0.2, trim_quotes)
      (trim_right-none is_quote (c ∷ s) (quotes (c ∷ s) h))
  where
    quotes : (t : Text) → All IsPlain t → All (λ d. is_quote d ≡ false) t
    quotes [] k = tt
    quotes (d ∷ t) k = (k.0.2, quotes t k.1)

plain_cr : (s : Text) → All IsPlain s → drop_cr s ≡ s
unfolding drop_cr
plain_cr [] h = refl
plain_cr (c ∷ []) h =
    let other : (c == 13) ≡ false = ground (arith, h.0.0) in rw (other, drop_cr) refl
plain_cr (c ∷ d ∷ s) h = rw (plain_cr (d ∷ s) h.1, drop_cr) refl

drop_cr-append :
    (s : Text) (c : ℕ) (t : Text) → drop_cr (c ∷ t) ≡ c ∷ t → drop_cr (s ++ c ∷ t) ≡ s ++ c ∷ t
unfolding drop_cr
drop_cr-append [] c t h = h
drop_cr-append (d ∷ []) c t h = rw (h, drop_cr) refl
drop_cr-append (d ∷ e ∷ s) c t h = rw (drop_cr-append (e ∷ s) c t h, drop_cr) refl

strip_comment-append :
    (s t : Text) → All IsPlain s → strip_comment t ≡ t → strip_comment (s ++ t) ≡ s ++ t
unfolding strip_comment
strip_comment-append [] t h e = e
strip_comment-append (c ∷ s) t h e = rw (h.0.1, strip_comment, strip_comment-append s t h.1 e) refl

-- The line of a key and a value.
abbrev line_of : Text → Text → Text
line_of key value = key ++ b':' ∷ 32 ∷ value

module _ (k : ℕ) (ks : Text) (v : ℕ) (vs : Text) (key : All IsPlain (k ∷ ks))
    (colon : Lacks b':' (k ∷ ks)) (value : All IsPlain (v ∷ vs)) where
  line_cr : drop_cr (line_of (k ∷ ks) (v ∷ vs)) ≡ line_of (k ∷ ks) (v ∷ vs)
  line_cr =
      drop_cr-append (k ∷ ks) b':' (32 ∷ v ∷ vs)
        (drop_cr-append (b':' ∷ 32 ∷ []) v vs (plain_cr (v ∷ vs) value))

  line_comment : strip_comment (line_of (k ∷ ks) (v ∷ vs)) ≡ line_of (k ∷ ks) (v ∷ vs)
  unfolding strip_comment
  line_comment =
      strip_comment-append (k ∷ ks) (b':' ∷ 32 ∷ v ∷ vs) key
        (ap (λ (t : Text). b':' ∷ 32 ∷ t) (plain_end (v ∷ vs) value))
    where
      plain_end : (t : Text) → All IsPlain t → strip_comment t ≡ t
      plain_end [] h = refl
      plain_end (c ∷ t) h = rw (h.0.1, strip_comment, plain_end t h.1) refl

  line_trimmed : trim_space (line_of (k ∷ ks) (v ∷ vs)) ≡ line_of (k ∷ ks) (v ∷ vs)
  line_trimmed = trim_space-whole k (ks ++ b':' ∷ 32 ∷ v ∷ vs) key.0.0 (
      trim_right-append is_space (k ∷ ks) b':' (32 ∷ v ∷ vs) (
        trim_right-append is_space (b':' ∷ 32 ∷ []) v vs
          (trim_right-none is_space (v ∷ vs) (plain_spaces (v ∷ vs) value))))

  value_trimmed : trim_space (32 ∷ v ∷ vs) ≡ v ∷ vs
  unfolding trim_space trim_left
  value_trimmed =
      rw (trim_left-head is_space v vs value.0.0)
        (trim_right-none is_space (v ∷ vs) (plain_spaces (v ∷ vs) value))

  line_pair : split_key_value (line_of (k ∷ ks) (v ∷ vs)) ≡ some (k ∷ ks, v ∷ vs)
  unfolding split_key_value pair_of text_dec
  line_pair =
      rw
        (
          split_n-pair b':' (k ∷ ks) (32 ∷ v ∷ vs) colon,
          pair_of,
          trim_space-none (k ∷ ks) (plain_spaces (k ∷ ks) key),
          value_trimmed,
          plain_quotes (v ∷ vs) value,
        )
        refl

  line_margin : leading_spaces (line_of (k ∷ ks) (v ∷ vs)) ≡ 0
  unfolding leading_spaces
  line_margin =
      let margin : (k == 32) ≡ false = ground (arith, key.0.0) in rw (margin, leading_spaces) refl

  line_read :
      (n : ℕ) (p : Parser)
      → parse_line n (line_of (k ∷ ks) (v ∷ vs)) p ≡ step_indent 0 n (k ∷ ks) (v ∷ vs) p
  unfolding parse_line
  line_read n p =
      let filled = (same-false_iff (line_of (k ∷ ks) (v ∷ vs)) []).1 (λ e. absurd cc) in
      rw (line_comment, parse_line, line_trimmed, filled, line_pair, line_comment, line_margin) refl

  pub lines_read :
      (n : ℕ) (ls : List Text) (p q : Parser)
      → length (line_of (k ∷ ks) (v ∷ vs)) < max_line
      → step_indent 0 n (k ∷ ks) (v ∷ vs) p ≡ ok q
      → parse_lines n (line_of (k ∷ ks) (v ∷ vs) ∷ ls) p ≡ parse_lines (suc n) ls q
  unfolding parse_lines
  lines_read n ls p q short step =
      let fits : leb max_line (length (line_of (k ∷ ks) (v ∷ vs))) ≡ false =
        ground (arith, short) in
      rw (fits, parse_lines, line_cr, line_read n p, step) refl

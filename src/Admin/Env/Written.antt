-- ===== src/Admin/Env/Written.antt =====
-- One line of the environment file, `src/ngrok/admin/main.go`.
use ngrok.Prelude.{
  ℕ, true, false, ◌||◌, [], ◌∷◌, ◌++◌, ◌≡◌, ◌≢◌, refl, sym, ap, ◌∙◌, none, some, ◌==◌, All, arith,
  Bool-cases, inl, inr,
}
use ngrok.Prelude.Maps.{Map, put}
use ngrok.Prelude.Text.{Text, text, text_dec, same, after_prefix, is_space, trim_space, trim_right}
use ngrok.Prelude.HostPort.{contains_byte}
use ngrok.Prelude.Parts.{
  Lacks, split_n-pair, trim_right-append, trim_right-last, trim_space-whole, trim_space-none,
  trim_right-none,
}
use ngrok.Admin.Config.{has_prefix}
use ngrok.Admin.Env.{
  Strconv, is_env_char, all_env_chars, env_value, unquoted, read_env_parts, read_env_line,
}

-- What `strconv` promises: a quoted text stands between double quotes on one line, is unquoted to
-- itself, and a text that does not begin with a quote is an error.
pub record IsStrconv (k : Strconv) : Type 0 where
  pub body : Text → Text
  pub quote_body : (s : Text) → k.quote s ≡ b'"' ∷ (body s ++ b'"' ∷ [])
  pub one_line : (s : Text) → Lacks b'\n' (k.quote s)
  pub unquote_quote : (s : Text) → k.unquote (k.quote s) ≡ some s
  pub unquoted_nil : k.unquote [] ≡ none
  pub unquoted_char : (c : ℕ) (s : Text) → is_env_char c ≡ true → k.unquote (c ∷ s) ≡ none

-- A value as it stands in the file: it is on one line, is not trimmed, and is read as what it was.
pub record IsWritten (k : Strconv) (value written : Text) : Type 0 where
  pub line : Lacks b'\n' written
  pub right :
      (key : Text) (c : ℕ)
      → is_space c ≡ false
      → trim_right is_space (key ++ c ∷ written) ≡ key ++ c ∷ written
  pub whole : trim_space written ≡ written
  pub read : unquoted k written ≡ value

env_char_lem : (c : ℕ) → is_env_char c ≡ true → ((c == b'\n') ≡ false) × (is_space c ≡ false)
env_char_lem c h = (ground (arith, h), ground (arith, h))

env_chars_line : (s : Text) → all_env_chars s ≡ true → Lacks b'\n' s
unfolding all_env_chars contains_byte
env_chars_line [] h = refl
env_chars_line (c ∷ s) h = elim (Bool-cases (is_env_char c)) [
  | inl e ↦ rw ((env_char_lem c e).0, contains_byte) (env_chars_line s (rw (e, all_env_chars) at h))
  | inr e ↦ absurd (cc (rw (e, all_env_chars) at h))
]

env_chars_space : (s : Text) → all_env_chars s ≡ true → All (λ c. is_space c ≡ false) s
unfolding all_env_chars
env_chars_space [] h = tt
env_chars_space (c ∷ s) h = elim (Bool-cases (is_env_char c)) [
  | inl e ↦ ((env_char_lem c e).1, env_chars_space s (rw (e, all_env_chars) at h))
  | inr e ↦ absurd (cc (rw (e, all_env_chars) at h))
]

env_value-nil : (k : Strconv) → IsStrconv k → IsWritten k [] []
unfolding unquoted contains_byte
env_value-nil k law = record {
  line = refl;
  right = λ key c h. trim_right-last is_space key c h;
  whole = trim_space-none [] tt;
  read = rw (law.unquoted_nil, unquoted) refl;
}

first_char : (d : ℕ) (t : Text) → all_env_chars (d ∷ t) ≡ true → is_env_char d ≡ true
unfolding all_env_chars
first_char d t e = ground (arith, e)

env_value-chars :
    (k : Strconv) (c : ℕ) (s : Text)
    → IsStrconv k
    → all_env_chars (c ∷ s) ≡ true
    → IsWritten k (c ∷ s) (c ∷ s)
unfolding unquoted trim_right
env_value-chars k c s law h =
    let spaces = env_chars_space (c ∷ s) h in
    let kept = trim_right-none is_space (c ∷ s) spaces in
    record {
      line = env_chars_line (c ∷ s) h;
      right = λ key d e. trim_right-append is_space key d (c ∷ s) (rw (kept, trim_right) refl);
      whole = trim_space-none (c ∷ s) spaces;
      read = rw (law.unquoted_char c s (first_char c s h), unquoted) refl;
    }

env_value-quoted : (k : Strconv) (value : Text) → IsStrconv k → IsWritten k value (k.quote value)
unfolding unquoted
env_value-quoted k value law =
    let b = law.body value in
    let e = law.quote_body value in
    record {
      line = law.one_line value;
      right = λ key d h.
          ap (λ w. trim_right is_space (key ++ d ∷ w)) e
          ∙ (trim_right-append is_space key d (b'"' ∷ (b ++ b'"' ∷ []))
                (trim_right-last is_space (d ∷ b'"' ∷ b) b'"' refl)
              ∙ ap (λ w. key ++ d ∷ w) (sym e));
      whole =
          ap trim_space e
          ∙ (trim_space-whole b'"' (b ++ b'"' ∷ []) refl
                (trim_right-last is_space (b'"' ∷ b) b'"' refl)
              ∙ sym e);
      read = rw (law.unquote_quote value, unquoted) refl;
    }

pub env_value-IsWritten :
    (k : Strconv) (value : Text) → IsStrconv k → IsWritten k value (env_value k value)
unfolding env_value text_dec
env_value-IsWritten k [] law = env_value-nil k law
env_value-IsWritten k (c ∷ s) law = elim (Bool-cases (all_env_chars (c ∷ s))) [
  | inl plain ↦ rw (plain, env_value) (env_value-chars k c s law plain)
  | inr other ↦ rw (other, env_value) (env_value-quoted k (c ∷ s) law)
]

-- The name of a variable: capital letters and underscores.
abbrev pub IsKeyChar : ℕ → Type 0
IsKeyChar c =
    ((c == b'\n') ≡ false) × ((c == b'=') ≡ false) × (is_space c ≡ false) × ((b'#' == c) ≡ false)

abbrev pub IsKey : Text → Type 0
IsKey key = (key ≢ []) × All IsKeyChar key

pub key-Lacks :
    (key : Text)
    → All IsKeyChar key
    → Lacks b'\n' key × Lacks b'=' key × All (λ c. is_space c ≡ false) key
unfolding contains_byte
key-Lacks [] h = (refl, refl, tt)
key-Lacks (c ∷ s) (h, hs) =
    let (n, e, w) = key-Lacks s hs in
    (rw (h.0, contains_byte) n, rw (h.1, contains_byte) e, (h.2, w))

no_comment :
    (c : ℕ) (s : Text)
    → (b'#' == c) ≡ false
    → (same (c ∷ s) [] || has_prefix (c ∷ s) (text "#")) ≡ false
unfolding after_prefix text_dec
no_comment c s h = rw (h, has_prefix, after_prefix) refl

pub read_env_line-key :
    (k : Strconv) (key value written : Text) (values : Map Text Text)
    → IsKey key
    → IsWritten k value written
    → read_env_line k (key ++ b'=' ∷ written) values ≡ put text_dec key value values
unfolding read_env_line read_env_parts
read_env_line-key k [] value written values h w = absurd (h.0 refl)
read_env_line-key k (c ∷ s) value written values (_, (h, hs)) w =
    let (n, e, spaces) = key-Lacks (c ∷ s) (h, hs) in
    let whole = trim_space-whole c (s ++ b'=' ∷ written) h.2 (w.right (c ∷ s) b'=' refl) in
    rw
      (
        whole,
        read_env_line,
        no_comment c (s ++ b'=' ∷ written) h.3,
        split_n-pair b'=' (c ∷ s) written e,
        read_env_parts,
        trim_space-none (c ∷ s) spaces,
        w.whole,
        w.read,
      )
      refl

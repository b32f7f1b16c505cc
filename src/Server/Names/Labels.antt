-- ===== src/Server/Names/Labels.antt =====
-- What `validHostnameLabel` and `validHostname` accept.
use ngrok.Prelude.{
  ℕ, ◌≤◌, ◌<◌, true, false, List, [], ◌∷◌, ◌++◌, ◌≡◌, ◌≢◌, refl, ap, ◌⊎◌, inl, inr, ◌↔◌, arith,
  length, All, Bool-cases, ◌==◌,
}
use ngrok.Prelude.Text.{Text, split, cons_head}
use ngrok.Server.Names.{
  all_label_chars, ends_in_dash, starts_with_dash, valid_hostname_label, all_labels_valid,
  valid_hostname,
}

-- A small letter, a digit or a dash.
abbrev pub LabelChar : ℕ → Type 0
LabelChar c = ((b'a' ≤ c) × (c ≤ b'z')) ⊎ ((b'0' ≤ c) × (c ≤ b'9')) ⊎ (c ≡ b'-')

-- A label of a host name, as RFC 1123 describes it, in small letters.
pub record IsLabel (s : Text) : Type 0 where
  pub not_empty : 0 < length s
  pub short : length s ≤ 63
  pub chars : All LabelChar s
  pub no_first_dash : (r : Text) → s ≢ b'-' ∷ r
  pub no_last_dash : (r : Text) → s ≢ r ++ b'-' ∷ []

all_label_chars_sound : (s : Text) → all_label_chars s ≡ true → All LabelChar s
unfolding all_label_chars
all_label_chars_sound [] h = tt
all_label_chars_sound (c ∷ s) h = ground (arith, all_label_chars_sound s)

all_label_chars_complete : (s : Text) → All LabelChar s → all_label_chars s ≡ true
unfolding all_label_chars
all_label_chars_complete [] h = refl
all_label_chars_complete (c ∷ s) h = ground (arith, all_label_chars_complete s)

starts_with_dash_iff : (s : Text) → (starts_with_dash s ≡ false) ↔ ((r : Text) → s ≢ b'-' ∷ r)
unfolding starts_with_dash
starts_with_dash_iff [] = (λ h r e. cc, λ h. refl)
starts_with_dash_iff (c ∷ s) = (λ h r e. ground arith, λ h. ground (arith, h s))

ends_in_dash_snoc : (r : Text) → ends_in_dash (r ++ b'-' ∷ []) ≡ true
unfolding ends_in_dash
ends_in_dash_snoc [] = refl
ends_in_dash_snoc (c ∷ []) = refl
ends_in_dash_snoc (c ∷ d ∷ r) = ends_in_dash_snoc (d ∷ r)

ends_in_dash_cut : (s : Text) → ends_in_dash s ≡ true → (r : Text) × (s ≡ r ++ b'-' ∷ [])
unfolding ends_in_dash
ends_in_dash_cut [] h = cc
ends_in_dash_cut (c ∷ []) h = ([], ground arith)
ends_in_dash_cut (c ∷ d ∷ s) h = let (r, e) = ends_in_dash_cut (d ∷ s) h in (c ∷ r, cc)

ends_in_dash-false : (s : Text) → ((r : Text) → s ≢ r ++ b'-' ∷ []) → ends_in_dash s ≡ false
ends_in_dash-false s h = elim (Bool-cases (ends_in_dash s)) [
  | inl e ↦ let (r, cut) = ends_in_dash_cut s e in absurd (h r cut)
  | inr e ↦ e
]

-- `validHostnameLabel` accepts exactly the labels of one to 63 small letters, digits and dashes
-- that neither begin nor end with a dash.
pub valid_hostname_label_iff : (s : Text) → (valid_hostname_label s ≡ true) ↔ IsLabel s
unfolding valid_hostname_label
valid_hostname_label_iff s = (
  λ h. record {
    not_empty = ground arith;
    short = ground arith;
    chars = all_label_chars_sound s (ground arith);
    no_first_dash = (starts_with_dash_iff s).0 (ground arith);
    no_last_dash = λ r e. ground (arith, ends_in_dash_snoc r, ap ends_in_dash e);
  },
  λ v. ground (
    arith,
    (starts_with_dash_iff s).1 v.no_first_dash,
    ends_in_dash-false s v.no_last_dash,
    all_label_chars_complete s v.chars,
    v.not_empty,
    v.short,
  ),
)

all_labels_valid_iff : (l : List Text) → (all_labels_valid l ≡ true) ↔ All IsLabel l
unfolding all_labels_valid
all_labels_valid_iff [] = (λ h. tt, λ h. refl)
all_labels_valid_iff (s ∷ l) =
    let (sound, complete) = valid_hostname_label_iff s in
    let (sounds, completes) = all_labels_valid_iff l in
    (
      λ h. (sound (ground arith), sounds (ground arith)),
      λ h. ground (arith, complete h.0, completes h.1),
    )

-- A host name of at most 253 characters whose parts between the dots are labels.
pub record IsHostname (s : Text) : Type 0 where
  pub not_empty : 0 < length s
  pub short : length s ≤ 253
  pub labels : All IsLabel (split b'.' s)

-- `validHostname` accepts exactly the host names.
pub valid_hostname_iff : (s : Text) → (valid_hostname s ≡ true) ↔ IsHostname s
unfolding valid_hostname
valid_hostname_iff s =
    let (sound, complete) = all_labels_valid_iff (split b'.' s) in
    (
      λ h. record { not_empty = ground arith; short = ground arith; labels = sound (ground arith) },
      λ v. ground (arith, complete v.labels, v.not_empty, v.short),
    )

abbrev Parts : List Text → Type 0
Parts = All (All LabelChar)

Parts-head : (c : ℕ) (l : List Text) → Parts (cons_head c l) → LabelChar c × Parts l
Parts-head c [] h = (h.0.0, tt)
Parts-head c (p ∷ ps) h = (h.0.0, (h.0.1, h.1))

-- A character of a host name is a label character or a dot.
abbrev pub NameChar : ℕ → Type 0
NameChar c = LabelChar c ⊎ (c ≡ b'.')

split-NameChar : (s : Text) → Parts (split b'.' s) → All NameChar s
unfolding split
split-NameChar [] h = tt
split-NameChar (c ∷ s) h = elim (Bool-cases (c == b'.')) [
  | inl dot ↦ (inr (ground arith), split-NameChar s (rw (dot, split) at h).1)
  | inr other ↦
      let (char, rest) = Parts-head c (split b'.' s) (rw (other, split) at h) in
      (inl char, split-NameChar s rest)
]

labels_chars : (l : List Text) → All IsLabel l → Parts l
labels_chars [] h = tt
labels_chars (s ∷ l) h = (h.0.chars, labels_chars l h.1)

-- Every character of an accepted host name is a small letter, a digit, a dash or a dot: the name
-- holds no colon, slash or space.
pub valid_hostname-NameChar : (s : Text) → valid_hostname s ≡ true → All NameChar s
valid_hostname-NameChar s h =
    split-NameChar s (labels_chars (split b'.' s) ((valid_hostname_iff s).0 h).labels)

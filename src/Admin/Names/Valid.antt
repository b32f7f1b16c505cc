-- ===== src/Admin/Names/Valid.antt =====
-- What `validDomainName` accepts, `src/ngrok/admin/main.go`, and that the server accepts it too.
use ngrok.Prelude.{
  ℕ, true, false, List, [], ◌∷◌, ◌++◌, ◌≡◌, refl, sym, ap, ◌∙◌, none, ◌==◌, All, arith, Bool-cases,
  inl, inr, In,
}
use ngrok.Prelude.Text.{
  Text, text, text_dec, split, lower, to_lower, trim_suffix, after_prefix, is_space, has_suffix,
}
use ngrok.Prelude.Affixes.{has_suffix_iff}
use ngrok.Prelude.Parts.{trim_space-none}
use ngrok.Prelude.HostPort.{split_host_port, last_index_byte}
use ngrok.Server.Names.{valid_hostname, valid_hostname_label, all_labels_valid}
use ngrok.Server.Names.Labels.{NameChar, valid_hostname-NameChar}
use ngrok.Admin.Names.{
  trim_prefix, strip_port, normalize_domain, valid_label, valid_labels, valid_domain_name,
}

valid_label-server : (l : Text) → valid_label l ≡ true → valid_hostname_label l ≡ true
unfolding valid_label valid_hostname_label text_dec
valid_label-server [] h = cc
valid_label-server (c ∷ l) h = ground (arith, h)

valid_labels-server : (ls : List Text) → valid_labels ls ≡ true → all_labels_valid ls ≡ true
unfolding valid_labels all_labels_valid
valid_labels-server [] h = refl
valid_labels-server (l ∷ ls) h = elim (Bool-cases (valid_label l)) [
  | inl v ↦
      rw (valid_label-server l v, all_labels_valid)
        (valid_labels-server ls (rw (v, valid_labels) at h))
  | inr v ↦ absurd (cc (rw (v, valid_labels) at h))
]

-- Every domain that the administration accepts is a host name that the server accepts.
pub valid_domain_name-valid_hostname :
    (d : Text) → valid_domain_name d ≡ true → valid_hostname d ≡ true
unfolding valid_domain_name valid_hostname
valid_domain_name-valid_hostname d h =
    let labels : valid_labels (split b'.' d) ≡ true = ground (arith, h) in
    ground (arith, h, valid_labels-server (split b'.' d) labels)

name_char :
    (c : ℕ)
    → NameChar c
    → (is_space c ≡ false) × (lower c ≡ c) × ((c == b':') ≡ false) × ((b'*' == c) ≡ false)
name_char c h = (ground (arith, h), ground (arith, h), ground (arith, h), ground (arith, h))

names_spaces : (s : Text) → All NameChar s → All (λ c. is_space c ≡ false) s
names_spaces [] h = tt
names_spaces (c ∷ s) h = ((name_char c h.0).0, names_spaces s h.1)

names_lower : (s : Text) → All NameChar s → to_lower s ≡ s
unfolding to_lower
names_lower [] h = refl
names_lower (c ∷ s) h = rw ((name_char c h.0).1, to_lower, names_lower s h.1) refl

names_colon : (s : Text) → All NameChar s → last_index_byte s b':' ≡ none
unfolding last_index_byte
names_colon [] h = refl
names_colon (c ∷ s) h = rw (names_colon s h.1, last_index_byte, (name_char c h.0).2) refl

names_port : (s : Text) → All NameChar s → strip_port s ≡ s
unfolding strip_port split_host_port
names_port [] h = refl
names_port (c ∷ s) h = rw (names_colon (c ∷ s) h, split_host_port, strip_port) refl

names_star : (s : Text) → All NameChar s → trim_prefix s (text "*.") ≡ s
unfolding trim_prefix after_prefix
names_star [] h = refl
names_star (c ∷ s) h = rw ((name_char c h.0).3, after_prefix, trim_prefix) refl

-- The part behind a last dot is empty.
split-last_dot :
    (p : Text) → (q : Text) × (qs : List Text) × (split b'.' (p ++ b'.' ∷ []) ≡ q ∷ qs) × In [] qs
unfolding split
split-last_dot [] = ([], [] ∷ [], refl, inl refl)
split-last_dot (c ∷ p) =
    let (q, qs, e, m) = split-last_dot p in
    elim (Bool-cases (c == b'.')) [
      | inl dot ↦ ([], q ∷ qs, rw (dot, split, e) refl, inr m)
      | inr other ↦ (c ∷ q, qs, rw (other, split, e) refl, m)
    ]

labels-no_empty : (ls : List Text) → In [] ls → valid_labels ls ≡ false
unfolding valid_labels valid_label text_dec
labels-no_empty [] m = absurd m
labels-no_empty (l ∷ ls) (inl e) = rw (sym e, valid_labels) refl
labels-no_empty (l ∷ ls) (inr m) = elim (Bool-cases (valid_label l)) [
  | inl v ↦ rw (v, valid_labels) (labels-no_empty ls m)
  | inr v ↦ rw (v, valid_labels) refl
]

no_last_dot : (d : Text) → valid_domain_name d ≡ true → has_suffix d (text ".") ≡ false
unfolding valid_domain_name
no_last_dot d h = elim (Bool-cases (has_suffix d (text "."))) [
  | inr e ↦ e
  | inl e ↦
      let (p, cut) = (has_suffix_iff d (text ".")).0 e in
      let (q, qs, parts, m) = split-last_dot p in
      let whole : split b'.' d ≡ q ∷ qs = ap (split b'.') cut ∙ parts in
      let valid : valid_labels (split b'.' d) ≡ true = ground (arith, h) in
      absurd (cc (labels-no_empty (q ∷ qs) (inr m), ap valid_labels whole, valid))
]

-- A domain that is accepted is its own normal form.
pub normalize_domain_valid : (d : Text) → valid_domain_name d ≡ true → normalize_domain d ≡ d
unfolding normalize_domain trim_suffix
normalize_domain_valid d h =
    let names = valid_hostname-NameChar d (valid_domain_name-valid_hostname d h) in
    rw
      (
        trim_space-none d (names_spaces d names),
        normalize_domain,
        names_lower d names,
        names_star d names,
        no_last_dot d h,
        trim_suffix,
        names_port d names,
      )
      refl

-- ===== src/Admin/Names.antt =====
-- The domains that the administration accepts, `src/ngrok/admin/main.go`.
pub mod Valid
pub mod Collected
use ngrok.Prelude.{
  ℕ, Bool, true, false, not, ◌||◌, List, [], ◌∷◌, ◌++◌, Option, none, some, if◌then◌else◌, length,
  ltb, ◌==◌,
}
use ngrok.Prelude.Text.{
  Text, text, same, split, cons_head, to_lower, trim_space, trim_suffix, after_prefix,
}
use ngrok.Prelude.HostPort.{split_host_port}
use ngrok.Server.Names.{starts_with_dash, ends_in_dash, all_label_chars}
use ngrok.Server.Vhosts.{seen_before}

-- `strings.TrimPrefix`
unfoldable pub trim_prefix : Text → Text → Text
trim_prefix s prefix = elim (after_prefix prefix s) [ none ↦ s | some rest ↦ rest ]

unfoldable pub strip_port : Text → Text
strip_port host = elim (split_host_port host) [ none ↦ host | some (h, port) ↦ h ]

unfoldable pub normalize_domain : Text → Text
normalize_domain domain =
    strip_port (trim_suffix (trim_prefix (to_lower (trim_space domain)) (text "*.")) (text "."))

-- `strings.Contains(domain, "..")`
unfoldable pub has_two_dots : Text → Bool
has_two_dots [] = false
has_two_dots (c ∷ []) = false
has_two_dots (c ∷ d ∷ s) =
    if c == b'.' then (if d == b'.' then true else has_two_dots (d ∷ s)) else has_two_dots (d ∷ s)

-- One round of the loop over the labels.
unfoldable pub valid_label : Text → Bool
valid_label label =
    if same label [] || ltb 63 (length label) || starts_with_dash label || ends_in_dash label
    then false
    else all_label_chars label

unfoldable pub valid_labels : List Text → Bool
valid_labels [] = true
valid_labels (label ∷ labels) = if not (valid_label label) then false else valid_labels labels

unfoldable pub valid_domain_name : Text → Bool
valid_domain_name domain =
    if ltb (length domain) 3 || ltb 253 (length domain) || has_two_dots domain
    then false
    else if ltb (length (split b'.' domain)) 2
    then false
    else valid_labels (split b'.' domain)

-- The loop of `parseDomainInput` and the function `add` of `configuredDomainList`: the domains that
-- are wanted, each once.
unfoldable pub collect_domains : (Text → Bool) → List Text → List Text → List Text → List Text
collect_domains wanted [] seen result = result
collect_domains wanted (item ∷ items) seen result =
    let domain = normalize_domain item in
    let rest = collect_domains wanted items seen result in
    let added = collect_domains wanted items (domain ∷ seen) (result ++ domain ∷ []) in
    if same domain [] || seen_before domain seen || not (wanted domain) then rest else added

-- `strings.FieldsFunc`: the parts between separators that are not empty.
unfoldable pub fields_func : (ℕ → Bool) → Text → List Text
fields_func sep [] = []
fields_func sep (c ∷ []) = if sep c then [] else (c ∷ []) ∷ []
fields_func sep (c ∷ d ∷ s) =
    let rest = fields_func sep (d ∷ s) in
    if sep c then rest else if sep d then (c ∷ []) ∷ rest else cons_head c rest

abbrev pub is_separator : ℕ → Bool
is_separator r = r == b',' || r == b'\n' || r == 13 || r == b'\t' || r == 32

unfoldable pub parse_domain_input : Text → List Text
parse_domain_input input = collect_domains valid_domain_name (fields_func is_separator input) [] []

unfoldable pub contains_item : List Text → Text → Bool
contains_item [] domain = false
contains_item (item ∷ items) domain = if same item domain then true else contains_item items domain

unfoldable pub append_domain : List Text → Text → List Text
append_domain domains name =
    let domain = normalize_domain name in
    if same domain [] || not (valid_domain_name domain)
    then domains
    else if contains_item domains domain
    then domains
    else domains ++ domain ∷ []

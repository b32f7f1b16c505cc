-- ===== src/Server/Names.antt =====
-- The checks of host names in `src/ngrok/server/tunnel.go`.
pub mod Labels
pub mod Allowed
use ngrok.Prelude.{
  ℕ, ◌+◌, ◌-◌, Bool, true, false, not, ◌&&◌, ◌||◌, List, [], ◌∷◌, ◌++◌, Option, none, some, leb,
  ltb, ◌==◌, if◌then◌else◌, length,
}
use ngrok.Prelude.Text.{Text, text, same, split, has_suffix}
use ngrok.Prelude.HostPort.{split_host_port}

abbrev pub is_label_char : ℕ → Bool
is_label_char ch = (leb b'a' ch && leb ch b'z') || (leb b'0' ch && leb ch b'9') || ch == b'-'

-- The loop over the characters.
unfoldable pub all_label_chars : Text → Bool
all_label_chars [] = true
all_label_chars (ch ∷ rest) = if is_label_char ch then all_label_chars rest else false

unfoldable pub ends_in_dash : Text → Bool
ends_in_dash [] = false
ends_in_dash (c ∷ []) = c == b'-'
ends_in_dash (c ∷ d ∷ s) = ends_in_dash (d ∷ s)

unfoldable pub starts_with_dash : Text → Bool
starts_with_dash [] = false
starts_with_dash (c ∷ s) = c == b'-'

unfoldable pub valid_hostname_label : Text → Bool
valid_hostname_label label =
    if length label == 0 || ltb 63 (length label)
    then false
    else if starts_with_dash label || ends_in_dash label
    then false
    else all_label_chars label

unfoldable pub all_labels_valid : List Text → Bool
all_labels_valid [] = true
all_labels_valid (label ∷ labels) =
    if not (valid_hostname_label label) then false else all_labels_valid labels

unfoldable pub valid_hostname : Text → Bool
valid_hostname hostname =
    if length hostname == 0 || ltb 253 (length hostname)
    then false
    else all_labels_valid (split b'.' hostname)

unfoldable pub strip_host_port : Text → Text
strip_host_port host = elim (split_host_port host) [ none ↦ host | some (h, port) ↦ h ]

unfoldable pub hostname_allowed : Text → List Text → Bool
hostname_allowed hostname [] = false
hostname_allowed hostname (vhost ∷ vhosts) =
    let host = strip_host_port vhost in
    if same hostname host || has_suffix hostname (b'.' ∷ host)
    then true
    else hostname_allowed hostname vhosts

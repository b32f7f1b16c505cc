-- ===== src/Admin/Env/RoundTrip.antt =====
-- What is written to the environment file is read back, `src/ngrok/admin/main.go`.
use ngrok.Prelude.{
  ℕ, Bool, true, false, ◌&&◌, ◌||◌, [], ◌∷◌, ◌++◌, ◌≡◌, refl, ap, ◌∙◌, some, if◌then◌else◌, ◌==◌,
  leb, All, arith, Bool-cases, inl, inr, append_assoc,
}
use ngrok.Prelude.Maps.{Map, get, put}
use ngrok.Prelude.Text.{Text, text, text_dec, same, split, split_n, after_prefix, trim_space}
use ngrok.Prelude.HostPort.{contains_byte}
use ngrok.Prelude.Parts.{Lacks, Lacks-append, split-part, trim_space-none}
use ngrok.Admin.Config.{
  ServerConfig, first, apply_defaults, first_again, first_nothing, default_control_host_again,
  default_control_host_filled, has_prefix,
}
use ngrok.Admin.Env.{
  Strconv, env_value, write_env, entries, write_entries, write_server_config, read_env_parts,
  read_env_line, read_env_lines, read_env_file, merged, read_server_config, value_of,
}
use ngrok.Admin.Env.Written.{
  IsStrconv, env_value-IsWritten, IsKeyChar, IsKey, key-Lacks, read_env_line-key,
}

-- The variables are put in order.
abbrev put_all : Map Text Text → Map Text Text → Map Text Text
put_all [] values = values
put_all ((key, value) ∷ m) values = put_all m (put text_dec key value values)

abbrev HasKeys : Map Text Text → Type 0
HasKeys [] = Unit
HasKeys ((key, value) ∷ m) = IsKey key × HasKeys m

written_line :
    (key written rest : Text)
    → (key ++ (b'=' ∷ (written ++ b'\n' ∷ []))) ++ rest ≡ (key ++ b'=' ∷ written) ++ b'\n' ∷ rest
written_line [] written rest = ap (◌∷◌ b'=') (append_assoc written (b'\n' ∷ []) rest)
written_line (c ∷ key) written rest = ap (◌∷◌ c) (written_line key written rest)

blank :
    (k : Strconv) (values : Map Text Text)
    → (if same [] [] || has_prefix [] (text "#")
        then values
        else read_env_parts k (split_n b'=' 2 []) values)
      ≡ values
unfolding text_dec
blank k values = refl

read_env_lines-write_entries :
    (k : Strconv) (m values : Map Text Text)
    → IsStrconv k
    → HasKeys m
    → read_env_lines k (split b'\n' (write_entries k m)) values ≡ put_all m values
unfolding read_env_lines write_entries write_env split read_env_line contains_byte
read_env_lines-write_entries k [] values law h =
    rw (trim_space-none [] tt, read_env_line) (blank k values)
read_env_lines-write_entries k ((key, value) ∷ m) values law h =
    let written = env_value k value in
    let w = env_value-IsWritten k value law in
    let (n, _, _) = key-Lacks key h.0.1 in
    let one_line : Lacks b'\n' (key ++ b'=' ∷ written) =
      Lacks-append b'\n' key (b'=' ∷ written) n w.line in
    ap (λ t. read_env_lines k (split b'\n' t) values) (written_line key written (write_entries k m))
    ∙ (ap (λ ls. read_env_lines k ls values)
          (split-part b'\n' (key ++ b'=' ∷ written) (write_entries k m) one_line)
        ∙ (ap (read_env_lines k (split b'\n' (write_entries k m)))
              (read_env_line-key k key value written values h.0 w)
            ∙ read_env_lines-write_entries k m (put text_dec key value values) law h.1))

-- What the values of the file are merged to.
abbrev with_fallbacks : ServerConfig → ServerConfig
with_fallbacks c = record c {
  domain = first c.domain (text "example.com");
  control_host = first c.control_host (text "ngrok.example.com");
  tls_crt = first c.tls_crt (text "/etc/ngrok/tls/fullchain.pem");
  tls_key = first c.tls_key (text "/etc/ngrok/tls/privkey.pem");
  auth_token = first c.auth_token [];
  http_addr = first c.http_addr (text "127.0.0.1:8080");
  https_addr = first c.https_addr [];
  tunnel_addr = first c.tunnel_addr (text "0.0.0.0:4443");
  log_level = first c.log_level (text "INFO");
  max_connections = first c.max_connections (text "1024");
  extra_args = first c.extra_args [];
}

merged-entries : (c : ServerConfig) → merged (put_all (entries c) []) ≡ with_fallbacks c
unfolding merged value_of get put text_dec
merged-entries c = go c.vhost
  where
    go :
        (v : Text)
        → merged (put_all (entries (record c { vhost = v })) [])
          ≡ with_fallbacks (record c { vhost = v })
    go [] = refl
    go (x ∷ v) = refl

-- Capital letters and underscores.
abbrev is_upper : ℕ → Bool
is_upper c = (leb b'A' c && leb c b'Z') || c == b'_'

abbrev all_upper : Text → Bool
all_upper [] = true
all_upper (c ∷ s) = if is_upper c then all_upper s else false

all_upper-IsKey : (c : ℕ) (s : Text) → all_upper (c ∷ s) ≡ true → IsKey (c ∷ s)
all_upper-IsKey c s h = ((λ e. cc), chars (c ∷ s) h)
  where
    char : (d : ℕ) → is_upper d ≡ true → IsKeyChar d
    char d e = (ground (arith, e), ground (arith, e), ground (arith, e), ground (arith, e))

    chars : (t : Text) → all_upper t ≡ true → All IsKeyChar t
    chars [] e = tt
    chars (d ∷ t) e = elim (Bool-cases (is_upper d)) [
      | inl u ↦ (char d u, chars t (rw u at e))
      | inr l ↦ absurd (cc (rw l at e))
    ]

abbrev upper_keys : Map Text Text → Bool
upper_keys [] = true
upper_keys (([], value) ∷ m) = false
upper_keys ((c ∷ s, value) ∷ m) = if all_upper (c ∷ s) then upper_keys m else false

upper_keys-HasKeys : (m : Map Text Text) → upper_keys m ≡ true → HasKeys m
upper_keys-HasKeys [] h = tt
upper_keys-HasKeys (([], value) ∷ m) h = absurd (cc)
upper_keys-HasKeys ((c ∷ s, value) ∷ m) h = elim (Bool-cases (all_upper (c ∷ s))) [
  | inl u ↦ (all_upper-IsKey c s u, upper_keys-HasKeys m (rw u at h))
  | inr l ↦ absurd (cc (rw l at h))
]

entries-HasKeys : (c : ServerConfig) → HasKeys (entries c)
unfolding text_dec
entries-HasKeys c = upper_keys-HasKeys (entries c) (upper c.vhost)
  where
    upper : (v : Text) → upper_keys (entries (record c { vhost = v })) ≡ true
    upper [] = refl
    upper (x ∷ v) = refl

header_skipped : (k : Strconv) → read_env_line k (text "# Managed by ngrok-admin.") [] ≡ []
unfolding read_env_line text_dec trim_space after_prefix
header_skipped k = refl

with_fallbacks-apply_defaults :
    (c : ServerConfig) → apply_defaults (with_fallbacks (apply_defaults c)) ≡ apply_defaults c
unfolding apply_defaults
with_fallbacks-apply_defaults c =
    rw
      (
        first_again c.domain (text "example.com") (λ e. cc),
        apply_defaults,
        default_control_host_filled c.control_host (first c.domain (text "example.com"))
            (text "ngrok.example.com"),
        default_control_host_again c.control_host (first c.domain (text "example.com")),
        first_again c.tls_crt (text "/etc/ngrok/tls/fullchain.pem") (λ e. cc),
        first_again c.tls_key (text "/etc/ngrok/tls/privkey.pem") (λ e. cc),
        first_again c.http_addr (text "127.0.0.1:8080") (λ e. cc),
        first_again c.tunnel_addr (text "0.0.0.0:4443") (λ e. cc),
        first_again c.log_level (text "INFO") (λ e. cc),
        first_again c.max_connections (text "1024") (λ e. cc),
        first_nothing c.auth_token,
        first_nothing c.https_addr,
        first_nothing c.extra_args,
      )
      refl

read_env_file-write :
    (k : Strconv) (c : ServerConfig)
    → IsStrconv k
    → merged (read_env_file k (some (write_server_config k c))) ≡ with_fallbacks (apply_defaults c)
unfolding write_server_config read_env_file read_env_lines contains_byte
read_env_file-write k c law =
    let m = entries (apply_defaults c) in
    let lines : read_env_file k (some (write_server_config k c)) ≡ put_all m [] =
      ap (λ ls. read_env_lines k ls [])
        (split-part b'\n' (text "# Managed by ngrok-admin.") (write_entries k m) refl)
      ∙ (ap (read_env_lines k (split b'\n' (write_entries k m))) (header_skipped k)
          ∙ read_env_lines-write_entries k m [] law (entries-HasKeys (apply_defaults c))) in
    ap merged lines ∙ merged-entries (apply_defaults c)

-- The settings that are saved are read back, with their defaults, whatever texts they hold; quoting
-- and unquoting are as `strconv` promises.
pub read_server_config-write_server_config :
    (k : Strconv) (c : ServerConfig)
    → IsStrconv k
    → read_server_config k (some (write_server_config k c)) ≡ apply_defaults c
unfolding read_server_config
read_server_config-write_server_config k c law =
    ap apply_defaults (read_env_file-write k c law) ∙ with_fallbacks-apply_defaults c

-- The virtual hosts that are saved stand in the file.
pub value_of-write_server_config :
    (k : Strconv) (c : ServerConfig)
    → IsStrconv k
    → value_of (read_env_file k (some (write_server_config k c))) (text "VHOST") ≡ c.vhost
unfolding merged apply_defaults
value_of-write_server_config k c law = ap (λ d. d.vhost) (read_env_file-write k c law)

-- ===== src/Admin/Env.antt =====
-- The environment file of the server, `readServerConfig` and `writeServerConfig` of
-- `src/ngrok/admin/main.go`. The two functions of `strconv` are arguments, and a file is its text.
pub mod Written
pub mod RoundTrip
use ngrok.Prelude.{
  ℕ, Bool, true, false, not, ◌&&◌, ◌||◌, List, [], ◌∷◌, ◌++◌, ◌≡◌, Option, none, some,
  if◌then◌else◌, leb, ◌==◌,
}
use ngrok.Prelude.Maps.{Map, get, put}
use ngrok.Prelude.Text.{Text, text, text_dec, same, split, split_n, trim_space}
use ngrok.Admin.Config.{ServerConfig, default_server_config, first, apply_defaults, has_prefix}

-- `strconv.Quote` and `strconv.Unquote`, where `none` is an error.
pub record Strconv : Type 0 where
  pub quote : Text → Text
  pub unquote : Text → Option Text

-- A missing key gives the empty text.
unfoldable pub value_of : Map Text Text → Text → Text
value_of values key = elim (get text_dec key values) [ none ↦ [] | some v ↦ v ]

-- The characters that need no quotes.
abbrev pub is_env_char : ℕ → Bool
is_env_char r =
    r == b'/'
    || r == b':'
    || r == b'.'
    || r == b'-'
    || r == b'_'
    || r == b','
    || r == b'='
    || r == b'*'
    || r == b'@'
    || r == b'+'
    || (leb b'a' r && leb r b'z')
    || (leb b'A' r && leb r b'Z')
    || (leb b'0' r && leb r b'9')

unfoldable pub all_env_chars : Text → Bool
all_env_chars [] = true
all_env_chars (r ∷ s) = if not (is_env_char r) then false else all_env_chars s

unfoldable pub env_value : Strconv → Text → Text
env_value k value =
    if same value [] then [] else if all_env_chars value then value else k.quote value

-- What `writeEnv` appends.
unfoldable pub write_env : Strconv → Text → Text → Text
write_env k key value = key ++ (b'=' ∷ (env_value k value ++ b'\n' ∷ []))

-- The variables of the file, in order.
abbrev pub entries : ServerConfig → Map Text Text
entries c =
    (text "NGROKD_DOMAIN", c.domain)
    ∷ (text "NGROKD_CONTROL_HOST", c.control_host)
    ∷ (text "NGROKD_TLS_CRT", c.tls_crt)
    ∷ (text "NGROKD_TLS_KEY", c.tls_key)
    ∷ (text "NGROKD_AUTH_TOKEN", c.auth_token)
    ∷ (text "NGROKD_HTTP_ADDR", c.http_addr)
    ∷ (text "NGROKD_HTTPS_ADDR", c.https_addr)
    ∷ (text "NGROKD_TUNNEL_ADDR", c.tunnel_addr)
    ∷ (text "NGROKD_LOG_LEVEL", c.log_level)
    ∷ (text "NGROKD_MAX_CONNECTIONS", c.max_connections)
    ∷ (text "NGROKD_EXTRA_ARGS", c.extra_args)
    ∷ (if not (same c.vhost []) then (text "VHOST", c.vhost) ∷ [] else [])

unfoldable pub write_entries : Strconv → Map Text Text → Text
write_entries k [] = []
write_entries k ((key, value) ∷ m) = write_env k key value ++ write_entries k m

-- The text that `writeServerConfig` gives to `writeFileRoot`.
unfoldable pub write_server_config : Strconv → ServerConfig → Text
write_server_config k c =
    text "# Managed by ngrok-admin." ++ b'\n' ∷ write_entries k (entries (apply_defaults c))

unfoldable pub unquoted : Strconv → Text → Text
unquoted k value = elim (k.unquote value) [ none ↦ value | some v ↦ v ]

-- One round of the loop of `readEnvFile`.
unfoldable pub read_env_parts : Strconv → List Text → Map Text Text → Map Text Text
read_env_parts k (key ∷ value ∷ []) values =
    put text_dec (trim_space key) (unquoted k (trim_space value)) values
read_env_parts k parts values = values

unfoldable pub read_env_line : Strconv → Text → Map Text Text → Map Text Text
read_env_line k raw values =
    let line = trim_space raw in
    if same line [] || has_prefix line (text "#")
    then values
    else read_env_parts k (split_n b'=' 2 line) values

unfoldable pub read_env_lines : Strconv → List Text → Map Text Text → Map Text Text
read_env_lines k [] values = values
read_env_lines k (line ∷ lines) values = read_env_lines k lines (read_env_line k line values)

-- A file that cannot be read gives no values.
unfoldable pub read_env_file : Strconv → Option Text → Map Text Text
read_env_file k none = []
read_env_file k (some bytes) = read_env_lines k (split b'\n' bytes) []

-- The values, with the defaults for those that are empty.
unfoldable pub merged : Map Text Text → ServerConfig
merged values =
    let c = default_server_config in
    record {
      domain = first (value_of values (text "NGROKD_DOMAIN")) c.domain;
      control_host = first (value_of values (text "NGROKD_CONTROL_HOST")) c.control_host;
      tls_crt = first (value_of values (text "NGROKD_TLS_CRT")) c.tls_crt;
      tls_key = first (value_of values (text "NGROKD_TLS_KEY")) c.tls_key;
      auth_token = first (value_of values (text "NGROKD_AUTH_TOKEN")) c.auth_token;
      http_addr = first (value_of values (text "NGROKD_HTTP_ADDR")) c.http_addr;
      https_addr = first (value_of values (text "NGROKD_HTTPS_ADDR")) c.https_addr;
      tunnel_addr = first (value_of values (text "NGROKD_TUNNEL_ADDR")) c.tunnel_addr;
      log_level = first (value_of values (text "NGROKD_LOG_LEVEL")) c.log_level;
      max_connections = first (value_of values (text "NGROKD_MAX_CONNECTIONS")) c.max_connections;
      extra_args = first (value_of values (text "NGROKD_EXTRA_ARGS")) c.extra_args;
      vhost = value_of values (text "VHOST");
    }

unfoldable pub read_server_config : Strconv → Option Text → ServerConfig
read_server_config k file = apply_defaults (merged (read_env_file k file))

-- ===== src/Client/Config/Load.antt =====
-- `LoadConfiguration` and `SaveAuthToken` of `src/ngrok/client/config.go`. Files, the environment and
-- the parsers of URLs and numbers of hosts are arguments.
pub mod Checked
pub mod Legacy
pub mod Commands
use ngrok.Prelude.{
  ℕ, Bool, true, false, not, ◌&&◌, ◌||◌, List, [], ◌∷◌, map, Option, none, some, if◌then◌else◌,
  length, leb, ltb, ◌==◌,
}
use ngrok.Prelude.Maps.{Map, get, put}
use ngrok.Prelude.Text.{Text, text, text_dec, same, trim_space, split}
use ngrok.Client.Config.{
  Configuration, TunnelConfiguration, new_configuration, new_tunnel_configuration, ConfigError,
  unreadable, invalid_protocol, no_protocols, undefined_tunnel, unknown_command,
  inspect_without_auth, invalid_proxy_url, invalid_proxy_scheme, no_tunnel_to_start, Result, ok,
  err, ◌>>=◌,
}
use ngrok.Client.Config.Parse.{parse_configuration}
use ngrok.Client.Config.Print.{format_configuration}
use ngrok.Client.Config.Address.{normalize_address, validate_protocol, is_loopback_address}

-- The options of the command line.
pub record Options : Type 0 where
  pub config : Text
  pub logto : Text
  pub authtoken : Text
  pub inspectauth : Text
  pub httpauth : Text
  pub hostname : Text
  pub protocol : Text
  pub subdomain : Text
  pub command : Text
  pub args : List Text

-- What is read from outside: files, the default path, the variable `http_proxy`, the scheme of a URL
-- if it can be parsed, and whether a host is the number of a loopback address.
pub record World : Type 0 where
  pub read_file : Text → Option Text
  pub default_path : Text
  pub http_proxy : Text
  pub url_scheme : Text → Option Text
  pub is_loopback : Text → Bool

-- The characters of the old format, `[0-9a-zA-Z_\-!]`.
abbrev pub is_old_char : ℕ → Bool
is_old_char c =
    (leb b'0' c && leb c b'9')
    || (leb b'a' c && leb c b'z')
    || (leb b'A' c && leb c b'Z')
    || c == b'_'
    || c == b'-'
    || c == b'!'

unfoldable pub all_old_chars : Text → Bool
all_old_chars [] = true
all_old_chars (c ∷ s) = is_old_char c && all_old_chars s

unfoldable pub is_old_format : Text → Bool
is_old_format content = not (same content []) && all_old_chars content

-- The configuration that is read from a text.
unfoldable pub read_configuration : Text → Result Configuration
read_configuration bytes = do
  c ← parse_configuration bytes new_configuration
  let content = trim_space bytes
  ok (if is_old_format content then record new_configuration { auth_token = content } else c)

-- The first part of `LoadConfiguration`: a file that is not there is an error if it was asked for.
unfoldable pub read_file_configuration : World → Options → Result Configuration
read_file_configuration w opts =
    if same opts.config []
    then elim (w.read_file w.default_path) [
      | none ↦ read_configuration []
      | some bytes ↦ read_configuration bytes
    ]
    else elim (w.read_file opts.config) [
      | none ↦ err unreadable
      | some bytes ↦ read_configuration bytes
    ]

unfoldable pub or_default : Text → Text → Text
or_default value default = if same value [] then default else value

abbrev pub default_server_addr : Text
default_server_addr = text "ngrokd.ngrok.com:443"

abbrev pub default_inspect_addr : Text
default_inspect_addr = text "127.0.0.1:4040"

unfoldable pub set_defaults : World → Configuration → Configuration
set_defaults w c = record c {
  server_addr = or_default c.server_addr default_server_addr;
  inspect_addr = or_default c.inspect_addr default_inspect_addr;
  http_proxy = or_default c.http_proxy w.http_proxy;
}

unfoldable pub check_inspect : World → Options → Configuration → Result Configuration
check_inspect w opts c = if same c.inspect_addr (text "disabled") then ok c else (do
  a ← normalize_address c.inspect_addr
  let auth = or_default c.inspect_auth opts.inspectauth
  (if same auth [] && not (is_loopback_address w.is_loopback a)
      then err inspect_without_auth
      else ok (record c { inspect_addr = a; inspect_auth = auth })))

unfoldable pub check_server : Configuration → Result Configuration
check_server c = do a ← normalize_address c.server_addr; ok (record c { server_addr = a })

unfoldable pub check_proxy : World → Configuration → Result Configuration
check_proxy w c = if same c.http_proxy [] then ok c else elim (w.url_scheme c.http_proxy) [
  | none ↦ err invalid_proxy_url
  | some scheme ↦
      if same scheme (text "http") || same scheme (text "https")
      then ok c
      else err invalid_proxy_scheme
]

unfoldable pub check_protocols : Map Text Text → Result (Map Text Text)
check_protocols [] = ok []
check_protocols ((proto, addr) ∷ m) = do
  a ← normalize_address addr
  m' ← (if validate_protocol proto then check_protocols m else err (invalid_protocol proto))
  ok ((proto, a) ∷ m')

-- The name of a tunnel stands in for the host name or the subdomain.
unfoldable pub name_tunnel : Text → TunnelConfiguration → TunnelConfiguration
name_tunnel name t =
    if same t.hostname [] && same t.subdomain []
    then (if ltb 1 (length (split b'.' name))
        then record t { hostname = name }
        else record t { subdomain = name })
    else t

unfoldable pub check_tunnels : Map Text TunnelConfiguration → Result (Map Text TunnelConfiguration)
check_tunnels [] = ok []
check_tunnels ((name, t) ∷ m) =
    let rest = check_tunnels m in
    if length t.protocols == 0 then err (no_protocols name) else (do
      protocols ← check_protocols t.protocols
      m' ← rest
      ok ((name, name_tunnel name (record t { protocols = protocols })) ∷ m'))

-- The loop over the protocols of the command `default`.
unfoldable pub default_protocols : List Text → Text → Map Text Text → Result (Map Text Text)
default_protocols [] addr m = ok m
default_protocols (proto ∷ protos) addr m =
    if validate_protocol proto
    then (do a ← normalize_address addr; default_protocols protos addr (put text_dec proto a m))
    else err (invalid_protocol proto)

unfoldable pub is_defined : Map Text TunnelConfiguration → Text → Bool
is_defined m name = elim (get text_dec name m) [ none ↦ false | some t ↦ true ]

-- The loop over the names that are asked for: the first one that is not defined.
unfoldable pub first_undefined : Map Text TunnelConfiguration → List Text → Option Text
first_undefined m [] = none
first_undefined m (name ∷ names) =
    let rest = first_undefined m names in if is_defined m name then rest else some name

unfoldable pub is_requested : List Text → Text → Bool
is_requested [] name = false
is_requested (arg ∷ args) name = same arg name || is_requested args name

-- The loop that deletes the tunnels that are not asked for.
unfoldable pub keep_requested :
    List Text → Map Text TunnelConfiguration → Map Text TunnelConfiguration
keep_requested args [] = []
keep_requested args ((name, t) ∷ m) =
    let rest = keep_requested args m in if is_requested args name then (name, t) ∷ rest else rest

-- What `LoadConfiguration` ends with; the command `list` prints the names and exits. The command
-- `default` with no argument is an index out of range.
pub data Outcome : Type 0 where
  loaded : Configuration → Outcome
  listed : List Text → Outcome
  out_of_range : Outcome

unfoldable pub run_default : Options → Configuration → Result Outcome
run_default opts c = elim opts.args [
  | [] ↦ elim (split b'+' opts.protocol) [
    | [] ↦ ok out_of_range
    | proto ∷ protos ↦
        if validate_protocol proto then ok out_of_range else err (invalid_protocol proto)
  ]
  | arg ∷ rest ↦ do
    protocols ← default_protocols (split b'+' opts.protocol) arg []
    let t = record new_tunnel_configuration {
      subdomain = opts.subdomain;
      hostname = opts.hostname;
      http_auth = opts.httpauth;
      protocols = protocols;
    }
    ok (loaded (record c { tunnels = (text "default", t) ∷ [] }))
]

unfoldable pub run_start : Options → Configuration → Result Outcome
run_start opts c = elim opts.args [
  | [] ↦ err no_tunnel_to_start
  | arg ∷ rest ↦ elim (first_undefined c.tunnels (arg ∷ rest)) [
    | some name ↦ err (undefined_tunnel name)
    | none ↦ ok (loaded (record c { tunnels = keep_requested (arg ∷ rest) c.tunnels }))
  ]
]

unfoldable pub run_command : Options → Configuration → Result Outcome
run_command opts c =
    if same opts.command (text "default")
    then run_default opts c
    else if same opts.command (text "list")
    then ok (listed (map (λ e. e.0) c.tunnels))
    else if same opts.command (text "start")
    then run_start opts c
    else if same opts.command (text "start-all")
    then ok (loaded c)
    else err (unknown_command opts.command)

-- The options that override the file.
unfoldable pub override : World → Options → Configuration → Configuration
override w opts c = record c {
  log_to = opts.logto;
  path = (if same opts.config [] then w.default_path else opts.config);
  auth_token = or_default opts.authtoken c.auth_token;
}

-- The checks of `LoadConfiguration`, in order.
unfoldable pub check_configuration : World → Options → Configuration → Result Configuration
check_configuration w opts c = do
  c1 ← check_inspect w opts (set_defaults w c)
  c2 ← check_server c1
  c3 ← check_proxy w c2
  tunnels ← check_tunnels c3.tunnels
  ok (override w opts (record c3 { tunnels = tunnels }))

unfoldable pub load_configuration : World → Options → Result Outcome
load_configuration w opts = do
  c ← read_file_configuration w opts
  c' ← check_configuration w opts c
  run_command opts c'

-- `SaveAuthToken`: what is written to the file, if anything is.
unfoldable pub save_auth_token : World → Text → Text → Result (Option Text)
save_auth_token w path authtoken = do
  c ← elim (w.read_file path) [
    | none ↦ ok new_configuration
    | some bytes ↦ parse_configuration bytes new_configuration
  ]
  ok (
      if same c.auth_token authtoken
      then none
      else some (format_configuration (record c { auth_token = authtoken })))

-- ===== src/Admin/Pages/Reading.antt =====
-- The file for clients is one that the client reads, `clientConfig` of `src/ngrok/admin/main.go` and
-- `parseConfiguration` of `src/ngrok/client/config.go`.
use ngrok.Prelude.{
  ℕ, suc, ◌+◌, ◌<◌, Bool, true, false, not, ◌||◌, ◌&&◌, List, [], ◌∷◌, ◌++◌, ◌≡◌, ◌≢◌, refl, sym,
  ap, ◌∙◌, Option, none, some, if◌then◌else◌, length, length-append, leb, ◌==◌, All, All-append,
  arith, Bool-cases, inl, inr,
}
use ngrok.Prelude.Text.{
  Text, text, text_dec, split, split_n, is_space, trim_left, trim_right, trim_space, to_lower,
}
use ngrok.Prelude.HostPort.{contains_byte}
use ngrok.Prelude.Maps.{get, put}
use ngrok.Prelude.Parts.{Lacks, split-part}
use ngrok.Client.Config.{
  Configuration, new_configuration, TunnelConfiguration, new_tunnel_configuration, Result, ok, err,
  ◌>>=◌,
}
use ngrok.Client.Config.Lines.{
  raw_lines, drop_empty_last, drop_cr, strip_comment, leading_spaces, is_quote, trim_quotes,
  split_key_value, pair_of, parse_bool,
}
use ngrok.Client.Config.Parse.{
  Parser, step_top, step_tunnel, step_option, step_protocol, step_indent, set_tunnel, tunnel_at,
  parse_line, parse_lines, max_line, parse_configuration,
}
use ngrok.Admin.Config.{ServerConfig, apply_defaults}
use ngrok.Admin.Pages.{tunnel_port, client_tail, client_config}
use ngrok.Admin.Pages.Lines.{IsPlain, plain_newline, lines_read}

-- The parser after the two first lines.
abbrev known : Text → Text → Parser
known server token = record {
  config = record new_configuration { server_addr = server; auth_token = token };
  in_tunnels = false;
  current = none;
  in_proto = false;
}

-- What the client has read.
abbrev pub client_settings : Text → Text → Configuration
client_settings server token = record new_configuration {
  server_addr = server;
  auth_token = token;
  trust_host_root_certs = true;
  inspect_addr = text "127.0.0.1:4040";
  tunnels =
      (
        text "app",
        record new_tunnel_configuration {
          subdomain = text "app";
          protocols = (text "http", text "127.0.0.1:3000") ∷ [];
        },
      )
      ∷ [];
}

tail_read :
    (server token : Text)
    → (parse_lines 3 (drop_empty_last (split b'\n' client_tail)) (known server token) >>= λ p.
        ok p.config)
      ≡ ok (client_settings server token)
unfolding parse_lines parse_line text_dec step_indent leading_spaces step_top strip_comment
    parse_bool to_lower step_tunnel set_tunnel put drop_empty_last split trim_space drop_cr
    split_key_value pair_of split_n step_option step_protocol ngrok.Prelude.ℕ_discrete
    ngrok.Client.Config.Lines.parse_uint16 trim_quotes tunnel_at get
    ngrok.Prelude.Numbers.digits_value ngrok.Prelude.Numbers.unsigned trim_left trim_right
tail_read server token = refl

abbrev is_plain : ℕ → Bool
is_plain c = not (is_space c) && (not (c == b'#') && not (is_quote c))

abbrev all_plain : Text → Bool
all_plain [] = true
all_plain (c ∷ s) = if is_plain c then all_plain s else false

pub all_plain-IsPlain : (s : Text) → all_plain s ≡ true → All IsPlain s
all_plain-IsPlain [] h = tt
all_plain-IsPlain (c ∷ s) h = elim (Bool-cases (is_plain c)) [
  | inl e ↦
      ((ground (arith, e), ground (arith, e), ground (arith, e)), all_plain-IsPlain s (rw e at h))
  | inr e ↦ absurd (cc (rw e at h))
]

-- The file for a host, a port and a token.
abbrev file_of : Text → Text → Text → Text
file_of host port token =
    (text "server_addr: " ++ (host ++ b':' ∷ port))
    ++ b'\n' ∷ ((text "auth_token: " ++ token) ++ b'\n' ∷ client_tail)

abbrev started : Parser
started = record {
  config = new_configuration;
  in_tunnels = false;
  current = none;
  in_proto = false;
}

abbrev with_server : Text → Parser
with_server server = record {
  config = record new_configuration { server_addr = server };
  in_tunnels = false;
  current = none;
  in_proto = false;
}

server_step :
    (n : ℕ) (value : Text)
    → step_indent 0 n (text "server_addr") value started ≡ ok (with_server value)
unfolding step_indent step_top text_dec
server_step n value = refl

token_step :
    (n : ℕ) (server value : Text)
    → step_indent 0 n (text "auth_token") value (with_server server) ≡ ok (known server value)
unfolding step_indent step_top text_dec
token_step n server value = refl

raw_lines-file_of :
    (host port token : Text)
    → Lacks b'\n' (text "server_addr: " ++ (host ++ b':' ∷ port))
    → Lacks b'\n' (text "auth_token: " ++ token)
    → raw_lines (file_of host port token)
      ≡ (text "server_addr: " ++ (host ++ b':' ∷ port))
        ∷ (text "auth_token: " ++ token)
        ∷ drop_empty_last (split b'\n' client_tail)
unfolding raw_lines drop_empty_last split
raw_lines-file_of host port token l1 l2 =
    let rest = (text "auth_token: " ++ token) ++ b'\n' ∷ client_tail in
    let first_line = text "server_addr: " ++ (host ++ b':' ∷ port) in
    ap drop_empty_last (split-part b'\n' first_line rest l1)
    ∙ ap (λ ls. drop_empty_last (first_line ∷ ls))
        (split-part b'\n' (text "auth_token: " ++ token) client_tail l2)

file_read :
    (h t : ℕ) (host port token : Text)
    → All IsPlain (h ∷ host)
    → All IsPlain port
    → All IsPlain (t ∷ token)
    → length (h ∷ host) + length port + 14 < max_line
    → length (t ∷ token) + 12 < max_line
    → parse_configuration (file_of (h ∷ host) port (t ∷ token)) new_configuration
      ≡ ok (client_settings ((h ∷ host) ++ b':' ∷ port) (t ∷ token))
unfolding parse_configuration contains_byte
file_read h t host port token ph pp pt lh lt =
    let server = (h ∷ host) ++ b':' ∷ port in
    let plain : All IsPlain server =
      All-append IsPlain (h ∷ host) (b':' ∷ port) ph ((refl, refl, refl), pp) in
    let size : length server ≡ length (h ∷ host) + suc (length port) =
      length-append (h ∷ host) (b':' ∷ port) in
    let end : Parser → Result Configuration = λ p. ok p.config in
    let ls = drop_empty_last (split b'\n' client_tail) in
    ap (λ l. parse_lines 1 l started >>= end)
      (raw_lines-file_of (h ∷ host) port (t ∷ token) (plain_newline server plain)
        (plain_newline (t ∷ token) pt))
    ∙ (ap (λ r. r >>= end)
          (lines_read b's' (text "erver_addr") h (host ++ b':' ∷ port)
              (all_plain-IsPlain (text "server_addr") refl) refl plain 1
              ((text "auth_token: " ++ t ∷ token) ∷ ls) started (with_server server)
              (omega (arith, size, lh)) (server_step 1 server)
            ∙ lines_read b'a' (text "uth_token") t token
                (all_plain-IsPlain (text "auth_token") refl) refl pt 2 ls (with_server server)
                (known server (t ∷ token)) (omega (arith, lt)) (token_step 2 server (t ∷ token)))
        ∙ tail_read server (t ∷ token))

-- The client reads what `clientConfig` writes: the server's address, the token, and one tunnel. The
-- control host, the port and the token are not empty, hold no white space, number sign or quote, and
-- fit in the lines that the client's scanner holds.
pub parse_configuration-client_config :
    (c : ServerConfig) (h t : ℕ) (host token : Text)
    → (apply_defaults c).control_host ≡ h ∷ host
    → c.auth_token ≡ t ∷ token
    → All IsPlain (h ∷ host)
    → All IsPlain (tunnel_port (apply_defaults c).tunnel_addr)
    → All IsPlain (t ∷ token)
    → length (h ∷ host) + length (tunnel_port (apply_defaults c).tunnel_addr) + 14 < max_line
    → length (t ∷ token) + 12 < max_line
    → parse_configuration (client_config c) new_configuration
      ≡ ok (
          client_settings
            ((h ∷ host) ++ b':' ∷ tunnel_port (apply_defaults c).tunnel_addr)
            (t ∷ token))
unfolding client_config apply_defaults
parse_configuration-client_config c h t host token eh et ph pp pt lh lt =
    let port = tunnel_port (apply_defaults c).tunnel_addr in
    ap (λ x. parse_configuration (file_of x port c.auth_token) new_configuration) eh
    ∙ (ap (λ y. parse_configuration (file_of (h ∷ host) port y) new_configuration) et
        ∙ file_read h t host port token ph pp pt lh lt)

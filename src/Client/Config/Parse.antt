-- ===== src/Client/Config/Parse.antt =====
-- `parseConfiguration` of `src/ngrok/client/config.go`. The pointer to the current tunnel is its name:
-- the tunnel is what the map holds there, since only an entry of the same name replaces it, and then
-- the pointer is to the new one.
use ngrok.Prelude.{
  ℕ, suc, ◌*◌, Bool, true, false, not, List, [], ◌∷◌, Option, none, some, if◌then◌else◌, length,
  leb, ◌==◌,
}
use ngrok.Prelude.Maps.{get, put}
use ngrok.Prelude.Text.{Text, text, text_dec, same, trim_space}
use ngrok.Client.Config.{
  Configuration, TunnelConfiguration, new_tunnel_configuration, expected_pair, unexpected_nested,
  option_without_tunnel, invalid_remote_port, protocol_without_section, unsupported_indentation,
  unknown_config_key, unknown_tunnel_key, line_too_long, Result, ok, err, ◌>>=◌,
}
use ngrok.Client.Config.Lines.{
  raw_lines, drop_cr, strip_comment, leading_spaces, split_key_value, parse_bool, parse_uint16,
}

pub record Parser : Type 0 where
  pub config : Configuration
  pub in_tunnels : Bool
  pub current : Option Text
  pub in_proto : Bool

-- Indentation 0
unfoldable pub step_top : ℕ → Text → Text → Parser → Result Parser
step_top n key value p =
    let top : Configuration → Parser =
      λ c. record { config = c; in_tunnels = false; current = none; in_proto = false } in
    if same key (text "http_proxy")
    then ok (top (record (p.config) { http_proxy = value }))
    else if same key (text "server_addr")
    then ok (top (record (p.config) { server_addr = value }))
    else if same key (text "inspect_addr")
    then ok (top (record (p.config) { inspect_addr = value }))
    else if same key (text "inspect_auth")
    then ok (top (record (p.config) { inspect_auth = value }))
    else if same key (text "trust_host_root_certs")
    then ok (top (record (p.config) { trust_host_root_certs = parse_bool value }))
    else if same key (text "auth_token")
    then ok (top (record (p.config) { auth_token = value }))
    else if same key (text "tunnels")
    then ok (record { config = p.config; in_tunnels = true; current = none; in_proto = false })
    else err (unknown_config_key n key)

-- A write to the tunnel of a name.
unfoldable pub set_tunnel : Text → TunnelConfiguration → Configuration → Configuration
set_tunnel name t c = record c { tunnels = put text_dec name t c.tunnels }

-- The tunnel that the pointer is to.
unfoldable pub tunnel_at : Text → Configuration → TunnelConfiguration
tunnel_at name c = elim (get text_dec name c.tunnels) [
  | none ↦ new_tunnel_configuration
  | some t ↦ t
]

-- Indentation 2
unfoldable pub step_tunnel : ℕ → Text → Parser → Result Parser
step_tunnel n key p =
    if not p.in_tunnels
    then err (unexpected_nested n)
    else ok (record p {
      config = set_tunnel key new_tunnel_configuration p.config;
      current = some key;
      in_proto = false;
    })

-- Indentation 4, in the tunnel of a name.
unfoldable pub step_option : ℕ → Text → Text → Text → Parser → Result Parser
step_option n name key value p =
    let t = tunnel_at name p.config in
    let write : TunnelConfiguration → Result Parser =
      λ u. ok (record p { config = set_tunnel name u p.config; in_proto = false }) in
    if same key (text "subdomain")
    then write (record t { subdomain = value })
    else if same key (text "hostname")
    then write (record t { hostname = value })
    else if same key (text "auth")
    then write (record t { http_auth = value })
    else if same key (text "remote_port")
    then elim (parse_uint16 value) [
      | none ↦ err (invalid_remote_port n)
      | some port ↦ write (record t { remote_port = port })
    ]
    else if same key (text "proto")
    then ok (record p { in_proto = true })
    else err (unknown_tunnel_key n key)

-- Indentation 6, in the tunnel of a name.
unfoldable pub step_protocol : ℕ → Text → Text → Text → Parser → Result Parser
step_protocol n name key value p =
    if not p.in_proto
    then err (protocol_without_section n)
    else (let t = tunnel_at name p.config in
        let u = record t { protocols = put text_dec key value t.protocols } in
        ok (record p { config = set_tunnel name u p.config }))

-- The `switch` over the indentation.
unfoldable pub step_indent : ℕ → ℕ → Text → Text → Parser → Result Parser
step_indent indent n key value p =
    if indent == 0
    then step_top n key value p
    else if indent == 2
    then step_tunnel n key p
    else if indent == 4
    then elim p.current [
      | none ↦ err (option_without_tunnel n)
      | some name ↦ step_option n name key value p
    ]
    else if indent == 6
    then elim p.current [
      | none ↦ err (protocol_without_section n)
      | some name ↦ step_protocol n name key value p
    ]
    else err (unsupported_indentation n)

-- One round of the loop.
unfoldable pub parse_line : ℕ → Text → Parser → Result Parser
parse_line n line p =
    let raw = strip_comment line in
    if same (trim_space raw) [] then ok p else elim (split_key_value (trim_space raw)) [
      | none ↦ err (expected_pair n)
      | some (key, value) ↦ step_indent (leading_spaces raw) n key value p
    ]

-- The scanner holds lines of fewer bytes than this.
abbrev pub max_line : ℕ
max_line = 64 * 1024

unfoldable pub parse_lines : ℕ → List Text → Parser → Result Parser
parse_lines n [] p = ok p
parse_lines n (l ∷ ls) p =
    if leb max_line (length l)
    then err line_too_long
    else (do p' ← parse_line n (drop_cr l) p; parse_lines (suc n) ls p')

unfoldable pub parse_configuration : Text → Configuration → Result Configuration
parse_configuration bytes config = do
  p ←
      parse_lines 1 (raw_lines bytes)
        (record { config = config; in_tunnels = false; current = none; in_proto = false })
  ok p.config

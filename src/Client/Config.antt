-- ===== src/Client/Config.antt =====
-- The configuration of the client, `src/ngrok/client/config.go`: its data, errors and results.
pub mod Lines
pub mod Parse
pub mod Print
pub mod Address
pub mod Load
use ngrok.Prelude.{ℕ, Bool, false, List, [], ◌≡◌, refl, ◌⊎◌, inl, inr}
use ngrok.Prelude.Maps.{Map}
use ngrok.Prelude.Text.{Text}

-- Go's maps are association lists here; where the program goes through one, it does so in the order
-- of the list.
pub record TunnelConfiguration : Type 0 where
  pub subdomain : Text
  pub hostname : Text
  pub protocols : Map Text Text
  pub http_auth : Text
  pub remote_port : ℕ

pub record Configuration : Type 0 where
  pub http_proxy : Text
  pub server_addr : Text
  pub inspect_addr : Text
  pub inspect_auth : Text
  pub trust_host_root_certs : Bool
  pub auth_token : Text
  pub tunnels : Map Text TunnelConfiguration
  pub log_to : Text
  pub path : Text

-- `new(Configuration)`
abbrev pub new_configuration : Configuration
new_configuration = record {
  http_proxy = [];
  server_addr = [];
  inspect_addr = [];
  inspect_auth = [];
  trust_host_root_certs = false;
  auth_token = [];
  tunnels = [];
  log_to = [];
  path = [];
}

abbrev pub new_tunnel_configuration : TunnelConfiguration
new_tunnel_configuration = record {
  subdomain = [];
  hostname = [];
  protocols = [];
  http_auth = [];
  remote_port = 0;
}

-- The errors; those of the parser have the number of the line.
pub data ConfigError : Type 0 where
  expected_pair unexpected_nested option_without_tunnel invalid_remote_port : ℕ → ConfigError
  protocol_without_section unsupported_indentation : ℕ → ConfigError
  unknown_config_key unknown_tunnel_key : ℕ → Text → ConfigError
  line_too_long unreadable : ConfigError
  invalid_address invalid_protocol no_protocols undefined_tunnel unknown_command :
      Text → ConfigError
  inspect_without_auth invalid_proxy_url invalid_proxy_scheme no_tunnel_to_start : ConfigError

-- A value, or the first error of the steps that lead to it.
pub data Result (A : Type 0) : Type 0 where
  err : ConfigError → Result A
  ok : A → Result A

abbrev pub ◌>>=◌ : {A B : Type 0} → Result A → (A → Result B) → Result B
run >>= next = elim run [ err e ↦ err e | ok a ↦ next a ]

infixl 5 ◌>>=◌
-- A chain that succeeds is one whose parts succeed.
pub bind-ok :
    {A B : Type 0} {end : B} (run : Result A) (next : A → Result B)
    → run >>= next ≡ ok end
    → (a : A) × (run ≡ ok a) × (next a ≡ ok end)
bind-ok (err e) next h = cc
bind-ok (ok a) next h = (a, refl, h)

pub Result-cases :
    {A : Type 0} (r : Result A) → ((e : ConfigError) × (r ≡ err e)) ⊎ ((a : A) × (r ≡ ok a))
Result-cases (err e) = inl (e, refl)
Result-cases (ok a) = inr (a, refl)

-- ===== src/Tests/Deployments.antt =====
-- An instance of the theorem on the checks of the names.
use ngrok.Prelude.{false, [], ◌∷◌, ◌≡◌, ◌↔◌, none, All}
use ngrok.Prelude.Text.{text}
use ngrok.Admin.Config.{default_server_config, default_like_domain, ServerConfig}
use ngrok.Admin.Env.{Strconv}
use ngrok.Admin.Domains.{configured_domain_list}
use ngrok.Admin.Checks.{Outside, addresses, dns_step_state}
use ngrok.Admin.Checks.Names.{IsKnown, IsServed, dns_step_state_iff}

abbrev no_quotes : Strconv
no_quotes = record { quote = λ s. s; unquote = λ s. none }

abbrev online : Outside
online = record {
  lookup_host = λ host. addresses (text "192.0.2.1" ∷ []);
  unix_time = λ domain. 5;
  getenv = λ key. [];
  exists_file = λ path. false;
}

abbrev web_config : ServerConfig
web_config = record default_server_config { domain = text "web.io" }

dns_step_state_iff_example : (dns_step_state no_quotes online none web_config ≡ text "done") ↔ (
    (default_like_domain web_config.domain ≡ false)
    × All (IsServed online) (configured_domain_list no_quotes none web_config)
    × IsKnown online web_config.control_host)
dns_step_state_iff_example = dns_step_state_iff no_quotes online none web_config

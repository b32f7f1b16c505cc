-- ===== src/Tests/Clients.antt =====
-- Instances of the theorems on the client.
use ngrok.Prelude.{
  ℕ, suc, ◌+◌, ◌^◌, ◌≤◌, Bool, true, false, List, [], ◌∷◌, ◌++◌, ◌≡◌, ◌⊎◌, ◌↔◌, refl, Option, none,
  some, In, inl, inr, arith, All, length,
}
use ngrok.Prelude.Maps.{get}
use ngrok.Prelude.Text.{Text, text, text_dec}
use ngrok.Prelude.HostPort.{contains_byte}
use ngrok.Msg.{new_tunnel, req_proxy}
use ngrok.Client.Config.{
  TunnelConfiguration, Configuration, new_configuration, new_tunnel_configuration, Result, ok, err,
  undefined_tunnel, expected_pair,
}
use ngrok.Client.Config.Address.{normalize_address, server_name, server_name-normalize_address}
use ngrok.Client.Config.Load.{
  Options, World, load_configuration, loaded, run_start, read_configuration, is_old_format,
  all_old_chars,
}
use ngrok.Client.Config.Load.Checked.{IsChecked}
use ngrok.Client.Config.Load.Commands.{load_configuration-IsChecked, run_start_lem}
use ngrok.Client.Config.Load.Legacy.{read_configuration_old}
use ngrok.Client.Model.{ClientModel, ClientTunnel, http, conn_connecting, Network, control}
use ngrok.Client.Model.Backoff.{rounds, start_run, expected_waits, backoff_lem}
use ngrok.Client.Model.Heartbeat.{
  Beat, BeatEvent, checks, pings, pongs, beats, start_beat, IsPaced, max_pong_latency, beats_end,
}
use ngrok.Client.Model.Heartbeat.Answered.{EndsBy, beats_go_on}
use ngrok.Client.Model.Proxy.{Links, IsJoined, proxy, joined, proxy-joined_iff}
use ngrok.Client.Model.Tunnels.{IsServed, control-IsServed}

abbrev plain_options : Options
plain_options = record {
  config = [];
  logto = text "none";
  authtoken = [];
  inspectauth = [];
  httpauth = [];
  hostname = [];
  protocol = text "http+https";
  subdomain = [];
  command = text "start";
  args = text "web" ∷ [];
}

abbrev config_file : Text
config_file =
    text
      "server_addr: example.com:4443\ntunnels:\n  web:\n    proto:\n      http: 80\n  db:\n    proto:\n      tcp: 5432\n"

abbrev home : World
home = record {
  read_file = λ path. some config_file;
  default_path = text "/home/.ngrok";
  http_proxy = [];
  url_scheme = λ url. none;
  is_loopback = λ host. true;
}

abbrev web : TunnelConfiguration
web = record new_tunnel_configuration {
  subdomain = text "web";
  protocols = (text "http", text "127.0.0.1:80") ∷ [];
}

abbrev web_configuration : Configuration
web_configuration = record new_configuration {
  server_addr = text "example.com:4443";
  inspect_addr = text "127.0.0.1:4040";
  log_to = text "none";
  path = text "/home/.ngrok";
  tunnels = (text "web", web) ∷ [];
}

home-loads : load_configuration home plain_options ≡ ok (loaded web_configuration)
unfolding load_configuration ngrok.Client.Config.Load.read_file_configuration text_dec
    read_configuration ngrok.Client.Config.Parse.parse_configuration
    ngrok.Client.Config.Parse.parse_lines ngrok.Client.Config.Lines.raw_lines
    ngrok.Prelude.Text.split ngrok.Client.Config.Parse.parse_line ngrok.Prelude.Text.trim_space
    ngrok.Client.Config.Lines.strip_comment ngrok.Client.Config.Lines.drop_cr
    ngrok.Client.Config.Lines.split_key_value ngrok.Client.Config.Lines.pair_of
    ngrok.Prelude.Text.split_n ngrok.Client.Config.Parse.step_indent
    ngrok.Client.Config.Lines.leading_spaces ngrok.Client.Config.Parse.step_top
    ngrok.Prelude.ℕ_discrete ngrok.Client.Config.Address.is_loopback_address
    ngrok.Client.Config.Address.join_address normalize_address
    ngrok.Client.Config.Address.validate_protocol ngrok.Client.Config.Address.with_colon
    ngrok.Client.Config.Lines.drop_empty_last ngrok.Client.Config.Lines.parse_bool
    ngrok.Client.Config.Lines.parse_uint16 ngrok.Client.Config.Lines.trim_quotes
    ngrok.Client.Config.Load.all_old_chars ngrok.Client.Config.Load.check_configuration
    ngrok.Client.Config.Load.check_inspect ngrok.Client.Config.Load.check_protocols
    ngrok.Client.Config.Load.check_proxy ngrok.Client.Config.Load.check_server
    ngrok.Client.Config.Load.check_tunnels ngrok.Client.Config.Load.default_protocols
    ngrok.Client.Config.Load.first_undefined ngrok.Client.Config.Load.is_defined
    ngrok.Client.Config.Load.is_old_format ngrok.Client.Config.Load.is_requested
    ngrok.Client.Config.Load.keep_requested ngrok.Client.Config.Load.name_tunnel
    ngrok.Client.Config.Load.or_default ngrok.Client.Config.Load.override
    ngrok.Client.Config.Load.run_command ngrok.Client.Config.Load.run_default run_start
    ngrok.Client.Config.Load.set_defaults ngrok.Client.Config.Parse.set_tunnel
    ngrok.Client.Config.Parse.step_option ngrok.Client.Config.Parse.step_protocol
    ngrok.Client.Config.Parse.step_tunnel ngrok.Client.Config.Parse.tunnel_at
    ngrok.Prelude.HostPort.bracketed contains_byte ngrok.Prelude.HostPort.index_byte
    ngrok.Prelude.HostPort.last_index_byte ngrok.Prelude.HostPort.plain
    ngrok.Prelude.HostPort.split_host_port get ngrok.Prelude.Maps.put ngrok.Prelude.Numbers.atoi
    ngrok.Prelude.Numbers.below ngrok.Prelude.Numbers.digits_value ngrok.Prelude.Numbers.unsigned
    ngrok.Prelude.Text.to_lower ngrok.Prelude.Text.trim_left ngrok.Prelude.Text.trim_right
home-loads = refl

load_configuration-IsChecked_example : IsChecked home web_configuration
load_configuration-IsChecked_example =
    load_configuration-IsChecked home plain_options web_configuration home-loads

run_start_lem_example :
    ((name : Text) × In name (text "web" ∷ [])
      × (run_start plain_options new_configuration ≡ err (undefined_tunnel name))
      × (get text_dec name new_configuration.tunnels ≡ none))
    ⊎ ((d : Configuration) × (run_start plain_options new_configuration ≡ ok (loaded d))
        × ((name : Text)
            → In name (text "web" ∷ [])
            → (t : TunnelConfiguration) × (get text_dec name new_configuration.tunnels ≡ some t)
              × (get text_dec name d.tunnels ≡ some t))
        × ((name : Text) → (In name (text "web" ∷ []) → ⊥) → get text_dec name d.tunnels ≡ none))
run_start_lem_example = run_start_lem plain_options new_configuration (text "web") [] refl

read_configuration_old_example : read_configuration (text "s3cret") ≡ err (expected_pair 1)
unfolding is_old_format all_old_chars text_dec
read_configuration_old_example = read_configuration_old b's' (text "3cret") refl (omega arith)

server_name-normalize_address_example :
    (normalize_address (text "[::1]:443") ≡ ok (text "::1:443"))
    × (server_name (text "::1:443") ≡ none)
unfolding contains_byte
server_name-normalize_address_example =
    server_name-normalize_address b':' (text ":1") (text "443") (refl, refl) (refl, refl) refl refl

-- A tunnel and a proxy are served, and a second answer is for no request.
abbrev a_network : Network
a_network = record {
  reachable = true;
  answer =
      some
        (record { version = text "2"; mm_version = text "1.7"; client_id = text "c"; error = [] });
  ids = λ n. text "r";
  writable = true;
  now = 5;
  messages =
      (
        6,
        new_tunnel (record {
          req_id = text "r";
          url = text "http://web.io";
          protocol = text "http";
          error = [];
        }),
      )
      ∷ (7, req_proxy)
      ∷ (
        8,
        new_tunnel (record {
          req_id = text "q";
          url = text "http://x.io";
          protocol = text "http";
          error = [];
        }),
      )
      ∷ [];
}

abbrev a_model : ClientModel
a_model = record {
  id = [];
  server_version = [];
  tunnels = [];
  conn_status = conn_connecting;
  last_pong = 0;
  proxies = 0;
  shutdowns = [];
}

abbrev web_tunnel : ClientTunnel
web_tunnel = record {
  public_url = text "http://web.io";
  local_addr = text "127.0.0.1:80";
  protocol = some http;
}

served :
    get text_dec (text "http://web.io") (control a_network (web ∷ []) a_model).tunnels
    ≡ some web_tunnel
unfolding control get text_dec ngrok.Client.Model.serve ngrok.Client.Model.handle_all
    ngrok.Client.Model.handle ngrok.Client.Model.handle_new_tunnel ngrok.Client.Model.request_all
    ngrok.Prelude.Maps.put ngrok.Client.Model.local_address ngrok.Client.Model.proto_map
served = refl

control-IsServed_example :
    (get text_dec (text "http://web.io") a_model.tunnels ≡ some web_tunnel)
    ⊎ IsServed a_network (web ∷ []) (text "http://web.io") web_tunnel
control-IsServed_example =
    control-IsServed a_network (web ∷ []) a_model (text "http://web.io") web_tunnel served

-- Checks that come late, and a ping of the client.
abbrev silent_events : List BeatEvent
silent_events =
    checks 2500000000
    ∷ checks 5000000000
    ∷ checks 7500000000
    ∷ checks 10000000000
    ∷ checks 12500000000
    ∷ checks 15000000000
    ∷ checks 17500000000
    ∷ pings true 19000000000
    ∷ []

silent_events-IsPaced : IsPaced 1500000000 0 100 silent_events
silent_events-IsPaced = (
  omega arith,
  (
    omega arith,
    (
      omega arith,
      (omega arith, (omega arith, (omega arith, (omega arith, (omega arith, omega arith, tt))))),
    ),
  ),
)

beats_end_example :
    beats (pings true 100 ∷ silent_events) (record { last_ping = 0; last_pong = 1 }) ≡ none
beats_end_example =
    beats_end 1500000000 0 silent_events (record { last_ping = 0; last_pong = 1 }) 100 (omega arith)
      (omega arith) (omega arith) tt silent_events-IsPaced
      (checks 17500000000, inr (inr (inr (inr (inr (inr (inl refl)))))), omega arith)

abbrev answered_events : List BeatEvent
answered_events = pings true 110 ∷ checks 120 ∷ pongs 130 ∷ checks 20000000000 ∷ []

answered_events-EndsBy : EndsBy ((start_beat 100).last_ping + max_pong_latency) answered_events
unfolding start_beat
answered_events-EndsBy = (omega arith, (omega arith, (omega arith, (omega arith, tt))))

beats_go_on_example : (b' : Beat) × (beats answered_events (start_beat 100) ≡ some b')
beats_go_on_example =
    beats_go_on 100 answered_events (omega arith, (omega arith, (omega arith, (omega arith, tt))))
      (refl, inl (inl (omega arith)), tt) answered_events-EndsBy

backoff_lem_example :
    (rounds (true ∷ false ∷ false ∷ []) start_run).waits
    ≡ expected_waits 0 (true ∷ false ∷ false ∷ [])
backoff_lem_example = backoff_lem (true ∷ false ∷ false ∷ [])

abbrev links : Links
links = record {
  reachable = true;
  writable = true;
  start_proxy = some (record { url = text "http://web.io"; client_addr = text "1.2.3.4:5" });
  local = λ addr. true;
}

abbrev web_model : ClientModel
web_model = record a_model { tunnels = (text "http://web.io", web_tunnel) ∷ [] }

proxy-joined_iff_example :
    (proxy links web_model ≡ joined web_tunnel (text "1.2.3.4:5"))
    ↔ IsJoined links web_model web_tunnel (text "1.2.3.4:5")
proxy-joined_iff_example = proxy-joined_iff links web_model web_tunnel (text "1.2.3.4:5")

-- ===== src/Tests/Admins.antt =====
-- Instances of the theorems on the administration.
use ngrok.Prelude.{
  ℕ, suc, ◌+◌, ◌-◌, ◌≤◌, ◌<◌, Bool, true, false, List, [], ◌∷◌, ◌++◌, map, ◌≡◌, ◌≢◌, ◌↔◌, ◌⊎◌, refl,
  ap, Option, none, some, if◌then◌else◌, ◌==◌, In, inl, inr, arith, All, length,
}
use ngrok.Prelude.Text.{after_prefix, Text, text, text_dec, trim_space, split}
use ngrok.Prelude.HostPort.{contains_byte}
use ngrok.Prelude.Parts.{Lacks}
use ngrok.Server.Names.{valid_hostname}
use ngrok.Client.Config.{new_configuration, ok}
use ngrok.Client.Config.Parse.{parse_configuration}
use ngrok.Admin.Config.{
  ServerConfig, default_server_config, apply_defaults, default_like_domain, first,
}
use ngrok.Admin.Env.{Strconv, is_env_char, read_server_config, write_server_config}
use ngrok.Admin.Env.Written.{IsStrconv}
use ngrok.Admin.Env.RoundTrip.{read_server_config-write_server_config}
use ngrok.Admin.Names.{valid_domain_name, parse_domain_input, fields_func, is_separator}
use ngrok.Admin.Names.Valid.{valid_domain_name-valid_hostname}
use ngrok.Admin.Names.Collected.{IsCollected, parse_domain_input-IsCollected}
use ngrok.Admin.CertArgs.{fields_of, domain_cert_arg_paths, upsert_domain_cert_arg}
use ngrok.Admin.CertArgs.Lookup.{IsPaired, domain_cert_arg_paths-upsert_domain_cert_arg}
use ngrok.Admin.Domains.{
  Paths, handle_delete, handle_domain, failed, written, domain_not_found, control_host_invalid,
}
use ngrok.Admin.Domains.Changes.{domains_of}
use ngrok.Admin.Domains.Deleting.{handle_delete_lem}
use ngrok.Admin.Domains.Adding.{NamesHost, handle_domain_lem}
use ngrok.Admin.Sessions.{
  Crypto, App, AdminState, has_admin, check_password, current_user, handle_setup, handle_events,
  Event, sets_up, visits, logs_out,
}
use ngrok.Admin.Sessions.Passwords.{IsCrypto, check_password-handle_setup}
use ngrok.Admin.Sessions.Granted.{IsGranted, current_user-IsGranted}
use ngrok.Admin.Pages.{client_config, tunnel_port}
use ngrok.Admin.Pages.Reading.{
  client_settings, all_plain-IsPlain, parse_configuration-client_config,
}

-- Quotes that shift every character, and their removal.
shifted : Text → Text
shifted [] = []
shifted (c ∷ s) = (c + 100) ∷ shifted s

unshifted : Text → Text
unshifted [] = []
unshifted (c ∷ []) = []
unshifted (c ∷ d ∷ s) = (c - 100) ∷ unshifted (d ∷ s)

abbrev unquoting : Text → Option Text
unquoting [] = none
unquoting (c ∷ s) = if c == b'"' then some (unshifted s) else none

abbrev a_strconv : Strconv
a_strconv = record { quote = λ s. b'"' ∷ (shifted s ++ b'"' ∷ []); unquote = unquoting }

unshifted-shifted : (s : Text) → unshifted (shifted s ++ b'"' ∷ []) ≡ s
unfolding shifted unshifted
unshifted-shifted [] = refl
unshifted-shifted (c ∷ []) = ap (λ (d : ℕ). d ∷ []) (omega arith)
unshifted-shifted (c ∷ d ∷ s) =
    rw (unshifted-shifted (d ∷ s)) (ap (λ (e : ℕ). e ∷ d ∷ s) (omega arith))

shifted_line : (s : Text) → Lacks b'\n' (shifted s ++ b'"' ∷ [])
unfolding shifted contains_byte
shifted_line [] = refl
shifted_line (c ∷ s) =
    let other : (c + 100 == b'\n') ≡ false = ground arith in
    rw (other, contains_byte) (shifted_line s)

no_quote : (c : ℕ) (s : Text) → is_env_char c ≡ true → unquoting (c ∷ s) ≡ none
no_quote c s h = let other : (c == b'"') ≡ false = ground (arith, h) in rw other refl

a_strconv-IsStrconv : IsStrconv a_strconv
unfolding contains_byte
a_strconv-IsStrconv = record {
  body = shifted;
  quote_body = λ s. refl;
  one_line = shifted_line;
  unquote_quote = λ s. ap some (unshifted-shifted s);
  unquoted_nil = refl;
  unquoted_char = λ c s h. no_quote c s h;
}

abbrev some_config : ServerConfig
some_config = record default_server_config {
  domain = text "web.io";
  auth_token = text "a token";
  vhost = text "web.io,tcp.io";
}

abbrev some_file : Option Text
some_file = some (write_server_config a_strconv some_config)

read_server_config-write_server_config_example :
    read_server_config a_strconv (some (write_server_config a_strconv some_config))
    ≡ apply_defaults some_config
read_server_config-write_server_config_example =
    read_server_config-write_server_config a_strconv some_config a_strconv-IsStrconv

abbrev paths : Paths
paths = record { cert_dir = text "/certs"; join_path = λ a b. a ++ b'/' ∷ b }

tcp_parsed : parse_domain_input (text " TCP.io") ≡ text "tcp.io" ∷ []
unfolding parse_domain_input valid_domain_name ngrok.Admin.Names.has_two_dots split
    ngrok.Admin.Names.valid_labels ngrok.Admin.Names.valid_label text_dec
    ngrok.Server.Names.starts_with_dash ngrok.Server.Names.ends_in_dash
    ngrok.Server.Names.all_label_chars current_user ngrok.Prelude.Maps.get handle_events
    ngrok.Admin.Sessions.handle_event ngrok.Admin.Sessions.require_auth has_admin handle_setup
    trim_space ngrok.Admin.Sessions.set_session ngrok.Admin.Sessions.new_admin_state
    ngrok.Prelude.Maps.put apply_defaults tunnel_port ngrok.Admin.Config.default_control_host
    ngrok.Prelude.Text.after_prefix ngrok.Prelude.HostPort.split_host_port first
    ngrok.Admin.Names.collect_domains fields_func ngrok.Admin.Names.normalize_domain
    ngrok.Admin.Names.strip_port ngrok.Prelude.Text.trim_suffix ngrok.Admin.Names.trim_prefix
    ngrok.Prelude.Text.to_lower ngrok.Server.Vhosts.seen_before ngrok.Prelude.ℕ_discrete
    ngrok.Prelude.HostPort.bracketed contains_byte ngrok.Prelude.HostPort.index_byte
    ngrok.Prelude.HostPort.last_index_byte ngrok.Prelude.HostPort.plain ngrok.Prelude.Text.drop_last
    ngrok.Prelude.Text.has_suffix ngrok.Prelude.Text.trim_left ngrok.Prelude.Text.trim_right
tcp_parsed = refl

handle_delete_lem_example :
    ((¬ In (text "tcp.io") (domains_of a_strconv some_file))
      × (handle_delete a_strconv paths some_file (text " TCP.io") ≡ failed domain_not_found))
    ⊎ (In (text "tcp.io") (domains_of a_strconv some_file)
        × ((bytes : Text) × (handle_delete a_strconv paths some_file (text " TCP.io")
              ≡ written bytes)
            × ((x : Text)
                → In x (domains_of a_strconv (some bytes))
                  ↔ (In x (domains_of a_strconv some_file) × (x ≢ text "tcp.io")))))
handle_delete_lem_example =
    handle_delete_lem a_strconv paths some_file (text " TCP.io") (text "tcp.io") a_strconv-IsStrconv
      tcp_parsed

not_default : default_like_domain (text "tcp.io") ≡ false
unfolding default_like_domain text_dec
not_default = refl

handle_domain_lem_example :
    ((NamesHost [] → ⊥)
      × (handle_domain a_strconv paths some_file (text " TCP.io") [] ≡ failed control_host_invalid))
    ⊎ (NamesHost []
        × ((bytes : Text) × (handle_domain a_strconv paths some_file (text " TCP.io") []
              ≡ written bytes)
            × ((x : Text)
                → In x (domains_of a_strconv (some bytes)) ↔ (
                    (x ≡ text "tcp.io")
                    ⊎ ((default_like_domain
                            (apply_defaults (read_server_config a_strconv some_file)).domain
                          ≡ false)
                        × In x (domains_of a_strconv some_file))))))
handle_domain_lem_example =
    handle_domain_lem a_strconv paths some_file (text " TCP.io") [] (text "tcp.io")
      a_strconv-IsStrconv tcp_parsed not_default

valid_domain_name-valid_hostname_example : valid_hostname (text "a-b.io") ≡ true
unfolding valid_domain_name ngrok.Admin.Names.has_two_dots split ngrok.Admin.Names.valid_labels
    ngrok.Admin.Names.valid_label text_dec ngrok.Server.Names.starts_with_dash
    ngrok.Server.Names.ends_in_dash ngrok.Server.Names.all_label_chars current_user
    ngrok.Prelude.Maps.get handle_events ngrok.Admin.Sessions.handle_event
    ngrok.Admin.Sessions.require_auth has_admin handle_setup trim_space
    ngrok.Admin.Sessions.set_session ngrok.Admin.Sessions.new_admin_state ngrok.Prelude.Maps.put
    apply_defaults tunnel_port ngrok.Admin.Config.default_control_host
    ngrok.Prelude.Text.after_prefix ngrok.Prelude.HostPort.split_host_port first
valid_domain_name-valid_hostname_example = valid_domain_name-valid_hostname (text "a-b.io") refl

parse_domain_input-IsCollected_example :
    IsCollected valid_domain_name
      (fields_func is_separator (text "A.io, b.io"))
      (parse_domain_input (text "A.io, b.io"))
parse_domain_input-IsCollected_example = parse_domain_input-IsCollected (text "A.io, b.io")

-- Two options, one of them for another domain in two fields.
some_args-IsPaired : IsPaired (fields_of (text "-v -domainCert b.io:/c:/k"))
unfolding fields_func after_prefix
some_args-IsPaired = inr ((λ e. cc), inl (refl, refl, tt))

domain_cert_arg_paths-upsert_domain_cert_arg_example :
    domain_cert_arg_paths
      (upsert_domain_cert_arg
        (text "-v -domainCert b.io:/c:/k")
        (text "a.io")
        (text "/c")
        (text "/k"))
      (text "a.io")
    ≡ some (text "/c", text "/k")
unfolding contains_byte
domain_cert_arg_paths-upsert_domain_cert_arg_example =
    domain_cert_arg_paths-upsert_domain_cert_arg (text "-v -domainCert b.io:/c:/k") (text "a.io")
      (text "/c") (text "/k") some_args-IsPaired (refl, (refl, (refl, (refl, tt))))
      ((λ e. cc), (refl, (refl, tt))) ((λ e. cc), (refl, (refl, tt))) refl

-- Thirty-two bytes, made of the lengths of the key and the message.
abbrev a_sum : Text → Text → Text
a_sum key msg = map (λ i. length key + i) (text "0123456789abcdef0123456789abcdef")

abbrev a_crypto : Crypto
a_crypto = record { hmac = a_sum; encode = λ s. s; decode = λ s. some s }

a_crypto-IsCrypto : IsCrypto a_crypto
a_crypto-IsCrypto = record { sum = λ key msg. refl; decode_encode = λ s. refl }

abbrev new_app : App
new_app = record {
  state = record { username = []; salt = []; password_hash = []; iterations = 0 };
  setup_key = text "key";
  sessions = [];
}

no_admin : has_admin new_app ≡ false
unfolding has_admin text_dec
no_admin = refl

admin_named : trim_space (text " admin") ≢ []
unfolding trim_space
admin_named e = cc

check_password-handle_setup_example :
    (check_password a_crypto
        (handle_setup a_crypto
          (text "key")
          (text " admin")
          (text "0123456789")
          (text "salt")
          true
          (text "id")
          7
          new_app)
        (trim_space (text " admin"))
        (text "0123456789")
      ≡ true)
    × ((other : Text)
        → other ≢ trim_space (text " admin")
        → check_password a_crypto
            (handle_setup a_crypto
              (text "key")
              (text " admin")
              (text "0123456789")
              (text "salt")
              true
              (text "id")
              7
              new_app)
            other
            (text "0123456789")
          ≡ false)
check_password-handle_setup_example =
    check_password-handle_setup a_crypto (text " admin") (text "0123456789") (text "salt")
      (text "id") 7 new_app a_crypto-IsCrypto no_admin admin_named (omega arith)

-- The setup, and a visit.
abbrev two_requests : List Event
two_requests =
    visits (some (text "id")) 8
    ∷ sets_up (text "key") (text " admin") (text "0123456789") (text "salt") true (text "id") 7
    ∷ []

still_in :
    (current_user (some (text "id")) 9 (handle_events a_crypto two_requests new_app)).0
    ≡ text "admin"
unfolding current_user text_dec ngrok.Prelude.Maps.get handle_events
    ngrok.Admin.Sessions.handle_event ngrok.Admin.Sessions.require_auth has_admin handle_setup
    trim_space ngrok.Admin.Sessions.set_session ngrok.Admin.Sessions.new_admin_state
    ngrok.Prelude.Maps.put
still_in = refl

current_user-IsGranted_example : IsGranted a_crypto (text "id") 9 two_requests new_app
current_user-IsGranted_example =
    current_user-IsGranted a_crypto (text "id") 9 two_requests new_app refl
      (λ e. absurd (cc (still_in, e)))

abbrev some_client_settings : ServerConfig
some_client_settings = record default_server_config {
  domain = text "web.io";
  control_host = text "ngrok.web.io";
  auth_token = text "secret";
}

parse_configuration-client_config_example :
    parse_configuration (client_config some_client_settings) new_configuration
    ≡ ok (
        client_settings
          (text "ngrok.web.io"
            ++ b':' ∷ tunnel_port (apply_defaults some_client_settings).tunnel_addr)
          (text "secret"))
unfolding apply_defaults tunnel_port current_user text_dec ngrok.Prelude.Maps.get handle_events
    ngrok.Admin.Sessions.handle_event ngrok.Admin.Sessions.require_auth has_admin handle_setup
    trim_space ngrok.Admin.Sessions.set_session ngrok.Admin.Sessions.new_admin_state
    ngrok.Prelude.Maps.put ngrok.Admin.Config.default_control_host ngrok.Prelude.Text.after_prefix
    ngrok.Prelude.HostPort.split_host_port first
parse_configuration-client_config_example =
    parse_configuration-client_config some_client_settings b'n' b's' (text "grok.web.io")
      (text "ecret") refl refl (all_plain-IsPlain (text "ngrok.web.io") refl)
      (all_plain-IsPlain (text "4443") refl) (all_plain-IsPlain (text "secret") refl) (omega arith)
      (omega arith)

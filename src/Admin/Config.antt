-- ===== src/Admin/Config.antt =====
-- The settings of the server that the administration edits, `src/ngrok/admin/main.go`.
use ngrok.Prelude.{
  Bool, true, false, not, ◌||◌, [], ◌++◌, ◌≡◌, ◌≢◌, refl, Option, none, some, if◌then◌else◌, arith,
}
use ngrok.Prelude.Text.{Text, text, same, after_prefix}
use ngrok.Prelude.HostPort.{contains_byte}
use ngrok.Prelude.Numbers.{atoi}

pub record ServerConfig : Type 0 where
  pub domain : Text
  pub control_host : Text
  pub tls_crt : Text
  pub tls_key : Text
  pub auth_token : Text
  pub http_addr : Text
  pub https_addr : Text
  pub tunnel_addr : Text
  pub log_level : Text
  pub max_connections : Text
  pub extra_args : Text
  pub vhost : Text

-- `strings.HasPrefix`
abbrev pub has_prefix : Text → Text → Bool
has_prefix s prefix = elim (after_prefix prefix s) [ none ↦ false | some rest ↦ true ]

abbrev pub default_server_config : ServerConfig
default_server_config = record {
  domain = text "example.com";
  control_host = text "ngrok.example.com";
  tls_crt = text "/etc/ngrok/tls/fullchain.pem";
  tls_key = text "/etc/ngrok/tls/privkey.pem";
  auth_token = [];
  http_addr = text "127.0.0.1:8080";
  https_addr = [];
  tunnel_addr = text "0.0.0.0:4443";
  log_level = text "INFO";
  max_connections = text "1024";
  extra_args = [];
  vhost = [];
}

unfoldable pub first : Text → Text → Text
first value fallback = if not (same value []) then value else fallback

-- `defaultLikeControlHost`
unfoldable pub default_like_control_host : Text → Bool
default_like_control_host host = same host [] || has_prefix host (text "ngrok.example.")

-- `defaultLikeDomain`
unfoldable pub default_like_domain : Text → Bool
default_like_domain domain = same domain [] || same domain (text "example.com")

-- The control host, given the domain.
unfoldable pub default_control_host : Text → Text → Text
default_control_host host domain =
    if same host [] || has_prefix host (text "ngrok.example.")
    then text "ngrok." ++ domain
    else host

unfoldable pub apply_defaults : ServerConfig → ServerConfig
apply_defaults c =
    let domain = first c.domain (text "example.com") in
    record c {
      domain = domain;
      control_host = default_control_host c.control_host domain;
      tls_crt = first c.tls_crt (text "/etc/ngrok/tls/fullchain.pem");
      tls_key = first c.tls_key (text "/etc/ngrok/tls/privkey.pem");
      http_addr = first c.http_addr (text "127.0.0.1:8080");
      tunnel_addr = first c.tunnel_addr (text "0.0.0.0:4443");
      log_level = first c.log_level (text "INFO");
      max_connections = first c.max_connections (text "1024");
    }

-- What `validate` finds wrong.
pub data Invalid : Type 0 where
  no_domain bad_domain no_control_host no_certificate no_token bad_max_connections : Invalid

-- `validate`: `none` is no error.
unfoldable pub validate : ServerConfig → Option Invalid
validate c =
    if same c.domain []
    then some no_domain
    else if contains_byte c.domain 32 || contains_byte c.domain b'/'
    then some bad_domain
    else if same c.control_host []
    then some no_control_host
    else if same c.tls_crt [] || same c.tls_key []
    then some no_certificate
    else if same c.auth_token [] || same c.auth_token (text "change-me-long-random-token")
    then some no_token
    else elim (atoi c.max_connections) [ none ↦ some bad_max_connections | some n ↦ none ]

-- A default that is given again changes nothing.
pub first_again : (value d : Text) → d ≢ [] → first (first (first value d) d) d ≡ first value d
unfolding first
first_again value d h = ground (arith, h)

pub first_twice : (value d : Text) → d ≢ [] → first (first value d) d ≡ first value d
unfolding first
first_twice value d h = ground (arith, h)

pub first_given : (value d : Text) → value ≢ [] → first value d ≡ value
unfolding first
first_given value d h = ground (arith, h)

pub first_filled : (value d e : Text) → d ≢ [] → first (first value d) e ≡ first value d
unfolding first
first_filled value d e h = ground (arith, h)

pub first_nothing : (value : Text) → first value [] ≡ value
unfolding first
first_nothing value = ground arith

pub default_control_host_again :
    (host domain : Text)
    → default_control_host (default_control_host host domain) domain
      ≡ default_control_host host domain
unfolding default_control_host
default_control_host_again host domain = ground arith

pub default_control_host_filled :
    (host domain fallback : Text)
    → first (default_control_host host domain) fallback ≡ default_control_host host domain
unfolding default_control_host first
default_control_host_filled host domain fallback = ground arith

-- Settings that have their defaults.
pub apply_defaults_again : (c : ServerConfig) → apply_defaults (apply_defaults c) ≡ apply_defaults c
unfolding apply_defaults
apply_defaults_again c =
    rw
      (
        first_twice c.domain (text "example.com") (λ e. cc),
        apply_defaults,
        default_control_host_again c.control_host (first c.domain (text "example.com")),
        first_twice c.tls_crt (text "/etc/ngrok/tls/fullchain.pem") (λ e. cc),
        first_twice c.tls_key (text "/etc/ngrok/tls/privkey.pem") (λ e. cc),
        first_twice c.http_addr (text "127.0.0.1:8080") (λ e. cc),
        first_twice c.tunnel_addr (text "0.0.0.0:4443") (λ e. cc),
        first_twice c.log_level (text "INFO") (λ e. cc),
        first_twice c.max_connections (text "1024") (λ e. cc),
      )
      refl

-- ===== src/Server/Vhosts.antt =====
-- The domains that the server hosts: `publicVhosts` of `src/ngrok/server/tunnel.go`, and
-- `configuredDomains` and `parseDomainTLSConfigs` of `src/ngrok/server/main.go`.
pub mod Collects
pub mod Distinct
use ngrok.Prelude.{
  ℕ, ◌+◌, ◌-◌, Bool, true, false, not, ◌||◌, List, [], ◌∷◌, ◌++◌, map, Option, none, some,
  if◌then◌else◌, length, ◌>>=◌,
}
use ngrok.Prelude.Text.{
  Text, text, same, split, split_n, join, has_suffix, drop_last, to_lower, trim_space, decimal,
}
use ngrok.Server.Names.{valid_hostname}

-- `defaultPortMap`
unfoldable pub default_port : Text → Option ℕ
default_port protocol =
    if same protocol (text "http")
    then some 80
    else if same protocol (text "https")
    then some 443
    else if same protocol (text "smtp")
    then some 25
    else none

-- A map of Go from texts to Booleans in which only `true` is stored.
unfoldable pub seen_before : Text → List Text → Bool
seen_before item [] = false
seen_before item (s ∷ seen) = if same s item then true else seen_before item seen

-- What the loop of `publicVhosts` makes of an item.
unfoldable pub normal_vhost : Text → Text → Text
normal_vhost port_suffix item =
    let vhost = to_lower (trim_space item) in
    if has_suffix vhost port_suffix then drop_last (length port_suffix) vhost else vhost

-- The loop, with the items that are seen and the result so far.
unfoldable pub collect_vhosts : Text → List Text → List Text → List Text → List Text
collect_vhosts port_suffix [] seen result = result
collect_vhosts port_suffix (item ∷ items) seen result =
    let vhost = normal_vhost port_suffix item in
    let rest = collect_vhosts port_suffix items seen result in
    let added = collect_vhosts port_suffix items (vhost ∷ seen) (result ++ vhost ∷ []) in
    if same vhost [] || seen_before vhost seen then rest else added

-- The items of the variable `VHOST`, or of the global `domains` where it is empty.
unfoldable pub vhost_items : Text → List Text → ℕ → List Text
vhost_items vhost_env domains serving_port =
    let parts = map (λ domain. domain ++ b':' ∷ decimal serving_port) domains in
    split b',' (if same vhost_env [] then join (text ",") parts else vhost_env)

unfoldable pub default_port_suffix : Text → Text
default_port_suffix protocol =
    let port : ℕ = elim (default_port protocol) [ none ↦ 0 | some p ↦ p ] in b':' ∷ decimal port

unfoldable pub public_vhosts : Text → List Text → Text → ℕ → List Text
public_vhosts vhost_env domains protocol serving_port =
    collect_vhosts (default_port_suffix protocol) (vhost_items vhost_env domains serving_port) [] []

pub record DomainTlsConfig : Type 0 where
  pub domain : Text
  pub crt_path : Text
  pub key_path : Text

-- One value of the option `domainCert`.
unfoldable pub parse_domain_tls_config : List Text → Option DomainTlsConfig
parse_domain_tls_config (name ∷ crt ∷ key ∷ []) =
    let domain = to_lower (trim_space name) in
    if not (valid_hostname domain)
    then none
    else some (record { domain = domain; crt_path = crt; key_path = key })
parse_domain_tls_config parts = none

-- `none` is an error.
unfoldable pub parse_domain_tls_configs : List Text → Option (List DomainTlsConfig)
parse_domain_tls_configs [] = some []
parse_domain_tls_configs (value ∷ values) = do
  config ← parse_domain_tls_config (split_n b':' 3 value)
  configs ← parse_domain_tls_configs values
  some (config ∷ configs)

-- The two variables of `configuredDomains`.
pub record Collected : Type 0 where
  pub seen : List Text
  pub result : List Text

-- The function `add` of `configuredDomains`.
abbrev pub normal_domain : Text → Text
normal_domain name = to_lower (trim_space name)

unfoldable pub add_domain : Text → Collected → Collected
add_domain name c =
    let domain = normal_domain name in
    if same domain [] || seen_before domain c.seen
    then c
    else record { seen = domain ∷ c.seen; result = c.result ++ domain ∷ [] }

unfoldable pub add_domains : List DomainTlsConfig → Collected → Collected
add_domains [] c = c
add_domains (cert ∷ certs) c = add_domains certs (add_domain cert.domain c)

unfoldable pub configured_domains : Text → List DomainTlsConfig → List Text
configured_domains default_domain domain_certs =
    (add_domains domain_certs
      (add_domain default_domain (record { seen = []; result = [] }))).result

-- ===== src/Admin/Checks.antt =====
-- The checks that the administration shows, `src/ngrok/admin/main.go`. What is read of files, names and
-- the environment is an argument.
pub mod Names
use ngrok.Prelude.{
  ℕ, ◌+◌, ◌-◌, Bool, true, false, not, ◌&&◌, ◌||◌, List, [], ◌∷◌, ◌++◌, Option, none, some,
  if◌then◌else◌, length, drop, leb,
}
use ngrok.Prelude.Text.{Text, text, same, join, trim_space, to_lower, trim_suffix, decimal}
use ngrok.Server.Vhosts.{seen_before}
use ngrok.Admin.Config.{ServerConfig, apply_defaults, has_prefix, default_like_domain}
use ngrok.Admin.Env.{Strconv}
use ngrok.Admin.Names.{trim_prefix, strip_port}
use ngrok.Admin.Domains.{configured_domain_list}

pub record CheckItem : Type 0 where
  pub name : Text
  pub state : Text
  pub detail : Text

-- `net.LookupHost`: addresses, or an error.
pub data Looked : Type 0 where
  addresses : List Text → Looked
  unknown_host : Text → Looked

-- Names, the time at which a name is probed, the variables of the environment, and the files.
pub record Outside : Type 0 where
  pub lookup_host : Text → Looked
  pub unix_time : Text → ℕ
  pub getenv : Text → Text
  pub exists_file : Text → Bool

unfoldable pub path_check : Outside → Text → Text → CheckItem
path_check o name path =
    if not (o.exists_file path)
    then record { name = name; state = text "missing"; detail = path }
    else record { name = name; state = text "ok"; detail = path }

unfoldable pub dns_check : Outside → Text → Text → CheckItem
dns_check o name host = elim (o.lookup_host host) [
  | unknown_host e ↦ record { name = name; state = text "fail"; detail = e }
  | addresses addrs ↦ record { name = name; state = text "ok"; detail = join (text ", ") addrs }
]

-- The name below a domain that is probed.
unfoldable pub probe_host : Outside → Text → Text
probe_host o domain = text "probe-" ++ (decimal (o.unix_time domain) ++ (b'.' ∷ domain))

unfoldable pub domain_dns_checks : Outside → List Text → List CheckItem
domain_dns_checks o [] = []
domain_dns_checks o (domain ∷ domains) =
    dns_check o domain domain
    ∷ dns_check o (text "*." ++ domain) (probe_host o domain)
    ∷ domain_dns_checks o domains

unfoldable pub first_failed_check : List CheckItem → Option CheckItem
first_failed_check [] = none
first_failed_check (check ∷ checks) =
    let rest = first_failed_check checks in
    if not (same check.state (text "ok")) then some check else rest

unfoldable pub dns_step_state : Strconv → Outside → Option Text → ServerConfig → Text
dns_step_state k o file c =
    if default_like_domain c.domain
    then text "todo"
    else elim (first_failed_check (domain_dns_checks o (configured_domain_list k file c))) [
      | some check ↦ text "todo"
      | none ↦
          if not (same (dns_check o (text "control DNS") c.control_host).state (text "ok"))
          then text "todo"
          else text "done"
    ]

unfoldable pub dns_step_detail : Strconv → Outside → Option Text → ServerConfig → Text
dns_step_detail k o file c =
    if default_like_domain c.domain
    then c.domain
    else elim (first_failed_check (domain_dns_checks o (configured_domain_list k file c))) [
      | some check ↦ check.name ++ (text ": " ++ check.detail)
      | none ↦
          let control = dns_check o (text "control DNS") c.control_host in
          if not (same control.state (text "ok"))
          then control.detail
          else elim (configured_domain_list k file c) [
            | d ∷ [] ↦ d ++ (text " / " ++ c.control_host)
            | ds ↦ decimal (length ds) ++ (text " domains / " ++ c.control_host)
          ]
    ]

unfoldable pub domain_summary : Strconv → Option Text → ServerConfig → Text
domain_summary k file c =
    if default_like_domain c.domain
    then c.domain
    else join (text ", ") (configured_domain_list k file c) ++ (text " / " ++ c.control_host)

unfoldable pub env_true : Text → Bool
env_true value =
    let v = to_lower (trim_space value) in
    same v (text "1") || same v (text "true") || same v (text "yes") || same v (text "on")

unfoldable pub first_non_empty : List Text → Text
first_non_empty [] = []
first_non_empty (value ∷ values) =
    let rest = first_non_empty values in
    if not (same (trim_space value) []) then trim_space value else rest

unfoldable pub acme_dns_plugin : Outside → Text
acme_dns_plugin o = first_non_empty (
    o.getenv (text "NGROK_ADMIN_DNS_PLUGIN")
    ∷ o.getenv (text "ACME_DNS_PLUGIN")
    ∷ text "dns_cf"
    ∷ [])

unfoldable pub acme_dns_credential_check : Outside → Text → CheckItem
acme_dns_credential_check o name =
    let plugin = trim_space name in
    let check : Text → Text → CheckItem =
      λ state detail. record { name = text "dns_api"; state = state; detail = detail } in
    let is_set : Text → Bool = λ key. not (same (o.getenv key) []) in
    if same plugin []
    then check (text "missing") (text "DNS plugin is empty")
    else if same plugin (text "dns_cf")
    then (if is_set (text "CF_Token") || (is_set (text "CF_Key") && is_set (text "CF_Email"))
        then check (text "ok") plugin
        else check (text "missing") (text "dns_cf: set CF_Token or CF_Key + CF_Email"))
    else if env_true (o.getenv (text "NGROK_ADMIN_DNS_READY"))
        || env_true (o.getenv (text "ACME_DNS_READY"))
    then check (text "ok") plugin
    else check (text "missing")
        (plugin ++ text ": set NGROK_ADMIN_DNS_READY=1 after configuring acme.sh DNS credentials")

unfoldable pub normalize_dns_record_host : Text → Text
normalize_dns_record_host name =
    let host = to_lower (trim_space name) in
    let base = trim_suffix (strip_port (trim_prefix host (text "*."))) (text ".") in
    if same base [] then [] else if has_prefix host (text "*.") then text "*." ++ base else base

-- The function `add` of `dnsRecordText`, over the hosts: the records, each once.
unfoldable pub add_records : Text → List Text → List Text → List Text → List Text
add_records server_ip [] seen records = records
add_records server_ip (name ∷ names) seen records =
    let host = normalize_dns_record_host name in
    let rest = add_records server_ip names seen records in
    let added =
      add_records server_ip names (host ∷ seen)
        (records ++ (host ++ (text " A/AAAA " ++ server_ip)) ∷ []) in
    if same host [] || seen_before host seen || default_like_domain (trim_prefix host (text "*."))
    then rest
    else added

-- The hosts of a list of domains, each with its wildcard.
unfoldable pub with_wildcards : List Text → List Text
with_wildcards [] = []
with_wildcards (domain ∷ domains) = domain ∷ (text "*." ++ domain) ∷ with_wildcards domains

unfoldable pub dns_record_text : Strconv → Option Text → ServerConfig → Text → Text
dns_record_text k file config ip =
    let c = apply_defaults config in
    let server_ip = (if same ip [] then text "<server-ip>" else ip) in
    if default_like_domain c.domain
    then text "example.com A/AAAA " ++ (server_ip ++ (text "\n*.example.com A/AAAA " ++ server_ip))
    else join (text "\n") (
        add_records server_ip (c.control_host ∷ with_wildcards (configured_domain_list k file c)) []
          [])

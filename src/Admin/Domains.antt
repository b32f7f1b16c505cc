-- ===== src/Admin/Domains.antt =====
-- The domains of the settings and the requests that change them, `src/ngrok/admin/main.go`. What a
-- handler reads and writes is the environment file.
pub mod Changes
pub mod Removing
pub mod Deleting
pub mod Appending
pub mod Adding
use ngrok.Prelude.{
  ℕ, Bool, true, false, not, ◌||◌, ◌&&◌, List, [], ◌∷◌, ◌++◌, Option, none, some, if◌then◌else◌,
  length, ◌==◌,
}
use ngrok.Prelude.Text.{Text, text, same, split, join, trim_space, has_suffix}
use ngrok.Admin.Config.{
  ServerConfig, apply_defaults, default_like_domain, default_like_control_host,
}
use ngrok.Admin.Env.{Strconv, value_of, read_env_file, read_server_config, write_server_config}
use ngrok.Admin.Names.{
  normalize_domain, valid_domain_name, collect_domains, parse_domain_input, append_domain,
}
use ngrok.Admin.CertArgs.{domain_cert_arg_paths, remove_domain_cert_arg, upsert_domain_cert_arg}

-- A domain that is none of the examples.
unfoldable pub is_wanted : Text → Bool
is_wanted domain = not (default_like_domain domain) && valid_domain_name domain

-- The virtual hosts of the settings, or those of the file.
unfoldable pub vhost_of : Strconv → Option Text → ServerConfig → Text
vhost_of k file c =
    if same c.vhost [] then value_of (read_env_file k file) (text "VHOST") else c.vhost

unfoldable pub configured_domain_list : Strconv → Option Text → ServerConfig → List Text
configured_domain_list k file c =
    let d = apply_defaults c in
    collect_domains is_wanted (d.domain ∷ split b',' (vhost_of k file d)) [] []

-- Where certificates lie, and `filepath.Join`.
pub record Paths : Type 0 where
  pub cert_dir : Text
  pub join_path : Text → Text → Text

unfoldable pub domain_cert_dir : Paths → Text → Text
domain_cert_dir p domain = p.join_path p.cert_dir (normalize_domain domain)

unfoldable pub crt_path : Paths → Text → Text
crt_path p domain = p.join_path (domain_cert_dir p domain) (text "fullchain.pem")

unfoldable pub key_path : Paths → Text → Text
key_path p domain = p.join_path (domain_cert_dir p domain) (text "privkey.pem")

unfoldable pub cert_paths_for_domain : Paths → Text → ServerConfig → Text × Text
cert_paths_for_domain p name config =
    let c = apply_defaults config in
    let domain = normalize_domain name in
    if same domain (normalize_domain c.domain)
    then (c.tls_crt, c.tls_key)
    else elim (domain_cert_arg_paths c.extra_args domain) [
      | some paths ↦ paths
      | none ↦ (crt_path p domain, key_path p domain)
    ]

-- The loop of `removeDomainFromConfig`: the domains that remain, and whether the domain was found.
unfoldable pub remove_from : Text → List Text → List Text × Bool
remove_from domain [] = ([], false)
remove_from domain (item ∷ items) =
    let (remaining, found) = remove_from domain items in
    if same item domain then (remaining, true) else (item ∷ remaining, found)

-- The settings once no domain is left.
unfoldable pub no_domains : ServerConfig → ServerConfig
no_domains c = apply_defaults (record c {
  domain = text "example.com";
  control_host = text "ngrok.example.com";
  tls_crt = text "/etc/ngrok/tls/fullchain.pem";
  tls_key = text "/etc/ngrok/tls/privkey.pem";
  extra_args = [];
  vhost = [];
})

-- The next domain takes the place of the primary one, `domain`.
unfoldable pub promote : Paths → Text → Text → ServerConfig → ServerConfig
promote p domain next c =
    let control = normalize_domain c.control_host in
    let host =
      (if default_like_control_host c.control_host
          || same control domain
          || has_suffix control (b'.' ∷ domain)
        then text "ngrok." ++ next
        else c.control_host) in
    elim (domain_cert_arg_paths c.extra_args next) [
      | some (crt, key) ↦ record c {
        domain = next;
        control_host = host;
        tls_crt = crt;
        tls_key = key;
        extra_args = remove_domain_cert_arg c.extra_args next;
      }
      | none ↦ record c {
        domain = next;
        control_host = host;
        tls_crt = crt_path p next;
        tls_key = key_path p next;
      }
    ]

-- The part of `removeDomainFromConfig` behind the loop.
unfoldable pub remove_found : Paths → Text → List Text → ServerConfig → ServerConfig
remove_found p domain [] c = no_domains c
remove_found p domain (next ∷ remaining) c =
    let c' =
      (if same (normalize_domain c.domain) domain || default_like_domain c.domain
        then promote p domain next c
        else c) in
    record c' { vhost = join (text ",") (next ∷ remaining) }

pub data DomainError : Type 0 where
  domain_invalid domain_not_found control_host_invalid : DomainError

pub data Removal : Type 0 where
  refused : DomainError → Removal
  removed : ServerConfig → Removal

unfoldable pub remove_domain_from_config :
    Strconv → Paths → Option Text → Text → ServerConfig → Removal
remove_domain_from_config k p file name c =
    let domain = normalize_domain name in
    if same domain [] || not (valid_domain_name domain)
    then refused domain_invalid
    else (let (remaining, found) = remove_from domain (configured_domain_list k file c) in
        if not found
        then refused domain_not_found
        else removed (
            remove_found p domain remaining
              (record c { extra_args = remove_domain_cert_arg c.extra_args domain })))

-- What a request does to the file.
pub data Answer : Type 0 where
  failed : DomainError → Answer
  written : Text → Answer

-- `handleCertificateDomainDelete`, for an administrator who posts the field `domain`.
unfoldable pub handle_delete : Strconv → Paths → Option Text → Text → Answer
handle_delete k p file input = elim (parse_domain_input input) [
  | domain ∷ [] ↦
      elim (remove_domain_from_config k p file domain
        (apply_defaults (read_server_config k file))) [
          | refused e ↦ failed e
          | removed c ↦ written (write_server_config k c)
        ]
  | _ ↦ failed domain_invalid
]

-- The settings with a domain that is added; `control_hosts` are those of the field `control_host`.
unfoldable pub add_to_config :
    Strconv → Paths → Option Text → Text → List Text → ServerConfig → ServerConfig
add_to_config k p file domain control_hosts c =
    let current = configured_domain_list k file c in
    let fresh = default_like_domain c.domain in
    let c1 =
      (if fresh
        then record c { domain = domain; tls_crt = crt_path p domain; tls_key = key_path p domain }
        else c) in
    let host : Text = elim control_hosts [
      | control_host ∷ [] ↦ control_host
      | _ ↦
          if default_like_control_host c1.control_host
          then text "ngrok." ++ c1.domain
          else c1.control_host
    ] in
    record c1 {
      control_host = host;
      vhost = join (text ",") (append_domain (if fresh then [] else current) domain);
    }

-- `handleCertificateDomain`, for an administrator who posts the fields `domain` and `control_host`.
unfoldable pub handle_domain : Strconv → Paths → Option Text → Text → Text → Answer
handle_domain k p file input control_input = elim (parse_domain_input input) [
  | domain ∷ [] ↦
      let control_hosts = parse_domain_input control_input in
      if not (same (trim_space control_input) []) && not (length control_hosts == 1)
      then failed control_host_invalid
      else written (
          write_server_config k (
            add_to_config k p file domain control_hosts
              (apply_defaults (read_server_config k file))))
  | _ ↦ failed domain_invalid
]

-- What `handleCertificateIssue` makes of the settings once a certificate is issued.
unfoldable pub add_issued : Strconv → Paths → Option Text → Text → ServerConfig → ServerConfig
add_issued k p file domain c =
    let fresh = default_like_domain c.domain in
    let current = configured_domain_list k file c in
    let hosts = append_domain (if fresh then [] else current) domain in
    let c' =
      (if fresh || same c.domain domain
        then record c {
          domain = domain;
          control_host =
              (if default_like_control_host c.control_host
                then text "ngrok." ++ domain
                else c.control_host);
          tls_crt = crt_path p domain;
          tls_key = key_path p domain;
        }
        else record c {
          extra_args =
              upsert_domain_cert_arg c.extra_args domain (crt_path p domain) (key_path p domain);
        }) in
    record c' { vhost = join (text ",") hosts }

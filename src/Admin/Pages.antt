-- ===== src/Admin/Pages.antt =====
-- The files that the administration writes for nginx and for clients, `src/ngrok/admin/main.go`.
pub mod Lines
pub mod Reading
use ngrok.Prelude.{
  Bool, true, false, List, [], ◌∷◌, ◌++◌, Option, none, some, if◌then◌else◌, length, ◌==◌,
}
use ngrok.Prelude.Text.{Text, text, same}
use ngrok.Prelude.HostPort.{split_host_port}
use ngrok.Admin.Config.{ServerConfig, apply_defaults}
use ngrok.Admin.Env.{Strconv}
use ngrok.Admin.Names.{normalize_domain}
use ngrok.Admin.Domains.{Paths, configured_domain_list, cert_paths_for_domain}

pub record NginxDomain : Type 0 where
  pub domain : Text
  pub cert : Text
  pub key : Text

unfoldable pub domain_certs : Paths → ServerConfig → List Text → List NginxDomain
domain_certs p c [] = []
domain_certs p c (domain ∷ domains) =
    let (crt, key) = cert_paths_for_domain p domain c in
    record { domain = domain; cert = crt; key = key } ∷ domain_certs p c domains

unfoldable pub nginx_domains : Strconv → Paths → Option Text → ServerConfig → List NginxDomain
nginx_domains k p file config =
    let c = apply_defaults config in
    elim (configured_domain_list k file c) [
      | [] ↦ domain_certs p c (c.domain ∷ [])
      | d ∷ ds ↦ domain_certs p c (d ∷ ds)
    ]

-- The lines that both servers of a domain have.
abbrev pub proxy_lines : Text → Text → Text
proxy_lines scheme http_addr =
    text
      "\n    client_max_body_size 0;\n    proxy_request_buffering off;\n    proxy_buffering off;\n    proxy_http_version 1.1;\n\n    location / {\n        proxy_set_header Host $host;\n        proxy_set_header X-Forwarded-For $proxy_add_x_forwarded_for;\n        proxy_set_header X-Forwarded-Proto "
    ++ (scheme
        ++ (text
              ";\n        proxy_set_header Upgrade $http_upgrade;\n        proxy_set_header Connection $connection_upgrade;\n        proxy_pass http://"
            ++ (http_addr ++ text ";\n    }\n}\n")))

-- The two servers of a domain.
unfoldable pub nginx_servers : Text → Text → NginxDomain → Text
nginx_servers http_addr domain item =
    text "\nserver {\n    listen 80;\n    server_name "
    ++ (domain
        ++ (text " *."
            ++ (domain
                ++ (text ";\n"
                    ++ (proxy_lines (text "http") http_addr
                        ++ (text "\nserver {\n    listen 443 ssl;\n    http2 on;\n    server_name "
                            ++ (domain
                                ++ (text " *."
                                    ++ (domain
                                        ++ (text ";\n\n    ssl_certificate "
                                            ++ (item.cert
                                                ++ (text ";\n    ssl_certificate_key "
                                                    ++ (item.key
                                                        ++ (text ";\n"
                                                            ++ proxy_lines (text "https")
                                                            http_addr))))))))))))))

-- The loop of `nginxConfig`.
unfoldable pub nginx_all : Text → List NginxDomain → Text
nginx_all http_addr [] = []
nginx_all http_addr (item ∷ items) =
    let rest = nginx_all http_addr items in
    let domain = normalize_domain item.domain in
    if same domain [] then rest else nginx_servers http_addr domain item ++ rest

unfoldable pub nginx_config : ServerConfig → List NginxDomain → Text
nginx_config config domains =
    let c = apply_defaults config in
    text "map $http_upgrade $connection_upgrade {\n    default upgrade;\n    \"\" close;\n}\n"
    ++ nginx_all c.http_addr domains

-- `desiredNginxConfig`
unfoldable pub desired_nginx_config : Strconv → Paths → Option Text → ServerConfig → Text
desired_nginx_config k p file c = nginx_config c (nginx_domains k p file c)

unfoldable pub tunnel_port : Text → Text
tunnel_port addr = elim (split_host_port addr) [
  | none ↦ text "4443"
  | some (host, port) ↦ if same port [] then text "4443" else port
]

-- The lines of `clientConfig` that do not depend on the settings.
abbrev pub client_tail : Text
client_tail =
    text
      "trust_host_root_certs: true\ninspect_addr: 127.0.0.1:4040\n\ntunnels:\n  app:\n    proto:\n      http: 127.0.0.1:3000\n    subdomain: app\n"

unfoldable pub client_config : ServerConfig → Text
client_config config =
    let c = apply_defaults config in
    (text "server_addr: " ++ (c.control_host ++ b':' ∷ tunnel_port c.tunnel_addr))
    ++ b'\n' ∷ ((text "auth_token: " ++ c.auth_token) ++ b'\n' ∷ client_tail)

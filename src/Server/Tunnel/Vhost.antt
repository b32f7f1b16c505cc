-- ===== src/Server/Tunnel/Vhost.antt =====
-- `registerURL` and `registerVhost` of `src/ngrok/server/tunnel.go`. `none` is a fault of the cache.
use ngrok.Prelude.{ℕ, not, List, [], ◌∷◌, ◌++◌, Option, none, some, if◌then◌else◌, ◌>>=◌}
use ngrok.Prelude.Text.{Text, text, same, to_lower, trim_space, hex}
use ngrok.Server.Names.{valid_hostname, valid_hostname_label, hostname_allowed}
use ngrok.Server.Vhosts.{public_vhosts, default_port}
use ngrok.Server.Registry.{TunnelRegistry, register, register_repeat}
use ngrok.Server.Tunnel.State.{
  no_domains, no_default_port, invalid_hostname, outside_domains, invalid_subdomain,
  already_registered, no_free_url, Tunnel, Globals, Outside, Opened, owner, refused, accepted,
}

-- `registerURL`
unfoldable pub register_url : Text → TunnelRegistry → Tunnel → Opened
register_url url r t =
    let (r', ok) = register url t.address r in
    if ok
    then accepted r'
        (record t { urls = t.urls ++ url ∷ []; url = (if same t.url [] then url else t.url) })
    else refused r' t already_registered

-- `fmt.Sprintf("%s://%s", protocol, host)`
abbrev pub url_of : Text → Text → Text
url_of protocol host = protocol ++ (text "://" ++ host)

abbrev pub random_url : Text → Text → (ℕ → ℕ) → ℕ → Text
random_url protocol vhost random i = url_of protocol (hex (random i) ++ b'.' ∷ vhost)

-- The part of `registerVhost` for a host name that is asked for.
unfoldable pub register_hostname : Text → List Text → Text → TunnelRegistry → Tunnel → Opened
register_hostname protocol vhosts hostname r t =
    if not (valid_hostname hostname)
    then refused r t invalid_hostname
    else if not (hostname_allowed hostname vhosts)
    then refused r t outside_domains
    else register_url (url_of protocol hostname) r t

unfoldable pub register_subdomain : Text → Text → Text → TunnelRegistry → Tunnel → Opened
register_subdomain protocol vhost subdomain r t =
    if not (valid_hostname_label subdomain)
    then refused r t invalid_subdomain
    else register_url (url_of protocol (subdomain ++ b'.' ∷ vhost)) r t

unfoldable pub register_random : Outside → Text → Text → TunnelRegistry → Tunnel → Option Opened
register_random out protocol vhost r t = do
  (r', o) ← register_repeat out.now (random_url protocol vhost out.random) (owner t) r
  elim o [
    | none ↦ some (refused r' (record t { url = [] }) no_free_url)
    | some url ↦ some (accepted r' (record t { url = url; urls = t.urls ++ url ∷ [] }))
  ]

-- `registerVhost`, once there is a virtual host.
unfoldable pub register_at :
    Outside → Text → Text → List Text → TunnelRegistry → Tunnel → Option Opened
register_at out protocol vhost vhosts r t =
    let hostname = to_lower (trim_space t.req.hostname) in
    let subdomain = to_lower (trim_space t.req.subdomain) in
    elim (default_port protocol) [
      | none ↦ some (refused r t no_default_port)
      | some port ↦
          if not (same hostname [])
          then some (register_hostname protocol (vhost ∷ vhosts) hostname r t)
          else if not (same subdomain [])
          then some (register_subdomain protocol vhost subdomain r t)
          else register_random out protocol vhost r t
    ]

unfoldable pub register_vhost :
    Globals → Outside → Text → ℕ → TunnelRegistry → Tunnel → Option Opened
register_vhost g out protocol serving_port r t =
    elim (public_vhosts g.vhost_env g.domains protocol serving_port) [
      | [] ↦ some (refused r t no_domains)
      | vhost ∷ vhosts ↦ register_at out protocol vhost vhosts r t
    ]

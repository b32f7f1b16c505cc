-- ===== src/Server/Tunnel.antt =====
-- Tunnels, `src/ngrok/server/tunnel.go`: `NewTunnel` and `Shutdown`. `none` is a panic.
pub mod State
pub mod Vhost
pub mod Tcp
pub mod Sizes
pub mod Granted
pub mod Opening
pub mod Lifetime
use mathlib.Core.Option
use ngrok.Prelude.{
  ℕ, suc, ◌+◌, Bool, true, false, not, ◌&&◌, ◌||◌, List, [], ◌∷◌, ◌++◌, Option, none, some, ◌==◌,
  if◌then◌else◌, length, ◌>>=◌,
}
use ngrok.Prelude.Maps.{Map, get, put, delete}
use ngrok.Prelude.Text.{Text, text, text_dec, same, to_lower, trim_space, split, decimal, hex}
use ngrok.Prelude.Base64.{base64}
use ngrok.Prelude.Numbers.{atoi}
use ngrok.Msg.{ReqTunnel}
use ngrok.Server.Names.{valid_hostname, valid_hostname_label, hostname_allowed}
use ngrok.Server.Vhosts.{public_vhosts, default_port}
use ngrok.Server.Registry.{
  TunnelRegistry, Owner, register, register_and_cache, register_repeat, get_cached_registration,
  del,
}
use ngrok.Server.Tunnel.State.{
  Refusal, no_domains, no_default_port, invalid_hostname, outside_domains, invalid_subdomain,
  already_registered, no_free_url, cannot_bind, bound_not_registered, remote_ports_disabled,
  not_listening, unsupported_protocol, TcpListener, Client, Tunnel, Globals, Outside, Opened, owner,
  refused, accepted,
}
use ngrok.Server.Tunnel.Vhost.{register_vhost}
use ngrok.Server.Tunnel.Tcp.{bind_tcp, open_tcp}

-- `unregisterURLs`
unfoldable pub del_all : List Text → TunnelRegistry → TunnelRegistry
del_all [] r = r
del_all (url ∷ urls) r = del_all urls (del url r)

-- The end of `NewTunnel`, which the case `tcp` does not reach: the credentials are encoded, and the
-- metrics count the tunnel.
unfoldable pub finish : Opened → Opened
finish o = elim o.refusal [
  | some e ↦ o
  | none ↦
      let req = o.tunnel.req in
      let auth = req.http_auth in
      let encoded = if same auth [] then auth else text "Basic " ++ base64 auth in
      record o {
        tunnel = record (o.tunnel) { req = record req { http_auth = encoded } };
        counted = true;
      }
]

-- The case `http` or `https`.
unfoldable pub open_http : Globals → Outside → Text → TunnelRegistry → Tunnel → Option Opened
open_http g out protocol r t = elim (get text_dec protocol g.listeners) [
  | none ↦ some (refused r t not_listening)
  | some port ↦ Option.map finish (register_vhost g out protocol port r t)
]

-- The tunnel that `NewTunnel` starts from.
abbrev pub blank : ℕ → ReqTunnel → Client → Tunnel
blank address req client = record {
  address = address;
  req = req;
  url = [];
  urls = [];
  listener = none;
  client = client;
  closing = false;
}

unfoldable pub new_tunnel :
    Globals → Outside → ℕ → ReqTunnel → Client → TunnelRegistry → Option Opened
new_tunnel g out address req client r =
    let t = blank address req client in
    let protocol = req.protocol in
    if same protocol (text "tcp")
    then (if not (req.remote_port == 0)
        then (if not g.allow_remote_ports
            then some (refused r t remote_ports_disabled)
            else bind_tcp g out req.remote_port r t)
        else open_tcp g out r t)
    else if same protocol (text "http") || same protocol (text "https")
    then open_http g out protocol r t
    else some (refused r t unsupported_protocol)

-- `Shutdown`: the listener is closed, and the URLs are taken out of the registry.
unfoldable pub shutdown : Tunnel → TunnelRegistry → TunnelRegistry × Tunnel
shutdown t r = (
  del_all t.urls r,
  record t {
    urls = [];
    listener = Option.map {A = TcpListener} (λ l. record l { is_open = false }) t.listener;
    closing = true;
  },
)

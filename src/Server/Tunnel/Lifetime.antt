-- ===== src/Server/Tunnel/Lifetime.antt =====
-- The life of a tunnel in the registry, from `NewTunnel` to `Shutdown`, in
-- `src/ngrok/server/tunnel.go`.
use ngrok.Prelude.{ℕ, ◌^◌, ◌<◌, ◌≡◌, refl, ap, Option, none, some, length, arith}
use ngrok.Prelude.Maps.{Map, get, put, get-put, get-delete}
use ngrok.Prelude.Text.{Text, text_dec}
use ngrok.Msg.{ReqTunnel}
use ngrok.Server.Registry.{TunnelRegistry, del, get_tunnel}
use ngrok.Server.Registry.Cached.{IsSound}
use ngrok.Server.Tunnel.State.{Refusal, Client, Globals, Outside, Opened}
use ngrok.Server.Tunnel.Sizes.{IsBounded}
use ngrok.Server.Tunnel.Granted.{Verdict}
use ngrok.Server.Tunnel.Opening.{new_tunnel-Opens}
use ngrok.Server.Tunnel.{new_tunnel, shutdown, del_all}

restored :
    (address : ℕ) (m : Map Text ℕ) (o : Opened) (url : Text)
    → Verdict m o o.refusal
    → get_tunnel url (shutdown o.tunnel o.registry).0 ≡ get text_dec url m
unfolding get_tunnel shutdown del_all del
restored address m o url w = go o.refusal w
  where
    go :
        (e : Option Refusal)
        → Verdict m o e
        → get_tunnel url (shutdown o.tunnel o.registry).0 ≡ get text_dec url m
    go (some e) (kept, bare) = rw (bare, kept) refl
    go none (free, added, urls) =
        rw (urls, added) ground
          (
            arith,
            free,
            get-delete text_dec o.tunnel.url url (put text_dec o.tunnel.url o.tunnel.address m),
            get-put text_dec o.tunnel.url url o.tunnel.address m,
            ap (λ q. get text_dec q m),
          )

-- Opening a tunnel and shutting it down again gives back the registry: every URL maps to the tunnel
-- that it mapped to before. This holds for a server with a domain and short texts, whose affinity
-- cache is valid, whether the tunnel was refused or not.
pub shutdown-new_tunnel :
    (g : Globals) (out : Outside) (bounded : IsBounded g out) (address : ℕ) (req : ReqTunnel)
    (client : Client) (r : TunnelRegistry)
    → length req.protocol < 2 ^ 61
    → IsSound r
    → (o : Opened) × (new_tunnel g out address req client r ≡ some o)
      × ((url : Text) → get_tunnel url (shutdown o.tunnel o.registry).0 ≡ get_tunnel url r)
unfolding get_tunnel
shutdown-new_tunnel g out bounded address req client r hp v =
    let (o, run, granted) = new_tunnel-Opens g out bounded address req client r hp v in
    (o, run, λ url. restored address r.tunnels o url granted.verdict)

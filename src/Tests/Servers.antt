-- ===== src/Tests/Servers.antt =====
-- Instances of the theorems on the server.
use ngrok.Prelude.{
  ℕ, ◌^◌, ◌<◌, true, false, [], ◌≡◌, ◌⊎◌, refl, Option, none, some, arith, length, inl, inr, All,
}
use ngrok.Prelude.Maps.{get}
use ngrok.Prelude.Text.{Text, text, text_dec, split}
use ngrok.Msg.{ReqTunnel}
use ngrok.Cache.Lru.{new_lru_cache}
use ngrok.Cache.Lru.View.{view}
use ngrok.Cache.Lru.Refine.{new_lru_cache-Shows}
use ngrok.Server.Registry.{
  TunnelRegistry, Owner, url_size, register_and_cache, register_repeat, get_tunnel, ip_key, id_key,
  get_cached_registration, del,
}
use ngrok.Server.Registry.Cached.{IsSound, known_url}
use ngrok.Server.Registry.Exclusive.{Registered, register_and_cache_lem}
use ngrok.Server.Registry.Repeat.{Assigns, tried_urls, register_repeat_lem}
use ngrok.Server.Registry.Affinity.{affinity_returns}
use ngrok.Server.Tunnel.State.{Client, Opened, Refusal}
use ngrok.Server.Tunnel.{new_tunnel, shutdown}
use ngrok.Server.Tunnel.Opening.{Opens, new_tunnel-Opens}
use ngrok.Server.Tunnel.Lifetime.{shutdown-new_tunnel}
use ngrok.Server.Control.{Control, register_tunnel, shutdown_all}
use ngrok.Server.Control.Tunnels.{shutdown_all-register_tunnel}
use ngrok.Tests.Bounds.{one_host, quiet, one_host-IsBounded}

abbrev no_tunnels : TunnelRegistry
no_tunnels = record { tunnels = []; affinity = new_lru_cache 1000 }

no_tunnels-IsSound : IsSound no_tunnels
no_tunnels-IsSound = (new_lru_cache-Shows text_dec url_size 1000 (omega arith)).valid

abbrev a_client : Client
a_client = record { ip = text "10.0.0.1"; id = text "c1" }

abbrev a_request : ReqTunnel
a_request = record {
  req_id = text "r1";
  protocol = text "http+https";
  hostname = [];
  subdomain = text "me";
  http_auth = [];
  remote_port = 0;
}

abbrev one_request : ReqTunnel
one_request = record a_request { protocol = text "http" }

abbrev a_control : Control
a_control = record {
  registry = no_tunnels;
  tunnels = [];
  out = [];
  shutdown = record { in_progress = false; begun = false; completed = false };
  last_ping = 0;
  next = 1;
}

abbrev describe : Refusal → Text
describe e = text "refused"

short_protocols : All (λ p. length p < 2 ^ 61) (split b'+' a_request.protocol)
unfolding split
short_protocols = (omega arith, (omega arith, tt))

shutdown_all-register_tunnel_example :
    (c' : Control) × (register_tunnel one_host quiet describe a_client a_request a_control
      ≡ some c')
    × ((q : Text) → get_tunnel q (shutdown_all c'.tunnels c'.registry) ≡ get_tunnel q no_tunnels)
shutdown_all-register_tunnel_example =
    shutdown_all-register_tunnel one_host quiet describe a_client one_host-IsBounded a_request
      a_control refl refl no_tunnels-IsSound short_protocols

new_tunnel-Opens_example :
    Opens 7 [] (new_tunnel one_host (quiet 0) 7 one_request a_client no_tunnels)
new_tunnel-Opens_example =
    new_tunnel-Opens one_host (quiet 0) (one_host-IsBounded 0) 7 one_request a_client no_tunnels
      (omega arith) no_tunnels-IsSound

shutdown-new_tunnel_example :
    (o : Opened) × (new_tunnel one_host (quiet 0) 7 one_request a_client no_tunnels ≡ some o)
    × ((url : Text) → get_tunnel url (shutdown o.tunnel o.registry).0 ≡ get_tunnel url no_tunnels)
shutdown-new_tunnel_example =
    shutdown-new_tunnel one_host (quiet 0) (one_host-IsBounded 0) 7 one_request a_client no_tunnels
      (omega arith) no_tunnels-IsSound

abbrev an_owner : Owner
an_owner = record {
  tunnel = 7;
  protocol = text "http";
  client_ip = text "10.0.0.1";
  client_id = text "c1";
}

abbrev a_url : Text
a_url = text "http://me.a.io"

register_and_cache_lem_example :
    ((u : ℕ) × (get_tunnel a_url no_tunnels ≡ some u)
      × (register_and_cache 5 a_url an_owner no_tunnels ≡ some (no_tunnels, false)))
    ⊎ ((r' : TunnelRegistry) × (register_and_cache 5 a_url an_owner no_tunnels ≡ some (r', true))
        × Registered a_url an_owner no_tunnels r')
register_and_cache_lem_example =
    register_and_cache_lem 5 a_url an_owner no_tunnels no_tunnels-IsSound (omega arith)

register_repeat_lem_example :
    (r' : TunnelRegistry) × (o : Option Text) × (cached : Text) × (register_repeat 5
        (λ i. a_url)
        an_owner
        no_tunnels
      ≡ some (r', o))
    × (cached
        ≡ known_url
            (get text_dec (id_key an_owner) (view no_tunnels.affinity))
            (get text_dec (ip_key an_owner) (view no_tunnels.affinity)))
    × IsSound r'
    × Assigns (tried_urls (λ i. a_url) cached) 7 [] r'.tunnels o
register_repeat_lem_example =
    register_repeat_lem 5 (λ i. a_url) an_owner (λ i. omega arith) no_tunnels no_tunnels-IsSound

registered_once :
    (r' : TunnelRegistry) × (register_and_cache 5 a_url an_owner no_tunnels ≡ some (r', true))
unfolding get_tunnel get
registered_once =
    elim (register_and_cache_lem 5 a_url an_owner no_tunnels no_tunnels-IsSound (omega arith)) [
      | inl (u, taken, e) ↦ absurd cc
      | inr (r', e, done) ↦ (r', e)
    ]

affinity_returns_example :
    (r'' : TunnelRegistry) × (get_cached_registration 9 an_owner (del a_url registered_once.0)
      ≡ some (r'', a_url))
    × (get_tunnel a_url r'' ≡ none)
unfolding new_lru_cache
affinity_returns_example =
    affinity_returns 5 9 a_url an_owner no_tunnels registered_once.0 no_tunnels-IsSound
      (omega arith) (omega arith) registered_once.1

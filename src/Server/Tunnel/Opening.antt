-- ===== src/Server/Tunnel/Opening.antt =====
-- `NewTunnel`, for every protocol and on every path: one free URL is taken, or nothing is.
use ngrok.Prelude.{
  ℕ, ◌^◌, ◌<◌, Bool, true, false, not, ◌&&◌, ◌||◌, List, [], ◌∷◌, ◌++◌, ◌≡◌, refl, ap, Option, none,
  some, length, length-append, arith, inl, inr, Bool-cases, Option-cases, All, ◌==◌,
}
use mathlib.Core.Path.{subst, subst₂}
use ngrok.Prelude.Maps.{Map, get}
use ngrok.Prelude.Text.{Text, text, text_dec, same, decimal, split}
use ngrok.Prelude.Numbers.{atoi}
use ngrok.Msg.{ReqTunnel}
use ngrok.Server.Vhosts.{public_vhosts}
use ngrok.Server.Registry.{TunnelRegistry, get_tunnel, get_cached_registration}
use ngrok.Server.Registry.Cached.{IsSound, get_cached_registration_lem}
use ngrok.Server.Registry.Exclusive.{register_and_cache_lem}
use ngrok.Server.Tunnel.State.{
  Refusal, Client, Tunnel, Globals, Outside, Opened, owner, refused, accepted, no_domains,
  cannot_bind, bound_not_registered, not_listening, remote_ports_disabled, unsupported_protocol,
}
use ngrok.Server.Tunnel.Vhost.{register_vhost}
use ngrok.Server.Tunnel.Tcp.{bound_tcp, bind_tcp, bind_cached, open_tcp, last_part}
use ngrok.Server.Tunnel.Sizes.{IsBounded, random_url-short, length-decimal-le}
use ngrok.Server.Tunnel.Granted.{Verdict, Granted, refused-Granted, register_at-Granted}
use ngrok.Server.Tunnel.{finish, open_http, new_tunnel, blank}

-- Opening a tunnel gives a result, and that is as described.
abbrev pub Opens : ℕ → Map Text ℕ → Option Opened → Type 0
Opens address m result = (o : Opened) × (result ≡ some o) × Granted address m o

module _ (g : Globals) (out : Outside) (bounded : IsBounded g out) where
  register_vhost-Opens :
      (protocol : Text) (port : ℕ) (r : TunnelRegistry) (t : Tunnel)
      → length protocol < 2 ^ 61
      → IsSound r
      → t.urls ≡ []
      → t.url ≡ []
      → Opens t.address r.tunnels (register_vhost g out protocol port r t)
  unfolding register_vhost
  register_vhost-Opens protocol port r t hp v bare unset =
      go (public_vhosts g.vhost_env g.domains protocol port) refl
    where
      go :
          (l : List Text)
          → public_vhosts g.vhost_env g.domains protocol port ≡ l
          → Opens t.address r.tunnels (register_vhost g out protocol port r t)
      go [] e =
          (refused r t no_domains, rw (e, register_vhost), refused-Granted r t no_domains v bare)
      go (vhost ∷ vhosts) e =
          let short : length vhost < 2 ^ 62 =
            bounded.vhosts_short protocol port vhost (rw e (inl refl)) in
          let (o, run, granted) =
            register_at-Granted out protocol r t v bare unset vhost vhosts (λ i.
              random_url-short protocol vhost out.random i hp short (bounded.random_small i)) in
          (o, rw (e, register_vhost) run, granted)

  bound_tcp-Opens :
      (domain : Text) (port : ℕ) (r : TunnelRegistry) (t : Tunnel)
      → length domain < 2 ^ 62
      → port < 2 ^ 16
      → IsSound r
      → t.urls ≡ []
      → Opens t.address r.tunnels (bound_tcp out domain port r t)
  unfolding bound_tcp get_tunnel
  bound_tcp-Opens domain port r t short small v bare =
      let host = domain ++ b':' ∷ decimal port in
      let url = text "tcp://" ++ host in
      let bound = record t {
        url = url;
        listener = some (record { port = port; is_open = true });
      } in
      let fits : length url < 2 ^ 63 =
        omega (arith, length-append domain (b':' ∷ decimal port), length-decimal-le port) in
      elim (register_and_cache_lem out.now url (owner bound) r v fits) [
        | inl (u, taken, run) ↦ (
          refused r (record bound { listener = some (record { port = port; is_open = false }) })
              bound_not_registered,
          rw run,
          record { sound = v; same_address = refl; verdict = (refl, bare) },
        )
        | inr (r', run, done) ↦ (
          accepted r' (record bound { urls = t.urls ++ url ∷ [] }),
          rw run,
          record {
            sound = done.sound;
            same_address = refl;
            verdict = (done.was_free, done.added, ap (λ l. l ++ url ∷ []) bare);
          },
        )
      ]

  bind_tcp-Opens :
      (port : ℕ) (r : TunnelRegistry) (t : Tunnel)
      → IsSound r
      → t.urls ≡ []
      → Opens t.address r.tunnels (bind_tcp g out port r t)
  unfolding bind_tcp
  bind_tcp-Opens port r t v bare = go (out.bind port) g.domains refl refl
    where
      go :
          (bound : Option ℕ) (domains : List Text)
          → out.bind port ≡ bound
          → g.domains ≡ domains
          → Opens t.address r.tunnels (bind_tcp g out port r t)
      go none domains e d = (
        refused r (record t { listener = none }) cannot_bind,
        rw (e, bind_tcp),
        record { sound = v; same_address = refl; verdict = (refl, bare) },
      )
      go (some p) [] e d = absurd (bounded.has_domain d)
      go (some p) (domain ∷ rest) e d =
          let short = subst (λ l. All (λ x. length x < 2 ^ 62) l) d bounded.domains_short in
          let (o, run, granted) =
            bound_tcp-Opens domain p r t short.0 (bounded.ports_small port p e) v bare in
          (o, rw (e, d, bind_tcp) run, granted)

  bind_cached-Opens :
      (cached : Text) (r : TunnelRegistry) (t : Tunnel)
      → IsSound r
      → t.urls ≡ []
      → Opens t.address r.tunnels (bind_cached g out cached r t)
  unfolding bind_cached
  bind_cached-Opens cached r t v bare = go (atoi (last_part (split b':' cached))) refl
    where
      go :
          (port : Option (Bool × ℕ))
          → atoi (last_part (split b':' cached)) ≡ port
          → Opens t.address r.tunnels (bind_cached g out cached r t)
      go none e =
          (refused r t cannot_bind, rw (e, bind_cached), refused-Granted r t cannot_bind v bare)
      go (some (negative, port)) e = elim (Bool-cases (negative && not (port == 0))) [
        | inl below ↦ (
          refused r (record t { listener = none }) cannot_bind,
          rw (e, bind_cached, below),
          record { sound = v; same_address = refl; verdict = (refl, bare) },
        )
        | inr fine ↦
            let (o, run, granted) = bind_tcp-Opens port r t v bare in
            (o, rw (e, bind_cached, fine) run, granted)
      ]

  -- The end of the case `tcp`, once the cached port has been tried.
  retried :
      (r r' : TunnelRegistry) (t : Tunnel) (cached : Text) (tried : Opened)
      → get_cached_registration out.now (owner t) r ≡ some (r', cached)
      → same cached [] ≡ false
      → bind_cached g out cached r' t ≡ some tried
      → Granted t.address r'.tunnels tried
      → Opens t.address r'.tunnels (open_tcp g out r t)
  unfolding open_tcp
  retried r r' t cached tried run known ran granted = go tried.refusal refl granted.verdict
    where
      go :
          (refusal : Option Refusal)
          → tried.refusal ≡ refusal
          → Verdict r'.tunnels tried refusal
          → Opens t.address r'.tunnels (open_tcp g out r t)
      go none e w = (tried, simp (run, known, ran, e), granted)
      go (some e) e' w =
          let (o, ran', granted') =
            bind_tcp-Opens 0 tried.registry tried.tunnel granted.sound w.1 in
          (
            o,
            rw (run, known, ran, e', ran'),
            subst₂ (λ a m. Granted a m o) granted.same_address w.0 granted',
          )

  open_tcp-Opens :
      (r : TunnelRegistry) (t : Tunnel)
      → IsSound r
      → t.urls ≡ []
      → Opens t.address r.tunnels (open_tcp g out r t)
  unfolding open_tcp
  open_tcp-Opens r t v bare =
      let (r', cached, run, _, _, v', kept, _) =
        get_cached_registration_lem out.now (owner t) r v in
      let at_tunnels : Opens t.address r'.tunnels (open_tcp g out r t) =
        elim (Bool-cases (same cached [])) [
          | inl unknown ↦
              let (o, ran, granted) = bind_tcp-Opens 0 r' t v' bare in
              (o, rw (run, unknown, ran), granted)
          | inr known ↦
              let (o, ran, granted) = bind_cached-Opens cached r' t v' bare in
              retried r r' t cached o run known ran granted
        ] in
      subst (λ m. Opens t.address m (open_tcp g out r t)) kept at_tunnels

  -- `finish` changes nothing that `Granted` speaks of.
  finish-Granted :
      (address : ℕ) (m : Map Text ℕ) (o : Opened)
      → Granted address m o
      → Granted address m (finish o)
  unfolding finish
  finish-Granted address m o granted = go o.refusal refl
    where
      go : (e : Option Refusal) → o.refusal ≡ e → Granted address m (finish o)
      go (some e) h = rw (h, finish) granted
      go none h =
          simp (h, finish)
            (record {
              sound = granted.sound;
              same_address = granted.same_address;
              verdict = subst (Verdict m o) h granted.verdict;
            })

  open_http-Opens :
      (protocol : Text) (r : TunnelRegistry) (t : Tunnel)
      → length protocol < 2 ^ 61
      → IsSound r
      → t.urls ≡ []
      → t.url ≡ []
      → Opens t.address r.tunnels (open_http g out protocol r t)
  unfolding open_http
  open_http-Opens protocol r t hp v bare unset =
      elim (Option-cases (get text_dec protocol g.listeners)) [
        | inl absent ↦ (
          refused r t not_listening,
          rw (absent, open_http),
          refused-Granted r t not_listening v bare,
        )
        | inr (port, listening) ↦
            let (o, run, granted) = register_vhost-Opens protocol port r t hp v bare unset in
            (finish o, rw (listening, open_http, run), finish-Granted t.address r.tunnels o granted)
      ]

  -- `NewTunnel` never panics. It is refused, and then no URL of the registry changes and the tunnel
  -- has none; or the tunnel has one URL, which was free, and the registry maps it to the tunnel and
  -- is otherwise as before. This holds for a server with a domain and short texts, whose affinity
  -- cache is valid.
  pub new_tunnel-Opens :
      (address : ℕ) (req : ReqTunnel) (client : Client) (r : TunnelRegistry)
      → length req.protocol < 2 ^ 61
      → IsSound r
      → Opens address r.tunnels (new_tunnel g out address req client r)
  unfolding new_tunnel
  new_tunnel-Opens address req client r hp v =
      let t = blank address req client in
      elim (Bool-cases (same req.protocol (text "tcp"))) [
        | inl tcp ↦ elim (Bool-cases (not (req.remote_port == 0))) [
          | inr any ↦ rw (tcp, new_tunnel, any) (open_tcp-Opens r t v refl)
          | inl asked ↦ elim (Bool-cases (not g.allow_remote_ports)) [
            | inl never ↦ (
              refused r t remote_ports_disabled,
              rw (tcp, new_tunnel, asked, never),
              refused-Granted r t remote_ports_disabled v refl,
            )
            | inr allowed ↦
                rw (tcp, new_tunnel, asked, allowed) (bind_tcp-Opens req.remote_port r t v refl)
          ]
        ]
        | inr other ↦
            elim (Bool-cases
              (same req.protocol (text "http") || same req.protocol (text "https"))) [
                | inl web ↦
                    rw (other, new_tunnel, web) (open_http-Opens req.protocol r t hp v refl refl)
                | inr unknown ↦ (
                  refused r t unsupported_protocol,
                  rw (other, new_tunnel, unknown),
                  refused-Granted r t unsupported_protocol v refl,
                )
              ]
      ]

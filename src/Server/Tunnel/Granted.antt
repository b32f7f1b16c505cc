-- ===== src/Server/Tunnel/Granted.antt =====
-- What opening a tunnel does to the registry, in every case: one free URL is taken, or nothing is.
use ngrok.Prelude.{
  ℕ, ◌^◌, ◌<◌, List, [], ◌∷◌, ◌++◌, ◌≡◌, refl, ap, Option, none, some, length, inl, inr, Bool-cases,
  Option-cases,
}
use ngrok.Prelude.Maps.{Map, get, put}
use ngrok.Prelude.Text.{Text, text_dec, same, to_lower, trim_space}
use ngrok.Server.Names.{valid_hostname, valid_hostname_label, hostname_allowed}
use ngrok.Server.Vhosts.{default_port}
use ngrok.Server.Registry.{TunnelRegistry, register_repeat}
use ngrok.Server.Registry.Cached.{IsSound}
use ngrok.Server.Registry.Exclusive.{register_free, register_taken}
use ngrok.Server.Registry.Repeat.{Assigns, tried_urls, register_repeat_lem}
use ngrok.Server.Tunnel.State.{
  Refusal, Tunnel, Outside, Opened, owner, refused, accepted, already_registered, no_free_url,
  invalid_hostname, outside_domains, invalid_subdomain, no_default_port,
}
use ngrok.Server.Tunnel.Vhost.{
  register_url, register_hostname, register_subdomain, register_random, register_at, url_of,
  random_url,
}

-- What became of the tunnels `m`, given whether the tunnel is refused: it has one URL, which was free
-- and is now its own; or it has no URL, and nothing has changed.
abbrev pub Verdict : Map Text ℕ → Opened → Option Refusal → Type 0
Verdict m o none =
    (get text_dec o.tunnel.url m ≡ none)
    × (o.registry.tunnels ≡ put text_dec o.tunnel.url o.tunnel.address m)
    × (o.tunnel.urls ≡ o.tunnel.url ∷ [])
Verdict m o (some e) = (o.registry.tunnels ≡ m) × (o.tunnel.urls ≡ [])

pub record Granted (address : ℕ) (m : Map Text ℕ) (o : Opened) : Type 0 where
  pub sound : IsSound o.registry
  pub same_address : o.tunnel.address ≡ address
  pub verdict : Verdict m o o.refusal

pub refused-Granted :
    (r : TunnelRegistry) (t : Tunnel) (e : Refusal)
    → IsSound r
    → t.urls ≡ []
    → Granted t.address r.tunnels (refused r t e)
refused-Granted r t e v bare = record { sound = v; same_address = refl; verdict = (refl, bare) }

-- `registerURL` of a tunnel with no URL.
register_url-Granted :
    (url : Text) (r : TunnelRegistry) (t : Tunnel)
    → IsSound r
    → t.urls ≡ []
    → t.url ≡ []
    → Granted t.address r.tunnels (register_url url r t)
unfolding register_url text_dec
register_url-Granted url r t v bare unset = elim (Option-cases (get text_dec url r.tunnels)) [
  | inl free ↦
      rw (register_free url t.address r free, unset, bare)
        (record { sound = v; same_address = refl; verdict = (free, refl, refl) })
  | inr (u, taken) ↦
      rw (register_taken url t.address u r taken) (refused-Granted r t already_registered v bare)
]

module _ (out : Outside) (protocol vhost : Text) (r : TunnelRegistry) (t : Tunnel) (v : IsSound r)
    (bare : t.urls ≡ []) where
  assigned-Granted :
      (tried : List Text) (r' : TunnelRegistry) (result : Option Text)
      → register_repeat out.now (random_url protocol vhost out.random) (owner t) r
        ≡ some (r', result)
      → IsSound r'
      → Assigns tried t.address r.tunnels r'.tunnels result
      → (o : Opened) × (register_random out protocol vhost r t ≡ some o)
        × Granted t.address r.tunnels o
  unfolding register_random
  assigned-Granted tried r' none run sound a = (
    refused r' (record t { url = [] }) no_free_url,
    rw run,
    record { sound = sound; same_address = refl; verdict = (a.1, bare) },
  )
  assigned-Granted tried r' (some url) run sound a = (
    accepted r' (record t { url = url; urls = t.urls ++ url ∷ [] }),
    rw run,
    record {
      sound = sound;
      same_address = refl;
      verdict = (a.0, a.1, ap (λ l. l ++ url ∷ []) bare);
    },
  )

  register_random-Granted :
      ((i : ℕ) → length (random_url protocol vhost out.random i) < 2 ^ 63)
      → (o : Opened) × (register_random out protocol vhost r t ≡ some o)
        × Granted t.address r.tunnels o
  register_random-Granted small =
      let (r', result, cached, run, _, sound, a) =
        register_repeat_lem out.now (random_url protocol vhost out.random) (owner t) small r v in
      assigned-Granted (tried_urls (random_url protocol vhost out.random) cached) r' result run
        sound a

module _ (out : Outside) (protocol : Text) (r : TunnelRegistry) (t : Tunnel) (v : IsSound r)
    (bare : t.urls ≡ []) (unset : t.url ≡ []) where
  register_hostname-Granted :
      (vhosts : List Text) (hostname : Text)
      → Granted t.address r.tunnels (register_hostname protocol vhosts hostname r t)
  unfolding register_hostname
  register_hostname-Granted vhosts hostname = elim (Bool-cases (valid_hostname hostname)) [
    | inr invalid ↦ rw (invalid, register_hostname) (refused-Granted r t invalid_hostname v bare)
    | inl valid ↦ elim (Bool-cases (hostname_allowed hostname vhosts)) [
      | inr outside ↦
          rw (valid, register_hostname, outside) (refused-Granted r t outside_domains v bare)
      | inl allowed ↦
          rw (valid, register_hostname, allowed)
            (register_url-Granted (url_of protocol hostname) r t v bare unset)
    ]
  ]

  register_subdomain-Granted :
      (vhost subdomain : Text)
      → Granted t.address r.tunnels (register_subdomain protocol vhost subdomain r t)
  unfolding register_subdomain
  register_subdomain-Granted vhost subdomain = elim (Bool-cases (valid_hostname_label subdomain)) [
    | inr invalid ↦ rw (invalid, register_subdomain) (refused-Granted r t invalid_subdomain v bare)
    | inl valid ↦
        rw (valid, register_subdomain)
          (register_url-Granted (url_of protocol (subdomain ++ b'.' ∷ vhost)) r t v bare unset)
  ]

  pub register_at-Granted :
      (vhost : Text) (vhosts : List Text)
      → ((i : ℕ) → length (random_url protocol vhost out.random i) < 2 ^ 63)
      → (o : Opened) × (register_at out protocol vhost vhosts r t ≡ some o)
        × Granted t.address r.tunnels o
  unfolding register_at
  register_at-Granted vhost vhosts small =
      let hostname = to_lower (trim_space t.req.hostname) in
      let subdomain = to_lower (trim_space t.req.subdomain) in
      elim (Option-cases (default_port protocol)) [
        | inl unknown ↦ (_, rw (unknown, register_at), refused-Granted r t no_default_port v bare)
        | inr (port, known) ↦ elim (Bool-cases (same hostname [])) [
          | inr named ↦ (
            _,
            rw (known, register_at, named),
            register_hostname-Granted (vhost ∷ vhosts) hostname,
          )
          | inl unnamed ↦ elim (Bool-cases (same subdomain [])) [
            | inr sub ↦ (
              _,
              rw (known, register_at, unnamed, sub),
              register_subdomain-Granted vhost subdomain,
            )
            | inl random ↦
                rw (known, register_at, unnamed, random)
                  (register_random-Granted out protocol vhost r t v bare small)
          ]
        ]
      ]

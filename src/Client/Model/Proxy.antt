-- ===== src/Client/Model/Proxy.antt =====
-- A proxy connection of the client, `proxy` of `src/ngrok/client/model.go`. What the network gives is
-- an argument.
use ngrok.Prelude.{
  Bool, true, not, ◌++◌, ◌≡◌, ◌↔◌, ap, sym, ◌∙◌, Option, none, some, if◌then◌else◌, length, inl,
  inr, Bool-cases, Option-cases, arith,
}
use ngrok.Prelude.Maps.{get}
use ngrok.Prelude.Text.{Text, text, text_dec, decimal}
use ngrok.Msg.{StartProxy}
use ngrok.Client.Model.{ClientModel, ClientTunnel, Protocol, http, tcp}

-- The page `BadGateway`, with the URL of the tunnel and twice its local address.
unfoldable pub bad_gateway : Text → Text → Text
bad_gateway url addr =
    text
      "<html>\n<body style=\"background-color: #97a8b9\">\n    <div style=\"margin:auto; width:400px;padding: 20px 60px; background-color: #D3D3D3; border: 5px solid maroon;\">\n        <h2>Tunnel "
    ++ (url
        ++ (text " unavailable</h2>\n        <p>Unable to initiate connection to <strong>"
            ++ (addr
                ++ (text "</strong>. A web server must be running on port <strong>"
                    ++ (addr ++ text "</strong> to complete the tunnel.</p>\n")))))

unfoldable pub bad_gateway_answer : Text → Text
bad_gateway_answer body =
    text "HTTP/1.0 502 Bad Gateway\nContent-Type: text/html\nContent-Length: "
    ++ (decimal (length body) ++ (text "\n\n" ++ body))

-- What becomes of a proxy connection. A tunnel whose protocol is not known holds a nil interface, and a
-- call of its methods is a panic.
pub data Proxied : Type 0 where
  not_connected not_registered not_started panicked : Proxied
  unknown_tunnel : Text → Proxied
  refused : Protocol → Option Text → Proxied
  joined : ClientTunnel → Text → Proxied

-- What the network gives: whether the server can be reached, whether `RegProxy` can be written, the
-- message `StartProxy`, and the local addresses that can be reached.
pub record Links : Type 0 where
  pub reachable : Bool
  pub writable : Bool
  pub start_proxy : Option StartProxy
  pub local : Text → Bool

-- What is written to the server if the local address cannot be reached.
unfoldable pub refusal : Protocol → ClientTunnel → Option Text
refusal http t = some (bad_gateway_answer (bad_gateway t.public_url t.local_addr))
refusal tcp t = none

-- The end of `proxy`, for a tunnel that is found, given whether its local address can be reached.
unfoldable pub proxy_tunnel : Bool → ClientTunnel → Text → Proxied
proxy_tunnel near t client_addr = elim t.protocol [
  | none ↦ panicked
  | some p ↦ if near then joined t client_addr else refused p (refusal p t)
]

unfoldable pub proxy : Links → ClientModel → Proxied
proxy n c =
    if not n.reachable
    then not_connected
    else if not n.writable
    then not_registered
    else elim n.start_proxy [
      | none ↦ not_started
      | some m ↦ elim (get text_dec m.url c.tunnels) [
        | none ↦ unknown_tunnel m.url
        | some t ↦ proxy_tunnel (n.local t.local_addr) t m.client_addr
      ]
    ]

-- What a connection needs to be joined.
pub record IsJoined (n : Links) (c : ClientModel) (t : ClientTunnel) (addr : Text) : Type 0 where
  pub reached : n.reachable ≡ true
  pub registered : n.writable ≡ true
  pub message : StartProxy
  pub started : n.start_proxy ≡ some message
  pub from : message.client_addr ≡ addr
  pub known : get text_dec message.url c.tunnels ≡ some t
  pub near : n.local t.local_addr ≡ true
  pub protocol : Protocol
  pub chosen : t.protocol ≡ some protocol

joined-inj : {t u : ClientTunnel} {a b : Text} → joined t a ≡ joined u b → (t ≡ u) × (a ≡ b)
joined-inj h = (cc, cc)

proxy_tunnel-joined :
    (near : Bool) (u : ClientTunnel) (from : Text) (t : ClientTunnel) (addr : Text)
    → proxy_tunnel near u from ≡ joined t addr
    → (u ≡ t) × (from ≡ addr) × (near ≡ true) × (p : Protocol) × (u.protocol ≡ some p)
unfolding proxy_tunnel
proxy_tunnel-joined near u from t addr h = elim (Option-cases u.protocol) [
  | inl unknown ↦ absurd (cc (rw (unknown, proxy_tunnel) at h))
  | inr (p, chosen) ↦ elim (Bool-cases near) [
    | inr far ↦ absurd (cc (rw (chosen, proxy_tunnel, far) at h))
    | inl close ↦
        let (e, f) = joined-inj (rw (chosen, proxy_tunnel, close) at h) in (e, f, close, p, chosen)
  ]
]

proxy_tunnel_lem :
    (near : Bool) (t : ClientTunnel) (from : Text) (p : Protocol)
    → near ≡ true
    → t.protocol ≡ some p
    → proxy_tunnel near t from ≡ joined t from
unfolding proxy_tunnel
proxy_tunnel_lem near t from p close chosen = ground (arith, close, chosen)

proxy_sound :
    (n : Links) (c : ClientModel) (t : ClientTunnel) (addr : Text)
    → proxy n c ≡ joined t addr
    → IsJoined n c t addr
unfolding proxy
proxy_sound n c t addr h = elim (Bool-cases n.reachable) [
  | inr away ↦ absurd (cc (rw (away, proxy) at h))
  | inl here ↦ elim (Bool-cases n.writable) [
    | inr broken ↦ absurd (cc (rw (here, proxy, broken) at h))
    | inl whole ↦ elim (Option-cases n.start_proxy) [
      | inl silent ↦ absurd (cc (rw (here, proxy, whole, silent) at h))
      | inr (m, starts) ↦ elim (Option-cases (get text_dec m.url c.tunnels)) [
        | inl unknown ↦ absurd (cc (rw (here, proxy, whole, starts, unknown) at h))
        | inr (u, known) ↦
            let ends = rw (here, proxy, whole, starts, known) at h in
            let (e, f, near, p, chosen) = proxy_tunnel-joined _ u m.client_addr t addr ends in
            record {
              reached = here;
              registered = whole;
              message = m;
              started = starts;
              from = f;
              known = known ∙ ap some e;
              near = ap (λ x. n.local x.local_addr) (sym e) ∙ near;
              protocol = p;
              chosen = ap (λ x. x.protocol) (sym e) ∙ chosen;
            }
      ]
    ]
  ]
]

proxy_complete :
    (n : Links) (c : ClientModel) (t : ClientTunnel) (addr : Text)
    → IsJoined n c t addr
    → proxy n c ≡ joined t addr
unfolding proxy
proxy_complete n c t addr j =
    rw (j.reached, proxy, j.registered, j.started, j.known)
      (proxy_tunnel_lem (n.local t.local_addr) t j.message.client_addr j.protocol j.near j.chosen
        ∙ ap (joined t) j.from)

-- A proxy connection that is joined is one that the server has started for a URL of the client, whose
-- local address can be reached and whose protocol is known; every other one ends without local traffic.
pub proxy-joined_iff :
    (n : Links) (c : ClientModel) (t : ClientTunnel) (addr : Text)
    → (proxy n c ≡ joined t addr) ↔ IsJoined n c t addr
proxy-joined_iff n c t addr = (proxy_sound n c t addr, proxy_complete n c t addr)

-- ===== src/Client/Model/Tunnels.antt =====
-- The tunnels that the client knows, `src/ngrok/client/model.go`.
use mathlib.Core.Path.{subst}
use ngrok.Prelude.{
  ℕ, suc, ◌+◌, List, [], ◌∷◌, ◌++◌, ◌≡◌, ◌⊎◌, length, arith, refl, ap, sym, ◌∙◌, none, some, In,
  inl, inr, Bool-cases, Option-cases,
}
use ngrok.Prelude.Maps.{get, put, get-put_self, get-put_ne}
use ngrok.Prelude.Text.{Text, text_dec, same}
use ngrok.Msg.{NewTunnel, new_tunnel}
use ngrok.Client.Config.{TunnelConfiguration}
use ngrok.Client.Model.Answers.{some-inj, none-some, IsAnswer, handle_all-AreAnswers}
use ngrok.Client.Model.{
  ClientModel, ClientTunnel, Requests, local_address, proto_map, request_all, Network, serve,
  control,
}

-- The address of a configuration for a protocol: its own, or none where it does not have the protocol.
abbrev pub LeadsTo : TunnelConfiguration → Text → Text → Type 0
LeadsTo config protocol addr =
    (get text_dec protocol config.protocols ≡ some addr)
    ⊎ ((get text_dec protocol config.protocols ≡ none) × (addr ≡ []))

-- A tunnel is the answer of the server to one of the client's requests: a message without an error, for
-- its URL, that carries the id with which the configuration was requested.
pub record IsServed (n : Network) (configs : List TunnelConfiguration) (url : Text)
    (t : ClientTunnel) : Type 0 where
  pub time : ℕ
  pub message : NewTunnel
  pub received : In (time, new_tunnel message) n.messages
  pub granted : message.error ≡ []
  pub at_url : message.url ≡ url
  pub public : t.public_url ≡ url
  pub before : List TunnelConfiguration
  pub config : TunnelConfiguration
  pub after : List TunnelConfiguration
  pub listed : configs ≡ before ++ config ∷ after
  pub requested : n.ids (length before) ≡ message.req_id
  pub leads : LeadsTo config message.protocol t.local_addr
  pub protocol : t.protocol ≡ proto_map message.protocol

-- Where a request stands among the configurations.
abbrev IsRequested : (ℕ → Text) → ℕ → List TunnelConfiguration → Text → TunnelConfiguration → Type 0
IsRequested ids n configs req_id config =
    (before : List TunnelConfiguration) × (after : List TunnelConfiguration) × (configs
      ≡ before ++ config ∷ after)
    × (ids (n + length before) ≡ req_id)

request_all_lem :
    (ids : ℕ → Text) (n : ℕ) (configs : List TunnelConfiguration) (reqs : Requests) (req_id : Text)
    (config : TunnelConfiguration)
    → get text_dec req_id (request_all ids n configs reqs).1 ≡ some config
    → (get text_dec req_id reqs ≡ some config) ⊎ IsRequested ids n configs req_id config
unfolding request_all
request_all_lem ids n [] reqs req_id config h = inl h
request_all_lem ids n (d ∷ configs) reqs req_id config h =
    elim (request_all_lem ids (suc n) configs (put text_dec (ids n) d reqs) req_id config h) [
      | inr (before, after, e, own) ↦
          let place : n + suc (length before) ≡ suc n + length before = omega arith in
          inr (d ∷ before, after, ap (◌∷◌ d) e, ap ids place ∙ own)
      | inl found ↦ elim (text_dec (ids n) req_id) [
        | yes e ↦
            let all_reqs = put text_dec (ids n) d reqs in
            let own : d ≡ config = some-inj (
              sym (get-put_self text_dec (ids n) d reqs)
              ∙ ap (λ q. get text_dec q all_reqs) e
              ∙ found) in
            let place : n + 0 ≡ n = omega arith in
            inr ([], configs, ap (λ x. x ∷ configs) own, ap ids place ∙ e)
        | no other ↦ inl (sym (get-put_ne text_dec (ids n) req_id d reqs other) ∙ found)
      ]
    ]

local_address-LeadsTo :
    (config : TunnelConfiguration) (protocol : Text)
    → LeadsTo config protocol (local_address config protocol)
unfolding local_address
local_address-LeadsTo config protocol =
    elim (Option-cases (get text_dec protocol config.protocols)) [
      | inl missing ↦ inr (missing, rw (missing, local_address) refl)
      | inr (addr, known) ↦ inl (known ∙ ap some (sym (rw (known, local_address) refl)))
    ]

IsAnswer-IsServed :
    (n : Network) (configs : List TunnelConfiguration) (url : Text) (t : ClientTunnel)
    → IsAnswer (request_all n.ids 0 configs []).1 n.messages url t
    → IsServed n configs url t
unfolding get
IsAnswer-IsServed n configs url t (time, m, config, received, granted, known, at_url, made) =
    elim (request_all_lem n.ids 0 configs [] m.req_id config known) [
      | inl absent ↦ absurd (none-some absent)
      | inr (before, after, listed, requested) ↦ record {
        time = time;
        message = m;
        received = received;
        granted = granted;
        at_url = at_url;
        public = sym (ap (λ x. x.public_url) made) ∙ at_url;
        before = before;
        config = config;
        after = after;
        listed = listed;
        requested = ap n.ids (omega arith) ∙ requested;
        leads =
            subst (λ x. LeadsTo config m.protocol x.local_addr) made
              (local_address-LeadsTo config m.protocol);
        protocol = sym (ap (λ x. x.protocol) made);
      }
    ]

-- Whatever the network does, each tunnel that the client knows after a run of `control` is one that it
-- knew before, or the answer of the server to one of its requests: it stands at the URL of a message
-- that has arrived without an error, has the protocol that the message names, and leads to the
-- address that the configuration requested under the id of the message has for that protocol. If the
-- configuration does not have the protocol, the address is empty.
pub control-IsServed :
    (n : Network) (configs : List TunnelConfiguration) (c : ClientModel) (url : Text)
    (t : ClientTunnel)
    → get text_dec url (control n configs c).tunnels ≡ some t
    → (get text_dec url c.tunnels ≡ some t) ⊎ IsServed n configs url t
unfolding control serve
control-IsServed n configs c url t h = elim (Bool-cases n.reachable) [
  | inr away ↦ inl (rw (away, control) at h)
  | inl here ↦ elim (Option-cases n.answer) [
    | inl silent ↦ inl (rw (here, control, silent) at h)
    | inr (resp, answers) ↦ elim (Bool-cases (same resp.error [])) [
      | inr refused ↦ inl (rw (here, control, answers, refused) at h)
      | inl welcome ↦ elim (Bool-cases n.writable) [
        | inr broken ↦ inl (rw (here, control, answers, welcome, serve, broken) at h)
        | inl whole ↦
            let reqs = (request_all n.ids 0 configs []).1 in
            let c' : ClientModel = record c {
              id = resp.client_id;
              server_version = resp.mm_version;
              last_pong = n.now;
            } in
            let run = rw (here, control, answers, welcome, serve, whole) at h in
            elim (handle_all-AreAnswers c.tunnels reqs n.messages n.messages c' (λ e k. k)
              (λ u s k. inl k) url t run) [
                | inl old ↦ inl old
                | inr answer ↦ inr (IsAnswer-IsServed n configs url t answer)
              ]
      ]
    ]
  ]
]

-- ===== src/Client/Model/Answers.antt =====
-- What the loop of `control` in `src/ngrok/client/model.go` makes of the answers of the server.
use mathlib.Core.Path.{subst}
use ngrok.Prelude.{
  ℕ, List, [], ◌∷◌, ◌≡◌, ◌⊎◌, refl, ap, sym, ◌∙◌, none, some, In, inl, inr, Bool-cases,
  Option-cases,
}
use ngrok.Prelude.Maps.{Map, get, put, get-put_self, get-put_ne}
use ngrok.Prelude.Text.{Text, text_dec, same}
use ngrok.Prelude.Affixes.{same_iff}
use ngrok.Msg.{
  NewTunnel, Message, auth, auth_resp, req_tunnel, new_tunnel, reg_proxy, req_proxy, start_proxy,
  ping, pong,
}
use ngrok.Client.Config.{TunnelConfiguration}
use ngrok.Client.Model.{
  ClientModel, ClientTunnel, Requests, local_address, proto_map, handle_new_tunnel, handle,
  handle_all,
}

pub some-inj : {A : Type 0} {a b : A} → some a ≡ some b → a ≡ b
some-inj e = cc

pub none-some : {A : Type 0} {a : A} → none ≡ some a → ⊥
none-some e = cc

-- The tunnel that the client makes of an answer.
abbrev pub answered : TunnelConfiguration → NewTunnel → ClientTunnel
answered config m = record {
  public_url = m.url;
  local_addr = local_address config m.protocol;
  protocol = proto_map m.protocol;
}

-- A tunnel is made of an answer to a request.
abbrev pub IsAnswer : Requests → List (ℕ × Message) → Text → ClientTunnel → Type 0
IsAnswer reqs all url t =
    (now : ℕ) × (m : NewTunnel) × (config : TunnelConfiguration) × In (now, new_tunnel m) all
    × (m.error ≡ [])
    × (get text_dec m.req_id reqs ≡ some config)
    × (m.url ≡ url)
    × (answered config m ≡ t)

-- Every tunnel was there, or is made of an answer.
abbrev pub AreAnswers :
    Map Text ClientTunnel → Requests → List (ℕ × Message) → Map Text ClientTunnel → Type 0
AreAnswers first reqs all tunnels =
    (url : Text) (t : ClientTunnel)
    → get text_dec url tunnels ≡ some t
    → (get text_dec url first ≡ some t) ⊎ IsAnswer reqs all url t

module _ (first : Map Text ClientTunnel) (reqs : Requests) (all : List (ℕ × Message)) where
  handle_new_tunnel-AreAnswers :
      (now : ℕ) (m : NewTunnel) (c c' : ClientModel)
      → In (now, new_tunnel m) all
      → AreAnswers first reqs all c.tunnels
      → handle_new_tunnel reqs m c ≡ some c'
      → AreAnswers first reqs all c'.tunnels
  unfolding handle_new_tunnel
  handle_new_tunnel-AreAnswers now m c c' here v h = elim (Bool-cases (same m.error [])) [
    | inr refused ↦
        subst (λ d. AreAnswers first reqs all d.tunnels)
          (some-inj (rw (handle_new_tunnel, refused) at h)) v
    | inl fine ↦ elim (Option-cases (get text_dec m.req_id reqs)) [
      | inl unknown ↦ absurd (none-some (rw (fine, handle_new_tunnel, unknown) at h))
      | inr (config, known) ↦
          subst (λ d. AreAnswers first reqs all d.tunnels)
            (some-inj (rw (fine, handle_new_tunnel, known) at h))
            (λ url t k. elim (text_dec m.url url) [
              | yes e ↦
                  let all_tunnels = put text_dec m.url (answered config m) c.tunnels in
                  inr (
                    now,
                    m,
                    config,
                    here,
                    (same_iff m.error []).0 fine,
                    known,
                    e,
                    some-inj (
                        sym (get-put_self text_dec m.url (answered config m) c.tunnels)
                        ∙ ap (λ u. get text_dec u all_tunnels) e
                        ∙ k),
                  )
              | no other ↦
                  v url t
                    (sym (get-put_ne text_dec m.url url (answered config m) c.tunnels other) ∙ k)
            ])
    ]
  ]

  handle-AreAnswers :
      (now : ℕ) (m : Message) (c c' : ClientModel)
      → In (now, m) all
      → AreAnswers first reqs all c.tunnels
      → handle reqs now m c ≡ some c'
      → AreAnswers first reqs all c'.tunnels
  unfolding handle
  handle-AreAnswers now (new_tunnel t) c c' here v h =
      handle_new_tunnel-AreAnswers now t c c' here v h
  handle-AreAnswers now (auth m) c c' here v h =
      subst (λ d. AreAnswers first reqs all d.tunnels) (some-inj h) v
  handle-AreAnswers now (auth_resp m) c c' here v h =
      subst (λ d. AreAnswers first reqs all d.tunnels) (some-inj h) v
  handle-AreAnswers now (req_tunnel m) c c' here v h =
      subst (λ d. AreAnswers first reqs all d.tunnels) (some-inj h) v
  handle-AreAnswers now (reg_proxy m) c c' here v h =
      subst (λ d. AreAnswers first reqs all d.tunnels) (some-inj h) v
  handle-AreAnswers now req_proxy c c' here v h =
      subst (λ d. AreAnswers first reqs all d.tunnels) (some-inj h) v
  handle-AreAnswers now (start_proxy m) c c' here v h =
      subst (λ d. AreAnswers first reqs all d.tunnels) (some-inj h) v
  handle-AreAnswers now ping c c' here v h =
      subst (λ d. AreAnswers first reqs all d.tunnels) (some-inj h) v
  handle-AreAnswers now pong c c' here v h =
      subst (λ d. AreAnswers first reqs all d.tunnels) (some-inj h) v

  pub handle_all-AreAnswers :
      (ms : List (ℕ × Message)) (c : ClientModel)
      → ((e : ℕ × Message) → In e ms → In e all)
      → AreAnswers first reqs all c.tunnels
      → AreAnswers first reqs all (handle_all reqs ms c).tunnels
  unfolding handle_all
  handle_all-AreAnswers [] c inside v = v
  handle_all-AreAnswers ((now, m) ∷ ms) c inside v = elim (Option-cases (handle reqs now m c)) [
    | inl panics ↦ rw (panics, handle_all) v
    | inr (c', run) ↦
        rw (run, handle_all)
          (handle_all-AreAnswers ms c' (λ e k. inside e (inr k))
            (handle-AreAnswers now m c c' (inside (now, m) (inl refl)) v run))
  ]

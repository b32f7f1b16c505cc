-- ===== src/Server/Control/Tunnels.antt =====
-- What a control does to the tunnel registry over its life, `src/ngrok/server/control.go`.
use mathlib.Core.Path.{subst}
use ngrok.Prelude.{
  ℕ, suc, ◌^◌, ◌<◌, List, [], ◌∷◌, ◌++◌, ◌≡◌, refl, ap, ◌∙◌, sym, Option, none, some, length, ite,
  if_pos, if_neg, inl, inr, Bool-cases, ◌==◌, All, All-append,
}
use ngrok.Prelude.Maps.{get, put, get-put_ne, get-delete}
use ngrok.Prelude.Text.{Text, text, text_dec, split, remove_first}
use ngrok.Msg.{ReqTunnel}
use ngrok.Util.Shutdown.{IsConsistent, begin_lem}
use ngrok.Server.Registry.{TunnelRegistry, del, get_tunnel}
use ngrok.Server.Registry.Cached.{IsSound}
use ngrok.Server.Tunnel.State.{Refusal, Client, Tunnel, Globals, Outside, Opened}
use ngrok.Server.Tunnel.Sizes.{IsBounded}
use ngrok.Server.Tunnel.Granted.{Verdict, Granted}
use ngrok.Server.Tunnel.Opening.{new_tunnel-Opens}
use ngrok.Server.Tunnel.{del_all, shutdown, new_tunnel as open_tunnel}
use ngrok.Server.Control.{
  Control, refusal_answer, fail_tunnel, add_tunnel, register_protocols, register_tunnel,
  shutdown_all,
}

-- What a URL maps to once the tunnels are shut down.
abbrev cleared : Text → List Tunnel → Option ℕ → Option ℕ
cleared q [] o = o
cleared q (t ∷ ts) o = cleared q ts (ite (text_dec t.url q) none o)

cleared-none : (q : Text) (ts : List Tunnel) → cleared q ts none ≡ none
cleared-none q [] = refl
cleared-none q (t ∷ ts) = ap (cleared q ts) (none_either (text_dec t.url q)) ∙ cleared-none q ts
  where
    none_either : {P : Type 0} (d : Dec P) → ite {C = Option ℕ} d none none ≡ none
    none_either (yes p) = refl
    none_either (no n) = refl

cleared-append :
    (q : Text) (ts : List Tunnel) (t : Tunnel) (o : Option ℕ)
    → cleared q (ts ++ t ∷ []) o ≡ ite (text_dec t.url q) none (cleared q ts o)
cleared-append q [] t o = refl
cleared-append q (u ∷ ts) t o = cleared-append q ts t (ite (text_dec u.url q) none o)

-- Every tunnel of a control has its URL, and no other.
abbrev pub AreSingle : List Tunnel → Type 0
AreSingle ts = All (λ t. t.urls ≡ t.url ∷ []) ts

shutdown-single :
    (q : Text) (t : Tunnel) (r : TunnelRegistry)
    → t.urls ≡ t.url ∷ []
    → get_tunnel q (shutdown t r).0 ≡ ite (text_dec t.url q) none (get_tunnel q r)
unfolding shutdown del_all del get_tunnel
shutdown-single q t r single = rw single (get-delete text_dec t.url q r.tunnels)

shutdown_all_lem :
    (q : Text) (ts : List Tunnel) (r : TunnelRegistry)
    → AreSingle ts
    → get_tunnel q (shutdown_all ts r) ≡ cleared q ts (get_tunnel q r)
unfolding shutdown_all
shutdown_all_lem q [] r single = refl
shutdown_all_lem q (t ∷ ts) r single =
    shutdown_all_lem q ts (shutdown t r).0 single.1
    ∙ ap (cleared q ts) (shutdown-single q t r single.0)

-- A control in good order, for a registry `before` that had none of its tunnels: shutting its tunnels
-- down leads back to it.
pub record IsOrderly (before : TunnelRegistry) (c : Control) : Type 0 where
  pub sound : IsSound c.registry
  pub single : AreSingle c.tunnels
  pub back : (q : Text) → cleared q c.tunnels (get_tunnel q c.registry) ≡ get_tunnel q before
  pub consistent : IsConsistent c.shutdown

added-back :
    (before r : TunnelRegistry) (t : Tunnel) (c : Control)
    → IsOrderly before c
    → get text_dec t.url c.registry.tunnels ≡ none
    → r.tunnels ≡ put text_dec t.url t.address c.registry.tunnels
    → (q : Text) → cleared q (c.tunnels ++ t ∷ []) (get_tunnel q r) ≡ get_tunnel q before
unfolding get_tunnel
added-back before r t c v free added q =
    cleared-append q c.tunnels t (get text_dec q r.tunnels) ∙ elim (text_dec t.url q) [
      | yes e ↦
          if_pos (text_dec t.url q) e none (cleared q c.tunnels (get text_dec q r.tunnels))
          ∙ sym (cleared-none q c.tunnels)
          ∙ ap (cleared q c.tunnels)
              (sym (ap (λ u. get text_dec u c.registry.tunnels) (sym e) ∙ free))
          ∙ v.back q
      | no n ↦
          if_neg (text_dec t.url q) n none (cleared q c.tunnels (get text_dec q r.tunnels))
          ∙ ap (cleared q c.tunnels) (
              ap (get text_dec q) added
              ∙ get-put_ne text_dec t.url q t.address c.registry.tunnels n)
          ∙ v.back q
    ]

-- The outcome of a call: it does not panic, and the control is in good order.
abbrev pub Orderly : TunnelRegistry → Option Control → Type 0
Orderly before result = (c : Control) × (result ≡ some c) × IsOrderly before c

fail_tunnel-Orderly :
    (before r : TunnelRegistry) (error : Text) (c : Control)
    → IsOrderly before c
    → IsSound r
    → r.tunnels ≡ c.registry.tunnels
    → Orderly before (fail_tunnel error r c)
unfolding fail_tunnel get_tunnel
fail_tunnel-Orderly before r error c v sound kept =
    let back : (q : Text) → cleared q c.tunnels (get_tunnel q r) ≡ get_tunnel q before =
      λ q. ap (λ m. cleared q c.tunnels (get text_dec q m)) kept ∙ v.back q in
    elim (Bool-cases (length c.tunnels == 0)) [
      | inl last ↦
          let (s', begun, _, consistent) = begin_lem c.shutdown v.consistent in
          (
            record c {
              registry = r;
              out = c.out ++ refusal_answer error ∷ [];
              next = suc c.next;
              shutdown = s';
            },
            rw (last, fail_tunnel, begun) refl,
            record { sound = sound; single = v.single; back = back; consistent = consistent },
          )
      | inr more ↦ (
        record c { registry = r; out = c.out ++ refusal_answer error ∷ []; next = suc c.next },
        rw (more, fail_tunnel) refl,
        record { sound = sound; single = v.single; back = back; consistent = v.consistent },
      )
    ]

add_tunnel-IsOrderly :
    (before r : TunnelRegistry) (protocol req_id : Text) (t : Tunnel) (c : Control)
    → IsOrderly before c
    → IsSound r
    → get text_dec t.url c.registry.tunnels ≡ none
    → r.tunnels ≡ put text_dec t.url t.address c.registry.tunnels
    → t.urls ≡ t.url ∷ []
    → IsOrderly before (add_tunnel protocol req_id r t c)
unfolding add_tunnel
add_tunnel-IsOrderly before r protocol req_id t c v sound free added urls = record {
  sound = sound;
  single = All-append (λ t. t.urls ≡ t.url ∷ []) c.tunnels (t ∷ []) v.single (urls, tt);
  back = added-back before r t c v free added;
  consistent = v.consistent;
}

module _ (g : Globals) (outside : ℕ → Outside) (describe : Refusal → Text) (client : Client)
    (bounded : (n : ℕ) → IsBounded g (outside n)) where
  register_protocols-Orderly :
      (before : TunnelRegistry) (protocols : List Text) (raw : ReqTunnel) (c : Control)
      → All (λ p. length p < 2 ^ 61) protocols
      → IsOrderly before c
      → Orderly before (register_protocols g outside describe client protocols raw c)
  unfolding register_protocols
  register_protocols-Orderly before [] raw c short v = (c, refl, v)
  register_protocols-Orderly before (protocol ∷ protocols) raw c short v =
      let (o, run, granted) =
        new_tunnel-Opens g (outside c.next) (bounded c.next) c.next
          (record raw { protocol = protocol }) client c.registry short.0 v.sound in
      go o run granted o.refusal refl granted.verdict
        (λ raw' c' v'. register_protocols-Orderly before protocols raw' c' short.1 v')
    where
      go :
          (o : Opened)
          → open_tunnel g
              (outside c.next)
              c.next
              (record raw { protocol = protocol })
              client
              c.registry
            ≡ some o
          → Granted c.next c.registry.tunnels o
          → (e : Option Refusal) → o.refusal ≡ e
          → Verdict c.registry.tunnels o e
          → ((raw' : ReqTunnel) (c' : Control)
              → IsOrderly before c'
              → Orderly before (register_protocols g outside describe client protocols raw' c'))
          → Orderly before
              (register_protocols g outside describe client (protocol ∷ protocols) raw c)
      go o run granted (some e) h (kept, bare) later =
          let (c', ran, v') =
            fail_tunnel-Orderly before o.registry (describe e) c v granted.sound kept in
          (c', rw (run, h, register_protocols) ran, v')
      go o run granted none h (free, added, urls) later =
          let host = remove_first (protocol ++ text "://") o.tunnel.url in
          let (c', ran, v') =
            later (record raw { hostname = host })
              (add_tunnel protocol raw.req_id o.registry o.tunnel c)
              (add_tunnel-IsOrderly before o.registry protocol raw.req_id o.tunnel c v granted.sound
                free added urls) in
          (c', rw (run, h, register_protocols) ran, v')

  -- A control that has opened tunnels and then shuts all of them down gives back the tunnel registry:
  -- every URL maps to the tunnel that it mapped to before the request, whichever of its protocols were
  -- refused. Opening the tunnels never panics. This is for a control with no tunnels as yet, a request
  -- whose protocols are short, a server with a domain and short texts, and a valid affinity cache.
  pub shutdown_all-register_tunnel :
      (raw : ReqTunnel) (c : Control)
      → c.tunnels ≡ []
      → IsConsistent c.shutdown
      → IsSound c.registry
      → All (λ p. length p < 2 ^ 61) (split b'+' raw.protocol)
      → (c' : Control) × (register_tunnel g outside describe client raw c ≡ some c')
        × ((q : Text)
            → get_tunnel q (shutdown_all c'.tunnels c'.registry) ≡ get_tunnel q c.registry)
  unfolding register_tunnel
  shutdown_all-register_tunnel raw c fresh consistent sound short =
      let v : IsOrderly c.registry c = record {
        sound = sound;
        single = subst (λ ts. AreSingle ts) (sym fresh) tt;
        back = λ q. ap (λ ts. cleared q ts (get_tunnel q c.registry)) fresh;
        consistent = consistent;
      } in
      let (c', run, v') =
        register_protocols-Orderly c.registry (split b'+' raw.protocol) raw c short v in
      (c', run, λ q. shutdown_all_lem q c'.tunnels c'.registry v'.single ∙ v'.back q)

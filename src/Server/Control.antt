-- ===== src/Server/Control.antt =====
-- A control connection, `src/ngrok/server/control.go`: its start, the tunnels it opens, its manager
-- and its stopper. `none` is a panic.
pub mod Tunnels
pub mod Admission
use ngrok.Prelude.{
  ℕ, zero, suc, ◌+◌, ◌-◌, Bool, true, false, not, List, [], ◌∷◌, ◌++◌, Option, none, some,
  if◌then◌else◌, length, ltb, ◌==◌, ◌>>=◌,
}
use ngrok.Prelude.Text.{Text, text, same, split, remove_first}
use ngrok.Msg.{
  Auth, AuthResp, ReqTunnel, Message, auth_resp, req_proxy, new_tunnel, req_tunnel, ping, pong,
}
use ngrok.Util.Shutdown.{Shutdown, close, begin, complete}
use ngrok.Server.Registry.{TunnelRegistry}
use ngrok.Server.Controls.{ControlRegistry, add_control, del_control}
use ngrok.Server.Proxies.{Pool, drain}
use ngrok.Server.Tunnel.State.{Refusal, Client, Tunnel, Globals, Outside}
use ngrok.Server.Tunnel.{shutdown as close_tunnel, new_tunnel as open_tunnel}

-- The reasons for which a control connection is refused.
pub data AuthError : Type 0 where
  no_id incompatible no_token invalid_token : AuthError

-- `validateAuth`, given the token of the server.
unfoldable pub validate_auth : Text → Auth → Option AuthError
validate_auth token auth =
    if same token []
    then some no_token
    else if not (same auth.user token)
    then some invalid_token
    else none

-- What `NewControl` ends with: the connection is closed, or the control of an id is registered, and
-- perhaps replaces another one, for whose end it waits.
pub data Started : Type 0 where
  refused : AuthError → Started
  started : Text → Option ℕ → List Message → Started

-- The two messages that a new control sends.
unfoldable pub greeting : Text → Text → Text → List Message
greeting proto mm_version id =
    auth_resp (record { version = proto; mm_version = mm_version; client_id = id; error = [] })
    ∷ req_proxy
    ∷ []

-- `NewControl`, once there is an id.
unfoldable pub admit :
    Text → Text → Text → Text → Auth → ℕ → ControlRegistry → ControlRegistry × Started
admit token proto mm_version id auth ctl r =
    if not (same auth.version proto)
    then (r, refused incompatible)
    else elim (validate_auth token auth) [
      | some e ↦ (r, refused e)
      | none ↦
          let (r', old) = add_control id ctl r in
          (r', started id old (greeting proto mm_version id))
    ]

-- `NewControl`; the fresh id is what `SecureRandId` gives, if it gives one.
unfoldable pub new_control :
    Text → Text → Text → Option Text → Auth → ℕ → ControlRegistry → ControlRegistry × Started
new_control token proto mm_version fresh auth ctl r =
    if same auth.client_id []
    then elim fresh [
      | none ↦ (r, refused no_id)
      | some id ↦ admit token proto mm_version id auth ctl r
    ]
    else admit token proto mm_version auth.client_id auth ctl r

-- The state of a control that its manager works on, with the tunnel registry. `next` is the address
-- of the next tunnel, and `out` holds the messages that were sent.
pub record Control : Type 0 where
  pub registry : TunnelRegistry
  pub tunnels : List Tunnel
  pub out : List Message
  pub shutdown : Shutdown
  pub last_ping : ℕ
  pub next : ℕ

-- The answer to a request for a tunnel that is refused.
abbrev pub refusal_answer : Text → Message
refusal_answer error = new_tunnel (record { req_id = []; url = []; protocol = []; error = error })

-- The end of `registerTunnel` when a tunnel is refused.
unfoldable pub fail_tunnel : Text → TunnelRegistry → Control → Option Control
fail_tunnel error r c =
    let c' = record c {
      registry = r;
      out = c.out ++ refusal_answer error ∷ [];
      next = suc c.next;
    } in
    if length c.tunnels == 0
    then (do s ← begin c.shutdown; some (record c' { shutdown = s }))
    else some c'

unfoldable pub add_tunnel : Text → Text → TunnelRegistry → Tunnel → Control → Control
add_tunnel protocol req_id r t c =
    let answer =
      new_tunnel (record { req_id = req_id; url = t.url; protocol = protocol; error = [] }) in
    record c {
      registry = r;
      tunnels = c.tunnels ++ t ∷ [];
      out = c.out ++ answer ∷ [];
      next = suc c.next;
    }

-- The loop of `registerTunnel` over the protocols. The next protocol asks for the host name of the
-- URL that was given. `outside` is what each call of `NewTunnel` takes from outside, and `describe`
-- gives the texts of the errors.
unfoldable pub register_protocols :
    Globals
    → (ℕ → Outside)
    → (Refusal → Text)
    → Client
    → List Text
    → ReqTunnel
    → Control
    → Option Control
register_protocols g outside describe client [] raw c = some c
register_protocols g outside describe client (protocol ∷ protocols) raw c = do
  o ← open_tunnel g (outside c.next) c.next (record raw { protocol = protocol }) client c.registry
  elim o.refusal [
    | some e ↦ fail_tunnel (describe e) o.registry c
    | none ↦
        let host = remove_first (protocol ++ text "://") o.tunnel.url in
        register_protocols g outside describe client protocols (record raw { hostname = host })
          (add_tunnel protocol raw.req_id o.registry o.tunnel c)
  ]

unfoldable pub register_tunnel :
    Globals → (ℕ → Outside) → (Refusal → Text) → Client → ReqTunnel → Control → Option Control
register_tunnel g outside describe client raw c =
    register_protocols g outside describe client (split b'+' raw.protocol) raw c

-- What the manager receives: a tick of its timer or a message, with the time.
pub data Received : Type 0 where
  tick : ℕ → Received
  message : ℕ → Message → Received

abbrev pub ping_timeout_interval : ℕ
ping_timeout_interval = 30

-- One round of the loop of `manager`.
unfoldable pub manage :
    Globals → (ℕ → Outside) → (Refusal → Text) → Client → Received → Control → Option Control
manage g outside describe client (tick now) c =
    if ltb ping_timeout_interval (now - c.last_ping)
    then (do s ← begin c.shutdown; some (record c { shutdown = s }))
    else some c
manage g outside describe client (message now m) c = elim m [
  | req_tunnel raw ↦ register_tunnel g outside describe client raw c
  | ping ↦ some (record c { last_ping = now; out = c.out ++ pong ∷ [] })
  | _ ↦ some c
]

-- `Shutdown` of the tunnels, one after another.
unfoldable pub shutdown_all : List Tunnel → TunnelRegistry → TunnelRegistry
shutdown_all [] r = r
shutdown_all (t ∷ ts) r = shutdown_all ts (close_tunnel t r).0

-- What `stopper` works on: the channels `in` and `out`, the connection, the registries, the pool of
-- proxies and the shutdown of the control.
pub record Stopping : Type 0 where
  pub controls : ControlRegistry
  pub in_closed : Bool
  pub out_closed : Bool
  pub conn_open : Bool
  pub registry : TunnelRegistry
  pub pool : Pool
  pub shutdown : Shutdown

-- `stopper` once the shutdown has begun, for a manager and a writer that end when their channels are
-- closed, given the id that it has read before `Del` locks the registry.
unfoldable pub stop : Text → List Tunnel → Stopping → Option Stopping
stop id tunnels s = do
  in_closed ← close s.in_closed
  out_closed ← close s.out_closed
  done ← complete s.shutdown
  some (record {
    controls = (del_control id s.controls).0;
    in_closed = in_closed;
    out_closed = out_closed;
    conn_open = false;
    registry = shutdown_all tunnels s.registry;
    pool = drain s.pool;
    shutdown = done;
  })

-- ===== src/Client/Model.antt =====
-- The model of the client, `src/ngrok/client/model.go`: its control connection and its proxies.
-- What the network gives is an argument. `none` is a panic, which `control` recovers from.
pub mod Heartbeat
pub mod Backoff
pub mod Answers
pub mod Tunnels
pub mod Proxy
use ngrok.Prelude.{
  ℕ, suc, Bool, true, false, not, List, [], ◌∷◌, ◌++◌, map, Option, none, some, if◌then◌else◌,
  ◌>>=◌,
}
use ngrok.Prelude.Maps.{Map, get, put}
use ngrok.Prelude.Text.{Text, text, text_dec, same, join}
use ngrok.Msg.{
  Auth, AuthResp, ReqTunnel, NewTunnel, Message, auth, req_tunnel, new_tunnel, req_proxy, pong,
}
use ngrok.Client.Config.{TunnelConfiguration}

-- The two protocols that the client speaks to local servers.
pub data Protocol : Type 0 where
  http tcp : Protocol

-- `protoMap`
unfoldable pub proto_map : Text → Option Protocol
proto_map name =
    if same name (text "http")
    then some http
    else if same name (text "https")
    then some http
    else if same name (text "tcp")
    then some tcp
    else none

pub record ClientTunnel : Type 0 where
  pub public_url : Text
  pub local_addr : Text
  pub protocol : Option Protocol

pub data ConnStatus : Type 0 where
  conn_connecting conn_reconnecting conn_online : ConnStatus

-- The model, the proxies it has started, and the messages with which it has shut the controller down.
pub record ClientModel : Type 0 where
  pub id : Text
  pub server_version : Text
  pub tunnels : Map Text ClientTunnel
  pub conn_status : ConnStatus
  pub last_pong : ℕ
  pub proxies : ℕ
  pub shutdowns : List Text

-- The requests by their ids.
abbrev pub Requests : Type 0
Requests = Map Text TunnelConfiguration

-- `reqIdToTunnelConfig[m.ReqId].Protocols[m.Protocol]`; a missing protocol gives the empty text.
unfoldable pub local_address : TunnelConfiguration → Text → Text
local_address config protocol = elim (get text_dec protocol config.protocols) [
  | none ↦ []
  | some a ↦ a
]

-- The case `NewTunnel` of the loop of `control`; an id that is not known is a nil pointer.
unfoldable pub handle_new_tunnel : Requests → NewTunnel → ClientModel → Option ClientModel
handle_new_tunnel reqs m c =
    if not (same m.error [])
    then some (record c {
      shutdowns = c.shutdowns ++ (text "Server failed to allocate tunnel: " ++ m.error) ∷ [];
    })
    else elim (get text_dec m.req_id reqs) [
      | none ↦ none
      | some config ↦
          let t : ClientTunnel = record {
            public_url = m.url;
            local_addr = local_address config m.protocol;
            protocol = proto_map m.protocol;
          } in
          some (record c { tunnels = put text_dec m.url t c.tunnels; conn_status = conn_online })
    ]

-- One round of the loop, at a time.
unfoldable pub handle : Requests → ℕ → Message → ClientModel → Option ClientModel
handle reqs now m c = elim m [
  | req_proxy ↦ some (record c { proxies = suc c.proxies })
  | pong ↦ some (record c { last_pong = now })
  | new_tunnel t ↦ handle_new_tunnel reqs t c
  | _ ↦ some c
]

-- The loop, until the connection ends or a panic: the model that is left, which the panic keeps.
unfoldable pub handle_all : Requests → List (ℕ × Message) → ClientModel → ClientModel
handle_all reqs [] c = c
handle_all reqs ((now, m) ∷ ms) c = elim (handle reqs now m c) [
  | none ↦ c
  | some c' ↦ handle_all reqs ms c'
]

-- The request for a tunnel, with a fresh id.
unfoldable pub request : Text → TunnelConfiguration → ReqTunnel
request req_id config = record {
  req_id = req_id;
  protocol = join (text "+") (map (λ e. e.0) config.protocols);
  hostname = config.hostname;
  subdomain = config.subdomain;
  http_auth = config.http_auth;
  remote_port = config.remote_port;
}

-- The requests for all the tunnels, and the map from their ids. Ids are numbered from `n` on.
unfoldable pub request_all :
    (ℕ → Text) → ℕ → List TunnelConfiguration → Requests → List Message × Requests
request_all ids n [] reqs = ([], reqs)
request_all ids n (config ∷ configs) reqs =
    let (sent, reqs') = request_all ids (suc n) configs (put text_dec (ids n) config reqs) in
    (req_tunnel (request (ids n) config) ∷ sent, reqs')

-- What `control` takes from outside: whether the server can be reached, its answer to the
-- authentication, fresh ids, whether the requests can be written, the time, and the messages that
-- arrive before the connection ends.
pub record Network : Type 0 where
  pub reachable : Bool
  pub answer : Option AuthResp
  pub ids : ℕ → Text
  pub writable : Bool
  pub now : ℕ
  pub messages : List (ℕ × Message)

-- `control`, after the authentication.
unfoldable pub serve : Network → List TunnelConfiguration → AuthResp → ClientModel → ClientModel
serve n configs resp c =
    let c' = record c { id = resp.client_id; server_version = resp.mm_version } in
    let (sent, reqs) = request_all n.ids 0 configs [] in
    if n.writable then handle_all reqs n.messages (record c' { last_pong = n.now }) else c'

-- `control`: the model that it leaves behind.
unfoldable pub control : Network → List TunnelConfiguration → ClientModel → ClientModel
control n configs c = if not n.reachable then c else elim n.answer [
  | none ↦ c
  | some resp ↦
      if not (same resp.error [])
      then record c {
        shutdowns = c.shutdowns ++ (text "Failed to authenticate to server: " ++ resp.error) ∷ [];
      }
      else serve n configs resp c
]

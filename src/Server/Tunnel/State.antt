-- ===== src/Server/Tunnel/State.antt =====
-- The state that opening a tunnel works on, in `src/ngrok/server/tunnel.go`. The globals that the
-- functions read are a record; what the operating system and the random numbers give are arguments.
use ngrok.Prelude.{ℕ, Bool, false, List, Option, none, some}
use ngrok.Prelude.Maps.{Map}
use ngrok.Prelude.Text.{Text}
use ngrok.Msg.{ReqTunnel}
use ngrok.Server.Registry.{TunnelRegistry, Owner}

-- The reasons for which a tunnel is refused.
pub data Refusal : Type 0 where
  no_domains no_default_port invalid_hostname outside_domains invalid_subdomain : Refusal
  already_registered no_free_url cannot_bind bound_not_registered : Refusal
  remote_ports_disabled not_listening unsupported_protocol : Refusal

-- A public listener: its port, and whether it is open.
pub record TcpListener : Type 0 where
  pub port : ℕ
  pub is_open : Bool

-- The client of a tunnel: what is read of its control connection.
pub record Client : Type 0 where
  pub ip : Text
  pub id : Text

pub record Tunnel : Type 0 where
  pub address : ℕ
  pub req : ReqTunnel
  pub url : Text
  pub urls : List Text
  pub listener : Option TcpListener
  pub client : Client
  pub closing : Bool

-- Options, listeners and domains of the server.
pub record Globals : Type 0 where
  pub vhost_env : Text
  pub domains : List Text
  pub listeners : Map Text ℕ
  pub allow_remote_ports : Bool

-- What a call takes from outside: the time, the results of `rand.Int31` in order, and the port that
-- the system binds for a port that is asked for.
pub record Outside : Type 0 where
  pub now : ℕ
  pub random : ℕ → ℕ
  pub bind : ℕ → Option ℕ

-- The result of opening a tunnel: whether it is refused, and whether it was counted by the metrics.
pub record Opened : Type 0 where
  pub registry : TunnelRegistry
  pub tunnel : Tunnel
  pub refusal : Option Refusal
  pub counted : Bool

abbrev pub owner : Tunnel → Owner
owner t = record {
  tunnel = t.address;
  protocol = t.req.protocol;
  client_ip = t.client.ip;
  client_id = t.client.id;
}

abbrev pub refused : TunnelRegistry → Tunnel → Refusal → Opened
refused r t e = record { registry = r; tunnel = t; refusal = some e; counted = false }

abbrev pub accepted : TunnelRegistry → Tunnel → Opened
accepted r t = record { registry = r; tunnel = t; refusal = none; counted = false }

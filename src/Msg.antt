-- ===== src/Msg.antt =====
-- The messages of `src/ngrok/msg/msg.go`. `RegProxy` and the others are structs; the interface
-- `Message` is their sum.
pub mod Frame
pub mod Pack
use ngrok.Prelude.{ℕ}
use ngrok.Prelude.Text.{Text}

pub record Auth : Type 0 where
  pub version : Text
  pub mm_version : Text
  pub user : Text
  pub password : Text
  pub os : Text
  pub arch : Text
  pub client_id : Text

pub record AuthResp : Type 0 where
  pub version : Text
  pub mm_version : Text
  pub client_id : Text
  pub error : Text

pub record ReqTunnel : Type 0 where
  pub req_id : Text
  pub protocol : Text
  pub hostname : Text
  pub subdomain : Text
  pub http_auth : Text
  pub remote_port : ℕ

pub record NewTunnel : Type 0 where
  pub req_id : Text
  pub url : Text
  pub protocol : Text
  pub error : Text

pub record RegProxy : Type 0 where
  pub client_id : Text

pub record StartProxy : Type 0 where
  pub url : Text
  pub client_addr : Text

pub data Message : Type 0 where
  auth : Auth → Message
  auth_resp : AuthResp → Message
  req_tunnel : ReqTunnel → Message
  new_tunnel : NewTunnel → Message
  reg_proxy : RegProxy → Message
  req_proxy : Message
  start_proxy : StartProxy → Message
  ping : Message
  pong : Message

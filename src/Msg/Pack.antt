-- ===== src/Msg/Pack.antt =====
-- `src/ngrok/msg/pack.go`, and `ReadMsg` and `WriteMsg` of `src/ngrok/msg/conn.go`. The encoding of
-- JSON is Go's `encoding/json`: a document is the raw text of a value.
use ngrok.Prelude.{◌≤◌, ◌<◌, [], ◌∷◌, ◌++◌, Option, none, some, ◌≡◌, refl, length}
use ngrok.Prelude.Text.{Text, text, text_dec}
use ngrok.Prelude.Maps.{Map, get}
use ngrok.Msg.{
  Message, auth, auth_resp, req_tunnel, new_tunnel, reg_proxy, req_proxy, start_proxy, ping, pong,
}
use ngrok.Msg.Frame.{
  Bytes, Result, ok, err, malformed, ◌>>=◌, read_msg_shared, write_frame, max_msg_size,
}
use ngrok.Msg.Frame.RoundTrip.{read-write_frame}

-- The struct types that `TypeMap` holds.
pub data Kind : Type 0 where
  auth_kind auth_resp_kind req_tunnel_kind new_tunnel_kind reg_proxy_kind : Kind
  req_proxy_kind start_proxy_kind ping_kind pong_kind : Kind

abbrev pub kind : Message → Kind
kind (auth m) = auth_kind
kind (auth_resp m) = auth_resp_kind
kind (req_tunnel m) = req_tunnel_kind
kind (new_tunnel m) = new_tunnel_kind
kind (reg_proxy m) = reg_proxy_kind
kind req_proxy = req_proxy_kind
kind (start_proxy m) = start_proxy_kind
kind ping = ping_kind
kind pong = pong_kind

-- `reflect.TypeOf(payload).Elem().Name()`
unfoldable pub type_name : Kind → Text
type_name auth_kind = text "Auth"
type_name auth_resp_kind = text "AuthResp"
type_name req_tunnel_kind = text "ReqTunnel"
type_name new_tunnel_kind = text "NewTunnel"
type_name reg_proxy_kind = text "RegProxy"
type_name req_proxy_kind = text "ReqProxy"
type_name start_proxy_kind = text "StartProxy"
type_name ping_kind = text "Ping"
type_name pong_kind = text "Pong"

-- `TypeMap`
unfoldable pub type_map : Map Text Kind
type_map =
    (text "Auth", auth_kind)
    ∷ (text "AuthResp", auth_resp_kind)
    ∷ (text "ReqTunnel", req_tunnel_kind)
    ∷ (text "NewTunnel", new_tunnel_kind)
    ∷ (text "RegProxy", reg_proxy_kind)
    ∷ (text "ReqProxy", req_proxy_kind)
    ∷ (text "StartProxy", start_proxy_kind)
    ∷ (text "Ping", ping_kind)
    ∷ (text "Pong", pong_kind)
    ∷ []

type_map-type_name : (k : Kind) → get text_dec (type_name k) type_map ≡ some k
unfolding get type_map type_name text_dec
type_map-type_name auth_kind = refl
type_map-type_name auth_resp_kind = refl
type_map-type_name req_tunnel_kind = refl
type_map-type_name new_tunnel_kind = refl
type_map-type_name reg_proxy_kind = refl
type_map-type_name req_proxy_kind = refl
type_map-type_name start_proxy_kind = refl
type_map-type_name ping_kind = refl
type_map-type_name pong_kind = refl

-- `json.Marshal` and `json.Unmarshal` at the types that the package uses: the payloads, and the
-- envelope of a type name and a raw payload.
pub record Json : Type 1 where
  pub Raw : Type 0
  pub marshal : Message → Raw
  pub unmarshal : Kind → Raw → Option Message
  pub marshal_envelope : Text → Raw → Bytes
  pub unmarshal_envelope : Bytes → Option (Text × Raw)
  pub unmarshal-marshal : (m : Message) → unmarshal (kind m) (marshal m) ≡ some m
  pub envelope-inverse :
      (name : Text) (raw : Raw) → unmarshal_envelope (marshal_envelope name raw) ≡ some (name, raw)

module _ (json : Json) where
  open json use {Raw, marshal, unmarshal, marshal_envelope, unmarshal_envelope}

  unfoldable pub pack : Message → Bytes
  pack m = marshal_envelope (type_name (kind m)) (marshal m)

  -- The payload, once the type is known.
  unfoldable pub unpack_payload : Kind → Raw → Result Message
  unpack_payload k raw = elim (unmarshal k raw) [ none ↦ err malformed | some m ↦ ok m ]

  -- `unpack` with no message given: the type is that of the envelope.
  unfoldable pub unpack : Bytes → Result Message
  unpack buffer = elim (unmarshal_envelope buffer) [
    | none ↦ err malformed
    | some (name, raw) ↦ elim (get text_dec name type_map) [
      | none ↦ err malformed
      | some k ↦ unpack_payload k raw
    ]
  ]

  -- `UnpackInto`: the type is that of the message given.
  unfoldable pub unpack_into : Kind → Bytes → Result Message
  unpack_into k buffer = elim (unmarshal_envelope buffer) [
    | none ↦ err malformed
    | some (name, raw) ↦ unpack_payload k raw
  ]

  unfoldable pub read_msg : Bytes → Result (Message × Bytes)
  read_msg s = do (buffer, rest) ← read_msg_shared s; m ← unpack buffer; ok (m, rest)

  unfoldable pub read_msg_into : Kind → Bytes → Result (Message × Bytes)
  read_msg_into k s = do (buffer, rest) ← read_msg_shared s; m ← unpack_into k buffer; ok (m, rest)

  -- The bytes that `WriteMsg` puts on the connection.
  unfoldable pub write_msg : Message → Bytes
  write_msg m = write_frame (pack m)

  -- A message that is packed is unpacked as itself, whatever its type.
  pub unpack-pack : (m : Message) → unpack (pack m) ≡ ok m
  unfolding unpack pack unpack_payload
  unpack-pack m = rw (
    json.envelope-inverse (type_name (kind m)) (marshal m),
    unpack,
    type_map-type_name (kind m),
    unpack_payload,
    json.unmarshal-marshal m,
  )

  -- A message whose packed form has at most 65536 bytes is read from a connection as it was written,
  -- and what follows it is left.
  pub read_msg-write_msg :
      (m : Message) (rest : Bytes)
      → 0 < length (pack m)
      → length (pack m) ≤ max_msg_size
      → read_msg (write_msg m ++ rest) ≡ ok (m, rest)
  unfolding read_msg write_msg
  read_msg-write_msg m rest full short =
      rw (read-write_frame (pack m) rest full short, unpack-pack m)

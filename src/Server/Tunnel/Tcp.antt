-- ===== src/Server/Tunnel/Tcp.antt =====
-- The case `tcp` of `NewTunnel` in `src/ngrok/server/tunnel.go`. `none` is a panic: a fault of the
-- cache, or an index out of range.
use ngrok.Prelude.{
  ℕ, true, false, not, ◌&&◌, List, [], ◌∷◌, ◌++◌, Option, none, some, ◌==◌, if◌then◌else◌, ◌>>=◌,
}
use ngrok.Prelude.Text.{Text, text, same, split, decimal}
use ngrok.Prelude.Numbers.{atoi}
use ngrok.Server.Registry.{TunnelRegistry, register_and_cache, get_cached_registration}
use ngrok.Server.Tunnel.State.{
  cannot_bind, bound_not_registered, Tunnel, Globals, Outside, Opened, owner, refused, accepted,
}

-- The closure `bindTcp` of `NewTunnel`, once the system has bound a port.
unfoldable pub bound_tcp : Outside → Text → ℕ → TunnelRegistry → Tunnel → Option Opened
bound_tcp out domain port r t =
    let host = domain ++ b':' ∷ decimal port in
    let url = text "tcp://" ++ host in
    do
      let t' = record t { url = url; listener = some (record { port = port; is_open = true }) }
      (r', ok) ← register_and_cache out.now url (owner t') r
      elim ok [
        | true ↦ some (accepted r' (record t' { urls = t.urls ++ url ∷ [] }))
        | false ↦ some (
            refused r' (record t' { listener = some (record { port = port; is_open = false }) })
              bound_not_registered)
      ]

unfoldable pub bind_tcp : Globals → Outside → ℕ → TunnelRegistry → Tunnel → Option Opened
bind_tcp g out port r t = elim (out.bind port) [
  | none ↦ some (refused r (record t { listener = none }) cannot_bind)
  | some p ↦ elim g.domains [ [] ↦ none | domain ∷ rest ↦ bound_tcp out domain p r t ]
]

-- `parts[len(parts)-1]` of a text that is split at its colons.
unfoldable pub last_part : List Text → Text
last_part [] = []
last_part (p ∷ []) = p
last_part (p ∷ q ∷ ps) = last_part (q ∷ ps)

-- Another try at the port that the client had before. A negative port cannot be bound.
unfoldable pub bind_cached : Globals → Outside → Text → TunnelRegistry → Tunnel → Option Opened
bind_cached g out cached r t = elim (atoi (last_part (split b':' cached))) [
  | none ↦ some (refused r t cannot_bind)
  | some (negative, port) ↦
      if negative && not (port == 0)
      then some (refused r (record t { listener = none }) cannot_bind)
      else bind_tcp g out port r t
]

-- The end of the case `tcp`: the cached port, if there is one, and otherwise any port.
unfoldable pub open_tcp : Globals → Outside → TunnelRegistry → Tunnel → Option Opened
open_tcp g out r t = do
  (r', cached) ← get_cached_registration out.now (owner t) r
  if same cached [] then bind_tcp g out 0 r' t else (do
    tried ← bind_cached g out cached r' t
    elim tried.refusal [
      | none ↦ some tried
      | some e ↦ bind_tcp g out 0 tried.registry tried.tunnel
    ])

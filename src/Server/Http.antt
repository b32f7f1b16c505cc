-- ===== src/Server/Http.antt =====
-- Public connections: `httpHandler` of `src/ngrok/server/http.go` and the choice of a proxy
-- connection in `HandlePublicConnection` of `src/ngrok/server/tunnel.go`. The parser of requests is
-- `net/http`, whose result is an argument.
use mathlib.Core.Path.{subst}
use ngrok.Prelude.{
  ℕ, zero, suc, ◌+◌, not, ◌&&◌, List, [], ◌∷◌, ◌++◌, ◌≡◌, ◌↔◌, ◌⊎◌, refl, sym, ap, Option, none,
  some, if◌then◌else◌, length, length-append, arith, Bool-cases, inl, inr,
}
use ngrok.Prelude.Text.{Text, text, same, to_lower, decimal}
use ngrok.Prelude.Affixes.{same_iff}
use ngrok.Server.Registry.{TunnelRegistry, get_tunnel}

-- What the handler reads of a request.
pub record Request : Type 0 where
  pub host : Text
  pub authorization : Text

-- What is done with a connection: an answer is written, or a tunnel takes it.
pub data Served : Type 0 where
  answered : Text → Served
  tunnelled : ℕ → Served

abbrev newline : ℕ
newline = 10

abbrev pub not_authorized : Text
not_authorized =
    text
      "HTTP/1.0 401 Not Authorized\nWWW-Authenticate: Basic realm=\"ngrok\"\nContent-Length: 23\n\nAuthorization required\n"

abbrev pub bad_request : Text
bad_request = text "HTTP/1.0 400 Bad Request\nContent-Length: 12\n\nBad Request\n"

-- The body of the answer `NotFound`, and the answer.
unfoldable pub not_found_body : Text → Text
not_found_body host = text "Tunnel " ++ (host ++ text " not found\n")

unfoldable pub not_found : Text → Text
not_found host =
    text "HTTP/1.0 404 Not Found\nContent-Length: "
    ++ (decimal (length host + 18) ++ (text "\n\n" ++ not_found_body host))

-- The check of the credentials in `httpHandler`: those of the tunnel and those of the request.
unfoldable pub authorize : Text → Text → ℕ → Served
authorize wanted given t =
    if not (same wanted []) && not (same given wanted) then answered not_authorized else tunnelled t

-- `httpHandler`. `auth_of` gives the credentials of a tunnel at an address.
unfoldable pub http_handler : (ℕ → Text) → TunnelRegistry → Text → Option Request → Served
http_handler auth_of r proto none = answered bad_request
http_handler auth_of r proto (some req) =
    let host = to_lower req.host in
    elim (get_tunnel (proto ++ (text "://" ++ host)) r) [
      | none ↦ answered (not_found host)
      | some t ↦ authorize (auth_of t) req.authorization t
    ]

-- One round of the loop of `HandlePublicConnection`: `GetProxy` may give no connection, or one to
-- which the message `StartProxy` is written, with or without success.
pub data Attempt : Type 0 where
  no_connection : Attempt
  write_failed written : ℕ → Attempt

-- The result of the loop: a connection to use, or none. The last list is the connections that were
-- closed because the message could not be written.
unfoldable pub start_proxy : ℕ → List Attempt → Option ℕ × List ℕ
start_proxy zero tries = (none, [])
start_proxy (suc n) [] = (none, [])
start_proxy (suc n) (no_connection ∷ tries) = (none, [])
start_proxy (suc n) (write_failed conn ∷ tries) =
    let (result, closed) = start_proxy n tries in (result, conn ∷ closed)
start_proxy (suc n) (written conn ∷ tries) = (some conn, [])

-- `2 * proxyMaxPoolSize` rounds.
unfoldable pub handle_public_connection : List Attempt → Option ℕ × List ℕ
handle_public_connection tries = start_proxy 20 tries

-- The header of the answer for a missing tunnel gives the length of its body.
pub not_found_body-length : (host : Text) → length (not_found_body host) ≡ length host + 18
unfolding not_found_body
not_found_body-length host = omega (arith, length-append host (text " not found\n"))

authorize_yes :
    (wanted given : Text) (t : ℕ)
    → (wanted ≡ []) ⊎ (given ≡ wanted)
    → authorize wanted given t ≡ tunnelled t
unfolding authorize
authorize_yes wanted given t (inl e) = rw ((same_iff wanted []).1 e) refl
authorize_yes wanted given t (inr e) = ground (arith, (same_iff given wanted).1 e)

authorize_no :
    (wanted given : Text) (t u : ℕ)
    → authorize wanted given u ≡ tunnelled t
    → (u ≡ t) × ((wanted ≡ []) ⊎ (given ≡ wanted))
unfolding authorize
authorize_no wanted given t u h = elim (Bool-cases (same wanted [])) [
  | inl none_wanted ↦ (ground (arith, none_wanted), inl ((same_iff wanted []).0 none_wanted))
  | inr some_wanted ↦ elim (Bool-cases (same given wanted)) [
    | inl right ↦ (ground (arith, right), inr ((same_iff given wanted).0 right))
    | inr wrong ↦ ground (arith, some_wanted, wrong)
  ]
]

-- A request reaches a tunnel exactly if the registry maps its protocol and its host, in lower case, to
-- the tunnel, and the tunnel asks for no credentials or the request carries them.
pub http_handler_iff :
    (auth_of : ℕ → Text) (r : TunnelRegistry) (proto : Text) (req : Request) (t : ℕ)
    → (http_handler auth_of r proto (some req) ≡ tunnelled t) ↔ (
        (get_tunnel (proto ++ (text "://" ++ to_lower req.host)) r ≡ some t)
        × ((auth_of t ≡ []) ⊎ (req.authorization ≡ auth_of t)))
unfolding http_handler
http_handler_iff auth_of r proto req t =
    go (get_tunnel (proto ++ (text "://" ++ to_lower req.host)) r) refl
  where
    go :
        (found : Option ℕ)
        → get_tunnel (proto ++ (text "://" ++ to_lower req.host)) r ≡ found
        → (http_handler auth_of r proto (some req) ≡ tunnelled t)
          ↔ ((found ≡ some t) × ((auth_of t ≡ []) ⊎ (req.authorization ≡ auth_of t)))
    go none e = rw (e, http_handler) (λ h. absurd cc, λ h. absurd cc)
    go (some u) e =
        rw (e, http_handler)
          (
            λ h.
                let (e', fits) = authorize_no (auth_of u) req.authorization t u h in
                (
                  ap some e',
                  subst (λ x. (auth_of x ≡ []) ⊎ (req.authorization ≡ auth_of x)) e' fits,
                ),
            λ h.
                let e' : u ≡ t = cc h.0 in
                subst (λ x. authorize (auth_of x) req.authorization x ≡ tunnelled t) (sym e')
                  (authorize_yes (auth_of t) req.authorization t h.1),
          )

-- ===== src/Client/Config/Address.antt =====
-- Addresses and protocols in a configuration: `normalizeAddress`, `validateProtocol` and
-- `isLoopbackAddress` of `src/ngrok/client/config.go`, and `serverName` of `src/ngrok/client/model.go`.
use ngrok.Prelude.{
  ℕ, suc, Bool, true, false, ◌||◌, [], ◌∷◌, ◌++◌, ◌≡◌, ◌≢◌, refl, ap, Option, none, some,
  if◌then◌else◌, length, take, drop, arith, Bool-cases, inl, inr,
}
use ngrok.Prelude.Text.{Text, text, same}
use ngrok.Prelude.Affixes.{same-false_iff}
use ngrok.Prelude.Numbers.{atoi}
use ngrok.Prelude.HostPort.{
  split_host_port, last_index_byte, contains_byte, plain, bracketed, index_byte,
}
use ngrok.Client.Config.{Result, ok, err, invalid_address}

-- A text that is a number is a port.
unfoldable pub with_colon : Text → Text
with_colon addr = elim (atoi addr) [ none ↦ addr | some n ↦ b':' ∷ addr ]

-- `fmt.Sprintf("%s:%s", host, port)`, with the host that stands for none.
unfoldable pub join_address : Text → Text → Text
join_address host port = (if same host [] then text "127.0.0.1" else host) ++ b':' ∷ port

unfoldable pub normalize_address : Text → Result Text
normalize_address addr = elim (split_host_port (with_colon addr)) [
  | none ↦ err (invalid_address addr)
  | some (host, port) ↦ ok (join_address host port)
]

unfoldable pub validate_protocol : Text → Bool
validate_protocol proto =
    same proto (text "http")
    || same proto (text "https")
    || same proto (text "http+https")
    || same proto (text "tcp")

-- `isLoopbackAddress`, given whether a host is the number of a loopback address.
unfoldable pub is_loopback_address : (Text → Bool) → Text → Bool
is_loopback_address is_loopback addr = elim (split_host_port addr) [
  | none ↦ false
  | some (host, port) ↦ is_loopback host
]

-- `serverName`: `none` is a panic.
unfoldable pub server_name : Text → Option Text
server_name addr = elim (split_host_port addr) [ none ↦ none | some (host, port) ↦ some host ]

-- An address has a host and a port.
pub record IsAddress (a : Text) : Type 0 where
  pub host : Text
  pub port : Text
  pub parts : a ≡ host ++ b':' ∷ port
  pub has_host : host ≢ []

-- An address that is accepted has a host, which is 127.0.0.1 if none is given.
pub normalize_address-IsAddress : (addr a : Text) → normalize_address addr ≡ ok a → IsAddress a
unfolding normalize_address join_address
normalize_address-IsAddress addr a h = go (split_host_port (with_colon addr)) refl
  where
    go : (r : Option (Text × Text)) → split_host_port (with_colon addr) ≡ r → IsAddress a
    go none e = absurd (cc)
    go (some (host, port)) e = elim (Bool-cases (same host [])) [
      | inl bare ↦ record {
        host = text "127.0.0.1";
        port = port;
        parts = ground (arith, bare, e, h);
        has_host = λ q. absurd cc;
      }
      | inr given ↦ record {
        host = host;
        port = port;
        parts = ground (arith, given, e, h);
        has_host = (same-false_iff host []).0 given;
      }
    ]

last_index_byte_absent : (s : Text) → contains_byte s b':' ≡ false → last_index_byte s b':' ≡ none
unfolding contains_byte last_index_byte
last_index_byte_absent [] h = refl
last_index_byte_absent (c ∷ s) h = ground (arith, last_index_byte_absent s)

last_index_byte-append :
    (host port : Text)
    → contains_byte port b':' ≡ false
    → last_index_byte (host ++ b':' ∷ port) b':' ≡ some (length host)
unfolding last_index_byte
last_index_byte-append [] port h = ground (arith, last_index_byte_absent port h)
last_index_byte-append (c ∷ host) port h = ground (arith, last_index_byte-append host port h)

take-append : (xs ys : Text) → take (length xs) (xs ++ ys) ≡ xs
take-append [] ys = refl
take-append (x ∷ xs) ys = ap (λ l. x ∷ l) (take-append xs ys)

index_byte-append :
    (b : ℕ) (s rest : Text)
    → contains_byte s b ≡ false
    → index_byte (s ++ b ∷ rest) b ≡ some (length s)
unfolding contains_byte index_byte
index_byte-append b [] rest h = ground arith
index_byte-append b (c ∷ s) rest h = ground (arith, index_byte-append b s rest)

contains_byte-append :
    (b : ℕ) (s t : Text) → contains_byte (s ++ t) b ≡ (contains_byte s b || contains_byte t b)
unfolding contains_byte
contains_byte-append b [] t = refl
contains_byte-append b (c ∷ s) t = ground (arith, contains_byte-append b s t)

drop_past : (s rest : Text) (b : ℕ) → drop (suc (length s)) (s ++ b ∷ rest) ≡ rest
drop_past [] rest b = refl
drop_past (c ∷ s) rest b = drop_past s rest b

plain_refuses :
    (host port : Text)
    → contains_byte host b':' ≡ true
    → plain (host ++ b':' ∷ port) (length host) ≡ none
unfolding plain
plain_refuses host port h = rw (take-append host (b':' ∷ port), h) refl

-- A host with colons and no brackets is refused.
bare_colons :
    (c : ℕ) (host port : Text)
    → c ≢ b'['
    → contains_byte (c ∷ host) b':' ≡ true
    → contains_byte port b':' ≡ false
    → split_host_port ((c ∷ host) ++ b':' ∷ port) ≡ none
unfolding split_host_port
bare_colons c host port bare colons plain_port =
    ground
      (arith, last_index_byte-append host port plain_port, plain_refuses (c ∷ host) port colons)

-- A text has neither bracket.
abbrev pub Unbracketed : Text → Type 0
Unbracketed s = (contains_byte s b'[' ≡ false) × (contains_byte s b']' ≡ false)

drop_two : (s port : Text) → drop (suc (suc (length s))) (s ++ b']' ∷ b':' ∷ port) ≡ port
drop_two [] port = refl
drop_two (c ∷ s) port = drop_two s port

last_index_byte_bracket :
    (s port : Text)
    → contains_byte port b':' ≡ false
    → last_index_byte (s ++ b']' ∷ b':' ∷ port) b':' ≡ some (suc (length s))
unfolding last_index_byte
last_index_byte_bracket [] port h = ground (arith, last_index_byte_absent port h)
last_index_byte_bracket (c ∷ s) port h = ground (arith, last_index_byte_bracket s port h)

first_differs : (b c : ℕ) (s : Text) → contains_byte (c ∷ s) b ≡ false → c ≢ b
unfolding contains_byte
first_differs b c s h e = ground (arith, h, e)

-- A host in brackets gives up its brackets.
bracketed_lem :
    (host port : Text)
    → Unbracketed host
    → Unbracketed port
    → bracketed (b'[' ∷ (host ++ b']' ∷ b':' ∷ port)) (suc (suc (length host))) ≡ some (host, port)
unfolding bracketed contains_byte
bracketed_lem host port h p =
    let no_open : contains_byte (host ++ b']' ∷ b':' ∷ port) b'[' ≡ false =
      ground (arith, contains_byte-append b'[' host (b']' ∷ b':' ∷ port), h, p) in
    let no_close : contains_byte (drop (suc (length host)) (host ++ b']' ∷ b':' ∷ port)) b']'
        ≡ false =
      rw (drop_past host (b':' ∷ port) b']') p.1 in
    ground (
      arith,
      index_byte-append b']' host (b':' ∷ port) h.1,
      no_open,
      no_close,
      take-append host (b']' ∷ b':' ∷ port),
      drop_two host port,
    )

join_address_given : (host port : Text) → host ≢ [] → join_address host port ≡ host ++ b':' ∷ port
unfolding join_address
join_address_given host port given = rw ((same-false_iff host []).1 given) refl

split_brackets :
    (host port : Text)
    → Unbracketed host
    → Unbracketed port
    → contains_byte port b':' ≡ false
    → split_host_port (b'[' ∷ (host ++ b']' ∷ b':' ∷ port)) ≡ some (host, port)
unfolding split_host_port
split_brackets host port h p plain_port =
    ground (arith, last_index_byte_bracket host port plain_port, bracketed_lem host port h p)

-- An address whose host is a number with colons, in brackets, loses the brackets when it is
-- normalised; `serverName` then panics on it. The host and the port have no bracket, and the port no
-- colon.
pub server_name-normalize_address :
    (c : ℕ) (host port : Text)
    → Unbracketed (c ∷ host)
    → Unbracketed port
    → contains_byte (c ∷ host) b':' ≡ true
    → contains_byte port b':' ≡ false
    → (normalize_address (b'[' ∷ ((c ∷ host) ++ b']' ∷ b':' ∷ port))
        ≡ ok ((c ∷ host) ++ b':' ∷ port))
      × (server_name ((c ∷ host) ++ b':' ∷ port) ≡ none)
unfolding server_name normalize_address with_colon atoi
server_name-normalize_address c host port h p colons plain_port = (
  rw (split_brackets (c ∷ host) port h p plain_port, normalize_address, with_colon)
      (ap ok (join_address_given (c ∷ host) port (λ e. absurd cc))),
  rw (bare_colons c host port (first_differs b'[' c host h.0) colons plain_port, server_name) refl,
)

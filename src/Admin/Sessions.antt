-- ===== src/Admin/Sessions.antt =====
-- The administrator, the sessions and the pages that they guard, `src/ngrok/admin/main.go`. The time,
-- random texts and the functions of `crypto` and `encoding` are arguments; times are nanoseconds.
pub mod Passwords
pub mod Granted
use ngrok.Prelude.{
  ℕ, zero, suc, ◌+◌, ◌-◌, ◌*◌, ◌/◌, ◌%◌, ◌^◌, Bool, true, false, not, ◌||◌, List, [], ◌∷◌, ◌++◌,
  Option, none, some, if◌then◌else◌, length, take, ltb,
}
use ngrok.Prelude.Maps.{Map, get, put, delete}
use ngrok.Prelude.Text.{Text, text, text_dec, same, trim_space}

-- `hmac.New(sha256.New, key)` with a message, and base64.
pub record Crypto : Type 0 where
  pub hmac : Text → Text → Text
  pub encode : Text → Text
  pub decode : Text → Option Text

-- `a ^ b` on numbers below `2 ^ n`.
unfoldable pub xor : ℕ → ℕ → ℕ → ℕ
xor zero a b = 0
xor (suc n) a b = (a % 2 + b % 2) % 2 + 2 * xor n (a / 2) (b / 2)

-- `t[j] ^= u[j]` for all of `t`; bytes that `u` has not are an index out of range, which cannot
-- happen with two sums of the same length.
unfoldable pub xor_all : Text → Text → Text
xor_all [] u = []
xor_all (a ∷ t) [] = a ∷ t
xor_all (a ∷ t) (b ∷ u) = xor 8 a b ∷ xor_all t u

-- The number of a block in four bytes.
unfoldable pub block_bytes : ℕ → Text
block_bytes block =
    block / 2 ^ 24 % 256 ∷ block / 2 ^ 16 % 256 ∷ block / 2 ^ 8 % 256 ∷ block % 256 ∷ []

-- The inner loop, with the sum `u` and the block `t` so far.
unfoldable pub iterate : Crypto → Text → ℕ → Text → Text → Text
iterate k password zero u t = t
iterate k password (suc n) u t =
    let u' = k.hmac password u in iterate k password n u' (xor_all t u')

-- The blocks from a number on.
unfoldable pub blocks : Crypto → Text → Text → ℕ → ℕ → ℕ → Text
blocks k password salt iter zero block = []
blocks k password salt iter (suc n) block =
    let u = k.hmac password (salt ++ block_bytes block) in
    iterate k password (iter - 1) u u ++ blocks k password salt iter n (suc block)

unfoldable pub pbkdf2 : Crypto → Text → Text → ℕ → ℕ → Text
pbkdf2 k password salt iter key_len =
    take key_len (blocks k password salt iter ((key_len + 32 - 1) / 32) 1)

pub record AdminState : Type 0 where
  pub username : Text
  pub salt : Text
  pub password_hash : Text
  pub iterations : ℕ

-- `app`, with the times at which its sessions end.
pub record App : Type 0 where
  pub state : AdminState
  pub setup_key : Text
  pub sessions : Map Text ℕ

abbrev pub password_iterations : ℕ
password_iterations = 210000

abbrev pub session_time : ℕ
session_time = 12 * 3600 * 1000000000

-- `newAdminState`, with the salt.
unfoldable pub new_admin_state : Crypto → Text → Text → Text → AdminState
new_admin_state k salt username password = record {
  username = username;
  salt = k.encode salt;
  password_hash = k.encode (pbkdf2 k password salt password_iterations 32);
  iterations = password_iterations;
}

unfoldable pub has_admin : App → Bool
has_admin a = not (same a.state.username [])

unfoldable pub check_password : Crypto → App → Text → Text → Bool
check_password k a username password =
    if not (same username a.state.username) || same a.state.username []
    then false
    else elim (k.decode a.state.salt) [
      | none ↦ false
      | some salt ↦ elim (k.decode a.state.password_hash) [
        | none ↦ false
        | some want ↦ same (pbkdf2 k password salt a.state.iterations (length want)) want
      ]
    ]

-- `setSession`, with the identifier that is drawn.
unfoldable pub set_session : Text → ℕ → App → App
set_session id now a = record a { sessions = put text_dec id (now + session_time) a.sessions }

-- `clearSession`, with the cookie of the request.
unfoldable pub clear_session : Option Text → App → App
clear_session none a = a
clear_session (some id) a = record a { sessions = delete text_dec id a.sessions }

-- `currentUser`, with the cookie: a session that has ended is deleted.
unfoldable pub current_user : Option Text → ℕ → App → Text × App
current_user none now a = ([], a)
current_user (some id) now a = if same id [] then ([], a) else elim (get text_dec id a.sessions) [
  | none ↦ ([], clear_session (some id) a)
  | some end ↦ if ltb end now then ([], clear_session (some id) a) else (a.state.username, a)
]

-- Where a request is sent.
pub data Page : Type 0 where
  setup login home : Page

-- `requireAuth`: the page that the request is sent to, unless it may go on.
unfoldable pub require_auth : Option Text → ℕ → App → Option Page × App
require_auth cookie now a =
    if not (has_admin a)
    then (some setup, a)
    else (let (user, a') = current_user cookie now a in
        if same user [] then (some login, a') else (none, a'))

-- A request of the administration: what is typed, the identifier that is drawn for a session and the
-- time. In `sets_up`, the salt is drawn too, and the last part is whether the state can be saved.
pub data Event : Type 0 where
  sets_up : Text → Text → Text → Text → Bool → Text → ℕ → Event
  logs_in : Text → Text → Text → ℕ → Event
  logs_out : Option Text → Event
  visits : Option Text → ℕ → Event

-- The `POST` of `handleSetup`.
unfoldable pub handle_setup : Crypto → Text → Text → Text → Text → Bool → Text → ℕ → App → App
handle_setup k key name password salt saved id now a =
    let username = trim_space name in
    if has_admin a || not (same key a.setup_key)
    then a
    else if same username [] || same password []
    then a
    else if ltb (length password) 10
    then a
    else if not saved
    then a
    else set_session id now
        (record a { state = new_admin_state k salt username password; setup_key = [] })

-- The `POST` of `handleLogin`.
unfoldable pub handle_login : Crypto → Text → Text → Text → ℕ → App → App
handle_login k name password id now a =
    if not (has_admin a)
    then a
    else if check_password k a (trim_space name) password
    then set_session id now a
    else a

unfoldable pub handle_event : Crypto → Event → App → App
handle_event k (sets_up key name password salt saved id now) a =
    handle_setup k key name password salt saved id now a
handle_event k (logs_in name password id now) a = handle_login k name password id now a
handle_event k (logs_out cookie) a = clear_session cookie a
handle_event k (visits cookie now) a = (require_auth cookie now a).1

-- A run, the last request first.
unfoldable pub handle_events : Crypto → List Event → App → App
handle_events k [] a = a
handle_events k (e ∷ es) a = handle_event k e (handle_events k es a)

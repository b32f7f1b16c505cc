-- ===== src/Server/Proxies.antt =====
-- The pool of proxy connections of a control, in `src/ngrok/server/control.go`. The channel
-- `proxies` is a queue of connections, known by numbers, with its capacity and whether it is closed.
-- `none` is a panic.
pub mod Conserved
use ngrok.Prelude.{
  ℕ, zero, suc, ◌+◌, ◌≤◌, Bool, true, false, List, [], ◌∷◌, ◌++◌, ◌≡◌, refl, ap, Option, none, some,
  if◌then◌else◌, length, length-append, ltb, ltb→lt, arith, Bool-cases, inl, inr,
}

abbrev pub proxy_max_pool_size : ℕ
proxy_max_pool_size = 10

pub record Pool : Type 0 where
  pub proxies : List ℕ
  pub is_closed : Bool
  pub discarded : List ℕ

-- `RegisterProxy`: a connection that finds the pool full is closed. A closed channel panics.
unfoldable pub register_proxy : ℕ → Pool → Option Pool
register_proxy conn p =
    if p.is_closed
    then none
    else if ltb (length p.proxies) proxy_max_pool_size
    then some (record p { proxies = p.proxies ++ conn ∷ [] })
    else some (record p { discarded = p.discarded ++ conn ∷ [] })

-- The reasons for which `GetProxy` gives none.
pub data ProxyError : Type 0 where
  control_closing cannot_ask timed_out : ProxyError

pub data Got : Type 0 where
  got : ℕ → Got
  no_proxy : ProxyError → Got

-- What happens while `GetProxy` waits: the control's channel `out` may be closed; then a proxy
-- arrives, the pool is closed, or time runs out.
pub data Waiting : Type 0 where
  out_closed : Waiting
  arrived : ℕ → Waiting
  closes : Waiting
  expires : Waiting

-- `GetProxy`, with whether the client was asked for a proxy.
unfoldable pub get_proxy : Waiting → Pool → Got × Bool × Pool
get_proxy w p = elim p.proxies [
  | conn ∷ rest ↦ (got conn, false, record p { proxies = rest })
  | [] ↦ if p.is_closed then (no_proxy control_closing, false, p) else elim w [
    | out_closed ↦ (no_proxy cannot_ask, false, p)
    | arrived conn ↦ (got conn, true, p)
    | closes ↦ (no_proxy control_closing, true, record p { is_closed = true })
    | expires ↦ (no_proxy timed_out, true, p)
  ]
]

-- The end of `stopper`: the channel is closed and every connection in it as well.
unfoldable pub drain : Pool → Pool
drain p = record { proxies = []; is_closed = true; discarded = p.discarded ++ p.proxies }

-- What happens to a pool: a connection registers, or one is asked for.
pub data Use : Type 0 where
  registers : ℕ → Use
  takes : Waiting → Use

-- A pool, the connections registered so far and those taken from the pool.
pub record History : Type 0 where
  pub pool : Pool
  pub registered : List ℕ
  pub taken : List ℕ

-- `none` is the panic of `RegisterProxy`; a connection that arrives for a waiting caller is
-- registered and taken at once.
unfoldable pub use_pool : Use → History → Option History
use_pool (registers conn) h = elim (register_proxy conn h.pool) [
  | none ↦ none
  | some p ↦ some (record h { pool = p; registered = h.registered ++ conn ∷ [] })
]
use_pool (takes w) h =
    let (result, asked, p) = get_proxy w h.pool in
    elim result [
      | no_proxy e ↦ some (record h { pool = p })
      | got conn ↦ some (record {
        pool = p;
        registered = (if asked then h.registered ++ conn ∷ [] else h.registered);
        taken = h.taken ++ conn ∷ [];
      })
    ]

unfoldable pub use_all : List Use → History → Option History
use_all [] h = some h
use_all (u ∷ us) h = elim (use_pool u h) [ none ↦ none | some h' ↦ use_all us h' ]

-- The pool of a new control.
abbrev pub new_history : History
new_history = record {
  pool = record { proxies = []; is_closed = false; discarded = [] };
  registered = [];
  taken = [];
}

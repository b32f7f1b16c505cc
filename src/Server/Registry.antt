-- ===== src/Server/Registry.antt =====
-- The tunnel registry of `src/ngrok/server/registry.go`. A tunnel is known by its address, a
-- number. `none` is a fault of the cache, as in `Cache/Lru.antt`. The lock makes each operation
-- one step.
pub mod Cached
pub mod Exclusive
pub mod Repeat
pub mod Affinity
use ngrok.Prelude.{
  ℕ, zero, suc, ◌^◌, Bool, true, false, [], ◌∷◌, ◌++◌, Option, none, some, if◌then◌else◌, length,
  ◌>>=◌,
}
use ngrok.Prelude.Maps.{Map, get, put, delete}
use ngrok.Prelude.Text.{Text, text, text_dec, same}
use ngrok.Cache.Lru.{LruCache, new_lru_cache, get_value, set_value}

-- The method `Size` of `cacheUrl`.
abbrev pub url_size : Text → ℕ
url_size url = length url

pub record TunnelRegistry : Type 0 where
  pub tunnels : Map Text ℕ
  pub affinity : LruCache Text Text

-- What the registry reads of a tunnel.
pub record Owner : Type 0 where
  pub tunnel : ℕ
  pub protocol : Text
  pub client_ip : Text
  pub client_id : Text

unfoldable pub new_tunnel_registry : ℕ → TunnelRegistry
new_tunnel_registry cache_size = record { tunnels = []; affinity = new_lru_cache cache_size }

-- `Register`: the flag says that there is no error.
unfoldable pub register : Text → ℕ → TunnelRegistry → TunnelRegistry × Bool
register url t r = elim (get text_dec url r.tunnels) [
  | some u ↦ (r, false)
  | none ↦ (record r { tunnels = put text_dec url t r.tunnels }, true)
]

unfoldable pub del : Text → TunnelRegistry → TunnelRegistry
del url r = record r { tunnels = delete text_dec url r.tunnels }

unfoldable pub get_tunnel : Text → TunnelRegistry → Option ℕ
get_tunnel url r = get text_dec url r.tunnels

-- `cacheKeys`
abbrev pub ip_key : Owner → Text
ip_key t = text "client-ip-" ++ t.protocol ++ b':' ∷ t.client_ip

abbrev pub id_key : Owner → Text
id_key t = text "client-id-" ++ t.protocol ++ b':' ∷ t.client_id

-- The empty text where neither key is cached.
unfoldable pub get_cached_registration : ℕ → Owner → TunnelRegistry → Option (TunnelRegistry × Text)
get_cached_registration now t r = do
  (c, by_id) ← get_value text_dec now (id_key t) r.affinity
  elim by_id [
    | some url ↦ some (record r { affinity = c }, url)
    | none ↦ do
      (c', by_ip) ← get_value text_dec now (ip_key t) c
      some (record r { affinity = c' }, elim by_ip [ some url ↦ url | none ↦ [] ])
  ]

unfoldable pub register_and_cache :
    ℕ → Text → Owner → TunnelRegistry → Option (TunnelRegistry × Bool)
register_and_cache now url t r =
    let (r', ok) = register url t.tunnel r in
    if ok
    then (do
      c ← set_value text_dec url_size now (ip_key t) url r'.affinity
      c' ← set_value text_dec url_size now (id_key t) url c
      some (record r' { affinity = c' }, true))
    else some (r', false)

-- The loop of `RegisterRepeat`, with the rounds that are left. `urls` are the results of `urlFn` in
-- order, and `used` is how many of them were taken.
unfoldable pub attempts :
    ℕ → ℕ → (ℕ → Text) → ℕ → Text → Owner → TunnelRegistry → Option (TunnelRegistry × Option Text)
attempts zero now urls used url t r = some (r, none)
attempts (suc n) now urls used url t r = do
  (r', ok) ← register_and_cache now url t r
  elim ok [ true ↦ some (r', some url) | false ↦ attempts n now urls (suc used) (urls used) t r' ]

abbrev pub max_attempts : ℕ
max_attempts = 5

-- `none` in the result is the error that no address could be assigned.
unfoldable pub register_repeat :
    ℕ → (ℕ → Text) → Owner → TunnelRegistry → Option (TunnelRegistry × Option Text)
register_repeat now urls t r = do
  (r', cached) ← get_cached_registration now t r
  let fresh = same cached []
  attempts max_attempts now urls (if fresh then 1 else 0) (if fresh then urls 0 else cached) t r'

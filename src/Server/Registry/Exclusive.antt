-- ===== src/Server/Registry/Exclusive.antt =====
-- Registration of URLs in the tunnel registry: a URL that is taken is never given away.
use mathlib.Core.Path.{ap₂}
use ngrok.Prelude.{
  ℕ, ◌^◌, ◌<◌, true, false, ◌≡◌, refl, ◌∙◌, ◌⊎◌, none, some, length, Option-cases, inl, inr,
}
use ngrok.Prelude.Maps.{get, put}
use ngrok.Prelude.Text.{Text, text_dec}
use ngrok.Cache.Lru.{LruCache, set_value}
use ngrok.Cache.Lru.View.{view, keep}
use ngrok.Cache.Lru.Front.{touch}
use ngrok.Cache.Lru.Refine.{set_value_lem}
use ngrok.Server.Registry.{
  TunnelRegistry, Owner, url_size, register, ip_key, id_key, register_and_cache, get_tunnel,
}
use ngrok.Server.Registry.Cached.{IsSound}

pub register_free :
    (url : Text) (t : ℕ) (r : TunnelRegistry)
    → get text_dec url r.tunnels ≡ none
    → register url t r ≡ (record r { tunnels = put text_dec url t r.tunnels }, true)
unfolding register
register_free url t r free = rw (free, register)

pub register_taken :
    (url : Text) (t u : ℕ) (r : TunnelRegistry)
    → get text_dec url r.tunnels ≡ some u
    → register url t r ≡ (r, false)
unfolding register
register_taken url t u r taken = rw (taken, register)

cache_free :
    (now : ℕ) (url : Text) (t : Owner) (r : TunnelRegistry) (c c' : LruCache Text Text)
    → get text_dec url r.tunnels ≡ none
    → set_value text_dec url_size now (ip_key t) url r.affinity ≡ some c
    → set_value text_dec url_size now (id_key t) url c ≡ some c'
    → register_and_cache now url t r
      ≡ some (record r { tunnels = put text_dec url t.tunnel r.tunnels; affinity = c' }, true)
unfolding register_and_cache
cache_free now url t r c c' free e e' = rw (register_free url t.tunnel r free, e, e')

cache_taken :
    (now u : ℕ) (url : Text) (t : Owner) (r : TunnelRegistry)
    → get text_dec url r.tunnels ≡ some u
    → register_and_cache now url t r ≡ some (r, false)
unfolding register_and_cache
cache_taken now u url t r taken = rw (register_taken url t.tunnel u r taken)

-- What an attempt to register a URL for a tunnel does to the registry.
pub record Registered (url : Text) (t : Owner) (r r' : TunnelRegistry) : Type 0 where
  pub was_free : get_tunnel url r ≡ none
  pub added : r'.tunnels ≡ put text_dec url t.tunnel r.tunnels
  pub sound : IsSound r'
  pub capacity : r'.affinity.capacity ≡ r.affinity.capacity
  pub cached :
      view r'.affinity
      ≡ keep url_size r.affinity.capacity (
          touch text_dec url_size (id_key t) url (
            keep url_size r.affinity.capacity
              (touch text_dec url_size (ip_key t) url (view r.affinity))))

-- `RegisterAndCache` of a URL of less than 2^63 bytes never faults. It fails exactly if the URL is
-- taken, and then changes nothing; otherwise the tunnel is stored at the URL and the URL is cached
-- for the address and the id of the client.
pub register_and_cache_lem :
    (now : ℕ) (url : Text) (t : Owner) (r : TunnelRegistry)
    → IsSound r
    → length url < 2 ^ 63
    → ((u : ℕ) × (get_tunnel url r ≡ some u) × (register_and_cache now url t r ≡ some (r, false)))
      ⊎ ((r' : TunnelRegistry) × (register_and_cache now url t r ≡ some (r', true))
          × Registered url t r r')
unfolding get_tunnel
register_and_cache_lem now url t r v small = elim (Option-cases (get text_dec url r.tunnels)) [
  | inl free ↦
      let (c, run, shows) = set_value_lem text_dec url_size now (ip_key t) r.affinity v url small in
      let (c', run', shows') =
        set_value_lem text_dec url_size now (id_key t) c shows.valid url small in
      inr (
        record r { tunnels = put text_dec url t.tunnel r.tunnels; affinity = c' },
        cache_free now url t r c c' free run run',
        record {
          was_free = free;
          added = refl;
          sound = shows'.valid;
          capacity = shows'.same_capacity ∙ shows.same_capacity;
          cached =
              shows'.entries
              ∙ ap₂ (λ n m. keep url_size n (touch text_dec url_size (id_key t) url m))
                  shows.same_capacity shows.entries;
        },
      )
  | inr (u, taken) ↦ inl (u, taken, cache_taken now u url t r taken)
]

-- ===== src/Server/Registry/Affinity.antt =====
-- The affinity cache of the tunnel registry: it never faults, and gives a client its last URL.
use ngrok.Prelude.{ℕ, ◌^◌, ◌<◌, ◌≤◌, true, ◌∷◌, ◌≡◌, ap, ◌∙◌, none, some, length, arith, inl, inr}
use ngrok.Prelude.Maps.{Map, get, delete, get-delete_self}
use ngrok.Prelude.Text.{Text, text_dec}
use ngrok.Cache.Lru.View.{view, keep}
use ngrok.Server.Registry.{
  TunnelRegistry, Owner, url_size, ip_key, id_key, get_cached_registration, register_and_cache, del,
  get_tunnel,
}
use ngrok.Server.Registry.Cached.{IsSound, known_url, get_cached_registration_lem}
use ngrok.Server.Registry.Exclusive.{register_and_cache_lem}

-- A stored key at the front is found, if it fits.
get-keep_first :
    {K V : Type 0} (dec : Discrete K) (size_of : V → ℕ) (n : ℕ) (k : K) (v : V) (m : Map K V)
    → size_of v ≤ n
    → get dec k (keep size_of n ((k, v) ∷ m)) ≡ some v
unfolding get keep
get-keep_first dec size_of n k v m h = ground arith

-- A client whose tunnel was registered at a URL that fits into the cache is offered that URL again,
-- also after the tunnel is gone, as long as the cache is not used in between.
pub affinity_returns :
    (now later : ℕ) (url : Text) (t : Owner) (r r' : TunnelRegistry)
    → IsSound r
    → length url < 2 ^ 63
    → length url ≤ r.affinity.capacity
    → register_and_cache now url t r ≡ some (r', true)
    → (r'' : TunnelRegistry) × (get_cached_registration later t (del url r') ≡ some (r'', url))
      × (get_tunnel url r'' ≡ none)
unfolding del get_tunnel
affinity_returns now later url t r r' v small fits run =
    elim (register_and_cache_lem now url t r v small) [
      | inl (u, taken, e) ↦ absurd (cc)
      | inr (s, e, done) ↦
          let same : s ≡ r' = ground arith in
          let first : get text_dec (id_key t) (view s.affinity) ≡ some url =
            rw done.cached
              (get-keep_first text_dec url_size r.affinity.capacity (id_key t) url _ fits) in
          let (r'', url', again, shown, _, _, tunnels, _) =
            get_cached_registration_lem later t
              (record s { tunnels = delete text_dec url s.tunnels }) done.sound in
          let same_url : url' ≡ url =
            shown ∙ ap (λ o. known_url o (get text_dec (ip_key t) (view s.affinity))) first in
          (
            r'',
            rw (← same) (again ∙ ap (λ u. some (r'', u)) same_url),
            ap (get text_dec url) tunnels ∙ get-delete_self text_dec url s.tunnels,
          )
    ]

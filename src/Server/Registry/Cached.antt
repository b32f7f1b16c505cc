-- ===== src/Server/Registry/Cached.antt =====
-- `GetCachedRegistration` of the tunnel registry.
use ngrok.Prelude.{ℕ, ◌^◌, ◌<◌, ◌≤◌, [], ◌∷◌, ◌≡◌, refl, ap, ◌∙◌, Option, none, some, length, arith}
use ngrok.Prelude.Maps.{Map, get}
use ngrok.Prelude.Text.{Text, text_dec}
use ngrok.Cache.Lru.{LruCache, get_value}
use ngrok.Cache.Lru.View.{view, IsValid, weight}
use ngrok.Cache.Lru.Evict.{weight-pairs}
use ngrok.Cache.Lru.Refine.{after_get, get_value_lem}
use ngrok.Server.Registry.{TunnelRegistry, Owner, url_size, ip_key, id_key, get_cached_registration}

abbrev pub IsSound : TunnelRegistry → Type 0
IsSound r = IsValid text_dec url_size r.affinity

-- A value that is stored weighs no more than all of them.
size-get-le :
    {K V : Type 0} (dec : Discrete K) (size_of : V → ℕ) (k : K) (v : V) (m : Map K V)
    → get dec k m ≡ some v
    → size_of v ≤ weight size_of m
unfolding get
size-get-le dec size_of k v [] h = absurd (cc)
size-get-le dec size_of k v ((j, w) ∷ m) h =
    ground (arith, size-get-le dec size_of k v m, ap size_of)

stored_small :
    (c : LruCache Text Text) (k url : Text)
    → IsValid text_dec url_size c
    → get text_dec k (view c) ≡ some url
    → length url < 2 ^ 63
stored_small c k url v h = omega (
  arith,
  size-get-le text_dec url_size k url (view c) h,
  weight-pairs url_size text_dec c.list v.linked.sized,
  v.bounded,
  v.capacity_small,
)

-- The URL that is cached for the client, given what is cached for its id and its address.
abbrev pub known_url : Option Text → Option Text → Text
known_url (some url) by_ip = url
known_url none (some url) = url
known_url none none = []

cached_hit :
    (now : ℕ) (t : Owner) (r : TunnelRegistry) (c : LruCache Text Text) (url : Text)
    → get_value text_dec now (id_key t) r.affinity ≡ some (c, some url)
    → get_cached_registration now t r ≡ some (record r { affinity = c }, url)
unfolding get_cached_registration
cached_hit now t r c url e = rw e

cached_miss :
    (now : ℕ) (t : Owner) (r : TunnelRegistry) (c c' : LruCache Text Text) (o : Option Text)
    → get_value text_dec now (id_key t) r.affinity ≡ some (c, none)
    → get_value text_dec now (ip_key t) c ≡ some (c', o)
    → get_cached_registration now t r ≡ some (record r { affinity = c' }, known_url none o)
unfolding get_cached_registration
cached_miss now t r c c' none e e' = rw (e, e')
cached_miss now t r c c' (some url) e e' = rw (e, e')

known_small :
    (c : LruCache Text Text) (j k : Text) (a b : Option Text)
    → IsValid text_dec url_size c
    → get text_dec j (view c) ≡ a
    → get text_dec k (view c) ≡ b
    → length (known_url a b) < 2 ^ 63
known_small c j k (some url) b v h h' = stored_small c j url v h
known_small c j k none (some url) v h h' = stored_small c k url v h'
known_small c j k none none v h h' = omega arith

-- `GetCachedRegistration` never faults, and changes no tunnel. It gives the URL cached for the id of
-- the client, or else the one cached for its address, or else the empty text.
pub get_cached_registration_lem :
    (now : ℕ) (t : Owner) (r : TunnelRegistry)
    → IsSound r
    → (r' : TunnelRegistry) × (url : Text) × (get_cached_registration now t r ≡ some (r', url))
      × (url
          ≡ known_url
              (get text_dec (id_key t) (view r.affinity))
              (get text_dec (ip_key t) (view r.affinity)))
      × (length url < 2 ^ 63)
      × IsSound r'
      × (r'.tunnels ≡ r.tunnels)
      × (r'.affinity.capacity ≡ r.affinity.capacity)
get_cached_registration_lem now t r v =
    go (get text_dec (id_key t) (view r.affinity)) (get text_dec (ip_key t) (view r.affinity)) refl
      refl
  where
    go :
        (a b : Option Text)
        → get text_dec (id_key t) (view r.affinity) ≡ a
        → get text_dec (ip_key t) (view r.affinity) ≡ b
        → (r' : TunnelRegistry) × (url : Text) × (get_cached_registration now t r ≡ some (r', url))
          × (url ≡ known_url a b)
          × (length url < 2 ^ 63)
          × IsSound r'
          × (r'.tunnels ≡ r.tunnels)
          × (r'.affinity.capacity ≡ r.affinity.capacity)
    go (some url) b h h' =
        let (c, run, shows) = get_value_lem text_dec url_size now (id_key t) r.affinity v in
        (
          record r { affinity = c },
          url,
          cached_hit now t r c url (rw h at run),
          refl,
          known_small r.affinity (id_key t) (ip_key t) (some url) b v h h',
          shows.valid,
          refl,
          shows.same_capacity,
        )
    go none b h h' =
        let (c, run, shows) = get_value_lem text_dec url_size now (id_key t) r.affinity v in
        let same_view : view c ≡ view r.affinity =
          shows.entries ∙ ap (after_get text_dec url_size now (id_key t) r.affinity v) h in
        let (c', run', shows') = get_value_lem text_dec url_size now (ip_key t) c shows.valid in
        let at_ip : get text_dec (ip_key t) (view c) ≡ b =
          ap (get text_dec (ip_key t)) same_view ∙ h' in
        (
          record r { affinity = c' },
          known_url none b,
          cached_miss now t r c c' b (rw h at run) (rw at_ip at run'),
          refl,
          known_small r.affinity (id_key t) (ip_key t) none b v h h',
          shows'.valid,
          refl,
          shows'.same_capacity ∙ shows.same_capacity,
        )

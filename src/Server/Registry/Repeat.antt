-- ===== src/Server/Registry/Repeat.antt =====
-- `RegisterRepeat`: at most five URLs are tried in order, and the first that is free is assigned.
use ngrok.Prelude.{
  ℕ, zero, suc, ◌^◌, ◌<◌, List, [], ◌∷◌, ◌++◌, ◌≡◌, refl, sym, ap, inl, inr, Option, none, some,
  length, if◌then◌else◌, Bool-cases, In,
}
use mathlib.Core.Path.{subst}
use ngrok.Prelude.Maps.{Map, get, put}
use ngrok.Prelude.Text.{Text, text_dec, same}
use ngrok.Cache.Lru.View.{view}
use ngrok.Server.Registry.{
  TunnelRegistry, Owner, id_key, ip_key, get_tunnel, attempts, register_repeat,
}
use ngrok.Server.Registry.Cached.{IsSound, known_url, get_cached_registration_lem}
use ngrok.Server.Registry.Exclusive.{register_and_cache_lem}

-- The URLs that are tried, in order: the cached one, if there is one, and new ones, five in all.
abbrev pub tried_urls : (ℕ → Text) → Text → List Text
tried_urls urls cached =
    if same cached []
    then urls 0 ∷ urls 1 ∷ urls 2 ∷ urls 3 ∷ urls 4 ∷ []
    else cached ∷ urls 0 ∷ urls 1 ∷ urls 2 ∷ urls 3 ∷ []

-- A tunnel has the URL.
abbrev pub IsTaken : Map Text ℕ → Text → Type 0
IsTaken m url = (u : ℕ) × (get text_dec url m ≡ some u)

-- The tunnels before and after: the first URL that was free is now the tunnel's, or all URLs were
-- taken and nothing has changed.
abbrev pub Assigns : List Text → ℕ → Map Text ℕ → Map Text ℕ → Option Text → Type 0
Assigns tried t m m' (some url) =
    (get text_dec url m ≡ none)
    × (m' ≡ put text_dec url t m)
    × ((before : List Text) × (after : List Text) × (tried ≡ before ++ url ∷ after)
        × ((u : Text) → In u before → IsTaken m u))
Assigns tried t m m' none = ((u : Text) → In u tried → IsTaken m u) × (m' ≡ m)

-- The rounds that are left: the URL of the next one, and those after it.
abbrev urls_left : (ℕ → Text) → ℕ → ℕ → Text → List Text
urls_left urls zero used url = []
urls_left urls (suc n) used url = url ∷ urls_left urls n (suc used) (urls used)

urls_left-tried_urls :
    (urls : ℕ → Text) (cached : Text)
    → urls_left urls 5 (if same cached [] then 1 else 0) (if same cached [] then urls 0 else cached)
      ≡ tried_urls urls cached
urls_left-tried_urls urls cached = elim (Bool-cases (same cached [])) [
  | inl e ↦ rw e refl
  | inr e ↦ rw e refl
]

cons-IsTaken :
    (m : Map Text ℕ) (l : List Text) (url : Text)
    → IsTaken m url
    → ((u : Text) → In u l → IsTaken m u)
    → (u : Text) → In u (url ∷ l)
    → IsTaken m u
cons-IsTaken m l url taken rest u k = elim k [
  | inl here ↦ subst (IsTaken m) (sym here) taken
  | inr later ↦ rest u later
]

module _ (now : ℕ) (urls : ℕ → Text) (t : Owner) (small : (i : ℕ) → length (urls i) < 2 ^ 63) where
  Assigns-cons :
      (url : Text) (l : List Text) (m m' : Map Text ℕ) (o : Option Text)
      → IsTaken m url
      → Assigns l t.tunnel m m' o
      → Assigns (url ∷ l) t.tunnel m m' o
  Assigns-cons url l m m' (some w) taken (free, added, (before, after, e, others)) =
      (free, added, (url ∷ before, after, ap (◌∷◌ url) e, cons-IsTaken m before url taken others))
  Assigns-cons url l m m' none taken (others, same_tunnels) =
      (cons-IsTaken m l url taken others, same_tunnels)

  attempts_lem :
      (n used : ℕ) (url : Text) (r : TunnelRegistry)
      → IsSound r
      → length url < 2 ^ 63
      → (r' : TunnelRegistry) × (o : Option Text) × (attempts n now urls used url t r
          ≡ some (r', o))
        × IsSound r'
        × Assigns (urls_left urls n used url) t.tunnel r.tunnels r'.tunnels o
  unfolding attempts get_tunnel
  attempts_lem zero used url r v h = (r, none, refl, v, ((λ u k. absurd k), refl))
  attempts_lem (suc n) used url r v h = elim (register_and_cache_lem now url t r v h) [
    | inl (u, taken, run) ↦
        let (r', o, rest, sound, a) = attempts_lem n (suc used) (urls used) r v (small used) in
        (
          r',
          o,
          rw (run, attempts) rest,
          sound,
          Assigns-cons url (urls_left urls n (suc used) (urls used)) r.tunnels r'.tunnels o
              (u, taken) a,
        )
    | inr (r', run, done) ↦ (
      r',
      some url,
      rw (run, attempts),
      done.sound,
      (
        done.was_free,
        done.added,
        ([], urls_left urls n (suc used) (urls used), refl, (λ u k. absurd k)),
      ),
    )
  ]

  first_small :
      (cached : Text)
      → length cached < 2 ^ 63
      → length (if same cached [] then urls 0 else cached) < 2 ^ 63
  first_small cached h = elim (Bool-cases (same cached [])) [
    | inl e ↦ rw e (small 0)
    | inr e ↦ rw e h
  ]

  -- `RegisterRepeat` never faults. It tries five URLs in order, first the one that the cache has for
  -- the client, if there is one. The first of them that is free is stored for the tunnel; if all five
  -- are taken it fails, and no tunnel has changed. URLs are shorter than 2^63 bytes.
  pub register_repeat_lem :
      (r : TunnelRegistry)
      → IsSound r
      → (r' : TunnelRegistry) × (o : Option Text) × (cached : Text) × (register_repeat now urls t r
          ≡ some (r', o))
        × (cached
            ≡ known_url
                (get text_dec (id_key t) (view r.affinity))
                (get text_dec (ip_key t) (view r.affinity)))
        × IsSound r'
        × Assigns (tried_urls urls cached) t.tunnel r.tunnels r'.tunnels o
  unfolding register_repeat
  register_repeat_lem r v =
      let (s, cached, run, shown, short, sound, tunnels, _) =
        get_cached_registration_lem now t r v in
      let (r', o, rest, valid, a) =
        attempts_lem 5 (if same cached [] then 1 else 0) (if same cached [] then urls 0 else cached)
          s sound (first_small cached short) in
      let tried = rw (urls_left-tried_urls urls cached) at a in
      (r', o, cached, rw run rest, shown, valid, rw tunnels at tried)

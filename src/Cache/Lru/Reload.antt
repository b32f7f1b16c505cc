-- ===== src/Cache/Lru/Reload.antt =====
-- A cache of `lru.go` that is saved and loaded again.
use mathlib.Core.List.{reverse, reverse-cons}
use ngrok.Prelude.{
  ℕ, ◌+◌, ◌≤◌, true, List, [], ◌∷◌, ◌++◌, append-nil, append_assoc, ◌≡◌, refl, sym, ap, ◌∙◌, none,
  some, Option, All, arith,
}
use ngrok.Prelude.Maps.{Map, get}
use ngrok.Cache.Lru.{Entry, LruCache, new_lru_cache, load, items, load_items, save_items}
use ngrok.Cache.Lru.View.{pairs, view, address, Distinct, IsValid, weight}
use ngrok.Cache.Lru.Elements.{delete-absent}
use ngrok.Cache.Lru.Evict.{keep_all, weight-pairs}
use ngrok.Cache.Lru.Front.{Shows}
use ngrok.Cache.Lru.Refine.{set_value_lem, new_lru_cache-Shows}

module _ {K V : Type 0} (dec : Discrete K) (size_of : V → ℕ) where
  -- No key stands twice, nor among the entries that are there already.
  abbrev Fresh : Map K V → Map K V → Type 0
  Fresh [] there = Unit
  Fresh ((k, v) ∷ m) there = (get dec k there ≡ none) × Fresh m ((k, v) ∷ there)

  load_lem :
      (now : ℕ) (m : Map K V) (c : LruCache K V)
      → IsValid dec size_of c
      → Fresh m (view c)
      → weight size_of m + weight size_of (view c) ≤ c.capacity
      → (c' : LruCache K V) × (load dec size_of now m c ≡ some c')
        × Shows dec size_of c' c.capacity (reverse m ++ view c)
  unfolding load
  load_lem now [] c v fresh fits =
      (c, refl, record { valid = v; entries = refl; same_capacity = refl })
  load_lem now ((k, w) ∷ m) c v fresh fits =
      let (c', run, shows) =
        set_value_lem dec size_of now k c v w (omega (arith, v.capacity_small, fits)) in
      let grown : view c' ≡ (k, w) ∷ view c =
        shows.entries
        ∙ rw (delete-absent dec k (view c) fresh.0)
            (keep_all size_of c.capacity ((k, w) ∷ view c) (omega (arith, fits))) in
      let (c'', rest, last) =
        load_lem now m c' shows.valid (rw grown fresh.1)
          (rw (grown, shows.same_capacity) (omega (arith, fits))) in
      (
        c'',
        rw run rest,
        record {
          valid = last.valid;
          entries =
              last.entries ∙ ap (◌++◌ (reverse m)) grown ∙ sym (rw (reverse-cons, append_assoc));
          same_capacity = last.same_capacity ∙ shows.same_capacity;
        },
      )

  abbrev Apart : Map K V → Map ℕ (Entry K V) → Type 0
  Apart there = All (λ p. get dec p.1.key there ≡ none)

  Apart-cons :
      (k : K) (w : V) (there : Map K V) (l : Map ℕ (Entry K V))
      → address dec k l ≡ none
      → Apart there l
      → Apart ((k, w) ∷ there) l
  unfolding address get
  Apart-cons k w there [] h d = tt
  Apart-cons k w there ((a, e) ∷ l) h d =
      (ground (arith, d.0), Apart-cons k w there l (ground arith) d.1)

  Fresh-pairs :
      (there : Map K V) (l : Map ℕ (Entry K V))
      → Distinct dec l
      → Apart there l
      → Fresh (pairs l) there
  Fresh-pairs there [] d h = tt
  Fresh-pairs there ((a, e) ∷ l) d h =
      (h.0, Fresh-pairs ((e.key, e.value) ∷ there) l d.2 (Apart-cons e.key e.value there l d.0 h.1))

  Apart-nil : (l : Map ℕ (Entry K V)) → Apart [] l
  unfolding get
  Apart-nil [] = tt
  Apart-nil ((a, e) ∷ l) = (refl, Apart-nil l)

  -- A valid cache that is saved and then loaded into a new cache of the same capacity has the same
  -- entries in the opposite order, provided that the decoder undoes the encoder: the entry that was
  -- the least recently used is now the last to be evicted.
  pub load_items-save_items :
      (now : ℕ) (c : LruCache K V) {B : Type 0} (encode : List (K × V) → B)
      (decode : B → Option (List (K × V)))
      → ((l : List (K × V)) → decode (encode l) ≡ some l)
      → IsValid dec size_of c
      → (c' : LruCache K V) × (load_items dec size_of now decode
            (save_items encode c)
            (new_lru_cache c.capacity)
          ≡ some (c', true))
        × Shows dec size_of c' c.capacity (reverse (view c))
  unfolding load_items save_items items new_lru_cache
  load_items-save_items now c encode decode inverse v =
      let start = new_lru_cache-Shows dec size_of c.capacity v.capacity_small in
      let (c', run, shows) =
        load_lem now (view c) (new_lru_cache c.capacity) start.valid
          (Fresh-pairs [] c.list v.linked.distinct (Apart-nil c.list))
          (omega (arith, weight-pairs size_of dec c.list v.linked.sized, v.bounded)) in
      (
        c',
        rw (inverse (view c), load_items, run),
        record {
          valid = shows.valid;
          entries = shows.entries ∙ append-nil (reverse (view c));
          same_capacity = shows.same_capacity;
        },
      )

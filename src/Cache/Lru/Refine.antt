-- ===== src/Cache/Lru/Refine.antt =====
-- The calls of `lru.go` against the list of keys and values from the most to the least recently
-- used.
use ngrok.Prelude.{
  ℕ, ◌+◌, ◌-◌, ◌%◌, ◌^◌, ◌<◌, Bool, true, false, [], ◌≡◌, refl, sym, ◌∙◌, Option, none, some, arith,
  Option-cases, inl, inr, ℕ_discrete,
}
use ngrok.Prelude.Maps.{Map, get, delete}
use ngrok.Cache.Lru.{
  LruCache, new_lru_cache, get_value, set_value, set_if_absent, delete_key, set_capacity,
}
use ngrok.Cache.Lru.View.{view, IsLinked, IsValid, keep, address}
use ngrok.Cache.Lru.Elements.{found_lem, delete-absent}
use ngrok.Cache.Lru.Evict.{check_capacity_lem, remove-IsLinked}
use ngrok.Cache.Lru.Front.{
  Shows, Kept-Shows, touch, absent, move_to_front_lem, update_inplace_lem, add_new_lem,
}

abbrev pub present : {V : Type 0} → Option V → Bool
present none = false
present (some v) = true

module _ {K V : Type 0} (dec : Discrete K) (size_of : V → ℕ) where
  pub new_lru_cache-Shows :
      (capacity : ℕ) → capacity < 2 ^ 63 → Shows dec size_of (new_lru_cache capacity) capacity []
  unfolding new_lru_cache get address
  new_lru_cache-Shows capacity small = record {
    valid = record {
      linked = record {
        distinct = tt;
        linked = λ k. refl;
        sized = tt;
        fresh = tt;
        counted = refl;
        in_word = omega arith;
      };
      bounded = omega arith;
      capacity_small = small;
    };
    entries = refl;
    same_capacity = refl;
  }

  module _ (now : ℕ) (key : K) (c : LruCache K V) (v : IsValid dec size_of c) where
    -- The entries after a read of the key.
    abbrev pub after_get : Option V → Map K V
    after_get none = view c
    after_get (some w) = touch dec size_of key w (view c)

    abbrev pub after_absent : V → Option V → Map K V
    after_absent value none = keep size_of c.capacity (touch dec size_of key value (view c))
    after_absent value (some w) = touch dec size_of key w (view c)

    Shows_self : Shows dec size_of c c.capacity (view c)
    Shows_self = record { valid = v; entries = refl; same_capacity = refl }

    -- `Get` never faults. It returns the value that is stored under the key, if one is; the key is
    -- then the most recently used, and no other entry has changed.
    pub get_value_lem :
        (c' : LruCache K V) × (get_value dec now key c ≡ some (c', get dec key (view c)))
        × Shows dec size_of c' c.capacity (after_get (get dec key (view c)))
    unfolding get_value
    get_value_lem = elim (Option-cases (get dec key c.table)) [
      | inl miss ↦ (
        c,
        rw (miss, get_value, absent dec size_of now key c v miss),
        rw (absent dec size_of now key c v miss) Shows_self,
      )
      | inr (a, at) ↦
          let (e, found) =
            found_lem dec key a c.list v.linked.distinct (sym (v.linked.linked key) ∙ at) in
          let (c', w, run, seen, shows) = move_to_front_lem dec size_of now key c v a at in
          (c', rw (at, get_value, found.stored, run, found.visible), rw seen shows)
    ]

    -- `Set` of a value of less than 2^63 bytes never faults. The key becomes the most recently used,
    -- with the new value, and what is left of the entries is the longest prefix that fits.
    pub set_value_lem :
        (value : V)
        → size_of value < 2 ^ 63
        → (c' : LruCache K V) × (set_value dec size_of now key value c ≡ some c')
          × Shows dec size_of c' c.capacity
              (keep size_of c.capacity (touch dec size_of key value (view c)))
    unfolding set_value
    set_value_lem value small = elim (Option-cases (get dec key c.table)) [
      | inl miss ↦ rw (miss, set_value) (add_new_lem dec size_of now key c v value small miss)
      | inr (a, at) ↦
          rw (at, set_value) (update_inplace_lem dec size_of now key c v value small a at)
    ]

    -- `Delete` never faults. It reports whether the key was stored, and takes out that entry only.
    pub delete_key_lem :
        (c' : LruCache K V) × (delete_key dec key c ≡ some (c', present (get dec key (view c))))
        × Shows dec size_of c' c.capacity (delete dec key (view c))
    unfolding delete_key
    delete_key_lem = elim (Option-cases (get dec key c.table)) [
      | inl miss ↦
          let gone = absent dec size_of now key c v miss in
          (c, rw (miss, delete_key, gone), rw (delete-absent dec key (view c) gone) Shows_self)
      | inr (a, at) ↦
          let known = sym (v.linked.linked key) ∙ at in
          let (e, found) = found_lem dec key a c.list v.linked.distinct known in
          let rest : LruCache K V = record c {
            list = delete ℕ_discrete a c.list;
            table = delete dec key c.table;
            size = (c.size + 2 ^ 64 - e.size) % 2 ^ 64;
          } in
          (
            rest,
            rw (at, delete_key, found.stored, found.visible),
            record {
              valid = record {
                linked = remove-IsLinked dec size_of key a e c v.linked at found.stored;
                bounded = omega (arith, found.rest_total, v.bounded);
                capacity_small = v.capacity_small;
              };
              entries = found.removed;
              same_capacity = refl;
            },
          )
    ]

    -- `SetIfAbsent` never faults. A stored key keeps its value and becomes the most recently used.
    pub set_if_absent_lem :
        (value : V)
        → size_of value < 2 ^ 63
        → (c' : LruCache K V) × (set_if_absent dec size_of now key value c ≡ some c')
          × Shows dec size_of c' c.capacity (after_absent value (get dec key (view c)))
    unfolding set_if_absent
    set_if_absent_lem value small = elim (Option-cases (get dec key c.table)) [
      | inl miss ↦
          rw (miss, set_if_absent, absent dec size_of now key c v miss)
            (add_new_lem dec size_of now key c v value small miss)
      | inr (a, at) ↦
          let (c', w, run, seen, shows) = move_to_front_lem dec size_of now key c v a at in
          (c', rw (at, set_if_absent) run, rw seen shows)
    ]

  -- `SetCapacity` below 2^63 never faults, and keeps the longest prefix that fits.
  pub set_capacity_lem :
      (capacity : ℕ) (c : LruCache K V)
      → IsValid dec size_of c
      → capacity < 2 ^ 63
      → (c' : LruCache K V) × (set_capacity dec capacity c ≡ some c')
        × Shows dec size_of c' capacity (keep size_of capacity (view c))
  unfolding set_capacity
  set_capacity_lem capacity c v small =
      let resized : LruCache K V = record c { capacity = capacity } in
      let links : IsLinked dec size_of resized = record {
        distinct = v.linked.distinct;
        linked = v.linked.linked;
        sized = v.linked.sized;
        fresh = v.linked.fresh;
        counted = v.linked.counted;
        in_word = v.linked.in_word;
      } in
      let (c', run, k) = check_capacity_lem dec size_of resized links in
      (c', run, Kept-Shows dec size_of resized c' k small)

-- ===== src/Cache/Lru/Front.antt =====
-- Elements of `lru.go` that move or are set at the front of the list.
use ngrok.Prelude.{
  ℕ, suc, ◌+◌, ◌-◌, ◌%◌, ◌^◌, ◌<◌, [], ◌∷◌, ◌≡◌, refl, sym, ◌∙◌, none, some, arith, ℕ_discrete,
}
use ngrok.Prelude.Maps.{Map, get, put, delete, get-delete_self, get-put, get-put_self}
use ngrok.Cache.Lru.{Entry, LruCache, move_to_front, update_inplace, add_new}
use ngrok.Cache.Lru.View.{view, total, address, IsLinked, IsValid, keep}
use ngrok.Cache.Lru.Elements.{
  found_lem, address-delete, Distinct-delete, All-delete, All-get, delete-absent, get-pairs_absent,
  get-fresh, fresh-suc,
}
use ngrok.Cache.Lru.Evict.{Kept, check_capacity_lem}

module _ {K V : Type 0} (dec : Discrete K) (size_of : V → ℕ) where
  -- The element that the table gives for a key, set at the front with another entry.
  front-IsLinked :
      (k : K) (a s : ℕ) (e : Entry K V) (c : LruCache K V)
      → IsLinked dec size_of c
      → get dec k c.table ≡ some a
      → e.key ≡ k
      → e.size ≡ size_of e.value
      → s ≡ e.size + total (delete ℕ_discrete a c.list)
      → s < 2 ^ 64
      → IsLinked dec size_of (record c { list = (a, e) ∷ delete ℕ_discrete a c.list; size = s })
  unfolding address
  front-IsLinked k a s e c v at same_key sized sum small =
      let known : address dec k c.list ≡ some a = sym (v.linked k) ∙ at in
      let (f, found) = found_lem dec k a c.list v.distinct known in
      record {
        distinct = (
          rw (same_key, address-delete dec k k a c.list v.distinct known) (ground arith),
          get-delete_self ℕ_discrete a c.list,
          Distinct-delete dec a c.list v.distinct,
        );
        linked = λ q. ground (arith, v.linked q, address-delete dec k q a c.list v.distinct known);
        sized = (sized, All-delete _ a c.list v.sized);
        fresh = (All-get _ a f c.list v.fresh found.stored, All-delete _ a c.list v.fresh);
        counted = sum;
        in_word = omega (arith, sum, small);
      }

  delete-put :
      (a : ℕ) (e : Entry K V) (l : Map ℕ (Entry K V))
      → delete ℕ_discrete a (put ℕ_discrete a e l) ≡ delete ℕ_discrete a l
  unfolding delete put
  delete-put a e [] = ground arith
  delete-put a e ((b, f) ∷ l) = ground (arith, delete-put a e l)

  -- The entries after a use of the key: it stands first.
  abbrev pub touch : K → V → Map K V → Map K V
  touch k v m = (k, v) ∷ delete dec k m

  abbrev pub touch_found : K → Map K V → Map K V
  touch_found k m = elim (get dec k m) [ none ↦ m | some v ↦ touch k v m ]

  -- A valid cache with these entries and this capacity.
  pub record Shows (c : LruCache K V) (capacity : ℕ) (m : Map K V) : Type 0 where
    pub valid : IsValid dec size_of c
    pub entries : view c ≡ m
    pub same_capacity : c.capacity ≡ capacity

  pub Kept-Shows :
      (c c' : LruCache K V)
      → Kept dec size_of c c'
      → c.capacity < 2 ^ 63
      → Shows c' c.capacity (keep size_of c.capacity (view c))
  Kept-Shows c c' k small = record {
    valid = record {
      linked = k.links;
      bounded = omega (arith, k.within, k.capacity);
      capacity_small = omega (arith, k.capacity, small);
    };
    entries = k.fits;
    same_capacity = k.capacity;
  }

  module _ (now : ℕ) (key : K) (c : LruCache K V) (v : IsValid dec size_of c) where
    known_address : {a : ℕ} → get dec key c.table ≡ some a → address dec key c.list ≡ some a
    known_address at = sym (v.linked.linked key) ∙ at

    pub absent : get dec key c.table ≡ none → get dec key (view c) ≡ none
    absent at = get-pairs_absent dec key c.list (sym (v.linked.linked key) ∙ at)

    -- A use of a stored key: its element stands at the front, and nothing else has changed.
    pub move_to_front_lem :
        (a : ℕ)
        → get dec key c.table ≡ some a
        → (c' : LruCache K V) × (w : V) × (move_to_front now a c ≡ some c')
          × (get dec key (view c) ≡ some w)
          × Shows c' c.capacity (touch key w (view c))
    unfolding move_to_front
    move_to_front_lem a at =
        let known = known_address at in
        let (e, found) = found_lem dec key a c.list v.linked.distinct known in
        (
          record c { list = (a, record e { time_accessed = now }) ∷ delete ℕ_discrete a c.list },
          e.value,
          rw found.stored,
          found.visible,
          record {
            valid = record {
              linked =
                  front-IsLinked key a c.size (record e { time_accessed = now }) c v.linked at
                    found.has_key (All-get _ a e c.list v.linked.sized found.stored)
                    (omega (arith, found.rest_total, v.linked.counted))
                    (omega (arith, v.linked.counted, v.linked.in_word));
              bounded = omega (arith, found.rest_total, v.bounded);
              capacity_small = v.capacity_small;
            };
            entries = ground (arith, found.removed, found.has_key);
            same_capacity = refl;
          },
        )

    module _ (value : V) (small : size_of value < 2 ^ 63) where
      pub update_inplace_lem :
          (a : ℕ)
          → get dec key c.table ≡ some a
          → (c' : LruCache K V) × (update_inplace dec size_of now a value c ≡ some c')
            × Shows c' c.capacity (keep size_of c.capacity (touch key value (view c)))
      unfolding update_inplace move_to_front
      update_inplace_lem a at =
          let known = known_address at in
          let (e, found) = found_lem dec key a c.list v.linked.distinct known in
          let e' : Entry K V = record e { value = value; size = size_of value } in
          let s = (c.size + (size_of value + 2 ^ 64 - e.size) % 2 ^ 64) % 2 ^ 64 in
          let front : LruCache K V = record c {
            list = (a, record e' { time_accessed = now }) ∷ delete ℕ_discrete a c.list;
            size = s;
          } in
          let links : IsLinked dec size_of front =
            front-IsLinked key a s (record e' { time_accessed = now }) c v.linked at found.has_key
              refl
              (omega
                (arith, found.rest_total, v.linked.counted, v.bounded, v.capacity_small, small))
              (omega arith) in
          let touched : view front ≡ touch key value (view c) =
            ground (arith, found.removed, found.has_key) in
          let (c', run, k) = check_capacity_lem dec size_of front links in
          (
            c',
            rw (found.stored, get-put_self ℕ_discrete a e' c.list, delete-put a e' c.list) run,
            rw (← touched) (Kept-Shows front c' k v.capacity_small),
          )

      pub add_new_lem :
          get dec key c.table ≡ none
          → (c' : LruCache K V) × (add_new dec size_of now key value c ≡ some c')
            × Shows c' c.capacity (keep size_of c.capacity (touch key value (view c)))
      unfolding add_new address
      add_new_lem at =
          let no_address : address dec key c.list ≡ none = sym (v.linked.linked key) ∙ at in
          let sum : ℕ = (c.size + size_of value) % 2 ^ 64 in
          let e : Entry K V = record {
            key = key;
            value = value;
            size = size_of value;
            time_accessed = now;
          } in
          let added : LruCache K V = record c {
            list = (c.next, e) ∷ c.list;
            table = put dec key c.next c.table;
            size = sum;
            next = suc c.next;
          } in
          let links : IsLinked dec size_of added = record {
            distinct = (no_address, get-fresh c.next c.list v.linked.fresh, v.linked.distinct);
            linked = λ q. ground (arith, v.linked.linked q, get-put dec key q c.next c.table);
            sized = (refl, v.linked.sized);
            fresh = (omega arith, fresh-suc c.next c.list v.linked.fresh);
            counted = omega (arith, v.linked.counted, v.bounded, v.capacity_small, small);
            in_word = omega (arith, v.bounded, v.capacity_small, small);
          } in
          let touched : view added ≡ touch key value (view c) =
            rw (delete-absent dec key (view c) (absent at)) in
          let (c', run, k) = check_capacity_lem dec size_of added links in
          (c', run, rw (← touched) (Kept-Shows added c' k v.capacity_small))

-- ===== src/Cache/Lru/Evict.antt =====
-- The loop of `checkCapacity` in `lru.go`: it ends, meets no nil element, and keeps the longest
-- prefix that fits.
use ngrok.Prelude.{
  ℕ, zero, suc, ◌+◌, ◌-◌, ◌%◌, ◌^◌, ◌<◌, ◌≤◌, [], ◌∷◌, ◌++◌, ◌≡◌, refl, sym, ap, ◌∙◌, some, All,
  arith, false, length, ltb, Bool-cases, inl, inr, ℕ_discrete, ltb→lt, ltb→le,
}
use ngrok.Prelude.Maps.{Map, get, delete, get-delete}
use ngrok.Cache.Lru.{Entry, LruCache, evict_back, evict, check_capacity}
use ngrok.Cache.Lru.View.{pairs, view, total, address, IsLinked, Sized, keep, weight}
use ngrok.Cache.Lru.Back.{Last-of}
use ngrok.Cache.Lru.Elements.{found_lem, address-delete, Distinct-delete, All-delete}

module _ {K V : Type 0} (size_of : V → ℕ) where
  pub keep_all : (budget : ℕ) (m : Map K V) → weight size_of m ≤ budget → keep size_of budget m ≡ m
  unfolding keep
  keep_all budget [] h = refl
  keep_all budget ((k, v) ∷ m) h = ground (arith, keep_all (budget - size_of v) m)

  -- A last item that is over the budget is none of the items that are kept.
  pub keep-snoc :
      (budget : ℕ) (m : Map K V) (k : K) (v : V)
      → budget < weight size_of (m ++ (k, v) ∷ [])
      → keep size_of budget (m ++ (k, v) ∷ []) ≡ keep size_of budget m
  unfolding keep
  keep-snoc budget [] k v h = ground arith
  keep-snoc budget ((j, w) ∷ m) k v h = ground (arith, keep-snoc (budget - size_of w) m k v)

  pub weight-keep-le : (budget : ℕ) (m : Map K V) → weight size_of (keep size_of budget m) ≤ budget
  unfolding keep
  weight-keep-le budget [] = omega arith
  weight-keep-le budget ((k, v) ∷ m) = ground (arith, weight-keep-le (budget - size_of v) m)

  pub weight-pairs :
      (dec : Discrete K) (l : Map ℕ (Entry K V))
      → All (Sized dec size_of) l
      → weight size_of (pairs l) ≡ total l
  weight-pairs dec [] h = refl
  weight-pairs dec ((a, e) ∷ l) h = omega (arith, weight-pairs dec l h.1, h.0)

module _ {K V : Type 0} (dec : Discrete K) where
  module _ (size_of : V → ℕ) where
    -- One eviction: the links hold again, and the entries that fit are the same.
    record Evicted (c c' : LruCache K V) : Type 0 where
      links : IsLinked dec size_of c'
      fits : keep size_of c.capacity (view c') ≡ keep size_of c.capacity (view c)
      capacity : c'.capacity ≡ c.capacity
      shorter : length c'.list + 1 ≡ length c.list

    -- Taking out an element that the table knows keeps the links.
    pub remove-IsLinked :
        (k : K) (a : ℕ) (e : Entry K V) (c : LruCache K V)
        → IsLinked dec size_of c
        → get dec k c.table ≡ some a
        → get ℕ_discrete a c.list ≡ some e
        → IsLinked dec size_of (record c {
          list = delete ℕ_discrete a c.list;
          table = delete dec k c.table;
          size = (c.size + 2 ^ 64 - e.size) % 2 ^ 64;
        })
    remove-IsLinked k a e c v at stored =
        let known : address dec k c.list ≡ some a = sym (v.linked k) ∙ at in
        let (f, found) = found_lem dec k a c.list v.distinct known in
        let same_entry : f ≡ e = ground (arith, found.stored) in
        let sizes : total (delete ℕ_discrete a c.list) + e.size ≡ total c.list =
          rw (← same_entry) found.rest_total in
        record {
          distinct = Distinct-delete dec a c.list v.distinct;
          linked = λ q. ground (
            arith,
            v.linked q,
            get-delete dec k q c.table,
            address-delete dec k q a c.list v.distinct known,
          );
          sized = All-delete _ a c.list v.sized;
          fresh = All-delete _ a c.list v.fresh;
          counted = omega (arith, sizes, v.counted, v.in_word);
          in_word = omega (arith, sizes, v.in_word);
        }

    evict_back_lem :
        (c : LruCache K V)
        → IsLinked dec size_of c
        → c.capacity < c.size
        → (c' : LruCache K V) × (evict_back dec c ≡ some c') × Evicted c c'
    unfolding evict_back
    evict_back_lem c v over =
        let (a, e, last) = Last-of dec c.list v.distinct (omega (arith, v.counted, over)) in
        let at : get dec e.key c.table ≡ some a = v.linked e.key ∙ last.addressed in
        let heavy : c.capacity < weight size_of (view c) =
          rw (weight-pairs size_of dec c.list v.sized, ← v.counted) over in
        (
          record c {
            list = delete ℕ_discrete a c.list;
            table = delete dec e.key c.table;
            size = (c.size + 2 ^ 64 - e.size) % 2 ^ 64;
          },
          rw last.at_back,
          record {
            links = remove-IsLinked e.key a e c v at last.stored;
            fits = rw last.cut (
                sym (
                  keep-snoc size_of c.capacity (pairs (delete ℕ_discrete a c.list)) e.key e.value
                    (rw last.cut at heavy)));
            capacity = refl;
            shorter = last.shorter;
          },
        )

    pub record Kept (c c' : LruCache K V) : Type 0 where
      pub links : IsLinked dec size_of c'
      pub fits : view c' ≡ keep size_of c.capacity (view c)
      pub capacity : c'.capacity ≡ c.capacity
      pub within : total c'.list ≤ c.capacity

    Kept-self :
        (c : LruCache K V) → IsLinked dec size_of c → ltb c.capacity c.size ≡ false → Kept c c
    Kept-self c v small =
        let light : total c.list ≤ c.capacity =
          omega (arith, ltb→le c.capacity c.size small, v.counted) in
        record {
          links = v;
          fits = sym (
              keep_all size_of c.capacity (view c)
                (rw (weight-pairs size_of dec c.list v.sized) light));
          capacity = refl;
          within = light;
        }

    Kept-step : (c c' c'' : LruCache K V) → Evicted c c' → Kept c' c'' → Kept c c''
    Kept-step c c' c'' e k = record {
      links = k.links;
      fits = cc (k.fits, e.fits, ap (λ n. keep size_of n (view c')) e.capacity);
      capacity = k.capacity ∙ e.capacity;
      within = omega (arith, k.within, e.capacity);
    }

    evict_lem :
        (n : ℕ) (c : LruCache K V)
        → IsLinked dec size_of c
        → length c.list ≤ n
        → (c' : LruCache K V) × (evict dec n c ≡ some c') × Kept c c'
    unfolding evict
    evict_lem zero c v enough = elim (Bool-cases (ltb c.capacity c.size)) [
      | inl over ↦
          let (c', stepped, e) = evict_back_lem c v (ltb→lt c.capacity c.size over) in
          absurd (omega (arith, e.shorter, enough))
      | inr small ↦ (c, rw (small, evict), Kept-self c v small)
    ]
    evict_lem (suc n) c v enough = elim (Bool-cases (ltb c.capacity c.size)) [
      | inl over ↦
          let (c', stepped, e) = evict_back_lem c v (ltb→lt c.capacity c.size over) in
          let (c'', run, k) = evict_lem n c' e.links (omega (arith, e.shorter, enough)) in
          (c'', rw (over, evict, stepped) run, Kept-step c c' c'' e k)
      | inr small ↦ (c, rw (small, evict), Kept-self c v small)
    ]

    -- The loop ends with a cache whose entries are the longest prefix that fits.
    pub check_capacity_lem :
        (c : LruCache K V)
        → IsLinked dec size_of c
        → (c' : LruCache K V) × (check_capacity dec c ≡ some c') × Kept c c'
    unfolding check_capacity
    check_capacity_lem c v = evict_lem (length c.list) c v (omega arith)

-- ===== src/Cache/Lru.antt =====
-- `src/ngrok/cache/lru.go`. The doubly-linked list holds elements in order, the front first; an
-- element is known by its address, which is what the table holds. `none` is a nil dereference.
-- `size_of` is the `Size` method of the values; `now` is the time of the call.
pub mod View
pub mod Elements
pub mod Back
pub mod Evict
pub mod Front
pub mod Refine
pub mod Reload
use ngrok.Prelude.{
  ℕ, zero, suc, ◌+◌, ◌-◌, ◌%◌, ◌^◌, Bool, true, false, List, [], ◌∷◌, map, Option, none, some, ltb,
  length, ◌>>=◌, ℕ_discrete,
}
use ngrok.Prelude.Maps.{Map, get, put, delete}

pub record Entry (K V : Type 0) : Type 0 where
  pub key : K
  pub value : V
  pub size : ℕ
  pub time_accessed : ℕ

pub record LruCache (K V : Type 0) : Type 0 where
  pub list : Map ℕ (Entry K V)
  pub table : Map K ℕ
  pub size : ℕ
  pub capacity : ℕ
  -- the address of the next element that is allocated
  pub next : ℕ

module _ {K V : Type 0} where
  unfoldable pub new_lru_cache : ℕ → LruCache K V
  new_lru_cache capacity = record { list = []; table = []; size = 0; capacity = capacity; next = 0 }

  -- `list.Back()`
  unfoldable pub back : Map ℕ (Entry K V) → Option (ℕ × Entry K V)
  back [] = none
  back (p ∷ []) = some p
  back (p ∷ q ∷ l) = back (q ∷ l)

  unfoldable pub move_to_front : ℕ → ℕ → LruCache K V → Option (LruCache K V)
  move_to_front now a c = do
    e ← get ℕ_discrete a c.list
    some (record c { list = (a, record e { time_accessed = now }) ∷ delete ℕ_discrete a c.list })

  unfoldable pub clear : LruCache K V → LruCache K V
  clear c = record c { list = []; table = []; size = 0 }

  -- Length, size, capacity, and when the element at the back was last used.
  unfoldable pub stats : LruCache K V → ℕ × ℕ × ℕ × Option ℕ
  stats c = (length c.list, c.size, c.capacity, (do (a, e) ← back c.list; some e.time_accessed))

  unfoldable pub keys : LruCache K V → List K
  keys c = map (λ p. p.1.key) c.list

  unfoldable pub items : LruCache K V → List (K × V)
  items c = map (λ p. (p.1.key, p.1.value)) c.list

  -- `SaveItems`; `encode` is the gob encoder.
  unfoldable pub save_items {ℓ} : {B : Type ℓ} → (List (K × V) → B) → LruCache K V → B
  save_items encode c = encode (items c)

module _ {K V : Type 0} (dec : Discrete K) where
  -- One round of the loop of `checkCapacity`.
  unfoldable pub evict_back : LruCache K V → Option (LruCache K V)
  evict_back c = do
    (a, e) ← back c.list
    some (record c {
      list = delete ℕ_discrete a c.list;
      table = delete dec e.key c.table;
      size = (c.size + 2 ^ 64 - e.size) % 2 ^ 64;
    })

  -- The loop, with the number of rounds that it can make at most.
  unfoldable pub evict : ℕ → LruCache K V → Option (LruCache K V)
  unfolding evict_back
  evict zero c = elim (ltb c.capacity c.size) [ true ↦ evict_back c | false ↦ some c ]
  evict (suc n) c = elim (ltb c.capacity c.size) [
    | true ↦ (do c' ← evict_back c; evict n c')
    | false ↦ some c
  ]

  unfoldable pub check_capacity : LruCache K V → Option (LruCache K V)
  unfolding evict
  check_capacity c = evict (length c.list) c

  unfoldable pub get_value : ℕ → K → LruCache K V → Option (LruCache K V × Option V)
  get_value now key c = elim (get dec key c.table) [
    | none ↦ some (c, none)
    | some a ↦ do e ← get ℕ_discrete a c.list; c' ← move_to_front now a c; some (c', some e.value)
  ]

  unfoldable pub delete_key : K → LruCache K V → Option (LruCache K V × Bool)
  delete_key key c = elim (get dec key c.table) [
    | none ↦ some (c, false)
    | some a ↦ do
      e ← get ℕ_discrete a c.list
      some (
        record c {
          list = delete ℕ_discrete a c.list;
          table = delete dec key c.table;
          size = (c.size + 2 ^ 64 - e.size) % 2 ^ 64;
        },
        true,
      )
  ]

  unfoldable pub set_capacity : ℕ → LruCache K V → Option (LruCache K V)
  set_capacity capacity c = check_capacity (record c { capacity = capacity })

  module _ (size_of : V → ℕ) (now : ℕ) where
    unfoldable pub update_inplace : ℕ → V → LruCache K V → Option (LruCache K V)
    update_inplace a value c = do
      e ← get ℕ_discrete a c.list
      let size_diff = (size_of value + 2 ^ 64 - e.size) % 2 ^ 64
      let e' = record e { value = value; size = size_of value }
      c' ←
          move_to_front now a
            (record c { list = put ℕ_discrete a e' c.list; size = (c.size + size_diff) % 2 ^ 64 })
      check_capacity c'

    unfoldable pub add_new : K → V → LruCache K V → Option (LruCache K V)
    add_new key value c = check_capacity (record c {
      list =
          (c.next, record { key = key; value = value; size = size_of value; time_accessed = now })
          ∷ c.list;
      table = put dec key c.next c.table;
      size = (c.size + size_of value) % 2 ^ 64;
      next = suc c.next;
    })

    unfoldable pub set_value : K → V → LruCache K V → Option (LruCache K V)
    set_value key value c = elim (get dec key c.table) [
      | none ↦ add_new key value c
      | some a ↦ update_inplace a value c
    ]

    unfoldable pub set_if_absent : K → V → LruCache K V → Option (LruCache K V)
    set_if_absent key value c = elim (get dec key c.table) [
      | none ↦ add_new key value c
      | some a ↦ move_to_front now a c
    ]

    -- The loop of `LoadItems`, once the items are decoded.
    unfoldable pub load : List (K × V) → LruCache K V → Option (LruCache K V)
    load [] c = some c
    load ((key, value) ∷ rest) c = do c' ← set_value key value c; load rest c'

    -- `LoadItems`: the flag says that the items could be decoded. `decode` is the gob decoder.
    unfoldable pub load_items {ℓ} :
        {B : Type ℓ} → (B → Option (List (K × V))) → B → LruCache K V → Option (LruCache K V × Bool)
    load_items decode bytes c = elim (decode bytes) [
      | none ↦ some (c, false)
      | some loaded ↦ do c' ← load loaded c; some (c', true)
    ]

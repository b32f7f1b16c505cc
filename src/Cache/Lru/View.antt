-- ===== src/Cache/Lru/View.antt =====
-- What the cache of `lru.go` is about: the keys and values from the most to the least recently
-- used, and the invariant that ties the element list, the table and the size to one another.
use ngrok.Prelude.{
  ℕ, ◌+◌, ◌-◌, ◌^◌, ◌≤◌, ◌<◌, [], ◌∷◌, map, ◌≡◌, ite, dec_le, Option, none, some, All,
}
use ngrok.Prelude.Maps.{Map, get}
use ngrok.Prelude.{ℕ_discrete}
use ngrok.Cache.Lru.{Entry, LruCache}

module _ {K V : Type 0} where
  abbrev pub pairs : Map ℕ (Entry K V) → Map K V
  pairs l = map (λ p. (p.1.key, p.1.value)) l

  abbrev pub view : LruCache K V → Map K V
  view c = pairs c.list

  abbrev pub total : Map ℕ (Entry K V) → ℕ
  total [] = 0
  total ((a, e) ∷ l) = e.size + total l

module _ {K V : Type 0} (dec : Discrete K) where
  -- The address of the first element with the key.
  unfoldable pub address : K → Map ℕ (Entry K V) → Option ℕ
  address k [] = none
  address k ((a, e) ∷ l) = ite (dec e.key k) (some a) (address k l)

  -- No key and no address stands twice.
  abbrev pub Distinct : Map ℕ (Entry K V) → Type 0
  Distinct [] = Unit
  Distinct ((a, e) ∷ l) = (address e.key l ≡ none) × (get ℕ_discrete a l ≡ none) × Distinct l

  module _ (size_of : V → ℕ) where
    abbrev pub Sized : ℕ × Entry K V → Type 0
    Sized p = p.1.size ≡ size_of p.1.value

    -- What holds also while the cache is over its capacity.
    pub record IsLinked (c : LruCache K V) : Type 0 where
      pub distinct : Distinct c.list
      pub linked : (k : K) → get dec k c.table ≡ address k c.list
      pub sized : All Sized c.list
      pub fresh : All (λ p. p.0 < c.next) c.list
      pub counted : c.size ≡ total c.list
      pub in_word : total c.list < 2 ^ 64

    -- The invariant between two calls.
    pub record IsValid (c : LruCache K V) : Type 0 where
      pub linked : IsLinked c
      pub bounded : total c.list ≤ c.capacity
      pub capacity_small : c.capacity < 2 ^ 63

-- The longest prefix whose values fit into the budget.
module _ {K V : Type 0} (size_of : V → ℕ) where
  unfoldable pub keep : ℕ → Map K V → Map K V
  keep budget [] = []
  keep budget ((k, v) ∷ m) =
      ite (dec_le (size_of v) budget) ((k, v) ∷ keep (budget - size_of v) m) []

  abbrev pub weight : Map K V → ℕ
  weight [] = 0
  weight ((k, v) ∷ m) = size_of v + weight m

-- ===== src/Cache/Lru/Elements.antt =====
-- Element lists with distinct keys and addresses: what is found at a key, and what is left when an
-- element is taken out.
use ngrok.Prelude.{
  ℕ, suc, ◌+◌, ◌<◌, [], ◌∷◌, ◌≡◌, ◌≢◌, refl, ite, none, some, All, arith, ℕ_discrete,
}
use ngrok.Prelude.Maps.{Map, get, delete, get-delete}
use ngrok.Cache.Lru.{Entry}
use ngrok.Cache.Lru.View.{pairs, total, address, Distinct}

pub delete-absent {ℓ} :
    {K V : Type ℓ} (dec : Discrete K) (k : K) (m : Map K V)
    → get dec k m ≡ none
    → delete dec k m ≡ m
unfolding get delete
delete-absent dec k [] h = refl
delete-absent dec k ((j, w) ∷ m) h = ground (arith, delete-absent dec k m)

module _ {K V : Type 0} (n : ℕ) where
  pub get-fresh : (l : Map ℕ (Entry K V)) → All (λ p. p.0 < n) l → get ℕ_discrete n l ≡ none
  unfolding get
  get-fresh [] h = refl
  get-fresh ((a, e) ∷ l) h = ground (arith, get-fresh l h.1)

  pub fresh-suc : (l : Map ℕ (Entry K V)) → All (λ p. p.0 < n) l → All (λ p. p.0 < suc n) l
  fresh-suc [] h = tt
  fresh-suc ((a, e) ∷ l) h = (omega arith, fresh-suc l h.1)

module _ {K V : Type 0} (P : ℕ × Entry K V → Type 0) where
  pub All-delete : (a : ℕ) (l : Map ℕ (Entry K V)) → All P l → All P (delete ℕ_discrete a l)
  unfolding delete
  All-delete a [] h = tt
  All-delete a ((b, e) ∷ l) h = ground (arith, All-delete a l)

  pub All-get :
      (a : ℕ) (e : Entry K V) (l : Map ℕ (Entry K V))
      → All P l
      → get ℕ_discrete a l ≡ some e
      → P (a, e)
  unfolding get
  All-get a e [] h g = absurd (cc)
  All-get a e ((b, f) ∷ l) h g = elim (ℕ_discrete b a) [
    | yes p ↦ let same_entry : f ≡ e = ground arith in rw (← p, ← same_entry) h.0
    | no p ↦ All-get a e l h.1 (ground arith)
  ]

module _ {K V : Type 0} (dec : Discrete K) where
  -- Nothing is found at a key that no element has.
  pub get-pairs_absent :
      (k : K) (l : Map ℕ (Entry K V)) → address dec k l ≡ none → get dec k (pairs l) ≡ none
  unfolding get address
  get-pairs_absent k [] h = refl
  get-pairs_absent k ((a, e) ∷ l) h = ground (arith, get-pairs_absent k l)

  -- The element at a key of the table: its value, and the list without it.
  pub record Found (k : K) (a : ℕ) (l : Map ℕ (Entry K V)) (e : Entry K V) : Type 0 where
    pub stored : get ℕ_discrete a l ≡ some e
    pub has_key : e.key ≡ k
    pub visible : get dec k (pairs l) ≡ some e.value
    pub removed : pairs (delete ℕ_discrete a l) ≡ delete dec k (pairs l)
    pub rest_total : total (delete ℕ_discrete a l) + e.size ≡ total l

  pub found_lem :
      (k : K) (a : ℕ) (l : Map ℕ (Entry K V))
      → Distinct dec l
      → address dec k l ≡ some a
      → (e : Entry K V) × Found k a l e
  unfolding address get delete
  found_lem k a [] d h = absurd (cc)
  found_lem k a ((b, e) ∷ l) d h = elim (dec e.key k) [
    | yes p ↦
        let same_addr : b ≡ a = ground arith in
        (
          e,
          record {
            stored = ground arith;
            has_key = p;
            visible = ground arith;
            removed = ground (
              arith,
              delete-absent ℕ_discrete a l,
              delete-absent dec k (pairs l),
              get-pairs_absent k l,
            );
            rest_total = ground (arith, delete-absent ℕ_discrete a l);
          },
        )
    | no p ↦
        let later : address dec k l ≡ some a = ground arith in
        let (f, found) = found_lem k a l d.2 later in
        let other : b ≢ a = λ q. absurd (cc (d.1, found.stored)) in
        (
          f,
          record {
            stored = ground arith;
            has_key = found.has_key;
            visible = ground arith;
            removed = ground arith;
            rest_total = ground arith;
          },
        )
  ]

  pub address-delete :
      (k q : K) (a : ℕ) (l : Map ℕ (Entry K V))
      → Distinct dec l
      → address dec k l ≡ some a
      → address dec q (delete ℕ_discrete a l) ≡ ite (dec k q) none (address dec q l)
  unfolding address delete
  address-delete k q a [] d h = absurd (cc)
  address-delete k q a ((b, e) ∷ l) d h = elim (dec e.key k) [
    | yes p ↦ let same_addr : b ≡ a = ground arith in ground (arith, delete-absent ℕ_discrete a l)
    | no p ↦
        let later : address dec k l ≡ some a = ground arith in
        let (f, found) = found_lem k a l d.2 later in
        let other : b ≢ a = λ q. absurd (cc (d.1, found.stored)) in
        ground (arith, address-delete k q a l d.2 later)
  ]

  pub address-delete-none :
      (q : K) (a : ℕ) (l : Map ℕ (Entry K V))
      → address dec q l ≡ none
      → address dec q (delete ℕ_discrete a l) ≡ none
  unfolding address delete
  address-delete-none q a [] h = refl
  address-delete-none q a ((b, e) ∷ l) h = ground (arith, address-delete-none q a l)

  pub Distinct-delete :
      (a : ℕ) (l : Map ℕ (Entry K V)) → Distinct dec l → Distinct dec (delete ℕ_discrete a l)
  unfolding delete
  Distinct-delete a [] d = tt
  Distinct-delete a ((b, e) ∷ l) d = ground (
    arith,
    Distinct-delete a l d.2,
    address-delete-none e.key a l d.0,
    get-delete ℕ_discrete a b l,
  )

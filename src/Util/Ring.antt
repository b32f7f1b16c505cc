-- ===== src/Util/Ring.antt =====
-- The ring of `src/ngrok/util/ring.go`. A list from the front to the back stands for `container/list`.
use ngrok.Prelude.{
  ℕ, zero, suc, ◌≤◌, List, [], ◌∷◌, ◌≡◌, refl, ap, ◌∙◌, sym, Option, none, some, if◌then◌else◌,
  length, take, ltb, ltb→lt, lt→ltb, arith, Bool-cases, inl, inr,
}

pub record Ring {ℓ} (A : Type ℓ) : Type ℓ where
  pub items : List A
  pub capacity : ℕ

module _ {ℓ} {A : Type ℓ} where
  unfoldable pub new_ring : ℕ → Ring A
  new_ring capacity = record { items = []; capacity = capacity }

  -- `Back`, and the list that `Remove` of it leaves.
  unfoldable pub remove_back : List A → Option A × List A
  remove_back [] = (none, [])
  remove_back (x ∷ []) = (some x, [])
  remove_back (x ∷ y ∷ ys) = let (old, rest) = remove_back (y ∷ ys) in (old, x ∷ rest)

  unfoldable pub add : A → Ring A → Ring A × Option A
  add item r =
      let pushed = item ∷ r.items in
      if ltb r.capacity (length pushed)
      then (let (old, rest) = remove_back pushed in (record r { items = rest }, old))
      else (record r { items = pushed }, none)

  unfoldable pub slice : Ring A → List A
  slice r = r.items

  -- The items are added one after another.
  unfoldable pub add_all : List A → Ring A → Ring A
  add_all [] r = r
  add_all (x ∷ xs) r = add_all xs (add x r).0

  -- The items in front of the others, the last one first.
  abbrev pub onto : List A → List A → List A
  onto [] ys = ys
  onto (x ∷ xs) ys = onto xs (x ∷ ys)

  remove_back-take : (n : ℕ) (xs : List A) → length xs ≡ suc n → (remove_back xs).1 ≡ take n xs
  unfolding remove_back
  remove_back-take n [] h = absurd (omega (arith, h))
  remove_back-take zero (x ∷ []) h = refl
  remove_back-take (suc n) (x ∷ []) h = absurd (omega (arith, h))
  remove_back-take zero (x ∷ y ∷ ys) h = absurd (omega (arith, h))
  remove_back-take (suc n) (x ∷ y ∷ ys) h =
      ap (λ l. x ∷ l) (remove_back-take n (y ∷ ys) (omega (arith, h)))

  take_all : (n : ℕ) (xs : List A) → length xs ≤ n → take n xs ≡ xs
  take_all zero [] h = refl
  take_all zero (x ∷ xs) h = absurd (omega (arith, h))
  take_all (suc n) [] h = refl
  take_all (suc n) (x ∷ xs) h = ap (λ l. x ∷ l) (take_all n xs (omega (arith, h)))

  -- An item that is added stands first, and the ring keeps as many of the items as it has room for.
  add-take :
      (item : A) (r : Ring A)
      → length r.items ≤ r.capacity
      → (add item r).0 ≡ record r { items = take r.capacity (item ∷ r.items) }
  unfolding add
  add-take item r h = elim (Bool-cases (ltb r.capacity (length (item ∷ r.items)))) [
    | inl over ↦
        let full : length (item ∷ r.items) ≡ suc r.capacity =
          omega (arith, h, ltb→lt r.capacity (length (item ∷ r.items)) over) in
        rw over
          (ap (λ l. record r { items = l }) (remove_back-take r.capacity (item ∷ r.items) full))
    | inr fits ↦
        let small : length (item ∷ r.items) ≤ r.capacity =
          ground (arith, lt→ltb r.capacity (length (item ∷ r.items))) in
        rw fits
          (ap (λ l. record r { items = l }) (sym (take_all r.capacity (item ∷ r.items) small)))
  ]

  take-take : (n : ℕ) (x : A) (xs : List A) → take n (x ∷ take n xs) ≡ take n (x ∷ xs)
  take-take zero x xs = refl
  take-take (suc n) x xs = ap (λ l. x ∷ l) (shorter n xs)
    where
      shorter : (n : ℕ) (xs : List A) → take n (take (suc n) xs) ≡ take n xs
      shorter zero xs = refl
      shorter (suc n) [] = refl
      shorter (suc n) (x ∷ xs) = ap (λ l. x ∷ l) (shorter n xs)

  length-take-le : (n : ℕ) (xs : List A) → length (take n xs) ≤ n
  length-take-le zero xs = omega arith
  length-take-le (suc n) [] = omega arith
  length-take-le (suc n) (x ∷ xs) = omega (arith, length-take-le n xs)

  onto-take : (n : ℕ) (xs ys : List A) → take n (onto xs (take n ys)) ≡ take n (onto xs ys)
  onto-take n [] ys = take_all n (take n ys) (length-take-le n ys)
  onto-take n (x ∷ xs) ys =
      sym (onto-take n xs (x ∷ take n ys))
      ∙ ap (λ l. take n (onto xs l)) (take-take n x ys)
      ∙ onto-take n xs (x ∷ ys)

  -- After any items have been added, the ring holds the last ones, the newest first: as many as its
  -- capacity, or all if there are fewer. The ring it starts with is no fuller than its capacity.
  pub slice-add_all :
      (xs : List A) (r : Ring A)
      → length r.items ≤ r.capacity
      → slice (add_all xs r) ≡ take r.capacity (onto xs r.items)
  unfolding slice add_all
  slice-add_all [] r h = sym (take_all r.capacity r.items h)
  slice-add_all (x ∷ xs) r h =
      ap (λ q. slice (add_all xs q)) (add-take x r h)
      ∙ slice-add_all xs (record r { items = take r.capacity (x ∷ r.items) })
          (length-take-le r.capacity (x ∷ r.items))
      ∙ onto-take r.capacity xs (x ∷ r.items)

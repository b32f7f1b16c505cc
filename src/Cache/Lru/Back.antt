-- ===== src/Cache/Lru/Back.antt =====
-- The element at the back of the list of `lru.go`.
use ngrok.Prelude.{
  ℕ, ◌+◌, ◌<◌, [], ◌∷◌, ◌++◌, ◌≡◌, ◌≢◌, refl, ap, ◌∙◌, some, arith, length, ℕ_discrete,
}
use ngrok.Prelude.Maps.{Map, get, delete}
use ngrok.Cache.Lru.{Entry, back}
use ngrok.Cache.Lru.View.{pairs, total, address, Distinct}

module _ {K V : Type 0} (dec : Discrete K) where
  -- The element at the back is found by its key, and is the last of the view.
  pub record Last (l : Map ℕ (Entry K V)) (a : ℕ) (e : Entry K V) : Type 0 where
    pub at_back : back l ≡ some (a, e)
    pub stored : get ℕ_discrete a l ≡ some e
    pub addressed : address dec e.key l ≡ some a
    pub cut : pairs l ≡ pairs (delete ℕ_discrete a l) ++ (e.key, e.value) ∷ []
    pub shorter : length (delete ℕ_discrete a l) + 1 ≡ length l

  Last-cons :
      (b a : ℕ) (f e : Entry K V) (l : Map ℕ (Entry K V))
      → Distinct dec ((b, f) ∷ l)
      → Last l a e
      → back ((b, f) ∷ l) ≡ back l
      → Last ((b, f) ∷ l) a e
  unfolding get address delete
  Last-cons b a f e l d last same_back =
      let other_key : f.key ≢ e.key =
        λ q. absurd (cc (ap (λ k. address dec k l) q, d.0, last.addressed)) in
      let other_addr : b ≢ a = λ q. absurd (cc (d.1, last.stored)) in
      record {
        at_back = same_back ∙ last.at_back;
        stored = ground (arith, last.stored);
        addressed = ground (arith, last.addressed);
        cut = ground (arith, last.cut);
        shorter = ground (arith, last.shorter);
      }

  last_lem :
      (p : ℕ × Entry K V) (l : Map ℕ (Entry K V))
      → Distinct dec (p ∷ l)
      → (a : ℕ) × (e : Entry K V) × Last (p ∷ l) a e
  unfolding get back address delete
  last_lem (a, e) [] d = (
    a,
    e,
    record {
      at_back = refl;
      stored = ground arith;
      addressed = ground arith;
      cut = ground arith;
      shorter = ground arith;
    },
  )
  last_lem (b, f) (q ∷ l) d =
      let (a, e, last) = last_lem q l d.2 in (a, e, Last-cons b a f e (q ∷ l) d last refl)

  pub Last-of :
      (l : Map ℕ (Entry K V))
      → Distinct dec l
      → 0 < total l
      → (a : ℕ) × (e : Entry K V) × Last l a e
  Last-of [] d h = absurd (omega arith)
  Last-of (p ∷ l) d h = last_lem p l d

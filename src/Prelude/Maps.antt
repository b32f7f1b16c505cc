-- ===== src/Prelude/Maps.antt =====
-- Go's maps, as association lists over keys with a decidable equality.
use mathlib.Core.List.{List, [], ◌∷◌}
use mathlib.Core.Logic.{ite, ◌≢◌}
use mathlib.Core.Option.{Option, none, some}
use mathlib.Core.Path.{◌≡◌, refl}
use native.Mathlib.Omega.{arith}

abbrev pub Map {ℓ} : Type ℓ → Type ℓ → Type ℓ
Map K V = List (K × V)

module _ {ℓ} {K V : Type ℓ} (dec : Discrete K) where
  unfoldable pub get : K → Map K V → Option V
  get k [] = none
  get k ((j, v) ∷ m) = ite (dec j k) (some v) (get k m)

  unfoldable pub put : K → V → Map K V → Map K V
  put k v [] = (k, v) ∷ []
  put k v ((j, w) ∷ m) = ite (dec j k) ((k, v) ∷ m) ((j, w) ∷ put k v m)

  unfoldable pub delete : K → Map K V → Map K V
  delete k [] = []
  delete k ((j, w) ∷ m) = ite (dec j k) (delete k m) ((j, w) ∷ delete k m)

  pub get-put :
      (k q : K) (v : V) (m : Map K V) → get q (put k v m) ≡ ite (dec k q) (some v) (get q m)
  unfolding get put
  get-put k q v [] = refl
  get-put k q v ((j, w) ∷ m) = ground (arith, get-put k q v m)

  pub get-delete : (k q : K) (m : Map K V) → get q (delete k m) ≡ ite (dec k q) none (get q m)
  unfolding get delete
  get-delete k q [] = ground arith
  get-delete k q ((j, w) ∷ m) = ground (arith, get-delete k q m)

  pub get-put_self : (k : K) (v : V) (m : Map K V) → get k (put k v m) ≡ some v
  get-put_self k v m = ground (arith, get-put k k v m)

  pub get-put_ne : (k q : K) (v : V) (m : Map K V) → k ≢ q → get q (put k v m) ≡ get q m
  get-put_ne k q v m h = ground (arith, get-put k q v m)

  pub get-delete_self : (k : K) (m : Map K V) → get k (delete k m) ≡ none
  get-delete_self k m = ground (arith, get-delete k k m)

  pub get-delete_ne : (k q : K) (m : Map K V) → k ≢ q → get q (delete k m) ≡ get q m
  get-delete_ne k q m h = ground (arith, get-delete k q m)

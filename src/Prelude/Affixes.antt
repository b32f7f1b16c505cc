-- ===== src/Prelude/Affixes.antt =====
-- What `strings.HasSuffix` and the equality of texts decide.
use mathlib.Core.Bool.{true, false}
use mathlib.Core.List.{List, [], ◌∷◌, ◌++◌}
use mathlib.Core.Logic.{◌↔◌, ◌≢◌}
use mathlib.Core.Path.{◌≡◌, refl, sym, ap, ◌∙◌}
use Prim.Native.Nat.{ℕ, zero, suc, ◌+◌, ◌-◌}
use native.Mathlib.Omega.{arith}
use ngrok.Prelude.Lists.{length, take, drop, length-append}
use ngrok.Prelude.Text.{Text, same, has_suffix}

pub same_iff : (a b : Text) → (same a b ≡ true) ↔ (a ≡ b)
same_iff a b = (λ h. ground arith, λ h. ground arith)

pub same-false_iff : (a b : Text) → (same a b ≡ false) ↔ (a ≢ b)
same-false_iff a b = (λ h e. ground arith, λ h. ground arith)

pub take-append-drop {ℓ} : {A : Type ℓ} (n : ℕ) (xs : List A) → take n xs ++ drop n xs ≡ xs
take-append-drop zero xs = refl
take-append-drop (suc n) [] = refl
take-append-drop (suc n) (x ∷ xs) = ap (◌∷◌ x) (take-append-drop n xs)

pub drop-append {ℓ} : {A : Type ℓ} (xs ys : List A) → drop (length xs) (xs ++ ys) ≡ ys
drop-append [] ys = refl
drop-append (x ∷ xs) ys = drop-append xs ys

pub has_suffix_iff :
    (s suffix : Text) → (has_suffix s suffix ≡ true) ↔ ((p : Text) × (s ≡ p ++ suffix))
unfolding has_suffix
has_suffix_iff s suffix = (
  λ h.
      let n = length s - length suffix in
      let tail : drop n s ≡ suffix = ground arith in
      (take n s, sym (ap (◌++◌ (take n s)) (sym tail) ∙ take-append-drop n s)),
  λ (p, e).
      let n : length s ≡ length p + length suffix = ap length e ∙ length-append p suffix in
      let here : drop (length p) s ≡ suffix = ap (drop (length p)) e ∙ drop-append p suffix in
      let short : length s - length suffix ≡ length p = omega (arith, n) in
      ground (arith, n, here, short, ap (λ (k : ℕ). drop k s) short),
)

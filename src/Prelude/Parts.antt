-- ===== src/Prelude/Parts.antt =====
-- Texts that are put together of parts, and split or trimmed again.
use Prim.Native.Nat.{ℕ}
use mathlib.Core.Bool.{Bool, false}
use mathlib.Core.List.{List, [], ◌∷◌, ◌++◌}
use mathlib.Core.Path.{◌≡◌, refl, ap, ◌∙◌}
use native.Mathlib.Omega.{arith}
use ngrok.Prelude.Tests.{◌==◌, if◌then◌else◌}
use ngrok.Prelude.Lists.{All}
use ngrok.Prelude.Text.{Text, split, split_n, join, is_space, trim_left, trim_right, trim_space}
use ngrok.Prelude.HostPort.{contains_byte}

-- A character does not stand in a text.
abbrev pub Lacks : ℕ → Text → Type 0
Lacks b s = contains_byte s b ≡ false

pub Lacks-tail : (b c : ℕ) (s : Text) → Lacks b (c ∷ s) → Lacks b s
unfolding contains_byte
Lacks-tail b c s h = ground (arith, h)

pub Lacks-head : (b c : ℕ) (s : Text) → Lacks b (c ∷ s) → (c == b) ≡ false
unfolding contains_byte
Lacks-head b c s h = ground (arith, h)

pub Lacks-append : (b : ℕ) (s t : Text) → Lacks b s → Lacks b t → Lacks b (s ++ t)
unfolding contains_byte
Lacks-append b [] t hs ht = ht
Lacks-append b (c ∷ s) t hs ht =
    rw (Lacks-head b c s hs, contains_byte) (Lacks-append b s t (Lacks-tail b c s hs) ht)

pub split-part :
    (sep : ℕ) (s rest : Text) → Lacks sep s → split sep (s ++ sep ∷ rest) ≡ s ∷ split sep rest
unfolding split
split-part sep [] rest h = ground arith
split-part sep (c ∷ s) rest h =
    rw (Lacks-head sep c s h, split, split-part sep s rest (Lacks-tail sep c s h)) refl

pub split-whole : (sep : ℕ) (s : Text) → Lacks sep s → split sep s ≡ s ∷ []
unfolding split
split-whole sep [] h = refl
split-whole sep (c ∷ s) h =
    rw (Lacks-head sep c s h, split, split-whole sep s (Lacks-tail sep c s h)) refl

-- Parts that are joined by a character that none of them has are found again.
pub split-join :
    (sep : ℕ) (p : Text) (ps : List Text)
    → All (Lacks sep) (p ∷ ps)
    → split sep (join (sep ∷ []) (p ∷ ps)) ≡ p ∷ ps
unfolding join
split-join sep p [] h = split-whole sep p h.0
split-join sep p (q ∷ ps) h =
    ap (split sep) (joined p (join (sep ∷ []) (q ∷ ps)))
    ∙ (split-part sep p (join (sep ∷ []) (q ∷ ps)) h.0 ∙ ap (◌∷◌ p) (split-join sep q ps h.1))
  where
    joined : (a b : Text) → a ++ (sep ∷ []) ++ b ≡ a ++ sep ∷ b
    joined [] b = refl
    joined (c ∷ a) b = ap (◌∷◌ c) (joined a b)

pub split_n-one : (sep : ℕ) (s : Text) → split_n sep 1 s ≡ s ∷ []
unfolding split_n
split_n-one sep [] = refl
split_n-one sep (c ∷ s) = refl

pub split_n-pair :
    (sep : ℕ) (s rest : Text) → Lacks sep s → split_n sep 2 (s ++ sep ∷ rest) ≡ s ∷ rest ∷ []
unfolding split_n
split_n-pair sep [] rest h = ground (arith, split_n-one sep rest)
split_n-pair sep (c ∷ s) rest h =
    rw (Lacks-head sep c s h, split_n, split_n-pair sep s rest (Lacks-tail sep c s h)) refl

-- What ends in a text that loses nothing on the right loses nothing either.
pub trim_right-append :
    (p : ℕ → Bool) (s : Text) (c : ℕ) (t : Text)
    → trim_right p (c ∷ t) ≡ c ∷ t
    → trim_right p (s ++ c ∷ t) ≡ s ++ c ∷ t
unfolding trim_right
trim_right-append p [] c t h = h
trim_right-append p (d ∷ []) c t h = rw (h, trim_right) refl
trim_right-append p (d ∷ e ∷ s) c t h = rw (trim_right-append p (e ∷ s) c t h, trim_right) refl

pub trim_right-last :
    (p : ℕ → Bool) (s : Text) (c : ℕ) → p c ≡ false → trim_right p (s ++ c ∷ []) ≡ s ++ c ∷ []
unfolding trim_right
trim_right-last p s c h = trim_right-append p s c [] (rw (h, trim_right) refl)

pub trim_left-head : (p : ℕ → Bool) (c : ℕ) (s : Text) → p c ≡ false → trim_left p (c ∷ s) ≡ c ∷ s
unfolding trim_left
trim_left-head p c s h = rw (h, trim_left) refl

-- A text that neither begins nor ends with white space.
pub trim_space-whole :
    (c : ℕ) (s : Text)
    → is_space c ≡ false
    → trim_right is_space (c ∷ s) ≡ c ∷ s
    → trim_space (c ∷ s) ≡ c ∷ s
unfolding trim_space
trim_space-whole c s head tail = rw (trim_left-head is_space c s head) tail

-- Nothing is trimmed from a text without white space.
pub trim_right-none : (p : ℕ → Bool) (s : Text) → All (λ c. p c ≡ false) s → trim_right p s ≡ s
unfolding trim_right
trim_right-none p [] h = refl
trim_right-none p (c ∷ s) h = rw (trim_right-none p s h.1, trim_right) (last c s h.0)
  where
    last :
        (d : ℕ) (t : Text)
        → p d ≡ false
        → elim t [ [] ↦ if p d then [] else d ∷ [] | e ∷ r ↦ d ∷ e ∷ r ] ≡ d ∷ t
    last d [] k = rw k refl
    last d (e ∷ r) k = refl

pub trim_space-none : (s : Text) → All (λ c. is_space c ≡ false) s → trim_space s ≡ s
unfolding trim_space trim_left
trim_space-none [] h = refl
trim_space-none (c ∷ s) h = trim_space-whole c s h.0 (trim_right-none is_space (c ∷ s) h)

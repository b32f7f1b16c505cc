-- ===== src/Admin/CertArgs/Fields.antt =====
-- `strings.Fields` and `strings.Join` with a space, which the extra arguments of
-- `src/ngrok/admin/main.go` go through.
use ngrok.Prelude.{
  ℕ, false, List, [], ◌∷◌, ◌++◌, ◌≡◌, ◌≢◌, refl, ap, ◌∙◌, All, Bool-cases, inl, inr,
}
use ngrok.Prelude.Text.{Text, text, is_space, join, cons_head}
use ngrok.Admin.Names.{fields_func}
use ngrok.Admin.CertArgs.{fields_of}

abbrev IsVisible : ℕ → Type 0
IsVisible c = is_space c ≡ false

-- A field is not empty and has no white space.
abbrev pub IsField : Text → Type 0
IsField f = (f ≢ []) × All IsVisible f

fields_space : (rest : Text) → fields_of (32 ∷ rest) ≡ fields_of rest
unfolding fields_func
fields_space [] = refl
fields_space (c ∷ rest) = refl

fields-word :
    (c : ℕ) (s rest : Text)
    → All IsVisible (c ∷ s)
    → fields_of ((c ∷ s) ++ 32 ∷ rest) ≡ (c ∷ s) ∷ fields_of rest
unfolding fields_func
fields-word c [] rest h = rw (h.0, fields_func, fields_space rest) refl
fields-word c (d ∷ s) rest h = rw (h.0, fields_func, h.1.0, fields-word d s rest h.1) refl

fields-last : (c : ℕ) (s : Text) → All IsVisible (c ∷ s) → fields_of (c ∷ s) ≡ (c ∷ s) ∷ []
unfolding fields_func
fields-last c [] h = rw (h.0, fields_func) refl
fields-last c (d ∷ s) h = rw (h.0, fields_func, h.1.0, fields-last d s h.1) refl

-- Fields that are joined are found again.
pub fields-join : (fs : List Text) → All IsField fs → fields_of (join (text " ") fs) ≡ fs
unfolding join fields_func
fields-join [] h = refl
fields-join ([] ∷ fs) h = absurd (h.0.0 refl)
fields-join ((c ∷ s) ∷ []) h = fields-last c s h.0.1
fields-join ((c ∷ s) ∷ f ∷ fs) h =
    ap fields_of (spaced (c ∷ s) (join (text " ") (f ∷ fs)))
    ∙ (fields-word c s (join (text " ") (f ∷ fs)) h.0.1
        ∙ ap (◌∷◌ (c ∷ s)) (fields-join (f ∷ fs) h.1))
  where
    spaced : (a b : Text) → a ++ text " " ++ b ≡ a ++ 32 ∷ b
    spaced [] b = refl
    spaced (d ∷ a) b = ap (◌∷◌ d) (spaced a b)

cons_head-IsField :
    (c : ℕ) (fs : List Text) → IsVisible c → All IsField fs → All IsField (cons_head c fs)
cons_head-IsField c [] v h = ((λ e. cc, (v, tt)), tt)
cons_head-IsField c (f ∷ fs) v h = ((λ e. cc, (v, h.0.1)), h.1)

pub fields-IsField : (s : Text) → All IsField (fields_of s)
unfolding fields_func
fields-IsField [] = tt
fields-IsField (c ∷ []) = elim (Bool-cases (is_space c)) [
  | inl e ↦ rw (e, fields_func) tt
  | inr e ↦ rw (e, fields_func) ((λ q. cc, (e, tt)), tt)
]
fields-IsField (c ∷ d ∷ s) = elim (Bool-cases (is_space c)) [
  | inl e ↦ rw (e, fields_func) (fields-IsField (d ∷ s))
  | inr e ↦ elim (Bool-cases (is_space d)) [
    | inl g ↦ rw (e, fields_func, g) ((λ q. cc, (e, tt)), fields-IsField (d ∷ s))
    | inr g ↦
        rw (e, fields_func, g) (cons_head-IsField c (fields_of (d ∷ s)) e (fields-IsField (d ∷ s)))
  ]
]

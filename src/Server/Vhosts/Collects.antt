-- ===== src/Server/Vhosts/Collects.antt =====
-- Lists that are collected with a map `seen`, as in `publicVhosts` and `configuredDomains`.
use ngrok.Prelude.{
  true, List, [], ◌∷◌, ◌++◌, ◌≡◌, ◌≢◌, refl, sym, ap, ◌∙◌, ◌⊎◌, inl, inr, ◌↔◌, arith, Bool-cases,
  In, In-append_left, In-append_right,
}
use ngrok.Prelude.Text.{Text, same}
use ngrok.Prelude.Affixes.{same_iff}
use ngrok.Server.Vhosts.{seen_before}

pub seen_before_sound : (x : Text) (l : List Text) → seen_before x l ≡ true → In x l
unfolding seen_before
seen_before_sound x [] h = cc
seen_before_sound x (y ∷ l) h = elim (Bool-cases (same y x)) [
  | inl e ↦ inl (sym ((same_iff y x).0 e))
  | inr e ↦ inr (seen_before_sound x l (rw (e, seen_before) at h))
]

pub seen_before_complete : (x : Text) (l : List Text) → In x l → seen_before x l ≡ true
unfolding seen_before
seen_before_complete x [] m = absurd m
seen_before_complete x (y ∷ l) (inl e) = ground arith
seen_before_complete x (y ∷ l) (inr m) = ground (arith, seen_before_complete x l m)

-- No text is empty, and none stands twice.
abbrev pub Distinct : List Text → Type 0
Distinct [] = Unit
Distinct (x ∷ l) = (x ≢ []) × (¬ In x l) × Distinct l

pub In-append_elim : (x : Text) (l k : List Text) → In x (l ++ k) → In x l ⊎ In x k
In-append_elim x [] k m = inr m
In-append_elim x (y ∷ l) k (inl e) = inl (inl e)
In-append_elim x (y ∷ l) k (inr m) = elim (In-append_elim x l k m) [
  | inl h ↦ inl (inr h)
  | inr h ↦ inr h
]

pub Distinct-snoc :
    (x : Text) (l : List Text) → x ≢ [] → ¬ In x l → Distinct l → Distinct (l ++ x ∷ [])
Distinct-snoc x [] e n d = (e, (λ m. m), tt)
Distinct-snoc x (y ∷ l) e n d = (
  d.0,
  (λ m. elim (In-append_elim y l (x ∷ []) m) [
    | inl h ↦ d.1 h
    | inr h ↦ elim h [ inl p ↦ n (inl (sym p)) | inr q ↦ q ]
  ]),
  Distinct-snoc x l e (λ m. n (inr m)) d.2,
)

-- The map `seen` and the list `result` hold the same texts.
abbrev pub Agree : List Text → List Text → Type 0
Agree seen result = (x : Text) → In x seen ↔ In x result

pub Agree-add :
    (y : Text) (seen result : List Text) → Agree seen result → Agree (y ∷ seen) (result ++ y ∷ [])
Agree-add y seen result h x = (
  (λ m. elim m [
    | inl e ↦ In-append_right x result (y ∷ []) (inl e)
    | inr k ↦ In-append_left x result (y ∷ []) ((h x).0 k)
  ]),
  λ m. elim (In-append_elim x result (y ∷ []) m) [
    | inl k ↦ inr ((h x).1 k)
    | inr k ↦ elim k [ inl e ↦ inl e | inr q ↦ absurd q ]
  ],
)

-- The list holds what was there, and each item's normal form unless that is empty.
pub record Collects (normal : Text → Text) (items result out : List Text) : Type 0 where
  pub distinct : Distinct out
  pub keeps : (x : Text) → In x result → In x out
  pub holds_all : (i : Text) → In i items → normal i ≢ [] → In (normal i) out
  pub only : (x : Text) → In x out → In x result ⊎ ((i : Text) × In i items × (x ≡ normal i))

module _ (normal : Text → Text) (item : Text) (items result out : List Text) where
  -- An item that is passed over.
  pub Collects-skip :
      (normal item ≡ []) ⊎ In (normal item) result
      → Collects normal items result out
      → Collects normal (item ∷ items) result out
  Collects-skip why c = record {
    distinct = c.distinct;
    keeps = c.keeps;
    holds_all = λ i m n. elim m [
      | inl e ↦ elim why [
        | inl empty ↦ absurd (n (ap normal e ∙ empty))
        | inr there ↦ rw e (c.keeps (normal item) there)
      ]
      | inr k ↦ c.holds_all i k n
    ];
    only = λ x m. elim (c.only x m) [ inl k ↦ inl k | inr (i, k, e) ↦ inr (i, inr k, e) ];
  }

  -- An item that is added.
  pub Collects-add :
      Collects normal items (result ++ normal item ∷ []) out
      → Collects normal (item ∷ items) result out
  Collects-add c = record {
    distinct = c.distinct;
    keeps = λ x m. c.keeps x (In-append_left x result (normal item ∷ []) m);
    holds_all = λ i m n. elim m [
      | inl e ↦ rw e (
          c.keeps (normal item)
            (In-append_right (normal item) result (normal item ∷ []) (inl refl)))
      | inr k ↦ c.holds_all i k n
    ];
    only = λ x m. elim (c.only x m) [
      | inl k ↦ elim (In-append_elim x result (normal item ∷ []) k) [
        | inl there ↦ inl there
        | inr new ↦ elim new [ inl e ↦ inr (item, inl refl, e) | inr q ↦ absurd q ]
      ]
      | inr (i, k, e) ↦ inr (i, inr k, e)
    ];
  }

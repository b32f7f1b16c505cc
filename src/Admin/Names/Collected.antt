-- ===== src/Admin/Names/Collected.antt =====
-- The lists of domains that the administration collects, `src/ngrok/admin/main.go`.
use ngrok.Prelude.{
  Bool, true, false, not, ◌||◌, List, [], ◌∷◌, ◌++◌, ◌≡◌, ◌≢◌, ◌↔◌, refl, sym, ap, ◌∙◌,
  if◌then◌else◌, arith, Bool-cases, inl, inr, ◌⊎◌, In,
}
use ngrok.Prelude.Text.{Text, same}
use ngrok.Server.Vhosts.{seen_before}
use ngrok.Server.Vhosts.Collects.{
  Agree, Agree-add, Distinct, Distinct-snoc, Collects, Collects-skip, Collects-add,
}
use ngrok.Server.Vhosts.Distinct.{skip_cases, add_cases}
use ngrok.Admin.Names.{
  normalize_domain, valid_domain_name, collect_domains, parse_domain_input, fields_func,
  is_separator,
}

-- The domain that an item stands for, or nothing.
abbrev pub admitted : (Text → Bool) → Text → Text
admitted wanted item = if wanted (normalize_domain item) then normalize_domain item else []

-- What the list has: no domain twice, none that is not wanted, and each that an item stands for.
pub record IsCollected (wanted : Text → Bool) (items out : List Text) : Type 0 where
  pub distinct : Distinct out
  pub all_wanted : (d : Text) → In d out → wanted d ≡ true
  pub exactly :
      (d : Text)
      → In d out ↔ (
          (d ≢ [])
          × (wanted d ≡ true)
          × ((item : Text) × In item items × (normalize_domain item ≡ d)))

collect_domains_lem :
    (wanted : Text → Bool) (items seen result : List Text)
    → Agree seen result
    → Distinct result
    → Collects (admitted wanted) items result (collect_domains wanted items seen result)
unfolding collect_domains
collect_domains_lem wanted [] seen result agree d = record {
  distinct = d;
  keeps = λ x m. m;
  holds_all = λ i m n. absurd m;
  only = λ x m. inl m;
}
collect_domains_lem wanted (item ∷ items) seen result agree d =
    let x = normalize_domain item in
    elim (Bool-cases (wanted x)) [
      | inr unwanted ↦
          let skip : (same x [] || seen_before x seen || not (wanted x)) ≡ true =
            ground (arith, unwanted) in
          rw (skip, collect_domains)
            (Collects-skip (admitted wanted) item items result _ (inl (rw unwanted refl))
              (collect_domains_lem wanted items seen result agree d))
      | inl fits ↦
          let same_name : admitted wanted item ≡ x = rw fits refl in
          elim (Bool-cases (same x [] || seen_before x seen)) [
            | inl skip ↦
                let pass : (same x [] || seen_before x seen || not (wanted x)) ≡ true =
                  ground (arith, skip) in
                let why : (admitted wanted item ≡ []) ⊎ In (admitted wanted item) result =
                  rw same_name (skip_cases x seen result agree skip) in
                rw (pass, collect_domains)
                  (Collects-skip (admitted wanted) item items result _ why
                    (collect_domains_lem wanted items seen result agree d))
            | inr new ↦
                let (full, fresh) = add_cases x seen result agree new in
                let pass : (same x [] || seen_before x seen || not (wanted x)) ≡ false =
                  ground (arith, new, fits) in
                let rest =
                  collect_domains_lem wanted items (x ∷ seen) (result ++ x ∷ [])
                    (Agree-add x seen result agree) (Distinct-snoc x result full fresh d) in
                rw (pass, collect_domains)
                  (Collects-add (admitted wanted) item items result _ (rw same_name rest))
          ]
    ]

Distinct-filled : (d : Text) (l : List Text) → Distinct l → In d l → d ≢ []
Distinct-filled d (x ∷ l) h (inl e) = λ empty. h.0 (sym e ∙ empty)
Distinct-filled d (x ∷ l) h (inr m) = Distinct-filled d l h.2 m
Distinct-filled d [] h m = absurd m

admitted-wanted :
    (wanted : Text → Bool) (item d : Text)
    → d ≢ []
    → d ≡ admitted wanted item
    → (wanted d ≡ true) × (normalize_domain item ≡ d)
admitted-wanted wanted item d filled e = elim (Bool-cases (wanted (normalize_domain item))) [
  | inl fits ↦
      let same_name : d ≡ normalize_domain item = rw fits at e in
      (ap wanted same_name ∙ fits, sym same_name)
  | inr other ↦ absurd (filled (rw other at e))
]

admitted-fits :
    (wanted : Text → Bool) (item d : Text)
    → wanted d ≡ true
    → normalize_domain item ≡ d
    → admitted wanted item ≡ d
admitted-fits wanted item d w e = rw (e, w) refl

pub collect_domains-IsCollected :
    (wanted : Text → Bool) (items : List Text)
    → IsCollected wanted items (collect_domains wanted items [] [])
collect_domains-IsCollected wanted items =
    let c = collect_domains_lem wanted items [] [] (λ x. ((λ m. m), λ m. m)) tt in
    let source : (d : Text)
        → In d (collect_domains wanted items [] [])
        → (d ≢ [])
          × (wanted d ≡ true)
          × ((item : Text) × In item items × (normalize_domain item ≡ d)) =
      λ d m. elim (c.only d m) [
        | inl none_yet ↦ absurd none_yet
        | inr (item, there, e) ↦
            let filled = Distinct-filled d (collect_domains wanted items [] []) c.distinct m in
            let (w, n) = admitted-wanted wanted item d filled e in (filled, w, (item, there, n))
      ] in
    record {
      distinct = c.distinct;
      all_wanted = λ d m. (source d m).1;
      exactly = λ d. (
        source d,
        λ (filled, w, (item, there, n)).
            let found = admitted-fits wanted item d w n in
            rw found at (c.holds_all item there (λ empty. filled (sym found ∙ empty))),
      );
    }

-- What `parseDomainInput` gives: valid domains, none twice, exactly the normal forms of the fields
-- that are valid.
pub parse_domain_input-IsCollected :
    (input : Text)
    → IsCollected valid_domain_name (fields_func is_separator input) (parse_domain_input input)
unfolding parse_domain_input
parse_domain_input-IsCollected input =
    collect_domains-IsCollected valid_domain_name (fields_func is_separator input)

-- ===== src/Admin/CertArgs/Lookup.antt =====
-- The certificate that is set for a domain is the one that is found, `upsertDomainCertArg` and
-- `domainCertArgPaths` of `src/ngrok/admin/main.go`.
use ngrok.Prelude.{
  ℕ, true, false, List, [], ◌∷◌, ◌++◌, ◌≡◌, ◌≢◌, ◌⊎◌, refl, sym, ap, ◌∙◌, none, some, ◌==◌, All,
  All-append, arith, Bool-cases, Option-cases, inl, inr, append_assoc, ◌||◌,
}
use ngrok.Prelude.Text.{Text, text, same, is_space, after_prefix}
use ngrok.Prelude.Affixes.{same_iff, same-false_iff}
use ngrok.Prelude.Parts.{Lacks, split_n-pair}
use ngrok.Admin.Config.{has_prefix}
use ngrok.Admin.CertArgs.{
  flag, flag_eq, cert_parts, parse_domain_cert_value, inline_value, find_cert, fields_of,
  domain_cert_arg_paths, without_cert, cert_arg, upsert_domain_cert_arg,
}
use ngrok.Admin.CertArgs.Fields.{IsField, fields-join, fields-IsField}

-- A value does not look like an option.
abbrev pub IsValue : Text → Type 0
IsValue n = has_prefix n (text "-") ≡ false

-- Every `-domainCert` is followed by its value.
abbrev pub IsPaired : List Text → Type 0
IsPaired [] = Unit
IsPaired (f ∷ []) = f ≢ flag
IsPaired (f ∷ n ∷ fs) = ((f ≡ flag) × IsValue n × IsPaired fs) ⊎ ((f ≢ flag) × IsPaired (n ∷ fs))

prefix_found : (p s : Text) → after_prefix p (p ++ s) ≡ some s
unfolding after_prefix
prefix_found [] s = refl
prefix_found (c ∷ p) s =
    let here : (c == c) ≡ true = ground arith in rw (here, after_prefix) (prefix_found p s)

prefix-append :
    (a p s r : Text) → after_prefix a s ≡ some r → after_prefix (a ++ p) s ≡ after_prefix p r
unfolding after_prefix
prefix-append [] p s r h = ap (after_prefix p) (some-inj h)
  where
    some-inj : {x y : Text} → some x ≡ some y → x ≡ y
    some-inj e = cc
prefix-append (c ∷ a) p [] r h = absurd (cc)
prefix-append (c ∷ a) p (d ∷ s) r h = elim (Bool-cases (c == d)) [
  | inl e ↦ rw (e, after_prefix) (prefix-append a p s r (rw (e, after_prefix) at h))
  | inr e ↦ absurd (cc (rw (e, after_prefix) at h))
]

no_prefix : (s p : Text) → has_prefix s p ≡ false → after_prefix p s ≡ none
no_prefix s p h = elim (Option-cases (after_prefix p s)) [
  | inl e ↦ e
  | inr (r, e) ↦ absurd (cc (rw (e, has_prefix) at h))
]

no_inline :
    (prefix f : Text) → has_prefix f (flag_eq ++ prefix) ≡ false → inline_value prefix f ≡ none
unfolding inline_value parse_domain_cert_value
no_inline prefix f h = elim (Option-cases (after_prefix flag_eq f)) [
  | inl e ↦ rw (e, inline_value) refl
  | inr (r, e) ↦
      let off : after_prefix prefix r ≡ none =
        sym (prefix-append flag_eq prefix f r e) ∙ no_prefix f (flag_eq ++ prefix) h in
      rw (e, inline_value, off, parse_domain_cert_value) refl
]

no_value : (prefix n : Text) → has_prefix n prefix ≡ false → parse_domain_cert_value n prefix ≡ none
unfolding parse_domain_cert_value
no_value prefix n h = rw (no_prefix n prefix h, parse_domain_cert_value) refl

first_char : (c : ℕ) (n : Text) → (c ∷ n) ≡ flag → c ≡ b'-'
first_char c n e = cc

value-no_option :
    (n p : Text) → IsValue n → (same n flag ≡ false) × (has_prefix n (flag_eq ++ p) ≡ false)
unfolding after_prefix
value-no_option [] p v = ((same-false_iff [] flag).1 (λ e. cc), refl)
value-no_option (c ∷ n) p v =
    let other : (b'-' == c) ≡ false = ground (arith, v) in
    (
      (same-false_iff (c ∷ n) flag).1 (λ e. ground (arith, other, first_char c n e)),
      rw (other, has_prefix, after_prefix) refl,
    )

value_kept :
    (prefix n : Text) (fs : List Text)
    → IsValue n
    → without_cert prefix (n ∷ fs) ≡ n ∷ without_cert prefix fs
unfolding without_cert
value_kept prefix n [] v = rw ((value-no_option n prefix v).1, without_cert) refl
value_kept prefix n (m ∷ fs) v =
    rw ((value-no_option n prefix v).0, without_cert, (value-no_option n prefix v).1) refl

skip_field :
    (prefix f new : Text) (l : List Text)
    → f ≢ flag
    → inline_value prefix f ≡ none
    → find_cert prefix (f ∷ (l ++ new ∷ [])) ≡ find_cert prefix (l ++ new ∷ [])
unfolding find_cert
skip_field prefix f new [] ne off = rw ((same-false_iff f flag).1 ne, find_cert, off) refl
skip_field prefix f new (x ∷ l) ne off = rw ((same-false_iff f flag).1 ne, find_cert, off) refl

-- What is left of the arguments hides nothing that follows.
find_cert-without_cert :
    (prefix new : Text) (fs : List Text)
    → IsPaired fs
    → find_cert prefix (without_cert prefix fs ++ new ∷ []) ≡ find_cert prefix (new ∷ [])
unfolding without_cert find_cert
find_cert-without_cert prefix new [] h = refl
find_cert-without_cert prefix new (f ∷ []) ne =
    elim (Bool-cases (has_prefix f (flag_eq ++ prefix))) [
      | inl e ↦ rw (e, without_cert) refl
      | inr e ↦ rw (e, without_cert) (skip_field prefix f new [] ne (no_inline prefix f e))
    ]
find_cert-without_cert prefix new (f ∷ n ∷ fs) (inl (e, v, h)) =
    let option = (same_iff f flag).1 e in
    elim (Bool-cases (has_prefix n prefix)) [
      | inl mine ↦ rw (option, without_cert, mine) (find_cert-without_cert prefix new fs h)
      | inr other ↦
          rw (option, without_cert, other, value_kept prefix n fs v)
            (rw (option, find_cert, no_value prefix n other)
              (find_cert-without_cert prefix new fs h))
    ]
find_cert-without_cert prefix new (f ∷ n ∷ fs) (inr (ne, h)) =
    let plain = (same-false_iff f flag).1 ne in
    elim (Bool-cases (has_prefix f (flag_eq ++ prefix))) [
      | inl mine ↦ rw (plain, without_cert, mine) (find_cert-without_cert prefix new (n ∷ fs) h)
      | inr other ↦
          rw (plain, without_cert, other)
            (skip_field prefix f new (without_cert prefix (n ∷ fs)) ne (no_inline prefix f other)
              ∙ find_cert-without_cert prefix new (n ∷ fs) h)
    ]

without_cert-IsField :
    (prefix : Text) (fs : List Text) → All IsField fs → All IsField (without_cert prefix fs)
unfolding without_cert
without_cert-IsField prefix [] h = tt
without_cert-IsField prefix (f ∷ []) h = elim (Bool-cases (has_prefix f (flag_eq ++ prefix))) [
  | inl e ↦ rw (e, without_cert) tt
  | inr e ↦ rw (e, without_cert) h
]
without_cert-IsField prefix (f ∷ n ∷ fs) h =
    let behind = without_cert-IsField prefix fs h.1.1 in
    let rest = without_cert-IsField prefix (n ∷ fs) h.1 in
    elim (Bool-cases (same f flag)) [
      | inl option ↦ elim (Bool-cases (has_prefix n prefix)) [
        | inl mine ↦ rw (option, without_cert, mine) behind
        | inr other ↦ rw (option, without_cert, other) (h.0, rest)
      ]
      | inr plain ↦ elim (Bool-cases (has_prefix f (flag_eq ++ prefix))) [
        | inl mine ↦ rw (plain, without_cert, mine) rest
        | inr other ↦ rw (plain, without_cert, other) (h.0, rest)
      ]
    ]

cert_arg-IsField :
    (domain crt key : Text)
    → All (λ c. is_space c ≡ false) domain
    → IsField crt
    → IsField key
    → IsField (cert_arg domain crt key)
cert_arg-IsField domain crt key d c k =
    let visible : ℕ → Type 0 = λ b. is_space b ≡ false in
    let paths = All-append visible crt (b':' ∷ key) c.1 (refl, k.1) in
    let value = All-append visible domain (b':' ∷ (crt ++ b':' ∷ key)) d (refl, paths) in
    (
      (λ e. cc),
      All-append visible flag_eq _
          (
            refl,
            (
              refl,
              (refl, (refl, (refl, (refl, (refl, (refl, (refl, (refl, (refl, (refl, tt)))))))))),
            ),
          )
          value,
    )

cert_arg_found :
    (domain crt key : Text)
    → crt ≢ []
    → key ≢ []
    → Lacks b':' crt
    → find_cert (domain ++ b':' ∷ []) (cert_arg domain crt key ∷ []) ≡ some (crt, key)
unfolding find_cert inline_value parse_domain_cert_value cert_parts
cert_arg_found domain crt key c k colon =
    let value = domain ++ (b':' ∷ (crt ++ b':' ∷ key)) in
    let whole : value ≡ (domain ++ b':' ∷ []) ++ (crt ++ b':' ∷ key) =
      sym (append_assoc domain (b':' ∷ []) (crt ++ b':' ∷ key)) in
    let filled : (same crt [] || same key []) ≡ false =
      ground (arith, (same-false_iff crt []).1 c, (same-false_iff key []).1 k) in
    let found : after_prefix (domain ++ b':' ∷ []) value ≡ some (crt ++ b':' ∷ key) =
      ap (after_prefix (domain ++ b':' ∷ [])) whole
      ∙ prefix_found (domain ++ b':' ∷ []) (crt ++ b':' ∷ key) in
    rw
      (
        prefix_found flag_eq value,
        inline_value,
        found,
        parse_domain_cert_value,
        split_n-pair b':' crt key colon,
        cert_parts,
        filled,
      )
      refl

-- The certificate that `upsertDomainCertArg` sets for a domain is the one that `domainCertArgPaths`
-- finds. The domain and the two paths have no white space, the paths are not empty, neither the first
-- path nor the domain has a colon, and every option among the arguments is followed by its value.
pub domain_cert_arg_paths-upsert_domain_cert_arg :
    (extra_args domain crt key : Text)
    → IsPaired (fields_of extra_args)
    → All (λ c. is_space c ≡ false) domain
    → IsField crt
    → IsField key
    → Lacks b':' crt
    → domain_cert_arg_paths (upsert_domain_cert_arg extra_args domain crt key) domain
      ≡ some (crt, key)
unfolding domain_cert_arg_paths upsert_domain_cert_arg
domain_cert_arg_paths-upsert_domain_cert_arg extra_args domain crt key paired visible c k colon =
    let prefix = domain ++ b':' ∷ [] in
    let new = cert_arg domain crt key in
    let kept = without_cert prefix (fields_of extra_args) in
    ap (find_cert prefix) (
      fields-join (kept ++ new ∷ []) (
        All-append IsField kept (new ∷ [])
          (without_cert-IsField prefix (fields_of extra_args) (fields-IsField extra_args))
          (cert_arg-IsField domain crt key visible c k, tt)))
    ∙ (find_cert-without_cert prefix new (fields_of extra_args) paired
        ∙ cert_arg_found domain crt key c.0 k.0 colon)

-- ===== src/Admin/Domains/Appending.antt =====
-- The settings that the addition of a domain makes, `src/ngrok/admin/main.go`.
use mathlib.Core.Path.{subst}
use ngrok.Prelude.{
  true, false, not, ◌||◌, List, [], ◌∷◌, ◌++◌, ◌≡◌, ◌↔◌, ◌⊎◌, refl, sym, ap, ◌∙◌, Option,
  if◌then◌else◌, In, In-append_left, In-append_right, inl, inr, Bool-cases,
}
use ngrok.Prelude.Text.{Text, text, same, split, join}
use ngrok.Prelude.Affixes.{same_iff, same-false_iff}
use ngrok.Server.Vhosts.Collects.{In-append_elim}
use ngrok.Admin.Config.{ServerConfig, first, first_given, apply_defaults, default_like_domain}
use ngrok.Admin.Env.{Strconv}
use ngrok.Admin.Names.{normalize_domain, valid_domain_name, append_domain, contains_item}
use ngrok.Admin.Names.Valid.{normalize_domain_valid}
use ngrok.Admin.Names.Collected.{collect_domains-IsCollected}
use ngrok.Admin.Domains.Changes.{
  domains_in, wanted-valid, wanted-filled, domains_in_iff, AreWanted, wanted_of,
}
use ngrok.Admin.Domains.Removing.{kept_wanted, not_default-filled}
use ngrok.Admin.Domains.Deleting.{accepted}
use ngrok.Admin.Domains.{is_wanted, vhost_of, configured_domain_list, Paths, add_to_config}

contains_item_iff : (l : List Text) (d : Text) → (contains_item l d ≡ true) ↔ In d l
unfolding contains_item
contains_item_iff [] d = (λ h. cc, λ m. absurd m)
contains_item_iff (y ∷ l) d =
    let (sound, complete) = contains_item_iff l d in
    elim (Bool-cases (same y d)) [
      | inl e ↦ (λ h. inl (sym ((same_iff y d).0 e)), λ m. rw (e, contains_item) refl)
      | inr e ↦ (
        λ h. inr (sound (rw (e, contains_item) at h)),
        λ m.
            rw (e, contains_item)
              (elim m [
                | inl here ↦ absurd ((same-false_iff y d).0 e (sym here))
                | inr there ↦ complete there
              ]),
      )
    ]

-- A domain that is appended is there once.
append_domain_iff :
    (l : List Text) (name d : Text)
    → normalize_domain name ≡ d
    → (same d [] || not (valid_domain_name d)) ≡ false
    → (x : Text) → In x (append_domain l name) ↔ (In x l ⊎ (x ≡ d))
unfolding append_domain
append_domain_iff l name d normal fits x = elim (Bool-cases (contains_item l d)) [
  | inl old ↦
      let here = (contains_item_iff l d).0 old in
      (
        λ m. inl (rw (normal, append_domain, fits, old) at m),
        λ m.
            rw (normal, append_domain, fits, old)
              (elim m [ inl there ↦ there | inr e ↦ subst (λ y. In y l) (sym e) here ]),
      )
  | inr new ↦ (
    λ m.
        let m' : In x (l ++ d ∷ []) = rw (normal, append_domain, fits, new) at m in
        elim (In-append_elim x l (d ∷ []) m') [
          | inl there ↦ inl there
          | inr k ↦ elim k [ inl e ↦ inr e | inr q ↦ absurd q ]
        ],
    λ m.
        rw (normal, append_domain, fits, new)
          (elim m [
            | inl there ↦ In-append_left x l (d ∷ []) there
            | inr e ↦ In-append_right x l (d ∷ []) (inl e)
          ]),
  )
]

pub wanted_lem :
    (d : Text) → valid_domain_name d ≡ true → default_like_domain d ≡ false → is_wanted d ≡ true
unfolding is_wanted
wanted_lem d valid other = rw (valid, other) refl

module _ (domain : Text) (wanted : is_wanted domain ≡ true) where
  own_name : normalize_domain domain ≡ domain
  own_name = normalize_domain_valid domain (wanted-valid domain wanted).0

  appended : (l : List Text) (x : Text) → In x (append_domain l domain) ↔ (In x l ⊎ (x ≡ domain))
  appended l =
      append_domain_iff l domain domain own_name
        (accepted domain (wanted-valid domain wanted).0 (wanted-filled domain wanted))

  -- The domains of settings whose virtual hosts are a list and the domain.
  domains_in-append :
      (c : ServerConfig) (base : List Text)
      → AreWanted base
      → c.vhost ≡ join (text ",") (append_domain base domain)
      → (x : Text)
      → (is_wanted x ≡ true
          → normalize_domain (first c.domain (text "example.com")) ≡ x
          → In x base ⊎ (x ≡ domain))
      → In x (domains_in c) ↔ (In x base ⊎ (x ≡ domain))
  domains_in-append c base w e x primary = go (append_domain base domain) refl
    where
      go :
          (l : List Text)
          → append_domain base domain ≡ l
          → In x (domains_in c) ↔ (In x base ⊎ (x ≡ domain))
      go [] none_there = absurd (rw none_there at (appended base domain).1 (inr refl))
      go (q ∷ qs) there =
          let hosts : AreWanted (q ∷ qs) = kept_wanted (q ∷ qs) (λ y m.
            elim ((appended base y).0 (rw there m)) [
              | inl old ↦ wanted_of base y w old
              | inr new ↦ ap is_wanted new ∙ wanted
            ]) in
          let (sound, complete) = domains_in_iff c q qs hosts (e ∙ ap (join (text ",")) there) x in
          (
            λ m. elim (sound m) [
              | inl host ↦ (appended base x).0 (rw there host)
              | inr (v, n) ↦ primary v n
            ],
            λ m. complete (inl (rw there at (appended base x).1 m)),
          )

  -- The settings of a request.
  add_to_config-vhost :
      (k : Strconv) (p : Paths) (file : Option Text) (control_hosts : List Text) (c : ServerConfig)
      → (add_to_config k p file domain control_hosts c).vhost
        ≡ join (text ",") (
            append_domain
              (if default_like_domain c.domain then [] else configured_domain_list k file c)
              domain)
  unfolding add_to_config
  add_to_config-vhost k p file control_hosts c = refl

  add_to_config-domain :
      (k : Strconv) (p : Paths) (file : Option Text) (control_hosts : List Text) (c : ServerConfig)
      → (add_to_config k p file domain control_hosts c).domain
        ≡ (if default_like_domain c.domain then domain else c.domain)
  unfolding add_to_config
  add_to_config-domain k p file control_hosts c = elim (Bool-cases (default_like_domain c.domain)) [
    | inl fresh ↦ rw fresh refl
    | inr old ↦ rw old refl
  ]

-- Settings with their defaults gain the domain; the example domain gives way to it.
pub add_to_config_iff :
    (k : Strconv) (p : Paths) (file : Option Text) (domain : Text) (control_hosts : List Text)
    (c : ServerConfig)
    → apply_defaults c ≡ c
    → is_wanted domain ≡ true
    → (x : Text)
    → In x (domains_in (add_to_config k p file domain control_hosts c)) ↔ (
        (x ≡ domain)
        ⊎ ((default_like_domain c.domain ≡ false) × In x (configured_domain_list k file c)))
unfolding configured_domain_list
add_to_config_iff k p file domain control_hosts c settled wanted x =
    let current = configured_domain_list k file c in
    let collected =
      collect_domains-IsCollected is_wanted
        ((apply_defaults c).domain ∷ split b',' (vhost_of k file (apply_defaults c))) in
    let c' = add_to_config k p file domain control_hosts c in
    let vhost = add_to_config-vhost domain wanted k p file control_hosts c in
    let named = add_to_config-domain domain wanted k p file control_hosts c in
    elim (Bool-cases (default_like_domain c.domain)) [
      | inl fresh ↦
          let new_domain : c'.domain ≡ domain = rw fresh at named in
          let primary : is_wanted x ≡ true
              → normalize_domain (first c'.domain (text "example.com")) ≡ x
              → In x [] ⊎ (x ≡ domain) =
            λ w n. inr (
              sym (
                sym (
                  ap normalize_domain (
                    ap (λ v. first v (text "example.com")) new_domain
                    ∙ first_given domain (text "example.com") (wanted-filled domain wanted))
                  ∙ own_name domain wanted)
                ∙ n)) in
          let (sound, complete) =
            domains_in-append domain wanted c' [] tt (rw fresh at vhost) x primary in
          (
            λ m. elim (sound m) [ inl q ↦ absurd q | inr e ↦ inl e ],
            λ m. complete (elim m [ inl e ↦ inr e | inr (old, q) ↦ absurd (cc (old, fresh)) ]),
          )
      | inr old ↦
          let old_domain : c'.domain ≡ c.domain = rw old at named in
          let primary : is_wanted x ≡ true
              → normalize_domain (first c'.domain (text "example.com")) ≡ x
              → In x current ⊎ (x ≡ domain) =
            λ w n. inl (
              (collected.exactly x).1 (
                wanted-filled x w,
                w,
                (
                  c.domain,
                  inl (ap (λ v. v.domain) (sym settled)),
                  sym (
                        ap normalize_domain (
                          ap (λ v. first v (text "example.com")) old_domain
                          ∙ first_given c.domain (text "example.com")
                              (not_default-filled c.domain old)))
                      ∙ n,
                ),
              )) in
          let (sound, complete) =
            domains_in-append domain wanted c' current (kept_wanted current collected.all_wanted)
              (rw old at vhost) x primary in
          (
            λ m. elim (sound m) [ inl there ↦ inr (old, there) | inr e ↦ inl e ],
            λ m. complete (elim m [ inl e ↦ inr e | inr (_, there) ↦ inl there ]),
          )
    ]

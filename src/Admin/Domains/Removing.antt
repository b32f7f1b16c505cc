-- ===== src/Admin/Domains/Removing.antt =====
-- What the removal of a domain does to the list of domains, `src/ngrok/admin/main.go`.
use ngrok.Prelude.{
  ℕ, Bool, true, false, not, ◌||◌, ◌&&◌, List, [], ◌∷◌, ◌++◌, ◌≡◌, ◌≢◌, ◌↔◌, ◌⊎◌, refl, sym, ap,
  ◌∙◌, Option, none, some, if◌then◌else◌, length, ◌==◌, All, In, inl, inr, arith, Bool-cases,
  Option-cases,
}
use ngrok.Prelude.Text.{Text, text, text_dec, same, split, join, trim_space}
use ngrok.Prelude.HostPort.{contains_byte}
use ngrok.Prelude.Affixes.{same_iff, same-false_iff}
use ngrok.Admin.Config.{ServerConfig, first, first_given, apply_defaults, default_like_domain}
use ngrok.Admin.Env.{Strconv}
use ngrok.Admin.Names.{
  normalize_domain, valid_domain_name, collect_domains, parse_domain_input, append_domain,
}
use ngrok.Admin.Names.Valid.{normalize_domain_valid}
use ngrok.Admin.Names.Collected.{IsCollected, collect_domains-IsCollected}
use ngrok.Admin.CertArgs.{domain_cert_arg_paths}
use ngrok.Admin.Domains.Changes.{domains_in, wanted-valid, wanted-filled, domains_in_iff, AreWanted}
use ngrok.Admin.Domains.{
  is_wanted, vhost_of, configured_domain_list, Paths, remove_from, no_domains, promote,
  remove_found,
}

remove_from_iff :
    (domain : Text) (l : List Text) (x : Text)
    → In x (remove_from domain l).0 ↔ (In x l × (x ≢ domain))
unfolding remove_from
remove_from_iff domain [] x = (λ m. absurd m, λ m. m.0)
remove_from_iff domain (y ∷ l) x =
    let (sound, complete) = remove_from_iff domain l x in
    elim (Bool-cases (same y domain)) [
      | inl e ↦
          let eq = (same_iff y domain).0 e in
          (
            λ m. let (there, other) = sound (rw (e, remove_from) at m) in (inr there, other),
            λ (m, other).
                rw (e, remove_from)
                  (elim m [
                    | inl here ↦ absurd (other (here ∙ eq))
                    | inr there ↦ complete (there, other)
                  ]),
          )
      | inr e ↦
          let ne = (same-false_iff y domain).0 e in
          (
            λ m.
                let m' : (x ≡ y) ⊎ In x (remove_from domain l).0 = rw (e, remove_from) at m in
                elim m' [
                  | inl here ↦ (inl here, λ eq. ne (sym here ∙ eq))
                  | inr there ↦ let (kept, other) = sound there in (inr kept, other)
                ],
            λ (m, other).
                rw (e, remove_from)
                  (elim m [ inl here ↦ inl here | inr there ↦ inr (complete (there, other)) ]),
          )
    ]

promote-domain :
    (p : Paths) (domain next : Text) (c : ServerConfig) → (promote p domain next c).domain ≡ next
unfolding promote
promote-domain p domain next c = go (domain_cert_arg_paths c.extra_args next) refl
  where
    go :
        (r : Option (Text × Text))
        → domain_cert_arg_paths c.extra_args next ≡ r
        → (promote p domain next c).domain ≡ next
    go none e = rw (e, promote) refl
    go (some (crt, key)) e = rw (e, promote) refl

-- The primary domain after the removal: the next one, or the one before, which is another.
remove_found-domain :
    (p : Paths) (domain next : Text) (remaining : List Text) (c : ServerConfig)
    → ((remove_found p domain (next ∷ remaining) c).domain ≡ next)
      ⊎ (((remove_found p domain (next ∷ remaining) c).domain ≡ c.domain)
          × (normalize_domain c.domain ≢ domain)
          × (default_like_domain c.domain ≡ false))
unfolding remove_found
remove_found-domain p domain next remaining c =
    elim (Bool-cases (same (normalize_domain c.domain) domain || default_like_domain c.domain)) [
      | inr stays ↦ inr (
        rw stays refl,
        (same-false_iff (normalize_domain c.domain) domain).0 (ground (arith, stays)),
        ground (arith, stays),
      )
      | inl moves ↦ inl (rw moves (promote-domain p domain next c))
    ]

remove_found-vhost :
    (p : Paths) (domain next : Text) (remaining : List Text) (c : ServerConfig)
    → (remove_found p domain (next ∷ remaining) c).vhost ≡ join (text ",") (next ∷ remaining)
unfolding remove_found
remove_found-vhost p domain next remaining c = refl

pub not_default-filled : (d : Text) → default_like_domain d ≡ false → d ≢ []
unfolding default_like_domain text_dec
not_default-filled [] h = absurd (cc)
not_default-filled (c ∷ d) h = λ e. cc

none_left :
    (p : Paths) (domain : Text) (c : ServerConfig) → domains_in (remove_found p domain [] c) ≡ []
unfolding remove_found no_domains apply_defaults first text_dec split collect_domains
    normalize_domain is_wanted default_like_domain ngrok.Admin.Names.strip_port
    ngrok.Prelude.HostPort.split_host_port ngrok.Prelude.Text.trim_suffix
    ngrok.Admin.Names.trim_prefix ngrok.Prelude.Text.after_prefix ngrok.Prelude.Text.to_lower
    trim_space ngrok.Server.Vhosts.seen_before
none_left p domain c = refl

pub kept_wanted : (l : List Text) → ((x : Text) → In x l → is_wanted x ≡ true) → AreWanted l
kept_wanted [] h = tt
kept_wanted (y ∷ l) h = (h y (inl refl), kept_wanted l (λ x m. h x (inr m)))

-- Settings with their defaults lose exactly the domain.
pub remove_found_iff :
    (k : Strconv) (p : Paths) (file : Option Text) (domain extra_args : Text) (c : ServerConfig)
    → apply_defaults c ≡ c
    → (x : Text)
    → In x (
        domains_in (
          remove_found p domain
            (remove_from domain (configured_domain_list k file c)).0
            (record c { extra_args = extra_args })))
      ↔ (In x (configured_domain_list k file c) × (x ≢ domain))
unfolding configured_domain_list
remove_found_iff k p file domain extra_args c settled x = go (remove_from domain current).0 refl
  where
    current : List Text
    current = configured_domain_list k file c

    collected :
        IsCollected is_wanted
          ((apply_defaults c).domain ∷ split b',' (vhost_of k file (apply_defaults c)))
          current
    collected = collect_domains-IsCollected is_wanted _

    d : ServerConfig
    d = record c { extra_args = extra_args }

    go :
        (r : List Text)
        → (remove_from domain current).0 ≡ r
        → In x (domains_in (remove_found p domain r d)) ↔ (In x current × (x ≢ domain))
    go [] e = (
      λ m. absurd (rw (none_left p domain d) at m),
      λ m. absurd (rw e at (remove_from_iff domain current x).1 m),
    )
    go (next ∷ rest) e =
        let kept : (y : Text) → In y (next ∷ rest) → In y current × (y ≢ domain) =
          λ y m. (remove_from_iff domain current y).0 (rw e m) in
        let wanted = kept_wanted (next ∷ rest) (λ y m. collected.all_wanted y (kept y m).0) in
        let (sound, complete) =
          domains_in_iff (remove_found p domain (next ∷ rest) d) next rest wanted
            (remove_found-vhost p domain next rest d) x in
        (
          λ m. elim (sound m) [
            | inl host ↦ kept x host
            | inr (w, n) ↦ elim (remove_found-domain p domain next rest d) [
              | inl promoted ↦
                  let same_name : next ≡ x =
                    sym (normalize_domain_valid next (wanted-valid next wanted.0).0)
                    ∙ (ap normalize_domain (
                          sym (
                            ap (λ v. first v (text "example.com")) promoted
                            ∙ first_given next (text "example.com") (wanted-filled next wanted.0)))
                        ∙ n) in
                  kept x (inl (sym same_name))
              | inr (stays, other, not_default) ↦
                  let same_name : normalize_domain c.domain ≡ x =
                    ap normalize_domain (
                      sym (
                        ap (λ v. first v (text "example.com")) stays
                        ∙ first_given c.domain (text "example.com")
                            (not_default-filled c.domain not_default)))
                    ∙ n in
                  (
                    (collected.exactly x).1 (
                      wanted-filled x w,
                      w,
                      (c.domain, inl (ap (λ v. v.domain) (sym settled)), same_name),
                    ),
                    λ gone. other (same_name ∙ gone),
                  )
            ]
          ],
          λ m. complete (inl (rw e at (remove_from_iff domain current x).1 m)),
        )

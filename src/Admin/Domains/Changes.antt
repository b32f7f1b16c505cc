-- ===== src/Admin/Domains/Changes.antt =====
-- What the requests do to the list of domains, `src/ngrok/admin/main.go`.
use mathlib.Core.Path.{subst}
use ngrok.Prelude.{
  Bool, true, false, List, [], ◌∷◌, ◌≡◌, ◌≢◌, ◌↔◌, ◌⊎◌, refl, sym, ap, ◌∙◌, Option, some,
  if◌then◌else◌, ◌==◌, All, In, inl, inr, arith,
}
use ngrok.Prelude.Text.{Text, text, text_dec, same, split, join}
use ngrok.Prelude.HostPort.{contains_byte}
use ngrok.Prelude.Parts.{Lacks, split-join}
use ngrok.Server.Names.Labels.{NameChar, valid_hostname-NameChar}
use ngrok.Admin.Config.{
  ServerConfig, first, apply_defaults, apply_defaults_again, default_like_domain,
}
use ngrok.Admin.Env.{Strconv, read_server_config, write_server_config}
use ngrok.Admin.Env.Written.{IsStrconv}
use ngrok.Admin.Env.RoundTrip.{read_server_config-write_server_config, value_of-write_server_config}
use ngrok.Admin.Names.{normalize_domain, valid_domain_name, collect_domains}
use ngrok.Admin.Names.Valid.{valid_domain_name-valid_hostname, normalize_domain_valid}
use ngrok.Admin.Names.Collected.{collect_domains-IsCollected}
use ngrok.Admin.Domains.{is_wanted, vhost_of, configured_domain_list}

-- The domains of a file, as the handlers see them.
abbrev pub domains_of : Strconv → Option Text → List Text
domains_of k file = configured_domain_list k file (apply_defaults (read_server_config k file))

-- The domains of settings, the first of which is the primary one.
abbrev pub domains_in : ServerConfig → List Text
domains_in c =
    collect_domains is_wanted (first c.domain (text "example.com") ∷ split b',' c.vhost) [] []

either_way : (b : Bool) (x : Text) → (if b then x else x) ≡ x
either_way true x = refl
either_way false x = refl

pub domains_of-write :
    (k : Strconv) (c : ServerConfig)
    → IsStrconv k
    → domains_of k (some (write_server_config k c)) ≡ domains_in c
unfolding configured_domain_list vhost_of apply_defaults
domains_of-write k c law =
    let file = some (write_server_config k c) in
    let settled : apply_defaults (apply_defaults (read_server_config k file)) ≡ apply_defaults c =
      ap (λ d. apply_defaults (apply_defaults d)) (read_server_config-write_server_config k c law)
      ∙ (ap apply_defaults (apply_defaults_again c) ∙ apply_defaults_again c) in
    ap (λ d. collect_domains is_wanted (d.domain ∷ split b',' (vhost_of k file d)) [] []) settled
    ∙ ap (λ v. collect_domains is_wanted (first c.domain (text "example.com") ∷ split b',' v) [] [])
        (rw (value_of-write_server_config k c law) (either_way (same c.vhost []) c.vhost))

pub wanted-valid :
    (d : Text) → is_wanted d ≡ true → (valid_domain_name d ≡ true) × (default_like_domain d ≡ false)
unfolding is_wanted
wanted-valid d h = (ground (arith, h), ground (arith, h))

names_comma : (s : Text) → All NameChar s → Lacks b',' s
unfolding contains_byte
names_comma [] h = refl
names_comma (c ∷ s) h =
    let other : (c == b',') ≡ false = ground (arith, h.0) in
    rw (other, contains_byte) (names_comma s h.1)

-- Names that are wanted, and so their own normal forms without a comma.
abbrev pub AreWanted : List Text → Type 0
AreWanted = All (λ d. is_wanted d ≡ true)

wanted_commas : (l : List Text) → AreWanted l → All (Lacks b',') l
wanted_commas [] h = tt
wanted_commas (d ∷ l) h =
    let valid = (wanted-valid d h.0).0 in
    (
      names_comma d (valid_hostname-NameChar d (valid_domain_name-valid_hostname d valid)),
      wanted_commas l h.1,
    )

pub wanted_of : (l : List Text) (d : Text) → AreWanted l → In d l → is_wanted d ≡ true
wanted_of (x ∷ l) d h (inl e) = ap is_wanted e ∙ h.0
wanted_of (x ∷ l) d h (inr m) = wanted_of l d h.1 m
wanted_of [] d h m = absurd m

pub wanted-filled : (d : Text) → is_wanted d ≡ true → d ≢ []
unfolding is_wanted default_like_domain text_dec
wanted-filled [] h = absurd (cc)
wanted-filled (c ∷ d) h = λ e. cc

-- The domains of settings whose virtual hosts are wanted names: these, and the primary domain.
pub domains_in_iff :
    (c : ServerConfig) (p : Text) (ps : List Text)
    → AreWanted (p ∷ ps)
    → c.vhost ≡ join (text ",") (p ∷ ps)
    → (x : Text)
    → In x (domains_in c) ↔ (
        In x (p ∷ ps)
        ⊎ ((is_wanted x ≡ true) × (normalize_domain (first c.domain (text "example.com")) ≡ x)))
domains_in_iff c p ps w e x =
    let first_domain = first c.domain (text "example.com") in
    let parts : split b',' c.vhost ≡ p ∷ ps =
      ap (split b',') e ∙ split-join b',' p ps (wanted_commas (p ∷ ps) w) in
    let collected = collect_domains-IsCollected is_wanted (first_domain ∷ split b',' c.vhost) in
    let (sound, complete) = collected.exactly x in
    (
      λ m.
          let (filled, wanted, (item, there, n)) = sound m in
          elim there [
            | inl primary ↦ inr (wanted, ap normalize_domain (sym primary) ∙ n)
            | inr host ↦
                let host' : In item (p ∷ ps) = rw parts at host in
                let own =
                  normalize_domain_valid item
                    (wanted-valid item (wanted_of (p ∷ ps) item w host')).0 in
                inl (subst (λ y. In y (p ∷ ps)) (sym own ∙ n) host')
          ],
      λ m. elim m [
        | inl host ↦
            let wanted = wanted_of (p ∷ ps) x w host in
            let there : In x (split b',' c.vhost) = rw parts host in
            complete (
              wanted-filled x wanted,
              wanted,
              (x, inr there, normalize_domain_valid x (wanted-valid x wanted).0),
            )
        | inr (wanted, n) ↦ complete (wanted-filled x wanted, wanted, (first_domain, inl refl, n))
      ],
    )

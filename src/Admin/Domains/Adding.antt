-- ===== src/Admin/Domains/Adding.antt =====
-- What the addition of a domain does to the list of domains, `src/ngrok/admin/main.go`.
use ngrok.Prelude.{
  true, false, not, ◌&&◌, List, [], ◌∷◌, ◌≡◌, ◌↔◌, ◌⊎◌, refl, Option, some, length, ◌==◌, In, inl,
  inr, Bool-cases, arith,
}
use ngrok.Prelude.Text.{Text, same, trim_space}
use ngrok.Prelude.Affixes.{same_iff, same-false_iff}
use ngrok.Admin.Config.{apply_defaults, apply_defaults_again, default_like_domain}
use ngrok.Admin.Env.{Strconv, read_server_config, write_server_config}
use ngrok.Admin.Env.Written.{IsStrconv}
use ngrok.Admin.Names.{parse_domain_input}
use ngrok.Admin.Names.Collected.{parse_domain_input-IsCollected}
use ngrok.Admin.Domains.Changes.{domains_of, domains_of-write}
use ngrok.Admin.Domains.Appending.{wanted_lem, add_to_config_iff}
use ngrok.Admin.Domains.{Paths, failed, written, control_host_invalid, handle_domain, add_to_config}

-- The field for the control host of a request: it is empty, or it names one host.
abbrev pub NamesHost : Text → Type 0
NamesHost control_input =
    (trim_space control_input ≡ []) ⊎ ((h : Text) × (parse_domain_input control_input ≡ h ∷ []))

-- The test of the field for the control host.
names_host :
    (control_input : Text)
    → (((not (same (trim_space control_input) [])
            && not (length (parse_domain_input control_input) == 1))
          ≡ true)
        × (NamesHost control_input → ⊥))
      ⊎ (((not (same (trim_space control_input) [])
              && not (length (parse_domain_input control_input) == 1))
            ≡ false)
          × NamesHost control_input)
names_host control_input = elim (Bool-cases (same (trim_space control_input) [])) [
  | inl blank ↦ inr (rw blank refl, inl ((same_iff (trim_space control_input) []).0 blank))
  | inr filled ↦
      let not_blank = (same-false_iff (trim_space control_input) []).0 filled in
      rw filled (go (parse_domain_input control_input) refl not_blank)
]
  where
    go :
        (l : List Text)
        → parse_domain_input control_input ≡ l
        → (trim_space control_input ≡ [] → ⊥)
        → ((not (length (parse_domain_input control_input) == 1) ≡ true)
            × (NamesHost control_input → ⊥))
          ⊎ ((not (length (parse_domain_input control_input) == 1) ≡ false)
              × NamesHost control_input)
    go [] e filled =
        inl (rw e refl, λ n. elim n [ inl blank ↦ filled blank | inr (h, one) ↦ cc (e, one) ])
    go (h ∷ []) e filled = inr (rw e refl, inr (h, e))
    go (g ∷ h ∷ l) e filled =
        inl (
          rw e (ground arith),
          λ n. elim n [ inl blank ↦ filled blank | inr (h, one) ↦ cc (e, one) ],
        )

-- A request to add a domain: it is refused if the field for the control host is not empty and does not
-- name one host. Otherwise the file that is written has the domain, and with it the domains that were
-- there, unless the primary domain was the example: then they all go. The field for the domain holds
-- one domain, which is not the example, and quoting is as `strconv` promises.
pub handle_domain_lem :
    (k : Strconv) (p : Paths) (file : Option Text) (input control_input domain : Text)
    → IsStrconv k
    → parse_domain_input input ≡ domain ∷ []
    → default_like_domain domain ≡ false
    → ((NamesHost control_input → ⊥)
        × (handle_domain k p file input control_input ≡ failed control_host_invalid))
      ⊎ (NamesHost control_input
          × ((bytes : Text) × (handle_domain k p file input control_input ≡ written bytes)
              × ((x : Text)
                  → In x (domains_of k (some bytes)) ↔ (
                      (x ≡ domain)
                      ⊎ ((default_like_domain (apply_defaults (read_server_config k file)).domain
                            ≡ false)
                          × In x (domains_of k file))))))
unfolding handle_domain
handle_domain_lem k p file input control_input domain law parsed other =
    let given = parse_domain_input-IsCollected input in
    let valid = given.all_wanted domain (rw parsed (inl refl)) in
    let wanted = wanted_lem domain valid other in
    let control_hosts = parse_domain_input control_input in
    let c = apply_defaults (read_server_config k file) in
    let c' = add_to_config k p file domain control_hosts c in
    elim (names_host control_input) [
      | inl (bad, no_host) ↦ inl (no_host, rw (parsed, handle_domain, bad) refl)
      | inr (good, host) ↦ inr (
        host,
        (
          write_server_config k c',
          rw (parsed, handle_domain, good) refl,
          λ x. rw (domains_of-write k c' law) (
              add_to_config_iff k p file domain control_hosts c
                (apply_defaults_again (read_server_config k file)) wanted x),
        ),
      )
    ]

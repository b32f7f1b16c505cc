-- ===== src/Admin/Domains/Deleting.antt =====
-- The request that deletes a domain, `handleCertificateDomainDelete` of `src/ngrok/admin/main.go`.
use ngrok.Prelude.{
  true, false, not, ◌||◌, List, [], ◌∷◌, ◌≡◌, ◌≢◌, ◌↔◌, ◌⊎◌, refl, sym, Option, some, In, inl, inr,
  arith, Bool-cases,
}
use ngrok.Prelude.Text.{Text, same}
use ngrok.Prelude.Affixes.{same_iff, same-false_iff}
use ngrok.Admin.Config.{ServerConfig, apply_defaults, apply_defaults_again}
use ngrok.Admin.Env.{Strconv, read_server_config, write_server_config}
use ngrok.Admin.Env.Written.{IsStrconv}
use ngrok.Admin.Names.{normalize_domain, valid_domain_name, parse_domain_input}
use ngrok.Admin.Names.Valid.{normalize_domain_valid}
use ngrok.Admin.Names.Collected.{parse_domain_input-IsCollected}
use ngrok.Admin.CertArgs.{remove_domain_cert_arg}
use ngrok.Admin.Domains.Changes.{domains_of, domains_of-write}
use ngrok.Admin.Domains.{
  configured_domain_list, Paths, remove_from, remove_found, remove_domain_from_config, refused,
  removed, domain_not_found, failed, written, handle_delete,
}
use ngrok.Admin.Domains.Removing.{remove_found_iff}

remove_from-found :
    (domain : Text) (l : List Text)
    → ((remove_from domain l).1 ≡ true × In domain l)
      ⊎ ((remove_from domain l).1 ≡ false × ¬ In domain l)
unfolding remove_from
remove_from-found domain [] = inr (refl, λ m. m)
remove_from-found domain (y ∷ l) = elim (Bool-cases (same y domain)) [
  | inl e ↦ inl (rw (e, remove_from) refl, inl (sym ((same_iff y domain).0 e)))
  | inr e ↦ elim (remove_from-found domain l) [
    | inl (found, m) ↦ inl (rw (e, remove_from) found, inr m)
    | inr (lost, m) ↦ inr (
      rw (e, remove_from) lost,
      λ n. elim n [ inl here ↦ (same-false_iff y domain).0 e (sym here) | inr there ↦ m there ],
    )
  ]
]

pub accepted :
    (d : Text)
    → valid_domain_name d ≡ true
    → d ≢ []
    → (same d [] || not (valid_domain_name d)) ≡ false
accepted d valid filled = ground (arith, valid, (same-false_iff d []).1 filled)

module _ (k : Strconv) (p : Paths) (file : Option Text) (name domain : Text) (c : ServerConfig)
    (normal : normalize_domain name ≡ domain)
    (fits : (same domain [] || not (valid_domain_name domain)) ≡ false) where
  removal_lost :
      (remove_from domain (configured_domain_list k file c)).1 ≡ false
      → remove_domain_from_config k p file name c ≡ refused domain_not_found
  unfolding remove_domain_from_config
  removal_lost lost = rw (normal, remove_domain_from_config, fits, lost) refl

  removal_found :
      (remove_from domain (configured_domain_list k file c)).1 ≡ true
      → remove_domain_from_config k p file name c
        ≡ removed (
            remove_found p domain
              (remove_from domain (configured_domain_list k file c)).0
              (record c { extra_args = remove_domain_cert_arg c.extra_args domain }))
  unfolding remove_domain_from_config
  removal_found found = rw (normal, remove_domain_from_config, fits, found) refl

-- A request to delete a domain: if the settings do not have it, it is refused; otherwise the file
-- that is written has the same domains but for this one. The field holds one domain, and quoting is
-- as `strconv` promises.
pub handle_delete_lem :
    (k : Strconv) (p : Paths) (file : Option Text) (input domain : Text)
    → IsStrconv k
    → parse_domain_input input ≡ domain ∷ []
    → ((¬ In domain (domains_of k file)) × (handle_delete k p file input ≡ failed domain_not_found))
      ⊎ (In domain (domains_of k file)
          × ((bytes : Text) × (handle_delete k p file input ≡ written bytes)
              × ((x : Text)
                  → In x (domains_of k (some bytes)) ↔ (In x (domains_of k file) × (x ≢ domain)))))
unfolding handle_delete
handle_delete_lem k p file input domain law parsed =
    let given = parse_domain_input-IsCollected input in
    let there : In domain (parse_domain_input input) = rw parsed (inl refl) in
    let valid = given.all_wanted domain there in
    let fits = accepted domain valid ((given.exactly domain).0 there).0 in
    let normal = normalize_domain_valid domain valid in
    let c = apply_defaults (read_server_config k file) in
    let current = configured_domain_list k file c in
    elim (remove_from-found domain current) [
      | inr (lost, m) ↦ inl (
        m,
        rw (parsed, handle_delete, removal_lost k p file domain domain c normal fits lost) refl,
      )
      | inl (found, m) ↦
          let e = remove_domain_cert_arg c.extra_args domain in
          let c' =
            remove_found p domain (remove_from domain current).0 (record c { extra_args = e }) in
          inr (
            m,
            (
              write_server_config k c',
              rw (parsed, handle_delete, removal_found k p file domain domain c normal fits found)
                  refl,
              λ x. rw (domains_of-write k c' law) (
                  remove_found_iff k p file domain e c
                    (apply_defaults_again (read_server_config k file)) x),
            ),
          )
    ]

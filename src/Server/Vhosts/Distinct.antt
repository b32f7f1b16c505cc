-- ===== src/Server/Vhosts/Distinct.antt =====
-- The domains of `publicVhosts` and `configuredDomains`: none is empty, none stands twice, and they
-- are what the items are normalised to.
use ngrok.Prelude.{
  ◌||◌, true, false, List, [], ◌∷◌, ◌++◌, map, ◌≡◌, ◌≢◌, ◌⊎◌, inl, inr, arith, Bool-cases, In, ℕ,
}
use ngrok.Prelude.Text.{Text, same}
use ngrok.Prelude.Affixes.{same_iff, same-false_iff}
use ngrok.Server.Vhosts.{
  seen_before, collect_vhosts, DomainTlsConfig, Collected, add_domain, add_domains,
  configured_domains, public_vhosts, normal_vhost, default_port_suffix, vhost_items, normal_domain,
}
use ngrok.Server.Vhosts.Collects.{
  Agree, Agree-add, Distinct, Distinct-snoc, Collects, Collects-skip, Collects-add,
  seen_before_sound, seen_before_complete,
}

-- The test of both loops, for an item that is passed over.
pub skip_cases :
    (x : Text) (seen result : List Text)
    → Agree seen result
    → (same x [] || seen_before x seen) ≡ true
    → (x ≡ []) ⊎ In x result
skip_cases x seen result agree h = elim (Bool-cases (same x [])) [
  | inl e ↦ inl ((same_iff x []).0 e)
  | inr e ↦ inr ((agree x).0 (seen_before_sound x seen (rw e at h)))
]

pub add_cases :
    (x : Text) (seen result : List Text)
    → Agree seen result
    → (same x [] || seen_before x seen) ≡ false
    → (x ≢ []) × (¬ In x result)
add_cases x seen result agree h = (
  (same-false_iff x []).0 (ground arith),
  λ m. ground (arith, seen_before_complete x seen ((agree x).1 m)),
)

collect_vhosts_lem :
    (suffix : Text) (items seen result : List Text)
    → Agree seen result
    → Distinct result
    → Collects (normal_vhost suffix) items result (collect_vhosts suffix items seen result)
unfolding collect_vhosts
collect_vhosts_lem suffix [] seen result agree d = record {
  distinct = d;
  keeps = λ x m. m;
  holds_all = λ i m n. absurd m;
  only = λ x m. inl m;
}
collect_vhosts_lem suffix (item ∷ items) seen result agree d =
    let x = normal_vhost suffix item in
    elim (Bool-cases (same x [] || seen_before x seen)) [
      | inl skip ↦
          rw (skip, collect_vhosts)
            (Collects-skip _ item items result _ (skip_cases x seen result agree skip)
              (collect_vhosts_lem suffix items seen result agree d))
      | inr new ↦
          let (full, fresh) = add_cases x seen result agree new in
          rw (new, collect_vhosts)
            (Collects-add _ item items result _ (
              collect_vhosts_lem suffix items (x ∷ seen) (result ++ x ∷ [])
                (Agree-add x seen result agree) (Distinct-snoc x result full fresh d)))
    ]

-- The virtual hosts hold no empty name and none twice; they are the normal forms of the items of
-- `VHOST`, or of the configured domains with the serving port where it is not set.
pub public_vhosts-Collects :
    (vhost_env : Text) (domains : List Text) (protocol : Text) (serving_port : ℕ)
    → Collects
        (normal_vhost (default_port_suffix protocol))
        (vhost_items vhost_env domains serving_port)
        []
        (public_vhosts vhost_env domains protocol serving_port)
unfolding public_vhosts
public_vhosts-Collects vhost_env domains protocol serving_port =
    collect_vhosts_lem _ _ [] [] (λ x. ((λ m. m), λ m. m)) tt

abbrev cert_domains : List DomainTlsConfig → List Text
cert_domains = map (λ c. c.domain)

-- One call of `add`, before whatever collects the other names.
add_domain_lem :
    (name : Text) (names : List Text) (rest : Collected → List Text) (c : Collected)
    → ((c' : Collected)
        → Agree c'.seen c'.result
        → Distinct c'.result
        → Collects normal_domain names c'.result (rest c'))
    → Agree c.seen c.result
    → Distinct c.result
    → Collects normal_domain (name ∷ names) c.result (rest (add_domain name c))
unfolding add_domain
add_domain_lem name names rest c next agree d =
    let x = normal_domain name in
    elim (Bool-cases (same x [] || seen_before x c.seen)) [
      | inl skip ↦
          rw (skip, add_domain)
            (Collects-skip _ name names c.result _ (skip_cases x c.seen c.result agree skip)
              (next c agree d))
      | inr new ↦
          let (full, fresh) = add_cases x c.seen c.result agree new in
          rw (new, add_domain)
            (Collects-add _ name names c.result _ (
              next (record { seen = x ∷ c.seen; result = c.result ++ x ∷ [] })
                (Agree-add x c.seen c.result agree) (Distinct-snoc x c.result full fresh d)))
    ]

add_domains_lem :
    (certs : List DomainTlsConfig) (c : Collected)
    → Agree c.seen c.result
    → Distinct c.result
    → Collects normal_domain (cert_domains certs) c.result (add_domains certs c).result
unfolding add_domains
add_domains_lem [] c agree d = record {
  distinct = d;
  keeps = λ x m. m;
  holds_all = λ i m n. absurd m;
  only = λ x m. inl m;
}
add_domains_lem (cert ∷ certs) c agree d =
    add_domain_lem cert.domain (cert_domains certs) (λ c'. (add_domains certs c').result) c
      (add_domains_lem certs) agree d

-- The configured domains hold no empty name and none twice; they are the default domain and the
-- domains of the certificates, trimmed and in small letters.
pub configured_domains-Collects :
    (default_domain : Text) (certs : List DomainTlsConfig)
    → Collects normal_domain
        (default_domain ∷ cert_domains certs)
        []
        (configured_domains default_domain certs)
unfolding configured_domains
configured_domains-Collects default_domain certs =
    add_domain_lem default_domain (cert_domains certs) (λ c. (add_domains certs c).result)
      (record { seen = []; result = [] }) (add_domains_lem certs) (λ x. ((λ m. m), λ m. m)) tt

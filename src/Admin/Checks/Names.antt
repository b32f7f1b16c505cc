-- ===== src/Admin/Checks/Names.antt =====
-- When the step for the names is done, `dnsStepState` of `src/ngrok/admin/main.go`.
use ngrok.Prelude.{
  ℕ, true, false, List, [], ◌∷◌, ◌++◌, ◌≡◌, ◌↔◌, refl, ap, Option, none, All, arith, Bool-cases,
  Option-cases, inl, inr,
}
use ngrok.Prelude.Text.{Text, text, text_dec, same}
use ngrok.Admin.Config.{ServerConfig, default_like_domain}
use ngrok.Admin.Env.{Strconv}
use ngrok.Admin.Domains.{configured_domain_list}
use ngrok.Admin.Checks.{
  Looked, addresses, unknown_host, Outside, dns_check, probe_host, domain_dns_checks,
  first_failed_check, dns_step_state,
}

-- A host has addresses.
abbrev pub IsKnown : Outside → Text → Type 0
IsKnown o host = (addrs : List Text) × (o.lookup_host host ≡ addresses addrs)

dns_check_iff :
    (o : Outside) (name host : Text)
    → (same (dns_check o name host).state (text "ok") ≡ true) ↔ IsKnown o host
unfolding dns_check text_dec
dns_check_iff o name host = go (o.lookup_host host) refl
  where
    go :
        (l : Looked)
        → o.lookup_host host ≡ l
        → (same (dns_check o name host).state (text "ok") ≡ true) ↔ IsKnown o host
    go (addresses addrs) e = (λ h. (addrs, e), λ h. rw (e, dns_check) refl)
    go (unknown_host t) e =
        (λ h. absurd (cc (rw (e, dns_check) at h)), λ (addrs, f). absurd (cc (e, f)))

-- A domain and a name below it have addresses.
abbrev pub IsServed : Outside → Text → Type 0
IsServed o domain = IsKnown o domain × IsKnown o (probe_host o domain)

checks_iff :
    (o : Outside) (ds : List Text)
    → (first_failed_check (domain_dns_checks o ds) ≡ none) ↔ All (IsServed o) ds
unfolding first_failed_check domain_dns_checks
checks_iff o [] = (λ h. tt, λ h. refl)
checks_iff o (d ∷ ds) =
    let (sound, complete) = checks_iff o ds in
    let (a, a') = dns_check_iff o d d in
    let (b, b') = dns_check_iff o (text "*." ++ d) (probe_host o d) in
    (
      λ h. elim (Bool-cases (same (dns_check o d d).state (text "ok"))) [
        | inr bad ↦ absurd (cc (rw (bad, first_failed_check) at h))
        | inl good ↦
            elim (Bool-cases
              (same (dns_check o (text "*." ++ d) (probe_host o d)).state (text "ok"))) [
                | inr bad ↦ absurd (cc (rw (good, first_failed_check, bad) at h))
                | inl fine ↦ ((a good, b fine), sound (rw (good, first_failed_check, fine) at h))
              ]
      ],
      λ h. rw (a' h.0.0, first_failed_check, b' h.0.1) (complete h.1),
    )

abbrev head_or_zero : Text → ℕ
head_or_zero [] = 0
head_or_zero (c ∷ s) = c

not_done : text "todo" ≡ text "done" → ⊥
not_done e = omega (arith, ap head_or_zero e)

-- The step for the names is done exactly if the domain is none of the examples, every domain of the
-- settings and a name below it have addresses, and the control host has one.
pub dns_step_state_iff :
    (k : Strconv) (o : Outside) (file : Option Text) (c : ServerConfig)
    → (dns_step_state k o file c ≡ text "done") ↔ (
        (default_like_domain c.domain ≡ false)
        × All (IsServed o) (configured_domain_list k file c)
        × IsKnown o c.control_host)
unfolding dns_step_state
dns_step_state_iff k o file c =
    let (sound, complete) = checks_iff o (configured_domain_list k file c) in
    let (a, a') = dns_check_iff o (text "control DNS") c.control_host in
    (
      λ h. elim (Bool-cases (default_like_domain c.domain)) [
        | inl example ↦ absurd (not_done (rw (example, dns_step_state) at h))
        | inr own ↦
            elim (Option-cases
              (first_failed_check (domain_dns_checks o (configured_domain_list k file c)))) [
                | inr (check, bad) ↦ absurd (not_done (rw (own, dns_step_state, bad) at h))
                | inl fine ↦
                    elim (Bool-cases
                      (same (dns_check o (text "control DNS") c.control_host).state (text "ok"))) [
                        | inr bad ↦ absurd (not_done (rw (own, dns_step_state, fine, bad) at h))
                        | inl good ↦ (own, sound fine, a good)
                      ]
              ]
      ],
      λ h. rw (h.0, dns_step_state, complete h.1, a' h.2) refl,
    )

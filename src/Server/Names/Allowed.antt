-- ===== src/Server/Names/Allowed.antt =====
-- What `hostnameAllowed` accepts.
use ngrok.Prelude.{
  ◌||◌, true, List, [], ◌∷◌, ◌++◌, ◌≡◌, refl, ◌⊎◌, inl, inr, ◌↔◌, arith, Bool-cases, In,
}
use ngrok.Prelude.Text.{Text, same, has_suffix}
use ngrok.Prelude.Affixes.{same_iff, has_suffix_iff}
use ngrok.Server.Names.{strip_host_port, hostname_allowed}

-- The name is the domain, or ends in a dot and the domain.
abbrev pub Below : Text → Text → Type 0
Below hostname domain = (hostname ≡ domain) ⊎ ((p : Text) × (hostname ≡ p ++ b'.' ∷ domain))

Below-sound : (h d : Text) → (same h d || has_suffix h (b'.' ∷ d)) ≡ true → Below h d
Below-sound h d e = elim (Bool-cases (same h d)) [
  | inl here ↦ inl ((same_iff h d).0 here)
  | inr other ↦ inr ((has_suffix_iff h (b'.' ∷ d)).0 (rw other at e))
]

Below-complete : (h d : Text) → Below h d → (same h d || has_suffix h (b'.' ∷ d)) ≡ true
Below-complete h d (inl e) = rw ((same_iff h d).1 e)
Below-complete h d (inr e) = ground (arith, (has_suffix_iff h (b'.' ∷ d)).1 e)

allowed_sound :
    (h : Text) (vhosts : List Text)
    → hostname_allowed h vhosts ≡ true
    → (vhost : Text) × In vhost vhosts × Below h (strip_host_port vhost)
unfolding hostname_allowed
allowed_sound h [] e = cc
allowed_sound h (v ∷ vhosts) e =
    let d = strip_host_port v in
    elim (Bool-cases (same h d || has_suffix h (b'.' ∷ d))) [
      | inl here ↦ (v, inl refl, Below-sound h d here)
      | inr other ↦
          let (w, m, b) = allowed_sound h vhosts (rw (other, hostname_allowed) at e) in
          (w, inr m, b)
    ]

allowed_complete :
    (h w : Text) (vhosts : List Text)
    → In w vhosts
    → Below h (strip_host_port w)
    → hostname_allowed h vhosts ≡ true
unfolding hostname_allowed
allowed_complete h w [] m b = absurd m
allowed_complete h w (v ∷ vhosts) (inl e) b =
    rw (Below-complete h (strip_host_port v) (rw (← e) b), hostname_allowed)
allowed_complete h w (v ∷ vhosts) (inr m) b = ground (arith, allowed_complete h w vhosts m b)

-- A host name is allowed exactly if it is one of the configured hosts, their ports left off, or a
-- name below one of them.
pub hostname_allowed_iff :
    (hostname : Text) (vhosts : List Text)
    → (hostname_allowed hostname vhosts ≡ true)
      ↔ ((vhost : Text) × In vhost vhosts × Below hostname (strip_host_port vhost))
hostname_allowed_iff h vhosts =
    (allowed_sound h vhosts, λ (w, m, b). allowed_complete h w vhosts m b)

-- ===== src/Tests/Bounds.antt =====
-- A server with one virtual host, for the instances of the theorems on tunnels.
use ngrok.Prelude.{
  ℕ, ◌^◌, ◌<◌, ◌≤◌, true, [], ◌∷◌, sym, ap, ◌∙◌, some, arith, length, In, inl, inr, Bool-cases,
}
use mathlib.Core.Path.{subst}
use ngrok.Prelude.Text.{Text, text, text_dec, drop_last, has_suffix, to_lower, trim_space, split}
use ngrok.Server.Vhosts.{public_vhosts, default_port_suffix, vhost_items, normal_vhost}
use ngrok.Server.Vhosts.Distinct.{public_vhosts-Collects}
use ngrok.Server.Tunnel.State.{Globals, Outside}
use ngrok.Server.Tunnel.Sizes.{IsBounded}

abbrev pub one_host : Globals
one_host = record {
  vhost_env = text "a.io";
  domains = text "a.io" ∷ [];
  listeners = (text "http", 80) ∷ (text "https", 443) ∷ [];
  allow_remote_ports = true;
}

abbrev pub quiet : ℕ → Outside
quiet n = record { now = n; random = λ i. 7; bind = λ p. some 4000 }

length-drop_last-le : (n : ℕ) (s : Text) → length (drop_last n s) ≤ length s
unfolding drop_last
length-drop_last-le n [] = omega arith
length-drop_last-le n (c ∷ s) = ground (arith, length-drop_last-le n s)

short_vhost : (suffix : Text) → length (normal_vhost suffix (text "a.io")) < 2 ^ 62
unfolding normal_vhost to_lower trim_space
short_vhost suffix = elim (Bool-cases (has_suffix (text "a.io") suffix)) [
  | inl ends ↦ rw ends (omega (arith, length-drop_last-le (length suffix) (text "a.io")))
  | inr other ↦ rw other (omega arith)
]

short_host :
    (protocol : Text) (port : ℕ) (v : Text)
    → In v (public_vhosts one_host.vhost_env one_host.domains protocol port)
    → length v < 2 ^ 62
unfolding vhost_items split text_dec
short_host protocol port v m =
    let c = public_vhosts-Collects one_host.vhost_env one_host.domains protocol port in
    elim (c.only v m) [
      | inl k ↦ absurd k
      | inr (item, inl e, normal) ↦
          subst (λ x. length x < 2 ^ 62)
            (sym (normal ∙ ap (normal_vhost (default_port_suffix protocol)) e))
            (short_vhost (default_port_suffix protocol))
      | inr (item, inr k, normal) ↦ absurd k
    ]

pub one_host-IsBounded : (n : ℕ) → IsBounded one_host (quiet n)
one_host-IsBounded n = record {
  vhosts_short = λ protocol port v m. short_host protocol port v m;
  domains_short = (omega arith, tt);
  random_small = λ i. omega arith;
  ports_small = λ p q e. ground (arith, e);
  has_domain = λ e. absurd cc;
}

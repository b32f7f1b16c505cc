-- ===== src/Client/Config/Load/Checked.antt =====
-- What holds of a configuration that `LoadConfiguration` of `src/ngrok/client/config.go` accepts.
use mathlib.Core.Path.{subst}
use ngrok.Prelude.{
  suc, ◌<◌, true, ◌&&◌, List, [], ◌∷◌, ◌≡◌, ◌≢◌, ◌⊎◌, refl, ap, length, All, arith, Bool-cases, inl,
  inr, ◌==◌, ltb, if_pos, if_neg,
}
use ngrok.Prelude.Maps.{Map, put}
use ngrok.Prelude.Text.{Text, text, text_dec, same, split}
use ngrok.Prelude.Affixes.{same_iff, same-false_iff}
use ngrok.Client.Config.{Configuration, TunnelConfiguration, ConfigError, ok, err, bind-ok}
use ngrok.Client.Config.Address.{
  IsAddress, normalize_address, normalize_address-IsAddress, validate_protocol, is_loopback_address,
}
use ngrok.Client.Config.Load.{
  World, Options, set_defaults, check_inspect, check_server, check_proxy, check_protocols,
  name_tunnel, check_tunnels, default_protocols, override, check_configuration, or_default,
}

pub ok-inj : {A : Type 0} {a b : A} → ok a ≡ ok b → a ≡ b
ok-inj h = cc

pub err-ok : {A : Type 0} {e : ConfigError} {a : A} → err e ≡ ok a → ⊥
err-ok h = cc

-- The inspector is off, or asks for credentials, or listens on a loopback address only.
abbrev pub IsShielded : World → Configuration → Type 0
IsShielded w c =
    (c.inspect_addr ≡ text "disabled")
    ⊎ (c.inspect_auth ≢ [])
    ⊎ (is_loopback_address w.is_loopback c.inspect_addr ≡ true)

check_inspect-IsShielded :
    (w : World) (opts : Options) (c d : Configuration)
    → check_inspect w opts c ≡ ok d
    → IsShielded w d
unfolding check_inspect
check_inspect-IsShielded w opts c d h = elim (Bool-cases (same c.inspect_addr (text "disabled"))) [
  | inl off ↦
      subst (IsShielded w) (ok-inj (rw (off, check_inspect) at h))
        (inl ((same_iff c.inspect_addr (text "disabled")).0 off))
  | inr on ↦
      let (a, _, run) =
        bind-ok (normalize_address c.inspect_addr) _ (rw (on, check_inspect) at h) in
      let auth = or_default c.inspect_auth opts.inspectauth in
      elim (Bool-cases (same auth [])) [
        | inr set ↦
            subst (IsShielded w) (ok-inj (rw set at run))
              (inr (inl ((same-false_iff auth []).0 set)))
        | inl unset ↦ elim (Bool-cases (is_loopback_address w.is_loopback a)) [
          | inl near ↦ subst (IsShielded w) (ok-inj (rw (unset, near) at run)) (inr (inr near))
          | inr far ↦ absurd (err-ok (rw (unset, far) at run))
        ]
      ]
]

check_proxy-same : (w : World) (c d : Configuration) → check_proxy w c ≡ ok d → c ≡ d
unfolding check_proxy
check_proxy-same w c d h = ground (arith, h)

-- A protocol that is known, and an address.
abbrev pub IsForward : Text × Text → Type 0
IsForward (proto, addr) = (validate_protocol proto ≡ true) × IsAddress addr

-- A tunnel forwards one protocol or more.
abbrev pub IsTunnel : TunnelConfiguration → Type 0
IsTunnel t = (0 < length t.protocols) × All IsForward t.protocols

check_protocols-All :
    (m m' : Map Text Text) → check_protocols m ≡ ok m' → (length m' ≡ length m) × All IsForward m'
unfolding check_protocols
check_protocols-All [] m' h =
    subst (λ (l : Map Text Text). (length l ≡ 0) × All IsForward l) (ok-inj h) (refl, tt)
check_protocols-All ((proto, addr) ∷ m) m' h =
    let (a, normal, run) = bind-ok (normalize_address addr) _ h in
    elim (Bool-cases (validate_protocol proto)) [
      | inr unknown ↦ absurd (err-ok (rw unknown at run))
      | inl known ↦
          let (l, rest, run') = bind-ok (check_protocols m) _ (rw known at run) in
          let (size, all) = check_protocols-All m l rest in
          subst (λ (l : Map Text Text). (length l ≡ suc (length m)) × All IsForward l) (ok-inj run')
            (ap suc size, ((known, normalize_address-IsAddress addr a normal), all))
    ]

name_tunnel-IsTunnel :
    (name : Text) (t : TunnelConfiguration) → IsTunnel t → IsTunnel (name_tunnel name t)
unfolding name_tunnel
name_tunnel-IsTunnel name t v = elim (Bool-cases (same t.hostname [] && same t.subdomain [])) [
  | inr named ↦ rw (named, name_tunnel) v
  | inl bare ↦ elim (Bool-cases (ltb 1 (length (split b'.' name)))) [
    | inl dotted ↦ rw (bare, name_tunnel, dotted) v
    | inr plain ↦ rw (bare, name_tunnel, plain) v
  ]
]

-- Every tunnel of a map.
abbrev pub AreTunnels : Map Text TunnelConfiguration → Type 0
AreTunnels = All (λ e. IsTunnel e.1)

check_tunnels-All : (m m' : Map Text TunnelConfiguration) → check_tunnels m ≡ ok m' → AreTunnels m'
unfolding check_tunnels
check_tunnels-All [] m' h = subst AreTunnels (ok-inj h) tt
check_tunnels-All ((name, t) ∷ m) m' h = elim (Bool-cases (length t.protocols == 0)) [
  | inl without ↦ absurd (err-ok (rw without at h))
  | inr filled ↦
      let (l, checked, run) = bind-ok (check_protocols t.protocols) _ (rw filled at h) in
      let (k, rest, run') = bind-ok (check_tunnels m) _ run in
      let (size, all) = check_protocols-All t.protocols l checked in
      subst AreTunnels (ok-inj run') (
        name_tunnel-IsTunnel name (record t { protocols = l }) (ground (arith, size, filled), all),
        check_tunnels-All m k rest,
      )
]

-- What every configuration that is loaded has: the inspector is shielded, the address of the server
-- has a host, and every tunnel forwards known protocols to addresses.
pub record IsChecked (w : World) (c : Configuration) : Type 0 where
  pub shielded : IsShielded w c
  pub server : IsAddress c.server_addr
  pub forwards : AreTunnels c.tunnels

pub check_configuration-IsChecked :
    (w : World) (opts : Options) (c d : Configuration)
    → check_configuration w opts c ≡ ok d
    → IsChecked w d
unfolding check_configuration check_server override
check_configuration-IsChecked w opts c d h =
    let (c1, inspect, run1) = bind-ok (check_inspect w opts (set_defaults w c)) _ h in
    let (c2, server, run2) = bind-ok (check_server c1) _ run1 in
    let (c3, proxy, run3) = bind-ok (check_proxy w c2) _ run2 in
    let (m, tunnels, run4) = bind-ok (check_tunnels c3.tunnels) _ run3 in
    let (a, normal, run5) = bind-ok (normalize_address c1.server_addr) _ server in
    let shielded : IsShielded w c3 = subst (IsShielded w) (check_proxy-same w c2 c3 proxy) (
      subst (IsShielded w) (ok-inj run5)
        (check_inspect-IsShielded w opts (set_defaults w c) c1 inspect)) in
    let address : IsAddress c3.server_addr =
      subst (λ e. IsAddress e.server_addr) (check_proxy-same w c2 c3 proxy)
        (subst (λ e. IsAddress e.server_addr) (ok-inj run5)
          (normalize_address-IsAddress c1.server_addr a normal)) in
    subst (IsChecked w) (ok-inj run4) (record {
      shielded = shielded;
      server = address;
      forwards = check_tunnels-All c3.tunnels m tunnels;
    })

put-All :
    (k v : Text) (m : Map Text Text)
    → IsForward (k, v)
    → All IsForward m
    → (0 < length (put text_dec k v m)) × All IsForward (put text_dec k v m)
unfolding put
put-All k v [] f h = (omega arith, (f, tt))
put-All k v ((j, w) ∷ m) f h = elim (text_dec j k) [
  | yes e ↦
      rw (if_pos (text_dec j k) e ((k, v) ∷ m) ((j, w) ∷ put text_dec k v m))
        (omega arith, (f, h.1))
  | no n ↦
      rw (if_neg (text_dec j k) n ((k, v) ∷ m) ((j, w) ∷ put text_dec k v m))
        (omega arith, (h.0, (put-All k v m f h.1).1))
]

pub default_protocols-All :
    (protos : List Text) (addr : Text) (m m' : Map Text Text)
    → (0 < length protos) ⊎ (0 < length m)
    → All IsForward m
    → default_protocols protos addr m ≡ ok m'
    → (0 < length m') × All IsForward m'
unfolding default_protocols
default_protocols-All [] addr m m' (inl h) all run = absurd (omega (arith, h))
default_protocols-All [] addr m m' (inr h) all run =
    subst (λ (l : Map Text Text). (0 < length l) × All IsForward l) (ok-inj run) (h, all)
default_protocols-All (proto ∷ protos) addr m m' h all run =
    elim (Bool-cases (validate_protocol proto)) [
      | inr unknown ↦ absurd (err-ok (rw unknown at run))
      | inl known ↦
          let (a, normal, run') = bind-ok (normalize_address addr) _ (rw known at run) in
          let (filled, all') =
            put-All proto a m (known, normalize_address-IsAddress addr a normal) all in
          default_protocols-All protos addr (put text_dec proto a m) m' (inr filled) all' run'
    ]

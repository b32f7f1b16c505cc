-- ===== src/Client/Config/Load/Commands.antt =====
-- What `LoadConfiguration` of `src/ngrok/client/config.go` ends with, for each command.
use mathlib.Core.Path.{subst}
use ngrok.Prelude.{
  ℕ, ◌<◌, true, false, List, [], ◌∷◌, ◌≡◌, ◌⊎◌, ◌↔◌, refl, sym, ap, ◌∙◌, none, some, if◌then◌else◌,
  length, In, arith, Bool-cases, Option-cases, inl, inr, ◌==◌,
}
use ngrok.Prelude.Maps.{Map, get}
use ngrok.Prelude.Text.{Text, text, text_dec, same, split, cons_head}
use ngrok.Prelude.Affixes.{same_iff}
use ngrok.Client.Config.{Configuration, TunnelConfiguration, undefined_tunnel, ok, err, bind-ok}
use ngrok.Client.Config.Load.{
  World, Options, check_configuration, default_protocols, run_default, run_start, run_command,
  load_configuration, read_file_configuration, keep_requested, is_requested, is_defined,
  first_undefined, loaded, listed, out_of_range,
}
use ngrok.Client.Config.Load.Checked.{
  IsChecked, AreTunnels, check_configuration-IsChecked, default_protocols-All, ok-inj, err-ok,
}
use ngrok.Client.Config.Address.{validate_protocol}

keep_requested-All :
    (args : List Text) (m : Map Text TunnelConfiguration)
    → AreTunnels m
    → AreTunnels (keep_requested args m)
unfolding keep_requested
keep_requested-All args [] h = tt
keep_requested-All args ((name, t) ∷ m) h = elim (Bool-cases (is_requested args name)) [
  | inl asked ↦ rw (asked, keep_requested) (h.0, keep_requested-All args m h.1)
  | inr other ↦ rw (other, keep_requested) (keep_requested-All args m h.1)
]

split-filled : (sep : ℕ) (s : Text) → 0 < length (split sep s)
unfolding split
split-filled sep [] = omega arith
split-filled sep (c ∷ s) = elim (Bool-cases (c == sep)) [
  | inl here ↦ rw (here, split) (omega arith)
  | inr other ↦ rw (other, split) (headed (split sep s))
]
  where
    headed : (l : List Text) → 0 < length (cons_head c l)
    headed [] = omega arith
    headed (p ∷ ps) = omega arith

loaded-inj : {c d : Configuration} → loaded c ≡ loaded d → c ≡ d
loaded-inj h = cc

not-loaded : {d : Configuration} → ok out_of_range ≡ ok (loaded d) → ⊥
not-loaded h = cc

not-loaded_list : {d : Configuration} {l : List Text} → ok (listed l) ≡ ok (loaded d) → ⊥
not-loaded_list h = cc

run_default-IsChecked :
    (w : World) (opts : Options) (c d : Configuration)
    → IsChecked w c
    → run_default opts c ≡ ok (loaded d)
    → IsChecked w d
unfolding run_default
run_default-IsChecked w opts c d v h = go opts.args (split b'+' opts.protocol) refl refl
  where
    go :
        (args protos : List Text)
        → opts.args ≡ args
        → split b'+' opts.protocol ≡ protos
        → IsChecked w d
    go [] [] e f = absurd (not-loaded (rw (e, run_default, f) at h))
    go [] (p ∷ ps) e f = elim (Bool-cases (validate_protocol p)) [
      | inl known ↦ absurd (not-loaded (rw (e, run_default, f, known) at h))
      | inr unknown ↦ absurd (err-ok (rw (e, run_default, f, unknown) at h))
    ]
    go (arg ∷ rest) protos e f =
        let (m, ran, done) =
          bind-ok (default_protocols (split b'+' opts.protocol) arg []) _ (rw e at h) in
        let forwards =
          default_protocols-All (split b'+' opts.protocol) arg [] m
            (inl (split-filled b'+' opts.protocol)) tt ran in
        subst (IsChecked w) (loaded-inj (ok-inj done))
          (record { shielded = v.shielded; server = v.server; forwards = (forwards, tt) })

run_start-IsChecked :
    (w : World) (opts : Options) (c d : Configuration)
    → IsChecked w c
    → run_start opts c ≡ ok (loaded d)
    → IsChecked w d
unfolding run_start
run_start-IsChecked w opts c d v h = go opts.args refl
  where
    go : (args : List Text) → opts.args ≡ args → IsChecked w d
    go [] e = absurd (err-ok (rw e at h))
    go (arg ∷ rest) e = elim (Option-cases (first_undefined c.tunnels (arg ∷ rest))) [
      | inr (name, missing) ↦ absurd (err-ok (rw (e, run_start, missing) at h))
      | inl defined ↦
          subst (IsChecked w) (loaded-inj (ok-inj (rw (e, run_start, defined) at h))) (record {
            shielded = v.shielded;
            server = v.server;
            forwards = keep_requested-All (arg ∷ rest) c.tunnels v.forwards;
          })
    ]

run_command-IsChecked :
    (w : World) (opts : Options) (c d : Configuration)
    → IsChecked w c
    → run_command opts c ≡ ok (loaded d)
    → IsChecked w d
unfolding run_command
run_command-IsChecked w opts c d v h = elim (Bool-cases (same opts.command (text "default"))) [
  | inl default ↦ run_default-IsChecked w opts c d v (rw default at h)
  | inr not_default ↦ elim (Bool-cases (same opts.command (text "list"))) [
    | inl list ↦ absurd (not-loaded_list (rw (not_default, list) at h))
    | inr not_list ↦ elim (Bool-cases (same opts.command (text "start"))) [
      | inl start ↦ run_start-IsChecked w opts c d v (rw (not_default, not_list, start) at h)
      | inr not_start ↦ elim (Bool-cases (same opts.command (text "start-all"))) [
        | inl all ↦
            subst (IsChecked w)
              (loaded-inj (ok-inj (rw (not_default, not_list, not_start, all) at h))) v
        | inr unknown ↦ absurd (err-ok (rw (not_default, not_list, not_start, unknown) at h))
      ]
    ]
  ]
]

-- Whatever the file, the environment and the options: a configuration that is loaded has its
-- inspector off, or protected by credentials, or on a loopback address; the address of its server has
-- a host; and every tunnel forwards one or more known protocols to addresses with a host.
pub load_configuration-IsChecked :
    (w : World) (opts : Options) (c : Configuration)
    → load_configuration w opts ≡ ok (loaded c)
    → IsChecked w c
unfolding load_configuration
load_configuration-IsChecked w opts c h =
    let (c1, read, run1) = bind-ok (read_file_configuration w opts) _ h in
    let (c2, checked, run2) = bind-ok (check_configuration w opts c1) _ run1 in
    run_command-IsChecked w opts c2 c (check_configuration-IsChecked w opts c1 c2 checked) run2

undefined-get :
    (m : Map Text TunnelConfiguration) (name : Text)
    → is_defined m name ≡ false
    → get text_dec name m ≡ none
unfolding is_defined
undefined-get m name h = ground arith

first_undefined-some :
    (m : Map Text TunnelConfiguration) (names : List Text) (name : Text)
    → first_undefined m names ≡ some name
    → In name names × (get text_dec name m ≡ none)
unfolding first_undefined
first_undefined-some m [] name h = absurd (cc)
first_undefined-some m (n ∷ ns) name h = elim (Bool-cases (is_defined m n)) [
  | inr missing ↦
      let e : n ≡ name = cc (rw (first_undefined, missing) at h) in
      (inl (sym e), subst (λ x. get text_dec x m ≡ none) e (undefined-get m n missing))
  | inl defined ↦
      let (k, missing) = first_undefined-some m ns name (rw (first_undefined, defined) at h) in
      (inr k, missing)
]

defined-get :
    (m : Map Text TunnelConfiguration) (name : Text)
    → is_defined m name ≡ true
    → (t : TunnelConfiguration) × (get text_dec name m ≡ some t)
unfolding is_defined
defined-get m name h = elim (Option-cases (get text_dec name m)) [
  | inl missing ↦ absurd (cc (rw (missing, is_defined) at h))
  | inr found ↦ found
]

first_undefined-none :
    (m : Map Text TunnelConfiguration) (names : List Text)
    → first_undefined m names ≡ none
    → (name : Text) → In name names
    → (t : TunnelConfiguration) × (get text_dec name m ≡ some t)
unfolding first_undefined
first_undefined-none m [] h name k = absurd k
first_undefined-none m (n ∷ ns) h name k = elim (Bool-cases (is_defined m n)) [
  | inr missing ↦ absurd (cc (rw (first_undefined, missing) at h))
  | inl defined ↦ elim k [
    | inl here ↦ defined-get m name (ap (is_defined m) here ∙ defined)
    | inr later ↦ first_undefined-none m ns (rw (first_undefined, defined) at h) name later
  ]
]

is_requested_iff : (args : List Text) (name : Text) → (is_requested args name ≡ true) ↔ In name args
unfolding is_requested
is_requested_iff [] name = (λ h. absurd (cc), λ k. absurd k)
is_requested_iff (arg ∷ args) name = (
  λ h. elim (Bool-cases (same arg name)) [
    | inl here ↦ inl (sym ((same_iff arg name).0 here))
    | inr other ↦ inr ((is_requested_iff args name).0 (rw other at h))
  ],
  λ k. elim k [
    | inl here ↦ rw ((same_iff arg name).1 (sym here)) refl
    | inr later ↦ ground (arith, (is_requested_iff args name).1 later)
  ],
)

not-requested :
    (args : List Text) (name : Text) → (In name args → ⊥) → is_requested args name ≡ false
not-requested args name h = elim (Bool-cases (is_requested args name)) [
  | inl asked ↦ absurd (h ((is_requested_iff args name).0 asked))
  | inr other ↦ other
]

get-keep_requested :
    (args : List Text) (m : Map Text TunnelConfiguration) (name : Text)
    → get text_dec name (keep_requested args m)
      ≡ (if is_requested args name then get text_dec name m else none)
unfolding keep_requested get
get-keep_requested args [] name = ground arith
get-keep_requested args ((k, t) ∷ m) name =
    let same_name : k ≡ name → is_requested args k ≡ is_requested args name =
      λ e. ap (is_requested args) e in
    ground (arith, get-keep_requested args m name, same_name)

-- The command `start`: either a name that is asked for is not defined, and it is refused, or every
-- name that is asked for is defined, and the tunnels left are those asked for, each as it was defined.
pub run_start_lem :
    (opts : Options) (c : Configuration) (arg : Text) (rest : List Text)
    → opts.args ≡ arg ∷ rest
    → ((name : Text) × In name (arg ∷ rest)
        × (run_start opts c ≡ err (undefined_tunnel name))
        × (get text_dec name c.tunnels ≡ none))
      ⊎ ((d : Configuration) × (run_start opts c ≡ ok (loaded d))
          × ((name : Text)
              → In name (arg ∷ rest)
              → (t : TunnelConfiguration) × (get text_dec name c.tunnels ≡ some t)
                × (get text_dec name d.tunnels ≡ some t))
          × ((name : Text) → (In name (arg ∷ rest) → ⊥) → get text_dec name d.tunnels ≡ none))
unfolding run_start
run_start_lem opts c arg rest e = elim (Option-cases (first_undefined c.tunnels (arg ∷ rest))) [
  | inr (name, missing) ↦
      let (asked, unknown) = first_undefined-some c.tunnels (arg ∷ rest) name missing in
      inl (name, asked, rw (e, run_start, missing) refl, unknown)
  | inl defined ↦ inr (
    record c { tunnels = keep_requested (arg ∷ rest) c.tunnels },
    rw (e, run_start, defined) refl,
    λ name asked.
        let (t, found) = first_undefined-none c.tunnels (arg ∷ rest) defined name asked in
        (
          t,
          found,
          get-keep_requested (arg ∷ rest) c.tunnels name
              ∙ (rw ((is_requested_iff (arg ∷ rest) name).1 asked) refl ∙ found),
        ),
    λ name other.
        get-keep_requested (arg ∷ rest) c.tunnels name
        ∙ rw (not-requested (arg ∷ rest) name other) refl,
  )
]

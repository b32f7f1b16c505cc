-- ===== src/Server/Controls/Replacing.antt =====
-- A reconnecting client and the registry of `src/ngrok/server/registry.go`.
use mathlib.Core.Path.{subst}
use ngrok.Prelude.{
  ℕ, [], ◌∷◌, ap, ◌≡◌, ◌≢◌, refl, sym, ◌∙◌, Option, none, some, arith, Option-cases, inl, inr,
}
use ngrok.Prelude.Maps.{get, put, get-put_self, get-put_ne, get-delete_ne, get-delete_self}
use ngrok.Prelude.Text.{Text, text_dec}
use ngrok.Server.Controls.{
  Ctl, ControlRegistry, get_control, set_ctl, replaced, add_control, del_control, reads, deletes,
  adds, read_id, race_step, run_steps, start_race, delete_read,
}

-- Every control in the registry is registered by its own id, which is not empty.
pub record IsConsistent (r : ControlRegistry) : Type 0 where
  pub own :
      (k : Text) (a : ℕ) → get_control k r ≡ some a → (c : Ctl) × (r.store a ≡ some c) × (c.id ≡ k)
  pub named : get_control [] r ≡ none

set_self : (a : ℕ) (c : Ctl) (store : ℕ → Option Ctl) → set_ctl a c store a ≡ some c
unfolding set_ctl
set_self a c store = ground arith

set_ne : (a b : ℕ) (c : Ctl) (store : ℕ → Option Ctl) → a ≢ b → set_ctl a c store b ≡ store b
unfolding set_ctl
set_ne a b c store h = ground arith

replaced-id : (c : Ctl) → some (replaced c).id ≡ some []
unfolding replaced
replaced-id c = refl

add_again :
    (k : Text) (a b : ℕ) (c : Ctl) (r : ControlRegistry)
    → get_control k r ≡ some b
    → r.store b ≡ some c
    → add_control k a r ≡ (
      record { controls = put text_dec k a r.controls; store = set_ctl b (replaced c) r.store },
      some b,
    )
unfolding add_control get_control
add_again k a b c r h s =
    let known : get text_dec k r.controls ≡ some b = h in rw (known, s, add_control) refl

removed_other :
    (id k : Text) (r : ControlRegistry)
    → k ≢ id
    → get_control k (del_control id r).0 ≡ get_control k r
unfolding del_control get_control
removed_other id k r h = elim (Option-cases (get text_dec id r.controls)) [
  | inl absent ↦ rw (absent, del_control) refl
  | inr (b, present) ↦
      rw (present, del_control) (get-delete_ne text_dec id k r.controls (λ e. h (sym e)))
]

removed :
    (k : Text) (a : ℕ) (r : ControlRegistry)
    → get_control k r ≡ some a
    → get_control k (del_control k r).0 ≡ none
unfolding del_control get_control
removed k a r h =
    let known : get text_dec k r.controls ≡ some a = h in
    rw (known, del_control) (get-delete_self text_dec k r.controls)

added :
    (k : Text) (new : ℕ) (r : ControlRegistry) → get_control k (add_control k new r).0 ≡ some new
unfolding add_control get_control
added k new r = elim (Option-cases (get text_dec k r.controls)) [
  | inl absent ↦ rw (absent, add_control) (get-put_self text_dec k new r.controls)
  | inr (b, present) ↦ elim (Option-cases (r.store b)) [
    | inl gone ↦ rw (present, add_control, gone) (get-put_self text_dec k new r.controls)
    | inr (c, stored) ↦ rw (present, add_control, stored) (get-put_self text_dec k new r.controls)
  ]
]

added_other :
    (k : Text) (new : ℕ) (r : ControlRegistry) (q : Text)
    → q ≢ k
    → get_control q (add_control k new r).0 ≡ get_control q r
unfolding add_control get_control
added_other k new r q ne =
    let kept = get-put_ne text_dec k q new r.controls (λ e. ne (sym e)) in
    elim (Option-cases (get text_dec k r.controls)) [
      | inl absent ↦ rw (absent, add_control) kept
      | inr (b, present) ↦ elim (Option-cases (r.store b)) [
        | inl gone ↦ rw (present, add_control, gone) kept
        | inr (c, stored) ↦ rw (present, add_control, stored) kept
      ]
    ]

-- Under an id there is a control or none, and the controls of the other ids are as before.
abbrev pub Leaves : Text → Option ℕ → ControlRegistry → ControlRegistry → Type 0
Leaves k o r r' =
    (get_control k r' ≡ o) × ((q : Text) → q ≢ k → q ≢ [] → get_control q r' ≡ get_control q r)

read_known :
    (old : ℕ) (c : Ctl) (r : ControlRegistry) → r.store old ≡ some c → read_id old r ≡ some c.id
unfolding read_id
read_known old c r h = rw (h, read_id) refl

module _ (k : Text) (new old : ℕ) (r : ControlRegistry) (v : IsConsistent r) (named : k ≢ [])
    (known : get_control k r ≡ some old) where
  add_first :
      Leaves k (some new) r (run_steps old (adds k new ∷ reads ∷ deletes ∷ []) (start_race r))
  unfolding run_steps race_step delete_read
  add_first =
      let (c, stored, own) = v.own k old known in
      let r' : ControlRegistry = record {
        controls = put text_dec k new r.controls;
        store = set_ctl old (replaced c) r.store;
      } in
      let again : (add_control k new r).0 ≡ r' =
        ap (λ p. p.0) (add_again k new old c r known stored) in
      let blank : read_id old (add_control k new r).0 ≡ some [] =
        ap (read_id old) again
        ∙ read_known old (replaced c) r' (set_self old (replaced c) r.store)
        ∙ replaced-id c in
      subst (λ o. Leaves k (some new) r (delete_read o (add_control k new r).0)) (sym blank)
        (
          removed_other [] k (add_control k new r).0 named ∙ added k new r,
          λ q ne filled.
              removed_other [] q (add_control k new r).0 filled ∙ added_other k new r q ne,
        )

  read_own : read_id old r ≡ some k
  read_own = let (c, stored, own) = v.own k old known in read_known old c r stored ∙ ap some own

  add_last :
      Leaves k (some new) r (run_steps old (reads ∷ deletes ∷ adds k new ∷ []) (start_race r))
  unfolding run_steps race_step delete_read
  add_last =
      subst (λ o. Leaves k (some new) r (add_control k new (delete_read o r)).0) (sym read_own)
        (
          added k new (del_control k r).0,
          λ q ne filled. added_other k new (del_control k r).0 q ne ∙ removed_other k q r ne,
        )

  add_between : Leaves k none r (run_steps old (reads ∷ adds k new ∷ deletes ∷ []) (start_race r))
  unfolding run_steps race_step delete_read
  add_between =
      subst (λ o. Leaves k none r (delete_read o (add_control k new r).0)) (sym read_own)
        (
          removed k new (add_control k new r).0 (added k new r),
          λ q ne filled. removed_other k q (add_control k new r).0 ne ∙ added_other k new r q ne,
        )

-- A client connects again with its id while the stopper of its old control removes that control: the
-- stopper reads the id and then deletes it, and `Add` comes before, after or between the two. In the
-- first two orders the registry gives the new control for the id. In the third it gives none: the
-- stopper has removed the new control. The controls of other ids are as before in all three. The
-- registry is consistent and the id is not empty.
pub run_steps-add_control :
    (k : Text) (new old : ℕ) (r : ControlRegistry)
    → IsConsistent r
    → k ≢ []
    → get_control k r ≡ some old
    → Leaves k (some new) r (run_steps old (adds k new ∷ reads ∷ deletes ∷ []) (start_race r))
      × Leaves k (some new) r (run_steps old (reads ∷ deletes ∷ adds k new ∷ []) (start_race r))
      × Leaves k none r (run_steps old (reads ∷ adds k new ∷ deletes ∷ []) (start_race r))
run_steps-add_control k new old r v named known = (
  add_first k new old r v named known,
  add_last k new old r v named known,
  add_between k new old r v named known,
)

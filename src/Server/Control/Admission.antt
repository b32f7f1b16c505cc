-- ===== src/Server/Control/Admission.antt =====
-- Which control connections are admitted, and when one is given up: `src/ngrok/server/control.go`.
use ngrok.Prelude.{
  ℕ, ◌+◌, ◌-◌, ◌<◌, ◌≤◌, true, [], ◌≡◌, ◌≢◌, refl, Option, some, ltb, ltb→lt, lt→ltb, arith,
  Bool-cases, inl, inr,
}
use ngrok.Prelude.Text.{Text, same}
use ngrok.Prelude.Affixes.{same_iff, same-false_iff}
use ngrok.Msg.{Auth}
use ngrok.Util.Shutdown.{IsConsistent, begin_lem}
use ngrok.Server.Controls.{ControlRegistry, add_control}
use ngrok.Server.Tunnel.State.{Refusal, Client, Globals, Outside}
use ngrok.Server.Control.{
  AuthError, no_token, invalid_token, incompatible, validate_auth, Started, refused, started, admit,
  new_control, greeting, Control, manage, tick, ping_timeout_interval,
}

-- The conditions for a control: the version is the server's, the server has a token, and the client
-- names that token.
abbrev pub IsWelcome : Text → Text → Auth → Type 0
IsWelcome token proto auth = (auth.version ≡ proto) × (token ≢ []) × (auth.user ≡ token)

admit_welcome :
    (token proto mm_version id : Text) (auth : Auth) (ctl : ℕ) (r : ControlRegistry)
    → IsWelcome token proto auth
    → admit token proto mm_version id auth ctl r ≡ (
      (add_control id ctl r).0,
      started id (add_control id ctl r).1 (greeting proto mm_version id),
    )
unfolding admit validate_auth
admit_welcome token proto mm_version id auth ctl r (version, set, user) = simp (
  (same_iff auth.version proto).1 version,
  (same-false_iff token []).1 set,
  (same_iff auth.user token).1 user,
)

-- Why a client that is not welcome is turned away.
abbrev pub Refuses : Text → Text → Auth → ControlRegistry → ControlRegistry × Started → Type 0
Refuses token proto auth r result = (e : AuthError) × (result ≡ (r, refused e))

admit_unwelcome :
    (token proto mm_version id : Text) (auth : Auth) (ctl : ℕ) (r : ControlRegistry)
    → ¬ IsWelcome token proto auth
    → Refuses token proto auth r (admit token proto mm_version id auth ctl r)
unfolding admit validate_auth
admit_unwelcome token proto mm_version id auth ctl r h =
    elim (Bool-cases (same auth.version proto)) [
      | inr other ↦ (incompatible, simp other)
      | inl version ↦ elim (Bool-cases (same token [])) [
        | inl unset ↦ (no_token, simp (version, unset))
        | inr set ↦ elim (Bool-cases (same auth.user token)) [
          | inr wrong ↦ (invalid_token, simp (version, set, wrong))
          | inl right ↦ absurd (
              h (
                (same_iff auth.version proto).0 version,
                (same-false_iff token []).0 set,
                (same_iff auth.user token).0 right,
              ))
        ]
      ]
    ]

-- A client that names its id is admitted if its version is the server's, the server has a token and
-- the client names the token: then its control is added to the registry under its id, and it is
-- answered with that id. Otherwise it is refused, and the registry is as before.
pub new_control_lem :
    (token proto mm_version : Text) (fresh : Option Text) (auth : Auth) (ctl : ℕ)
    (r : ControlRegistry)
    → auth.client_id ≢ []
    → (IsWelcome token proto auth
        → new_control token proto mm_version fresh auth ctl r ≡ (
          (add_control auth.client_id ctl r).0,
          started auth.client_id
              (add_control auth.client_id ctl r).1
              (greeting proto mm_version auth.client_id),
        ))
      × (¬ IsWelcome token proto auth
          → Refuses token proto auth r (new_control token proto mm_version fresh auth ctl r))
unfolding new_control
new_control_lem token proto mm_version fresh auth ctl r named =
    rw ((same-false_iff auth.client_id []).1 named, new_control)
      (
        admit_welcome token proto mm_version auth.client_id auth ctl r,
        admit_unwelcome token proto mm_version auth.client_id auth ctl r,
      )

-- A tick of the manager's timer never panics, and begins the shutdown of a control whose last ping is
-- more than 30 seconds ago; otherwise it changes nothing. The shutdown of the control is consistent.
pub manage_tick :
    (g : Globals) (outside : ℕ → Outside) (describe : Refusal → Text) (client : Client) (now : ℕ)
    (c : Control)
    → IsConsistent c.shutdown
    → (c' : Control) × (manage g outside describe client (tick now) c ≡ some c')
      × (30 + c.last_ping < now → c'.shutdown.begun ≡ true)
      × (now ≤ 30 + c.last_ping → c' ≡ c)
unfolding manage
manage_tick g outside describe client now c v =
    elim (Bool-cases (ltb ping_timeout_interval (now - c.last_ping))) [
      | inl lost ↦
          let (s, run, begun, _) = begin_lem c.shutdown v in
          (
            record c { shutdown = s },
            rw (lost, manage, run) refl,
            λ _. begun,
            λ h. ground (arith, h, ltb→lt ping_timeout_interval (now - c.last_ping) lost),
          )
      | inr alive ↦ (
        c,
        rw (alive, manage) refl,
        λ h. ground (arith, h, lt→ltb ping_timeout_interval (now - c.last_ping), alive),
        λ _. refl,
      )
    ]

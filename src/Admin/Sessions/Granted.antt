-- ===== src/Admin/Sessions/Granted.antt =====
-- A session is what a login or the setup has given, and ends with a logout or after twelve hours.
use ngrok.Prelude.{
  ℕ, ◌+◌, ◌≤◌, Bool, true, false, not, ◌||◌, List, [], ◌∷◌, ◌≡◌, ◌≢◌, ◌⊎◌, refl, sym, ap, ◌∙◌,
  Option, none, some, length, ltb, arith, Bool-cases, Option-cases, inl, inr,
}
use ngrok.Prelude.Maps.{get, put, get-put_self, get-put_ne, get-delete}
use ngrok.Prelude.Text.{Text, text_dec, same, trim_space}
use ngrok.Prelude.Affixes.{same_iff, same-false_iff}
use ngrok.Admin.Sessions.{
  Crypto, App, has_admin, check_password, set_session, clear_session, current_user, require_auth,
  Event, sets_up, logs_in, logs_out, visits, handle_setup, handle_login, handle_event,
  handle_events, session_time,
}

-- A request that gives a session at a time: a login whose password is accepted, or the setup with the
-- right key.
abbrev pub Issues : Crypto → Event → App → Text → ℕ → Type 0
Issues k (logs_in name password id' now) a id t =
    (check_password k a (trim_space name) password ≡ true) × (id' ≡ id) × (now ≡ t)
Issues k (sets_up key name password salt saved id' now) a id t =
    (has_admin a ≡ false) × (key ≡ a.setup_key) × (id' ≡ id) × (now ≡ t)
Issues k (logs_out cookie) a id t = ⊥
Issues k (visits cookie now) a id t = ⊥

-- A run, the last request first, gave a session less than twelve hours ago, and has not closed it.
abbrev pub IsGranted : Crypto → Text → ℕ → List Event → App → Type 0
IsGranted k id now [] a = ⊥
IsGranted k id now (e ∷ es) a =
    ((t : ℕ) × Issues k e (handle_events k es a) id t × (now ≤ t + session_time))
    ⊎ ((e ≢ logs_out (some id)) × IsGranted k id now es a)

-- What one request does to a session.
abbrev Steps : Crypto → Event → App → Text → ℕ → Type 0
Steps k e a id end =
    ((t : ℕ) × Issues k e a id t × (end ≡ t + session_time))
    ⊎ ((e ≢ logs_out (some id)) × (get text_dec id a.sessions ≡ some end))

set_session-get :
    (j id : Text) (now end : ℕ) (a : App)
    → get text_dec id (set_session j now a).sessions ≡ some end
    → ((j ≡ id) × (end ≡ now + session_time)) ⊎ (get text_dec id a.sessions ≡ some end)
unfolding set_session
set_session-get j id now end a h = elim (Bool-cases (same j id)) [
  | inl e ↦
      let eq = (same_iff j id).0 e in
      let stored : some (now + session_time) ≡ some end =
        sym (get-put_self text_dec id (now + session_time) a.sessions)
        ∙ (ap (λ (x : Text). get text_dec id (put text_dec x (now + session_time) a.sessions))
              (sym eq)
            ∙ h) in
      inl (eq, sym (some-inj stored))
  | inr ne ↦ inr (
      sym (get-put_ne text_dec j id (now + session_time) a.sessions ((same-false_iff j id).0 ne))
      ∙ h)
]
  where
    some-inj : {x y : ℕ} → some x ≡ some y → x ≡ y
    some-inj e = cc

clear_session-get :
    (cookie : Option Text) (id : Text) (end : ℕ) (a : App)
    → get text_dec id (clear_session cookie a).sessions ≡ some end
    → (cookie ≢ some id) × (get text_dec id a.sessions ≡ some end)
unfolding clear_session
clear_session-get none id end a h = (λ e. cc, h)
clear_session-get (some j) id end a h =
    let g = sym (get-delete text_dec j id a.sessions) ∙ h in
    elim (Bool-cases (same j id)) [
      | inl e ↦ absurd (ground (arith, g, e))
      | inr ne ↦ (λ e. (same-false_iff j id).0 ne cc, ground (arith, g, ne))
    ]

current_user-get :
    (cookie : Option Text) (id : Text) (now end : ℕ) (a : App)
    → get text_dec id (current_user cookie now a).1.sessions ≡ some end
    → get text_dec id a.sessions ≡ some end
unfolding current_user
current_user-get none id now end a h = h
current_user-get (some j) id now end a h = elim (Bool-cases (same j [])) [
  | inl e ↦ rw (e, current_user) at h
  | inr e ↦ elim (Option-cases (get text_dec j a.sessions)) [
    | inl absent ↦ (clear_session-get (some j) id end a (rw (e, current_user, absent) at h)).1
    | inr (until, there) ↦ elim (Bool-cases (ltb until now)) [
      | inl late ↦ (clear_session-get (some j) id end a (rw (e, current_user, there, late) at h)).1
      | inr early ↦ rw (e, current_user, there, early) at h
    ]
  ]
]

require_auth-get :
    (cookie : Option Text) (id : Text) (now end : ℕ) (a : App)
    → get text_dec id (require_auth cookie now a).1.sessions ≡ some end
    → get text_dec id a.sessions ≡ some end
unfolding require_auth
require_auth-get cookie id now end a h = elim (Bool-cases (has_admin a)) [
  | inr fresh ↦ rw (fresh, require_auth) at h
  | inl there ↦ elim (Bool-cases (same (current_user cookie now a).0 [])) [
    | inl out ↦ current_user-get cookie id now end a (rw (there, require_auth, out) at h)
    | inr inside ↦ current_user-get cookie id now end a (rw (there, require_auth, inside) at h)
  ]
]

login_step :
    (k : Crypto) (name password j : Text) (now : ℕ) (a : App) (id : Text) (end : ℕ)
    → get text_dec id (handle_login k name password j now a).sessions ≡ some end
    → Steps k (logs_in name password j now) a id end
unfolding handle_login
login_step k name password j now a id end h = elim (Bool-cases (has_admin a)) [
  | inr fresh ↦ inr (λ e. cc, rw (fresh, handle_login) at h)
  | inl there ↦ elim (Bool-cases (check_password k a (trim_space name) password)) [
    | inr wrong ↦ inr (λ e. cc, rw (there, handle_login, wrong) at h)
    | inl right ↦ elim (set_session-get j id now end a (rw (there, handle_login, right) at h)) [
      | inl (eq, at_end) ↦ inl (now, (right, eq, refl), at_end)
      | inr old ↦ inr (λ e. cc, old)
    ]
  ]
]

setup_step :
    (k : Crypto) (key name password salt : Text) (saved : Bool) (j : Text) (now : ℕ) (a : App)
    (id : Text) (end : ℕ)
    → get text_dec id (handle_setup k key name password salt saved j now a).sessions ≡ some end
    → Steps k (sets_up key name password salt saved j now) a id end
unfolding handle_setup
setup_step k key name password salt saved j now a id end h =
    elim (Bool-cases (has_admin a || not (same key a.setup_key))) [
      | inl wrong ↦ inr (λ e. cc, rw (wrong, handle_setup) at h)
      | inr right ↦ elim (Bool-cases (same (trim_space name) [] || same password [])) [
        | inl empty ↦ inr (λ e. cc, rw (right, handle_setup, empty) at h)
        | inr filled ↦ elim (Bool-cases (ltb (length password) 10)) [
          | inl short ↦ inr (λ e. cc, rw (right, handle_setup, filled, short) at h)
          | inr long ↦ elim (Bool-cases saved) [
            | inr lost ↦ inr (λ e. cc, rw (right, handle_setup, filled, long, lost) at h)
            | inl kept ↦
                let issued =
                  set_session-get j id now end _
                    (rw (right, handle_setup, filled, long, kept) at h) in
                elim issued [
                  | inl (eq, at_end) ↦
                      let fresh : has_admin a ≡ false = ground (arith, right) in
                      let same_key : same key a.setup_key ≡ true = ground (arith, right) in
                      inl (now, (fresh, (same_iff key a.setup_key).0 same_key, eq, refl), at_end)
                  | inr old ↦ inr (λ e. cc, old)
                ]
          ]
        ]
      ]
    ]

step :
    (k : Crypto) (e : Event) (a : App) (id : Text) (end : ℕ)
    → get text_dec id (handle_event k e a).sessions ≡ some end
    → Steps k e a id end
unfolding handle_event
step k (sets_up key name password salt saved j now) a id end h =
    setup_step k key name password salt saved j now a id end h
step k (logs_in name password j now) a id end h = login_step k name password j now a id end h
step k (logs_out cookie) a id end h =
    let (other, there) = clear_session-get cookie id end a h in inr (λ e. other cc, there)
step k (visits cookie now) a id end h = inr (λ e. cc, require_auth-get cookie id now end a h)

stored-IsGranted :
    (k : Crypto) (id : Text) (now end : ℕ) (es : List Event) (a : App)
    → a.sessions ≡ []
    → now ≤ end
    → get text_dec id (handle_events k es a).sessions ≡ some end
    → IsGranted k id now es a
unfolding handle_events get
stored-IsGranted k id now end [] a empty early h = absurd (cc (rw empty at h))
stored-IsGranted k id now end (e ∷ es) a empty early h =
    elim (step k e (handle_events k es a) id end h) [
      | inl (t, issued, at_end) ↦ inl (t, issued, omega (arith, early, at_end))
      | inr (other, there) ↦ inr (other, stored-IsGranted k id now end es a empty early there)
    ]

current_user-stored :
    (id : Text) (now : ℕ) (a : App)
    → (current_user (some id) now a).0 ≢ []
    → (end : ℕ) × (get text_dec id a.sessions ≡ some end) × (now ≤ end)
unfolding current_user
current_user-stored id now a h = elim (Bool-cases (same id [])) [
  | inl e ↦ absurd (h (rw (e, current_user) refl))
  | inr e ↦ elim (Option-cases (get text_dec id a.sessions)) [
    | inl absent ↦ absurd (h (rw (e, current_user, absent) refl))
    | inr (end, there) ↦ elim (Bool-cases (ltb end now)) [
      | inl late ↦ absurd (h (rw (e, current_user, there, late) refl))
      | inr early ↦ (end, there, ground (arith, early))
    ]
  ]
]

-- A cookie is accepted at a time only if, among the requests so far, a login with an accepted
-- password or the setup with the right key gave it at most twelve hours before, and no logout has
-- closed it since. The server starts with no session.
pub current_user-IsGranted :
    (k : Crypto) (id : Text) (now : ℕ) (es : List Event) (a : App)
    → a.sessions ≡ []
    → (current_user (some id) now (handle_events k es a)).0 ≢ []
    → IsGranted k id now es a
current_user-IsGranted k id now es a empty h =
    let (end, there, early) = current_user-stored id now (handle_events k es a) h in
    stored-IsGranted k id now end es a empty early there

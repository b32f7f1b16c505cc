-- ===== src/Server/Slots.antt =====
-- The connection slots and the authentication of `src/ngrok/server/main.go`. The channel `connSlots`
-- is here the number of its elements and its capacity, or nothing if it was never made.
use mathlib.Core.Path.{subst}
use ngrok.Prelude.{
  ℕ, zero, suc, ◌≤◌, Bool, true, false, List, [], ◌∷◌, ◌≡◌, refl, sym, Option, none, some,
  if◌then◌else◌, ltb, ltb→lt, arith, Bool-cases, inl, inr,
}

pub record Slots : Type 0 where
  pub used : ℕ
  pub capacity : ℕ

-- `acquireConnSlot`: whether the connection may go on; otherwise it is closed.
unfoldable pub acquire_conn_slot : Option Slots → Option Slots × Bool
acquire_conn_slot none = (none, true)
acquire_conn_slot (some s) =
    if ltb s.used s.capacity then (some (record s { used = suc s.used }), true) else (some s, false)

-- `releaseConnSlot`: `none` waits for ever, since the channel is empty.
unfoldable pub release_conn_slot : Option Slots → Option (Option Slots)
release_conn_slot none = some none
release_conn_slot (some s) = elim s.used [
  | zero ↦ none
  | suc n ↦ some (some (record s { used = n }))
]

-- What happens at a listener: a connection arrives, or a handler that has a slot ends.
pub data Event : Type 0 where
  arrives ends : Event

-- The slots and the number of handlers that run.
pub record Serving : Type 0 where
  pub slots : Option Slots
  pub running : ℕ

-- The loops of `tunnelListener`, `startHttpListener` and `listenTcp`: a handler runs only with a
-- slot, and gives it back at its end. `none`: a handler waits for ever to give back its slot.
unfoldable pub serve : Event → Serving → Option Serving
serve arrives s =
    let (slots', ok) = acquire_conn_slot s.slots in
    some (record { slots = slots'; running = (if ok then suc s.running else s.running) })
serve ends s = elim s.running [
  | zero ↦ some s
  | suc n ↦ elim (release_conn_slot s.slots) [
    | none ↦ none
    | some slots' ↦ some (record { slots = slots'; running = n })
  ]
]

unfoldable pub serve_all : List Event → Serving → Option Serving
serve_all [] s = some s
serve_all (e ∷ es) s = elim (serve e s) [ none ↦ none | some s' ↦ serve_all es s' ]

unfoldable pub start : ℕ → Serving
start max_connections = record {
  slots = some (record { used = 0; capacity = max_connections });
  running = 0;
}

-- Every handler that runs has one slot, and there are as many slots as at the start.
pub record IsServing (capacity : ℕ) (s : Serving) : Type 0 where
  pub held : s.slots ≡ some (record { used = s.running; capacity = capacity })
  pub within : s.running ≤ capacity

serve-IsServing :
    (n : ℕ) (e : Event) (used : ℕ)
    → used ≤ n
    → (s' : Serving) × (serve e
          (record { slots = some (record { used = used; capacity = n }); running = used })
        ≡ some s')
      × IsServing n s'
unfolding serve acquire_conn_slot release_conn_slot
serve-IsServing n arrives used h = elim (Bool-cases (ltb used n)) [
  | inl room ↦ (_, rw room refl, record { held = refl; within = ltb→lt used n room })
  | inr full ↦ (_, rw full refl, record { held = refl; within = h })
]
serve-IsServing n ends zero h = (_, refl, record { held = refl; within = h })
serve-IsServing n ends (suc used) h = (_, refl, record { held = refl; within = omega (arith, h) })

serve_all-IsServing :
    (n : ℕ) (es : List Event) (s : Serving)
    → IsServing n s
    → (s' : Serving) × (serve_all es s ≡ some s') × IsServing n s'
unfolding serve_all
serve_all-IsServing n [] s v = (s, refl, v)
serve_all-IsServing n (e ∷ es) s v =
    let (s1, run, v1) = serve-IsServing n e s.running v.within in
    let (s2, run2, v2) = serve_all-IsServing n es s1 v1 in
    let here : serve e s ≡ some s1 =
      subst (λ sl. serve e (record { slots = sl; running = s.running }) ≡ some s1) (sym v.held)
        run in
    (s2, rw (here, serve_all) run2, v2)

-- However connections arrive and handlers end, the server never waits for ever to give back a slot,
-- never runs more handlers than the limit, and the slots taken are those of the running handlers.
pub serve_all-bounded :
    (max_connections : ℕ) (es : List Event)
    → (s : Serving) × (serve_all es (start max_connections) ≡ some s)
      × (s.slots ≡ some (record { used = s.running; capacity = max_connections }))
      × (s.running ≤ max_connections)
unfolding start
serve_all-bounded n es =
    let (s, run, v) =
      serve_all-IsServing n es (start n) (record { held = refl; within = omega arith }) in
    (s, run, v.held, v.within)

-- ===== src/Util/Shutdown.antt =====
-- The controlled shutdown of `src/ngrok/util/shutdown.go`. A channel is here whether it is closed;
-- `none` is the panic of closing a channel twice.
use ngrok.Prelude.{
  ℕ, zero, suc, Bool, true, false, ◌≡◌, refl, sym, ◌∙◌, Option, none, some, if◌then◌else◌, ◌>>=◌,
  Bool-cases, inl, inr,
}

pub record Shutdown : Type 0 where
  pub in_progress : Bool
  pub begun : Bool
  pub completed : Bool

unfoldable pub new_shutdown : Shutdown
new_shutdown = record { in_progress = false; begun = false; completed = false }

-- `close` of a channel, given whether it is closed.
unfoldable pub close : Bool → Option Bool
close closed = if closed then none else some true

unfoldable pub begin : Shutdown → Option Shutdown
begin s =
    if s.in_progress
    then some s
    else (do closed ← close s.begun; some (record s { in_progress = true; begun = closed }))

unfoldable pub complete : Shutdown → Option Shutdown
complete s = do closed ← close s.completed; some (record s { completed = closed })

-- Whether `WaitBegin` and `WaitComplete` return.
unfoldable pub wait_begin : Shutdown → Bool
wait_begin s = s.begun

unfoldable pub wait_complete : Shutdown → Bool
wait_complete s = s.completed

-- Calls of `Begin`, one after another.
unfoldable pub begin_times : ℕ → Shutdown → Option Shutdown
begin_times zero s = some s
begin_times (suc n) s = do s' ← begin s; begin_times n s'

-- The flag says whether the channel `begin` is closed.
abbrev pub IsConsistent : Shutdown → Type 0
IsConsistent s = s.in_progress ≡ s.begun

begin_again : (s : Shutdown) → s.in_progress ≡ true → begin s ≡ some s
unfolding begin
begin_again s h = simp h

begin_fresh :
    (s : Shutdown)
    → s.in_progress ≡ false
    → IsConsistent s
    → begin s ≡ some (record s { in_progress = true; begun = true })
unfolding begin close
begin_fresh s h c = simp (h, sym c)

-- `Begin` never panics on a consistent shutdown: afterwards the shutdown has begun.
pub begin_lem :
    (s : Shutdown)
    → IsConsistent s
    → (s' : Shutdown) × (begin s ≡ some s') × (s'.begun ≡ true) × IsConsistent s'
begin_lem s h = elim (Bool-cases s.in_progress) [
  | inl begun ↦ (s, begin_again s begun, sym h ∙ begun, h)
  | inr fresh ↦ (_, begin_fresh s fresh h, refl, refl)
]

again : (n : ℕ) (s : Shutdown) → s.in_progress ≡ true → begin_times n s ≡ some s
unfolding begin_times
again zero s h = refl
again (suc n) s h = rw (begin_again s h) (again n s h)

-- A shutdown may be begun any number of times: `Begin` never panics on a consistent shutdown, and
-- after one or more calls the waiters for the begin are released and nothing else has changed.
pub begin_times_lem :
    (n : ℕ) (s : Shutdown)
    → IsConsistent s
    → (s' : Shutdown) × (begin_times (suc n) s ≡ some s')
      × (wait_begin s' ≡ true)
      × (wait_complete s' ≡ wait_complete s)
      × IsConsistent s'
unfolding begin_times wait_begin wait_complete
begin_times_lem n s h = elim (Bool-cases s.in_progress) [
  | inl begun ↦ (s, again (suc n) s begun, sym h ∙ begun, refl, h)
  | inr fresh ↦ (
    record s { in_progress = true; begun = true },
    rw (begin_fresh s fresh h) (again n (record s { in_progress = true; begun = true }) refl),
    refl,
    refl,
    refl,
  )
]

-- ===== src/Client/Model/Heartbeat.antt =====
-- The heartbeat of the client, `src/ngrok/client/model.go`. Times are nanoseconds.
pub mod Answered
use mathlib.Core.Path.{subst}
use ngrok.Prelude.{
  ℕ, ◌+◌, ◌-◌, ◌*◌, ◌≤◌, ◌<◌, Bool, true, false, ◌&&◌, List, [], ◌∷◌, ◌≡◌, refl, Option, none, some,
  if◌then◌else◌, arith, Bool-cases, inl, inr, ltb, ◌⊎◌, In,
}

abbrev pub max_pong_latency : ℕ
max_pong_latency = 15000000000

-- The intervals of the tickers of the pings and the checks.
abbrev pub ping_interval : ℕ
ping_interval = 20000000000

abbrev pub check_interval : ℕ
check_interval = 1000000000

-- The time of the last ping, and that of the last pong, which the control loop writes.
pub record Beat : Type 0 where
  pub last_ping : ℕ
  pub last_pong : ℕ

-- The start of `heartbeat`: the time of the last pong in nanoseconds is taken for seconds.
unfoldable pub start_beat : ℕ → Beat
start_beat now = record { last_ping = (now - 1) * 1000000000; last_pong = now }

-- A tick of the check, a tick of the ping with whether it can be written, or a pong that arrives.
pub data BeatEvent : Type 0 where
  checks : ℕ → BeatEvent
  pings : Bool → ℕ → BeatEvent
  pongs : ℕ → BeatEvent

-- `needPong && pongLatency > maxPongLatency`
unfoldable pub is_stale : ℕ → Beat → Bool
is_stale now b = ltb b.last_pong b.last_ping && ltb max_pong_latency (now - b.last_ping)

-- One round: `none` is the end of the heartbeat, which closes the connection.
unfoldable pub beat : BeatEvent → Beat → Option Beat
beat (checks now) b = if is_stale now b then none else some b
beat (pings sent now) b = if sent then some (record b { last_ping = now }) else none
beat (pongs now) b = some (record b { last_pong = now })

unfoldable pub beats : List BeatEvent → Beat → Option Beat
beats [] b = some b
beats (e ∷ es) b = elim (beat e b) [ none ↦ none | some b' ↦ beats es b' ]

-- The time of an event.
abbrev pub time_of : BeatEvent → ℕ
time_of (checks now) = now
time_of (pings sent now) = now
time_of (pongs now) = now

-- What the two tickers promise, for a time `late` by which a tick may be handled late: after the last
-- check, at `last_check`, the next one comes within the interval, before any later event, and pings
-- are an interval apart, the last at `last_ping`.
abbrev pub IsPaced : ℕ → ℕ → ℕ → List BeatEvent → Type 0
IsPaced late last_check last_ping [] = Unit
IsPaced late last_check last_ping (checks now ∷ es) =
    (now ≤ last_check + check_interval + late) × IsPaced late now last_ping es
IsPaced late last_check last_ping (pings sent now ∷ es) =
    (now ≤ last_check + check_interval + late)
    × (last_ping + ping_interval ≤ now + late)
    × IsPaced late last_check now es
IsPaced late last_check last_ping (pongs now ∷ es) =
    (now ≤ last_check + check_interval + late) × IsPaced late last_check last_ping es

-- Nothing is heard: there are checks, and the client's own pings.
abbrev pub IsSilent : List BeatEvent → Type 0
IsSilent [] = Unit
IsSilent (checks now ∷ es) = IsSilent es
IsSilent (pings sent now ∷ es) = IsSilent es
IsSilent (pongs now ∷ es) = ⊥

ltb_cases : (m n : ℕ) → (m < n) ⊎ (n ≤ m)
ltb_cases m n = elim (Bool-cases (ltb m n)) [
  | inl e ↦ inl (ground (arith, e))
  | inr e ↦ inr (ground (arith, e))
]

stale-now :
    (now : ℕ) (b : Beat)
    → b.last_pong < b.last_ping
    → b.last_ping + max_pong_latency < now
    → is_stale now b ≡ true
unfolding is_stale
stale-now now b late after = ground (arith, late, after)

-- The last check is no later than the latency allows, so the next one is, or finds the connection
-- stale, and comes before the next ping.
silent_ends :
    (late last_check : ℕ) (es : List BeatEvent) (b : Beat)
    → late < 2000000000
    → b.last_pong < b.last_ping
    → last_check ≤ b.last_ping + max_pong_latency
    → IsSilent es
    → IsPaced late last_check b.last_ping es
    → (e : BeatEvent) × In e es × (b.last_ping + max_pong_latency < time_of e)
    → beats es b ≡ none
unfolding beats beat
silent_ends late k [] b small awaits early silent paced (e, here, after) = absurd here
silent_ends late k (checks now ∷ es) b small awaits early silent paced (e, here, after) =
    elim (Bool-cases (is_stale now b)) [
      | inl stale ↦ rw (stale, beats, beat) refl
      | inr fresh ↦ elim (ltb_cases (b.last_ping + max_pong_latency) now) [
        | inl due ↦ absurd (cc (stale-now now b awaits due, fresh))
        | inr soon ↦
            rw (fresh, beats, beat)
              (elim here [
                | inl this ↦ absurd (
                    omega (
                      arith,
                      soon,
                      subst (λ x. b.last_ping + max_pong_latency < time_of x) this after,
                    ))
                | inr later ↦
                    silent_ends late now es b small awaits soon silent paced.1 (e, later, after)
              ])
      ]
    ]
silent_ends late k (pings sent now ∷ es) b small awaits early silent (next_check, next_ping, rest)
      found =
    absurd (omega (arith, small, early, next_check, next_ping))
silent_ends late k (pongs now ∷ es) b small awaits early silent paced found = absurd silent

-- A dead connection is noticed: once a ping has been written later than the last pong, and no pong
-- comes after it, the heartbeat ends before anything happens that is more than fifteen seconds later,
-- although the client goes on with its own pings. The tickers keep their intervals, ticks are handled
-- less than two seconds late, and the last check was no later than the ping.
pub beats_end :
    (late last_check : ℕ) (es : List BeatEvent) (b : Beat) (now : ℕ)
    → late < 2000000000
    → b.last_pong < now
    → last_check ≤ now
    → IsSilent es
    → IsPaced late last_check now es
    → (e : BeatEvent) × In e es × (now + max_pong_latency < time_of e)
    → beats (pings true now ∷ es) b ≡ none
unfolding beats beat
beats_end late k es b now small awaits early silent paced found =
    silent_ends late k es (record b { last_ping = now }) small awaits (omega (arith, early)) silent
      paced found

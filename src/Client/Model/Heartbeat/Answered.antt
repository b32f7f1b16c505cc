-- ===== src/Client/Model/Heartbeat/Answered.antt =====
-- A connection that answers, and the heartbeat of `src/ngrok/client/model.go`.
use ngrok.Prelude.{ℕ, ◌+◌, ◌≤◌, true, false, List, [], ◌∷◌, ◌≡◌, refl, some, arith, inl, inr, ◌⊎◌}
use ngrok.Client.Model.Heartbeat.{
  Beat, BeatEvent, checks, pings, pongs, start_beat, is_stale, beat, beats, max_pong_latency,
}

-- The events are in the order of time, none of them before a time.
abbrev pub IsTimed : ℕ → List BeatEvent → Type 0
IsTimed t [] = Unit
IsTimed t (checks now ∷ es) = (t ≤ now) × IsTimed now es
IsTimed t (pings sent now ∷ es) = (t ≤ now) × IsTimed now es
IsTimed t (pongs now ∷ es) = (t ≤ now) × IsTimed now es

-- No event is later than a time.
abbrev pub EndsBy : ℕ → List BeatEvent → Type 0
EndsBy t [] = Unit
EndsBy t (checks now ∷ es) = (now ≤ t) × EndsBy t es
EndsBy t (pings sent now ∷ es) = (now ≤ t) × EndsBy t es
EndsBy t (pongs now ∷ es) = (now ≤ t) × EndsBy t es

-- A pong arrives by a time.
abbrev pub HasPong : ℕ → List BeatEvent → Type 0
HasPong t [] = ⊥
HasPong t (checks now ∷ es) = HasPong t es
HasPong t (pings sent now ∷ es) = HasPong t es
HasPong t (pongs now ∷ es) = (now ≤ t) ⊎ HasPong t es

-- Every ping is written, and a pong arrives within the latency, unless the run ends before.
abbrev pub AreAnswered : List BeatEvent → Type 0
AreAnswered [] = Unit
AreAnswered (checks now ∷ es) = AreAnswered es
AreAnswered (pings sent now ∷ es) =
    (sent ≡ true)
    × (HasPong (now + max_pong_latency) es ⊎ EndsBy (now + max_pong_latency) es)
    × AreAnswered es
AreAnswered (pongs now ∷ es) = AreAnswered es

HasPong-IsTimed : (t now : ℕ) (es : List BeatEvent) → IsTimed now es → HasPong t es → now ≤ t
HasPong-IsTimed t now [] timed has = absurd has
HasPong-IsTimed t now (checks n ∷ es) (after, timed) has =
    omega (arith, after, HasPong-IsTimed t n es timed has)
HasPong-IsTimed t now (pings sent n ∷ es) (after, timed) has =
    omega (arith, after, HasPong-IsTimed t n es timed has)
HasPong-IsTimed t now (pongs n ∷ es) (after, timed) has = elim has [
  | inl here ↦ omega (arith, after, here)
  | inr later ↦ omega (arith, after, HasPong-IsTimed t n es timed later)
]

-- The last ping is answered, will be, or need not be before the end of the run.
abbrev IsSafe : ℕ → Beat → List BeatEvent → Type 0
IsSafe t b es =
    ((b.last_ping ≤ t)
      × ((b.last_ping ≤ b.last_pong) ⊎ HasPong (b.last_ping + max_pong_latency) es))
    ⊎ EndsBy (b.last_ping + max_pong_latency) es

fresh-answered : (now : ℕ) (b : Beat) → b.last_ping ≤ b.last_pong → is_stale now b ≡ false
unfolding is_stale
fresh-answered now b h = ground (arith, h)

fresh-soon : (now : ℕ) (b : Beat) → now ≤ b.last_ping + max_pong_latency → is_stale now b ≡ false
unfolding is_stale
fresh-soon now b h = ground (arith, h)

check-IsSafe :
    (t now : ℕ) (b : Beat) (es : List BeatEvent)
    → t ≤ now
    → IsTimed now es
    → IsSafe t b (checks now ∷ es)
    → (is_stale now b ≡ false) × IsSafe now b es
check-IsSafe t now b es after timed safe = elim safe [
  | inr (soon, ends) ↦ (fresh-soon now b soon, inr ends)
  | inl (written, inl answered) ↦
      (fresh-answered now b answered, inl (omega (arith, after, written), inl answered))
  | inl (written, inr awaits) ↦ (
    fresh-soon now b (HasPong-IsTimed (b.last_ping + max_pong_latency) now es timed awaits),
    inl (omega (arith, after, written), inr awaits),
  )
]

goes_on :
    (t : ℕ) (es : List BeatEvent) (b : Beat)
    → IsTimed t es
    → AreAnswered es
    → IsSafe t b es
    → (b' : Beat) × (beats es b ≡ some b')
unfolding beats beat
goes_on t [] b timed a safe = (b, refl)
goes_on t (checks now ∷ es) b (after, timed) a safe =
    let (fresh, safe') = check-IsSafe t now b es after timed safe in
    let (b', run) = goes_on now es b timed a safe' in (b', rw (beats, beat, fresh) run)
goes_on t (pings sent now ∷ es) b (after, timed) (written, answered, a) safe =
    let next : Beat = record b { last_ping = now } in
    let safe' : IsSafe now next es = elim answered [
      | inl has ↦ inl (omega arith, inr has)
      | inr ends ↦ inr ends
    ] in
    let (b', run) = goes_on now es next timed a safe' in (b', rw (beats, beat, written) run)
goes_on t (pongs now ∷ es) b (after, timed) a safe =
    let next : Beat = record b { last_pong = now } in
    let safe' : IsSafe now next es = elim safe [
      | inr (soon, ends) ↦ inr ends
      | inl (known, awaits) ↦
          let order : b.last_ping ≤ now = omega (arith, after, known) in inl (order, inl order)
    ] in
    goes_on now es next timed a safe'

-- A connection that answers is kept: if every ping is written and a pong arrives at most fifteen
-- seconds after it, or the run ends before, the heartbeat goes on from its start, whatever checks come
-- between a ping and its pong. Events are in the order of time, and the run ends within fifteen
-- seconds of the time that the start takes for that of its last ping: it takes the nanoseconds of the
-- last pong, less one, for seconds.
pub beats_go_on :
    (now : ℕ) (es : List BeatEvent)
    → IsTimed now es
    → AreAnswered es
    → EndsBy ((start_beat now).last_ping + max_pong_latency) es
    → (b' : Beat) × (beats es (start_beat now) ≡ some b')
beats_go_on now es timed a ends = goes_on now es (start_beat now) timed a (inr ends)

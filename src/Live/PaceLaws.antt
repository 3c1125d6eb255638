-- ===== src/Live/PaceLaws.antt =====
-- Broadcasts of internal/server/ws_hub.go are a second apart, and none is forgotten.
use vibemonitor.Prelude.{
  ℕ, ◌+◌, ◌≤◌, ◌≡◌, refl, ap, ◌∙◌, ◌⊎◌, inl, inr, List, [], ◌∷◌, Option, none, some, arith,
  Bool-cases, All,
}
use vibemonitor.Prelude.Clock.{sub_ge}
use vibemonitor.Live.Pace.{
  Pace, Signal, trigger, fire, tick, flush, arm, turn, turns, min_update_interval,
}

-- A timer fires when its time has come; the other signals come at any time.
abbrev pub Enabled : Signal → ℕ → Option ℕ → Type 0
Enabled trigger now pending = Unit
Enabled tick now pending = Unit
Enabled fire now none = ⊥
Enabled fire now (some at) = at ≤ now

abbrev pub AllEnabled : List (ℕ × Signal) → Pace → Type 0
AllEnabled [] p = Unit
AllEnabled ((now, signal) ∷ rest) p =
    Enabled signal now p.pending × AllEnabled rest (turn signal now p)

-- The newest first, each a second after the next, and the first of all a second after the start.
abbrev pub Spaced : ℕ → List ℕ → Type 0
Spaced start [] = Unit
Spaced start (t ∷ []) = start + min_update_interval ≤ t
Spaced start (t ∷ u ∷ ts) = (u + min_update_interval ≤ t) × Spaced start (u ∷ ts)

unfoldable pub newest : ℕ → List ℕ → ℕ
newest start [] = start
newest start (t ∷ ts) = t

-- The timer is set for a second after the last broadcast.
unfoldable pub Timed : ℕ → Option ℕ → Type 0
Timed last none = Unit
Timed last (some at) = at ≡ last + min_update_interval

pub record IsPace (start : ℕ) (p : Pace) : Type 0 where
  pub last : p.last_broadcast ≡ newest start p.broadcasts
  pub timed : Timed p.last_broadcast p.pending
  pub spaced : Spaced start p.broadcasts

Spaced-cons :
    (start now : ℕ) (ts : List ℕ)
    → Spaced start ts
    → newest start ts + min_update_interval ≤ now
    → Spaced start (now ∷ ts)
unfolding newest
Spaced-cons start now [] h le = le
Spaced-cons start now (t ∷ ts) h le = (le, h)

flush-IsPace :
    (start now : ℕ) (p : Pace)
    → IsPace start p
    → p.last_broadcast + min_update_interval ≤ now
    → IsPace start (flush now p)
unfolding flush newest Timed
flush-IsPace start now p h le = record {
  last = refl;
  timed = tt;
  spaced = Spaced-cons start now p.broadcasts h.spaced (omega (arith, h.last, le));
}

arm-Timed : (p : Pace) (o : Option ℕ) → Timed p.last_broadcast o → Timed p.last_broadcast (arm p o)
unfolding arm Timed
arm-Timed p none h = refl
arm-Timed p (some at) h = h

turn-IsPace :
    (start now : ℕ) (signal : Signal) (p : Pace)
    → IsPace start p
    → Enabled signal now p.pending
    → IsPace start (turn signal now p)
unfolding turn
turn-IsPace start now trigger p h e =
    elim (Bool-cases (sub_ge now p.last_broadcast min_update_interval)) [
      | inl due ↦ rw due (flush-IsPace start now p h (ground (arith, due)))
      | inr early ↦
          rw early
            (record { last = h.last; timed = arm-Timed p p.pending h.timed; spaced = h.spaced })
    ]
turn-IsPace start now tick p h e =
    elim (Bool-cases (sub_ge now p.last_broadcast min_update_interval)) [
      | inl due ↦ rw due (flush-IsPace start now p h (ground (arith, due)))
      | inr early ↦ rw early h
    ]
turn-IsPace start now fire p h e =
    flush-IsPace start now p h (fired now p.last_broadcast p.pending h.timed e)
  where
    fired :
        (now last : ℕ) (o : Option ℕ)
        → Timed last o
        → Enabled fire now o
        → last + min_update_interval ≤ now
    fired now last none t e = absurd e
    fired now last (some at) t e = unfold Timed in omega (arith, t, e)

turns-IsPace :
    (start : ℕ) (signals : List (ℕ × Signal)) (p : Pace)
    → IsPace start p
    → AllEnabled signals p
    → IsPace start (turns signals p)
unfolding turns
turns-IsPace start [] p h e = h
turns-IsPace start ((now, signal) ∷ rest) p h e =
    turns-IsPace start rest (turn signal now p) (turn-IsPace start now signal p h e.0) e.1

-- The loop starts with no timer at the instant that it takes for a broadcast.
abbrev pub started : ℕ → Pace
started start = record { last_broadcast = start; pending = none; broadcasts = [] }

-- Whatever triggers, ticks and timers come, in any order, each timer set and not before its time: any
-- two broadcasts in a row are at least a second apart, and the first comes a second after the start
-- or later.
pub turns-Spaced :
    (start : ℕ) (signals : List (ℕ × Signal))
    → AllEnabled signals (started start)
    → Spaced start (turns signals (started start)).broadcasts
turns-Spaced start signals e =
    (turns-IsPace start signals (started start)
      (unfold newest Timed in record { last = refl; timed = tt; spaced = tt }) e).spaced

-- A trigger at `now` is served, or the timer is set that will serve it within a second.
abbrev pub Served : ℕ → Pace → Type 0
Served now p =
    (now ≤ p.last_broadcast) ⊎ ((at : ℕ) × (p.pending ≡ some at) × (at ≤ now + min_update_interval))

trigger-Served :
    (start now : ℕ) (p : Pace)
    → IsPace start p
    → p.last_broadcast ≤ now
    → Served now (turn trigger now p)
unfolding turn flush
trigger-Served start now p h le =
    elim (Bool-cases (sub_ge now p.last_broadcast min_update_interval)) [
      | inl due ↦ rw due (inl (omega arith))
      | inr early ↦ rw early (inr (armed p.pending h.timed))
    ]
  where
    armed :
        (o : Option ℕ)
        → Timed p.last_broadcast o
        → (at : ℕ) × (arm p o ≡ some at) × (at ≤ now + min_update_interval)
    armed none t = unfold arm in (_, refl, omega (arith, le))
    armed (some at) t = unfold arm Timed in (at, refl, omega (arith, le, t))

turn-Served :
    (now later : ℕ) (signal : Signal) (p : Pace)
    → now ≤ later
    → Served now p
    → Served now (turn signal later p)
unfolding turn flush
turn-Served now later trigger p le h =
    elim (Bool-cases (sub_ge later p.last_broadcast min_update_interval)) [
      | inl due ↦ rw due (inl le)
      | inr early ↦ rw early (elim h [
        | inl done ↦ inl done
        | inr (at, set, soon) ↦ inr (at, ap (arm p) set ∙ kept at, soon)
      ])
    ]
  where
    kept : (at : ℕ) → arm p (some at) ≡ some at
    kept at = unfold arm in refl
turn-Served now later tick p le h =
    elim (Bool-cases (sub_ge later p.last_broadcast min_update_interval)) [
      | inl due ↦ rw due (inl le)
      | inr early ↦ rw early h
    ]
turn-Served now later fire p le h = inl le

turns-Served :
    (now : ℕ) (signals : List (ℕ × Signal)) (p : Pace)
    → All (λ s. now ≤ s.0) signals
    → Served now p
    → Served now (turns signals p)
unfolding turns
turns-Served now [] p les h = h
turns-Served now ((later, signal) ∷ rest) p les h =
    turns-Served now rest (turn signal later p) les.1 (turn-Served now later signal p les.0 h)

-- No update is forgotten. In a state that the loop keeps (IsPace), at an instant not before its last
-- broadcast, a trigger comes: whatever signals follow at that instant or later, either a broadcast
-- was made at the trigger's instant or after it, or the timer is set to make one within a second.
pub trigger_answered :
    (start now : ℕ) (p : Pace) (signals : List (ℕ × Signal))
    → IsPace start p
    → p.last_broadcast ≤ now
    → All (λ s. now ≤ s.0) signals
    → Served now (turns signals (turn trigger now p))
trigger_answered start now p signals h le les =
    turns-Served now signals (turn trigger now p) les (trigger-Served start now p h le)

-- ===== src/Live/Pace.antt =====
-- The loop `run` of internal/server/ws_hub.go, which decides when the hub broadcasts. Each turn of
-- its `select` is one step at the instant it reads. The timer's channel is `pending`, with the
-- instant at which it fires; `broadcasts` lists the broadcasts, the newest first.
use vibemonitor.Prelude.{ℕ, ◌+◌, List, [], ◌∷◌, Option, none, some, if◌then◌else◌}
use vibemonitor.Prelude.Clock.{second, sub_ge}

abbrev pub min_update_interval : ℕ
min_update_interval = second

pub record Pace : Type 0 where
  pub last_broadcast : ℕ
  pub pending : Option ℕ
  pub broadcasts : List ℕ

-- `flush`: the timer is stopped and drained.
unfoldable pub flush : ℕ → Pace → Pace
flush now p = record { last_broadcast = now; pending = none; broadcasts = now ∷ p.broadcasts }

-- `timer.Reset(minInterval - time.Since(lastBroadcast))`, unless the timer runs.
unfoldable pub arm : Pace → Option ℕ → Option ℕ
arm p none = some (p.last_broadcast + min_update_interval)
arm p (some at) = some at

-- The store calls `trigger`, the timer fires, and the ticker ticks.
pub data Signal : Type 0 where
  trigger fire tick : Signal

unfoldable pub turn : Signal → ℕ → Pace → Pace
unfolding flush arm
turn trigger now p =
    if sub_ge now p.last_broadcast min_update_interval
    then flush now p
    else record p { pending = arm p p.pending }
turn fire now p = flush now p
turn tick now p = if sub_ge now p.last_broadcast min_update_interval then flush now p else p

unfoldable pub turns : List (ℕ × Signal) → Pace → Pace
turns [] p = p
turns ((now, signal) ∷ rest) p = turns rest (turn signal now p)

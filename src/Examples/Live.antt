-- ===== src/Examples/Live.antt =====
-- The hub and its pace on short runs.
use vibemonitor.Prelude.{ℕ, ◌+◌, ◌*◌, ◌≡◌, refl, true, false, List, [], ◌∷◌, none, some, All, arith}
use vibemonitor.Prelude.Clock.{second}
use vibemonitor.Live.Pace.{Signal, trigger, fire, tick, flush, arm, turn, turns}
use vibemonitor.Live.PaceLaws.{
  started, Spaced, Served, newest, Timed, turns-Spaced, trigger_answered,
}
use vibemonitor.Live.Hub.{View, Hub, force_broadcast_nodes}
use vibemonitor.Live.HubLaws.{newest as newest_payload}
use vibemonitor.Live.Delivered.{own, force_broadcast_nodes_delivered}

abbrev signals : List (ℕ × Signal)
signals = (10 * second + 500000000, trigger) ∷ (11 * second, fire) ∷ (13 * second, tick) ∷ []

turns-Spaced_example : Spaced (10 * second) (turns signals (started (10 * second))).broadcasts
unfolding turn flush arm
turns-Spaced_example = turns-Spaced (10 * second) signals (tt, (omega arith, (tt, tt)))

trigger_answered_example :
    Served
      (10 * second + 400000000)
      (turns signals (turn trigger (10 * second + 400000000) (started (10 * second))))
unfolding newest Timed
trigger_answered_example =
    trigger_answered (10 * second) (10 * second + 400000000) (started (10 * second)) signals
      (record { last = refl; timed = tt; spaced = tt }) (omega arith)
      (omega arith, (omega arith, (omega arith, tt)))

abbrev no_view : View
no_view = record { cache = none; last_payload = none }

abbrev two_clients : Hub
two_clients = record {
  clients =
      record { id = 1; compact = true; queue = "a" ∷ "b" ∷ "c" ∷ "d" ∷ []; last_request = 0 }
      ∷ record { id = 2; compact = false; queue = []; last_request = 0 }
      ∷ [];
  closed = false;
  full_view = no_view;
  compact_view = no_view;
}

force_broadcast_nodes_delivered_example :
    All
      (λ c. newest_payload c.queue ≡ some (own "full" "compact" c))
      (force_broadcast_nodes second (some "full") (some "compact") two_clients).clients
force_broadcast_nodes_delivered_example =
    force_broadcast_nodes_delivered second "full" "compact" two_clients

-- ===== src/Examples/Checks.antt =====
-- The checks of a node on short runs.
use vibemonitor.Prelude.{
  ℕ, ◌+◌, ◌*◌, ◌-◌, ◌/◌, ◌≤◌, ◌≡◌, ◌≢◌, refl, true, false, List, [], ◌∷◌, none, some, ◌⊎◌, All, leb,
  ltb, ◌==◌,
}
use vibemonitor.Prelude.Int.{pos, negsuc}
use vibemonitor.Prelude.Clock.{of_unix}
use vibemonitor.Prelude.Assoc.{lookup, delete}
use vibemonitor.Ping.Results.{PingResult}
use vibemonitor.Alerts.Delivery.{deliver}
use vibemonitor.Alerts.Targets.{
  all_targets_ping, targets_key, probe_targets, probe_result, find_result, is_unknown, fresh_at,
  matches, note_result,
}
use vibemonitor.Alerts.TargetsLaws.{TimedOut, IsOldest}
use vibemonitor.Alerts.State.{Floats, AlertConfig, AlertNode, Moment, Progress, deliver_then}
use vibemonitor.Alerts.State.Kind.{warning_kind}
use vibemonitor.Alerts.PingCheck.{
  targets_of, results_of, timeout_since, follow_targets, judge_probe, ping_silent, check_ping,
}
use vibemonitor.Alerts.Engine.{no_state}
use vibemonitor.Alerts.Announced.{announced, announced_of}
use vibemonitor.Alerts.Outages.{Round, rounds, Consistent, rounds-Consistent}
use vibemonitor.Alerts.Once.{warned_once}
use vibemonitor.Alerts.Silence.{check_ping-silent}

-- Levels in whole percents.
abbrev percents : Floats ℕ
percents = record {
  less = ltb;
  at_most = leb;
  same = λ a b. a == b;
  recovery = λ t. t - 5;
  percent = λ a b. a * 100 / b;
  zero_level = 0;
  memory_level = 85;
}

abbrev cfg : AlertConfig
cfg = record {
  offline_delay_seconds = 30;
  reminder_days = 0;
  reminder_hour = 9;
  ping_targets = record { name = "a"; host = "192.0.2.1" } ∷ [];
}

abbrev moment : Moment
moment = record {
  now = of_unix 2000;
  send = λ kind. true;
  hour = 12;
  today = "2026-01-02";
  day_number = 10;
  parse_day = λ s. some 12;
  cycle_text = λ t. "c1";
  identity = λ t. t.name;
  sort_strings = λ l. l;
  digest = λ s. s;
}

abbrev down : AlertNode ℕ
down = record {
  id = "n1";
  online = false;
  last_seen = of_unix 1000;
  last_report = none;
  profile = none;
  traffic_limit = 0;
  cycle_total_used = 0;
  cycle_start = 0;
}

abbrev start : Progress ℕ
start = record { state = no_state percents; work = record { table = []; delivered = [] } }

abbrev round_of : AlertNode ℕ → Round ℕ
round_of node = record { cfg = cfg; node = node; moment = moment }

abbrev outage : List (Round ℕ)
outage = round_of down ∷ round_of (record down { online = true }) ∷ []

rounds-Consistent_example : Consistent (rounds percents outage start)
unfolding announced_of
rounds-Consistent_example = rounds-Consistent percents outage start refl

-- 80 of 100 bytes used, at a node whose profile asks for a warning at 80 percent.
abbrev filling : AlertNode ℕ
filling = record down {
  online = true;
  profile = some (record {
    alerts_disabled = false;
    cpu_threshold = none;
    traffic_warning_percent = 80;
    due_date = "";
    targets = [];
  });
  traffic_limit = 100;
  cycle_total_used = 80;
}

abbrev fillings : List (Round ℕ)
fillings = round_of filling ∷ round_of (record filling { cycle_total_used = 90 }) ∷ []

warned_once_example :
    ((announced (rounds percents fillings start)).warnings ≡ (announced start).warnings)
    ⊎ ((announced (rounds percents fillings start)).warnings
        ≡ warning_kind ∷ (announced start).warnings)
warned_once_example = warned_once percents "c1" fillings start (refl, (refl, tt))

abbrev silent_result : PingResult
silent_result = record {
  measured_at = pos 1990;
  method = "icmp";
  name = "a";
  host = "192.0.2.1";
  latency = negsuc 0;
}

abbrev unanswered : AlertNode ℕ
unanswered = record down {
  online = true;
  last_report =
      some
        (record { cpu_usage = 0; ram_used = 0; ram_total = 0; ping_results = silent_result ∷ [] });
}

abbrev silent : Progress ℕ
silent = record start {
  state = record (no_state percents) { ping_targets_key = "a"; ping_timeout_since = 1900 };
}

check_ping-silent_example :
    (unanswered.online ≡ true)
    × (targets_of cfg unanswered ≢ [])
    × ((rs : List PingResult) × (at : ℕ) × (results_of unanswered ≡ some rs)
        × All (TimedOut moment.now rs) (targets_of cfg unanswered)
        × IsOldest rs (targets_of cfg unanswered) at
        × (timeout_since at
                (follow_targets
                  (targets_key moment.identity moment.sort_strings moment.digest
                    (targets_of cfg unanswered))
                  unanswered.id
                  silent).state
              + cfg.offline_delay_seconds
            ≤ at))
unfolding check_ping judge_probe ping_silent deliver_then deliver follow_targets targets_key
    all_targets_ping probe_targets probe_result find_result is_unknown fresh_at matches note_result
    lookup delete
check_ping-silent_example = check_ping-silent cfg unanswered moment silent refl

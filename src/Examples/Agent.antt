-- ===== src/Examples/Agent.antt =====
-- The agent on short runs.
use vibemonitor.Prelude.{
  ℕ, ◌*◌, ◌≡◌, ◌⊎◌, inr, refl, false, not, List, [], ◌∷◌, Option, none, some, any,
}
use vibemonitor.Prelude.Int.{ℤ, pos}
use vibemonitor.Prelude.Clock.{second, of_unix}
use vibemonitor.Store.Queue.{Target}
use vibemonitor.Alerts.Targets.{Probe, fresh_at, all_targets_ping}
use vibemonitor.Agent.Response.{Bytes, Response, read_rpc_response}
use vibemonitor.Agent.ResponseLaws.{Justified, read_rpc_response-Justified}
use vibemonitor.Agent.ErrorLog.{no_errors}
use vibemonitor.Agent.ErrorLogLaws.{Told}
use vibemonitor.Agent.Pings.{PingNetwork, measure_ping, measure_pings}
use vibemonitor.Agent.PingsLaws.{answers, all_targets_ping-measure_pings}
use vibemonitor.Agent.Client.{
  RpcResult, Agent, BasicTry, Happening, tick, run, happen, upload, report_posted, sampled,
}
use vibemonitor.Agent.Client.Posted.{failed, succeeded}
use vibemonitor.Agent.Client.Request.{basic_info, report}
use vibemonitor.Agent.Client.Happening.{sample, ticked}
use vibemonitor.Agent.ClientLaws.{Within, taken, samples, run-Within}
use vibemonitor.Agent.Signals.{basic_info_resent}

abbrev echo : Bytes → Bytes ⊎ Response Bytes
echo body = inr (record { result = body; error = none })

read_rpc_response-Justified_example :
    Justified echo 200 (1 ∷ 2 ∷ []) (read_rpc_response echo 200 (some (1 ∷ 2 ∷ [])))
read_rpc_response-Justified_example = read_rpc_response-Justified echo 200 (1 ∷ 2 ∷ [])

abbrev untold : Told
untold = record { log = no_errors; shown = [] }

abbrev times : List ℕ
times = second ∷ 2 * second ∷ 40 * second ∷ []

abbrev network : PingNetwork
network = record {
  trim = λ s. s;
  has_port = λ s. false;
  http = λ s. s;
  https = λ s. s;
  connect = λ s. none;
  ping = λ s. some 12;
}

abbrev clock : Target → ℤ
clock t = pos 1000

abbrev target : Target
target = record { name = "a"; host = "192.0.2.1" }

all_targets_ping-measure_pings_example :
    (p : Probe) × (all_targets_ping
        (of_unix 1010)
        (target ∷ [])
        (measure_pings network clock false (target ∷ []) none)
      ≡ some p)
    × (p.all_timeout ≡ not (any (answers network) (target ∷ [])))
unfolding fresh_at measure_ping
all_targets_ping-measure_pings_example =
    all_targets_ping-measure_pings network clock (of_unix 1010) target [] none (λ u. refl)

abbrev idle_agent : Agent ℕ
idle_agent = record {
  pending = none;
  sample_failures = no_errors;
  basic_failures = no_errors;
  report_failures = no_errors;
  last_basic_info = second;
  ping_targets = none;
  ping_results = none;
  identity_epoch = "";
  ping_trigger = false;
  identity_trigger = false;
  requests = [];
}

abbrev attempt : BasicTry
attempt = record { now = 2 * second; collected = none; posted = succeeded none }

abbrev run_of : List (Happening ℕ)
run_of = sample 1 ∷ sample 2 ∷ ticked second (failed "refused") attempt ∷ sample 3 ∷ []

run-Within_example : Within (taken (run run_of idle_agent)) (samples run_of [])
run-Within_example = run-Within run_of [] idle_agent tt

abbrev ready : Agent ℕ
ready = record idle_agent { pending = some 7 }

abbrev between : List (Happening ℕ)
between = sample 8 ∷ []

abbrev failed_once : Agent ℕ
failed_once = run between (tick second (failed "refused") attempt ready)

basic_info_resent_example :
    (tick (2 * second) (succeeded none) attempt failed_once).requests
    ≡ basic_info ∷ report 8 failed_once.ping_results ∷ failed_once.requests
unfolding run happen tick upload report_posted sampled
basic_info_resent_example =
    basic_info_resent second (2 * second) "refused" none attempt attempt 7 8 between ready refl
      (tt, tt) refl refl

abbrev answer : Option RpcResult
answer = some (record { network_identity_epoch = "e1"; ping_targets = some (target ∷ []) })

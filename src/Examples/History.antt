-- ===== src/Examples/History.antt =====
-- Ping samples and history queries at concrete inputs.
use text.Mathlib.Text.{◌==◌ as str_eq}
use vibemonitor.Prelude.{
  ℕ, ◌+◌, ◌/◌, ◌≤◌, ◌≡◌, ◌≢◌, String, refl, ap, inl, inr, true, false, List, [], ◌∷◌, none, arith,
  length,
}
use vibemonitor.Prelude.Int.{pos, negsuc}
use vibemonitor.Prelude.Assoc.{String_discrete, lookup, delete}
use vibemonitor.Prelude.Clock.{of_unix}
use vibemonitor.Store.Queue.{Target, enqueue_history}
use vibemonitor.Ping.Results.{PingResult, allow_targets}
use vibemonitor.Alerts.Targets.{fresh_at}
use vibemonitor.Ping.Samples.{PingState, samples_of, sample_time, sample_result, sample_results}
use vibemonitor.Ping.SamplesLaws.{TidyAt}
use vibemonitor.Ping.SamplesRuns.{sample_results-TidyAt}
use vibemonitor.Ping.SamplesAgain.{Event, result, requeue, sample_rounds, sample_result_again}
use vibemonitor.Ping.Prune.{prune_node_ping}
use vibemonitor.Ping.PruneLaws.{PrunedTo, prune_node_ping_lem}
use vibemonitor.Ping.Rollup.{Row, HourRollup, new_group, add_row, add_rows, stored}
use vibemonitor.Ping.Builder.{new_query, max_chart_samples}
use vibemonitor.Ping.Answer.{between, query_ping_history}
use vibemonitor.Ping.AnswerLaws.{query_ping_history_summaries}
use vibemonitor.Ping.AnswerBounds.{query_ping_history_bound}

abbrev nothing_yet : PingState
nothing_yet = record { history = []; observed = []; windows = [] }

abbrev measured : ℕ
measured = 1700000000

abbrev no_readings : ℕ
no_readings = 0

abbrev answer_of : ℕ → PingResult
answer_of at = record {
  measured_at = pos at;
  method = "tcp";
  name = "dns";
  host = "1.1.1.1:53";
  latency = pos 12;
}

abbrev received : ℕ
received = of_unix (measured + 3)

sample_results-TidyAt_example :
    TidyAt "dns"
      (sample_results no_readings "n1" received
        (answer_of measured ∷ answer_of (measured + 1) ∷ [])
        (nothing_yet, [])).0
unfolding lookup
sample_results-TidyAt_example =
    sample_results-TidyAt no_readings "n1" received
      (answer_of measured ∷ answer_of (measured + 1) ∷ []) "dns" (nothing_yet, [])
      (record { hosts = tt; spaced = tt; recorded = λ t e. absurd cc })

queued_once :
    length (sample_result no_readings "n1" received (answer_of measured) (nothing_yet, [])).1 ≡ 1
unfolding sample_result sample_time fresh_at enqueue_history lookup String_discrete delete
queued_once = refl

-- The report's next result, a flush of the queue, and a later result of the same target.
abbrev between_repeats : List (Event ℕ)
between_repeats =
    result received (record (answer_of measured) { name = "web"; host = "192.0.2.1" })
    ∷ requeue []
    ∷ result (of_unix (measured + 63)) (answer_of (measured + 60))
    ∷ []

abbrev dns : String
dns = "dns"

web_not_dns : "web" ≢ dns
web_not_dns e =
    let differ : str_eq "web" dns ≡ false = refl in
    let same : str_eq "web" dns ≡ true = ap (λ s. str_eq s dns) e in cc

sample_result_again_example :
    ((sample_result no_readings "n1" (of_unix (measured + 70)) (answer_of measured) (
        sample_rounds no_readings "n1" between_repeats
          (sample_result no_readings "n1" received (answer_of measured) (nothing_yet, [])))).1
      ≡ (sample_rounds no_readings "n1" between_repeats
          (sample_result no_readings "n1" received (answer_of measured) (nothing_yet, []))).1)
    × (samples_of "dns"
          (sample_result no_readings "n1" (of_unix (measured + 70)) (answer_of measured) (
            sample_rounds no_readings "n1" between_repeats
              (sample_result no_readings "n1" received (answer_of measured) (nothing_yet, [])))).0
        ≡ samples_of "dns"
            (sample_rounds no_readings "n1" between_repeats
              (sample_result no_readings "n1" received (answer_of measured) (nothing_yet, []))).0)
unfolding sample_time fresh_at
sample_result_again_example =
    sample_result_again no_readings "n1" (answer_of measured) received (of_unix (measured + 70))
      measured between_repeats (nothing_yet, []) refl refl (omega arith)
      (λ e. omega (arith, queued_once, ap length e)) (inl web_not_dns, (tt, (inr (refl, refl), tt)))

abbrev one_target : List Target
one_target = record { name = "dns"; host = "1.1.1.1:53" } ∷ []

-- Two samples of the target, and one of another host under its name.
abbrev series : PingState
series = record {
  history =
      (
        "dns",
        record { host = "8.8.8.8:53"; method = "tcp"; timestamp = measured; latency = pos 9 }
            ∷ record { host = "1.1.1.1:53"; method = "tcp"; timestamp = measured; latency = pos 12 }
            ∷ record {
              host = "1.1.1.1:53";
              method = "tcp";
              timestamp = measured + 60;
              latency = pos 11;
            }
            ∷ [],
      )
      ∷ [];
  observed =
      (
        "dns",
        record {
          host = "1.1.1.1:53";
          method = "tcp";
          started_at = measured;
          last_sample_at = measured + 60;
        },
      )
      ∷ [];
  windows = [];
}

prune_node_ping_lem_example :
    PrunedTo
      (measured + 90)
      "dns"
      series
      (prune_node_ping (measured + 90) one_target series none).0
      (lookup String_discrete "dns" (allow_targets one_target []))
prune_node_ping_lem_example =
    prune_node_ping_lem (measured + 90) one_target series none "dns" (omega arith)

abbrev mean : ℕ → ℕ → ℕ
mean sum valid = sum / valid

-- A row before the hour, three in it, of which one is lost and one late, and one after it.
abbrev rows : List Row
rows = (3540, pos 20) ∷ (3600, pos 30) ∷ (3660, negsuc 0) ∷ (4200, pos 70) ∷ (7260, pos 25) ∷ []

abbrev summaries : List HourRollup
summaries = stored (add_rows (between 3600 7200 rows) (new_group 3600)) ∷ []

query_ping_history_summaries_example :
    query_ping_history mean (new_query "h" "tcp" 3000 9000 none true) 0 rows summaries
    ≡ query_ping_history mean (new_query "h" "tcp" 3000 9000 none true) 0 rows []
unfolding between new_query stored add_rows add_row
query_ping_history_summaries_example =
    query_ping_history_summaries mean "h" "tcp" 3000 9000 none 0 rows summaries (omega arith)
      (
        (omega arith, inr refl),
        (
          (omega arith, inr refl),
          ((omega arith, inl refl), ((omega arith, inr refl), ((omega arith, inr refl), tt))),
        ),
      )
      (omega arith, omega arith, refl, omega arith, refl, tt)

query_ping_history_bound_example :
    length (query_ping_history mean (new_query "h" "tcp" 3000 9000 none false) 0 rows []).samples
    ≤ max_chart_samples
query_ping_history_bound_example =
    query_ping_history_bound "h" "tcp" 3000 9000 none mean false 0 rows (omega arith)

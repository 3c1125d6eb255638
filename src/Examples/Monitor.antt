-- ===== src/Examples/Monitor.antt =====
-- The CPU line and the metric cache at concrete inputs.
use text.Mathlib.Text.{◌==◌ as str_eq}
use vibemonitor.Prelude.{ℕ, [], ◌∷◌, List, String, Option, none, some, if◌then◌else◌}
use vibemonitor.Monitor.CpuStats.{InTotal, parse_cpu_stats, parse_cpu_stats-InTotal}
use vibemonitor.Monitor.Cache.{MetricCache}

-- Two numbers are enough here.
abbrev parse_digit : String → Option ℕ
parse_digit s = if str_eq s "7" then some 7 else if str_eq s "0" then some 0 else none

abbrev values : List String
values = "7" ∷ "0" ∷ "0" ∷ "7" ∷ "0" ∷ "0" ∷ "0" ∷ "0" ∷ []

parse_cpu_stats-InTotal_example :
    InTotal parse_digit (parse_cpu_stats parse_digit (("cpu" ∷ values) ∷ []))
parse_cpu_stats-InTotal_example = parse_cpu_stats-InTotal parse_digit (("cpu" ∷ values) ∷ [])

abbrev cold : MetricCache ℕ
cold = record { value = 0; last_success = 0; last_attempt = 0 }

-- ===== src/Examples/Rankings.antt =====
-- Rankings, and the rate of connections, at concrete inputs.
use mathlib.Core.List.{Perm}
use vibemonitor.Prelude.{ℕ, ◌+◌, ◌≡◌, true, List, [], ◌∷◌, ◌++◌, String, All, length, min, arith}
use vibemonitor.Monitor.TcpRate.{
  Tracker, TcpCounters, total_rate, reset, last_reading, total_rate-reset,
}
use vibemonitor.Rankings.Top.{RankingEntry, top_three, AtMost, Descending, top_three_lem}

abbrev entry : String → ℕ → RankingEntry
entry uuid value = record { uuid = uuid; name = "node"; value = value; samples = 1 }

abbrev entries : List RankingEntry
entries = entry "b" 5 ∷ entry "a" 5 ∷ entry "c" 9 ∷ entry "d" 1 ∷ []

top_three_lem_example :
    (rest : List RankingEntry) × Perm (top_three entries ++ rest) entries
    × (length (top_three entries) ≡ min 3 (length (top_three entries) + length rest))
    × Descending (top_three entries ++ rest)
    × All (λ e. AtMost e.value rest) (top_three entries)
top_three_lem_example = top_three_lem entries

abbrev reading : ℕ → ℕ → ℕ → TcpCounters
reading active passive at = record { active = active; passive = passive; at = at }

abbrev used : Tracker
used = record { last_active = 900; last_passive = 7; last_time = 50; initialized = true }

abbrev later_readings : List TcpCounters
later_readings = reading 12 4 200 ∷ reading 12 9 260 ∷ []

total_rate-reset_example :
    ((total_rate (reading 10 4 100 ∷ later_readings) (reset used)).0 + 10 + 4
      ≡ (last_reading (reading 10 4 100) later_readings).active
        + (last_reading (reading 10 4 100) later_readings).passive)
    × ((total_rate (reading 10 4 100 ∷ later_readings) (reset used)).1 + 100
        ≡ (last_reading (reading 10 4 100) later_readings).at)
total_rate-reset_example =
    total_rate-reset used (reading 10 4 100) later_readings (omega arith) (omega arith)

-- ===== src/Examples/Uptime.antt =====
-- Online time at concrete reports.
use vibemonitor.Prelude.{ℕ, ◌+◌, ◌*◌, ◌≡◌, List, [], ◌∷◌, some, arith}
use vibemonitor.Prelude.Clock.{day, hour, second}
use vibemonitor.Uptime.Online.{Online}
use vibemonitor.Uptime.Covered.{Beat, record_all, IsCovered, record_all-IsCovered}

-- A local midnight.
abbrev late : ℕ
late = 738915 * day + 16 * hour

abbrev beat_at : ℕ → Beat
beat_at at = record { at = at; threshold = 10 * second }

-- Two reports whose times overlap, and one an hour later; the newest first.
abbrev beats : List Beat
beats = beat_at (late + hour) ∷ beat_at (late + 4 * second) ∷ beat_at late ∷ []

record_all-IsCovered_example : (s : Online) × (record_all beats ≡ some s) × IsCovered beats s
record_all-IsCovered_example = record_all-IsCovered beats (omega arith)

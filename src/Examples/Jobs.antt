-- ===== src/Examples/Jobs.antt =====
-- The queue of checks on a short run.
use vibemonitor.Prelude.{[], ◌∷◌, true, arith}
use vibemonitor.Alerts.Jobs.{Jobs, ticks, turn_jobs}
use vibemonitor.Alerts.JobsLaws.{IsSingle, turn_jobs-IsSingle}

abbrev idle : Jobs
idle = record { engines = []; pending = []; cursor = 0; jobs = []; running = [] }

turn_jobs-IsSingle_example :
    IsSingle (turn_jobs (ticks true (record { id = "n1"; allowed = true } ∷ [])) idle)
turn_jobs-IsSingle_example =
    turn_jobs-IsSingle (ticks true (record { id = "n1"; allowed = true } ∷ [])) idle
      (record { bounded = omega arith; single = λ id. omega arith })

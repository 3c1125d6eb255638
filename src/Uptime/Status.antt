-- ===== src/Uptime/Status.antt =====
-- What `dailyOnlineStatus` of internal/store/traffic_history.go reports of a day.
use vibemonitor.Prelude.{ℕ, ◌+◌, ◌/◌, ◌≤◌, ◌<◌, ◌≡◌, Bool, true, false, ◌&&◌, List, leb, ltb, min}
use vibemonitor.Prelude.Clock.{second}
use vibemonitor.Calendar.Zone.{midnight}
use vibemonitor.Billing.Daily.{cutoff_day}
use vibemonitor.Uptime.Online.{Online, Status, offline, online, passed_until}
use vibemonitor.Uptime.Measure.{measure}
use vibemonitor.Uptime.Covered.{Beat, latest, alive, alive_on, IsCovered}

module _ (beats : List Beat) (s : Online) (inv : IsCovered beats s) (day now : ℕ)
    (after_reports : latest beats ≤ now) (kept : cutoff_day (latest beats) ≤ day)
    (begun : midnight day ≤ now) where
  ahead : ℕ → Bool
  ahead t = leb now t && ltb t (min s.until (midnight (day + 1)))

-- What the status of a local day says of the reports, the newest first.
pub record IsTruthful (beats : List Beat) (day now : ℕ) (status : Status × ℕ) : Type 0 where
  pub seconds : status.1 ≡ measure (alive_on beats day) now / second
  pub all_on :
      status.0 ≡ online
      → (t : ℕ) → midnight day ≤ t
      → t < passed_until day now
      → alive beats t ≡ true
  all_off :
      status.0 ≡ offline
      → (t : ℕ) → midnight day ≤ t
      → t < passed_until day now
      → alive beats t ≡ false

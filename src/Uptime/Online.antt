-- ===== src/Uptime/Online.antt =====
-- The liveness timeout of internal/store/store.go and the daily online time of
-- internal/store/traffic_history.go. Durations are nanoseconds; a day's key "2006-01-02" is the
-- number of the local day, which has the same order. `F` is `float64`.
use vibemonitor.Prelude.{
  ℕ, zero, suc, ◌+◌, ◌-◌, ◌*◌, ◌/◌, Bool, not, ◌||◌, ◌&&◌, Option, none, some, if◌then◌else◌,
  value_or, ℕ_discrete, leb, ◌==◌, min, max,
}
use vibemonitor.Prelude.Assoc.{lookup}
use vibemonitor.Prelude.Clock.{second, is_zero, after, before}
use vibemonitor.Calendar.Zone.{day_of, midnight}
use vibemonitor.Billing.Daily.{DailyTraffic, add_to, piece_end, cutoff_day, drop_old}

abbrev pub offline_after : ℕ
offline_after = 10 * second

-- What the timeout asks of an interval in seconds: `x > 0`, `x <= 3600`, and
-- `time.Duration(x * 3 * float64(time.Second))`.
pub record Intervals (F : Type 0) : Type 0 where
  pub absent : F
  pub is_positive : F → Bool
  pub at_most_hour : F → Bool
  pub tripled : F → ℕ

module _ {F : Type 0} (ops : Intervals F) where
  -- The interval that the timeout goes by: the last report's, or else the basic information's.
  unfoldable pub chosen_interval : Option F → Option F → F
  chosen_interval basic none = value_or ops.absent basic
  chosen_interval basic (some reported) =
      if ops.is_positive reported then reported else value_or ops.absent basic

  unfoldable pub adapted : F → ℕ
  adapted interval =
      if ops.is_positive interval && ops.at_most_hour interval
      then max offline_after (ops.tripled interval)
      else offline_after

  -- `offlineThreshold`, of the intervals in the basic information and the last report.
  unfoldable pub offline_threshold : Option F → Option F → ℕ
  unfolding chosen_interval adapted
  offline_threshold basic reported = adapted (chosen_interval basic reported)

-- `DailyOnline`, `DailyOnlineUntil` and `OnlineHistorySince`.
pub record Online : Type 0 where
  pub daily : DailyTraffic
  pub until : ℕ
  pub since : ℕ

-- The loop over the local days of an interval; `none` if the fuel runs out.
unfoldable pub tally : ℕ → ℕ → ℕ → DailyTraffic → Option DailyTraffic
tally zero start end daily = if before start end then none else some daily
tally (suc fuel) start end daily =
    let boundary = piece_end start end in
    let onward = tally fuel boundary end (add_to (day_of start) (boundary - start) daily) in
    if before start end then onward else some daily

-- The end of the function, after the loop.
unfoldable pub settle : ℕ → ℕ → ℕ → Option DailyTraffic → Option Online
settle now end since none = none
settle now end since (some daily) =
    some (record { daily = drop_old (cutoff_day now) daily; until = end; since = since })

unfoldable pub first_seen : ℕ → ℕ → ℕ
first_seen now since = if is_zero since then now else since

unfoldable pub later_of : ℕ → ℕ → ℕ
later_of until now = if after until now then until else now

-- `recordDailyOnline`, with fuel for the days of the interval.
unfoldable pub record_daily_online : ℕ → ℕ → Online → Option Online
unfolding tally settle first_seen later_of
record_daily_online threshold now s =
    let end = now + threshold in
    let start = later_of s.until now in
    let since = first_seen now s.since in
    let spread = settle now end since (tally (day_of end - day_of start + 1) start end s.daily) in
    if not (after end start) then some (record s { since = since }) else spread

pub data Status : Type 0 where
  future unknown offline online partial : Status

-- The part of the recorded time that lies after `now`, within the day.
unfoldable pub tail_after : ℕ → ℕ → ℕ → ℕ
tail_after day now until =
    let tail_start = if before now (midnight day) then midnight day else now in
    let tail_end = if after until (midnight (day + 1)) then midnight (day + 1) else until in
    if after until now && after tail_end tail_start then tail_end - tail_start else 0

-- The end of the day, or of the part of it that has passed.
unfoldable pub passed_until : ℕ → ℕ → ℕ
passed_until day now = if after (midnight (day + 1)) now then now else midnight (day + 1)

-- `online` after its clamping; `max(0, …)` is the subtraction on ℕ.
unfoldable pub online_time : ℕ → ℕ → Online → ℕ
unfolding tail_after passed_until
online_time day now s =
    min (value_or 0 (lookup ℕ_discrete day s.daily) - tail_after day now s.until)
      (passed_until day now - midnight day)

unfoldable pub status_of : ℕ → ℕ → ℕ → ℕ → Status × ℕ
status_of since day online_ns whole =
    if is_zero since || after since (midnight day)
    then (unknown, online_ns / second)
    else if online_ns == 0
    then (offline, 0)
    else if leb whole online_ns
    then (online, online_ns / second)
    else (partial, online_ns / second)

-- `dailyOnlineStatus`
unfoldable pub daily_online_status : ℕ → ℕ → Online → Status × ℕ
unfolding online_time passed_until status_of
daily_online_status day now s =
    if after (midnight day) now
    then (future, 0)
    else status_of s.since day (online_time day now s) (passed_until day now - midnight day)

-- ===== src/Alerts/Delivery.antt =====
-- Delivery and thresholds of `telegramAlerts` in internal/server/telegram.go. The sender is a
-- parameter: whether it returns no error for a message is the argument `sent`. A check runs on one
-- worker, so each function is a step on the retry table. Levels are floats, of which the model
-- uses the comparisons only: they are given as Booleans.
use vibemonitor.Prelude.{
  ℕ, ◌+◌, ◌-◌, ◌*◌, ◌^◌, Bool, true, false, not, ◌&&◌, ◌||◌, List, String, if◌then◌else◌, ltb, ◌==◌,
  min, value_or,
}
use vibemonitor.Prelude.Assoc.{String_discrete, lookup, insert, delete}
use vibemonitor.Prelude.Clock.{second, before}

-- `telegramRetry`
pub record Retry : Type 0 where
  pub failures : ℕ
  pub next : ℕ

-- The table `retry`, by kinds of alerts.
abbrev pub Retries : Type 0
Retries = List (String × Retry)

-- Go's zero value, for a kind that the table does not have.
abbrev pub no_retry : Retry
no_retry = record { failures = 0; next = 0 }

abbrev pub retry_of : String → Retries → Retry
retry_of kind table = value_or no_retry (lookup String_discrete kind table)

-- `min(300, 30<<min(failures-1, 4))`, for failures > 0
unfoldable pub delay : ℕ → ℕ
delay failures = min 300 (30 * 2 ^ min (failures - 1) 4)

-- What `deliver` does with the table and returns, and whether it called the sender.
pub record Delivery : Type 0 where
  pub table : Retries
  pub delivered : Bool
  pub tried : Bool

unfoldable pub failed : String → ℕ → Retry → Retries → Retries
failed kind now retry table =
    insert String_discrete kind
      (record { failures = retry.failures + 1; next = now + delay (retry.failures + 1) * second })
      table

unfoldable pub deliver : String → ℕ → Bool → Retries → Delivery
unfolding failed
deliver kind now sent table =
    if before now (retry_of kind table).next
    then record { table = table; delivered = false; tried = false }
    else if sent
    then record { table = delete String_discrete kind table; delivered = true; tried = true }
    else record {
      table = failed kind now (retry_of kind table) table;
      delivered = false;
      tried = true;
    }

-- No call of the sender.
abbrev pub untried : Bool → Retries → Delivery
untried answer table = record { table = table; delivered = answer; tried = false }

-- `threshold`
unfoldable pub threshold : Bool → Bool → String → ℕ → Bool → Retries → Delivery
threshold was_high high kind now sent table =
    if not high
    then untried false table
    else if was_high
    then untried true table
    else deliver kind now sent table

-- Where a resource stands, in Unix seconds; 0 is no time.
pub record Level : Type 0 where
  pub active : Bool
  pub since : ℕ
  pub last_alert : ℕ

-- How a value compares: below the threshold, and at or below its recovery point
-- `max(0, threshold-5)`.
pub record Reading : Type 0 where
  pub below : Bool
  pub recovered : Bool

unfoldable pub since_after : Reading → ℕ → ℕ
since_after reading since = if reading.below then 0 else since

abbrev pub too_soon : ℕ → ℕ → ℕ → Bool
too_soon now since last = ltb now (since + 30) || (ltb 0 last && ltb now (last + 300))

-- The end of `sustainedThreshold`: the value is high and the alert is due.
unfoldable pub alert : String → ℕ → ℕ → Bool → Level → Retries → Level × Delivery
alert kind now unix sent level table =
    let outcome = deliver kind now sent table in
    if outcome.delivered
    then (record level { active = true; last_alert = unix }, outcome)
    else (record level { active = false }, outcome)

-- `sustainedThreshold`; `unix` is `now.Unix()`. The source returns `active`.
unfoldable pub sustained_threshold :
    String → ℕ → ℕ → Bool → Reading → Level → Retries → Level × Delivery
sustained_threshold kind now unix sent reading level table =
    let since = since_after reading level.since in
    if reading.recovered
    then (record level { active = false; since = since }, untried false table)
    else if level.active
    then (record level { active = true; since = since }, untried true table)
    else if reading.below
    then (record level { active = false; since = since }, untried false table)
    else if since == 0
    then (record level { active = false; since = unix }, untried false table)
    else if too_soon unix since level.last_alert
    then (record level { active = false; since = since }, untried false table)
    else alert kind now unix sent (record level { since = since }) table

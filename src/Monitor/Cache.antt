-- ===== src/Monitor/Cache.antt =====
-- `metricCache` of pkg/monitor/metric_cache.go. `read` is what the reader would return, `none` an
-- error; the mutex is held for the whole call.
use vibemonitor.Prelude.{
  ℕ, ◌+◌, ◌*◌, ◌≤◌, ◌<◌, ◌≡◌, Bool, false, not, ◌&&◌, ◌||◌, Option, none, some, if◌then◌else◌,
  arith,
}
use vibemonitor.Prelude.Clock.{second, is_zero, before, sub_lt}

abbrev pub slow_metric_interval : ℕ
slow_metric_interval = 5 * second

pub record MetricCache (T : Type 0) : Type 0 where
  pub value : T
  pub last_success : ℕ
  pub last_attempt : ℕ

-- Within the interval after an instant, which is set, and not before it.
unfoldable pub within : ℕ → ℕ → ℕ → Bool
within now at interval = not (is_zero at) && sub_lt now at interval && not (before now at)

module _ {T : Type 0} where
  -- After the read, which gave this.
  unfoldable pub refreshed : ℕ → Option T → MetricCache T → MetricCache T
  refreshed now none c = record c { last_attempt = now }
  refreshed now (some v) c = record { value = v; last_success = now; last_attempt = now }

  unfoldable pub serves : ℕ → MetricCache T → Bool
  unfolding within
  serves now c = within now c.last_success slow_metric_interval || within now c.last_attempt second

  -- `getAt`: the cache after it; the source returns its value.
  unfoldable pub get_at : ℕ → Option T → MetricCache T → MetricCache T
  unfolding serves refreshed
  get_at now read c = if serves now c then c else refreshed now read c

  -- After a call that reads, successfully or not, a call within a second does not read and leaves the
  -- cache as it is.
  get_at_paced :
      (now later : ℕ) (first second_read : Option T) (c : MetricCache T)
      → 0 < now
      → serves now c ≡ false
      → now ≤ later
      → later < now + second
      → get_at later second_read (get_at now first c) ≡ get_at now first c
  unfolding get_at serves within refreshed
  get_at_paced now later none second_read c set missed le lt = ground (arith, set, missed, le, lt)
  get_at_paced now later (some v) second_read c set missed le lt =
      ground (arith, set, missed, le, lt)

  -- A value that a call reads after the zero instant is served by a call of the next five seconds.
  get_at_cached :
      (now later : ℕ) (v : T) (next : Option T) (c : MetricCache T)
      → 0 < now
      → serves now c ≡ false
      → now ≤ later
      → later < now + slow_metric_interval
      → (get_at later next (get_at now (some v) c)).value ≡ v
  unfolding get_at serves within refreshed
  get_at_cached now later v next c set missed le lt = ground (arith, set, missed, le, lt)

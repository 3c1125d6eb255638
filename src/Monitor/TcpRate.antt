-- ===== src/Monitor/TcpRate.antt =====
-- The rate of new TCP connections: `tcpConnectionRateTracker` of pkg/monitor/tcp_rate.go. A rate is
-- kept as its numerator and the nanoseconds that it is divided by; the source divides them as float64.
use vibemonitor.Prelude.{
  ℕ, ◌+◌, ◌-◌, ◌≤◌, ◌<◌, ◌≡◌, Bool, true, false, not, ◌||◌, ◌&&◌, List, [], ◌∷◌, Option, none, some,
  if◌then◌else◌, ltb, arith,
}
use vibemonitor.Prelude.Clock.{is_zero, after}

pub record Tracker : Type 0 where
  pub last_active : ℕ
  pub last_passive : ℕ
  pub last_time : ℕ
  pub initialized : Bool

-- The counters of the kernel and the time of their reading.
pub record TcpCounters : Type 0 where
  pub active : ℕ
  pub passive : ℕ
  pub at : ℕ

-- New connections, and the nanoseconds in which they came.
abbrev pub Rate : Type 0
Rate = ℕ × ℕ

abbrev pub rebased : TcpCounters → Tracker
rebased r = record {
  last_active = r.active;
  last_passive = r.passive;
  last_time = r.at;
  initialized = true;
}

-- `CalculateRateAt`
unfoldable pub calculate_rate_at : TcpCounters → Tracker → Option Rate × Tracker
calculate_rate_at r t =
    if is_zero r.at || (t.initialized && not (after r.at t.last_time))
    then (none, t)
    else if not t.initialized || ltb r.active t.last_active || ltb r.passive t.last_passive
    then (none, rebased r)
    else (
      some (r.active - t.last_active + (r.passive - t.last_passive), r.at - t.last_time),
      rebased r,
    )

-- `Reset`
unfoldable pub reset : Tracker → Tracker
reset t = record t { initialized = false; last_time = 0 }

abbrev pub add_rate : Option Rate → Rate → Rate
add_rate none total = total
add_rate (some (n, d)) (m, e) = (n + m, d + e)

-- The rates of a series of readings, summed: connections and time.
unfoldable pub total_rate : List TcpCounters → Tracker → Rate
total_rate [] t = (0, 0)
total_rate (r ∷ readings) t =
    let (rate, t') = calculate_rate_at r t in add_rate rate (total_rate readings t')

-- Each reading is later than the one before it, and no counter went back.
abbrev pub Rising : TcpCounters → List TcpCounters → Type 0
Rising p [] = Unit
Rising p (r ∷ readings) =
    (p.active ≤ r.active) × (p.passive ≤ r.passive) × (p.at < r.at) × Rising r readings

abbrev pub last_reading : TcpCounters → List TcpCounters → TcpCounters
last_reading p [] = p
last_reading p (r ∷ readings) = last_reading r readings

rate_rising :
    (p r : TcpCounters)
    → p.active ≤ r.active
    → p.passive ≤ r.passive
    → p.at < r.at
    → calculate_rate_at r (rebased p)
      ≡ (some (r.active - p.active + (r.passive - p.passive), r.at - p.at), rebased r)
unfolding calculate_rate_at
rate_rising p r a b c = ground (arith, a, b, c)

total-Rising :
    (p : TcpCounters) (readings : List TcpCounters)
    → Rising p readings
    → ((total_rate readings (rebased p)).0 + p.active + p.passive
        ≡ (last_reading p readings).active + (last_reading p readings).passive)
      × ((total_rate readings (rebased p)).1 + p.at ≡ (last_reading p readings).at)
unfolding total_rate
total-Rising p [] h = (omega arith, omega arith)
total-Rising p (r ∷ readings) (a, b, c, rest) =
    rw (rate_rising p r a b c)
      (let (x, y) = total-Rising r readings rest in (omega (arith, x, a, b), omega (arith, y, c)))

first_reading :
    (r : TcpCounters) (t : Tracker) → 0 < r.at → calculate_rate_at r (reset t) ≡ (none, rebased r)
unfolding calculate_rate_at reset
first_reading r t positive = ground (arith, positive)

-- After a reset, readings that rise one after the other yield rates that account for every new
-- connection and every nanosecond since the first of them, and for nothing before it: the connections
-- of the rates add up to the difference of the counters, and their durations to the time between the
-- first reading and the last.
pub total_rate-reset :
    (t : Tracker) (first : TcpCounters) (readings : List TcpCounters)
    → 0 < first.at
    → Rising first readings
    → ((total_rate (first ∷ readings) (reset t)).0 + first.active + first.passive
        ≡ (last_reading first readings).active + (last_reading first readings).passive)
      × ((total_rate (first ∷ readings) (reset t)).1 + first.at ≡ (last_reading first readings).at)
unfolding total_rate
total_rate-reset t first readings positive rising =
    rw (first_reading first t positive) (total-Rising first readings rising)

-- ===== src/Uptime/Covered.antt =====
-- The daily online time of internal/store/traffic_history.go is the measure of a set: the instants
-- of the day at which some heartbeat had not timed out.
use vibemonitor.Prelude.{
  ℕ, ◌+◌, ◌-◌, ◌≤◌, ◌<◌, ◌≡◌, refl, ap, ◌∙◌, sym, Bool, true, false, ◌&&◌, ◌||◌, List, [], ◌∷◌,
  Option, none, some, arith, leb, ltb, ◌==◌, min, max, any, dec_lt,
}
use vibemonitor.Prelude.Assoc.{lookup}
use vibemonitor.Calendar.Zone.{
  day_of, midnight, day_of_mono, midnight-le_of_day, lt-midnight_of_day, day_of-ge_of_midnight,
  day_of-lt_of_midnight,
}
use vibemonitor.Billing.Daily.{DailyTraffic, cutoff_day, drop_old}
use vibemonitor.Uptime.Online.{Online, record_daily_online, settle, tally, later_of, first_seen}
use vibemonitor.Uptime.Measure.{measure, measure_ext, measure_stop, measure_range, measure_split}
use vibemonitor.Uptime.Tally.{on_record, overlap, Tallied, tally_lem, on_record-drop_old}

-- A report received at an instant, with the node's timeout then.
pub record Beat : Type 0 where
  pub at : ℕ
  pub threshold : ℕ

-- Before the first report.
abbrev pub unseen : Online
unseen = record { daily = []; until = 0; since = 0 }

unfoldable pub record_next : Beat → Option Online → Option Online
record_next b none = none
record_next b (some s) = record_daily_online b.threshold b.at s

-- The node's record after all reports, the newest of them first.
unfoldable pub record_all : List Beat → Option Online
record_all [] = some unseen
record_all (b ∷ earlier) = record_next b (record_all earlier)

abbrev pub latest : List Beat → ℕ
latest [] = 0
latest (b ∷ earlier) = b.at

-- The clock did not go back between reports.
abbrev pub InOrder : List Beat → Type 0
InOrder [] = Unit
InOrder (b ∷ earlier) = (latest earlier ≤ b.at) × InOrder earlier

abbrev pub holds_at : ℕ → Beat → Bool
holds_at t b = leb b.at t && ltb t (b.at + b.threshold)

-- At an instant some heartbeat had come and had not timed out.
unfoldable pub alive : List Beat → ℕ → Bool
alive beats t = any (holds_at t) beats

unfoldable pub alive_on : List Beat → ℕ → ℕ → Bool
alive_on beats day t = alive beats t && (day_of t == day)

pub record IsCovered (beats : List Beat) (s : Online) : Type 0 where
  pub ended : (t : ℕ) → s.until ≤ t → alive beats t ≡ false
  pub lasting : (t : ℕ) → latest beats ≤ t → t < s.until → alive beats t ≡ true
  pub each :
      (day : ℕ)
      → cutoff_day (latest beats) ≤ day
      → on_record day s.daily ≡ measure (alive_on beats day) s.until

-- What a heartbeat adds to the instants at which the node was alive.
module _ (b : Beat) (earlier : List Beat) (s : Online) (order : latest earlier ≤ b.at)
    (inv : IsCovered earlier s) where
  start : ℕ
  start = later_of s.until b.at

  added : ℕ → Bool
  added t = leb start t && ltb t (b.at + b.threshold)

  alive_next : (t : ℕ) → alive (b ∷ earlier) t ≡ (alive earlier t || added t)
  unfolding alive added start later_of
  alive_next t = ground (arith, order, inv.ended t, inv.lasting t)

  added_on : ℕ → ℕ → Bool
  unfolding added
  added_on day t = added t && (day_of t == day)

  alive_on_next :
      (day t : ℕ) → alive_on (b ∷ earlier) day t ≡ (alive_on earlier day t || added_on day t)
  unfolding alive_on added_on
  alive_on_next day t = rw (alive_next t) (ground arith)

  apart : (day t : ℕ) → (alive_on earlier day t && added_on day t) ≡ false
  unfolding alive_on added_on added start later_of
  apart day t = ground (arith, inv.ended t)

  added_range :
      (day t : ℕ)
      → added_on day t ≡ (
          leb (max start (midnight day)) t && ltb t (min (b.at + b.threshold) (midnight (day + 1))))
  unfolding added_on added
  added_range day t = ground (
    arith,
    midnight-le_of_day day t,
    lt-midnight_of_day (day + 1) t,
    day_of-ge_of_midnight day t,
    day_of-lt_of_midnight (day + 1) t,
  )

  quiet : (day t : ℕ) → s.until ≤ t → alive_on earlier day t ≡ false
  unfolding alive_on
  quiet day t h = rw (inv.ended t h) refl

  measure_next :
      (day n : ℕ)
      → s.until ≤ n
      → b.at + b.threshold ≤ n
      → measure (alive_on (b ∷ earlier) day) n
        ≡ measure (alive_on earlier day) s.until + overlap start (b.at + b.threshold) day
  unfolding overlap
  measure_next day n past_until past_end = omega (
    arith,
    past_until,
    past_end,
    measure_split (alive_on earlier day) (added_on day) (alive_on (b ∷ earlier) day)
        (alive_on_next day) (apart day) n,
    measure_stop (alive_on earlier day) s.until n (quiet day) past_until,
    measure_range (added_on day) (max start (midnight day))
        (min (b.at + b.threshold) (midnight (day + 1))) n (added_range day),
  )

  until-le : s.until ≤ start
  unfolding start later_of
  until-le = ground arith

  older : (day : ℕ) → cutoff_day b.at ≤ day → cutoff_day (latest earlier) ≤ day
  unfolding cutoff_day
  older day kept = omega (arith, kept, day_of_mono (latest earlier) b.at order)

  same_on :
      ¬ (start < b.at + b.threshold)
      → (day t : ℕ) → alive_on (b ∷ earlier) day t ≡ alive_on earlier day t
  unfolding added_on added
  same_on short day t = ground (arith, short, alive_on_next day t)

  -- A heartbeat that times out no later than an earlier one adds nothing.
  unchanged : ¬ (start < b.at + b.threshold) → IsCovered (b ∷ earlier) s
  unfolding added start later_of
  unchanged short = record {
    ended = λ t h. ground (arith, short, alive_next t, inv.ended t);
    lasting = λ t lo hi. ground (arith, short, order, alive_next t, inv.lasting t);
    each = λ day kept.
        inv.each day (older day kept)
        ∙ sym (
            measure_ext (alive_on earlier day) (alive_on (b ∷ earlier) day) (same_on short day)
              s.until);
  }

  extended :
      (m : DailyTraffic)
      → start < b.at + b.threshold
      → ((day : ℕ)
          → on_record day m ≡ on_record day s.daily + overlap start (b.at + b.threshold) day)
      → IsCovered (b ∷ earlier) (record {
        daily = drop_old (cutoff_day b.at) m;
        until = b.at + b.threshold;
        since = first_seen b.at s.since;
      })
  unfolding added start later_of
  extended m longer gains = record {
    ended = λ t h. ground (arith, longer, alive_next t, inv.ended t);
    lasting = λ t lo hi. ground (arith, longer, order, alive_next t, inv.lasting t);
    each = λ day kept. omega (
      arith,
      on_record-drop_old (cutoff_day b.at) day m kept,
      gains day,
      inv.each day (older day kept),
      measure_next day (b.at + b.threshold) (omega (arith, longer, until-le)) (omega arith),
    );
  }

  settled :
      (r : Option DailyTraffic)
      → start < b.at + b.threshold
      → Tallied start (b.at + b.threshold) s.daily r
      → (s' : Online) × (settle b.at (b.at + b.threshold) (first_seen b.at s.since) r ≡ some s')
        × IsCovered (b ∷ earlier) s'
  unfolding settle
  settled r longer (m, e, gains) = (
    _,
    ap (settle b.at (b.at + b.threshold) (first_seen b.at s.since)) e,
    extended m longer gains,
  )

  stays :
      ¬ (start < b.at + b.threshold)
      → record_daily_online b.threshold b.at s ≡ some (record s { since = first_seen b.at s.since })
  unfolding record_daily_online start
  stays short = ground (arith, short)

  spreads :
      start < b.at + b.threshold
      → record_daily_online b.threshold b.at s
        ≡ settle b.at (b.at + b.threshold) (first_seen b.at s.since) (
            tally
              (day_of (b.at + b.threshold) - day_of start + 1)
              start
              (b.at + b.threshold)
              s.daily)
  unfolding record_daily_online start
  spreads longer = ground (arith, longer)

  record_daily_online-IsCovered :
      (s' : Online) × (record_daily_online b.threshold b.at s ≡ some s')
      × IsCovered (b ∷ earlier) s'
  record_daily_online-IsCovered = elim (dec_lt start (b.at + b.threshold)) [
    | yes longer ↦ rw (spreads longer) (
        settled _ longer (
          tally_lem (day_of (b.at + b.threshold) - day_of start + 1) start (b.at + b.threshold)
            s.daily (λ _. omega arith)))
    | no short ↦ (
      record s { since = first_seen b.at s.since },
      stays short,
      record {
        ended = (unchanged short).ended;
        lasting = (unchanged short).lasting;
        each = (unchanged short).each;
      },
    )
  ]

unseen-IsCovered : IsCovered [] unseen
unfolding alive on_record lookup measure
unseen-IsCovered = record {
  ended = λ t h. refl;
  lasting = λ t lo hi. absurd (omega (arith, hi));
  each = λ day kept. refl;
}

record_next-IsCovered :
    (b : Beat) (earlier : List Beat) (r : Option Online)
    → latest earlier ≤ b.at
    → (s : Online) × (r ≡ some s) × IsCovered earlier s
    → (s' : Online) × (record_next b r ≡ some s') × IsCovered (b ∷ earlier) s'
unfolding record_next
record_next-IsCovered b earlier r order (s, e, inv) =
    rw e (record_daily_online-IsCovered b earlier s order inv)

-- However the reports and their timeouts follow one another, as long as the clock does not go back:
-- every call of `recordDailyOnline` ends, and then each local day within the retention of the
-- newest report has on record exactly the number of instants of that day at which some heartbeat
-- had come and had not timed out, where instants that several cover count once; every
-- instant from the newest report to `DailyOnlineUntil` is such an instant, and none after it is.
pub record_all-IsCovered :
    (beats : List Beat)
    → InOrder beats
    → (s : Online) × (record_all beats ≡ some s) × IsCovered beats s
unfolding record_all
record_all-IsCovered [] order = (unseen, refl, unseen-IsCovered)
record_all-IsCovered (b ∷ earlier) order =
    record_next-IsCovered b earlier (record_all earlier) order.0
      (record_all-IsCovered earlier order.1)

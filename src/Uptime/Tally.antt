-- ===== src/Uptime/Tally.antt =====
-- The loop of `recordDailyOnline` (internal/store/traffic_history.go) ends, and gives each local
-- day its part of the interval.
use vibemonitor.Prelude.{
  ℕ, zero, suc, ◌+◌, ◌-◌, ◌≤◌, ◌<◌, ◌≡◌, refl, [], ◌∷◌, Option, some, arith, if◌then◌else◌, leb,
  min, max, dec_lt, value_or, ℕ_discrete,
}
use vibemonitor.Prelude.Assoc.{lookup, retain, lookup-insert}
use vibemonitor.Calendar.Zone.{
  day_of, midnight, lt-midnight, midnight-le, day_of-midnight, midnight_mono, day_of_mono,
}
use vibemonitor.Billing.Daily.{DailyTraffic, add_to, piece_end, drop_old}
use vibemonitor.Uptime.Online.{tally}

-- What is on record for a day.
unfoldable pub on_record : ℕ → DailyTraffic → ℕ
on_record day daily = value_or 0 (lookup ℕ_discrete day daily)

-- The part of [start, end) within a local day.
unfoldable pub overlap : ℕ → ℕ → ℕ → ℕ
overlap start end day = min end (midnight (day + 1)) - max start (midnight day)

on_record-add_to :
    (day k v : ℕ) (m : DailyTraffic)
    → on_record day (add_to k v m)
      ≡ on_record day m + (if leb k day then (if leb day k then v else 0) else 0)
unfolding on_record add_to
on_record-add_to day k v m =
    ground (arith, lookup-insert ℕ_discrete day k (value_or 0 (lookup ℕ_discrete k m) + v) m)

pub on_record-drop_old :
    (cutoff day : ℕ) (m : DailyTraffic)
    → cutoff ≤ day
    → on_record day (drop_old cutoff m) ≡ on_record day m
unfolding on_record drop_old lookup retain
on_record-drop_old cutoff day [] le = refl
on_record-drop_old cutoff day ((k, v) ∷ m) le = ground (arith, on_record-drop_old cutoff day m le)

overlap_none : (start end day : ℕ) → ¬ (start < end) → overlap start end day ≡ 0
unfolding overlap
overlap_none start end day h = omega (arith, h)

piece_end_range :
    (start end : ℕ) → start < end → (start < piece_end start end) × (piece_end start end ≤ end)
unfolding piece_end
piece_end_range start end lt = ground (arith, lt-midnight start)

piece_end_day :
    (start end : ℕ) → piece_end start end < end → day_of (piece_end start end) ≡ day_of start + 1
unfolding piece_end
piece_end_day start end more = ground (arith, day_of-midnight (day_of start + 1))

-- A piece lies within its day.
overlap_piece :
    (start end day : ℕ)
    → start < end
    → overlap start end day
      ≡ (if leb (day_of start) day
          then (if leb day (day_of start) then piece_end start end - start else 0)
          else 0)
        + overlap (piece_end start end) end day
unfolding overlap piece_end
overlap_piece start end day lt = ground (
  arith,
  lt-midnight start,
  midnight-le start,
  midnight_mono (day_of start + 1) day,
  midnight_mono (day + 1) (day_of start),
  midnight_mono day (day_of start),
  midnight_mono day (day + 1),
)

-- The loop's result, and what it adds to each day.
abbrev pub Tallied : ℕ → ℕ → DailyTraffic → Option DailyTraffic → Type 0
Tallied start end daily r =
    (m : DailyTraffic) × (r ≡ some m)
    × ((day : ℕ) → on_record day m ≡ on_record day daily + overlap start end day)

tally_stop :
    (fuel start end : ℕ) (daily : DailyTraffic)
    → ¬ (start < end)
    → Tallied start end daily (tally fuel start end daily)
unfolding tally
tally_stop zero start end daily ge =
    (daily, ground (arith, ge), λ day. omega (arith, overlap_none start end day ge))
tally_stop (suc fuel) start end daily ge =
    (daily, ground (arith, ge), λ day. omega (arith, overlap_none start end day ge))

tally_step :
    (fuel start end : ℕ) (daily : DailyTraffic)
    → start < end
    → tally (suc fuel) start end daily
      ≡ tally fuel
          (piece_end start end)
          end
          (add_to (day_of start) (piece_end start end - start) daily)
unfolding tally
tally_step fuel start end daily lt = ground (arith, lt)

tally_more :
    (start end : ℕ) (daily : DailyTraffic) (r : Option DailyTraffic)
    → start < end
    → Tallied
        (piece_end start end)
        end
        (add_to (day_of start) (piece_end start end - start) daily)
        r
    → Tallied start end daily r
tally_more start end daily r lt (m, e, each) = (
  m,
  e,
  λ day. omega (
    arith,
    each day,
    on_record-add_to day (day_of start) (piece_end start end - start) daily,
    overlap_piece start end day lt,
  ),
)

fuel_step :
    (fuel start end : ℕ)
    → (start < end → day_of end < day_of start + suc fuel)
    → start < end
    → piece_end start end < end
    → day_of end < day_of (piece_end start end) + fuel
fuel_step fuel start end f lt more = omega (arith, f lt, piece_end_day start end more)

-- As many rounds as there are days are enough.
pub tally_lem :
    (fuel start end : ℕ) (daily : DailyTraffic)
    → (start < end → day_of end < day_of start + fuel)
    → Tallied start end daily (tally fuel start end daily)
tally_lem zero start end daily f =
    tally_stop zero start end daily (λ lt. omega (arith, f lt, day_of_mono start end))
tally_lem (suc fuel) start end daily f = elim (dec_lt start end) [
  | yes lt ↦ rw (tally_step fuel start end daily lt) (
      tally_more start end daily _ lt (
        tally_lem fuel (piece_end start end) end
          (add_to (day_of start) (piece_end start end - start) daily)
          (fuel_step fuel start end f lt)))
  | no ge ↦ tally_stop (suc fuel) start end daily ge
]

-- ===== src/Calendar/Zone.antt =====
-- Instants and days of the zone UTC+8 (`trafficLocation`).
use vibemonitor.Prelude.{ℕ, ◌+◌, ◌-◌, ◌*◌, ◌/◌, ◌≤◌, ◌<◌, ◌≡◌, arith}
use vibemonitor.Prelude.Clock.{day, hour}
use vibemonitor.Calendar.Dates.{Civil, civil_of, day_number}

abbrev pub offset : ℕ
offset = 8 * hour

-- The number of the local day of an instant.
unfoldable pub day_of : ℕ → ℕ
day_of t = (t + offset) / day

-- Local midnight at the start of a day. Day 0 starts before instant 0; the model gives 0 there.
unfoldable pub midnight : ℕ → ℕ
midnight d = d * day - offset

-- `now.In(trafficLocation).Date()`
unfoldable pub local_date : ℕ → Civil
unfolding civil_of day_of
local_date t = civil_of (day_of t)

-- `time.Date(y, m, d, 0, 0, 0, 0, trafficLocation)`
unfoldable pub date_instant : Civil → ℕ
unfolding day_number midnight
date_instant c = midnight (day_number c)

pub midnight-le : (t : ℕ) → midnight (day_of t) ≤ t
unfolding midnight day_of
midnight-le t = omega arith

pub lt-midnight : (t : ℕ) → t < midnight (day_of t + 1)
unfolding midnight day_of
lt-midnight t = omega arith

pub day_of-midnight : (d : ℕ) → 1 ≤ d → day_of (midnight d) ≡ d
unfolding midnight day_of
day_of-midnight d h = omega arith

pub midnight_mono : (a b : ℕ) → a ≤ b → midnight a ≤ midnight b
unfolding midnight
midnight_mono a b h = omega arith

-- Days and midnights agree on order.
pub midnight-le_of_day : (d t : ℕ) → d ≤ day_of t → midnight d ≤ t
unfolding midnight day_of
midnight-le_of_day d t h = omega arith

pub lt-midnight_of_day : (d t : ℕ) → day_of t < d → t < midnight d
unfolding midnight day_of
lt-midnight_of_day d t h = omega arith

pub day_of-ge_of_midnight : (d t : ℕ) → midnight d ≤ t → d ≤ day_of t
unfolding midnight day_of
day_of-ge_of_midnight d t h = omega arith

pub day_of-lt_of_midnight : (d t : ℕ) → t < midnight d → day_of t < d
unfolding midnight day_of
day_of-lt_of_midnight d t h = omega arith

pub day_of_mono : (s t : ℕ) → s ≤ t → day_of s ≤ day_of t
unfolding day_of
day_of_mono s t h = omega arith

-- ===== src/Alerts/Sustained.antt =====
-- When `sustainedThreshold` of internal/server/telegram.go calls the sender: after thirty seconds
-- at or above the threshold, and five minutes after the last alert of the resource.
use vibemonitor.Prelude.{
  ℕ, ◌+◌, ◌≤◌, ◌<◌, ◌≡◌, Bool, true, false, List, [], ◌∷◌, String, ◌⊎◌, ◌-◌, arith, inl, inr,
}
use vibemonitor.Alerts.Delivery.{
  Retries, Delivery, Level, Reading, since_after, alert, sustained_threshold,
}

-- One check of the resource.
pub record Tick : Type 0 where
  pub now : ℕ
  pub unix : ℕ
  pub sent : Bool
  pub reading : Reading

abbrev pub check : String → Tick → Level → Retries → Level × Delivery
check kind t level table = sustained_threshold kind t.now t.unix t.sent t.reading level table

-- The level and the table after checks.
pub record Watch : Type 0 where
  pub level : Level
  pub table : Retries

unfoldable pub after_tick : String → Tick → Watch → Watch
after_tick kind t w = record {
  level = (check kind t w.level w.table).0;
  table = (check kind t w.level w.table).1.table;
}

-- Does this check call the sender?
unfoldable pub calls_sender : String → Tick → Watch → Bool
calls_sender kind t w = (check kind t w.level w.table).1.tried

-- The watch after the ticks, of which the newest is the first.
unfoldable pub watched : String → List Tick → Watch → Watch
watched kind [] w = w
watched kind (t ∷ ts) w = after_tick kind t (watched kind ts w)

-- No tick is later than those after it.
abbrev pub InOrder : ℕ → List Tick → Type 0
InOrder newest [] = Unit
InOrder newest (t ∷ ts) = (t.unix ≤ newest) × (0 < t.unix) × InOrder t.unix ts

-- At or above the threshold at every tick after the instant.
abbrev pub HighAfter : ℕ → List Tick → Type 0
HighAfter instant [] = Unit
HighAfter instant (t ∷ ts) = (instant < t.unix → t.reading.below ≡ false) × HighAfter instant ts

due :
    (kind : String) (t : Tick) (level : Level) (table : Retries)
    → (check kind t level table).1.tried ≡ true
    → (t.reading.below ≡ false)
      × (0 < level.since)
      × (level.since + 30 ≤ t.unix)
      × ((level.last_alert ≡ 0) ⊎ (level.last_alert + 300 ≤ t.unix))
unfolding sustained_threshold since_after
due kind t level table h = ground (arith, h)

since_of :
    (kind : String) (t : Tick) (level : Level) (table : Retries)
    → ((check kind t level table).0.since ≡ 0)
      ⊎ ((t.reading.below ≡ false)
          × (((check kind t level table).0.since ≡ level.since)
              ⊎ ((check kind t level table).0.since ≡ t.unix)))
unfolding sustained_threshold since_after alert
since_of kind t level table = ground arith

HighAfter-mono : (a b : ℕ) (ts : List Tick) → a ≤ b → HighAfter a ts → HighAfter b ts
HighAfter-mono a b [] le h = tt
HighAfter-mono a b (t ∷ ts) le h =
    ((λ lt. h.0 (omega (arith, le, lt))), HighAfter-mono a b ts le h.1)

-- Nothing is later than the newest tick.
HighAfter-newest : (newest : ℕ) (ts : List Tick) → InOrder newest ts → HighAfter newest ts
HighAfter-newest newest [] h = tt
HighAfter-newest newest (t ∷ ts) h = (
  (λ lt. absurd (omega (arith, lt, h.0))),
  HighAfter-mono t.unix newest ts h.0 (HighAfter-newest t.unix ts h.2),
)

module _ (kind : String) (w : Watch) (calm : w.level.since ≡ 0) where
  high_since :
      (ts : List Tick) (newest : ℕ)
      → InOrder newest ts
      → 0 < (watched kind ts w).level.since
      → HighAfter (watched kind ts w).level.since ts
  unfolding watched after_tick
  high_since [] newest order positive = tt
  high_since (t ∷ ts) newest order positive =
      let before = watched kind ts w in
      elim (since_of kind t before.level before.table) [
        | inl cleared ↦ absurd (omega (arith, cleared, positive))
        | inr (high, inl same) ↦
            HighAfter-mono before.level.since _ (t ∷ ts) (omega (arith, same))
              ((λ lt. high), high_since ts t.unix order.2 (omega (arith, same, positive)))
        | inr (high, inr started) ↦
            HighAfter-mono t.unix _ (t ∷ ts) (omega (arith, started))
              ((λ lt. high), HighAfter-newest t.unix ts order.2)
      ]

  -- From a calm level on, with checks in the order of their times: a check that calls the sender
  -- finds the value at or above the threshold, as did every check of the last thirty seconds, and
  -- the last alert on record, if there is one, is five minutes old.
  pub calls_sender-sustained :
      (t : Tick) (ts : List Tick)
      → InOrder t.unix ts
      → calls_sender kind t (watched kind ts w) ≡ true
      → HighAfter (t.unix - 30) (t ∷ ts)
        × (((watched kind ts w).level.last_alert ≡ 0)
            ⊎ ((watched kind ts w).level.last_alert + 300 ≤ t.unix))
  unfolding calls_sender
  calls_sender-sustained t ts order called =
      let (high, positive, waited, last) = due kind t _ _ called in
      (
        (
          (λ lt. high),
          HighAfter-mono _ (t.unix - 30) ts (omega (arith, waited))
              (high_since ts t.unix order positive),
        ),
        last,
      )

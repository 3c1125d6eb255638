-- ===== src/Ping/BuilderLaws.antt =====
-- One row more, after the summary of the rows before it or in the summary: the parts of the history
-- builder of internal/store/ping_rollup_query.go.
use mathlib.Core.List.{append_assoc, append-nil}
use vibemonitor.Prelude.{
  ℕ, zero, suc, ◌+◌, ◌≤◌, ◌<◌, ◌≡◌, refl, ◌||◌, [], ◌∷◌, if◌then◌else◌, lt→ltb, ltb, arith, inl,
  inr, ◌⊎◌,
}
use vibemonitor.Prelude.Int.{ℤ, pos, negsuc, pos_part, ltb_ℤ}
use vibemonitor.Ping.Samples.{sample_interval}
use vibemonitor.Ping.Rollup.{
  HourlyRollup, new_group, add_row, note_time, note_loss, note_valid, stored,
}
use vibemonitor.Ping.Builder.{
  Query, Span, Tally, observe, observe_rollup, lower, higher, count_raw, count_rollup,
}

-- The extremes of a group: none, or of at least one answered probe.
abbrev pub HasExtremes : HourlyRollup → Type 0
HasExtremes g =
    ((g.valid ≡ 0) × (g.min ≡ negsuc 0) × (g.max ≡ negsuc 0))
    ⊎ ((0 < g.valid) × (pos (pos_part g.min) ≡ g.min) × (pos (pos_part g.max) ≡ g.max))

pub record IsGroup (g : HourlyRollup) : Type 0 where
  pub counted : 0 < g.count
  pub begun : 0 < g.first
  pub valid_le : g.valid ≤ g.count
  pub extremes : HasExtremes g

-- A latency that a probe reports: milliseconds, or -1 for a timeout.
abbrev pub IsLatency : ℤ → Type 0
IsLatency l = (l ≡ negsuc 0) ⊎ (pos (pos_part l) ≡ l)

pub span_next :
    (q : Query) (at : ℕ) (l : ℤ) (g : HourlyRollup) (s : Span)
    → IsGroup g
    → observe q at at (observe_rollup q (stored g) s)
      ≡ observe_rollup q (stored (add_row (at, l) g)) s
unfolding observe observe_rollup stored add_row note_time note_loss note_valid
span_next q at l g s ok = ground (
  arith,
  ok.counted,
  ok.begun,
  append_assoc (observe q g.first g.last s).offline g.gaps ((g.last + sample_interval, at) ∷ []),
)

tally_lost :
    (at : ℕ) (g : HourlyRollup) (t : Tally)
    → IsGroup g
    → count_raw (negsuc 0) (count_rollup (stored g) t)
      ≡ count_rollup (stored (add_row (at, negsuc 0) g)) t
unfolding count_raw count_rollup stored add_row note_time note_loss
tally_lost at g t ok = ground (arith, ok.counted, ok.valid_le)

tally_first :
    (at n : ℕ) (g : HourlyRollup) (t : Tally)
    → IsGroup g
    → g.valid ≡ 0
    → g.min ≡ negsuc 0
    → g.max ≡ negsuc 0
    → count_raw (pos n) (count_rollup (stored g) t)
      ≡ count_rollup (stored (add_row (at, pos n) g)) t
unfolding count_raw count_rollup lower higher stored add_row note_time note_valid
tally_first at n g t ok none_valid lo hi =
    ground (arith, ok.counted, ok.valid_le, none_valid, lo, hi)

min_next :
    (m g : ℤ) (n : ℕ)
    → pos (pos_part g) ≡ g
    → lower (lower m g) (pos n) ≡ lower m (if ltb_ℤ g (pos 0) || ltb_ℤ (pos n) g then pos n else g)
unfolding lower
min_next (pos k) (pos lo) n e = ground arith
min_next (negsuc k) (pos lo) n e = ground arith
min_next m (negsuc lo) n e = absurd cc

max_next :
    (m g : ℤ) (n : ℕ)
    → pos (pos_part g) ≡ g
    → higher (higher m g) (pos n)
      ≡ higher m (if ltb_ℤ g (pos 0) || ltb_ℤ g (pos n) then pos n else g)
unfolding higher
max_next (pos k) (pos hi) n e = ground arith
max_next (negsuc k) (pos hi) n e = ground arith
max_next m (negsuc hi) n e = absurd cc

count_valid : (n : ℕ) (t : Tally) → Tally
count_valid n t = record {
  current = pos n;
  total = t.total + 1;
  valid = t.valid + 1;
  lost = t.lost;
  sum = t.sum + n;
  min = lower t.min (pos n);
  max = higher t.max (pos n);
}

count_raw_valid : (n : ℕ) (t : Tally) → count_raw (pos n) t ≡ count_valid n t
unfolding count_raw count_valid
count_raw_valid n t = ground arith

unfoldable pub row_valid : (at n : ℕ) (g : HourlyRollup) → HourlyRollup
unfolding note_time note_valid
row_valid at n g =
    note_valid at (pos n)
      (record (note_time at g) { count = g.count + 1; last = at; last_value = pos n })

pub add_row_valid : (at n : ℕ) (g : HourlyRollup) → add_row (at, pos n) g ≡ row_valid at n g
unfolding add_row row_valid
add_row_valid at n g = ground arith

min_more :
    (v : ℕ) (m g : ℤ) (n : ℕ)
    → 0 < v
    → pos (pos_part g) ≡ g
    → lower (if ltb 0 v then lower m g else m) (pos n) ≡ (
        if ltb 0 (v + 1)
        then lower m (if ltb_ℤ g (pos 0) || ltb_ℤ (pos n) g then pos n else g)
        else m)
min_more v m g n some_valid e =
    rw (lt→ltb 0 v some_valid, lt→ltb 0 (v + 1) (omega arith)) (min_next m g n e)

max_more :
    (v : ℕ) (m g : ℤ) (n : ℕ)
    → 0 < v
    → pos (pos_part g) ≡ g
    → higher (if ltb 0 v then higher m g else m) (pos n) ≡ (
        if ltb 0 (v + 1)
        then higher m (if ltb_ℤ g (pos 0) || ltb_ℤ g (pos n) then pos n else g)
        else m)
max_more v m g n some_valid e =
    rw (lt→ltb 0 v some_valid, lt→ltb 0 (v + 1) (omega arith)) (max_next m g n e)

Tally_eq :
    {t u : Tally}
    → t.current ≡ u.current
    → t.min ≡ u.min
    → t.max ≡ u.max
    → t.total ≡ u.total
    → t.valid ≡ u.valid
    → t.lost ≡ u.lost
    → t.sum ≡ u.sum
    → t ≡ u
Tally_eq a b c d e f g = cc

tally_more :
    (at n : ℕ) (g : HourlyRollup) (t : Tally)
    → IsGroup g
    → 0 < g.valid
    → pos (pos_part g.min) ≡ g.min
    → pos (pos_part g.max) ≡ g.max
    → count_valid n (count_rollup (stored g) t) ≡ count_rollup (stored (row_valid at n g)) t
unfolding count_valid count_rollup stored row_valid
tally_more at n g t ok some_valid lo hi =
    Tally_eq refl (min_more g.valid t.min g.min n some_valid lo)
      (max_more g.valid t.max g.max n some_valid hi) (omega arith) (omega arith)
      (omega (arith, ok.valid_le)) (omega arith)

pub tally_next :
    (at : ℕ) (l : ℤ) (g : HourlyRollup) (t : Tally)
    → IsGroup g
    → IsLatency l
    → count_raw l (count_rollup (stored g) t) ≡ count_rollup (stored (add_row (at, l) g)) t
tally_next at (pos n) g t ok lat = elim ok.extremes [
  | inl (none_valid, lo, hi) ↦ tally_first at n g t ok none_valid lo hi
  | inr (some_valid, lo, hi) ↦
      rw (count_raw_valid n (count_rollup (stored g) t), add_row_valid at n g)
        (tally_more at n g t ok some_valid lo hi)
]
tally_next at (negsuc zero) g t ok lat = tally_lost at g t ok
tally_next at (negsuc (suc k)) g t ok (inl e) = absurd cc
tally_next at (negsuc (suc k)) g t ok (inr e) = absurd cc

-- The first row of a group.
pub span_start :
    (q : Query) (at hour : ℕ) (l : ℤ) (s : Span)
    → observe q at at s ≡ observe_rollup q (stored (add_row (at, l) (new_group hour))) s
unfolding observe observe_rollup stored add_row note_time note_loss note_valid
span_start q at hour l s = ground (arith, append-nil (observe q at at s).offline)

pub tally_start :
    (at hour : ℕ) (l : ℤ) (t : Tally)
    → IsLatency l
    → count_raw l t ≡ count_rollup (stored (add_row (at, l) (new_group hour))) t
unfolding count_raw count_rollup lower higher stored add_row note_time note_loss note_valid
tally_start at hour (pos n) t lat = ground arith
tally_start at hour (negsuc zero) t lat = ground arith
tally_start at hour (negsuc (suc k)) t (inl e) = absurd cc
tally_start at hour (negsuc (suc k)) t (inr e) = absurd cc

extremes_valid :
    (n : ℕ) (g : HourlyRollup)
    → HasExtremes g
    → (pos (pos_part (if ltb_ℤ g.min (pos 0) || ltb_ℤ (pos n) g.min then pos n else g.min))
        ≡ (if ltb_ℤ g.min (pos 0) || ltb_ℤ (pos n) g.min then pos n else g.min))
      × (pos (pos_part (if ltb_ℤ g.max (pos 0) || ltb_ℤ g.max (pos n) then pos n else g.max))
          ≡ (if ltb_ℤ g.max (pos 0) || ltb_ℤ g.max (pos n) then pos n else g.max))
extremes_valid n g h = ground (arith, h)

row_lost : ℕ → ℕ → HourlyRollup → HourlyRollup
unfolding note_time note_loss
row_lost at k g =
    note_loss at (record (note_time at g) { count = g.count + 1; last = at; last_value = negsuc k })

add_row_lost : (at k : ℕ) (g : HourlyRollup) → add_row (at, negsuc k) g ≡ row_lost at k g
unfolding add_row row_lost
add_row_lost at k g = ground arith

-- A group, or one that has no row yet.
record IsOpen (g : HourlyRollup) : Type 0 where
  begun : 0 < g.count → 0 < g.first
  valid_le : g.valid ≤ g.count
  extremes : HasExtremes g

row-IsGroup : (at : ℕ) (l : ℤ) (g : HourlyRollup) → 0 < at → IsOpen g → IsGroup (add_row (at, l) g)
unfolding row_valid row_lost note_time note_valid note_loss
row-IsGroup at (pos n) g positive ok =
    let e = extremes_valid n g ok.extremes in
    rw (add_row_valid at n g) (record {
      counted = omega arith;
      begun = ground (arith, positive, ok.begun);
      valid_le = omega (arith, ok.valid_le);
      extremes = inr (omega arith, e.0, e.1);
    })
row-IsGroup at (negsuc k) g positive ok = rw (add_row_lost at k g) (record {
  counted = omega arith;
  begun = ground (arith, positive, ok.begun);
  valid_le = omega (arith, ok.valid_le);
  extremes = ok.extremes;
})

pub add_row-IsGroup :
    (at : ℕ) (l : ℤ) (g : HourlyRollup) → 0 < at → IsGroup g → IsGroup (add_row (at, l) g)
add_row-IsGroup at l g positive ok =
    row-IsGroup at l g positive
      (record { begun = λ _. ok.begun; valid_le = ok.valid_le; extremes = ok.extremes })

pub new_group-IsGroup : (at hour : ℕ) (l : ℤ) → 0 < at → IsGroup (add_row (at, l) (new_group hour))
new_group-IsGroup at hour l positive = row-IsGroup at l (new_group hour) positive (record {
  begun = λ h. absurd (omega (arith, h));
  valid_le = omega arith;
  extremes = inl (refl, refl, refl);
})

pub add_row_hour : (at : ℕ) (l : ℤ) (g : HourlyRollup) → (add_row (at, l) g).hour ≡ g.hour
unfolding add_row note_time note_loss note_valid
add_row_hour at l g = ground arith

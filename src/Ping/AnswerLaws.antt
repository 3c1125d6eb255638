-- ===== src/Ping/AnswerLaws.antt =====
-- The answers of internal/store/ping_rollup_query.go do not depend on which hours are summarised.
use vibemonitor.Prelude.{
  ℕ, ◌+◌, ◌-◌, ◌*◌, ◌/◌, ◌≤◌, ◌<◌, ◌≡◌, refl, sym, ap, ◌∙◌, Bool, true, false, ◌&&◌, List, [], ◌∷◌,
  ◌++◌, String, Option, leb, ltb, max, arith, Bool-cases, inl, inr, All, length,
}
use vibemonitor.Prelude.Int.{ℤ}
use vibemonitor.Ping.Rollup.{Row, HourRollup, HourlyRollup, new_group, add_row, add_rows, stored}
use vibemonitor.Ping.Builder.{
  Query, Builder, new_query, new_builder, add_raw, add_rollup, div_up, max_chart_samples,
}
use vibemonitor.Ping.BuilderLaws.{
  IsGroup, IsLatency, add_row-IsGroup, new_group-IsGroup, add_row_hour,
}
use vibemonitor.Ping.BuilderRuns.{IsHourly, IsRow, hour_of, row_start, row_next}
use vibemonitor.Ping.Answer.{between, read_raw, read_mixed, finish, query_ping_history}

abbrev pub Ascending : List Row → Type 0
Ascending [] = Unit
Ascending (r ∷ rows) = All (λ s. r.0 ≤ s.0) rows × Ascending rows

nothing_between : (lo hi : ℕ) (rows : List Row) → All (λ s. hi ≤ s.0) rows → between lo hi rows ≡ []
unfolding between
nothing_between lo hi [] h = refl
nothing_between lo hi (r ∷ rows) h = ground (arith, h.0, nothing_between lo hi rows h.1)

All_mono : (m n : ℕ) (rows : List Row) → m ≤ n → All (λ s. n ≤ s.0) rows → All (λ s. m ≤ s.0) rows
All_mono m n [] le h = tt
All_mono m n (r ∷ rows) le h = (omega (arith, le, h.0), All_mono m n rows le h.1)

between_split :
    (lo mid hi : ℕ) (rows : List Row)
    → lo ≤ mid
    → mid ≤ hi
    → Ascending rows
    → between lo hi rows ≡ between lo mid rows ++ between mid hi rows
unfolding between
between_split lo mid hi [] le le' h = refl
between_split lo mid hi (r ∷ rows) le le' h = elim (Bool-cases (ltb r.0 mid)) [
  | inl early ↦ ground (arith, early, le, le', between_split lo mid hi rows le le' h.1)
  | inr late ↦ ground (
    arith,
    late,
    le,
    between_split lo mid hi rows le le' h.1,
    nothing_between lo mid rows (All_mono mid r.0 rows (ground (arith, late)) h.0),
  )
]

-- A stored row: a probe after 1970, with a latency that probes report.
abbrev pub IsStored : Row → Type 0
IsStored r = (0 < r.0) × IsLatency r.1

hour_rows :
    (origin hour : ℕ) (rows : List Row)
    → hour_of hour ≡ hour
    → origin ≤ hour
    → All IsStored rows
    → All
        (λ r. ((0 < r.0) × IsLatency r.1 × (origin ≤ r.0)) × (hour_of r.0 ≡ hour))
        (between hour (hour + 3600) rows)
unfolding between
hour_rows origin hour [] whole le h = tt
hour_rows origin hour (r ∷ rows) whole le h =
    elim (Bool-cases (leb hour r.0 && ltb r.0 (hour + 3600))) [
      | inl inside ↦ rw inside (
        ((h.0.0, h.0.1, ground (arith, inside, le)), same_hour hour r.0 whole inside),
        hour_rows origin hour rows whole le h.1,
      )
      | inr outside ↦ rw outside (hour_rows origin hour rows whole le h.1)
    ]
  where
    same_hour :
        (hour at : ℕ)
        → hour_of hour ≡ hour
        → (leb hour at && ltb at (hour + 3600)) ≡ true
        → hour_of at ≡ hour
    same_hour hour at whole inside =
        let lo : hour ≤ at = ground (arith, inside) in
        let hi : at < hour + 3600 = ground (arith, inside) in omega (arith, whole, lo, hi)

module _ (round_mean : ℕ → ℕ → ℕ) (q : Query) where
  read_raw-append :
      (rows more : List Row) (b : Builder)
      → read_raw round_mean q (rows ++ more) b
        ≡ read_raw round_mean q more (read_raw round_mean q rows b)
  unfolding read_raw
  read_raw-append [] more b = refl
  read_raw-append (r ∷ rows) more b = read_raw-append rows more (add_raw round_mean q r b)

  abbrev InHour : ℕ → List Row → Type 0
  InHour hour rows = All (λ r. IsRow q r × (hour_of r.0 ≡ hour)) rows

  rows_next :
      (hour : ℕ) (rows : List Row) (g : HourlyRollup) (b : Builder)
      → IsHourly q
      → InHour hour rows
      → IsGroup g
      → g.hour ≡ hour
      → read_raw round_mean q rows (add_rollup round_mean q (stored g) b)
        ≡ add_rollup round_mean q (stored (add_rows rows g)) b
  unfolding read_raw add_rows
  rows_next hour [] g b ok rows group e = refl
  rows_next hour ((at, l) ∷ rows) g b ok (r, rest) group e =
      ap (read_raw round_mean q rows) (row_next round_mean q at l g b ok r.0 group (e ∙ sym r.1))
      ∙ rows_next hour rows (add_row (at, l) g) b ok rest (add_row-IsGroup at l g r.0.0 group)
          (add_row_hour at l g ∙ e)

  rows_start :
      (hour at : ℕ) (l : ℤ) (rows : List Row) (b : Builder)
      → IsHourly q
      → InHour hour ((at, l) ∷ rows)
      → read_raw round_mean q ((at, l) ∷ rows) b
        ≡ add_rollup round_mean q (stored (add_rows ((at, l) ∷ rows) (new_group hour))) b
  unfolding read_raw add_rows
  rows_start hour at l rows b ok (r, rest) =
      ap (read_raw round_mean q rows) (
        row_start round_mean q at l b ok r.0
        ∙ ap (λ h. add_rollup round_mean q (stored (add_row (at, l) (new_group h))) b) r.1)
      ∙ rows_next hour rows (add_row (at, l) (new_group hour)) b ok rest
          (new_group-IsGroup at hour l r.0.0) (add_row_hour at l (new_group hour))

  -- The summaries of whole hours from the cursor on, each of all rows of its hour.
  abbrev pub Summarised : List Row → ℕ → List HourRollup → Type 0
  Summarised rows cursor [] = Unit
  Summarised rows cursor (v ∷ rollups) =
      (cursor ≤ v.hour)
      × (v.hour + 3600 ≤ q.end_time + 1)
      × (hour_of v.hour ≡ v.hour)
      × (0 < length (between v.hour (v.hour + 3600) rows))
      × (v ≡ stored (add_rows (between v.hour (v.hour + 3600) rows) (new_group v.hour)))
      × Summarised rows (v.hour + 3600) rollups

  summary_read :
      (hour : ℕ) (rows : List Row) (b : Builder)
      → IsHourly q
      → InHour hour rows
      → 0 < length rows
      → read_raw round_mean q rows b
        ≡ add_rollup round_mean q (stored (add_rows rows (new_group hour))) b
  summary_read hour [] b ok rows some_rows = absurd (omega (arith, some_rows))
  summary_read hour ((at, l) ∷ rows) b ok within some_rows = rows_start hour at l rows b ok within

  read_mixed_lem :
      (rows : List Row) (rollups : List HourRollup) (cursor : ℕ) (b : Builder)
      → IsHourly q
      → Ascending rows
      → All IsStored rows
      → q.origin ≤ cursor
      → Summarised rows cursor rollups
      → read_mixed round_mean q rows rollups cursor b
        ≡ read_raw round_mean q (between cursor (q.end_time + 1) rows) b
  unfolding read_mixed
  read_mixed_lem rows [] cursor b ok sorted stored_rows le all_summaries = refl
  read_mixed_lem rows (v ∷ rollups) cursor b ok sorted stored_rows le
        (at, ends, whole, some_rows, same, rest) =
      let early : List Row = between cursor v.hour rows in
      let within : List Row = between v.hour (v.hour + 3600) rows in
      let later : List Row = between (v.hour + 3600) (q.end_time + 1) rows in
      ap
        (λ w.
          read_mixed round_mean q rows rollups (v.hour + 3600)
            (add_rollup round_mean q w (read_raw round_mean q early b)))
        same
      ∙ read_mixed_lem rows rollups (v.hour + 3600) _ ok sorted stored_rows (omega (arith, le, at))
          rest
      ∙ ap (read_raw round_mean q later) (
          sym (
            summary_read v.hour within (read_raw round_mean q early b) ok
              (hour_rows q.origin v.hour rows whole (omega (arith, le, at)) stored_rows) some_rows))
      ∙ sym (read_raw-append within later (read_raw round_mean q early b))
      ∙ sym (read_raw-append early (within ++ later) b)
      ∙ ap (λ r. read_raw round_mean q r b)
          (sym (
            between_split cursor v.hour (q.end_time + 1) rows at (omega (arith, ends)) sorted
            ∙ ap (λ r. early ++ r)
                (between_split v.hour (v.hour + 3600) (q.end_time + 1) rows (omega arith) ends
                  sorted)))

new_query-IsHourly :
    (host method : String) (start_time end_time : ℕ) (previous : Option ℕ)
    → IsHourly (new_query host method start_time end_time previous true)
unfolding new_query
new_query-IsHourly host method start_time end_time previous = record {
  hours = max 1 (div_up (div_up (end_time - start_time / 3600 * 3600 + 1) max_chart_samples) 3600);
  from = start_time / 3600;
  rolled = refl;
  step_eq = omega arith;
  origin_eq = refl;
}

new_query_origin :
    (host method : String) (start_time end_time : ℕ) (previous : Option ℕ) (rolled : Bool)
    → (new_query host method start_time end_time previous rolled).origin ≤ start_time
unfolding new_query
new_query_origin host method start_time end_time previous true = omega arith
new_query_origin host method start_time end_time previous false = omega arith

-- Whichever hours of a long range are answered from their summaries, the response is the one that
-- reading every raw row would give, with the same buckets: samples, offline intervals and statistics.
-- The rows ascend and hold what probes report; each summary is of all rows of its whole hour, which
-- has some, and the hours ascend and lie within the range.
pub query_ping_history_summaries :
    (round_mean : ℕ → ℕ → ℕ) (host method : String) (start_time end_time : ℕ) (previous : Option ℕ)
    (last_sample_at : ℕ) (rows : List Row) (rollups : List HourRollup)
    → Ascending rows
    → All IsStored rows
    → Summarised round_mean
        (new_query host method start_time end_time previous true)
        rows
        start_time
        rollups
    → query_ping_history round_mean
        (new_query host method start_time end_time previous true)
        last_sample_at
        rows
        rollups
      ≡ query_ping_history round_mean
          (new_query host method start_time end_time previous true)
          last_sample_at
          rows
          []
unfolding query_ping_history read_mixed new_query
query_ping_history_summaries round_mean host method start_time end_time previous last_sample_at rows
      rollups sorted stored_rows summaries =
    ap (finish round_mean (new_query host method start_time end_time previous true) last_sample_at)
      (read_mixed_lem round_mean (new_query host method start_time end_time previous true) rows
        rollups start_time new_builder (new_query-IsHourly host method start_time end_time previous)
        sorted stored_rows (new_query_origin host method start_time end_time previous true)
        summaries)

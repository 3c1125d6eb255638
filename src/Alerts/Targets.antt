-- ===== src/Alerts/Targets.antt =====
-- `allTargetsPing` of internal/server/telegram_ping.go, with `FreshAt` of pkg/protocol/v2.go. What
-- it takes from Go's libraries is given: `identity` is fmt.Sprintf("%q:%q", …), `sort_strings` is
-- sort.Strings, and `digest` the hexadecimal SHA-256 of a text.
use Prim.Native.String.{◌++◌ as str_append}
use text.Mathlib.Text.{◌==◌ as str_eq}
use vibemonitor.Prelude.{
  ℕ, ◌+◌, ◌*◌, Bool, true, false, not, ◌&&◌, ◌||◌, List, [], ◌∷◌, String, Option, none, some, map,
  if◌then◌else◌, leb, ltb, ◌==◌,
}
use vibemonitor.Prelude.Int.{pos, negsuc, pos_part, ltb_ℤ}
use vibemonitor.Prelude.Clock.{second, of_unix}
use vibemonitor.Store.Queue.{Target}
use vibemonitor.Ping.Results.{PingResult}

-- 5 seconds early, and `PingResultMaxAge`
abbrev pub early_tolerance : ℕ
early_tolerance = 5 * second

abbrev pub result_max_age : ℕ
result_max_age = 120 * second

unfoldable pub fresh_at : ℕ → PingResult → Bool
fresh_at now r =
    let at = of_unix (pos_part r.measured_at) in
    ltb_ℤ (pos 0) r.measured_at && leb at (now + early_tolerance) && leb now (at + result_max_age)

unfoldable pub matches : Target → PingResult → Bool
matches t r = str_eq r.name t.name && str_eq r.host t.host

-- The inner loop, which stops at the first result of the target.
unfoldable pub find_result : Target → List PingResult → Option PingResult
find_result t [] = none
find_result t (r ∷ results) =
    let rest = find_result t results in if matches t r then some r else rest

-- A result that counts as no result.
unfoldable pub is_unknown : ℕ → PingResult → Bool
is_unknown now r = ltb_ℤ r.latency (negsuc 0) || not (fresh_at now r)

-- `measuredAt == 0 || result.MeasuredAt < measuredAt`
unfoldable pub earlier : ℕ → ℕ → ℕ
earlier measured_at at = if measured_at == 0 || ltb at measured_at then at else measured_at

-- What the outer loop has found: did all results so far time out, and the time of the oldest.
pub record Probe : Type 0 where
  pub all_timeout : Bool
  pub measured_at : ℕ

unfoldable pub note_result : Probe → PingResult → Probe
unfolding earlier
note_result p r = record {
  all_timeout = if ltb_ℤ r.latency (pos 0) then p.all_timeout else false;
  measured_at = earlier p.measured_at (pos_part r.measured_at);
}

-- One target of the outer loop; `none` ends it as incomplete.
unfoldable pub probe_result : ℕ → Probe → Option PingResult → Option Probe
probe_result now p none = none
probe_result now p (some r) = if is_unknown now r then none else some (note_result p r)

unfoldable pub probe_targets : ℕ → List PingResult → List Target → Probe → Option Probe
probe_targets now results [] p = some p
probe_targets now results (t ∷ targets) p = elim (probe_result now p (find_result t results)) [
  | none ↦ none
  | some p' ↦ probe_targets now results targets p'
]

-- strings.Join(…, "\n")
unfoldable pub join_lines : List String → String
join_lines [] = ""
join_lines (s ∷ []) = s
join_lines (s ∷ t ∷ lines) = str_append s (String.◌∷◌ "\n" (join_lines (t ∷ lines)))

module _ (identity : Target → String) (sort_strings : List String → List String)
    (digest : String → String) where
  unfoldable pub targets_key : List Target → String
  unfolding join_lines
  targets_key targets = digest (join_lines (sort_strings (map identity targets)))

-- From the test of the targets on: the results of the last report, if there is one. `none` stands
-- for an incomplete set of results.
unfoldable pub all_targets_ping : ℕ → List Target → Option (List PingResult) → Option Probe
unfolding probe_targets
all_targets_ping now [] results = none
all_targets_ping now (t ∷ targets) none = none
all_targets_ping now (t ∷ targets) (some results) =
    probe_targets now results (t ∷ targets) (record { all_timeout = true; measured_at = 0 })

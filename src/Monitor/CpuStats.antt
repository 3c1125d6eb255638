-- ===== src/Monitor/CpuStats.antt =====
-- `parseCPUStats` of pkg/monitor/cpu_stats.go. The text comes as its lines, each as its fields
-- (bytes.Cut and bytes.Fields); `parse_uint` is strconv.ParseUint, `none` its error.
use text.Mathlib.Text.{◌==◌ as str_eq}
use vibemonitor.Prelude.{
  ℕ, ◌+◌, ◌-◌, ◌%◌, ◌^◌, ◌≤◌, ◌≡◌, ◌||◌, List, [], ◌∷◌, ◌++◌, String, Option, none, some,
  if◌then◌else◌, ltb, ◌==◌, length, take, take-append, length-append, arith, Bool-cases,
  Option-cases, inl, inr,
}

abbrev pub max_uint : ℕ
max_uint = 2 ^ 64 - 1

module _ (parse_uint : String → Option ℕ) where
  -- The sums after field `i`, whose text parses so.
  unfoldable pub add_field : ℕ → ℕ → ℕ → Option ℕ → Option (ℕ × ℕ)
  add_field i total idle none = none
  add_field i total idle (some value) =
      if ltb (max_uint - total) value
      then none
      else some (total + value, if i == 4 || i == 5 then (idle + value) % 2 ^ 64 else idle)

  -- The rest of the loop from field `i` on.
  unfoldable pub sum_fields : ℕ → ℕ → ℕ → List String → Option (ℕ × ℕ)
  unfolding add_field
  sum_fields i total idle [] = some (total, idle)
  sum_fields i total idle (field ∷ fields) = elim (add_field i total idle (parse_uint field)) [
    | none ↦ none
    | some (total', idle') ↦ sum_fields (i + 1) total' idle' fields
  ]

  -- The line of the fields after "cpu": the loop ends before field 9.
  unfoldable pub parse_cpu_line : List String → Option (ℕ × ℕ)
  parse_cpu_line values = if ltb (length values) 4 then none else sum_fields 1 0 0 (take 8 values)

  -- The total and the idle time of the first line "cpu"; `none` is an error.
  unfoldable pub parse_cpu_stats : List (List String) → Option (ℕ × ℕ)
  unfolding parse_cpu_line
  parse_cpu_stats [] = none
  parse_cpu_stats ([] ∷ lines) = parse_cpu_stats lines
  parse_cpu_stats ((name ∷ values) ∷ lines) =
      let rest = parse_cpu_stats lines in if str_eq name "cpu" then parse_cpu_line values else rest

  -- Idle time is part of the total, and the total is a 64-bit number.
  abbrev pub InTotal : Option (ℕ × ℕ) → Type 0
  InTotal none = Unit
  InTotal (some (total, idle)) = (idle ≤ total) × (total ≤ max_uint)

  add_field-InTotal :
      (i total idle : ℕ) (value : Option ℕ)
      → idle ≤ total
      → total ≤ max_uint
      → InTotal (add_field i total idle value)
  unfolding add_field
  add_field-InTotal i total idle none part bound = tt
  add_field-InTotal i total idle (some value) part bound =
      elim (Bool-cases (ltb (max_uint - total) value)) [
        | inl over ↦ rw over tt
        | inr fits ↦ rw fits (ground (arith, part, bound, fits))
      ]

  sum_fields-InTotal :
      (i total idle : ℕ) (fields : List String)
      → idle ≤ total
      → total ≤ max_uint
      → InTotal (sum_fields i total idle fields)
  unfolding sum_fields
  sum_fields-InTotal i total idle [] part bound = (part, bound)
  sum_fields-InTotal i total idle (field ∷ fields) part bound =
      let sums = add_field-InTotal i total idle (parse_uint field) part bound in
      elim (Option-cases (add_field i total idle (parse_uint field))) [
        | inl failed ↦ rw (failed, sum_fields, InTotal) tt
        | inr ((total', idle'), e) ↦
            let (part', bound') = rw e at sums in
            rw (e, sum_fields, InTotal)
              (sum_fields-InTotal (i + 1) total' idle' fields part' bound')
      ]

  parse_cpu_line-InTotal : (values : List String) → InTotal (parse_cpu_line values)
  unfolding parse_cpu_line
  parse_cpu_line-InTotal values = elim (Bool-cases (ltb (length values) 4)) [
    | inl short ↦ rw short tt
    | inr long ↦ rw long (sum_fields-InTotal 1 0 0 (take 8 values) (omega arith) (omega arith))
  ]

  -- Whatever the text holds, no sum wraps around: the idle time that a parse gives is part of its
  -- total, and the total is below 2^64.
  pub parse_cpu_stats-InTotal : (lines : List (List String)) → InTotal (parse_cpu_stats lines)
  unfolding parse_cpu_stats
  parse_cpu_stats-InTotal [] = tt
  parse_cpu_stats-InTotal ([] ∷ lines) = parse_cpu_stats-InTotal lines
  parse_cpu_stats-InTotal ((name ∷ values) ∷ lines) = elim (Bool-cases (str_eq name "cpu")) [
    | inl found ↦ rw found (parse_cpu_line-InTotal values)
    | inr other ↦ rw other (parse_cpu_stats-InTotal lines)
  ]

  -- Fields after the eighth value, guest and guest_nice among them, are not counted.
  parse_cpu_line_guest :
      (values guest : List String)
      → 8 ≤ length values
      → parse_cpu_line (values ++ guest) ≡ parse_cpu_line values
  unfolding parse_cpu_line
  parse_cpu_line_guest values guest full =
      ground (arith, full, take-append 8 values guest full, length-append values guest)

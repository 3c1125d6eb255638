-- ===== src/Alerts/JobsLaws.antt =====
-- A node has at most one job, waiting or running (internal/server/telegram_queue.go).
use text.Mathlib.Text.{◌==◌ as str_eq}
use text.Mathlib.TextEquality.{eq_iff}
use vibemonitor.Prelude.{
  ℕ, ◌+◌, ◌%◌, ◌≤◌, ◌≡◌, refl, sym, ap, ◌∙◌, Bool, true, false, not, ◌||◌, List, [], ◌∷◌, ◌++◌,
  String, if◌then◌else◌, ltb, length, arith, Bool-cases, inl, inr, length-append,
}
use mathlib.Core.Path.{subst}
use vibemonitor.Alerts.Jobs.{
  telegram_queue_capacity, member, Jobs, Watched, is_active, without, with_engine, enqueue,
  admit_job, admit_jobs, rotate, drop_engines, tick_jobs, start_job, finish_job, Turn, ticks,
  starts, finishes, turn_jobs,
}

abbrev pub count : String → List String → ℕ
count id [] = 0
count id (x ∷ xs) = (if str_eq id x then 1 else 0) + count id xs

count-append : (id : String) (xs ys : List String) → count id (xs ++ ys) ≡ count id xs + count id ys
count-append id [] ys = omega arith
count-append id (x ∷ xs) ys = omega (arith, count-append id xs ys)

abbrev pub one_if : Bool → ℕ
one_if b = if b then 1 else 0

-- The queue is bounded, and every node has a job, waiting or running, only while it is pending, and
-- then one at most.
pub record IsSingle (j : Jobs) : Type 0 where
  pub bounded : length j.jobs ≤ telegram_queue_capacity
  pub single : (id : String) → count id j.jobs + count id j.running ≤ one_if (member id j.pending)

count-without-le : (id x : String) (xs : List String) → count id (without x xs) ≤ count id xs
count-without-le id x [] = omega arith
count-without-le id x (y ∷ ys) = ground (arith, count-without-le id x ys)

other_first : (x y : String) (ys : List String) → str_eq x y ≡ false → count x (y ∷ ys) ≡ count x ys
other_first x y ys other = rw other (omega arith)

count-without_self : (x : String) (xs : List String) → count x (without x xs) ≡ 0
count-without_self x [] = refl
count-without_self x (y ∷ ys) = elim (Bool-cases (str_eq x y)) [
  | inl same ↦ rw same (count-without_self x ys)
  | inr other ↦ rw other (omega (arith, other_first x y ys other, count-without_self x ys))
]

differ : (id x y : String) → str_eq x id ≡ false → str_eq x y ≡ true → str_eq id y ≡ false
differ id x y ne same = elim (Bool-cases (str_eq id y)) [
  | inr other ↦ other
  | inl also ↦
      let e : x ≡ id = (eq_iff x y).0 same ∙ sym ((eq_iff id y).0 also) in
      absurd (let t = (eq_iff x id).1 e in cc)
]

member-without :
    (id x : String) (xs : List String)
    → str_eq x id ≡ false
    → member id (without x xs) ≡ member id xs
member-without id x [] ne = refl
member-without id x (y ∷ ys) ne = elim (Bool-cases (str_eq x y)) [
  | inl same ↦ rw (same, differ id x y ne same) (member-without id x ys ne)
  | inr other ↦ rw other (ap (λ b. str_eq id y || b) (member-without id x ys ne))
]

enqueue-IsSingle :
    (x : String) (j : Jobs) → member x j.pending ≡ false → IsSingle j → IsSingle (enqueue x j)
unfolding enqueue
enqueue-IsSingle x j absent h = elim (Bool-cases (ltb (length j.jobs) telegram_queue_capacity)) [
  | inr full ↦ rw full h
  | inl room ↦ rw room (record {
    bounded = ground (arith, room, length-append j.jobs (x ∷ []));
    single = λ id. elim (Bool-cases (str_eq id x)) [
      | inl same ↦
          let free : count id j.jobs + count id j.running ≤ 0 =
            subst (λ i. count i j.jobs + count i j.running ≤ 0) (sym ((eq_iff id x).0 same))
              (subst (λ b. count x j.jobs + count x j.running ≤ one_if b) absent (h.single x)) in
          let one : count id (x ∷ []) ≡ 1 = rw same refl in
          rw same (omega (arith, count-append id j.jobs (x ∷ []), one, free))
      | inr other ↦
          let nothing : count id (x ∷ []) ≡ 0 = rw other refl in
          rw other (omega (arith, count-append id j.jobs (x ∷ []), nothing, h.single id))
    ];
  })
]

admit_job-IsSingle :
    (active : String → Bool) (x : String) (j : Jobs) → IsSingle j → IsSingle (admit_job active x j)
unfolding admit_job
admit_job-IsSingle active x j h = elim (Bool-cases (not (active x) || member x j.pending)) [
  | inl kept ↦ rw kept h
  | inr new ↦ rw new (
      enqueue-IsSingle x (record j { engines = with_engine x j.engines })
        (or_false (not (active x)) (member x j.pending) new)
        (record { bounded = h.bounded; single = h.single }))
]
  where
    or_false : (a b : Bool) → (a || b) ≡ false → b ≡ false
    or_false a b e = ground (arith, e)

admit_jobs-IsSingle :
    (active : String → Bool) (nodes : List Watched) (j : Jobs)
    → IsSingle j
    → IsSingle (admit_jobs active nodes j)
unfolding admit_jobs
admit_jobs-IsSingle active [] j h = h
admit_jobs-IsSingle active (n ∷ nodes) j h =
    admit_jobs-IsSingle active nodes _ (admit_job-IsSingle active n.id j h)

tick_jobs-IsSingle :
    (enabled : Bool) (nodes : List Watched) (j : Jobs)
    → IsSingle j
    → IsSingle (tick_jobs enabled nodes j)
unfolding tick_jobs drop_engines
tick_jobs-IsSingle enabled [] j h = record { bounded = h.bounded; single = h.single }
tick_jobs-IsSingle false (n ∷ nodes) j h = record { bounded = h.bounded; single = h.single }
tick_jobs-IsSingle true (n ∷ nodes) j h =
    let active = is_active true (n ∷ nodes) in
    let done =
      admit_jobs-IsSingle active (rotate (j.cursor % length (n ∷ nodes)) (n ∷ nodes))
        (drop_engines active j) (record { bounded = h.bounded; single = h.single }) in
    record { bounded = done.bounded; single = done.single }

start_job-IsSingle :
    (waiting : List String) (j : Jobs)
    → waiting ≡ j.jobs
    → IsSingle j
    → IsSingle (start_job waiting j)
unfolding start_job
start_job-IsSingle [] j e h = h
start_job-IsSingle (x ∷ rest) j e h = record {
  bounded = omega (arith, h.bounded, ap length e);
  single = λ id. omega (arith, h.single id, ap (count id) e);
}

count_member : (x : String) (xs : List String) → member x xs ≡ true → 1 ≤ count x xs
count_member x [] h = absurd cc
count_member x (y ∷ ys) h = elim (Bool-cases (str_eq x y)) [
  | inl same ↦ rw same (omega arith)
  | inr other ↦ rw other (omega (arith, count_member x ys (rw other at h)))
]

one_if_le : (b : Bool) → one_if b ≤ 1
one_if_le true = omega arith
one_if_le false = omega arith

finish_job-IsSingle : (x : String) (j : Jobs) → IsSingle j → IsSingle (finish_job x j)
unfolding finish_job
finish_job-IsSingle x j h = elim (Bool-cases (member x j.running)) [
  | inr unknown ↦ rw unknown h
  | inl known ↦ rw known (record {
    bounded = h.bounded;
    single = λ id. elim (Bool-cases (str_eq x id)) [
      | inl same ↦
          subst
            (λ i.
              count i j.jobs + count i (without x j.running)
              ≤ one_if (member i (without x j.pending)))
            ((eq_iff x id).0 same)
            (omega (
              arith,
              count-without_self x j.running,
              count_member x j.running known,
              h.single x,
              one_if_le (member x j.pending),
            ))
      | inr other ↦
          rw (member-without id x j.pending other)
            (omega (arith, h.single id, count-without-le id x j.running))
    ];
  })
]

-- Every tick, start or end of a job keeps this: at most 128 jobs wait, and a node has at most one job,
-- waiting or running, and none unless it is pending.
pub turn_jobs-IsSingle : (t : Turn) (j : Jobs) → IsSingle j → IsSingle (turn_jobs t j)
unfolding turn_jobs
turn_jobs-IsSingle (ticks enabled nodes) j h = tick_jobs-IsSingle enabled nodes j h
turn_jobs-IsSingle starts j h = start_job-IsSingle j.jobs j refl h
turn_jobs-IsSingle (finishes x) j h = finish_job-IsSingle x j h

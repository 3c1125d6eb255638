-- ===== src/Ping/WindowLaws.antt =====
-- A loss window of internal/store/ping_history.go stands for a list of observations: its points
-- are their prefix sums.
use vibemonitor.Prelude.{
  ℕ, zero, suc, ◌+◌, ◌-◌, ◌≤◌, ◌<◌, ◌≡◌, refl, sym, ap, ◌∙◌, Bool, true, false, List, [], ◌∷◌,
  if◌then◌else◌, leb, length, take, drop, keep, All, arith, Bool-cases, inl, inr, length-drop,
}
use vibemonitor.Ping.Search.{search, IsFirst, Monotone, search-IsFirst, IsFirst-unique}
use vibemonitor.Ping.Window.{
  LossPoint, LossWindow, point_at, lost_before, last_lost, first_since, counts_from, counts,
  day_seconds,
}

pub record Observation : Type 0 where
  pub at : ℕ
  pub lost : Bool

abbrev pub Observations : Type 0
Observations = List Observation

abbrev pub bit : Bool → ℕ
bit b = if b then 1 else 0

unfoldable pub lost_count : Observations → ℕ
lost_count [] = 0
lost_count (o ∷ h) = bit o.lost + lost_count h

unfoldable pub sums : ℕ → Observations → List LossPoint
sums base [] = []
sums base (o ∷ h) =
    record { timestamp = o.at; lost = base + bit o.lost } ∷ sums (base + bit o.lost) h

-- In strictly increasing order of time.
abbrev pub Sorted : Observations → Type 0
Sorted [] = Unit
Sorted (o ∷ h) = All (λ q. o.at < q.at) h × Sorted h

pub record Represents (w : LossWindow) (h : Observations) : Type 0 where
  pub points_are : w.points ≡ sums w.base_lost h
  pub sorted : Sorted h

length-sums : (base : ℕ) (h : Observations) → length (sums base h) ≡ length h
unfolding sums
length-sums base [] = refl
length-sums base (o ∷ h) = ap suc (length-sums (base + bit o.lost) h)

pub drop-sums :
    (i base : ℕ) (h : Observations)
    → drop i (sums base h) ≡ sums (base + lost_count (take i h)) (drop i h)
unfolding sums lost_count
drop-sums zero base h = ap (λ b. sums b h) (omega arith)
drop-sums (suc i) base [] = refl
drop-sums (suc i) base (o ∷ h) =
    drop-sums i (base + bit o.lost) h ∙ ap (λ b. sums b (drop i h)) (omega arith)

point-sums :
    (i base : ℕ) (h : Observations)
    → i < length h
    → (point_at (sums base h) i).lost ≡ base + lost_count (take (suc i) h)
unfolding sums lost_count
point-sums i base [] lt = absurd (omega arith)
point-sums zero base (o ∷ h) lt = omega arith
point-sums (suc i) base (o ∷ h) lt = omega (arith, point-sums i (base + bit o.lost) h (omega arith))

lost_count-split :
    (i : ℕ) (h : Observations) → lost_count (take i h) + lost_count (drop i h) ≡ lost_count h
unfolding lost_count
lost_count-split zero h = omega arith
lost_count-split (suc i) [] = omega arith
lost_count-split (suc i) (o ∷ h) = omega (arith, lost_count-split i h)

take_all : (n : ℕ) (h : Observations) → length h ≤ n → take n h ≡ h
take_all zero [] le = refl
take_all zero (o ∷ h) le = absurd (omega arith)
take_all (suc n) [] le = refl
take_all (suc n) (o ∷ h) le = ap (◌∷◌ o) (take_all n h (omega arith))

point_later :
    (t base : ℕ) (h : Observations) (i : ℕ)
    → All (λ q. t < q.at) h
    → i < length h
    → t ≤ (point_at (sums base h) i).timestamp
unfolding sums
point_later t base [] i later lt = absurd (omega arith)
point_later t base (o ∷ h) zero later lt = omega arith
point_later t base (o ∷ h) (suc i) later lt =
    point_later t (base + bit o.lost) h i later.1 (omega arith)

points_mono :
    (base : ℕ) (h : Observations) (i j : ℕ)
    → Sorted h
    → i ≤ j
    → j < length h
    → (point_at (sums base h) i).timestamp ≤ (point_at (sums base h) j).timestamp
unfolding sums
points_mono base [] i j s le lt = absurd (omega arith)
points_mono base (o ∷ h) zero zero s le lt = omega arith
points_mono base (o ∷ h) zero (suc j) s le lt =
    point_later o.at (base + bit o.lost) h j s.0 (omega arith)
points_mono base (o ∷ h) (suc i) zero s le lt = absurd (omega arith)
points_mono base (o ∷ h) (suc i) (suc j) s le lt =
    points_mono (base + bit o.lost) h i j s.1 (omega arith) (omega arith)

-- An upward closed test of the time, and the observations that pass it.
module _ (p : ℕ → Bool) (up : (a b : ℕ) → a ≤ b → p a ≡ true → p b ≡ true) where
  unfoldable pub skip : Observations → ℕ
  skip [] = 0
  skip (o ∷ h) = let rest = skip h in if p o.at then 0 else suc rest

  pub skip-le : (h : Observations) → skip h ≤ length h
  unfolding skip
  skip-le [] = omega arith
  skip-le (o ∷ h) = ground (arith, skip-le h)

  All-passes :
      (t : ℕ) (h : Observations) → p t ≡ true → All (λ q. t < q.at) h → keep (λ q. p q.at) h ≡ h
  All-passes t [] yes_t later = refl
  All-passes t (o ∷ h) yes_t later =
      rw (up t o.at (omega arith) yes_t) (ap (◌∷◌ o) (All-passes t h yes_t later.1))

  pub drop-skip : (h : Observations) → Sorted h → drop (skip h) h ≡ keep (λ q. p q.at) h
  unfolding skip
  drop-skip [] s = refl
  drop-skip (o ∷ h) s = elim (Bool-cases (p o.at)) [
    | inl t ↦ rw t (ap (◌∷◌ o) (sym (All-passes o.at h t s.0)))
    | inr f ↦ rw f (drop-skip h s.1)
  ]

  skip-below :
      (base : ℕ) (h : Observations) (k : ℕ)
      → k < skip h
      → p (point_at (sums base h) k).timestamp ≡ false
  unfolding skip sums
  skip-below base [] k lt = absurd (omega arith)
  skip-below base (o ∷ h) zero lt = ground arith
  skip-below base (o ∷ h) (suc k) lt = skip-below (base + bit o.lost) h k (ground arith)

  skip-holds :
      (base : ℕ) (h : Observations)
      → skip h < length h
      → p (point_at (sums base h) (skip h)).timestamp ≡ true
  unfolding skip sums
  skip-holds base [] lt = absurd (omega arith)
  skip-holds base (o ∷ h) lt = elim (Bool-cases (p o.at)) [
    | inl t ↦ rw t t
    | inr f ↦ rw f (skip-holds (base + bit o.lost) h (ground arith))
  ]

  -- The binary search over the points finds the first observation that passes the test.
  pub search-skip :
      (base : ℕ) (h : Observations)
      → Sorted h
      → search (length (sums base h)) (λ i. p (point_at (sums base h) i).timestamp) ≡ skip h
  search-skip base h s = IsFirst-unique _ _ _ _ (search-IsFirst _ _ mono) first
    where
      n : length (sums base h) ≡ length h
      n = length-sums base h

      mono : Monotone (length (sums base h)) (λ i. p (point_at (sums base h) i).timestamp)
      mono i j le lt t = up _ _ (points_mono base h i j s le (omega (arith, n))) t

      first : IsFirst (length (sums base h)) (λ i. p (point_at (sums base h) i).timestamp) (skip h)
      first = record {
        within = omega (arith, n, skip-le h);
        below = skip-below base h;
        holds = λ lt. skip-holds base h (omega (arith, n));
      }

lost_before-suc : (w : LossWindow) (i : ℕ) → lost_before w (suc i) ≡ (point_at w.points i).lost
lost_before-suc w i = let e : suc i - 1 ≡ i = omega arith in ground arith

pub lost_before-sums :
    (w : LossWindow) (h : Observations) (i : ℕ)
    → w.points ≡ sums w.base_lost h
    → i ≤ length h
    → lost_before w i ≡ w.base_lost + lost_count (take i h)
unfolding lost_count
lost_before-sums w h zero e le = omega arith
lost_before-sums w h (suc i) e le =
    lost_before-suc w i ∙ ap (λ l. (point_at l i).lost) e ∙ point-sums i w.base_lost h (omega arith)

last_lost-sums :
    (base : ℕ) (h : Observations) → 0 < length h → last_lost (sums base h) ≡ base + lost_count h
last_lost-sums base h pos_h =
    ap (λ n. (point_at (sums base h) (n - 1)).lost) (length-sums base h)
    ∙ point-sums (length h - 1) base h (omega arith)
    ∙ ap (λ l. base + lost_count l) (take_all (suc (length h - 1)) h (omega arith))

abbrev pub since : ℕ → Observations → Observations
since cutoff h = keep (λ q. leb cutoff q.at) h

abbrev pub within_day : ℕ → Observations → Observations
within_day newest h = keep (λ q. leb newest (q.at + day_seconds)) h

leb_up : (c a b : ℕ) → a ≤ b → leb c a ≡ true → leb c b ≡ true
leb_up c a b le h = ground arith

pub day_up : (c a b : ℕ) → a ≤ b → leb c (a + day_seconds) ≡ true → leb c (b + day_seconds) ≡ true
day_up c a b le h = ground arith

lost_count-le : (h : Observations) → lost_count h ≤ length h
unfolding lost_count
lost_count-le [] = omega arith
lost_count-le (o ∷ h) = ground (arith, lost_count-le h)

length-points :
    (w : LossWindow) (h : Observations) → w.points ≡ sums w.base_lost h → length w.points ≡ length h
length-points w h e = ap length e ∙ length-sums w.base_lost h

counts_from-drop :
    (w : LossWindow) (h : Observations) (i : ℕ)
    → w.points ≡ sums w.base_lost h
    → i ≤ length h
    → counts_from w i ≡ (lost_count (drop i h), length (drop i h))
unfolding counts_from
counts_from-drop w h i e le = ground (
  arith,
  length-points w h e,
  length-drop i h,
  lost_count-le (drop i h),
  lost_count-split i h,
  lost_before-sums w h i e le,
  all_lost,
)
  where
    all_lost : (0 < length h) → last_lost w.points ≡ w.base_lost + lost_count h
    all_lost some_h = ap last_lost e ∙ last_lost-sums w.base_lost h some_h

first_since-skip :
    (w : LossWindow) (h : Observations) (cutoff : ℕ)
    → Represents w h
    → first_since w.points cutoff ≡ skip (leb cutoff) (leb_up cutoff) h
first_since-skip w h cutoff r =
    ap (λ l. first_since l cutoff) r.points_are
    ∙ search-skip (leb cutoff) (leb_up cutoff) w.base_lost h r.sorted

-- A window whose points are the prefix sums of observations in strict time order counts the
-- observations at or after any cutoff.
pub counts-since :
    (w : LossWindow) (h : Observations) (cutoff : ℕ)
    → Represents w h
    → counts w cutoff ≡ (lost_count (since cutoff h), length (since cutoff h))
unfolding counts
counts-since w h cutoff r =
    ap (counts_from w) (first_since-skip w h cutoff r)
    ∙ counts_from-drop w h _ r.points_are (skip-le (leb cutoff) (leb_up cutoff) h)
    ∙ ap (λ l. (lost_count l, length l)) (drop-skip (leb cutoff) (leb_up cutoff) h r.sorted)

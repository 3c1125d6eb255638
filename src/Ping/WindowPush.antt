-- ===== src/Ping/WindowPush.antt =====
-- What trimming and pushing do to the observations that a loss window of
-- internal/store/ping_history.go stands for.
use vibemonitor.Prelude.{
  ℕ, zero, suc, ◌+◌, ◌≤◌, ◌<◌, ◌≡◌, refl, sym, ap, ◌∙◌, Bool, true, List, [], ◌∷◌, ◌++◌,
  if◌then◌else◌, leb, length, drop, keep, All, arith, Bool-cases, inl, inr, some,
}
use vibemonitor.Ping.Window.{
  PingSample, LossPoint, LossWindow, last_point, is_lost, push, trim_from, trim, first_within,
  append_after, append, day_seconds, lost_before,
}
use vibemonitor.Ping.WindowLaws.{
  Observation, Observations, bit, lost_count, sums, Sorted, Represents, within_day, skip, skip-le,
  drop-skip, drop-sums, search-skip, day_up, lost_before-sums,
}

unfoldable pub observe : PingSample → Observation
observe s = record { at = s.timestamp; lost = is_lost s }

Sorted-drop : (i : ℕ) (h : Observations) → Sorted h → Sorted (drop i h)
Sorted-drop zero h s = s
Sorted-drop (suc i) [] s = tt
Sorted-drop (suc i) (o ∷ h) s = Sorted-drop i h s.1

pub trimmed :
    (w : LossWindow) (i : ℕ)
    → trim_from w (suc i)
      ≡ record w { base_lost = lost_before w (suc i); points = drop (suc i) w.points }
unfolding trim_from
trimmed w i = ground arith

trim_from-Represents :
    (w : LossWindow) (h : Observations) (i : ℕ)
    → i ≤ length h
    → Represents w h
    → Represents (trim_from w i) (drop i h)
unfolding trim_from
trim_from-Represents w h zero le r = r
trim_from-Represents w h (suc i) le r = rw (trimmed w i) (record {
  points_are =
      ap (drop (suc i)) r.points_are
      ∙ drop-sums (suc i) w.base_lost h
      ∙ ap (λ b. sums b (drop (suc i) h)) (sym (lost_before-sums w h (suc i) r.points_are le));
  sorted = Sorted-drop (suc i) h r.sorted;
})

trim-Represents :
    (w : LossWindow) (h : Observations) (newest : ℕ)
    → Represents w h
    → Represents (trim w newest) (within_day newest h)
unfolding trim
trim-Represents w h newest r =
    rw (← drop-skip passes up h r.sorted)
      (rw index (trim_from-Represents w h _ (skip-le passes up h) r))
  where
    passes : ℕ → Bool
    passes t = leb newest (t + day_seconds)

    up : (a b : ℕ) → a ≤ b → passes a ≡ true → passes b ≡ true
    up = day_up newest

    index : first_within w.points newest ≡ skip passes up h
    index =
        ap (λ l. first_within l newest) r.points_are ∙ search-skip passes up w.base_lost h r.sorted

pub sums-snoc :
    (base : ℕ) (h : Observations) (o : Observation)
    → sums base (h ++ (o ∷ []))
      ≡ sums base h ++ (record { timestamp = o.at; lost = base + lost_count h + bit o.lost } ∷ [])
unfolding sums lost_count
sums-snoc base [] o = ap (λ l. record { timestamp = o.at; lost = l } ∷ []) (omega arith)
sums-snoc base (q ∷ h) o = ap (◌∷◌ (record { timestamp = q.at; lost = base + bit q.lost })) (
    sums-snoc (base + bit q.lost) h o
    ∙ ap (λ l. sums (base + bit q.lost) h ++ (record { timestamp = o.at; lost = l } ∷ []))
        (omega arith))

pub Sorted-snoc :
    (h : Observations) (o : Observation)
    → Sorted h
    → All (λ q. q.at < o.at) h
    → Sorted (h ++ (o ∷ []))
Sorted-snoc [] o s later = (tt, tt)
Sorted-snoc (q ∷ h) o s later = (All-snoc q.at h o s.0 later.0, Sorted-snoc h o s.1 later.1)
  where
    All-snoc :
        (t : ℕ) (g : Observations) (o : Observation)
        → All (λ q. t < q.at) g
        → t < o.at
        → All (λ q. t < q.at) (g ++ (o ∷ []))
    All-snoc t [] o a lt = (lt, tt)
    All-snoc t (r ∷ g) o a lt = (a.0, All-snoc t g o a.1 lt)

pub last_point-snoc : (ps : List LossPoint) (p : LossPoint) → last_point (ps ++ (p ∷ [])) ≡ some p
last_point-snoc [] p = refl
last_point-snoc (q ∷ []) p = refl
last_point-snoc (q ∷ r ∷ ps) p = last_point-snoc (r ∷ ps) p

pub keep-keep :
    (p q : Observation → Bool) (h : Observations)
    → ((o : Observation) → p o ≡ true → q o ≡ true)
    → keep p (keep q h) ≡ keep p h
keep-keep p q [] imp = refl
keep-keep p q (o ∷ h) imp = ground (arith, imp o, keep-keep p q h imp)

pub push-Represents :
    (w : LossWindow) (h : Observations) (s : PingSample) (lost : ℕ)
    → Represents w h
    → All (λ q. q.at < s.timestamp) h
    → lost ≡ w.base_lost + lost_count h
    → Represents (push w s lost) (within_day s.timestamp (h ++ (observe s ∷ [])))
unfolding push observe
push-Represents w h s lost r later e =
    trim-Represents _ (h ++ (observe s ∷ [])) s.timestamp (record {
      points_are =
          ap
            (λ l.
              l
              ++ (record { timestamp = s.timestamp; lost = if is_lost s then lost + 1 else lost }
                  ∷ []))
            r.points_are
          ∙ ap (λ l. sums w.base_lost h ++ (record { timestamp = s.timestamp; lost = l } ∷ []))
              (ground arith)
          ∙ sym (sums-snoc w.base_lost h (observe s));
      sorted = Sorted-snoc h (observe s) r.sorted later;
    })

-- All observations of a sorted history come before whatever comes after its last.
pub All-earlier :
    (g : Observations) (o : Observation) (t : ℕ)
    → Sorted (g ++ (o ∷ []))
    → o.at < t
    → All (λ q. q.at < t) (g ++ (o ∷ []))
All-earlier [] o t s lt = (lt, tt)
All-earlier (q ∷ g) o t s lt = (before_last q.at g o s.0, All-earlier g o t s.1 lt)
  where
    before_last :
        (a : ℕ) (g : Observations) (o' : Observation) → All (λ q. a < q.at) (g ++ (o ∷ [])) → a < t
    before_last a [] o' l = omega arith
    before_last a (r ∷ g) o' l = before_last a g o' l.1

pub All-keep :
    (p : Observation → Bool) (t : ℕ) (h : Observations)
    → All (λ q. q.at < t) h
    → All (λ q. q.at < t) (keep p h)
All-keep p t [] a = tt
All-keep p t (q ∷ h) a = elim (Bool-cases (p q)) [
  | inl kept ↦ rw kept (a.0, All-keep p t h a.1)
  | inr gone ↦ rw gone (All-keep p t h a.1)
]

pub keep-within_day :
    (n t : ℕ) (h : Observations) → n ≤ t → within_day t (within_day n h) ≡ within_day t h
keep-within_day n t h le =
    keep-keep (λ q. leb t (q.at + day_seconds)) (λ q. leb n (q.at + day_seconds)) h
      (λ o passes. ground arith)

pub lost_count-snoc :
    (h : Observations) (o : Observation) → lost_count (h ++ (o ∷ [])) ≡ lost_count h + bit o.lost
unfolding lost_count
lost_count-snoc [] o = omega arith
lost_count-snoc (q ∷ h) o = omega (arith, lost_count-snoc h o)

pub append_empty :
    (w : LossWindow) (s : PingSample) → w.points ≡ [] → append w s ≡ push w s w.base_lost
unfolding append append_after
append_empty w s e = ap (append_after w s) (ap last_point e)

pub append_last :
    (w : LossWindow) (s : PingSample) (p : LossPoint)
    → last_point w.points ≡ some p
    → append w s ≡ append_after w s (some p)
unfolding append
append_last w s p e = ap (append_after w s) e

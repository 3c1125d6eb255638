-- ===== src/Ping/WindowRuns.antt =====
-- Feeding samples to the loss window of internal/store/ping_history.go: whatever was trimmed,
-- the counts are those of the whole history.
use vibemonitor.Prelude.{
  keep-append, ℕ, ◌+◌, ◌≤◌, ◌<◌, ◌≡◌, refl, sym, ap, ◌∙◌, List, [], ◌∷◌, ◌++◌, if◌then◌else◌, leb,
  length, All, arith, Bool-cases, inl, inr, String, Option, none, some, ◌⊎◌,
}
use vibemonitor.Ping.Window.{
  PingSample, LossPoint, LossWindow, last_point, push, append_after, append, counts, day_seconds,
}
use vibemonitor.Ping.WindowLaws.{
  Observation, Observations, bit, lost_count, sums, Sorted, Represents, since, within_day,
  counts-since,
}
use vibemonitor.Ping.WindowPush.{
  observe, sums-snoc, Sorted-snoc, last_point-snoc, keep-keep, push-Represents, All-earlier,
  All-keep, keep-within_day, lost_count-snoc, append_empty, append_last,
}

-- The time of the newest observation.
unfoldable pub newest? : Observations → Option ℕ
newest? [] = none
newest? (o ∷ []) = some o.at
newest? (o ∷ q ∷ h) = newest? (q ∷ h)

newest?-snoc : (h : Observations) (o : Observation) → newest? (h ++ (o ∷ [])) ≡ some o.at
unfolding newest?
newest?-snoc [] o = refl
newest?-snoc (q ∷ []) o = refl
newest?-snoc (q ∷ r ∷ h) o = newest?-snoc (r ∷ h) o

snoc_view :
    (h : Observations) → (h ≡ []) ⊎ ((g : Observations) × (o : Observation) × (h ≡ g ++ (o ∷ [])))
snoc_view [] = inl refl
snoc_view (o ∷ h) = inr (elim (snoc_view h) [
  | inl e ↦ ([], o, ap (◌∷◌ o) e)
  | inr (g, q, e) ↦ (o ∷ g, q, ap (◌∷◌ o) e)
])

-- The cutoff is within a day of the newest observation.
abbrev pub CoversDay : ℕ → Option ℕ → Type 0
CoversDay cutoff none = Unit
CoversDay cutoff (some n) = n ≤ cutoff + day_seconds

-- The history that the samples leave: one that is not newer than the newest is passed over.
note_after : Observations → PingSample → Option ℕ → Observations
note_after h s none = h ++ (observe s ∷ [])
note_after h s (some n) = if leb s.timestamp n then h else h ++ (observe s ∷ [])

unfoldable pub note : Observations → PingSample → Observations
unfolding note_after
note h s = note_after h s (newest? h)

-- What a window keeps of a history: the day before its newest observation.
recent_after : Observations → Option ℕ → Observations
recent_after h none = h
recent_after h (some n) = within_day n h

recent : Observations → Observations
unfolding recent_after
recent h = recent_after h (newest? h)

record Tracks (w : LossWindow) (h : Observations) : Type 0 where
  represents : Represents w (recent h)
  sorted : Sorted h

recent-snoc :
    (g : Observations) (o : Observation) → recent (g ++ (o ∷ [])) ≡ within_day o.at g ++ (o ∷ [])
unfolding recent
recent-snoc g o =
    ap (recent_after (g ++ (o ∷ []))) (newest?-snoc g o)
    ∙ keep-append (λ q. leb o.at (q.at + day_seconds)) g (o ∷ [])
    ∙ ap (λ l. within_day o.at g ++ l) own
  where
    own : within_day o.at (o ∷ []) ≡ o ∷ []
    own = ground arith

push-Tracks :
    (w : LossWindow) (h : Observations) (s : PingSample) (n lost : ℕ)
    → Tracks w h
    → newest? h ≡ some n
    → n < s.timestamp
    → All (λ q. q.at < s.timestamp) h
    → lost ≡ w.base_lost + lost_count (recent h)
    → Tracks (push w s lost) (h ++ (observe s ∷ []))
unfolding recent observe
push-Tracks w h s n lost t newest lt later e = record {
  represents = rw (← kept) (push-Represents w (recent h) s lost t.represents recent_later e);
  sorted = Sorted-snoc h (observe s) t.sorted later;
}
  where
    here : recent h ≡ within_day n h
    here = ap (recent_after h) newest

    recent_later : All (λ q. q.at < s.timestamp) (recent h)
    recent_later = rw here (All-keep _ s.timestamp h later)

    kept : within_day s.timestamp (recent h ++ (observe s ∷ [])) ≡ recent (h ++ (observe s ∷ []))
    kept =
        ap (λ l. within_day s.timestamp (l ++ (observe s ∷ []))) here
        ∙ keep-append (λ q. leb s.timestamp (q.at + day_seconds)) (within_day n h) (observe s ∷ [])
        ∙ ap (λ l. l ++ within_day s.timestamp (observe s ∷ []))
            (keep-within_day n s.timestamp h (omega arith))
        ∙ sym (keep-append (λ q. leb s.timestamp (q.at + day_seconds)) h (observe s ∷ []))
        ∙ sym (ap (recent_after (h ++ (observe s ∷ []))) (newest?-snoc h (observe s)))

append_after-Tracks :
    (w : LossWindow) (h : Observations) (s : PingSample) (p : LossPoint)
    → Tracks w h
    → newest? h ≡ some p.timestamp
    → (p.timestamp < s.timestamp → All (λ q. q.at < s.timestamp) h)
    → p.lost ≡ w.base_lost + lost_count (recent h)
    → Tracks (append_after w s (some p)) (note_after h s (some p.timestamp))
unfolding append_after note_after
append_after-Tracks w h s p t newest later e = elim (Bool-cases (leb s.timestamp p.timestamp)) [
  | inl old ↦ rw old t
  | inr new ↦
      let lt : p.timestamp < s.timestamp = ground arith in
      rw new (push-Tracks w h s p.timestamp p.lost t newest lt (later lt) e)
]

note_last :
    (h : Observations) (s : PingSample) (n : ℕ)
    → newest? h ≡ some n
    → note h s ≡ note_after h s (some n)
unfolding note
note_last h s n e = ap (note_after h s) e

append-Tracks_nil :
    (w : LossWindow) (s : PingSample) → Tracks w [] → Tracks (append w s) (note [] s)
unfolding note recent newest? note_after sums lost_count observe
append-Tracks_nil w s t = rw (append_empty w s t.represents.points_are) (record {
  represents = push-Represents w [] s w.base_lost t.represents tt (omega arith);
  sorted = (tt, tt);
})

append-Tracks_snoc :
    (w : LossWindow) (g : Observations) (o : Observation) (s : PingSample)
    → Tracks w (g ++ (o ∷ []))
    → Tracks (append w s) (note (g ++ (o ∷ [])) s)
append-Tracks_snoc w g o s t =
    rw (appended, noted)
      (append_after-Tracks w h s p t (newest?-snoc g o)
        (λ lt. All-earlier g o s.timestamp t.sorted lt) lost_eq)
  where
    h : Observations
    h = g ++ (o ∷ [])

    p : LossPoint
    p = record {
      timestamp = o.at;
      lost = w.base_lost + lost_count (within_day o.at g) + bit o.lost;
    }

    appended : append w s ≡ append_after w s (some p)
    appended = append_last w s p (
        ap last_point (
          t.represents.points_are
          ∙ ap (sums w.base_lost) (recent-snoc g o)
          ∙ sums-snoc w.base_lost _ o)
        ∙ last_point-snoc (sums w.base_lost (within_day o.at g)) p)

    noted : note h s ≡ note_after h s (some p.timestamp)
    noted = note_last h s o.at (newest?-snoc g o)

    lost_eq : p.lost ≡ w.base_lost + lost_count (recent h)
    lost_eq = omega (arith, ap lost_count (recent-snoc g o), lost_count-snoc (within_day o.at g) o)

append-Tracks :
    (w : LossWindow) (h : Observations) (s : PingSample)
    → Tracks w h
    → Tracks (append w s) (note h s)
append-Tracks w h s t = elim (snoc_view h) [
  | inl e ↦ rw e (append-Tracks_nil w s (rw e at t))
  | inr (g, o, e) ↦ rw e (append-Tracks_snoc w g o s (rw e at t))
]

-- The window after the samples, oldest first, and the history that they leave.
unfoldable pub feed : LossWindow → List PingSample → LossWindow
feed w [] = w
feed w (s ∷ samples) = feed (append w s) samples

unfoldable pub history : Observations → List PingSample → Observations
history h [] = h
history h (s ∷ samples) = history (note h s) samples

feed-Tracks :
    (samples : List PingSample) (w : LossWindow) (h : Observations)
    → Tracks w h
    → Tracks (feed w samples) (history h samples)
unfolding feed history
feed-Tracks [] w h t = t
feed-Tracks (s ∷ samples) w h t =
    feed-Tracks samples (append w s) (note h s) (append-Tracks w h s t)

since-recent :
    (cutoff : ℕ) (h : Observations) (newest : Option ℕ)
    → CoversDay cutoff newest
    → since cutoff (recent_after h newest) ≡ since cutoff h
unfolding recent_after
since-recent cutoff h none le = refl
since-recent cutoff h (some n) le =
    keep-keep (λ q. leb cutoff q.at) (λ q. leb n (q.at + day_seconds)) h (λ o passes. ground arith)

-- The rolling loss that the overview shows is exact: a window fed with any samples, in any order
-- and with any gaps, counts for every cutoff within a day of the newest sample exactly the lost
-- and the total samples, at or after the cutoff, of the whole history of samples that each came
-- later than those before, though it keeps a day of points only.
pub counts-feed :
    (host method : String) (samples : List PingSample) (cutoff : ℕ)
    → CoversDay cutoff (newest? (history [] samples))
    → counts
        (feed (record { host = host; method = method; points = []; base_lost = 0 }) samples)
        cutoff
      ≡ (lost_count (since cutoff (history [] samples)), length (since cutoff (history [] samples)))
unfolding recent recent_after
counts-feed host method samples cutoff le =
    counts-since _ _ cutoff tracked.represents
    ∙ ap (λ l. (lost_count l, length l)) (since-recent cutoff (history [] samples) _ le)
  where
    fresh : Tracks (record { host = host; method = method; points = []; base_lost = 0 }) []
    fresh =
        unfold recent newest? sums in
        record { represents = record { points_are = refl; sorted = tt }; sorted = tt }

    tracked :
        Tracks
          (feed (record { host = host; method = method; points = []; base_lost = 0 }) samples)
          (history [] samples)
    tracked = feed-Tracks samples _ [] fresh

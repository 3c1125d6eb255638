-- ===== src/Ping/PruneLaws.antt =====
-- The ping data that pruning leaves (internal/store/ping_data.go) is of the current targets alone.
use mathlib.Core.Path.{subst}
use text.Mathlib.TextEquality.{eq_iff}
use vibemonitor.Prelude.{
  ℕ, zero, suc, ◌-◌, ◌≤◌, ◌<◌, ◌≡◌, ◌≢◌, refl, ap, ◌∙◌, sym, List, [], ◌∷◌, String, Option, none,
  some, arith, ltb, length, drop, keep, All, value_or, Bool-cases, inl, inr, length-drop,
}
use vibemonitor.Prelude.Assoc.{
  String_discrete, lookup, insert, lookup-insert_self, lookup-insert_ne, Distinct, insert-Distinct,
}
use vibemonitor.Store.Queue.{Target}
use vibemonitor.Ping.Results.{PingResult, allow_targets}
use vibemonitor.Ping.Window.{PingSample, LossWindow}
use vibemonitor.Ping.Samples.{PingObservation, PingState, samples_of, observation_of}
use vibemonitor.Ping.Chosen.{
  IsOf, belongs-IsOf, Chosen, keep-Chosen, pruned_samples_newest, IsFollowUp,
  pruned_observation-IsFollowUp, IsWindowOf, pruned_window-IsWindowOf,
}
use vibemonitor.Ping.Prune.{
  max_samples_per_target, pruned_observation, pruned_window, belongs, newest_day, pruned_samples,
  put_samples, put_pruned, prune_allowed, prune_node_ping,
}

keep-IsOf :
    (o : PingObservation) (samples : List PingSample) → All (IsOf o) (keep (belongs o) samples)
keep-IsOf o [] = tt
keep-IsOf o (s ∷ samples) = elim (Bool-cases (belongs o s)) [
  | inl e ↦ rw e (belongs-IsOf o s e, keep-IsOf o samples)
  | inr e ↦ rw e (keep-IsOf o samples)
]

drop-IsOf :
    (o : PingObservation) (k : ℕ) (samples : List PingSample)
    → All (IsOf o) samples
    → All (IsOf o) (drop k samples)
drop-IsOf o zero samples h = h
drop-IsOf o (suc k) [] h = tt
drop-IsOf o (suc k) (s ∷ samples) h = drop-IsOf o k samples h.1

newest_day-IsOf :
    (o : PingObservation) (samples : List PingSample)
    → All (IsOf o) samples
    → All (IsOf o) (newest_day samples)
unfolding newest_day
newest_day-IsOf o samples h = elim (Bool-cases (ltb max_samples_per_target (length samples))) [
  | inl long ↦ rw long (drop-IsOf o (length samples - max_samples_per_target) samples h)
  | inr short ↦ rw short h
]

pruned_samples-IsOf :
    (o : PingObservation) (samples : List PingSample) → All (IsOf o) (pruned_samples o samples)
unfolding pruned_samples
pruned_samples-IsOf o samples = newest_day-IsOf o (keep (belongs o) samples) (keep-IsOf o samples)

length-pruned :
    (o : PingObservation) (samples : List PingSample)
    → length (pruned_samples o samples) ≤ max_samples_per_target
unfolding pruned_samples newest_day
length-pruned o samples = ground (
  arith,
  length-drop (length (keep (belongs o) samples) - max_samples_per_target)
      (keep (belongs o) samples),
)

pruned_host :
    (now : ℕ) (host : String) (o : PingObservation) → (pruned_observation now host o).host ≡ host
unfolding pruned_observation
pruned_host now host o = ground (arith, eq_iff o.host host)

pruned_started :
    (now : ℕ) (host : String) (o : PingObservation)
    → 0 < now
    → 0 < (pruned_observation now host o).started_at
unfolding pruned_observation
pruned_started now host o h = ground (arith, h)

pruned_window_of :
    (o : PingObservation) (w : Option LossWindow)
    → ((pruned_window o w).host ≡ o.host) × ((pruned_window o w).method ≡ o.method)
unfolding pruned_window
pruned_window_of o none = (refl, refl)
pruned_window_of o (some w) =
    (ground (arith, eq_iff w.host o.host), ground (arith, eq_iff w.method o.method))

allow_targets-Distinct :
    (targets : List Target) (allowed : List (String × String))
    → Distinct String_discrete allowed
    → Distinct String_discrete (allow_targets targets allowed)
unfolding allow_targets
allow_targets-Distinct [] allowed d = d
allow_targets-Distinct (t ∷ targets) allowed d =
    allow_targets-Distinct targets (insert String_discrete t.name t.host allowed)
      (insert-Distinct String_discrete t.name t.host allowed d)

put_samples_cons :
    (name : String) (s : PingSample) (samples : List PingSample)
    (history : List (String × List PingSample))
    → put_samples name (s ∷ samples) history ≡ insert String_discrete name (s ∷ samples) history
unfolding put_samples
put_samples_cons name s samples history = ground arith

put_samples_self :
    (name : String) (samples : List PingSample) (history : List (String × List PingSample))
    → lookup String_discrete name history ≡ none
    → value_or [] (lookup String_discrete name (put_samples name samples history)) ≡ samples
unfolding put_samples
put_samples_self name [] history gone = ap (value_or []) gone
put_samples_self name (s ∷ samples) history gone =
    rw (put_samples_cons name s samples history)
      (ap (value_or []) (lookup-insert_self String_discrete name (s ∷ samples) history))

put_samples_other :
    (name other : String) (samples : List PingSample) (history : List (String × List PingSample))
    → other ≢ name
    → lookup String_discrete name (put_samples other samples history)
      ≡ lookup String_discrete name history
unfolding put_samples
put_samples_other name other [] history ne = refl
put_samples_other name other (s ∷ samples) history ne =
    rw (put_samples_cons other s samples history)
      (lookup-insert_ne String_discrete name other (s ∷ samples) history ne)

module _ (now : ℕ) (name : String) (n : PingState) where
  -- No trace of the name.
  abbrev IsGone : PingState → Type 0
  IsGone m =
      (lookup String_discrete name m.history ≡ none)
      × (lookup String_discrete name m.observed ≡ none)
      × (lookup String_discrete name m.windows ≡ none)

  series : String → PingObservation
  series host = pruned_observation now host (observation_of name n)

  abbrev IsPut : String → PingState → Type 0
  IsPut host m =
      (samples_of name m ≡ pruned_samples (series host) (samples_of name n))
      × (lookup String_discrete name m.observed ≡ some (series host))
      × (lookup String_discrete name m.windows
          ≡ some (pruned_window (series host) (lookup String_discrete name n.windows)))

  put_pruned-IsPut :
      (host : String) (clean : PingState)
      → IsGone clean
      → IsPut host (put_pruned now name host n clean)
  unfolding put_pruned series
  put_pruned-IsPut host clean gone = (
    put_samples_self name (pruned_samples (series host) (samples_of name n)) clean.history gone.0,
    lookup-insert_self String_discrete name _ clean.observed,
    lookup-insert_self String_discrete name _ clean.windows,
  )

  abbrev SameAt : PingState → PingState → Type 0
  SameAt m m' =
      (lookup String_discrete name m.history ≡ lookup String_discrete name m'.history)
      × (lookup String_discrete name m.observed ≡ lookup String_discrete name m'.observed)
      × (lookup String_discrete name m.windows ≡ lookup String_discrete name m'.windows)

  put_other :
      (other host : String) (clean : PingState)
      → other ≢ name
      → SameAt (put_pruned now other host n clean) clean
  unfolding put_pruned
  put_other other host clean ne = (
    put_samples_other name other _ clean.history ne,
    lookup-insert_ne String_discrete name other _ clean.observed ne,
    lookup-insert_ne String_discrete name other _ clean.windows ne,
  )

  SameAt-IsGone : (m m' : PingState) → SameAt m m' → IsGone m' → IsGone m
  SameAt-IsGone m m' (h, o, w) (gh, go, gw) = (h ∙ gh, o ∙ go, w ∙ gw)

  SameAt-IsPut : (host : String) (m m' : PingState) → SameAt m m' → IsPut host m' → IsPut host m
  SameAt-IsPut host m m' (h, o, w) (gh, go, gw) = (ap (value_or []) h ∙ gh, o ∙ go, w ∙ gw)

  allowed-IsGone :
      (allowed : List (String × String))
      → lookup String_discrete name allowed ≡ none
      → IsGone (prune_allowed now allowed n)
  unfolding prune_allowed lookup
  allowed-IsGone [] absent = (refl, refl, refl)
  allowed-IsGone ((other, host) ∷ allowed) absent = elim (String_discrete other name) [
    | yes e ↦ absurd (ground (arith, absent, e))
    | no ne ↦
        SameAt-IsGone (put_pruned now other host n (prune_allowed now allowed n))
          (prune_allowed now allowed n) (put_other other host (prune_allowed now allowed n) ne)
          (allowed-IsGone allowed (ground (arith, absent, ne)))
  ]

  allowed-IsPut :
      (allowed : List (String × String)) (host : String)
      → Distinct String_discrete allowed
      → lookup String_discrete name allowed ≡ some host
      → IsPut host (prune_allowed now allowed n)
  unfolding prune_allowed lookup
  allowed-IsPut [] host d present = absurd (cc)
  allowed-IsPut ((other, h) ∷ allowed) host d present = elim (String_discrete other name) [
    | yes e ↦
        subst (λ k. IsPut host (put_pruned now k h n (prune_allowed now allowed n))) (sym e)
          (subst (λ k. IsPut k (put_pruned now name h n (prune_allowed now allowed n)))
            (ground (arith, present, e))
            (put_pruned-IsPut h (prune_allowed now allowed n) (
              allowed-IsGone allowed (subst (λ k. lookup String_discrete k allowed ≡ none) e d.0))))
    | no ne ↦
        SameAt-IsPut host (put_pruned now other h n (prune_allowed now allowed n))
          (prune_allowed now allowed n) (put_other other h (prune_allowed now allowed n) ne)
          (allowed-IsPut allowed host d.1 (ground (arith, present, ne)))
  ]

-- What pruning leaves of a name: nothing, if no target has it; or else a series of the target's host.
pub record IsSeries (now : ℕ) (host : String) (name : String) (n m : PingState) : Type 0 where
  pub observation : PingObservation
  pub observed : lookup String_discrete name m.observed ≡ some observation
  pub of_host : observation.host ≡ host
  pub started : 0 < observation.started_at
  pub follow_up : IsFollowUp now host (observation_of name n) observation
  pub chosen : List PingSample
  pub choice : Chosen observation (samples_of name n) chosen
  pub newest : samples_of name m ≡ drop (length chosen - max_samples_per_target) chosen
  pub samples : All (IsOf observation) (samples_of name m)
  pub bounded : length (samples_of name m) ≤ max_samples_per_target
  pub window : LossWindow
  pub windowed : lookup String_discrete name m.windows ≡ some window
  pub window_host : window.host ≡ host
  pub window_method : window.method ≡ observation.method
  pub window_kept : IsWindowOf observation (lookup String_discrete name n.windows) window

abbrev pub PrunedTo : ℕ → String → PingState → PingState → Option String → Type 0
PrunedTo now name n m none =
    (lookup String_discrete name m.history ≡ none)
    × (lookup String_discrete name m.observed ≡ none)
    × (lookup String_discrete name m.windows ≡ none)
PrunedTo now name n m (some host) = IsSeries now host name n m

pruned_to :
    (now : ℕ) (allowed : List (String × String)) (name : String) (n : PingState)
    (found_host : Option String)
    → 0 < now
    → Distinct String_discrete allowed
    → lookup String_discrete name allowed ≡ found_host
    → PrunedTo now name n (prune_allowed now allowed n) found_host
pruned_to now allowed name n none positive d e = allowed-IsGone now name n allowed e
pruned_to now allowed name n (some host) positive d e =
    let (hs, os, ws) = allowed-IsPut now name n allowed host d e in
    let o : PingObservation = series now name n host in
    let window = pruned_window_of o (lookup String_discrete name n.windows) in
    record {
      observation = o;
      observed = os;
      of_host = of_series host;
      started = started_series host positive;
      follow_up = follows host;
      chosen = keep (belongs o) (samples_of name n);
      choice = keep-Chosen o (samples_of name n);
      newest = hs ∙ pruned_samples_newest o (samples_of name n);
      samples = rw hs (pruned_samples-IsOf o (samples_of name n));
      bounded = rw hs (length-pruned o (samples_of name n));
      window = pruned_window o (lookup String_discrete name n.windows);
      windowed = ws;
      window_host = window.0 ∙ of_series host;
      window_method = window.1;
      window_kept = pruned_window-IsWindowOf o (lookup String_discrete name n.windows);
    }
  where
    follows : (host : String) → IsFollowUp now host (observation_of name n) (series now name n host)
    follows host = unfold series in pruned_observation-IsFollowUp now host (observation_of name n)

    of_series : (host : String) → (series now name n host).host ≡ host
    of_series host = unfold series in pruned_host now host (observation_of name n)

    started_series : (host : String) → 0 < now → 0 < (series now name n host).started_at
    started_series host positive =
        unfold series in pruned_started now host (observation_of name n) positive

-- After a node's ping data is pruned to a list of targets, at a time after 1970, this holds of each
-- name, whatever the data was. If no target has the name, nothing of it is left: no samples, no
-- observation and no window. If one has, the name's observation is the one before, if that was of the
-- target's host and had begun, and else a new one of the host that begins now, with no method. The
-- samples are the newest 1440 of exactly those that are of the observation's host, not older than it,
-- measured by a known method, and by the observation's where that has one. The window is the one
-- before, if that was of the observation's host and method, and else an empty one of these.
pub prune_node_ping_lem :
    (now : ℕ) (targets : List Target) (n : PingState) (report : Option (List PingResult))
    (name : String)
    → 0 < now
    → PrunedTo now name n
        (prune_node_ping now targets n report).0
        (lookup String_discrete name (allow_targets targets []))
unfolding prune_node_ping
prune_node_ping_lem now targets n report name positive =
    pruned_to now (allow_targets targets []) name n
      (lookup String_discrete name (allow_targets targets [])) positive
      (allow_targets-Distinct targets [] tt) refl

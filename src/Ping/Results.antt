-- ===== src/Ping/Results.antt =====
-- `filterPingResults` of internal/store/ping_data.go.
use text.Mathlib.Text.{◌==◌ as str_eq}
use vibemonitor.Prelude.{
  some-injective, ◌≡◌, refl, sym, ap, ◌∙◌, Bool, true, false, not, ◌||◌, List, [], ◌∷◌, String,
  Option, none, some, if◌then◌else◌, any, arith, Bool-cases, Option-cases, is_some, inl, inr,
}
use vibemonitor.Prelude.Int.{ℤ}
use vibemonitor.Prelude.Assoc.{String_discrete, lookup, insert}
use vibemonitor.Store.Queue.{Target}

pub record PingResult : Type 0 where
  pub measured_at : ℤ
  pub method : String
  pub name : String
  pub host : String
  pub latency : ℤ

-- The map `allowed` from names to hosts: of two targets with one name the later counts.
unfoldable pub allow_targets : List Target → List (String × String) → List (String × String)
allow_targets [] allowed = allowed
allow_targets (t ∷ targets) allowed =
    allow_targets targets (insert String_discrete t.name t.host allowed)

-- The method that a result keeps, if it is one that the store knows.
unfoldable pub known_method : String → Option String
known_method method =
    if str_eq method ""
    then some "unknown"
    else if str_eq method "tcp" || str_eq method "icmp" || str_eq method "unknown"
    then some method
    else none

unfoldable pub host_matches : Option String → String → Bool
host_matches none host = false
host_matches (some allowed) host = str_eq allowed host

unfoldable pub with_method : PingResult → Option String → Option PingResult
with_method result none = none
with_method result (some method) = some (record result { method = method })

-- The first test of the loop.
unfoldable pub refuses : List (String × String) → List String → PingResult → Bool
unfolding host_matches
refuses allowed seen result =
    not (host_matches (lookup String_discrete result.name allowed) result.host)
    || any (λ name. str_eq name result.name) seen

-- One result of the loop: what is kept of it.
unfoldable pub keep_result : List (String × String) → List String → PingResult → Option PingResult
keep_result allowed seen result =
    if refuses allowed seen result then none else with_method result (known_method result.method)

unfoldable pub filter_results :
    List (String × String) → List String → List PingResult → List PingResult
filter_results allowed seen [] = []
filter_results allowed seen (result ∷ results) = elim (keep_result allowed seen result) [
  | none ↦ filter_results allowed seen results
  | some kept ↦ kept ∷ filter_results allowed (kept.name ∷ seen) results
]

unfoldable pub filter_ping_results : List PingResult → List Target → List PingResult
filter_ping_results results targets = filter_results (allow_targets targets []) [] results

known_method_again : (m m' : String) → known_method m ≡ some m' → known_method m' ≡ some m'
known_method_again m m' h = elim (Bool-cases (str_eq m "")) [
  | inl empty ↦
      let same : "unknown" ≡ m' = some-injective (sym (filled empty) ∙ h) in
      ap known_method (sym same) ∙ unknown ∙ ap some same
  | inr given ↦ elim (Option-cases (known_method m)) [
    | inl bad ↦ absurd cc
    | inr (x, e) ↦
        let same : m ≡ m' = some-injective (sym (kept given (ap is_some h)) ∙ h) in
        ap known_method (sym same) ∙ h
  ]
]
  where
    filled : str_eq m "" ≡ true → known_method m ≡ some "unknown"
    filled empty = unfold known_method in rw empty refl

    unknown : known_method "unknown" ≡ some "unknown"
    unknown = unfold known_method in refl

    kept : str_eq m "" ≡ false → is_some (known_method m) ≡ true → known_method m ≡ some m
    kept given known = unfold known_method in ground (arith, given, known)

keep_result_again :
    (allowed : List (String × String)) (seen : List String) (r r' : PingResult)
    → keep_result allowed seen r ≡ some r'
    → keep_result allowed seen r' ≡ some r'
keep_result_again allowed seen r r' h = elim (Bool-cases (refuses allowed seen r)) [
  | inl bad ↦ absurd (let e = refused bad in cc)
  | inr good ↦ elim (Option-cases (known_method r.method)) [
    | inl strange ↦ absurd (let e = lost good strange in cc)
    | inr (m, e) ↦
        let same : record r { method = m } ≡ r' = some-injective (sym (kept good m e) ∙ h) in
        ap (keep_result allowed seen) (sym same) ∙ again good m e ∙ ap some same
  ]
]
  where
    refused : refuses allowed seen r ≡ true → keep_result allowed seen r ≡ none
    refused bad = unfold keep_result in rw bad refl

    lost :
        refuses allowed seen r ≡ false
        → known_method r.method ≡ none
        → keep_result allowed seen r ≡ none
    lost good e = unfold keep_result with_method in rw (good, e) refl

    kept :
        refuses allowed seen r ≡ false
        → (m : String) → known_method r.method ≡ some m
        → keep_result allowed seen r ≡ some (record r { method = m })
    kept good m e = unfold keep_result with_method in rw (good, e) refl

    still :
        refuses allowed seen r ≡ false
        → (m : String) → refuses allowed seen (record r { method = m }) ≡ false
    still good m = unfold refuses in good

    again :
        refuses allowed seen r ≡ false
        → (m : String) → known_method r.method ≡ some m
        → keep_result allowed seen (record r { method = m }) ≡ some (record r { method = m })
    again good m e =
        unfold keep_result with_method in rw (still good m, known_method_again r.method m e) refl

filter_results_again :
    (allowed : List (String × String)) (seen : List String) (results : List PingResult)
    → filter_results allowed seen (filter_results allowed seen results)
      ≡ filter_results allowed seen results
unfolding filter_results
filter_results_again allowed seen [] = refl
filter_results_again allowed seen (r ∷ results) = elim (Option-cases (keep_result allowed seen r)) [
  | inl dropped ↦ rw (dropped, filter_results) (filter_results_again allowed seen results)
  | inr (kept, e) ↦
      rw (e, filter_results)
        (rw (keep_result_again allowed seen r kept e, filter_results)
          (ap (◌∷◌ kept) (filter_results_again allowed (kept.name ∷ seen) results)))
]

-- Filtering twice is filtering once: what the filter keeps, with the method it fills in, it keeps
-- unchanged when it is applied again to a stored report with the same targets.
filter_ping_results_again :
    (results : List PingResult) (targets : List Target)
    → filter_ping_results (filter_ping_results results targets) targets
      ≡ filter_ping_results results targets
unfolding filter_ping_results
filter_ping_results_again results targets =
    filter_results_again (allow_targets targets []) [] results

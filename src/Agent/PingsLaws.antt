-- ===== src/Agent/PingsLaws.antt =====
-- What the agent measures (internal/agent/client.go) is a complete set of results for the alerts of
-- the server (internal/server/telegram_ping.go).
use text.Mathlib.Text.{◌==◌ as str_eq}
use text.Mathlib.TextEquality.{eq_iff}
use vibemonitor.Prelude.{
  ℕ, ◌≡◌, refl, ap, ◌∙◌, Bool, true, false, not, ◌&&◌, ◌||◌, List, [], ◌∷◌, String, Option, none,
  some, any, arith, All, Bool-cases, &&-true, inl, inr, if◌then◌else◌,
}
use vibemonitor.Prelude.Int.{ℤ, pos, negsuc, ltb_ℤ}
use vibemonitor.Store.Queue.{Target}
use vibemonitor.Ping.Results.{PingResult}
use vibemonitor.Alerts.Targets.{
  fresh_at, matches, find_result, is_unknown, Probe, note_result, probe_result, probe_targets,
  all_targets_ping,
}
use vibemonitor.Agent.Pings.{
  PingNetwork, try_connect, try_ping, ping_trimmed, ping_host, measure_ping, measure_all,
  measure_pings,
}

same_target : (s t : Target) → s.name ≡ t.name → s.host ≡ t.host → s ≡ t
same_target s t e f = cc

module _ (net : PingNetwork) (clock : Target → ℤ) where
  abbrev measured : Target → PingResult
  measured t = measure_ping net (clock t) t

  matches_same : (s t : Target) → matches t (measured s) ≡ true → s ≡ t
  unfolding matches measure_ping
  matches_same s t h =
      let (name, host) = &&-true _ _ h in
      same_target s t ((eq_iff s.name t.name).0 name) ((eq_iff s.host t.host).0 host)

  matches_self : (t : Target) → matches t (measured t) ≡ true
  unfolding matches measure_ping
  matches_self t = rw ((eq_iff t.name t.name).1 refl, (eq_iff t.host t.host).1 refl) refl

  abbrev Found : List PingResult → Target → Type 0
  Found results t = find_result t results ≡ some (measured t)

  Found-tail :
      (s : Target) (results : List PingResult) (t : Target)
      → Found results t
      → Found (measured s ∷ results) t
  unfolding find_result
  Found-tail s results t h = elim (Bool-cases (matches t (measured s))) [
    | inl same ↦ rw same (ap (λ u. some (measured u)) (matches_same s t same))
    | inr other ↦ rw other h
  ]

  All-Found-tail :
      (s : Target) (results : List PingResult) (ts : List Target)
      → All (Found results) ts
      → All (Found (measured s ∷ results)) ts
  All-Found-tail s results [] h = tt
  All-Found-tail s results (t ∷ ts) h =
      (Found-tail s results t h.0, All-Found-tail s results ts h.1)

  measured_present : (ts : List Target) → All (Found (measure_all net clock ts)) ts
  unfolding measure_all find_result
  measured_present [] = tt
  measured_present (t ∷ ts) = (
    (let e : matches t (measured t) ≡ true = matches_self t in rw e refl),
    All-Found-tail t (measure_all net clock ts) ts (measured_present ts),
  )

-- Does the target answer?
abbrev pub answers : PingNetwork → Target → Bool
answers net t = not (ltb_ℤ (ping_host net t.host).0 (pos 0))

try_connect-known :
    (found : Option ℕ) (next : ℤ × String)
    → ltb_ℤ next.0 (negsuc 0) ≡ false
    → ltb_ℤ (try_connect found next).0 (negsuc 0) ≡ false
unfolding try_connect
try_connect-known none next h = h
try_connect-known (some ms) next h = ground arith

try_ping-known :
    (found : Option ℕ) (next : ℤ × String)
    → ltb_ℤ next.0 (negsuc 0) ≡ false
    → ltb_ℤ (try_ping found next).0 (negsuc 0) ≡ false
unfolding try_ping
try_ping-known none next h = h
try_ping-known (some ms) next h = ground arith

-- A latency is -1 at least.
ping_trimmed-known :
    (net : PingNetwork) (host : String) → ltb_ℤ (ping_trimmed net host).0 (negsuc 0) ≡ false
unfolding ping_trimmed
ping_trimmed-known net host =
    let last = try_connect-known (net.connect (net.https host)) (negsuc 0, "tcp") refl in
    elim (Bool-cases (str_eq host "")) [
      | inl blank ↦ rw blank refl
      | inr given ↦ elim (Bool-cases (net.has_port host)) [
        | inl port ↦ rw (given, port) (try_connect-known (net.connect host) (negsuc 0, "tcp") refl)
        | inr bare ↦
            rw (given, bare)
              (try_ping-known (net.ping host) _
                (try_connect-known (net.connect (net.http host)) _ last))
      ]
    ]

module _ (net : PingNetwork) (clock : Target → ℤ) (now : ℕ) where
  measured_known :
      (t : Target)
      → fresh_at now (measure_ping net (clock t) t) ≡ true
      → is_unknown now (measure_ping net (clock t) t) ≡ false
  unfolding is_unknown measure_ping ping_host
  measured_known t fresh = ground (arith, fresh, ping_trimmed-known net (net.trim t.host))

  probe_result-measured :
      (results : List PingResult) (t : Target) (p : Probe)
      → find_result t results ≡ some (measure_ping net (clock t) t)
      → fresh_at now (measure_ping net (clock t) t) ≡ true
      → probe_result now p (find_result t results)
        ≡ some (note_result p (measure_ping net (clock t) t))
  unfolding probe_result
  probe_result-measured results t p found fresh =
      ap (probe_result now p) found ∙ rw (measured_known t fresh, probe_result) refl

  timeout_step :
      (b x rest : Bool) → ((if b then x else false) && not rest) ≡ (x && not (not b || rest))
  timeout_step true x rest = refl
  timeout_step false true rest = refl
  timeout_step false false rest = refl

  note_result-measured :
      (p : Probe) (t : Target) (rest : Bool)
      → ((note_result p (measure_ping net (clock t) t)).all_timeout && not rest)
        ≡ (p.all_timeout && not (answers net t || rest))
  unfolding note_result measure_ping
  note_result-measured p t rest =
      timeout_step (ltb_ℤ (ping_host net t.host).0 (pos 0)) p.all_timeout rest

  probed :
      (results : List PingResult) (ts : List Target) (p : Probe)
      → All (λ t. find_result t results ≡ some (measure_ping net (clock t) t)) ts
      → ((t : Target) → fresh_at now (measure_ping net (clock t) t) ≡ true)
      → (p' : Probe) × (probe_targets now results ts p ≡ some p')
        × (p'.all_timeout ≡ (p.all_timeout && not (any (answers net) ts)))
  unfolding probe_targets
  probed results [] p found fresh = (p, refl, ground arith)
  probed results (t ∷ ts) p found fresh =
      let q = note_result p (measure_ping net (clock t) t) in
      let (p', rest, all) = probed results ts q found.1 fresh in
      (
        p',
        rw (probe_result-measured results t p found.0 (fresh t), probe_targets) rest,
        all ∙ note_result-measured p t (any (answers net) ts),
      )

  -- A round of probes of the agent of at least one target, if all its results are fresh, is complete
  -- for the server with the same targets: its alerts take the targets for silent if no target
  -- answered, and only then.
  pub all_targets_ping-measure_pings :
      (t : Target) (ts : List Target) (before : Option (List PingResult))
      → ((u : Target) → fresh_at now (measure_ping net (clock u) u) ≡ true)
      → (p : Probe) × (all_targets_ping now (t ∷ ts) (measure_pings net clock false (t ∷ ts) before)
          ≡ some p)
        × (p.all_timeout ≡ not (any (answers net) (t ∷ ts)))
  unfolding all_targets_ping measure_pings
  all_targets_ping-measure_pings t ts before fresh =
      probed (measure_all net clock (t ∷ ts)) (t ∷ ts)
        (record { all_timeout = true; measured_at = 0 }) (measured_present net clock (t ∷ ts)) fresh

-- ===== src/Store/IngestLaws.antt =====
-- What a report leaves alone (internal/store/store.go): other nodes, and other nodes' samples.
use mathlib.Core.List.{append-nil, append_assoc}
use vibemonitor.Prelude.{
  ℕ, ◌+◌, ◌≡◌, ◌≢◌, refl, sym, ap, ◌∙◌, List, [], ◌∷◌, ◌++◌, String, Option, none, some, leb, ltb,
  length, All, Bool-cases, inl, inr, ◌&&◌,
}
use vibemonitor.Prelude.Assoc.{String_discrete, lookup, lookup-insert_ne}
use vibemonitor.Prelude.Clock.{unix}
use vibemonitor.Uptime.Online.{Intervals}
use vibemonitor.Store.Queue.{HistorySample, enqueue_history, max_pending_history_samples}
use vibemonitor.Ping.Results.{PingResult}
use vibemonitor.Ping.Samples.{
  PingState, observation_of, record_ping_observation, sample_result_at, sample_result,
  sample_results, sample_time, sample_interval,
}
use vibemonitor.Ping.SamplesLaws.{due_cases}
use vibemonitor.Billing.Account.{has_negative, is_stale}
use vibemonitor.Ping.Results.{filter_ping_results}
use vibemonitor.Store.Queue.{targets_of}
use vibemonitor.Store.Points.{
  Floats, Load, Resources, resources, has_reading, sample_resources, note_taken,
}
use vibemonitor.Store.Ingest.{
  Incoming, LiveNode, LiveStore, empty_readings, max_ping_targets, updated_node, store_node,
  take_samples, ingest_into, ingest_indexed, ingest_report_at,
}

-- A queue that has grown at its end by samples of one node.
abbrev pub GrownBy :
    {R : Type 0} → String → List (HistorySample R) → List (HistorySample R) → Type 0
GrownBy {R} uuid pending pending' =
    (new : List (HistorySample R)) × (pending' ≡ pending ++ new) × All (λ x. x.uuid ≡ uuid) new

module _ {R : Type 0} (uuid : String) where
  same-GrownBy : (pending : List (HistorySample R)) → GrownBy uuid pending pending
  same-GrownBy pending = ([], sym (append-nil pending), tt)

  All-append :
      (xs ys : List (HistorySample R))
      → All (λ x. x.uuid ≡ uuid) xs
      → All (λ x. x.uuid ≡ uuid) ys
      → All (λ x. x.uuid ≡ uuid) (xs ++ ys)
  All-append [] ys h k = k
  All-append (x ∷ xs) ys h k = (h.0, All-append xs ys h.1 k)

  GrownBy-trans :
      (a b c : List (HistorySample R)) → GrownBy uuid a b → GrownBy uuid b c → GrownBy uuid a c
  GrownBy-trans a b c (x, e, h) (y, f, k) =
      (x ++ y, f ∙ ap (λ q. q ++ y) e ∙ append_assoc a x y, All-append x y h k)

  result-GrownBy :
      (no_readings : R) (p : PingResult) (at : Option ℕ) (s : PingState × List (HistorySample R))
      → GrownBy uuid s.1 (sample_result_at no_readings uuid p at s).1
  unfolding sample_result_at
  result-GrownBy no_readings p none s = same-GrownBy s.1
  result-GrownBy no_readings p (some at) (n, pending) =
      elim (Bool-cases (ltb at (observation_of p.name n).last_sample_at)) [
        | inl old ↦ rw old (same-GrownBy pending)
        | inr new ↦
            rw new
              (elim (due_cases no_readings uuid p at
                (record_ping_observation p.name p.host p.method at n) pending) [
                  | inl (e, why) ↦ rw e (same-GrownBy pending)
                  | inr (due, e) ↦ rw e (_, refl, (refl, tt))
                ])
      ]

  results-GrownBy :
      (no_readings : R) (now : ℕ) (results : List PingResult)
      (s : PingState × List (HistorySample R))
      → GrownBy uuid s.1 (sample_results no_readings uuid now results s).1
  unfolding sample_results sample_result
  results-GrownBy no_readings now [] s = same-GrownBy s.1
  results-GrownBy no_readings now (p ∷ results) s =
      GrownBy-trans s.1 (sample_result no_readings uuid now p s).1
        (sample_results no_readings uuid now results (sample_result no_readings uuid now p s)).1
        (result-GrownBy no_readings p (sample_time p now) s)
        (results-GrownBy no_readings now results (sample_result no_readings uuid now p s))

resources-GrownBy :
    {F : Type 0} (floats : Floats F) (uuid : String) (now : ℕ) (l : Load F) (last : ℕ)
    (pending : List (HistorySample (Resources F)))
    → GrownBy uuid pending (sample_resources floats uuid now l (last, pending)).1
unfolding sample_resources note_taken enqueue_history
resources-GrownBy floats uuid now l last pending =
    elim (Bool-cases
      (leb (last + sample_interval) (unix now) && has_reading (resources floats l))) [
        | inl due ↦ elim (Bool-cases (leb max_pending_history_samples (length pending))) [
          | inl full ↦ rw (due, full) (same-GrownBy uuid pending)
          | inr room ↦ rw (due, room) (_, refl, (refl, tt))
        ]
        | inr early ↦ rw early (same-GrownBy uuid pending)
      ]

-- What a report of a node leaves of the store: the queue, up to samples of the node, and other nodes.
abbrev pub IsLocal : {F : Type 0} → String → LiveStore F → LiveStore F → Type 0
IsLocal uuid s s' =
    GrownBy uuid s.pending s'.pending
    × ((other : String)
        → uuid ≢ other
        → lookup String_discrete other s'.nodes ≡ lookup String_discrete other s.nodes)

module _ {F : Type 0} (floats : Floats F) (intervals : Intervals F) (prorate : ℕ → ℕ → ℕ → ℕ)
    (r : Incoming F) (now : ℕ) (s : LiveStore F) (uuid : String) where
  same-IsLocal : IsLocal uuid s s
  same-IsLocal = (same-GrownBy uuid s.pending, λ other ne. refl)

  take_samples-IsLocal :
      (results : List PingResult) (n : LiveNode F)
      → IsLocal uuid s (take_samples floats intervals prorate uuid now r results n s)
  unfolding take_samples store_node
  take_samples-IsLocal results n =
      let read = sample_resources floats uuid now r.load (n.last_resource_at, s.pending) in
      let empty = empty_readings floats intervals prorate in
      (
        GrownBy-trans uuid s.pending read.1
            (sample_results empty uuid now results (n.pings, read.1)).1
            (resources-GrownBy floats uuid now r.load n.last_resource_at s.pending)
            (results-GrownBy uuid empty now results (n.pings, read.1)),
        λ other ne. lookup-insert_ne String_discrete other uuid _ s.nodes ne,
      )

  ingest_into-IsLocal :
      (found : Option (LiveNode F))
      → IsLocal uuid s (ingest_into floats intervals prorate uuid r now s found).0
  unfolding ingest_into
  ingest_into-IsLocal none = same-IsLocal
  ingest_into-IsLocal (some n) = elim (Bool-cases (has_negative r.traffic.network)) [
    | inl negative ↦ rw negative same-IsLocal
    | inr sound ↦ elim (Bool-cases (is_stale n.traffic.last_report r.traffic)) [
      | inl old ↦ rw (sound, old) same-IsLocal
      | inr new ↦
          rw (sound, new)
            (take_samples-IsLocal
              (filter_ping_results r.results (targets_of s.shared_targets n.targets))
              (updated_node floats intervals prorate r now n))
    ]
  ]

  -- A report whose token is indexed under a node's name leaves every other node as it is, and changes the
  -- queue only by samples of that node at its end; whether it counts or is refused.
  pub ingest_report_at_lem :
      (token other : String)
      → lookup String_discrete token s.token_index ≡ some uuid
      → uuid ≢ other
      → GrownBy uuid s.pending (ingest_report_at floats intervals prorate token r now s).0.pending
        × (lookup String_discrete other
              (ingest_report_at floats intervals prorate token r now s).0.nodes
            ≡ lookup String_discrete other s.nodes)
  unfolding ingest_report_at ingest_indexed
  ingest_report_at_lem token other known ne =
      let local : IsLocal uuid s (ingest_report_at floats intervals prorate token r now s).0 =
        elim (Bool-cases (ltb max_ping_targets (length r.results))) [
          | inl many ↦ rw (known, many) same-IsLocal
          | inr few ↦ rw (known, few) (ingest_into-IsLocal (lookup String_discrete uuid s.nodes))
        ] in
      (local.0, local.1 other ne)

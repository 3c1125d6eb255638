-- ===== src/Billing/AccountLaws.antt =====
-- What the traffic accounting of `ingestReportAt` in internal/store/store.go does with a report
-- that comes again.
use text.Mathlib.Text.{◌==◌ as str_eq}
use text.Mathlib.TextEquality.{eq_iff}
use vibemonitor.Prelude.{
  ℕ, ◌<◌, ◌≡◌, refl, sym, ap, ◌∙◌, true, false, String, Option, none, some, arith, Bool-cases, inl,
  inr, value_or,
}
use vibemonitor.Billing.Account.{
  Report, Node, has_negative, is_stale, check_cycle_rollover, charge, account, note_report,
  ingest_traffic, boot_changed, clock_reset, traffic_sample_time,
}

str_eq_refl : (s : String) → str_eq s s ≡ true
str_eq_refl s = (eq_iff s s).1 refl

pub str_eq_of_eq : (s t : String) → s ≡ t → str_eq s t ≡ true
str_eq_of_eq s t e = (eq_iff s t).1 e

-- A report is stale after itself.
is_stale_self : (report : Report) → 0 < report.updated_at → is_stale (some report) report ≡ true
unfolding is_stale boot_changed clock_reset
is_stale_self report h = rw (str_eq_refl report.network.boot_id) (ground (arith, h))

check_cycle_rollover-last_report :
    (now : ℕ) (n : Node) → (check_cycle_rollover now n).last_report ≡ n.last_report
unfolding check_cycle_rollover
check_cycle_rollover-last_report now n = ground arith

module _ (prorate : ℕ → ℕ → ℕ → ℕ) where
  account-last_report :
      (previous : Option Report) (report : Report) (a b : ℕ) (n : Node)
      → (account prorate previous report a b n).last_report ≡ n.last_report
  unfolding account charge
  account-last_report previous report a b n = ground (arith, check_cycle_rollover-last_report b n)

  ingest_stale :
      (report : Report) (now : ℕ) (n : Node)
      → has_negative report.network ≡ false
      → is_stale n.last_report report ≡ true
      → ingest_traffic prorate report now n ≡ some n
  unfolding ingest_traffic
  ingest_stale report now n plain stale = rw (plain, stale) refl

  pub ingest_fresh :
      (report : Report) (now : ℕ) (n : Node)
      → has_negative report.network ≡ false
      → is_stale n.last_report report ≡ false
      → ingest_traffic prorate report now n
        ≡ some (
            account prorate n.last_report report
              (traffic_sample_time n.last_report n.last_seen)
              (traffic_sample_time (some report) now)
              (note_report report now n))
  unfolding ingest_traffic
  ingest_fresh report now n plain fresh = rw (plain, fresh) refl

  ingest_negative :
      (report : Report) (now : ℕ) (n : Node)
      → has_negative report.network ≡ true
      → ingest_traffic prorate report now n ≡ none
  unfolding ingest_traffic
  ingest_negative report now n bad = rw bad refl

  -- A report that carries its time is counted once: when it comes again, however late, the node
  -- stays as the first ingestion left it.
  pub ingest_traffic_again :
      (report : Report) (now later : ℕ) (n n' : Node)
      → 0 < report.updated_at
      → ingest_traffic prorate report now n ≡ some n'
      → ingest_traffic prorate report later n' ≡ some n'
  unfolding note_report
  ingest_traffic_again report now later n n' stamped accepted =
      elim (Bool-cases (has_negative report.network)) [
        | inl bad ↦ absurd (let e = ingest_negative report now n bad in cc)
        | inr plain ↦ elim (Bool-cases (is_stale n.last_report report)) [
          | inl stale ↦
              let same : n ≡ n' =
                ap (value_or n) (sym (ingest_stale report now n plain stale) ∙ accepted) in
              ap (ingest_traffic prorate report later) (sym same)
              ∙ ingest_stale report later n plain stale
              ∙ ap some same
          | inr fresh ↦ ingest_stale report later n' plain (
              ap (λ m. is_stale m.last_report report)
                (ap (value_or n) (sym accepted ∙ ingest_fresh report now n plain fresh))
              ∙ ap (λ o. is_stale o report)
                  (account-last_report n.last_report report _ _ (note_report report now n))
              ∙ is_stale_self report stamped)
        ]
      ]

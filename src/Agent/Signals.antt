-- ===== src/Agent/Signals.antt =====
-- When the agent of internal/agent/client.go sends its basic information again, and when an answer
-- of the server signals its workers.
use text.Mathlib.Text.{◌==◌ as str_eq}
use text.Mathlib.TextEquality.{eq_iff}
use vibemonitor.Prelude.{
  ℕ, ◌≡◌, refl, ap, ◌∙◌, Bool, true, false, ◌||◌, List, [], ◌∷◌, String, Option, none, some,
  if◌then◌else◌, All, arith, Bool-cases, inl, inr,
}
use vibemonitor.Store.Queue.{Target}
use vibemonitor.Agent.Client.{
  RpcResult, Posted, Request, Agent, BasicTry, Happening, equal_targets, same_targets, follow_epoch,
  follow_targets, handle_rpc_result, basic_posted, try_basic, sampled, sample_failed, report_posted,
  after_report, basic_due, upload, tick, happen, run,
}
use vibemonitor.Agent.ErrorLog.{no_errors}
use vibemonitor.Agent.Client.Posted.{failed, succeeded}
use vibemonitor.Agent.Client.Request.{basic_info, report}
use vibemonitor.Agent.Client.Happening.{
  sample, no_sample, refresh, ticked, probed, ping_signalled, identity_signalled,
}

-- Neither a report nor basic information is sent.
abbrev pub IsQuiet : {R : Type 0} → Happening R → Type 0
IsQuiet (refresh t) = ⊥
IsQuiet (ticked now posted t) = ⊥
IsQuiet h = Unit

module _ {R : Type 0} where
  abbrev sent_of : Agent R → ℕ × List (Request R)
  sent_of a = (a.last_basic_info, a.requests)

  branch_sent :
      (b : Bool) (x y a : Agent R)
      → sent_of x ≡ sent_of a
      → sent_of y ≡ sent_of a
      → sent_of (if b then x else y) ≡ sent_of a
  branch_sent true x y a hx hy = hx
  branch_sent false x y a hx hy = hy

  sent-follow_targets :
      (targets : Option (List Target)) (a : Agent R)
      → sent_of (follow_targets targets a) ≡ sent_of a
  unfolding follow_targets
  sent-follow_targets none a = refl
  sent-follow_targets (some targets) a =
      branch_sent (same_targets a.ping_targets targets) a _ a refl refl

  sent-handle_rpc_result :
      (result : Option RpcResult) (a : Agent R) → sent_of (handle_rpc_result result a) ≡ sent_of a
  unfolding handle_rpc_result follow_epoch
  sent-handle_rpc_result none a = refl
  sent-handle_rpc_result (some result) a =
      sent-follow_targets result.ping_targets (follow_epoch result.network_identity_epoch a)
      ∙ branch_sent
          (str_eq result.network_identity_epoch ""
            || str_eq a.identity_epoch result.network_identity_epoch)
          a _ a refl refl

  try_basic_sent :
      (now : ℕ) (posted : Posted) (a : Agent R)
      → (try_basic now none posted a).requests ≡ basic_info ∷ a.requests
  unfolding try_basic basic_posted
  try_basic_sent now (failed error) a = refl
  try_basic_sent now (succeeded result) a = ap (λ s. s.1) (sent-handle_rpc_result result _)

  quiet_last :
      (hs : List (Happening R)) (a : Agent R)
      → All IsQuiet hs
      → (run hs a).last_basic_info ≡ a.last_basic_info
  unfolding run happen sampled sample_failed
  quiet_last [] a quiet = refl
  quiet_last (sample r ∷ hs) a quiet = quiet_last hs _ quiet.1
  quiet_last (no_sample error now ∷ hs) a quiet = quiet_last hs _ quiet.1
  quiet_last (refresh t ∷ hs) a quiet = absurd quiet.0
  quiet_last (ticked now posted t ∷ hs) a quiet = absurd quiet.0
  quiet_last (probed results ∷ hs) a quiet = quiet_last hs _ quiet.1
  quiet_last (ping_signalled ∷ hs) a quiet = quiet_last hs _ quiet.1
  quiet_last (identity_signalled ∷ hs) a quiet = quiet_last hs _ quiet.1

  tick_after_error :
      (now : ℕ) (error : String) (t : BasicTry) (r : R) (a : Agent R)
      → a.pending ≡ some r
      → (tick now (failed error) t a).last_basic_info ≡ 0
  unfolding tick upload report_posted
  tick_after_error now error t r a waiting = rw waiting refl

  tick_resumed :
      (now : ℕ) (result : Option RpcResult) (t : BasicTry) (r : R) (a : Agent R)
      → a.pending ≡ some r
      → a.last_basic_info ≡ 0
      → t.collected ≡ none
      → (tick now (succeeded result) t a).requests
        ≡ basic_info ∷ report r a.ping_results ∷ a.requests
  unfolding tick upload report_posted after_report basic_due
  tick_resumed now result t r a waiting zero collected =
      let b : Agent R = record a {
        pending = none;
        requests = report r a.ping_results ∷ a.requests;
        report_failures = no_errors;
      } in
      let sent = sent-handle_rpc_result result b in
      rw (waiting, ap (λ s. s.0) sent ∙ zero, collected)
        (try_basic_sent t.now t.posted _ ∙ ap (λ s. basic_info ∷ s.1) sent)

  -- After a report that failed, the next report that succeeds is followed at once by the basic
  -- information, if it can be collected, whatever was sampled or probed in between.
  pub basic_info_resent :
      (now later : ℕ) (error : String) (result : Option RpcResult) (t t' : BasicTry) (r r' : R)
      (hs : List (Happening R)) (a : Agent R)
      → a.pending ≡ some r
      → All IsQuiet hs
      → (run hs (tick now (failed error) t a)).pending ≡ some r'
      → t'.collected ≡ none
      → (tick later (succeeded result) t' (run hs (tick now (failed error) t a))).requests
        ≡ basic_info
          ∷ report r' (run hs (tick now (failed error) t a)).ping_results
          ∷ (run hs (tick now (failed error) t a)).requests
  basic_info_resent now later error result t t' r r' hs a waiting quiet again collected =
      tick_resumed later result t' r' (run hs (tick now (failed error) t a)) again
        (quiet_last hs (tick now (failed error) t a) quiet
          ∙ tick_after_error now error t r a waiting)
        collected

equal_targets_self : (ts : List Target) → equal_targets ts ts ≡ true
unfolding equal_targets
equal_targets_self [] = refl
equal_targets_self (t ∷ ts) =
    rw ((eq_iff t.name t.name).1 refl, (eq_iff t.host t.host).1 refl, equal_targets_self ts) refl

module _ {R : Type 0} where
  abbrev pub without_signals : Agent R → Agent R
  without_signals a = record a { ping_trigger = false; identity_trigger = false }

  abbrev epoch_known : String → Agent R → Bool
  epoch_known epoch a = str_eq epoch "" || str_eq a.identity_epoch epoch

  epoch_known-follow_epoch :
      (epoch : String) (a : Agent R) → epoch_known epoch (follow_epoch epoch a) ≡ true
  unfolding follow_epoch
  epoch_known-follow_epoch epoch a = elim (Bool-cases (epoch_known epoch a)) [
    | inl known ↦ rw (known, follow_epoch) known
    | inr fresh ↦ rw (fresh, follow_epoch) (rw ((eq_iff epoch epoch).1 refl) (ground arith))
  ]

  same_targets-follow_targets :
      (targets : List Target) (a : Agent R)
      → same_targets (follow_targets (some targets) a).ping_targets targets ≡ true
  unfolding follow_targets same_targets
  same_targets-follow_targets targets a = elim (Bool-cases (same_targets a.ping_targets targets)) [
    | inl same ↦ rw (same, follow_targets) same
    | inr other ↦ rw (other, follow_targets) (equal_targets_self targets)
  ]

  follow_targets_again :
      (targets : Option (List Target)) (a : Agent R)
      → follow_targets targets (without_signals (follow_targets targets a))
        ≡ without_signals (follow_targets targets a)
  unfolding follow_targets
  follow_targets_again none a = refl
  follow_targets_again (some targets) a =
      rw (same_targets-follow_targets targets a, follow_targets) refl

  epoch-follow_targets :
      (targets : Option (List Target)) (a : Agent R)
      → (follow_targets targets a).identity_epoch ≡ a.identity_epoch
  unfolding follow_targets
  epoch-follow_targets none a = refl
  epoch-follow_targets (some targets) a = ground arith

  follow_epoch_known :
      (epoch : String) (a : Agent R) → epoch_known epoch a ≡ true → follow_epoch epoch a ≡ a
  unfolding follow_epoch
  follow_epoch_known epoch a h = rw h refl

  -- An answer that repeats the epoch and the targets of the one before signals no worker, and changes
  -- nothing: normal answers cannot flood the workers.
  handle_rpc_result_again :
      (result : Option RpcResult) (a : Agent R)
      → handle_rpc_result result (without_signals (handle_rpc_result result a))
        ≡ without_signals (handle_rpc_result result a)
  unfolding handle_rpc_result
  handle_rpc_result_again none a = refl
  handle_rpc_result_again (some result) a =
      let e = result.network_identity_epoch in
      let b = without_signals (follow_targets result.ping_targets (follow_epoch e a)) in
      let known : epoch_known e b ≡ true =
        ap (λ held. str_eq e "" || str_eq held e)
          (epoch-follow_targets result.ping_targets (follow_epoch e a))
        ∙ epoch_known-follow_epoch e a in
      ap (follow_targets result.ping_targets) (follow_epoch_known e b known)
      ∙ follow_targets_again result.ping_targets (follow_epoch e a)

-- ===== src/Agent/ClientLaws.antt =====
-- What the loops of internal/agent/client.go and internal/agent/sampling.go send to the server, and
-- when they signal their workers.
use text.Mathlib.Text.{◌==◌ as str_eq}
use vibemonitor.Prelude.{
  ℕ, ◌≡◌, refl, ap, sym, ◌∙◌, Bool, true, false, ◌||◌, List, [], ◌∷◌, String, Option, none, some,
  if◌then◌else◌, ◌⊎◌, inl, inr,
}
use mathlib.Core.Path.{subst}
use vibemonitor.Store.Queue.{Target}
use vibemonitor.Agent.Client.{
  RpcResult, Posted, Request, Agent, BasicTry, Happening, same_targets, follow_epoch,
  follow_targets, handle_rpc_result, basic_posted, try_basic, sampled, sample_failed, report_posted,
  after_report, basic_due, upload, tick, happen, run,
}
use vibemonitor.Agent.Client.Posted.{failed, succeeded}
use vibemonitor.Agent.Client.Request.{basic_info, report}
use vibemonitor.Agent.Client.Happening.{
  sample, no_sample, refresh, ticked, probed, ping_signalled, identity_signalled,
}

-- The items of the first list stand in the second, in their order and each at a place of its own.
abbrev pub Within : {A : Type 0} → List A → List A → Type 0
Within [] ys = Unit
Within (x ∷ xs) [] = ⊥
Within (x ∷ xs) (y ∷ ys) = ((x ≡ y) × Within xs ys) ⊎ Within (x ∷ xs) ys

Within-later : {A : Type 0} (xs ys : List A) (y : A) → Within xs ys → Within xs (y ∷ ys)
Within-later [] ys y h = tt
Within-later (x ∷ xs) ys y h = inr h

Within-tail : {A : Type 0} (x : A) (xs ys : List A) → Within (x ∷ xs) ys → Within xs ys
Within-tail x xs [] h = absurd h
Within-tail x xs (y ∷ ys) (inl (e, h)) = Within-later xs ys y h
Within-tail x xs (y ∷ ys) (inr h) = Within-later xs ys y (Within-tail x xs ys h)

-- The reports among the requests, and the one that waits, the newest first.
abbrev pub reports : {R : Type 0} → List (Request R) → List R
reports [] = []
reports (basic_info ∷ requests) = reports requests
reports (report r pings ∷ requests) = r ∷ reports requests

abbrev with_pending : {R : Type 0} → Option R → List R → List R
with_pending none rs = rs
with_pending (some r) rs = r ∷ rs

abbrev pub taken : {R : Type 0} → Agent R → List R
taken a = with_pending a.pending (reports a.requests)

-- The samples of a run after those of the list, the newest first.
abbrev pub samples : {R : Type 0} → List (Happening R) → List R → List R
samples [] before = before
samples (sample r ∷ hs) before = samples hs (r ∷ before)
samples (h ∷ hs) before = samples hs before

module _ {R : Type 0} where
  branch_taken :
      (b : Bool) (x y a : Agent R)
      → taken x ≡ taken a
      → taken y ≡ taken a
      → taken (if b then x else y) ≡ taken a
  branch_taken true x y a hx hy = hx
  branch_taken false x y a hx hy = hy

  taken-follow_targets :
      (targets : Option (List Target)) (a : Agent R) → taken (follow_targets targets a) ≡ taken a
  unfolding follow_targets
  taken-follow_targets none a = refl
  taken-follow_targets (some targets) a =
      branch_taken (same_targets a.ping_targets targets) a _ a refl refl

  taken-handle_rpc_result :
      (result : Option RpcResult) (a : Agent R) → taken (handle_rpc_result result a) ≡ taken a
  unfolding handle_rpc_result follow_epoch
  taken-handle_rpc_result none a = refl
  taken-handle_rpc_result (some result) a =
      taken-follow_targets result.ping_targets (follow_epoch result.network_identity_epoch a)
      ∙ branch_taken
          (str_eq result.network_identity_epoch ""
            || str_eq a.identity_epoch result.network_identity_epoch)
          a _ a refl refl

  taken-try_basic :
      (now : ℕ) (error : Option String) (posted : Posted) (a : Agent R)
      → taken (try_basic now error posted a) ≡ taken a
  unfolding try_basic basic_posted
  taken-try_basic now (some error) posted a = refl
  taken-try_basic now none (failed error) a = refl
  taken-try_basic now none (succeeded result) a = taken-handle_rpc_result result _

  taken-after_report :
      (now : ℕ) (t : BasicTry) (a : Agent R) → taken (after_report now t a) ≡ taken a
  unfolding after_report
  taken-after_report now t a =
      branch_taken (basic_due now a.last_basic_info) _ a a
        (taken-try_basic t.now t.collected t.posted a) refl

  taken-report_posted :
      (now : ℕ) (posted : Posted) (t : BasicTry) (a : Agent R)
      → taken (report_posted now posted t a) ≡ taken a
  unfolding report_posted
  taken-report_posted now (failed error) t a = refl
  taken-report_posted now (succeeded result) t a =
      taken-after_report now t _ ∙ taken-handle_rpc_result result _

  taken-upload :
      (now : ℕ) (posted : Posted) (t : BasicTry) (waiting : Option R) (a : Agent R)
      → a.pending ≡ waiting
      → taken (upload now posted t waiting a) ≡ taken a
  unfolding upload
  taken-upload now posted t none a e = refl
  taken-upload now posted t (some fresh) a e =
      taken-report_posted now posted t _ ∙ ap (λ w. with_pending w (reports a.requests)) (sym e)

  without_pending :
      (waiting : Option R) (rs seen : List R)
      → Within (with_pending waiting rs) seen
      → Within rs seen
  without_pending none rs seen h = h
  without_pending (some r) rs seen h = Within-tail r rs seen h

  -- In a run, what the agent has sent and what waits to be sent are samples, each sent once at most,
  -- in the order in which they were measured.
  pub run-Within :
      (hs : List (Happening R)) (seen : List R) (a : Agent R)
      → Within (taken a) seen
      → Within (taken (run hs a)) (samples hs seen)
  unfolding run happen sampled sample_failed tick
  run-Within [] seen a h = h
  run-Within (sample r ∷ hs) seen a h =
      run-Within hs (r ∷ seen) _ (inl (refl, without_pending a.pending (reports a.requests) seen h))
  run-Within (no_sample error now ∷ hs) seen a h =
      run-Within hs seen _ (without_pending a.pending (reports a.requests) seen h)
  run-Within (refresh t ∷ hs) seen a h =
      run-Within hs seen _
        (subst (λ l. Within l seen) (sym (taken-try_basic t.now t.collected t.posted a)) h)
  run-Within (ticked now posted t ∷ hs) seen a h =
      run-Within hs seen _
        (subst (λ l. Within l seen) (sym (taken-upload now posted t a.pending a refl)) h)
  run-Within (probed results ∷ hs) seen a h = run-Within hs seen _ h
  run-Within (ping_signalled ∷ hs) seen a h = run-Within hs seen _ h
  run-Within (identity_signalled ∷ hs) seen a h = run-Within hs seen _ h

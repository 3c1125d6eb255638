-- ===== src/Rpc/DispatchLaws.antt =====
-- What `HandleV2RPC` of internal/server/rpc_handler.go lets through.
use text.Mathlib.Text.{◌==◌ as str_eq}
use vibemonitor.Prelude.{
  ℕ, ◌+◌, ◌≤◌, ◌<◌, ◌≡◌, ◌≢◌, refl, ap, sym, ◌∙◌, true, false, [], String, Option, none, some, ◌⊎◌,
  arith, Bool-cases, inl, inr, length,
}
use vibemonitor.Limits.Pacing.{allow, max_paced_tokens}
use vibemonitor.Limits.PacingLaws.{IsPaced, allow-run_spaced, run}
use vibemonitor.Rpc.Dispatch.{
  Headers, agent_report, extract_token, Call, status, Backend, Handler, conclude, report,
  call_method, handle_body, handle_v2_rpc,
}
use vibemonitor.Rpc.Dispatch.Body.{called}
use vibemonitor.Rpc.Dispatch.Reply.{too_often}

module _ {S I P : Type 0} (backend : Backend S I P) (headers : Headers) where
  -- A call whose token the store does not know is answered 401, or 405 if it is no POST, and changes
  -- nothing, whatever its body.
  handle_v2_rpc_unknown :
      (now : ℕ) (r : Call I P) (h : Handler S)
      → backend.knows_token (extract_token headers r.authorization r.x_token) h.store ≡ false
      → ((status (handle_v2_rpc backend headers now r h).0 ≡ 401)
          ⊎ (status (handle_v2_rpc backend headers now r h).0 ≡ 405))
        × ((handle_v2_rpc backend headers now r h).1 ≡ h)
  unfolding handle_v2_rpc
  handle_v2_rpc_unknown now r h unknown = elim (Bool-cases r.is_post) [
    | inr get ↦ rw get (inr refl, refl)
    | inl post ↦ elim (Bool-cases r.token_in_url) [
      | inl inside ↦ rw (post, inside) (inl refl, refl)
      | inr outside ↦
          elim (Bool-cases (str_eq (extract_token headers r.authorization r.x_token) "")) [
            | inl blank ↦ rw (post, outside, blank) (inl refl, refl)
            | inr given ↦ rw (post, outside, given, unknown) (inl refl, refl)
          ]
    ]
  ]

  -- A report that reaches the switch.
  pub record Reports (token : String) (p : P) (r : Call I P) (s : S) : Type 0 where
    pub post : r.is_post ≡ true
    pub outside : r.token_in_url ≡ false
    pub its_token : extract_token headers r.authorization r.x_token ≡ token
    pub given : str_eq token "" ≡ false
    pub known : backend.knows_token token s ≡ true
    pub info : Option I
    pub its_body : r.body ≡ called agent_report info (some p)

  handle_report :
      (now : ℕ) (token : String) (p : P) (r : Call I P) (h : Handler S)
      → Reports token p r h.store
      → handle_v2_rpc backend headers now r h ≡ report backend token now (some p) h
  unfolding handle_v2_rpc handle_body call_method
  handle_report now token p r h is =
      rw (is.post, is.outside, is.its_token, is.given, is.known, is.its_body) refl

  report_too_often :
      (now : ℕ) (token : String) (p : P) (h : Handler S)
      → (allow h.limit agent_report token now (backend.report_spacing p)).1 ≡ false
      → (report backend token now (some p) h).0 ≡ too_often
  unfolding report
  report_too_often now token p h early = rw early refl

  conclude_limit :
      (h : Handler S) (outcome : S × (Option String × String))
      → (conclude backend h outcome).1.limit ≡ h.limit
  unfolding conclude
  conclude_limit h (store, (none, uuid)) = refl
  conclude_limit h (store, (some error, uuid)) = refl

  report_limit :
      (now : ℕ) (token : String) (p : P) (h : Handler S)
      → (report backend token now (some p) h).1.limit
        ≡ (allow h.limit agent_report token now (backend.report_spacing p)).0
  unfolding report conclude
  report_limit now token p h =
      elim (Bool-cases (allow h.limit agent_report token now (backend.report_spacing p)).1) [
        | inr early ↦ rw early refl
        | inl due ↦ rw due (
            conclude_limit
              (record h {
                limit = (allow h.limit agent_report token now (backend.report_spacing p)).0;
              })
              (backend.ingest_report token p h.store))
      ]

  report_refused :
      (now : ℕ) (token : String) (p : P) (h : Handler S)
      → allow h.limit agent_report token now (backend.report_spacing p) ≡ (h.limit, false)
      → report backend token now (some p) h ≡ (too_often, h)
  unfolding report
  report_refused now token p h e = rw e refl

  report_allowed :
      (now : ℕ) (token : String) (p : P) (h : Handler S)
      → (report backend token now (some p) h).0 ≢ too_often
      → (allow h.limit agent_report token now (backend.report_spacing p)).1 ≡ true
  report_allowed now token p h answered =
      elim (Bool-cases (allow h.limit agent_report token now (backend.report_spacing p)).1) [
        | inl due ↦ due
        | inr early ↦ absurd (answered (report_too_often now token p h early))
      ]

  -- From a table of calls without duplicates that has room for one more on: after a report that is not
  -- answered 429, a report of the same token, which the store still knows, before its spacing has
  -- passed is answered 429 and changes nothing: neither the store nor the table of calls.
  pub handle_v2_rpc_paced :
      (t now : ℕ) (token : String) (p p' : P) (r r' : Call I P) (h : Handler S)
      → IsPaced h.limit
      → length h.limit + 1 ≤ max_paced_tokens
      → Reports token p r h.store
      → (handle_v2_rpc backend headers t r h).0 ≢ too_often
      → Reports token p' r' (handle_v2_rpc backend headers t r h).1.store
      → now < t + backend.report_spacing p'
      → handle_v2_rpc backend headers now r' (handle_v2_rpc backend headers t r h).1
        ≡ (too_often, (handle_v2_rpc backend headers t r h).1)
  unfolding run
  handle_v2_rpc_paced t now token p p' r r' h paced room first answered again early =
      let e = handle_report t token p r h first in
      let allowed = report_allowed t token p h (λ o. answered (ap (λ x. x.0) e ∙ o)) in
      let limit = ap (λ x. x.1.limit) e ∙ report_limit t token p h in
      let spaced =
        allow-run_spaced h.limit agent_report token t (backend.report_spacing p) now
          (backend.report_spacing p') [] paced allowed tt (omega (arith, room)) early in
      handle_report now token p' r' (handle_v2_rpc backend headers t r h).1 again
      ∙ report_refused now token p' (handle_v2_rpc backend headers t r h).1 (
          ap (λ l. allow l agent_report token now (backend.report_spacing p')) limit
          ∙ spaced
          ∙ ap (λ l. (l, false)) (sym limit))

-- ===== src/Rpc/Dispatch.antt =====
-- `HandleV2RPC` of internal/server/rpc_handler.go. What it uses of the store is a record of
-- operations on a type `S` of states; a request comes with its body read and decoded, `I` and `P`
-- being the decoded basic information and report. One request is handled after the other.
use text.Mathlib.Text.{◌==◌ as str_eq}
use vibemonitor.Prelude.{ℕ, Bool, not, ◌||◌, List, String, Option, none, some, if◌then◌else◌}
use vibemonitor.Prelude.Int.{ℤ, negsuc}
use vibemonitor.Store.Queue.{Target}
use vibemonitor.Limits.Pacing.{Paced, allow, basic_info_spacing}

-- strings.TrimSpace, and what follows "Bearer " in a text that begins so.
pub record Headers : Type 0 where
  pub trim_space : String → String
  pub after_bearer : String → Option String

-- The methods of pkg/protocol/v2.go
abbrev pub agent_report : String
agent_report = "agent.report"

abbrev pub agent_basic_info : String
agent_basic_info = "agent.basicInfo"

abbrev pub agent_ping_result : String
agent_ping_result = "agent.pingResult"

abbrev pub agent_pull : String
agent_pull = "agent.pull"

-- `Authorization` and `X-Token` of a request, "" for none.
unfoldable pub token_of : Headers → Option String → String → String
token_of headers (some rest) x = headers.trim_space rest
token_of headers none x = if str_eq x "" then "" else headers.trim_space x

unfoldable pub extract_token : Headers → String → String → String
unfolding token_of
extract_token headers authorization x = token_of headers (headers.after_bearer authorization) x

-- The body: the status of the error that reading it gave, no JSON, or a request.
pub data Body (I P : Type 0) : Type 0 where
  unread : ℕ → Body I P
  unparsed : Body I P
  called : (method : String) (info : Option I) (report : Option P) → Body I P

pub record Call (I P : Type 0) : Type 0 where
  pub is_post : Bool
  pub token_in_url : Bool
  pub authorization : String
  pub x_token : String
  pub body : Body I P

-- The answers, with what they carry. `refused` is an error of the store.
pub data Reply : Type 0 where
  method_not_allowed : Reply
  token_refused : Reply
  invalid_token : Reply
  body_unread : ℕ → Reply
  parse_error : Reply
  invalid_params : Reply
  too_often : Reply
  refused : String → Reply
  accepted : (targets : List Target) (epoch : String) → Reply
  pulled : Reply
  noted : Reply
  ignored : Reply

-- The status of an answer, and its JSON-RPC error code.
abbrev pub status : Reply → ℕ
status method_not_allowed = 405
status token_refused = 401
status invalid_token = 401
status (body_unread code) = code
status parse_error = 400
status invalid_params = 200
status too_often = 429
status (refused error) = 401
status (accepted targets epoch) = 200
status pulled = 200
status noted = 200
status ignored = 200

abbrev pub error_code : Reply → Option ℤ
error_code token_refused = some (negsuc 31999)
error_code invalid_token = some (negsuc 31999)
error_code (body_unread code) = some (negsuc 32699)
error_code parse_error = some (negsuc 32699)
error_code invalid_params = some (negsuc 32601)
error_code too_often = some (negsuc 31999)
error_code (refused error) = some (negsuc 31999)
error_code _ = none

-- What the handler calls of the store. An ingestion gives the node's id, or an error.
pub record Backend (S I P : Type 0) : Type 0 where
  pub knows_token : String → S → Bool
  pub ingest_basic_info : String → I → S → S × (Option String × String)
  pub ingest_report : String → P → S → S × (Option String × String)
  pub node_targets : String → S → List Target
  pub report_spacing : P → ℕ

-- `RPCHandler`, with its store.
pub record Handler (S : Type 0) : Type 0 where
  pub store : S
  pub limit : Paced
  pub identity_epoch : String

module _ {S I P : Type 0} (backend : Backend S I P) where
  -- The end of an accepted call: an error, or the node's targets.
  unfoldable pub conclude : Handler S → S × (Option String × String) → Reply × Handler S
  conclude h (store, (some error, uuid)) = (refused error, record h { store = store })
  conclude h (store, (none, uuid)) =
      (accepted (backend.node_targets uuid store) h.identity_epoch, record h { store = store })

  unfoldable pub basic_info : String → ℕ → Option I → Handler S → Reply × Handler S
  unfolding conclude
  basic_info token now none h = (invalid_params, h)
  basic_info token now (some info) h =
      let paced = allow h.limit agent_basic_info token now basic_info_spacing in
      let h' = record h { limit = paced.0 } in
      if paced.1
      then conclude h' (backend.ingest_basic_info token info h.store)
      else (too_often, h')

  unfoldable pub report : String → ℕ → Option P → Handler S → Reply × Handler S
  unfolding conclude
  report token now none h = (invalid_params, h)
  report token now (some params) h =
      let paced = allow h.limit agent_report token now (backend.report_spacing params) in
      let h' = record h { limit = paced.0 } in
      if paced.1 then conclude h' (backend.ingest_report token params h.store) else (too_often, h')

  -- The `switch`
  unfoldable pub call_method :
      String → String → ℕ → Option I → Option P → Handler S → Reply × Handler S
  unfolding basic_info report
  call_method method token now info params h =
      if str_eq method agent_basic_info
      then basic_info token now info h
      else if str_eq method agent_report
      then report token now params h
      else if str_eq method agent_pull
      then (pulled, h)
      else if str_eq method agent_ping_result
      then (noted, h)
      else (ignored, h)

  unfoldable pub handle_body : String → ℕ → Body I P → Handler S → Reply × Handler S
  unfolding call_method
  handle_body token now (unread code) h = (body_unread code, h)
  handle_body token now unparsed h = (parse_error, h)
  handle_body token now (called method info params) h = call_method method token now info params h

  -- `HandleV2RPC`
  unfoldable pub handle_v2_rpc : Headers → ℕ → Call I P → Handler S → Reply × Handler S
  unfolding extract_token handle_body
  handle_v2_rpc headers now r h =
      let token = extract_token headers r.authorization r.x_token in
      if not r.is_post
      then (method_not_allowed, h)
      else if r.token_in_url
      then (token_refused, h)
      else if str_eq token "" || not (backend.knows_token token h.store)
      then (invalid_token, h)
      else handle_body token now r.body h

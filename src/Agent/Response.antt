-- ===== src/Agent/Response.antt =====
-- `readRPCResponse` of internal/agent/rpc_response.go. The body is given whole, or not at all if
-- reading it fails; `decode` is json.Unmarshal into protocol.Response,
-- which gives the text of its error where it fails.
use vibemonitor.Prelude.{
  ℕ, ◌+◌, Bool, true, false, List, Option, none, some, ◌⊎◌, inl, inr, if◌then◌else◌, ltb, ◌==◌,
  length, take,
}
use vibemonitor.Prelude.Int.{ℤ}

abbrev pub max_rpc_response_bytes : ℕ
max_rpc_response_bytes = 1048576

abbrev pub max_rpc_error_bytes : ℕ
max_rpc_error_bytes = 4096

-- `http.StatusOK`
abbrev pub status_ok : ℕ
status_ok = 200

abbrev pub Bytes : Type 0
Bytes = List ℕ

-- `RPCError`
pub record RpcError : Type 0 where
  pub code : ℤ
  pub message : Bytes

-- `Response`, with what it carries as its result
pub record Response (R : Type 0) : Type 0 where
  pub result : R
  pub error : Option RpcError

-- The errors, with the bytes of the server that their texts repeat, and whether these were cut.
pub data Failure : Type 0 where
  unread : Failure
  bad_status : (status : ℕ) (body : Bytes) (truncated : Bool) → Failure
  too_large : Failure
  undecodable : (text : Bytes) → Failure
  rpc_failed : (code : ℤ) (message : Bytes) (truncated : Bool) → Failure

pub data Answer (R : Type 0) : Type 0 where
  refused : Failure → Answer R
  answered : Response R → Answer R

-- `io.ReadAll(io.LimitReader(body, limit+1))`
abbrev pub read_limited : ℕ → Bytes → Bytes
read_limited limit body = take (limit + 1) body

module _ {R : Type 0} (decode : Bytes → Bytes ⊎ Response R) where
  unfoldable pub accept_response : Response R → Option RpcError → Answer R
  accept_response response none = answered response
  accept_response response (some e) =
      if ltb max_rpc_error_bytes (length e.message)
      then refused (rpc_failed e.code (take max_rpc_error_bytes e.message) true)
      else refused (rpc_failed e.code e.message false)

  unfoldable pub accept_decoded : Bytes ⊎ Response R → Answer R
  unfolding accept_response
  accept_decoded (inl text) = refused (undecodable text)
  accept_decoded (inr response) = accept_response response response.error

  -- The two halves, on the bytes read.
  unfoldable pub bad_answer : ℕ → Bytes → Answer R
  bad_answer status body =
      if ltb max_rpc_error_bytes (length body)
      then refused (bad_status status (take max_rpc_error_bytes body) true)
      else refused (bad_status status body false)

  unfoldable pub good_answer : Bytes → Answer R
  unfolding accept_decoded
  good_answer body =
      if ltb max_rpc_response_bytes (length body)
      then refused too_large
      else accept_decoded (decode body)

  unfoldable pub read_rpc_response : ℕ → Option Bytes → Answer R
  unfolding bad_answer good_answer
  read_rpc_response status none = refused unread
  read_rpc_response status (some whole) =
      if status == status_ok
      then good_answer (read_limited max_rpc_response_bytes whole)
      else bad_answer status (read_limited max_rpc_error_bytes whole)

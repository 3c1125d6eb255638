-- ===== src/Agent/ErrorLog.antt =====
-- `repeatedErrorLog` of internal/agent/rpc_response.go.
use text.Mathlib.Text.{◌==◌ as str_eq}
use vibemonitor.Prelude.{
  ℕ, ◌+◌, ◌*◌, Bool, not, ◌&&◌, String, Option, none, some, if◌then◌else◌, ltb,
}
use vibemonitor.Prelude.Clock.{second, is_zero, sub_lt}

abbrev pub error_log_interval : ℕ
error_log_interval = 30 * second

pub record ErrorLog : Type 0 where
  pub last : String
  pub last_at : ℕ
  pub suppressed : ℕ

-- What a message that is shown says: the error, and how many like it were kept back.
pub record Shown : Type 0 where
  pub error : String
  pub kept_back : ℕ

abbrev pub no_errors : ErrorLog
no_errors = record { last = ""; last_at = 0; suppressed = 0 }

-- The first test of `message`
unfoldable pub keeps_back : String → ℕ → ErrorLog → Bool
keeps_back error now l =
    str_eq error l.last && not (is_zero l.last_at) && sub_lt now l.last_at error_log_interval

unfoldable pub log_message : String → ℕ → ErrorLog → ErrorLog × Option Shown
unfolding keeps_back
log_message error now l =
    if keeps_back error now l then (record l { suppressed = l.suppressed + 1 }, none) else (
      record { last = error; last_at = now; suppressed = 0 },
      some (record {
        error = error;
        kept_back = if str_eq error l.last && ltb 0 l.suppressed then l.suppressed else 0;
      }),
    )

-- `reset`
abbrev pub reset_log : ErrorLog → ErrorLog
reset_log l = no_errors

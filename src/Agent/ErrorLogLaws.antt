-- ===== src/Agent/ErrorLogLaws.antt =====
-- What `repeatedErrorLog` of internal/agent/rpc_response.go shows.
use text.Mathlib.Text.{◌==◌ as str_eq}
use text.Mathlib.TextEquality.{eq_iff}
use vibemonitor.Prelude.{
  ℕ, suc, ◌+◌, ◌<◌, ◌≡◌, ◌≢◌, refl, sym, Bool, true, false, List, [], ◌∷◌, String, Option, none,
  some, length, arith, is_some, Bool-cases, &&-true, ◌&&◌, if◌then◌else◌, ltb, inl, inr, ◌⊎◌,
}
use vibemonitor.Agent.ErrorLog.{ErrorLog, Shown, error_log_interval, keeps_back, log_message}

-- One failure after the other, of one text, at the given times: what is shown, the newest first.
pub record Told : Type 0 where
  pub log : ErrorLog
  pub shown : List Shown

abbrev add_shown : Option Shown → List Shown → List Shown
add_shown none shown = shown
add_shown (some s) shown = s ∷ shown

unfoldable pub tell : String → List ℕ → Told → Told
tell error [] t = t
tell error (now ∷ times) t =
    let r = log_message error now t.log in
    tell error times (record { log = r.0; shown = add_shown r.1 t.shown })

-- Each message shown stands for itself and for those that it says were kept back.
abbrev pub told_of : List Shown → ℕ
told_of [] = 0
told_of (s ∷ shown) = suc s.kept_back + told_of shown

keeps_back-same :
    (error : String) (now : ℕ) (l : ErrorLog)
    → keeps_back error now l ≡ true
    → (error ≡ l.last) × (l.last_at ≢ 0) × (now < l.last_at + error_log_interval)
unfolding keeps_back
keeps_back-same error now l h = (
  (eq_iff error l.last).0 (&&-true _ _ (&&-true _ _ h).0).0,
  ground (arith, h),
  ground (arith, h),
)

all_kept : (b : Bool) (n : ℕ) → (b ≡ true) ⊎ (n ≡ 0) → (if b && ltb 0 n then n else 0) ≡ n
all_kept b n h = ground (arith, h)

log_message-counts :
    (error : String) (now : ℕ) (l : ErrorLog) (shown : List Shown)
    → ((l.last ≡ error) ⊎ (l.suppressed ≡ 0))
    → ((log_message error now l).0.last ≡ error)
      × (told_of (add_shown (log_message error now l).1 shown)
            + (log_message error now l).0.suppressed
          ≡ suc (told_of shown + l.suppressed))
unfolding log_message
log_message-counts error now l shown h = elim (Bool-cases (keeps_back error now l)) [
  | inl kept ↦ rw (kept, log_message) (sym (keeps_back-same error now l kept).0, omega arith)
  | inr out ↦
      rw (out, log_message)
        (
          refl,
          omega (
            arith,
            all_kept (str_eq error l.last) l.suppressed (elim h [
              | inl same ↦ inl ((eq_iff error l.last).1 (sym same))
              | inr nothing ↦ inr nothing
            ]),
          ),
        )
]

-- Failures with one text, at any times, are all accounted for: those shown, those that they say were
-- kept back, and those kept back since are as many as there were.
tell-counts :
    (error : String) (times : List ℕ) (t : Told)
    → ((t.log.last ≡ error) ⊎ (t.log.suppressed ≡ 0))
    → told_of (tell error times t).shown + (tell error times t).log.suppressed
      ≡ told_of t.shown + t.log.suppressed + length times
unfolding tell
tell-counts error [] t h = omega arith
tell-counts error (now ∷ times) t h =
    let (same, one) = log_message-counts error now t.log t.shown h in
    let next : Told = record {
      log = (log_message error now t.log).0;
      shown = add_shown (log_message error now t.log).1 t.shown;
    } in
    let rest : told_of (tell error (now ∷ times) t).shown
          + (tell error (now ∷ times) t).log.suppressed
        ≡ told_of next.shown + next.log.suppressed + length times =
      tell-counts error times next (inl same) in
    omega (arith, one, rest)

-- A failure with another text than the last one, or the first after a success, is shown; and one
-- that is not shown comes within thirty seconds of one with its text that was.
log_message-shown :
    (error : String) (now : ℕ) (l : ErrorLog)
    → is_some (log_message error now l).1 ≡ false
    → (l.last ≡ error)
      × (l.last_at ≢ 0)
      × (now < l.last_at + error_log_interval)
      × ((log_message error now l).0.last_at ≡ l.last_at)
unfolding log_message
log_message-shown error now l h = elim (Bool-cases (keeps_back error now l)) [
  | inl kept ↦
      let (same, started, soon) = keeps_back-same error now l kept in
      (sym same, started, soon, rw (kept, log_message) refl)
  | inr out ↦ absurd (let e = (rw (out, log_message) at h) in cc)
]

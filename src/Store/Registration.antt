-- ===== src/Store/Registration.antt =====
-- The registration window of internal/store/registration.go. The two fields of the configuration
-- change under both mutexes, so each method is one step; times are Unix seconds, and `until.Unix()`
-- is `now.Unix()` plus whole minutes. `key` is what `GenerateToken` drew, `saved` whether the
-- configuration was committed.
use text.Mathlib.Text.{◌==◌ as str_eq}
use vibemonitor.Prelude.{
  ℕ, ◌+◌, ◌*◌, ◌<◌, ◌≡◌, refl, Bool, true, false, ◌||◌, String, Option, none, some, if◌then◌else◌,
  leb, ltb, arith,
}
use vibemonitor.Prelude.Int.{ℤ, pos, pos_part, ltb_ℤ}

abbrev pub default_registration_minutes : ℕ
default_registration_minutes = 60

abbrev pub max_registration_minutes : ℕ
max_registration_minutes = 24 * 60

pub record Window : Type 0 where
  pub auto_discovery_key : String
  pub register_until : ℕ

-- The two `if`s on the minutes.
unfoldable pub window_minutes : ℤ → ℕ
window_minutes minutes =
    let asked = if ltb_ℤ (pos 0) minutes then pos_part minutes else default_registration_minutes in
    if ltb max_registration_minutes asked then max_registration_minutes else asked

-- The window after `OpenRegistrationContext`, and the key that it returns; `none` is an error.
unfoldable pub open_registration : ℤ → String → ℕ → Bool → Window → Window × Option String
open_registration minutes key now saved w =
    if saved
    then (
      record { auto_discovery_key = key; register_until = now + window_minutes minutes * 60 },
      some key,
    )
    else (w, none)

-- `CloseRegistrationContext`; `false` is an error.
unfoldable pub close_registration : Bool → Window → Window × Bool
close_registration saved w =
    if saved then (record { auto_discovery_key = ""; register_until = 0 }, true) else (w, false)

-- `RegistrationOpen`
unfoldable pub registration_open : ℕ → Window → Option String
registration_open now w =
    if str_eq w.auto_discovery_key "" || leb w.register_until now
    then none
    else some w.auto_discovery_key

-- A window opened with a committed configuration accepts its own key and no other, within a day of
-- its opening only, whatever was open before and however many minutes were asked for.
pub registration_open_bounds :
    (minutes : ℤ) (key accepted : String) (now later : ℕ) (w : Window)
    → registration_open later (open_registration minutes key now true w).0 ≡ some accepted
    → (accepted ≡ key) × (later < now + 86400)
unfolding registration_open open_registration window_minutes
registration_open_bounds minutes key accepted now later w h = ground (arith, h)

-- Once the window is closed and saved, no key is accepted at any time.
registration_open-close_registration :
    (now : ℕ) (w : Window) → registration_open now (close_registration true w).0 ≡ none
unfolding registration_open close_registration
registration_open-close_registration now w = refl

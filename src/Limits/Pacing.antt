-- ===== src/Limits/Pacing.antt =====
-- `rpcLimiter` of internal/server/rpc_limit.go. `last` is the map of last accepted calls; the
-- mutex is held for a whole method, so a method is one step. A method gets the clock it reads
-- as the argument `now`.
use Prim.Native.String.{◌++◌ as str_append}
use vibemonitor.Prelude.{
  ℕ, ◌*◌, Bool, true, false, List, String, Option, none, some, if◌then◌else◌, ltb, leb, length, not,
}
use vibemonitor.Prelude.Assoc.{String_discrete, lookup, insert, retain}
use vibemonitor.Prelude.Clock.{millisecond, second, minute, sub_lt, sub_ge}
use vibemonitor.Limits.Oldest.{drop_oldest}

abbrev pub max_paced_tokens : ℕ
max_paced_tokens = 4096

abbrev pub paced_entry_ttl : ℕ
paced_entry_ttl = 10 * minute

abbrev pub min_report_spacing : ℕ
min_report_spacing = 50 * millisecond

abbrev pub max_report_spacing : ℕ
max_report_spacing = 30 * second

abbrev pub basic_info_spacing : ℕ
basic_info_spacing = second

-- Keys and the instants of the last accepted calls.
abbrev pub Paced : Type 0
Paced = List (String × ℕ)

unfoldable pub pacing_key : String → String → String
pacing_key method token = str_append method (str_append "\0" token)

-- `pruneExpiredLocked`
unfoldable pub prune_expired : ℕ → Paced → Paced
prune_expired now last = retain (λ _ t. not (sub_ge now t paced_entry_ttl)) last

-- `dropOldestLocked`
abbrev pub drop_oldest_call : Paced → Paced
drop_oldest_call = drop_oldest (λ t. t)

-- The branch of `allow` on a key not seen before.
unfoldable pub make_room : ℕ → Paced → Paced
make_room now last =
    if leb max_paced_tokens (length last)
    then (let pruned = prune_expired now last in
        if leb max_paced_tokens (length pruned) then drop_oldest_call pruned else pruned)
    else last

-- `allow`, once its key is made: a call on a key that was last accepted at `previous`.
unfoldable pub allow_key : String → ℕ → ℕ → Paced → Option ℕ → Paced × Bool
allow_key key now spacing last none = (insert String_discrete key now (make_room now last), true)
allow_key key now spacing last (some previous) =
    if sub_lt now previous spacing
    then (last, false)
    else (insert String_discrete key now last, true)

unfoldable pub allow : Paced → String → String → ℕ → ℕ → Paced × Bool
allow last method token now spacing =
    let key = pacing_key method token in
    allow_key key now spacing last (lookup String_discrete key last)

-- `reportSpacing`. A declared interval is a float64; `in_range` is the test
-- `intervalSeconds > 0 && intervalSeconds < 1e9`, and `half` the conversion
-- `time.Duration(intervalSeconds * float64(time.Second) / 2)`.
module _ {F : Type 0} (in_range : F → Bool) (half : F → ℕ) where
  unfoldable pub raised_spacing : F → ℕ
  raised_spacing interval =
      if in_range interval
      then (if ltb min_report_spacing (half interval) then half interval else min_report_spacing)
      else min_report_spacing

  unfoldable pub report_spacing : F → ℕ
  unfolding raised_spacing
  report_spacing interval =
      if ltb max_report_spacing (raised_spacing interval)
      then max_report_spacing
      else raised_spacing interval

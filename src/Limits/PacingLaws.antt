-- ===== src/Limits/PacingLaws.antt =====
-- What the pacing table of internal/server/rpc_limit.go guarantees.
use vibemonitor.Prelude.{
  ℕ, suc, ◌∙◌, ◌+◌, ◌≤◌, ◌<◌, ◌≡◌, refl, ◌≢◌, Bool, true, false, List, [], ◌∷◌, String, Option,
  none, some, length, arith, Bool-cases, inl, inr, not, All,
}
use vibemonitor.Prelude.Assoc.{
  String_discrete, Distinct, lookup, insert, retain, length-insert, insert-Distinct,
  length-retain-le, retain-Distinct, lookup-insert_self, lookup-insert_ne, lookup-retain,
}
use vibemonitor.Prelude.Clock.{sub_lt, sub_ge}
use vibemonitor.Limits.Oldest.{length-drop_oldest, drop_oldest-Distinct}
use vibemonitor.Limits.Pacing.{
  Paced, max_paced_tokens, paced_entry_ttl, min_report_spacing, max_report_spacing, pacing_key,
  prune_expired, make_room, allow_key, allow, report_spacing,
}

-- The table is within its bound, and no key stands twice.
pub record IsPaced (last : Paced) : Type 0 where
  pub bounded : length last ≤ max_paced_tokens
  pub distinct : Distinct String_discrete last

make_room-bounded :
    (now : ℕ) (last : Paced)
    → length last ≤ max_paced_tokens
    → length (make_room now last) < max_paced_tokens
unfolding make_room prune_expired
make_room-bounded now last h = ground (
  arith,
  length-drop_oldest {V = ℕ} (λ t. t) (prune_expired now last),
  length-retain-le (λ (_ : String) t. not (sub_ge now t paced_entry_ttl)) last,
)

make_room-Distinct :
    (now : ℕ) (last : Paced)
    → Distinct String_discrete last
    → Distinct String_discrete (make_room now last)
unfolding make_room prune_expired
make_room-Distinct now last d = ground (
  arith,
  retain-Distinct String_discrete (λ _ t. not (sub_ge now t paced_entry_ttl)) last d,
  drop_oldest-Distinct {V = ℕ} (λ t. t) (retain (λ _ t. not (sub_ge now t paced_entry_ttl)) last),
)

-- The key is recorded, whichever entries were dropped to make room.
insert-IsPaced :
    (key : String) (now : ℕ) (last : Paced)
    → length last < max_paced_tokens
    → Distinct String_discrete last
    → IsPaced (insert String_discrete key now last)
insert-IsPaced key now last room d = record {
  bounded = ground (arith, length-insert String_discrete key now last);
  distinct = insert-Distinct String_discrete key now last d;
}

reinsert-IsPaced :
    (key : String) (now previous : ℕ) (last : Paced)
    → lookup String_discrete key last ≡ some previous
    → IsPaced last
    → IsPaced (insert String_discrete key now last)
reinsert-IsPaced key now previous last seen h = record {
  bounded = ground (arith, length-insert String_discrete key now last);
  distinct = insert-Distinct String_discrete key now last h.distinct;
}

allow_key-IsPaced :
    (key : String) (now spacing : ℕ) (last : Paced) (previous : Option ℕ)
    → lookup String_discrete key last ≡ previous
    → IsPaced last
    → IsPaced (allow_key key now spacing last previous).0
unfolding allow_key
allow_key-IsPaced key now spacing last none e h =
    insert-IsPaced key now (make_room now last) (make_room-bounded now last h.bounded)
      (make_room-Distinct now last h.distinct)
allow_key-IsPaced key now spacing last (some previous) e h =
    elim (Bool-cases (sub_lt now previous spacing)) [
      | inl early ↦ rw early h
      | inr due ↦ rw due (reinsert-IsPaced key now previous last e h)
    ]

-- Every call keeps the table within its 4096 entries and free of duplicate keys, whatever its
-- method, token, clock and spacing.
allow-IsPaced :
    (last : Paced) (method token : String) (now spacing : ℕ)
    → IsPaced last
    → IsPaced (allow last method token now spacing).0
unfolding allow
allow-IsPaced last method token now spacing h =
    allow_key-IsPaced (pacing_key method token) now spacing last _ refl h

-- A first call is never refused, not even when the table is full of live entries: it is accepted,
-- and its time is on record.
allow_unseen :
    (last : Paced) (method token : String) (now spacing : ℕ)
    → lookup String_discrete (pacing_key method token) last ≡ none
    → ((allow last method token now spacing).1 ≡ true)
      × (lookup String_discrete (pacing_key method token) (allow last method token now spacing).0
          ≡ some now)
unfolding allow allow_key
allow_unseen last method token now spacing unseen =
    rw unseen (refl, lookup-insert_self String_discrete _ now _)

-- What other requests and the pruning timer do to the table.
pub data Event : Type 0 where
  call : (method token : String) (now spacing : ℕ) → Event
  prune : (now : ℕ) → Event

unfoldable pub step : Event → Paced → Paced
step (call method token now spacing) last = (allow last method token now spacing).0
step (prune now) last = prune_expired now last

unfoldable pub run : List Event → Paced → Paced
run [] last = last
run (e ∷ es) last = run es (step e last)

-- An event that is not about the key, and no pruning that the entry of time `t` outlives.
abbrev pub Unrelated : String → ℕ → Event → Type 0
Unrelated key t (call method token now spacing) = pacing_key method token ≢ key
Unrelated key t (prune now) = now < t + paced_entry_ttl

-- The table as it is while it has room: `left` more keys fit.
record Holds (key : String) (t left : ℕ) (last : Paced) : Type 0 where
  distinct : Distinct String_discrete last
  held : lookup String_discrete key last ≡ some t
  room : length last + left ≤ max_paced_tokens

make_room_id : (now : ℕ) (last : Paced) → length last < max_paced_tokens → make_room now last ≡ last
unfolding make_room
make_room_id now last h = ground arith

insert-Holds :
    (key other : String) (t now left : ℕ) (last : Paced)
    → other ≢ key
    → Holds key t (suc left) last
    → Holds key t left (insert String_discrete other now last)
insert-Holds key other t now left last ne h = record {
  distinct = insert-Distinct String_discrete other now last h.distinct;
  held = lookup-insert_ne String_discrete key other now last ne ∙ h.held;
  room = ground (arith, length-insert String_discrete other now last);
}

allow_key-Holds :
    (key other : String) (t now spacing left : ℕ) (last : Paced) (previous : Option ℕ)
    → lookup String_discrete other last ≡ previous
    → other ≢ key
    → Holds key t (suc left) last
    → Holds key t left (allow_key other now spacing last previous).0
unfolding allow_key
allow_key-Holds key other t now spacing left last none e ne h =
    rw (make_room_id now last (omega arith)) (insert-Holds key other t now left last ne h)
allow_key-Holds key other t now spacing left last (some previous) e ne h =
    elim (Bool-cases (sub_lt now previous spacing)) [
      | inl early ↦ rw early (record { distinct = h.distinct; held = h.held; room = omega arith })
      | inr due ↦ rw due (insert-Holds key other t now left last ne h)
    ]

step-Holds :
    (key : String) (t left : ℕ) (e : Event) (last : Paced)
    → Unrelated key t e
    → Holds key t (suc left) last
    → Holds key t left (step e last)
unfolding step allow prune_expired
step-Holds key t left (call method token now spacing) last u h =
    allow_key-Holds key _ t now spacing left last _ refl u h
step-Holds key t left (prune now) last u h = record {
  distinct = retain-Distinct String_discrete _ last h.distinct;
  held =
      ground (
        arith,
        lookup-retain String_discrete (λ _ s. not (sub_ge now s paced_entry_ttl)) key t last,
      );
  room = omega (arith, length-retain-le (λ _ s. not (sub_ge now s paced_entry_ttl)) last);
}

run-Holds :
    (key : String) (t : ℕ) (es : List Event) (last : Paced)
    → All (Unrelated key t) es
    → Holds key t (length es) last
    → lookup String_discrete key (run es last) ≡ some t
unfolding run
run-Holds key t [] last u h = h.held
run-Holds key t (e ∷ es) last u h =
    run-Holds key t es (step e last) u.1 (step-Holds key t (length es) e last u.0 h)

first_Holds :
    (key : String) (t left : ℕ) (last : Paced)
    → IsPaced last
    → length last + 1 + left ≤ max_paced_tokens
    → Holds key t left (insert String_discrete key t last)
first_Holds key t left last h room = record {
  distinct = insert-Distinct String_discrete key t last h.distinct;
  held = lookup-insert_self String_discrete key t last;
  room = ground (arith, length-insert String_discrete key t last);
}

accepted_Holds :
    (key : String) (t first left : ℕ) (last : Paced) (previous : Option ℕ)
    → lookup String_discrete key last ≡ previous
    → IsPaced last
    → length last + 1 + left ≤ max_paced_tokens
    → (allow_key key t first last previous).1 ≡ true
    → Holds key t left (allow_key key t first last previous).0
unfolding allow_key
accepted_Holds key t first left last none e h room accepted =
    rw (make_room_id t last (omega arith)) (first_Holds key t left last h room)
accepted_Holds key t first left last (some previous) e h room accepted =
    elim (Bool-cases (sub_lt t previous first)) [
      | inl early ↦ absurd (ground arith)
      | inr due ↦ rw due (first_Holds key t left last h room)
    ]

refused :
    (last : Paced) (key : String) (t now spacing : ℕ)
    → now < t + spacing
    → allow_key key now spacing last (some t) ≡ (last, false)
unfolding allow_key
refused last key t now spacing early = ground arith

-- Once a call of a key is accepted at time `t`, another call of that key before `t + spacing` is
-- refused and changes nothing, whatever calls of other keys and prunings came between, as long as
-- the prunings come within the entry's ten minutes and the table has room for those keys.
pub allow-run_spaced :
    (last : Paced) (method token : String) (t first now spacing : ℕ) (es : List Event)
    → IsPaced last
    → (allow last method token t first).1 ≡ true
    → All (Unrelated (pacing_key method token) t) es
    → length last + 1 + length es ≤ max_paced_tokens
    → now < t + spacing
    → allow (run es (allow last method token t first).0) method token now spacing
      ≡ (run es (allow last method token t first).0, false)
unfolding allow
allow-run_spaced last method token t first now spacing es h accepted u room early =
    let key = pacing_key method token in
    let start = accepted_Holds key t first (length es) last _ refl h (omega arith) accepted in
    rw (run-Holds key t es _ u start) (refused _ key t now spacing early)

-- The spacing that a declared interval gets lies between the floor and the cap.
report_spacing_bounds :
    {F : Type 0} (in_range : F → Bool) (half : F → ℕ) (interval : F)
    → (min_report_spacing ≤ report_spacing in_range half interval)
      × (report_spacing in_range half interval ≤ max_report_spacing)
unfolding report_spacing
report_spacing_bounds in_range half interval = ground arith

-- ===== src/Alerts/DeliveryLaws.antt =====
-- How often `deliver` of internal/server/telegram.go calls the sender, and what a failure costs.
use vibemonitor.Prelude.{
  ℕ, zero, suc, ◌+◌, ◌-◌, ◌*◌, ◌^◌, ◌≤◌, ◌<◌, ◌≡◌, ◌≢◌, refl, ap, sym, ◌⊎◌, inl, inr, ◌∙◌, Bool,
  true, false, List, [], ◌∷◌, String, none, min, value_or, arith, All,
}
use mathlib.Core.Path.{subst}
use vibemonitor.Prelude.Assoc.{
  String_discrete, lookup, delete, lookup-insert_self, lookup-delete_self, lookup-insert_ne,
  lookup-delete_ne,
}
use vibemonitor.Prelude.Clock.{second}
use vibemonitor.Alerts.Delivery.{Retry, Retries, no_retry, retry_of, delay, failed, deliver}

two_pow : (n : ℕ) → 1 ≤ 2 ^ n
two_pow zero = omega arith
two_pow (suc n) = ground (arith, two_pow n)

-- Thirty seconds at first, doubled with each failure in a row, and five minutes at most.
delay-le : (failures : ℕ) → (30 ≤ delay failures) × (delay failures ≤ 300)
unfolding delay
delay-le failures = omega (arith, two_pow (min (failures - 1) 4))

deliver_waits :
    (kind : String) (now : ℕ) (sent : Bool) (table : Retries)
    → now < (retry_of kind table).next
    → deliver kind now sent table ≡ record { table = table; delivered = false; tried = false }
unfolding deliver
deliver_waits kind now sent table h = ground (arith, h)

deliver_fails :
    (kind : String) (now : ℕ) (table : Retries)
    → (retry_of kind table).next ≤ now
    → deliver kind now false table ≡ record {
      table = failed kind now (retry_of kind table) table;
      delivered = false;
      tried = true;
    }
unfolding deliver
deliver_fails kind now table h = ground (arith, h)

-- What a failed call leaves for its kind.
retry_of-failed :
    (kind : String) (now : ℕ) (table : Retries)
    → retry_of kind (failed kind now (retry_of kind table) table) ≡ record {
      failures = (retry_of kind table).failures + 1;
      next = now + delay ((retry_of kind table).failures + 1) * second;
    }
unfolding failed
retry_of-failed kind now table =
    ap (value_or no_retry) (lookup-insert_self String_discrete kind _ table)

-- What happens to the table between two calls of one kind: calls, and the deletions of an entry in
-- internal/server/telegram_ping.go.
pub data Step : Type 0 where
  call : (kind : String) (now : ℕ) (sent : Bool) → Step
  forget : (kind : String) → Step

unfoldable pub steps : List Step → Retries → Retries
steps [] table = table
steps (call kind now sent ∷ ss) table = steps ss (deliver kind now sent table).table
steps (forget kind ∷ ss) table = steps ss (delete String_discrete kind table)

-- A call of another kind, or before a time, or the deletion of another kind's entry.
abbrev pub Spares : String → ℕ → Step → Type 0
Spares kind until (call k now sent) = (k ≢ kind) ⊎ (now < until)
Spares kind until (forget k) = k ≢ kind

deliver_other :
    (kind k : String) (now : ℕ) (sent : Bool) (table : Retries)
    → k ≢ kind
    → lookup String_discrete kind (deliver k now sent table).table
      ≡ lookup String_discrete kind table
unfolding deliver failed
deliver_other kind k now sent table ne =
    let removed = lookup-delete_ne String_discrete kind k table ne in
    let retry : Retry = record {
      failures = (retry_of k table).failures + 1;
      next = now + delay ((retry_of k table).failures + 1) * second;
    } in
    let kept = lookup-insert_ne String_discrete kind k retry table ne in
    ground (arith, removed, kept)

deliver_kept :
    (kind k : String) (now : ℕ) (sent : Bool) (table : Retries)
    → now < (retry_of kind table).next
    → retry_of kind (deliver k now sent table).table ≡ retry_of kind table
deliver_kept kind k now sent table early = elim (String_discrete k kind) [
  | no ne ↦ ap (value_or no_retry) (deliver_other kind k now sent table ne)
  | yes e ↦ rw e (ap (λ d. retry_of kind d.table) (deliver_waits kind now sent table early))
]

steps_kept :
    (kind : String) (ss : List Step) (table : Retries)
    → All (Spares kind (retry_of kind table).next) ss
    → retry_of kind (steps ss table) ≡ retry_of kind table
unfolding steps
steps_kept kind [] table h = refl
steps_kept kind (call k now sent ∷ ss) table h =
    let kept : retry_of kind (deliver k now sent table).table ≡ retry_of kind table = elim h.0 [
      | inl ne ↦ ap (value_or no_retry) (deliver_other kind k now sent table ne)
      | inr early ↦ deliver_kept kind k now sent table early
    ] in
    steps_kept kind ss (deliver k now sent table).table
      (subst (λ r. All (Spares kind r.next) ss) (sym kept) h.1)
    ∙ kept
steps_kept kind (forget k ∷ ss) table h =
    let kept : retry_of kind (delete String_discrete k table) ≡ retry_of kind table =
      ap (value_or no_retry) (lookup-delete_ne String_discrete kind k table h.0) in
    steps_kept kind ss (delete String_discrete k table)
      (subst (λ r. All (Spares kind r.next) ss) (sym kept) h.1)
    ∙ kept

-- After a call of the sender that failed, no alert of the kind reaches the sender until the delay
-- of its failures in a row is over, and the table stays, as long as the kind's entry is not deleted and
-- the table not cleared: in between may come any calls of other kinds, calls of the kind before that
-- time, and deletions of other kinds' entries.
pub deliver_spaced :
    (kind : String) (now later : ℕ) (sent : Bool) (ss : List Step) (table : Retries)
    → (retry_of kind table).next ≤ now
    → All (Spares kind (now + delay ((retry_of kind table).failures + 1) * second)) ss
    → later < now + delay ((retry_of kind table).failures + 1) * second
    → deliver kind later sent (steps ss (deliver kind now false table).table) ≡ record {
      table = steps ss (deliver kind now false table).table;
      delivered = false;
      tried = false;
    }
deliver_spaced kind now later sent ss table due spared early =
    let held : retry_of kind (deliver kind now false table).table ≡ record {
      failures = (retry_of kind table).failures + 1;
      next = now + delay ((retry_of kind table).failures + 1) * second;
    } =
      ap (λ d. retry_of kind d.table) (deliver_fails kind now table due)
      ∙ retry_of-failed kind now table in
    let kept =
      steps_kept kind ss (deliver kind now false table).table
        (subst (λ r. All (Spares kind r.next) ss) (sym held) spared) in
    deliver_waits kind later sent _ (omega (arith, early, ap (λ r. r.next) (kept ∙ held)))

-- A delivery clears the failures of its kind, and of no other.
deliver_clears :
    (kind other : String) (now : ℕ) (sent : Bool) (table : Retries)
    → (deliver kind now sent table).delivered ≡ true
    → kind ≢ other
    → (lookup String_discrete kind (deliver kind now sent table).table ≡ none)
      × (lookup String_discrete other (deliver kind now sent table).table
          ≡ lookup String_discrete other table)
unfolding deliver
deliver_clears kind other now sent table done ne = ground (
  arith,
  done,
  lookup-delete_self String_discrete kind table,
  lookup-delete_ne String_discrete other kind table ne,
)

-- ===== src/Alerts/StateLaws.antt =====
-- What a delivery leaves of a check (`deliver` of internal/server/telegram.go and what follows it).
use vibemonitor.Prelude.{
  ℕ, ◌≡◌, ◌≢◌, sym, ◌∙◌, no_longer, Bool, true, false, ◌∷◌, String, arith, inl, inr, ◌⊎◌,
  if◌then◌else◌, ap,
}
use vibemonitor.Alerts.Delivery.{Delivery, Retries, deliver}
use vibemonitor.Alerts.State.{
  Kind, AlertState, Moment, Work, Progress, note, deliver_then, retry_key,
}

-- A message that went out was handed to the sender.
deliver-cases :
    (key : String) (now : ℕ) (sent : Bool) (table : Retries)
    → ((deliver key now sent table).delivered ≡ false)
      ⊎ (((deliver key now sent table).delivered ≡ true)
          × ((deliver key now sent table).tried ≡ true))
unfolding deliver
deliver-cases key now sent table = ground arith

note_out :
    (k : Kind) (d : Delivery) (w : Work)
    → d.delivered ≡ true
    → d.tried ≡ true
    → (note k d w).delivered ≡ k ∷ w.delivered
unfolding note
note_out k d w out tried = ground (arith, out, tried)

note_kept :
    (k : Kind) (d : Delivery) (w : Work)
    → d.delivered ≡ false
    → (note k d w).delivered ≡ w.delivered
unfolding note
note_kept k d w kept = ground (arith, kept)

pub note-cases :
    (k : Kind) (d : Delivery) (w : Work)
    → ((note k d w).delivered ≡ w.delivered) ⊎ ((note k d w).delivered ≡ k ∷ w.delivered)
unfolding note
note-cases k d w = ground arith

-- Either the message went out and the state is marked, or neither.
pub deliver_then-cases :
    {F : Type 0} (id : String) (m : Moment) (k : Kind) (mark : AlertState F → AlertState F)
    (p : Progress F)
    → (((deliver_then id m k mark p).work.delivered ≡ k ∷ p.work.delivered)
        × ((deliver_then id m k mark p).state ≡ mark p.state))
      ⊎ (((deliver_then id m k mark p).work.delivered ≡ p.work.delivered)
          × ((deliver_then id m k mark p).state ≡ p.state))
unfolding deliver_then
deliver_then-cases id m k mark p =
    let d = deliver (retry_key id k) m.now (m.send k) p.work.table in
    elim (deliver-cases (retry_key id k) m.now (m.send k) p.work.table) [
      | inl kept ↦
          inr (note_kept k d p.work kept, ap (λ b. if b then mark p.state else p.state) kept)
      | inr (out, tried) ↦
          inl (note_out k d p.work out tried, ap (λ b. if b then mark p.state else p.state) out)
    ]

-- A message of another kind is none of this kind.
pub deliver_then_ne :
    {F : Type 0} (id : String) (m : Moment) (j k : Kind) (mark : AlertState F → AlertState F)
    (p : Progress F)
    → k ≢ j
    → (deliver_then id m k mark p).work.delivered ≢ j ∷ p.work.delivered
deliver_then_ne id m j k mark p ne h = elim (deliver_then-cases id m k mark p) [
  | inl (log, state) ↦ ne (let e = sym log ∙ h in cc)
  | inr (log, state) ↦ no_longer _ _ (sym log ∙ h)
]

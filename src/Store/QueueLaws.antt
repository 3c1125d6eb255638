-- ===== src/Store/QueueLaws.antt =====
-- The history queue of internal/store/persistence.go loses no sample and writes none twice.
use mathlib.Core.List.{append_assoc, append-nil}
use vibemonitor.Prelude.{
  ℕ, suc, ◌≤◌, ◌≡◌, refl, sym, ap, ◌∙◌, List, [], ◌∷◌, ◌++◌, arith, if◌then◌else◌, leb, length,
  keep, take, drop, keep-append, drop-append, take-append, take-length, take-append-drop,
  length-append, length-drop, Bool-cases, inl, inr,
}
use vibemonitor.Store.Queue.{
  HistorySample, Target, NodeTargets, max_pending_history_samples, enqueue_history,
  filter_history_samples, keeps, ack_history, Phase, idle, captured, committed, Queue, Move,
  enqueue, capture, roll_back, commit, acknowledge, after_capture, move_from, move, moves,
}

module _ {R : Type 0} (nodes : NodeTargets) (shared : List Target) where
  -- What the capture of a flush promises about the queue as it is now.
  abbrev Captures : List (HistorySample R) → Phase R → Type 0
  Captures pending idle = Unit
  Captures pending (captured count batch) =
      (count ≤ length pending) × (batch ≡ filter_history_samples nodes shared (take count pending))
  Captures pending (committed count) = count ≤ length pending

  -- The queue within its bound, and a flush that captured its front.
  pub record IsQueue (q : Queue R) : Type 0 where
    pub bounded : length q.pending ≤ max_pending_history_samples
    pub captures : Captures q.pending q.phase

  -- The samples that wait for a transaction.
  abbrev waiting : List (HistorySample R) → Phase R → List (HistorySample R)
  waiting pending idle = pending
  waiting pending (captured count batch) = pending
  waiting pending (committed count) = drop count pending

  -- All that was written, and what the filter keeps of what waits.
  unfoldable pub settled : Queue R → List (HistorySample R)
  settled q = q.written ++ filter_history_samples nodes shared (waiting q.pending q.phase)

  -- The samples that a move, and that a run of moves, takes into the queue.
  unfoldable pub taken : Move R → Queue R → List (HistorySample R)
  taken (enqueue sample) q = if (enqueue_history sample q.pending).1 then sample ∷ [] else []
  taken _ q = []

  unfoldable pub all_taken : List (Move R) → Queue R → List (HistorySample R)
  all_taken [] q = []
  all_taken (m ∷ ms) q = taken m q ++ all_taken ms (move nodes shared m q)

  Captures-append :
      (p : List (HistorySample R)) (s : HistorySample R) (phase : Phase R)
      → Captures p phase
      → Captures (p ++ (s ∷ [])) phase
  Captures-append p s idle h = tt
  Captures-append p s (captured count batch) h = (
    omega (arith, h.0, length-append p (s ∷ [])),
    h.1 ∙ ap (filter_history_samples nodes shared) (sym (take-append count p (s ∷ []) h.0)),
  )
  Captures-append p s (committed count) h = omega (arith, h, length-append p (s ∷ []))

  waiting-append :
      (p : List (HistorySample R)) (s : HistorySample R) (phase : Phase R)
      → Captures p phase
      → waiting (p ++ (s ∷ [])) phase ≡ waiting p phase ++ (s ∷ [])
  waiting-append p s idle h = refl
  waiting-append p s (captured count batch) h = refl
  waiting-append p s (committed count) h = drop-append count p (s ∷ []) h

  enqueue-bounded :
      (s : HistorySample R) (p : List (HistorySample R))
      → length p ≤ max_pending_history_samples
      → length (enqueue_history s p).0 ≤ max_pending_history_samples
  unfolding enqueue_history
  enqueue-bounded s p h = ground (arith, h, length-append p (s ∷ []))

  enqueue-Captures :
      (s : HistorySample R) (p : List (HistorySample R)) (phase : Phase R)
      → Captures p phase
      → Captures (enqueue_history s p).0 phase
  unfolding enqueue_history
  enqueue-Captures s p phase h = elim (Bool-cases (leb max_pending_history_samples (length p))) [
    | inl full ↦ rw full h
    | inr free ↦ rw free (Captures-append p s phase h)
  ]

  after_capture-suc :
      (n : ℕ) (batch : List (HistorySample R))
      → after_capture (suc n) batch ≡ captured (suc n) batch
  unfolding after_capture
  after_capture-suc n batch = ground arith

  capture-Captures :
      (p : List (HistorySample R))
      → Captures p (after_capture (length p) (filter_history_samples nodes shared p))
  unfolding after_capture
  capture-Captures [] = tt
  capture-Captures (s ∷ p) =
      rw (after_capture-suc (length p) (filter_history_samples nodes shared (s ∷ p)))
        (omega arith, ap (filter_history_samples nodes shared) (sym (take-length (s ∷ p))))

  move_from-IsQueue :
      (m : Move R) (p w : List (HistorySample R)) (phase : Phase R)
      → length p ≤ max_pending_history_samples
      → Captures p phase
      → IsQueue (move_from nodes shared m p w phase)
  unfolding move_from ack_history
  move_from-IsQueue (enqueue s) p w phase b h = record {
    bounded = enqueue-bounded s p b;
    captures = enqueue-Captures s p phase h;
  }
  move_from-IsQueue capture p w idle b h = record { bounded = b; captures = capture-Captures p }
  move_from-IsQueue capture p w (captured c batch) b h = record { bounded = b; captures = h }
  move_from-IsQueue capture p w (committed c) b h = record { bounded = b; captures = h }
  move_from-IsQueue roll_back p w idle b h = record { bounded = b; captures = tt }
  move_from-IsQueue roll_back p w (captured c batch) b h = record { bounded = b; captures = tt }
  move_from-IsQueue roll_back p w (committed c) b h = record { bounded = b; captures = h }
  move_from-IsQueue commit p w idle b h = record { bounded = b; captures = tt }
  move_from-IsQueue commit p w (captured c batch) b h = record { bounded = b; captures = h.0 }
  move_from-IsQueue commit p w (committed c) b h = record { bounded = b; captures = h }
  move_from-IsQueue acknowledge p w idle b h = record { bounded = b; captures = tt }
  move_from-IsQueue acknowledge p w (captured c batch) b h = record { bounded = b; captures = h }
  move_from-IsQueue acknowledge p w (committed c) b h = record {
    bounded = omega (arith, b, length-drop c p);
    captures = tt;
  }

  -- No move takes the queue over its 65536 samples, and what a flush captured stays the front of
  -- the queue until it is acknowledged.
  move-IsQueue : (m : Move R) (q : Queue R) → IsQueue q → IsQueue (move nodes shared m q)
  unfolding move
  move-IsQueue m q h = move_from-IsQueue m q.pending q.written q.phase h.bounded h.captures

  -- The same, by its parts.
  settled_parts : List (HistorySample R) → List (HistorySample R) → Phase R → List (HistorySample R)
  settled_parts p w phase = w ++ filter_history_samples nodes shared (waiting p phase)

  enqueue_settled :
      (s : HistorySample R) (p w : List (HistorySample R)) (phase : Phase R)
      → Captures p phase
      → settled_parts (enqueue_history s p).0 w phase
        ≡ settled_parts p w phase
          ++ filter_history_samples nodes shared (if (enqueue_history s p).1 then s ∷ [] else [])
  unfolding enqueue_history settled_parts filter_history_samples
  enqueue_settled s p w phase h = elim (Bool-cases (leb max_pending_history_samples (length p))) [
    | inl full ↦ rw full (sym (append-nil _))
    | inr free ↦ rw free (
        ap (λ l. w ++ keep (keeps nodes shared) l) (waiting-append p s phase h)
        ∙ ap (λ l. w ++ l) (keep-append (keeps nodes shared) (waiting p phase) (s ∷ []))
        ∙ sym (append_assoc w _ _))
  ]

  settled_capture :
      (p w : List (HistorySample R)) (batch : List (HistorySample R))
      → settled_parts p w (after_capture (length p) batch) ≡ settled_parts p w idle
  unfolding settled_parts after_capture
  settled_capture [] w batch = refl
  settled_capture (s ∷ p) w batch =
      ap (settled_parts (s ∷ p) w) (after_capture-suc (length p) batch)

  commit_settled :
      (c : ℕ) (batch p w : List (HistorySample R))
      → Captures p (captured c batch)
      → settled_parts p (w ++ batch) (committed c) ≡ settled_parts p w (captured c batch)
  unfolding settled_parts filter_history_samples
  commit_settled c batch p w h =
      append_assoc w batch _
      ∙ ap (λ l. w ++ (l ++ keep (keeps nodes shared) (drop c p))) (h.1)
      ∙ ap (λ l. w ++ l)
          (sym (keep-append (keeps nodes shared) (take c p) (drop c p))
            ∙ ap (keep (keeps nodes shared)) (take-append-drop c p))

  settled-move_from :
      (m : Move R) (p w : List (HistorySample R)) (phase : Phase R)
      → Captures p phase
      → settled (move_from nodes shared m p w phase)
        ≡ settled_parts p w phase
          ++ filter_history_samples nodes shared
              (taken m (record { pending = p; written = w; phase = phase }))
  unfolding move_from settled settled_parts taken filter_history_samples ack_history
  settled-move_from (enqueue s) p w phase h = enqueue_settled s p w phase h
  settled-move_from capture p w idle h = settled_capture p w _ ∙ sym (append-nil _)
  settled-move_from capture p w (captured c batch) h = sym (append-nil _)
  settled-move_from capture p w (committed c) h = sym (append-nil _)
  settled-move_from roll_back p w idle h = sym (append-nil _)
  settled-move_from roll_back p w (captured c batch) h = sym (append-nil _)
  settled-move_from roll_back p w (committed c) h = sym (append-nil _)
  settled-move_from commit p w idle h = sym (append-nil _)
  settled-move_from commit p w (captured c batch) h =
      commit_settled c batch p w h ∙ sym (append-nil _)
  settled-move_from commit p w (committed c) h = sym (append-nil _)
  settled-move_from acknowledge p w idle h = sym (append-nil _)
  settled-move_from acknowledge p w (captured c batch) h = sym (append-nil _)
  settled-move_from acknowledge p w (committed c) h = sym (append-nil _)

  -- Whatever reports and flushes do, committed, rolled back or still under way: what was written,
  -- followed by what the filter keeps of the waiting samples, is what was there before, followed by
  -- what it keeps of the samples taken in since, each once and in order.
  pub moves-settled :
      (ms : List (Move R)) (q : Queue R)
      → IsQueue q
      → settled (moves nodes shared ms q)
        ≡ settled q ++ filter_history_samples nodes shared (all_taken ms q)
  unfolding moves move all_taken filter_history_samples settled settled_parts
  moves-settled [] q h = sym (append-nil _)
  moves-settled (m ∷ ms) q h =
      moves-settled ms (move nodes shared m q) (move-IsQueue m q h)
      ∙ ap (λ l. l ++ keep (keeps nodes shared) (all_taken ms (move nodes shared m q)))
          (settled-move_from m q.pending q.written q.phase h.captures)
      ∙ append_assoc (settled q) _ _
      ∙ ap (λ l. settled q ++ l) (sym (keep-append (keeps nodes shared) (taken m q) _))

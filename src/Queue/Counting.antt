-- ===== src/Queue/Counting.antt =====
-- packages/workflow/src/outbox/dispatcher.ts: what a poll counts.
use mini_coder.Common.{
  ℕ, ◌+◌, ◌≡◌, refl, ◌⊎◌, inl, inr, Bool, true, false, ◌&&◌, List, [], ◌∷◌, ◌==◌, ℕ_eq, String_eq,
  arith, any, ltb, update_rows, count_rows, Bool-cases,
}
use mini_coder.Store.Rows.{QueueStatus, QueuedEvent}
use mini_coder.Queue.{
  QueueOptions, Claimed, Queue, can_claim, claim_of, claim_row, deliver, fail, has_type, is_claimed,
  is_delivered,
}
use mini_coder.Queue.Worker.{
  Handlers, Handling, Tally, add_dispatched, add_failed, conclude, dispatch_row, heartbeats,
  perform_all, run_handler,
}

abbrev pub has_failed : QueueStatus → Bool
has_failed QueueStatus.failed = true
has_failed _ = false

abbrev pub delivered_row : Claimed → QueuedEvent → Bool
delivered_row c r = r.id == c.id && is_delivered r.status

abbrev pub failed_row : Claimed → QueuedEvent → Bool
failed_row c r = r.id == c.id && (has_failed r.status && r.attempts == c.attempts + 1)

-- What a row of the batch adds to the tally, and what the table then shows.
abbrev pub Counted : Claimed → Handling → Tally → Queue × Tally → Type 0
Counted c h tally (q, tally') =
    (tally' ≡ tally)
    ⊎ ((tally' ≡ add_dispatched true tally)
        × (h.succeeds ≡ true)
        × (any (delivered_row c) q.rows ≡ true))
    ⊎ ((tally' ≡ add_failed true tally) × (h.succeeds ≡ false) × (any (failed_row c) q.rows ≡ true))

shown_delivered :
    (now : ℕ) (c : Claimed) (rows : List QueuedEvent)
    → ltb 0 (count_rows (is_claimed c) rows) ≡ true
    → any (delivered_row c) (update_rows (is_claimed c) (deliver now) rows) ≡ true
shown_delivered now c [] h = cc
shown_delivered now c (r ∷ rows) h = elim (Bool-cases (is_claimed c r)) [
  | inl hit ↦ ground (arith, hit)
  | inr miss ↦ ground (arith, miss, h, shown_delivered now c rows)
]

shown_failed :
    (options : QueueOptions) (now : ℕ) (c : Claimed) (rows : List QueuedEvent)
    → ltb 0 (count_rows (is_claimed c) rows) ≡ true
    → any (failed_row c) (update_rows (is_claimed c) (fail options now c) rows) ≡ true
shown_failed options now c [] h = cc
shown_failed options now c (r ∷ rows) h = elim (Bool-cases (is_claimed c r)) [
  | inl hit ↦ ground (arith, hit)
  | inr miss ↦ ground (arith, miss, h, shown_failed options now c rows)
]

conclude-Counted :
    (options : QueueOptions) (c : Claimed) (h : Handling) (lost : Bool) (q : Queue) (tally : Tally)
    → Counted c h tally (conclude options c h lost q tally)
unfolding conclude
conclude-Counted options c h true q tally = inl refl
conclude-Counted options c h false q tally =
    elim (Bool-cases (ltb 0 (count_rows (is_claimed c) q.rows))) [
      | inl owned ↦ elim (Bool-cases h.succeeds) [
        | inl good ↦
            rw (good, owned) (inr (inl (refl, refl, shown_delivered h.finished_at c q.rows owned)))
        | inr bad ↦
            rw (bad, owned)
              (inr (inr (refl, refl, shown_failed options h.finished_at c q.rows owned)))
      ]
      | inr lost ↦ elim (Bool-cases h.succeeds) [
        | inl good ↦ rw (good, lost) (inl refl)
        | inr bad ↦ rw (bad, lost) (inl refl)
      ]
    ]

-- A row of the batch is counted at most once: as dispatched only if its handler succeeded and the
-- table then shows it delivered, as failed only if its handler did not and the table then shows it
-- failed with one attempt more than was read; else the tally is as it was. This holds whatever the
-- other workers do and wherever the heartbeat fails.
pub dispatch_row-Counted :
    (options : QueueOptions) (handlers : Handlers) (read : QueuedEvent) (q : Queue) (tally : Tally)
    → Counted
        (claim_of read)
        (handlers.handling read)
        tally
        (dispatch_row options handlers read (q, tally))
unfolding dispatch_row run_handler
dispatch_row-Counted options handlers read q tally =
    let h = handlers.handling read in
    let c = claim_of read in
    let q' = claim_row h.claimed_at read q in
    let (lost, q'') = heartbeats options c h.ticks q' in
    elim (Bool-cases (count_rows (can_claim read) q.rows == 0)) [
      | inl missed ↦ rw missed (inl refl)
      | inr hit ↦ elim (Bool-cases (has_type handlers.types read)) [
        | inl known ↦
            rw (hit, known)
              (conclude-Counted options c h lost (perform_all options h.others q'') tally)
        | inr unknown ↦ rw (hit, unknown) (inl refl)
      ]
    ]

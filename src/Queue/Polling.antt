-- ===== src/Queue/Polling.antt =====
-- packages/workflow/src/outbox/dispatcher.ts: a whole poll, whatever the others do meanwhile.
use mini_coder.Common.{
  ℕ, ◌<◌, ◌≡◌, inl, inr, Bool, true, false, List, [], ◌∷◌, ◌==◌, ℕ_eq, arith, All, count_rows,
  Bool-cases,
}
use mini_coder.Store.Rows.{QueuedEvent}
use mini_coder.Handlers.Evolution.{Pointwise}
use mini_coder.Queue.{
  QueueOptions, Claimed, Queue, batch, can_claim, claim_of, claim_row, has_type, is_due,
  is_renewable, recover, renew,
}
use mini_coder.Queue.Worker.{
  Gaps, Handlers, Handling, Tally, Tick, conclude, dispatch_row, dispatch_rows, heartbeats,
  is_given, pass, perform_all, poll_and_dispatch, run_handler,
}
use mini_coder.Queue.Fits.{Final, IsSound}
use mini_coder.Queue.Interleaving.{
  Kept, Kept-refl, Kept-trans, claim_row-Kept, claim_row-given, deliver-Kept, fail-Kept,
  perform_all-Kept, put_back-Kept, recover-Kept, renew-Kept,
}
use mini_coder.Queue.Batch.{batch-IsBatch}

module _ (options : QueueOptions) where
  pass-Kept : (ts : List Tick) (q : Queue) → IsSound options q → Kept options q (pass options ts q)
  pass-Kept [] q s = Kept-refl s
  pass-Kept (t ∷ ts) q s =
      let first = perform_all-Kept options t.others q s in
      Kept-trans first (pass-Kept ts (perform_all options t.others q) first.sound)

  heartbeats-Kept :
      (c : Claimed) (ts : List Tick) (q : Queue)
      → IsSound options q
      → Kept options q (heartbeats options c ts q).1
  unfolding heartbeats
  heartbeats-Kept c [] q s = Kept-refl s
  heartbeats-Kept c (t ∷ ts) q s =
      let q' = perform_all options t.others q in
      let first = perform_all-Kept options t.others q s in
      let over = Kept-trans first (pass-Kept ts q' first.sound) in
      let beat = renew-Kept t.at c q' first.sound in
      let on =
        Kept-trans first (Kept-trans beat (heartbeats-Kept c ts (renew t.at c q') beat.sound)) in
      elim (Bool-cases t.fails) [
        | inl down ↦ rw down over
        | inr up ↦ elim (Bool-cases (count_rows (is_renewable c) q'.rows == 0)) [
          | inl lost ↦ rw (up, lost) over
          | inr held ↦ rw (up, held) on
        ]
      ]

  conclude-Kept :
      (c : Claimed) (h : Handling) (lost : Bool) (q : Queue) (tally : Tally)
      → IsSound options q
      → is_given c q.claims ≡ true
      → Kept options q (conclude options c h lost q tally).0
  unfolding conclude
  conclude-Kept c h true q tally s g = Kept-refl s
  conclude-Kept c h false q tally s g = elim (Bool-cases h.succeeds) [
    | inl good ↦ rw good (deliver-Kept h.finished_at c q s g)
    | inr bad ↦ rw bad (fail-Kept h.finished_at c q s g)
  ]

  run_handler-Kept :
      (c : Claimed) (h : Handling) (q : Queue) (tally : Tally)
      → IsSound options q
      → is_given c q.claims ≡ true
      → Kept options q (run_handler options c h q tally).0
  unfolding run_handler
  run_handler-Kept c h q tally s g =
      let beat = heartbeats-Kept c h.ticks q s in
      let q' = (heartbeats options c h.ticks q).1 in
      let more = perform_all-Kept options h.others q' beat.sound in
      let given = more.remembered c (beat.remembered c g) in
      Kept-trans beat (
        Kept-trans more (
          conclude-Kept c h (heartbeats options c h.ticks q).0 (perform_all options h.others q')
            tally more.sound given))

  dispatch_row-Kept :
      (handlers : Handlers) (read : QueuedEvent) (q : Queue) (tally : Tally)
      → IsSound options q
      → read.attempts < options.max_attempts
      → Kept options q (dispatch_row options handlers read (q, tally)).0
  unfolding dispatch_row
  dispatch_row-Kept handlers read q tally s due =
      let h = handlers.handling read in
      let c = claim_of read in
      let q' = claim_row h.claimed_at read q in
      let claim = claim_row-Kept h.claimed_at read q s due in
      elim (Bool-cases (count_rows (can_claim read) q.rows == 0)) [
        | inl missed ↦ rw missed (Kept-refl s)
        | inr hit ↦
            let given : is_given c q'.claims ≡ true = claim_row-given h.claimed_at read q hit in
            elim (Bool-cases (has_type handlers.types read)) [
              | inl known ↦
                  rw (hit, known)
                    (Kept-trans claim (run_handler-Kept c h q' tally claim.sound given))
              | inr unknown ↦
                  let more = perform_all-Kept options h.others q' claim.sound in
                  rw (hit, unknown)
                    (Kept-trans claim (
                      Kept-trans more (
                        put_back-Kept h.claimed_at c (perform_all options h.others q') more.sound
                          (more.remembered c given))))
            ]
      ]

  dispatch_rows-Kept :
      (handlers : Handlers) (now : ℕ) (reads : List QueuedEvent) (q : Queue) (tally : Tally)
      → IsSound options q
      → All (λ r. is_due options now r ≡ true) reads
      → Kept options q (dispatch_rows options handlers reads (q, tally)).0
  unfolding dispatch_rows
  dispatch_rows-Kept handlers now [] q tally s due = Kept-refl s
  dispatch_rows-Kept handlers now (read ∷ reads) q tally s due =
      let q' = perform_all options (handlers.handling read).before q in
      let before = perform_all-Kept options (handlers.handling read).before q s in
      let first = dispatch_row-Kept handlers read q' tally before.sound (ground (arith, due.0)) in
      let (r, tally') = dispatch_row options handlers read (q', tally) in
      Kept-trans before
        (Kept-trans first (dispatch_rows-Kept handlers now reads r tally' first.sound due.1))

-- Where the queue is sound (ids are distinct, attempts are within the bound, and each claim that
-- was given fits its row), after a poll it is sound again, and every row that was delivered before
-- is exactly as it was: whatever the handlers do, wherever the heartbeat fails, and whatever the
-- other workers do after the recovery, between the SELECTs, before and after the claim of each row,
-- at each turn of its heartbeat and before its end.
pub poll_and_dispatch-IsSound :
    (options : QueueOptions) (now : ℕ) (gaps : Gaps) (handlers : Handlers) (q : Queue)
    → IsSound options q
    → IsSound options (poll_and_dispatch options now gaps handlers q).0
      × Pointwise Final q.rows (poll_and_dispatch options now gaps handlers q).0.rows
unfolding poll_and_dispatch
poll_and_dispatch-IsSound options now gaps handlers q s =
    let recovered = record q { rows = recover options now q.rows } in
    let first = perform_all options gaps.before_known recovered in
    let second = perform_all options gaps.before_unknown first in
    let at_start = recover-Kept now q s in
    let at_first = perform_all-Kept options gaps.before_known recovered at_start.sound in
    let at_second = perform_all-Kept options gaps.before_unknown first at_first.sound in
    let dispatched =
      dispatch_rows-Kept options handlers now
        (batch options now handlers.types first.rows second.rows) second
        (record { dispatched = 0; failed = 0 }) at_second.sound
        (batch-IsBatch options now handlers.types first.rows second.rows).all_due in
    let k = Kept-trans at_start (Kept-trans at_first (Kept-trans at_second dispatched)) in
    (k.sound, k.final)

-- ===== src/Queue/Worker.antt =====
-- packages/workflow/src/outbox/dispatcher.ts: what a worker does with the rows of its batch, while
-- others work on the same table.
use mini_coder.Common.{
  ℕ, ◌+◌, Bool, true, false, ◌&&◌, List, [], ◌∷◌, String, ◌==◌, ℕ_eq, String_eq, any, ltb,
  count_rows, if◌then◌else◌,
}
use mini_coder.Store.Rows.{QueuedEvent}
use mini_coder.Queue.{
  QueueOptions, Claimed, Queue, batch, can_claim, claim_of, claim_row, deliver, fail, has_type,
  is_claimed, is_renewable, is_waiting, put_back, recover, renew, settle,
}

-- What any worker may do between two statements of this one. It settles and renews by a claim that
-- was given, and claims a row that it read while it was due.
pub data Deed : Type 0 where
  recovers : ℕ → Deed
  claims : ℕ → QueuedEvent → Deed
  renews puts_back delivers fails : ℕ → Claimed → Deed

abbrev pub is_given : Claimed → List Claimed → Bool
is_given c given =
    any (λ d. d.id == c.id && (d.version == c.version && d.attempts == c.attempts)) given

abbrev pub if_given : Claimed → (Queue → Queue) → Queue → Queue
if_given c act q = if is_given c q.claims then act q else q

unfoldable pub perform : QueueOptions → Deed → Queue → Queue
perform options (recovers now) q = record q { rows = recover options now q.rows }
perform options (claims now read) q =
    if is_waiting read.status && ltb read.attempts options.max_attempts
    then claim_row now read q
    else q
perform options (renews now c) q = if_given c (renew now c) q
perform options (puts_back now c) q = if_given c (settle c (put_back options now)) q
perform options (delivers now c) q = if_given c (settle c (deliver now)) q
perform options (fails now c) q = if_given c (settle c (fail options now c)) q

abbrev pub perform_all : QueueOptions → List Deed → Queue → Queue
perform_all options [] q = q
perform_all options (d ∷ ds) q = perform_all options ds (perform options d q)

-- One turn of the heartbeat loop: what the others did before it, when it comes, and whether the
-- database fails.
pub record Tick : Type 0 where
  pub others : List Deed
  pub at : ℕ
  pub fails : Bool

-- The handling of one row, as the world has it: what the others do before its claim, the clock at
-- the claim and at the end, the turns of the heartbeat while the handler runs, what the others do
-- after them, and whether the handler succeeds.
pub record Handling : Type 0 where
  pub before : List Deed
  pub claimed_at : ℕ
  pub ticks : List Tick
  pub others : List Deed
  pub succeeds : Bool
  pub finished_at : ℕ

-- The handlers by event type, and how each row fares.
pub record Handlers : Type 0 where
  pub types : List String
  pub handling : QueuedEvent → Handling

-- The loop once it has ended: only the others go on.
abbrev pub pass : QueueOptions → List Tick → Queue → Queue
pass options [] q = q
pass options (t ∷ ts) q = pass options ts (perform_all options t.others q)

-- The heartbeat: `true` where the ownership was lost.
unfoldable pub heartbeats : QueueOptions → Claimed → List Tick → Queue → Bool × Queue
heartbeats options c [] q = (false, q)
heartbeats options c (t ∷ ts) q =
    let q' = perform_all options t.others q in
    let go_on = heartbeats options c ts (renew t.at c q') in
    let stop : Bool × Queue = (true, pass options ts q') in
    if t.fails then stop else if count_rows (is_renewable c) q'.rows == 0 then stop else go_on

pub record Tally : Type 0 where
  pub dispatched : ℕ
  pub failed : ℕ

abbrev pub add_dispatched : Bool → Tally → Tally
add_dispatched true t = record t { dispatched = t.dispatched + 1 }
add_dispatched false t = t

abbrev pub add_failed : Bool → Tally → Tally
add_failed true t = record t { failed = t.failed + 1 }
add_failed false t = t

-- The end of a handler: nothing where the ownership was lost.
unfoldable pub conclude : QueueOptions → Claimed → Handling → Bool → Queue → Tally → Queue × Tally
conclude options c h lost q tally =
    let owned = ltb 0 (count_rows (is_claimed c) q.rows) in
    if lost
    then (q, tally)
    else if h.succeeds
    then (settle c (deliver h.finished_at) q, add_dispatched owned tally)
    else (settle c (fail options h.finished_at c) q, add_failed owned tally)

unfoldable pub run_handler : QueueOptions → Claimed → Handling → Queue → Tally → Queue × Tally
run_handler options c h q tally =
    let (lost, q') = heartbeats options c h.ticks q in
    conclude options c h lost (perform_all options h.others q') tally

-- One row of the batch.
unfoldable pub dispatch_row : QueueOptions → Handlers → QueuedEvent → Queue × Tally → Queue × Tally
dispatch_row options handlers read (q, tally) =
    let h = handlers.handling read in
    let c = claim_of read in
    let q' = claim_row h.claimed_at read q in
    if count_rows (can_claim read) q.rows == 0
    then (q, tally)
    else if has_type handlers.types read
    then run_handler options c h q' tally
    else (settle c (put_back options h.claimed_at) (perform_all options h.others q'), tally)

unfoldable pub dispatch_rows :
    QueueOptions → Handlers → List QueuedEvent → Queue × Tally → Queue × Tally
dispatch_rows options handlers [] s = s
dispatch_rows options handlers (read ∷ reads) s =
    let (q, tally) = s in
    let q' = perform_all options (handlers.handling read).before q in
    dispatch_rows options handlers reads (dispatch_row options handlers read (q', tally))

-- What the others do after the recovery, and between the two SELECTs.
pub record Gaps : Type 0 where
  pub before_known : List Deed
  pub before_unknown : List Deed

-- `pollAndDispatch`.
unfoldable pub poll_and_dispatch : QueueOptions → ℕ → Gaps → Handlers → Queue → Queue × Tally
poll_and_dispatch options now gaps handlers q =
    let recovered = record q { rows = recover options now q.rows } in
    let first = perform_all options gaps.before_known recovered in
    let second = perform_all options gaps.before_unknown first in
    dispatch_rows options handlers (batch options now handlers.types first.rows second.rows)
      (second, record { dispatched = 0; failed = 0 })

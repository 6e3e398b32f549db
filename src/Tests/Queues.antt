-- ===== src/Tests/Queues.antt =====
-- The event queue on three rows: one is due, one is being processed, one is delivered.
use mini_coder.Common.{
  ℕ, ◌≡◌, ◌⊎◌, refl, inl, inr, Bool, true, false, Option, none, some, List, [], ◌∷◌, String, any,
  arith, eq_iff, count_rows,
}
use mini_coder.Auth.Redaction.{Json, null}
use mini_coder.Store.Rows.{QueueStatus, QueuedEvent, schema_version}
use mini_coder.Handlers.Evolution.{Pointwise, Distinct}
use mini_coder.Queue.{
  QueueOptions, Claimed, Queue, batch, claim_of, claim_row, insert_by_age, is_claimed, limit,
  oldest_first, recover, renew, select_due,
}
use mini_coder.Queue.Worker.{
  Deed, Gaps, Handlers, Handling, Tally, add_failed, conclude, dispatch_row, dispatch_rows,
  heartbeats, perform, perform_all, poll_and_dispatch, run_handler,
}
use mini_coder.Queue.Fits.{Final, IsSound, event_ids}
use mini_coder.Queue.Batch.{IsBatch, batch-IsBatch}
use mini_coder.Queue.Polling.{poll_and_dispatch-IsSound}
use mini_coder.Queue.Settling.{Settles, settled_once}
use mini_coder.Queue.Counting.{Counted, dispatch_row-Counted, failed_row}
use mini_coder.Queue.Inbox.{dispatch_row-refused, inbox_handlers}

abbrev options : QueueOptions
options = record {
  batch_size = 2;
  max_attempts = 3;
  base_backoff_ms = 100;
  max_backoff_ms = 1000;
  stale_claim_ms = 500;
}

abbrev event : String → String → QueueStatus → ℕ → ℕ → QueuedEvent
event id event_type status attempts version = record {
  id = id;
  event_type = event_type;
  payload = null;
  payload_schema_version = schema_version;
  status = status;
  attempts = attempts;
  next_retry_at = none;
  version = version;
  created_at = 0;
  updated_at = 900;
}

abbrev due : QueuedEvent
due = event "event-1" "ci.requested" QueueStatus.failed 2 5

abbrev in_process : QueuedEvent
in_process = event "event-2" "ci.requested" QueueStatus.processing 0 2

abbrev done_with : QueuedEvent
done_with = event "event-3" "ci.requested" QueueStatus.delivered 0 3

abbrev claim_2 : Claimed
claim_2 = record { id = "event-2"; version = 2; attempts = 0 }

abbrev queue : Queue
queue = record { rows = due ∷ (in_process ∷ (done_with ∷ [])); claims = claim_2 ∷ [] }

-- While the handler runs, another worker delivers the row that it claimed.
abbrev handling : Bool → QueuedEvent → Handling
handling succeeds read = record {
  before = Deed.recovers 999 ∷ [];
  claimed_at = 1000;
  ticks = (record { others = Deed.delivers 1010 claim_2 ∷ []; at = 1050; fails = false }) ∷ [];
  others = [];
  succeeds = succeeds;
  finished_at = 1100;
}

abbrev handlers : Bool → Handlers
handlers succeeds = record { types = "ci.requested" ∷ []; handling = handling succeeds }

abbrev nothing_yet : Tally
nothing_yet = record { dispatched = 0; failed = 0 }

Distinct-event_ids : Distinct (event_ids queue.rows)
Distinct-event_ids = (
  (
    (λ e. cc ((eq_iff "event-2" "event-1").1 e)),
    ((λ e. cc ((eq_iff "event-3" "event-1").1 e)), tt),
  ),
  (((λ e. cc ((eq_iff "event-3" "event-2").1 e)), tt), (tt, tt)),
)

queue-IsSound : IsSound options queue
queue-IsSound = record {
  distinct = Distinct-event_ids;
  fit = (
    (inl (λ e. cc ((eq_iff "event-1" "event-2").1 e)), tt),
    ((inr (inr (refl, refl)), tt), ((inl (λ e. cc ((eq_iff "event-3" "event-2").1 e)), tt), tt)),
  );
  rows_below = (omega arith, (omega arith, (omega arith, tt)));
  claims_below = (omega arith, tt);
}

abbrev statuses : List QueuedEvent → List QueueStatus
statuses [] = []
statuses (r ∷ rows) = r.status ∷ statuses rows

-- Another worker looks for stuck rows, and renews its claim.
abbrev gaps : Gaps
gaps = record {
  before_known = Deed.recovers 998 ∷ [];
  before_unknown = Deed.renews 999 claim_2 ∷ [];
}

abbrev polled : Bool → Queue × Tally
polled succeeds = poll_and_dispatch options 1000 gaps (handlers succeeds) queue

poll_test :
    (statuses (polled true).0.rows
      ≡ QueueStatus.delivered ∷ (QueueStatus.delivered ∷ (QueueStatus.delivered ∷ [])))
    × ((polled true).1.dispatched ≡ 1)
unfolding poll_and_dispatch recover batch select_due limit oldest_first insert_by_age dispatch_rows
    dispatch_row claim_row run_handler heartbeats renew perform conclude
poll_test = (refl, refl)

failing_test :
    (statuses (polled false).0.rows
      ≡ QueueStatus.failed ∷ (QueueStatus.delivered ∷ (QueueStatus.delivered ∷ [])))
    × ((polled false).1.failed ≡ 1)
unfolding poll_and_dispatch recover batch select_due limit oldest_first insert_by_age dispatch_rows
    dispatch_row claim_row run_handler heartbeats renew perform conclude
failing_test = (refl, refl)

poll_and_dispatch-IsSound_example :
    IsSound options (polled true).0 × Pointwise Final queue.rows (polled true).0.rows
poll_and_dispatch-IsSound_example =
    poll_and_dispatch-IsSound options 1000 gaps (handlers true) queue queue-IsSound

-- The row is given to another worker after its claim went stale, and then delivered late.
settled_once_example :
    count_rows
      (is_claimed claim_2)
      (perform_all options
        (Deed.recovers 2000 ∷ (Deed.delivers 2010 claim_2 ∷ []))
        (perform options (Deed.fails 1000 claim_2) queue)).rows
    ≡ 0
settled_once_example =
    settled_once options claim_2 (Deed.fails 1000 claim_2)
      (Deed.recovers 2000 ∷ (Deed.delivers 2010 claim_2 ∷ [])) queue queue-IsSound refl
      (Settles.failed 1000)

batch-IsBatch_example :
    IsBatch options 1000
      ("ci.requested" ∷ [])
      queue.rows
      queue.rows
      (batch options 1000 ("ci.requested" ∷ []) queue.rows queue.rows)
batch-IsBatch_example = batch-IsBatch options 1000 ("ci.requested" ∷ []) queue.rows queue.rows

dispatch_row-Counted_example :
    Counted
      (claim_of due)
      (handling true due)
      nothing_yet
      (dispatch_row options (handlers true) due (queue, nothing_yet))
dispatch_row-Counted_example = dispatch_row-Counted options (handlers true) due queue nothing_yet

-- No payload fits the type's schema.
abbrev schemas : String → Option (Json → Bool)
schemas event_type = some (λ payload. false)

abbrev refused : Queue × Tally
refused = dispatch_row options (inbox_handlers schemas (handlers true)) due (queue, nothing_yet)

dispatch_row-refused_example :
    (refused.1 ≡ nothing_yet)
    ⊎ ((refused.1 ≡ add_failed true nothing_yet)
        × (any (failed_row (claim_of due)) refused.0.rows ≡ true))
dispatch_row-refused_example =
    dispatch_row-refused options schemas (handlers true) due queue nothing_yet refl

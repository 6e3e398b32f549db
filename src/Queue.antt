-- ===== src/Queue.antt =====
-- packages/workflow/src/outbox/dispatcher.ts: the queue of events, its statements, and one poll.
-- Between two statements of one worker the others may do anything that a worker does; what they
-- do is an argument. `claims` is no column: it lists what claims have been given to any worker.
pub mod Worker
pub mod Fits
pub mod Interleaving
pub mod Batch
pub mod Polling
pub mod Settling
pub mod Counting
pub mod Inbox
use mini_coder.Common.{
  ℕ, zero, suc, ◌+◌, ◌-◌, Bool, true, false, not, ◌&&◌, Option, none, some, List, [], ◌∷◌, ◌++◌,
  String, ◌==◌, ℕ_eq, String_eq, any, leb, ltb, length, where_rows, update_rows, count_rows,
  if◌then◌else◌,
}
use mini_coder.Store.Rows.{QueueStatus, QueuedEvent}
use mini_coder.Locks.{deterministic_backoff}

-- `DispatcherOptions`.
pub record QueueOptions : Type 0 where
  pub batch_size : ℕ
  pub max_attempts : ℕ
  pub base_backoff_ms : ℕ
  pub max_backoff_ms : ℕ
  pub stale_claim_ms : ℕ

-- What a worker knows of a row that it claimed.
pub record Claimed : Type 0 where
  pub id : String
  pub version : ℕ
  pub attempts : ℕ

pub record Queue : Type 0 where
  pub rows : List QueuedEvent
  pub claims : List Claimed

abbrev pub is_processing : QueueStatus → Bool
is_processing QueueStatus.processing = true
is_processing _ = false

-- `status IN ('pending', 'failed')`.
abbrev pub is_waiting : QueueStatus → Bool
is_waiting QueueStatus.pending = true
is_waiting QueueStatus.failed = true
is_waiting _ = false

abbrev pub is_delivered : QueueStatus → Bool
is_delivered QueueStatus.delivered = true
is_delivered _ = false

-- `updated_at <= now - staleClaimMs`, for a row that is being processed.
abbrev pub is_stuck : QueueOptions → ℕ → QueuedEvent → Bool
is_stuck options now r = is_processing r.status && leb (r.updated_at + options.stale_claim_ms) now

abbrev pub reset : ℕ → QueuedEvent → QueuedEvent
reset now r = record r { status = QueueStatus.pending; version = r.version + 1; updated_at = now }

-- The recovery of stale claims.
unfoldable pub recover : QueueOptions → ℕ → List QueuedEvent → List QueuedEvent
recover options now = update_rows (is_stuck options now) (reset now)

abbrev pub retry_reached : ℕ → Option ℕ → Bool
retry_reached now none = true
retry_reached now (some at) = leb at now

abbrev pub is_due : QueueOptions → ℕ → QueuedEvent → Bool
is_due options now r =
    is_waiting r.status
    && (ltb r.attempts options.max_attempts && retry_reached now r.next_retry_at)

abbrev pub has_type : List String → QueuedEvent → Bool
has_type known r = any (λ event_type. event_type == r.event_type) known

-- `ORDER BY created_at ASC`.
unfoldable pub insert_by_age : QueuedEvent → List QueuedEvent → List QueuedEvent
insert_by_age r [] = r ∷ []
insert_by_age r (s ∷ rows) =
    if leb r.created_at s.created_at then r ∷ (s ∷ rows) else s ∷ insert_by_age r rows

unfoldable pub oldest_first : List QueuedEvent → List QueuedEvent
oldest_first [] = []
oldest_first (r ∷ rows) = insert_by_age r (oldest_first rows)

-- `LIMIT n`.
unfoldable pub limit : ℕ → List QueuedEvent → List QueuedEvent
limit zero rows = []
limit (suc n) [] = []
limit (suc n) (r ∷ rows) = r ∷ limit n rows

unfoldable pub select_due : (QueuedEvent → Bool) → ℕ → List QueuedEvent → List QueuedEvent
select_due wanted n rows = limit n (oldest_first (where_rows wanted rows))

-- The rows of a poll: the known types first, as the first SELECT finds the table, and the others in
-- what is left of the batch, as the second finds it. Without a known type there is only one SELECT.
unfoldable pub batch :
    QueueOptions → ℕ → List String → List QueuedEvent → List QueuedEvent → List QueuedEvent
batch options now [] rows later = select_due (is_due options now) options.batch_size later
batch options now (t ∷ ts) rows later =
    let known =
      select_due (λ r. is_due options now r && has_type (t ∷ ts) r) options.batch_size rows in
    known
    ++ select_due (λ r. is_due options now r && not (has_type (t ∷ ts) r))
        (options.batch_size - length known) later

-- `WHERE id = ? AND status IN ('pending', 'failed') AND version = ?`.
abbrev pub can_claim : QueuedEvent → QueuedEvent → Bool
can_claim read r = r.id == read.id && (is_waiting r.status && r.version == read.version)

abbrev pub start_processing : ℕ → QueuedEvent → QueuedEvent
start_processing now r = record r {
  status = QueueStatus.processing;
  version = r.version + 1;
  updated_at = now;
}

abbrev pub claim_of : QueuedEvent → Claimed
claim_of read = record { id = read.id; version = read.version + 1; attempts = read.attempts }

-- The claim of a row as it was read; a claim is given where a row was affected.
unfoldable pub claim_row : ℕ → QueuedEvent → Queue → Queue
claim_row now read q = record q {
  rows = update_rows (can_claim read) (start_processing now) q.rows;
  claims = if count_rows (can_claim read) q.rows == 0 then q.claims else claim_of read ∷ q.claims;
}

-- `WHERE id = ? AND version = ?`, the claimed version.
abbrev pub is_claimed : Claimed → QueuedEvent → Bool
is_claimed c r = r.id == c.id && r.version == c.version

-- No handler: the row waits for the longest delay, and the attempt does not count.
abbrev pub put_back : QueueOptions → ℕ → QueuedEvent → QueuedEvent
put_back options now r = record r {
  status = QueueStatus.pending;
  next_retry_at = some (now + options.max_backoff_ms);
  version = r.version + 1;
  updated_at = now;
}

-- `markDelivered`, `markProcessed`.
abbrev pub deliver : ℕ → QueuedEvent → QueuedEvent
deliver now r = record r {
  status = QueueStatus.delivered;
  version = r.version + 1;
  updated_at = now;
}

-- `markFailed`, with the number of attempts and the delay that the `catch` computes.
abbrev pub fail : QueueOptions → ℕ → Claimed → QueuedEvent → QueuedEvent
fail options now c r = record r {
  status = QueueStatus.failed;
  attempts = c.attempts + 1;
  next_retry_at =
      some (
        now
        + deterministic_backoff (c.attempts + 1) options.base_backoff_ms options.max_backoff_ms);
  version = r.version + 1;
  updated_at = now;
}

-- The end of a claim, by one of these.
abbrev pub settle : Claimed → (QueuedEvent → QueuedEvent) → Queue → Queue
settle c change q = record q { rows = update_rows (is_claimed c) change q.rows }

-- `WHERE id = ? AND status = 'processing' AND version = ?`.
abbrev pub is_renewable : Claimed → QueuedEvent → Bool
is_renewable c r = is_claimed c r && is_processing r.status

-- The heartbeat of a claim.
unfoldable pub renew : ℕ → Claimed → Queue → Queue
renew now c q = record q {
  rows = update_rows (is_renewable c) (λ r. record r { updated_at = now }) q.rows;
}

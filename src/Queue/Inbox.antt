-- ===== src/Queue/Inbox.antt =====
-- packages/workflow/src/inbox/processor.ts: the same queue for events that come in, which are
-- checked before they are handled. The schemas of events/schemas.ts are an argument; the status
-- `processed` of this table is `delivered` here.
use mini_coder.Common.{
  ℕ, ◌≡◌, inl, inr, Bool, true, false, ◌&&◌, ◌⊎◌, Option, none, some, [], String, ◌==◌, String_eq,
  any, if◌then◌else◌,
}
use mini_coder.Auth.Redaction.{Json}
use mini_coder.Store.Rows.{InboxEvent, schema_version}
use mini_coder.Queue.{QueueOptions, Queue, claim_of}
use mini_coder.Queue.Worker.{
  Gaps, Handlers, Handling, Tally, add_failed, dispatch_row, poll_and_dispatch,
}
use mini_coder.Queue.Counting.{dispatch_row-Counted, failed_row}

-- `validateEventPayload`: a type without a schema is not checked.
abbrev pub validate_event_payload : (String → Option (Json → Bool)) → String → Json → Bool
validate_event_payload schemas event_type payload = elim (schemas event_type) [
  | none ↦ true
  | some is_valid ↦ is_valid payload
]

abbrev pub is_accepted : (String → Option (Json → Bool)) → InboxEvent → Bool
is_accepted schemas read =
    read.payload_schema_version == schema_version
    && validate_event_payload schemas read.event_type read.payload

-- What the `try` block does: a refused event throws at once, and its handler is not run.
abbrev pub inbox_handling :
    (String → Option (Json → Bool)) → (InboxEvent → Handling) → InboxEvent → Handling
inbox_handling schemas handling read =
    let h = handling read in
    if is_accepted schemas read then h else record h { ticks = []; succeeds = false }

abbrev pub inbox_handlers : (String → Option (Json → Bool)) → Handlers → Handlers
inbox_handlers schemas handlers = record handlers {
  handling = inbox_handling schemas handlers.handling;
}

-- `pollAndProcess`.
unfoldable pub poll_and_process :
    QueueOptions → ℕ → Gaps → (String → Option (Json → Bool)) → Handlers → Queue → Queue × Tally
poll_and_process options now gaps schemas handlers =
    poll_and_dispatch options now gaps (inbox_handlers schemas handlers)

-- An event of another schema version, or whose payload its type's schema refuses, is never counted
-- as processed, whatever its handler would do: it adds nothing to the tally, or one failure, and
-- then the table shows it failed with one attempt more.
pub dispatch_row-refused :
    (options : QueueOptions) (schemas : String → Option (Json → Bool)) (handlers : Handlers)
    (read : InboxEvent) (q : Queue) (tally : Tally)
    → is_accepted schemas read ≡ false
    → let (q', tally') = dispatch_row options (inbox_handlers schemas handlers) read (q, tally) in
      (tally' ≡ tally)
      ⊎ ((tally' ≡ add_failed true tally) × (any (failed_row (claim_of read)) q'.rows ≡ true))
dispatch_row-refused options schemas handlers read q tally bad =
    elim (dispatch_row-Counted options (inbox_handlers schemas handlers) read q tally) [
      | inl same ↦ inl same
      | inr (inl (e, good, shown)) ↦ cc (rw bad at good)
      | inr (inr (e, failed, shown)) ↦ inr (e, shown)
    ]

-- ===== src/Command/Outbox.antt =====
-- packages/core/src/commands/helpers.ts `writeOutboxEvent`: what reaches the outbox.
use mini_coder.Common.{All, String}
use mini_coder.Auth.Redaction.{Json}
use mini_coder.Auth.Secrets.{Clean, redact_object-Clean}
use mini_coder.Store.{Db, Env, Result, ok, err}
use mini_coder.Command.Helpers.{write_outbox_event}

abbrev pub CleanOutbox : Db → Type 0
CleanOutbox db = All (λ e. Clean e.payload) db.outbox_events

abbrev pub StaysClean : Result (Unit {0} × Db) → Type 0
StaysClean (ok (u, db)) = CleanOutbox db
StaysClean (err e) = ⊥

-- If no payload of the outbox has a text other than `[REDACTED]` under a secret field name, at any
-- depth of objects and lists, then writing an event succeeds and the outbox is still so, whatever
-- payload is written and whatever the redactor does to texts.
pub write_outbox_event-StaysClean :
    (env : Env) (event_type : String) (payload : Json) (db : Db)
    → CleanOutbox db
    → StaysClean (write_outbox_event env event_type payload db)
write_outbox_event-StaysClean env event_type payload db h =
    (redact_object-Clean env.redact payload, h)

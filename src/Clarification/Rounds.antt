-- ===== src/Clarification/Rounds.antt =====
-- packages/core/src/commands/handlers/clarification: what any sequence of commands does to the
-- sessions.
use mini_coder.Common.{
  ◌+◌, ◌≤◌, ◌<◌, ◌≡◌, refl, sym, ◌∙◌, subst, ◌⊎◌, inl, inr, true, List, [], ◌∷◌, String, arith, All,
  map, String_eq, ℕ_eq, eq_iff,
}
use mini_coder.Domain.{ClarificationStatus, clarification_status_eq}
use mini_coder.Machine.Defs.{is_valid}
use mini_coder.Machine.Lifecycle.{clarification_matrix}
use mini_coder.Store.Rows.{CommandResult}
use mini_coder.Store.Clarifications.{ClarificationSession}
use mini_coder.Store.{Db, Env, Result, ok, err, committed}
use mini_coder.Command.Helpers.{Envelope}
use mini_coder.Handlers.Evolution.{
  Pointwise, done, and_then, Pointwise-refl, Pointwise-trans, update_rows-Pointwise, Distinct,
  find_unique,
}
use mini_coder.Clarification.{SessionPayload, is_session, session_at, set_status}
use mini_coder.Clarification.Commands.{ClarificationCommand, handle_clarification}
use mini_coder.Clarification.Moves.{Moved, MovedBy, change_of}
use mini_coder.Clarification.Handled.{handle_clarification-Moved}

-- A run of the clarification machine.
pub data Leads (s : ClarificationStatus) : ClarificationStatus → Type 0 where
  here : Leads s s
  next :
      {t u : ClarificationStatus} → Leads s t → is_valid clarification_matrix t u ≡ true → Leads s u

Leads-trans : {s t u : ClarificationStatus} → Leads s t → Leads t u → Leads s u
Leads-trans a here = a
Leads-trans a (next b e) = next (Leads-trans a b) e

-- What becomes of one session: itself, or the same session further along the machine and its
-- versions, with no round beyond its limit.
pub record Advances (x y : ClarificationSession) : Type 0 where
  pub same_id : y.id ≡ x.id
  pub same_project : y.project_id ≡ x.project_id
  pub same_limit : y.max_rounds ≡ x.max_rounds
  pub same_timeout : y.round_timeout_at ≡ x.round_timeout_at
  pub leads : Leads x.status y.status
  pub versioned : (y ≡ x) ⊎ (x.version < y.version)
  pub rounds : (y.round ≡ x.round) ⊎ ((x.round < y.round) × (y.round ≤ x.max_rounds))

Advances-refl : (x : ClarificationSession) → Advances x x
Advances-refl x = record {
  same_id = refl;
  same_project = refl;
  same_limit = refl;
  same_timeout = refl;
  leads = here;
  versioned = inl refl;
  rounds = inl refl;
}

versioned_trans :
    (x y z : ClarificationSession)
    → (y ≡ x) ⊎ (x.version < y.version)
    → (z ≡ y) ⊎ (y.version < z.version)
    → (z ≡ x) ⊎ (x.version < z.version)
versioned_trans x y z (inl a) (inl b) = inl (b ∙ a)
versioned_trans x y z (inl a) (inr b) = inr (subst (λ s. s.version < z.version) a b)
versioned_trans x y z (inr a) (inl b) = inr (subst (λ s. x.version < s.version) (sym b) a)
versioned_trans x y z (inr a) (inr b) = inr (omega (arith, a, b))

rounds_trans :
    (x y z : ClarificationSession)
    → y.max_rounds ≡ x.max_rounds
    → (y.round ≡ x.round) ⊎ ((x.round < y.round) × (y.round ≤ x.max_rounds))
    → (z.round ≡ y.round) ⊎ ((y.round < z.round) × (z.round ≤ y.max_rounds))
    → (z.round ≡ x.round) ⊎ ((x.round < z.round) × (z.round ≤ x.max_rounds))
rounds_trans x y z l (inl a) (inl b) = inl (omega (arith, a, b))
rounds_trans x y z l (inl a) (inr (b, c)) = inr (omega (arith, a, b), omega (arith, l, c))
rounds_trans x y z l (inr (a, d)) (inl b) = inr (omega (arith, a, b), omega (arith, d, b))
rounds_trans x y z l (inr (a, d)) (inr (b, c)) = inr (omega (arith, a, b), omega (arith, l, c))

Advances-trans : (x y z : ClarificationSession) → Advances x y → Advances y z → Advances x z
Advances-trans x y z a b = record {
  same_id = b.same_id ∙ a.same_id;
  same_project = b.same_project ∙ a.same_project;
  same_limit = b.same_limit ∙ a.same_limit;
  same_timeout = b.same_timeout ∙ a.same_timeout;
  leads = Leads-trans a.leads b.leads;
  versioned = versioned_trans x y z a.versioned b.versioned;
  rounds = rounds_trans x y z a.same_limit a.rounds b.rounds;
}

abbrev pub session_ids : List ClarificationSession → List String
session_ids = map λ s. s.id

Pointwise-session_ids :
    {xs ys : List ClarificationSession} → Pointwise Advances xs ys → session_ids ys ≡ session_ids xs
Pointwise-session_ids done = refl
Pointwise-session_ids (and_then a p) = rw (a.same_id, Pointwise-session_ids p)

module _ (env : Env) (command : ClarificationCommand) (p : SessionPayload)
    (to : ClarificationStatus) (db db' : Db) (m : MovedBy env command p to db db')
    (advances : Advances m.session (change_of env command m.session m.session))
    (distinct : Distinct (session_ids db.clarification_sessions)) where
  moved_row :
      (xs : List ClarificationSession)
      → All (λ x. x.id ≡ p.clarification_session_id → x ≡ m.session) xs
      → All (λ x. session_at p x ≡ true → Advances x (change_of env command m.session x)) xs
  moved_row [] h = tt
  moved_row (x ∷ xs) (h, hs) = (
    (λ hit.
        let same : x ≡ m.session =
          h ((eq_iff x.id p.clarification_session_id).0 (ground (arith, hit))) in
        subst (λ r. Advances r (change_of env command m.session r)) (sym same) advances),
    moved_row xs hs,
  )

  MovedBy-Advances : Pointwise Advances db.clarification_sessions db'.clarification_sessions
  MovedBy-Advances = subst (Pointwise Advances db.clarification_sessions) (sym m.moved) (
      update_rows-Pointwise Advances (session_at p) (change_of env command m.session)
        db.clarification_sessions Advances-refl
        (moved_row db.clarification_sessions (
          find_unique (λ s. s.id) (is_session p) p.clarification_session_id
            (λ x h. (eq_iff x.id p.clarification_session_id).0 (ground (arith, h))) m.session
            db.clarification_sessions distinct m.found)))

-- The command as the executor leaves it: committed, or rolled back.
abbrev pub exec_clarification : Env → Envelope → ClarificationCommand → Db → Db
exec_clarification env envelope command db =
    committed db (handle_clarification env envelope command db)

abbrev pub SessionsAdvance : Db → Db → Type 0
SessionsAdvance db db' = Pointwise Advances db.clarification_sessions db'.clarification_sessions

SessionsAdvance-refl : (db : Db) → SessionsAdvance db db
SessionsAdvance-refl db = Pointwise-refl Advances Advances-refl db.clarification_sessions

set_status-Advances :
    (env : Env) (to : ClarificationStatus) (s : ClarificationSession)
    → is_valid clarification_matrix s.status to ≡ true
    → Advances s (set_status env to (s.version + 1) s)
set_status-Advances env to s edge = record {
  same_id = refl;
  same_project = refl;
  same_limit = refl;
  same_timeout = refl;
  leads = next here edge;
  versioned = inr (omega arith);
  rounds = inl refl;
}

Moved-SessionsAdvance :
    (env : Env) (envelope : Envelope) (command : ClarificationCommand) (db : Db)
    (r : Result (CommandResult × Db))
    → Distinct (session_ids db.clarification_sessions)
    → Moved env envelope command db r
    → SessionsAdvance db (committed db r)
Moved-SessionsAdvance env envelope command db (err e) d h = SessionsAdvance-refl db
Moved-SessionsAdvance env envelope command db (ok (result, db')) d (inl (cached, same)) =
    subst (Pointwise Advances db.clarification_sessions) (sym same) (SessionsAdvance-refl db)
Moved-SessionsAdvance env envelope (ClarificationCommand.do_start p) db (ok (result, db')) d
      (inr m) =
    MovedBy-Advances env _ p _ db db' m
      (record {
        same_id = refl;
        same_project = refl;
        same_limit = refl;
        same_timeout = refl;
        leads = next here (ground (arith, m.may));
        versioned = inr (omega arith);
        rounds = inr (omega arith, ground (arith, m.guarded));
      })
      d
Moved-SessionsAdvance env envelope (ClarificationCommand.do_complete p) db (ok (result, db')) d
      (inr m) =
    MovedBy-Advances env _ p _ db db' m
      (set_status-Advances env ClarificationStatus.complete m.session (ground (arith, m.may))) d
Moved-SessionsAdvance env envelope (ClarificationCommand.do_another_round p) db (ok (result, db')) d
      (inr m) =
    MovedBy-Advances env _ p _ db db' m
      (set_status-Advances env ClarificationStatus.required m.session (ground (arith, m.may))) d
Moved-SessionsAdvance env envelope (ClarificationCommand.do_block reason p) db (ok (result, db')) d
      (inr m) =
    MovedBy-Advances env _ p _ db db' m
      (set_status-Advances env ClarificationStatus.blocked m.session (ground (arith, m.may))) d
Moved-SessionsAdvance env envelope (ClarificationCommand.do_answer p) db (ok (result, db')) d
      (inr same) =
    subst (Pointwise Advances db.clarification_sessions) (sym same) (SessionsAdvance-refl db)

-- A command that is sent.
pub record Sent : Type 0 where
  pub env : Env
  pub envelope : Envelope
  pub command : ClarificationCommand

abbrev pub exec_clarifications : List Sent → Db → Db
exec_clarifications [] db = db
exec_clarifications (s ∷ ss) db =
    exec_clarifications ss (exec_clarification s.env s.envelope s.command db)

-- Where the ids of the sessions are distinct, whatever clarification commands are sent, with
-- whatever clocks and envelopes: the table keeps its sessions, each with its project, its limit of
-- rounds and its timeout; the status of each is reachable in the matrix from what it was; one that
-- changed has a higher version; and a round that was counted is within the limit.
pub exec_clarifications-SessionsAdvance :
    (commands : List Sent) (db : Db)
    → Distinct (session_ids db.clarification_sessions)
    → SessionsAdvance db (exec_clarifications commands db)
exec_clarifications-SessionsAdvance [] db d = SessionsAdvance-refl db
exec_clarifications-SessionsAdvance (s ∷ ss) db d =
    let first =
      Moved-SessionsAdvance s.env s.envelope s.command db _ d
        (handle_clarification-Moved s.env s.envelope s.command db) in
    Pointwise-trans Advances Advances-trans first (
      exec_clarifications-SessionsAdvance ss (exec_clarification s.env s.envelope s.command db)
        (subst Distinct (sym (Pointwise-session_ids first)) d))

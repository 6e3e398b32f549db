-- ===== src/Queue/Interleaving.antt =====
-- Every statement of every worker keeps the queue sound, and leaves what was delivered.
use mini_coder.Common.{
  ℕ, ◌+◌, ◌≤◌, ◌<◌, ◌≡◌, refl, sym, subst, inl, inr, Bool, true, false, ◌&&◌, List, [], ◌∷◌,
  String_eq, ℕ_eq, ◌==◌, arith, All, ltb, update_rows, count_rows, Bool-cases, eq_iff,
}
use mini_coder.Store.Rows.{QueuedEvent}
use mini_coder.Handlers.Evolution.{Pointwise, Pointwise-refl, Pointwise-trans, Distinct}
use mini_coder.Queue.{
  QueueOptions, Claimed, Queue, can_claim, claim_of, claim_row, deliver, fail, is_claimed,
  is_delivered, is_renewable, is_stuck, is_waiting, put_back, recover, reset, renew, settle,
  start_processing,
}
use mini_coder.Queue.Worker.{Deed, is_given, perform, perform_all}
use mini_coder.Queue.Fits.{
  Fits, IsSound, Final, Final-trans, All-map, update_rows-All, update_rows-Final,
  update_rows-event_ids, raised-All, claimed_processing, processing_open, given-All, waiting_open,
  claim_of-Fits,
}

-- A sound queue, in which no delivered row has changed, and no claim is forgotten.
pub record Kept (options : QueueOptions) (q q' : Queue) : Type 0 where
  pub sound : IsSound options q'
  pub final : Pointwise Final q.rows q'.rows
  pub remembered : (c : Claimed) → is_given c q.claims ≡ true → is_given c q'.claims ≡ true

module _ {options : QueueOptions} where
  pub Kept-refl : {q : Queue} → IsSound options q → Kept options q q
  Kept-refl s = record {
    sound = s;
    final = Pointwise-refl Final (λ r. inr refl) _;
    remembered = λ c h. h;
  }

  pub Kept-trans : {q r s : Queue} → Kept options q r → Kept options r s → Kept options q s
  Kept-trans a b = record {
    sound = b.sound;
    final = Pointwise-trans Final Final-trans a.final b.final;
    remembered = λ c h. b.remembered c (a.remembered c h);
  }

  -- An update of rows that are not delivered, which keeps ids, claims that fit, and the bound.
  pub update-Kept :
      (q : Queue) (p : QueuedEvent → Bool) (f : QueuedEvent → QueuedEvent)
      → IsSound options q
      → ((r : QueuedEvent) → (f r).id ≡ r.id)
      → ((r : QueuedEvent)
          → All (λ c. Fits c r) q.claims
          → p r ≡ true
          → All (λ c. Fits c (f r)) q.claims × (is_delivered r.status ≡ false))
      → ((r : QueuedEvent)
          → r.attempts ≤ options.max_attempts
          → p r ≡ true
          → (f r).attempts ≤ options.max_attempts)
      → Kept options q (record q { rows = update_rows p f q.rows })
  update-Kept q p f s ids fits below = record {
    sound = record {
      distinct =
          subst Distinct (sym (update_rows-event_ids (λ r. Unit {0}) p f ids q.rows)) s.distinct;
      fit = update_rows-All _ p f (λ r h hit. (fits r h hit).0) q.rows s.fit;
      rows_below = update_rows-All _ p f below q.rows s.rows_below;
      claims_below = s.claims_below;
    };
    final = update_rows-Final _ p f (λ r h hit. inl (fits r h hit).1) q.rows s.fit;
    remembered = λ c h. h;
  }

  pub recover-Kept :
      (now : ℕ) (q : Queue)
      → IsSound options q
      → Kept options q (record q { rows = recover options now q.rows })
  unfolding recover
  recover-Kept now q s =
      update-Kept q (is_stuck options now) (reset now) s (λ r. refl)
        (λ r h hit. (raised-All q.claims r (reset now r) refl refl h, ground (arith, hit)))
        (λ r h hit. h)

  pub settle-Kept :
      (c : Claimed) (change : QueuedEvent → QueuedEvent) (q : Queue)
      → IsSound options q
      → is_given c q.claims ≡ true
      → ((r : QueuedEvent) → (change r).id ≡ r.id)
      → ((r : QueuedEvent) → (change r).version ≡ r.version + 1)
      → ((r : QueuedEvent)
          → r.attempts ≤ options.max_attempts
          → (change r).attempts ≤ options.max_attempts)
      → Kept options q (settle c change q)
  settle-Kept c change q s given ids raises below =
      update-Kept q (is_claimed c) change s ids
        (λ r h hit. (
          raised-All q.claims r (change r) (ids r) (raises r) h,
          processing_open r
              (claimed_processing c r (given-All (λ c. Fits c r) c q.claims given h) hit),
        ))
        (λ r h hit. below r h)

  pub renew-Kept :
      (now : ℕ) (c : Claimed) (q : Queue) → IsSound options q → Kept options q (renew now c q)
  unfolding renew
  renew-Kept now c q s =
      update-Kept q (is_renewable c) _ s (λ r. refl)
        (λ r h hit. (All-map q.claims (λ d f. f) h, ground (arith, hit))) (λ r h hit. h)

  pub put_back-Kept :
      (now : ℕ) (c : Claimed) (q : Queue)
      → IsSound options q
      → is_given c q.claims ≡ true
      → Kept options q (settle c (put_back options now) q)
  put_back-Kept now c q s given =
      settle-Kept c (put_back options now) q s given (λ r. refl) (λ r. refl) (λ r h. h)

  pub deliver-Kept :
      (now : ℕ) (c : Claimed) (q : Queue)
      → IsSound options q
      → is_given c q.claims ≡ true
      → Kept options q (settle c (deliver now) q)
  deliver-Kept now c q s given =
      settle-Kept c (deliver now) q s given (λ r. refl) (λ r. refl) (λ r h. h)

  pub fail-Kept :
      (now : ℕ) (c : Claimed) (q : Queue)
      → IsSound options q
      → is_given c q.claims ≡ true
      → Kept options q (settle c (fail options now c) q)
  fail-Kept now c q s given =
      let below : c.attempts < options.max_attempts =
        given-All (λ c. c.attempts < options.max_attempts) c q.claims given s.claims_below in
      settle-Kept c (fail options now c) q s given (λ r. refl) (λ r. refl) (λ r h. omega arith)

  pub claim_row-Kept :
      (now : ℕ) (read : QueuedEvent) (q : Queue)
      → IsSound options q
      → read.attempts < options.max_attempts
      → Kept options q (claim_row now read q)
  unfolding claim_row
  claim_row-Kept now read q s due =
      let k =
        update-Kept q (can_claim read) (start_processing now) s (λ r. refl)
          (λ r h hit. (
            raised-All q.claims r (start_processing now r) refl refl h,
            waiting_open r (ground (arith, hit)),
          ))
          (λ r h hit. h) in
      elim (Bool-cases (count_rows (can_claim read) q.rows == 0)) [
        | inl missed ↦ rw missed k
        | inr hit ↦ rw hit (record {
          sound = record {
            distinct = k.sound.distinct;
            fit = both _ (claim_of-Fits now read q.rows s.distinct hit) k.sound.fit;
            rows_below = k.sound.rows_below;
            claims_below = (due, s.claims_below);
          };
          final = k.final;
          remembered = λ c h. ground (arith, h);
        })
      ]
    where
      both :
          (rows : List QueuedEvent)
          → All (Fits (claim_of read)) rows
          → All (λ r. All (λ c. Fits c r) q.claims) rows
          → All (λ r. All (λ c. Fits c r) (claim_of read ∷ q.claims)) rows
      both [] a b = tt
      both (r ∷ rows) a b = ((a.0, b.0), both rows a.1 b.1)

-- The claim is given where a row was claimed.
pub claim_row-given :
    (now : ℕ) (read : QueuedEvent) (q : Queue)
    → (count_rows (can_claim read) q.rows == 0) ≡ false
    → is_given (claim_of read) (claim_row now read q).claims ≡ true
unfolding claim_row
claim_row-given now read q hit = rw hit (ground (arith, eq_iff read.id read.id))

-- Whatever another worker does.
pub perform-Kept :
    (options : QueueOptions) (d : Deed) (q : Queue)
    → IsSound options q
    → Kept options q (perform options d q)
unfolding perform
perform-Kept options (Deed.recovers now) q s = recover-Kept now q s
perform-Kept options (Deed.claims now read) q s =
    elim (Bool-cases (is_waiting read.status && ltb read.attempts options.max_attempts)) [
      | inl due ↦ rw due (claim_row-Kept now read q s (ground (arith, due)))
      | inr late ↦ rw late (Kept-refl s)
    ]
perform-Kept options (Deed.renews now c) q s = elim (Bool-cases (is_given c q.claims)) [
  | inl given ↦ rw given (renew-Kept now c q s)
  | inr alien ↦ rw alien (Kept-refl s)
]
perform-Kept options (Deed.puts_back now c) q s = elim (Bool-cases (is_given c q.claims)) [
  | inl given ↦ rw given (put_back-Kept now c q s given)
  | inr alien ↦ rw alien (Kept-refl s)
]
perform-Kept options (Deed.delivers now c) q s = elim (Bool-cases (is_given c q.claims)) [
  | inl given ↦ rw given (deliver-Kept now c q s given)
  | inr alien ↦ rw alien (Kept-refl s)
]
perform-Kept options (Deed.fails now c) q s = elim (Bool-cases (is_given c q.claims)) [
  | inl given ↦ rw given (fail-Kept now c q s given)
  | inr alien ↦ rw alien (Kept-refl s)
]

pub perform_all-Kept :
    (options : QueueOptions) (ds : List Deed) (q : Queue)
    → IsSound options q
    → Kept options q (perform_all options ds q)
perform_all-Kept options [] q s = Kept-refl s
perform_all-Kept options (d ∷ ds) q s =
    let first = perform-Kept options d q s in
    Kept-trans first (perform_all-Kept options ds (perform options d q) first.sound)

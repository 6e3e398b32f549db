-- ===== src/Queue/Fits.antt =====
-- What holds of the queue however many workers there are and however their statements interleave.
use mini_coder.Common.{
  ℕ, ◌+◌, ◌≤◌, ◌<◌, ◌≡◌, ◌≢◌, refl, sym, subst, ◌∙◌, ◌⊎◌, inl, inr, Bool, true, false, ◌&&◌, List,
  [], ◌∷◌, String, String_eq, ℕ_eq, ◌==◌, arith, All, map, update_rows, count_rows, Bool-cases,
  eq_iff,
}
use mini_coder.Store.Rows.{QueuedEvent}
use mini_coder.Queue.Worker.{is_given}
use mini_coder.Handlers.Evolution.{Pointwise, done, and_then, Distinct}
use mini_coder.Queue.{
  QueueOptions, Claimed, Queue, can_claim, claim_of, is_claimed, is_delivered, is_processing,
  is_waiting, start_processing,
}

-- A claim and a row of its id: the row has moved on, or it is still in process for this claim.
abbrev pub Fits : Claimed → QueuedEvent → Type 0
Fits c r =
    (r.id ≢ c.id)
    ⊎ (c.version < r.version)
    ⊎ ((c.version ≡ r.version) × (is_processing r.status ≡ true))

abbrev pub event_ids : List QueuedEvent → List String
event_ids = map λ r. r.id

pub record IsSound (options : QueueOptions) (q : Queue) : Type 0 where
  pub distinct : Distinct (event_ids q.rows)
  pub fit : All (λ r. All (λ c. Fits c r) q.claims) q.rows
  pub rows_below : All (λ r. r.attempts ≤ options.max_attempts) q.rows
  pub claims_below : All (λ c. c.attempts < options.max_attempts) q.claims

-- A row that was delivered is as it was.
abbrev pub Final : QueuedEvent → QueuedEvent → Type 0
Final r r' = (is_delivered r.status ≡ false) ⊎ (r' ≡ r)

pub Final-trans : (r s t : QueuedEvent) → Final r s → Final s t → Final r t
Final-trans r s t (inl open_yet) k = inl open_yet
Final-trans r s t (inr e) (inl open_yet) =
    inl (subst (λ x. is_delivered x.status ≡ false) e open_yet)
Final-trans r s t (inr e) (inr f) = inr (f ∙ e)

pub All-map {ℓ κ μ} :
    {A : Type ℓ} {P : A → Type κ} {Q : A → Type μ} (xs : List A)
    → ((a : A) → P a → Q a)
    → All P xs
    → All Q xs
All-map [] f h = tt
All-map (x ∷ xs) f h = (f x h.0, All-map xs f h.1)

-- An update of the rows of a test.
module _ {κ} (P : QueuedEvent → Type κ) (p : QueuedEvent → Bool)
    (f : QueuedEvent → QueuedEvent) where
  pub update_rows-All :
      ((r : QueuedEvent) → P r → p r ≡ true → P (f r))
      → (rows : List QueuedEvent) → All P rows
      → All P (update_rows p f rows)
  update_rows-All k [] h = tt
  update_rows-All k (r ∷ rows) h = elim (Bool-cases (p r)) [
    | inl hit ↦ rw hit (k r h.0 hit, update_rows-All k rows h.1)
    | inr miss ↦ rw miss (h.0, update_rows-All k rows h.1)
  ]

  pub update_rows-Final :
      ((r : QueuedEvent) → P r → p r ≡ true → Final r (f r))
      → (rows : List QueuedEvent) → All P rows
      → Pointwise Final rows (update_rows p f rows)
  update_rows-Final k [] h = done
  update_rows-Final k (r ∷ rows) h = elim (Bool-cases (p r)) [
    | inl hit ↦ rw hit (and_then (k r h.0 hit) (update_rows-Final k rows h.1))
    | inr miss ↦ rw miss (and_then (inr refl) (update_rows-Final k rows h.1))
  ]

  pub update_rows-event_ids :
      ((r : QueuedEvent) → (f r).id ≡ r.id)
      → (rows : List QueuedEvent) → event_ids (update_rows p f rows) ≡ event_ids rows
  update_rows-event_ids k [] = refl
  update_rows-event_ids k (r ∷ rows) = elim (Bool-cases (p r)) [
    | inl hit ↦ rw (hit, k r, update_rows-event_ids k rows)
    | inr miss ↦ rw (miss, update_rows-event_ids k rows)
  ]

-- A change that keeps the id and raises the version keeps every claim fitting.
pub raised-Fits :
    (c : Claimed) (r r' : QueuedEvent)
    → r'.id ≡ r.id
    → r'.version ≡ r.version + 1
    → Fits c r
    → Fits c r'
raised-Fits c r r' i v (inl other) = inl (λ e. other (sym i ∙ e))
raised-Fits c r r' i v (inr (inl moved)) = inr (inl (omega arith))
raised-Fits c r r' i v (inr (inr (same, busy))) = inr (inl (omega arith))

-- The claim that is given fits every row, where the ids are distinct.
module _ (now : ℕ) (read : QueuedEvent) where
  others_fit :
      (rows : List QueuedEvent) (id : String)
      → id ≡ read.id
      → All (λ l. l ≢ id) (event_ids rows)
      → All (Fits (claim_of read)) (update_rows (can_claim read) (start_processing now) rows)
  others_fit [] id e h = tt
  others_fit (r ∷ rows) id e h =
      let other : r.id ≢ read.id = λ f. h.0 (f ∙ sym e) in
      elim (Bool-cases (can_claim read r)) [
        | inl hit ↦ rw hit (inl other, others_fit rows id e h.1)
        | inr miss ↦ rw miss (inl other, others_fit rows id e h.1)
      ]

  claimed_id :
      (rows : List QueuedEvent) (id : String)
      → (count_rows (can_claim read) rows == 0) ≡ false
      → All (λ l. l ≢ id) (event_ids rows)
      → id ≢ read.id
  claimed_id [] id c h = cc
  claimed_id (r ∷ rows) id c h = elim (Bool-cases (can_claim read r)) [
    | inl hit ↦ λ e. h.0 ((eq_iff r.id read.id).0 (ground (arith, hit)) ∙ sym e)
    | inr miss ↦ claimed_id rows id (ground (arith, c, miss)) h.1
  ]

  pub claim_of-Fits :
      (rows : List QueuedEvent)
      → Distinct (event_ids rows)
      → (count_rows (can_claim read) rows == 0) ≡ false
      → All (Fits (claim_of read)) (update_rows (can_claim read) (start_processing now) rows)
  claim_of-Fits [] d c = cc
  claim_of-Fits (r ∷ rows) d c = elim (Bool-cases (can_claim read r)) [
    | inl hit ↦ rw hit (
      inr (inr (ground (arith, hit), refl)),
      others_fit rows r.id ((eq_iff r.id read.id).0 (ground (arith, hit))) d.0,
    )
    | inr miss ↦
        let more : (count_rows (can_claim read) rows == 0) ≡ false = ground (arith, c, miss) in
        rw miss (inl (claimed_id rows r.id more d.0), claim_of-Fits rows d.1 more)
  ]

pub raised-All :
    (claims : List Claimed) (r r' : QueuedEvent)
    → r'.id ≡ r.id
    → r'.version ≡ r.version + 1
    → All (λ c. Fits c r) claims
    → All (λ c. Fits c r') claims
raised-All claims r r' i v = All-map claims λ c. raised-Fits c r r' i v

-- A claim that fits ends, or is renewed.
pub claimed_processing :
    (c : Claimed) (r : QueuedEvent)
    → Fits c r
    → is_claimed c r ≡ true
    → is_processing r.status ≡ true
claimed_processing c r (inl other) hit = absurd (other ((eq_iff r.id c.id).0 (ground (arith, hit))))
claimed_processing c r (inr (inl moved)) hit = absurd (ground (arith, moved, hit))
claimed_processing c r (inr (inr (same, busy))) hit = busy

pub processing_open :
    (r : QueuedEvent) → is_processing r.status ≡ true → is_delivered r.status ≡ false
processing_open r h = ground (arith, h)

pub given-All :
    (P : Claimed → Type 0) (c : Claimed) (claims : List Claimed)
    → is_given c claims ≡ true
    → All P claims
    → P c
given-All P c [] g h = cc
given-All P c (d ∷ claims) g h =
    elim (Bool-cases (d.id == c.id && (d.version == c.version && d.attempts == c.attempts))) [
      | inl hit ↦ subst P (same hit) h.0
      | inr miss ↦ given-All P c claims (ground (arith, g, miss)) h.1
    ]
  where
    same : (d.id == c.id && (d.version == c.version && d.attempts == c.attempts)) ≡ true → d ≡ c
    same hit = ground (arith, hit, eq_iff d.id c.id)

pub waiting_open : (r : QueuedEvent) → is_waiting r.status ≡ true → is_delivered r.status ≡ false
waiting_open r h = ground (arith, h)

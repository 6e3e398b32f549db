-- ===== src/Queue/Settling.antt =====
-- packages/workflow/src/outbox/dispatcher.ts: a claim settles its row at most once.
use mini_coder.Common.{
  ℕ, ◌+◌, ◌≤◌, ◌<◌, ◌≡◌, ◌≢◌, refl, sym, ◌∙◌, ◌⊎◌, inl, inr, Bool, true, false, ◌&&◌, List, [], ◌∷◌,
  ◌==◌, ℕ_eq, String_eq, arith, All, ltb, update_rows, count_rows, Bool-cases, eq_iff,
}
use mini_coder.Store.Rows.{QueuedEvent}
use mini_coder.Queue.{
  QueueOptions, Claimed, Queue, can_claim, claim_row, deliver, fail, is_claimed, is_renewable,
  is_stuck, is_waiting, put_back, recover, renew, reset, start_processing,
}
use mini_coder.Queue.Worker.{Deed, is_given, perform, perform_all}
use mini_coder.Queue.Fits.{Fits, IsSound, given-All, update_rows-All}

-- The row of a claim is gone past it.
abbrev MovedOn : Claimed → QueuedEvent → Type 0
MovedOn c r = (r.id ≢ c.id) ⊎ (c.version < r.version)

module _ (c : Claimed) where
  later-MovedOn :
      (r r' : QueuedEvent) → r'.id ≡ r.id → r.version ≤ r'.version → MovedOn c r → MovedOn c r'
  later-MovedOn r r' i v (inl other) = inl (λ e. other (sym i ∙ e))
  later-MovedOn r r' i v (inr moved) = inr (omega arith)

  missed : (r : QueuedEvent) → Fits c r → is_claimed c r ≡ false → MovedOn c r
  missed r (inl other) m = inl other
  missed r (inr (inl moved)) m = inr moved
  missed r (inr (inr (same, busy))) m = elim (Bool-cases (r.id == c.id)) [
    | inl e ↦ absurd (ground (arith, e, same, m))
    | inr f ↦ inl (λ e. cc ((eq_iff r.id c.id).1 e, f))
  ]

  settled_rows :
      (change : QueuedEvent → QueuedEvent) (rows : List QueuedEvent)
      → ((r : QueuedEvent) → (change r).id ≡ r.id)
      → ((r : QueuedEvent) → (change r).version ≡ r.version + 1)
      → All (Fits c) rows
      → All (MovedOn c) (update_rows (is_claimed c) change rows)
  settled_rows change [] i v h = tt
  settled_rows change (r ∷ rows) i v h = elim (Bool-cases (is_claimed c r)) [
    | inl hit ↦
        let same : c.version ≡ r.version = ground (arith, hit) in
        rw hit (inr (omega (arith, same, v r)), settled_rows change rows i v h.1)
    | inr miss ↦ rw miss (missed r h.0 miss, settled_rows change rows i v h.1)
  ]

  not_claimed :
      (rows : List QueuedEvent) → All (MovedOn c) rows → count_rows (is_claimed c) rows ≡ 0
  not_claimed [] h = refl
  not_claimed (r ∷ rows) h = elim h.0 [
    | inl other ↦ elim (Bool-cases (r.id == c.id)) [
      | inl e ↦ absurd (other ((eq_iff r.id c.id).0 e))
      | inr f ↦ ground (arith, f, not_claimed rows h.1)
    ]
    | inr moved ↦ ground (arith, moved, not_claimed rows h.1)
  ]

  change-MovedOn :
      (p : QueuedEvent → Bool) (f : QueuedEvent → QueuedEvent) (rows : List QueuedEvent)
      → ((r : QueuedEvent) → (f r).id ≡ r.id)
      → ((r : QueuedEvent) → r.version ≤ (f r).version)
      → All (MovedOn c) rows
      → All (MovedOn c) (update_rows p f rows)
  change-MovedOn p f rows i v h =
      update_rows-All (MovedOn c) p f (λ r m hit. later-MovedOn r (f r) (i r) (v r) m) rows h

  perform-MovedOn :
      (options : QueueOptions) (d : Deed) (q : Queue)
      → All (MovedOn c) q.rows
      → All (MovedOn c) (perform options d q).rows
  unfolding perform recover claim_row renew
  perform-MovedOn options (Deed.recovers now) q h =
      change-MovedOn (is_stuck options now) (reset now) q.rows (λ r. refl) (λ r. omega arith) h
  perform-MovedOn options (Deed.claims now read) q h =
      elim (Bool-cases (is_waiting read.status && ltb read.attempts options.max_attempts)) [
        | inl due ↦ rw due (
            change-MovedOn (can_claim read) (start_processing now) q.rows (λ r. refl)
              (λ r. omega arith) h)
        | inr late ↦ rw late h
      ]
  perform-MovedOn options (Deed.renews now d) q h = elim (Bool-cases (is_given d q.claims)) [
    | inl given ↦ rw given (
        change-MovedOn (is_renewable d) (λ r. record r { updated_at = now }) q.rows (λ r. refl)
          (λ r. omega arith) h)
    | inr alien ↦ rw alien h
  ]
  perform-MovedOn options (Deed.puts_back now d) q h = elim (Bool-cases (is_given d q.claims)) [
    | inl given ↦ rw given (
        change-MovedOn (is_claimed d) (put_back options now) q.rows (λ r. refl) (λ r. omega arith)
          h)
    | inr alien ↦ rw alien h
  ]
  perform-MovedOn options (Deed.delivers now d) q h = elim (Bool-cases (is_given d q.claims)) [
    | inl given ↦
        rw given
          (change-MovedOn (is_claimed d) (deliver now) q.rows (λ r. refl) (λ r. omega arith) h)
    | inr alien ↦ rw alien h
  ]
  perform-MovedOn options (Deed.fails now d) q h = elim (Bool-cases (is_given d q.claims)) [
    | inl given ↦
        rw given (
          change-MovedOn (is_claimed d) (fail options now d) q.rows (λ r. refl) (λ r. omega arith)
            h)
    | inr alien ↦ rw alien h
  ]

  perform_all-MovedOn :
      (options : QueueOptions) (ds : List Deed) (q : Queue)
      → All (MovedOn c) q.rows
      → All (MovedOn c) (perform_all options ds q).rows
  perform_all-MovedOn options [] q h = h
  perform_all-MovedOn options (d ∷ ds) q h =
      perform_all-MovedOn options ds (perform options d q) (perform-MovedOn options d q h)

-- The three ways in which a claim is settled.
pub data Settles (c : Claimed) : Deed → Type 0 where
  back : (now : ℕ) → Settles c (Deed.puts_back now c)
  delivered : (now : ℕ) → Settles c (Deed.delivers now c)
  failed : (now : ℕ) → Settles c (Deed.fails now c)

settled-MovedOn :
    {d : Deed} (options : QueueOptions) (c : Claimed) (q : Queue)
    → Settles c d
    → is_given c q.claims ≡ true
    → All (Fits c) q.rows
    → All (MovedOn c) (perform options d q).rows
unfolding perform
settled-MovedOn options c q (Settles.back now) g h =
    rw g (settled_rows c (put_back options now) q.rows (λ r. refl) (λ r. refl) h)
settled-MovedOn options c q (Settles.delivered now) g h =
    rw g (settled_rows c (deliver now) q.rows (λ r. refl) (λ r. refl) h)
settled-MovedOn options c q (Settles.failed now) g h =
    rw g (settled_rows c (fail options now c) q.rows (λ r. refl) (λ r. refl) h)

given_rows :
    (c : Claimed) (claims : List Claimed) (rows : List QueuedEvent)
    → is_given c claims ≡ true
    → All (λ r. All (λ d. Fits d r) claims) rows
    → All (Fits c) rows
given_rows c claims [] g h = tt
given_rows c claims (r ∷ rows) g h =
    (given-All (λ d. Fits d r) c claims g h.0, given_rows c claims rows g h.1)

-- In a sound queue, once a claim that was given is settled (the row delivered, failed or put back),
-- it matches no row any more, whatever the workers do afterwards: neither a second end nor a late
-- one has an effect.
pub settled_once :
    (options : QueueOptions) (c : Claimed) (d : Deed) (later : List Deed) (q : Queue)
    → IsSound options q
    → is_given c q.claims ≡ true
    → Settles c d
    → count_rows (is_claimed c) (perform_all options later (perform options d q)).rows ≡ 0
settled_once options c d later q s given e =
    not_claimed c (perform_all options later (perform options d q)).rows (
      perform_all-MovedOn c options later (perform options d q)
        (settled-MovedOn options c q e given (given_rows c q.claims q.rows given s.fit)))

-- ===== src/Queue/Batch.antt =====
-- packages/workflow/src/outbox/dispatcher.ts: which rows a poll takes.
use mini_coder.Common.{
  ℕ, zero, suc, ◌+◌, ◌-◌, ◌≡◌, refl, ap, inl, inr, Bool, true, false, not, ◌&&◌, List, [], ◌∷◌,
  ◌++◌, String, arith, All, length, length-append, length-where_rows, leb, min, where_rows,
  count_rows, Bool-cases,
}
use mini_coder.Store.Rows.{QueuedEvent}
use mini_coder.Queue.{
  QueueOptions, batch, has_type, insert_by_age, is_due, limit, oldest_first, select_due,
}

-- Sorting and cutting off keep what holds of all rows.
module _ {κ} (P : QueuedEvent → Type κ) where
  insert_by_age-All :
      (r : QueuedEvent) (rows : List QueuedEvent) → P r → All P rows → All P (insert_by_age r rows)
  unfolding insert_by_age
  insert_by_age-All r [] p h = (p, tt)
  insert_by_age-All r (s ∷ rows) p h = elim (Bool-cases (leb r.created_at s.created_at)) [
    | inl older ↦ rw older (p, h)
    | inr younger ↦ rw younger (h.0, insert_by_age-All r rows p h.1)
  ]

  oldest_first-All : (rows : List QueuedEvent) → All P rows → All P (oldest_first rows)
  unfolding oldest_first
  oldest_first-All [] h = tt
  oldest_first-All (r ∷ rows) h =
      insert_by_age-All r (oldest_first rows) h.0 (oldest_first-All rows h.1)

  limit-All : (n : ℕ) (rows : List QueuedEvent) → All P rows → All P (limit n rows)
  unfolding limit
  limit-All zero rows h = tt
  limit-All (suc n) [] h = tt
  limit-All (suc n) (r ∷ rows) h = (h.0, limit-All n rows h.1)

  pub append-All : (xs ys : List QueuedEvent) → All P xs → All P ys → All P (xs ++ ys)
  append-All [] ys h k = k
  append-All (x ∷ xs) ys h k = (h.0, append-All xs ys h.1 k)

length-insert_by_age :
    (r : QueuedEvent) (rows : List QueuedEvent) → length (insert_by_age r rows) ≡ length rows + 1
unfolding insert_by_age
length-insert_by_age r [] = omega arith
length-insert_by_age r (s ∷ rows) = ground (arith, length-insert_by_age r rows)

length-oldest_first : (rows : List QueuedEvent) → length (oldest_first rows) ≡ length rows
unfolding oldest_first
length-oldest_first [] = refl
length-oldest_first (r ∷ rows) =
    omega (arith, length-insert_by_age r (oldest_first rows), length-oldest_first rows)

length-limit : (n : ℕ) (rows : List QueuedEvent) → length (limit n rows) ≡ min n (length rows)
unfolding limit
length-limit zero rows = omega arith
length-limit (suc n) [] = omega arith
length-limit (suc n) (r ∷ rows) = omega (arith, length-limit n rows)

module _ (wanted : QueuedEvent → Bool) where
  where_rows-wanted :
      (rows : List QueuedEvent) → All (λ r. wanted r ≡ true) (where_rows wanted rows)
  where_rows-wanted [] = tt
  where_rows-wanted (r ∷ rows) = elim (Bool-cases (wanted r)) [
    | inl hit ↦ rw hit (hit, where_rows-wanted rows)
    | inr miss ↦ rw miss (where_rows-wanted rows)
  ]

  select_due-wanted :
      (n : ℕ) (rows : List QueuedEvent) → All (λ r. wanted r ≡ true) (select_due wanted n rows)
  unfolding select_due
  select_due-wanted n rows =
      limit-All _ n (oldest_first (where_rows wanted rows))
        (oldest_first-All _ (where_rows wanted rows) (where_rows-wanted rows))

  length-select_due :
      (n : ℕ) (rows : List QueuedEvent)
      → length (select_due wanted n rows) ≡ min n (count_rows wanted rows)
  unfolding select_due
  length-select_due n rows = omega (
    arith,
    length-limit n (oldest_first (where_rows wanted rows)),
    length-oldest_first (where_rows wanted rows),
    length-where_rows wanted rows,
  )

-- Rows that all pass, or all fail, a test.
module _ (p : QueuedEvent → Bool) where
  count_rows-All :
      (rows : List QueuedEvent) → All (λ r. p r ≡ true) rows → count_rows p rows ≡ length rows
  count_rows-All [] h = refl
  count_rows-All (r ∷ rows) h = ground (arith, count_rows-All rows h.1)

  count_rows_none : (rows : List QueuedEvent) → All (λ r. p r ≡ false) rows → count_rows p rows ≡ 0
  count_rows_none [] h = refl
  count_rows_none (r ∷ rows) h = ground (arith, count_rows_none rows h.1)

  count_rows-append :
      (xs ys : List QueuedEvent) → count_rows p (xs ++ ys) ≡ count_rows p xs + count_rows p ys
  count_rows-append [] ys = omega arith
  count_rows-append (x ∷ xs) ys = omega (arith, count_rows-append xs ys)

  count_rows-split :
      (q : QueuedEvent → Bool) (rows : List QueuedEvent)
      → count_rows p rows
        ≡ count_rows (λ r. p r && q r) rows + count_rows (λ r. p r && not (q r)) rows
  count_rows-split q [] = refl
  count_rows-split q (r ∷ rows) = ground (arith, count_rows-split q rows)

weaken-All :
    {P Q : QueuedEvent → Type 0} (rows : List QueuedEvent)
    → ((r : QueuedEvent) → P r → Q r)
    → All P rows
    → All Q rows
weaken-All [] f h = tt
weaken-All (r ∷ rows) f h = (f r h.0, weaken-All rows f h.1)

count_rows-untyped :
    (rows : List QueuedEvent) (p : QueuedEvent → Bool)
    → count_rows (λ r. p r && has_type [] r) rows ≡ 0
count_rows-untyped [] p = refl
count_rows-untyped (r ∷ rows) p = ground (arith, count_rows-untyped rows p)

-- What a poll takes: only rows that are due, as many as there are and the batch has room for, and
-- of the known types as many as if there were no others.
pub record IsBatch (options : QueueOptions) (now : ℕ) (known : List String)
    (rows later taken : List QueuedEvent) : Type 0 where
  pub all_due : All (λ r. is_due options now r ≡ true) taken
  pub size :
      length taken
      ≡ min options.batch_size (
          count_rows (λ r. is_due options now r && has_type known r) rows
          + count_rows (λ r. is_due options now r && not (has_type known r)) later)
  pub size_at_rest :
      rows ≡ later → length taken ≡ min options.batch_size (count_rows (is_due options now) rows)
  pub known_first :
      count_rows (has_type known) taken
      ≡ min options.batch_size (count_rows (λ r. is_due options now r && has_type known r) rows)

-- What a poll takes, also where the table has changed between its two SELECTs: every row of the
-- batch was due; the batch has as many rows as were due, those of known types at the first SELECT
-- and the others at the second, up to its size; and it has as many rows of a known type as were due,
-- up to its size, so that rows of unknown types never take their place.
pub batch-IsBatch :
    (options : QueueOptions) (now : ℕ) (known : List String) (rows later : List QueuedEvent)
    → IsBatch options now known rows later (batch options now known rows later)
unfolding batch
batch-IsBatch options now [] rows later =
    let due = is_due options now in
    let all_due = select_due-wanted due options.batch_size later in
    let untyped = count_rows-untyped rows due in
    let here = count_rows-untyped later due in
    let split = count_rows-split due (has_type []) later in
    let size = length-select_due due options.batch_size later in
    record {
      all_due = all_due;
      size = omega (arith, size, untyped, here, split);
      size_at_rest = λ same. omega (arith, size, ap (count_rows due) same);
      known_first = omega (
        arith,
        count_rows_none (has_type []) (select_due due options.batch_size later)
            (weaken-All _ (λ r h. refl) all_due),
        untyped,
      );
    }
batch-IsBatch options now (t ∷ ts) rows later =
    let due = is_due options now in
    let known = λ (r : QueuedEvent). due r && has_type (t ∷ ts) r in
    let other = λ (r : QueuedEvent). due r && not (has_type (t ∷ ts) r) in
    let first = select_due known options.batch_size rows in
    let rest = select_due other (options.batch_size - length first) later in
    let first_known = select_due-wanted known options.batch_size rows in
    let rest_other = select_due-wanted other (options.batch_size - length first) later in
    let size = length-select_due known options.batch_size rows in
    record {
      all_due =
          append-All _ first rest (weaken-All first (λ r h. ground (arith, h)) first_known)
            (weaken-All rest (λ r h. ground (arith, h)) rest_other);
      size = omega (
        arith,
        length-append first rest,
        size,
        length-select_due other (options.batch_size - length first) later,
      );
      size_at_rest = λ same. omega (
        arith,
        length-append first rest,
        size,
        length-select_due other (options.batch_size - length first) later,
        ap (count_rows other) same,
        count_rows-split due (has_type (t ∷ ts)) rows,
      );
      known_first = omega (
        arith,
        count_rows-append (has_type (t ∷ ts)) first rest,
        count_rows-All (has_type (t ∷ ts)) first
            (weaken-All first (λ r h. ground (arith, h)) first_known),
        count_rows_none (has_type (t ∷ ts)) rest
            (weaken-All rest (λ r h. ground (arith, h)) rest_other),
        size,
      );
    }

-- ===== src/Reconcile/Mirror.antt =====
-- packages/core/src/commands/handlers/github/pull-request-row.ts: the mirror of what the code host
-- reports of a pull request, and packages/core/src/scm/client.ts, what it reports.
use mini_coder.Common.{
  ℕ, ◌+◌, ◌≡◌, refl, inl, inr, Bool, true, false, not, ◌&&◌, Option, none, some, List, [], ◌∷◌,
  String, ◌==◌, ℕ_eq, String_eq, arith, eq_iff, option_beq, find, update_rows, if◌then◌else◌,
  Bool-cases, Option-cases,
}
use mini_coder.Store.Rows.{PullRequest}
use mini_coder.Store.{Db, Env}
use mini_coder.Handlers.Github.{get_pull_request}

-- `ObservedPullRequestState`.
pub record Observed : Type 0 where
  pub pr_number : ℕ
  pub branch_name : String
  pub base_branch : String
  pub head_sha : Option String
  pub state : String
  pub review_state : String
  pub ci_status : String
  pub mergeable : Option Bool
  pub blocking_labels : List String
  pub conversations_resolved : Bool
  pub merged_at : Option ℕ
  pub merge_sha : Option String
  pub closed_at : Option ℕ

abbrev pub same_bool : Bool → Bool → Bool
same_bool true b = b
same_bool false b = not b

-- `mergeableUnchanged`.
abbrev pub same_mergeable : Option Bool → Option Bool → Bool
same_mergeable none none = true
same_mergeable none (some b) = false
same_mergeable (some a) none = false
same_mergeable (some a) (some b) = same_bool a b

-- `labelsEqual`: the same texts in the same order.
abbrev pub labels_equal : List String → List String → Bool
labels_equal [] [] = true
labels_equal [] (m ∷ ms) = false
labels_equal (l ∷ ls) [] = false
labels_equal (l ∷ ls) (m ∷ ms) = l == m && labels_equal ls ms

unfoldable pub is_unchanged : Observed → PullRequest → Bool
is_unchanged o r =
    option_beq r.head_sha o.head_sha
    && (r.state == o.state
        && (r.review_state == o.review_state
            && (r.ci_status == o.ci_status
                && (same_mergeable r.mergeable o.mergeable
                    && (labels_equal r.blocking_labels o.blocking_labels
                        && (same_bool r.conversations_resolved o.conversations_resolved
                            && (option_beq r.merged_at o.merged_at
                                && (option_beq r.merge_sha o.merge_sha
                                    && option_beq r.closed_at o.closed_at))))))))

abbrev pub mirror : Env → Observed → PullRequest → PullRequest
mirror env o r = record r {
  head_sha = o.head_sha;
  state = o.state;
  review_state = o.review_state;
  ci_status = o.ci_status;
  mergeable = o.mergeable;
  blocking_labels = o.blocking_labels;
  conversations_resolved = o.conversations_resolved;
  merged_at = o.merged_at;
  merge_sha = o.merge_sha;
  closed_at = o.closed_at;
  version = r.version + 1;
  updated_at = env.now;
}

abbrev pub of_run : String → PullRequest → Bool
of_run run_id r = r.feature_run_id == run_id

unfoldable pub mirror_rows :
    Env → String → Observed → Option PullRequest → List PullRequest → List PullRequest
mirror_rows env run_id o none rows = rows
mirror_rows env run_id o (some existing) rows =
    if is_unchanged o existing then rows else update_rows (of_run run_id) (mirror env o) rows

-- `syncPullRequestObservedState`.
abbrev pub sync_pull_request_observed_state : Env → String → Observed → Db → Db
sync_pull_request_observed_state env run_id o db = record db {
  pull_requests = mirror_rows env run_id o (get_pull_request run_id db) db.pull_requests;
}

same_bool_refl : (b : Bool) → same_bool b b ≡ true
same_bool_refl true = refl
same_bool_refl false = refl

same_mergeable_refl : (o : Option Bool) → same_mergeable o o ≡ true
same_mergeable_refl none = refl
same_mergeable_refl (some b) = same_bool_refl b

labels_equal_refl : (ls : List String) → labels_equal ls ls ≡ true
labels_equal_refl [] = refl
labels_equal_refl (l ∷ ls) = rw ((eq_iff l l).1 refl) (labels_equal_refl ls)

same_text_refl : (o : Option String) → option_beq o o ≡ true
same_text_refl none = refl
same_text_refl (some s) = (eq_iff s s).1 refl

same_time_refl : (o : Option ℕ) → option_beq o o ≡ true
same_time_refl none = refl
same_time_refl (some n) = ground arith

mirror-is_unchanged :
    (env : Env) (o : Observed) (r : PullRequest) → is_unchanged o (mirror env o r) ≡ true
unfolding is_unchanged
mirror-is_unchanged env o r = ground (
  arith,
  same_text_refl o.head_sha,
  (eq_iff o.state o.state).1 refl,
  (eq_iff o.review_state o.review_state).1 refl,
  (eq_iff o.ci_status o.ci_status).1 refl,
  same_mergeable_refl o.mergeable,
  labels_equal_refl o.blocking_labels,
  same_bool_refl o.conversations_resolved,
  same_time_refl o.merged_at,
  same_text_refl o.merge_sha,
  same_time_refl o.closed_at,
)

find-mirror :
    (env : Env) (run_id : String) (o : Observed) (existing : PullRequest) (rows : List PullRequest)
    → find (of_run run_id) rows ≡ some existing
    → find (of_run run_id) (update_rows (of_run run_id) (mirror env o) rows)
      ≡ some (mirror env o existing)
find-mirror env run_id o existing [] h = cc
find-mirror env run_id o existing (r ∷ rows) h = elim (Bool-cases (of_run run_id r)) [
  | inl hit ↦ ground (arith, hit, h)
  | inr miss ↦ ground (arith, miss, h, find-mirror env run_id o existing rows)
]

-- The mirror settles at once: a second pass with the same observation changes nothing, whatever the
-- time, so that neither the version nor the time of the row moves.
pub sync_twice :
    (env env' : Env) (run_id : String) (o : Observed) (db : Db)
    → sync_pull_request_observed_state env' run_id o
        (sync_pull_request_observed_state env run_id o db)
      ≡ sync_pull_request_observed_state env run_id o db
unfolding mirror_rows
sync_twice env env' run_id o db = elim (Option-cases (get_pull_request run_id db)) [
  | inl missing ↦ rw missing (rw missing refl)
  | inr (existing, found) ↦ elim (Bool-cases (is_unchanged o existing)) [
    | inl same ↦ rw (found, same) (rw (found, same) refl)
    | inr changed ↦
        rw (found, changed)
          (rw
            (
              find-mirror env run_id o existing db.pull_requests found,
              mirror-is_unchanged env o existing,
            )
            refl)
  ]
]

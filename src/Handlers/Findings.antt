-- ===== src/Handlers/Findings.antt =====
-- packages/core/src/review/write-findings.ts, the findings' part of record-code-pushed.ts, and
-- packages/core/src/commands/handlers/github/pull-request-row.ts.
use mini_coder.Common.{
  ℕ, suc, ◌+◌, Bool, true, false, ◌&&◌, Option, none, some, List, [], ◌∷◌, String, ◌==◌, ℕ_eq,
  String_eq, any, update_rows, count_rows, if◌then◌else◌,
}
use mini_coder.Domain.{FindingSeverity}
use mini_coder.Store.Rows.{ReviewFinding}
use mini_coder.Store
use mini_coder.Store.{Db, Env, Error, constraint_error, M, pure, ◌>>=◌, ◌>>◌, query, execute}
use mini_coder.Command.Helpers.{reject_if}
use mini_coder.Command.Text.{to_text, ◌&◌}

-- `ReviewFindingInsert`.
pub record NewFinding : Type 0 where
  pub severity : FindingSeverity
  pub category : String
  pub description : String
  pub file_path : Option String
  pub line_start : Option ℕ
  pub line_end : Option ℕ

unfoldable pub finding_id : String → ℕ → ℕ → String
finding_id run_id review_cycle index =
    "review-finding:" & (run_id & (":" & (to_text review_cycle & (":" & to_text index))))

abbrev pub finding_row : Env → String → String → Option String → ℕ → NewFinding → ReviewFinding
finding_row env id run_id reviewer_run_id review_cycle f = record {
  id = id;
  feature_run_id = run_id;
  reviewer_run_id = reviewer_run_id;
  review_cycle = review_cycle;
  severity = f.severity;
  category = f.category;
  description = f.description;
  file_path = f.file_path;
  line_start = f.line_start;
  line_end = f.line_end;
  resolved = false;
  resolved_by_run_id = none;
  version = 1;
  updated_at = env.now;
}

-- `INSERT … ON CONFLICT (id) DO NOTHING`.
abbrev pub insert_new : ReviewFinding → List ReviewFinding → List ReviewFinding
insert_new row rows = if any (λ r. r.id == row.id) rows then rows else row ∷ rows

-- The rows of the findings from `index` on.
unfoldable pub add_findings :
    Env → String → Option String → ℕ → ℕ → List NewFinding → List ReviewFinding → List ReviewFinding
add_findings env run_id reviewer_run_id review_cycle index [] rows = rows
add_findings env run_id reviewer_run_id review_cycle index (f ∷ fs) rows =
    add_findings env run_id reviewer_run_id review_cycle (suc index) fs (
      insert_new
        (finding_row env (finding_id run_id review_cycle index) run_id reviewer_run_id review_cycle
          f)
        rows)

-- `insertReviewFindings`.
abbrev pub insert_review_findings :
    Env → String → Option String → ℕ → List NewFinding → M (Unit {0})
insert_review_findings env run_id reviewer_run_id review_cycle findings = execute λ db. record db {
  review_findings =
      add_findings env run_id reviewer_run_id review_cycle 0 findings db.review_findings;
}

abbrev pub of_finding : String → String → ReviewFinding → Bool
of_finding finding run_id f = f.id == finding && f.feature_run_id == run_id

abbrev pub resolve : Env → String → ReviewFinding → ReviewFinding
resolve env coder_run_id f = record f {
  resolved = true;
  resolved_by_run_id = some coder_run_id;
  version = f.version + 1;
  updated_at = env.now;
}

abbrev optimistic_note : String
optimistic_note =
    "Optimistic: coder push completed without per-finding disposition (Phase 10 simplification)"

-- The audit row of a finding that the push resolved; `id` is the table's primary key.
abbrev pub insert_response : Env → String → String → String → M (Unit {0})
insert_response env run_id coder_run_id finding =
    let id = "coder-response:" & (run_id & (":" & finding)) in
    do
      taken ← query λ db. any (λ r. r.id == id) db.coder_responses
      reject_if taken (constraint_error "coder_responses")
      execute λ db. record db {
        coder_responses =
            record {
              id = id;
              finding_id = finding;
              coder_run_id = coder_run_id;
              response_type = "fixed";
              notes = some optimistic_note;
              updated_at = env.now;
            }
            ∷ db.coder_responses;
      }

-- One turn of the loop over `resolvedFindingIds`.
abbrev pub resolve_finding : Env → String → String → String → M (Unit {0})
resolve_finding env run_id coder_run_id finding = do
  affected ← λ db. Store.ok (
    count_rows (of_finding finding run_id) db.review_findings,
    record db {
      review_findings =
          update_rows (of_finding finding run_id) (resolve env coder_run_id) db.review_findings;
    },
  )
  if affected == 0 then pure tt else insert_response env run_id coder_run_id finding

unfoldable pub resolve_findings : Env → String → String → List String → M (Unit {0})
resolve_findings env run_id coder_run_id [] = pure tt
resolve_findings env run_id coder_run_id (finding ∷ findings) =
    resolve_finding env run_id coder_run_id finding
    >> resolve_findings env run_id coder_run_id findings

-- `if (resolvedFindingIds && … && coderRunId)`: an empty id counts as none.
unfoldable pub resolve_pushed : Env → String → Option String → List String → M (Unit {0})
resolve_pushed env run_id none findings = pure tt
resolve_pushed env run_id (some coder_run_id) findings =
    if coder_run_id == "" then pure tt else resolve_findings env run_id coder_run_id findings

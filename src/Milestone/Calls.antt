-- ===== src/Milestone/Calls.antt =====
-- Sequences of calls of the milestone store (server/src/db/milestone-store.ts), in memory and over
-- SQL.
use learnvault.Prelude.{ℕ, ◌≡◌, refl, String, Option, List, [], ◌∷◌}
use learnvault.Milestone.Types.{
  MilestoneReportStatus, MilestoneReport, NewReport, OracleResult, Store, status_row, oracle_row,
}
use learnvault.Milestone.Memory
use learnvault.Milestone.Sql
use learnvault.Milestone.Invariant.{
  IsWellFormed, create_report-IsWellFormed, assign-IsWellFormed, submit_appeal-IsWellFormed,
}
use learnvault.Milestone.Agreement.{create_report-agrees, assign-agrees, submit_appeal-agrees}

-- One call of the store that changes reports.
pub data Call : Type 0 where
  create : NewReport → Call
  set_status : ℕ → MilestoneReportStatus → Call
  set_oracle : ℕ → OracleResult → Call
  appeal : ℕ → String → Call

unfoldable pub in_memory : ℕ → Call → Store → Option MilestoneReport × Store
in_memory now (create d) s = Memory.create_report now d s
in_memory now (set_status id status) s = Memory.update_report_status id status s
in_memory now (set_oracle id result) s = Memory.set_oracle_result now id result s
in_memory now (appeal id reason) s = Memory.submit_appeal now id reason s

unfoldable pub in_sql : ℕ → Call → Store → Option MilestoneReport × Store
in_sql now (create d) s = Sql.create_report now d s
in_sql now (set_status id status) s = Sql.update_report_status id status s
in_sql now (set_oracle id result) s = Sql.set_oracle_result now id result s
in_sql now (appeal id reason) s = Sql.submit_appeal now id reason s

pub in_memory-agrees :
    (now : ℕ) (c : Call) (s : Store) → IsWellFormed s → in_memory now c s ≡ in_sql now c s
unfolding in_memory in_sql Memory.update_report_status Memory.set_oracle_result
    Sql.update_report_status Sql.set_oracle_result
in_memory-agrees now (create d) s w = create_report-agrees now d s w
in_memory-agrees now (set_status id status) s w = assign-agrees id (status_row status) s w
in_memory-agrees now (set_oracle id result) s w = assign-agrees id (oracle_row now result) s w
in_memory-agrees now (appeal id reason) s w = submit_appeal-agrees now id reason s w

pub in_memory-IsWellFormed :
    (now : ℕ) (c : Call) (s : Store) → IsWellFormed s → IsWellFormed (in_memory now c s).1
unfolding in_memory Memory.update_report_status Memory.set_oracle_result
in_memory-IsWellFormed now (create d) s w = create_report-IsWellFormed now d s w
in_memory-IsWellFormed now (set_status id status) s w =
    assign-IsWellFormed id (status_row status) s (λ r. refl) (λ r. refl) w
in_memory-IsWellFormed now (set_oracle id result) s w =
    assign-IsWellFormed id (oracle_row now result) s (λ r. refl) (λ r. refl) w
in_memory-IsWellFormed now (appeal id reason) s w = submit_appeal-IsWellFormed now id reason s w

abbrev pub Run : Type 0
Run = ℕ → Call → Store → Option MilestoneReport × Store

-- The results of a sequence of calls, and the store after them.
unfoldable pub run_calls : Run → List (ℕ × Call) → Store → List (Option MilestoneReport) × Store
run_calls f [] s = ([], s)
run_calls f ((now, c) ∷ calls) s =
    let (rest, last) = run_calls f calls (f now c s).1 in ((f now c s).0 ∷ rest, last)

abbrev pub empty : Store
empty = record { reports = []; audit_log = []; report_seq = 1; audit_seq = 1 }

run_calls-agrees_from :
    (calls : List (ℕ × Call)) (s : Store)
    → IsWellFormed s
    → run_calls in_memory calls s ≡ run_calls in_sql calls s
unfolding run_calls
run_calls-agrees_from [] s w = refl
run_calls-agrees_from ((now, c) ∷ calls) s w = rw (
  ← in_memory-agrees now c s w,
  run_calls-agrees_from calls (in_memory now c s).1 (in_memory-IsWellFormed now c s w),
)

-- From empty tables, any sequence of calls that create reports, set statuses or oracle results, or
-- submit appeals has the same results and the same reports in memory as over SQL.
pub run_calls-agrees :
    (calls : List (ℕ × Call)) → run_calls in_memory calls empty ≡ run_calls in_sql calls empty
run_calls-agrees calls =
    run_calls-agrees_from calls empty (record { distinct = tt; below = tt; one_each = tt })

run_calls-IsWellFormed_from :
    (calls : List (ℕ × Call)) (s : Store)
    → IsWellFormed s
    → IsWellFormed (run_calls in_memory calls s).1
unfolding run_calls
run_calls-IsWellFormed_from [] s w = w
run_calls-IsWellFormed_from ((now, c) ∷ calls) s w =
    run_calls-IsWellFormed_from calls (in_memory now c s).1 (in_memory-IsWellFormed now c s w)

-- After any sequence of calls from empty tables, report ids are distinct and below the counter, and
-- no two reports are for the same scholar, course and milestone.
pub run_calls-IsWellFormed :
    (calls : List (ℕ × Call)) → IsWellFormed (run_calls in_memory calls empty).1
run_calls-IsWellFormed calls =
    run_calls-IsWellFormed_from calls empty (record { distinct = tt; below = tt; one_each = tt })

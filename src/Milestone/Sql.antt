-- ===== src/Milestone/Sql.antt =====
-- The object `milestoneStore` of server/src/db/milestone-store.ts over Postgres: its queries on the
-- tables milestone_reports and milestone_audit_log. Each query is one step; an INSERT that meets the
-- UNIQUE constraint is the error DUPLICATE_REPORT.
use mathlib.Core.Option
use learnvault.Prelude.{
  ℕ, suc, String, Option, none, some, [], ◌∷◌, ◌++◌, Bool, ◌&&◌, any, find?, if◌then◌else◌,
}
use learnvault.Prelude.Rows.{update}
use learnvault.Milestone.Types.{
  MilestoneReportStatus, rejected, MilestoneReport, NewReport, OracleResult, Store, status_eq,
  has_id, is_same_milestone, resubmit_row, new_row, status_row, oracle_row, appeal_row,
}

-- `UPDATE milestone_reports SET f WHERE hit RETURNING *`, of which the caller reads the first row.
abbrev pub update_returning :
    (MilestoneReport → Bool)
    → (MilestoneReport → MilestoneReport)
    → Store
    → Option MilestoneReport × Store
update_returning hit f s =
    (Option.map f (find? hit s.reports), record s { reports = update hit f s.reports })

abbrev pub create_after :
    ℕ → NewReport → Store → Option MilestoneReport → Option MilestoneReport × Store
create_after now d s (some existing) =
    if status_eq existing.status rejected
    then update_returning (has_id existing.id) (resubmit_row now d) s
    else (none, s)
create_after now d s none = if any (is_same_milestone d) s.reports then (none, s) else (
  some (new_row now s.report_seq d),
  record s {
    reports = s.reports ++ new_row now s.report_seq d ∷ [];
    report_seq = suc s.report_seq;
  },
)

unfoldable pub create_report : ℕ → NewReport → Store → Option MilestoneReport × Store
create_report now d s = create_after now d s (find? (is_same_milestone d) s.reports)

unfoldable pub update_report_status :
    ℕ → MilestoneReportStatus → Store → Option MilestoneReport × Store
update_report_status id status s = update_returning (has_id id) (status_row status) s

unfoldable pub set_oracle_result : ℕ → ℕ → OracleResult → Store → Option MilestoneReport × Store
set_oracle_result now id result s = update_returning (has_id id) (oracle_row now result) s

unfoldable pub submit_appeal : ℕ → ℕ → String → Store → Option MilestoneReport × Store
submit_appeal now id reason s =
    update_returning (λ r. has_id id r && status_eq r.status rejected) (appeal_row now reason) s

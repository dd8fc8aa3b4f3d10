-- ===== src/Milestone/Memory.antt =====
-- The class `InMemoryMilestoneStore` of server/src/db/milestone-store.ts: each method takes the
-- moment where it reads the clock, and returns its result beside the store after it.
use learnvault.Prelude.{
  ℕ, suc, String, Option, none, some, List, [], ◌∷◌, ◌++◌, Bool, true, ◌&&◌, find?, filter, length,
  ◌==◌, str_eq, if◌then◌else◌,
}
use learnvault.Prelude.Rows.{update_first}
use learnvault.Prelude.Sort.{sort_desc, page_of}
use learnvault.Milestone.Types.{
  MilestoneReportStatus, pending, rejected, MilestoneReport, MilestoneAuditEntry, NewReport,
  NewAuditEntry, OracleResult, Filters, Store, status_eq, has_id, is_same_milestone, resubmit_row,
  new_row, status_row, oracle_row, appeal_row, audit_row,
}

unfoldable pub get_pending_reports : Store → List MilestoneReport
get_pending_reports s = filter (λ r. status_eq r.status pending) s.reports

-- `courseId ? report.course_id === courseId : true`; "" is falsy.
abbrev pub passes_course : Option String → MilestoneReport → Bool
passes_course none r = true
passes_course (some c) r = if str_eq c "" then true else str_eq r.course_id c

abbrev pub passes_status : Option MilestoneReportStatus → MilestoneReport → Bool
passes_status none r = true
passes_status (some st) r = status_eq r.status st

-- The filtered reports, latest first.
unfoldable pub selected : Filters → List MilestoneReport → List MilestoneReport
selected f rows =
    sort_desc (λ (r : MilestoneReport). r.submitted_at)
      (filter (passes_status f.status) (filter (passes_course f.course_id) rows))

unfoldable pub list_reports : Filters → ℕ → ℕ → Store → List MilestoneReport × ℕ
list_reports f page page_size s =
    (page_of page page_size (selected f s.reports), length (selected f s.reports))

unfoldable pub get_report_by_id : ℕ → Store → Option MilestoneReport
get_report_by_id id s = find? (has_id id) s.reports

unfoldable pub get_reports_for_scholar : String → Filters → Store → List MilestoneReport
unfolding selected
get_reports_for_scholar scholar f s =
    selected f (filter (λ r. str_eq r.scholar_address scholar) s.reports)

-- The part of `createReport` after the search for an earlier report; `none` is the error
-- DUPLICATE_REPORT.
abbrev pub create_after :
    ℕ → NewReport → Store → Option MilestoneReport → Option MilestoneReport × Store
create_after now d s (some existing) =
    if status_eq existing.status rejected
    then (
      some (resubmit_row now d existing),
      record s { reports = update_first (is_same_milestone d) (resubmit_row now d) s.reports },
    )
    else (none, s)
create_after now d s none = (
  some (new_row now s.report_seq d),
  record s {
    reports = s.reports ++ new_row now s.report_seq d ∷ [];
    report_seq = suc s.report_seq;
  },
)

unfoldable pub create_report : ℕ → NewReport → Store → Option MilestoneReport × Store
create_report now d s = create_after now d s (find? (is_same_milestone d) s.reports)

-- `reports.find(r => r.id === id)`, then assignments to the report found.
abbrev pub assign_after :
    ℕ
    → (MilestoneReport → MilestoneReport)
    → Store
    → Option MilestoneReport
    → Option MilestoneReport × Store
assign_after id f s none = (none, s)
assign_after id f s (some report) =
    (some (f report), record s { reports = update_first (has_id id) f s.reports })

abbrev pub assign : ℕ → (MilestoneReport → MilestoneReport) → Store → Option MilestoneReport × Store
assign id f s = assign_after id f s (find? (has_id id) s.reports)

unfoldable pub update_report_status :
    ℕ → MilestoneReportStatus → Store → Option MilestoneReport × Store
update_report_status id status s = assign id (status_row status) s

unfoldable pub set_oracle_result : ℕ → ℕ → OracleResult → Store → Option MilestoneReport × Store
set_oracle_result now id result s = assign id (oracle_row now result) s

abbrev pub appeal_after :
    ℕ → ℕ → String → Store → Option MilestoneReport → Option MilestoneReport × Store
appeal_after now id reason s none = (none, s)
appeal_after now id reason s (some report) =
    if status_eq report.status rejected
    then assign_after id (appeal_row now reason) s (some report)
    else (none, s)

unfoldable pub submit_appeal : ℕ → ℕ → String → Store → Option MilestoneReport × Store
submit_appeal now id reason s = appeal_after now id reason s (find? (has_id id) s.reports)

unfoldable pub add_audit_entry : ℕ → NewAuditEntry → Store → MilestoneAuditEntry × Store
add_audit_entry now e s = (
  audit_row now s.audit_seq e,
  record s {
    audit_log = s.audit_log ++ audit_row now s.audit_seq e ∷ [];
    audit_seq = suc s.audit_seq;
  },
)

unfoldable pub get_audit_for_report : ℕ → Store → List MilestoneAuditEntry
get_audit_for_report report_id s = filter (λ e. e.report_id == report_id) s.audit_log

abbrev pub is_of_course : String → String → MilestoneReport → Bool
is_of_course scholar course r = str_eq r.scholar_address scholar && str_eq r.course_id course

-- `totalMilestones` and `approvedCount`.
unfoldable pub get_milestone_progress : String → String → Store → ℕ × ℕ
get_milestone_progress scholar course s =
    let all_for_course = filter (is_of_course scholar course) s.reports in
    (
      length all_for_course,
      length (filter (λ r. status_eq r.status MilestoneReportStatus.approved) all_for_course),
    )

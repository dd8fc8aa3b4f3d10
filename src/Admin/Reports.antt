-- ===== src/Admin/Reports.antt =====
-- The handlers of server/src/controllers/milestone-submit.controller.ts and
-- milestone-resubmit.controller.ts. The check of GitHub evidence, which a submission starts and does not
-- wait for, is done before the answer.
use learnvault.Prelude.{ℕ, String, Option, none, some, not, ◌==◌, str_eq, if◌then◌else◌}
use learnvault.Milestone.Types.{MilestoneReportStatus, MilestoneReport, NewReport, status_eq}
use learnvault.Milestone.Memory.{get_report_by_id}
use learnvault.Milestone.Sql.{create_report}
use learnvault.Http.{answer, or_fail, read, call, ◌>>=◌, ◌>>◌, reject_if, is_blank}
use learnvault.Admin.Desk.{Desk, World, OracleAnswer, answered, with_store, mark_activity}
use learnvault.Admin.Decisions.{Action, modify, is_long, store_oracle}

-- The body, with the fields of its two spellings joined.
pub record Submission : Type 0 where
  pub scholar_address : Option String
  pub course_id : Option String
  pub milestone_id : Option ℕ
  pub evidence_github : Option String
  pub evidence_ipfs_cid : Option String
  pub evidence_description : Option String

unfoldable pub store_report : ℕ → NewReport → Desk → Option MilestoneReport × Desk
store_report now row d =
    ((create_report now row d.store).0, with_store (λ s. (create_report now row s).1) d)

abbrev pub named : Option String → Option String
named none = none
named (some text) = if str_eq text "" then none else some text

abbrev pub cleaned : World → Option String → Option String
cleaned w none = none
cleaned w (some text) = if str_eq text "" then some text else some (w.sanitize text)

abbrev pub checked : ℕ → MilestoneReport → OracleAnswer → Desk → Desk
checked now r (answered result) d = store_oracle now r.id result d
checked now r other d = d

abbrev pub check_evidence : World → ℕ → MilestoneReport → Desk → Desk
check_evidence w now r d = if is_blank r.evidence_github then d else checked now r (w.oracle r) d

unfoldable pub submit_milestone_report : World → ℕ → Submission → Action MilestoneReport
submit_milestone_report w now body = do
  scholar ← or_fail (named body.scholar_address) 400 "Invalid request body"
  course ← or_fail (named body.course_id) 400 "Invalid request body"
  milestone ← or_fail body.milestone_id 400 "Invalid request body"
  reject_if (is_long w 2000 body.evidence_description) 400
      "Evidence description must be 2000 characters or fewer"
  created ← call (
      store_report now (record {
        scholar_address = scholar;
        course_id = course;
        milestone_id = milestone;
        evidence_github = body.evidence_github;
        evidence_ipfs_cid = body.evidence_ipfs_cid;
        evidence_description = cleaned w body.evidence_description;
      }))
  r ← or_fail created 409 "A report for this milestone has already been submitted"
  modify (mark_activity now scholar course)
  modify (check_evidence w now r)
  answer r

abbrev pub or_else : Option String → Option String → Option String
or_else none old = old
or_else (some new) old = some new

unfoldable pub resubmit_milestone_report :
    ℕ → ℕ → Option String → Option String → Option String → Action MilestoneReport
resubmit_milestone_report now id github ipfs description = do
  reject_if (id == 0) 400 "Milestone report ID is required"
  found ← read (λ d. get_report_by_id id d.store)
  r ← or_fail found 404 "Milestone report not found"
  reject_if (not (status_eq r.status MilestoneReportStatus.rejected)) 400
      "Only rejected milestones can be resubmitted"
  updated ← call (
      store_report now (record {
        scholar_address = r.scholar_address;
        course_id = r.course_id;
        milestone_id = r.milestone_id;
        evidence_github = or_else github r.evidence_github;
        evidence_ipfs_cid = or_else ipfs r.evidence_ipfs_cid;
        evidence_description = or_else description r.evidence_description;
      }))
  or_fail updated 500 "Failed to resubmit milestone report"

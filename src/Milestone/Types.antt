-- ===== src/Milestone/Types.antt =====
-- The rows of server/src/db/milestone-store.ts. A moment is a number of milliseconds, whose order is
-- that of the ISO texts which the source compares. The columns that other queries join for display
-- (titles, e-mail, peer counts) are left out, and JSON details are texts.
use learnvault.Prelude.{ℕ, ◌+◌, String, Option, none, some, List, Bool, ◌==◌, ◌&&◌, str_eq}

pub data MilestoneReportStatus : Type 0 where
  pending approved rejected appealed final_rejected : MilestoneReportStatus

pub data MilestoneAuditDecision : Type 0 where
  approved rejected appeal_approved appeal_rejected : MilestoneAuditDecision

pub record MilestoneReport : Type 0 where
  pub id : ℕ
  pub scholar_address : String
  pub course_id : String
  pub milestone_id : ℕ
  pub evidence_github : Option String
  pub evidence_ipfs_cid : Option String
  pub evidence_description : Option String
  pub status : MilestoneReportStatus
  pub submitted_at : ℕ
  pub resubmission_count : ℕ
  pub appeal_reason : Option String
  pub appeal_submitted_at : Option ℕ
  pub oracle_verified : Option Bool
  pub oracle_evidence_hash : Option String
  pub oracle_checked_at : Option ℕ
  pub oracle_detail : Option String

pub record MilestoneAuditEntry : Type 0 where
  pub id : ℕ
  pub report_id : ℕ
  pub validator_address : String
  pub decision : MilestoneAuditDecision
  pub rejection_reason : Option String
  pub contract_tx_hash : Option String
  pub decided_at : ℕ

-- What `createReport` takes.
pub record NewReport : Type 0 where
  pub scholar_address : String
  pub course_id : String
  pub milestone_id : ℕ
  pub evidence_github : Option String
  pub evidence_ipfs_cid : Option String
  pub evidence_description : Option String

-- What `addAuditEntry` takes.
pub record NewAuditEntry : Type 0 where
  pub report_id : ℕ
  pub validator_address : String
  pub decision : MilestoneAuditDecision
  pub rejection_reason : Option String
  pub contract_tx_hash : Option String

-- `OracleResultInput`
pub record OracleResult : Type 0 where
  pub verified : Bool
  pub evidence_hash : String
  pub detail : String

-- A missing or empty filter lets every report pass.
pub record Filters : Type 0 where
  pub course_id : Option String
  pub status : Option MilestoneReportStatus

-- The fields of `InMemoryMilestoneStore`, and the two tables with their SERIAL counters.
pub record Store : Type 0 where
  pub reports : List MilestoneReport
  pub audit_log : List MilestoneAuditEntry
  pub report_seq : ℕ
  pub audit_seq : ℕ

abbrev pub status_code : MilestoneReportStatus → ℕ
status_code pending = 0
status_code MilestoneReportStatus.approved = 1
status_code MilestoneReportStatus.rejected = 2
status_code appealed = 3
status_code final_rejected = 4

abbrev pub status_eq : MilestoneReportStatus → MilestoneReportStatus → Bool
status_eq a b = status_code a == status_code b

abbrev pub has_id : ℕ → MilestoneReport → Bool
has_id id r = r.id == id

-- The triple by which `createReport` looks for an earlier report.
abbrev pub is_same_milestone : NewReport → MilestoneReport → Bool
is_same_milestone d r =
    str_eq r.scholar_address d.scholar_address
    && str_eq r.course_id d.course_id
    && r.milestone_id == d.milestone_id

-- The changes to a row: a resubmission, a new report, an oracle result, an appeal.
abbrev pub resubmit_row : ℕ → NewReport → MilestoneReport → MilestoneReport
resubmit_row now d r = record r {
  evidence_github = d.evidence_github;
  evidence_ipfs_cid = d.evidence_ipfs_cid;
  evidence_description = d.evidence_description;
  status = pending;
  submitted_at = now;
  resubmission_count = r.resubmission_count + 1;
}

abbrev pub new_row : ℕ → ℕ → NewReport → MilestoneReport
new_row now id d = record {
  id = id;
  scholar_address = d.scholar_address;
  course_id = d.course_id;
  milestone_id = d.milestone_id;
  evidence_github = d.evidence_github;
  evidence_ipfs_cid = d.evidence_ipfs_cid;
  evidence_description = d.evidence_description;
  status = pending;
  submitted_at = now;
  resubmission_count = 0;
  appeal_reason = none;
  appeal_submitted_at = none;
  oracle_verified = none;
  oracle_evidence_hash = none;
  oracle_checked_at = none;
  oracle_detail = none;
}

abbrev pub status_row : MilestoneReportStatus → MilestoneReport → MilestoneReport
status_row status r = record r { status = status }

abbrev pub oracle_row : ℕ → OracleResult → MilestoneReport → MilestoneReport
oracle_row now result r = record r {
  oracle_verified = some result.verified;
  oracle_evidence_hash = some result.evidence_hash;
  oracle_checked_at = some now;
  oracle_detail = some result.detail;
}

abbrev pub appeal_row : ℕ → String → MilestoneReport → MilestoneReport
appeal_row now reason r = record r {
  status = appealed;
  appeal_reason = some reason;
  appeal_submitted_at = some now;
}

abbrev pub audit_row : ℕ → ℕ → NewAuditEntry → MilestoneAuditEntry
audit_row now id e = record {
  id = id;
  report_id = e.report_id;
  validator_address = e.validator_address;
  decision = e.decision;
  rejection_reason = e.rejection_reason;
  contract_tx_hash = e.contract_tx_hash;
  decided_at = now;
}

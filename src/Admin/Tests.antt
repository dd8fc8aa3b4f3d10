-- ===== src/Admin/Tests.antt =====
-- The handlers of milestone reports on a short history.
use learnvault.Prelude.{ℕ, ◌≡◌, refl, String, some, none, List, [], ◌∷◌, true, false}
use learnvault.Milestone.Types.{MilestoneReportStatus, pending, MilestoneReport, OracleResult}
use learnvault.Milestone.Memory.{get_report_by_id, add_audit_entry}
use learnvault.Milestone.Sql.{create_report, update_report_status, set_oracle_result, submit_appeal}
use learnvault.Escrow.Store.{mark_escrow_activity}
use learnvault.Streak.Store.{record_milestone_activity}
use learnvault.Http.{done, failed, answer, or_fail, read, call, reject_if, ◌>>=◌}
use learnvault.Admin.Desk.{
  World, Desk, answered, approve_report, reject_report, set_status, add_audit, mark_activity,
  record_activity,
}
use learnvault.Admin.Decisions.{
  pending_report, pending_batch, store_oracle, approve_milestone, reject_milestone,
  batch_approve_milestones,
}
use learnvault.Admin.Appeals.{appeal_milestone, resolve_appeal, store_appeal, approve_appeal}
use learnvault.Admin.Reports.{Submission, submit_milestone_report, store_report}
use learnvault.Admin.Accounts.{status_in, IsAccounted}
use learnvault.Admin.History.{
  Request, Arrival, submit, approve, reject, batch_approve, appeal, resolve, serve, serve_all,
  opened, approved_once,
}
use learnvault.Admin.Oracle.{batch_skips_oracle}

abbrev unverified : OracleResult
unverified = record { verified = false; evidence_hash = "h"; detail = "closed" }

abbrev world : World
world = record {
  configured = true;
  verify = λ id. some (some "tx");
  reject = λ id. some none;
  release = λ id. some (some "tx");
  oracle = λ r. answered unverified;
  mints = λ a. true;
  milestone_count = λ c. 1;
  pin = λ scholar course. some "ipfs";
  mint_nft = λ scholar uri. some (some 7);
  read_day = λ n. n;
  today = 1;
  trim = λ s. s;
  sanitize = λ s. s;
  text_length = λ s. 5;
}

abbrev report : Submission
report = record {
  scholar_address = some "GA";
  course_id = some "c1";
  milestone_id = some 1;
  evidence_github = some "pr";
  evidence_ipfs_cid = none;
  evidence_description = none;
}

abbrev at : ℕ → String → Request → Arrival
at now user r = record { world = world; now = now; user = user; request = r }

-- A report is rejected, appealed and approved; the approvals that follow are refused.
abbrev history : List Arrival
history =
    at 1 "GA" (submit report)
    ∷ at 2 "admin" (reject (some 1) (some "thin"))
    ∷ at 3 "GA" (appeal (some 1) (some "look again"))
    ∷ at 4 "admin" (resolve (some 1) (some true) none)
    ∷ at 5 "admin" (approve (some 1) true)
    ∷ at 6 "admin" (batch_approve (1 ∷ []))
    ∷ []

abbrev start : Desk
start =
    opened (record { rows = []; events = [] }) (record { streaks = []; activity = []; mints = [] })
      (record { referrals = []; next_id = 1; mints = [] }) []

abbrev waiting : MilestoneReport
waiting = record {
  id = 1;
  scholar_address = "GA";
  course_id = "c1";
  milestone_id = 1;
  evidence_github = some "pr";
  evidence_ipfs_cid = none;
  evidence_description = none;
  status = pending;
  submitted_at = 1;
  resubmission_count = 0;
  appeal_reason = none;
  appeal_submitted_at = none;
  oracle_verified = none;
  oracle_evidence_hash = none;
  oracle_checked_at = none;
  oracle_detail = none;
}

abbrev one_report : Desk
one_report = record start {
  store = record { reports = waiting ∷ []; audit_log = []; report_seq = 2; audit_seq = 1 };
}

approved_once_example : IsAccounted 1 (
    serve_all history (
      opened
        (record { rows = []; events = [] })
        (record { streaks = []; activity = []; mints = [] })
        (record { referrals = []; next_id = 1; mints = [] })
        []))
approved_once_example =
    approved_once history (record { rows = []; events = [] })
      (record { streaks = []; activity = []; mints = [] })
      (record { referrals = []; next_id = 1; mints = [] }) [] 1

batch_skips_oracle_example :
    (approve_milestone world 2 "admin" (some 1) false one_report ≡ (
      failed 422 "GitHub proof-of-work verification failed",
      store_oracle 2 1 unverified one_report,
    ))
    × (batch_approve_milestones world 2 "admin" (1 ∷ []) one_report
        ≡ (done ((1, true) ∷ []), approve_report world 2 "admin" waiting (some "tx") one_report))
unfolding get_report_by_id
batch_skips_oracle_example =
    batch_skips_oracle world 2 "admin" 1 one_report waiting unverified (some "tx") refl refl refl
      refl refl refl refl refl

-- The report is approved, and the contract verified the milestone once.
history_approved :
    (status_in 1 (serve_all history start) ≡ some MilestoneReportStatus.approved)
    × ((serve_all history start).verified ≡ 1 ∷ [])
unfolding serve_all serve submit_milestone_report reject_milestone appeal_milestone resolve_appeal
    approve_milestone batch_approve_milestones pending_report pending_batch store_report
    store_appeal store_oracle create_report update_report_status set_oracle_result submit_appeal
    get_report_by_id add_audit_entry answer or_fail read call reject_if ◌>>=◌ approve_appeal
    reject_report set_status add_audit mark_activity record_activity mark_escrow_activity
    record_milestone_activity
history_approved = (refl, refl)

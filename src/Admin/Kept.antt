-- ===== src/Admin/Kept.antt =====
-- The requests that keep the accounts of the reports while they approve nothing, and the approval of one
-- report (server/src/controllers/admin-milestones.controller.ts, milestone-appeal.controller.ts,
-- milestone-submit.controller.ts, milestone-resubmit.controller.ts).
use learnvault.Prelude.{ℕ, String, Option, Bool, true, false, if◌then◌else◌}
use learnvault.Milestone.Types.{MilestoneReport, NewReport, OracleResult, MilestoneAuditDecision}
use learnvault.Http.{call, or_fail, ◌>>=◌, ◌>>◌, is_blank}
use learnvault.Http.Keeps.{
  Keeps, Keeps-if, Keeps-call, Keeps-Leads, keeps_rules, Leads, Leads-call, Leads-before,
  Leads-after, Leads-guards,
}
use learnvault.Admin.Desk.{
  Desk, World, OracleAnswer, answered, invalid_url, api_error, approve_report, add_audit,
  mark_activity, qualify_referral, release_next_tranche,
}
use learnvault.Admin.Decisions.{
  modify, pending_report, oracle_gate, gate_for, oracle_reply, approve_milestone,
  verify_milestone_oracle, store_oracle,
}
use learnvault.Admin.Appeals.{appeal_milestone, store_appeal}
use learnvault.Admin.Reports.{
  Submission, submit_milestone_report, resubmit_milestone_report, store_report, check_evidence,
  checked,
}
use learnvault.Admin.Accounts.{IsUndecided}
use learnvault.Admin.Effects.{approve_report-Decides}
use learnvault.Admin.Quiet.{
  IsSound, IsQuiet, quiet-IsSound, store_oracle-IsQuiet, store_appeal-IsQuiet, store_report-IsQuiet,
  add_rejection-IsQuiet, store_oracle-IsUndecided, mark_activity-IsQuiet, nothing-IsQuiet,
  qualify_referral-IsQuiet, release_next_tranche-IsQuiet,
}
use learnvault.Admin.Guards.{pending_report-Ends}
use learnvault.Admin.Batch.{decided-IsSound}

modify-Keeps : (f : Desk → Desk) → ((d : Desk) → IsQuiet d (f d)) → Keeps IsSound (modify f)
modify-Keeps f quiet = Keeps-call IsSound (λ d. (tt, f d)) (λ d s. quiet-IsSound (quiet d) s)

module _ (w : World) (now : ℕ) where
  oracle-Keeps :
      (id : ℕ) (result : OracleResult) → Keeps IsSound (modify (store_oracle now id result))
  oracle-Keeps id result = modify-Keeps _ (λ d. store_oracle-IsQuiet now d id result)

  report-Keeps : (row : NewReport) → Keeps IsSound (call (store_report now row))
  report-Keeps row =
      Keeps-call IsSound (store_report now row)
        (λ d s. quiet-IsSound (store_report-IsQuiet now d row) s)

  appeal_stored-Keeps :
      (id : ℕ) (reason : String) → Keeps IsSound (call (store_appeal now id reason))
  appeal_stored-Keeps id reason =
      Keeps-call IsSound (store_appeal now id reason)
        (λ d s. quiet-IsSound (store_appeal-IsQuiet now d id reason) s)

  rejection-Keeps :
      (id : ℕ) (by : String) (reason tx : Option String)
      → Keeps IsSound (modify (add_audit now id by MilestoneAuditDecision.rejected reason tx))
  rejection-Keeps id by reason tx =
      modify-Keeps _ (λ d. add_rejection-IsQuiet now d id by reason tx)

  active-Keeps :
      (scholar course : String) → Keeps IsSound (modify (mark_activity now scholar course))
  active-Keeps scholar course = modify-Keeps _ (λ d. mark_activity-IsQuiet now d scholar course)

  evidence-Keeps : (r : MilestoneReport) → Keeps IsSound (modify (check_evidence w now r))
  evidence-Keeps r =
      modify-Keeps _ (λ d. unless (is_blank r.evidence_github) d _ (quiet d (w.oracle r)))
    where
      quiet : (d : Desk) (a : OracleAnswer) → IsQuiet d (checked now r a d)
      quiet d (answered result) = store_oracle-IsQuiet now d r.id result
      quiet d invalid_url = nothing-IsQuiet d
      quiet d api_error = nothing-IsQuiet d

      unless : (b : Bool) (d d' : Desk) → IsQuiet d d' → IsQuiet d (if b then d else d')
      unless true d d' q = nothing-IsQuiet d
      unless false d d' q = q

  reply-Keeps : (r : MilestoneReport) (a : OracleAnswer) → Keeps IsSound (oracle_reply now r a)
  reply-Keeps r (answered result) = search (keeps_rules, oracle-Keeps)
  reply-Keeps r invalid_url = search keeps_rules
  reply-Keeps r api_error = search keeps_rules

  pub oracle_request-Keeps :
      (param : Option ℕ) → Keeps IsSound (verify_milestone_oracle w now param)
  unfolding verify_milestone_oracle
  oracle_request-Keeps param = search (keeps_rules, reply-Keeps) depth 16

  pub appeal-Keeps :
      (user : Option String) (param : Option ℕ) (reason : Option String)
      → Keeps IsSound (appeal_milestone w now user param reason)
  unfolding appeal_milestone
  appeal-Keeps user param reason =
      search (keeps_rules, appeal_stored-Keeps, rejection-Keeps) depth 24

  pub submit-Keeps : (body : Submission) → Keeps IsSound (submit_milestone_report w now body)
  unfolding submit_milestone_report
  submit-Keeps body = search (keeps_rules, report-Keeps, active-Keeps, evidence-Keeps) depth 24

  pub resubmit-Keeps :
      (id : ℕ) (github ipfs description : Option String)
      → Keeps IsSound (resubmit_milestone_report now id github ipfs description)
  unfolding resubmit_milestone_report
  resubmit-Keeps id github ipfs description = search (keeps_rules, report-Keeps) depth 24

-- A report that waits for its decision, among reports that are accounted for.
abbrev Ready : MilestoneReport → Desk → Type 0
Ready r d = IsSound d × IsUndecided r.id d

module _ (w : World) (now : ℕ) (validator : String) (override : Bool) (r : MilestoneReport) where
  oracle-Ready : (result : OracleResult) → Keeps (Ready r) (modify (store_oracle now r.id result))
  oracle-Ready result =
      Keeps-call (Ready r) (λ d. (tt, store_oracle now r.id result d))
        (λ d h. (
          quiet-IsSound (store_oracle-IsQuiet now d r.id result) h.0,
          store_oracle-IsUndecided now d r.id result r.id h.1,
        ))

  gate-Ready : (a : OracleAnswer) → Keeps (Ready r) (gate_for now override r a)
  gate-Ready (answered result) = search (keeps_rules, oracle-Ready)
  gate-Ready invalid_url = search keeps_rules
  gate-Ready api_error = search keeps_rules

  gate-Keeps : Keeps (Ready r) (oracle_gate w now override r)
  gate-Keeps =
      Keeps-if (Ready r) (is_blank r.evidence_github) _ _ (search keeps_rules)
        (gate-Ready (w.oracle r))

  qualify-Keeps : Keeps IsSound (modify (qualify_referral w now r.scholar_address))
  qualify-Keeps = modify-Keeps _ (qualify_referral-IsQuiet w now r.scholar_address)

  release-Keeps : Keeps IsSound (modify (release_next_tranche w r.scholar_address))
  release-Keeps = modify-Keeps _ (release_next_tranche-IsQuiet w now r.scholar_address)

  approved-Leads :
      (tx : Option String) → Leads (Ready r) IsSound (modify (approve_report w now validator r tx))
  approved-Leads tx =
      Leads-call (Ready r) IsSound (λ d. (tt, approve_report w now validator r tx d))
        (λ d h. decided-IsSound h.1 (approve_report-Decides w now validator r d tx) h.0)

  decision-Leads : Leads (Ready r) IsSound (do
    oracle_gate w now override r
    tx ← or_fail (w.verify r.id) 500 "Failed to approve milestone"
    modify (approve_report w now validator r tx)
    modify (qualify_referral w now r.scholar_address)
    modify (release_next_tranche w r.scholar_address))
  decision-Leads =
      Leads-before (Ready r) IsSound _ _ (λ d h. h.0) gate-Keeps
        (λ _.
          Leads-before (Ready r) IsSound _ _ (λ d h. h.0) (search keeps_rules)
            (λ tx.
              Leads-after (Ready r) IsSound _ _ (approved-Leads tx)
                (λ _. search (keeps_rules, qualify-Keeps, release-Keeps))))

pub approve-Keeps :
    (w : World) (now : ℕ) (validator : String) (param : Option ℕ) (override : Bool)
    → Keeps IsSound (approve_milestone w now validator param override)
unfolding approve_milestone
approve-Keeps w now validator param override = Keeps-Leads IsSound _ (
    Leads-guards IsSound IsSound (pending_report w param) _ (λ r d. IsUndecided r.id d) (λ d s. s)
      (pending_report-Ends w param) (decision-Leads w now validator override))

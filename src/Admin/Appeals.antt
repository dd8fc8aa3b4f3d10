-- ===== src/Admin/Appeals.antt =====
-- The handlers of server/src/controllers/milestone-appeal.controller.ts.
use Prim.Native.String.{◌++◌}
use learnvault.Prelude.{
  ℕ, String, Option, none, some, ◌∷◌, Bool, true, false, not, ◌&&◌, str_eq, if◌then◌else◌,
}
use learnvault.Milestone.Types.{
  MilestoneReportStatus, appealed, final_rejected, MilestoneReport, MilestoneAuditDecision,
  appeal_approved, appeal_rejected, status_eq,
}
use learnvault.Milestone.Memory.{get_report_by_id}
use learnvault.Milestone.Sql.{submit_appeal}
use learnvault.Http.{or_fail, read, call, ◌>>=◌, ◌>>◌, reject_if, is_blank}
use learnvault.Admin.Desk.{Desk, World, with_store, set_status, add_audit, record_activity}
use learnvault.Admin.Decisions.{Action, modify, report_id, is_long, text_of, status_text}

abbrev pub clean : World → Option String → String
clean w reason = w.sanitize (w.trim (text_of reason))

unfoldable pub store_appeal : ℕ → ℕ → String → Desk → Option MilestoneReport × Desk
store_appeal now id reason d =
    ((submit_appeal now id reason d.store).0, with_store (λ s. (submit_appeal now id reason s).1) d)

abbrev pub non_empty : Option String → Option String
non_empty none = none
non_empty (some text) = if str_eq text "" then none else some text

unfoldable pub appeal_milestone :
    World → ℕ → Option String → Option ℕ → Option String → Action (Unit {0})
appeal_milestone w now user param reason = do
  id ← report_id param
  scholar ← or_fail (non_empty user) 401 "Unauthorized"
  reject_if (is_blank reason) 400 "Appeal reason is required"
  reject_if (is_long w 2000 reason) 400 "Appeal reason must be 2000 characters or fewer"
  reject_if (str_eq (clean w reason) "") 400 "Appeal reason is required"
  found ← read (λ d. get_report_by_id id d.store)
  r ← or_fail found 404 "Milestone report not found"
  reject_if (not (str_eq r.scholar_address scholar)) 403 "Forbidden"
  reject_if (not (status_eq r.status MilestoneReportStatus.rejected)) 409 (
      "Cannot appeal a report with status \""
      ++ status_text r.status
      ++ "\". Only rejected reports can be appealed.")
  updated ← call (store_appeal now id (clean w reason))
  _ ←
      or_fail updated 409
        "Appeal could not be submitted. The report may no longer be in rejected state."
  modify (
      add_audit now id scholar MilestoneAuditDecision.rejected
        (some ("Appeal submitted: " ++ clean w reason)) none)

abbrev pub is_missing_reason : World → Option String → Bool
is_missing_reason w none = true
is_missing_reason w (some text) = str_eq (w.trim text) ""

abbrev pub clean_reason : World → Option String → Option String
clean_reason w none = none
clean_reason w (some text) = some (w.sanitize (w.trim text))

-- What an approved appeal does once the contract has answered, if it was asked.
unfoldable pub approve_appeal :
    World → ℕ → String → MilestoneReport → Bool → Option String → Desk → Desk
approve_appeal w now validator r asked tx d =
    let verified : Desk = if asked then record d { verified = r.id ∷ d.verified } else d in
    add_audit now r.id validator appeal_approved none tx (
      record_activity w now r.scholar_address
        (set_status r.id MilestoneReportStatus.approved verified))

abbrev pub emitted : MilestoneReport → Option (Option String) → Desk → Desk
emitted r none d = d
emitted r (some tx) d = record d { rejections = r.id ∷ d.rejections }

-- The rejection event is emitted where there are credentials; that it fails is ignored.
abbrev pub emit_if : World → MilestoneReport → Desk → Desk
emit_if w r d = if w.configured then emitted r (w.reject r.id) d else d

unfoldable pub reject_appeal : World → ℕ → String → MilestoneReport → Option String → Desk → Desk
reject_appeal w now validator r reason d =
    add_audit now r.id validator appeal_rejected reason none
      (set_status r.id final_rejected (emit_if w r d))

-- Without credentials the contract is not asked.
abbrev pub resolved :
    World → ℕ → String → MilestoneReport → Bool → Option String → Action (Unit {0})
resolved w now validator r true reason =
    if w.configured
    then (do
      tx ← or_fail (w.verify r.id) 502 "Contract call failed. Appeal resolution not committed."
      modify (approve_appeal w now validator r true tx))
    else modify (approve_appeal w now validator r false none)
resolved w now validator r false reason =
    modify (reject_appeal w now validator r (clean_reason w reason))

unfoldable pub resolve_appeal :
    World → ℕ → String → Option ℕ → Option Bool → Option String → Action (Unit {0})
resolve_appeal w now validator param approved reason = do
  id ← report_id param
  yes_or_no ← or_fail approved 400 "approved (boolean) is required"
  reject_if (not yes_or_no && is_missing_reason w reason) 400
      "reason is required when rejecting an appeal"
  reject_if (not yes_or_no && is_long w 1000 reason) 400 "reason must be 1000 characters or fewer"
  found ← read (λ d. get_report_by_id id d.store)
  r ← or_fail found 404 "Milestone report not found"
  reject_if (not (status_eq r.status appealed)) 409
      ("Report status is \"" ++ status_text r.status ++ "\", expected \"appealed\"")
  resolved w now validator r yes_or_no reason

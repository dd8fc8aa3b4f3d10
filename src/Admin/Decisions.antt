-- ===== src/Admin/Decisions.antt =====
-- The handlers of server/src/controllers/admin-milestones.controller.ts that decide on reports, with the
-- schema of the batches, server/src/lib/zod-schemas.ts. A handler's first arguments are what the outside
-- answers, its moment and the admin. A call of the contract that throws is answered 500, also where the
-- code gives 503 for an error that says it is not configured.
use Prim.Native.String.{◌++◌}
use learnvault.Prelude.{
  ℕ, String, Option, none, some, List, [], ◌∷◌, Bool, true, false, not, ◌&&◌, ◌||◌, ◌==◌, ltb, any,
  str_eq, if◌then◌else◌,
}
use learnvault.Milestone.Types.{
  MilestoneReportStatus, pending, appealed, final_rejected, MilestoneReport, OracleResult, Store,
  status_eq,
}
use learnvault.Milestone.Memory.{get_report_by_id}
use learnvault.Milestone.Sql.{set_oracle_result}
use learnvault.Http
use learnvault.Http.{
  answer, fail, or_fail, read, call, ◌>>=◌, ◌>>◌, reject_if, is_blank, positive_id,
}
use learnvault.Admin.Desk.{
  Desk, World, OracleAnswer, answered, invalid_url, api_error, with_store, approve_report,
  reject_report, qualify_referral, release_next_tranche,
}

abbrev pub Action : Type 0 → Type 0
Action A = Http.Action Desk A

abbrev pub modify : (Desk → Desk) → Action (Unit {0})
modify f = call (λ d. (tt, f d))

abbrev pub status_text : MilestoneReportStatus → String
status_text pending = "pending"
status_text MilestoneReportStatus.approved = "approved"
status_text MilestoneReportStatus.rejected = "rejected"
status_text appealed = "appealed"
status_text final_rejected = "final_rejected"

abbrev pub report_id : Option ℕ → Action ℕ
report_id param = or_fail (positive_id param) 400 "Invalid milestone report id"

-- The id and the two guards that a single decision starts with.
unfoldable pub pending_report : World → Option ℕ → Action MilestoneReport
pending_report w param = do
  id ← report_id param
  found ← read (λ d. get_report_by_id id d.store)
  r ← or_fail found 404 "Milestone report not found"
  reject_if (not (status_eq r.status pending)) 409 ("Report already " ++ status_text r.status)
  reject_if (not w.configured) 503 "Stellar credentials not configured"
  answer r

unfoldable pub store_oracle : ℕ → ℕ → OracleResult → Desk → Desk
store_oracle now id result d = with_store (λ s. (set_oracle_result now id result s).1) d

abbrev pub gate_for : ℕ → Bool → MilestoneReport → OracleAnswer → Action (Unit {0})
gate_for now override r (answered result) = do
  modify (store_oracle now r.id result)
  reject_if (not result.verified && not override) 422 "GitHub proof-of-work verification failed"
gate_for now override r other =
    reject_if (not override) 422 "GitHub proof-of-work could not be verified"

-- The oracle is asked where there is GitHub evidence, and its result stored.
abbrev pub oracle_gate : World → ℕ → Bool → MilestoneReport → Action (Unit {0})
oracle_gate w now override r =
    if is_blank r.evidence_github then answer tt else gate_for now override r (w.oracle r)

unfoldable pub approve_milestone : World → ℕ → String → Option ℕ → Bool → Action (Unit {0})
approve_milestone w now validator param override = do
  r ← pending_report w param
  oracle_gate w now override r
  tx ← or_fail (w.verify r.id) 500 "Failed to approve milestone"
  modify (approve_report w now validator r tx)
  modify (qualify_referral w now r.scholar_address)
  modify (release_next_tranche w r.scholar_address)

abbrev pub is_long : World → ℕ → Option String → Bool
is_long w n none = false
is_long w n (some text) = ltb n (w.text_length text)

abbrev pub text_of : Option String → String
text_of none = ""
text_of (some text) = text

unfoldable pub reject_milestone : World → ℕ → String → Option ℕ → Option String → Action (Unit {0})
reject_milestone w now validator param reason = do
  _ ← report_id param
  reject_if (is_blank reason) 400 "Rejection reason is required"
  reject_if (is_long w 1000 reason) 400 "Rejection reason must be 1000 characters or fewer"
  r ← pending_report w param
  tx ← or_fail (w.reject r.id) 500 "Failed to reject milestone"
  modify (reject_report w now validator (w.sanitize (text_of reason)) r tx)

abbrev pub oracle_reply : ℕ → MilestoneReport → OracleAnswer → Action OracleResult
oracle_reply now r (answered result) = do modify (store_oracle now r.id result); answer result
oracle_reply now r invalid_url = fail 400 "INVALID_URL"
oracle_reply now r api_error = fail 502 "API_ERROR"

unfoldable pub verify_milestone_oracle : World → ℕ → Option ℕ → Action OracleResult
verify_milestone_oracle w now param = do
  id ← report_id param
  found ← read (λ d. get_report_by_id id d.store)
  r ← or_fail found 404 "Milestone report not found"
  reject_if (is_blank r.evidence_github) 400 "Report has no GitHub PR evidence to verify"
  oracle_reply now r (w.oracle r)

-- `milestoneIdsSchema`: at least one id, none of them 0 and none twice.
abbrev pub has_duplicates : List ℕ → Bool
has_duplicates [] = false
has_duplicates (id ∷ ids) = any (λ x. x == id) ids || has_duplicates ids

abbrev pub is_empty : {A : Type 0} → List A → Bool
is_empty [] = true
is_empty (x ∷ xs) = false

abbrev pub are_milestone_ids : List ℕ → Bool
are_milestone_ids ids =
    not (is_empty ids) && not (any (λ id. id == 0) ids) && not (has_duplicates ids)

abbrev pub consed : MilestoneReport → Option (List MilestoneReport) → Option (List MilestoneReport)
consed r none = none
consed r (some rs) = some (r ∷ rs)

-- The reports of a batch, or none where one is missing.
abbrev pub loaded_or_none :
    Option MilestoneReport → Option (List MilestoneReport) → Option (List MilestoneReport)
loaded_or_none none rest = none
loaded_or_none (some r) rest = consed r rest

abbrev pub load_reports : List ℕ → Store → Option (List MilestoneReport)
load_reports [] s = some []
load_reports (id ∷ ids) s = loaded_or_none (get_report_by_id id s) (load_reports ids s)

-- The guards of a batch, with the text for a report that is decided.
unfoldable pub pending_batch : World → String → List ℕ → Action (List MilestoneReport)
pending_batch w decided ids = do
  reject_if (not (are_milestone_ids ids)) 400 "Validation failed"
  loaded ← read (λ d. load_reports ids d.store)
  rs ← or_fail loaded 404 "One or more milestone reports were not found"
  reject_if (any (λ r. not (status_eq r.status pending)) rs) 409 decided
  reject_if (not w.configured) 503 "Stellar credentials not configured"
  answer rs

-- One round of a batch: whether the call returned, and the state after it.
abbrev pub approved_or_error :
    World → ℕ → String → MilestoneReport → Option (Option String) → Desk → Bool × Desk
approved_or_error w now validator r none d = (false, d)
approved_or_error w now validator r (some tx) d = (true, approve_report w now validator r tx d)

abbrev pub rejected_or_error :
    World → ℕ → String → String → MilestoneReport → Option (Option String) → Desk → Bool × Desk
rejected_or_error w now validator reason r none d = (false, d)
rejected_or_error w now validator reason r (some tx) d =
    (true, reject_report w now validator reason r tx d)

-- The loop of a batch, with the results of the reports in their order.
unfoldable pub each :
    (MilestoneReport → Desk → Bool × Desk) → List MilestoneReport → Desk → List (ℕ × Bool) × Desk
each f [] d = ([], d)
each f (r ∷ rs) d =
    let (ok, next) = f r d in let (rest, last) = each f rs next in ((r.id, ok) ∷ rest, last)

unfoldable pub batch_approve_milestones : World → ℕ → String → List ℕ → Action (List (ℕ × Bool))
batch_approve_milestones w now validator ids = do
  rs ← pending_batch w "One or more milestone reports are not pending" ids
  call (each (λ r. approved_or_error w now validator r (w.verify r.id)) rs)

-- `rawReason.trim()`, or a reason for it.
abbrev pub batch_reason : World → Option String → String
batch_reason w none = "Batch rejection"
batch_reason w (some text) = if str_eq (w.trim text) "" then "Batch rejection" else w.trim text

unfoldable pub batch_reject_milestones :
    World → ℕ → String → List ℕ → Option String → Action (List (ℕ × Bool))
batch_reject_milestones w now validator ids raw = do
  reject_if (not (are_milestone_ids ids)) 400 "Validation failed"
  reject_if (ltb 1000 (w.text_length (batch_reason w raw))) 400
      "Rejection reason must be 1000 characters or fewer"
  rs ← pending_batch w "All milestone reports must be pending before batch processing" ids
  call (
      each
        (λ r. rejected_or_error w now validator (w.sanitize (batch_reason w raw)) r (w.reject r.id))
        rs)

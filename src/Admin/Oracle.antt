-- ===== src/Admin/Oracle.antt =====
-- The check of GitHub evidence at an approval, by one report and by a batch
-- (server/src/controllers/admin-milestones.controller.ts).
use mathlib.Core.Path.{subst}
use learnvault.Prelude.{
  Bool-cases, inl, inr, ℕ, ◌≡◌, refl, String, Option, some, [], ◌∷◌, true, false, ◌==◌, ltb, arith,
}
use learnvault.Milestone.Types.{pending, MilestoneReport, OracleResult}
use learnvault.Milestone.Memory.{get_report_by_id}
use learnvault.Http.{
  done, failed, answer, or_fail, read, call, ◌>>=◌, reject_if, is_blank, positive_id,
}
use learnvault.Http.Ends.{Ends, ends_rules, Ends-done, Passed, done-Passed}
use learnvault.Admin.Desk.{
  Desk, World, OracleAnswer, answered, invalid_url, api_error, approve_report,
}
use learnvault.Admin.Decisions.{
  gate_for, oracle_gate, pending_report, pending_batch, approve_milestone, batch_approve_milestones,
  each, store_oracle,
}

module _ (w : World) (now : ℕ) (validator : String) (id : ℕ) (d : Desk) (r : MilestoneReport)
    (stored : get_report_by_id id d.store ≡ some r) (waits : r.status ≡ pending)
    (positive : ltb 0 id ≡ true) (credentials : w.configured ≡ true) where
  pending_report-done : pending_report w (some id) d ≡ (done r, d)
  unfolding pending_report answer or_fail read ◌>>=◌ reject_if
  pending_report-done = rw (positive, stored, waits, credentials) refl

  pending_batch-done : (text : String) → pending_batch w text (id ∷ []) d ≡ (done (r ∷ []), d)
  unfolding pending_batch answer or_fail read ◌>>=◌ reject_if
  pending_batch-done text =
      let some_id : (id == 0) ≡ false = ground arith in
      rw (some_id, stored, waits, credentials) refl

  approve_unverified :
      (result : OracleResult)
      → is_blank r.evidence_github ≡ false
      → w.oracle r ≡ answered result
      → result.verified ≡ false
      → approve_milestone w now validator (some id) false d
        ≡ (failed 422 "GitHub proof-of-work verification failed", store_oracle now r.id result d)
  unfolding approve_milestone answer or_fail read call ◌>>=◌ reject_if
  approve_unverified result evidence asked unverified =
      rw (pending_report-done, evidence, asked, unverified) refl

  batch_approve_one :
      (tx : Option String)
      → w.verify r.id ≡ some tx
      → batch_approve_milestones w now validator (id ∷ []) d
        ≡ (done ((r.id, true) ∷ []), approve_report w now validator r tx d)
  unfolding batch_approve_milestones call ◌>>=◌ each
  batch_approve_one tx verified =
      rw (pending_batch-done "One or more milestone reports are not pending", verified) refl

-- The oracle has verified a report's evidence.
pub record IsVerified (w : World) (r : MilestoneReport) : Type 0 where
  pub result : OracleResult
  pub asked : w.oracle r ≡ answered result
  pub verified : result.verified ≡ true

module _ (w : World) (now : ℕ) (r : MilestoneReport) (d : Desk) where
  gate_for-IsVerified :
      (a : OracleAnswer) → w.oracle r ≡ a → (gate_for now false r a d).0 ≡ done tt → IsVerified w r
  unfolding ◌>>=◌ call reject_if
  gate_for-IsVerified (answered result) asked e = elim (Bool-cases result.verified) [
    | inl v ↦ record { result = result; asked = asked; verified = v }
    | inr v ↦ let refused : failed 422 _ ≡ done tt = rw v at e in absurd (cc)
  ]
  gate_for-IsVerified invalid_url asked e = absurd (cc)
  gate_for-IsVerified api_error asked e = absurd (cc)

  oracle_gate-IsVerified :
      is_blank r.evidence_github ≡ false
      → (oracle_gate w now false r d).0 ≡ done tt
      → IsVerified w r
  oracle_gate-IsVerified evidence e = gate_for-IsVerified (w.oracle r) refl (rw evidence at e)

module _ (w : World) (now : ℕ) (validator : String) (id : ℕ) (d : Desk) (r : MilestoneReport)
    (stored : get_report_by_id id d.store ≡ some r) where
  same_report :
      (k : ℕ) (a : MilestoneReport)
      → positive_id (some id) ≡ some k
      → get_report_by_id k d.store ≡ some a
      → a ≡ r
  same_report k a positive found =
      let same : k ≡ id = ground arith in
      let both : get_report_by_id id d.store ≡ some a = rw same at found in cc

  pending_report-same : Ends d (λ a d'. (d' ≡ d) × (a ≡ r)) (pending_report w (some id))
  unfolding pending_report
  pending_report-same = search (ends_rules, same_report) depth 16

  pub approved-IsVerified :
      is_blank r.evidence_github ≡ false
      → (approve_milestone w now validator (some id) false d).0 ≡ done tt
      → IsVerified w r
  unfolding approve_milestone
  approved-IsVerified evidence e =
      let p : Passed d (pending_report w (some id)) _ tt =
        done-Passed d (pending_report w (some id)) _ tt e in
      let same = Ends-done d _ (pending_report w (some id)) pending_report-same p.value p.first in
      let gated =
        done-Passed (pending_report w (some id) d).1 (oracle_gate w now false p.value) _ tt
          p.rest in
      let of_report : (oracle_gate w now false r (pending_report w (some id) d).1).0 ≡ done tt =
        subst (λ x. (oracle_gate w now false x (pending_report w (some id) d).1).0 ≡ done tt) same.1
          gated.first in
      let passed : (oracle_gate w now false r d).0 ≡ done tt =
        subst (λ s. (oracle_gate w now false r s).0 ≡ done tt) same.0 of_report in
      oracle_gate-IsVerified w now r d evidence passed

-- A pending report has GitHub evidence that the oracle does not verify, and the contract would
-- take its approval. Approved by itself it is refused with 422, and the oracle's result is stored;
-- in a batch it is approved, and the oracle is not asked.
pub batch_skips_oracle :
    (w : World) (now : ℕ) (validator : String) (id : ℕ) (d : Desk) (r : MilestoneReport)
    (result : OracleResult) (tx : Option String)
    → get_report_by_id id d.store ≡ some r
    → r.status ≡ pending
    → ltb 0 id ≡ true
    → w.configured ≡ true
    → is_blank r.evidence_github ≡ false
    → w.oracle r ≡ answered result
    → result.verified ≡ false
    → w.verify r.id ≡ some tx
    → (approve_milestone w now validator (some id) false d
        ≡ (failed 422 "GitHub proof-of-work verification failed", store_oracle now r.id result d))
      × (batch_approve_milestones w now validator (id ∷ []) d
          ≡ (done ((r.id, true) ∷ []), approve_report w now validator r tx d))
batch_skips_oracle w now validator id d r result tx stored waits positive credentials evidence asked
      unverified verified =
    (
      approve_unverified w now validator id d r stored waits positive credentials result evidence
          asked unverified,
      batch_approve_one w now validator id d r stored waits positive credentials tx verified,
    )

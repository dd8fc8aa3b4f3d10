-- ===== src/Admin/Effects.antt =====
-- What each step of a handler does to the accounts of the reports
-- (server/src/controllers/admin-milestones.controller.ts, milestone-appeal.controller.ts,
-- milestone-submit.controller.ts).
use learnvault.Prelude.{
  ℕ, ◌+◌, ◌≤◌, ◌≡◌, inl, inr, refl, ap, ◌∙◌, String, Option, none, some, List, ◌∷◌, Bool, true,
  false, ◌&&◌, ◌==◌, ◌||◌, any, filter, length, Bool-cases, arith,
}
use learnvault.Milestone.Types.{
  MilestoneReportStatus, MilestoneReport, MilestoneAuditDecision, appeal_approved, appeal_rejected,
  final_rejected, Store,
}
use learnvault.Milestone.Memory.{add_audit_entry}
use learnvault.Milestone.Sql.{update_report_status}
use learnvault.Milestone.Invariant.{IsWellFormed}
use learnvault.Milestone.Calls
use learnvault.Milestone.Calls.{Call, in_sql, in_memory-agrees, in_memory-IsWellFormed}
use learnvault.Admin.Desk.{
  Desk, World, set_status, add_audit, mark_activity, record_activity, mint_certificate_if_complete,
  approve_report, reject_report, metadata_pinned, nft_minted, nft_stored, is_course_complete,
}
use learnvault.Admin.Appeals.{approve_appeal, reject_appeal, emit_if, emitted}
use learnvault.Admin.Accounts.{
  stored_status, stored_approvals, is_approved, is_approval, verifications, one_if, or_same,
  set_status-status, add_audit-approvals, Decides,
}

-- The reports, their audit log and the calls of the contract are the same.
record SameView (d d' : Desk) : Type 0 where
  store : d'.store ≡ d.store
  verified : d'.verified ≡ d.verified

nft_stored-SameView :
    (scholar course uri : String) (token : Option ℕ) (d : Desk)
    → SameView d (nft_stored scholar course uri token d)
nft_stored-SameView scholar course uri none d = record { store = refl; verified = refl }
nft_stored-SameView scholar course uri (some token) d =
    elim (Bool-cases (token == 0 || any (λ n. n.token_id == token) d.nfts)) [
      | inl e ↦ rw e record { store = refl; verified = refl }
      | inr e ↦ rw e record { store = refl; verified = refl }
    ]

nft_minted-SameView :
    (w : World) (scholar course uri : String) (answer : Option (Option ℕ)) (d : Desk)
    → SameView d (nft_minted w scholar course uri answer d)
nft_minted-SameView w scholar course uri none d = record { store = refl; verified = refl }
nft_minted-SameView w scholar course uri (some token) d =
    nft_stored-SameView scholar course uri token d

metadata_pinned-SameView :
    (w : World) (scholar course : String) (uri : Option String) (d : Desk)
    → SameView d (metadata_pinned w scholar course uri d)
metadata_pinned-SameView w scholar course none d = record { store = refl; verified = refl }
metadata_pinned-SameView w scholar course (some uri) d =
    nft_minted-SameView w scholar course uri (w.mint_nft scholar uri) d

mint_certificate-SameView :
    (w : World) (scholar course : String) (d : Desk)
    → SameView d (mint_certificate_if_complete w scholar course d)
unfolding mint_certificate_if_complete
mint_certificate-SameView w scholar course d =
    elim (Bool-cases (is_course_complete w scholar course d)) [
      | inl e ↦ rw e (metadata_pinned-SameView w scholar course (w.pin scholar course) d)
      | inr e ↦ rw e record { store = refl; verified = refl }
    ]

emit_if-SameView : (w : World) (r : MilestoneReport) (d : Desk) → SameView d (emit_if w r d)
emit_if-SameView w r d = elim (Bool-cases w.configured) [
  | inl e ↦ rw e (go (w.reject r.id))
  | inr e ↦ rw e record { store = refl; verified = refl }
]
  where
    go : (answer : Option (Option String)) → SameView d (emitted r answer d)
    go none = record { store = refl; verified = refl }
    go (some tx) = record { store = refl; verified = refl }

pub sql-IsWellFormed :
    (now : ℕ) (c : Call) (s : Store) → IsWellFormed s → IsWellFormed (in_sql now c s).1
sql-IsWellFormed now c s w = rw (← in_memory-agrees now c s w) (in_memory-IsWellFormed now c s w)

pub add_audit-IsWellFormed :
    (now id : ℕ) (validator : String) (decision : MilestoneAuditDecision)
    (reason tx : Option String) (d : Desk)
    → IsWellFormed d.store
    → IsWellFormed (add_audit now id validator decision reason tx d).store
unfolding add_audit add_audit_entry
add_audit-IsWellFormed now id validator decision reason tx d w = record {
  distinct = w.distinct;
  below = w.below;
  one_each = w.one_each;
}

set_status-IsWellFormed :
    (id : ℕ) (st : MilestoneReportStatus) (d : Desk)
    → IsWellFormed d.store
    → IsWellFormed (set_status id st d).store
unfolding set_status in_sql
set_status-IsWellFormed id st d w = sql-IsWellFormed 0 (Calls.set_status id st) d.store w

-- The new status is stored, then the entry; the contract was called before, if at all.
module _ (now : ℕ) (validator : String) (r : MilestoneReport) (st : MilestoneReportStatus)
    (decision : MilestoneAuditDecision) (reason tx : Option String)
    (d before after end : Desk) where
  decides :
      is_approved (some st) ≡ is_approval decision
      → before.store ≡ d.store
      → after.store ≡ (set_status r.id st before).store
      → end.store ≡ (add_audit now r.id validator decision reason tx after).store
      → ((id : ℕ)
          → verifications id end ≤ verifications id d + one_if (r.id == id && is_approval decision))
      → Decides r.id (is_approval decision) d end
  unfolding add_audit add_audit_entry set_status update_report_status
  decides fits same stored ended calls = record {
    formed = λ w. rw ended (
        add_audit-IsWellFormed now r.id validator decision reason tx after
          (rw stored (set_status-IsWellFormed r.id st before (rw same w))));
    status = st;
    fits = fits;
    statuses = λ id.
        ap (stored_status id) ended
        ∙ ap (stored_status id) stored
        ∙ set_status-status r.id st id before
        ∙ ap (λ s. or_same (r.id == id) st (stored_status id s)) same;
    audits = λ id.
        ap (stored_approvals id) ended
        ∙ add_audit-approvals now r.id validator decision reason tx id after
        ∙ ap (λ s. stored_approvals id s + one_if (r.id == id && is_approval decision)) stored
        ∙ ap (λ s. stored_approvals id s + one_if (r.id == id && is_approval decision)) same;
    calls = calls;
  }

-- A call of the contract that is logged for the report, or none.
called_once :
    (id' id : ℕ) (calls : List ℕ)
    → length (filter (λ x. x == id) (id' ∷ calls))
      ≤ length (filter (λ x. x == id) calls) + one_if (id' == id && true)
called_once id' id calls = ground arith

module _ (w : World) (now : ℕ) (validator : String) (r : MilestoneReport) (d : Desk) where
  pub approve_report-Decides :
      (tx : Option String) → Decides r.id true d (approve_report w now validator r tx d)
  unfolding approve_report mark_activity record_activity set_status add_audit
  approve_report-Decides tx =
      let called : Desk = record d { verified = r.id ∷ d.verified } in
      let stored = set_status r.id MilestoneReportStatus.approved called in
      let active =
        record_activity w now r.scholar_address
          (mark_activity now r.scholar_address r.course_id stored) in
      let audited = add_audit now r.id validator MilestoneAuditDecision.approved none tx active in
      let view = mint_certificate-SameView w r.scholar_address r.course_id audited in
      decides now validator r MilestoneReportStatus.approved MilestoneAuditDecision.approved none tx
        d called active (approve_report w now validator r tx d) refl refl refl view.store
        (λ id. rw view.verified (called_once r.id id d.verified))

  pub reject_report-Decides :
      (reason : String) (tx : Option String)
      → Decides r.id false d (reject_report w now validator reason r tx d)
  unfolding reject_report mark_activity set_status add_audit
  reject_report-Decides reason tx =
      let called : Desk = record d { rejections = r.id ∷ d.rejections } in
      let stored = set_status r.id MilestoneReportStatus.rejected called in
      let active = mark_activity now r.scholar_address r.course_id stored in
      decides now validator r MilestoneReportStatus.rejected MilestoneAuditDecision.rejected
        (some reason) tx d called active (reject_report w now validator reason r tx d) refl refl
        refl refl (λ id. ground arith)

  pub approve_appeal-Decides :
      (asked : Bool) (tx : Option String)
      → Decides r.id true d (approve_appeal w now validator r asked tx d)
  unfolding approve_appeal record_activity set_status add_audit
  approve_appeal-Decides true tx =
      let called : Desk = record d { verified = r.id ∷ d.verified } in
      decides now validator r MilestoneReportStatus.approved appeal_approved none tx d called
        (record_activity w now r.scholar_address
          (set_status r.id MilestoneReportStatus.approved called))
        (approve_appeal w now validator r true tx d) refl refl refl refl
        (λ id. called_once r.id id d.verified)
  approve_appeal-Decides false tx =
      decides now validator r MilestoneReportStatus.approved appeal_approved none tx d d
        (record_activity w now r.scholar_address (set_status r.id MilestoneReportStatus.approved d))
        (approve_appeal w now validator r false tx d) refl refl refl refl (λ id. omega arith)

  pub reject_appeal-Decides :
      (reason : Option String) → Decides r.id false d (reject_appeal w now validator r reason d)
  unfolding reject_appeal set_status add_audit
  reject_appeal-Decides reason =
      let view = emit_if-SameView w r d in
      decides now validator r final_rejected appeal_rejected reason none d (emit_if w r d)
        (set_status r.id final_rejected (emit_if w r d)) (reject_appeal w now validator r reason d)
        refl view.store refl refl (λ id. rw view.verified (ground arith))

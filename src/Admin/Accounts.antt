-- ===== src/Admin/Accounts.antt =====
-- The approvals of a report in the audit log, against its status and the calls of the contract
-- (server/src/controllers/admin-milestones.controller.ts, milestone-appeal.controller.ts).
use mathlib.Core.Option
use mathlib.Core.Path.{subst}
use learnvault.Prelude.{
  ℕ, ◌+◌, ◌≤◌, ◌≡◌, inl, inr, refl, ap, ◌∙◌, String, Option, none, some, List, [], ◌∷◌, ◌++◌, Bool,
  true, false, ◌&&◌, ◌==◌, find?, filter, length, Bool-cases, ==_iff, arith, if◌then◌else◌,
  find?-holds,
}
use learnvault.Prelude.Rows.{change, found_map}
use learnvault.Milestone.Types.{
  MilestoneReportStatus, MilestoneReport, MilestoneAuditDecision, MilestoneAuditEntry,
  appeal_approved, Store, has_id, status_row,
}
use learnvault.Milestone.Sql.{update_report_status}
use learnvault.Milestone.Memory.{add_audit_entry}
use learnvault.Milestone.Invariant.{IsWellFormed}
use learnvault.Admin.Desk.{Desk, set_status, add_audit}

abbrev pub status_of : Option MilestoneReport → Option MilestoneReportStatus
status_of none = none
status_of (some r) = some r.status

abbrev pub stored_status : ℕ → Store → Option MilestoneReportStatus
stored_status id s = status_of (find? (has_id id) s.reports)

abbrev pub status_in : ℕ → Desk → Option MilestoneReportStatus
status_in id d = stored_status id d.store

abbrev pub is_approved : Option MilestoneReportStatus → Bool
is_approved (some MilestoneReportStatus.approved) = true
is_approved other = false

abbrev pub is_approval : MilestoneAuditDecision → Bool
is_approval MilestoneAuditDecision.approved = true
is_approval appeal_approved = true
is_approval other = false

-- The entries by which a report was approved.
abbrev pub stored_approvals : ℕ → Store → ℕ
stored_approvals id s =
    length (
      filter (λ (e : MilestoneAuditEntry). e.report_id == id && is_approval e.decision) s.audit_log)

abbrev pub approvals : ℕ → Desk → ℕ
approvals id d = stored_approvals id d.store

abbrev pub verifications : ℕ → Desk → ℕ
verifications id d = length (filter (λ x. x == id) d.verified)

abbrev pub one_if : Bool → ℕ
one_if b = if b then 1 else 0

-- A report is approved once if it has the status, and never if not; of the calls of the contract for it one
-- returned at most, and only if it has the status.
pub record IsAccounted (id : ℕ) (d : Desk) : Type 0 where
  pub audited : approvals id d ≡ one_if (is_approved (status_in id d))
  pub called : verifications id d ≤ one_if (is_approved (status_in id d))

abbrev pub Accounted : Desk → Type 0
Accounted d = (id : ℕ) → IsAccounted id d

-- A report that is stored and not approved.
pub record IsUndecided (id : ℕ) (d : Desk) : Type 0 where
  pub status : MilestoneReportStatus
  pub stored : status_in id d ≡ some status
  pub unapproved : is_approved (some status) ≡ false

abbrev pub or_same :
    Bool → MilestoneReportStatus → Option MilestoneReportStatus → Option MilestoneReportStatus
or_same hit st none = none
or_same hit st (some old) = if hit then some st else some old

pub set_status-status :
    (id' : ℕ) (st : MilestoneReportStatus) (id : ℕ) (d : Desk)
    → status_in id (set_status id' st d) ≡ or_same (id' == id) st (status_in id d)
unfolding set_status update_report_status
set_status-status id' st id d =
    ap status_of (
      found_map (λ (r : MilestoneReport). r.id) id (change (has_id id') (status_row st))
        (λ r. ground arith) d.store.reports)
    ∙ go (find? (has_id id) d.store.reports) refl
  where
    go :
        (o : Option MilestoneReport)
        → find? (has_id id) d.store.reports ≡ o
        → status_of (Option.map (change (has_id id') (status_row st)) o)
          ≡ or_same (id' == id) st (status_of o)
    go none e = refl
    go (some r) e =
        let here : has_id id r ≡ true = find?-holds (has_id id) d.store.reports r e in ground arith

count-append :
    (p : MilestoneAuditEntry → Bool) (es : List MilestoneAuditEntry) (e : MilestoneAuditEntry)
    → length (filter p (es ++ e ∷ [])) ≡ length (filter p es) + one_if (p e)
count-append p [] e = ground arith
count-append p (x ∷ es) e = ground (arith, count-append p es e)

pub add_audit-approvals :
    (now id' : ℕ) (validator : String) (decision : MilestoneAuditDecision)
    (reason tx : Option String) (id : ℕ) (d : Desk)
    → approvals id (add_audit now id' validator decision reason tx d)
      ≡ approvals id d + one_if (id' == id && is_approval decision)
unfolding add_audit add_audit_entry
add_audit-approvals now id' validator decision reason tx id d =
    count-append (λ (e : MilestoneAuditEntry). e.report_id == id && is_approval e.decision)
      d.store.audit_log _

or_same-false :
    (st : MilestoneReportStatus) (o : Option MilestoneReportStatus) → or_same false st o ≡ o
or_same-false st none = refl
or_same-false st (some old) = refl

-- One decision: a new status for one report, and its entry in the audit log.
pub record Decides (id' : ℕ) (approves : Bool) (d d' : Desk) : Type 0 where
  pub formed : IsWellFormed d.store → IsWellFormed d'.store
  pub status : MilestoneReportStatus
  pub fits : is_approved (some status) ≡ approves
  pub statuses : (id : ℕ) → status_in id d' ≡ or_same (id' == id) status (status_in id d)
  pub audits : (id : ℕ) → approvals id d' ≡ approvals id d + one_if (id' == id && approves)
  pub calls : (id : ℕ) → verifications id d' ≤ verifications id d + one_if (id' == id && approves)

module _ {id' : ℕ} {approves : Bool} {d d' : Desk} (u : IsUndecided id' d)
    (c : Decides id' approves d d') where
  here-IsAccounted : IsAccounted id' d → IsAccounted id' d'
  here-IsAccounted h =
      let own : (id' == id') ≡ true = ground arith in
      let before : approvals id' d ≡ 0 = h.audited ∙ (rw (u.stored, u.unapproved) refl) in
      let uncalled : verifications id' d ≤ 0 = rw (u.stored, u.unapproved) at h.called in
      let audits : approvals id' d' ≡ approvals id' d + one_if approves =
        rw own at (c.audits id') in
      let calls : verifications id' d' ≤ verifications id' d + one_if approves =
        rw own at (c.calls id') in
      let after : status_in id' d' ≡ some c.status = c.statuses id' ∙ (rw (own, u.stored) refl) in
      record {
        audited = rw (after, c.fits) (omega arith);
        called = rw (after, c.fits) (omega arith);
      }

  other-IsAccounted : (id : ℕ) → (id' == id) ≡ false → IsAccounted id d → IsAccounted id d'
  other-IsAccounted id ne h =
      let same : status_in id d' ≡ status_in id d =
        c.statuses id ∙ (rw (ne, or_same-false c.status (status_in id d)) refl) in
      let audits : approvals id d' ≡ approvals id d + 0 = rw ne at (c.audits id) in
      let calls : verifications id d' ≤ verifications id d + 0 = rw ne at (c.calls id) in
      let audited = h.audited in
      let called = h.called in
      record { audited = rw same (omega arith); called = rw same (omega arith) }

  pub decided-Accounted : Accounted d → Accounted d'
  decided-Accounted h id = elim (Bool-cases (id' == id)) [
    | inl e ↦ subst (λ x. IsAccounted x d') ((==_iff id' id).0 e) (here-IsAccounted (h id'))
    | inr ne ↦ other-IsAccounted id ne (h id)
  ]

  -- Another undecided report stays so.
  pub decided-IsUndecided : (id : ℕ) → (id' == id) ≡ false → IsUndecided id d → IsUndecided id d'
  decided-IsUndecided id ne v = record {
    status = v.status;
    stored = c.statuses id ∙ (rw (ne, or_same-false c.status (status_in id d)) v.stored);
    unapproved = v.unapproved;
  }

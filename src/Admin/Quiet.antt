-- ===== src/Admin/Quiet.antt =====
-- The steps of the handlers beside server/src/controllers/admin-milestones.controller.ts that approve
-- nothing: submissions, appeals, results of the oracle, and what follows an approval elsewhere.
use mathlib.Core.Option
use learnvault.Prelude.{
  ℕ, ◌≡◌, refl, sym, ap, ◌∙◌, inl, inr, String, Option, none, some, List, [], ◌∷◌, ◌++◌, Bool, true,
  ◌&&◌, ◌==◌, any, find?, filter, length, Bool-cases, arith, find?-holds,
}
use learnvault.Prelude.Rows.{update, change, found_map, found_by_key}
use learnvault.Milestone.Types.{
  MilestoneReportStatus, pending, MilestoneReport, MilestoneAuditDecision, MilestoneAuditEntry,
  NewReport, OracleResult, Store, has_id, status_eq, is_same_milestone, resubmit_row, new_row,
  oracle_row, appeal_row,
}
use learnvault.Milestone.Invariant.{IsWellFormed}
use learnvault.Milestone.Calls
use learnvault.Milestone.Calls.{in_sql}
use learnvault.Milestone.Memory.{add_audit_entry}
use learnvault.Milestone.Sql.{create_report, create_after, set_oracle_result, submit_appeal}
use learnvault.Admin.Desk.{
  Desk, World, TrancheEscrow, add_audit, mark_activity, qualify_referral, release_next_tranche,
  release_from, tranche_released, latest, has_tranche,
}
use learnvault.Admin.Decisions.{store_oracle}
use learnvault.Admin.Appeals.{store_appeal}
use learnvault.Admin.Reports.{store_report}
use learnvault.Admin.Accounts.{
  status_of, stored_status, stored_approvals, status_in, is_approved, approvals, one_if,
  is_approval, IsUndecided, Accounted, add_audit-approvals,
}
use learnvault.Admin.Effects.{sql-IsWellFormed, add_audit-IsWellFormed}

-- The reports keep their ids, and each is accounted for.
pub record IsSound (d : Desk) : Type 0 where
  pub formed : IsWellFormed d.store
  pub accounts : Accounted d

-- A step after which the same reports are approved, as often and with the same calls as before.
pub record IsQuiet (d d' : Desk) : Type 0 where
  pub formed : IsWellFormed d.store → IsWellFormed d'.store
  pub approved :
      IsWellFormed d.store → (id : ℕ) → is_approved (status_in id d') ≡ is_approved (status_in id d)
  pub audits : (id : ℕ) → approvals id d' ≡ approvals id d
  pub calls : d'.verified ≡ d.verified

pub quiet-IsSound : {d d' : Desk} → IsQuiet d d' → IsSound d → IsSound d'
quiet-IsSound {d} {d'} q s = record {
  formed = q.formed s.formed;
  accounts = λ id.
      let h = s.accounts id in
      record {
        audited = q.audits id ∙ h.audited ∙ ap one_if (sym (q.approved s.formed id));
        called = rw (q.calls, q.approved s.formed id) h.called;
      };
}

same-IsQuiet : (d d' : Desk) → d'.store ≡ d.store → d'.verified ≡ d.verified → IsQuiet d d'
same-IsQuiet d d' e v = record {
  formed = λ w. rw e w;
  approved = λ w id. ap (λ s. is_approved (stored_status id s)) e;
  audits = λ id. ap (stored_approvals id) e;
  calls = v;
}

pub nothing-IsQuiet : (d : Desk) → IsQuiet d d
nothing-IsQuiet d = same-IsQuiet d d refl refl

-- An UPDATE that approves nothing and takes no approval back.
update_same :
    (p : MilestoneReport → Bool) (f : MilestoneReport → MilestoneReport) (id : ℕ)
    (rows : List MilestoneReport)
    → ((r : MilestoneReport) → (f r).id ≡ r.id)
    → ((r : MilestoneReport)
        → find? (has_id id) rows ≡ some r
        → p r ≡ true
        → is_approved (some (f r).status) ≡ is_approved (some r.status))
    → is_approved (status_of (find? (has_id id) (update p f rows)))
      ≡ is_approved (status_of (find? (has_id id) rows))
update_same p f id rows same keep =
    ap (λ o. is_approved (status_of o))
      (found_map (λ (r : MilestoneReport). r.id) id (change p f) (λ r. ground (arith, same r)) rows)
    ∙ go (find? (has_id id) rows) keep
  where
    go :
        (o : Option MilestoneReport)
        → ((r : MilestoneReport)
            → o ≡ some r
            → p r ≡ true
            → is_approved (some (f r).status) ≡ is_approved (some r.status))
        → is_approved (status_of (Option.map (change p f) o)) ≡ is_approved (status_of o)
    go none keep = refl
    go (some r) keep = elim (Bool-cases (p r)) [ inl e ↦ rw e (keep r refl e) | inr e ↦ rw e refl ]

oracle_same :
    (now id : ℕ) (result : OracleResult) (k : ℕ) (rows : List MilestoneReport)
    → status_of (find? (has_id k) (update (has_id id) (oracle_row now result) rows))
      ≡ status_of (find? (has_id k) rows)
oracle_same now id result k rows =
    ap status_of (
      found_map (λ (r : MilestoneReport). r.id) k (change (has_id id) (oracle_row now result))
        (λ r. ground arith) rows)
    ∙ go (find? (has_id k) rows)
  where
    go :
        (o : Option MilestoneReport)
        → status_of (Option.map (change (has_id id) (oracle_row now result)) o) ≡ status_of o
    go none = refl
    go (some r) = ground arith

append_same :
    (id : ℕ) (rows : List MilestoneReport) (r : MilestoneReport)
    → r.status ≡ pending
    → is_approved (status_of (find? (has_id id) (rows ++ r ∷ [])))
      ≡ is_approved (status_of (find? (has_id id) rows))
append_same id [] r e = elim (Bool-cases (has_id id r)) [
  | inl h ↦ rw (h, e) refl
  | inr h ↦ rw h refl
]
append_same id (x ∷ rows) r e = elim (Bool-cases (has_id id x)) [
  | inl h ↦ rw h refl
  | inr h ↦ rw h (append_same id rows r e)
]

-- The row that a resubmission changes is the one that was found for its milestone.
found_row :
    (k : ℕ) (rows : List MilestoneReport) (r b : MilestoneReport)
    → find? (has_id k) rows ≡ some r
    → has_id b.id r ≡ true
    → find? (has_id b.id) rows ≡ some b
    → r ≡ b
found_row k rows r b found hit own =
    let here : has_id k r ≡ true = find?-holds (has_id k) rows r found in
    let same : k ≡ b.id = ground arith in
    let both : find? (has_id k) rows ≡ some b = rw same own in cc

module _ (now : ℕ) (row : NewReport) (s : Store) where
  created_same :
      IsWellFormed s
      → (k : ℕ) (o : Option MilestoneReport) → find? (is_same_milestone row) s.reports ≡ o
      → is_approved (stored_status k (create_after now row s o).1) ≡ is_approved (stored_status k s)
  created_same w k none e = elim (Bool-cases (any (is_same_milestone row) s.reports)) [
    | inl h ↦ rw h refl
    | inr h ↦ rw h (append_same k s.reports (new_row now s.report_seq row) refl)
  ]
  created_same w k (some b) e =
      let own : find? (has_id b.id) s.reports ≡ some b =
        found_by_key (λ (r : MilestoneReport). r.id) (λ x. x) (is_same_milestone row) s.reports b
          w.distinct e in
      elim (Bool-cases (status_eq b.status MilestoneReportStatus.rejected)) [
        | inl h ↦ rw h (
            update_same (has_id b.id) (resubmit_row now row) k s.reports (λ r. refl)
              (λ r found hit.
                let same : r ≡ b = found_row k s.reports r b found hit own in
                rw same (ground arith)))
        | inr h ↦ rw h refl
      ]

  created-audit_log :
      (o : Option MilestoneReport) → (create_after now row s o).1.audit_log ≡ s.audit_log
  created-audit_log none = elim (Bool-cases (any (is_same_milestone row) s.reports)) [
    | inl h ↦ rw h refl
    | inr h ↦ rw h refl
  ]
  created-audit_log (some b) =
      elim (Bool-cases (status_eq b.status MilestoneReportStatus.rejected)) [
        | inl h ↦ rw h refl
        | inr h ↦ rw h refl
      ]

module _ (now : ℕ) (d : Desk) where
  pub store_oracle-IsQuiet :
      (id : ℕ) (result : OracleResult) → IsQuiet d (store_oracle now id result d)
  unfolding store_oracle set_oracle_result in_sql
  store_oracle-IsQuiet id result = record {
    formed = sql-IsWellFormed now (Calls.set_oracle id result) d.store;
    approved = λ w k.
        update_same (has_id id) (oracle_row now result) k d.store.reports (λ r. refl)
          (λ r e h. refl);
    audits = λ k. refl;
    calls = refl;
  }

  pub store_oracle-IsUndecided :
      (id : ℕ) (result : OracleResult) (k : ℕ)
      → IsUndecided k d
      → IsUndecided k (store_oracle now id result d)
  unfolding store_oracle set_oracle_result
  store_oracle-IsUndecided id result k u = record {
    status = u.status;
    stored = oracle_same now id result k d.store.reports ∙ u.stored;
    unapproved = u.unapproved;
  }

  pub store_appeal-IsQuiet : (id : ℕ) (reason : String) → IsQuiet d (store_appeal now id reason d).1
  unfolding store_appeal submit_appeal in_sql
  store_appeal-IsQuiet id reason = record {
    formed = sql-IsWellFormed now (Calls.appeal id reason) d.store;
    approved = λ w k.
        update_same _ (appeal_row now reason) k d.store.reports (λ r. refl) (λ r e h. ground arith);
    audits = λ k. refl;
    calls = refl;
  }

  pub add_rejection-IsQuiet :
      (id : ℕ) (validator : String) (reason tx : Option String)
      → IsQuiet d (add_audit now id validator MilestoneAuditDecision.rejected reason tx d)
  unfolding add_audit add_audit_entry
  add_rejection-IsQuiet id validator reason tx = record {
    formed = add_audit-IsWellFormed now id validator MilestoneAuditDecision.rejected reason tx d;
    approved = λ w k. refl;
    audits = λ k.
        add_audit-approvals now id validator MilestoneAuditDecision.rejected reason tx k d
        ∙ (ground arith);
    calls = refl;
  }

  pub store_report-IsQuiet : (row : NewReport) → IsQuiet d (store_report now row d).1
  unfolding store_report create_report in_sql
  store_report-IsQuiet row =
      let found = find? (is_same_milestone row) d.store.reports in
      record {
        formed = sql-IsWellFormed now (Calls.create row) d.store;
        approved = λ w k. created_same now row d.store w k found refl;
        audits = λ k.
            ap
              (λ es. length (
                filter (λ (e : MilestoneAuditEntry). e.report_id == k && is_approval e.decision)
                  es))
              (created-audit_log now row d.store found);
        calls = refl;
      }

  pub mark_activity-IsQuiet :
      (scholar course : String) → IsQuiet d (mark_activity now scholar course d)
  unfolding mark_activity
  mark_activity-IsQuiet scholar course =
      same-IsQuiet d (mark_activity now scholar course d) refl refl

module _ (w : World) (now : ℕ) (scholar : String) (d : Desk) where
  pub qualify_referral-IsQuiet : IsQuiet d (qualify_referral w now scholar d)
  unfolding qualify_referral
  qualify_referral-IsQuiet = same-IsQuiet d (qualify_referral w now scholar d) refl refl

  pub release_next_tranche-IsQuiet : IsQuiet d (release_next_tranche w scholar d)
  unfolding release_next_tranche
  release_next_tranche-IsQuiet = from (latest w (filter (has_tranche w scholar) d.escrows))
    where
      released :
          (e : TrancheEscrow) (o : Option (Option String)) → IsQuiet d (tranche_released w e o d)
      released e none = nothing-IsQuiet d
      released e (some tx) = same-IsQuiet d (tranche_released w e (some tx) d) refl refl

      from : (o : Option TrancheEscrow) → IsQuiet d (release_from w o d)
      from none = nothing-IsQuiet d
      from (some e) = released e (w.release e.proposal_id)

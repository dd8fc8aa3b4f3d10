-- ===== src/Milestone/Agreement.antt =====
-- The two implementations of the milestone store (server/src/db/milestone-store.ts) agree.
use learnvault.Prelude.{
  ℕ, ◌≡◌, ap, sym, ◌∙◌, String, Option, none, some, List, Bool, true, false, ◌&&◌, Bool-cases,
  Option-cases, inl, inr, All, All-weaken, find?, find?-none, find?-holds, any-find?, ==_iff,
}
use learnvault.Prelude.Rows.{
  update_first, found_only, found_by_key, update_first-eq-update, find?_congr, update_congr,
  find?-false, update-false,
}
use learnvault.Milestone.Types.{
  rejected, MilestoneReport, NewReport, Store, status_eq, has_id, is_same_milestone, resubmit_row,
  appeal_row,
}
use learnvault.Milestone.Memory
use learnvault.Milestone.Memory.{assign}
use learnvault.Milestone.Sql
use learnvault.Milestone.Sql.{update_returning}
use learnvault.Milestone.Invariant.{IsWellFormed}

abbrev with_reports : Store → List MilestoneReport → Store
with_reports s rows = record s { reports = rows }

-- An object found by a test and assigned to, against the UPDATE of its id.
found_update :
    (p : MilestoneReport → Bool) (f : MilestoneReport → MilestoneReport) (s : Store)
    (b : MilestoneReport)
    → IsWellFormed s
    → find? p s.reports ≡ some b
    → ◌≡◌ {A = Option MilestoneReport × Store}
        (some (f b), with_reports s (update_first p f s.reports))
        (update_returning (has_id b.id) f s)
found_update p f s b w e = rw (
  found_by_key (λ (r : MilestoneReport). r.id) f p s.reports b w.distinct e,
  update_first-eq-update (λ (r : MilestoneReport). r.id) f p s.reports b w.distinct e,
)

pub create_report-agrees :
    (now : ℕ) (d : NewReport) (s : Store)
    → IsWellFormed s
    → Memory.create_report now d s ≡ Sql.create_report now d s
unfolding Memory.create_report Sql.create_report
create_report-agrees now d s w = elim (Option-cases (find? (is_same_milestone d) s.reports)) [
  | inl e ↦ rw (e, any-find? (is_same_milestone d) s.reports e)
  | inr (b, e) ↦ elim (Bool-cases (status_eq b.status rejected)) [
    | inl h ↦ rw (e, h) (found_update (is_same_milestone d) (resubmit_row now d) s b w e)
    | inr h ↦ rw (e, h)
  ]
]

same_rows :
    (p q : MilestoneReport → Bool) (f : MilestoneReport → MilestoneReport) (s : Store)
    → All (λ r. p r ≡ q r) s.reports
    → update_returning p f s ≡ update_returning q f s
same_rows p q f s h = rw (find?_congr p q s.reports h, update_congr p q f s.reports h)

unchanged :
    (p : MilestoneReport → Bool) (f : MilestoneReport → MilestoneReport) (s : Store)
    → All (λ r. p r ≡ false) s.reports
    → ◌≡◌ {A = Option MilestoneReport × Store} (none, s) (update_returning p f s)
unchanged p f s h = rw (
  find?_congr p (λ _. false) s.reports h,
  update_congr p (λ _. false) f s.reports h,
  find?-false s.reports,
  update-false f s.reports,
)

pub assign-agrees :
    (id : ℕ) (f : MilestoneReport → MilestoneReport) (s : Store)
    → IsWellFormed s
    → assign id f s ≡ update_returning (has_id id) f s
assign-agrees id f s w = elim (Option-cases (find? (has_id id) s.reports)) [
  | inl e ↦
      ap (Memory.assign_after id f s) e
      ∙ unchanged (has_id id) f s (find?-none (has_id id) s.reports e)
  | inr (b, e) ↦
      let here : b.id ≡ id = (==_iff b.id id).0 (find?-holds (has_id id) s.reports b e) in
      ap (Memory.assign_after id f s) e
      ∙ found_update (has_id id) f s b w e
      ∙ ap (λ k. update_returning (has_id k) f s) here
]

abbrev is_rejected_row : ℕ → MilestoneReport → Bool
is_rejected_row id r = has_id id r && status_eq r.status rejected

module _ (id : ℕ) (s : Store) (b : MilestoneReport)
    (only : All (λ r. has_id id r ≡ true → r ≡ b) s.reports) where
  rejected_rows :
      status_eq b.status rejected ≡ true → All (λ r. has_id id r ≡ is_rejected_row id r) s.reports
  rejected_rows h =
      All-weaken (λ r. has_id id r ≡ true → r ≡ b) (λ r. has_id id r ≡ is_rejected_row id r)
        s.reports (λ r k. elim (Bool-cases (has_id id r)) [ inl e ↦ rw (e, k e, h) | inr e ↦ rw e ])
        only

  no_rejected_rows :
      status_eq b.status rejected ≡ false → All (λ r. is_rejected_row id r ≡ false) s.reports
  no_rejected_rows h =
      All-weaken (λ r. has_id id r ≡ true → r ≡ b) (λ r. is_rejected_row id r ≡ false) s.reports
        (λ r k. elim (Bool-cases (has_id id r)) [ inl e ↦ rw (e, k e, h) | inr e ↦ rw e ]) only

pub submit_appeal-agrees :
    (now id : ℕ) (reason : String) (s : Store)
    → IsWellFormed s
    → Memory.submit_appeal now id reason s ≡ Sql.submit_appeal now id reason s
unfolding Memory.submit_appeal Sql.submit_appeal
submit_appeal-agrees now id reason s w = elim (Option-cases (find? (has_id id) s.reports)) [
  | inl e ↦
      ap (Memory.appeal_after now id reason s) e
      ∙ unchanged (is_rejected_row id) (appeal_row now reason) s (
          All-weaken (λ r. has_id id r ≡ false) (λ r. is_rejected_row id r ≡ false) s.reports
            (λ r h. rw h) (find?-none (has_id id) s.reports e))
  | inr (b, e) ↦
      let only = found_only (λ (r : MilestoneReport). r.id) id s.reports b w.distinct e in
      elim (Bool-cases (status_eq b.status rejected)) [
        | inl h ↦
            ap (Memory.appeal_after now id reason s) e
            ∙ (rw h)
            ∙ ap (Memory.assign_after id (appeal_row now reason) s) (sym e)
            ∙ assign-agrees id (appeal_row now reason) s w
            ∙ same_rows (has_id id) (is_rejected_row id) (appeal_row now reason) s
                (rejected_rows id s b only h)
        | inr h ↦
            ap (Memory.appeal_after now id reason s) e
            ∙ (rw h)
            ∙ unchanged (is_rejected_row id) (appeal_row now reason) s
                (no_rejected_rows id s b only h)
      ]
]

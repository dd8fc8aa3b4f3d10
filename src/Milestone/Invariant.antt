-- ===== src/Milestone/Invariant.antt =====
-- What the calls of the milestone store keep, and the agreement of its two implementations
-- (server/src/db/milestone-store.ts).
use learnvault.Prelude.{
  ℕ, suc, ◌<◌, ◌≡◌, ◌≢◌, refl, ap, String, Bool, false, Bool-cases, Option-cases, inl, inr, All,
  All-append, All-weaken, find?, find?-none, eq_iff, ==_iff, arith,
}
use learnvault.Prelude.Rows.{
  update_first, All-update_first, DistinctBy, DistinctBy-append, DistinctBy-update_first,
}
use learnvault.Milestone.Types.{
  rejected, MilestoneReport, NewReport, Store, status_eq, has_id, is_same_milestone, resubmit_row,
  appeal_row,
}
use learnvault.Milestone.Memory
use learnvault.Milestone.Memory.{assign}

-- What a report is about.
abbrev pub subject : MilestoneReport → String × String × ℕ
subject r = (r.scholar_address, r.course_id, r.milestone_id)

pub record IsWellFormed (s : Store) : Type 0 where
  pub distinct : DistinctBy (λ (r : MilestoneReport). r.id) s.reports
  pub below : All (λ r. r.id < s.report_seq) s.reports
  pub one_each : DistinctBy subject s.reports

abbrev pub subject_of : NewReport → String × String × ℕ
subject_of d = (d.scholar_address, d.course_id, d.milestone_id)

other_subject :
    (d : NewReport) (r : MilestoneReport) → is_same_milestone d r ≡ false → subject r ≢ subject_of d
other_subject d r h e =
    let a = (eq_iff _ _).1 (ap (λ (t : String × String × ℕ). t.0) e) in
    let b = (eq_iff _ _).1 (ap (λ (t : String × String × ℕ). t.1) e) in
    let c = (==_iff _ _).1 (ap (λ (t : String × String × ℕ). t.2) e) in ground arith

-- Assignments to the first report that passes a test, if they leave ids and subjects alone.
module _ (p : MilestoneReport → Bool) (f : MilestoneReport → MilestoneReport) (s : Store) where
  assigned :
      ((r : MilestoneReport) → (f r).id ≡ r.id)
      → ((r : MilestoneReport) → subject (f r) ≡ subject r)
      → IsWellFormed s
      → IsWellFormed (record s { reports = update_first p f s.reports })
  assigned same about w = record {
    distinct =
        DistinctBy-update_first (λ (r : MilestoneReport). r.id) p f same s.reports w.distinct;
    below =
        All-update_first (λ r. r.id < s.report_seq) p f s.reports (λ r _ h. rw (same r) h) w.below;
    one_each = DistinctBy-update_first subject p f about s.reports w.one_each;
  }

pub create_report-IsWellFormed :
    (now : ℕ) (d : NewReport) (s : Store)
    → IsWellFormed s
    → IsWellFormed (Memory.create_report now d s).1
unfolding Memory.create_report
create_report-IsWellFormed now d s w = elim (Option-cases (find? (is_same_milestone d) s.reports)) [
  | inl e ↦ rw e (record {
    distinct =
        DistinctBy-append (λ (r : MilestoneReport). r.id) s.reports _ w.distinct
          (All-weaken (λ r. r.id < s.report_seq) (λ r. r.id ≢ s.report_seq) s.reports
            (λ r h. omega arith) w.below);
    below =
        All-append (λ r. r.id < suc s.report_seq) s.reports _
          (All-weaken (λ r. r.id < s.report_seq) (λ r. r.id < suc s.report_seq) s.reports
            (λ r h. omega arith) w.below)
          (omega arith, tt);
    one_each = DistinctBy-append subject s.reports _ w.one_each (
        All-weaken (λ r. is_same_milestone d r ≡ false) (λ r. subject r ≢ subject_of d) s.reports
          (other_subject d) (find?-none (is_same_milestone d) s.reports e));
  })
  | inr (b, e) ↦ elim (Bool-cases (status_eq b.status rejected)) [
    | inl h ↦
        rw (e, h) (assigned (is_same_milestone d) (resubmit_row now d) s (λ r. refl) (λ r. refl) w)
    | inr h ↦ rw (e, h) w
  ]
]

module _ (id : ℕ) (f : MilestoneReport → MilestoneReport) (s : Store) where
  pub assign-IsWellFormed :
      ((r : MilestoneReport) → (f r).id ≡ r.id)
      → ((r : MilestoneReport) → subject (f r) ≡ subject r)
      → IsWellFormed s
      → IsWellFormed (assign id f s).1
  assign-IsWellFormed same about w = elim (Option-cases (find? (has_id id) s.reports)) [
    | inl e ↦ rw e w
    | inr (b, e) ↦ rw e (assigned (has_id id) f s same about w)
  ]

pub submit_appeal-IsWellFormed :
    (now id : ℕ) (reason : String) (s : Store)
    → IsWellFormed s
    → IsWellFormed (Memory.submit_appeal now id reason s).1
unfolding Memory.submit_appeal
submit_appeal-IsWellFormed now id reason s w = elim (Option-cases (find? (has_id id) s.reports)) [
  | inl e ↦ rw e w
  | inr (b, e) ↦ elim (Bool-cases (status_eq b.status rejected)) [
    | inl h ↦ rw (e, h) (assigned (has_id id) (appeal_row now reason) s (λ r. refl) (λ r. refl) w)
    | inr h ↦ rw (e, h) w
  ]
]

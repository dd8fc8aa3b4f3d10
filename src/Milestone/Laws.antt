-- ===== src/Milestone/Laws.antt =====
-- What the calls of the in-memory milestone store do (server/src/db/milestone-store.ts).
use learnvault.Prelude.{
  ℕ, suc, ◌*◌, ◌≤◌, ◌≡◌, ◌≢◌, ◌⊎◌, inl, inr, refl, String, none, some, List, [], ◌∷◌, ◌++◌, Bool,
  Bool-cases, Option-cases, find?, filter, filter-append, if◌then◌else◌, ◌==◌, length, arith,
}
use mathlib.Core.List.{Perm}
use learnvault.Prelude.Rows.{update_first}
use learnvault.Prelude.Sort.{
  IsSortedDesc, sort-IsSortedDesc, sort-perm, length-sort, pages, pages-all, page_of,
}
use learnvault.Milestone.Types.{
  rejected, MilestoneReport, NewReport, NewAuditEntry, Filters, Store, status_eq, has_id,
  is_same_milestone, resubmit_row, new_row, appeal_row, audit_row,
}
use learnvault.Milestone.Memory.{
  passes_course, passes_status, selected, list_reports, create_report, submit_appeal,
  add_audit_entry, get_audit_for_report,
}

update_first-found :
    (p : MilestoneReport → Bool) (f : MilestoneReport → MilestoneReport)
    → ((r : MilestoneReport) → p (f r) ≡ p r)
    → (rows : List MilestoneReport) (b : MilestoneReport) → find? p rows ≡ some b
    → find? p (update_first p f rows) ≡ some (f b)
update_first-found p f same [] b e = absurd (cc)
update_first-found p f same (r ∷ rows) b e =
    ground (arith, same r, update_first-found p f same rows b)

-- After `createReport` the scholar has a pending report with the given evidence for the milestone: a
-- new one with no resubmission, or the rejected one with one resubmission more. With any other
-- earlier report the call is the error DUPLICATE_REPORT and changes nothing.
pub create_report_cases :
    (now : ℕ) (d : NewReport) (s : Store)
    → ((find? (is_same_milestone d) s.reports ≡ none)
        × (create_report now d s ≡ (
          some (new_row now s.report_seq d),
          record s {
            reports = s.reports ++ new_row now s.report_seq d ∷ [];
            report_seq = suc s.report_seq;
          },
        )))
      ⊎ ((b : MilestoneReport) × (find? (is_same_milestone d) s.reports ≡ some b)
          × (((b.status ≡ rejected)
                × ((create_report now d s).0 ≡ some (resubmit_row now d b))
                × (find? (is_same_milestone d) (create_report now d s).1.reports
                    ≡ some (resubmit_row now d b)))
              ⊎ ((b.status ≢ rejected) × (create_report now d s ≡ (none, s)))))
unfolding create_report
create_report_cases now d s = elim (Option-cases (find? (is_same_milestone d) s.reports)) [
  | inl e ↦ inl (e, rw e)
  | inr (b, e) ↦ elim (Bool-cases (status_eq b.status rejected)) [
    | inl h ↦ inr (
      b,
      e,
      inl (
        ground arith,
        rw (e, h),
        rw (e, h)
            (update_first-found (is_same_milestone d) (resubmit_row now d) (λ r. refl) s.reports b
              e),
      ),
    )
    | inr h ↦ inr (b, e, inr (ground arith, rw (e, h)))
  ]
]

-- An appeal is taken only from a rejected report, which becomes "appealed" with the reason and the
-- moment; a second appeal after it returns nothing and changes nothing.
submit_appeal_once :
    (now now' id : ℕ) (reason reason' : String) (s : Store) (b : MilestoneReport)
    → (submit_appeal now id reason s).0 ≡ some b
    → ((r : MilestoneReport) × (find? (has_id id) s.reports ≡ some r)
        × (r.status ≡ rejected)
        × (b ≡ appeal_row now reason r))
      × (submit_appeal now' id reason' (submit_appeal now id reason s).1
          ≡ (none, (submit_appeal now id reason s).1))
unfolding submit_appeal
submit_appeal_once now now' id reason reason' s b won =
    elim (Option-cases (find? (has_id id) s.reports)) [
      | inl e ↦ absurd (ground arith)
      | inr (r, e) ↦ elim (Bool-cases (status_eq r.status rejected)) [
        | inr h ↦ absurd (ground arith)
        | inl h ↦
            let stored =
              update_first-found (has_id id) (appeal_row now reason) (λ x. refl) s.reports r e in
            ((r, e, ground arith, ground arith), rw (e, h) (rw stored))
      ]
    ]

-- The pages 1 to n of a listing, if they have room for it, are together the filtered reports, each
-- as often as it is stored, latest first; every page reports their number.
pub list_reports-pages :
    (f : Filters) (n page_size : ℕ) (s : Store)
    → length (selected f s.reports) ≤ n * page_size
    → (pages n page_size (selected f s.reports) ≡ selected f s.reports)
      × IsSortedDesc (λ (r : MilestoneReport). r.submitted_at) (selected f s.reports)
      × Perm
          (selected f s.reports)
          (filter (passes_status f.status) (filter (passes_course f.course_id) s.reports))
      × ((page : ℕ)
          → list_reports f page page_size s ≡ (
            page_of page page_size (selected f s.reports),
            length (filter (passes_status f.status) (filter (passes_course f.course_id) s.reports)),
          ))
unfolding selected list_reports
list_reports-pages f n page_size s room = (
  pages-all n page_size (selected f s.reports) room,
  sort-IsSortedDesc (λ (r : MilestoneReport). r.submitted_at)
      (filter (passes_status f.status) (filter (passes_course f.course_id) s.reports)),
  sort-perm (λ (r : MilestoneReport). r.submitted_at)
      (filter (passes_status f.status) (filter (passes_course f.course_id) s.reports)),
  λ page. rw (
      length-sort (λ (r : MilestoneReport). r.submitted_at)
        (filter (passes_status f.status) (filter (passes_course f.course_id) s.reports))),
)

-- The audit log only grows: an entry shows last among those of its report, and the entries of other
-- reports are what they were.
pub audit-append :
    (now report_id : ℕ) (e : NewAuditEntry) (s : Store)
    → get_audit_for_report report_id (add_audit_entry now e s).1
      ≡ get_audit_for_report report_id s
        ++ (if e.report_id == report_id then audit_row now s.audit_seq e ∷ [] else [])
unfolding get_audit_for_report add_audit_entry
audit-append now report_id e s =
    filter-append (λ a. a.report_id == report_id) s.audit_log (audit_row now s.audit_seq e ∷ [])

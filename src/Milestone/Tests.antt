-- ===== src/Milestone/Tests.antt =====
-- The milestone store on small inputs, and its theorems there.
use learnvault.Prelude.{ℕ, ◌*◌, ◌≤◌, ◌≡◌, refl, some, none, List, [], ◌∷◌, length, arith}
use learnvault.Milestone.Types.{
  pending, rejected, MilestoneReport, NewReport, Filters, Store, appeal_row, resubmit_row, new_row,
}
use learnvault.Milestone.Memory.{
  selected, list_reports, create_report, submit_appeal, update_report_status,
}
use learnvault.Milestone.Calls.{
  Call, create, set_status, appeal, in_memory, in_sql, run_calls, empty, run_calls-agrees,
}

abbrev evidence : ℕ → NewReport
evidence n = record {
  scholar_address = "GS";
  course_id = "soroban";
  milestone_id = n;
  evidence_github = some "repo";
  evidence_ipfs_cid = none;
  evidence_description = none;
}

abbrev calls : List (ℕ × Call)
calls =
    (10, create (evidence 1))
    ∷ (20, create (evidence 2))
    ∷ (30, create (evidence 1))
    ∷ (40, set_status 1 rejected)
    ∷ (50, create (evidence 1))
    ∷ (60, set_status 1 rejected)
    ∷ (70, appeal 1 "it builds")
    ∷ (80, create (evidence 1))
    ∷ []

milestones : Unit {0}
unfolding run_calls in_memory create_report submit_appeal update_report_status selected list_reports
milestones = tt

abbrev one : MilestoneReport
one = new_row 10 1 (evidence 1)

-- The second submission of milestone 1 is a duplicate until the report is rejected, and again once it
-- is appealed.
calls_test :
    (run_calls in_memory calls empty).0
    ≡ some one
      ∷ some (new_row 20 2 (evidence 2))
      ∷ none
      ∷ some (record one { status = rejected })
      ∷ some (resubmit_row 50 (evidence 1) one)
      ∷ some (record (resubmit_row 50 (evidence 1) one) { status = rejected })
      ∷ some (appeal_row 70 "it builds" (resubmit_row 50 (evidence 1) one))
      ∷ none
      ∷ []
unfolding milestones
calls_test = refl

abbrev two_reports : Store
two_reports =
    (run_calls in_memory ((10, create (evidence 1)) ∷ (20, create (evidence 2)) ∷ []) empty).1

abbrev one_rejected : Store
one_rejected = (run_calls in_memory ((40, set_status 1 rejected) ∷ []) two_reports).1

abbrev everything : Filters
everything = record { course_id = none; status = some pending }

first_page : list_reports everything 1 1 two_reports ≡ (new_row 20 2 (evidence 2) ∷ [], 2)
unfolding milestones
first_page = refl

appeal_taken :
    (submit_appeal 70 1 "it builds" one_rejected).0
    ≡ some (appeal_row 70 "it builds" (record one { status = rejected }))
unfolding milestones
appeal_taken = refl

room : length (selected everything two_reports.reports) ≤ 2 * 1
unfolding milestones
room = omega arith

run_calls-agrees_example : run_calls in_memory calls empty ≡ run_calls in_sql calls empty
run_calls-agrees_example = run_calls-agrees calls

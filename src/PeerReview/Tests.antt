-- ===== src/PeerReview/Tests.antt =====
-- Two reviewers and a learner with one pending report.
use learnvault.Prelude.{◌≡◌, refl, String, none, some, [], ◌∷◌, Bool-cases, str_eq, inl, inr, true}
use learnvault.Prelude.Int.{pos, ◌+ℤ◌}
use learnvault.Milestone.Types.{MilestoneReport, new_row}
use learnvault.Balance.Store.{
  LrnBalanceDelta, mint, balance_of, rebuild_scholar_balances, aggregate,
}
use learnvault.Balance.Projection.{total}
use learnvault.PeerReview.Store.{
  Config, Db, ReviewParams, approve, ok, refused, self_review, insufficient_reputation,
  already_reviewed, submit_peer_review, attach_peer_summaries,
}
use learnvault.PeerReview.Queue.{is_queued, is_ok, get_peer_review_queue, queue-submit}
use learnvault.PeerReview.Rewards.{IsFair, submit_all, submit_all-IsFair, submit-rebuild}

abbrev config : Config
config = record { min_lrn_threshold = some (pos 5000); peer_review_reward = pos 25 }

abbrev report : MilestoneReport
report = new_row 10 1 (record {
  scholar_address = "GA";
  course_id = "c1";
  milestone_id = 1;
  evidence_github = none;
  evidence_ipfs_cid = none;
  evidence_description = none;
})

abbrev minted : LrnBalanceDelta
minted = record {
  event_id = "e1";
  address = "GB";
  delta = pos 6000;
  event_type = mint;
  ledger_sequence = 7;
  tx_hash = none;
  occurred_at = none;
}

abbrev db : Db
db = record {
  reports = report ∷ [];
  enrollments = record { learner_address = "GA"; course_id = "c1" } ∷ [];
  balance = record {
    journal = minted ∷ [];
    balances =
        record { address = "GB"; lrn_balance = pos 6000; courses_completed = 0; updated_at = 7 }
        ∷ [];
  };
  reviews = [];
  review_seq = 1;
  events = [];
}

abbrev review : String → ReviewParams
review who = record { reviewer_address = who; report_id = 1; verdict = approve; comment = none }

peer_tests : Unit {0}
unfolding submit_peer_review attach_peer_summaries ◌+ℤ◌ rebuild_scholar_balances aggregate total
peer_tests = tt

ok_test : (submit_peer_review config 20 (review "GB") db).0 ≡ ok (pos 25)
unfolding peer_tests
ok_test = refl

own_test : (submit_peer_review config 20 (review "GA") db).0 ≡ refused self_review
unfolding peer_tests
own_test = refl

poor_test : (submit_peer_review config 20 (review "GC") db).0 ≡ refused insufficient_reputation
unfolding peer_tests
poor_test = refl

again_test :
    (submit_peer_review config 30 (review "GB") (submit_peer_review config 20 (review "GB") db).1).0
    ≡ refused already_reviewed
unfolding peer_tests
again_test = refl

counts_test :
    attach_peer_summaries (submit_peer_review config 20 (review "GB") db).1 (report ∷ [])
    ≡ (report, record { approve = 1; reject = 0 }) ∷ []
unfolding peer_tests
counts_test = refl

submit_all-IsFair_example :
    IsFair (submit_all config ((20, review "GB") ∷ (30, review "GB") ∷ (40, review "GA") ∷ []) db)
submit_all-IsFair_example =
    submit_all-IsFair config ((20, review "GB") ∷ (30, review "GB") ∷ (40, review "GA") ∷ []) db
      (tt, tt)

submit-rebuild_example :
    let after = (submit_peer_review config 20 (review "GB") db).1 in
    (balance_of "GB" after.balance.balances ≡ pos 6000 +ℤ pos 25)
    × (balance_of "GB" (rebuild_scholar_balances 30 after.balance).1.balances ≡ pos 6000)
unfolding peer_tests
submit-rebuild_example =
    submit-rebuild config 20 30 (review "GB") db
      (λ a. elim (Bool-cases (str_eq "GB" a)) [ inl e ↦ rw e refl | inr e ↦ rw e refl ]) refl

queue-submit_example :
    is_queued 1 (get_peer_review_queue config "GB" db)
    ≡ is_ok (submit_peer_review config 20 (review "GB") db).0
queue-submit_example = queue-submit config 20 (review "GB") db (tt, tt)

queue_test : is_queued 1 (get_peer_review_queue config "GB" db) ≡ true
unfolding peer_tests get_peer_review_queue
queue_test = refl

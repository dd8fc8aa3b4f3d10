-- ===== src/Dispute/Tests.antt =====
-- One dispute with a panel of two, opened, voted on and resolved.
use learnvault.Prelude.{◌≡◌, refl, String, none, some, List, [], ◌∷◌, true, false}
use learnvault.Dispute.Store.{
  Dispute, DisputeVote, PendingEvidence, Db, done, resolved, new_dispute, counted, Resolution,
  upsert_dispute_opened, mark_committed, record_reveal, mark_resolved, set_evidence_cid,
  set_pending_evidence, take_pending_evidence, get_dispute_by_id, get_dispute_by_milestone,
  get_jurors_for_dispute,
}
use learnvault.Dispute.Reveal.{IsTallied, reveal_again_miscounts}
use learnvault.Dispute.Replay.{open_twice}

abbrev nothing : Db
nothing = record { disputes = []; jurors = []; votes = []; pending = [] }

abbrev dispute : Dispute
dispute = new_dispute 1 7 3 2 "GS" "hash" "100" 1 10 20 none

abbrev replayed : Dispute
replayed = new_dispute 5 7 3 2 "GS" "hash" "100" 1 10 20 (some "tx")

abbrev panel : List String
panel = "GA" ∷ "GB" ∷ []

abbrev opened : Db
opened = (upsert_dispute_opened dispute panel nothing).1

abbrev vote : DisputeVote
vote = record {
  dispute_id = 7;
  juror_address = "GA";
  vote = true;
  revealed_at = 12;
  tx_hash = none;
}

abbrev voted : Db
voted = (record_reveal 12 vote opened).1

abbrev evidence : PendingEvidence
evidence = record {
  proposal_id = 3;
  milestone_id = 2;
  scholar_address = "GS";
  evidence_ipfs_cid = "cid";
}

abbrev resolution : Resolution
resolution = record {
  dispute_id = 7;
  outcome = some true;
  votes_for = 1;
  votes_against = 0;
  revealed_count = 1;
  quorum_met = true;
  resolved_at = 21;
  resolve_tx_hash = none;
}

store : Unit {0}
unfolding upsert_dispute_opened mark_committed record_reveal mark_resolved set_evidence_cid
    set_pending_evidence take_pending_evidence get_dispute_by_id get_dispute_by_milestone
    get_jurors_for_dispute
store = tt

jurors_test :
    get_jurors_for_dispute 7 (mark_committed 7 "GB" opened)
    ≡ record { dispute_id = 7; juror_address = "GA"; has_committed = false; has_revealed = false }
      ∷ record { dispute_id = 7; juror_address = "GB"; has_committed = true; has_revealed = false }
      ∷ []
unfolding store
jurors_test = refl

resolved_test :
    get_dispute_by_milestone 3 2 (mark_resolved 22 resolution (set_evidence_cid 13 7 "cid" voted))
    ≡ some (record (counted 22 true dispute) {
      phase = resolved;
      outcome = some true;
      evidence_ipfs_cid = some "cid";
      resolved_at = some 21;
    })
unfolding store
resolved_test = refl

opened_test : (upsert_dispute_opened dispute panel nothing).0 ≡ done
unfolding store
opened_test = refl

dispute_found : get_dispute_by_id 7 opened ≡ some dispute
unfolding store
dispute_found = refl

voted_found : get_dispute_by_id 7 voted ≡ some (counted 12 true dispute)
unfolding store
voted_found = refl

open_twice_example : upsert_dispute_opened replayed panel opened ≡ (done, opened)
open_twice_example = open_twice dispute replayed panel nothing refl opened_test

reveal_again_miscounts_example :
    (get_dispute_by_id 7 (record_reveal 13 vote voted).1
      ≡ some (counted 13 true (counted 12 true dispute)))
    × ((record_reveal 13 vote voted).1.votes ≡ voted.votes)
    × ¬ IsTallied (record_reveal 13 vote voted).1.votes (counted 13 true (counted 12 true dispute))
unfolding store
reveal_again_miscounts_example =
    reveal_again_miscounts 13 vote voted (counted 12 true dispute) voted_found refl
      (refl, refl, refl)

-- ===== src/Bounty/Tests.antt =====
-- The bounty board on a small history: one bounty posted, claimed, worked on and paid.
use learnvault.Prelude.{ℕ, ◌≡◌, refl, String, some, none, List, [], ◌∷◌, find?}
use learnvault.Bounty.Types.{BountyStatus, claimed, submitted, paid, Bounty, Db}
use learnvault.Bounty.Store.{
  create_bounty, cancel_bounty, reopen_expired_claims, NewBounty, has_id, claim_bounty, submit_work,
  approve_submission,
}
use learnvault.Bounty.Ops.{Op, create, claim, submit, approve, empty, step, run}
use learnvault.Bounty.Invariant.{IsWellFormed, run-IsWellFormed}
use learnvault.Bounty.Transitions.{Moved, step_moves}

abbrev ascii : String → String
ascii s = s

abbrev posting : NewBounty
posting = record {
  sponsor_addr = "GSPONSOR";
  title = "Fix the docs";
  description = "Repair every broken link";
  skill_tags = "docs" ∷ [];
  reward_usdc = "25";
  escrow_tx = some "tx1";
  deadline = some 900;
}

abbrev open_board : Db
open_board = run ascii ((100, create posting) ∷ []) empty

abbrev history : List (ℕ × Op)
history =
    (100, create posting) ∷ (200, claim 1 "GA" 800) ∷ (300, submit 1 "GA" (some "repo") none) ∷ []

abbrev posted : Bounty
posted = record {
  id = 1;
  sponsor_addr = "GSPONSOR";
  title = "Fix the docs";
  description = "Repair every broken link";
  skill_tags = "docs" ∷ [];
  reward_usdc = "25";
  escrow_tx = some "tx1";
  status = BountyStatus.«open»;
  claimed_by = none;
  deadline = some 900;
  payout_tx = none;
  reward_tx = none;
  approved_at = none;
  paid_at = none;
  created_at = 100;
}

abbrev taken : Bounty
taken = record posted { status = claimed; claimed_by = some "GA"; deadline = some 800 }

abbrev worked : Bounty
worked = record taken { status = submitted }

board : Unit {0}
unfolding run step create_bounty claim_bounty submit_work cancel_bounty approve_submission
    reopen_expired_claims
board = tt

found_posted : find? (has_id 1) open_board.bounties ≡ some posted
unfolding board
found_posted = refl

found_worked : find? (has_id 1) (run ascii history empty).bounties ≡ some worked
unfolding board
found_worked = refl

first_claim : (claim_bounty 200 1 "GA" 800 open_board).0 ≡ some taken
unfolding board
first_claim = refl

run-IsWellFormed_example : IsWellFormed (run ascii history empty)
run-IsWellFormed_example = run-IsWellFormed ascii history

step_moves_example :
    Moved 1 worked
      (step ascii 400 (approve 1 (some "p") (some "r")) (run ascii history empty)).bounties
step_moves_example =
    step_moves ascii 400 (approve 1 (some "p") (some "r")) (run ascii history empty) 1 worked
      found_worked

abbrev settled : Db
settled = run ascii ((400, approve 1 (some "p") (some "r")) ∷ []) (run ascii history empty)

abbrev paid_bounty : Bounty
paid_bounty = record worked {
  status = paid;
  payout_tx = some "p";
  reward_tx = some "r";
  approved_at = some 400;
  paid_at = some 400;
}

found_paid : find? (has_id 1) settled.bounties ≡ some paid_bounty
unfolding board
found_paid = refl

reopened : (reopen_expired_claims 900 (claim_bounty 200 1 "GA" 800 open_board).1).0 ≡ 1
unfolding board
reopened = refl

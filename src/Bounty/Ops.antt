-- ===== src/Bounty/Ops.antt =====
-- A history of the bounty board: the calls that change it (server/src/db/bounty-store.ts), each at
-- its moment, one after the other.
use learnvault.Prelude.{ℕ, String, Option, List, [], ◌∷◌}
use learnvault.Bounty.Types.{Db}
use learnvault.Bounty.Store.{
  NewBounty, create_bounty, claim_bounty, submit_work, cancel_bounty, approve_submission,
  reopen_expired_claims,
}

pub data Op : Type 0 where
  create : NewBounty → Op
  claim : ℕ → String → ℕ → Op
  submit : ℕ → String → Option String → Option String → Op
  approve : ℕ → Option String → Option String → Op
  cancel : ℕ → String → Op
  reopen : Op

abbrev pub empty : Db
empty = record { bounties = []; submissions = []; next_bounty = 1; next_submission = 1 }

module _ (lower : String → String) where
  unfoldable pub step : ℕ → Op → Db → Db
  step now (create row) db = (create_bounty now row db).1
  step now (claim id by deadline) db = (claim_bounty now id by deadline db).1
  step now (submit id learner repo_url notes) db =
      (submit_work lower now id learner repo_url notes db).1
  step now (approve id payout_tx reward_tx) db =
      (approve_submission now id payout_tx reward_tx db).1
  step now (cancel id sponsor) db = (cancel_bounty lower id sponsor db).1
  step now reopen db = (reopen_expired_claims now db).1

  unfoldable pub run : List (ℕ × Op) → Db → Db
  run [] db = db
  run ((now, op) ∷ ops) db = run ops (step now op db)

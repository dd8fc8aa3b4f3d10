-- ===== src/Bounty/Store.antt =====
-- The queries of server/src/db/bounty-store.ts that change the tables, each one transaction: the
-- result and the tables after it. `now` is the moment of the query and `lower` is `toLowerCase`,
-- which SQL's LOWER is taken to agree with.
use learnvault.Prelude.{
  ℕ, suc, String, Option, none, some, List, [], ◌∷◌, ◌++◌, Bool, false, not, ◌&&◌, ◌||◌, any, find?,
  filter, length, ltb, ◌==◌, str_eq, if◌then◌else◌,
}
use learnvault.Prelude.Rows.{update}
use learnvault.Bounty.Types.{
  BountyStatus, claimed, submitted, paid, cancelled, Bounty, BountySubmission, Db, status_eq,
}

pub record NewBounty : Type 0 where
  pub sponsor_addr : String
  pub title : String
  pub description : String
  pub skill_tags : List String
  pub reward_usdc : String
  pub escrow_tx : Option String
  pub deadline : Option ℕ

unfoldable pub create_bounty : ℕ → NewBounty → Db → Bounty × Db
create_bounty now row db =
    let bounty : Bounty = record {
      id = db.next_bounty;
      sponsor_addr = row.sponsor_addr;
      title = row.title;
      description = row.description;
      skill_tags = row.skill_tags;
      reward_usdc = row.reward_usdc;
      escrow_tx = row.escrow_tx;
      status = BountyStatus.«open»;
      claimed_by = none;
      deadline = row.deadline;
      payout_tx = none;
      reward_tx = none;
      approved_at = none;
      paid_at = none;
      created_at = now;
    } in
    (bounty, record db { bounties = db.bounties ++ bounty ∷ []; next_bounty = suc db.next_bounty })

abbrev pub has_id : ℕ → Bounty → Bool
has_id id b = b.id == id

unfoldable pub get_bounty_by_id : ℕ → Db → Option Bounty
get_bounty_by_id id db = find? (has_id id) db.bounties

-- `deadline && new Date(deadline) < new Date()`
abbrev pub is_past : ℕ → Option ℕ → Bool
is_past now none = false
is_past now (some deadline) = ltb deadline now

-- The guards of `claimBounty` before its UPDATE.
abbrev pub can_claim : ℕ → Option Bounty → Bool
can_claim now none = false
can_claim now (some b) = status_eq b.status BountyStatus.«open» && not (is_past now b.deadline)

abbrev pub is_open_row : ℕ → Bounty → Bool
is_open_row id b = has_id id b && status_eq b.status BountyStatus.«open»

abbrev pub claim_row : String → ℕ → Bounty → Bounty
claim_row by deadline b = record b {
  status = claimed;
  claimed_by = some by;
  deadline = some deadline;
}

abbrev pub claim_update : ℕ → String → ℕ → Db → Db
claim_update id by deadline db = record db {
  bounties = update (is_open_row id) (claim_row by deadline) db.bounties;
}

unfoldable pub claim_bounty : ℕ → ℕ → String → ℕ → Db → Option Bounty × Db
unfolding get_bounty_by_id
claim_bounty now id by deadline db =
    if can_claim now (get_bounty_by_id id db)
    then (
      find? (has_id id) (claim_update id by deadline db).bounties,
      claim_update id by deadline db,
    )
    else (none, db)

-- The UNIQUE constraint of bounty_submissions: one submission of a learner to a bounty.
abbrev pub is_duplicate : ℕ → String → BountySubmission → Bool
is_duplicate bounty_id learner s = s.bounty_id == bounty_id && str_eq s.learner_addr learner

-- What `submitWork` does: nulls, a row of each table, or the rethrown constraint violation.
pub data SubmitResult : Type 0 where
  refused : SubmitResult
  accepted : Option Bounty → BountySubmission → SubmitResult
  unique_violation : SubmitResult

abbrev pub new_submission : ℕ → ℕ → String → Option String → Option String → Db → BountySubmission
new_submission now id learner repo_url notes db = record {
  id = db.next_submission;
  bounty_id = id;
  learner_addr = learner;
  repo_url = repo_url;
  notes = notes;
  submitted_at = now;
}

abbrev pub submit_row : Bounty → Bounty
submit_row b = record b { status = submitted }

abbrev pub submit_update : ℕ → BountySubmission → Db → Db
submit_update id row db = record db {
  bounties = update (has_id id) submit_row db.bounties;
  submissions = db.submissions ++ row ∷ [];
  next_submission = suc db.next_submission;
}

abbrev pub cancel_row : Bounty → Bounty
cancel_row b = record b { status = cancelled }

module _ (lower : String → String) where
  -- `claimed_by && claimed_by.toLowerCase() !== learnerAddr.toLowerCase()`; "" is falsy.
  abbrev pub is_other : Option String → String → Bool
  is_other none learner = false
  is_other (some owner) learner =
      not (str_eq owner "") && not (str_eq (lower owner) (lower learner))

  -- The guards of `submitWork` before its INSERT.
  abbrev pub can_submit : ℕ → String → Option Bounty → Bool
  can_submit now learner none = false
  can_submit now learner (some b) =
      status_eq b.status claimed
      && not (is_other b.claimed_by learner)
      && not (is_past now b.deadline)

  unfoldable pub submit_work :
      ℕ → ℕ → String → Option String → Option String → Db → SubmitResult × Db
  unfolding get_bounty_by_id
  submit_work now id learner repo_url notes db =
      if not (can_submit now learner (get_bounty_by_id id db))
      then (refused, db)
      else if any (is_duplicate id learner) db.submissions
      then (unique_violation, db)
      else let row = new_submission now id learner repo_url notes db in
        let db' = submit_update id row db in (accepted (find? (has_id id) db'.bounties) row, db')

  abbrev pub is_cancellable_row : ℕ → String → Bounty → Bool
  is_cancellable_row id sponsor b =
      has_id id b
      && str_eq (lower b.sponsor_addr) (lower sponsor)
      && (status_eq b.status BountyStatus.«open» || status_eq b.status claimed)

  -- `UPDATE … RETURNING *`, of at most one row.
  unfoldable pub cancel_bounty : ℕ → String → Db → Option Bounty × Db
  cancel_bounty id sponsor db =
      let db' : Db = record db {
        bounties = update (is_cancellable_row id sponsor) cancel_row db.bounties;
      } in
      (
        if any (is_cancellable_row id sponsor) db.bounties
            then find? (has_id id) db'.bounties
            else none,
        db',
      )

abbrev pub is_submitted_row : ℕ → Bounty → Bool
is_submitted_row id b = has_id id b && status_eq b.status submitted

abbrev pub pay_row : ℕ → Option String → Option String → Bounty → Bounty
pay_row now payout_tx reward_tx b = record b {
  status = paid;
  payout_tx = payout_tx;
  reward_tx = reward_tx;
  approved_at = some now;
  paid_at = some now;
}

unfoldable pub approve_submission : ℕ → ℕ → Option String → Option String → Db → Option Bounty × Db
approve_submission now id payout_tx reward_tx db =
    let db' : Db = record db {
      bounties = update (is_submitted_row id) (pay_row now payout_tx reward_tx) db.bounties;
    } in
    (if any (is_submitted_row id) db.bounties then find? (has_id id) db'.bounties else none, db')

-- `id NOT IN (SELECT bounty_id FROM bounty_submissions)`
abbrev pub has_submission : List BountySubmission → ℕ → Bool
has_submission rows id = any (λ s. s.bounty_id == id) rows

abbrev pub is_expired_claim : ℕ → List BountySubmission → Bounty → Bool
is_expired_claim now rows b =
    status_eq b.status claimed && is_past now b.deadline && not (has_submission rows b.id)

abbrev pub reopen_row : Bounty → Bounty
reopen_row b = record b { status = BountyStatus.«open»; claimed_by = none; deadline = none }

unfoldable pub reopen_expired_claims : ℕ → Db → ℕ × Db
reopen_expired_claims now db = (
  length (filter (is_expired_claim now db.submissions) db.bounties),
  record db { bounties = update (is_expired_claim now db.submissions) reopen_row db.bounties },
)

abbrev is_tx : String → Option String → Bool
is_tx tx none = false
is_tx tx (some t) = str_eq t tx

unfoldable pub is_escrow_tx_funded : String → Db → Bool
is_escrow_tx_funded tx db =
    any (λ (b : Bounty). is_tx tx b.escrow_tx && not (status_eq b.status cancelled)) db.bounties

-- ===== src/Bounty/Handlers.antt =====
-- The handlers of server/src/controllers/bounty.controller.ts that change the board, with the functions
-- of server/src/services/bounty.service.ts that they call, and the pass of
-- server/src/workers/bounty-expiry-worker.ts. A handler's first argument is its moment.
use Prim.Native.String.{◌++◌}
use learnvault.Prelude.{
  ℕ, ◌==◌, ◌+◌, ◌*◌, String, Option, none, some, List, [], ◌∷◌, map, Bool, false, not, ◌&&◌, ltb,
  leb, filter, length, str_eq, if◌then◌else◌,
}
use learnvault.Prelude.Sort.{sort_desc}
use learnvault.Bounty.Types.{
  claimed, submitted, approved, cancelled, Bounty, BountySubmission, Db, status_eq,
  is_valid_transition,
}
use learnvault.Bounty.Store.{
  SubmitResult, refused, accepted, unique_violation, create_bounty, get_bounty_by_id, is_past,
  claim_bounty, submit_work, cancel_bounty, approve_submission, reopen_expired_claims,
  is_escrow_tx_funded,
}
use learnvault.Http.{
  done, answer, fail, or_fail, read, call, ◌>>=◌, ◌>>◌, reject_if, reject_for, is_blank,
}
use learnvault.Bounty.Request.{Env, Action, query, caller, bounty_id}

-- `getSubmissionByBounty`: the latest submission.
abbrev first : List BountySubmission → Option BountySubmission
first [] = none
first (s ∷ rows) = some s

abbrev pub get_submission_by_bounty : ℕ → Db → Option BountySubmission
get_submission_by_bounty id db = first (
    sort_desc (λ (s : BountySubmission). s.submitted_at)
      (filter (λ s. s.bounty_id == id) db.submissions))

-- `claim_duration` is `claimDurationHours`, which may be a fraction, in milliseconds as `Date` takes them,
-- where it is a positive number.
pub record CreateBody : Type 0 where
  pub title : Option String
  pub description : Option String
  pub skill_tags : List String
  pub reward_usdc : Option String
  pub escrow_tx : Option String
  pub claim_duration : Option ℕ

abbrev pub text_of : Option String → String
text_of none = ""
text_of (some text) = text

abbrev pub hour_ms : ℕ
hour_ms = 60 * 60 * 1000

abbrev pub duration_of : Option ℕ → ℕ
duration_of none = 72 * hour_ms
duration_of (some ms) = ms

abbrev pub submitted_answer : SubmitResult → Action (Bounty × BountySubmission)
submitted_answer refused = fail 409 "Failed to submit work"
submitted_answer (accepted none row) = fail 409 "Failed to submit work"
submitted_answer (accepted (some b) row) = answer (b, row)
submitted_answer unique_violation = fail 500 "Failed to submit work"

module _ (env : Env) where
  abbrev pub is_length_between : ℕ → ℕ → Option String → Bool
  is_length_between low high text =
      not (is_blank text)
      && leb low (env.text_length (env.trim (text_of text)))
      && leb (env.text_length (env.trim (text_of text))) high

  abbrev pub tags_of : List String → List String
  tags_of tags = map (λ t. env.lower (env.trim t)) (filter (λ t. not (str_eq (env.trim t) "")) tags)

  -- `verifyEscrowDeposit`: the reason of a refusal. The handler has tested the reward.
  abbrev pub verify_escrow_deposit : String → Db → Option String
  verify_escrow_deposit tx db =
      if str_eq (env.trim tx) ""
      then some "Escrow transaction hash is required"
      else if is_escrow_tx_funded tx db
      then some "This escrow transaction has already been used"
      else none

  unfoldable pub create_bounty_handler : ℕ → Option String → CreateBody → Action Bounty
  create_bounty_handler now who body = do
    wallet ← caller env who
    reject_if (not (is_length_between 5 200 body.title)) 400
        "Title must be between 5 and 200 characters"
    reject_if (not (is_length_between 20 5000 body.description)) 400
        "Description must be between 20 and 5000 characters"
    reject_if (ltb 10 (length (tags_of body.skill_tags))) 400 "Maximum 10 skill tags allowed"
    reward ← or_fail (env.parse_reward body.reward_usdc) 400 "Reward must be a positive number"
    reject_if (str_eq (env.trim (text_of body.escrow_tx)) "") 400
        "Escrow transaction hash is required"
    let tx = env.trim (text_of body.escrow_tx)
    refusal ← read (λ s. verify_escrow_deposit tx s.db)
    reject_for refusal 400
    stored ← or_fail (env.numeric reward) 500 "Failed to create bounty"
    call (
        query (
          create_bounty now (record {
            sponsor_addr = wallet;
            title = env.trim (text_of body.title);
            description = env.trim (text_of body.description);
            skill_tags = tags_of body.skill_tags;
            reward_usdc = stored;
            escrow_tx = some tx;
            deadline = some (now + duration_of body.claim_duration);
          })))

  unfoldable pub claim_bounty_handler : ℕ → Option String → Option ℕ → Action Bounty
  claim_bounty_handler now who param = do
    wallet ← caller env who
    id ← bounty_id param
    found ← read (λ s. get_bounty_by_id id s.db)
    bounty ← or_fail found 404 "Bounty not found"
    reject_if (not (is_valid_transition bounty.status claimed)) 400
        "Bounty is not in a claimable state"
    reject_if (str_eq (env.lower bounty.sponsor_addr) wallet) 400
        "Sponsors cannot claim their own bounties"
    reject_if (is_past now bounty.deadline) 400 "Bounty deadline has passed"
    claim ← call (query (claim_bounty now id wallet (now + 72 * hour_ms)))
    or_fail claim 409 "Failed to claim bounty — it may have been claimed by another learner"

  -- `bounty.claimed_by && bounty.claimed_by.toLowerCase() !== walletAddress`
  abbrev pub is_held_by_other : Option String → String → Bool
  is_held_by_other none wallet = false
  is_held_by_other (some owner) wallet =
      not (str_eq owner "") && not (str_eq (env.lower owner) wallet)

  abbrev pub trimmed : Option String → Option String
  trimmed none = none
  trimmed (some text) = some (env.trim text)

  unfoldable pub submit_work_handler :
      ℕ
      → Option String
      → Option ℕ
      → Option String
      → Option String
      → Action (Bounty × BountySubmission)
  submit_work_handler now who param repo_url notes = do
    wallet ← caller env who
    id ← bounty_id param
    reject_if (is_blank repo_url && is_blank notes) 400
        "At least one of repoUrl or notes is required"
    found ← read (λ s. get_bounty_by_id id s.db)
    bounty ← or_fail found 404 "Bounty not found"
    reject_if (not (is_valid_transition bounty.status submitted)) 400
        "Bounty is not in a submittable state"
    reject_if (is_held_by_other bounty.claimed_by wallet) 403 "Only the claimant can submit work"
    reject_if (is_past now bounty.deadline) 400 "Claim deadline has passed"
    result ← call (query (submit_work env.lower now id wallet (trimmed repo_url) (trimmed notes)))
    submitted_answer result

  -- The transaction's hash, or none where the release is refused; the handler does not tell them apart.
  abbrev pub release : ℕ → ℕ → String → Option Bounty → Action (Option String)
  release now id learner none s = (done none, s)
  release now id learner (some b) s =
      if status_eq b.status submitted
      then (
        done (some ("bounty-release-" ++ env.print id ++ "-" ++ env.print now)),
        record s { releases = record { bounty_id = id; learner_addr = learner } ∷ s.releases },
      )
      else (done none, s)

  abbrev pub release_escrow : ℕ → ℕ → String → Action (Option String)
  release_escrow now id learner s = release now id learner (get_bounty_by_id id s.db) s

  abbrev pub mint : ℕ → ℕ → String → Option Bounty → Action (Option String)
  mint now id learner none s = (done none, s)
  mint now id learner (some b) s =
      if ltb 0 (env.lrn_amount b.reward_usdc)
      then (
        done (some ("bounty-lrn-" ++ env.print id ++ "-" ++ env.print now)),
        record s { mints = record { bounty_id = id; learner_addr = learner } ∷ s.mints },
      )
      else (done none, s)

  abbrev pub mint_lrn_reward : ℕ → ℕ → String → Action (Option String)
  mint_lrn_reward now id learner s = mint now id learner (get_bounty_by_id id s.db) s

  -- The payments and the store, in this order.
  unfoldable pub settle : ℕ → ℕ → String → Action Bounty
  settle now id learner = do
    payout ← release_escrow now id learner
    reward ← mint_lrn_reward now id learner
    updated ← call (query (approve_submission now id payout reward))
    or_fail updated 409 "Failed to approve — bounty may have already been processed"

  abbrev pub approve_submitted : ℕ → ℕ → Option BountySubmission → Action Bounty
  approve_submitted now id none = fail 400 "No submission found for this bounty"
  approve_submitted now id (some submission) = settle now id submission.learner_addr

  abbrev pub approve_found : ℕ → String → ℕ → Option Bounty → Action Bounty
  approve_found now wallet id none = fail 404 "Bounty not found"
  approve_found now wallet id (some bounty) = do
    reject_if (not (is_valid_transition bounty.status approved)) 400
        "Bounty is not in an approvable state"
    reject_if (not (str_eq (env.lower bounty.sponsor_addr) wallet)) 403
        "Only the sponsor can approve submissions"
    submission ← read (λ s. get_submission_by_bounty id s.db)
    approve_submitted now id submission

  unfoldable pub approve_submission_handler : ℕ → Option String → Option ℕ → Action Bounty
  approve_submission_handler now who param = do
    wallet ← caller env who
    id ← bounty_id param
    found ← read (λ s. get_bounty_by_id id s.db)
    approve_found now wallet id found

  unfoldable pub cancel_bounty_handler : Option String → Option ℕ → Action Bounty
  cancel_bounty_handler who param = do
    wallet ← caller env who
    id ← bounty_id param
    found ← read (λ s. get_bounty_by_id id s.db)
    bounty ← or_fail found 404 "Bounty not found"
    reject_if (not (str_eq (env.lower bounty.sponsor_addr) wallet)) 403
        "Only the sponsor can cancel a bounty"
    reject_if (not (is_valid_transition bounty.status cancelled)) 400
        "Bounty cannot be cancelled in its current state"
    cancel ← call (query (cancel_bounty env.lower id wallet))
    or_fail cancel 409 "Failed to cancel bounty"

-- `processExpiredClaims`
unfoldable pub process_expired_claims : ℕ → Action ℕ
process_expired_claims now = call (query (reopen_expired_claims now))

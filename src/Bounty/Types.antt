-- ===== src/Bounty/Types.antt =====
-- The rows of the bounty board (server/src/db/bounty-store.ts) and the transition table of
-- server/src/services/bounty.service.ts. A moment is a number of milliseconds. A NUMERIC column
-- stays the text that the driver returns.
use learnvault.Prelude.{ℕ, String, Option, List, [], ◌∷◌, Bool, any, ◌==◌}

pub data BountyStatus : Type 0 where
  «open» claimed submitted approved paid cancelled : BountyStatus

pub record Bounty : Type 0 where
  pub id : ℕ
  pub sponsor_addr : String
  pub title : String
  pub description : String
  pub skill_tags : List String
  pub reward_usdc : String
  pub escrow_tx : Option String
  pub status : BountyStatus
  pub claimed_by : Option String
  pub deadline : Option ℕ
  pub payout_tx : Option String
  pub reward_tx : Option String
  pub approved_at : Option ℕ
  pub paid_at : Option ℕ
  pub created_at : ℕ

pub record BountySubmission : Type 0 where
  pub id : ℕ
  pub bounty_id : ℕ
  pub learner_addr : String
  pub repo_url : Option String
  pub notes : Option String
  pub submitted_at : ℕ

-- The two tables with their SERIAL counters.
pub record Db : Type 0 where
  pub bounties : List Bounty
  pub submissions : List BountySubmission
  pub next_bounty : ℕ
  pub next_submission : ℕ

abbrev pub status_code : BountyStatus → ℕ
status_code BountyStatus.«open» = 0
status_code claimed = 1
status_code submitted = 2
status_code approved = 3
status_code paid = 4
status_code cancelled = 5

abbrev pub status_eq : BountyStatus → BountyStatus → Bool
status_eq a b = status_code a == status_code b

unfoldable pub valid_transitions : BountyStatus → List BountyStatus
valid_transitions BountyStatus.«open» = claimed ∷ cancelled ∷ []
valid_transitions claimed = submitted ∷ BountyStatus.«open» ∷ cancelled ∷ []
valid_transitions submitted = approved ∷ cancelled ∷ []
valid_transitions approved = paid ∷ []
valid_transitions paid = []
valid_transitions cancelled = []

unfoldable pub is_valid_transition : BountyStatus → BountyStatus → Bool
unfolding valid_transitions
is_valid_transition from to = any (status_eq to) (valid_transitions from)

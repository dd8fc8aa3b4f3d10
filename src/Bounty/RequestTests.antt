-- ===== src/Bounty/RequestTests.antt =====
-- Requests to the bounty board on a small history, and the theorems about requests there.
use mathlib.Core.List.{Perm}
use learnvault.Prelude.{
  ◌≤◌, map, ℕ, suc, ◌≡◌, refl, some, none, List, [], ◌∷◌, find?, length, arith, ◌*◌, ◌+◌, zero,
}
use learnvault.Prelude.Sort.{sort_desc, sort-perm, sort-IsSortedDesc, IsSortedDesc}
use learnvault.Prelude.Rows.{DistinctBy}
use learnvault.Bounty.Types.{submitted, Bounty, is_valid_transition}
use learnvault.Bounty.Store.{
  has_id, get_bounty_by_id, is_escrow_tx_funded, create_bounty, claim_bounty, submit_work,
  cancel_bounty, approve_submission,
}
use learnvault.Bounty.Request.{Server, Env}
use learnvault.Bounty.Handlers.{
  CreateBody, cancel_bounty_handler, create_bounty_handler, claim_bounty_handler,
  submit_work_handler, approve_submission_handler, settle,
}
use learnvault.Bounty.Requests.{
  Request, create, claim, submit, approve, serve, serve_all, opened, serve_failed,
}
use learnvault.Bounty.Listing.{Order, list_bounties, list_bounties_handler}
use learnvault.Bounty.Paging.{
  IsLatestFirst, pages_told, page_reply, read_all, requested, pages_complete, pages_short,
}
use learnvault.Bounty.Payouts.{IsSettled, payments_of, serve_all-IsSettled}
use learnvault.Http.{failed, ◌>>=◌, call, read, or_fail, reject_if, reject_for, answer, fail}

abbrev env : Env
env = record {
  lower = λ s. s;
  trim = λ s. s;
  text_length = λ s. 25;
  parse_reward = λ r. r;
  numeric = λ r. some r;
  lrn_amount = λ r. 250;
  print = λ n. "n";
}

abbrev body : CreateBody
body = record {
  title = some "Fix the docs";
  description = some "Repair every broken link";
  skill_tags = "docs" ∷ [];
  reward_usdc = some "25";
  escrow_tx = some "tx1";
  claim_duration = none;
}

abbrev until_work : List (ℕ × Request)
until_work =
    (100, create (some "ga") body)
    ∷ (200, claim (some "gb") (some 1))
    ∷ (300, submit (some "gb") (some 1) (some "repo") none)
    ∷ []

abbrev worked_on : Server
worked_on = serve_all env until_work opened

-- The second approval is refused.
abbrev until_paid : List (ℕ × Request)
until_paid =
    (100, create (some "ga") body)
    ∷ (200, claim (some "gb") (some 1))
    ∷ (300, submit (some "gb") (some 1) (some "repo") none)
    ∷ (400, approve (some "ga") (some 1))
    ∷ (500, approve (some "ga") (some 1))
    ∷ []

requests : Unit {0}
unfolding serve_all serve create_bounty_handler claim_bounty_handler submit_work_handler
    approve_submission_handler cancel_bounty_handler create_bounty claim_bounty submit_work
    approve_submission cancel_bounty get_bounty_by_id settle is_valid_transition is_escrow_tx_funded
    list_bounties list_bounties_handler ◌>>=◌ call read or_fail reject_if reject_for answer fail
requests = tt

released_once : payments_of 1 (serve_all env until_paid opened).releases ≡ 1
unfolding requests
released_once = refl

serve_all-IsSettled_example : IsSettled 1 (serve_all env until_paid opened)
serve_all-IsSettled_example = serve_all-IsSettled env until_paid 1

abbrev worked_bounty : Bounty
worked_bounty = record {
  id = 1;
  sponsor_addr = "ga";
  title = "Fix the docs";
  description = "Repair every broken link";
  skill_tags = "docs" ∷ [];
  reward_usdc = "25";
  escrow_tx = some "tx1";
  status = submitted;
  claimed_by = some "gb";
  deadline = some (200 + 72 * (60 * 60 * 1000));
  payout_tx = none;
  reward_tx = none;
  approved_at = none;
  paid_at = none;
  created_at = 100;
}

found_worked : find? (has_id 1) worked_on.db.bounties ≡ some worked_bounty
unfolding requests
found_worked = refl

one_bounty : DistinctBy (λ (r : Bounty). r.id) worked_on.db.bounties
unfolding requests
one_bounty = (tt, tt)

refused :
    (serve env 500 (claim (some "gc") (some 1)) worked_on).0
    ≡ failed 400 "Bounty is not in a claimable state"
unfolding requests
refused = refl

serve_failed_example : (serve env 500 (claim (some "gc") (some 1)) worked_on).1 ≡ worked_on
serve_failed_example =
    serve_failed env 500 (claim (some "gc") (some 1)) worked_on 400
      "Bounty is not in a claimable state" refused

abbrev repeated : ℕ → List Bounty
repeated zero = []
repeated (suc n) = worked_bounty ∷ repeated n

abbrev crowded : Server
crowded = record opened {
  db = record { bounties = repeated 101; submissions = []; next_bounty = 2; next_submission = 1 };
}

abbrev by_moment : ℕ → Order
by_moment n rows = sort_desc (λ (b : Bounty). b.created_at) rows

by_moment-IsLatestFirst : (n : ℕ) → IsLatestFirst (by_moment n)
by_moment-IsLatestFirst n rows = (
  sort-perm (λ (b : Bounty). b.created_at) rows,
  sort-IsSortedDesc (λ (b : Bounty). b.created_at) rows,
)

-- Three bounties of different moments, on pages of two.
abbrev three : Server
three = record opened {
  db = record {
    bounties =
        worked_bounty
        ∷ record worked_bounty { id = 2; created_at = 300 }
        ∷ record worked_bounty { id = 3; created_at = 200 }
        ∷ [];
    submissions = [];
    next_bounty = 4;
    next_submission = 1;
  };
}

pages_complete_example :
    Perm
      (read_all env by_moment none (some "submitted") three 2)
      (requested env none (some submitted) three)
    × IsSortedDesc
        (λ (b : Bounty). b.created_at)
        (read_all env by_moment none (some "submitted") three 2)
pages_complete_example =
    pages_complete env by_moment none (some "submitted") (some submitted) three 1
      by_moment-IsLatestFirst refl
      (
        ((λ e. absurd (omega arith)), ((λ e. absurd (omega arith)), tt)),
        (((λ e. absurd (omega arith)), tt), (tt, tt)),
      )
      (omega arith)

read_all_test :
    map (λ (b : Bounty). b.id) (read_all env by_moment none (some "submitted") three 2)
    ≡ 2 ∷ 3 ∷ 1 ∷ []
unfolding requests
read_all_test = refl

pages_short_example :
    (pages_told (page_reply env by_moment none (some "submitted") crowded 200 1) ≡ 1)
    × (length (read_all env by_moment none (some "submitted") crowded 200) ≤ 100)
pages_short_example =
    pages_short env by_moment none (some "submitted") (some submitted) crowded 199 refl
      (omega arith) (omega arith)

-- ===== src/Bounty/Settlement.antt =====
-- The settlement of a bounty: `approveSubmission` of server/src/controllers/bounty.controller.ts with
-- `releaseEscrow` and `mintLrnReward` of server/src/services/bounty.service.ts.
use mathlib.Core.Option
use Prim.Native.String.{◌++◌}
use learnvault.Prelude.{
  ℕ, ◌≡◌, ◌⊎◌, inl, inr, refl, ap, ◌∙◌, String, Option, none, some, List, [], ◌∷◌, true, false, not,
  find?, any, Bool-cases, arith, ltb, find?-holds,
}
use learnvault.Prelude.Rows.{change, found_map}
use learnvault.Bounty.Types.{
  submitted, approved, Bounty, BountySubmission, Db, status_eq, is_valid_transition,
}
use learnvault.Bounty.Store.{
  has_id, get_bounty_by_id, approve_submission, is_submitted_row, pay_row,
}
use learnvault.Http.{or_fail, call, ◌>>=◌}
use learnvault.Http.Ends.{Ends, ends_rules}
use learnvault.Bounty.Request.{Payment, Server, Env}
use learnvault.Bounty.Handlers.{
  settle, approve_submitted, approve_found, approve_submission_handler,
}

-- A submitted bounty is paid, with a release of its escrow and perhaps tokens.
pub record Settles (now : ℕ) (s s' : Server) : Type 0 where
  pub id : ℕ
  pub bounty : Bounty
  pub learner : String
  pub payout : Option String
  pub reward : Option String
  pub found : find? (has_id id) s.db.bounties ≡ some bounty
  pub at : bounty.status ≡ submitted
  pub stored : s'.db ≡ (approve_submission now id payout reward s.db).1
  pub released : s'.releases ≡ record { bounty_id = id; learner_addr = learner } ∷ s.releases
  pub minted :
      (s'.mints ≡ s.mints)
      ⊎ (s'.mints ≡ record { bounty_id = id; learner_addr = learner } ∷ s.mints)

any_found :
    (id : ℕ) (rows : List Bounty) (b : Bounty)
    → find? (has_id id) rows ≡ some b
    → b.status ≡ submitted
    → any (is_submitted_row id) rows ≡ true
any_found id [] b found at = absurd (cc)
any_found id (r ∷ rows) b found at = elim (Bool-cases (has_id id r)) [
  | inl e ↦ ground arith
  | inr e ↦ let rest = any_found id rows b (ground arith) at in ground arith
]

pub approve_pays :
    (now id : ℕ) (payout reward : Option String) (db : Db) (b : Bounty)
    → find? (has_id id) db.bounties ≡ some b
    → b.status ≡ submitted
    → (find? (has_id id) (approve_submission now id payout reward db).1.bounties
        ≡ some (pay_row now payout reward b))
      × ((approve_submission now id payout reward db).0 ≡ some (pay_row now payout reward b))
unfolding approve_submission
approve_pays now id payout reward db b found at =
    let hit : is_submitted_row id b ≡ true =
      ground (arith, find?-holds (has_id id) db.bounties b found) in
    let stored =
      found_map (λ (r : Bounty). r.id) id (change (is_submitted_row id) (pay_row now payout reward))
        (λ r. ground arith) db.bounties
      ∙ ap (Option.map (change (is_submitted_row id) (pay_row now payout reward))) found
      ∙ (rw hit) in
    (stored, rw (any_found id db.bounties b found at) stored)

module _ (env : Env) (now : ℕ) (s : Server) where
  abbrev Q : {A : Type 0} → A → Server → Type 0
  Q a s' = Settles now s s'

  settle-Ends :
      (id : ℕ) (learner : String) (b : Bounty)
      → find? (has_id id) s.db.bounties ≡ some b
      → not (is_valid_transition b.status approved) ≡ false
      → Ends s Q (settle env now id learner)
  unfolding settle call or_fail ◌>>=◌ get_bounty_by_id is_valid_transition
  settle-Ends id learner b found valid =
      let at : b.status ≡ submitted = ground arith in
      let hit : status_eq b.status submitted ≡ true = ground arith in
      let payout = some ("bounty-release-" ++ env.print id ++ "-" ++ env.print now) in
      let reward = some ("bounty-lrn-" ++ env.print id ++ "-" ++ env.print now) in
      let pays = λ (r : Option String). (approve_pays now id payout r s.db b found at).1 in
      let pay : Payment = record { bounty_id = id; learner_addr = learner } in
      let settles : (r : Option String) (m : List Payment)
          → (m ≡ s.mints) ⊎ (m ≡ pay ∷ s.mints)
          → Settles now s (record {
            db = (approve_submission now id payout r s.db).1;
            releases = pay ∷ s.releases;
            mints = m;
          }) =
        λ r m minted. record {
          id = id;
          bounty = b;
          learner = learner;
          payout = payout;
          reward = r;
          found = found;
          at = at;
          stored = refl;
          released = refl;
          minted = minted;
        } in
      elim (Bool-cases (ltb 0 (env.lrn_amount b.reward_usdc))) [
        | inl e ↦ record {
          at = rw (found, hit, found, e, pays reward) (settles reward _ (inr refl));
        }
        | inr e ↦ record { at = rw (found, hit, found, e, pays none) (settles none _ (inl refl)) }
      ]

  submitted-Ends :
      (id : ℕ) (b : Bounty) (o : Option BountySubmission)
      → find? (has_id id) s.db.bounties ≡ some b
      → not (is_valid_transition b.status approved) ≡ false
      → Ends s Q (approve_submitted env now id o)
  submitted-Ends id b none found valid = search ends_rules
  submitted-Ends id b (some submission) found valid =
      settle-Ends id submission.learner_addr b found valid

  found-Ends :
      (wallet : String) (id : ℕ) (o : Option Bounty)
      → find? (has_id id) s.db.bounties ≡ o
      → Ends s Q (approve_found env now wallet id o)
  found-Ends wallet id none found = search ends_rules
  found-Ends wallet id (some b) found = search (ends_rules, submitted-Ends) depth 12

  pub approve-Settles :
      (who : Option String) (id : Option ℕ) → Ends s Q (approve_submission_handler env now who id)
  unfolding approve_submission_handler get_bounty_by_id
  approve-Settles who id = search (ends_rules, found-Ends) depth 12

-- ===== src/Admin/History.antt =====
-- A history of the milestone reports as scholars and admins make it: requests to the handlers of
-- server/src/controllers/admin-milestones.controller.ts, milestone-appeal.controller.ts,
-- milestone-submit.controller.ts and milestone-resubmit.controller.ts, each with what the outside answers.
use learnvault.Prelude.{arith, ℕ, refl, String, Option, some, List, [], ◌∷◌, Bool}
use learnvault.Milestone.Calls.{empty}
use learnvault.Escrow.Store.{Db as TimeoutDb}
use learnvault.Streak.Store.{Db as StreakDb}
use learnvault.Referral.Store.{Db as ReferralDb}
use learnvault.Http.{answer, ◌>>=◌}
use learnvault.Http.Keeps.{Keeps, Keeps-Ends, Keeps-bind, Keeps-answer}
use learnvault.Admin.Desk.{Desk, World, TrancheEscrow}
use learnvault.Admin.Decisions.{
  Action, approve_milestone, reject_milestone, verify_milestone_oracle, batch_approve_milestones,
  batch_reject_milestones,
}
use learnvault.Admin.Appeals.{appeal_milestone, resolve_appeal}
use learnvault.Admin.Reports.{Submission, submit_milestone_report, resubmit_milestone_report}
use learnvault.Admin.Accounts.{IsAccounted}
use learnvault.Admin.Quiet.{IsSound}
use learnvault.Admin.Batch.{reject-Ends, batch_approve-Ends, batch_reject-Ends, resolve_appeal-Ends}
use learnvault.Admin.Kept.{
  oracle_request-Keeps, appeal-Keeps, submit-Keeps, resubmit-Keeps, approve-Keeps,
}

pub data Request : Type 0 where
  submit : Submission → Request
  resubmit : ℕ → Option String → Option String → Option String → Request
  verify_oracle : Option ℕ → Request
  approve : Option ℕ → Bool → Request
  reject : Option ℕ → Option String → Request
  batch_approve : List ℕ → Request
  batch_reject : List ℕ → Option String → Request
  appeal : Option ℕ → Option String → Request
  resolve : Option ℕ → Option Bool → Option String → Request

-- A request, who is signed in for it, its moment and what the outside answers to it.
pub record Arrival : Type 0 where
  pub world : World
  pub now : ℕ
  pub user : String
  pub request : Request

module _ (w : World) (now : ℕ) (user : String) where
  -- The reply without its body.
  unfoldable pub serve : Request → Action (Unit {0})
  serve (submit body) = do _ ← submit_milestone_report w now body; answer tt
  serve (resubmit id github ipfs description) = do
    _ ← resubmit_milestone_report now id github ipfs description
    answer tt
  serve (verify_oracle param) = do _ ← verify_milestone_oracle w now param; answer tt
  serve (approve param override) = approve_milestone w now user param override
  serve (reject param reason) = reject_milestone w now user param reason
  serve (batch_approve ids) = do _ ← batch_approve_milestones w now user ids; answer tt
  serve (batch_reject ids reason) = do _ ← batch_reject_milestones w now user ids reason; answer tt
  serve (appeal param reason) = appeal_milestone w now (some user) param reason
  serve (resolve param approved reason) = resolve_appeal w now user param approved reason

unfoldable pub serve_all : List Arrival → Desk → Desk
serve_all [] d = d
serve_all (a ∷ rest) d = serve_all rest (serve a.world a.now a.user a.request d).1

-- No report, and nothing paid or called; the tables beside are as they may be.
abbrev pub opened : TimeoutDb → StreakDb → ReferralDb → List TrancheEscrow → Desk
opened timeouts streaks referrals escrows = record {
  store = empty;
  timeouts = timeouts;
  streaks = streaks;
  referrals = referrals;
  escrows = escrows;
  nfts = [];
  verified = [];
  rejections = [];
  released = [];
}

module _ (w : World) (now : ℕ) (user : String) where
  without_body : {A : Type 0} (m : Action A) → Keeps IsSound m → Keeps IsSound (do _ ← m; answer tt)
  without_body m kept = Keeps-bind IsSound m (λ _. answer tt) kept (λ _. Keeps-answer IsSound tt)

  serve-Keeps : (r : Request) → Keeps IsSound (serve w now user r)
  unfolding serve
  serve-Keeps (submit body) = without_body _ (submit-Keeps w now body)
  serve-Keeps (resubmit id github ipfs description) =
      without_body _ (resubmit-Keeps w now id github ipfs description)
  serve-Keeps (verify_oracle param) = without_body _ (oracle_request-Keeps w now param)
  serve-Keeps (approve param override) = approve-Keeps w now user param override
  serve-Keeps (reject param reason) =
      Keeps-Ends IsSound _ (λ d. reject-Ends w now user d param reason)
  serve-Keeps (batch_approve ids) =
      without_body _ (Keeps-Ends IsSound _ (λ d. batch_approve-Ends w now user d ids))
  serve-Keeps (batch_reject ids reason) =
      without_body _ (Keeps-Ends IsSound _ (λ d. batch_reject-Ends w now user d ids reason))
  serve-Keeps (appeal param reason) = appeal-Keeps w now (some user) param reason
  serve-Keeps (resolve param approved reason) =
      Keeps-Ends IsSound _ (λ d. resolve_appeal-Ends w now user d param approved reason)

pub serve_all-IsSound :
    (arrivals : List Arrival) (d : Desk) → IsSound d → IsSound (serve_all arrivals d)
unfolding serve_all
serve_all-IsSound [] d s = s
serve_all-IsSound (a ∷ rest) d s =
    serve_all-IsSound rest _ ((serve-Keeps a.world a.now a.user a.request).after d s)

-- From empty tables of reports, after any sequence of requests to the handlers of reports,
-- decisions and appeals, whatever the contract, the oracle and the other services answer: the
-- audit log holds one approval of a report that is approved and none of any other, and of the
-- calls of callVerifyMilestone for a report at most one returned, and none unless the report is
-- approved. Calls that throw are not counted.
pub approved_once :
    (arrivals : List Arrival) (timeouts : TimeoutDb) (streaks : StreakDb) (referrals : ReferralDb)
    (escrows : List TrancheEscrow) (id : ℕ)
    → IsAccounted id (serve_all arrivals (opened timeouts streaks referrals escrows))
approved_once arrivals timeouts streaks referrals escrows id =
    let empty_IsSound : IsSound (opened timeouts streaks referrals escrows) = record {
      formed = record { distinct = tt; below = tt; one_each = tt };
      accounts = λ id. record { audited = refl; called = omega arith };
    } in
    let end =
      serve_all-IsSound arrivals (opened timeouts streaks referrals escrows) empty_IsSound in
    end.accounts id

-- ===== src/Bounty/Requests.antt =====
-- A history of the bounty board as its clients see it: requests to the handlers of
-- server/src/controllers/bounty.controller.ts and passes of the expiry worker, each at its moment.
use learnvault.Prelude.{ℕ, ◌≡◌, ◌⊎◌, inl, inr, String, Option, List, [], ◌∷◌}
use learnvault.Bounty.Ops.{empty}
use learnvault.Http.{failed, answer, ◌>>=◌}
use learnvault.Bounty.Request.{Server, Env, Action}
use learnvault.Bounty.Effects.{
  Stores, create-Stores, claim-Stores, submit-Stores, cancel-Stores, expire-Stores,
}
use learnvault.Bounty.Settlement.{Settles, approve-Settles}
use learnvault.Http.Ends.{Ends, Ends-weaken, Ends-bind-answer}
use learnvault.Bounty.Handlers.{
  CreateBody, create_bounty_handler, claim_bounty_handler, submit_work_handler,
  approve_submission_handler, cancel_bounty_handler, process_expired_claims,
}

pub data Request : Type 0 where
  create : Option String → CreateBody → Request
  claim : Option String → Option ℕ → Request
  submit : Option String → Option ℕ → Option String → Option String → Request
  approve : Option String → Option ℕ → Request
  cancel : Option String → Option ℕ → Request
  expire : Request

abbrev pub opened : Server
opened = record { db = empty; releases = []; mints = [] }

module _ (env : Env) where
  -- The reply without its body.
  unfoldable pub serve : ℕ → Request → Action (Unit {0})
  serve now (create who body) = do _ ← create_bounty_handler env now who body; answer tt
  serve now (claim who id) = do _ ← claim_bounty_handler env now who id; answer tt
  serve now (submit who id repo_url notes) = do
    _ ← submit_work_handler env now who id repo_url notes
    answer tt
  serve now (approve who id) = do _ ← approve_submission_handler env now who id; answer tt
  serve now (cancel who id) = do _ ← cancel_bounty_handler env who id; answer tt
  serve now expire = do _ ← process_expired_claims now; answer tt

  unfoldable pub serve_all : List (ℕ × Request) → Server → Server
  serve_all [] s = s
  serve_all ((now, r) ∷ rest) s = serve_all rest (serve now r s).1

-- What a request does: a call of the store that pays nobody, or a settlement.
abbrev pub Changes : Env → ℕ → Server → Server → Type 0
Changes env now s s' = Stores env now s s' ⊎ Settles now s s'

module _ (env : Env) (now : ℕ) (s : Server) where
  stores :
      {A : Type 0} (m : Action A)
      → Ends s (λ a s'. Stores env now s s') m
      → Ends s (λ a s'. Changes env now s s') m
  stores m h =
      Ends-weaken s (λ a s'. Stores env now s s') (λ a s'. Changes env now s s') m (λ a s'. inl) h

  settles :
      {A : Type 0} (m : Action A)
      → Ends s (λ a s'. Settles now s s') m
      → Ends s (λ a s'. Changes env now s s') m
  settles m h =
      Ends-weaken s (λ a s'. Settles now s s') (λ a s'. Changes env now s s') m (λ a s'. inr) h

  pub serve-Ends : (r : Request) → Ends s (λ b s'. Changes env now s s') (serve env now r)
  unfolding serve
  serve-Ends (create who body) =
      Ends-bind-answer s (Changes env now s) (create_bounty_handler env now who body) tt
        (stores (create_bounty_handler env now who body) (create-Stores env now s who body))
  serve-Ends (claim who id) =
      Ends-bind-answer s (Changes env now s) (claim_bounty_handler env now who id) tt
        (stores (claim_bounty_handler env now who id) (claim-Stores env now s who id))
  serve-Ends (submit who id repo_url notes) =
      Ends-bind-answer s (Changes env now s) (submit_work_handler env now who id repo_url notes) tt
        (stores (submit_work_handler env now who id repo_url notes)
          (submit-Stores env now s who id repo_url notes))
  serve-Ends (approve who id) =
      Ends-bind-answer s (Changes env now s) (approve_submission_handler env now who id) tt
        (settles (approve_submission_handler env now who id) (approve-Settles env now s who id))
  serve-Ends (cancel who id) =
      Ends-bind-answer s (Changes env now s) (cancel_bounty_handler env who id) tt
        (stores (cancel_bounty_handler env who id) (cancel-Stores env now s who id))
  serve-Ends expire =
      Ends-bind-answer s (Changes env now s) (process_expired_claims now) tt
        (stores (process_expired_claims now) (expire-Stores env now s))

-- A request to the board that is answered with an error has changed neither the tables nor the
-- payments.
pub serve_failed :
    (env : Env) (now : ℕ) (r : Request) (s : Server) (status : ℕ) (text : String)
    → (serve env now r s).0 ≡ failed status text
    → (serve env now r s).1 ≡ s
serve_failed env now r s status text h = rw h at (serve-Ends env now s r).at

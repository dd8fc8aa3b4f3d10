-- ===== src/Bounty/Effects.antt =====
-- What the handlers of server/src/controllers/bounty.controller.ts do to the board: nothing, one call of
-- the store, or a settlement.
use learnvault.Prelude.{
  ℕ, ◌≡◌, inl, inr, refl, ap, ◌∙◌, String, Option, none, some, find?, any, Bool-cases, arith,
}
use learnvault.Prelude.Rows.{change, found_map, returning-none}
use mathlib.Core.Option
use learnvault.Bounty.Types.{Bounty, Db}
use learnvault.Bounty.Store.{
  NewBounty, SubmitResult, refused, accepted, unique_violation, has_id, can_submit, claim_bounty,
  is_duplicate, submit_work, cancel_bounty, is_cancellable_row, create_bounty,
  reopen_expired_claims, submit_row, cancel_row,
}
use learnvault.Bounty.Ops.{Op, create, claim, submit, approve, cancel, reopen, step}
use learnvault.Bounty.Claims.{claim_bounty_cases}
use learnvault.Http.{answer, fail, or_fail, call, ◌>>=◌}
use learnvault.Http.Ends.{Ends, EndsIn, ends_rules, Ends-call, Ends-call-or_fail}
use learnvault.Bounty.Request.{Server, Env, query}
use learnvault.Bounty.Invariant.{claimed_row}
use learnvault.Bounty.Handlers.{
  CreateBody, create_bounty_handler, claim_bounty_handler, submit_work_handler, submitted_answer,
  cancel_bounty_handler, process_expired_claims,
}

abbrev pub IsQuiet : Op → Type 0
IsQuiet (approve id payout_tx reward_tx) = ⊥
IsQuiet _ = Unit

-- A call of the store that pays nobody.
abbrev pub Stores : Env → ℕ → Server → Server → Type 0
Stores env now s s' = (op : Op) × IsQuiet op × (s' ≡ record s { db = step env.lower now op s.db })

module _ (now id : ℕ) (db : Db) where
  claim_refuses :
      (by : String) (deadline : ℕ)
      → (claim_bounty now id by deadline db).0 ≡ none
      → (claim_bounty now id by deadline db).1 ≡ db
  claim_refuses by deadline h = elim (claim_bounty_cases now id by deadline db) [
    | inl same ↦ ap (λ (r : Option Bounty × Db). r.1) same
    | inr (b, found, at, fresh, reply, stored) ↦ absurd (cc (reply, h))
  ]

  cancel_refuses :
      (lower : String → String) (sponsor : String)
      → (cancel_bounty lower id sponsor db).0 ≡ none
      → (cancel_bounty lower id sponsor db).1 ≡ db
  unfolding cancel_bounty
  cancel_refuses lower sponsor h =
      let same =
        returning-none (λ (r : Bounty). r.id) id (is_cancellable_row lower id sponsor) cancel_row
          db.bounties (λ r. λ e. ground arith) (λ r. refl) h in
      rw same refl

-- A submission that is accepted returns its bounty; one that is not changes nothing.
abbrev Submitted : SubmitResult → Db → Db → Type 0
Submitted (accepted none row) db db' = ⊥
Submitted (accepted (some b) row) db db' = Unit
Submitted _ db db' = db' ≡ db

submit_cases :
    (lower : String → String) (now id : ℕ) (learner : String) (repo_url notes : Option String)
    (db : Db)
    → Submitted
        (submit_work lower now id learner repo_url notes db).0
        db
        (submit_work lower now id learner repo_url notes db).1
unfolding submit_work
submit_cases lower now id learner repo_url notes db =
    elim (Bool-cases (can_submit lower now learner (find? (has_id id) db.bounties))) [
      | inr e ↦ rw e refl
      | inl e ↦ elim (Bool-cases (any (is_duplicate id learner) db.submissions)) [
        | inl d ↦ rw (e, d) refl
        | inr d ↦
            let (b, locked, at) = claimed_row lower now learner (find? (has_id id) db.bounties) e in
            let stored =
              found_map (λ (r : Bounty). r.id) id (change (has_id id) submit_row)
                (λ r. ground arith) db.bounties
              ∙ ap (Option.map (change (has_id id) submit_row)) locked in
            rw (e, d, stored) tt
      ]
    ]

module _ (env : Env) (now : ℕ) (s : Server) where
  abbrev Q : {A : Type 0} → A → Server → Type 0
  Q a s' = Stores env now s s'

  create-Ends : (row : NewBounty) → Ends s Q (call (query (create_bounty now row)))
  unfolding step
  create-Ends row = Ends-call s Q (query (create_bounty now row)) (create row, tt, refl)

  pub create-Stores :
      (who : Option String) (body : CreateBody) → Ends s Q (create_bounty_handler env now who body)
  unfolding create_bounty_handler
  create-Stores who body = search (ends_rules, create-Ends) depth 12

  claim-Ends :
      (id : ℕ) (by : String) (deadline : ℕ)
      → Ends s Q (do
        won ← call (query (claim_bounty now id by deadline))
        or_fail won 409 "Failed to claim bounty — it may have been claimed by another learner")
  unfolding step
  claim-Ends id by deadline =
      Ends-call-or_fail s Q (query (claim_bounty now id by deadline)) 409
        "Failed to claim bounty — it may have been claimed by another learner"
        (λ h. ap (λ d. record s { db = d }) (claim_refuses now id s.db by deadline h))
        (λ b h. (claim id by deadline, tt, refl))

  pub claim-Stores :
      (who : Option String) (id : Option ℕ) → Ends s Q (claim_bounty_handler env now who id)
  unfolding claim_bounty_handler
  claim-Stores who id = search (ends_rules, claim-Ends) depth 12

  cancel-Ends :
      (id : ℕ) (sponsor : String)
      → Ends s Q (do
        row ← call (query (cancel_bounty env.lower id sponsor))
        or_fail row 409 "Failed to cancel bounty")
  unfolding step
  cancel-Ends id sponsor =
      Ends-call-or_fail s Q (query (cancel_bounty env.lower id sponsor)) 409
        "Failed to cancel bounty"
        (λ h. ap (λ d. record s { db = d }) (cancel_refuses now id s.db env.lower sponsor h))
        (λ b h. (cancel id sponsor, tt, refl))

  pub cancel-Stores :
      (who : Option String) (id : Option ℕ) → Ends s Q (cancel_bounty_handler env who id)
  unfolding cancel_bounty_handler
  cancel-Stores who id = search (ends_rules, cancel-Ends) depth 12

  submit_end :
      (r : SubmitResult) (db : Db)
      → Submitted r s.db db
      → Stores env now s (record s { db = db })
      → EndsIn s Q
          (submitted_answer r (record s { db = db })).0
          (submitted_answer r (record s { db = db })).1
  unfolding fail answer
  submit_end refused db same h = ap (λ d. record s { db = d }) same
  submit_end (accepted none row) db same h = absurd same
  submit_end (accepted (some b) row) db same h = h
  submit_end unique_violation db same h = ap (λ d. record s { db = d }) same

  submit-Ends :
      (id : ℕ) (learner : String) (repo_url notes : Option String)
      → Ends s Q (do
        result ← call (query (submit_work env.lower now id learner repo_url notes))
        submitted_answer result)
  unfolding step call ◌>>=◌
  submit-Ends id learner repo_url notes = record {
    at =
        submit_end (submit_work env.lower now id learner repo_url notes s.db).0
          (submit_work env.lower now id learner repo_url notes s.db).1
          (submit_cases env.lower now id learner repo_url notes s.db)
          (submit id learner repo_url notes, tt, refl);
  }

  pub submit-Stores :
      (who : Option String) (id : Option ℕ) (repo_url notes : Option String)
      → Ends s Q (submit_work_handler env now who id repo_url notes)
  unfolding submit_work_handler
  submit-Stores who id repo_url notes = search (ends_rules, submit-Ends) depth 12

  pub expire-Stores : Ends s Q (process_expired_claims now)
  unfolding process_expired_claims step
  expire-Stores = Ends-call s Q (query (reopen_expired_claims now)) (reopen, tt, refl)

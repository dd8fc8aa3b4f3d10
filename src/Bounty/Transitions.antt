-- ===== src/Bounty/Transitions.antt =====
-- How the status of a bounty moves (server/src/db/bounty-store.ts), against the transition table of
-- server/src/services/bounty.service.ts.
use mathlib.Core.Option
use mathlib.Core.Path.{subst}
use learnvault.Prelude.{
  ℕ, ◌≡◌, ◌≢◌, ◌⊎◌, inl, inr, refl, sym, Option, ap, String, some, List, [], ◌∷◌, Bool, true, false,
  Bool-cases, find?, any, find?-All, arith, ◌∙◌, ==_iff, find?-holds,
}
use learnvault.Prelude.Rows.{update, change, found_map, found_append}
use learnvault.Bounty.Types.{
  BountyStatus, submitted, paid, cancelled, Bounty, BountySubmission, Db, is_valid_transition,
}
use learnvault.Bounty.Store.{
  has_id, can_claim, can_submit, has_submission, is_duplicate, unique_violation, claim_row,
  submit_row, is_open_row, is_submitted_row, pay_row, is_cancellable_row, cancel_row,
  is_expired_claim, reopen_row, create_bounty, claim_bounty, submit_work, cancel_bounty,
  approve_submission, reopen_expired_claims,
}
use learnvault.Bounty.Ops.{Op, create, claim, submit, approve, cancel, reopen, step, run}
use learnvault.Bounty.Invariant.{IsWellFormed, RowShape, claimed_row}

-- An edge of the table, or the one move that the table does not have.
abbrev pub Moves : Bounty → Bounty → Type 0
Moves b b' =
    (b'.status ≡ b.status)
    ⊎ (is_valid_transition b.status b'.status ≡ true)
    ⊎ ((b.status ≡ submitted) × (b'.status ≡ paid))

abbrev pub Moved : ℕ → Bounty → List Bounty → Type 0
Moved id b rows = (b' : Bounty) × (find? (has_id id) rows ≡ some b') × Moves b b'

-- A row with an id is the row that is found by it.
pub same_row :
    (id' id : ℕ) (rows : List Bounty) (b c : Bounty)
    → find? (has_id id) rows ≡ some b
    → find? (has_id id') rows ≡ some c
    → has_id id' b ≡ true
    → b ≡ c
same_row id' id rows b c found locked hit =
    let here : b.id ≡ id = (==_iff b.id id).0 (find?-holds (has_id id) rows b found) in
    let there : id' ≡ id = sym ((==_iff b.id id').0 hit) ∙ here in
    let one : some c ≡ some b = sym locked ∙ (rw there found) in ground arith

module _ (id : ℕ) (b : Bounty) (db : Db) (found : find? (has_id id) db.bounties ≡ some b) where
  stays : Moved id b db.bounties
  stays = (b, found, inl refl)

  -- An UPDATE of bounties, of rows that may so move.
  changed :
      (p : Bounty → Bool) (f : Bounty → Bounty)
      → ((r : Bounty) → (f r).id ≡ r.id)
      → (p b ≡ true → Moves b (f b))
      → Moved id b (update p f db.bounties)
  changed p f same moves = (
    change p f b,
    found_map (λ (r : Bounty). r.id) id (change p f) (λ r. ground (arith, same r)) db.bounties
        ∙ ap (Option.map (change p f)) found,
    elim (Bool-cases (p b)) [ inl e ↦ rw e (moves e) | inr e ↦ rw e (inl refl) ],
  )

  module _ (now : ℕ) where
    claim-Moved :
        (id' : ℕ) (by : String) (deadline : ℕ)
        → Moved id b (claim_bounty now id' by deadline db).1.bounties
    unfolding claim_bounty is_valid_transition
    claim-Moved id' by deadline =
        elim (Bool-cases (can_claim now (find? (has_id id') db.bounties))) [
          | inl e ↦
              rw e
                (changed (is_open_row id') (claim_row by deadline) (λ r. refl) (λ h. ground arith))
          | inr e ↦ rw e stays
        ]

    submit-Moved :
        (lower : String → String) (id' : ℕ) (learner : String) (repo_url notes : Option String)
        → Moved id b (submit_work lower now id' learner repo_url notes db).1.bounties
    unfolding submit_work is_valid_transition
    submit-Moved lower id' learner repo_url notes =
        elim (Bool-cases (can_submit lower now learner (find? (has_id id') db.bounties))) [
          | inr e ↦ rw e stays
          | inl e ↦ elim (Bool-cases (any (is_duplicate id' learner) db.submissions)) [
            | inl d ↦ rw (e, d) stays
            | inr d ↦
                let (c, locked, at) =
                  claimed_row lower now learner (find? (has_id id') db.bounties) e in
                rw (e, d)
                  (changed (has_id id') submit_row (λ r. refl)
                    (λ h. let one = same_row id' id db.bounties b c found locked h in ground arith))
          ]
        ]

    step-Moved : (lower : String → String) (op : Op) → Moved id b (step lower now op db).bounties
    unfolding step create_bounty approve_submission cancel_bounty reopen_expired_claims
        is_valid_transition
    step-Moved lower (create row) =
        (b, found_append (λ (r : Bounty). r.id) id db.bounties _ b found, inl refl)
    step-Moved lower (claim id' by deadline) = claim-Moved id' by deadline
    step-Moved lower (submit id' learner repo_url notes) =
        submit-Moved lower id' learner repo_url notes
    step-Moved lower (approve id' payout_tx reward_tx) =
        changed (is_submitted_row id') (pay_row now payout_tx reward_tx) (λ r. refl)
          (λ h. ground arith)
    step-Moved lower (cancel id' sponsor) =
        changed (is_cancellable_row lower id' sponsor) cancel_row (λ r. refl) (λ h. ground arith)
    step-Moved lower reopen =
        changed (is_expired_claim now db.submissions) reopen_row (λ r. refl) (λ h. ground arith)

-- Every store call keeps a bounty in the table, with its status unchanged, moved along an edge of
-- VALID_TRANSITIONS, or moved from submitted to paid.
pub step_moves :
    (lower : String → String) (now : ℕ) (op : Op) (db : Db) (id : ℕ) (b : Bounty)
    → find? (has_id id) db.bounties ≡ some b
    → Moved id b (step lower now op db).bounties
step_moves lower now op db id b found = step-Moved id b db found now lower op

-- The move of `approveSubmission` is no edge of the table: submitted to paid skips "approved".
approve_skips_approved :
    (now id : ℕ) (payout_tx reward_tx : Option String) (db : Db) (b : Bounty)
    → find? (has_id id) db.bounties ≡ some b
    → b.status ≡ submitted
    → (b' : Bounty) × (find?
          (has_id id)
          (approve_submission now id payout_tx reward_tx db).1.bounties
        ≡ some b')
      × (b'.status ≡ paid)
      × (is_valid_transition b.status b'.status ≡ false)
unfolding approve_submission is_valid_transition
approve_skips_approved now id payout_tx reward_tx db b found at =
    let hit : is_submitted_row id b ≡ true =
      ground (arith, find?-holds (has_id id) db.bounties b found) in
    (
      pay_row now payout_tx reward_tx b,
      found_map (λ (r : Bounty). r.id) id
            (change (is_submitted_row id) (pay_row now payout_tx reward_tx)) (λ r. ground arith)
            db.bounties
          ∙ ap (Option.map (change (is_submitted_row id) (pay_row now payout_tx reward_tx))) found
          ∙ (rw hit),
      refl,
      ground arith,
    )

abbrev pub IsFinal : BountyStatus → Type 0
IsFinal paid = Unit
IsFinal cancelled = Unit
IsFinal _ = ⊥

final_stays : (b b' : Bounty) → IsFinal b.status → Moves b b' → b'.status ≡ b.status
unfolding is_valid_transition
final_stays b b' h m = ground arith

-- A paid or cancelled bounty keeps its status, whatever store calls follow.
run-final :
    (lower : String → String) (ops : List (ℕ × Op)) (db : Db) (id : ℕ) (b : Bounty)
    → find? (has_id id) db.bounties ≡ some b
    → IsFinal b.status
    → (b' : Bounty) × (find? (has_id id) (run lower ops db).bounties ≡ some b')
      × (b'.status ≡ b.status)
unfolding run
run-final lower [] db id b found h = (b, found, refl)
run-final lower ((now, op) ∷ ops) db id b found h =
    let (c, there, moved) = step_moves lower now op db id b found in
    let same = final_stays b c h moved in
    let (b', last, kept) =
      run-final lower ops (step lower now op db) id c there (subst IsFinal (sym same) h) in
    (b', last, kept ∙ same)

not_duplicate :
    (id : ℕ) (learner : String) (subs : List BountySubmission)
    → has_submission subs id ≡ false
    → any (is_duplicate id learner) subs ≡ false
not_duplicate id learner [] h = refl
not_duplicate id learner (s ∷ subs) h =
    let rest = not_duplicate id learner subs (ground arith) in ground arith

-- In a well-formed database `submitWork` never meets the UNIQUE constraint of bounty_submissions.
submit_work-ne-unique_violation :
    (lower : String → String) (now id : ℕ) (learner : String) (repo_url notes : Option String)
    (db : Db)
    → IsWellFormed db
    → (submit_work lower now id learner repo_url notes db).0 ≢ unique_violation
unfolding submit_work
submit_work-ne-unique_violation lower now id learner repo_url notes db w e =
    elim (Bool-cases (can_submit lower now learner (find? (has_id id) db.bounties))) [
      | inr h ↦ cc (h, e)
      | inl h ↦
          let (b, found, at) = claimed_row lower now learner (find? (has_id id) db.bounties) h in
          let shape =
            find?-All (RowShape db.submissions) (has_id id) db.bounties b w.shapes found in
          let here : b.id ≡ id = (==_iff b.id id).0 (find?-holds (has_id id) db.bounties b found) in
          let none_yet : has_submission db.submissions id ≡ false = ground arith in
          let fresh = not_duplicate id learner db.submissions none_yet in ground arith
    ]

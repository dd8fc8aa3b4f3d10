-- ===== src/Bounty/Invariant.antt =====
-- What every history of the bounty board keeps (server/src/db/bounty-store.ts).
use learnvault.Prelude.{
  ℕ, suc, ◌<◌, ◌≡◌, ◌≢◌, refl, String, Option, none, some, List, [], ◌∷◌, ◌++◌, Bool, true, false,
  ◌||◌, ◌==◌, map, inl, inr, Bool-cases, any, ap, ◌∙◌, ==_iff, find?-All, find?-holds, or_false,
  All, All-append, All-zip, All-map, All-weaken, find?, arith,
}
use mathlib.Core.Path.{subst}
use learnvault.Prelude.Rows.{
  update, change, All-update, DistinctBy, DistinctBy-append, DistinctBy-map, found_only,
}
use learnvault.Bounty.Types.{
  BountyStatus, claimed, submitted, approved, paid, cancelled, Bounty, BountySubmission, Db,
}
use learnvault.Bounty.Store.{
  NewBounty, has_id, can_claim, can_submit, has_submission, is_open_row, claim_row, submit_row,
  submit_update, new_submission, is_duplicate, is_submitted_row, pay_row, is_cancellable_row,
  cancel_row, is_expired_claim, reopen_row, create_bounty, claim_bounty, submit_work, cancel_bounty,
  approve_submission, reopen_expired_claims,
}
use learnvault.Bounty.Ops.{Op, create, claim, submit, approve, cancel, reopen, empty, step, run}

-- What a row of each status looks like: who holds it, whether work was submitted, when it was paid.
abbrev pub Shape : BountyStatus → Option String → Bool → Option ℕ → Type 0
Shape BountyStatus.«open» by sub at = (by ≡ none) × (sub ≡ false) × (at ≡ none)
Shape claimed by sub at = (by ≢ none) × (sub ≡ false) × (at ≡ none)
Shape submitted by sub at = (by ≢ none) × (sub ≡ true) × (at ≡ none)
Shape approved by sub at = ⊥
Shape paid by sub at = (by ≢ none) × (sub ≡ true) × (at ≢ none)
Shape cancelled by sub at = (sub ≡ false) × (at ≡ none)

abbrev pub RowShape : List BountySubmission → Bounty → Type 0
RowShape subs b = Shape b.status b.claimed_by (has_submission subs b.id) b.paid_at

pub record IsWellFormed (db : Db) : Type 0 where
  pub distinct : DistinctBy (λ (b : Bounty). b.id) db.bounties
  pub below : All (λ b. b.id < db.next_bounty) db.bounties
  pub orphans : All (λ s. s.bounty_id < db.next_bounty) db.submissions
  pub shapes : All (RowShape db.submissions) db.bounties

no_submission :
    (n : ℕ) (subs : List BountySubmission)
    → All (λ s. s.bounty_id < n) subs
    → has_submission subs n ≡ false
no_submission n [] h = refl
no_submission n (s ∷ subs) h = ground (arith, h.0, no_submission n subs h.1)

has_submission-append :
    (subs : List BountySubmission) (row : BountySubmission) (id : ℕ)
    → has_submission (subs ++ row ∷ []) id ≡ (has_submission subs id || row.bounty_id == id)
has_submission-append [] row id = ground arith
has_submission-append (s ∷ subs) row id = ground (arith, has_submission-append subs row id)

-- Where the step leaves ids alone, and every row keeps a shape.
module _ (db db' : Db) where
  reshaped :
      (f : Bounty → Bounty)
      → ((b : Bounty) → (f b).id ≡ b.id)
      → db'.bounties ≡ map f db.bounties
      → db'.next_bounty ≡ db.next_bounty
      → All (λ s. s.bounty_id < db.next_bounty) db'.submissions
      → All (RowShape db'.submissions) db'.bounties
      → IsWellFormed db
      → IsWellFormed db'
  reshaped f same rows count orphans shapes w = record {
    distinct = rw rows (DistinctBy-map (λ (b : Bounty). b.id) f same db.bounties w.distinct);
    below =
        rw (rows, count)
          (All-map (λ b. b.id < db.next_bounty) (λ b. b.id < db.next_bounty) f db.bounties
            (λ b h. rw (same b) h) w.below);
    orphans = rw count orphans;
    shapes = shapes;
  }

-- An UPDATE of bounties alone.
module _ (db : Db) (p : Bounty → Bool) (f : Bounty → Bounty) where
  updated :
      ((b : Bounty) → (f b).id ≡ b.id)
      → ((b : Bounty) → p b ≡ true → RowShape db.submissions b → RowShape db.submissions (f b))
      → IsWellFormed db
      → IsWellFormed (record db { bounties = update p f db.bounties })
  updated same keep w =
      reshaped db (record db { bounties = update p f db.bounties }) (change p f)
        (λ b. ground (arith, same b)) refl refl w.orphans
        (All-update (RowShape db.submissions) (RowShape db.submissions) p f db.bounties keep
          (λ b _ h. h) w.shapes)
        w

create-IsWellFormed :
    (now : ℕ) (row : NewBounty) (db : Db)
    → IsWellFormed db
    → IsWellFormed (create_bounty now row db).1
unfolding create_bounty
create-IsWellFormed now row db w = record {
  distinct =
      DistinctBy-append (λ (b : Bounty). b.id) db.bounties (create_bounty now row db).0 w.distinct
        (All-weaken (λ b. b.id < db.next_bounty) (λ b. b.id ≢ db.next_bounty) db.bounties
          (λ b h. omega arith) w.below);
  below =
      All-append (λ b. b.id < suc db.next_bounty) db.bounties _
        (All-weaken (λ b. b.id < db.next_bounty) (λ b. b.id < suc db.next_bounty) db.bounties
          (λ b h. omega arith) w.below)
        (omega arith, tt);
  orphans =
      All-weaken (λ s. s.bounty_id < db.next_bounty) (λ s. s.bounty_id < suc db.next_bounty)
        db.submissions (λ s h. omega arith) w.orphans;
  shapes =
      All-append (RowShape db.submissions) db.bounties _ w.shapes
        ((refl, no_submission db.next_bounty db.submissions w.orphans, refl), tt);
}

claim-IsWellFormed :
    (now id : ℕ) (by : String) (deadline : ℕ) (db : Db)
    → IsWellFormed db
    → IsWellFormed (claim_bounty now id by deadline db).1
unfolding claim_bounty
claim-IsWellFormed now id by deadline db w =
    elim (Bool-cases (can_claim now (find? (has_id id) db.bounties))) [
      | inl e ↦ rw e (
          updated db (is_open_row id) (claim_row by deadline) (λ b. refl) (λ b e h. ground arith) w)
      | inr e ↦ rw e w
    ]

approve-IsWellFormed :
    (now id : ℕ) (payout_tx reward_tx : Option String) (db : Db)
    → IsWellFormed db
    → IsWellFormed (approve_submission now id payout_tx reward_tx db).1
unfolding approve_submission
approve-IsWellFormed now id payout_tx reward_tx db w =
    updated db (is_submitted_row id) (pay_row now payout_tx reward_tx) (λ b. refl)
      (λ b e h. ground arith) w

cancel-IsWellFormed :
    (lower : String → String) (id : ℕ) (sponsor : String) (db : Db)
    → IsWellFormed db
    → IsWellFormed (cancel_bounty lower id sponsor db).1
unfolding cancel_bounty
cancel-IsWellFormed lower id sponsor db w =
    updated db (is_cancellable_row lower id sponsor) cancel_row (λ b. refl) (λ b e h. ground arith)
      w

reopen-IsWellFormed :
    (now : ℕ) (db : Db) → IsWellFormed db → IsWellFormed (reopen_expired_claims now db).1
unfolding reopen_expired_claims
reopen-IsWellFormed now db w =
    updated db (is_expired_claim now db.submissions) reopen_row (λ b. refl) (λ b e h. ground arith)
      w

-- The row that `submitWork` has locked.
pub claimed_row :
    (lower : String → String) (now : ℕ) (learner : String) (o : Option Bounty)
    → can_submit lower now learner o ≡ true
    → (b : Bounty) × (o ≡ some b) × (b.status ≡ claimed)
claimed_row lower now learner none h = absurd (cc)
claimed_row lower now learner (some b) h = (b, refl, ground arith)

module _ (id : ℕ) (row : BountySubmission) (db : Db) (b : Bounty) (same : row.bounty_id ≡ id)
    (at : b.status ≡ claimed) (found : find? (has_id id) db.bounties ≡ some b) where
  shape_hit :
      (r : Bounty)
      → has_id id r ≡ true
      → RowShape db.submissions r × (has_id id r ≡ true → r ≡ b)
      → RowShape (db.submissions ++ row ∷ []) (submit_row r)
  shape_hit r e (h, only) =
      let status : r.status ≡ claimed = ap (λ (x : Bounty). x.status) (only e) ∙ at in
      ground (arith, has_submission-append db.submissions row r.id)

  shape_miss :
      (r : Bounty)
      → has_id id r ≡ false
      → RowShape db.submissions r × (has_id id r ≡ true → r ≡ b)
      → RowShape (db.submissions ++ row ∷ []) r
  shape_miss r e (h, only) =
      let other : (row.bounty_id == r.id) ≡ false = ground arith in
      rw
        (
          has_submission-append db.submissions row r.id,
          other,
          or_false (has_submission db.submissions r.id),
        )
        h

  submit_update-IsWellFormed : IsWellFormed db → IsWellFormed (submit_update id row db)
  submit_update-IsWellFormed w =
      reshaped db (submit_update id row db) (change (has_id id) submit_row) (λ r. ground arith) refl
        refl
        (All-append (λ s. s.bounty_id < db.next_bounty) db.submissions (row ∷ []) w.orphans
          (
            rw same (
                subst (λ k. k < db.next_bounty)
                  ((==_iff b.id id).0 (find?-holds (has_id id) db.bounties b found))
                  (find?-All (λ r. r.id < db.next_bounty) (has_id id) db.bounties b w.below found)),
            tt,
          ))
        (All-update (λ r. RowShape db.submissions r × (has_id id r ≡ true → r ≡ b))
          (RowShape (db.submissions ++ row ∷ [])) (has_id id) submit_row db.bounties shape_hit
          shape_miss
          (All-zip (RowShape db.submissions) (λ r. has_id id r ≡ true → r ≡ b) db.bounties w.shapes
            (found_only (λ (r : Bounty). r.id) id db.bounties b w.distinct found)))
        w

submit-IsWellFormed :
    (lower : String → String) (now id : ℕ) (learner : String) (repo_url notes : Option String)
    (db : Db)
    → IsWellFormed db
    → IsWellFormed (submit_work lower now id learner repo_url notes db).1
unfolding submit_work
submit-IsWellFormed lower now id learner repo_url notes db w =
    elim (Bool-cases (can_submit lower now learner (find? (has_id id) db.bounties))) [
      | inr e ↦ rw e w
      | inl e ↦ elim (Bool-cases (any (is_duplicate id learner) db.submissions)) [
        | inl d ↦ rw (e, d) w
        | inr d ↦
            let (b, found, at) = claimed_row lower now learner (find? (has_id id) db.bounties) e in
            rw (e, d)
              (submit_update-IsWellFormed id (new_submission now id learner repo_url notes db) db b
                refl at found w)
      ]
    ]

-- Every operation of the store keeps the invariant.
pub step-IsWellFormed :
    (lower : String → String) (now : ℕ) (op : Op) (db : Db)
    → IsWellFormed db
    → IsWellFormed (step lower now op db)
unfolding step
step-IsWellFormed lower now (create row) db w = create-IsWellFormed now row db w
step-IsWellFormed lower now (claim id by deadline) db w = claim-IsWellFormed now id by deadline db w
step-IsWellFormed lower now (submit id learner repo_url notes) db w =
    submit-IsWellFormed lower now id learner repo_url notes db w
step-IsWellFormed lower now (approve id payout_tx reward_tx) db w =
    approve-IsWellFormed now id payout_tx reward_tx db w
step-IsWellFormed lower now (cancel id sponsor) db w = cancel-IsWellFormed lower id sponsor db w
step-IsWellFormed lower now reopen db w = reopen-IsWellFormed now db w

pub run-IsWellFormed_from :
    (lower : String → String) (ops : List (ℕ × Op)) (db : Db)
    → IsWellFormed db
    → IsWellFormed (run lower ops db)
unfolding run
run-IsWellFormed_from lower [] db w = w
run-IsWellFormed_from lower ((now, op) ∷ ops) db w =
    run-IsWellFormed_from lower ops (step lower now op db) (step-IsWellFormed lower now op db w)

-- After any sequence of store calls on empty tables, bounty ids are distinct and below the
-- counter, every submission is to a bounty id below the counter, and each row has its status's
-- shape: an open bounty has no holder, a claimed, submitted or paid one has; work was submitted to
-- the submitted and paid ones and to no open, claimed or cancelled one; only a paid one has a
-- payment date; no row has the status approved.
pub run-IsWellFormed :
    (lower : String → String) (ops : List (ℕ × Op)) → IsWellFormed (run lower ops empty)
run-IsWellFormed lower ops =
    run-IsWellFormed_from lower ops empty
      (record { distinct = tt; below = tt; orphans = tt; shapes = tt })

-- ===== src/Bounty/Claims.antt =====
-- Claims of a bounty and their expiry (server/src/db/bounty-store.ts).
use mathlib.Core.Option
use learnvault.Prelude.{
  ℕ, ◌≡◌, ◌⊎◌, inl, inr, refl, ap, ◌∙◌, String, some, none, List, [], ◌∷◌, true, false, Bool-cases,
  Option, find?, find?-holds, filter, arith,
}
use learnvault.Prelude.Rows.{update, change, found_map}
use learnvault.Bounty.Types.{BountyStatus, Bounty, BountySubmission, Db}
use learnvault.Bounty.Store.{
  has_id, is_past, can_claim, is_open_row, claim_row, claim_update, is_expired_claim, reopen_row,
  claim_bounty, reopen_expired_claims,
}

open_row :
    (now id : ℕ) (db : Db)
    → can_claim now (find? (has_id id) db.bounties) ≡ true
    → (b : Bounty) × (find? (has_id id) db.bounties ≡ some b)
      × (b.status ≡ BountyStatus.«open»)
      × (is_past now b.deadline ≡ false)
open_row now id db h = go (find? (has_id id) db.bounties) refl h
  where
    go :
        (o : Option Bounty)
        → find? (has_id id) db.bounties ≡ o
        → can_claim now o ≡ true
        → (b : Bounty) × (find? (has_id id) db.bounties ≡ some b)
          × (b.status ≡ BountyStatus.«open»)
          × (is_past now b.deadline ≡ false)
    go none e k = absurd (cc)
    go (some b) e k = (b, e, ground arith, ground arith)

found_claimed :
    (id : ℕ) (by : String) (deadline : ℕ) (db : Db) (b : Bounty)
    → find? (has_id id) db.bounties ≡ some b
    → find? (has_id id) (claim_update id by deadline db).bounties
      ≡ some (change (is_open_row id) (claim_row by deadline) b)
found_claimed id by deadline db b found =
    found_map (λ (r : Bounty). r.id) id (change (is_open_row id) (claim_row by deadline))
      (λ r. ground arith) db.bounties
    ∙ ap (Option.map (change (is_open_row id) (claim_row by deadline))) found

-- `claimBounty` either refuses, and changes nothing, or the bounty was open with its deadline not
-- passed, and is returned and stored as claimed by the caller until the new deadline.
pub claim_bounty_cases :
    (now id : ℕ) (by : String) (deadline : ℕ) (db : Db)
    → (claim_bounty now id by deadline db ≡ (none, db))
      ⊎ ((b : Bounty) × (find? (has_id id) db.bounties ≡ some b)
          × (b.status ≡ BountyStatus.«open»)
          × (is_past now b.deadline ≡ false)
          × ((claim_bounty now id by deadline db).0 ≡ some (claim_row by deadline b))
          × (find? (has_id id) (claim_bounty now id by deadline db).1.bounties
              ≡ some (claim_row by deadline b)))
unfolding claim_bounty
claim_bounty_cases now id by deadline db =
    elim (Bool-cases (can_claim now (find? (has_id id) db.bounties))) [
      | inr e ↦ inl (rw e)
      | inl e ↦
          let (b, found, at, fresh) = open_row now id db e in
          let hit : is_open_row id b ≡ true =
            ground (arith, find?-holds (has_id id) db.bounties b found) in
          let stored = found_claimed id by deadline db b found ∙ (rw hit) in
          inr (b, found, at, fresh, rw e stored, rw e stored)
    ]

claim_refused :
    (now id : ℕ) (by : String) (deadline : ℕ) (db : Db)
    → can_claim now (find? (has_id id) db.bounties) ≡ false
    → claim_bounty now id by deadline db ≡ (none, db)
unfolding claim_bounty
claim_refused now id by deadline db h = rw h

-- Of two claims of a bounty with no other call between them, the second is refused and changes
-- nothing, if the first succeeded.
claim_exclusive :
    (now now' id : ℕ) (by by' : String) (deadline deadline' : ℕ) (db : Db) (b : Bounty)
    → (claim_bounty now id by deadline db).0 ≡ some b
    → claim_bounty now' id by' deadline' (claim_bounty now id by deadline db).1
      ≡ (none, (claim_bounty now id by deadline db).1)
claim_exclusive now now' id by by' deadline deadline' db b won =
    elim (claim_bounty_cases now id by deadline db) [
      | inl failed ↦ absurd (cc (ap (λ (r : Option Bounty × Db). r.0) failed, won))
      | inr (c, found, at, fresh, reply, stored) ↦
          claim_refused now' id by' deadline' (claim_bounty now id by deadline db).1
            (ap (can_claim now') stored)
    ]

module _ (now : ℕ) (subs : List BountySubmission) where
  filter-reopened :
      (rows : List Bounty)
      → filter (is_expired_claim now subs) (update (is_expired_claim now subs) reopen_row rows) ≡ []
  filter-reopened [] = refl
  filter-reopened (b ∷ rows) = elim (Bool-cases (is_expired_claim now subs b)) [
    | inl e ↦ rw e (filter-reopened rows)
    | inr e ↦ rw (e, e) (filter-reopened rows)
  ]

  update-reopened :
      (rows : List Bounty)
      → update
          (is_expired_claim now subs)
          reopen_row
          (update (is_expired_claim now subs) reopen_row rows)
        ≡ update (is_expired_claim now subs) reopen_row rows
  update-reopened [] = refl
  update-reopened (b ∷ rows) = elim (Bool-cases (is_expired_claim now subs b)) [
    | inl e ↦ rw (e, update-reopened rows)
    | inr e ↦ rw (e, e, update-reopened rows)
  ]

-- A run of the expiry worker leaves no expired claim: a second run at the same moment reopens
-- nothing and changes nothing.
reopen_twice :
    (now : ℕ) (db : Db)
    → reopen_expired_claims now (reopen_expired_claims now db).1
      ≡ (0, (reopen_expired_claims now db).1)
unfolding reopen_expired_claims
reopen_twice now db =
    rw (
      filter-reopened now db.submissions db.bounties,
      update-reopened now db.submissions db.bounties,
    )

-- ===== src/PeerReview/Rewards.antt =====
-- What a peer review leaves in the tables: one review of a reviewer for a report, and a reward that the
-- journal of balances does not hold (server/src/db/peer-review-store.ts,
-- server/src/db/scholar-balance-store.ts).
use learnvault.Prelude.{
  ℕ, ◌≡◌, ◌≢◌, ◌⊎◌, refl, sym, ap, ◌∙◌, String, Option, none, some, List, [], ◌∷◌, true, false,
  ==_iff, any, find?, All, All-append, str_eq, str_eq_refl, Bool-cases, inl, inr,
}
use mathlib.Core.Path.{subst}
use mathlib.Core.Bool.{false≢true}
use learnvault.Prelude.Int.{◌+ℤ◌}
use learnvault.Prelude.Rows.{DistinctBy, DistinctBy-append}
use learnvault.Milestone.Types.{MilestoneReport, has_id}
use learnvault.Balance.Store.{balance_of, rebuild_scholar_balances}
use learnvault.Balance.Projection.{total, IsProjection, agg_total, balance_of-upsert_all, +ℤ-zero}
use learnvault.Balance.Rebuild.{rebuild-IsProjection}
use learnvault.PeerReview.Store.{
  Config, Db, ReviewParams, PeerReviewRow, ok, refused, is_review_of, new_review, award,
  record_review, submit_peer_review,
}
use learnvault.PeerReview.Submit.{Refuses, Records, submit_peer_review_cases}

abbrev pub key : PeerReviewRow → ℕ × String
key v = (v.report_id, v.reviewer_address)

abbrev pub IsForeign : Db → PeerReviewRow → Type 0
IsForeign db v =
    (r : MilestoneReport)
    → find? (has_id v.report_id) db.reports ≡ some r
    → r.scholar_address ≢ v.reviewer_address

-- No reviewer has two reviews of a report, or one of an own report.
abbrev pub IsFair : Db → Type 0
IsFair db = DistinctBy key db.reviews × All (IsForeign db) db.reviews

-- The reviews that are submitted one after another, each with its moment.
abbrev pub submit_all : Config → List (ℕ × ReviewParams) → Db → Db
submit_all config [] db = db
submit_all config ((now, p) ∷ ps) db = submit_all config ps (submit_peer_review config now p db).1

is_review_of-key :
    (p : ReviewParams) (v : PeerReviewRow)
    → key v ≡ (p.report_id, p.reviewer_address)
    → is_review_of p v ≡ true
is_review_of-key p v e =
    let same_report = (==_iff v.report_id p.report_id).1 (ap (λ k. k.0) e) in
    let same_reviewer : str_eq v.reviewer_address p.reviewer_address ≡ true =
      subst (λ a. str_eq v.reviewer_address a ≡ true) (ap (λ k. k.1) e)
        (str_eq_refl v.reviewer_address) in
    rw (same_report, same_reviewer) refl

first_review :
    (p : ReviewParams) (vs : List PeerReviewRow)
    → any (is_review_of p) vs ≡ false
    → All (λ v. key v ≢ (p.report_id, p.reviewer_address)) vs
first_review p [] h = tt
first_review p (v ∷ vs) h = elim (Bool-cases (is_review_of p v)) [
  | inl e ↦ absurd (false≢true (sym h ∙ rw e refl))
  | inr e ↦ (λ same. false≢true (sym e ∙ is_review_of-key p v same), first_review p vs (rw e at h))
]

abbrev or_else : MilestoneReport → Option MilestoneReport → MilestoneReport
or_else r none = r
or_else r (some s) = s

submitted-IsFair :
    (config : Config) (now : ℕ) (p : ReviewParams) (db : Db)
    → IsFair db
    → Refuses db (submit_peer_review config now p db)
      ⊎ Records config now p db (submit_peer_review config now p db)
    → IsFair (submit_peer_review config now p db).1
submitted-IsFair config now p db h (inl (code, n, e)) = subst (λ r. IsFair r.1) (sym e) h
submitted-IsFair config now p db h (inr (r, found, waiting, foreign, outside, able, first, e)) =
    let own : IsForeign db (new_review config now p db.review_seq) =
      λ s same ne. foreign (ap (λ o. (or_else r o).scholar_address) (sym found ∙ same) ∙ ne) in
    subst (λ r. IsFair r.1) (sym e)
      (
        DistinctBy-append key db.reviews (new_review config now p db.review_seq) h.0
            (first_review p db.reviews first),
        All-append (IsForeign db) db.reviews (new_review config now p db.review_seq ∷ []) h.1
            (own, tt),
      )

-- After any reviews, submitted one after another, no reviewer has two reviews of a report or one of an
-- own report, if it was so before.
pub submit_all-IsFair :
    (config : Config) (ps : List (ℕ × ReviewParams)) (db : Db)
    → IsFair db
    → IsFair (submit_all config ps db)
submit_all-IsFair config [] db h = h
submit_all-IsFair config ((now, p) ∷ ps) db h =
    submit_all-IsFair config ps (submit_peer_review config now p db).1
      (submitted-IsFair config now p db h (submit_peer_review_cases config now p db))

-- The balance of an address after a reward.
awarded :
    (config : Config) (now : ℕ) (p : ReviewParams) (db : Db)
    → balance_of p.reviewer_address (record_review config now p db).balance.balances
      ≡ balance_of p.reviewer_address db.balance.balances +ℤ config.peer_review_reward
unfolding agg_total
awarded config now p db =
    balance_of-upsert_all now p.reviewer_address (award config p ∷ []) db.balance.balances
    ∙ ap (λ x. balance_of p.reviewer_address db.balance.balances +ℤ x)
        (rw (str_eq_refl p.reviewer_address) (+ℤ-zero config.peer_review_reward))

abbrev Loses : Config → String → Db → Db → Type 0
Loses config a db after =
    (balance_of a after.balance.balances
      ≡ balance_of a db.balance.balances +ℤ config.peer_review_reward)
    × ((later : ℕ)
        → balance_of a (rebuild_scholar_balances later after.balance).1.balances
          ≡ balance_of a db.balance.balances)

recorded-Loses :
    (config : Config) (now : ℕ) (p : ReviewParams) (db : Db)
    → IsProjection db.balance
    → (submit_peer_review config now p db).0 ≡ ok config.peer_review_reward
    → Refuses db (submit_peer_review config now p db)
      ⊎ Records config now p db (submit_peer_review config now p db)
    → Loses config p.reviewer_address db (submit_peer_review config now p db).1
recorded-Loses config now p db h done (inl (code, n, e)) =
    let clash : refused code ≡ ok config.peer_review_reward = sym (ap (λ s. s.0) e) ∙ done in
    absurd (cc)
recorded-Loses config now p db h done (inr (r, found, waiting, foreign, outside, able, first, e)) =
    subst (λ s. Loses config p.reviewer_address db s.1) (sym e)
      (
        awarded config now p db,
        λ later.
            (rebuild-IsProjection later (record_review config now p db).balance).0
              p.reviewer_address
            ∙ ap (total p.reviewer_address)
                (rebuild-IsProjection later (record_review config now p db).balance).1
            ∙ sym (h p.reviewer_address),
      )

-- Where the balances are the projection of the journal, a review that is stored raises the balance of
-- its reviewer by the reward, and a rebuild at any later moment takes the reward away again.
pub submit-rebuild :
    (config : Config) (now later : ℕ) (p : ReviewParams) (db : Db)
    → IsProjection db.balance
    → (submit_peer_review config now p db).0 ≡ ok config.peer_review_reward
    → let after = (submit_peer_review config now p db).1 in
      let held = balance_of p.reviewer_address db.balance.balances in
      (balance_of p.reviewer_address after.balance.balances ≡ held +ℤ config.peer_review_reward)
      × (balance_of p.reviewer_address (rebuild_scholar_balances later after.balance).1.balances
          ≡ held)
submit-rebuild config now later p db h done =
    let r = recorded-Loses config now p db h done (submit_peer_review_cases config now p db) in
    (r.0, r.1 later)

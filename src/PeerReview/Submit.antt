-- ===== src/PeerReview/Submit.antt =====
-- When a peer review is stored (server/src/db/peer-review-store.ts).
use learnvault.Prelude.{
  ℕ, ◌+◌, ◌≡◌, ◌≢◌, ◌⊎◌, refl, Option, none, some, true, false, any, find?, str_eq, str_eq→ne,
  Bool-cases, inl, inr,
}
use learnvault.Milestone.Types.{MilestoneReport, pending, status_eq, has_id}
use learnvault.PeerReview.Store.{
  Config, Db, ReviewParams, RefusalCode, SubmitPeerReviewResult, ok, refused, not_found,
  not_pending, self_review, same_course, already_reviewed, insufficient_reputation,
  meets_reputation_threshold, is_enrolled, is_review_of, record_review, review_report,
  review_if_found, submit_peer_review,
}

-- A refusal changes no row; it may use up a number of the SERIAL column.
abbrev pub Refuses : Db → SubmitPeerReviewResult × Db → Type 0
Refuses db result =
    (code : RefusalCode) × (n : ℕ) × (result ≡ (refused code, record db { review_seq = n }))

-- The review of a pending report of another learner, by one who is not in its course, has the
-- reputation, and has not reviewed it, is stored.
abbrev pub Records : Config → ℕ → ReviewParams → Db → SubmitPeerReviewResult × Db → Type 0
Records config now p db result =
    (r : MilestoneReport) × (find? (has_id p.report_id) db.reports ≡ some r)
    × (status_eq r.status pending ≡ true)
    × (r.scholar_address ≢ p.reviewer_address)
    × (is_enrolled p.reviewer_address r.course_id db ≡ false)
    × (meets_reputation_threshold config p.reviewer_address db ≡ true)
    × (any (is_review_of p) db.reviews ≡ false)
    × (result ≡ (ok config.peer_review_reward, record_review config now p db))

report_cases :
    (config : Config) (now : ℕ) (p : ReviewParams) (db : Db) (r : MilestoneReport)
    → find? (has_id p.report_id) db.reports ≡ some r
    → Refuses db (review_report config now p db r)
      ⊎ Records config now p db (review_report config now p db r)
report_cases config now p db r found = elim (Bool-cases (status_eq r.status pending)) [
  | inr e ↦ inl (not_pending, db.review_seq, rw e refl)
  | inl is_pending ↦ elim (Bool-cases (str_eq r.scholar_address p.reviewer_address)) [
    | inl e ↦ inl (self_review, db.review_seq, rw (is_pending, e) refl)
    | inr foreign ↦ elim (Bool-cases (is_enrolled p.reviewer_address r.course_id db)) [
      | inl e ↦ inl (same_course, db.review_seq, rw (is_pending, foreign, e) refl)
      | inr outside ↦ elim (Bool-cases (meets_reputation_threshold config p.reviewer_address db)) [
        | inr e ↦
            inl (insufficient_reputation, db.review_seq, rw (is_pending, foreign, outside, e) refl)
        | inl able ↦ elim (Bool-cases (any (is_review_of p) db.reviews)) [
          | inl e ↦
              inl (
                already_reviewed,
                db.review_seq + 1,
                rw (is_pending, foreign, outside, able, e) refl,
              )
          | inr first ↦ inr (
            r,
            found,
            is_pending,
            str_eq→ne r.scholar_address p.reviewer_address foreign,
            outside,
            able,
            first,
            rw (is_pending, foreign, outside, able, first) refl,
          )
        ]
      ]
    ]
  ]
]

found_cases :
    (config : Config) (now : ℕ) (p : ReviewParams) (db : Db) (o : Option MilestoneReport)
    → find? (has_id p.report_id) db.reports ≡ o
    → Refuses db (review_if_found config now p db o)
      ⊎ Records config now p db (review_if_found config now p db o)
found_cases config now p db none found = inl (not_found, db.review_seq, refl)
found_cases config now p db (some r) found = report_cases config now p db r found

-- A review either is refused and changes no row, or its report was found pending, of another learner,
-- in a course that the reviewer is not enrolled in, the reviewer has the reputation and had not
-- reviewed it, and the review, the reward and the event are stored.
pub submit_peer_review_cases :
    (config : Config) (now : ℕ) (p : ReviewParams) (db : Db)
    → Refuses db (submit_peer_review config now p db)
      ⊎ Records config now p db (submit_peer_review config now p db)
unfolding submit_peer_review
submit_peer_review_cases config now p db =
    found_cases config now p db (find? (has_id p.report_id) db.reports) refl

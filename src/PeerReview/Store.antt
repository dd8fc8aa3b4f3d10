-- ===== src/PeerReview/Store.antt =====
-- Peer reviews of milestone reports in Postgres (server/src/db/peer-review-store.ts), with the
-- constraints of migration 013. The two environment variables are a record; a threshold that is no
-- whole number is none.
use learnvault.Prelude.{
  ℕ, ◌+◌, String, Option, none, some, List, [], ◌∷◌, ◌++◌, map, Bool, true, false, not, ◌&&◌, ◌==◌,
  any, find?, filter, length, str_eq, if◌then◌else◌,
}
use learnvault.Prelude.Int.{ℤ, ◌+ℤ◌, ltb_ℤ}
use learnvault.Milestone.Types.{MilestoneReport, pending, status_eq, has_id}
use learnvault.Balance.Store.{Aggregate, upsert, balance_of}
use learnvault.Balance.Store

pub data PeerVerdict : Type 0 where
  approve reject : PeerVerdict

pub record PeerReviewRow : Type 0 where
  pub id : ℕ
  pub report_id : ℕ
  pub reviewer_address : String
  pub verdict : PeerVerdict
  pub comment : Option String
  pub lrn_awarded : ℤ
  pub created_at : ℕ

pub record Enrollment : Type 0 where
  pub learner_address : String
  pub course_id : String

-- The event 'peer_review_completed' with its data.
pub record PeerReviewCompleted : Type 0 where
  pub report_id : ℕ
  pub reviewer_address : String
  pub verdict : PeerVerdict
  pub lrn_awarded : ℤ

pub record Config : Type 0 where
  pub min_lrn_threshold : Option ℤ
  pub peer_review_reward : ℤ

pub record Db : Type 0 where
  pub reports : List MilestoneReport
  pub enrollments : List Enrollment
  pub balance : Store.Db
  pub reviews : List PeerReviewRow
  pub review_seq : ℕ
  pub events : List PeerReviewCompleted

pub record ReviewParams : Type 0 where
  pub reviewer_address : String
  pub report_id : ℕ
  pub verdict : PeerVerdict
  pub comment : Option String

pub data RefusalCode : Type 0 where
  not_found not_pending self_review same_course already_reviewed insufficient_reputation :
      RefusalCode

pub data SubmitPeerReviewResult : Type 0 where
  ok : ℤ → SubmitPeerReviewResult
  refused : RefusalCode → SubmitPeerReviewResult

abbrev pub meets : Option ℤ → ℤ → Bool
meets none balance = false
meets (some threshold) balance = not (ltb_ℤ balance threshold)

abbrev pub meets_reputation_threshold : Config → String → Db → Bool
meets_reputation_threshold config a db =
    meets config.min_lrn_threshold (balance_of a db.balance.balances)

abbrev pub is_enrolled : String → String → Db → Bool
is_enrolled a course db =
    any (λ e. str_eq e.learner_address a && str_eq e.course_id course) db.enrollments

-- `UNIQUE (report_id, reviewer_address)`
abbrev pub is_review_of : ReviewParams → PeerReviewRow → Bool
is_review_of p v = v.report_id == p.report_id && str_eq v.reviewer_address p.reviewer_address

abbrev pub new_review : Config → ℕ → ReviewParams → ℕ → PeerReviewRow
new_review config now p id = record {
  id = id;
  report_id = p.report_id;
  reviewer_address = p.reviewer_address;
  verdict = p.verdict;
  comment = p.comment;
  lrn_awarded = config.peer_review_reward;
  created_at = now;
}

-- The reward as the row that the INSERT into scholar_balances proposes.
abbrev pub award : Config → ReviewParams → Aggregate
award config p = record {
  address = p.reviewer_address;
  delta = config.peer_review_reward;
  applied = 1;
}

abbrev pub completed : Config → ReviewParams → PeerReviewCompleted
completed config p = record {
  report_id = p.report_id;
  reviewer_address = p.reviewer_address;
  verdict = p.verdict;
  lrn_awarded = config.peer_review_reward;
}

-- The three INSERTs of the transaction.
abbrev pub record_review : Config → ℕ → ReviewParams → Db → Db
record_review config now p db = record db {
  reviews = db.reviews ++ new_review config now p db.review_seq ∷ [];
  review_seq = db.review_seq + 1;
  balance = record (db.balance) { balances = upsert now ◌+ℤ◌ (award config p) db.balance.balances };
  events = db.events ++ completed config p ∷ [];
}

-- A refused INSERT has used up a number of the SERIAL column.
abbrev pub review_report :
    Config → ℕ → ReviewParams → Db → MilestoneReport → SubmitPeerReviewResult × Db
review_report config now p db r =
    if not (status_eq r.status pending)
    then (refused not_pending, db)
    else if str_eq r.scholar_address p.reviewer_address
    then (refused self_review, db)
    else if is_enrolled p.reviewer_address r.course_id db
    then (refused same_course, db)
    else if not (meets_reputation_threshold config p.reviewer_address db)
    then (refused insufficient_reputation, db)
    else if any (is_review_of p) db.reviews
    then (refused already_reviewed, record db { review_seq = db.review_seq + 1 })
    else (ok config.peer_review_reward, record_review config now p db)

abbrev pub review_if_found :
    Config → ℕ → ReviewParams → Db → Option MilestoneReport → SubmitPeerReviewResult × Db
review_if_found config now p db none = (refused not_found, db)
review_if_found config now p db (some r) = review_report config now p db r

unfoldable pub submit_peer_review : Config → ℕ → ReviewParams → Db → SubmitPeerReviewResult × Db
submit_peer_review config now p db =
    review_if_found config now p db (find? (has_id p.report_id) db.reports)

-- `getPeerCountsByReportId`, of one report.
pub record PeerCounts : Type 0 where
  pub approve : ℕ
  pub reject : ℕ

abbrev pub is_verdict : PeerVerdict → PeerVerdict → Bool
is_verdict approve approve = true
is_verdict approve reject = false
is_verdict reject approve = false
is_verdict reject reject = true

abbrev pub count : PeerVerdict → ℕ → List PeerReviewRow → ℕ
count verdict id reviews =
    length (filter (λ v. v.report_id == id && is_verdict verdict v.verdict) reviews)

-- The rows of `GROUP BY report_id`; a report that has none keeps 0 and 0.
abbrev pub peer_counts : List PeerReviewRow → ℕ → PeerCounts
peer_counts reviews id = record {
  approve = count approve id reviews;
  reject = count reject id reviews;
}

unfoldable pub attach_peer_summaries :
    Db → List MilestoneReport → List (MilestoneReport × PeerCounts)
attach_peer_summaries db reports = map (λ r. (r, peer_counts db.reviews r.id)) reports

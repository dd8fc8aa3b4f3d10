-- ===== src/PeerReview/Queue.antt =====
-- The queue of reports that a reviewer is offered (server/src/db/peer-review-store.ts), against the
-- reviews that are stored.
use learnvault.Prelude.{
  ℕ, ◌≡◌, ◌≢◌, refl, sym, ap, ◌∙◌, String, Option, none, some, List, [], ◌∷◌, map, Bool, true,
  false, not, ◌&&◌, ◌||◌, ◌==◌, ==_iff, any, find?, find?-holds, filter, leb, All, str_eq,
  Bool-cases, inl, inr, if◌then◌else◌, arith,
}
use mathlib.Core.Path.{subst}
use learnvault.Prelude.Rows.{DistinctBy}
use learnvault.Milestone.Types.{MilestoneReport, pending, status_eq, has_id}
use learnvault.PeerReview.Store.{
  Config, Db, ReviewParams, PeerCounts, SubmitPeerReviewResult, ok, refused,
  meets_reputation_threshold, is_enrolled, is_review_of, peer_counts, review_report,
  review_if_found, submit_peer_review,
}

-- `NOT EXISTS` of a review of this reviewer.
abbrev pub has_reviewed : String → ℕ → Db → Bool
has_reviewed a id db = any (λ v. v.report_id == id && str_eq v.reviewer_address a) db.reviews

-- The WHERE clause.
abbrev pub is_offered : Config → String → Db → MilestoneReport → Bool
is_offered config a db r =
    status_eq r.status pending
    && (not (str_eq r.scholar_address a)
        && (meets_reputation_threshold config a db
            && (not (is_enrolled a r.course_id db) && not (has_reviewed a r.id db))))

abbrev pub with_counts : Db → MilestoneReport → MilestoneReport × PeerCounts
with_counts db r = (r, peer_counts db.reviews r.id)

-- `ORDER BY mr.submitted_at ASC`
abbrev pub insert_oldest :
    MilestoneReport × PeerCounts
    → List (MilestoneReport × PeerCounts)
    → List (MilestoneReport × PeerCounts)
insert_oldest x [] = x ∷ []
insert_oldest x (y ∷ ys) =
    let rest = insert_oldest x ys in
    if leb x.0.submitted_at y.0.submitted_at then x ∷ y ∷ ys else y ∷ rest

abbrev pub oldest_first : List (MilestoneReport × PeerCounts) → List (MilestoneReport × PeerCounts)
oldest_first [] = []
oldest_first (x ∷ xs) = insert_oldest x (oldest_first xs)

unfoldable pub get_peer_review_queue : Config → String → Db → List (MilestoneReport × PeerCounts)
get_peer_review_queue config a db =
    if not (meets_reputation_threshold config a db)
    then []
    else oldest_first (map (with_counts db) (filter (is_offered config a db) db.reports))

abbrev pub is_queued : ℕ → List (MilestoneReport × PeerCounts) → Bool
is_queued id queue = any (λ x. has_id id x.0) queue

abbrev pub is_ok : SubmitPeerReviewResult → Bool
is_ok (ok reward) = true
is_ok (refused code) = false

or_swap : (a b c : Bool) → (a || (b || c)) ≡ (b || (a || c))
or_swap true true c = refl
or_swap true false c = refl
or_swap false b c = refl

queued-insert :
    (id : ℕ) (x : MilestoneReport × PeerCounts) (xs : List (MilestoneReport × PeerCounts))
    → is_queued id (insert_oldest x xs) ≡ (has_id id x.0 || is_queued id xs)
queued-insert id x [] = refl
queued-insert id x (y ∷ ys) = elim (Bool-cases (leb x.0.submitted_at y.0.submitted_at)) [
  | inl e ↦ rw e refl
  | inr e ↦
      rw (e, queued-insert id x ys) (or_swap (has_id id y.0) (has_id id x.0) (is_queued id ys))
]

queued-sort :
    (id : ℕ) (xs : List (MilestoneReport × PeerCounts))
    → is_queued id (oldest_first xs) ≡ is_queued id xs
queued-sort id [] = refl
queued-sort id (x ∷ xs) =
    queued-insert id x (oldest_first xs) ∙ ap (λ b. has_id id x.0 || b) (queued-sort id xs)

queued-map :
    (id : ℕ) (db : Db) (rows : List MilestoneReport)
    → is_queued id (map (with_counts db) rows) ≡ any (has_id id) rows
queued-map id db [] = refl
queued-map id db (r ∷ rows) = ap (λ b. has_id id r || b) (queued-map id db rows)

-- The test of the one row with an id, false where there is none.
abbrev test_of : (MilestoneReport → Bool) → Option MilestoneReport → Bool
test_of p none = false
test_of p (some r) = p r

none_filtered :
    (id : ℕ) (p : MilestoneReport → Bool) (rows : List MilestoneReport)
    → All (λ r. id ≢ r.id) rows
    → any (has_id id) (filter p rows) ≡ false
none_filtered id p [] h = refl
none_filtered id p (r ∷ rows) h = ground (arith, none_filtered id p rows h.1, h.0)

filtered-find :
    (id : ℕ) (p : MilestoneReport → Bool) (rows : List MilestoneReport)
    → DistinctBy (λ r. r.id) rows
    → any (has_id id) (filter p rows) ≡ test_of p (find? (has_id id) rows)
filtered-find id p [] d = refl
filtered-find id p (r ∷ rows) d = elim (Bool-cases (r.id == id)) [
  | inl here ↦
      let same : r.id ≡ id = (==_iff r.id id).0 here in
      let others = none_filtered id p rows (subst (λ i. All (λ s. i ≢ s.id) rows) same d.0) in
      ground (arith, others)
  | inr later ↦ let rest = filtered-find id p rows d.1 in ground (arith, rest)
]

-- Guards with early returns pass exactly if all of them hold.
guards_pass :
    (config : Config) (now : ℕ) (p : ReviewParams) (db : Db) (r : MilestoneReport)
    → is_ok (review_report config now p db r).0 ≡ (
        status_eq r.status pending
        && (not (str_eq r.scholar_address p.reviewer_address)
            && (meets_reputation_threshold config p.reviewer_address db
                && (not (is_enrolled p.reviewer_address r.course_id db)
                    && not (any (is_review_of p) db.reviews)))))
guards_pass config now p db r = ground (arith)

-- A report is offered exactly if a review of it would pass every guard.
offered-review :
    (config : Config) (now : ℕ) (p : ReviewParams) (db : Db) (r : MilestoneReport)
    → r.id ≡ p.report_id
    → is_ok (review_report config now p db r).0 ≡ is_offered config p.reviewer_address db r
offered-review config now p db r same = rw same (guards_pass config now p db r)

submit-offered :
    (config : Config) (now : ℕ) (p : ReviewParams) (db : Db) (o : Option MilestoneReport)
    → find? (has_id p.report_id) db.reports ≡ o
    → is_ok (review_if_found config now p db o).0
      ≡ test_of (is_offered config p.reviewer_address db) o
submit-offered config now p db none found = refl
submit-offered config now p db (some r) found =
    offered-review config now p db r
      ((==_iff r.id p.report_id).0 (find?-holds (has_id p.report_id) db.reports r found))

no_reputation :
    (config : Config) (a : String) (db : Db) (r : MilestoneReport)
    → meets_reputation_threshold config a db ≡ false
    → is_offered config a db r ≡ false
no_reputation config a db r h = ground (arith, h)

none_offered :
    (config : Config) (a : String) (db : Db) (o : Option MilestoneReport)
    → meets_reputation_threshold config a db ≡ false
    → test_of (is_offered config a db) o ≡ false
none_offered config a db none h = refl
none_offered config a db (some r) h = no_reputation config a db r h

-- Where report ids are distinct, the queue of a reviewer holds a report exactly if a review of it that
-- the reviewer submits at that point is stored, whatever the verdict.
pub queue-submit :
    (config : Config) (now : ℕ) (p : ReviewParams) (db : Db)
    → DistinctBy (λ r. r.id) db.reports
    → is_queued p.report_id (get_peer_review_queue config p.reviewer_address db)
      ≡ is_ok (submit_peer_review config now p db).0
unfolding get_peer_review_queue submit_peer_review
queue-submit config now p db d =
    let a = p.reviewer_address in
    let found = find? (has_id p.report_id) db.reports in
    let offered = filter (is_offered config a db) db.reports in
    let submitted = submit-offered config now p db found refl in
    elim (Bool-cases (meets_reputation_threshold config a db)) [
      | inl e ↦ rw e (
          queued-sort p.report_id (map (with_counts db) offered)
          ∙ queued-map p.report_id db offered
          ∙ filtered-find p.report_id (is_offered config a db) db.reports d
          ∙ sym submitted)
      | inr e ↦ rw e (sym (submitted ∙ none_offered config a db found e))
    ]

-- ===== src/Dispute/Store.antt =====
-- server/src/db/dispute-store.ts over Postgres, with the constraints of migration 032: a dispute id is a
-- primary key, a milestone has one dispute, a juror is on a panel once and votes once, and a vote
-- refers to a dispute.
use learnvault.Prelude.{
  ℕ, ◌+◌, String, Option, none, some, List, [], ◌∷◌, ◌++◌, Bool, true, false, ◌&&◌, not, ◌==◌, any,
  find?, filter, str_eq, if◌then◌else◌,
}
use learnvault.Prelude.Rows.{update}

pub data DisputePhase : Type 0 where
  active resolved quorum_failed : DisputePhase

pub record Dispute : Type 0 where
  pub dispute_id : ℕ
  pub proposal_id : ℕ
  pub milestone_id : ℕ
  pub scholar_address : String
  pub evidence_ipfs_cid : Option String
  pub evidence_hash : String
  pub scholar_stake : String
  pub opened_at : ℕ
  pub commit_deadline : ℕ
  pub reveal_deadline : ℕ
  pub phase : DisputePhase
  pub votes_for : ℕ
  pub votes_against : ℕ
  pub revealed_count : ℕ
  pub outcome : Option Bool
  pub resolved_at : Option ℕ
  pub resolve_tx_hash : Option String
  pub open_tx_hash : Option String
  pub created_at : ℕ
  pub updated_at : ℕ

pub record DisputeJuror : Type 0 where
  pub dispute_id : ℕ
  pub juror_address : String
  pub has_committed : Bool
  pub has_revealed : Bool

pub record DisputeVote : Type 0 where
  pub dispute_id : ℕ
  pub juror_address : String
  pub vote : Bool
  pub revealed_at : ℕ
  pub tx_hash : Option String

pub record PendingEvidence : Type 0 where
  pub proposal_id : ℕ
  pub milestone_id : ℕ
  pub scholar_address : String
  pub evidence_ipfs_cid : String

pub record Db : Type 0 where
  pub disputes : List Dispute
  pub jurors : List DisputeJuror
  pub votes : List DisputeVote
  pub pending : List PendingEvidence

-- What a call ends with where it returns nothing: done, or the constraint violation it throws.
pub data Outcome : Type 0 where
  done : Outcome
  violation : Outcome

abbrev pub is_dispute : ℕ → Dispute → Bool
is_dispute id d = d.dispute_id == id

abbrev pub is_juror : ℕ → String → DisputeJuror → Bool
is_juror id a j = j.dispute_id == id && str_eq j.juror_address a

abbrev pub is_vote : ℕ → String → DisputeVote → Bool
is_vote id a v = v.dispute_id == id && str_eq v.juror_address a

abbrev pub is_for_milestone : ℕ → ℕ → Dispute → Bool
is_for_milestone p m d = d.proposal_id == p && d.milestone_id == m

-- `INSERT … ON CONFLICT (…) DO NOTHING`
abbrev pub insert_absent : {A : Type 0} → (A → Bool) → A → List A → List A
insert_absent same row rows = if any same rows then rows else rows ++ row ∷ []

abbrev pub panel_juror : ℕ → String → DisputeJuror
panel_juror id a = record {
  dispute_id = id;
  juror_address = a;
  has_committed = false;
  has_revealed = false;
}

abbrev pub insert_panel : ℕ → List String → List DisputeJuror → List DisputeJuror
insert_panel id [] jurors = jurors
insert_panel id (a ∷ panel) jurors =
    insert_panel id panel (insert_absent (is_juror id a) (panel_juror id a) jurors)

-- The argument is the new row, with the columns that the statement leaves to their defaults filled in.
unfoldable pub upsert_dispute_opened : Dispute → List String → Db → Outcome × Db
upsert_dispute_opened d panel db =
    if not (any (is_dispute d.dispute_id) db.disputes)
      && any (is_for_milestone d.proposal_id d.milestone_id) db.disputes
    then (violation, db)
    else (
      done,
      record db {
        disputes = insert_absent (is_dispute d.dispute_id) d db.disputes;
        jurors = insert_panel d.dispute_id panel db.jurors;
      },
    )

abbrev pub new_dispute :
    ℕ → ℕ → ℕ → ℕ → String → String → String → ℕ → ℕ → ℕ → Option String → Dispute
new_dispute now id p m scholar hash stake opened commit reveal tx = record {
  dispute_id = id;
  proposal_id = p;
  milestone_id = m;
  scholar_address = scholar;
  evidence_ipfs_cid = none;
  evidence_hash = hash;
  scholar_stake = stake;
  opened_at = opened;
  commit_deadline = commit;
  reveal_deadline = reveal;
  phase = active;
  votes_for = 0;
  votes_against = 0;
  revealed_count = 0;
  outcome = none;
  resolved_at = none;
  resolve_tx_hash = none;
  open_tx_hash = tx;
  created_at = now;
  updated_at = now;
}

unfoldable pub mark_committed : ℕ → String → Db → Db
mark_committed id a db = record db {
  jurors = update (is_juror id a) (λ j. record j { has_committed = true }) db.jurors;
}

abbrev pub counted : ℕ → Bool → Dispute → Dispute
counted now vote d = record d {
  votes_for = d.votes_for + (if vote then 1 else 0);
  votes_against = d.votes_against + (if vote then 0 else 1);
  revealed_count = d.revealed_count + 1;
  updated_at = now;
}

-- Without the dispute the first INSERT violates its foreign key.
unfoldable pub record_reveal : ℕ → DisputeVote → Db → Outcome × Db
record_reveal now v db =
    if not (any (is_dispute v.dispute_id) db.disputes) then (violation, db) else (
      done,
      record db {
        votes = insert_absent (is_vote v.dispute_id v.juror_address) v db.votes;
        jurors =
            update (is_juror v.dispute_id v.juror_address) (λ j. record j { has_revealed = true })
              db.jurors;
        disputes = update (is_dispute v.dispute_id) (counted now v.vote) db.disputes;
      },
    )

pub record Resolution : Type 0 where
  pub dispute_id : ℕ
  pub outcome : Option Bool
  pub votes_for : ℕ
  pub votes_against : ℕ
  pub revealed_count : ℕ
  pub quorum_met : Bool
  pub resolved_at : ℕ
  pub resolve_tx_hash : Option String

abbrev pub resolved_row : ℕ → Resolution → Dispute → Dispute
resolved_row now r d = record d {
  phase = if r.quorum_met then resolved else quorum_failed;
  outcome = r.outcome;
  votes_for = r.votes_for;
  votes_against = r.votes_against;
  revealed_count = r.revealed_count;
  resolved_at = some r.resolved_at;
  resolve_tx_hash = r.resolve_tx_hash;
  updated_at = now;
}

unfoldable pub mark_resolved : ℕ → Resolution → Db → Db
mark_resolved now r db = record db {
  disputes = update (is_dispute r.dispute_id) (resolved_row now r) db.disputes;
}

unfoldable pub set_evidence_cid : ℕ → ℕ → String → Db → Db
set_evidence_cid now id cid db = record db {
  disputes =
      update (is_dispute id) (λ d. record d { evidence_ipfs_cid = some cid; updated_at = now })
        db.disputes;
}

abbrev pub is_pending : ℕ → ℕ → PendingEvidence → Bool
is_pending p m e = e.proposal_id == p && e.milestone_id == m

abbrev pub put_pending : PendingEvidence → List PendingEvidence → List PendingEvidence
put_pending new [] = new ∷ []
put_pending new (e ∷ rows) =
    if is_pending new.proposal_id new.milestone_id e then new ∷ rows else e ∷ put_pending new rows

unfoldable pub set_pending_evidence : PendingEvidence → Db → Db
set_pending_evidence new db = record db { pending = put_pending new db.pending }

abbrev pub cid_of : Option PendingEvidence → Option String
cid_of none = none
cid_of (some e) = some e.evidence_ipfs_cid

unfoldable pub take_pending_evidence : ℕ → ℕ → Db → Option String × Db
take_pending_evidence p m db = (
  cid_of (find? (is_pending p m) db.pending),
  record db { pending = filter (λ e. not (is_pending p m e)) db.pending },
)

unfoldable pub get_dispute_by_id : ℕ → Db → Option Dispute
get_dispute_by_id id db = find? (is_dispute id) db.disputes

unfoldable pub get_dispute_by_milestone : ℕ → ℕ → Db → Option Dispute
get_dispute_by_milestone p m db = find? (is_for_milestone p m) db.disputes

unfoldable pub get_jurors_for_dispute : ℕ → Db → List DisputeJuror
get_jurors_for_dispute id db = filter (λ j. j.dispute_id == id) db.jurors

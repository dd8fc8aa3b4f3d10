-- ===== src/Admin/Desk.antt =====
-- The state behind a decision on a milestone report, what the outside answers to it, and the effects of
-- an approval and a rejection that server/src/controllers/admin-milestones.controller.ts shares between
-- its handlers, with server/src/services/credential.service.ts. Notifications and e-mails are left out.
use learnvault.Prelude.{
  ℕ, ◌+◌, String, Option, none, some, List, [], ◌∷◌, ◌++◌, Bool, ◌&&◌, ◌||◌, ◌==◌, any, ltb, leb,
  filter, length, str_eq, if◌then◌else◌,
}
use learnvault.Prelude.Rows.{update}
use learnvault.Prelude.Sort.{sort_desc}
use learnvault.Milestone.Types.{
  MilestoneReportStatus, MilestoneReport, MilestoneAuditDecision, OracleResult, Store, status_eq,
}
use learnvault.Milestone.Sql
use learnvault.Milestone.Memory.{add_audit_entry}
use learnvault.Escrow.Store.{Db as TimeoutDb, mark_escrow_activity}
use learnvault.Streak.Store.{Db as StreakDb, record_milestone_activity}
use learnvault.Referral.Store.{Db as ReferralDb, qualify_referral_if_first_milestone}

abbrev pub first : {A : Type 0} → List A → Option A
first [] = none
first (x ∷ xs) = some x

-- A row of the table escrows.
pub record TrancheEscrow : Type 0 where
  pub id : ℕ
  pub proposal_id : ℕ
  pub scholar_address : String
  pub tranches : ℕ
  pub tranches_released : ℕ
  pub created_at : ℕ

-- A row of the table scholar_nfts.
pub record ScholarNft : Type 0 where
  pub token_id : ℕ
  pub scholar_address : String
  pub course_id : String
  pub metadata_uri : String

-- A row of platform_events with the type `escrow_tranche_released`.
pub record TrancheReleased : Type 0 where
  pub proposal_id : ℕ
  pub scholar_address : String
  pub tx_hash : Option String

-- `verified` and `rejections` hold the reports for which a call of `callVerifyMilestone` and
-- `emitRejectionEvent` returned. A call that throws is not in them, though one of its submissions, three
-- at most, may have reached the contract.
pub record Desk : Type 0 where
  pub store : Store
  pub timeouts : TimeoutDb
  pub streaks : StreakDb
  pub referrals : ReferralDb
  pub escrows : List TrancheEscrow
  pub nfts : List ScholarNft
  pub verified : List ℕ
  pub rejections : List ℕ
  pub released : List TrancheReleased

-- What `verifyMilestoneReportEvidence` does: it gives a result, or throws a GithubOracleError, for the URL
-- or for another reason.
pub data OracleAnswer : Type 0 where
  answered : OracleResult → OracleAnswer
  invalid_url api_error : OracleAnswer

-- What the outside answers: a call that throws is none, and a call of the contract that returns gives its
-- hash, which may be null. `pin` is `generateAndPinMetadata`.
pub record World : Type 0 where
  pub configured : Bool
  pub verify : ℕ → Option (Option String)
  pub reject : ℕ → Option (Option String)
  pub release : ℕ → Option (Option String)
  pub oracle : MilestoneReport → OracleAnswer
  pub mints : String → Bool
  pub milestone_count : String → ℕ
  pub pin : String → String → Option String
  pub mint_nft : String → String → Option (Option ℕ)
  pub read_day : ℕ → ℕ
  pub today : ℕ
  pub trim : String → String
  pub sanitize : String → String
  pub text_length : String → ℕ

abbrev pub with_store : (Store → Store) → Desk → Desk
with_store f d = record d { store = f d.store }

unfoldable pub set_status : ℕ → MilestoneReportStatus → Desk → Desk
set_status id status d = with_store (λ s. (Sql.update_report_status id status s).1) d

unfoldable pub add_audit :
    ℕ → ℕ → String → MilestoneAuditDecision → Option String → Option String → Desk → Desk
add_audit now id validator decision reason tx d =
    with_store
      (λ s.
        (add_audit_entry now
          (record {
            report_id = id;
            validator_address = validator;
            decision = decision;
            rejection_reason = reason;
            contract_tx_hash = tx;
          })
          s).1)
      d

unfoldable pub mark_activity : ℕ → String → String → Desk → Desk
mark_activity now scholar course d = record d {
  timeouts = mark_escrow_activity now scholar course d.timeouts;
}

abbrev pub is_approved_of : String → MilestoneReport → Bool
is_approved_of scholar r =
    str_eq r.scholar_address scholar && status_eq r.status MilestoneReportStatus.approved

abbrev pub is_approved_in : String → String → MilestoneReport → Bool
is_approved_in scholar course r = is_approved_of scholar r && str_eq r.course_id course

abbrev pub nft_stored : String → String → String → Option ℕ → Desk → Desk
nft_stored scholar course uri none d = d
nft_stored scholar course uri (some token) d =
    if token == 0 || any (λ n. n.token_id == token) d.nfts then d else record d {
      nfts =
          d.nfts
          ++ record {
            token_id = token;
            scholar_address = scholar;
            course_id = course;
            metadata_uri = uri;
          }
            ∷ [];
    }

module _ (w : World) where
  -- `isCourseComplete`
  abbrev pub is_course_complete : String → String → Desk → Bool
  is_course_complete scholar course d =
      ltb 0 (w.milestone_count course)
      && leb (w.milestone_count course)
          (length (filter (is_approved_in scholar course) d.store.reports))

  abbrev pub nft_minted : String → String → String → Option (Option ℕ) → Desk → Desk
  nft_minted scholar course uri none d = d
  nft_minted scholar course uri (some token) d = nft_stored scholar course uri token d

  abbrev pub metadata_pinned : String → String → Option String → Desk → Desk
  metadata_pinned scholar course none d = d
  metadata_pinned scholar course (some uri) d =
      nft_minted scholar course uri (w.mint_nft scholar uri) d

  unfoldable pub mint_certificate_if_complete : String → String → Desk → Desk
  mint_certificate_if_complete scholar course d =
      if is_course_complete scholar course d
      then metadata_pinned scholar course (w.pin scholar course) d
      else d

  unfoldable pub record_activity : ℕ → String → Desk → Desk
  record_activity now scholar d = record d {
    streaks =
        (record_milestone_activity w.read_day now w.today (w.mints scholar) scholar d.streaks).1;
  }

  -- What follows the contract's answer when one report, or one of a batch, is approved.
  unfoldable pub approve_report : ℕ → String → MilestoneReport → Option String → Desk → Desk
  approve_report now validator r tx d =
      let verified : Desk = record d { verified = r.id ∷ d.verified } in
      let stored = set_status r.id MilestoneReportStatus.approved verified in
      let active =
        record_activity now r.scholar_address
          (mark_activity now r.scholar_address r.course_id stored) in
      mint_certificate_if_complete r.scholar_address r.course_id
        (add_audit now r.id validator MilestoneAuditDecision.approved none tx active)

  -- The same for a rejection.
  unfoldable pub reject_report : ℕ → String → String → MilestoneReport → Option String → Desk → Desk
  reject_report now validator reason r tx d =
      let emitted : Desk = record d { rejections = r.id ∷ d.rejections } in
      let stored = set_status r.id MilestoneReportStatus.rejected emitted in
      add_audit now r.id validator MilestoneAuditDecision.rejected (some reason) tx
        (mark_activity now r.scholar_address r.course_id stored)

  unfoldable pub qualify_referral : ℕ → String → Desk → Desk
  qualify_referral now scholar d = record d {
    referrals =
        qualify_referral_if_first_milestone w.mints now
          (length (filter (is_approved_of scholar) d.store.reports)) scholar d.referrals;
  }

  -- `tranches_released < tranches ORDER BY created_at DESC LIMIT 1`
  abbrev pub has_tranche : String → TrancheEscrow → Bool
  has_tranche scholar e = str_eq e.scholar_address scholar && ltb e.tranches_released e.tranches

  abbrev pub latest : List TrancheEscrow → Option TrancheEscrow
  latest rows = first (sort_desc (λ (e : TrancheEscrow). e.created_at) rows)

  abbrev pub tranche_released : TrancheEscrow → Option (Option String) → Desk → Desk
  tranche_released e none d = d
  tranche_released e (some tx) d = record d {
    escrows =
        update (λ (x : TrancheEscrow). x.id == e.id)
          (λ x. record x { tranches_released = x.tranches_released + 1 }) d.escrows;
    released =
        d.released
        ++ record { proposal_id = e.proposal_id; scholar_address = e.scholar_address; tx_hash = tx }
          ∷ [];
  }

  abbrev pub release_from : Option TrancheEscrow → Desk → Desk
  release_from none d = d
  release_from (some e) d = tranche_released e (w.release e.proposal_id) d

  unfoldable pub release_next_tranche : String → Desk → Desk
  release_next_tranche scholar d = release_from (latest (filter (has_tranche scholar) d.escrows)) d

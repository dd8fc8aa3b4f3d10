-- ===== src/Escrow/Status.antt =====
-- What a scholar is shown of the escrows (server/src/services/escrow-timeout.service.ts). Moments stay
-- numbers where the source prints them as ISO texts.
use learnvault.Prelude.{ℕ, ◌+◌, ◌*◌, String, Option, List, map, filter, str_eq}
use learnvault.Prelude.Int.{ℤ}
use learnvault.Prelude.Sort.{sort_desc}
use learnvault.Escrow.Store.{day_ms, EscrowStatus, EscrowTimeoutRow, Db, compute_days_remaining}

pub record EscrowTimeoutStatus : Type 0 where
  pub proposal_id : ℕ
  pub scholar_address : String
  pub course_id : Option String
  pub days_remaining : ℤ
  pub inactivity_window_days : ℕ
  pub last_activity_at : ℕ
  pub deadline_at : ℕ
  pub reminder_sent_at : Option ℕ
  pub status : EscrowStatus

abbrev pub to_status : ℕ → EscrowTimeoutRow → EscrowTimeoutStatus
to_status now r = record {
  proposal_id = r.proposal_id;
  scholar_address = r.scholar_address;
  course_id = r.course_id;
  days_remaining = compute_days_remaining now r.last_activity_at r.inactivity_window_days;
  inactivity_window_days = r.inactivity_window_days;
  last_activity_at = r.last_activity_at;
  deadline_at = r.last_activity_at + r.inactivity_window_days * day_ms;
  reminder_sent_at = r.reminder_sent_at;
  status = r.status;
}

-- The latest activity first.
unfoldable pub list_escrow_timeouts_for_scholar : ℕ → String → Db → List EscrowTimeoutStatus
list_escrow_timeouts_for_scholar now a db =
    map (to_status now)
      (sort_desc (λ r. r.last_activity_at) (filter (λ r. str_eq r.scholar_address a) db.rows))

-- ===== src/Escrow/Store.antt =====
-- Escrow timeouts (server/src/services/escrow-timeout.service.ts): the table escrow_timeouts, what is
-- recorded in platform_events, and a pass of the worker. The contract, the mail service, the table of
-- votes and the clock are the parameters of a pass; a window is a number of days that is not negative.
use learnvault.Prelude.{
  ℕ, ◌+◌, ◌-◌, ◌*◌, ◌/◌, String, Option, none, some, List, [], ◌∷◌, ◌++◌, map, Bool, true, false,
  not, ◌&&◌, leb, ◌==◌, str_eq, if◌then◌else◌, filter, any,
}
use learnvault.Prelude.Rows.{update}
use learnvault.Prelude.Int.{ℤ, pos, ◌-ℤ◌, ltb_ℤ}

abbrev pub day_ms : ℕ
day_ms = 24 * 60 * 60 * 1000

abbrev pub reminder_threshold_days : ℕ
reminder_threshold_days = 7

pub data EscrowStatus : Type 0 where
  active reclaimed : EscrowStatus

pub record EscrowTimeoutRow : Type 0 where
  pub proposal_id : ℕ
  pub scholar_address : String
  pub scholar_email : Option String
  pub course_id : Option String
  pub inactivity_window_days : ℕ
  pub last_activity_at : ℕ
  pub status : EscrowStatus
  pub reminder_sent_at : Option ℕ
  pub reclaimed_at : Option ℕ
  pub last_check_at : Option ℕ
  pub reclaim_tx_hash : Option String

pub data RecipientType : Type 0 where
  scholar donor : RecipientType

-- The two types of event that this service records, with their data.
pub data PlatformEvent : Type 0 where
  escrow_timeout_warning : ℕ → String → Option String → ℤ → RecipientType → String → PlatformEvent
  escrow_reclaimed : ℕ → String → Option String → String → PlatformEvent

pub record Db : Type 0 where
  pub rows : List EscrowTimeoutRow
  pub events : List PlatformEvent

-- What a pass meets: the moment at which it reaches a proposal, the hash that the contract answers or
-- none where the call throws, what `sendNotification` does with a mail (none where it throws, false where the
-- mail is not delivered), and the voters of a proposal.
pub record World : Type 0 where
  pub clock : ℕ → ℕ
  pub reclaim : ℕ → Option String
  pub send_notification : String → Option Bool
  pub voters : ℕ → List String

-- Math.ceil((deadline - now) / DAY_MS)
unfoldable pub compute_days_remaining : ℕ → ℕ → ℕ → ℤ
compute_days_remaining now last_activity_at window_days =
    let deadline = last_activity_at + window_days * day_ms in
    if leb now deadline
    then pos ((deadline - now + (day_ms - 1)) / day_ms)
    else pos 0 -ℤ pos ((now - deadline) / day_ms)

abbrev pub is_active : EscrowStatus → Bool
is_active active = true
is_active reclaimed = false

abbrev pub has_id : ℕ → EscrowTimeoutRow → Bool
has_id id r = r.proposal_id == id

-- `ORDER BY last_activity_at ASC`
abbrev pub insert_asc : EscrowTimeoutRow → List EscrowTimeoutRow → List EscrowTimeoutRow
insert_asc r [] = r ∷ []
insert_asc r (s ∷ rows) =
    let rest = insert_asc r rows in
    if leb r.last_activity_at s.last_activity_at then r ∷ s ∷ rows else s ∷ rest

abbrev pub by_activity : List EscrowTimeoutRow → List EscrowTimeoutRow
by_activity [] = []
by_activity (r ∷ rows) = insert_asc r (by_activity rows)

abbrev pub or_old : {A : Type 0} → Option A → Option A → Option A
or_old none old = old
or_old (some new) old = some new

pub record TrackInput : Type 0 where
  pub proposal_id : ℕ
  pub scholar_address : String
  pub scholar_email : Option String
  pub course_id : Option String
  pub inactivity_window_days : Option ℕ

abbrev pub window_of : Option ℕ → ℕ
window_of none = 30
window_of (some days) = days

abbrev pub new_timeout : ℕ → TrackInput → EscrowTimeoutRow
new_timeout now input = record {
  proposal_id = input.proposal_id;
  scholar_address = input.scholar_address;
  scholar_email = input.scholar_email;
  course_id = input.course_id;
  inactivity_window_days = window_of input.inactivity_window_days;
  last_activity_at = now;
  status = active;
  reminder_sent_at = none;
  reclaimed_at = none;
  last_check_at = none;
  reclaim_tx_hash = none;
}

-- `ON CONFLICT (proposal_id) DO UPDATE`
abbrev pub tracked : ℕ → TrackInput → EscrowTimeoutRow → EscrowTimeoutRow
tracked now input r = record r {
  scholar_address = input.scholar_address;
  scholar_email = or_old input.scholar_email r.scholar_email;
  course_id = or_old input.course_id r.course_id;
  inactivity_window_days = window_of input.inactivity_window_days;
  last_activity_at = now;
  status = active;
  reclaimed_at = none;
  reclaim_tx_hash = none;
}

unfoldable pub track_escrow_timeout : ℕ → TrackInput → Db → Db
track_escrow_timeout now input db =
    if any (has_id input.proposal_id) db.rows
    then record db { rows = update (has_id input.proposal_id) (tracked now input) db.rows }
    else record db { rows = db.rows ++ new_timeout now input ∷ [] }

abbrev is_course : String → Option String → Bool
is_course course none = false
is_course course (some c) = str_eq c course

abbrev pub is_escrow_of : String → String → EscrowTimeoutRow → Bool
is_escrow_of a course r =
    str_eq r.scholar_address a && is_course course r.course_id && is_active r.status

abbrev pub resumed : ℕ → EscrowTimeoutRow → EscrowTimeoutRow
resumed now r = record r { last_activity_at = now; reminder_sent_at = none; status = active }

unfoldable pub mark_escrow_activity : ℕ → String → String → Db → Db
mark_escrow_activity now a course db = record db {
  rows = update (is_escrow_of a course) (resumed now) db.rows;
}

abbrev pub is_reminded : Option ℕ → Bool
is_reminded none = false
is_reminded (some at) = true

-- What the three updates of a pass set.
abbrev pub reclaimed_row : ℕ → String → EscrowTimeoutRow → EscrowTimeoutRow
reclaimed_row now tx r = record r {
  status = reclaimed;
  reclaimed_at = some now;
  last_check_at = some now;
  reclaim_tx_hash = some tx;
}

abbrev pub reminded_row : ℕ → EscrowTimeoutRow → EscrowTimeoutRow
reminded_row now r = record r { reminder_sent_at = some now; last_check_at = some now }

abbrev pub checked_row : ℕ → EscrowTimeoutRow → EscrowTimeoutRow
checked_row now r = record r { last_check_at = some now }

abbrev pub reclaim_expired_escrow : ℕ → EscrowTimeoutRow → Option String → Db → Db
reclaim_expired_escrow now r none db = db
reclaim_expired_escrow now r (some tx) db = record db {
  rows = update (has_id r.proposal_id) (reclaimed_row now tx) db.rows;
  events = db.events ++ escrow_reclaimed r.proposal_id r.scholar_address r.course_id tx ∷ [];
}

abbrev pub warning : EscrowTimeoutRow → ℤ → RecipientType → String → PlatformEvent
warning r days kind a =
    escrow_timeout_warning r.proposal_id r.scholar_address r.course_id days kind a

abbrev pub warnings : EscrowTimeoutRow → ℤ → List String → List PlatformEvent
warnings r days voters =
    warning r days scholar r.scholar_address ∷ map (warning r days donor) voters

abbrev pub returns : Option Bool → Bool
returns none = false
returns (some delivered) = true

-- The pass does not look at what the mail service answers.
abbrev pub is_mailed : World → Option String → Bool
is_mailed w none = true
is_mailed w (some email) = returns (w.send_notification email)

-- `notifyEscrowTimeoutWarning` and the update after it, where the call of the mail service returns.
abbrev pub remind : World → ℕ → ℤ → EscrowTimeoutRow → Db → Db
remind w now days r db =
    if is_mailed w r.scholar_email
    then record db {
      rows = update (has_id r.proposal_id) (reminded_row now) db.rows;
      events = db.events ++ warnings r days (w.voters r.proposal_id);
    }
    else db

unfoldable pub process_row : World → EscrowTimeoutRow → Db → Db
process_row w r db =
    let now = w.clock r.proposal_id in
    let days = compute_days_remaining now r.last_activity_at r.inactivity_window_days in
    if not (ltb_ℤ (pos 0) days)
    then reclaim_expired_escrow now r (w.reclaim r.proposal_id) db
    else if not (ltb_ℤ (pos reminder_threshold_days) days) && not (is_reminded r.reminder_sent_at)
    then remind w now days r db
    else record db { rows = update (has_id r.proposal_id) (checked_row now) db.rows }

abbrev pub process_rows : World → List EscrowTimeoutRow → Db → Db
process_rows w [] db = db
process_rows w (r ∷ rows) db = process_rows w rows (process_row w r db)

-- The rows are read once, at the start of the pass.
unfoldable pub process_escrow_timeouts : World → Db → Db
process_escrow_timeouts w db =
    process_rows w (by_activity (filter (λ r. is_active r.status) db.rows)) db

-- ===== src/Escrow/Tests.antt =====
-- A pass over three escrows of one window of 30 days.
use learnvault.Prelude.{
  List, suc, ◌≤◌, ℕ, ◌*◌, ◌≡◌, refl, none, some, [], ◌∷◌, map, All, true, arith,
}
use learnvault.Prelude.Int.{negsuc, pos, ◌-ℤ◌}
use learnvault.Escrow.Store.{
  day_ms, EscrowTimeoutRow, World, Db, TrackInput, process_row, process_escrow_timeouts,
  compute_days_remaining, track_escrow_timeout, mark_escrow_activity, escrow_timeout_warning,
  escrow_reclaimed, scholar, donor, active,
}
use learnvault.Escrow.Status.{list_escrow_timeouts_for_scholar}
use learnvault.Escrow.Reminders.{reminders}
use learnvault.Escrow.Once.{
  Call, pass, track, activity, run, activities, no_escrows, reminders-le-activities,
}
use learnvault.Escrow.Deadlines.{IsTimely, process-IsTimely}

abbrev input : ℕ → TrackInput
input id = record {
  proposal_id = id;
  scholar_address = "GA";
  scholar_email = some "a@b";
  course_id = some "c1";
  inactivity_window_days = none;
}

abbrev empty : Db
empty = record { rows = []; events = [] }

-- Proposal 3 on day 20, then 1 on day 0 and 2 on day 5.
abbrev db : Db
db =
    track_escrow_timeout (5 * day_ms) (input 2)
      (track_escrow_timeout 0 (input 1) (track_escrow_timeout (20 * day_ms) (input 3) empty))

-- A pass on day 31.
abbrev world : World
world = record {
  clock = λ id. 31 * day_ms;
  reclaim = λ id. some "tx";
  send_notification = λ email. some true;
  voters = λ id. "GV" ∷ [];
}

escrow_tests : Unit {0}
unfolding track_escrow_timeout mark_escrow_activity process_row process_escrow_timeouts
    compute_days_remaining ◌-ℤ◌
escrow_tests = tt

events_test :
    (process_escrow_timeouts world db).events
    ≡ escrow_reclaimed 1 "GA" (some "c1") "tx"
      ∷ escrow_timeout_warning 2 "GA" (some "c1") (pos 4) scholar "GA"
      ∷ escrow_timeout_warning 2 "GA" (some "c1") (pos 4) donor "GV"
      ∷ []
unfolding escrow_tests
events_test = refl

resumed_test :
    (process_escrow_timeouts world (mark_escrow_activity (30 * day_ms) "GA" "c1" db)).events ≡ []
unfolding escrow_tests
resumed_test = refl

process-IsTimely_example : All (IsTimely world) (process_escrow_timeouts world db).rows
unfolding escrow_tests
process-IsTimely_example =
    process-IsTimely world db
      (
        ((λ e. absurd (omega arith)), ((λ e. absurd (omega arith)), tt)),
        (((λ e. absurd (omega arith)), tt), (tt, tt)),
      )
      (λ id. ("tx", refl))

-- Escrow 2 after its reminder.
abbrev reminded : EscrowTimeoutRow
reminded = record {
  proposal_id = 2;
  scholar_address = "GA";
  scholar_email = none;
  course_id = none;
  inactivity_window_days = 30;
  last_activity_at = 0;
  status = active;
  reminder_sent_at = some (25 * day_ms);
  reclaimed_at = none;
  last_check_at = none;
  reclaim_tx_hash = none;
}

-- Two passes on day 31, activity stored for day 6, and a third pass.
abbrev history : List Call
history =
    track (5 * day_ms) (input 2)
    ∷ pass world
    ∷ pass world
    ∷ activity (6 * day_ms) "GA" "c1"
    ∷ pass world
    ∷ []

reminders_test : reminders 2 (run history no_escrows).events ≡ 2
unfolding escrow_tests
reminders_test = refl

reminders-le-activities_example :
    reminders 2 (run history no_escrows).events ≤ suc (activities history)
reminders-le-activities_example = reminders-le-activities 2 history

status_test :
    map (λ t. t.days_remaining) (list_escrow_timeouts_for_scholar (31 * day_ms) "GA" db)
    ≡ pos 19 ∷ pos 4 ∷ negsuc 0 ∷ []
unfolding escrow_tests list_escrow_timeouts_for_scholar
status_test = refl

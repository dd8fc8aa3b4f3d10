-- ===== src/Escrow/Reminders.antt =====
-- How often the scholar of an escrow is reminded (server/src/services/escrow-timeout.service.ts).
use learnvault.Prelude.{
  ℕ, suc, ◌+◌, ◌*◌, ◌≡◌, refl, ap, ◌∙◌, String, Option, none, some, List, [], ◌∷◌, ◌++◌, map, Bool,
  false, not, ◌&&◌, leb, ◌==◌, filter, length, length-append, filter-append, Bool-cases, inl, inr,
  if◌then◌else◌, arith,
}
use learnvault.Prelude.Int.{ℤ}
use learnvault.Escrow.Store.{
  day_ms, EscrowTimeoutRow, PlatformEvent, escrow_timeout_warning, escrow_reclaimed, scholar, donor,
  World, Db, compute_days_remaining, is_active, has_id, by_activity, insert_asc, is_reminded,
  is_mailed, warning, warnings, reclaim_expired_escrow, remind, process_row, process_rows,
  process_escrow_timeouts,
}
use learnvault.Escrow.Row.{days-expired, days-near}

abbrev pub one_if : Bool → ℕ
one_if b = if b then 1 else 0

-- A warning of a proposal that is for its scholar.
abbrev is_reminder : ℕ → PlatformEvent → Bool
is_reminder p (escrow_timeout_warning id a course days scholar to) = id == p
is_reminder p (escrow_timeout_warning id a course days donor to) = false
is_reminder p (escrow_reclaimed id a course tx) = false

abbrev pub reminders : ℕ → List PlatformEvent → ℕ
reminders p events = length (filter (is_reminder p) events)

reminders-append :
    (p : ℕ) (xs ys : List PlatformEvent) → reminders p (xs ++ ys) ≡ reminders p xs + reminders p ys
reminders-append p xs ys =
    ap length (filter-append (is_reminder p) xs ys)
    ∙ length-append (filter (is_reminder p) xs) (filter (is_reminder p) ys)

donors_only :
    (p : ℕ) (r : EscrowTimeoutRow) (days : ℤ) (voters : List String)
    → reminders p (map (warning r days donor) voters) ≡ 0
donors_only p r days [] = refl
donors_only p r days (v ∷ voters) = donors_only p r days voters

reminders-warnings :
    (p : ℕ) (r : EscrowTimeoutRow) (days : ℤ) (voters : List String)
    → reminders p (warnings r days voters) ≡ one_if (has_id p r)
reminders-warnings p r days voters = elim (Bool-cases (has_id p r)) [
  | inl e ↦ rw e (ap suc (donors_only p r days voters))
  | inr e ↦ rw e (donors_only p r days voters)
]

-- Whether a visit reminds.
abbrev pub reminds : World → EscrowTimeoutRow → Bool
reminds w r =
    let now = w.clock r.proposal_id in
    let deadline = r.last_activity_at + r.inactivity_window_days * day_ms in
    not (leb deadline now)
    && (leb deadline (now + 7 * day_ms)
        && (not (is_reminded r.reminder_sent_at) && is_mailed w r.scholar_email))

reminders-reclaim :
    (p now : ℕ) (r : EscrowTimeoutRow) (answer : Option String) (db : Db)
    → reminders p (reclaim_expired_escrow now r answer db).events ≡ reminders p db.events
reminders-reclaim p now r none db = refl
reminders-reclaim p now r (some tx) db =
    reminders-append p db.events
      (escrow_reclaimed r.proposal_id r.scholar_address r.course_id tx ∷ [])
    ∙ (omega arith)

reminders-remind :
    (p : ℕ) (w : World) (now : ℕ) (days : ℤ) (r : EscrowTimeoutRow) (db : Db)
    → reminders p (remind w now days r db).events
      ≡ reminders p db.events + one_if (is_mailed w r.scholar_email && has_id p r)
reminders-remind p w now days r db = elim (Bool-cases (is_mailed w r.scholar_email)) [
  | inl e ↦ rw e (
      reminders-append p db.events (warnings r days (w.voters r.proposal_id))
      ∙ ap (λ n. reminders p db.events + n) (reminders-warnings p r days (w.voters r.proposal_id)))
  | inr e ↦ rw e (omega arith)
]

-- Whether a visit reminds the scholar of a proposal.
abbrev reminds_of : ℕ → World → EscrowTimeoutRow → Bool
reminds_of p w r = reminds w r && has_id p r

reminders-process_row :
    (p : ℕ) (w : World) (r : EscrowTimeoutRow) (db : Db)
    → reminders p (process_row w r db).events ≡ reminders p db.events + one_if (reminds_of p w r)
unfolding process_row
reminders-process_row p w r db =
    let now = w.clock r.proposal_id in
    let days = compute_days_remaining now r.last_activity_at r.inactivity_window_days in
    let expired = days-expired now r.last_activity_at r.inactivity_window_days in
    let near = days-near now r.last_activity_at r.inactivity_window_days in
    let deadline = r.last_activity_at + r.inactivity_window_days * day_ms in
    elim (Bool-cases (leb deadline now)) [
      | inl e ↦
          rw (expired, e) (reminders-reclaim p now r (w.reclaim r.proposal_id) db ∙ (omega arith))
      | inr e ↦ elim (Bool-cases (leb deadline (now + 7 * day_ms))) [
        | inr far ↦ rw (expired, e, near, far) (omega arith)
        | inl close ↦ elim (Bool-cases (is_reminded r.reminder_sent_at)) [
          | inl again ↦ rw (expired, e, near, close, again) (omega arith)
          | inr first ↦ rw (expired, e, near, close, first) (reminders-remind p w now days r db)
        ]
      ]
    ]

abbrev pub sum_reminds : ℕ → World → List EscrowTimeoutRow → ℕ
sum_reminds p w [] = 0
sum_reminds p w (r ∷ rows) = one_if (reminds_of p w r) + sum_reminds p w rows

reminders-process_rows :
    (p : ℕ) (w : World) (rows : List EscrowTimeoutRow) (db : Db)
    → reminders p (process_rows w rows db).events ≡ reminders p db.events + sum_reminds p w rows
reminders-process_rows p w [] db = omega arith
reminders-process_rows p w (r ∷ rows) db =
    reminders-process_rows p w rows (process_row w r db)
    ∙ omega (arith, reminders-process_row p w r db)

sum-insert :
    (p : ℕ) (w : World) (r : EscrowTimeoutRow) (rows : List EscrowTimeoutRow)
    → sum_reminds p w (insert_asc r rows) ≡ one_if (reminds_of p w r) + sum_reminds p w rows
sum-insert p w r [] = refl
sum-insert p w r (s ∷ rows) = elim (Bool-cases (leb r.last_activity_at s.last_activity_at)) [
  | inl e ↦ rw e refl
  | inr e ↦ rw e (omega (arith, sum-insert p w r rows))
]

sum-sort :
    (p : ℕ) (w : World) (rows : List EscrowTimeoutRow)
    → sum_reminds p w (by_activity rows) ≡ sum_reminds p w rows
sum-sort p w [] = refl
sum-sort p w (r ∷ rows) =
    sum-insert p w r (by_activity rows)
    ∙ ap (λ n. one_if (reminds_of p w r) + n) (sum-sort p w rows)

pub reminders-process :
    (p : ℕ) (w : World) (db : Db)
    → reminders p (process_escrow_timeouts w db).events
      ≡ reminders p db.events + sum_reminds p w (filter (λ r. is_active r.status) db.rows)
unfolding process_escrow_timeouts
reminders-process p w db =
    reminders-process_rows p w (by_activity (filter (λ r. is_active r.status) db.rows)) db
    ∙ ap (λ n. reminders p db.events + n) (sum-sort p w (filter (λ r. is_active r.status) db.rows))

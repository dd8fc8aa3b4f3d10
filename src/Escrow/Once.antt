-- ===== src/Escrow/Once.antt =====
-- Reminders over a history of calls (server/src/services/escrow-timeout.service.ts).
use learnvault.Prelude.{
  ℕ, suc, ◌+◌, ◌≤◌, ◌≡◌, ◌≢◌, refl, sym, ap, String, List, [], ◌∷◌, ◌++◌, Bool, true, false, not,
  ◌||◌, any, All, Bool-cases, inl, inr, arith,
}
use mathlib.Core.Path.{subst}
use learnvault.Prelude.Rows.{update, change, DistinctBy, DistinctBy-map, DistinctBy-append}
use learnvault.Escrow.Store.{
  EscrowTimeoutRow, World, Db, TrackInput, has_id, tracked, new_timeout, track_escrow_timeout,
  is_escrow_of, resumed, mark_escrow_activity, process_escrow_timeouts,
}
use learnvault.Escrow.Row.{after_pass}
use learnvault.Escrow.Pass.{process-after_pass}
use learnvault.Escrow.Reminders.{one_if, reminders, reminders-process}
use learnvault.Escrow.Spare.{has_reminded, spare, and_false, after_pass-id, pass_spare}

-- A pass of the worker, tracking an escrow, and activity of a scholar in a course.
pub data Call : Type 0 where
  pass : World → Call
  track : ℕ → TrackInput → Call
  activity : ℕ → String → String → Call

abbrev pub step : Call → Db → Db
step (pass w) db = process_escrow_timeouts w db
step (track now input) db = track_escrow_timeout now input db
step (activity now a course) db = mark_escrow_activity now a course db

-- The earliest call first.
abbrev pub run : List Call → Db → Db
run [] db = db
run (c ∷ cs) db = run cs (step c db)

abbrev pub activities : List Call → ℕ
activities [] = 0
activities (pass w ∷ cs) = activities cs
activities (track now input ∷ cs) = activities cs
activities (activity now a course ∷ cs) = suc (activities cs)

abbrev Distinct : Db → Type 0
Distinct db = DistinctBy (λ r. r.proposal_id) db.rows

abbrev credit : ℕ → Db → ℕ
credit p db = reminders p db.events + spare p db.rows

no_escrow :
    (id : ℕ) (rows : List EscrowTimeoutRow)
    → any (has_id id) rows ≡ false
    → All (λ s. s.proposal_id ≢ id) rows
no_escrow id [] h = tt
no_escrow id (r ∷ rows) h = (ground (arith, h), no_escrow id rows (ground (arith, h)))

track-Distinct :
    (now : ℕ) (input : TrackInput) (db : Db)
    → Distinct db
    → Distinct (track_escrow_timeout now input db)
unfolding track_escrow_timeout
track-Distinct now input db d = elim (Bool-cases (any (has_id input.proposal_id) db.rows)) [
  | inl e ↦ rw e (
      DistinctBy-map (λ r. r.proposal_id) (change (has_id input.proposal_id) (tracked now input))
        (λ r. ground arith) db.rows d)
  | inr e ↦ rw e (
      DistinctBy-append (λ r. r.proposal_id) db.rows (new_timeout now input) d
        (no_escrow input.proposal_id db.rows e))
]

pass-Distinct : (w : World) (db : Db) → Distinct db → Distinct (process_escrow_timeouts w db)
pass-Distinct w db d =
    subst (DistinctBy (λ r. r.proposal_id)) (sym (process-after_pass w db d))
      (DistinctBy-map (λ r. r.proposal_id) (after_pass w) (after_pass-id w) db.rows d)

step-Distinct : (c : Call) (db : Db) → Distinct db → Distinct (step c db)
unfolding mark_escrow_activity
step-Distinct (pass w) db d = pass-Distinct w db d
step-Distinct (track now input) db d = track-Distinct now input db d
step-Distinct (activity now a course) db d =
    DistinctBy-map (λ r. r.proposal_id) (change (is_escrow_of a course) (resumed now))
      (λ r. elim (Bool-cases (is_escrow_of a course r)) [ inl e ↦ rw e refl | inr e ↦ rw e refl ])
      db.rows d

any-update :
    (p q : EscrowTimeoutRow → Bool) (f : EscrowTimeoutRow → EscrowTimeoutRow)
    (rows : List EscrowTimeoutRow)
    → ((r : EscrowTimeoutRow) → p (f r) ≡ p r)
    → any p (update q f rows) ≡ any p rows
any-update p q f [] h = refl
any-update p q f (r ∷ rows) h = elim (Bool-cases (q r)) [
  | inl e ↦ rw (e, h r, any-update p q f rows h) refl
  | inr e ↦ rw (e, any-update p q f rows h) refl
]

any-append-false :
    (p : EscrowTimeoutRow → Bool) (rows : List EscrowTimeoutRow) (r : EscrowTimeoutRow)
    → p r ≡ false
    → any p (rows ++ r ∷ []) ≡ any p rows
any-append-false p [] r h = rw h refl
any-append-false p (s ∷ rows) r h = ap (λ b. p s || b) (any-append-false p rows r h)

credit-track :
    (p now : ℕ) (input : TrackInput) (db : Db)
    → credit p (track_escrow_timeout now input db) ≡ credit p db
unfolding track_escrow_timeout
credit-track p now input db = elim (Bool-cases (any (has_id input.proposal_id) db.rows)) [
  | inl e ↦ rw e (
      ap (λ b. reminders p db.events + one_if (not b))
        (any-update (has_reminded p) (has_id input.proposal_id) (tracked now input) db.rows
          (λ r. refl)))
  | inr e ↦ rw e (
      ap (λ b. reminders p db.events + one_if (not b))
        (any-append-false (has_reminded p) db.rows (new_timeout now input)
          (and_false (has_id p (new_timeout now input)))))
]

credit-process :
    (p : ℕ) (w : World) (db : Db)
    → Distinct db
    → credit p (process_escrow_timeouts w db) ≤ credit p db
credit-process p w db d =
    rw (reminders-process p w db, process-after_pass w db d)
      (omega (arith, pass_spare p w db.rows d))

one_if_le : (b : Bool) → one_if b ≤ 1
one_if_le true = omega arith
one_if_le false = omega arith

credit-run :
    (p : ℕ) (cs : List Call) (db : Db)
    → Distinct db
    → credit p (run cs db) ≤ credit p db + activities cs
unfolding mark_escrow_activity
credit-run p [] db d = omega arith
credit-run p (pass w ∷ cs) db d = omega (
  arith,
  credit-run p cs (process_escrow_timeouts w db) (step-Distinct (pass w) db d),
  credit-process p w db d,
)
credit-run p (track now input ∷ cs) db d = omega (
  arith,
  credit-run p cs (track_escrow_timeout now input db) (step-Distinct (track now input) db d),
  credit-track p now input db,
)
credit-run p (activity now a course ∷ cs) db d = omega (
  arith,
  credit-run p cs (mark_escrow_activity now a course db)
      (step-Distinct (activity now a course) db d),
  one_if_le (not (any (has_reminded p) (mark_escrow_activity now a course db).rows)),
)

abbrev pub no_escrows : Db
no_escrows = record { rows = []; events = [] }

-- After any history of calls on empty tables, whatever passes meet, the scholar of a proposal has been
-- reminded at most once more often than activity was recorded.
pub reminders-le-activities :
    (p : ℕ) (cs : List Call) → reminders p (run cs no_escrows).events ≤ suc (activities cs)
reminders-le-activities p cs = omega (arith, credit-run p cs no_escrows tt)

-- ===== src/Escrow/Deadlines.antt =====
-- Deadlines of escrows after a pass, and the reminders after an escrow is tracked again
-- (server/src/services/escrow-timeout.service.ts).
use learnvault.Prelude.{
  ℕ, ◌+◌, ◌*◌, ◌<◌, ◌≡◌, refl, sym, ◌∙◌, String, Option, none, some, List, [], ◌∷◌, Bool, true,
  false, not, ◌&&◌, leb, All, All-map, Bool-cases, inl, inr, arith,
}
use mathlib.Core.Path.{subst}
use mathlib.Core.Bool.{false≢true}
use learnvault.Prelude.Int.{pos, ltb_ℤ}
use learnvault.Prelude.Rows.{DistinctBy}
use learnvault.Escrow.Store.{
  day_ms, EscrowTimeoutRow, World, Db, TrackInput, tracked, window_of, is_active, is_reminded,
  process_row, compute_days_remaining, process_escrow_timeouts,
}
use learnvault.Escrow.Row.{after_pass, after_visit, reclaimed_if, days-expired}
use learnvault.Escrow.Pass.{process-after_pass}

All-unit : (rows : List EscrowTimeoutRow) → All (λ r. Unit {0}) rows
All-unit [] = tt
All-unit (r ∷ rows) = (tt, All-unit rows)

and_false : (b : Bool) → (b && false) ≡ false
and_false true = refl
and_false false = refl

-- When the pass reaches it, the escrow is over or its deadline is ahead.
abbrev pub IsTimely : World → EscrowTimeoutRow → Type 0
IsTimely w r =
    is_active r.status ≡ true
    → w.clock r.proposal_id < r.last_activity_at + r.inactivity_window_days * day_ms

reclaimed_if-IsTimely :
    (w : World) (now : ℕ) (answer : Option String) (tx : String) (r : EscrowTimeoutRow)
    → answer ≡ some tx
    → IsTimely w (reclaimed_if now answer r)
reclaimed_if-IsTimely w now none tx r e = absurd (cc)
reclaimed_if-IsTimely w now (some other) tx r e = λ running. absurd (false≢true running)

after_visit-IsTimely :
    (w : World) (r : EscrowTimeoutRow) (tx : String)
    → w.reclaim r.proposal_id ≡ some tx
    → IsTimely w (after_visit w r r)
after_visit-IsTimely w r tx e =
    ground (arith, reclaimed_if-IsTimely w (w.clock r.proposal_id) (w.reclaim r.proposal_id) tx r e)

after_pass-IsTimely :
    (w : World) (r : EscrowTimeoutRow) (tx : String)
    → w.reclaim r.proposal_id ≡ some tx
    → IsTimely w (after_pass w r)
after_pass-IsTimely w r tx e = elim (Bool-cases (is_active r.status)) [
  | inl running ↦
      let visited : after_visit w r r ≡ after_pass w r = rw running refl in
      subst (IsTimely w) visited (after_visit-IsTimely w r tx e)
  | inr over ↦
      let kept : r ≡ after_pass w r = rw over refl in
      subst (IsTimely w) kept (λ running. absurd (false≢true (sym over ∙ running)))
]

-- Where no two escrows are of one proposal and the contract answers for each, a pass leaves no active
-- escrow whose deadline had come when the pass reached it.
pub process-IsTimely :
    (w : World) (db : Db)
    → DistinctBy (λ r. r.proposal_id) db.rows
    → ((id : ℕ) → (tx : String) × (w.reclaim id ≡ some tx))
    → All (IsTimely w) (process_escrow_timeouts w db).rows
process-IsTimely w db d answers = subst (All (IsTimely w)) (sym (process-after_pass w db d)) (
    All-map (λ r. Unit {0}) (IsTimely w) (after_pass w) db.rows
      (λ r _. let answer = answers r.proposal_id in after_pass-IsTimely w r answer.0 answer.1)
      (All-unit db.rows))

-- Where an escrow that was reminded before is tracked again, a pass that reaches it while its new
-- deadline is ahead records no event, whatever days are left.
pub process_row-tracked :
    (w : World) (now : ℕ) (input : TrackInput) (r : EscrowTimeoutRow) (db : Db)
    → is_reminded r.reminder_sent_at ≡ true
    → w.clock r.proposal_id < now + window_of input.inactivity_window_days * day_ms
    → (process_row w (tracked now input r) db).events ≡ db.events
unfolding process_row
process_row-tracked w now input r db reminded ahead =
    let at = w.clock r.proposal_id in
    let window = window_of input.inactivity_window_days in
    let expired = days-expired at now window in
    let running : leb (now + window * day_ms) at ≡ false = ground arith in
    let quiet = and_false (not (ltb_ℤ (pos 7) (compute_days_remaining at now window))) in
    rw (expired, running, reminded, quiet) refl

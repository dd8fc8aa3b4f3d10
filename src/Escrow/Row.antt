-- ===== src/Escrow/Row.antt =====
-- What a visit to one escrow does to its row (server/src/services/escrow-timeout.service.ts).
use learnvault.Prelude.{
  ℕ, ◌+◌, ◌*◌, ◌≡◌, refl, sym, String, Option, none, some, List, [], ◌∷◌, Bool, not, ◌&&◌, leb,
  if◌then◌else◌, Bool-cases, inl, inr, arith,
}
use learnvault.Prelude.Rows.{update}
use learnvault.Prelude.Int.{ℤ, pos, ltb_ℤ, ◌-ℤ◌}
use learnvault.Escrow.Store.{
  day_ms, EscrowTimeoutRow, World, Db, compute_days_remaining, is_active, has_id, is_reminded,
  is_mailed, reclaimed_row, reminded_row, checked_row, reclaim_expired_escrow, remind, process_row,
}

-- The days that remain are not positive exactly from the deadline on.
pub days-expired :
    (now last window : ℕ)
    → not (ltb_ℤ (pos 0) (compute_days_remaining now last window))
      ≡ leb (last + window * day_ms) now
unfolding compute_days_remaining ◌-ℤ◌
days-expired now last window = ground arith

pub days-near :
    (now last window : ℕ)
    → not (ltb_ℤ (pos 7) (compute_days_remaining now last window))
      ≡ leb (last + window * day_ms) (now + 7 * day_ms)
unfolding compute_days_remaining ◌-ℤ◌
days-near now last window = ground arith

-- What a pass makes of a row, by its deadline: an active escrow past it is reclaimed if the contract
-- answers; one that ends within 7 days and has had no reminder is reminded, if its mail can be sent;
-- any other active one is marked as checked.
abbrev pub reclaimed_if : ℕ → Option String → EscrowTimeoutRow → EscrowTimeoutRow
reclaimed_if now none r = r
reclaimed_if now (some tx) r = reclaimed_row now tx r

abbrev pub after_visit : World → EscrowTimeoutRow → EscrowTimeoutRow → EscrowTimeoutRow
after_visit w seen r =
    let now = w.clock seen.proposal_id in
    let deadline = seen.last_activity_at + seen.inactivity_window_days * day_ms in
    if leb deadline now
    then reclaimed_if now (w.reclaim seen.proposal_id) r
    else if leb deadline (now + 7 * day_ms) && not (is_reminded seen.reminder_sent_at)
    then (if is_mailed w seen.scholar_email then reminded_row now r else r)
    else checked_row now r

abbrev pub after_pass : World → EscrowTimeoutRow → EscrowTimeoutRow
after_pass w r = if is_active r.status then after_visit w r r else r

update-same :
    (p : EscrowTimeoutRow → Bool) (rows : List EscrowTimeoutRow) → update p (λ r. r) rows ≡ rows
update-same p [] = refl
update-same p (r ∷ rows) = ground (arith, update-same p rows)

reclaim-rows :
    (now : ℕ) (r : EscrowTimeoutRow) (answer : Option String) (db : Db)
    → (reclaim_expired_escrow now r answer db).rows
      ≡ update (has_id r.proposal_id) (reclaimed_if now answer) db.rows
reclaim-rows now r none db = sym (update-same (has_id r.proposal_id) db.rows)
reclaim-rows now r (some tx) db = refl

remind-rows :
    (w : World) (now : ℕ) (days : ℤ) (r : EscrowTimeoutRow) (db : Db)
    → (remind w now days r db).rows
      ≡ update
          (has_id r.proposal_id)
          (λ s. if is_mailed w r.scholar_email then reminded_row now s else s)
          db.rows
remind-rows w now days r db = elim (Bool-cases (is_mailed w r.scholar_email)) [
  | inl e ↦ rw e refl
  | inr e ↦ rw e (sym (update-same (has_id r.proposal_id) db.rows))
]

pub process_row-rows :
    (w : World) (r : EscrowTimeoutRow) (db : Db)
    → (process_row w r db).rows ≡ update (has_id r.proposal_id) (λ s. after_visit w r s) db.rows
unfolding process_row
process_row-rows w r db =
    let now = w.clock r.proposal_id in
    let days = compute_days_remaining now r.last_activity_at r.inactivity_window_days in
    let expired = days-expired now r.last_activity_at r.inactivity_window_days in
    let near = days-near now r.last_activity_at r.inactivity_window_days in
    let deadline = r.last_activity_at + r.inactivity_window_days * day_ms in
    elim (Bool-cases (leb deadline now)) [
      | inl e ↦ rw (expired, e) (reclaim-rows now r (w.reclaim r.proposal_id) db)
      | inr e ↦
          rw (expired, e, near)
            (elim (Bool-cases
              (leb deadline (now + 7 * day_ms) && not (is_reminded r.reminder_sent_at))) [
                | inl due ↦ rw due (remind-rows w now days r db)
                | inr quiet ↦ rw quiet refl
              ])
    ]

-- ===== src/Escrow/Spare.antt =====
-- A pass uses up the one reminder that an escrow has left
-- (server/src/services/escrow-timeout.service.ts).
use learnvault.Prelude.{
  ℕ, ◌+◌, ◌≤◌, ◌≡◌, ◌≢◌, refl, ap, ◌∙◌, String, Option, none, some, List, [], ◌∷◌, map, Bool, true,
  false, not, ◌&&◌, ◌||◌, ◌==◌, ==_iff, any, filter, All, All-map, Bool-cases, inl, inr, or_false,
  arith,
}
use mathlib.Core.Path.{subst}
use learnvault.Prelude.Rows.{DistinctBy}
use learnvault.Escrow.Store.{EscrowTimeoutRow, World, is_active, has_id, is_reminded}
use learnvault.Escrow.Row.{after_pass, reclaimed_if}
use learnvault.Escrow.Pass.{after_visit-id}
use learnvault.Escrow.Reminders.{one_if, reminds, sum_reminds}

-- Whether the escrow of a proposal has had its reminder.
abbrev pub has_reminded : ℕ → EscrowTimeoutRow → Bool
has_reminded p r = has_id p r && is_reminded r.reminder_sent_at

abbrev pub spare : ℕ → List EscrowTimeoutRow → ℕ
spare p rows = one_if (not (any (has_reminded p) rows))

abbrev due : World → EscrowTimeoutRow → Bool
due w r = is_active r.status && reminds w r

-- The first row's share of a pass.
sum-active :
    (p : ℕ) (w : World) (r : EscrowTimeoutRow) (rows : List EscrowTimeoutRow)
    → sum_reminds p w (filter (λ r. is_active r.status) (r ∷ rows))
      ≡ one_if (due w r && has_id p r) + sum_reminds p w (filter (λ r. is_active r.status) rows)
sum-active p w r rows = elim (Bool-cases (is_active r.status)) [
  | inl e ↦ rw e refl
  | inr e ↦ rw e (omega arith)
]

pub and_false : (b : Bool) → (b && false) ≡ false
and_false true = refl
and_false false = refl

no_reminds :
    (p : ℕ) (w : World) (rows : List EscrowTimeoutRow)
    → All (λ s. p ≢ s.proposal_id) rows
    → sum_reminds p w (filter (λ r. is_active r.status) rows) ≡ 0
no_reminds p w [] h = refl
no_reminds p w (r ∷ rows) h =
    let other : has_id p r ≡ false = ground (arith, h.0) in
    sum-active p w r rows ∙ rw (other, and_false (due w r)) (omega (arith, no_reminds p w rows h.1))

none_reminded :
    (p : ℕ) (rows : List EscrowTimeoutRow)
    → All (λ s. p ≢ s.proposal_id) rows
    → any (has_reminded p) rows ≡ false
none_reminded p [] h = refl
none_reminded p (r ∷ rows) h =
    let other : has_id p r ≡ false = ground (arith, h.0) in
    rw (other, none_reminded p rows h.1) refl

reclaim_keeps :
    (now : ℕ) (answer : Option String) (r : EscrowTimeoutRow)
    → (reclaimed_if now answer r).reminder_sent_at ≡ r.reminder_sent_at
reclaim_keeps now none r = refl
reclaim_keeps now (some tx) r = refl

pub after_pass-id :
    (w : World) (r : EscrowTimeoutRow) → (after_pass w r).proposal_id ≡ r.proposal_id
after_pass-id w r = elim (Bool-cases (is_active r.status)) [
  | inl e ↦ rw e (after_visit-id w r r)
  | inr e ↦ rw e refl
]

-- A pass sets the reminder of the rows that it reminds, and of no other.
after_pass-is_reminded :
    (w : World) (r : EscrowTimeoutRow)
    → is_reminded (after_pass w r).reminder_sent_at ≡ (is_reminded r.reminder_sent_at || due w r)
after_pass-is_reminded w r =
    ground (arith, reclaim_keeps (w.clock r.proposal_id) (w.reclaim r.proposal_id) r)

due_once :
    (w : World) (r : EscrowTimeoutRow) → is_reminded r.reminder_sent_at ≡ true → due w r ≡ false
due_once w r h = ground (arith, h)

row_spare :
    (p : ℕ) (w : World) (r : EscrowTimeoutRow)
    → one_if (due w r && has_id p r) + one_if (not (has_reminded p (after_pass w r)))
      ≤ one_if (not (has_reminded p r))
row_spare p w r =
    rw (after_pass-id w r, after_pass-is_reminded w r)
      (elim (Bool-cases (is_reminded r.reminder_sent_at)) [
        | inl e ↦ rw (due_once w r e, e) (ground arith)
        | inr e ↦ elim (Bool-cases (due w r)) [
          | inl d ↦ rw (d, e) (ground arith)
          | inr d ↦ rw (d, e) (ground arith)
        ]
      ])

pub pass_spare :
    (p : ℕ) (w : World) (rows : List EscrowTimeoutRow)
    → DistinctBy (λ r. r.proposal_id) rows
    → sum_reminds p w (filter (λ r. is_active r.status) rows) + spare p (map (after_pass w) rows)
      ≤ spare p rows
pass_spare p w [] d = omega arith
pass_spare p w (r ∷ rows) d = elim (Bool-cases (has_id p r)) [
  | inl here ↦
      let same : r.proposal_id ≡ p = (==_iff r.proposal_id p).0 here in
      let apart = subst (λ i. All (λ s. i ≢ s.proposal_id) rows) same d.0 in
      let later =
        All-map (λ s. p ≢ s.proposal_id) (λ s. p ≢ s.proposal_id) (after_pass w) rows
          (λ s ne. rw (after_pass-id w s) ne) apart in
      rw
        (
          sum-active p w r rows,
          no_reminds p w rows apart,
          none_reminded p rows apart,
          none_reminded p (map (after_pass w) rows) later,
          or_false (has_reminded p (after_pass w r)),
          or_false (has_reminded p r),
        )
        (omega (arith, row_spare p w r))
  | inr other ↦
      let kept : has_id p (after_pass w r) ≡ false = ap (λ i. i == p) (after_pass-id w r) ∙ other in
      rw (sum-active p w r rows, other, kept, and_false (due w r))
        (omega (arith, pass_spare p w rows d.1))
]

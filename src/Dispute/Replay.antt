-- ===== src/Dispute/Replay.antt =====
-- Disputes opened again, and the evidence it takes (server/src/db/dispute-store.ts).
use mathlib.Core.Path.{subst}
use mathlib.Core.Bool.{false≢true}
use learnvault.Prelude.{
  ℕ, ◌≡◌, ◌≢◌, refl, sym, ap, ◌∙◌, String, none, some, List, [], ◌∷◌, ◌++◌, Bool, true, false, ◌&&◌,
  ◌||◌, not, any, find?, filter, str_eq_refl, Bool-cases, inl, inr, arith,
}
use learnvault.Dispute.Store.{
  Dispute, DisputeJuror, PendingEvidence, Db, Outcome, done, violation, is_dispute, is_juror,
  is_for_milestone, insert_absent, panel_juror, insert_panel, upsert_dispute_opened, is_pending,
  put_pending, cid_of, set_pending_evidence, take_pending_evidence,
}

any-append :
    {A : Type 0} → (p : A → Bool) (xs ys : List A) → any p (xs ++ ys) ≡ (any p xs || any p ys)
any-append p [] ys = refl
any-append p (x ∷ xs) ys = ground (arith, any-append p xs ys)

kept_present :
    {A : Type 0}
    → (p same : A → Bool) (row : A) (rows : List A) → any p rows ≡ true
    → any p (insert_absent same row rows) ≡ true
kept_present p same row rows h = elim (Bool-cases (any same rows)) [
  | inl e ↦ rw e h
  | inr e ↦ rw (e, any-append p rows (row ∷ []), h) refl
]

inserted_present :
    {A : Type 0}
    → (same : A → Bool) (row : A) (rows : List A) → same row ≡ true
    → any same (insert_absent same row rows) ≡ true
inserted_present same row rows h = elim (Bool-cases (any same rows)) [
  | inl e ↦ rw (e, e) refl
  | inr e ↦ rw (e, any-append same rows (row ∷ []), h, e) refl
]

panel_keeps :
    (p : DisputeJuror → Bool) (id : ℕ) (panel : List String) (rows : List DisputeJuror)
    → any p rows ≡ true
    → any p (insert_panel id panel rows) ≡ true
panel_keeps p id [] rows h = h
panel_keeps p id (a ∷ panel) rows h =
    panel_keeps p id panel (insert_absent (is_juror id a) (panel_juror id a) rows)
      (kept_present p (is_juror id a) (panel_juror id a) rows h)

abbrev AllOnPanel : ℕ → List String → List DisputeJuror → Type 0
AllOnPanel id [] rows = Unit
AllOnPanel id (a ∷ panel) rows = (any (is_juror id a) rows ≡ true) × AllOnPanel id panel rows

panel_inserted :
    (id : ℕ) (panel : List String) (rows : List DisputeJuror)
    → AllOnPanel id panel (insert_panel id panel rows)
panel_inserted id [] rows = tt
panel_inserted id (a ∷ panel) rows =
    let row = panel_juror id a in
    let mine : is_juror id a row ≡ true = ground (arith, str_eq_refl a) in
    let first = insert_absent (is_juror id a) row rows in
    (
      panel_keeps (is_juror id a) id panel first (inserted_present (is_juror id a) row rows mine),
      panel_inserted id panel first,
    )

insert_nobody :
    (id : ℕ) (panel : List String) (rows : List DisputeJuror)
    → AllOnPanel id panel rows
    → insert_panel id panel rows ≡ rows
insert_nobody id [] rows h = refl
insert_nobody id (a ∷ panel) rows h = rw h.0 (insert_nobody id panel rows h.1)

abbrev is_done : Outcome → Bool
is_done done = true
is_done violation = false

done-ne-violation : done ≢ violation
done-ne-violation e = false≢true (sym (ap is_done e))

reopened :
    (d : Dispute) (panel : List String) (db : Db)
    → any (is_dispute d.dispute_id) db.disputes ≡ true
    → AllOnPanel d.dispute_id panel db.jurors
    → upsert_dispute_opened d panel db ≡ (done, db)
unfolding upsert_dispute_opened
reopened d panel db h k = rw (h, insert_nobody d.dispute_id panel db.jurors k) refl

open_stored :
    (d : Dispute) (panel : List String) (db : Db)
    → (upsert_dispute_opened d panel db).0 ≡ done
    → (any (is_dispute d.dispute_id) (upsert_dispute_opened d panel db).1.disputes ≡ true)
      × AllOnPanel d.dispute_id panel (upsert_dispute_opened d panel db).1.jurors
unfolding upsert_dispute_opened
open_stored d panel db h =
    let clash =
      not (any (is_dispute d.dispute_id) db.disputes)
      && any (is_for_milestone d.proposal_id d.milestone_id) db.disputes in
    let mine : is_dispute d.dispute_id d ≡ true = ground arith in
    elim (Bool-cases clash) [
      | inl e ↦
          let refused : (upsert_dispute_opened d panel db).0 ≡ violation = rw e refl in
          absurd (done-ne-violation (sym h ∙ refused))
      | inr e ↦ rw e (
        inserted_present (is_dispute d.dispute_id) d db.disputes mine,
        panel_inserted d.dispute_id panel db.jurors,
      )
    ]

-- Opening a dispute a second time changes nothing, whatever the second event carries, if it has the same
-- dispute id and panel and the first was stored.
pub open_twice :
    (d again : Dispute) (panel : List String) (db : Db)
    → again.dispute_id ≡ d.dispute_id
    → (upsert_dispute_opened d panel db).0 ≡ done
    → upsert_dispute_opened again panel (upsert_dispute_opened d panel db).1
      ≡ (done, (upsert_dispute_opened d panel db).1)
open_twice d again panel db same h =
    let stored = open_stored d panel db h in
    let db' = (upsert_dispute_opened d panel db).1 in
    reopened again panel db'
      (subst (λ id. any (is_dispute id) db'.disputes ≡ true) (sym same) stored.0)
      (subst (λ id. AllOnPanel id panel db'.jurors) (sym same) stored.1)

put_found :
    (new : PendingEvidence) (rows : List PendingEvidence)
    → find? (is_pending new.proposal_id new.milestone_id) (put_pending new rows) ≡ some new
put_found new [] = ground arith
put_found new (e ∷ rows) = ground (arith, put_found new rows)

take_gone :
    (p m : ℕ) (rows : List PendingEvidence)
    → find? (is_pending p m) (filter (λ e. not (is_pending p m e)) rows) ≡ none
take_gone p m [] = refl
take_gone p m (e ∷ rows) = elim (Bool-cases (is_pending p m e)) [
  | inl h ↦ rw h (take_gone p m rows)
  | inr h ↦ rw (h, h) (take_gone p m rows)
]

-- Evidence that was registered for a milestone is taken once: the first taking returns its CID, the next
-- one nothing.
evidence_once :
    (new : PendingEvidence) (db : Db)
    → let taken =
        take_pending_evidence new.proposal_id new.milestone_id (set_pending_evidence new db) in
      (taken.0 ≡ some new.evidence_ipfs_cid)
      × ((take_pending_evidence new.proposal_id new.milestone_id taken.1).0 ≡ none)
unfolding take_pending_evidence set_pending_evidence
evidence_once new db = (
  ap cid_of (put_found new db.pending),
  ap cid_of (take_gone new.proposal_id new.milestone_id (put_pending new db.pending)),
)

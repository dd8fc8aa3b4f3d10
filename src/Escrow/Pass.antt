-- ===== src/Escrow/Pass.antt =====
-- What a pass over the escrows does to each of them (server/src/services/escrow-timeout.service.ts).
use learnvault.Prelude.{
  ℕ, ◌≡◌, ◌≢◌, refl, sym, ap, ◌∙◌, String, Option, none, some, List, [], ◌∷◌, map, Bool, leb, ◌==◌,
  ==_iff, filter, All, Bool-cases, inl, inr, arith, All-weaken,
}
use mathlib.Core.Bool.{false≢true}
use learnvault.Prelude.Rows.{update, change, DistinctBy}
use learnvault.Escrow.Store.{
  EscrowTimeoutRow, World, Db, is_active, has_id, insert_asc, by_activity, process_row,
  process_rows, process_escrow_timeouts,
}
use learnvault.Escrow.Row.{reclaimed_if, after_visit, after_pass, process_row-rows}

-- A row after the visits to a list of rows.
abbrev visit : World → EscrowTimeoutRow → EscrowTimeoutRow → EscrowTimeoutRow
visit w r x = change (has_id r.proposal_id) (λ s. after_visit w r s) x

abbrev visits : World → List EscrowTimeoutRow → EscrowTimeoutRow → EscrowTimeoutRow
visits w [] x = x
visits w (r ∷ seen) x = visits w seen (visit w r x)

map-update :
    (g : EscrowTimeoutRow → EscrowTimeoutRow) (p : EscrowTimeoutRow → Bool)
    (f : EscrowTimeoutRow → EscrowTimeoutRow) (rows : List EscrowTimeoutRow)
    → map g (update p f rows) ≡ map (λ x. g (change p f x)) rows
map-update g p f [] = refl
map-update g p f (r ∷ rows) = ap (λ rs. g (change p f r) ∷ rs) (map-update g p f rows)

map-same : (rows : List EscrowTimeoutRow) → map (λ x. x) rows ≡ rows
map-same [] = refl
map-same (r ∷ rows) = ap (λ rs. r ∷ rs) (map-same rows)

process_rows-visits :
    (w : World) (seen : List EscrowTimeoutRow) (db : Db)
    → (process_rows w seen db).rows ≡ map (λ x. visits w seen x) db.rows
process_rows-visits w [] db = sym (map-same db.rows)
process_rows-visits w (r ∷ seen) db =
    process_rows-visits w seen (process_row w r db)
    ∙ ap (map (λ x. visits w seen x)) (process_row-rows w r db)
    ∙ map-update (λ x. visits w seen x) (has_id r.proposal_id) (λ s. after_visit w r s) db.rows

reclaimed_if-id :
    (now : ℕ) (answer : Option String) (r : EscrowTimeoutRow)
    → (reclaimed_if now answer r).proposal_id ≡ r.proposal_id
reclaimed_if-id now none r = refl
reclaimed_if-id now (some tx) r = refl

pub after_visit-id :
    (w : World) (r x : EscrowTimeoutRow) → (after_visit w r x).proposal_id ≡ x.proposal_id
after_visit-id w r x =
    ground (arith, reclaimed_if-id (w.clock r.proposal_id) (w.reclaim r.proposal_id) x)

visit-id : (w : World) (r x : EscrowTimeoutRow) → (visit w r x).proposal_id ≡ x.proposal_id
visit-id w r x = ground (arith, after_visit-id w r x)

visit-other : (w : World) (r x : EscrowTimeoutRow) → r.proposal_id ≢ x.proposal_id → visit w r x ≡ x
visit-other w r x ne = ground (arith, ne)

visits-other :
    (w : World) (seen : List EscrowTimeoutRow) (x : EscrowTimeoutRow)
    → All (λ r. r.proposal_id ≢ x.proposal_id) seen
    → visits w seen x ≡ x
visits-other w [] x h = refl
visits-other w (r ∷ seen) x h = rw (visit-other w r x h.0) (visits-other w seen x h.1)

-- Visits to two rows with different ids commute.
visit-swap :
    (w : World) (r s x : EscrowTimeoutRow)
    → r.proposal_id ≢ s.proposal_id
    → visit w r (visit w s x) ≡ visit w s (visit w r x)
visit-swap w r s x ne = elim (Bool-cases (r.proposal_id == x.proposal_id)) [
  | inl e ↦
      let same = (==_iff r.proposal_id x.proposal_id).0 e in
      let other : s.proposal_id ≢ x.proposal_id = λ k. ne (same ∙ sym k) in
      ap (visit w r) (visit-other w s x other)
      ∙ sym (visit-other w s (visit w r x) (λ k. other (k ∙ visit-id w r x)))
  | inr e ↦
      let other : r.proposal_id ≢ x.proposal_id =
        λ k. false≢true (sym e ∙ (==_iff r.proposal_id x.proposal_id).1 k) in
      visit-other w r (visit w s x) (λ k. other (k ∙ visit-id w s x))
      ∙ sym (ap (visit w s) (visit-other w r x other))
]

abbrev id_of : EscrowTimeoutRow → ℕ
id_of r = r.proposal_id

abbrev Apart : EscrowTimeoutRow → List EscrowTimeoutRow → Type 0
Apart r rows = All (λ s. r.proposal_id ≢ s.proposal_id) rows

Apart-insert :
    (r s : EscrowTimeoutRow) (rows : List EscrowTimeoutRow)
    → r.proposal_id ≢ s.proposal_id
    → Apart r rows
    → Apart r (insert_asc s rows)
Apart-insert r s [] ne h = (ne, tt)
Apart-insert r s (t ∷ rows) ne h = elim (Bool-cases (leb s.last_activity_at t.last_activity_at)) [
  | inl e ↦ rw e (ne, h)
  | inr e ↦ rw e (h.0, Apart-insert r s rows ne h.1)
]

Apart-by_activity :
    (r : EscrowTimeoutRow) (rows : List EscrowTimeoutRow)
    → Apart r rows
    → Apart r (by_activity rows)
Apart-by_activity r [] h = tt
Apart-by_activity r (s ∷ rows) h =
    Apart-insert r s (by_activity rows) h.0 (Apart-by_activity r rows h.1)

visits-insert :
    (w : World) (r : EscrowTimeoutRow) (rows : List EscrowTimeoutRow) (x : EscrowTimeoutRow)
    → Apart r rows
    → visits w (insert_asc r rows) x ≡ visits w rows (visit w r x)
visits-insert w r [] x h = refl
visits-insert w r (s ∷ rows) x h = elim (Bool-cases (leb r.last_activity_at s.last_activity_at)) [
  | inl e ↦ rw e refl
  | inr e ↦
      rw e (visits-insert w r rows (visit w s x) h.1 ∙ ap (visits w rows) (visit-swap w r s x h.0))
]

-- The order of the visits does not matter.
visits-by_activity :
    (w : World) (rows : List EscrowTimeoutRow) (x : EscrowTimeoutRow)
    → DistinctBy id_of rows
    → visits w (by_activity rows) x ≡ visits w rows x
visits-by_activity w [] x d = refl
visits-by_activity w (r ∷ rows) x d =
    visits-insert w r (by_activity rows) x (Apart-by_activity r rows d.0)
    ∙ visits-by_activity w rows (visit w r x) d.1

abbrev actives : List EscrowTimeoutRow → List EscrowTimeoutRow
actives rows = filter (λ r. is_active r.status) rows

Apart-actives :
    (r : EscrowTimeoutRow) (rows : List EscrowTimeoutRow) → Apart r rows → Apart r (actives rows)
Apart-actives r [] h = tt
Apart-actives r (s ∷ rows) h = elim (Bool-cases (is_active s.status)) [
  | inl e ↦ rw e (h.0, Apart-actives r rows h.1)
  | inr e ↦ rw e (Apart-actives r rows h.1)
]

distinct-actives :
    (rows : List EscrowTimeoutRow) → DistinctBy id_of rows → DistinctBy id_of (actives rows)
distinct-actives [] d = tt
distinct-actives (r ∷ rows) d = elim (Bool-cases (is_active r.status)) [
  | inl e ↦ rw e (Apart-actives r rows d.0, distinct-actives rows d.1)
  | inr e ↦ rw e (distinct-actives rows d.1)
]

-- A visit to a row of another id changes none of these rows.
visits-Apart :
    (w : World) (r : EscrowTimeoutRow) (seen rows : List EscrowTimeoutRow)
    → Apart r rows
    → map (λ x. visits w (r ∷ seen) x) rows ≡ map (λ x. visits w seen x) rows
visits-Apart w r seen [] h = refl
visits-Apart w r seen (x ∷ rows) h =
    rw (visit-other w r x h.0) (ap (λ rs. visits w seen x ∷ rs) (visits-Apart w r seen rows h.1))

visit_self : (w : World) (r : EscrowTimeoutRow) → visit w r r ≡ after_visit w r r
visit_self w r = let here = (==_iff r.proposal_id r.proposal_id).1 refl in rw here refl

-- An active row is visited once, another one never.
visits-actives :
    (w : World) (rows : List EscrowTimeoutRow)
    → DistinctBy id_of rows
    → map (λ x. visits w (actives rows) x) rows ≡ map (after_pass w) rows
visits-actives w [] d = refl
visits-actives w (r ∷ rows) d =
    let apart : (x : EscrowTimeoutRow)
        → x.proposal_id ≡ r.proposal_id
        → All (λ s. s.proposal_id ≢ x.proposal_id) (actives rows) =
      λ x e.
        All-weaken (λ s. r.proposal_id ≢ s.proposal_id) (λ s. s.proposal_id ≢ x.proposal_id)
          (actives rows) (λ s ne k. ne (sym e ∙ sym k)) (Apart-actives r rows d.0) in
    elim (Bool-cases (is_active r.status)) [
      | inl e ↦
          let kept : actives (r ∷ rows) ≡ r ∷ actives rows = rw e refl in
          let after : after_visit w r r ≡ after_pass w r = rw e refl in
          ap (λ seen. map (λ x. visits w seen x) (r ∷ rows)) kept
          ∙ ap (λ y. y ∷ map (λ x. visits w (r ∷ actives rows) x) rows)
              (visits-other w (actives rows) (visit w r r) (apart (visit w r r) (visit-id w r r))
                ∙ visit_self w r
                ∙ after)
          ∙ ap (λ ys. after_pass w r ∷ ys)
              (visits-Apart w r (actives rows) rows d.0 ∙ visits-actives w rows d.1)
      | inr e ↦
          let dropped : actives (r ∷ rows) ≡ actives rows = rw e refl in
          let after : r ≡ after_pass w r = rw e refl in
          ap (λ seen. map (λ x. visits w seen x) (r ∷ rows)) dropped
          ∙ ap (λ y. y ∷ map (λ x. visits w (actives rows) x) rows)
              (visits-other w (actives rows) r (apart r refl) ∙ after)
          ∙ ap (λ ys. after_pass w r ∷ ys) (visits-actives w rows d.1)
    ]

map-congr :
    (f g : EscrowTimeoutRow → EscrowTimeoutRow) (rows : List EscrowTimeoutRow)
    → ((x : EscrowTimeoutRow) → f x ≡ g x)
    → map f rows ≡ map g rows
map-congr f g [] h = refl
map-congr f g (r ∷ rows) h = rw (h r, map-congr f g rows h)

pub process-after_pass :
    (w : World) (db : Db)
    → DistinctBy (λ r. r.proposal_id) db.rows
    → (process_escrow_timeouts w db).rows ≡ map (after_pass w) db.rows
unfolding process_escrow_timeouts
process-after_pass w db d =
    process_rows-visits w (by_activity (actives db.rows)) db
    ∙ map-congr (λ x. visits w (by_activity (actives db.rows)) x)
        (λ x. visits w (actives db.rows) x) db.rows
        (λ x. visits-by_activity w (actives db.rows) x (distinct-actives db.rows d))
    ∙ visits-actives w db.rows d

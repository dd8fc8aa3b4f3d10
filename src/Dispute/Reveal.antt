-- ===== src/Dispute/Reveal.antt =====
-- The tally of a dispute against the votes revealed (server/src/db/dispute-store.ts).
use mathlib.Core.Path.{subst}
use mathlib.Core.Option
use learnvault.Prelude.{
  ℕ, ◌+◌, ◌≡◌, refl, ap, ◌∙◌, some, List, [], ◌∷◌, ◌++◌, Bool, true, false, ◌&&◌, not, ◌==◌, any,
  find?, find?-holds, ==_iff, if◌then◌else◌, arith,
}
use learnvault.Prelude.Rows.{change, update, found_map}
use learnvault.Dispute.Store.{
  Dispute, DisputeVote, Db, is_dispute, is_vote, insert_absent, counted, record_reveal,
  get_dispute_by_id,
}

-- The votes of a dispute on one side.
abbrev pub votes_of : ℕ → Bool → List DisputeVote → ℕ
votes_of id side [] = 0
votes_of id side (v ∷ votes) =
    (if v.dispute_id == id && (if side then v.vote else not v.vote) then 1 else 0)
    + votes_of id side votes

-- The tally of a dispute is that of the votes.
abbrev pub IsTallied : List DisputeVote → Dispute → Type 0
IsTallied votes d =
    (d.votes_for ≡ votes_of d.dispute_id true votes)
    × (d.votes_against ≡ votes_of d.dispute_id false votes)
    × (d.revealed_count ≡ votes_of d.dispute_id true votes + votes_of d.dispute_id false votes)

votes_of-append :
    (id : ℕ) (side : Bool) (xs ys : List DisputeVote)
    → votes_of id side (xs ++ ys) ≡ votes_of id side xs + votes_of id side ys
votes_of-append id side [] ys = omega arith
votes_of-append id side (v ∷ xs) ys = omega (arith, votes_of-append id side xs ys)

kept_id :
    (id now : ℕ) (vote : Bool) (d : Dispute)
    → (change (is_dispute id) (counted now vote) d).dispute_id ≡ d.dispute_id
kept_id id now vote d = ground arith

found_counted :
    (id now : ℕ) (vote : Bool) (rows : List Dispute) (d : Dispute)
    → find? (is_dispute id) rows ≡ some d
    → find? (is_dispute id) (update (is_dispute id) (counted now vote) rows)
      ≡ some (counted now vote d)
found_counted id now vote rows d h =
    let step = change (is_dispute id) (counted now vote) in
    found_map (λ x. x.dispute_id) id step (kept_id id now vote) rows
    ∙ ap (Option.map step) h
    ∙ ap (λ b. some (if b then counted now vote d else d)) (find?-holds (is_dispute id) rows d h)

found_any :
    (id : ℕ) (rows : List Dispute) (d : Dispute)
    → find? (is_dispute id) rows ≡ some d
    → any (is_dispute id) rows ≡ true
found_any id [] d h = ground (arith, h)
found_any id (r ∷ rows) d h = ground (arith, found_any id rows d, h)

module _ (now : ℕ) (v : DisputeVote) (db : Db) (d : Dispute)
    (found : get_dispute_by_id v.dispute_id db ≡ some d) where
  revealed :
      (record_reveal now v db).1.disputes
      ≡ update (is_dispute v.dispute_id) (counted now v.vote) db.disputes
  unfolding record_reveal get_dispute_by_id
  revealed = rw (found_any v.dispute_id db.disputes d found) refl

  revealed_votes :
      (record_reveal now v db).1.votes
      ≡ insert_absent (is_vote v.dispute_id v.juror_address) v db.votes
  unfolding record_reveal get_dispute_by_id
  revealed_votes = rw (found_any v.dispute_id db.disputes d found) refl

  revealed_row :
      get_dispute_by_id v.dispute_id (record_reveal now v db).1 ≡ some (counted now v.vote d)
  unfolding get_dispute_by_id
  revealed_row = rw revealed (found_counted v.dispute_id now v.vote db.disputes d found)

  same_id : d.dispute_id ≡ v.dispute_id
  unfolding get_dispute_by_id
  same_id =
      let holds = find?-holds (is_dispute v.dispute_id) db.disputes d found in
      (==_iff d.dispute_id v.dispute_id).0 holds

  -- The first reveal of a juror in a dispute keeps its tally that of the votes.
  pub first_reveal-IsTallied :
      any (is_vote v.dispute_id v.juror_address) db.votes ≡ false
      → IsTallied db.votes d
      → (get_dispute_by_id v.dispute_id (record_reveal now v db).1 ≡ some (counted now v.vote d))
        × IsTallied (record_reveal now v db).1.votes (counted now v.vote d)
  first_reveal-IsTallied fresh h =
      let votes : (record_reveal now v db).1.votes ≡ db.votes ++ v ∷ [] =
        revealed_votes ∙ rw fresh refl in
      let mine : (v.dispute_id == d.dispute_id) ≡ true = ground (arith, same_id) in
      (
        revealed_row,
        rw
            (
              votes,
              votes_of-append d.dispute_id true db.votes (v ∷ []),
              votes_of-append d.dispute_id false db.votes (v ∷ []),
              mine,
            )
            (ground (arith, h.0), ground (arith, h.1), ground (arith, h.2)),
      )

  -- A reveal of a juror whose vote is stored stores no vote, but is counted: a tally that was that of the
  -- votes is not any more.
  pub reveal_again_miscounts :
      any (is_vote v.dispute_id v.juror_address) db.votes ≡ true
      → IsTallied db.votes d
      → (get_dispute_by_id v.dispute_id (record_reveal now v db).1 ≡ some (counted now v.vote d))
        × ((record_reveal now v db).1.votes ≡ db.votes)
        × ¬ IsTallied (record_reveal now v db).1.votes (counted now v.vote d)
  reveal_again_miscounts stored h =
      let votes : (record_reveal now v db).1.votes ≡ db.votes = revealed_votes ∙ rw stored refl in
      (
        revealed_row,
        votes,
        λ k.
            let k' : IsTallied db.votes (counted now v.vote d) =
              subst (λ x. IsTallied x (counted now v.vote d)) votes k in
            omega (arith, h.2, k'.2),
      )

-- ===== src/Balance/Projection.antt =====
-- The running balances against the journal (server/src/db/scholar-balance-store.ts).
use mathlib.Core.Path.{ap₂, subst}
use mathlib.Core.List.{append-nil}
use learnvault.Prelude.{
  ℕ, ◌≡◌, refl, ap, sym, ◌∙◌, String, List, [], ◌∷◌, ◌++◌, Bool, true, false, length, All, str_eq,
  str_eq→eq, str_eq→ne, not_str_eq, Bool-cases, inl, inr, if◌then◌else◌, arith,
}
use learnvault.Prelude.Int.{ℤ, pos, ◌+ℤ◌, int_laws}
use learnvault.Balance.Store.{
  LrnBalanceDelta, ScholarBalance, Db, Aggregate, seen, unique, journalled, add_to, aggregate,
  upsert, upsert_all, balance_of, journal_step, apply_fresh, apply_lrn_balance_deltas,
}
use learnvault.Balance.Journal.{journal-apply, unique-append, known_after, journalled-known}

-- The sum of the deltas of an address.
unfoldable pub total : String → List LrnBalanceDelta → ℤ
total a [] = pos 0
total a (d ∷ ds) = (if str_eq d.address a then d.delta else pos 0) +ℤ total a ds

-- The sum of an address over groups.
unfoldable pub agg_total : String → List Aggregate → ℤ
agg_total a [] = pos 0
agg_total a (g ∷ gs) = (if str_eq g.address a then g.delta else pos 0) +ℤ agg_total a gs

pub zero-+ℤ : (x : ℤ) → pos 0 +ℤ x ≡ x
zero-+ℤ x = omega int_laws

pub +ℤ-zero : (x : ℤ) → x +ℤ pos 0 ≡ x
+ℤ-zero x = omega int_laws

total-append :
    (a : String) (xs ys : List LrnBalanceDelta) → total a (xs ++ ys) ≡ total a xs +ℤ total a ys
unfolding total
total-append a [] ys = sym (zero-+ℤ (total a ys))
total-append a (d ∷ xs) ys =
    let here = if str_eq d.address a then d.delta else pos 0 in
    ap (λ x. here +ℤ x) (total-append a xs ys) ∙ regroup here (total a xs) (total a ys)
  where
    regroup : (x y z : ℤ) → x +ℤ (y +ℤ z) ≡ x +ℤ y +ℤ z
    regroup x y z = omega int_laws

same_address :
    (a : String) (d : LrnBalanceDelta) (g : Aggregate)
    → str_eq g.address d.address ≡ true
    → str_eq g.address a ≡ str_eq d.address a
same_address a d g e = rw (str_eq→eq g.address d.address e)

merge :
    (b : Bool) (x y r : ℤ)
    → (if b then x +ℤ y else pos 0) +ℤ r
      ≡ (if b then y else pos 0) +ℤ ((if b then x else pos 0) +ℤ r)
merge true x y r = omega int_laws
merge false x y r = omega int_laws

swap_terms : (x y r : ℤ) → x +ℤ (y +ℤ r) ≡ y +ℤ (x +ℤ r)
swap_terms x y r = omega int_laws

agg_total-add_to :
    (a : String) (d : LrnBalanceDelta) (gs : List Aggregate)
    → agg_total a (add_to d gs) ≡ (if str_eq d.address a then d.delta else pos 0) +ℤ agg_total a gs
unfolding agg_total
agg_total-add_to a d [] = refl
agg_total-add_to a d (g ∷ gs) = elim (Bool-cases (str_eq g.address d.address)) [
  | inl e ↦
      rw (e, same_address a d g e) (merge (str_eq d.address a) g.delta d.delta (agg_total a gs))
  | inr e ↦
      rw (e, agg_total-add_to a d gs)
        (swap_terms (if str_eq g.address a then g.delta else pos 0)
          (if str_eq d.address a then d.delta else pos 0) (agg_total a gs))
]

pub agg_total-aggregate :
    (a : String) (ds : List LrnBalanceDelta) → agg_total a (aggregate ds) ≡ total a ds
unfolding aggregate total
agg_total-aggregate a [] = unfold agg_total in refl
agg_total-aggregate a (d ∷ ds) =
    agg_total-add_to a d (aggregate ds)
    ∙ ap (λ x. (if str_eq d.address a then d.delta else pos 0) +ℤ x) (agg_total-aggregate a ds)

balance_of-upsert :
    (now : ℕ) (a : String) (g : Aggregate) (rows : List ScholarBalance)
    → balance_of a (upsert now ◌+ℤ◌ g rows)
      ≡ balance_of a rows +ℤ (if str_eq g.address a then g.delta else pos 0)
balance_of-upsert now a g [] = elim (Bool-cases (str_eq g.address a)) [
  | inl e ↦ rw e (sym (zero-+ℤ g.delta))
  | inr e ↦ rw e (sym (zero-+ℤ (pos 0)))
]
balance_of-upsert now a g (r ∷ rows) = elim (Bool-cases (str_eq r.address g.address)) [
  | inl e ↦ elim (Bool-cases (str_eq r.address a)) [
    | inl f ↦
        let same : str_eq g.address a ≡ true = rw (← str_eq→eq r.address g.address e) f in
        rw (e, f, same)
    | inr f ↦
        let other : str_eq g.address a ≡ false = rw (← str_eq→eq r.address g.address e) f in
        rw (e, f, other) (sym (+ℤ-zero (balance_of a rows)))
  ]
  | inr e ↦ elim (Bool-cases (str_eq r.address a)) [
    | inl f ↦
        let other : str_eq g.address a ≡ false =
          not_str_eq g.address a
            (λ q. str_eq→ne r.address g.address e (str_eq→eq r.address a f ∙ sym q)) in
        rw (e, f, other) (sym (+ℤ-zero r.lrn_balance))
    | inr f ↦ rw (e, f) (balance_of-upsert now a g rows)
  ]
]

pub balance_of-upsert_all :
    (now : ℕ) (a : String) (gs : List Aggregate) (rows : List ScholarBalance)
    → balance_of a (upsert_all now ◌+ℤ◌ gs rows) ≡ balance_of a rows +ℤ agg_total a gs
unfolding agg_total
balance_of-upsert_all now a [] rows = sym (+ℤ-zero (balance_of a rows))
balance_of-upsert_all now a (g ∷ gs) rows =
    let here = if str_eq g.address a then g.delta else pos 0 in
    balance_of-upsert_all now a gs (upsert now ◌+ℤ◌ g rows)
    ∙ ap (λ x. x +ℤ agg_total a gs) (balance_of-upsert now a g rows)
    ∙ regroup (balance_of a rows) here (agg_total a gs)
  where
    regroup : (x y z : ℤ) → x +ℤ y +ℤ z ≡ x +ℤ (y +ℤ z)
    regroup x y z = omega int_laws

-- Every balance is the sum of its address's deltas in the journal.
abbrev pub IsProjection : Db → Type 0
IsProjection db = (a : String) → balance_of a db.balances ≡ total a db.journal

journal_step-IsProjection :
    (now : ℕ) (fresh : List LrnBalanceDelta) (db : Db)
    → IsProjection db
    → IsProjection (journal_step now fresh db)
journal_step-IsProjection now fresh db h a =
    balance_of-upsert_all now a (aggregate fresh) db.balances
    ∙ ap (λ x. x +ℤ agg_total a (aggregate fresh)) (h a)
    ∙ ap (λ x. total a db.journal +ℤ x) (agg_total-aggregate a fresh)
    ∙ sym (total-append a db.journal fresh)

-- Applying any batch, with repeated or known events too, keeps every balance equal to the sum of its
-- address's deltas in the journal, if it was so before.
pub apply-IsProjection :
    (now : ℕ) (ds : List LrnBalanceDelta) (db : Db)
    → IsProjection db
    → IsProjection (apply_lrn_balance_deltas now ds db).1
unfolding apply_lrn_balance_deltas
apply-IsProjection now [] db h = h
apply-IsProjection now (d ∷ ds) db h =
    journal_step-IsProjection now (journalled db.journal (unique [] (d ∷ ds))) db h

nothing_new :
    (now : ℕ) (d : LrnBalanceDelta) (ds : List LrnBalanceDelta) (db : Db)
    → journalled db.journal (unique [] (d ∷ ds)) ≡ []
    → apply_lrn_balance_deltas now (d ∷ ds) db
      ≡ (record { applied = 0; duplicates = length (d ∷ ds); balances = [] }, db)
unfolding apply_lrn_balance_deltas aggregate
nothing_new now d ds db e =
    ap (λ fresh. apply_fresh now (length (d ∷ ds)) fresh db) e
    ∙ ap₂
        (λ n j. (record { applied = 0; duplicates = n; balances = [] }, record db { journal = j }))
        (omega arith) (append-nil db.journal)

-- A batch that was applied, applied again: the tables stay as they are, nothing counts as applied and
-- every delta as a duplicate.
pub apply_twice :
    (now now' : ℕ) (ds : List LrnBalanceDelta) (db : Db)
    → apply_lrn_balance_deltas now' ds (apply_lrn_balance_deltas now ds db).1 ≡ (
      record { applied = 0; duplicates = length ds; balances = [] },
      (apply_lrn_balance_deltas now ds db).1,
    )
apply_twice now now' [] db = unfold apply_lrn_balance_deltas in refl
apply_twice now now' (d ∷ ds) db =
    nothing_new now' d ds (apply_lrn_balance_deltas now (d ∷ ds) db).1 (
      journalled-known (apply_lrn_balance_deltas now (d ∷ ds) db).1.journal (d ∷ ds) (
        subst (λ j. All (λ x. seen x.event_id j ≡ true) (d ∷ ds))
          (sym (journal-apply now (d ∷ ds) db)) (known_after db.journal (d ∷ ds))))

-- Where the balances are the projection of the journal, a stream of deltas cut into two batches gives
-- the same journal and the same balance of every address as one batch.
pub apply_split :
    (now now' now'' : ℕ) (xs ys : List LrnBalanceDelta) (db : Db)
    → IsProjection db
    → ((apply_lrn_balance_deltas now' ys (apply_lrn_balance_deltas now xs db).1).1.journal
        ≡ (apply_lrn_balance_deltas now'' (xs ++ ys) db).1.journal)
      × ((a : String)
          → balance_of a
              (apply_lrn_balance_deltas now' ys (apply_lrn_balance_deltas now xs db).1).1.balances
            ≡ balance_of a (apply_lrn_balance_deltas now'' (xs ++ ys) db).1.balances)
apply_split now now' now'' xs ys db h =
    let first = (apply_lrn_balance_deltas now xs db).1 in
    let same : (apply_lrn_balance_deltas now' ys first).1.journal
        ≡ (apply_lrn_balance_deltas now'' (xs ++ ys) db).1.journal =
      journal-apply now' ys first
      ∙ ap (λ j. unique j ys) (journal-apply now xs db)
      ∙ sym (unique-append db.journal xs ys)
      ∙ sym (journal-apply now'' (xs ++ ys) db) in
    (
      same,
      λ a.
          apply-IsProjection now' ys first (apply-IsProjection now xs db h) a
          ∙ ap (total a) same
          ∙ sym (apply-IsProjection now'' (xs ++ ys) db h a),
    )

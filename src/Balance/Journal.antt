-- ===== src/Balance/Journal.antt =====
-- The journal of LRN balance events (server/src/db/scholar-balance-store.ts): a batch adds each event
-- id that is new, once, in order.
use mathlib.Core.List.{append-nil, append_assoc}
use learnvault.Prelude.{
  ℕ, ◌+◌, ◌≤◌, ◌≡◌, ◌≢◌, refl, ap, sym, ◌∙◌, String, List, [], ◌∷◌, ◌++◌, Bool, true, false, not,
  ◌||◌, filter-append, length, length-append, length-filter-le, All, All-weaken, str_eq,
  str_eq_refl, str_eq→eq, str_eq→ne, ◌&&◌, Bool-cases, inl, inr, if◌then◌else◌, arith,
}
use learnvault.Prelude.Rows.{DistinctBy, DistinctBy-append}
use learnvault.Balance.Store.{
  LrnBalanceDelta, Db, seen, unique, journalled, apply_lrn_balance_deltas,
}

pub seen-append :
    (k : String) (xs ys : List LrnBalanceDelta) → seen k (xs ++ ys) ≡ (seen k xs || seen k ys)
seen-append k [] ys = refl
seen-append k (x ∷ xs) ys = ground (arith, seen-append k xs ys)

or_assoc : (a b c : Bool) → ((a || b) || c) ≡ (a || (b || c))
or_assoc a b c = ground arith

seen-unique :
    (k : String) (acc ds : List LrnBalanceDelta)
    → seen k (unique acc ds) ≡ (seen k acc || seen k ds)
unfolding unique
seen-unique k acc [] = ground arith
seen-unique k acc (d ∷ ds) = elim (Bool-cases (seen d.event_id acc)) [
  | inl e ↦ rw e (seen-unique k acc ds ∙ (ground (arith, or_known k d acc e)))
  | inr e ↦ rw e (
      seen-unique k (acc ++ d ∷ []) ds
      ∙ ap (λ b. b || seen k ds) (seen-append k acc (d ∷ []))
      ∙ (ground arith))
]
  where
    or_known :
        (k : String) (d : LrnBalanceDelta) (acc : List LrnBalanceDelta)
        → seen d.event_id acc ≡ true
        → str_eq d.event_id k ≡ true
        → seen k acc ≡ true
    or_known k d acc h e = rw (← str_eq→eq d.event_id k e) h

same_event :
    (k : String) (d : LrnBalanceDelta) (rows : List LrnBalanceDelta)
    → str_eq d.event_id k ≡ true
    → seen d.event_id rows ≡ seen k rows
same_event k d rows e = rw (str_eq→eq d.event_id k e)

-- What a batch adds to the journal.
seen-journalled :
    (k : String) (j batch : List LrnBalanceDelta)
    → seen k (journalled j batch) ≡ (seen k batch && not (seen k j))
seen-journalled k j [] = refl
seen-journalled k j (d ∷ batch) = elim (Bool-cases (str_eq d.event_id k)) [
  | inl e ↦ ground (arith, seen-journalled k j batch, same_event k d j e)
  | inr e ↦ ground (arith, seen-journalled k j batch)
]

journalled-next :
    (j acc : List LrnBalanceDelta) (d : LrnBalanceDelta)
    → j ++ journalled j (if seen d.event_id acc then acc else acc ++ d ∷ []) ≡ (
        if seen d.event_id (j ++ journalled j acc)
        then j ++ journalled j acc
        else (j ++ journalled j acc) ++ d ∷ [])
journalled-next j acc d =
    let here = seen-append d.event_id j (journalled j acc) in
    let new = seen-journalled d.event_id j acc in
    elim (Bool-cases (seen d.event_id acc)) [
      | inl e ↦
          let known : seen d.event_id (j ++ journalled j acc) ≡ true = ground arith in rw (e, known)
      | inr e ↦ elim (Bool-cases (seen d.event_id j)) [
        | inl f ↦
            let known : seen d.event_id (j ++ journalled j acc) ≡ true = ground arith in
            rw (e, known, filter-append (λ x. not (seen x.event_id j)) acc (d ∷ []), f)
              (ap (λ xs. j ++ xs) (append-nil (journalled j acc)))
        | inr f ↦
            let fresh : seen d.event_id (j ++ journalled j acc) ≡ false = ground arith in
            rw (e, fresh, filter-append (λ x. not (seen x.event_id j)) acc (d ∷ []), f)
              (sym (append_assoc j (journalled j acc) (d ∷ [])))
      ]
    ]

-- The batch against the journal, as one pass of the deduplication over both.
journalled-unique :
    (j acc ds : List LrnBalanceDelta)
    → j ++ journalled j (unique acc ds) ≡ unique (j ++ journalled j acc) ds
unfolding unique
journalled-unique j acc [] = refl
journalled-unique j acc (d ∷ ds) =
    journalled-unique j (if seen d.event_id acc then acc else acc ++ d ∷ []) ds
    ∙ ap (λ xs. unique xs ds) (journalled-next j acc d)

length-unique-le : (acc ds : List LrnBalanceDelta) → length (unique acc ds) ≤ length acc + length ds
unfolding unique
length-unique-le acc [] = omega arith
length-unique-le acc (d ∷ ds) = elim (Bool-cases (seen d.event_id acc)) [
  | inl e ↦ rw e (omega (arith, length-unique-le acc ds))
  | inr e ↦ rw e (omega (arith, length-unique-le (acc ++ d ∷ []) ds, length-append acc (d ∷ [])))
]

unseen :
    (rows : List LrnBalanceDelta) (k : String)
    → seen k rows ≡ false
    → All (λ r. r.event_id ≢ k) rows
unseen [] k e = tt
unseen (r ∷ rows) k e = (str_eq→ne r.event_id k (ground arith), unseen rows k (ground arith))

pub DistinctBy-unique :
    (acc ds : List LrnBalanceDelta)
    → DistinctBy (λ (d : LrnBalanceDelta). d.event_id) acc
    → DistinctBy (λ (d : LrnBalanceDelta). d.event_id) (unique acc ds)
unfolding unique
DistinctBy-unique acc [] h = h
DistinctBy-unique acc (d ∷ ds) h = elim (Bool-cases (seen d.event_id acc)) [
  | inl e ↦ rw e (DistinctBy-unique acc ds h)
  | inr e ↦ rw e (
      DistinctBy-unique (acc ++ d ∷ []) ds
        (DistinctBy-append (λ (x : LrnBalanceDelta). x.event_id) acc d h (unseen acc d.event_id e)))
]

-- A batch applied: the journal becomes what one pass over the journal and the batch keeps.
pub journal-apply :
    (now : ℕ) (ds : List LrnBalanceDelta) (db : Db)
    → (apply_lrn_balance_deltas now ds db).1.journal ≡ unique db.journal ds
unfolding apply_lrn_balance_deltas
journal-apply now [] db = unfold unique in refl
journal-apply now (d ∷ ds) db =
    journalled-unique db.journal [] (d ∷ ds) ∙ ap (λ xs. unique xs (d ∷ ds)) (append-nil db.journal)

pub unique-append : (j xs ys : List LrnBalanceDelta) → unique j (xs ++ ys) ≡ unique (unique j xs) ys
unfolding unique
unique-append j [] ys = refl
unique-append j (d ∷ xs) ys = unique-append (if seen d.event_id j then j else j ++ d ∷ []) xs ys

-- A batch that is known already leaves the journal, and adds nothing.
unique-known :
    (j ds : List LrnBalanceDelta) → All (λ d. seen d.event_id j ≡ true) ds → unique j ds ≡ j
unfolding unique
unique-known j [] h = refl
unique-known j (d ∷ ds) h = rw h.0 (unique-known j ds h.1)

known_tail :
    (x : LrnBalanceDelta) (ds rows : List LrnBalanceDelta)
    → All (λ d. seen d.event_id ds ≡ true) rows
    → All (λ d. seen d.event_id (x ∷ ds) ≡ true) rows
known_tail x ds rows h =
    All-weaken (λ d. seen d.event_id ds ≡ true) (λ d. seen d.event_id (x ∷ ds) ≡ true) rows
      (λ d e. ground arith) h

seen_self : (ds : List LrnBalanceDelta) → All (λ d. seen d.event_id ds ≡ true) ds
seen_self [] = tt
seen_self (d ∷ ds) = (rw (str_eq_refl d.event_id), known_tail d ds ds (seen_self ds))

-- After a batch all its events are known.
pub known_after : (j ds : List LrnBalanceDelta) → All (λ d. seen d.event_id (unique j ds) ≡ true) ds
known_after j ds =
    All-weaken (λ d. seen d.event_id ds ≡ true) (λ d. seen d.event_id (unique j ds) ≡ true) ds
      (λ d e. seen-unique d.event_id j ds ∙ (ground arith)) (seen_self ds)

-- A batch of known events has nothing to journal.
pub journalled-known :
    (j ds : List LrnBalanceDelta)
    → All (λ d. seen d.event_id j ≡ true) ds
    → journalled j (unique [] ds) ≡ []
journalled-known j ds h =
    append_nothing j (journalled j (unique [] ds))
      (journalled-unique j [] ds ∙ ap (λ xs. unique xs ds) (append-nil j) ∙ unique-known j ds h)
  where
    append_nothing : (xs ys : List LrnBalanceDelta) → xs ++ ys ≡ xs → ys ≡ []
    append_nothing xs [] e = refl
    append_nothing xs (y ∷ ys) e = absurd (omega (arith, ap length e, length-append xs (y ∷ ys)))

pub length-journalled-le :
    (j ds : List LrnBalanceDelta) → length (journalled j (unique [] ds)) ≤ length ds
length-journalled-le j ds = omega (
  arith,
  length-filter-le (λ (d : LrnBalanceDelta). not (seen d.event_id j)) (unique [] ds),
  length-unique-le [] ds,
)

-- ===== src/Balance/Rebuild.antt =====
-- The recomputation of the balances from the journal, and what a batch reports
-- (server/src/db/scholar-balance-store.ts).
use mathlib.Core.Path.{subst}
use learnvault.Prelude.{
  ℕ, zero, suc, ◌+◌, ◌≡◌, ◌≢◌, refl, ap, sym, ◌∙◌, String, List, [], ◌∷◌, Bool, true, false, ◌||◌,
  any, length, length-append, All, str_eq, str_eq→eq, str_eq→ne, not_str_eq, Bool-cases, inl, inr,
  if◌then◌else◌, arith,
}
use learnvault.Prelude.Rows.{update, change, DistinctBy}
use learnvault.Prelude.Int.{ℤ, pos, negsuc}
use learnvault.Balance.Store.{
  LrnBalanceDelta, ScholarBalance, Db, Aggregate, unique, journalled, add_to, aggregate, upsert,
  upsert_all, balance_of, sum_applied, is_zero, is_stale, apply_lrn_balance_deltas,
  rebuild_scholar_balances,
}
use learnvault.Balance.Journal.{length-journalled-le}
use learnvault.Balance.Projection.{
  total, agg_total, agg_total-aggregate, zero-+ℤ, +ℤ-zero, IsProjection,
}

-- Groups have distinct addresses, those of the deltas.
All-add_to :
    (k : String) (d : LrnBalanceDelta) (gs : List Aggregate)
    → k ≢ d.address
    → All (λ g. k ≢ g.address) gs
    → All (λ g. k ≢ g.address) (add_to d gs)
All-add_to k d [] h r = (h, tt)
All-add_to k d (g ∷ gs) h r = elim (Bool-cases (str_eq g.address d.address)) [
  | inl e ↦ rw e r
  | inr e ↦ rw e (r.0, All-add_to k d gs h r.1)
]

DistinctBy-add_to :
    (d : LrnBalanceDelta) (gs : List Aggregate)
    → DistinctBy (λ (g : Aggregate). g.address) gs
    → DistinctBy (λ (g : Aggregate). g.address) (add_to d gs)
DistinctBy-add_to d [] h = (tt, tt)
DistinctBy-add_to d (g ∷ gs) h = elim (Bool-cases (str_eq g.address d.address)) [
  | inl e ↦ rw e h
  | inr e ↦
      rw e (
        All-add_to g.address d gs (str_eq→ne g.address d.address e) h.0,
        DistinctBy-add_to d gs h.1,
      )
]

DistinctBy-aggregate :
    (ds : List LrnBalanceDelta) → DistinctBy (λ (g : Aggregate). g.address) (aggregate ds)
unfolding aggregate
DistinctBy-aggregate [] = tt
DistinctBy-aggregate (d ∷ ds) = DistinctBy-add_to d (aggregate ds) (DistinctBy-aggregate ds)

abbrev has_group : String → List Aggregate → Bool
has_group a gs = any (λ g. str_eq g.address a) gs

abbrev has_event : String → List LrnBalanceDelta → Bool
has_event a ds = any (λ e. str_eq e.address a) ds

has_group-add_to :
    (a : String) (d : LrnBalanceDelta) (gs : List Aggregate)
    → has_group a (add_to d gs) ≡ (str_eq d.address a || has_group a gs)
has_group-add_to a d [] = refl
has_group-add_to a d (g ∷ gs) = elim (Bool-cases (str_eq g.address d.address)) [
  | inl e ↦ rw (e, str_eq→eq g.address d.address e) (ground arith)
  | inr e ↦ rw (e, has_group-add_to a d gs) (ground arith)
]

has_group-aggregate :
    (a : String) (ds : List LrnBalanceDelta) → has_group a (aggregate ds) ≡ has_event a ds
unfolding aggregate
has_group-aggregate a [] = refl
has_group-aggregate a (d ∷ ds) =
    has_group-add_to a d (aggregate ds)
    ∙ ap (λ b. str_eq d.address a || b) (has_group-aggregate a ds)

-- An address that no entry has.
no_group :
    (a : String) (gs : List Aggregate)
    → All (λ g. a ≢ g.address) gs
    → (has_group a gs ≡ false) × (agg_total a gs ≡ pos 0)
unfolding agg_total
no_group a [] h = (refl, refl)
no_group a (g ∷ gs) h =
    let other : str_eq g.address a ≡ false = not_str_eq g.address a (λ q. h.0 (sym q)) in
    let (rest, sum) = no_group a gs h.1 in (rw (other, rest), rw (other, sum) (zero-+ℤ (pos 0)))

total-no_event :
    (a : String) (ds : List LrnBalanceDelta) → has_event a ds ≡ false → total a ds ≡ pos 0
unfolding total
total-no_event a [] h = refl
total-no_event a (d ∷ ds) h =
    let other : str_eq d.address a ≡ false = ground arith in
    let rest : has_event a ds ≡ false = ground arith in
    rw (other, total-no_event a ds rest) (zero-+ℤ (pos 0))

abbrev replace : ℤ → ℤ → ℤ
replace old new = new

balance_of-set :
    (now : ℕ) (a : String) (g : Aggregate) (rows : List ScholarBalance)
    → balance_of a (upsert now replace g rows)
      ≡ (if str_eq g.address a then g.delta else balance_of a rows)
balance_of-set now a g [] = elim (Bool-cases (str_eq g.address a)) [ inl e ↦ rw e | inr e ↦ rw e ]
balance_of-set now a g (r ∷ rows) = elim (Bool-cases (str_eq r.address g.address)) [
  | inl e ↦ rw (e, ← str_eq→eq r.address g.address e) (ground arith)
  | inr e ↦ elim (Bool-cases (str_eq r.address a)) [
    | inl f ↦
        let other : str_eq g.address a ≡ false =
          not_str_eq g.address a
            (λ q. str_eq→ne r.address g.address e (str_eq→eq r.address a f ∙ sym q)) in
        rw (e, f, other)
    | inr f ↦ rw (e, f) (balance_of-set now a g rows)
  ]
]

balance_of-set_all :
    (now : ℕ) (a : String) (gs : List Aggregate) (rows : List ScholarBalance)
    → DistinctBy (λ (g : Aggregate). g.address) gs
    → balance_of a (upsert_all now replace gs rows)
      ≡ (if has_group a gs then agg_total a gs else balance_of a rows)
balance_of-set_all now a [] rows h = refl
balance_of-set_all now a (g ∷ gs) rows h =
    balance_of-set_all now a gs (upsert now replace g rows) h.1
    ∙ (elim (Bool-cases (str_eq g.address a)) [
      | inl e ↦
          let (gone, sum) =
            no_group a gs
              (subst (λ k. All (λ x. k ≢ x.address) gs) (str_eq→eq g.address a e) h.0) in
          unfold agg_total in
          (rw (gone, balance_of-set now a g rows, e, sum) (sym (+ℤ-zero g.delta)))
      | inr e ↦ unfold agg_total in (rw (balance_of-set now a g rows, e, zero-+ℤ (agg_total a gs)))
    ])

abbrev zero_row : ℕ → ScholarBalance → ScholarBalance
zero_row now r = record r { lrn_balance = pos 0; updated_at = now }

is_zero-eq : (x : ℤ) → is_zero x ≡ true → x ≡ pos 0
is_zero-eq (pos zero) h = refl
is_zero-eq (pos (suc n)) h = absurd (cc)
is_zero-eq (negsuc n) h = absurd (cc)

-- The second statement, at the row of the address.
stale_row :
    (now : ℕ) (a : String) (j : List LrnBalanceDelta) (r : ScholarBalance)
    → r.address ≡ a
    → (change (is_stale j) (zero_row now) r).lrn_balance
      ≡ (if has_event a j then r.lrn_balance else pos 0)
stale_row now a j r e = elim (Bool-cases (has_event a j)) [
  | inl h ↦ rw (e, h) (ground arith)
  | inr h ↦ elim (Bool-cases (is_zero r.lrn_balance)) [
    | inl z ↦ rw (e, h, z) (is_zero-eq r.lrn_balance z)
    | inr z ↦ rw (e, h, z)
  ]
]

address-change :
    (now : ℕ) (j : List LrnBalanceDelta) (r : ScholarBalance)
    → (change (is_stale j) (zero_row now) r).address ≡ r.address
address-change now j r = ground arith

balance_of-stale :
    (now : ℕ) (a : String) (j : List LrnBalanceDelta) (rows : List ScholarBalance)
    → balance_of a (update (is_stale j) (zero_row now) rows)
      ≡ (if has_event a j then balance_of a rows else pos 0)
balance_of-stale now a j [] = ground arith
balance_of-stale now a j (r ∷ rows) =
    let same = address-change now j r in
    elim (Bool-cases (str_eq r.address a)) [
      | inl f ↦ rw (same, f) (stale_row now a j r (str_eq→eq r.address a f))
      | inr f ↦ rw (same, f) (balance_of-stale now a j rows)
    ]

-- Whatever the balances were, after a rebuild every balance is the sum of its address's deltas in the
-- journal, and the journal is unchanged.
pub rebuild-IsProjection :
    (now : ℕ) (db : Db)
    → IsProjection (rebuild_scholar_balances now db).1
      × ((rebuild_scholar_balances now db).1.journal ≡ db.journal)
unfolding rebuild_scholar_balances
rebuild-IsProjection now db = (
  λ a.
      balance_of-stale now a db.journal (upsert_all now replace (aggregate db.journal) db.balances)
      ∙ ap (λ x. if has_event a db.journal then x else pos 0)
          (balance_of-set_all now a (aggregate db.journal) db.balances
            (DistinctBy-aggregate db.journal))
      ∙ rw (has_group-aggregate a db.journal, agg_total-aggregate a db.journal)
          (elim (Bool-cases (has_event a db.journal)) [
            | inl h ↦ rw h
            | inr h ↦ rw h (sym (total-no_event a db.journal h))
          ]),
  refl,
)

sum_applied-add_to :
    (d : LrnBalanceDelta) (gs : List Aggregate) → sum_applied (add_to d gs) ≡ suc (sum_applied gs)
sum_applied-add_to d [] = omega arith
sum_applied-add_to d (g ∷ gs) = elim (Bool-cases (str_eq g.address d.address)) [
  | inl e ↦ rw e (omega arith)
  | inr e ↦ rw e (omega (arith, sum_applied-add_to d gs))
]

sum_applied-aggregate : (ds : List LrnBalanceDelta) → sum_applied (aggregate ds) ≡ length ds
unfolding aggregate
sum_applied-aggregate [] = refl
sum_applied-aggregate (d ∷ ds) =
    sum_applied-add_to d (aggregate ds) ∙ ap suc (sum_applied-aggregate ds)

-- Of a batch every delta counts as applied or as a duplicate, and as many count as applied as the
-- journal grew by.
apply_counts :
    (now : ℕ) (ds : List LrnBalanceDelta) (db : Db)
    → ((apply_lrn_balance_deltas now ds db).0.applied
          + (apply_lrn_balance_deltas now ds db).0.duplicates
        ≡ length ds)
      × (length (apply_lrn_balance_deltas now ds db).1.journal
          ≡ length db.journal + (apply_lrn_balance_deltas now ds db).0.applied)
unfolding apply_lrn_balance_deltas
apply_counts now [] db = omega arith
apply_counts now (d ∷ ds) db =
    let fresh = journalled db.journal (unique [] (d ∷ ds)) in
    let count = sum_applied-aggregate fresh in
    omega (arith, count, length-journalled-le db.journal (d ∷ ds), length-append db.journal fresh)

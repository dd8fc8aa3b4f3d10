-- ===== src/Balance/Store.antt =====
-- The two tables of server/src/db/scholar-balance-store.ts and the queries that change them. Each
-- query is one transaction at the moment `now`; the order in which SQL visits groups is not
-- observable in the tables.
use learnvault.Prelude.{
  ℕ, zero, suc, String, Option, none, some, List, [], ◌∷◌, ◌++◌, map, Bool, true, false, not, ◌+◌,
  ◌-◌, ◌&&◌, any, find?, filter, length, str_eq, if◌then◌else◌,
}
use learnvault.Prelude.Int.{ℤ, pos, negsuc, ◌+ℤ◌}
use learnvault.Prelude.Rows.{update}

pub data LrnBalanceEventType : Type 0 where
  mint burn : LrnBalanceEventType

-- A row of lrn_balance_events.
pub record LrnBalanceDelta : Type 0 where
  pub event_id : String
  pub address : String
  pub delta : ℤ
  pub event_type : LrnBalanceEventType
  pub ledger_sequence : ℕ
  pub tx_hash : Option String
  pub occurred_at : Option ℕ

-- A row of scholar_balances.
pub record ScholarBalance : Type 0 where
  pub address : String
  pub lrn_balance : ℤ
  pub courses_completed : ℕ
  pub updated_at : ℕ

pub record Db : Type 0 where
  pub journal : List LrnBalanceDelta
  pub balances : List ScholarBalance

pub record ApplyDeltasResult : Type 0 where
  pub applied : ℕ
  pub duplicates : ℕ
  pub balances : List (String × ℤ)

-- A row of the `aggregated` subquery.
pub record Aggregate : Type 0 where
  pub address : String
  pub delta : ℤ
  pub applied : ℕ

abbrev pub seen : String → List LrnBalanceDelta → Bool
seen id rows = any (λ r. str_eq r.event_id id) rows

-- The loop over `unique`, whose map keeps the order of insertion.
unfoldable pub unique : List LrnBalanceDelta → List LrnBalanceDelta → List LrnBalanceDelta
unique acc [] = acc
unique acc (d ∷ ds) = unique (if seen d.event_id acc then acc else acc ++ d ∷ []) ds

-- `ON CONFLICT (event_id) DO NOTHING RETURNING …`
abbrev pub journalled : List LrnBalanceDelta → List LrnBalanceDelta → List LrnBalanceDelta
journalled journal batch = filter (λ d. not (seen d.event_id journal)) batch

-- `SELECT address, SUM(delta), COUNT(*) … GROUP BY address`
abbrev pub add_to : LrnBalanceDelta → List Aggregate → List Aggregate
add_to d [] = record { address = d.address; delta = d.delta; applied = 1 } ∷ []
add_to d (g ∷ gs) =
    if str_eq g.address d.address
    then record g { delta = g.delta +ℤ d.delta; applied = g.applied + 1 } ∷ gs
    else g ∷ add_to d gs

unfoldable pub aggregate : List LrnBalanceDelta → List Aggregate
aggregate [] = []
aggregate (d ∷ ds) = add_to d (aggregate ds)

abbrev pub has_address : String → ScholarBalance → Bool
has_address a r = str_eq r.address a

abbrev pub new_balance : ℕ → Aggregate → ScholarBalance
new_balance now g = record {
  address = g.address;
  lrn_balance = g.delta;
  courses_completed = 0;
  updated_at = now;
}

-- `INSERT … ON CONFLICT (address) DO UPDATE SET lrn_balance = f old EXCLUDED`, of one row.
abbrev pub upsert : ℕ → (ℤ → ℤ → ℤ) → Aggregate → List ScholarBalance → List ScholarBalance
upsert now f g [] = new_balance now g ∷ []
upsert now f g (r ∷ rows) =
    if has_address g.address r
    then record r { lrn_balance = f r.lrn_balance g.delta; updated_at = now } ∷ rows
    else r ∷ upsert now f g rows

abbrev pub upsert_all : ℕ → (ℤ → ℤ → ℤ) → List Aggregate → List ScholarBalance → List ScholarBalance
upsert_all now f [] rows = rows
upsert_all now f (g ∷ gs) rows = upsert_all now f gs (upsert now f g rows)

abbrev pub or_zero : Option ScholarBalance → ℤ
or_zero none = pos 0
or_zero (some r) = r.lrn_balance

-- The balance of an address, 0 where it has no row.
abbrev pub balance_of : String → List ScholarBalance → ℤ
balance_of a rows = or_zero (find? (has_address a) rows)

abbrev pub sum_applied : List Aggregate → ℕ
sum_applied [] = 0
sum_applied (g ∷ gs) = g.applied + sum_applied gs

-- The one statement that journals a batch and moves the balances.
abbrev pub journal_step : ℕ → List LrnBalanceDelta → Db → Db
journal_step now fresh db = record {
  journal = db.journal ++ fresh;
  balances = upsert_all now ◌+ℤ◌ (aggregate fresh) db.balances;
}

-- The result for a batch of `size` deltas of which `fresh` were new.
abbrev pub apply_fresh : ℕ → ℕ → List LrnBalanceDelta → Db → ApplyDeltasResult × Db
apply_fresh now size fresh db =
    let applied = sum_applied (aggregate fresh) in
    (
      record {
        applied = applied;
        duplicates = size - applied;
        balances =
            map (λ g. (g.address, balance_of g.address (journal_step now fresh db).balances))
              (aggregate fresh);
      },
      journal_step now fresh db,
    )

unfoldable pub apply_lrn_balance_deltas : ℕ → List LrnBalanceDelta → Db → ApplyDeltasResult × Db
apply_lrn_balance_deltas now [] db = (record { applied = 0; duplicates = 0; balances = [] }, db)
apply_lrn_balance_deltas now (d ∷ ds) db =
    apply_fresh now (length (d ∷ ds)) (journalled db.journal (unique [] (d ∷ ds))) db

abbrev pub is_zero : ℤ → Bool
is_zero (pos zero) = true
is_zero (pos (suc n)) = false
is_zero (negsuc n) = false

-- A balance with no journal history.
abbrev pub is_stale : List LrnBalanceDelta → ScholarBalance → Bool
is_stale journal r =
    not (is_zero r.lrn_balance) && not (any (λ e. str_eq e.address r.address) journal)

-- The rows rebuilt, and the stale ones set to 0; the two statements are one transaction.
unfoldable pub rebuild_scholar_balances : ℕ → Db → (ℕ × ℕ) × Db
rebuild_scholar_balances now db =
    let totals = aggregate db.journal in
    let rebuilt = upsert_all now (λ old new. new) totals db.balances in
    (
      (length totals, length (filter (is_stale db.journal) rebuilt)),
      record db {
        balances =
            update (is_stale db.journal) (λ r. record r { lrn_balance = pos 0; updated_at = now })
              rebuilt;
      },
    )

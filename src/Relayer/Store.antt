-- ===== src/Relayer/Store.antt =====
-- server/src/db/sponsorship-store.ts: the tables sponsored_accounts and sponsor_spend_log. An amount is a
-- number of stroops, none of which is negative.
use learnvault.Prelude.{
  ℕ, ◌+◌, String, Option, none, some, List, [], ◌∷◌, ◌++◌, Bool, true, false, leb, filter, length,
  str_eq, if◌then◌else◌,
}
use learnvault.Prelude.Rows.{update}

pub data SponsoredAccountStatus : Type 0 where
  pending active revoked : SponsoredAccountStatus

pub data SponsorSpendKind : Type 0 where
  create_account fee_bump : SponsorSpendKind

pub record SponsoredAccount : Type 0 where
  pub learner_address : String
  pub sponsor_tx_hash : String
  pub reserves_locked_stroops : ℕ
  pub status : SponsoredAccountStatus
  pub created_at : ℕ
  pub activated_at : Option ℕ

pub record Spend : Type 0 where
  pub amount_stroops : ℕ
  pub kind : SponsorSpendKind
  pub learner_address : Option String
  pub tx_hash : Option String
  pub spent_at : ℕ

pub record Db : Type 0 where
  pub accounts : List SponsoredAccount
  pub spends : List Spend

abbrev pub is_account : String → SponsoredAccount → Bool
is_account a r = str_eq r.learner_address a

abbrev pub locked : String → ℕ → SponsoredAccount → SponsoredAccount
locked hash reserves r = record r { sponsor_tx_hash = hash; reserves_locked_stroops = reserves }

-- The accounts, and the row that `RETURNING` gives.
abbrev pub insert_account :
    ℕ → String → String → ℕ → List SponsoredAccount → SponsoredAccount × List SponsoredAccount
insert_account now a hash reserves [] =
    let r : SponsoredAccount = record {
      learner_address = a;
      sponsor_tx_hash = hash;
      reserves_locked_stroops = reserves;
      status = pending;
      created_at = now;
      activated_at = none;
    } in
    (r, r ∷ [])
insert_account now a hash reserves (r ∷ rows) =
    let rest = insert_account now a hash reserves rows in
    if is_account a r
    then (locked hash reserves r, locked hash reserves r ∷ rows)
    else (rest.0, r ∷ rest.1)

unfoldable pub insert_sponsored_account : ℕ → String → String → ℕ → Db → SponsoredAccount × Db
insert_sponsored_account now a hash reserves db =
    let inserted = insert_account now a hash reserves db.accounts in
    (inserted.0, record db { accounts = inserted.1 })

abbrev pub coalesce : Option ℕ → ℕ → ℕ
coalesce none t = t
coalesce (some u) t = u

abbrev pub activated : ℕ → SponsoredAccount → SponsoredAccount
activated now r = record r { status = active; activated_at = some (coalesce r.activated_at now) }

unfoldable pub mark_account_active : ℕ → String → Db → Db
mark_account_active now a db = record db {
  accounts = update (is_account a) (activated now) db.accounts;
}

abbrev pub is_counted : SponsoredAccountStatus → Bool
is_counted revoked = false
is_counted pending = true
is_counted active = true

abbrev pub sum_reserves : List SponsoredAccount → ℕ
sum_reserves [] = 0
sum_reserves (r ∷ rows) = r.reserves_locked_stroops + sum_reserves rows

unfoldable pub count_sponsored_accounts : Db → ℕ
count_sponsored_accounts db = length (filter (λ r. is_counted r.status) db.accounts)

unfoldable pub sum_reserves_locked : Db → ℕ
sum_reserves_locked db = sum_reserves (filter (λ r. is_counted r.status) db.accounts)

unfoldable pub record_spend : ℕ → ℕ → SponsorSpendKind → Option String → Option String → Db → Db
record_spend now amount kind a hash db = record db {
  spends =
      db.spends
      ++ record {
        amount_stroops = amount;
        kind = kind;
        learner_address = a;
        tx_hash = hash;
        spent_at = now;
      }
        ∷ [];
}

abbrev pub sum_since : ℕ → List Spend → ℕ
sum_since since [] = 0
sum_since since (e ∷ spends) =
    (if leb since e.spent_at then e.amount_stroops else 0) + sum_since since spends

unfoldable pub sum_spend_since : ℕ → Db → ℕ
sum_spend_since since db = sum_since since db.spends

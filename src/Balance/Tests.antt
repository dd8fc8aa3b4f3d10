-- ===== src/Balance/Tests.antt =====
-- The balance projection on a small batch with a repeated event.
use learnvault.Prelude.{◌≡◌, refl, String, some, none, List, [], ◌∷◌}
use learnvault.Prelude.Int.{ℤ, pos, negsuc, ◌+ℤ◌}
use learnvault.Balance.Store.{
  mint, burn, LrnBalanceDelta, Db, unique, aggregate, apply_lrn_balance_deltas,
  rebuild_scholar_balances,
}
use learnvault.Balance.Projection.{total, IsProjection, apply-IsProjection, apply_twice}
use learnvault.Balance.Rebuild.{rebuild-IsProjection}

abbrev event : String → String → ℤ → LrnBalanceDelta
event id who delta = record {
  event_id = id;
  address = who;
  delta = delta;
  event_type = mint;
  ledger_sequence = 7;
  tx_hash = none;
  occurred_at = some 5;
}

abbrev batch : List LrnBalanceDelta
batch =
    event "7-a-0" "GA" (pos 50)
    ∷ event "7-b-0" "GB" (pos 20)
    ∷ event "7-a-0" "GA" (pos 50)
    ∷ record (event "7-c-0" "GA" (negsuc 9)) { event_type = burn }
    ∷ []

abbrev nothing : Db
nothing = record { journal = []; balances = [] }

balances : Unit {0}
unfolding apply_lrn_balance_deltas unique aggregate total rebuild_scholar_balances ◌+ℤ◌
balances = tt

apply_test :
    (apply_lrn_balance_deltas 9 batch nothing).0
    ≡ record { applied = 3; duplicates = 1; balances = ("GA", pos 40) ∷ ("GB", pos 20) ∷ [] }
unfolding balances
apply_test = refl

nothing-IsProjection : IsProjection nothing
unfolding balances
nothing-IsProjection a = refl

apply-IsProjection_example : IsProjection (apply_lrn_balance_deltas 9 batch nothing).1
apply-IsProjection_example = apply-IsProjection 9 batch nothing nothing-IsProjection

apply_twice_example :
    apply_lrn_balance_deltas 10 batch (apply_lrn_balance_deltas 9 batch nothing).1 ≡ (
      record { applied = 0; duplicates = 4; balances = [] },
      (apply_lrn_balance_deltas 9 batch nothing).1,
    )
apply_twice_example = apply_twice 9 10 batch nothing

abbrev edited : Db
edited = record {
  journal = (apply_lrn_balance_deltas 9 batch nothing).1.journal;
  balances =
      record { address = "GC"; lrn_balance = pos 5; courses_completed = 2; updated_at = 1 } ∷ [];
}

rebuild-IsProjection_example :
    IsProjection (rebuild_scholar_balances 12 edited).1
    × ((rebuild_scholar_balances 12 edited).1.journal ≡ edited.journal)
rebuild-IsProjection_example = rebuild-IsProjection 12 edited

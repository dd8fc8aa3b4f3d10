-- ===== src/Indexer/Tests.antt =====
-- A sync over an RPC with one page: a mint, a burn and an event that does not decode.
use learnvault.Prelude.{
  suc, ◌+◌, ◌≤◌, ◌<◌, ◌≡◌, refl, String, none, some, [], ◌∷◌, true, take, str_eq→ne, arith,
}
use learnvault.Prelude.Int.{pos, negsuc, ◌+ℤ◌}
use learnvault.Balance.Store.{
  LrnBalanceDelta, mint, burn, unique, aggregate, balance_of, apply_lrn_balance_deltas,
}
use learnvault.Balance.Projection.{IsProjection, total}
use learnvault.Indexer.Decode.{
  null, RawContractEvent, Js, resolve_tx_hash, decode_lrn_balance_delta,
}
use learnvault.Indexer.Published.{
  minted, burned, published, decode-published, IsMovement, decode-IsMovement,
}
use learnvault.Indexer.Pages.{
  EventsPage, page, rpc_error, Env, decode_all, count_malformed, max_pages, index_pages, State,
  indexed, start_of, journal_max, last_indexed, index_lrn_balance_events,
  get_lrn_balance_checkpoint, sync_lrn_balances,
}
use learnvault.Indexer.Whole.{loop_of}
use learnvault.Indexer.Stream.{events_of, SameLedger}
use learnvault.Indexer.Checkpoint.{index_bounded, sync_twice}

abbrev raw : String → RawContractEvent
raw id = record {
  id = id;
  ledger = some 7;
  ledger_closed_at = none;
  tx_hash = none;
  topic = none;
  value = null;
}

abbrev js : Js
js = record { big_int = λ v. none; date = λ s. 0 }

abbrev first_page : EventsPage
first_page = record {
  events =
      published (minted "GA" 49) (raw "7-abc-0")
      ∷ published (burned "GA" 9) (raw "7-abd-1")
      ∷ raw "7-abe-2"
      ∷ [];
  cursor = none;
}

abbrev env : Env
env = record {
  js = js;
  rpc = λ n request. page first_page;
  clock = λ n. n;
  has_contract = true;
  archive_max = none;
  starting_ledger = 0;
}

abbrev nothing : State
nothing = record { db = record { journal = []; balances = [] }; checkpoint = none }

indexer : Unit {0}
unfolding sync_lrn_balances get_lrn_balance_checkpoint last_indexed journal_max
    index_lrn_balance_events index_pages max_pages decode_all count_malformed
    decode_lrn_balance_delta apply_lrn_balance_deltas unique aggregate total ◌+ℤ◌
indexer = tt

sync_test :
    (sync_lrn_balances env 9 nothing).0
    ≡ some (
        indexed
          (record { scanned = 3; applied = 2; duplicates = 0; malformed = 1; last_ledger = 9 })
          ("GA" ∷ []))
unfolding indexer
sync_test = refl

balance_test : balance_of "GA" (sync_lrn_balances env 9 nothing).1.db.balances ≡ pos 40
unfolding indexer
balance_test = refl

hash_test : resolve_tx_hash (raw "7-abc-0") ≡ some "abc"
hash_test = refl

-- The node keeps ledgers from 5 on.
retained_test :
    (index_lrn_balance_events
      (record env {
        rpc = λ n request. elim n [ suc m ↦ page first_page | _ ↦ rpc_error (some 5) ];
      })
      2
      (some 9)
      true
      nothing).1.checkpoint
    ≡ some 9
unfolding indexer
retained_test = refl

nothing-IsProjection : IsProjection nothing.db
unfolding indexer
nothing-IsProjection a = refl

decode-published_example :
    decode_lrn_balance_delta js (published (minted "GA" 49) (raw "7-abc-0"))
    ≡ some (record {
      event_id = "7-abc-0";
      address = "GA";
      delta = pos 50;
      event_type = mint;
      ledger_sequence = 7;
      tx_hash = some "abc";
      occurred_at = none;
    })
decode-published_example =
    decode-published js (minted "GA" 49) (raw "7-abc-0") 7 (str_eq→ne "7-abc-0" "" refl)
      (str_eq→ne "GA" "" refl) refl

abbrev burn_delta : LrnBalanceDelta
burn_delta = record {
  event_id = "7-abd-1";
  address = "GA";
  delta = negsuc 9;
  event_type = burn;
  ledger_sequence = 7;
  tx_hash = some "abd";
  occurred_at = none;
}

burn_test :
    decode_lrn_balance_delta js (published (burned "GA" 9) (raw "7-abd-1")) ≡ some burn_delta
unfolding indexer
burn_test = refl

decode-IsMovement_example : IsMovement (published (burned "GA" 9) (raw "7-abd-1")) burn_delta
decode-IsMovement_example =
    decode-IsMovement js (published (burned "GA" 9) (raw "7-abd-1")) burn_delta burn_test

index_bounded_example :
    (loop_of (index_pages env (some 9) max_pages (start_of 1 nothing.db))).calls ≤ max_pages + 1
index_bounded_example = index_bounded env 1 (some 9) nothing.db

behind : get_lrn_balance_checkpoint env nothing < 9
unfolding indexer
behind = omega arith

sync_twice_example :
    SameLedger
      (sync_lrn_balances env 9 nothing).1.db
      (apply_lrn_balance_deltas 0
        (decode_all js (events_of (take max_pages (first_page ∷ []))))
        nothing.db).1
    × (sync_lrn_balances env 9 (sync_lrn_balances env 9 nothing).1
        ≡ (none, (sync_lrn_balances env 9 nothing).1))
sync_twice_example =
    sync_twice env 9 0 (first_page ∷ []) nothing refl behind (refl, omega arith)
      nothing-IsProjection

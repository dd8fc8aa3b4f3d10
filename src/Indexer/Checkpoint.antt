-- ===== src/Indexer/Checkpoint.antt =====
-- The calls and the checkpoint of an indexing run
-- (server/src/services/scholar-balance-indexer.service.ts).
use mathlib.Core.Path.{subst}
use learnvault.Prelude.{
  ℕ, ◌+◌, ◌≤◌, ◌<◌, ◌≡◌, refl, sym, ap, ◌∙◌, max, Option, none, some, List, Bool, true, false, leb,
  ltb, take, arith,
}
use learnvault.Balance.Store.{Db, apply_lrn_balance_deltas}
use learnvault.Balance.Projection.{IsProjection}
use learnvault.Indexer.Pages.{
  EventsPage, Env, Loop, finished, decode_all, max_pages, index_pages, State, start_of,
  checkpoint_of, conclude, index_lrn_balance_events, get_lrn_balance_checkpoint, last_indexed,
  sync_lrn_balances,
}
use learnvault.Indexer.Whole.{loop_of, index_pages-calls}
use learnvault.Indexer.Stream.{events_of, SameLedger, Serves, index_pages-Serves}

run_pages :
    (env : Env) (start : ℕ) (end_ledger : Option ℕ) (persist : Bool) (s : State)
    → env.has_contract ≡ true
    → index_lrn_balance_events env start end_ledger persist s
      ≡ conclude end_ledger persist s.checkpoint
          (index_pages env end_ledger max_pages (start_of start s.db))
unfolding index_lrn_balance_events
run_pages env start end_ledger persist s e = rw e refl

-- Whatever the RPC answers, a run makes at most one call more than it may read pages.
pub index_bounded :
    (env : Env) (start : ℕ) (end_ledger : Option ℕ) (db : Db)
    → (loop_of (index_pages env end_ledger max_pages (start_of start db))).calls ≤ max_pages + 1
index_bounded env start end_ledger db =
    omega (arith, index_pages-calls env end_ledger max_pages (start_of start db))

concluded :
    (latest : ℕ) (checkpoint : Option ℕ) (l : Loop)
    → l.start_ledger ≤ latest
    → (conclude (some latest) true checkpoint (finished l)).1
      ≡ record { db = l.db; checkpoint = some (checkpoint_of (some latest) l) }
concluded latest checkpoint l h =
    let covered : leb l.start_ledger (checkpoint_of (some latest) l) ≡ true = ground (arith, h) in
    rw covered refl

synced :
    (env : Env) (latest : ℕ) (s t : State)
    → get_lrn_balance_checkpoint env s < latest
    → (index_lrn_balance_events env (get_lrn_balance_checkpoint env s + 1) (some latest) true s).1
      ≡ t
    → (sync_lrn_balances env latest s).1 ≡ t
unfolding sync_lrn_balances
synced env latest s t h e =
    let behind : ltb latest (get_lrn_balance_checkpoint env s + 1) ≡ false = ground (arith, h) in
    rw behind e

checkpoint_kept :
    (env : Env) (db : Db) (n : ℕ)
    → env.has_contract ≡ true
    → 0 < n
    → get_lrn_balance_checkpoint env (record { db = db; checkpoint = some n }) ≡ n
unfolding get_lrn_balance_checkpoint last_indexed
checkpoint_kept env db n e h = ground (arith, e, h)

nothing_to_do :
    (env : Env) (latest : ℕ) (s : State)
    → latest ≤ get_lrn_balance_checkpoint env s
    → sync_lrn_balances env latest s ≡ (none, s)
unfolding sync_lrn_balances
nothing_to_do env latest s h =
    let done : ltb latest (get_lrn_balance_checkpoint env s + 1) ≡ true = ground (arith, h) in
    rw done refl

-- Where the RPC hands the events from the checkpoint to `latest` out in pages, a sync is one batch of the
-- events of the first pages that it may read, and a second sync to the same ledger asks for nothing and
-- changes nothing, whether or not there were more pages.
pub sync_twice :
    (env : Env) (latest now : ℕ) (pages : List EventsPage) (s : State)
    → env.has_contract ≡ true
    → get_lrn_balance_checkpoint env s < latest
    → Serves env (some latest) 0 none (get_lrn_balance_checkpoint env s + 1) pages
    → IsProjection s.db
    → SameLedger
        (sync_lrn_balances env latest s).1.db
        (apply_lrn_balance_deltas now (decode_all env.js (events_of (take max_pages pages))) s.db).1
      × (sync_lrn_balances env latest (sync_lrn_balances env latest s).1
          ≡ (none, (sync_lrn_balances env latest s).1))
sync_twice env latest now pages s contract behind serves h =
    let start = get_lrn_balance_checkpoint env s + 1 in
    let first : max 1 start ≡ start = omega arith in
    let (l', (ran, same, began, reached)) =
      index_pages-Serves env (some latest) max_pages pages (start_of start s.db)
        (subst (λ n. Serves env (some latest) 0 none n pages) (sym first) serves) h in
    let n = checkpoint_of (some latest) l' in
    let t : State = record { db = l'.db; checkpoint = some n } in
    let after : (sync_lrn_balances env latest s).1 ≡ t = synced env latest s t behind (
      ap (λ r. r.1) (run_pages env start (some latest) true s contract)
      ∙ ap (λ r. (conclude (some latest) true s.checkpoint r).1) ran
      ∙ concluded latest s.checkpoint l' (omega (arith, began, first))) in
    let covered : latest ≤ get_lrn_balance_checkpoint env t =
      omega (arith, checkpoint_kept env l'.db n contract) in
    (
      subst
          (λ x.
            SameLedger x.db
              (apply_lrn_balance_deltas now (decode_all env.js (events_of (take max_pages pages)))
                s.db).1)
          (sym after) (same now),
      subst (λ x. sync_lrn_balances env latest x ≡ (none, x)) (sym after)
          (nothing_to_do env latest t covered),
    )

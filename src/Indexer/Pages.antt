-- ===== src/Indexer/Pages.antt =====
-- server/src/services/scholar-balance-indexer.service.ts. The RPC is a function of the number of the call
-- and the request, and the clock one of the number of the call; the cache and the leaderboard are told of the
-- addresses touched.
use learnvault.Prelude.{
  ℕ, zero, suc, ◌+◌, ◌-◌, max, String, Option, none, some, List, [], ◌∷◌, ◌++◌, Bool, true, false,
  not, ◌&&◌, ◌||◌, ltb, leb, any, length, str_eq, ◌==◌, if◌then◌else◌,
}
use learnvault.Prelude.Int.{ℤ}
use learnvault.Balance.Store.{Db, LrnBalanceDelta, apply_lrn_balance_deltas}
use learnvault.Indexer.Decode.{RawContractEvent, Js, decode_lrn_balance_delta}

pub record EventsPage : Type 0 where
  pub events : List RawContractEvent
  pub cursor : Option String

pub data Request : Type 0 where
  by_cursor : String → Request
  by_range : ℕ → Option ℕ → Request

-- A page, or an error with the oldest ledger of the range that its message names, if it names one.
pub data Answer : Type 0 where
  page : EventsPage → Answer
  rpc_error : Option ℕ → Answer

-- `archive_max` is the greatest ledger that the table events has under the projection's key.
pub record Env : Type 0 where
  pub js : Js
  pub rpc : ℕ → Request → Answer
  pub clock : ℕ → ℕ
  pub has_contract : Bool
  pub archive_max : Option ℕ
  pub starting_ledger : ℕ

abbrev pub page_size : ℕ
page_size = 200

-- Shut, since the loop's proofs are for any number of pages.
unfoldable pub max_pages : ℕ
max_pages = 500

-- The variables of the loop in `indexLrnBalanceEvents`, the tables, and the number of calls made.
pub record Loop : Type 0 where
  pub db : Db
  pub scanned : ℕ
  pub applied : ℕ
  pub duplicates : ℕ
  pub malformed : ℕ
  pub touched : List String
  pub start_ledger : ℕ
  pub last_ledger : ℕ
  pub cursor : Option String
  pub calls : ℕ

abbrev pub decoded_or_skip : Option LrnBalanceDelta → List LrnBalanceDelta → List LrnBalanceDelta
decoded_or_skip none ds = ds
decoded_or_skip (some d) ds = d ∷ ds

abbrev pub is_malformed : Option LrnBalanceDelta → ℕ
is_malformed none = 1
is_malformed (some d) = 0

-- The loop of `applyPage` over the events.
unfoldable pub decode_all : Js → List RawContractEvent → List LrnBalanceDelta
decode_all js [] = []
decode_all js (e ∷ es) = decoded_or_skip (decode_lrn_balance_delta js e) (decode_all js es)

unfoldable pub count_malformed : Js → List RawContractEvent → ℕ
count_malformed js [] = 0
count_malformed js (e ∷ es) = is_malformed (decode_lrn_balance_delta js e) + count_malformed js es

abbrev pub add_address : List String → String → List String
add_address touched a = if any (λ b. str_eq b a) touched then touched else touched ++ a ∷ []

abbrev pub add_addresses : List (String × ℤ) → List String → List String
add_addresses [] touched = touched
add_addresses ((a, n) ∷ more) touched = add_addresses more (add_address touched a)

abbrev pub max_ledger : ℕ → Option ℕ → ℕ
max_ledger last none = last
max_ledger last (some n) = if ltb last n then n else last

abbrev pub highest_ledger : ℕ → List RawContractEvent → ℕ
highest_ledger last [] = last
highest_ledger last (e ∷ es) = highest_ledger (max_ledger last e.ledger) es

abbrev pub last_id : List RawContractEvent → Option String
last_id [] = none
last_id (e ∷ []) = some e.id
last_id (e ∷ f ∷ es) = last_id (f ∷ es)

abbrev pub or_last_id : Option String → List RawContractEvent → Option String
or_last_id none events = last_id events
or_last_id (some c) events = some c

-- `nextCursor`
abbrev pub next_cursor : EventsPage → Option String
next_cursor p = or_last_id p.cursor p.events

-- `!nextCursor || nextCursor === cursor`
abbrev pub is_stuck : Option String → Option String → Bool
is_stuck none cursor = true
is_stuck (some c) none = str_eq c ""
is_stuck (some c) (some d) = str_eq c "" || str_eq c d

abbrev pub is_last_page : Option String → EventsPage → Bool
is_last_page cursor p = ltb (length p.events) page_size || is_stuck (next_cursor p) cursor

-- What trying to get a page ends with.
pub data Fetched : Type 0 where
  fetched : EventsPage → Loop → Fetched
  thrown : Loop → Fetched

-- What the loop ends with.
pub data Looped : Type 0 where
  finished : Loop → Looped
  aborted : Loop → Looped

module _ (env : Env) (end_ledger : Option ℕ) where
  abbrev pub request : Option String → ℕ → Request
  request none start = by_range start end_ledger
  request (some c) start = by_cursor c

  abbrev pub called : Loop → Loop
  called l = record l { calls = suc l.calls }

  -- The second request, whose error is not caught.
  abbrev pub fetch_again : Answer → Loop → Fetched
  fetch_again (page p) l = fetched p l
  fetch_again (rpc_error retained) l = thrown l

  abbrev pub resume_from : ℕ → Loop → Fetched
  resume_from oldest l =
      let l' = record l { start_ledger = oldest; last_ledger = oldest - 1 } in
      fetch_again (env.rpc l.calls (by_range oldest end_ledger)) (called l')

  -- `const retained = cursor ? null : parseRetainedRange(err)`, and what follows.
  abbrev pub recover : Option String → Option ℕ → Loop → Fetched
  recover (some c) retained l = thrown l
  recover none none l = thrown l
  recover none (some oldest) l =
      if leb oldest l.start_ledger then thrown l else resume_from oldest l

  abbrev pub fetch_or_recover : Answer → Loop → Fetched
  fetch_or_recover (page p) l = fetched p l
  fetch_or_recover (rpc_error retained) l = recover l.cursor retained l

  abbrev pub fetch_page : Loop → Fetched
  fetch_page l = fetch_or_recover (env.rpc l.calls (request l.cursor l.start_ledger)) (called l)

  -- `applyPage`, and what the loop does with its result.
  abbrev pub apply_page : EventsPage → Loop → Loop
  apply_page p l =
      let result = apply_lrn_balance_deltas (env.clock l.calls) (decode_all env.js p.events) l.db in
      record l {
        db = result.1;
        scanned = l.scanned + length p.events;
        applied = l.applied + result.0.applied;
        duplicates = l.duplicates + result.0.duplicates;
        malformed = l.malformed + count_malformed env.js p.events;
        touched = add_addresses result.0.balances l.touched;
        last_ledger = highest_ledger l.last_ledger p.events;
      }

  abbrev pub step_on : (Loop → Looped) → Bool → EventsPage → Loop → Looped
  step_on rest true p l = finished l
  step_on rest false p l = rest (record l { cursor = next_cursor p })

  abbrev pub continue_from : (Loop → Looped) → Fetched → Looped
  continue_from rest (thrown l) = aborted l
  continue_from rest (fetched p l) = step_on rest (is_last_page l.cursor p) p (apply_page p l)

  -- The loop, with as many pages left.
  unfoldable pub index_pages : ℕ → Loop → Looped
  index_pages zero l = finished l
  index_pages (suc left) l = continue_from (index_pages left) (fetch_page l)

pub record State : Type 0 where
  pub db : Db
  pub checkpoint : Option ℕ

pub record IndexLrnResult : Type 0 where
  pub scanned : ℕ
  pub applied : ℕ
  pub duplicates : ℕ
  pub malformed : ℕ
  pub last_ledger : ℕ

pub data Outcome : Type 0 where
  indexed : IndexLrnResult → List String → Outcome
  index_failed : Outcome

abbrev pub or_ledger : Option ℕ → ℕ → ℕ
or_ledger none n = n
or_ledger (some e) n = e

abbrev pub start_of : ℕ → Db → Loop
start_of start db = record {
  db = db;
  scanned = 0;
  applied = 0;
  duplicates = 0;
  malformed = 0;
  touched = [];
  start_ledger = max 1 start;
  last_ledger = max 1 start - 1;
  cursor = none;
  calls = 0;
}

abbrev pub checkpoint_of : Option ℕ → Loop → ℕ
checkpoint_of end_ledger l =
    max (max (or_ledger end_ledger l.last_ledger) l.last_ledger) (l.start_ledger - 1)

-- What follows the loop: the result with the addresses touched, and the checkpoint stored.
abbrev pub conclude : Option ℕ → Bool → Option ℕ → Looped → Outcome × State
conclude end_ledger persist checkpoint (aborted l) =
    (index_failed, record { db = l.db; checkpoint = checkpoint })
conclude end_ledger persist checkpoint (finished l) =
    let reached = checkpoint_of end_ledger l in
    (
      indexed
          (record {
            scanned = l.scanned;
            applied = l.applied;
            duplicates = l.duplicates;
            malformed = l.malformed;
            last_ledger = reached;
          })
          l.touched,
      record {
        db = l.db;
        checkpoint = if persist && leb l.start_ledger reached then some reached else checkpoint;
      },
    )

unfoldable pub index_lrn_balance_events : Env → ℕ → Option ℕ → Bool → State → Outcome × State
index_lrn_balance_events env start end_ledger persist s =
    if not env.has_contract
    then (
      indexed
          (record { scanned = 0; applied = 0; duplicates = 0; malformed = 0; last_ledger = start })
          [],
      s,
    )
    else conclude end_ledger persist s.checkpoint
        (index_pages env end_ledger max_pages (start_of start s.db))

abbrev pub max_of : Option ℕ → ℕ → ℕ
max_of none n = n
max_of (some m) n = max m n

-- `getJournalMaxLedger`
unfoldable pub journal_max : List LrnBalanceDelta → Option ℕ
journal_max [] = none
journal_max (d ∷ ds) = some (max_of (journal_max ds) d.ledger_sequence)

-- `x || fallback`
abbrev pub or_start : Option ℕ → ℕ → ℕ
or_start none start = start
or_start (some n) start = if n == 0 then start else n

-- `getLastIndexedLedger` of the checkpoint's key.
unfoldable pub last_indexed : Env → Option ℕ → ℕ
last_indexed env none = or_start env.archive_max env.starting_ledger
last_indexed env (some n) = if n == 0 then or_start env.archive_max env.starting_ledger else n

unfoldable pub get_lrn_balance_checkpoint : Env → State → ℕ
unfolding last_indexed journal_max
get_lrn_balance_checkpoint env s =
    let persisted = last_indexed env s.checkpoint in
    if not env.has_contract
    then env.starting_ledger
    else if ltb 0 persisted
    then persisted
    else or_ledger (journal_max s.db.journal) env.starting_ledger

-- none is `null`.
unfoldable pub sync_lrn_balances : Env → ℕ → State → Option Outcome × State
unfolding get_lrn_balance_checkpoint index_lrn_balance_events
sync_lrn_balances env latest s =
    let start = get_lrn_balance_checkpoint env s + 1 in
    let r = index_lrn_balance_events env start (some latest) true s in
    if ltb latest start then (none, s) else (some r.0, r.1)

-- ===== src/Indexer/Stream.antt =====
-- The paging loop of the indexer over an RPC that hands a stream of events out in pages
-- (server/src/services/scholar-balance-indexer.service.ts).
use learnvault.Prelude.{
  ℕ, zero, suc, ◌≤◌, ◌<◌, ◌≡◌, ◌≢◌, refl, ap, ◌∙◌, String, Option, none, some, List, [], ◌∷◌, ◌++◌,
  Bool, true, false, length, take, not_str_eq, arith,
}
use learnvault.Balance.Store.{Db, LrnBalanceDelta, apply_lrn_balance_deltas, balance_of}
use learnvault.Balance.Projection.{IsProjection, apply-IsProjection, apply_split}
use learnvault.Indexer.Decode.{RawContractEvent, Js, decode_lrn_balance_delta}
use learnvault.Indexer.Pages.{
  EventsPage, page, Env, page_size, Loop, decoded_or_skip, decode_all, highest_ledger, max_ledger,
  next_cursor, is_stuck, is_last_page, finished, request, called, fetch_or_recover, apply_page,
  step_on, continue_from, index_pages,
}

abbrev pub events_of : List EventsPage → List RawContractEvent
events_of [] = []
events_of (p ∷ pages) = p.events ++ events_of pages

decode_all-append :
    (js : Js) (xs ys : List RawContractEvent)
    → decode_all js (xs ++ ys) ≡ decode_all js xs ++ decode_all js ys
unfolding decode_all
decode_all-append js [] ys = refl
decode_all-append js (e ∷ xs) ys =
    rw (decode_all-append js xs ys)
      (skipped (decode_lrn_balance_delta js e) (decode_all js xs) (decode_all js ys))
  where
    skipped :
        (o : Option LrnBalanceDelta) (ds ds' : List LrnBalanceDelta)
        → decoded_or_skip o (ds ++ ds') ≡ decoded_or_skip o ds ++ ds'
    skipped none ds ds' = refl
    skipped (some d) ds ds' = refl

-- The same journal, and the same balance of every address.
abbrev pub SameLedger : Db → Db → Type 0
SameLedger x y =
    (x.journal ≡ y.journal) × ((a : String) → balance_of a x.balances ≡ balance_of a y.balances)

-- The cursor after a page is a new one.
abbrev pub IsNew : Option String → Option String → Type 0
IsNew cursor none = ⊥
IsNew none (some c) = c ≢ ""
IsNew (some d) (some c) = (c ≢ "") × (c ≢ d)

new_not_stuck : (cursor o : Option String) → IsNew cursor o → is_stuck o cursor ≡ false
new_not_stuck cursor none h = elim h [ ]
new_not_stuck none (some c) h = not_str_eq c "" h
new_not_stuck (some d) (some c) h = rw (not_str_eq c "" h.0, not_str_eq c d h.1) refl

ledger-le-highest : (last : ℕ) (es : List RawContractEvent) → last ≤ highest_ledger last es
ledger-le-highest last [] = omega arith
ledger-le-highest last (e ∷ es) =
    omega (arith, ledger-le-highest (max_ledger last e.ledger) es, le_max last e.ledger)
  where
    le_max : (last : ℕ) (o : Option ℕ) → last ≤ max_ledger last o
    le_max last none = omega arith
    le_max last (some n) = ground arith

take-nil : {A : Type 0} → (n : ℕ) → take {A = A} n [] ≡ []
take-nil zero = refl
take-nil (suc n) = refl

module _ (env : Env) (end_ledger : Option ℕ) where
  -- From some call on the RPC answers with these pages: all full, with a new cursor each, but the last, which
  -- is not.
  abbrev pub Serves : ℕ → Option String → ℕ → List EventsPage → Type 0
  Serves calls cursor start [] = ⊥
  Serves calls cursor start (p ∷ []) =
      (env.rpc calls (request env end_ledger cursor start) ≡ page p) × (length p.events < page_size)
  Serves calls cursor start (p ∷ q ∷ pages) =
      (env.rpc calls (request env end_ledger cursor start) ≡ page p)
      × (length p.events ≡ page_size)
      × IsNew cursor (next_cursor p)
      × Serves (suc calls) (next_cursor p) start (q ∷ pages)

  page_step :
      (left : ℕ) (l : Loop) (p : EventsPage) (b : Bool)
      → env.rpc l.calls (request env end_ledger l.cursor l.start_ledger) ≡ page p
      → is_last_page l.cursor p ≡ b
      → index_pages env end_ledger (suc left) l
        ≡ step_on env end_ledger
            (index_pages env end_ledger left)
            b
            p
            (apply_page env end_ledger p (called env end_ledger l))
  unfolding index_pages
  page_step left l p b e h =
      ap
        (λ a.
          continue_from env end_ledger (index_pages env end_ledger left)
            (fetch_or_recover env end_ledger a (called env end_ledger l)))
        e
      ∙ ap
          (λ x.
            step_on env end_ledger (index_pages env end_ledger left) x p
              (apply_page env end_ledger p (called env end_ledger l)))
          h

  -- What the loop ends with after pages.
  abbrev pub Reads : ℕ → List EventsPage → Loop → Loop → Type 0
  Reads left pages l l' =
      (index_pages env end_ledger left l ≡ finished l')
      × ((now : ℕ)
          → SameLedger l'.db
              (apply_lrn_balance_deltas now (decode_all env.js (events_of (take left pages)))
                l.db).1)
      × (l'.start_ledger ≡ l.start_ledger)
      × (l.last_ledger ≤ l'.last_ledger)

  nothing_left :
      (now : ℕ) (db : Db) → SameLedger db (apply_lrn_balance_deltas now (decode_all env.js []) db).1
  unfolding apply_lrn_balance_deltas decode_all
  nothing_left now db = (refl, λ a. refl)

  -- A page, then the rest as one batch, against one batch.
  then_page :
      (now now' : ℕ) (es rest : List RawContractEvent) (db x : Db)
      → IsProjection db
      → SameLedger x
          (apply_lrn_balance_deltas now
            (decode_all env.js rest)
            (apply_lrn_balance_deltas now' (decode_all env.js es) db).1).1
      → SameLedger x (apply_lrn_balance_deltas now (decode_all env.js (es ++ rest)) db).1
  then_page now now' es rest db x h same =
      let split = apply_split now' now now (decode_all env.js es) (decode_all env.js rest) db h in
      rw (decode_all-append env.js es rest) (same.0 ∙ split.0, λ a. same.1 a ∙ split.1 a)

  pub index_pages-Serves :
      (left : ℕ) (pages : List EventsPage) (l : Loop)
      → Serves l.calls l.cursor l.start_ledger pages
      → IsProjection l.db
      → (l' : Loop) × Reads left pages l l'
  index_pages-Serves zero pages l h k =
      (l, (unfold index_pages in refl, λ now. nothing_left now l.db, refl, omega arith))
  index_pages-Serves (suc left) [] l h k = elim h [ ]
  index_pages-Serves (suc left) (p ∷ []) l h k =
      let last : is_last_page l.cursor p ≡ true = ground (arith, h.1) in
      let l' = apply_page env end_ledger p (called env end_ledger l) in
      (
        l',
        (
          page_step left l p true h.0 last,
          λ now. rw (take-nil left) (
              then_page now (env.clock (suc l.calls)) p.events [] l.db l'.db k
                (nothing_left now l'.db)),
          refl,
          ledger-le-highest l.last_ledger p.events,
        ),
      )
  index_pages-Serves (suc left) (p ∷ q ∷ pages) l h k =
      let full : is_last_page l.cursor p ≡ false =
        ground (arith, h.1, new_not_stuck l.cursor (next_cursor p) h.2) in
      let first = apply_page env end_ledger p (called env end_ledger l) in
      let kept = apply-IsProjection (env.clock (suc l.calls)) (decode_all env.js p.events) l.db k in
      let (l', (ran, same, start, reached)) =
        index_pages-Serves left (q ∷ pages) (record first { cursor = next_cursor p }) h.3 kept in
      (
        l',
        (
          page_step left l p false h.0 full ∙ ran,
          λ now.
              then_page now (env.clock (suc l.calls)) p.events (events_of (take left (q ∷ pages)))
                l.db l'.db k (same now),
          start,
          omega (arith, ledger-le-highest l.last_ledger p.events, reached),
        ),
      )

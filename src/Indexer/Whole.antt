-- ===== src/Indexer/Whole.antt =====
-- The calls of the paging loop of the indexer
-- (server/src/services/scholar-balance-indexer.service.ts).
use learnvault.Prelude.{
  ℕ, zero, suc, ◌+◌, ◌-◌, ◌≤◌, ◌≡◌, refl, ap, String, Option, none, some, Bool, false, ◌||◌, ltb,
  leb, length, Bool-cases, inl, inr, arith,
}
use learnvault.Indexer.Pages.{
  Answer, page, rpc_error, by_range, Env, page_size, Loop, next_cursor, is_stuck, is_last_page,
  Fetched, fetched, thrown, Looped, finished, aborted, request, called, fetch_again, recover,
  fetch_or_recover, fetch_page, apply_page, continue_from, index_pages,
}

abbrev pub loop_of : Looped → Loop
loop_of (finished l) = l
loop_of (aborted l) = l

abbrev loop_at : Fetched → Loop
loop_at (fetched p l) = l
loop_at (thrown l) = l

-- The second request is for the first page only.
abbrev retries : Option String → ℕ
retries none = 1
retries (some c) = 0

-- Getting a page adds no call but a retry.
abbrev IsRetried : Loop → Loop → Type 0
IsRetried l l1 = l1.calls ≤ l.calls + retries l.cursor

module _ (env : Env) (end_ledger : Option ℕ) where
  loop_at-fetch_again : (a : Answer) (l : Loop) → loop_at (fetch_again env end_ledger a l) ≡ l
  loop_at-fetch_again (page p) l = refl
  loop_at-fetch_again (rpc_error retained) l = refl

  recover-IsRetried :
      (c : Option String) (retained : Option ℕ) (l : Loop)
      → l.cursor ≡ c
      → IsRetried l (loop_at (recover env end_ledger c retained l))
  recover-IsRetried (some c) retained l e = omega arith
  recover-IsRetried none none l e = omega arith
  recover-IsRetried none (some oldest) l e = elim (Bool-cases (leb oldest l.start_ledger)) [
    | inl t ↦ rw t (omega arith)
    | inr t ↦
        let l' =
          called env end_ledger (record l { start_ledger = oldest; last_ledger = oldest - 1 }) in
        let same = loop_at-fetch_again (env.rpc l.calls (by_range oldest end_ledger)) l' in
        let one : retries l.cursor ≡ 1 = ap retries e in rw (t, same) (omega arith)
  ]

  fetch_or_recover-IsRetried :
      (a : Answer) (l : Loop) → IsRetried l (loop_at (fetch_or_recover env end_ledger a l))
  fetch_or_recover-IsRetried (page p) l = omega arith
  fetch_or_recover-IsRetried (rpc_error retained) l = recover-IsRetried l.cursor retained l refl

  fetch_page-IsRetried :
      (l : Loop) → IsRetried (called env end_ledger l) (loop_at (fetch_page env end_ledger l))
  fetch_page-IsRetried l =
      fetch_or_recover-IsRetried (env.rpc l.calls (request env end_ledger l.cursor l.start_ledger))
        (called env end_ledger l)

  not_stuck :
      (b : Bool) (o cursor : Option String) → (b || is_stuck o cursor) ≡ false → retries o ≡ 0
  not_stuck b none cursor h = ground (arith, h)
  not_stuck b (some c) cursor h = refl

  continue-calls :
      (rest : Loop → Looped) (left : ℕ)
      → ((l : Loop) → (loop_of (rest l)).calls ≤ l.calls + left + retries l.cursor)
      → (f : Fetched)
      → (loop_of (continue_from env end_ledger rest f)).calls ≤ (loop_at f).calls + left
  continue-calls rest left ih (thrown l) = omega arith
  continue-calls rest left ih (fetched p l) =
      let l' = apply_page env end_ledger p l in
      elim (Bool-cases (is_last_page l.cursor p)) [
        | inl e ↦ rw e (omega arith)
        | inr e ↦
            let none_left =
              not_stuck (ltb (length p.events) page_size) (next_cursor p) l.cursor e in
            rw e (omega (arith, ih (record l' { cursor = next_cursor p }), none_left))
      ]

  pub index_pages-calls :
      (left : ℕ) (l : Loop)
      → (loop_of (index_pages env end_ledger left l)).calls ≤ l.calls + left + retries l.cursor
  unfolding index_pages
  index_pages-calls zero l = omega arith
  index_pages-calls (suc left) l =
      let kept = fetch_page-IsRetried l in
      omega (
        arith,
        continue-calls (index_pages env end_ledger left) left (index_pages-calls left)
            (fetch_page env end_ledger l),
        kept,
      )

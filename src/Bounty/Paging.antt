-- ===== src/Bounty/Paging.antt =====
-- What a client sees that reads the pages of `listBounties`
-- (server/src/controllers/bounty.controller.ts) one after the other.
use learnvault.Prelude.{
  ℕ, zero, suc, ◌+◌, ◌-◌, ◌*◌, ◌/◌, ◌≡◌, ◌≤◌, ◌<◌, refl, ◌∙◌, String, Option, none, some, List, [],
  ◌∷◌, ◌++◌, length, length-append, min, take, drop, ap, sym, false, ◌==◌, arith,
}
use mathlib.Core.List.{Perm}
use native.Mathlib.Nat.{lt-div-mul-add, div-eq_of_lt-le, ℕ_set}
use text.Mathlib.TextEquality.{IsScalar-prop}
use learnvault.Prelude.Sort.{
  IsSortedDesc, sort_desc, sort-perm, sort-IsSortedDesc, pages, pages-all, page_of, length-sort,
}
use learnvault.Prelude.Int.{pos}
use learnvault.Prelude.Unique.{sort_unique}
use learnvault.Prelude.Rows.{DistinctBy}
use learnvault.Bounty.Types.{BountyStatus, Bounty}
use learnvault.Bounty.Listing.{
  Page, Order, matching, list_bounties, status_filter, pages_for, filters_of, list_bounties_handler,
}
use learnvault.Bounty.Request.{Server, Env}
use learnvault.Http.{Reply, done, failed, answer, or_fail, read, ◌>>=◌}

abbrev rows_of : Reply Page → List Bounty
rows_of (done p) = p.rows
rows_of (failed status text) = []

-- The bounties that a request selects.
abbrev pub requested : Env → Option String → Option BountyStatus → Server → List Bounty
requested env skill st s = matching env.lower (filters_of env skill st none none) s.db

enough : (n size : ℕ) → n ≤ (n + (suc size - 1)) / suc size * suc size
enough n size = omega (arith, lt-div-mul-add {a = n + (suc size - 1)} {b = suc size} (omega arith))

length-take-le : {A : Type 0} (n : ℕ) (xs : List A) → length (take n xs) ≤ n
length-take-le zero xs = omega arith
length-take-le (suc n) [] = omega arith
length-take-le (suc n) (x ∷ xs) = omega (arith, length-take-le n xs)

length-page : {A : Type 0} (n size : ℕ) (xs : List A) → length (page_of (suc n) size xs) ≤ size
length-page n size xs =
    let same : (suc n == 0) ≡ false = ground arith in
    rw same (length-take-le size (drop ((suc n - 1) * size) xs))

Bounty-set : IsSet Bounty
Bounty-set = hlevel (ℕ_set, IsScalar-prop)

-- What the answer to a page says of the number of pages.
abbrev pub pages_told : Reply Page → ℕ
pages_told (done p) = p.total_pages
pages_told (failed status text) = 0

-- A query orders the rows it finds, latest first.
abbrev pub IsLatestFirst : Order → Type 0
IsLatestFirst order =
    (rows : List Bounty)
    → Perm (order rows) rows × IsSortedDesc (λ (b : Bounty). b.created_at) (order rows)

-- The requests of a client, each answered in an order of its own.
module _ (env : Env) (orders : ℕ → Order) (skill status : Option String) (s : Server) where
  abbrev pub page_reply : ℕ → ℕ → Reply Page
  page_reply size n =
      (list_bounties_handler env (orders n) skill status (some (pos n)) (some (pos size)) s).0

  -- The rows of the answers to the pages 1 to n.
  abbrev pub served : ℕ → ℕ → List Bounty
  served size zero = []
  served size (suc n) = served size n ++ rows_of (page_reply size (suc n))

  -- A client that reads as many pages as the answer to the first one says.
  abbrev pub read_all : ℕ → List Bounty
  read_all size = served size (pages_told (page_reply size 1))

  module _ (st : Option BountyStatus) (ok : status_filter status ≡ some st) (size : ℕ) where
    page_served :
        (n : ℕ)
        → list_bounties_handler env
            (orders (suc n))
            skill
            status
            (some (pos (suc n)))
            (some (pos (suc size)))
            s
          ≡ (
            done record {
              rows =
                  page_of (suc n) (min (suc size) 100) (orders (suc n) (requested env skill st s));
              page = pos (suc n);
              page_size = pos (suc size);
              total = length (requested env skill st s);
              total_pages = pages_for (length (requested env skill st s)) (pos (suc size));
            },
            s,
          )
    unfolding list_bounties_handler list_bounties or_fail read answer ◌>>=◌
    page_served n = rw ok refl

    -- Every answer says how many pages of the size asked for hold the selected bounties.
    pages_told-requested :
        (n : ℕ)
        → pages_told (page_reply (suc size) (suc n))
          ≡ pages_for (length (requested env skill st s)) (pos (suc size))
    pages_told-requested n = ap (λ (r : Reply Page × Server). pages_told r.0) (page_served n)

    rows_served :
        (n : ℕ)
        → rows_of (page_reply (suc size) (suc n))
          ≡ page_of (suc n) (min (suc size) 100) (orders (suc n) (requested env skill st s))
    rows_served n = ap (λ (r : Reply Page × Server). rows_of r.0) (page_served n)

    served-pages :
        (ordered : List Bounty)
        → ((n : ℕ) → orders n (requested env skill st s) ≡ ordered)
        → (n : ℕ) → served (suc size) n ≡ pages n (min (suc size) 100) ordered
    served-pages ordered same zero = refl
    served-pages ordered same (suc n) =
        rw (rows_served n, same (suc n), served-pages ordered same n) refl

    length-served : (n : ℕ) → length (served (suc size) n) ≤ n * min (suc size) 100
    length-served zero = omega arith
    length-served (suc n) =
        rw
          (
            rows_served n,
            length-append (served (suc size) n)
                (page_of (suc n) (min (suc size) 100) (orders (suc n) (requested env skill st s))),
          )
          (omega (
            arith,
            length-served n,
            length-page n (min (suc size) 100) (orders (suc n) (requested env skill st s)),
          ))

-- Where no two of the selected bounties have one created_at, and every query orders by it, latest
-- first: a client that asks for pages of at most 100 bounties and reads as many as the answer to
-- the first page says there are gets the selected bounties, each as often as it is stored, latest
-- first.
pub pages_complete :
    (env : Env) (orders : ℕ → Order) (skill status : Option String) (st : Option BountyStatus)
    (s : Server) (size : ℕ)
    → ((n : ℕ) → IsLatestFirst (orders n))
    → status_filter status ≡ some st
    → DistinctBy (λ (b : Bounty). b.created_at) (requested env skill st s)
    → suc size ≤ 100
    → Perm (read_all env orders skill status s (suc size)) (requested env skill st s)
      × IsSortedDesc (λ (b : Bounty). b.created_at) (read_all env orders skill status s (suc size))
pages_complete env orders skill status st s size latest ok distinct small =
    let rows = requested env skill st s in
    let ordered = sort_desc (λ (b : Bounty). b.created_at) rows in
    let one_order : (n : ℕ) → orders n rows ≡ ordered = λ n. sym (
      sort_unique (λ (b : Bounty). b.created_at) Bounty-set rows (orders n rows) distinct
        (latest n rows).0 (latest n rows).1) in
    let count = pages_for (length rows) (pos (suc size)) in
    let cap : min (suc size) 100 ≡ suc size = omega arith in
    let room : length ordered ≤ count * suc size =
      rw (length-sort (λ (b : Bounty). b.created_at) rows) (enough (length rows) size) in
    let whole : served env orders skill status s (suc size) count ≡ ordered =
      served-pages env orders skill status s st ok size ordered one_order count
      ∙ (rw cap (pages-all count (suc size) ordered room)) in
    rw (pages_told-requested env orders skill status s st ok size 0, whole)
      (
        sort-perm (λ (b : Bounty). b.created_at) rows,
        sort-IsSortedDesc (λ (b : Bounty). b.created_at) rows,
      )

one_page_for : (n size : ℕ) → 0 < n → n ≤ suc size → (n + (suc size - 1)) / suc size ≡ 1
one_page_for n size h k = div-eq_of_lt-le (suc size) (omega arith) (omega arith)

-- However rows are ordered: a client that asks for pages of more bounties than are selected or as
-- many, where more than 100 are selected, is told by the answer to the first page that there is
-- one page, and gets at most 100 of them by reading it.
pub pages_short :
    (env : Env) (orders : ℕ → Order) (skill status : Option String) (st : Option BountyStatus)
    (s : Server) (size : ℕ)
    → status_filter status ≡ some st
    → 100 < length (requested env skill st s)
    → length (requested env skill st s) ≤ suc size
    → (pages_told (page_reply env orders skill status s (suc size) 1) ≡ 1)
      × (length (read_all env orders skill status s (suc size)) ≤ 100)
pages_short env orders skill status st s size ok many room =
    let rows = requested env skill st s in
    let told : pages_told (page_reply env orders skill status s (suc size) 1) ≡ 1 =
      pages_told-requested env orders skill status s st ok size 0
      ∙ one_page_for (length rows) size (omega arith) room in
    let cap : min (suc size) 100 ≡ 100 = omega arith in
    let cut : length (served env orders skill status s (suc size) 1) ≤ 1 * 100 =
      rw cap at (length-served env orders skill status s st ok size 1) in
    (told, rw told (omega arith))

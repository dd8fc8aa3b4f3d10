-- ===== src/Bounty/Listing.antt =====
-- The reads of server/src/controllers/bounty.controller.ts: `listBounties` of
-- server/src/db/bounty-store.ts with its pages, and one bounty with its submission. A number that
-- `Number.parseInt` does not find is none.
use learnvault.Prelude.{
  find?, ◌==◌, ℕ, zero, suc, ◌+◌, ◌-◌, ◌/◌, String, Option, none, some, List, Bool, true, ◌&&◌,
  ◌||◌, any, filter, length, min, str_eq, if◌then◌else◌,
}
use mathlib.Core.Option
use learnvault.Prelude.Sort.{page_of}
use learnvault.Prelude.Int.{ℤ, pos, negsuc}
use learnvault.Bounty.Types.{
  BountyStatus, claimed, submitted, approved, paid, cancelled, Bounty, BountySubmission, Db,
  status_eq,
}
use learnvault.Bounty.Store.{get_bounty_by_id}
use learnvault.Bounty.Handlers.{get_submission_by_bounty}
use learnvault.Bounty.Request.{Env, Action, bounty_id}
use learnvault.Http.{answer, or_fail, read, ◌>>=◌}

pub record BountyFilters : Type 0 where
  pub skill : Option String
  pub status : Option BountyStatus
  pub sponsor_addr : Option String
  pub page : Option ℤ
  pub page_size : Option ℤ

abbrev or_number : ℤ → Option ℤ → ℤ
or_number z none = z
or_number z (some n) = n

-- A missing or empty filter lets every bounty pass.
abbrev passes_skill : Option String → Bounty → Bool
passes_skill none b = true
passes_skill (some skill) b = if str_eq skill "" then true else any (str_eq skill) b.skill_tags

abbrev is_of_status : Option BountyStatus → Bounty → Bool
is_of_status none b = true
is_of_status (some status) b = status_eq b.status status

abbrev passes_sponsor : (String → String) → Option String → Bounty → Bool
passes_sponsor lower none b = true
passes_sponsor lower (some sponsor) b =
    if str_eq sponsor "" then true else str_eq (lower b.sponsor_addr) (lower sponsor)

-- LIMIT and OFFSET from the page and its size; Postgres refuses a negative one.
abbrev window : ℤ → ℤ → Option (ℕ × ℕ)
window page (pos zero) = some (0, 0)
window (pos (suc n)) (pos (suc size)) = some (min (suc size) 100, suc n)
window page size = none

-- The bounties that the WHERE clause selects.
abbrev pub matching : (String → String) → BountyFilters → Db → List Bounty
matching lower f db =
    filter
      (λ b.
        passes_skill f.skill b && is_of_status f.status b && passes_sponsor lower f.sponsor_addr b)
      db.bounties

-- ORDER BY created_at DESC, where the rows with one created_at come in an order of the database's own.
abbrev pub Order : Type 0
Order = List Bounty → List Bounty

abbrev pub rows_in : Order → Option (ℕ × ℕ) → List Bounty → Option (List Bounty × ℕ)
rows_in order none rows = none
rows_in order (some (size, page)) rows = some (page_of page size (order rows), length rows)

-- The rows of a page and the number of all, or none where the query fails.
unfoldable pub list_bounties :
    Order → (String → String) → BountyFilters → Db → Option (List Bounty × ℕ)
list_bounties order lower f db =
    rows_in order (window (or_number (pos 1) f.page) (or_number (pos 20) f.page_size))
      (matching lower f db)

-- `Number.parseInt(…) || n`
abbrev parsed_or : ℕ → Option ℤ → ℤ
parsed_or n none = pos n
parsed_or n (some (pos zero)) = pos n
parsed_or n (some z) = z

abbrev status_named : String → Option BountyStatus
status_named text =
    if str_eq text "open"
    then some BountyStatus.«open»
    else if str_eq text "claimed"
    then some claimed
    else if str_eq text "submitted"
    then some submitted
    else if str_eq text "approved"
    then some approved
    else if str_eq text "paid"
    then some paid
    else if str_eq text "cancelled"
    then some cancelled
    else none

-- None is an invalid filter; a missing or empty one filters nothing.
abbrev pub status_filter : Option String → Option (Option BountyStatus)
status_filter none = some none
status_filter (some text) =
    if str_eq text "" then some none else Option.map (λ st. some st) (status_named text)

pub record Page : Type 0 where
  pub rows : List Bounty
  pub page : ℤ
  pub page_size : ℤ
  pub total : ℕ
  pub total_pages : ℕ

-- Math.ceil(total / pageSize); the query has refused a negative size.
abbrev pub pages_for : ℕ → ℤ → ℕ
pages_for total (pos size) = (total + (size - 1)) / size
pages_for total (negsuc n) = 0

module _ (env : Env) where
  abbrev pub filters_of : Option String → Option BountyStatus → Option ℤ → Option ℤ → BountyFilters
  filters_of skill status page page_size = record {
    skill = skill;
    status = status;
    sponsor_addr = none;
    page = some (parsed_or 1 page);
    page_size = some (parsed_or 20 page_size);
  }

  unfoldable pub list_bounties_handler :
      Order → Option String → Option String → Option ℤ → Option ℤ → Action Page
  list_bounties_handler order skill status page page_size = do
    st ← or_fail (status_filter status) 400 "Invalid status filter"
    result ← read (λ s. list_bounties order env.lower (filters_of skill st page page_size) s.db)
    listed ← or_fail result 500 "Failed to list bounties"
    answer (record {
      rows = listed.0;
      page = parsed_or 1 page;
      page_size = parsed_or 20 page_size;
      total = listed.1;
      total_pages = pages_for listed.1 (parsed_or 20 page_size);
    })

abbrev pub shows_submission : BountyStatus → Bool
shows_submission status =
    status_eq status submitted || status_eq status approved || status_eq status paid

unfoldable pub get_bounty_by_id_handler : Option ℕ → Action (Bounty × Option BountySubmission)
get_bounty_by_id_handler param = do
  id ← bounty_id param
  found ← read (λ s. get_bounty_by_id id s.db)
  bounty ← or_fail found 404 "Bounty not found"
  submission ←
      read (λ s. if shows_submission bounty.status then get_submission_by_bounty id s.db else none)
  answer (bounty, submission)

-- `getSubmissionByBountyAndLearner`
unfoldable pub get_submission_by_bounty_and_learner :
    (String → String) → ℕ → String → Db → Option BountySubmission
get_submission_by_bounty_and_learner lower id learner db =
    find?
      (λ (s : BountySubmission). s.bounty_id == id && str_eq (lower s.learner_addr) (lower learner))
      db.submissions

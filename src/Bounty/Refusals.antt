-- ===== src/Bounty/Refusals.antt =====
-- Requests that server/src/controllers/bounty.controller.ts lets through and
-- server/src/db/bounty-store.ts then refuses.
use learnvault.Prelude.{
  ℕ, ◌≡◌, refl, String, Option, some, List, [], ◌∷◌, true, false, any, arith, find?, str_eq, All,
  Bool-cases, inl, inr,
}
use learnvault.Prelude.Rows.{DistinctBy, update-any, found_only}
use learnvault.Bounty.Types.{submitted, Bounty, is_valid_transition}
use learnvault.Bounty.Store.{
  has_id, get_bounty_by_id, cancel_bounty, is_cancellable_row, cancel_row,
}
use learnvault.Http.{failed, or_fail, read, call, ◌>>=◌, reject_if, positive_id}
use learnvault.Bounty.Request.{Server, Env, normalize_address}
use learnvault.Bounty.Handlers.{cancel_bounty_handler}

none_cancellable :
    (lower : String → String) (id : ℕ) (sponsor : String) (rows : List Bounty) (b : Bounty)
    → b.status ≡ submitted
    → All (λ r. has_id id r ≡ true → r ≡ b) rows
    → any (is_cancellable_row lower id sponsor) rows ≡ false
none_cancellable lower id sponsor [] b at only = refl
none_cancellable lower id sponsor (r ∷ rows) b at only =
    let rest = none_cancellable lower id sponsor rows b at only.1 in
    elim (Bool-cases (has_id id r)) [
      | inl e ↦ let one = only.0 e in rw (one, at, rest) (ground arith)
      | inr e ↦ rw (e, rest) refl
    ]

-- Where no two bounties have one id, a request of its sponsor to cancel a submitted bounty, which
-- the transition table allows, is answered 409 and changes nothing.
pub cancel_submitted :
    (env : Env) (who : Option String) (param : Option ℕ) (wallet : String) (id : ℕ) (s : Server)
    (b : Bounty)
    → normalize_address env who ≡ some wallet
    → positive_id param ≡ some id
    → find? (has_id id) s.db.bounties ≡ some b
    → b.status ≡ submitted
    → str_eq (env.lower b.sponsor_addr) wallet ≡ true
    → DistinctBy (λ (r : Bounty). r.id) s.db.bounties
    → cancel_bounty_handler env who param s ≡ (failed 409 "Failed to cancel bounty", s)
unfolding cancel_bounty_handler cancel_bounty get_bounty_by_id or_fail read call ◌>>=◌ reject_if
    is_valid_transition
cancel_submitted env who param wallet id s b here there found at owner distinct =
    let missed =
      none_cancellable env.lower id wallet s.db.bounties b at
        (found_only (λ (r : Bounty). r.id) id s.db.bounties b distinct found) in
    let same =
      update-any (is_cancellable_row env.lower id wallet) cancel_row s.db.bounties missed in
    rw (here, there, found, owner, at, missed, same) refl

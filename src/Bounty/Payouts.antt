-- ===== src/Bounty/Payouts.antt =====
-- What a bounty is paid over a history of requests (server/src/controllers/bounty.controller.ts,
-- server/src/services/bounty.service.ts): its escrow is released once it is paid, and only once.
use mathlib.Core.Option
use learnvault.Prelude.{
  ℕ, ◌≡◌, ◌≤◌, inl, inr, refl, ap, ◌∙◌, String, Option, none, some, List, [], ◌∷◌, ◌++◌, Bool, true,
  false, find?, filter, length, any, Bool-cases, arith, ◌==◌, ==_iff, find?-holds, if◌then◌else◌,
}
use learnvault.Prelude.Rows.{update, change, found_map}
use learnvault.Bounty.Types.{submitted, paid, Bounty, Db, status_eq}
use learnvault.Bounty.Store.{
  has_id, can_claim, can_submit, is_duplicate, claim_row, submit_row, is_open_row,
  is_cancellable_row, cancel_row, is_expired_claim, reopen_row, is_submitted_row, pay_row,
  create_bounty, claim_bounty, submit_work, cancel_bounty, approve_submission,
  reopen_expired_claims,
}
use learnvault.Bounty.Ops.{Op, create, claim, submit, approve, cancel, reopen, step}
use learnvault.Bounty.Invariant.{claimed_row}
use learnvault.Bounty.Transitions.{same_row}
use learnvault.Bounty.Request.{Payment, Server, Env}
use learnvault.Bounty.Requests.{Request, serve, serve_all, opened, Changes, serve-Ends}
use learnvault.Bounty.Effects.{IsQuiet, Stores}
use learnvault.Bounty.Settlement.{Settles, approve_pays}
use learnvault.Http.Ends.{EndsIn}
use learnvault.Http.{Reply, done, failed}
use mathlib.Core.Path.{subst}

abbrev is_paid_row : Option Bounty → Bool
is_paid_row none = false
is_paid_row (some b) = status_eq b.status paid

abbrev pub is_paid : ℕ → Db → Bool
is_paid p db = is_paid_row (find? (has_id p) db.bounties)

abbrev pub payments_of : ℕ → List Payment → ℕ
payments_of p payments = length (filter (λ x. x.bounty_id == p) payments)

abbrev pub one_if : Bool → ℕ
one_if b = if b then 1 else 0

module _ (p : ℕ) (db : Db) where
  -- An UPDATE under which the row of the bounty stays paid or unpaid.
  same_paid :
      (test : Bounty → Bool) (f : Bounty → Bounty)
      → ((r : Bounty) → (f r).id ≡ r.id)
      → ((b : Bounty)
          → find? (has_id p) db.bounties ≡ some b
          → test b ≡ true
          → status_eq (f b).status paid ≡ status_eq b.status paid)
      → is_paid_row (find? (has_id p) (update test f db.bounties)) ≡ is_paid p db
  same_paid test f same keep =
      ap is_paid_row (
        found_map (λ (r : Bounty). r.id) p (change test f) (λ r. ground (arith, same r))
          db.bounties)
      ∙ go (find? (has_id p) db.bounties) keep
    where
      go :
          (o : Option Bounty)
          → ((b : Bounty)
              → o ≡ some b
              → test b ≡ true
              → status_eq (f b).status paid ≡ status_eq b.status paid)
          → is_paid_row (Option.map (change test f) o) ≡ is_paid_row o
      go none keep = refl
      go (some b) keep = elim (Bool-cases (test b)) [
        | inl e ↦ rw e (keep b refl e)
        | inr e ↦ rw e refl
      ]

  append_unpaid :
      (rows : List Bounty) (r : Bounty)
      → status_eq r.status paid ≡ false
      → is_paid_row (find? (has_id p) (rows ++ r ∷ [])) ≡ is_paid_row (find? (has_id p) rows)
  append_unpaid [] r h = ground arith
  append_unpaid (b ∷ rows) r h = ground (arith, append_unpaid rows r h)

  claim_same :
      (now id : ℕ) (by : String) (deadline : ℕ)
      → is_paid p (claim_bounty now id by deadline db).1 ≡ is_paid p db
  unfolding claim_bounty
  claim_same now id by deadline =
      elim (Bool-cases (can_claim now (find? (has_id id) db.bounties))) [
        | inl e ↦
            rw e (
              same_paid (is_open_row id) (claim_row by deadline) (λ r. refl)
                (λ b f h. ground arith))
        | inr e ↦ rw e refl
      ]

  submit_same :
      (lower : String → String) (now id : ℕ) (learner : String) (repo_url notes : Option String)
      → is_paid p (submit_work lower now id learner repo_url notes db).1 ≡ is_paid p db
  unfolding submit_work
  submit_same lower now id learner repo_url notes =
      elim (Bool-cases (can_submit lower now learner (find? (has_id id) db.bounties))) [
        | inr e ↦ rw e refl
        | inl e ↦ elim (Bool-cases (any (is_duplicate id learner) db.submissions)) [
          | inl d ↦ rw (e, d) refl
          | inr d ↦
              let (c, locked, at) =
                claimed_row lower now learner (find? (has_id id) db.bounties) e in
              rw (e, d)
                (same_paid (has_id id) submit_row (λ r. refl)
                  (λ b found hit.
                    let one : b ≡ c = same_row id p db.bounties b c found locked hit in
                    ground arith))
        ]
      ]

  quiet_same :
      (lower : String → String) (now : ℕ) (op : Op)
      → IsQuiet op
      → is_paid p (step lower now op db) ≡ is_paid p db
  unfolding step create_bounty cancel_bounty reopen_expired_claims
  quiet_same lower now (create row) h = append_unpaid db.bounties _ refl
  quiet_same lower now (claim id by deadline) h = claim_same now id by deadline
  quiet_same lower now (submit id learner repo_url notes) h =
      submit_same lower now id learner repo_url notes
  quiet_same lower now (approve id payout_tx reward_tx) h = absurd h
  quiet_same lower now (cancel id sponsor) h =
      same_paid (is_cancellable_row lower id sponsor) cancel_row (λ r. refl) (λ b f e. ground arith)
  quiet_same lower now reopen h =
      same_paid (is_expired_claim now db.submissions) reopen_row (λ r. refl) (λ b f e. ground arith)

-- What the bounty was paid, against its row.
pub record IsSettled (p : ℕ) (s : Server) : Type 0 where
  pub released : payments_of p s.releases ≡ one_if (is_paid p s.db)
  pub minted : payments_of p s.mints ≤ one_if (is_paid p s.db)

module _ (p now id : ℕ) (payout reward : Option String) (db : Db) (b : Bounty)
    (found : find? (has_id id) db.bounties ≡ some b) (at : b.status ≡ submitted) where
  approved_here :
      (id == p) ≡ true
      → (is_paid p db ≡ false) × (is_paid p (approve_submission now id payout reward db).1 ≡ true)
  approved_here e =
      let here : id ≡ p = (==_iff id p).0 e in
      let stored = (approve_pays now id payout reward db b found at).0 in
      (
        subst (λ x. is_paid x db ≡ false) here (rw found (ground arith)),
        subst (λ x. is_paid x (approve_submission now id payout reward db).1 ≡ true) here
            (rw stored refl),
      )

  approved_other :
      (id == p) ≡ false → is_paid p (approve_submission now id payout reward db).1 ≡ is_paid p db
  unfolding approve_submission
  approved_other e =
      same_paid p db (is_submitted_row id) (pay_row now payout reward) (λ r. refl)
        (λ c there hit. absurd (ground (arith, find?-holds (has_id p) db.bounties c there)))

module _ (p : ℕ) (env : Env) (now : ℕ) (s s' : Server) (h : IsSettled p s) where
  Stores-IsSettled : Stores env now s s' → IsSettled p s'
  Stores-IsSettled (op, quiet, e) =
      let same = quiet_same p s.db env.lower now op quiet in
      rw e record { released = rw same h.released; minted = rw same h.minted }

  Settles-IsSettled : Settles now s s' → IsSettled p s'
  Settles-IsSettled t = elim (Bool-cases (t.id == p)) [
    | inl e ↦
        let (before, after) =
          approved_here p now t.id t.payout t.reward s.db t.bounty t.found t.at e in
        let none_yet : payments_of p s.releases ≡ 0 = h.released ∙ (rw before refl) in
        let no_tokens : payments_of p s.mints ≤ 0 = rw before at h.minted in
        record {
          released = rw (t.released, t.stored, after, e, none_yet) refl;
          minted =
              rw (t.stored, after)
                (elim t.minted [ inl m ↦ rw m (omega arith) | inr m ↦ rw (m, e) (omega arith) ]);
        }
    | inr e ↦
        let same = approved_other p now t.id t.payout t.reward s.db t.bounty t.found t.at e in
        record {
          released = rw (t.released, t.stored, same, e) h.released;
          minted =
              rw (t.stored, same)
                (elim t.minted [ inl m ↦ rw m h.minted | inr m ↦ rw (m, e) h.minted ]);
        }
  ]

module _ (p : ℕ) (env : Env) where
  serve-IsSettled :
      (now : ℕ) (r : Request) (s : Server) → IsSettled p s → IsSettled p (serve env now r s).1
  serve-IsSettled now r s h = go (serve env now r s).0 (serve-Ends env now s r).at
    where
      go :
          (a : Reply (Unit {0}))
          → EndsIn s (λ b s'. Changes env now s s') a (serve env now r s).1
          → IsSettled p (serve env now r s).1
      go (done a) (inl c) = Stores-IsSettled p env now s (serve env now r s).1 h c
      go (done a) (inr c) = Settles-IsSettled p env now s (serve env now r s).1 h c
      go (failed status text) same = rw same h

  run-IsSettled :
      (rs : List (ℕ × Request)) (s : Server) → IsSettled p s → IsSettled p (serve_all env rs s)
  unfolding serve_all
  run-IsSettled [] s h = h
  run-IsSettled ((now, r) ∷ rs) s h =
      run-IsSettled rs (serve env now r s).1 (serve-IsSettled now r s h)

-- Whatever requests reach an empty board, in whatever order, the escrow of a bounty has been
-- released once if the bounty is paid and never if it is not, and its tokens were minted once at
-- most, and only if it is paid.
pub serve_all-IsSettled :
    (env : Env) (rs : List (ℕ × Request)) (p : ℕ) → IsSettled p (serve_all env rs opened)
serve_all-IsSettled env rs p =
    run-IsSettled p env rs opened record { released = refl; minted = omega arith }

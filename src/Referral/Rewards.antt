-- ===== src/Referral/Rewards.antt =====
-- Who is paid for a referral, over any history of the referral program
-- (server/src/controllers/referral.controller.ts and the qualification after an approved milestone in
-- server/src/controllers/admin-milestones.controller.ts).
use learnvault.Prelude.{
  ℕ, ◌≡◌, inl, inr, refl, String, Option, none, some, List, [], ◌∷◌, Bool, true, false, ◌&&◌, ◌==◌,
  find?, Bool-cases, arith, str_eq→eq, find?-holds,
}
use learnvault.Prelude.Rows.{found_by_key}
use learnvault.Referral.Handlers.{Env, get_referral_code, claim_referral, stored_or_409}
use learnvault.Http.{call}
use learnvault.Http.Keeps.{Keeps, Keeps-call, keeps_rules}
use learnvault.Referral.Store.{
  pending, Referral, Db, has_status, has_id, is_referred, insert_referral, code_or_new,
  get_or_create_code, is_pending_row, qualify_row, qualify_update, qualify_found,
  qualify_referral_if_first_milestone,
}
use learnvault.Referral.Paid.{
  IsPaidOnce, PaidBy-status, mints_of, insert-IsPaidOnce, try_codes-IsPaidOnce, but-IsPaidBut,
  update-IsPaidBut, found_changed, reward-IsPaidOnce,
}

abbrev is_waiting : String → Referral → Bool
is_waiting scholar r = is_referred scholar r && has_status pending r

qualify-IsPaidOnce :
    (mints : String → Bool) (now approved : ℕ) (scholar : String) (db : Db)
    → IsPaidOnce db
    → IsPaidOnce (qualify_referral_if_first_milestone mints now approved scholar db)
unfolding qualify_referral_if_first_milestone
qualify-IsPaidOnce mints now approved scholar db h =
    go (find? (is_waiting scholar) db.referrals) refl
  where
    go :
        (o : Option Referral)
        → find? (is_waiting scholar) db.referrals ≡ o
        → IsPaidOnce (qualify_found mints now approved scholar o db)
    go none e = h
    go (some r) e =
        let hit = find?-holds (is_waiting scholar) db.referrals r e in
        let to_scholar : r.referred_addr ≡ scholar =
          str_eq→eq r.referred_addr scholar (ground arith) in
        let at : r.status ≡ pending = ground arith in
        let found : find? (has_id r.id) db.referrals ≡ some r =
          found_by_key (λ (x : Referral). x.id) (λ x. x) (is_waiting scholar) db.referrals r
            h.distinct e in
        let nothing : mints_of r.id db.mints ≡ [] =
          PaidBy-status r (mints_of r.id db.mints) at (rw found at (h.paid r.id)) in
        let waits : is_pending_row r.id r ≡ true = ground arith in
        let h1 =
          update-IsPaidBut r.id db (is_pending_row r.id) (qualify_row now) (λ x. refl) (λ x. refl)
            (λ x. ground arith) (but-IsPaidBut r.id db h) in
        let found1 =
          found_changed r.id db (is_pending_row r.id) (qualify_row now) r (λ x. refl) found waits in
        elim (Bool-cases (approved == 1)) [
          | inr no_first ↦ rw no_first h
          | inl first ↦
              rw (first, ← to_scholar)
                (reward-IsPaidOnce mints (qualify_update now r.id db) (qualify_row now r) h1 refl
                  found1 nothing)
        ]

code_or_new-IsPaidOnce :
    (now : ℕ) (codes : ℕ → String) (a : String) (o : Option Referral) (db : Db)
    → IsPaidOnce db
    → IsPaidOnce (code_or_new now codes a o db).1
code_or_new-IsPaidOnce now codes a (some r) db h = h
code_or_new-IsPaidOnce now codes a none db h = try_codes-IsPaidOnce now codes 10 a db h

module _ (env : Env) (now : ℕ) where
  call_code : (a : String) → Keeps IsPaidOnce (call (get_or_create_code now env.codes a))
  unfolding get_or_create_code
  call_code a =
      Keeps-call IsPaidOnce (get_or_create_code now env.codes a)
        (λ db h. code_or_new-IsPaidOnce now env.codes a _ db h)

  call_insert :
      (referrer referred code : String)
      → Keeps IsPaidOnce (call (insert_referral now referrer referred code))
  call_insert referrer referred code =
      Keeps-call IsPaidOnce (insert_referral now referrer referred code)
        (λ db h. insert-IsPaidOnce now db h referrer referred code)

  end-Keeps : (b : Bool) → Keeps IsPaidOnce (stored_or_409 b)
  end-Keeps true = search keeps_rules
  end-Keeps false = search keeps_rules

  code-Keeps : (user : Option String) → Keeps IsPaidOnce (get_referral_code env now user)
  unfolding get_referral_code
  code-Keeps user = search (keeps_rules, call_code) depth 12

  claim-Keeps : (user code : Option String) → Keeps IsPaidOnce (claim_referral env now user code)
  unfolding claim_referral
  claim-Keeps user code = search (keeps_rules, call_insert, end-Keeps) depth 24

-- What happens to the table: a request for a code, a claim, and the check after a milestone of a scholar
-- is approved, with the number of the scholar's approved reports and the mints that return.
pub data Op : Type 0 where
  get_code : Option String → Op
  claim : Option String → Option String → Op
  qualify : (String → Bool) → ℕ → String → Op

abbrev pub empty : Db
empty = record { referrals = []; next_id = 1; mints = [] }

module _ (env : Env) where
  unfoldable pub step : ℕ → Op → Db → Db
  step now (get_code user) db = (get_referral_code env now user db).1
  step now (claim user code) db = (claim_referral env now user code db).1
  step now (qualify mints approved scholar) db =
      qualify_referral_if_first_milestone mints now approved scholar db

  unfoldable pub run : List (ℕ × Op) → Db → Db
  run [] db = db
  run ((now, op) ∷ ops) db = run ops (step now op db)

  code-IsPaidOnce :
      (now : ℕ) (user : Option String) (db : Db)
      → IsPaidOnce db
      → IsPaidOnce (get_referral_code env now user db).1
  code-IsPaidOnce now user db h = (code-Keeps env now user).after db h

  claim-IsPaidOnce :
      (now : ℕ) (user code : Option String) (db : Db)
      → IsPaidOnce db
      → IsPaidOnce (claim_referral env now user code db).1
  claim-IsPaidOnce now user code db h = (claim-Keeps env now user code).after db h

  run-IsPaidOnce_from : (ops : List (ℕ × Op)) (db : Db) → IsPaidOnce db → IsPaidOnce (run ops db)
  unfolding run step
  run-IsPaidOnce_from [] db h = h
  run-IsPaidOnce_from ((now, get_code user) ∷ ops) db h =
      run-IsPaidOnce_from ops _ (code-IsPaidOnce now user db h)
  run-IsPaidOnce_from ((now, claim user code) ∷ ops) db h =
      run-IsPaidOnce_from ops _ (claim-IsPaidOnce now user code db h)
  run-IsPaidOnce_from ((now, qualify mints approved scholar) ∷ ops) db h =
      run-IsPaidOnce_from ops _ (qualify-IsPaidOnce mints now approved scholar db h)

-- After any history of the program, whatever mints return, no two referrals are of one address,
-- and what was minted for a referral is decided by its status: nothing while it is pending;
-- nothing or one mint to its referrer once it has qualified; one to its referrer and then one to
-- the referred address once it is rewarded. For an id of no referral nothing was minted.
pub run-IsPaidOnce : (env : Env) (ops : List (ℕ × Op)) → IsPaidOnce (run env ops empty)
run-IsPaidOnce env ops =
    run-IsPaidOnce_from env ops empty
      (record { distinct = tt; below = tt; one_each = tt; paid = λ id. refl })

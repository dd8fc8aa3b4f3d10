-- ===== src/Referral/Codes.antt =====
-- A code of one's own and a referral by another share the UNIQUE column referred_addr of the table
-- referrals (server/src/controllers/referral.controller.ts, migration 027): what follows from that.
use learnvault.Prelude.{
  ℕ, zero, suc, ◌≡◌, ◌≢◌, refl, ap, ◌∙◌, String, Option, none, some, List, [], ◌∷◌, ◌++◌, Bool,
  true, false, ◌&&◌, any, find?, arith, str_eq, str_eq_refl, not_str_eq,
}
use learnvault.Http.{done, failed, answer, fail, or_fail, read, call, ◌>>=◌}
use learnvault.Http.Keeps.{keeps_rules, Refuses, Refuses-bind, Refuses-or_fail-bind}
use learnvault.Referral.Store.{
  pending, Referral, Db, has_status, is_referred, is_own_code, new_referral, insert_referral,
  try_codes, get_or_create_code, lrn_to_atomic, minted, reward_lrn_bonus, qualify_update,
  qualify_found, qualify_referral_if_first_milestone,
}
use learnvault.Referral.Handlers.{Env, signed_in, get_referral_code, claim_referral, stored_or_409}

module _ (now : ℕ) (codes : ℕ → String) (a : String) where
  try_codes-none :
      (n : ℕ) (db : Db)
      → any (is_referred a) db.referrals ≡ true
      → ((try_codes now codes n a db).0 ≡ none)
        × ((try_codes now codes n a db).1.referrals ≡ db.referrals)
  unfolding try_codes
  try_codes-none zero db h = (refl, refl)
  try_codes-none (suc n) db h = rw h (try_codes-none n (record db { next_id = suc db.next_id }) h)

-- An address that was referred and has no code is answered 500 when it asks for one, whatever
-- codes are generated, and no row is stored.
pub referred_has_no_code :
    (env : Env) (now : ℕ) (a : String) (db : Db)
    → a ≢ ""
    → find? (is_own_code a) db.referrals ≡ none
    → any (is_referred a) db.referrals ≡ true
    → ((get_referral_code env now (some a) db).0 ≡ failed 500 "Failed to get referral code")
      × ((get_referral_code env now (some a) db).1.referrals ≡ db.referrals)
unfolding get_referral_code get_or_create_code or_fail call ◌>>=◌
referred_has_no_code env now a db named no_code referred =
    let signed : str_eq a "" ≡ false = not_str_eq a "" named in
    let tried = try_codes-none now env.codes a 10 db referred in
    rw (signed, no_code, tried.0) (refl, tried.1)

module _ (env : Env) (now : ℕ) (a : String) (rows : List Referral)
    (known : any (is_referred a) rows ≡ true) where
  Same : Db → Type 0
  Same db = db.referrals ≡ rows

  store-Refuses :
      (x referrer code : String)
      → signed_in (some a) ≡ some x
      → Refuses Same (do stored ← call (insert_referral now referrer x code); stored_or_409 stored)
  unfolding Same insert_referral call ◌>>=◌ fail
  store-Refuses x referrer code signed = record {
    refused = λ db same.
        let one : a ≡ x = ground arith in
        let hit : any (is_referred x) db.referrals ≡ true = rw (← one, same) known in
        rw hit (λ b e. cc, same);
  }

  claim-Refuses : (code : Option String) → Refuses Same (claim_referral env now (some a) code)
  unfolding claim_referral
  claim-Refuses code =
      Refuses-or_fail-bind Same (signed_in (some a)) 401 "Unauthorized" _
        (λ x signed. search (Refuses-bind, keeps_rules, store-Refuses) depth 24)

own_code-referred :
    (a : String) (rows : List Referral)
    → any (is_own_code a) rows ≡ true
    → any (is_referred a) rows ≡ true
own_code-referred a [] h = h
own_code-referred a (r ∷ rows) h = ground (arith, own_code-referred a rows)

-- An address that has a code of its own can claim no code: every claim is refused, and no row is
-- stored.
pub code_owner_cannot_claim :
    (env : Env) (now : ℕ) (a : String) (code : Option String) (db : Db)
    → any (is_own_code a) db.referrals ≡ true
    → ((b : Unit {0}) → (claim_referral env now (some a) code db).0 ≢ done b)
      × ((claim_referral env now (some a) code db).1.referrals ≡ db.referrals)
unfolding Same
code_owner_cannot_claim env now a code db h =
    (claim-Refuses env now a db.referrals (own_code-referred a db.referrals h) code).refused db refl

none_own :
    (a : String) (rows : List Referral)
    → any (is_referred a) rows ≡ false
    → find? (is_own_code a) rows ≡ none
none_own a [] h = refl
none_own a (r ∷ rows) h = ground (arith, none_own a rows)

only_new :
    (a : String) (rows : List Referral) (r : Referral)
    → any (is_referred a) rows ≡ false
    → is_referred a r ≡ true
    → r.status ≡ pending
    → find? (λ x. is_referred a x && has_status pending x) (rows ++ r ∷ []) ≡ some r
only_new a [] r h here at = ground arith
only_new a (x ∷ rows) r h here at = ground (arith, only_new a rows r)

reward-mints :
    (mints : String → Bool) (id : ℕ) (referrer a : String) (db : Db)
    → mints referrer ≡ true
    → mints a ≡ true
    → (reward_lrn_bonus mints id referrer a db).mints ≡ (minted a id (minted referrer id db)).mints
unfolding reward_lrn_bonus
reward-mints mints id referrer a db e d = rw (e, d) refl

qualify-mints :
    (mints : String → Bool) (now : ℕ) (a : String) (db : Db) (r : Referral)
    → find? (λ x. is_referred a x && has_status pending x) db.referrals ≡ some r
    → mints r.referrer_addr ≡ true
    → mints a ≡ true
    → (qualify_referral_if_first_milestone mints now 1 a db).mints
      ≡ (minted a r.id (minted r.referrer_addr r.id db)).mints
unfolding qualify_referral_if_first_milestone
qualify-mints mints now a db r found e d =
    ap (λ o. (qualify_found mints now 1 a o db).mints) found
    ∙ reward-mints mints r.id r.referrer_addr a (qualify_update now r.id db) e d

code_stored :
    (env : Env) (now : ℕ) (a : String) (db : Db)
    → a ≢ ""
    → any (is_referred a) db.referrals ≡ false
    → (get_referral_code env now (some a) db).1 ≡ record db {
      referrals = db.referrals ++ new_referral now db.next_id a a (env.codes 9) ∷ [];
      next_id = suc db.next_id;
    }
unfolding get_referral_code get_or_create_code or_fail call read answer ◌>>=◌ try_codes
code_stored env now a db named fresh =
    let signed : str_eq a "" ≡ false = not_str_eq a "" named in
    rw (signed, none_own a db.referrals fresh, fresh) refl

-- An address that is in no referral and asks for a code of its own becomes a referral of itself:
-- at its first approved milestone, if mints to it return, 100 LRN are minted to it twice.
pub self_referral_pays :
    (env : Env) (mints : String → Bool) (now later : ℕ) (a : String) (db : Db)
    → a ≢ ""
    → any (is_referred a) db.referrals ≡ false
    → mints a ≡ true
    → (qualify_referral_if_first_milestone mints later 1 a
        (get_referral_code env now (some a) db).1).mints
      ≡ (db.mints
          ++ record { to_address = a; amount_atomic = lrn_to_atomic 100; referral_id = db.next_id }
            ∷ [])
        ++ record { to_address = a; amount_atomic = lrn_to_atomic 100; referral_id = db.next_id }
          ∷ []
self_referral_pays env mints now later a db named fresh pays =
    let own = new_referral now db.next_id a a (env.codes 9) in
    ap (λ d. (qualify_referral_if_first_milestone mints later 1 a d).mints)
      (code_stored env now a db named fresh)
    ∙ qualify-mints mints later a _ own (only_new a db.referrals own fresh (str_eq_refl a) refl)
        pays pays

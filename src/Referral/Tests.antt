-- ===== src/Referral/Tests.antt =====
-- The referral program on small histories, and its theorems there.
use learnvault.Prelude.{
  ℕ, ◌≡◌, ◌≢◌, refl, some, none, List, [], ◌∷◌, ◌++◌, true, false, find?, any, str_eq→ne, String,
}
use learnvault.Http.{done, failed, answer, fail, or_fail, read, call, reject_if, ◌>>=◌}
use learnvault.Referral.Store.{
  Db, insert_referral, try_codes, get_or_create_code, reward_lrn_bonus, is_own_code, is_referred,
  lrn_to_atomic, qualify_referral_if_first_milestone,
}
use learnvault.Referral.Handlers.{Env, get_referral_code, claim_referral}
use learnvault.Referral.Paid.{IsPaidOnce, mints_of}
use learnvault.Referral.Rewards.{Op, get_code, claim, qualify, empty, step, run, run-IsPaidOnce}
use learnvault.Referral.Codes.{referred_has_no_code, code_owner_cannot_claim, self_referral_pays}

abbrev env : Env
env = record { trim = λ s. s; codes = λ n. "code"; verified = λ a. 1 }

-- The second claim is refused, since the claimant has asked for a code.
abbrev history : List (ℕ × Op)
history =
    (10, get_code (some "ga"))
    ∷ (20, claim (some "gb") (some "code"))
    ∷ (30, get_code (some "gc"))
    ∷ (40, claim (some "gc") (some "code"))
    ∷ (50, qualify (λ a. true) 1 "gb")
    ∷ (60, qualify (λ a. true) 1 "gb")
    ∷ (70, qualify (λ a. true) 1 "gc")
    ∷ []

abbrev two : Db
two = run env ((10, get_code (some "ga")) ∷ (20, claim (some "gb") (some "code")) ∷ []) empty

referral : Unit {0}
unfolding run step get_referral_code claim_referral insert_referral try_codes get_or_create_code
    reward_lrn_bonus qualify_referral_if_first_milestone answer fail or_fail read call reject_if
    ◌>>=◌
referral = tt

paid_test :
    (mints_of 2 (run env history empty).mints ≡ "ga" ∷ "gb" ∷ [])
    × (mints_of 3 (run env history empty).mints ≡ "gc" ∷ "gc" ∷ [])
    × (mints_of 1 (run env history empty).mints ≡ [])
unfolding referral
paid_test = (refl, refl, refl)

run-IsPaidOnce_example : IsPaidOnce (run env history empty)
run-IsPaidOnce_example = run-IsPaidOnce env history

gb_named : ◌≢◌ {A = String} "gb" ""
gb_named = str_eq→ne "gb" "" refl

gd_named : ◌≢◌ {A = String} "gd" ""
gd_named = str_eq→ne "gd" "" refl

gb_referred : any (is_referred "gb") two.referrals ≡ true
unfolding referral
gb_referred = refl

gb_has_no_code : find? (is_own_code "gb") two.referrals ≡ none
unfolding referral
gb_has_no_code = refl

ga_has_code : any (is_own_code "ga") two.referrals ≡ true
unfolding referral
ga_has_code = refl

gd_new : any (is_referred "gd") two.referrals ≡ false
unfolding referral
gd_new = refl

referred_has_no_code_example :
    ((get_referral_code env 80 (some "gb") two).0 ≡ failed 500 "Failed to get referral code")
    × ((get_referral_code env 80 (some "gb") two).1.referrals ≡ two.referrals)
referred_has_no_code_example =
    referred_has_no_code env 80 "gb" two gb_named gb_has_no_code gb_referred

code_owner_cannot_claim_example :
    ((b : Unit {0}) → (claim_referral env 80 (some "ga") (some "code") two).0 ≢ done b)
    × ((claim_referral env 80 (some "ga") (some "code") two).1.referrals ≡ two.referrals)
code_owner_cannot_claim_example = code_owner_cannot_claim env 80 "ga" (some "code") two ga_has_code

self_referral_pays_example :
    (qualify_referral_if_first_milestone
      (λ a. true)
      90
      1
      "gd"
      (get_referral_code env 80 (some "gd") two).1).mints
    ≡ (two.mints
        ++ record {
          to_address = "gd";
          amount_atomic = lrn_to_atomic 100;
          referral_id = two.next_id;
        }
          ∷ [])
      ++ record { to_address = "gd"; amount_atomic = lrn_to_atomic 100; referral_id = two.next_id }
        ∷ []
self_referral_pays_example = self_referral_pays env (λ a. true) 80 90 "gd" two gd_named gd_new refl

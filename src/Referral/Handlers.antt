-- ===== src/Referral/Handlers.antt =====
-- The handlers of server/src/controllers/referral.controller.ts. The random codes, `trim` and the number
-- of verified identities of an address are parameters.
use learnvault.Prelude.{
  ℕ, String, Option, none, some, List, Bool, true, not, ◌&&◌, ltb, find?, filter, length, str_eq,
  if◌then◌else◌,
}
use learnvault.Prelude.Sort.{sort_desc}
use learnvault.Http
use learnvault.Http.{Reply, done, failed, answer, fail, or_fail, read, call, ◌>>=◌, ◌>>◌, reject_if}
use learnvault.Referral.Store.{
  ReferralStatus, pending, qualified, rewarded, Referral, Db, has_status, is_referred,
  get_or_create_code, insert_referral,
}

pub record Env : Type 0 where
  pub trim : String → String
  pub codes : ℕ → String
  pub verified : String → ℕ

abbrev pub Action : Type 0 → Type 0
Action A = Http.Action Db A

pub record Summary : Type 0 where
  pub code : String
  pub pending_count : ℕ
  pub qualified_count : ℕ
  pub rewarded_count : ℕ

-- The referrals of others by an address.
abbrev pub is_referrer : String → Referral → Bool
is_referrer a r = str_eq r.referrer_addr a && not (str_eq r.referred_addr a)

abbrev pub count_of : String → ReferralStatus → Db → ℕ
count_of a status db = length (filter (λ r. is_referrer a r && has_status status r) db.referrals)

abbrev pub signed_in : Option String → Option String
signed_in none = none
signed_in (some a) = if str_eq a "" then none else some a

abbrev pub trimmed : (String → String) → Option String → Option String
trimmed trim none = none
trimmed trim (some text) = if str_eq (trim text) "" then none else some (trim text)

unfoldable pub get_referral_code : Env → ℕ → Option String → Action Summary
unfolding get_or_create_code
get_referral_code env now user = do
  a ← or_fail (signed_in user) 401 "Unauthorized"
  made ← call (get_or_create_code now env.codes a)
  code ← or_fail made 500 "Failed to get referral code"
  answer_with ← read (λ db. record {
    code = code;
    pending_count = count_of a pending db;
    qualified_count = count_of a qualified db;
    rewarded_count = count_of a rewarded db;
  })
  answer answer_with

-- `code = $1 AND referred_addr = referrer_addr`
abbrev pub owns_code : String → Referral → Bool
owns_code code r = str_eq r.code code && str_eq r.referred_addr r.referrer_addr

-- A referral of the address by somebody else.
abbrev pub is_referral_of : String → Referral → Bool
is_referral_of a r = is_referred a r && not (str_eq r.referred_addr r.referrer_addr)

abbrev pub is_found : {A : Type 0} → Option A → Bool
is_found none = Bool.false
is_found (some a) = true

abbrev pub stored_or_409 : Bool → Action (Unit {0})
stored_or_409 true = answer tt
stored_or_409 Bool.false = fail 409 "Already referred by someone"

unfoldable pub claim_referral : Env → ℕ → Option String → Option String → Action (Unit {0})
unfolding insert_referral
claim_referral env now user code_text = do
  a ← or_fail (signed_in user) 401 "Unauthorized"
  code ← or_fail (trimmed env.trim code_text) 400 "Missing required field: code"
  found ← read (λ db. find? (owns_code code) db.referrals)
  referrer ← or_fail found 404 "Invalid referral code"
  reject_if (str_eq referrer.referrer_addr a) 400 "Cannot refer yourself"
  earlier ← read (λ db. find? (is_referral_of a) db.referrals)
  reject_if (is_found earlier) 409 "Already referred by someone"
  reject_if (ltb (env.verified a) 1) 403 "Complete at least one identity verification first"
  stored ← call (insert_referral now referrer.referrer_addr a code)
  stored_or_409 stored

-- The referrals of others, latest first.
unfoldable pub get_my_referrals : Option String → Action (List Referral)
get_my_referrals user = do
  a ← or_fail (signed_in user) 401 "Unauthorized"
  read (λ db. sort_desc (λ (r : Referral). r.created_at) (filter (is_referrer a) db.referrals))

-- ===== src/Referral/Store.antt =====
-- The table referrals with its queries, those of server/src/controllers/referral.controller.ts and the
-- qualification of a referral in server/src/controllers/admin-milestones.controller.ts. An INSERT takes
-- an id also where the UNIQUE constraint on referred_addr refuses it.
use learnvault.Prelude.{
  ℕ, zero, suc, ◌*◌, ◌^◌, String, Option, none, some, List, [], ◌∷◌, ◌++◌, Bool, true, false, not,
  ◌&&◌, ◌==◌, any, find?, str_eq, if◌then◌else◌,
}
use learnvault.Prelude.Rows.{update}

pub data ReferralStatus : Type 0 where
  pending qualified rewarded : ReferralStatus

pub record Referral : Type 0 where
  pub id : ℕ
  pub referrer_addr : String
  pub referred_addr : String
  pub code : String
  pub status : ReferralStatus
  pub qualified_at : Option ℕ
  pub created_at : ℕ

-- A call of `mintLrn` that returned, for a referral.
pub record Mint : Type 0 where
  pub to_address : String
  pub amount_atomic : ℕ
  pub referral_id : ℕ

pub record Db : Type 0 where
  pub referrals : List Referral
  pub next_id : ℕ
  pub mints : List Mint

abbrev pub status_code : ReferralStatus → ℕ
status_code pending = 0
status_code qualified = 1
status_code rewarded = 2

abbrev pub has_status : ReferralStatus → Referral → Bool
has_status status r = status_code r.status == status_code status

abbrev pub has_id : ℕ → Referral → Bool
has_id id r = r.id == id

abbrev pub is_referred : String → Referral → Bool
is_referred a r = str_eq r.referred_addr a

-- The row of a code is a referral of its owner by the owner.
abbrev pub is_own_code : String → Referral → Bool
is_own_code a r = str_eq r.referrer_addr a && is_referred a r

abbrev pub new_referral : ℕ → ℕ → String → String → String → Referral
new_referral now id referrer referred code = record {
  id = id;
  referrer_addr = referrer;
  referred_addr = referred;
  code = code;
  status = pending;
  qualified_at = none;
  created_at = now;
}

-- An INSERT, and whether a row was stored.
unfoldable pub insert_referral : ℕ → String → String → String → Db → Bool × Db
insert_referral now referrer referred code db =
    if any (is_referred referred) db.referrals
    then (false, record db { next_id = suc db.next_id })
    else (
      true,
      record db {
        referrals = db.referrals ++ new_referral now db.next_id referrer referred code ∷ [];
        next_id = suc db.next_id;
      },
    )

-- The attempts of `getOrCreateCode` that are left, each with a code of its own.
unfoldable pub try_codes : ℕ → (ℕ → String) → ℕ → String → Db → Option String × Db
unfolding insert_referral
try_codes now codes zero a db = (none, db)
try_codes now codes (suc n) a db =
    let tried = insert_referral now a a (codes n) db in
    let rest = try_codes now codes n a tried.1 in
    if tried.0 then (some (codes n), tried.1) else rest

abbrev pub code_or_new : ℕ → (ℕ → String) → String → Option Referral → Db → Option String × Db
code_or_new now codes a (some r) db = (some r.code, db)
code_or_new now codes a none db = try_codes now codes 10 a db

-- None where it throws.
unfoldable pub get_or_create_code : ℕ → (ℕ → String) → String → Db → Option String × Db
get_or_create_code now codes a db = code_or_new now codes a (find? (is_own_code a) db.referrals) db

abbrev pub lrn_to_atomic : ℕ → ℕ
lrn_to_atomic amount = amount * 10 ^ 7

abbrev pub minted : String → ℕ → Db → Db
minted a id db = record db {
  mints =
      db.mints
      ++ record { to_address = a; amount_atomic = lrn_to_atomic 100; referral_id = id } ∷ [];
}

abbrev pub reward_row : Referral → Referral
reward_row r = record r { status = rewarded }

abbrev pub is_pending_row : ℕ → Referral → Bool
is_pending_row id r = has_id id r && has_status pending r

abbrev pub is_qualified_row : ℕ → Referral → Bool
is_qualified_row id r = has_id id r && has_status qualified r

-- The two mints, each of which may throw, and the UPDATE after both.
unfoldable pub reward_lrn_bonus : (String → Bool) → ℕ → String → String → Db → Db
reward_lrn_bonus mints id referrer scholar db =
    if not (mints referrer)
    then db
    else if not (mints scholar)
    then minted referrer id db
    else record (minted scholar id (minted referrer id db)) {
      referrals = update (is_qualified_row id) reward_row db.referrals;
    }

abbrev pub qualify_row : ℕ → Referral → Referral
qualify_row now r = record r { status = qualified; qualified_at = some now }

abbrev pub qualify_update : ℕ → ℕ → Db → Db
qualify_update now id db = record db {
  referrals = update (is_pending_row id) (qualify_row now) db.referrals;
}

abbrev pub qualify_found : (String → Bool) → ℕ → ℕ → String → Option Referral → Db → Db
qualify_found mints now approved scholar none db = db
qualify_found mints now approved scholar (some r) db =
    if approved == 1
    then reward_lrn_bonus mints r.id r.referrer_addr scholar (qualify_update now r.id db)
    else db

-- `approved` is the number of the scholar's approved reports.
unfoldable pub qualify_referral_if_first_milestone : (String → Bool) → ℕ → ℕ → String → Db → Db
unfolding reward_lrn_bonus
qualify_referral_if_first_milestone mints now approved scholar db =
    qualify_found mints now approved scholar
      (find? (λ r. is_referred scholar r && has_status pending r) db.referrals) db

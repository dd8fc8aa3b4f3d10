-- ===== src/Relayer/Sponsor.antt =====
-- Sponsored accounts (server/src/services/sponsorship.service.ts) over the tables of
-- server/src/db/sponsorship-store.ts. The Stellar SDK and its RPC are the parameters of a record.
use learnvault.Prelude.{
  ℕ, ◌+◌, ◌*◌, String, Option, none, some, Bool, false, not, ◌&&◌, ltb, str_eq, if◌then◌else◌,
}
use learnvault.Relayer.Store.{
  Db, create_account, insert_sponsored_account, record_spend, count_sponsored_accounts,
  sum_reserves_locked, sum_spend_since,
}
use learnvault.Relayer.Service.{Config, start_of_today_utc}

abbrev base_reserve_stroops : ℕ
base_reserve_stroops = 5000000

abbrev pub account_reserve_stroops : ℕ
account_reserve_stroops = 2 * base_reserve_stroops

-- STELLAR_NETWORK, USDC_ASSET_CODE and USDC_ASSET_ISSUER, beside the relayer's variables.
pub record SponsorConfig : Type 0 where
  pub relayer : Config
  pub stellar_network : String
  pub usdc_asset_code : String
  pub usdc_asset_issuer : String

pub record SignedTransaction : Type 0 where
  pub hash : String
  pub xdr : String

-- `build address trustline` loads the sponsor's account and gives the signed transaction, none where a
-- step throws; `sponsor_address` and `sponsor_balance` are none where their calls throw.
pub record SponsorSdk : Type 0 where
  pub is_valid_key : String → Bool
  pub build : String → Bool → Option SignedTransaction
  pub sponsor_address : Option String
  pub sponsor_balance : Option ℕ

abbrev pub network_passphrase : SponsorConfig → String
network_passphrase config =
    if str_eq config.stellar_network "mainnet"
    then "Public Global Stellar Network ; September 2015"
    else "Test SDF Network ; September 2015"

abbrev pub usdc_trustline_configured : SponsorConfig → Bool
usdc_trustline_configured config =
    not (str_eq config.usdc_asset_code "") && not (str_eq config.usdc_asset_issuer "")

pub record BuildSponsorAccountResult : Type 0 where
  pub xdr : String
  pub network_passphrase : String
  pub reserves_locked_stroops : ℕ
  pub includes_usdc_trustline : Bool

pub data BuildError : Type 0 where
  sponsor_not_configured invalid_learner_address sdk_failed : BuildError

pub data BuildAnswer : Type 0 where
  built : BuildSponsorAccountResult → BuildAnswer
  build_failed : BuildError → BuildAnswer

abbrev pub reserves_of : Bool → ℕ
reserves_of trustline =
    if trustline then account_reserve_stroops + base_reserve_stroops else account_reserve_stroops

-- The account and the spending are stored when the transaction is built.
abbrev pub store_build : ℕ → String → Bool → SignedTransaction → Db → Db
store_build now learner trustline tx db =
    record_spend now (reserves_of trustline) create_account (some learner) (some tx.hash)
      (insert_sponsored_account now learner tx.hash (reserves_of trustline) db).1

abbrev pub finish_build :
    SponsorConfig → ℕ → String → Bool → Option SignedTransaction → Db → BuildAnswer × Db
finish_build config now learner trustline none db = (build_failed sdk_failed, db)
finish_build config now learner trustline (some tx) db = (
  built (record {
    xdr = tx.xdr;
    network_passphrase = network_passphrase config;
    reserves_locked_stroops = reserves_of trustline;
    includes_usdc_trustline = trustline;
  }),
  store_build now learner trustline tx db,
)

unfoldable pub build_sponsor_account_transaction :
    SponsorConfig → SponsorSdk → ℕ → String → Bool → Db → BuildAnswer × Db
build_sponsor_account_transaction config sdk now learner with_usdc_trustline db =
    let trustline = with_usdc_trustline && usdc_trustline_configured config in
    if not config.relayer.has_sponsor_secret
    then (build_failed sponsor_not_configured, db)
    else if not (sdk.is_valid_key learner)
    then (build_failed invalid_learner_address, db)
    else finish_build config now learner trustline (sdk.build learner trustline) db

pub record SponsorStatus : Type 0 where
  pub sponsor_address : Option String
  pub sponsor_balance_stroops : Option ℕ
  pub accounts_sponsored : ℕ
  pub reserves_locked_stroops : ℕ
  pub spend_today_stroops : ℕ
  pub daily_spend_cap_stroops : ℕ
  pub low_balance_warning : Bool

abbrev low_balance_warning_stroops : ℕ
low_balance_warning_stroops = 10 * account_reserve_stroops

-- The balance is asked for only once the address is known.
abbrev pub known_balance : Option String → Option ℕ → Option ℕ
known_balance none balance = none
known_balance (some address) balance = balance

abbrev pub is_low : Option ℕ → Bool
is_low none = false
is_low (some stroops) = ltb stroops low_balance_warning_stroops

unfoldable pub get_sponsor_status : SponsorConfig → SponsorSdk → ℕ → Db → SponsorStatus
get_sponsor_status config sdk now db =
    let address = if config.relayer.has_sponsor_secret then sdk.sponsor_address else none in
    let balance = known_balance address sdk.sponsor_balance in
    record {
      sponsor_address = address;
      sponsor_balance_stroops = balance;
      accounts_sponsored = count_sponsored_accounts db;
      reserves_locked_stroops = sum_reserves_locked db;
      spend_today_stroops = sum_spend_since (start_of_today_utc now) db;
      daily_spend_cap_stroops = config.relayer.sponsor_daily_spend_cap_stroops;
      low_balance_warning = is_low balance;
    }

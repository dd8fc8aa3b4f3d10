-- ===== src/Relayer/Tests.antt =====
-- The relayer with one envelope and a network that accepts.
use learnvault.Prelude.{
  ℕ, String, List, ◌+◌, ◌≡◌, refl, some, none, [], ◌∷◌, true, false, str_eq, if◌then◌else◌, arith,
}
use learnvault.Relayer.Store.{
  insert_sponsored_account, mark_account_active, count_sponsored_accounts, sum_reserves_locked,
  record_spend, sum_spend_since,
}
use learnvault.Relayer.Service.{
  invoke_contract, other_operation, Transaction, plain, fee_bump_envelope, ParsedInnerTransaction,
  rejected, non_contract_operation, already_fee_bump, daily_cap_exceeded, Config, Network,
  parse_inner_transaction, validate_parsed_transaction, start_of_today_utc, State, relayed,
  relay_rejected, submit_fee_bump,
}
use learnvault.Relayer.Sponsor.{
  SponsorConfig, SponsorSdk, BuildSponsorAccountResult, build_sponsor_account_transaction,
  get_sponsor_status,
}
use learnvault.Relayer.Onboard.{build-Rejects}
use learnvault.Relayer.Cap.{Rejects}

abbrev config : Config
config = record {
  has_sponsor_secret = true;
  sponsor_max_fee_stroops = 1000;
  sponsor_daily_spend_cap_stroops = 1800;
  course_milestone_contract_id = "CM";
}

abbrev enroll_tx : Transaction
enroll_tx = record {
  source = "GA";
  fee = 900;
  operations = invoke_contract (some "CM") "enroll" ∷ [];
}

abbrev payment_tx : Transaction
payment_tx = record { source = "GA"; fee = 900; operations = other_operation ∷ [] }

abbrev net : Network
net = record {
  decode = λ xdr.
      if str_eq xdr "enroll"
      then some (plain enroll_tx)
      else if str_eq xdr "pay"
      then some (plain payment_tx)
      else some fee_bump_envelope;
  base_fee = 100;
  send = λ xdr fee. some "hash";
}

abbrev parsed : ParsedInnerTransaction
parsed = record {
  source_account = "GA";
  fee_stroops = 900;
  operations = record { contract_id = "CM"; function_name = "enroll" } ∷ [];
}

abbrev nothing : State
nothing = record { db = record { accounts = []; spends = [] }; submissions = [] }

relayer : Unit {0}
unfolding submit_fee_bump parse_inner_transaction validate_parsed_transaction record_spend
    sum_spend_since insert_sponsored_account mark_account_active count_sponsored_accounts
    sum_reserves_locked
relayer = tt

parse_test : parse_inner_transaction net "pay" ≡ rejected non_contract_operation
unfolding relayer
parse_test = refl

fee_bump_test : parse_inner_transaction net "other" ≡ rejected already_fee_bump
unfolding relayer
fee_bump_test = refl

relay_test : (submit_fee_bump config net 5 "enroll" "GA" nothing).0 ≡ relayed "hash"
unfolding relayer
relay_test = refl

cap_test :
    (submit_fee_bump config net 6 "enroll" "GA"
      (submit_fee_bump config net 5 "enroll" "GA" nothing).1).0
    ≡ relay_rejected daily_cap_exceeded
unfolding relayer
cap_test = refl

accounts_test :
    let db = mark_account_active 2 "GA" (insert_sponsored_account 1 "GA" "h" 50 nothing.db).1 in
    (count_sponsored_accounts db ≡ 1)
    × (sum_reserves_locked (insert_sponsored_account 3 "GA" "k" 70 db).1 ≡ 70)
unfolding relayer
accounts_test = (refl, refl)

-- The second request meets a network that answers with an error.
abbrev requests : List (Network × (ℕ × (String × String)))
requests =
    (net, (5, ("enroll", "GA")))
    ∷ (record net { send = λ xdr fee. none }, (6, ("enroll", "GA")))
    ∷ (net, (7, ("enroll", "GA")))
    ∷ []

-- A build on the day of a cap of 1800.
abbrev sponsor_config : SponsorConfig
sponsor_config = record {
  relayer = config;
  stellar_network = "testnet";
  usdc_asset_code = "";
  usdc_asset_issuer = "";
}

abbrev sdk : SponsorSdk
sdk = record {
  is_valid_key = λ a. true;
  build = λ a trustline. some (record { hash = "h"; xdr = "x" });
  sponsor_address = some "GS";
  sponsor_balance = some 90000000;
}

abbrev idle : State
idle = record { db = record { accounts = []; spends = [] }; submissions = [] }

abbrev account : BuildSponsorAccountResult
account = record {
  xdr = "x";
  network_passphrase = "Test SDF Network ; September 2015";
  reserves_locked_stroops = 10000000;
  includes_usdc_trustline = false;
}

status_test :
    get_sponsor_status sponsor_config sdk 90000000
      (build_sponsor_account_transaction sponsor_config sdk 90000000 "GA" true idle.db).1
    ≡ record {
      sponsor_address = some "GS";
      sponsor_balance_stroops = some 90000000;
      accounts_sponsored = 1;
      reserves_locked_stroops = 10000000;
      spend_today_stroops = 10000000;
      daily_spend_cap_stroops = 1800;
      low_balance_warning = true;
    }
unfolding relayer get_sponsor_status build_sponsor_account_transaction
status_test = refl

build-Rejects_example :
    let answer = build_sponsor_account_transaction sponsor_config sdk 90000000 "GA" true idle.db in
    let after = record idle { db = answer.1 } in
    (sum_spend_since (start_of_today_utc 90000000) after.db
      ≡ sum_spend_since (start_of_today_utc 90000000) idle.db + 10000000)
    × Rejects config net after (submit_fee_bump config net 90001000 "enroll" "GB" after)
unfolding relayer build_sponsor_account_transaction
build-Rejects_example =
    build-Rejects sponsor_config sdk net 90000000 90001000 "GA" "GB" "enroll" true account idle refl
      refl (omega arith)

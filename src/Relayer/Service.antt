-- ===== src/Relayer/Service.antt =====
-- server/src/services/relayer.service.ts. What the SDK decodes, its BASE_FEE and the answer of the network
-- are parameters; the transactions handed to `sendTransaction` are a list.
use learnvault.Prelude.{
  ℕ, ◌+◌, ◌*◌, ◌/◌, String, Option, none, some, List, [], ◌∷◌, ◌++◌, Bool, true, false, not, ◌&&◌,
  ◌||◌, ltb, str_eq, if◌then◌else◌,
}
use learnvault.Relayer.Store.{Db, fee_bump, sum_spend_since, record_spend}

-- An operation as the SDK gives it: a call of a contract, whose address may not decode, or any other
-- operation or host function.
pub data Operation : Type 0 where
  invoke_contract : Option String → String → Operation
  other_operation : Operation

pub record Transaction : Type 0 where
  pub source : String
  pub fee : ℕ
  pub operations : List Operation

pub data Envelope : Type 0 where
  fee_bump_envelope : Envelope
  plain : Transaction → Envelope

pub record ParsedOperation : Type 0 where
  pub contract_id : String
  pub function_name : String

pub record ParsedInnerTransaction : Type 0 where
  pub source_account : String
  pub fee_stroops : ℕ
  pub operations : List ParsedOperation

pub data RelayRejectionReason : Type 0 where
  invalid_envelope already_fee_bump no_operations non_contract_operation : RelayRejectionReason
  not_allowlisted source_mismatch fee_over_cap daily_cap_exceeded relayer_not_configured :
      RelayRejectionReason

pub data Parsed (A : Type 0) : Type 0 where
  accepted : A → Parsed A
  rejected : RelayRejectionReason → Parsed A

-- The environment variables.
pub record Config : Type 0 where
  pub has_sponsor_secret : Bool
  pub sponsor_max_fee_stroops : ℕ
  pub sponsor_daily_spend_cap_stroops : ℕ
  pub course_milestone_contract_id : String

-- `send` takes the inner envelope and the base fee, and gives the hash unless the status is ERROR.
pub record Network : Type 0 where
  pub decode : String → Option Envelope
  pub base_fee : ℕ
  pub send : String → ℕ → Option String

abbrev pub prepend : String → String → Parsed (List ParsedOperation) → Parsed (List ParsedOperation)
prepend c f (accepted rest) = accepted (record { contract_id = c; function_name = f } ∷ rest)
prepend c f (rejected reason) = rejected reason

abbrev pub parse_operations : List Operation → Parsed (List ParsedOperation)
parse_operations [] = accepted []
parse_operations (other_operation ∷ ops) = rejected non_contract_operation
parse_operations (invoke_contract none f ∷ ops) = rejected non_contract_operation
parse_operations (invoke_contract (some c) f ∷ ops) = prepend c f (parse_operations ops)

abbrev pub with_operations :
    Transaction → Parsed (List ParsedOperation) → Parsed ParsedInnerTransaction
with_operations tx (rejected reason) = rejected reason
with_operations tx (accepted ops) =
    accepted (record { source_account = tx.source; fee_stroops = tx.fee; operations = ops })

abbrev pub is_empty : List Operation → Bool
is_empty [] = true
is_empty (op ∷ ops) = false

-- `parseInnerTransaction` on what the SDK decodes.
abbrev pub parse_envelope : Option Envelope → Parsed ParsedInnerTransaction
parse_envelope none = rejected invalid_envelope
parse_envelope (some fee_bump_envelope) = rejected already_fee_bump
parse_envelope (some (plain tx)) =
    if is_empty tx.operations
    then rejected no_operations
    else with_operations tx (parse_operations tx.operations)

unfoldable pub parse_inner_transaction : Network → String → Parsed ParsedInnerTransaction
parse_inner_transaction net xdr = parse_envelope (net.decode xdr)

-- `buildAllowlist` and its lookup: nothing is allowed if the contract id is empty.
abbrev pub is_allowed : Config → ParsedOperation → Bool
is_allowed config op =
    not (str_eq config.course_milestone_contract_id "")
    && str_eq op.contract_id config.course_milestone_contract_id
    && (str_eq op.function_name "enroll" || str_eq op.function_name "submit_milestone")

abbrev pub all_allowed : Config → List ParsedOperation → Bool
all_allowed config [] = true
all_allowed config (op ∷ ops) = if is_allowed config op then all_allowed config ops else false

-- The reason of the rejection thrown, if one is.
unfoldable pub validate_parsed_transaction :
    Config → ParsedInnerTransaction → String → ℕ → Option RelayRejectionReason
validate_parsed_transaction config parsed learner spend_today =
    if not (str_eq parsed.source_account learner)
    then some source_mismatch
    else if not (all_allowed config parsed.operations)
    then some not_allowlisted
    else if ltb config.sponsor_max_fee_stroops parsed.fee_stroops
    then some fee_over_cap
    else if ltb config.sponsor_daily_spend_cap_stroops
        (spend_today + config.sponsor_max_fee_stroops)
    then some daily_cap_exceeded
    else none

abbrev pub ms_per_day : ℕ
ms_per_day = 86400000

abbrev pub start_of_today_utc : ℕ → ℕ
start_of_today_utc now = now / ms_per_day * ms_per_day

pub record Submission : Type 0 where
  pub inner_tx_xdr : String
  pub base_fee : ℕ

pub record State : Type 0 where
  pub db : Db
  pub submissions : List Submission

pub data FeeBumpResult : Type 0 where
  relayed : String → FeeBumpResult
  relay_rejected : RelayRejectionReason → FeeBumpResult
  submission_failed : FeeBumpResult

module _ (config : Config) (net : Network) where
  abbrev pub fee_bump_base_fee : ParsedInnerTransaction → ℕ
  fee_bump_base_fee parsed =
      if ltb net.base_fee parsed.fee_stroops then parsed.fee_stroops else net.base_fee

  -- After `sendTransaction`.
  abbrev pub answered :
      ℕ → String → ParsedInnerTransaction → Option String → State → FeeBumpResult × State
  answered now learner parsed none s = (submission_failed, s)
  answered now learner parsed (some hash) s = (
    relayed hash,
    record s { db = record_spend now parsed.fee_stroops fee_bump (some learner) (some hash) s.db },
  )

  abbrev pub relay :
      ℕ
      → String
      → String
      → ParsedInnerTransaction
      → Option RelayRejectionReason
      → State
      → FeeBumpResult × State
  relay now xdr learner parsed (some reason) s = (relay_rejected reason, s)
  relay now xdr learner parsed none s =
      let fee = fee_bump_base_fee parsed in
      answered now learner parsed (net.send xdr fee) (record s {
        submissions = s.submissions ++ record { inner_tx_xdr = xdr; base_fee = fee } ∷ [];
      })

  abbrev pub relay_parsed :
      ℕ → String → String → Parsed ParsedInnerTransaction → State → FeeBumpResult × State
  relay_parsed now xdr learner (rejected reason) s = (relay_rejected reason, s)
  relay_parsed now xdr learner (accepted parsed) s =
      let spend_today = sum_spend_since (start_of_today_utc now) s.db in
      relay now xdr learner parsed (validate_parsed_transaction config parsed learner spend_today) s

  unfoldable pub submit_fee_bump : ℕ → String → String → State → FeeBumpResult × State
  submit_fee_bump now xdr learner s =
      if not config.has_sponsor_secret
      then (relay_rejected relayer_not_configured, s)
      else relay_parsed now xdr learner (parse_inner_transaction net xdr) s

-- ===== src/Indexer/Decode.antt =====
-- server/src/lib/lrn-events.ts. The topics and the value of an event are as `toNative` gives them, which is
-- the SDK's decoding; BigInt and Date are parameters.
use Prim.Native.Char.{code}
use learnvault.Prelude.{
  ℕ, zero, suc, String, Option, none, some, List, [], ◌∷◌, ◌==◌, str_eq, if◌then◌else◌,
}
use learnvault.Prelude.Int.{ℤ, pos, negsuc}
use learnvault.Balance.Store.{LrnBalanceDelta, LrnBalanceEventType, mint, burn}

-- `other` is any value of no use here: a number, a Boolean, an array.
mutual
  pub data Native : Type 0 where
    null : Native
    text : String → Native
    bigint : ℤ → Native
    object : Fields → Native
    other : Native

  pub data Fields : Type 0 where
    end : Fields
    field : String → Native → Fields → Fields

-- A property of an object, where a missing one counts as `null`.
abbrev pub get_field : String → Fields → Native
get_field k end = null
get_field k (field j v fs) = if str_eq j k then v else get_field k fs

-- `ledger` is `Number(event.ledger)`, none if that is not finite; `topic` is none if it is no array.
pub record RawContractEvent : Type 0 where
  pub id : String
  pub ledger : Option ℕ
  pub ledger_closed_at : Option String
  pub tx_hash : Option String
  pub topic : Option (List Native)
  pub value : Native

-- `BigInt(String(v))`, none if it throws, and `new Date(s)`.
pub record Js : Type 0 where
  pub big_int : Native → Option ℤ
  pub date : String → ℕ

abbrev pub lrn_mint_topic : String
lrn_mint_topic = "lrn_mint"

abbrev pub lrn_burn_topic : String
lrn_burn_topic = "lrn_burned"

-- The amount less one, if it is positive.
abbrev pub positive : Option ℤ → Option ℕ
positive none = none
positive (some (pos zero)) = none
positive (some (pos (suc n))) = some n
positive (some (negsuc n)) = none

abbrev pub parse_positive_amount : Js → Native → Option ℕ
parse_positive_amount js null = none
parse_positive_amount js (bigint n) = positive (some n)
parse_positive_amount js (text s) = positive (js.big_int (text s))
parse_positive_amount js (object fs) = positive (js.big_int (object fs))
parse_positive_amount js other = positive (js.big_int other)

abbrev pub non_empty : String → Option String
non_empty s = if str_eq s "" then none else some s

abbrev pub parse_address : Native → Option String
parse_address (text s) = non_empty s
parse_address null = none
parse_address (bigint n) = none
parse_address (object fs) = none
parse_address other = none

-- The text up to the next dash.
abbrev pub until_dash : String → String
until_dash String.[] = String.[]
until_dash (String.◌∷◌ c s) = if code c == b'-' then String.[] else String.◌∷◌ c (until_dash s)

-- `parts[1]` of `id.split("-")`, if it is there and not empty.
abbrev pub second_part : String → Option String
second_part String.[] = none
second_part (String.◌∷◌ c s) = if code c == b'-' then non_empty (until_dash s) else second_part s

abbrev pub or_second_part : String → Option String → Option String
or_second_part id none = second_part id
or_second_part id (some h) = if str_eq h "" then second_part id else some h

abbrev pub resolve_tx_hash : RawContractEvent → Option String
resolve_tx_hash e = or_second_part e.id e.tx_hash

abbrev pub date_of : Js → Option String → Option ℕ
date_of js none = none
date_of js (some s) = if str_eq s "" then none else some (js.date s)

abbrev pub second_topic : List Native → Native
second_topic [] = null
second_topic (t ∷ ts) = t

abbrev pub delta_of :
    Js
    → RawContractEvent
    → ℕ
    → LrnBalanceEventType
    → (ℕ → ℤ)
    → Option String
    → Option ℕ
    → Option LrnBalanceDelta
delta_of js e ledger kind sign none amount = none
delta_of js e ledger kind sign (some a) none = none
delta_of js e ledger kind sign (some a) (some n) = some (record {
  event_id = e.id;
  address = a;
  delta = sign n;
  event_type = kind;
  ledger_sequence = ledger;
  tx_hash = resolve_tx_hash e;
  occurred_at = date_of js e.ledger_closed_at;
})

abbrev pub decode_burn : Js → RawContractEvent → ℕ → Native → Option LrnBalanceDelta
decode_burn js e ledger (object fs) =
    delta_of js e ledger burn negsuc (parse_address (get_field "from" fs))
      (parse_positive_amount js (get_field "amount" fs))
decode_burn js e ledger null = none
decode_burn js e ledger (text s) = none
decode_burn js e ledger (bigint n) = none
decode_burn js e ledger other = none

abbrev pub decode_named :
    Js → RawContractEvent → String → List Native → Option ℕ → Option LrnBalanceDelta
decode_named js e name rest none = none
decode_named js e name rest (some ledger) =
    if str_eq name lrn_mint_topic
    then delta_of js e ledger mint (λ n. pos (suc n)) (parse_address (second_topic rest))
        (parse_positive_amount js e.value)
    else if str_eq name lrn_burn_topic
    then decode_burn js e ledger e.value
    else none

abbrev pub decode_topic : Js → RawContractEvent → Option (List Native) → Option LrnBalanceDelta
decode_topic js e none = none
decode_topic js e (some []) = none
decode_topic js e (some (text name ∷ rest)) = decode_named js e name rest e.ledger
decode_topic js e (some (null ∷ rest)) = none
decode_topic js e (some (bigint n ∷ rest)) = none
decode_topic js e (some (object fs ∷ rest)) = none
decode_topic js e (some (other ∷ rest)) = none

unfoldable pub decode_lrn_balance_delta : Js → RawContractEvent → Option LrnBalanceDelta
decode_lrn_balance_delta js e = if str_eq e.id "" then none else decode_topic js e e.topic

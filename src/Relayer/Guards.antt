-- ===== src/Relayer/Guards.antt =====
-- What the relayer accepts and submits (server/src/services/relayer.service.ts).
use learnvault.Prelude.{
  ℕ, ◌+◌, ◌≤◌, ◌≡◌, ◌≢◌, ◌⊎◌, ◌↔◌, refl, sym, ap, ◌∙◌, String, Option, none, some, List, [], ◌∷◌,
  map, true, false, str_eq, str_eq→eq, str_eq→ne, str_eq_refl, not_str_eq, All, Bool-cases, inl,
  inr, arith,
}
use learnvault.Relayer.Service.{
  Operation, invoke_contract, other_operation, Transaction, Envelope, fee_bump_envelope, plain,
  ParsedOperation, ParsedInnerTransaction, no_operations, Parsed, accepted, rejected, Config,
  Network, parse_operations, prepend, with_operations, is_empty, parse_envelope,
  parse_inner_transaction, is_allowed, all_allowed, validate_parsed_transaction,
}

abbrev pub call : ParsedOperation → Operation
call op = invoke_contract (some op.contract_id) op.function_name

-- The transaction that a parsed one stands for.
abbrev pub inner : ParsedInnerTransaction → Transaction
inner p = record {
  source = p.source_account;
  fee = p.fee_stroops;
  operations = map call p.operations;
}

abbrev operations_of : Parsed (List ParsedOperation) → List ParsedOperation
operations_of (accepted ops) = ops
operations_of (rejected reason) = []

prepend-accepted :
    (c f : String) (o : Parsed (List ParsedOperation)) (ops : List Operation)
    (parsed : List ParsedOperation)
    → ((rest : List ParsedOperation) → o ≡ accepted rest → map call rest ≡ ops)
    → prepend c f o ≡ accepted parsed
    → map call parsed ≡ invoke_contract (some c) f ∷ ops
prepend-accepted c f (accepted rest) ops parsed ih h =
    let tail : record { contract_id = c; function_name = f } ∷ rest ≡ parsed = ap operations_of h in
    ap (map call) (sym tail) ∙ ap (λ l. invoke_contract (some c) f ∷ l) (ih rest refl)
prepend-accepted c f (rejected reason) ops parsed ih h = ground (arith, h)

parse_operations-accepted :
    (ops : List Operation) (parsed : List ParsedOperation)
    → parse_operations ops ≡ accepted parsed
    → map call parsed ≡ ops
parse_operations-accepted [] parsed h =
    let none_parsed : [] ≡ parsed = ap operations_of h in ap (map call) (sym none_parsed)
parse_operations-accepted (other_operation ∷ ops) parsed h = ground (arith, h)
parse_operations-accepted (invoke_contract none f ∷ ops) parsed h = ground (arith, h)
parse_operations-accepted (invoke_contract (some c) f ∷ ops) parsed h =
    prepend-accepted c f (parse_operations ops) ops parsed
      (λ rest e. parse_operations-accepted ops rest e) h

parse_operations-map :
    (parsed : List ParsedOperation) → parse_operations (map call parsed) ≡ accepted parsed
parse_operations-map [] = refl
parse_operations-map (op ∷ parsed) =
    ap (prepend op.contract_id op.function_name) (parse_operations-map parsed)

abbrev pub IsAllowed : Config → ParsedOperation → Type 0
IsAllowed config op =
    (config.course_milestone_contract_id ≢ "")
    × (op.contract_id ≡ config.course_milestone_contract_id)
    × ((op.function_name ≡ "enroll") ⊎ (op.function_name ≡ "submit_milestone"))

allowed :
    (config : Config) (op : ParsedOperation) → is_allowed config op ≡ true → IsAllowed config op
allowed config op h =
    let id = config.course_milestone_contract_id in
    let present : str_eq id "" ≡ false = ground (arith, h) in
    let same : str_eq op.contract_id id ≡ true = ground (arith, h) in
    (
      str_eq→ne id "" present,
      str_eq→eq op.contract_id id same,
      elim (Bool-cases (str_eq op.function_name "enroll")) [
        | inl e ↦ inl (str_eq→eq op.function_name "enroll" e)
        | inr e ↦
            let f : str_eq op.function_name "submit_milestone" ≡ true = ground (arith, h, e) in
            inr (str_eq→eq op.function_name "submit_milestone" f)
      ],
    )

is_allowed-true :
    (config : Config) (op : ParsedOperation) → IsAllowed config op → is_allowed config op ≡ true
is_allowed-true config op h =
    let id = config.course_milestone_contract_id in
    let present : str_eq id "" ≡ false = not_str_eq id "" h.0 in
    let same : str_eq op.contract_id id ≡ true = rw h.1 (str_eq_refl id) in
    elim h.2 [ inl e ↦ rw (present, same, e) refl | inr e ↦ rw (present, same, e) refl ]

all_allowed-All :
    (config : Config) (ops : List ParsedOperation)
    → all_allowed config ops ≡ true
    → All (IsAllowed config) ops
all_allowed-All config [] h = tt
all_allowed-All config (op ∷ ops) h =
    let first : is_allowed config op ≡ true = ground (arith, h) in
    let rest : all_allowed config ops ≡ true = ground (arith, h) in
    (allowed config op first, all_allowed-All config ops rest)

All-all_allowed :
    (config : Config) (ops : List ParsedOperation)
    → All (IsAllowed config) ops
    → all_allowed config ops ≡ true
All-all_allowed config [] h = refl
All-all_allowed config (op ∷ ops) h =
    rw (is_allowed-true config op h.0) (All-all_allowed config ops h.1)

abbrev parsed_or : ParsedInnerTransaction → Parsed ParsedInnerTransaction → ParsedInnerTransaction
parsed_or d (accepted p) = p
parsed_or d (rejected reason) = d

with_operations-accepted :
    (tx : Transaction) (o : Parsed (List ParsedOperation)) (p : ParsedInnerTransaction)
    → ((ops : List ParsedOperation) → o ≡ accepted ops → map call ops ≡ tx.operations)
    → with_operations tx o ≡ accepted p
    → tx ≡ inner p
with_operations-accepted tx (rejected reason) p k h = ground (arith, h)
with_operations-accepted tx (accepted ops) p k h =
    let same : record { source_account = tx.source; fee_stroops = tx.fee; operations = ops } ≡ p =
      ap (parsed_or p) h in
    ap (λ l. record tx { operations = l }) (sym (k ops refl)) ∙ ap inner same

parse_envelope-accepted :
    (o : Option Envelope) (p : ParsedInnerTransaction)
    → parse_envelope o ≡ accepted p
    → (o ≡ some (plain (inner p))) × (is_empty (inner p).operations ≡ false)
parse_envelope-accepted none p h = ground (arith, h)
parse_envelope-accepted (some fee_bump_envelope) p h = ground (arith, h)
parse_envelope-accepted (some (plain tx)) p h = elim (Bool-cases (is_empty tx.operations)) [
  | inl e ↦
      let refused : parse_envelope (some (plain tx)) ≡ rejected no_operations = rw e refl in
      ground (arith, h, refused)
  | inr e ↦
      let parsed : parse_envelope (some (plain tx))
          ≡ with_operations tx (parse_operations tx.operations) =
        rw e refl in
      let same =
        with_operations-accepted tx (parse_operations tx.operations) p
          (λ ops k. parse_operations-accepted tx.operations ops k) (sym parsed ∙ h) in
      (ap (λ x. some (plain x)) same, ap (λ x. is_empty x.operations) (sym same) ∙ e)
]

-- Parsing accepts exactly the envelopes that decode to a plain transaction with at least one operation
-- and only contract calls with a decodable address, and gives its source, its fee and its calls in order.
parse_inner_transaction_iff :
    (net : Network) (xdr : String) (p : ParsedInnerTransaction)
    → (parse_inner_transaction net xdr ≡ accepted p)
      ↔ ((net.decode xdr ≡ some (plain (inner p))) × (is_empty (inner p).operations ≡ false))
unfolding parse_inner_transaction
parse_inner_transaction_iff net xdr p = (
  parse_envelope-accepted (net.decode xdr) p,
  λ h. rw (h.0, h.1, parse_operations-map p.operations) refl,
)

-- A transaction passes exactly if its source is the learner, every call is of the course contract's enroll
-- or submit_milestone, its fee is within the cap, and today's spending with the largest fee is within
-- the day's cap.
pub validate_parsed_transaction_iff :
    (config : Config) (p : ParsedInnerTransaction) (learner : String) (spend_today : ℕ)
    → (validate_parsed_transaction config p learner spend_today ≡ none) ↔ (
        (p.source_account ≡ learner)
        × All (IsAllowed config) p.operations
        × (p.fee_stroops ≤ config.sponsor_max_fee_stroops)
        × (spend_today + config.sponsor_max_fee_stroops ≤ config.sponsor_daily_spend_cap_stroops))
unfolding validate_parsed_transaction
validate_parsed_transaction_iff config p learner spend_today = (
  λ h.
      let source : str_eq p.source_account learner ≡ true = ground (arith, h) in
      let calls : all_allowed config p.operations ≡ true = ground (arith, h) in
      (
        str_eq→eq p.source_account learner source,
        all_allowed-All config p.operations calls,
        ground (arith, h),
        ground (arith, h),
      ),
  λ h.
      rw (h.0, str_eq_refl learner, All-all_allowed config p.operations h.1)
        (ground (arith, h.2, h.3)),
)

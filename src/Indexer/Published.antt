-- ===== src/Indexer/Published.antt =====
-- What decoding gives for the events that the contract publishes, and for any other
-- (server/src/lib/lrn-events.ts).
use mathlib.Core.Path.{subst}
use learnvault.Prelude.{
  ℕ, suc, ◌≡◌, ◌≢◌, ◌⊎◌, refl, String, Option, none, some, List, [], ◌∷◌, str_eq, not_str_eq,
  str_eq→ne, Bool-cases, inl, inr,
}
use learnvault.Prelude.Int.{ℤ, pos, negsuc}
use learnvault.Balance.Store.{LrnBalanceDelta, LrnBalanceEventType, mint, burn}
use learnvault.Indexer.Decode.{
  Native, null, text, bigint, object, other, field, end, get_field, RawContractEvent, Js,
  lrn_mint_topic, lrn_burn_topic, parse_positive_amount, parse_address, second_topic,
  resolve_tx_hash, date_of, delta_of, decode_burn, decode_named, decode_topic,
  decode_lrn_balance_delta,
}

-- A movement of `n + 1` to or from an address.
pub data Movement : Type 0 where
  minted : String → ℕ → Movement
  burned : String → ℕ → Movement

abbrev pub address_of : Movement → String
address_of (minted a n) = a
address_of (burned a n) = a

abbrev pub topics_of : Movement → List Native
topics_of (minted a n) = text lrn_mint_topic ∷ text a ∷ []
topics_of (burned a n) = text lrn_burn_topic ∷ []

abbrev pub value_of : Movement → Native
value_of (minted a n) = bigint (pos (suc n))
value_of (burned a n) = object (field "amount" (bigint (pos (suc n))) (field "from" (text a) end))

-- An event as the contract publishes it.
abbrev pub published : Movement → RawContractEvent → RawContractEvent
published m e = record e { topic = some (topics_of m); value = value_of m }

abbrev pub delta_for : Movement → ℤ
delta_for (minted a n) = pos (suc n)
delta_for (burned a n) = negsuc n

abbrev pub type_for : Movement → LrnBalanceEventType
type_for (minted a n) = mint
type_for (burned a n) = burn

-- A mint or burn that the contract publishes, with an id, a finite ledger and an address, is decoded to
-- its address, its signed amount and its type, at its ledger.
pub decode-published :
    (js : Js) (m : Movement) (e : RawContractEvent) (ledger : ℕ)
    → e.id ≢ ""
    → address_of m ≢ ""
    → e.ledger ≡ some ledger
    → decode_lrn_balance_delta js (published m e)
      ≡ some (record {
        event_id = e.id;
        address = address_of m;
        delta = delta_for m;
        event_type = type_for m;
        ledger_sequence = ledger;
        tx_hash = resolve_tx_hash e;
        occurred_at = date_of js e.ledger_closed_at;
      })
unfolding decode_lrn_balance_delta
decode-published js (minted a n) e ledger h k l =
    rw (not_str_eq e.id "" h, l, not_str_eq a "" k) refl
decode-published js (burned a n) e ledger h k l =
    rw (not_str_eq e.id "" h, l, not_str_eq a "" k) refl

-- The delta of an event is well formed: named by its id, with an address, positive for a mint and
-- negative for a burn.
pub record IsMovement (e : RawContractEvent) (d : LrnBalanceDelta) : Type 0 where
  pub named : (d.event_id ≡ e.id) × (e.id ≢ "")
  pub addressed : d.address ≢ ""
  pub at_ledger : e.ledger ≡ some d.ledger_sequence
  pub signed :
      ((d.event_type ≡ mint) × ((n : ℕ) × (d.delta ≡ pos (suc n))))
      ⊎ ((d.event_type ≡ burn) × ((n : ℕ) × (d.delta ≡ negsuc n)))

abbrev pub Sound : RawContractEvent → Option LrnBalanceDelta → Type 0
Sound e none = Unit
Sound e (some d) = IsMovement e d

abbrev IsFull : Option String → Type 0
IsFull none = Unit
IsFull (some a) = a ≢ ""

parse_address-IsFull : (v : Native) → IsFull (parse_address v)
parse_address-IsFull (text s) = elim (Bool-cases (str_eq s "")) [
  | inl e ↦ rw e tt
  | inr e ↦ rw e (str_eq→ne s "" e)
]
parse_address-IsFull null = tt
parse_address-IsFull (bigint n) = tt
parse_address-IsFull (object fs) = tt
parse_address-IsFull other = tt

module _ (js : Js) (e : RawContractEvent) (id : e.id ≢ "") (ledger : ℕ)
    (at : e.ledger ≡ some ledger) where
  delta_of-Sound-mint :
      (o : Option String) (m : Option ℕ)
      → IsFull o
      → Sound e (delta_of js e ledger mint (λ n. pos (suc n)) o m)
  delta_of-Sound-mint none m h = tt
  delta_of-Sound-mint (some a) none h = tt
  delta_of-Sound-mint (some a) (some n) h = record {
    named = (refl, id);
    addressed = h;
    at_ledger = at;
    signed = inl (refl, (n, refl));
  }

  delta_of-Sound_burn :
      (o : Option String) (m : Option ℕ) → IsFull o → Sound e (delta_of js e ledger burn negsuc o m)
  delta_of-Sound_burn none m h = tt
  delta_of-Sound_burn (some a) none h = tt
  delta_of-Sound_burn (some a) (some n) h = record {
    named = (refl, id);
    addressed = h;
    at_ledger = at;
    signed = inr (refl, (n, refl));
  }

  decode_burn-Sound : (v : Native) → Sound e (decode_burn js e ledger v)
  decode_burn-Sound (object fs) =
      delta_of-Sound_burn (parse_address (get_field "from" fs))
        (parse_positive_amount js (get_field "amount" fs))
        (parse_address-IsFull (get_field "from" fs))
  decode_burn-Sound null = tt
  decode_burn-Sound (text s) = tt
  decode_burn-Sound (bigint n) = tt
  decode_burn-Sound other = tt

decode_named-Sound :
    (js : Js) (e : RawContractEvent) (name : String) (rest : List Native) (o : Option ℕ)
    → e.id ≢ ""
    → e.ledger ≡ o
    → Sound e (decode_named js e name rest o)
decode_named-Sound js e name rest none id at = tt
decode_named-Sound js e name rest (some ledger) id at =
    elim (Bool-cases (str_eq name lrn_mint_topic)) [
      | inl m ↦ rw m (
          delta_of-Sound-mint js e id ledger at (parse_address (second_topic rest))
            (parse_positive_amount js e.value) (parse_address-IsFull (second_topic rest)))
      | inr m ↦ elim (Bool-cases (str_eq name lrn_burn_topic)) [
        | inl b ↦ rw (m, b) (decode_burn-Sound js e id ledger at e.value)
        | inr b ↦ rw (m, b) tt
      ]
    ]

decode_topic-Sound :
    (js : Js) (e : RawContractEvent) (o : Option (List Native))
    → e.id ≢ ""
    → Sound e (decode_topic js e o)
decode_topic-Sound js e none id = tt
decode_topic-Sound js e (some []) id = tt
decode_topic-Sound js e (some (text name ∷ rest)) id =
    decode_named-Sound js e name rest e.ledger id refl
decode_topic-Sound js e (some (null ∷ rest)) id = tt
decode_topic-Sound js e (some (bigint n ∷ rest)) id = tt
decode_topic-Sound js e (some (object fs ∷ rest)) id = tt
decode_topic-Sound js e (some (other ∷ rest)) id = tt

decode-Sound : (js : Js) (e : RawContractEvent) → Sound e (decode_lrn_balance_delta js e)
unfolding decode_lrn_balance_delta
decode-Sound js e = elim (Bool-cases (str_eq e.id "")) [
  | inl h ↦ rw h tt
  | inr h ↦ rw h (decode_topic-Sound js e e.topic (str_eq→ne e.id "" h))
]

-- Whatever an event holds, the delta that it is decoded to, if any, has the event's id, which is not
-- empty, an address that is not empty, the event's ledger, and a positive amount for a mint, a negative
-- one for a burn.
pub decode-IsMovement :
    (js : Js) (e : RawContractEvent) (d : LrnBalanceDelta)
    → decode_lrn_balance_delta js e ≡ some d
    → IsMovement e d
decode-IsMovement js e d h = subst (Sound e) h (decode-Sound js e)

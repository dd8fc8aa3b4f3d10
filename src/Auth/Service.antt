-- ===== src/Auth/Service.antt =====
-- The sign-in service (server/src/services/auth.service.ts) over the nonces in memory. The Stellar SDK,
-- `trim`, the session tokens and `onAuthenticated` are the parameters of a record; a session issued is
-- an address in a list.
use learnvault.Prelude.{
  ℕ, String, Option, none, some, List, ◌∷◌, Bool, false, any, not, str_eq, if◌then◌else◌,
}
use learnvault.Auth.Nonce.{Memory, get_nonce, get_or_set_nonce, delete_nonce}

pub data TxMemo : Type 0 where
  text : String → TxMemo
  other : TxMemo

pub record Transaction : Type 0 where
  pub source : String
  pub sequence : String
  pub memo : TxMemo
  pub hash : String
  pub signatures : List String

-- `is_valid_key` is false where the SDK throws, and `verify address message signature` is
-- `Keypair.fromPublicKey(address).verify(message, signature)`.
pub record Sdk : Type 0 where
  pub is_valid_key : String → Bool
  pub decode : String → Option Transaction
  pub build_challenge : String → String → String
  pub decode_base64 : String → Option String
  pub verify : String → String → String → Bool
  pub trim : String → String
  pub on_authenticated : String → Bool

pub data AuthError : Type 0 where
  invalid_public_key invalid_signed_transaction invalid_challenge_sequence invalid_challenge_memo :
      AuthError
  challenge_expired_or_invalid invalid_transaction_signature nonce_expired_or_missing : AuthError
  invalid_signature_encoding invalid_signature on_authenticated_failed : AuthError

pub data Result (A : Type 0) : Type 0 where
  ok : A → Result A
  error : AuthError → Result A

pub record State : Type 0 where
  pub nonces : Memory
  pub sessions : List String

abbrev pub challenge_ttl_seconds : ℕ
challenge_ttl_seconds = 300

module _ (sdk : Sdk) where
  -- The nonce, which is random in the source, is an argument.
  unfoldable pub create_challenge : ℕ → String → String → State → Result String × State
  create_challenge now nonce a s =
      if not (sdk.is_valid_key a) then (error invalid_public_key, s) else (
        ok (sdk.build_challenge a nonce),
        record s { nonces = (get_or_set_nonce now challenge_ttl_seconds a nonce s.nonces).1 },
      )

  unfoldable pub get_or_create_nonce : ℕ → String → String → State → Result String × State
  get_or_create_nonce now fresh a s =
      if not (sdk.is_valid_key a) then (error invalid_public_key, s) else (
        ok (get_or_set_nonce now 300 a fresh s.nonces).0,
        record s { nonces = (get_or_set_nonce now 300 a fresh s.nonces).1 },
      )

  -- `deleteNonce`, `onAuthenticated` and `issueTokenPair`, with which both checks end.
  abbrev pub issue : String → State → Result String × State
  issue a s =
      let consumed = record s { nonces = delete_nonce a s.nonces } in
      if sdk.on_authenticated a
      then (ok a, record consumed { sessions = a ∷ s.sessions })
      else (error on_authenticated_failed, consumed)

  abbrev pub check_signature : String → String → Option String → State → Result String × State
  check_signature a stored none s = (error invalid_signature_encoding, s)
  check_signature a stored (some signature) s =
      if not (sdk.verify a stored signature) then (error invalid_signature, s) else issue a s

  abbrev pub check_stored : String → Option String → Option String → State → Result String × State
  check_stored a none signature s = (error nonce_expired_or_missing, s)
  check_stored a (some stored) signature s = check_signature a stored signature s

  unfoldable pub verify_and_issue_token : ℕ → String → String → State → Result String × State
  verify_and_issue_token now a signature s =
      let read = get_nonce now a s.nonces in
      if not (sdk.is_valid_key a)
      then (error invalid_public_key, s)
      else check_stored a read.0 (sdk.decode_base64 signature) (record s { nonces = read.1 })

  abbrev pub memo_nonce : TxMemo → Option String
  memo_nonce other = none
  memo_nonce (text value) = if str_eq (sdk.trim value) "" then none else some (sdk.trim value)

  -- `!stored || stored !== nonce`; an empty stored nonce counts as none.
  abbrev pub is_stored : String → Option String → Bool
  is_stored nonce none = false
  is_stored nonce (some stored) = if str_eq stored "" then false else str_eq stored nonce

  abbrev pub check_memo : ℕ → Transaction → Option String → State → Result String × State
  check_memo now tx none s = (error invalid_challenge_memo, s)
  check_memo now tx (some nonce) s =
      let read = get_nonce now tx.source s.nonces in
      let read_state = record s { nonces = read.1 } in
      if not (is_stored nonce read.0)
      then (error challenge_expired_or_invalid, read_state)
      else if not (any (sdk.verify tx.source tx.hash) tx.signatures)
      then (error invalid_transaction_signature, read_state)
      else issue tx.source read_state

  abbrev pub check_transaction : ℕ → Option Transaction → State → Result String × State
  check_transaction now none s = (error invalid_signed_transaction, s)
  check_transaction now (some tx) s =
      if not (sdk.is_valid_key tx.source)
      then (error invalid_public_key, s)
      else if not (str_eq tx.sequence "0")
      then (error invalid_challenge_sequence, s)
      else check_memo now tx (memo_nonce tx.memo) s

  unfoldable pub verify_signed_transaction : ℕ → String → State → Result String × State
  verify_signed_transaction now xdr s = check_transaction now (sdk.decode xdr) s

-- ===== src/Auth/Tests.antt =====
-- Sign-in with a small stand-in for the SDK.
use learnvault.Prelude.{
  ℕ, ◌≤◌, ◌<◌, ◌≡◌, refl, none, some, [], ◌∷◌, true, str_eq, if◌then◌else◌, arith,
}
use learnvault.Auth.Nonce.{view, sweep, put, get_nonce, get_or_set_nonce, delete_nonce}
use learnvault.Auth.Service.{
  Sdk, State, ok, error, nonce_expired_or_missing, Transaction, text, create_challenge,
  get_or_create_nonce, verify_and_issue_token, verify_signed_transaction,
}
use learnvault.Auth.Once.{
  challenge, nonce, signature, transaction, run, times, asked, sessions-le-asked,
}

-- The transaction "tx" is a challenge with the memo "n2"; a signature is its message.
abbrev challenge_tx : Transaction
challenge_tx = record {
  source = "GA";
  sequence = "0";
  memo = text "n2";
  hash = "h";
  signatures = "h" ∷ [];
}

abbrev sdk : Sdk
sdk = record {
  is_valid_key = λ a. true;
  decode = λ xdr. if str_eq xdr "tx" then some challenge_tx else none;
  build_challenge = λ a n. n;
  decode_base64 = λ s. some s;
  verify = λ a message s. str_eq message s;
  trim = λ s. s;
  on_authenticated = λ a. true;
}

auth : Unit {0}
unfolding put sweep get_nonce get_or_set_nonce delete_nonce create_challenge get_or_create_nonce
    verify_and_issue_token verify_signed_transaction run
auth = tt

abbrev asked_once : State
asked_once = run sdk (nonce 1000 "n1" "GA" ∷ [])

sign_in_test : (verify_and_issue_token sdk 2000 "GA" "n1" asked_once).0 ≡ ok "GA"
unfolding auth
sign_in_test = refl

expired_test :
    (verify_and_issue_token sdk 301000 "GA" "n1" asked_once).0 ≡ error nonce_expired_or_missing
unfolding auth
expired_test = refl

challenge_test :
    (run sdk (transaction 2000 "tx" ∷ challenge 1000 "n2" "GA" ∷ [])).sessions ≡ "GA" ∷ []
unfolding auth
challenge_test = refl

held_at : (t : ℕ) → t < 301000 → view asked_once.nonces t "GA" ≡ some "n1"
unfolding auth
held_at t h = ground (arith, h)

sessions-le-asked_example :
    times "GA"
      (run sdk
        (signature 2001 "GA" "n1" ∷ signature 2000 "GA" "n1" ∷ nonce 1000 "n1" "GA" ∷ [])).sessions
    ≤ times "GA"
        (asked (signature 2001 "GA" "n1" ∷ signature 2000 "GA" "n1" ∷ nonce 1000 "n1" "GA" ∷ []))
sessions-le-asked_example =
    sessions-le-asked sdk "GA"
      (signature 2001 "GA" "n1" ∷ signature 2000 "GA" "n1" ∷ nonce 1000 "n1" "GA" ∷ [])

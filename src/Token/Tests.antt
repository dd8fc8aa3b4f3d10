-- ===== src/Token/Tests.antt =====
-- The token service over the store in memory, with a stand-in for the token library: a token is the
-- name of its audience, issued at 5 seconds.
use learnvault.Prelude.{
  ◌+◌, ◌*◌, lt→ltb, str_eq_refl, not_str_eq, ℕ, ◌/◌, ◌≤◌, ◌≡◌, refl, String, Option, none, some,
  List, [], ◌∷◌, Bool, true, false, ltb, str_eq, Bool-cases, inl, inr, if◌then◌else◌, arith,
}
use learnvault.Token.Store.{
  Memory, TokenStore, IsTokenStore, RedisClient, IsRedis, create_redis_store,
  create_redis_store-IsTokenStore, create_memory_store, create_memory_store-IsTokenStore,
  memory_is_revoked, memory_revoke, sweep,
}
use learnvault.Token.Service.{
  Jwt, Payload, ok, error, refresh_token_revoked, jwt_rejected, jwt_audience, jwt_refresh_audience,
  issue_token_pair, verify_wallet_token, verify_refresh_token, revoke_token, rotate_refresh_token,
  compute_revocation_ttl_seconds,
}
use learnvault.Token.Issue.{issue-verify, accepted_until, access_lifetime, refresh_lifetime}
use learnvault.Token.Signer.{signer, signer-IsSigner}
use learnvault.Token.Rotation.{
  RespectsExp, Call, wallet, refresh, rotates, revokes, run, Refused, rotated_once,
}

abbrev claims : String → String → String → Payload
claims a jti type = record { sub = some a; jti = some jti; type = some type }

abbrev read : ℕ → Bool → Option Payload
read t true = if ltb (t / 1000) 86405 then some (claims "GA" "j1" "access") else none
read t false = if ltb (t / 1000) 2592005 then some (claims "GA" "j2" "refresh") else none

abbrev exp_of : Bool → ℕ
exp_of true = 86405
exp_of false = 2592005

abbrev jwt : Jwt
jwt = record {
  sign = λ now claims expires_in audience. audience;
  verify = λ t audience token.
      if str_eq audience token then read t (str_eq token jwt_audience) else none;
  decode_exp = λ token. some (exp_of (str_eq token jwt_audience));
}

abbrev store : TokenStore Memory
store = create_memory_store (λ token. token)

store_laws : IsTokenStore store
store_laws = create_memory_store-IsTokenStore (λ token. token) (λ a b e. e)

-- A server that keeps each key with its value and expiry.
abbrev Server : Type 0
Server = String → Option (String × ℕ)

abbrev unexpired : ℕ → Option (String × ℕ) → Option String
unexpired t none = none
unexpired t (some (value, expires)) = if ltb t expires then some value else none

abbrev client : RedisClient Server
client = record {
  get = λ now key s. unexpired now (s key);
  set_ex = λ now key value ttl s.
      λ other. if str_eq key other then some (value, now + ttl * 1000) else s other;
}

client-IsRedis : IsRedis client
client-IsRedis = record {
  get-set_ex =
      λ now t ttl key value s k l. rw (str_eq_refl key, lt→ltb t (now + ttl * 1000) l) refl;
  get-set_ex-other = λ now t ttl key other value s ne k. rw (not_str_eq key other ne) refl;
}

create_redis_store-IsTokenStore_example : IsTokenStore (create_redis_store (λ token. token) client)
create_redis_store-IsTokenStore_example =
    create_redis_store-IsTokenStore (λ token. token) client client-IsRedis (λ a b e. e)

token_tests : Unit {0}
unfolding memory_is_revoked memory_revoke sweep issue_token_pair verify_wallet_token
    verify_refresh_token revoke_token rotate_refresh_token compute_revocation_ttl_seconds
token_tests = tt

abbrev empty : Memory
empty = λ h. none

trade_test :
    (rotate_refresh_token jwt store 6000 jwt_refresh_audience "j3" "j4" empty).0
    ≡ ok (record {
      tokens = record { access_token = jwt_audience; refresh_token = jwt_refresh_audience };
      sub = "GA";
    })
unfolding token_tests
trade_test = refl

again_test :
    (rotate_refresh_token jwt store 7000 jwt_refresh_audience "j3" "j4"
      (rotate_refresh_token jwt store 6000 jwt_refresh_audience "j3" "j4" empty).1).0
    ≡ error refresh_token_revoked
unfolding token_tests
again_test = refl

read_expired :
    (t exp : ℕ) (b : Bool) → some (exp_of b) ≡ some exp → exp ≤ t / 1000 → read t b ≡ none
read_expired t exp true e k = let same : 86405 ≡ exp = ground arith in ground arith
read_expired t exp false e k = let same : 2592005 ≡ exp = ground arith in ground arith

jwt_respects : RespectsExp jwt
jwt_respects t exp audience token e k = elim (Bool-cases (str_eq audience token)) [
  | inl h ↦ rw h (read_expired t exp (str_eq token jwt_audience) e k)
  | inr h ↦ rw h refl
]

abbrev calls : List Call
calls =
    refresh 7000 jwt_refresh_audience
    ∷ revokes 8000 jwt_audience
    ∷ rotates 9000 jwt_refresh_audience "j5" "j6"
    ∷ wallet 9000 jwt_audience
    ∷ []

issue-verify_example :
    let pair = issue_token_pair signer store 5000 "GA" "j1" "j2" in
    ((verify_wallet_token signer store 86404999 pair.access_token empty).0
      ≡ accepted_until 86404999 (5000 / 1000 + access_lifetime) "GA" "j1")
    × ((verify_refresh_token signer store 86404999 pair.refresh_token empty).0
        ≡ accepted_until 86404999 (5000 / 1000 + refresh_lifetime) "GA" "j2")
    × ((verify_wallet_token signer store 86404999 pair.refresh_token empty).0 ≡ error jwt_rejected)
    × ((verify_refresh_token signer store 86404999 pair.access_token empty).0 ≡ error jwt_rejected)
unfolding memory_is_revoked
issue-verify_example =
    issue-verify signer store signer-IsSigner 5000 86404999 "GA" "j1" "j2" empty (λ e. absurd (cc))
      (λ e. absurd (cc)) (λ e. absurd (cc)) refl refl

rotated_once_example :
    Refused refresh_token_revoked
      (rotate_refresh_token jwt store 10000 jwt_refresh_audience "j7" "j8" (
        run jwt store calls
          (rotate_refresh_token jwt store 6000 jwt_refresh_audience "j3" "j4" empty).1)).0
unfolding token_tests
rotated_once_example =
    rotated_once jwt store jwt_refresh_audience "j3" "j4" "j7" "j8" 2592005 6000 10000 calls
      (record {
        tokens = record { access_token = jwt_audience; refresh_token = jwt_refresh_audience };
        sub = "GA";
      })
      empty store_laws jwt_respects refl refl
      (omega arith, (omega arith, (omega arith, (omega arith, tt)))) (omega arith)

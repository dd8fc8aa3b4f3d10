-- ===== src/Token/Service.antt =====
-- The token service (server/src/services/jwt.service.ts) over any store of revoked tokens. The library
-- that signs and verifies is a parameter with the service's keys; a new `jti` is an argument.
use learnvault.Prelude.{
  ℕ, ◌-◌, ◌*◌, ◌/◌, String, Option, none, some, Bool, false, str_eq, if◌then◌else◌,
}
use learnvault.Token.Store.{TokenStore}

-- The claims that the service signs and the ones that it reads. A claim that is no string reads as none.
pub record Claims : Type 0 where
  pub sub : String
  pub jti : String
  pub type : String

pub record Payload : Type 0 where
  pub sub : Option String
  pub jti : Option String
  pub type : Option String

-- `sign now claims expires_in audience`, with `expiresIn` in seconds; `verify now audience token` is none
-- where it throws; `decode_exp` is the number `exp` of what `decode` gives.
pub record Jwt : Type 0 where
  pub sign : ℕ → Claims → ℕ → String → String
  pub verify : ℕ → String → String → Option Payload
  pub decode_exp : String → Option ℕ

abbrev pub access_token_expiry : ℕ
access_token_expiry = 24 * 60 * 60

abbrev pub refresh_token_expiry : ℕ
refresh_token_expiry = 30 * 24 * 60 * 60

abbrev default_revoke_ttl_seconds : ℕ
default_revoke_ttl_seconds = 30 * 24 * 60 * 60

abbrev pub jwt_audience : String
jwt_audience = "learnvault-api"

abbrev pub jwt_refresh_audience : String
jwt_refresh_audience = "learnvault-api-refresh"

pub data TokenError : Type 0 where
  token_revoked refresh_token_revoked jwt_rejected missing_sub missing_jti invalid_token_type :
      TokenError
  invalid_refresh_token_type : TokenError

pub data Result (A : Type 0) : Type 0 where
  ok : A → Result A
  error : TokenError → Result A

pub record Verified : Type 0 where
  pub sub : String
  pub jti : String

pub record TokenPair : Type 0 where
  pub access_token : String
  pub refresh_token : String

pub record Rotated : Type 0 where
  pub tokens : TokenPair
  pub sub : String

-- Math.max(0, exp - ⌊now / 1000⌋), which subtraction of numbers is.
abbrev pub ttl_of : ℕ → Option ℕ → ℕ
ttl_of now none = default_revoke_ttl_seconds
ttl_of now (some exp) = exp - now / 1000

unfoldable pub compute_revocation_ttl_seconds : Jwt → ℕ → String → ℕ
compute_revocation_ttl_seconds jwt now token = ttl_of now (jwt.decode_exp token)

-- A claim that is missing or empty.
abbrev pub present : Option String → Option String
present none = none
present (some value) = if str_eq value "" then none else some value

abbrev pub has_type : String → Option String → Bool
has_type expected none = false
has_type expected (some type) = str_eq type expected

abbrev pub check_jti : Bool → TokenError → String → Option String → Result Verified
check_jti typed wrong_type sub none = error missing_jti
check_jti typed wrong_type sub (some jti) =
    if typed then ok (record { sub = sub; jti = jti }) else error wrong_type

abbrev pub check_sub : Bool → TokenError → Option String → Option String → Result Verified
check_sub typed wrong_type none jti = error missing_sub
check_sub typed wrong_type (some sub) jti = check_jti typed wrong_type sub jti

abbrev pub check_payload : String → TokenError → Option Payload → Result Verified
check_payload type wrong_type none = error jwt_rejected
check_payload type wrong_type (some p) =
    check_sub (has_type type p.type) wrong_type (present p.sub) (present p.jti)

module _ {S : Type 0} (jwt : Jwt) (store : TokenStore S) where
  abbrev pub sign_wallet_token : ℕ → String → String → String
  sign_wallet_token now a jti =
      jwt.sign now (record { sub = a; jti = jti; type = "access" }) access_token_expiry jwt_audience

  abbrev pub sign_refresh_token : ℕ → String → String → String
  sign_refresh_token now a jti =
      jwt.sign now (record { sub = a; jti = jti; type = "refresh" }) refresh_token_expiry
        jwt_refresh_audience

  -- The arguments after the address are the two `jti`.
  unfoldable pub issue_token_pair : ℕ → String → String → String → TokenPair
  issue_token_pair now a jti refresh_jti = record {
    access_token = sign_wallet_token now a jti;
    refresh_token = sign_refresh_token now a refresh_jti;
  }

  unfoldable pub verify_wallet_token : ℕ → String → S → Result Verified × S
  verify_wallet_token now token s =
      let asked = store.is_revoked now token s in
      if asked.0
      then (error token_revoked, asked.1)
      else (check_payload "access" invalid_token_type (jwt.verify now jwt_audience token), asked.1)

  unfoldable pub verify_refresh_token : ℕ → String → S → Result Verified × S
  verify_refresh_token now token s =
      let asked = store.is_revoked now token s in
      if asked.0 then (error refresh_token_revoked, asked.1) else (
        check_payload "refresh" invalid_refresh_token_type
            (jwt.verify now jwt_refresh_audience token),
        asked.1,
      )

  unfoldable pub revoke_token : ℕ → String → S → S
  revoke_token now token s = store.revoke now token (compute_revocation_ttl_seconds jwt now token) s

  -- What follows the check of the token that is traded in.
  abbrev pub rotate : ℕ → String → String → String → Result Verified → S → Result Rotated × S
  rotate now token jti refresh_jti (error e) s = (error e, s)
  rotate now token jti refresh_jti (ok v) s = (
    ok (record { tokens = issue_token_pair now v.sub jti refresh_jti; sub = v.sub }),
    revoke_token now token s,
  )

  unfoldable pub rotate_refresh_token : ℕ → String → String → String → S → Result Rotated × S
  rotate_refresh_token now token jti refresh_jti s =
      let checked = verify_refresh_token now token s in
      rotate now token jti refresh_jti checked.0 checked.1

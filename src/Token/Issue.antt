-- ===== src/Token/Issue.antt =====
-- The tokens that the service issues pass its own checks (server/src/services/jwt.service.ts).
use learnvault.Prelude.{
  ℕ, ◌+◌, ◌/◌, ◌≡◌, ◌≢◌, refl, String, none, some, Bool, true, false, ◌&&◌, ltb, str_eq, not_str_eq,
  str_eq_refl, if◌then◌else◌,
}
use learnvault.Token.Store.{TokenStore}
use learnvault.Token.Service.{
  Jwt, Claims, Payload, Result, ok, error, Verified, TokenError, invalid_token_type,
  invalid_refresh_token_type, jwt_rejected, jwt_audience, jwt_refresh_audience, issue_token_pair,
  verify_wallet_token, verify_refresh_token, check_payload,
}

abbrev pub read_claims : Claims → Payload
read_claims c = record { sub = some c.sub; jti = some c.jti; type = some c.type }

-- What the library documents of the tokens that it signs: for the audience that a token was signed for its
-- claims come back until it expires, and for another one it is rejected.
abbrev pub IsSigner : Jwt → Type 0
IsSigner jwt =
    (now t expires_in : ℕ) (c : Claims) (audience asked : String)
    → jwt.verify t asked (jwt.sign now c expires_in audience) ≡ (
        if str_eq asked audience && ltb (t / 1000) (now / 1000 + expires_in)
        then some (read_claims c)
        else none)

abbrev pub accepted_until : ℕ → ℕ → String → String → Result Verified
accepted_until t end a jti =
    if ltb (t / 1000) end then ok (record { sub = a; jti = jti }) else error jwt_rejected

checked :
    (b : Bool) (type a jti : String) (wrong_type : TokenError)
    → str_eq a "" ≡ false
    → str_eq jti "" ≡ false
    → check_payload type wrong_type
        (if b then some (read_claims (record { sub = a; jti = jti; type = type })) else none)
      ≡ (if b then ok (record { sub = a; jti = jti }) else error jwt_rejected)
checked true type a jti wrong_type ea ej = rw (ea, ej, str_eq_refl type) refl
checked false type a jti wrong_type ea ej = refl

-- The lifetimes that the service gives its tokens, in seconds: 24 hours and 30 days.
abbrev pub access_lifetime : ℕ
access_lifetime = 86400

abbrev pub refresh_lifetime : ℕ
refresh_lifetime = 2592000

module _ {S : Type 0} (jwt : Jwt) (store : TokenStore S) (signer : IsSigner jwt) where
  -- Where the library gives the claims of a token that it signed back for the audience that it was
  -- signed for, until it expires, and rejects it for another: the tokens of a pair issued for an
  -- address, with ids that are not empty, pass each its own check, which gives the address and the
  -- id, for 24 hours or 30 days, and never the other check, while neither is revoked.
  pub issue-verify :
      (now t : ℕ) (a jti refresh_jti : String) (s : S)
      → a ≢ ""
      → jti ≢ ""
      → refresh_jti ≢ ""
      → let pair = issue_token_pair jwt store now a jti refresh_jti in
        (store.is_revoked t pair.access_token s).0 ≡ false
        → (store.is_revoked t pair.refresh_token s).0 ≡ false
        → ((verify_wallet_token jwt store t pair.access_token s).0
            ≡ accepted_until t (now / 1000 + access_lifetime) a jti)
          × ((verify_refresh_token jwt store t pair.refresh_token s).0
              ≡ accepted_until t (now / 1000 + refresh_lifetime) a refresh_jti)
          × ((verify_wallet_token jwt store t pair.refresh_token s).0 ≡ error jwt_rejected)
          × ((verify_refresh_token jwt store t pair.access_token s).0 ≡ error jwt_rejected)
  unfolding issue_token_pair verify_wallet_token verify_refresh_token
  issue-verify now t a jti refresh_jti s ea ej er la lr =
      let na = not_str_eq a "" ea in
      let nj = not_str_eq jti "" ej in
      let nr = not_str_eq refresh_jti "" er in
      let access : Claims = record { sub = a; jti = jti; type = "access" } in
      let refresh : Claims = record { sub = a; jti = refresh_jti; type = "refresh" } in
      (
        rw (la, signer now t access_lifetime access jwt_audience jwt_audience)
            (checked (ltb (t / 1000) (now / 1000 + access_lifetime)) "access" a jti
              invalid_token_type na nj),
        rw (lr, signer now t refresh_lifetime refresh jwt_refresh_audience jwt_refresh_audience)
            (checked (ltb (t / 1000) (now / 1000 + refresh_lifetime)) "refresh" a refresh_jti
              invalid_refresh_token_type na nr),
        rw (lr, signer now t refresh_lifetime refresh jwt_refresh_audience jwt_audience) refl,
        rw (la, signer now t access_lifetime access jwt_audience jwt_refresh_audience) refl,
      )

-- ===== src/Token/Rotation.antt =====
-- A token that was traded in or revoked (server/src/services/jwt.service.ts) is not accepted again.
use learnvault.Prelude.{
  ℕ, ◌+◌, ◌-◌, ◌*◌, ◌/◌, ◌≤◌, ◌<◌, ◌≡◌, ◌⊎◌, refl, sym, ap, ◌∙◌, String, none, some, List, [], ◌∷◌,
  true, false, ltb, str_eq, str_eq→eq, str_eq→ne, Bool-cases, inl, inr, arith, ltb→lt,
}
use mathlib.Core.Path.{subst}
use mathlib.Core.Bool.{false≢true}
use learnvault.Token.Store.{TokenStore, IsTokenStore}
use learnvault.Token.Service.{
  Jwt, Result, ok, error, Verified, Rotated, TokenError, jwt_rejected, token_revoked,
  refresh_token_revoked, jwt_audience, jwt_refresh_audience, compute_revocation_ttl_seconds, ttl_of,
  verify_wallet_token, verify_refresh_token, revoke_token, rotate, rotate_refresh_token,
}

-- What the library documents of `exp`: a token is not verified from that second on.
abbrev pub RespectsExp : Jwt → Type 0
RespectsExp jwt =
    (t exp : ℕ) (audience token : String)
    → jwt.decode_exp token ≡ some exp
    → exp ≤ t / 1000
    → jwt.verify t audience token ≡ none

-- A call of the service by any client; the first argument is its time.
pub data Call : Type 0 where
  wallet : ℕ → String → Call
  refresh : ℕ → String → Call
  rotates : ℕ → String → String → String → Call
  revokes : ℕ → String → Call

abbrev pub time : Call → ℕ
time (wallet t token) = t
time (refresh t token) = t
time (rotates t token jti refresh_jti) = t
time (revokes t token) = t

-- The calls, the earliest first, come in the order of their times, none before `now`.
abbrev pub InOrder : ℕ → List Call → Type 0
InOrder now [] = Unit
InOrder now (c ∷ cs) = (now ≤ time c) × InOrder (time c) cs

abbrev pub last_time : ℕ → List Call → ℕ
last_time now [] = now
last_time now (c ∷ cs) = last_time (time c) cs

module _ {S : Type 0} (jwt : Jwt) (store : TokenStore S) where
  abbrev pub step : Call → S → S
  step (wallet t token) s = (verify_wallet_token jwt store t token s).1
  step (refresh t token) s = (verify_refresh_token jwt store t token s).1
  step (rotates t token jti refresh_jti) s =
      (rotate_refresh_token jwt store t token jti refresh_jti s).1
  step (revokes t token) s = revoke_token jwt store t token s

  abbrev pub run : List Call → S → S
  run [] s = s
  run (c ∷ cs) s = run cs (step c s)

-- From `now` until it expires the token is reported as revoked.
abbrev Blocked : {S : Type 0} → TokenStore S → String → ℕ → ℕ → S → Type 0
Blocked store token exp now s =
    (t : ℕ) → now ≤ t → t < exp * 1000 → (store.is_revoked t token s).0 ≡ true

module _ {S : Type 0} (jwt : Jwt) (store : TokenStore S) (laws : IsTokenStore store)
    (token : String) (exp : ℕ) where
  Blocked-later :
      (now u : ℕ) (s : S) → now ≤ u → Blocked store token exp now s → Blocked store token exp u s
  Blocked-later now u s k b t l m = b t (omega arith) m

  Blocked-asked :
      (now u : ℕ) (asked : String) (s : S)
      → now ≤ u
      → Blocked store token exp now s
      → Blocked store token exp u (store.is_revoked u asked s).1
  Blocked-asked now u asked s k b t l m = laws.asked u t asked token s l ∙ b t (omega arith) m

  -- A revocation lasts until the token expires.
  revoked-Blocked :
      (now : ℕ) (s : S)
      → jwt.decode_exp token ≡ some exp
      → Blocked store token exp now (revoke_token jwt store now token s)
  unfolding revoke_token compute_revocation_ttl_seconds
  revoked-Blocked now s e t l m =
      let reaches : t < now + (exp - now / 1000) * 1000 = omega arith in
      subst (λ o. (store.is_revoked t token (store.revoke now token (ttl_of now o) s)).0 ≡ true)
        (sym e) (laws.revoked now t (exp - now / 1000) token s l reaches)

  Blocked-revoke :
      (now u : ℕ) (other : String) (s : S)
      → jwt.decode_exp token ≡ some exp
      → now ≤ u
      → Blocked store token exp now s
      → Blocked store token exp u (revoke_token jwt store u other s)
  unfolding revoke_token
  Blocked-revoke now u other s e k b = elim (Bool-cases (str_eq other token)) [
    | inl same ↦
        subst (λ c. Blocked store token exp u (revoke_token jwt store u c s))
          (sym (str_eq→eq other token same)) (revoked-Blocked u s e)
    | inr differ ↦ λ t l m.
        laws.other u t (compute_revocation_ttl_seconds jwt u other) other token s
          (str_eq→ne other token differ) l
        ∙ b t (omega arith) m
  ]

  Blocked-rotate :
      (u : ℕ) (other jti refresh_jti : String) (checked : Result Verified) (s : S)
      → jwt.decode_exp token ≡ some exp
      → Blocked store token exp u s
      → Blocked store token exp u (rotate jwt store u other jti refresh_jti checked s).1
  Blocked-rotate u other jti refresh_jti (error x) s e b = b
  Blocked-rotate u other jti refresh_jti (ok v) s e b = Blocked-revoke u u other s e (omega arith) b

  -- Both checks leave what asking for the token leaves.
  wallet_state :
      (u : ℕ) (other : String) (s : S)
      → (verify_wallet_token jwt store u other s).1 ≡ (store.is_revoked u other s).1
  unfolding verify_wallet_token
  wallet_state u other s = elim (Bool-cases (store.is_revoked u other s).0) [
    | inl h ↦ rw h refl
    | inr h ↦ rw h refl
  ]

  refresh_state :
      (u : ℕ) (other : String) (s : S)
      → (verify_refresh_token jwt store u other s).1 ≡ (store.is_revoked u other s).1
  unfolding verify_refresh_token
  refresh_state u other s = elim (Bool-cases (store.is_revoked u other s).0) [
    | inl h ↦ rw h refl
    | inr h ↦ rw h refl
  ]

  Blocked-refresh :
      (now u : ℕ) (other : String) (s : S)
      → now ≤ u
      → Blocked store token exp now s
      → Blocked store token exp u (verify_refresh_token jwt store u other s).1
  Blocked-refresh now u other s k b =
      subst (Blocked store token exp u) (sym (refresh_state u other s))
        (Blocked-asked now u other s k b)

  Blocked-step :
      (now : ℕ) (c : Call) (s : S)
      → jwt.decode_exp token ≡ some exp
      → now ≤ time c
      → Blocked store token exp now s
      → Blocked store token exp (time c) (step jwt store c s)
  unfolding rotate_refresh_token
  Blocked-step now (wallet u other) s e k b =
      subst (Blocked store token exp u) (sym (wallet_state u other s))
        (Blocked-asked now u other s k b)
  Blocked-step now (refresh u other) s e k b = Blocked-refresh now u other s k b
  Blocked-step now (rotates u other jti refresh_jti) s e k b =
      let checked = verify_refresh_token jwt store u other s in
      Blocked-rotate u other jti refresh_jti checked.0 checked.1 e
        (Blocked-refresh now u other s k b)
  Blocked-step now (revokes u other) s e k b = Blocked-revoke now u other s e k b

  Blocked-run :
      (now : ℕ) (cs : List Call) (s : S)
      → jwt.decode_exp token ≡ some exp
      → InOrder now cs
      → Blocked store token exp now s
      → Blocked store token exp (last_time now cs) (run jwt store cs s)
  Blocked-run now [] s e o b = b
  Blocked-run now (c ∷ cs) s e o b =
      Blocked-run (time c) cs (step jwt store c s) e o.1 (Blocked-step now c s e o.0 b)

-- The two ways in which a check of a dead token ends.
abbrev pub Refused : {A : Type 0} → TokenError → Result A → Type 0
Refused revoked r = (r ≡ error revoked) ⊎ (r ≡ error jwt_rejected)

-- The answer of a trade whose check failed.
abbrev as_rotated : Result Verified → Result Rotated
as_rotated (error x) = error x
as_rotated (ok v) = error jwt_rejected

module _ {S : Type 0} (jwt : Jwt) (store : TokenStore S) (token : String) (exp : ℕ) where
  -- Where the store no longer reports a blocked token, it has expired.
  expired :
      (t : ℕ) (s : S)
      → Blocked store token exp t s
      → (store.is_revoked t token s).0 ≡ false
      → exp ≤ t / 1000
  expired t s b h = elim (Bool-cases (ltb t (exp * 1000))) [
    | inl before ↦ absurd (false≢true (sym h ∙ b t (omega arith) (ltb→lt t (exp * 1000) before)))
    | inr after ↦ let reached : exp * 1000 ≤ t = ground arith in omega arith
  ]

  -- A blocked token is refused, before it expires by the store, then by the library.
  Refused-wallet :
      (t : ℕ) (s : S)
      → RespectsExp jwt
      → jwt.decode_exp token ≡ some exp
      → Blocked store token exp t s
      → Refused token_revoked (verify_wallet_token jwt store t token s).0
  unfolding verify_wallet_token
  Refused-wallet t s respects e b = elim (Bool-cases (store.is_revoked t token s).0) [
    | inl h ↦ rw h (inl refl)
    | inr h ↦ rw (h, respects t exp jwt_audience token e (expired t s b h)) (inr refl)
  ]

  Refused-refresh :
      (t : ℕ) (s : S)
      → RespectsExp jwt
      → jwt.decode_exp token ≡ some exp
      → Blocked store token exp t s
      → Refused refresh_token_revoked (verify_refresh_token jwt store t token s).0
  unfolding verify_refresh_token
  Refused-refresh t s respects e b = elim (Bool-cases (store.is_revoked t token s).0) [
    | inl h ↦ rw h (inl refl)
    | inr h ↦ rw (h, respects t exp jwt_refresh_audience token e (expired t s b h)) (inr refl)
  ]

  Refused-rotate :
      (t : ℕ) (jti refresh_jti : String) (checked : Result Verified) (s : S)
      → Refused refresh_token_revoked checked
      → Refused refresh_token_revoked (rotate jwt store t token jti refresh_jti checked s).0
  Refused-rotate t jti refresh_jti (error x) s (inl h) = inl (ap as_rotated h)
  Refused-rotate t jti refresh_jti (error x) s (inr h) = inr (ap as_rotated h)
  Refused-rotate t jti refresh_jti (ok v) s (inl h) = absurd (cc)
  Refused-rotate t jti refresh_jti (ok v) s (inr h) = absurd (cc)

module _ {S : Type 0} (jwt : Jwt) (store : TokenStore S) where
  -- Over a lawful store of revoked tokens and a library that respects exp, a token with an expiry that
  -- was revoked is refused by every later check of a wallet or refresh token, whatever calls of the
  -- service, in the order of their times, come between.
  pub revoked-Refused :
      (token : String) (exp now t : ℕ) (cs : List Call) (s : S)
      → IsTokenStore store
      → RespectsExp jwt
      → jwt.decode_exp token ≡ some exp
      → InOrder now cs
      → last_time now cs ≤ t
      → let after = run jwt store cs (revoke_token jwt store now token s) in
        Refused token_revoked (verify_wallet_token jwt store t token after).0
        × Refused refresh_token_revoked (verify_refresh_token jwt store t token after).0
  revoked-Refused token exp now t cs s laws respects e o k =
      let start = revoke_token jwt store now token s in
      let held =
        Blocked-run jwt store laws token exp now cs start e o
          (revoked-Blocked jwt store laws token exp now s e) in
      let after = run jwt store cs start in
      let b = Blocked-later jwt store laws token exp (last_time now cs) t after k held in
      (
        Refused-wallet jwt store token exp t after respects e b,
        Refused-refresh jwt store token exp t after respects e b,
      )

  traded-Blocked :
      (token jti refresh_jti : String) (exp now : ℕ) (checked : Result Verified) (r : Rotated)
      (s : S)
      → IsTokenStore store
      → jwt.decode_exp token ≡ some exp
      → (rotate jwt store now token jti refresh_jti checked s).0 ≡ ok r
      → Blocked store token exp now (rotate jwt store now token jti refresh_jti checked s).1
  traded-Blocked token jti refresh_jti exp now (error x) r s laws e h = absurd (cc)
  traded-Blocked token jti refresh_jti exp now (ok v) r s laws e h =
      revoked-Blocked jwt store laws token exp now s e

  -- Over a lawful store of revoked tokens and a library that respects exp, a refresh token with an expiry
  -- that was traded in is refused at every later trade, whatever calls of the service, in the order of
  -- their times, come between.
  pub rotated_once :
      (token jti refresh_jti jti2 refresh_jti2 : String) (exp now t : ℕ) (cs : List Call)
      (r : Rotated) (s : S)
      → IsTokenStore store
      → RespectsExp jwt
      → jwt.decode_exp token ≡ some exp
      → (rotate_refresh_token jwt store now token jti refresh_jti s).0 ≡ ok r
      → InOrder now cs
      → last_time now cs ≤ t
      → let after =
          run jwt store cs (rotate_refresh_token jwt store now token jti refresh_jti s).1 in
        Refused refresh_token_revoked
          (rotate_refresh_token jwt store t token jti2 refresh_jti2 after).0
  unfolding rotate_refresh_token
  rotated_once token jti refresh_jti jti2 refresh_jti2 exp now t cs r s laws respects e h o k =
      let checked = verify_refresh_token jwt store now token s in
      let start = (rotate jwt store now token jti refresh_jti checked.0 checked.1).1 in
      let held =
        Blocked-run jwt store laws token exp now cs start e o
          (traded-Blocked token jti refresh_jti exp now checked.0 r checked.1 laws e h) in
      let after = run jwt store cs start in
      let b = Blocked-later jwt store laws token exp (last_time now cs) t after k held in
      let again = verify_refresh_token jwt store t token after in
      Refused-rotate jwt store token exp t jti2 refresh_jti2 again.0 again.1
        (Refused-refresh jwt store token exp t after respects e b)

-- ===== src/Auth/Verify.antt =====
-- What the two sign-in checks accept (server/src/services/auth.service.ts).
use learnvault.Prelude.{
  ℕ, ◌≤◌, ◌≡◌, ◌⊎◌, refl, sym, ap, ◌∙◌, String, Option, none, some, ◌∷◌, true, false, str_eq,
  str_eq_refl, Bool-cases, inl, inr, if◌then◌else◌, arith,
}
use learnvault.Auth.Nonce.{
  view, get_nonce, get_nonce-view, get_or_set_nonce, get_or_set_nonce-view, delete_nonce,
  delete_nonce-view, after_set,
}
use learnvault.Auth.Service.{
  Sdk, State, Result, ok, error, AuthError, nonce_expired_or_missing, challenge_expired_or_invalid,
  Transaction, text, create_challenge, issue, check_stored, verify_and_issue_token,
  verify_signed_transaction,
}

module _ (sdk : Sdk) where
  -- A held nonce and a signature of it by a valid key, with `onAuthenticated` returning.
  abbrev pub IsSigned : ℕ → String → String → State → Type 0
  IsSigned now a signature s =
      (stored : String) × (bytes : String) × (view s.nonces now a ≡ some stored)
      × (sdk.decode_base64 signature ≡ some bytes)
      × (sdk.verify a stored bytes ≡ true)
      × (sdk.is_valid_key a ≡ true)
      × (sdk.on_authenticated a ≡ true)

  -- A session for the address is issued, and its nonce, and no other, is used up.
  abbrev pub Issues : ℕ → String → State → Result String × State → Type 0
  Issues now a s r =
      (r.0 ≡ ok a)
      × (r.1.sessions ≡ a ∷ s.sessions)
      × ((t : ℕ) (b : String)
          → now ≤ t
          → view r.1.nonces t b ≡ (if str_eq a b then none else view s.nonces t b))

  -- No session is issued.
  abbrev pub Refuses : State → Result String × State → Type 0
  Refuses s r = ((e : AuthError) × r.0 ≡ error e) × (r.1.sessions ≡ s.sessions)

  issue_cases :
      (a : String) (s : State)
      → ((sdk.on_authenticated a ≡ true)
          × (issue sdk a s
              ≡ (ok a, record { nonces = delete_nonce a s.nonces; sessions = a ∷ s.sessions })))
        ⊎ Refuses s (issue sdk a s)
  issue_cases a s = elim (Bool-cases (sdk.on_authenticated a)) [
    | inl e ↦ inl (e, rw e refl)
    | inr e ↦ inr (rw e ((_, refl), refl))
  ]

  check_stored_cases :
      (a : String) (held decoded : Option String) (s : State)
      → ((stored : String) × (bytes : String) × (held ≡ some stored)
          × (decoded ≡ some bytes)
          × (sdk.verify a stored bytes ≡ true)
          × (sdk.on_authenticated a ≡ true)
          × (check_stored sdk a held decoded s
              ≡ (ok a, record { nonces = delete_nonce a s.nonces; sessions = a ∷ s.sessions })))
        ⊎ Refuses s (check_stored sdk a held decoded s)
  check_stored_cases a none decoded s = inr ((_, refl), refl)
  check_stored_cases a (some stored) none s = inr ((_, refl), refl)
  check_stored_cases a (some stored) (some bytes) s =
      elim (Bool-cases (sdk.verify a stored bytes)) [
        | inl e ↦ elim (issue_cases a s) [
          | inl i ↦ inl (stored, bytes, refl, refl, e, i.0, rw e i.1)
          | inr i ↦ inr (rw e i)
        ]
        | inr e ↦ inr (rw e ((_, refl), refl))
      ]

  deleted_view :
      (now t : ℕ) (a b : String) (s : State)
      → now ≤ t
      → view (delete_nonce a (get_nonce now a s.nonces).1) t b
        ≡ (if str_eq a b then none else view s.nonces t b)
  deleted_view now t a b s k =
      delete_nonce-view a (get_nonce now a s.nonces).1 t b
      ∙ ap (λ v. if str_eq a b then none else v) ((get_nonce-view now a s.nonces).1 t b k)

  -- A signature of the held nonce by a valid key issues a session and uses the nonce up, if
  -- `onAuthenticated` returns; else no session is issued.
  pub verify_and_issue_token_cases :
      (now : ℕ) (a signature : String) (s : State)
      → (IsSigned now a signature s × Issues now a s (verify_and_issue_token sdk now a signature s))
        ⊎ Refuses s (verify_and_issue_token sdk now a signature s)
  unfolding verify_and_issue_token
  verify_and_issue_token_cases now a signature s =
      let read = get_nonce now a s.nonces in
      elim (Bool-cases (sdk.is_valid_key a)) [
        | inl v ↦
            elim (check_stored_cases a read.0 (sdk.decode_base64 signature)
              (record s { nonces = read.1 })) [
                | inl (stored, bytes, h, d, y, o, r) ↦ inl (
                  (stored, bytes, sym (get_nonce-view now a s.nonces).0 ∙ h, d, y, v, o),
                  rw (v, r) (refl, refl, λ t b k. deleted_view now t a b s k),
                )
                | inr f ↦ inr (rw v f)
              ]
        | inr v ↦ inr (rw v ((_, refl), refl))
      ]

  not_held :
      (t : ℕ) (a signature : String) (s : State)
      → sdk.is_valid_key a ≡ true
      → view s.nonces t a ≡ none
      → (verify_and_issue_token sdk t a signature s).0 ≡ error nonce_expired_or_missing
  unfolding verify_and_issue_token
  not_held t a signature s v h = rw (v, (get_nonce-view t a s.nonces).0, h) refl

  -- After a sign-in by signature, any signature for the address is refused at every later moment, with
  -- no other call in between.
  sign_in_once :
      (now t : ℕ) (a signature again : String) (s : State)
      → now ≤ t
      → (verify_and_issue_token sdk now a signature s).0 ≡ ok a
      → (verify_and_issue_token sdk t a again (verify_and_issue_token sdk now a signature s).1).0
        ≡ error nonce_expired_or_missing
  sign_in_once now t a signature again s k h =
      elim (verify_and_issue_token_cases now a signature s) [
        | inl (signed, issued) ↦
            not_held t a again (verify_and_issue_token sdk now a signature s).1 signed.5
              (issued.2 t a k ∙ rw (str_eq_refl a) refl)
        | inr ((e, refused), _) ↦ ground (arith, h, refused)
      ]

  -- Where an address has a nonce that is held, and a challenge is asked for with a new nonce that, trimmed,
  -- is neither empty nor the held one, a transaction from the address with sequence 0 and the new nonce as
  -- memo is refused, whatever its signatures, for as long as the old nonce is held.
  pub challenge_stale :
      (now t : ℕ) (a nonce held xdr : String) (tx : Transaction) (s : State)
      → now ≤ t
      → view s.nonces now a ≡ some held
      → view s.nonces t a ≡ some held
      → sdk.is_valid_key a ≡ true
      → sdk.decode xdr ≡ some tx
      → tx.source ≡ a
      → tx.memo ≡ text nonce
      → str_eq tx.sequence "0" ≡ true
      → str_eq (sdk.trim nonce) "" ≡ false
      → str_eq held (sdk.trim nonce) ≡ false
      → (verify_signed_transaction sdk t xdr (create_challenge sdk now nonce a s).1).0
        ≡ error challenge_expired_or_invalid
  unfolding verify_signed_transaction create_challenge
  challenge_stale now t a nonce held xdr tx s k h l v d src memo seq full differs =
      let map = (get_or_set_nonce now 300 a nonce s.nonces).1 in
      let still : (get_nonce t a map).0 ≡ some held =
        (get_nonce-view t a map).0
        ∙ (get_or_set_nonce-view now 300 a nonce s.nonces).1 t a k
        ∙ ap (λ o. after_set now 300 a nonce o t a (view s.nonces t a)) h
        ∙ l in
      let never : (if str_eq held "" then false else false) ≡ false = ground arith in
      rw (v, d, src, v, seq, memo, full, still, differs, never) refl

-- ===== src/Auth/Once.antt =====
-- A nonce signs in once (server/src/services/auth.service.ts).
use learnvault.Prelude.{
  ℕ, ◌+◌, ◌*◌, ◌≤◌, ◌≡◌, refl, sym, ap, ◌∙◌, String, Option, none, some, List, [], ◌∷◌, Bool, true,
  str_eq, str_eq→eq, Bool-cases, inl, inr, if◌then◌else◌, arith,
}
use learnvault.Auth.Nonce.{
  Memory, MemoryEntry, put, sweep, live, nonce_of, is_expired, get_nonce, set_or_keep,
  get_or_set_nonce, delete_nonce,
}
use learnvault.Auth.Service.{
  Sdk, State, Transaction, create_challenge, get_or_create_nonce, issue, check_stored,
  verify_and_issue_token, memo_nonce, is_stored, check_memo, check_transaction,
  verify_signed_transaction,
}

abbrev one_if : Bool → ℕ
one_if b = if b then 1 else 0

-- How often an address occurs.
abbrev pub times : String → List String → ℕ
times a [] = 0
times a (b ∷ bs) = one_if (str_eq b a) + times a bs

abbrev present : Option MemoryEntry → ℕ
present none = 0
present (some e) = 1

-- The sessions of an address and the entry that could still give one.
abbrev credit : String → State → ℕ
credit a s = times a s.sessions + present (s.nonces a)

present-put :
    (a b : String) (e : Option MemoryEntry) (map : Memory)
    → present (put a e map b) ≡ (if str_eq a b then present e else present (map b))
unfolding put
present-put a b e map = ground arith

present-sweep :
    (now : ℕ) (a b : String) (map : Memory) → present (sweep now a map b) ≤ present (map b)
unfolding sweep
present-sweep now a b map = elim (Bool-cases (is_expired now (map a))) [
  | inl e ↦ rw (e, present-put a b none map) (ground arith)
  | inr e ↦ rw e (omega arith)
]

found_present : (e : Option MemoryEntry) (n : String) → nonce_of e ≡ some n → present e ≡ 1
found_present none n h = ground (arith, h)
found_present (some e) n h = refl

present-get_nonce :
    (now : ℕ) (a b : String) (map : Memory) → present ((get_nonce now a map).1 b) ≤ present (map b)
unfolding get_nonce
present-get_nonce now a b map = present-sweep now a b map

get_nonce-found :
    (now : ℕ) (a n : String) (map : Memory)
    → (get_nonce now a map).0 ≡ some n
    → present ((get_nonce now a map).1 a) ≡ 1
unfolding get_nonce
get_nonce-found now a n map h = found_present (sweep now a map a) n h

present_le : (e : Option MemoryEntry) → present e ≤ 1
present_le none = omega arith
present_le (some e) = omega arith

present-set_or_keep :
    (now ttl : ℕ) (a nonce b : String) (o : Option String) (map : Memory)
    → present ((set_or_keep now ttl a nonce o map).1 b) ≤ present (map b) + one_if (str_eq a b)
present-set_or_keep now ttl a nonce b (some kept) map = omega arith
present-set_or_keep now ttl a nonce b none map =
    let e : MemoryEntry = record { nonce = nonce; expires_at = now + ttl * 1000 } in
    rw (present-put a b (some e) map) (ground arith)

present-get_or_set_nonce :
    (now ttl : ℕ) (a nonce b : String) (map : Memory)
    → present ((get_or_set_nonce now ttl a nonce map).1 b) ≤ present (map b) + one_if (str_eq a b)
unfolding get_or_set_nonce
present-get_or_set_nonce now ttl a nonce b map =
    let swept = sweep now a map in
    omega (
      arith,
      present-set_or_keep now ttl a nonce b (live now (swept a)) swept,
      present-sweep now a b map,
    )

module _ (sdk : Sdk) where
  credit-create_challenge :
      (now : ℕ) (nonce b a : String) (s : State)
      → credit a (create_challenge sdk now nonce b s).1 ≤ credit a s + one_if (str_eq b a)
  unfolding create_challenge
  credit-create_challenge now nonce b a s =
      ground (arith, present-get_or_set_nonce now 300 b nonce a s.nonces)

  credit-get_or_create_nonce :
      (now : ℕ) (nonce b a : String) (s : State)
      → credit a (get_or_create_nonce sdk now nonce b s).1 ≤ credit a s + one_if (str_eq b a)
  unfolding get_or_create_nonce
  credit-get_or_create_nonce now nonce b a s =
      ground (arith, present-get_or_set_nonce now 300 b nonce a s.nonces)

  credit-issue :
      (a b : String) (s : State)
      → present (s.nonces b) ≡ 1
      → credit a (issue sdk b s).1 ≤ credit a s
  unfolding delete_nonce
  credit-issue a b s h = elim (Bool-cases (str_eq b a)) [
    | inl e ↦
        let held : present (s.nonces a) ≡ 1 =
          ap (λ c. present (s.nonces c)) (sym (str_eq→eq b a e)) ∙ h in
        ground (arith, e, held, present-put b a none s.nonces)
    | inr e ↦ ground (arith, e, present-put b a none s.nonces)
  ]

  credit-check_stored :
      (a b : String) (o signature : Option String) (s : State)
      → ((n : String) → o ≡ some n → present (s.nonces b) ≡ 1)
      → credit a (check_stored sdk b o signature s).1 ≤ credit a s
  credit-check_stored a b none signature s h = omega arith
  credit-check_stored a b (some stored) none s h = omega arith
  credit-check_stored a b (some stored) (some signature) s h =
      ground (arith, credit-issue a b s (h stored refl))

  credit-read :
      (now : ℕ) (a b : String) (s : State)
      → credit a (record s { nonces = (get_nonce now b s.nonces).1 }) ≤ credit a s
  credit-read now a b s = omega (arith, present-get_nonce now b a s.nonces)

  credit-verify_and_issue_token :
      (now : ℕ) (a b signature : String) (s : State)
      → credit a (verify_and_issue_token sdk now b signature s).1 ≤ credit a s
  unfolding verify_and_issue_token
  credit-verify_and_issue_token now a b signature s =
      let read = get_nonce now b s.nonces in
      let checked =
        credit-check_stored a b read.0 (sdk.decode_base64 signature) (record s { nonces = read.1 })
          (λ n h. get_nonce-found now b n s.nonces h) in
      ground (arith, checked, credit-read now a b s)

  is_stored-found :
      (nonce : String) (o : Option String) → is_stored sdk nonce o ≡ true → o ≡ some nonce
  is_stored-found nonce none h = ground (arith, h)
  is_stored-found nonce (some stored) h =
      let same : str_eq stored nonce ≡ true = ground (arith, h) in
      ap some (str_eq→eq stored nonce same)

  credit-check_memo :
      (now : ℕ) (a : String) (tx : Transaction) (o : Option String) (s : State)
      → credit a (check_memo sdk now tx o s).1 ≤ credit a s
  credit-check_memo now a tx none s = omega arith
  credit-check_memo now a tx (some nonce) s =
      let read = get_nonce now tx.source s.nonces in
      elim (Bool-cases (is_stored sdk nonce read.0)) [
        | inl e ↦
            let found =
              get_nonce-found now tx.source nonce s.nonces (is_stored-found nonce read.0 e) in
            let issued = credit-issue a tx.source (record s { nonces = read.1 }) found in
            rw e (ground (arith, issued, credit-read now a tx.source s))
        | inr e ↦ rw e (credit-read now a tx.source s)
      ]

  credit-check_transaction :
      (now : ℕ) (a : String) (o : Option Transaction) (s : State)
      → credit a (check_transaction sdk now o s).1 ≤ credit a s
  credit-check_transaction now a none s = omega arith
  credit-check_transaction now a (some tx) s =
      ground (arith, credit-check_memo now a tx (memo_nonce sdk tx.memo) s)

  credit-verify_signed_transaction :
      (now : ℕ) (a xdr : String) (s : State)
      → credit a (verify_signed_transaction sdk now xdr s).1 ≤ credit a s
  unfolding verify_signed_transaction
  credit-verify_signed_transaction now a xdr s = credit-check_transaction now a (sdk.decode xdr) s

pub data Op : Type 0 where
  challenge nonce : ℕ → String → String → Op
  signature : ℕ → String → String → Op
  transaction : ℕ → String → Op

abbrev pub start : State
start = record { nonces = λ a. none; sessions = [] }

module _ (sdk : Sdk) where
  -- A history of calls, latest first.
  unfoldable pub run : List Op → State
  run [] = start
  run (challenge now n a ∷ earlier) = (create_challenge sdk now n a (run earlier)).1
  run (nonce now n a ∷ earlier) = (get_or_create_nonce sdk now n a (run earlier)).1
  run (signature now a sig ∷ earlier) = (verify_and_issue_token sdk now a sig (run earlier)).1
  run (transaction now xdr ∷ earlier) = (verify_signed_transaction sdk now xdr (run earlier)).1

-- The addresses that nonces and challenges were asked for.
abbrev pub asked : List Op → List String
asked [] = []
asked (challenge now n a ∷ earlier) = a ∷ asked earlier
asked (nonce now n a ∷ earlier) = a ∷ asked earlier
asked (signature now a sig ∷ earlier) = asked earlier
asked (transaction now xdr ∷ earlier) = asked earlier

credit_bound :
    (sdk : Sdk) (a : String) (ops : List Op) → credit a (run sdk ops) ≤ times a (asked ops)
unfolding run
credit_bound sdk a [] = omega arith
credit_bound sdk a (challenge now n b ∷ earlier) =
    omega
      (arith, credit_bound sdk a earlier, credit-create_challenge sdk now n b a (run sdk earlier))
credit_bound sdk a (nonce now n b ∷ earlier) =
    omega (
      arith,
      credit_bound sdk a earlier,
      credit-get_or_create_nonce sdk now n b a (run sdk earlier),
    )
credit_bound sdk a (signature now b sig ∷ earlier) = omega (
  arith,
  credit_bound sdk a earlier,
  credit-verify_and_issue_token sdk now a b sig (run sdk earlier),
)
credit_bound sdk a (transaction now xdr ∷ earlier) = omega (
  arith,
  credit_bound sdk a earlier,
  credit-verify_signed_transaction sdk now a xdr (run sdk earlier),
)

-- After any history of calls, whatever the signatures, no more sessions have been issued for an address
-- than nonces or challenges were asked for it.
pub sessions-le-asked :
    (sdk : Sdk) (a : String) (ops : List Op) → times a (run sdk ops).sessions ≤ times a (asked ops)
sessions-le-asked sdk a ops = omega (arith, credit_bound sdk a ops)

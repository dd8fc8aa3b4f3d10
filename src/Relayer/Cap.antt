-- ===== src/Relayer/Cap.antt =====
-- The relayer's submissions and the day's spending (server/src/services/relayer.service.ts,
-- server/src/db/sponsorship-store.ts).
use mathlib.Core.Path.{subst}
use learnvault.Prelude.{
  ℕ, ◌+◌, ◌/◌, max, ◌≤◌, ◌≡◌, ◌⊎◌, refl, sym, ap, ◌∙◌, String, Option, none, some, List, [], ◌∷◌,
  ◌++◌, ◌==◌, Bool-cases, inl, inr, if◌then◌else◌, arith,
}
use learnvault.Relayer.Store.{Spend, fee_bump, record_spend, sum_spend_since}
use learnvault.Relayer.Service.{
  ParsedInnerTransaction, RelayRejectionReason, relayer_not_configured, Parsed, accepted, rejected,
  Config, Network, parse_inner_transaction, validate_parsed_transaction, ms_per_day,
  start_of_today_utc, State, FeeBumpResult, relayed, relay_rejected, submission_failed,
  fee_bump_base_fee, answered, relay, relay_parsed, submit_fee_bump,
}

module _ (config : Config) (net : Network) where
  -- The network's answer, the result, and the spending recorded exactly if it is no error.
  abbrev pub Answers :
      ℕ → String → ParsedInnerTransaction → Option String → State → FeeBumpResult × State → Type 0
  Answers now learner p answer s r =
      ((answer ≡ none) × (r.0 ≡ submission_failed) × (r.1.db ≡ s.db))
      ⊎ ((hash : String) × (answer ≡ some hash)
          × (r.0 ≡ relayed hash)
          × (r.1.db ≡ record_spend now p.fee_stroops fee_bump (some learner) (some hash) s.db))

  -- A transaction that parses and passes every guard was handed to the network, once.
  abbrev pub Submits : ℕ → String → String → State → FeeBumpResult × State → Type 0
  Submits now xdr learner s r =
      (p : ParsedInnerTransaction) × (parse_inner_transaction net xdr ≡ accepted p)
      × (validate_parsed_transaction config p learner
            (sum_spend_since (start_of_today_utc now) s.db)
          ≡ none)
      × (r.1.submissions
          ≡ s.submissions
            ++ record { inner_tx_xdr = xdr; base_fee = max net.base_fee p.fee_stroops } ∷ [])
      × Answers now learner p (net.send xdr (max net.base_fee p.fee_stroops)) s r

  -- The request was refused before the network, and nothing changed.
  abbrev pub Rejects : State → FeeBumpResult × State → Type 0
  Rejects s r = (reason : RelayRejectionReason) × (r ≡ (relay_rejected reason, s))

  base_fee_max :
      (p : ParsedInnerTransaction) → fee_bump_base_fee config net p ≡ max net.base_fee p.fee_stroops
  base_fee_max p = ground arith

  answered_cases :
      (now : ℕ) (learner : String) (p : ParsedInnerTransaction) (o : Option String) (s t : State)
      → t.db ≡ s.db
      → Answers now learner p o s (answered config net now learner p o t)
        × ((answered config net now learner p o t).1.submissions ≡ t.submissions)
  answered_cases now learner p none s t h = (inl (refl, refl, h), refl)
  answered_cases now learner p (some hash) s t h = (
    inr (
      hash,
      refl,
      refl,
      ap (record_spend now p.fee_stroops fee_bump (some learner) (some hash)) h,
    ),
    refl,
  )

  relay_cases :
      (now : ℕ) (xdr learner : String) (p : ParsedInnerTransaction)
      (o : Option RelayRejectionReason) (s : State)
      → parse_inner_transaction net xdr ≡ accepted p
      → validate_parsed_transaction config p learner (sum_spend_since (start_of_today_utc now) s.db)
        ≡ o
      → Submits now xdr learner s (relay config net now xdr learner p o s)
        ⊎ Rejects s (relay config net now xdr learner p o s)
  relay_cases now xdr learner p (some reason) s parsed valid = inr (reason, refl)
  relay_cases now xdr learner p none s parsed valid =
      let fee = fee_bump_base_fee config net p in
      let t : State = record s {
        submissions = s.submissions ++ record { inner_tx_xdr = xdr; base_fee = fee } ∷ [];
      } in
      let answer = answered_cases now learner p (net.send xdr fee) s t refl in
      inl (
        p,
        parsed,
        valid,
        answer.1
            ∙ ap (λ f. s.submissions ++ record { inner_tx_xdr = xdr; base_fee = f } ∷ [])
                (base_fee_max p),
        subst
            (λ f.
              Answers now learner p (net.send xdr f) s (relay config net now xdr learner p none s))
            (base_fee_max p) answer.0,
      )

  relay_parsed_cases :
      (now : ℕ) (xdr learner : String) (o : Parsed ParsedInnerTransaction) (s : State)
      → parse_inner_transaction net xdr ≡ o
      → Submits now xdr learner s (relay_parsed config net now xdr learner o s)
        ⊎ Rejects s (relay_parsed config net now xdr learner o s)
  relay_parsed_cases now xdr learner (rejected reason) s parsed = inr (reason, refl)
  relay_parsed_cases now xdr learner (accepted p) s parsed =
      relay_cases now xdr learner p
        (validate_parsed_transaction config p learner
          (sum_spend_since (start_of_today_utc now) s.db))
        s parsed refl

  -- A request either is refused before the network with nothing changed, or its transaction parsed
  -- and passed every guard against today's spending, it was handed to the network once with the larger
  -- of BASE_FEE and its fee as base fee, and its fee was recorded as spent exactly if the network did not
  -- answer with an error.
  pub submit_fee_bump_cases :
      (now : ℕ) (xdr learner : String) (s : State)
      → Submits now xdr learner s (submit_fee_bump config net now xdr learner s)
        ⊎ Rejects s (submit_fee_bump config net now xdr learner s)
  unfolding submit_fee_bump
  submit_fee_bump_cases now xdr learner s = elim (Bool-cases config.has_sponsor_secret) [
    | inl e ↦
        let same : submit_fee_bump config net now xdr learner s
            ≡ relay_parsed config net now xdr learner (parse_inner_transaction net xdr) s =
          rw e refl in
        subst (λ r. Submits now xdr learner s r ⊎ Rejects s r) (sym same)
          (relay_parsed_cases now xdr learner (parse_inner_transaction net xdr) s refl)
    | inr e ↦ inr (relayer_not_configured, rw e refl)
  ]

-- What is recorded as spent on a day.
abbrev pub spent_on : ℕ → List Spend → ℕ
spent_on day [] = 0
spent_on day (e ∷ spends) =
    (if e.spent_at / ms_per_day == day then e.amount_stroops else 0) + spent_on day spends

abbrev pub IsCapped : Config → State → Type 0
IsCapped config s = (day : ℕ) → spent_on day s.db.spends ≤ config.sponsor_daily_spend_cap_stroops

-- Requests one after another, each with the network that it meets, its moment, an envelope and a learner.
abbrev pub submit_all : Config → List (Network × (ℕ × (String × String))) → State → State
submit_all config [] s = s
submit_all config ((net, (now, (xdr, learner))) ∷ requests) s =
    submit_all config requests (submit_fee_bump config net now xdr learner s).1

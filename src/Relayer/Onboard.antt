-- ===== src/Relayer/Onboard.antt =====
-- Building sponsored accounts and the relayer's budget for the day
-- (server/src/services/sponsorship.service.ts, server/src/services/relayer.service.ts).
use learnvault.Prelude.{
  ℕ, ◌+◌, ◌*◌, ◌/◌, ◌<◌, ◌≡◌, ap, ◌∙◌, String, Option, none, some, List, [], ◌∷◌, ◌++◌, Bool, true,
  ◌&&◌, leb, Bool-cases, inl, inr, arith,
}
use learnvault.Relayer.Store.{
  Db, Spend, sum_since, sum_spend_since, record_spend, insert_sponsored_account, create_account,
}
use learnvault.Relayer.Service.{
  Config, Network, State, submit_fee_bump, start_of_today_utc, ms_per_day,
}
use learnvault.Relayer.Guards.{validate_parsed_transaction_iff}
use learnvault.Relayer.Cap.{Rejects, submit_fee_bump_cases}
use learnvault.Relayer.Sponsor.{
  SponsorConfig, SponsorSdk, SignedTransaction, BuildAnswer, BuildSponsorAccountResult, built,
  build_failed, usdc_trustline_configured, reserves_of, store_build, finish_build,
  build_sponsor_account_transaction,
}

sum_since-append :
    (since : ℕ) (xs ys : List Spend)
    → sum_since since (xs ++ ys) ≡ sum_since since xs + sum_since since ys
sum_since-append since [] ys = omega arith
sum_since-append since (e ∷ xs) ys = omega (arith, sum_since-append since xs ys)

spend_stored :
    (now : ℕ) (learner : String) (trustline : Bool) (tx : SignedTransaction) (db : Db)
    → sum_spend_since (start_of_today_utc now) (store_build now learner trustline tx db)
      ≡ sum_spend_since (start_of_today_utc now) db + reserves_of trustline
unfolding sum_spend_since record_spend insert_sponsored_account
spend_stored now learner trustline tx db =
    let today : leb (start_of_today_utc now) now ≡ true = ground arith in
    let new : Spend = record {
      amount_stroops = reserves_of trustline;
      kind = create_account;
      learner_address = some learner;
      tx_hash = some tx.hash;
      spent_at = now;
    } in
    sum_since-append (start_of_today_utc now) db.spends (new ∷ [])
    ∙ ap (λ n. sum_since (start_of_today_utc now) db.spends + n) (rw today (omega arith))

-- A build either failed and stored nothing, or added the reserve to today's spending.
abbrev Adds : ℕ → Db → BuildAnswer × Db → Type 0
Adds now db answer =
    (r : BuildSponsorAccountResult)
    → answer.0 ≡ built r
    → sum_spend_since (start_of_today_utc now) answer.1
      ≡ sum_spend_since (start_of_today_utc now) db + r.reserves_locked_stroops

abbrev reserves_in : BuildAnswer → ℕ
reserves_in (built r) = r.reserves_locked_stroops
reserves_in (build_failed e) = 0

finish-Adds :
    (config : SponsorConfig) (now : ℕ) (learner : String) (trustline : Bool)
    (tx : Option SignedTransaction) (db : Db)
    → Adds now db (finish_build config now learner trustline tx db)
finish-Adds config now learner trustline none db r e = absurd (cc)
finish-Adds config now learner trustline (some tx) db r e =
    spend_stored now learner trustline tx db
    ∙ ap (λ n. sum_spend_since (start_of_today_utc now) db + n) (ap reserves_in e)

build-Adds :
    (config : SponsorConfig) (sdk : SponsorSdk) (now : ℕ) (learner : String)
    (with_usdc_trustline : Bool) (db : Db)
    → Adds now db (build_sponsor_account_transaction config sdk now learner with_usdc_trustline db)
unfolding build_sponsor_account_transaction
build-Adds config sdk now learner with_usdc_trustline db =
    let trustline = with_usdc_trustline && usdc_trustline_configured config in
    elim (Bool-cases config.relayer.has_sponsor_secret) [
      | inr e ↦ rw e (λ r h. absurd (cc))
      | inl e ↦ elim (Bool-cases (sdk.is_valid_key learner)) [
        | inr f ↦ rw (e, f) (λ r h. absurd (cc))
        | inl f ↦
            rw (e, f) (finish-Adds config now learner trustline (sdk.build learner trustline) db)
      ]
    ]

-- With the day's budget used up a request is refused.
over_budget :
    (config : Config) (net : Network) (now : ℕ) (xdr learner : String) (s : State)
    → config.sponsor_daily_spend_cap_stroops
      < sum_spend_since (start_of_today_utc now) s.db + config.sponsor_max_fee_stroops
    → Rejects config net s (submit_fee_bump config net now xdr learner s)
over_budget config net now xdr learner s over =
    elim (submit_fee_bump_cases config net now xdr learner s) [
      | inr refusal ↦ refusal
      | inl (p, parsed, valid, sent, answer) ↦
          let guards =
            (validate_parsed_transaction_iff config p learner
                (sum_spend_since (start_of_today_utc now) s.db)).0
              valid in
          absurd (omega (arith, guards.2, guards.3, over))
    ]

-- A build that succeeds adds its reserve to the spending that the relayer's cap of the day counts;
-- where the reserve takes the day over the cap less the largest fee, every request to the relayer on
-- that day, of any learner, is refused right after the build.
pub build-Rejects :
    (config : SponsorConfig) (sdk : SponsorSdk) (net : Network) (now later : ℕ)
    (learner other xdr : String) (with_usdc_trustline : Bool) (r : BuildSponsorAccountResult)
    (s : State)
    → let answer =
        build_sponsor_account_transaction config sdk now learner with_usdc_trustline s.db in
      let after = record s { db = answer.1 } in
      answer.0 ≡ built r
      → later / ms_per_day ≡ now / ms_per_day
      → config.relayer.sponsor_daily_spend_cap_stroops
        < sum_spend_since (start_of_today_utc now) s.db
          + r.reserves_locked_stroops
          + config.relayer.sponsor_max_fee_stroops
      → (sum_spend_since (start_of_today_utc now) after.db
          ≡ sum_spend_since (start_of_today_utc now) s.db + r.reserves_locked_stroops)
        × Rejects config.relayer net after
            (submit_fee_bump config.relayer net later xdr other after)
build-Rejects config sdk net now later learner other xdr with_usdc_trustline r s done same over =
    let answer =
      build_sponsor_account_transaction config sdk now learner with_usdc_trustline s.db in
    let spent = build-Adds config sdk now learner with_usdc_trustline s.db r done in
    let day : start_of_today_utc later ≡ start_of_today_utc now = ap (λ d. d * ms_per_day) same in
    let after : sum_spend_since (start_of_today_utc later) answer.1
        ≡ sum_spend_since (start_of_today_utc now) s.db + r.reserves_locked_stroops =
      ap (λ t. sum_spend_since t answer.1) day ∙ spent in
    (
      spent,
      over_budget config.relayer net later xdr other (record s { db = answer.1 })
          (omega (arith, after, over)),
    )

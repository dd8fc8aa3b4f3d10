-- ===== src/Referral/Paid.antt =====
-- What was minted for the rows of referrals (server/src/controllers/admin-milestones.controller.ts), and
-- how each query of the table keeps it.
use mathlib.Core.Option
use mathlib.Core.Path.{subst}
use learnvault.Prelude.{
  ℕ, zero, suc, ◌<◌, ◌≡◌, ◌≢◌, ◌⊎◌, inl, inr, refl, ap, ◌∙◌, String, Option, none, some, List, [],
  ◌∷◌, ◌++◌, Bool, true, false, ◌==◌, any, find?, All, All-append, All-weaken, All-map, Bool-cases,
  ==_iff, arith, str_eq_refl, find?-holds, if◌then◌else◌,
}
use learnvault.Prelude.Rows.{
  update, change, DistinctBy, DistinctBy-append, DistinctBy-map, found_map,
}
use learnvault.Referral.Store.{
  ReferralStatus, pending, qualified, rewarded, Referral, Mint, Db, has_id, is_referred,
  insert_referral, try_codes, minted, reward_row, is_qualified_row, reward_lrn_bonus,
}

-- The addresses that were minted to for a referral, in order.
abbrev pub mints_of : ℕ → List Mint → List String
mints_of id [] = []
mints_of id (m ∷ ms) = if m.referral_id == id then m.to_address ∷ mints_of id ms else mints_of id ms

-- What is minted for a row: nothing before it qualifies; then nothing, the referrer only, or both.
abbrev pub PaidBy : ReferralStatus → Referral → List String → Type 0
PaidBy pending r ms = ms ≡ []
PaidBy qualified r ms = (ms ≡ []) ⊎ (ms ≡ r.referrer_addr ∷ [])
PaidBy rewarded r ms = ms ≡ r.referrer_addr ∷ r.referred_addr ∷ []

abbrev pub Paid : Option Referral → List String → Type 0
Paid none ms = ms ≡ []
Paid (some r) ms = PaidBy r.status r ms

pub record IsPaidOnce (db : Db) : Type 0 where
  pub distinct : DistinctBy (λ (r : Referral). r.id) db.referrals
  pub below : All (λ r. r.id < db.next_id) db.referrals
  pub one_each : DistinctBy (λ (r : Referral). r.referred_addr) db.referrals
  pub paid : (id : ℕ) → Paid (find? (has_id id) db.referrals) (mints_of id db.mints)

mints_of-append :
    (id : ℕ) (ms : List Mint) (m : Mint)
    → mints_of id (ms ++ m ∷ [])
      ≡ (if m.referral_id == id then mints_of id ms ++ m.to_address ∷ [] else mints_of id ms)
mints_of-append id [] m = refl
mints_of-append id (n ∷ ms) m = ground (arith, mints_of-append id ms m)

abbrev or_last : Option Referral → Bool → Referral → Option Referral
or_last none hit r = if hit then some r else none
or_last (some b) hit r = some b

find?-append :
    (p : Referral → Bool) (rows : List Referral) (r : Referral)
    → find? p (rows ++ r ∷ []) ≡ or_last (find? p rows) (p r) r
find?-append p [] r = refl
find?-append p (b ∷ rows) r = ground (arith, find?-append p rows r)

-- A row that is stored as pending has been paid nothing.
or_last-Paid :
    (o : Option Referral) (hit : Bool) (r : Referral) (ms : List String)
    → r.status ≡ pending
    → Paid o ms
    → Paid (or_last o hit r) ms
or_last-Paid none true r ms e h = rw e h
or_last-Paid none false r ms e h = h
or_last-Paid (some b) hit r ms e h = h

new_to_all :
    (a : String) (rows : List Referral)
    → any (is_referred a) rows ≡ false
    → All (λ r. r.referred_addr ≢ a) rows
new_to_all a [] h = tt
new_to_all a (r ∷ rows) h =
    (λ e. absurd (ground (arith, str_eq_refl a)), new_to_all a rows (ground arith))

module _ (now : ℕ) (db : Db) (h : IsPaidOnce db) where
  pub insert-IsPaidOnce :
      (referrer referred code : String)
      → IsPaidOnce (insert_referral now referrer referred code db).1
  unfolding insert_referral
  insert-IsPaidOnce referrer referred code =
      elim (Bool-cases (any (is_referred referred) db.referrals)) [
        | inl e ↦ rw e record {
          distinct = h.distinct;
          below = All-weaken _ _ db.referrals (λ r lt. omega arith) h.below;
          one_each = h.one_each;
          paid = h.paid;
        }
        | inr e ↦ rw e record {
          distinct =
              DistinctBy-append _ db.referrals _ h.distinct
                (All-weaken _ _ db.referrals (λ r lt eq. omega arith) h.below);
          below =
              All-append _ db.referrals _
                (All-weaken _ _ db.referrals (λ r lt. omega arith) h.below) (omega arith, tt);
          one_each =
              DistinctBy-append _ db.referrals _ h.one_each (new_to_all referred db.referrals e);
          paid = λ id.
              rw (find?-append (has_id id) db.referrals _)
                (or_last-Paid (find? (has_id id) db.referrals) _ _ _ refl (h.paid id));
        }
      ]

pub try_codes-IsPaidOnce :
    (now : ℕ) (codes : ℕ → String) (n : ℕ) (a : String) (db : Db)
    → IsPaidOnce db
    → IsPaidOnce (try_codes now codes n a db).1
unfolding try_codes
try_codes-IsPaidOnce now codes zero a db h = h
try_codes-IsPaidOnce now codes (suc n) a db h =
    let tried = insert_referral now a a (codes n) db in
    let kept = insert-IsPaidOnce now db h a a (codes n) in
    elim (Bool-cases tried.0) [
      | inl e ↦ rw e kept
      | inr e ↦ rw e (try_codes-IsPaidOnce now codes n a tried.1 kept)
    ]

pub PaidBy-status :
    (r : Referral) (ms : List String) {st : ReferralStatus}
    → r.status ≡ st
    → PaidBy r.status r ms
    → PaidBy st r ms
PaidBy-status r ms e h = subst (λ st. PaidBy st r ms) e h

-- The same, but for the row and the mints of one id.
pub record IsPaidBut (k : ℕ) (db : Db) : Type 0 where
  distinct : DistinctBy (λ (r : Referral). r.id) db.referrals
  below : All (λ r. r.id < db.next_id) db.referrals
  one_each : DistinctBy (λ (r : Referral). r.referred_addr) db.referrals
  others :
      (id : ℕ) → (k == id) ≡ false → Paid (find? (has_id id) db.referrals) (mints_of id db.mints)

module _ (k : ℕ) (db : Db) where
  pub but-IsPaidBut : IsPaidOnce db → IsPaidBut k db
  but-IsPaidBut h = record {
    distinct = h.distinct;
    below = h.below;
    one_each = h.one_each;
    others = λ id ne. h.paid id;
  }

  complete :
      IsPaidBut k db → Paid (find? (has_id k) db.referrals) (mints_of k db.mints) → IsPaidOnce db
  complete h own = record {
    distinct = h.distinct;
    below = h.below;
    one_each = h.one_each;
    paid = λ id. elim (Bool-cases (k == id)) [
      | inl e ↦
          subst (λ x. Paid (find? (has_id x) db.referrals) (mints_of x db.mints))
            ((==_iff k id).0 e) own
      | inr e ↦ h.others id e
    ];
  }

  mint-IsPaidBut : (a : String) → IsPaidBut k db → IsPaidBut k (minted a k db)
  mint-IsPaidBut a h = record {
    distinct = h.distinct;
    below = h.below;
    one_each = h.one_each;
    others = λ id ne. rw (mints_of-append id db.mints _, ne) (h.others id ne);
  }

  other_same :
      (p : Referral → Bool) (f : Referral → Referral) (id : ℕ) (o : Option Referral)
      → ((r : Referral) → p r ≡ true → has_id k r ≡ true)
      → (k == id) ≡ false
      → find? (has_id id) db.referrals ≡ o
      → Option.map (change p f) o ≡ o
  other_same p f id none only ne e = refl
  other_same p f id (some r) only ne e =
      let here : has_id id r ≡ true = find?-holds (has_id id) db.referrals r e in
      elim (Bool-cases (p r)) [
        | inl hit ↦ absurd (ground (arith, only r hit))
        | inr miss ↦ rw miss refl
      ]

  pub update-IsPaidBut :
      (p : Referral → Bool) (f : Referral → Referral)
      → ((x : Referral) → (f x).id ≡ x.id)
      → ((x : Referral) → (f x).referred_addr ≡ x.referred_addr)
      → ((x : Referral) → p x ≡ true → has_id k x ≡ true)
      → IsPaidBut k db
      → IsPaidBut k (record db { referrals = update p f db.referrals })
  update-IsPaidBut p f same_id same_addr only h =
      let keeps_id : (x : Referral) → (change p f x).id ≡ x.id = λ x. ground (arith, same_id x) in
      record {
        distinct = DistinctBy-map _ (change p f) keeps_id db.referrals h.distinct;
        below = All-map _ _ (change p f) db.referrals (λ x lt. rw (keeps_id x) lt) h.below;
        one_each =
            DistinctBy-map _ (change p f) (λ x. ground (arith, same_addr x)) db.referrals
              h.one_each;
        others = λ id ne.
            rw
              (
                found_map (λ (x : Referral). x.id) id (change p f) keeps_id db.referrals,
                other_same p f id (find? (has_id id) db.referrals) only ne refl,
              )
              (h.others id ne);
      }

  pub found_changed :
      (p : Referral → Bool) (f : Referral → Referral) (r : Referral)
      → ((x : Referral) → (f x).id ≡ x.id)
      → find? (has_id k) db.referrals ≡ some r
      → p r ≡ true
      → find? (has_id k) (update p f db.referrals) ≡ some (f r)
  found_changed p f r same_id found hit =
      found_map (λ (x : Referral). x.id) k (change p f) (λ x. ground (arith, same_id x))
        db.referrals
      ∙ ap (Option.map (change p f)) found
      ∙ (rw hit)

  minted_now :
      (a : String) {ms : List String}
      → mints_of k db.mints ≡ ms
      → mints_of k (minted a k db).mints ≡ ms ++ a ∷ []
  minted_now a e =
      let own : (k == k) ≡ true = ground arith in rw (mints_of-append k db.mints _, own, e) refl

module _ (mints : String → Bool) (db : Db) (r : Referral) (h : IsPaidBut r.id db)
    (at : r.status ≡ qualified) (found : find? (has_id r.id) db.referrals ≡ some r)
    (nothing : mints_of r.id db.mints ≡ []) where
  pub reward-IsPaidOnce :
      IsPaidOnce (reward_lrn_bonus mints r.id r.referrer_addr r.referred_addr db)
  unfolding reward_lrn_bonus
  reward-IsPaidOnce =
      let once = minted_now r.id db r.referrer_addr nothing in
      let h1 = mint-IsPaidBut r.id db r.referrer_addr h in
      let db1 = minted r.referrer_addr r.id db in
      let db2 = minted r.referred_addr r.id db1 in
      let hit : is_qualified_row r.id r ≡ true = ground arith in
      elim (Bool-cases (mints r.referrer_addr)) [
        | inr e ↦ rw e (complete r.id db h (rw (found, at, nothing) (inl refl)))
        | inl e ↦ elim (Bool-cases (mints r.referred_addr)) [
          | inr d ↦ rw (e, d) (complete r.id db1 h1 (rw (found, at, once) (inr refl)))
          | inl d ↦
              rw (e, d)
                (complete r.id
                  (record db2 {
                    referrals = update (is_qualified_row r.id) reward_row db.referrals;
                  })
                  (update-IsPaidBut r.id db2 (is_qualified_row r.id) reward_row (λ x. refl)
                    (λ x. refl) (λ x. ground arith) (mint-IsPaidBut r.id db1 r.referred_addr h1))
                  (rw
                    (
                      found_changed r.id db (is_qualified_row r.id) reward_row r (λ x. refl) found
                          hit,
                      minted_now r.id db1 r.referred_addr once,
                    )
                    refl))
        ]
      ]

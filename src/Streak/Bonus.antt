-- ===== src/Streak/Bonus.antt =====
-- The bonuses of the streak service against the longest streak (server/src/services/streak.service.ts).

use learnvault.Prelude.{
  ℕ, ◌+◌, ◌*◌, ◌≤◌, ◌<◌, ◌≡◌, refl, ap, sym, ◌∙◌, String, Option, none, some, List, [], ◌∷◌, ◌++◌,
  Bool, true, false, ◌&&◌, filter, length, filter-append, length-append, max, leb, ◌==◌, str_eq,
  str_eq→eq, Bool-cases, inl, inr, if◌then◌else◌, arith,
}
use learnvault.Streak.Store.{
  StreakRow, Mint, Db, get_streak_row, next_streak, crossed, bonus_threshold, streak_thresholds,
  streak_bonus_lrn, lrn_atomic_unit, mint_streak_bonus, record_milestone_activity, set_daily_goal,
}
use learnvault.Streak.History.{Op, activity, goal, step, after, row-activity, row-goal}

abbrev pub is_mint : String → ℕ → Mint → Bool
is_mint a n m = str_eq m.learner_address a && m.amount == n

-- The number of calls of the mint with an amount for a learner.
abbrev pub asked : String → ℕ → List Mint → ℕ
asked a n mints = length (filter (is_mint a n) mints)

abbrev pub bonus : ℕ → ℕ
bonus t = streak_bonus_lrn t * lrn_atomic_unit

abbrev pub one_if : Bool → ℕ
one_if b = if b then 1 else 0

abbrev is_threshold : ℕ → Option ℕ → Bool
is_threshold t none = false
is_threshold t (some u) = u == t

asked_one :
    (a : String) (n : ℕ) (m : Mint) (mints : List Mint)
    → asked a n (mints ++ m ∷ []) ≡ asked a n mints + one_if (is_mint a n m)
asked_one a n m mints =
    ap length (filter-append (is_mint a n) mints (m ∷ []))
    ∙ length-append (filter (is_mint a n) mints) (filter (is_mint a n) (m ∷ []))
    ∙ ground arith

module _ (t : ℕ) (paid : 0 < streak_bonus_lrn t) where
  same_bonus : (u : ℕ) → (bonus u == bonus t) ≡ (u == t)
  same_bonus u = ground (arith, paid)

  unpaid : (u : ℕ) → (streak_bonus_lrn u == 0) ≡ true → (u == t) ≡ false
  unpaid u h = ground (arith, paid, h)

  asked-mint_streak_bonus :
      (ok : Bool) (a b : String) (o : Option ℕ) (mints : List Mint)
      → asked a (bonus t) (mint_streak_bonus ok b o mints)
        ≡ asked a (bonus t) mints + one_if (str_eq b a && is_threshold t o)
  asked-mint_streak_bonus ok a b none mints = ground arith
  asked-mint_streak_bonus ok a b (some u) mints = elim (Bool-cases (streak_bonus_lrn u == 0)) [
    | inl e ↦ rw (e, unpaid u e) (ground arith)
    | inr e ↦
        rw
          (
            e,
            asked_one a (bonus t) (record { learner_address = b; amount = bonus u; returned = ok })
                mints,
            same_bonus u,
          )
          refl
  ]

  crossed_once :
      (previous longest : ℕ)
      → previous ≤ longest
      → longest ≤ previous + 1
      → one_if (leb t longest)
        ≡ one_if (leb t previous)
          + one_if (is_threshold t (crossed previous longest streak_thresholds))
  crossed_once previous longest h k = ground (arith, paid, h, k)

abbrev IsBounded : StreakRow → Type 0
IsBounded r = r.current_streak ≤ r.longest_streak

streak_by_one : (today current : ℕ) (last : Option ℕ) → next_streak today last current ≤ current + 1
streak_by_one today current none = omega arith
streak_by_one today current (some last) = ground arith

-- After any history, no learner's current streak is longer than the longest.
pub current-le-longest :
    (read : ℕ → ℕ) (a : String) (ops : List Op) → IsBounded (get_streak_row read a (after read ops))
unfolding after step get_streak_row
current-le-longest read a [] = omega arith
current-le-longest read a (activity now today ok b ∷ earlier) = elim (Bool-cases (str_eq b a)) [
  | inl e ↦ rw (row-activity read now today ok a b (after read earlier), e) (omega arith)
  | inr e ↦
      rw (row-activity read now today ok a b (after read earlier), e)
        (current-le-longest read a earlier)
]
current-le-longest read a (goal now n b ∷ earlier) =
    let same = row-goal read now n a b (after read earlier) in
    rw (same.0, same.1) (current-le-longest read a earlier)

module _ (t : ℕ) (paid : 0 < streak_bonus_lrn t) where
  asked-activity :
      (read : ℕ → ℕ) (now today : ℕ) (ok : Bool) (a b : String) (db : Db)
      → asked a (bonus t) (record_milestone_activity read now today ok b db).1.mints
        ≡ asked a (bonus t) db.mints
          + one_if (str_eq b a && is_threshold t (bonus_threshold today (get_streak_row read b db)))
  unfolding record_milestone_activity
  asked-activity read now today ok a b db =
      asked-mint_streak_bonus t paid ok a b (bonus_threshold today (get_streak_row read b db))
        db.mints

  once :
      (today : ℕ) (r : StreakRow)
      → IsBounded r
      → one_if
          (leb t (max r.longest_streak (next_streak today r.last_active_date r.current_streak)))
        ≡ one_if (leb t r.longest_streak) + one_if (is_threshold t (bonus_threshold today r))
  once today r h =
      let next = next_streak today r.last_active_date r.current_streak in
      crossed_once t paid r.longest_streak (max r.longest_streak next) (omega arith)
        (omega (arith, h, streak_by_one today r.current_streak r.last_active_date))

asked-goal :
    (read : ℕ → ℕ) (t now n : ℕ) (a b : String) (db : Db)
    → asked a (bonus t) (set_daily_goal read now n b db).1.mints ≡ asked a (bonus t) db.mints
unfolding set_daily_goal
asked-goal read t now n a b db = refl

-- After any history of calls, whether or not the calls of the mint return: of each bonus that the
-- service pays for a threshold, the mint was called for a learner exactly once, if the learner's
-- longest streak has reached the threshold, and else never. A call that fails is not repeated.
pub bonus_once :
    (read : ℕ → ℕ) (a : String) (t : ℕ) (ops : List Op)
    → 0 < streak_bonus_lrn t
    → asked a (bonus t) (after read ops).mints
      ≡ one_if (leb t (get_streak_row read a (after read ops)).longest_streak)
unfolding after step get_streak_row
bonus_once read a t [] paid = ground (arith, paid)
bonus_once read a t (activity now today ok b ∷ earlier) paid = elim (Bool-cases (str_eq b a)) [
  | inl e ↦
      let same = str_eq→eq b a e in
      rw
        (
          row-activity read now today ok a b (after read earlier),
          asked-activity t paid read now today ok a b (after read earlier),
          e,
          same,
        )
        (omega (
          arith,
          bonus_once read a t earlier paid,
          once t paid today (get_streak_row read a (after read earlier))
              (current-le-longest read a earlier),
        ))
  | inr e ↦
      rw
        (
          row-activity read now today ok a b (after read earlier),
          e,
          asked-activity t paid read now today ok a b (after read earlier),
          e,
        )
        (omega (arith, bonus_once read a t earlier paid))
]
bonus_once read a t (goal now n b ∷ earlier) paid =
    let same = row-goal read now n a b (after read earlier) in
    asked-goal read t now n a b (after read earlier)
    ∙ bonus_once read a t earlier paid
    ∙ ap (λ l. one_if (leb t l)) (sym same.1)

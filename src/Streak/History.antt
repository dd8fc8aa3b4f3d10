-- ===== src/Streak/History.antt =====
-- Histories of calls of the streak service (server/src/services/streak.service.ts), latest first, and
-- the row of a learner after them.
use learnvault.Prelude.{
  ℕ, ◌≤◌, ◌≡◌, refl, ap, sym, ◌∙◌, String, Bool, Option, none, some, List, [], ◌∷◌, true, false,
  All, find?, str_eq, str_eq→eq, str_eq→ne, not_str_eq, Bool-cases, inl, inr, if◌then◌else◌, arith,
}
use learnvault.Streak.Store.{
  StreakRow, Db, is_learner, default_row, or_default, read_row, get_streak_row, upsert, upserted,
  goal_row, active_row, record_milestone_activity, set_daily_goal,
}

pub data Op : Type 0 where
  activity : ℕ → ℕ → Bool → String → Op
  goal : ℕ → ℕ → String → Op

abbrev pub empty : Db
empty = record { streaks = []; activity = []; mints = [] }

unfoldable pub step : (ℕ → ℕ) → Op → Db → Db
step read (activity now today ok b) db = (record_milestone_activity read now today ok b db).1
step read (goal now n b) db = (set_daily_goal read now n b db).1

unfoldable pub after : (ℕ → ℕ) → List Op → Db
unfolding step
after read [] = empty
after read (op ∷ earlier) = step read op (after read earlier)

-- The days of a learner's milestone activities, latest first.
unfoldable pub days_of : String → List Op → List ℕ
days_of a [] = []
days_of a (activity now today ok b ∷ earlier) =
    if str_eq b a then today ∷ days_of a earlier else days_of a earlier
days_of a (goal now n b ∷ earlier) = days_of a earlier

abbrev pub NotBefore : Op → List Op → Type 0
NotBefore (activity now today ok b) earlier = All (λ d. d ≤ today) (days_of b earlier)
NotBefore (goal now n b) earlier = Unit

-- No activity of a learner is dated before an earlier one.
abbrev pub IsOrdered : List Op → Type 0
IsOrdered [] = Unit
IsOrdered (op ∷ earlier) = NotBefore op earlier × IsOrdered earlier

find?-upsert :
    (read : ℕ → ℕ) (a : String) (new : StreakRow) (f : StreakRow → StreakRow)
    (rows : List StreakRow)
    → ((r : StreakRow)
        → is_learner new.learner_address r ≡ true
        → (f r).learner_address ≡ new.learner_address)
    → or_default read a (find? (is_learner a) (upsert new f rows)) ≡ (
        if is_learner a new
        then read_row read (upserted new f (find? (is_learner new.learner_address) rows))
        else or_default read a (find? (is_learner a) rows))
find?-upsert read a new f [] same = ground arith
find?-upsert read a new f (r ∷ rows) same = elim (Bool-cases (is_learner new.learner_address r)) [
  | inl e ↦ elim (Bool-cases (is_learner a new)) [
    | inl h ↦ rw (e, same r e, h)
    | inr h ↦
        let other : is_learner a r ≡ false =
          rw (str_eq→eq r.learner_address new.learner_address e) h in
        rw (e, same r e, h, other)
  ]
  | inr e ↦ elim (Bool-cases (is_learner a r)) [
    | inl h ↦
        let other : is_learner a new ≡ false = not_str_eq new.learner_address a (λ q.
          str_eq→ne r.learner_address new.learner_address e
            (str_eq→eq r.learner_address a h ∙ sym q)) in
        rw (e, h, other)
    | inr h ↦ rw (e, h) (find?-upsert read a new f rows same)
  ]
]

keep_goal :
    (read : ℕ → ℕ) (now today : ℕ) (b : String) (o : Option StreakRow)
    → upserted
        (active_row b now today (or_default read b o))
        (λ old. record (active_row b now today (or_default read b o)) {
          daily_goal = old.daily_goal;
        })
        o
      ≡ active_row b now today (or_default read b o)
keep_goal read now today b none = refl
keep_goal read now today b (some r) = refl

-- The row of a learner after an activity.
pub row-activity :
    (read : ℕ → ℕ) (now today : ℕ) (ok : Bool) (a b : String) (db : Db)
    → get_streak_row read a (record_milestone_activity read now today ok b db).1 ≡ (
        if str_eq b a
        then read_row read (active_row b now today (get_streak_row read b db))
        else get_streak_row read a db)
unfolding record_milestone_activity
row-activity read now today ok a b db =
    let row = active_row b now today (get_streak_row read b db) in
    find?-upsert read a row (λ old. record row { daily_goal = old.daily_goal }) db.streaks
      (λ r _. refl)
    ∙ ap (λ x. if str_eq b a then read_row read x else get_streak_row read a db)
        (keep_goal read now today b (find? (is_learner b) db.streaks))

abbrev pub SameStreak : StreakRow → StreakRow → Type 0
SameStreak r s =
    (r.current_streak ≡ s.current_streak)
    × (r.longest_streak ≡ s.longest_streak)
    × (r.last_active_date ≡ s.last_active_date)

same_streak :
    (read : ℕ → ℕ) (now n : ℕ) (a : String) (o : Option StreakRow)
    → SameStreak
        (read_row read (upserted (goal_row now n (default_row a)) (goal_row now n) o))
        (or_default read a o)
same_streak read now n a none = (refl, refl, refl)
same_streak read now n a (some r) = (refl, refl, refl)

-- Setting a goal leaves the rest of the row of every learner.
pub row-goal :
    (read : ℕ → ℕ) (now n : ℕ) (a b : String) (db : Db)
    → SameStreak
        (get_streak_row read a (set_daily_goal read now n b db).1)
        (get_streak_row read a db)
unfolding set_daily_goal get_streak_row
row-goal read now n a b db =
    let found =
      find?-upsert read a (goal_row now n (default_row b)) (goal_row now n) db.streaks
        (λ r e. str_eq→eq r.learner_address b e) in
    elim (Bool-cases (str_eq b a)) [
      | inl h ↦
          rw (found, h, str_eq→eq b a h)
            (same_streak read now n a (find? (is_learner a) db.streaks))
      | inr h ↦ rw (found, h) (refl, refl, refl)
    ]

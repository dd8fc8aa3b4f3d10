-- ===== src/Streak/Days.antt =====
-- The streak where a stored day does not read back as a day (server/src/services/streak.service.ts): a driver
-- that gives a Date object for a DATE, whose text is no date of the form YYYY-MM-DD.
use learnvault.Prelude.{
  ℕ, ◌+◌, ◌≤◌, ◌≡◌, ◌≢◌, refl, String, Option, none, some, List, [], ◌∷◌, All, find?, max, str_eq,
  Bool-cases, inl, inr, arith,
}
use learnvault.Streak.Store.{
  StreakRow, Db, is_learner, or_default, to_date_only, get_streak_row, next_streak, bonus_threshold,
  record_milestone_activity, set_daily_goal,
}
use learnvault.Streak.History.{Op, activity, goal, step, after, days_of, row-activity, row-goal}

-- The days of all activities, latest first.
abbrev pub all_days : List Op → List ℕ
all_days [] = []
all_days (activity now today ok b ∷ earlier) = today ∷ all_days earlier
all_days (goal now n b ∷ earlier) = all_days earlier

-- What a day reads back as is neither a day of the history nor the day before one.
abbrev pub IsForeign : (ℕ → ℕ) → List ℕ → Type 0
IsForeign read days = (d : ℕ) → All (λ t. (read d ≢ t) × (read d + 1 ≢ t)) days

foreign_streak :
    (read : ℕ → ℕ) (today current : ℕ) (last : Option ℕ)
    → ((d : ℕ) → (read d ≢ today) × (read d + 1 ≢ today))
    → next_streak today (to_date_only read last) current ≡ 1
foreign_streak read today current none h = refl
foreign_streak read today current (some d) h =
    let not_today = (h d).0 in let not_yesterday = (h d).1 in ground arith

stored_streak :
    (read : ℕ → ℕ) (today : ℕ) (b : String) (o : Option StreakRow)
    → ((d : ℕ) → (read d ≢ today) × (read d + 1 ≢ today))
    → next_streak today (or_default read b o).last_active_date (or_default read b o).current_streak
      ≡ 1
stored_streak read today b none h = refl
stored_streak read today b (some r) h =
    foreign_streak read today r.current_streak r.last_active_date h

next_one :
    (read : ℕ → ℕ) (today : ℕ) (b : String) (db : Db)
    → ((d : ℕ) → (read d ≢ today) × (read d + 1 ≢ today))
    → next_streak today
        (get_streak_row read b db).last_active_date
        (get_streak_row read b db).current_streak
      ≡ 1
unfolding get_streak_row
next_one read today b db h = stored_streak read today b (find? (is_learner b) db.streaks) h

-- 1 if there is a day.
abbrev pub started : List ℕ → ℕ
started [] = 0
started (d ∷ ds) = 1

started-le : (ds : List ℕ) → started ds ≤ 1
started-le [] = omega arith
started-le (d ∷ ds) = omega arith

streak_one :
    (read : ℕ → ℕ) (a : String) (ops : List Op)
    → IsForeign read (all_days ops)
    → ((get_streak_row read a (after read ops)).current_streak ≡ started (days_of a ops))
      × ((get_streak_row read a (after read ops)).longest_streak ≡ started (days_of a ops))
unfolding after step get_streak_row days_of
streak_one read a [] h = (refl, refl)
streak_one read a (activity now today ok b ∷ earlier) h = elim (Bool-cases (str_eq b a)) [
  | inl e ↦
      let before = (streak_one read b earlier (λ d. (h d).1)).1 in
      let next = next_one read today b (after read earlier) (λ d. (h d).0) in
      rw (row-activity read now today ok a b (after read earlier), e, next, before)
        (refl, omega (arith, started-le (days_of b earlier)))
  | inr e ↦
      rw (row-activity read now today ok a b (after read earlier), e)
        (streak_one read a earlier (λ d. (h d).1))
]
streak_one read a (goal now n b ∷ earlier) h =
    let same = row-goal read now n a b (after read earlier) in
    rw (same.0, same.1) (streak_one read a earlier h)

longest_one :
    (read : ℕ → ℕ) (a : String) (ops : List Op)
    → IsForeign read (all_days ops)
    → (get_streak_row read a (after read ops)).longest_streak ≤ 1
longest_one read a ops h = rw ((streak_one read a ops h).1) (started-le (days_of a ops))

no_threshold :
    (today : ℕ) (r : StreakRow)
    → r.longest_streak ≤ 1
    → next_streak today r.last_active_date r.current_streak ≡ 1
    → bonus_threshold today r ≡ none
no_threshold today r h e =
    let small : max r.longest_streak 1 ≤ 1 = omega arith in rw e (ground arith)

no_mints :
    (read : ℕ → ℕ) (ops : List Op) → IsForeign read (all_days ops) → (after read ops).mints ≡ []
unfolding after step record_milestone_activity set_daily_goal
no_mints read [] h = refl
no_mints read (activity now today ok b ∷ earlier) h =
    let before = after read earlier in
    let none_crossed : bonus_threshold today (get_streak_row read b before) ≡ none =
      no_threshold today (get_streak_row read b before) (longest_one read b earlier (λ d. (h d).1))
        (next_one read today b before (λ d. (h d).0)) in
    rw (none_crossed, no_mints read earlier (λ d. (h d).1)) refl
no_mints read (goal now n b ∷ earlier) h = no_mints read earlier h

-- If what a stored day reads back as is never a day of an activity in the history nor the day
-- before one, which is so of a driver that gives a Date object: after the history the current and
-- the longest streak of a learner are 1 if the learner has an activity, and else 0, and the mint
-- of a bonus was never called.
pub streak_stuck :
    (read : ℕ → ℕ) (a : String) (ops : List Op)
    → IsForeign read (all_days ops)
    → ((get_streak_row read a (after read ops)).current_streak ≡ started (days_of a ops))
      × ((get_streak_row read a (after read ops)).longest_streak ≡ started (days_of a ops))
      × ((after read ops).mints ≡ [])
streak_stuck read a ops h = let one = streak_one read a ops h in (one.0, one.1, no_mints read ops h)

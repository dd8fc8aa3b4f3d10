-- ===== src/Streak/Tests.antt =====
-- The streak service on short histories.
use learnvault.Prelude.{ℕ, ◌≤◌, ◌≢◌, All, true, false, ◌+◌, ◌≡◌, refl, List, [], ◌∷◌, leb, arith}
use learnvault.Streak.Store.{
  get_streak_row, set_daily_goal, record_milestone_activity, get_streak_summary,
}
use learnvault.Streak.History.{Op, activity, goal, step, after, days_of}
use learnvault.Streak.Days.{started, streak_stuck}
use learnvault.Streak.Bonus.{asked, bonus, one_if, bonus_once}
use learnvault.Streak.Week.{times, summary_blank}

-- Days 10 and 11, a goal, and day 11 again.
abbrev two_days : List Op
two_days =
    activity 3 11 true "GA"
    ∷ goal 2 4 "GA"
    ∷ activity 1 11 true "GA"
    ∷ activity 1 10 true "GB"
    ∷ activity 0 10 true "GA"
    ∷ []

abbrev seven_days : List Op
seven_days =
    activity 7 16 true "GA"
    ∷ activity 6 15 true "GA"
    ∷ activity 5 14 true "GA"
    ∷ activity 4 13 true "GA"
    ∷ activity 3 12 true "GA"
    ∷ two_days

streak : Unit {0}
unfolding after step days_of record_milestone_activity set_daily_goal get_streak_summary
    get_streak_row
streak = tt

current_test : (get_streak_row (λ d. d) "GA" (after (λ d. d) two_days)).current_streak ≡ 2
unfolding streak
current_test = refl

gap_test :
    (get_streak_row
      (λ d. d)
      "GA"
      (after (λ d. d) (activity 9 13 true "GA" ∷ two_days))).current_streak
    ≡ 1
unfolding streak
gap_test = refl

mints_test :
    (after (λ d. d) (activity 8 16 true "GA" ∷ seven_days)).mints
    ≡ record { learner_address = "GA"; amount = 50000000; returned = true } ∷ []
unfolding streak
mints_test = refl

-- The driver's default, a Date object whose text is no ISO date, as a day that is never one of these.
date_object_test :
    (get_streak_row (λ d. d + 1000000) "GA" (after (λ d. d + 1000000) seven_days)).current_streak
    ≡ 1
unfolding streak
date_object_test = refl

bonus_once_example :
    asked "GA" (bonus 7) (after (λ d. d) seven_days).mints
    ≡ one_if (leb 7 (get_streak_row (λ d. d) "GA" (after (λ d. d) seven_days)).longest_streak)
bonus_once_example = bonus_once (λ d. d) "GA" 7 seven_days (omega arith)

-- A driver that gives Date objects: their text is no date of the form YYYY-MM-DD, here a day far away.
abbrev object : ℕ → ℕ
object d = d + 1000000

streak_stuck_example :
    ((get_streak_row object "GA" (after object seven_days)).current_streak
      ≡ started (days_of "GA" seven_days))
    × ((get_streak_row object "GA" (after object seven_days)).longest_streak
        ≡ started (days_of "GA" seven_days))
    × ((after object seven_days).mints ≡ [])
unfolding streak
streak_stuck_example = streak_stuck object "GA" seven_days (λ d. (
  (away d 16 (omega arith)),
  (
    (away d 15 (omega arith)),
    (
      (away d 14 (omega arith)),
      (
        (away d 13 (omega arith)),
        (
          (away d 12 (omega arith)),
          (
            (away d 11 (omega arith)),
            (
              (away d 11 (omega arith)),
              ((away d 10 (omega arith)), ((away d 10 (omega arith)), tt)),
            ),
          ),
        ),
      ),
    ),
  ),
))
  where
    away : (d t : ℕ) → t ≤ 16 → (object d ≢ t) × (object d + 1 ≢ t)
    away d t h = ((λ e. omega arith), (λ e. omega arith))

summary_blank_example :
    let s = get_streak_summary object 12 "GA" (after object two_days) in
    (s.todays_progress ≡ times 12 (days_of "GA" two_days))
    × All (λ day. day.1 ≡ false) s.last_7_days
summary_blank_example = summary_blank object "GA" 12 two_days (λ d i h. λ e. absurd (omega arith))

-- ===== src/Streak/Store.antt =====
-- server/src/services/streak.service.ts: the tables learner_streaks and streak_activity, and the
-- calls of `mintLearnTokenBonus`, which the service makes and does not wait for. A date is the number
-- of its day.
use learnvault.Prelude.{
  ℕ, zero, suc, ◌+◌, ◌-◌, ◌*◌, String, Option, none, some, List, [], ◌∷◌, ◌++◌, Bool, ◌&&◌, find?,
  max, ltb, leb, ◌==◌, str_eq, if◌then◌else◌,
}

pub record StreakRow : Type 0 where
  pub learner_address : String
  pub current_streak : ℕ
  pub longest_streak : ℕ
  pub last_active_date : Option ℕ
  pub daily_goal : ℕ
  pub updated_at : ℕ

pub record ActivityRow : Type 0 where
  pub learner_address : String
  pub activity_date : ℕ
  pub milestones_done : ℕ

-- A call of `mintLearnTokenBonus`, and whether it returned: one that throws is logged and lost.
pub record Mint : Type 0 where
  pub learner_address : String
  pub amount : ℕ
  pub returned : Bool

pub record Db : Type 0 where
  pub streaks : List StreakRow
  pub activity : List ActivityRow
  pub mints : List Mint

abbrev pub lrn_atomic_unit : ℕ
lrn_atomic_unit = 10000000

-- `STREAK_BONUS_LRN[threshold]`, with 0 for `undefined`.
abbrev pub streak_bonus_lrn : ℕ → ℕ
streak_bonus_lrn t = if t == 7 then 5 else if t == 30 then 20 else if t == 100 then 100 else 0

abbrev pub streak_thresholds : List ℕ
streak_thresholds = 7 ∷ 30 ∷ 100 ∷ []

abbrev pub is_learner : String → StreakRow → Bool
is_learner a r = str_eq r.learner_address a

abbrev pub default_row : String → StreakRow
default_row a = record {
  learner_address = a;
  current_streak = 0;
  longest_streak = 0;
  last_active_date = none;
  daily_goal = 1;
  updated_at = 0;
}

-- `toDateOnly`: what reading back a stored day gives is the parameter `read` of all that follows, since
-- the database driver makes the value; it is the day itself where the driver hands a DATE over as its
-- text, YYYY-MM-DD.
abbrev pub to_date_only : (ℕ → ℕ) → Option ℕ → Option ℕ
to_date_only read none = none
to_date_only read (some d) = some (read d)

abbrev pub read_row : (ℕ → ℕ) → StreakRow → StreakRow
read_row read r = record r { last_active_date = to_date_only read r.last_active_date }

abbrev pub or_default : (ℕ → ℕ) → String → Option StreakRow → StreakRow
or_default read a none = default_row a
or_default read a (some r) = read_row read r

unfoldable pub get_streak_row : (ℕ → ℕ) → String → Db → StreakRow
get_streak_row read a db = or_default read a (find? (is_learner a) db.streaks)

-- `INSERT … ON CONFLICT (learner_address) DO UPDATE`: a row to insert, and the change to a row.
abbrev pub upsert : StreakRow → (StreakRow → StreakRow) → List StreakRow → List StreakRow
upsert new f [] = new ∷ []
upsert new f (r ∷ rows) =
    if is_learner new.learner_address r then f r ∷ rows else r ∷ upsert new f rows

-- The row that the statement returns.
abbrev pub upserted : StreakRow → (StreakRow → StreakRow) → Option StreakRow → StreakRow
upserted new f none = new
upserted new f (some r) = f r

-- `INSERT … ON CONFLICT (learner_address, activity_date) DO UPDATE SET milestones_done = … + 1`
abbrev pub count_activity : String → ℕ → List ActivityRow → List ActivityRow
count_activity a today [] =
    record { learner_address = a; activity_date = today; milestones_done = 1 } ∷ []
count_activity a today (r ∷ rows) =
    if str_eq r.learner_address a && r.activity_date == today
    then record r { milestones_done = r.milestones_done + 1 } ∷ rows
    else r ∷ count_activity a today rows

-- `existing.current_streak || 1` on a second activity of the day, one more after yesterday, else 1.
abbrev pub next_streak : ℕ → Option ℕ → ℕ → ℕ
next_streak today none current = 1
next_streak today (some last) current =
    if last == today
    then (if current == 0 then 1 else current)
    else if last + 1 == today
    then current + 1
    else 1

-- The loop over the thresholds.
abbrev pub crossed : ℕ → ℕ → List ℕ → Option ℕ
crossed previous longest [] = none
crossed previous longest (t ∷ ts) =
    if ltb previous t && leb t longest then some t else crossed previous longest ts

-- `mintStreakBonus`, with whether the call returns.
abbrev pub mint_streak_bonus : Bool → String → Option ℕ → List Mint → List Mint
mint_streak_bonus ok a none mints = mints
mint_streak_bonus ok a (some t) mints =
    if streak_bonus_lrn t == 0
    then mints
    else mints
      ++ record {
        learner_address = a;
        amount = streak_bonus_lrn t * lrn_atomic_unit;
        returned = ok;
      }
        ∷ []

-- The row that `recordMilestoneActivity` stores, from the row that it has read.
abbrev pub active_row : String → ℕ → ℕ → StreakRow → StreakRow
active_row a now today r =
    let current = next_streak today r.last_active_date r.current_streak in
    record r {
      learner_address = a;
      current_streak = current;
      longest_streak = max r.longest_streak current;
      last_active_date = some today;
      updated_at = now;
    }

abbrev pub bonus_threshold : ℕ → StreakRow → Option ℕ
bonus_threshold today r =
    crossed r.longest_streak
      (max r.longest_streak (next_streak today r.last_active_date r.current_streak))
      streak_thresholds

-- The returned row, the threshold crossed, and the tables after the call.
unfoldable pub record_milestone_activity :
    (ℕ → ℕ) → ℕ → ℕ → Bool → String → Db → (StreakRow × Option ℕ) × Db
unfolding get_streak_row
record_milestone_activity read now today ok a db =
    let existing = get_streak_row read a db in
    let row = active_row a now today existing in
    (
      (read_row read row, bonus_threshold today existing),
      record {
        streaks = upsert row (λ old. record row { daily_goal = old.daily_goal }) db.streaks;
        activity = count_activity a today db.activity;
        mints = mint_streak_bonus ok a (bonus_threshold today existing) db.mints;
      },
    )

abbrev pub goal_row : ℕ → ℕ → StreakRow → StreakRow
goal_row now goal r = record r { daily_goal = goal; updated_at = now }

-- The returned row, and the tables after the call.
unfoldable pub set_daily_goal : (ℕ → ℕ) → ℕ → ℕ → String → Db → StreakRow × Db
set_daily_goal read now goal a db =
    let new = goal_row now goal (default_row a) in
    (
      read_row read (upserted new (goal_row now goal) (find? (is_learner a) db.streaks)),
      record db { streaks = upsert new (goal_row now goal) db.streaks },
    )

abbrev pub is_day : String → ℕ → ActivityRow → Bool
is_day a day r = str_eq r.learner_address a && r.activity_date == day

-- A row that `doneByDate` has under a day.
abbrev pub is_read_day : (ℕ → ℕ) → String → ℕ → ActivityRow → Bool
is_read_day read a day r = str_eq r.learner_address a && read r.activity_date == day

abbrev pub done_on : Option ActivityRow → ℕ
done_on none = 0
done_on (some r) = r.milestones_done

-- `completed` of the days `today - (days - 1)` to `today`, oldest first.
abbrev pub recent : (ℕ → ℕ) → String → ℕ → ℕ → Db → List (ℕ × Bool)
recent read a today zero db = []
recent read a today (suc i) db =
    (today - i, ltb 0 (done_on (find? (is_read_day read a (today - i)) db.activity)))
    ∷ recent read a today i db

pub record StreakSummary : Type 0 where
  pub current_streak : ℕ
  pub longest_streak : ℕ
  pub daily_goal : ℕ
  pub todays_progress : ℕ
  pub goal_met : Bool
  pub last_7_days : List (ℕ × Bool)

unfoldable pub get_streak_summary : (ℕ → ℕ) → ℕ → String → Db → StreakSummary
unfolding get_streak_row
get_streak_summary read today a db =
    let row = get_streak_row read a db in
    let done = done_on (find? (is_day a today) db.activity) in
    record {
      current_streak = row.current_streak;
      longest_streak = row.longest_streak;
      daily_goal = row.daily_goal;
      todays_progress = done;
      goal_met = leb row.daily_goal done;
      last_7_days = recent read a today 7 db;
    }

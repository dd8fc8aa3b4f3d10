-- ===== src/Streak/Week.antt =====
-- The summary of a learner's streak against the days of activity (server/src/services/streak.service.ts).
use learnvault.Prelude.{
  ◌<◌, ◌≢◌, none, All, false, ℕ, zero, suc, ◌+◌, ◌-◌, ◌≡◌, refl, String, List, [], ◌∷◌, true, ◌&&◌,
  find?, ◌==◌, str_eq, str_eq→eq, Bool-cases, inl, inr, arith,
}
use learnvault.Streak.Store.{
  Db, ActivityRow, count_activity, is_day, is_read_day, done_on, recent, record_milestone_activity,
  set_daily_goal, get_streak_summary,
}
use learnvault.Streak.History.{Op, activity, goal, step, after, days_of}
use learnvault.Streak.Bonus.{one_if}

-- How often a day occurs.
abbrev pub times : ℕ → List ℕ → ℕ
times d [] = 0
times d (x ∷ ds) = one_if (x == d) + times d ds

-- The test of a learner and a day holds of equal ones only.
same_day : (a b : String) (m n : ℕ) → (str_eq a b && m == n) ≡ true → (a ≡ b) × (m ≡ n)
same_day a b m n h =
    let left : str_eq a b ≡ true = ground (arith, h) in (str_eq→eq a b left, ground (arith, h))

done-count_activity :
    (a b : String) (d today : ℕ) (rows : List ActivityRow)
    → done_on (find? (is_day a d) (count_activity b today rows))
      ≡ done_on (find? (is_day a d) rows) + one_if (str_eq b a && today == d)
done-count_activity a b d today [] = ground arith
done-count_activity a b d today (r ∷ rows) =
    elim (Bool-cases (str_eq r.learner_address b && r.activity_date == today)) [
      | inl e ↦
          let hit = same_day r.learner_address b r.activity_date today e in
          let same : is_day a d r ≡ (str_eq b a && today == d) = rw (hit.0, hit.1) refl in
          elim (Bool-cases (str_eq b a && today == d)) [
            | inl h ↦ rw (e, same, h) refl
            | inr h ↦ rw (e, same, h) (omega arith)
          ]
      | inr e ↦ elim (Bool-cases (is_day a d r)) [
        | inl h ↦ elim (Bool-cases (str_eq b a && today == d)) [
          | inl k ↦
              let hit : (str_eq r.learner_address b && r.activity_date == today) ≡ true =
                rw ((same_day b a today d k).0, (same_day b a today d k).1) h in
              ground (arith, e, hit)
          | inr k ↦ rw (e, h, k) (omega arith)
        ]
        | inr h ↦ rw (e, h) (done-count_activity a b d today rows)
      ]
    ]

pub done-times :
    (read : ℕ → ℕ) (a : String) (d : ℕ) (ops : List Op)
    → done_on (find? (is_day a d) (after read ops).activity) ≡ times d (days_of a ops)
unfolding after step days_of record_milestone_activity set_daily_goal
done-times read a d [] = refl
done-times read a d (activity now today ok b ∷ earlier) = elim (Bool-cases (str_eq b a)) [
  | inl e ↦
      rw (done-count_activity a b d today (after read earlier).activity, e)
        (omega (arith, done-times read a d earlier))
  | inr e ↦
      rw (done-count_activity a b d today (after read earlier).activity, e)
        (omega (arith, done-times read a d earlier))
]
done-times read a d (goal now n b ∷ earlier) = done-times read a d earlier

unread :
    (read : ℕ → ℕ) (a : String) (day : ℕ) (rows : List ActivityRow)
    → ((d : ℕ) → read d ≢ day)
    → find? (is_read_day read a day) rows ≡ none
unread read a day [] h = refl
unread read a day (r ∷ rows) h =
    let other = h r.activity_date in
    let miss : is_read_day read a day r ≡ false = ground arith in
    rw (miss, unread read a day rows h) refl

blank_days :
    (read : ℕ → ℕ) (a : String) (today n : ℕ) (db : Db)
    → ((d i : ℕ) → i < n → read d ≢ today - i)
    → All (λ day. day.1 ≡ false) (recent read a today n db)
blank_days read a today zero db h = tt
blank_days read a today (suc i) db h = (
  rw (unread read a (today - i) db.activity (λ d. h d i (omega arith))) refl,
  blank_days read a today i db (λ d j k. h d j (omega arith)),
)

-- If what a stored day reads back as is never one of the seven days up to the day called today:
-- after any history, the summary of a learner counts as today's progress the activities of that
-- day, but marks none of the seven days as active.
pub summary_blank :
    (read : ℕ → ℕ) (a : String) (today : ℕ) (ops : List Op)
    → ((d i : ℕ) → i < 7 → read d ≢ today - i)
    → let s = get_streak_summary read today a (after read ops) in
      (s.todays_progress ≡ times today (days_of a ops)) × All (λ day. day.1 ≡ false) s.last_7_days
unfolding get_streak_summary
summary_blank read a today ops h =
    (done-times read a today ops, blank_days read a today 7 (after read ops) h)

-- ===== src/Schedule/Clock.antt =====
-- The next time of a schedule, and what the state machine of a schedule promises.
use resume_platform.Shared.{ℕ, ◌+◌, ◌-◌, ◌*◌, ◌%◌, ◌≤◌, ◌<◌, ◌≡◌, some, arith}
use resume_platform.Schedule.{
  second, day_seconds, Repeat, once, daily, weekly, days, missed, next_schedule_time,
}

abbrev pub period : Repeat → ℕ
period repeat = days repeat * day_seconds * second

-- The next time lies in the future, and is a whole number of periods after the previous one.
pub next_schedule_time-future :
    (previous : ℕ) (repeat : Repeat) (now t : ℕ)
    → next_schedule_time previous repeat now ≡ some t
    → (now < t) × (previous < t) × ((t - previous) % period repeat ≡ 0)
unfolding next_schedule_time missed
next_schedule_time-future previous once now t h = ground arith
next_schedule_time-future previous daily now t h = ground arith
next_schedule_time-future previous weekly now t h = ground arith

-- For an anchor on a whole second that has come, the next time is the earliest of the future times
-- a whole number of periods after it: no trigger is lost, and missed ones are joined into one.
pub next_schedule_time-earliest :
    (previous : ℕ) (repeat : Repeat) (now t : ℕ)
    → next_schedule_time previous repeat now ≡ some t
    → previous ≤ now
    → previous % second ≡ 0
    → (k : ℕ) → now < previous + k * period repeat
    → t ≤ previous + k * period repeat
unfolding next_schedule_time missed
next_schedule_time-earliest previous once now t h le whole k later = ground arith
next_schedule_time-earliest previous daily now t h le whole k later = ground arith
next_schedule_time-earliest previous weekly now t h le whole k later = ground arith

-- Without the whole second a trigger can be lost: an anchor with a fraction of a second, and a
-- clock a whole number of days later with a smaller fraction, step over the next time.
pub next_schedule_time_skips :
    (s f g n : ℕ)
    → g < f
    → f < second
    → (next_schedule_time (s * second + f) daily ((s + (n + 1) * day_seconds) * second + g)
        ≡ some (s * second + f + (n + 2) * day_seconds * second))
      × ((s + (n + 1) * day_seconds) * second + g < s * second + f + (n + 1) * day_seconds * second)
unfolding next_schedule_time missed
next_schedule_time_skips s f g n h k = ground arith

-- ===== src/Schedule/Lifecycle.antt =====
-- The states of a schedule: what a trigger and a command may do to it.
use resume_platform.Shared.{
  ℕ, ◌+◌, ◌<◌, ◌≡◌, ◌≢◌, ap, sym, subst, Bool, true, false, ◌⊎◌, inl, inr, none, some, ok, arith,
  Option-cases,
}
use resume_platform.Schedule.{
  completed, cancelled, failed, Schedule, Caller, Command, cancel, pause, resume, switch_schedule,
  control_schedule, Situation, due, decide_trigger, trigger_schedule, write_trigger,
}
use resume_platform.Schedule.Clock.{next_schedule_time-future}

next-decide_trigger :
    (w : Situation) (now at : ℕ) (s : Schedule) (t : ℕ)
    → (decide_trigger w now at s).next ≡ some t
    → now < t
unfolding decide_trigger
next-decide_trigger w now at s t h = ground (arith, next_schedule_time-future at s.repeat now t)

not_due_of :
    (now : ℕ) (s : Schedule) → ((t : ℕ) → s.next_run_at ≡ some t → now < t) → due now s ≡ false
unfolding due
not_due_of now s f = elim (Option-cases s.next_run_at) [
  | inl e ↦ ground arith
  | inr (t, e) ↦ ground (arith, f t e)
]

not_due-write_trigger :
    (w : Situation) (now at : ℕ) (s : Schedule) → due now (write_trigger w now at s).0 ≡ false
unfolding write_trigger
not_due-write_trigger w now at s =
    not_due_of now (write_trigger w now at s).0 (next-decide_trigger w now at s)

not_due-trigger_schedule :
    (w : Situation) (now : ℕ) (s : Schedule) → due now s ≡ false → trigger_schedule w now s ≡ none
unfolding trigger_schedule
not_due-trigger_schedule w now s h = ground arith

trigger_schedule-inverse :
    (w : Situation) (now : ℕ) (s s' : Schedule) (created : Bool)
    → trigger_schedule w now s ≡ some (s', created)
    → (at : ℕ) × (s.next_run_at ≡ some at) × (write_trigger w now at s ≡ (s', created))
unfolding trigger_schedule
trigger_schedule-inverse w now s s' created h = ground (arith, Option-cases s.next_run_at)

-- A trigger that claims a row counts once and leaves a row that is not due at the same instant, so
-- that a second attempt at that instant claims nothing.
pub trigger_schedule-once :
    (w : Situation) (now : ℕ) (s s' : Schedule) (created : Bool)
    → trigger_schedule w now s ≡ some (s', created)
    → (due now s' ≡ false)
      × ((s'.trigger_count ≡ s.trigger_count + 1) × (trigger_schedule w now s' ≡ none))
unfolding trigger_schedule write_trigger
trigger_schedule-once w now s s' created h =
    let (at, e, p) = trigger_schedule-inverse w now s s' created h in
    let quiet : due now s' ≡ false =
      subst (λ r. due now r.0 ≡ false) p (not_due-write_trigger w now at s) in
    (quiet, (ap (λ r. r.0.trigger_count) (sym p), not_due-trigger_schedule w now s' quiet))

-- A command that succeeds comes from an administrator or the owner, and finds a schedule that is
-- neither completed nor failed; a cancelled schedule stays cancelled.
pub control_schedule-owner :
    (command : Command) (caller : Caller) (now : ℕ) (s s' : Schedule)
    → control_schedule command caller now s ≡ ok s'
    → ((caller.administrator ≡ true) ⊎ (s.created_by_id ≡ caller.id))
      × ((s.status ≢ completed)
          × ((s.status ≢ failed) × (s.status ≡ cancelled → s'.status ≡ cancelled)))
unfolding control_schedule switch_schedule
control_schedule-owner cancel caller now s s' h = ground arith
control_schedule-owner pause caller now s s' h = ground arith
control_schedule-owner resume caller now s s' h = ground (arith, Option-cases s.next_run_at)

-- ===== src/Schedule/Tests.antt =====
-- A daily schedule, triggered twice on one instant, and commands on it.
use resume_platform.Shared.{
  Option, ℕ, ◌+◌, ◌-◌, ◌*◌, ◌%◌, ◌≤◌, ◌<◌, ◌≡◌, ◌≢◌, refl, ◌⊎◌, true, false, none, some, ok, arith,
}
use resume_platform.Shared.{Result, List, [], ◌∷◌, Bool, false}
use resume_platform.Access.{Principal, has}
use resume_platform.Shared.Text.{trim_space, is_space}
use resume_platform.Run.{positive_ids, collect_ids}
use resume_platform.Schedule.Request.{Scope, Request, check_keys, validate_scope, validate_schedule}
use resume_platform.Schedule.{
  second, day_seconds, daily, next_schedule_time, missed, Schedule, active, paused, completed,
  cancelled, failed, Caller, pause, switch_schedule, control_schedule, Situation, due,
  decide_trigger, write_trigger, trigger_schedule, authorized, existing_count,
}
use resume_platform.Schedule.Clock.{
  period, next_schedule_time-future, next_schedule_time-earliest, next_schedule_time_skips,
}
use resume_platform.Schedule.Lifecycle.{trigger_schedule-once, control_schedule-owner}

abbrev noon : ℕ
noon = 43200 * second

-- Two days and a second later.
abbrev late : ℕ
late = (43200 + 2 * day_seconds + 1) * second

abbrev following : ℕ
following = (43200 + 3 * day_seconds) * second

noon-late : next_schedule_time noon daily late ≡ some following
unfolding next_schedule_time missed
noon-late = refl

next_schedule_time-future_example :
    (late < following) × (noon < following) × ((following - noon) % period daily ≡ 0)
next_schedule_time-future_example = next_schedule_time-future noon daily late following noon-late

next_schedule_time-earliest_example : following ≤ noon + 5 * period daily
next_schedule_time-earliest_example =
    next_schedule_time-earliest noon daily late following noon-late (omega arith) refl 5
      (omega arith)

next_schedule_time_skips_example :
    (next_schedule_time (43200 * second + 500) daily ((43200 + (0 + 1) * day_seconds) * second + 3)
      ≡ some (43200 * second + 500 + (0 + 2) * day_seconds * second))
    × ((43200 + (0 + 1) * day_seconds) * second + 3
        < 43200 * second + 500 + (0 + 1) * day_seconds * second)
next_schedule_time_skips_example =
    next_schedule_time_skips 43200 500 3 0 (omega arith) (omega arith)

abbrev noon_schedule : Schedule
noon_schedule = record {
  id = 1;
  repeat = daily;
  next_run_at = some noon;
  status = active;
  created_by_id = 9;
  last_run_id = none;
  last_triggered_at = none;
  last_message = "";
  trigger_count = 0;
}

abbrev creator : Principal
creator = record {
  is_superuser = false;
  permissions = λ code. true;
  roles = [];
  contact = none;
  department = none;
  grants = none;
  global_permissions = none;
  grant_permissions = λ level code. false;
}

abbrev runs : Situation
runs = record {
  creator = some creator;
  last_run_status = "success";
  selected = 7 ∷ 3 ∷ [];
  candidates = 3 ∷ 5 ∷ 7 ∷ [];
  new_run_id = 70;
  new_run_text = "70";
}

abbrev triggered : Schedule
triggered = record noon_schedule {
  next_run_at = some following;
  last_run_id = some 70;
  last_triggered_at = some late;
  last_message = "已提交处理任务 #70";
  trigger_count = 1;
}

noon_schedule-triggered : trigger_schedule runs late noon_schedule ≡ some (triggered, true)
unfolding trigger_schedule due write_trigger decide_trigger next_schedule_time missed authorized
    existing_count has
noon_schedule-triggered = refl

trigger_schedule-once_example :
    (due late triggered ≡ false)
    × ((triggered.trigger_count ≡ noon_schedule.trigger_count + 1)
        × (trigger_schedule runs late triggered ≡ none))
trigger_schedule-once_example =
    trigger_schedule-once runs late noon_schedule triggered true noon_schedule-triggered

abbrev two_rows : List Schedule
two_rows = record noon_schedule { id = 4 } ∷ noon_schedule ∷ []

abbrev unlocked : ℕ → Bool
unlocked id = false

abbrev owner : Caller
owner = record { id = 9; administrator = false; views_resumes = true }

noon_schedule-paused :
    control_schedule pause owner late noon_schedule ≡ ok (record noon_schedule { status = paused })
unfolding control_schedule switch_schedule
noon_schedule-paused = refl

control_schedule-owner_example :
    ((owner.administrator ≡ true) ⊎ (noon_schedule.created_by_id ≡ owner.id))
    × ((noon_schedule.status ≢ completed)
        × ((noon_schedule.status ≢ failed)
            × (noon_schedule.status ≡ cancelled → paused ≡ cancelled)))
control_schedule-owner_example =
    control_schedule-owner pause owner late noon_schedule (record noon_schedule { status = paused })
      noon_schedule-paused

abbrev two_candidates : Scope (Unit {0})
two_candidates = record {
  fields = "candidate_ids" ∷ [];
  candidate_ids = some (some 7 ∷ some 3 ∷ []);
  system_statuses = none;
  candidate_filters = none;
  force_reprocess = some true;
}

abbrev nightly : Request (Unit {0})
nightly = record {
  fields = "name" ∷ "scope" ∷ [];
  name = some "n";
  run_at = some late;
  repeat = "daily";
  scope = some two_candidates;
}

abbrev this_year : ℕ → ℕ
this_year t = 2026

abbrev any_filters : Unit {0} → Result (Unit {0})
any_filters f = ok tt

two_candidates-selected :
    validate_scope this_year any_filters two_candidates ≡ ok (some (7 ∷ 3 ∷ []))
unfolding validate_scope check_keys positive_ids collect_ids
two_candidates-selected = refl

nightly-accepted :
    validate_schedule this_year any_filters nightly noon
    ≡ ok (record { run_at = late; ids = some (7 ∷ 3 ∷ []) })
unfolding validate_schedule validate_scope check_keys positive_ids collect_ids trim_space is_space
nightly-accepted = refl

abbrev selected_ids : Option (List ℕ)
selected_ids = some (7 ∷ 3 ∷ [])

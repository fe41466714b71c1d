-- ===== src/Schedule.antt =====
-- internal/platform/schedules.go: the schedules that trigger processing runs. An instant is a
-- number of nanoseconds since the epoch, which is how `time.Time` compares; `Unix()` drops the
-- fraction of a second. Beijing has a fixed offset, so calendar days are days of 86400 seconds.
pub mod Tests
pub mod Request
pub mod Clock
pub mod Lifecycle
use Prim.Native.String.{◌++◌ as text_append}
use resume_platform.Shared.{
  length, any, keep, List, [], ◌∷◌, ℕ, ◌+◌, ◌-◌, ◌*◌, ◌/◌, ◌^◌, String, Bool, true, false, not,
  ◌&&◌, ◌||◌, Option, none, some, Result, ok, err, api_error, bad, refuse_if, ◌>>=◌, ◌>>◌, leb, ltb,
  ◌==◌, if◌then◌else◌,
}
use resume_platform.Access.{Principal, has}
use resume_platform.Run.{active_run}

abbrev pub second : ℕ
second = 1000000000

abbrev pub day_seconds : ℕ
day_seconds = 86400

-- `t.Unix()`
abbrev unix : ℕ → ℕ
unix t = t / second

pub data Repeat : Type 0 where
  once daily weekly : Repeat

abbrev pub days : Repeat → ℕ
days weekly = 7
days _ = 1

-- `intervals`: the division of Go truncates towards zero, and a negative quotient is set to 0, so
-- the truncated subtraction is exact.
pub missed : ℕ → Repeat → ℕ → ℕ
missed previous repeat now = (unix now - unix previous) / (days repeat * day_seconds)

-- `nextScheduleTime`
pub next_schedule_time : ℕ → Repeat → ℕ → Option ℕ
next_schedule_time previous once now = none
next_schedule_time previous repeat now =
    some (previous + (missed previous repeat now + 1) * days repeat * day_seconds * second)

pub data Status : Type 0 where
  active paused completed cancelled failed : Status

-- A row of `platform_processing_schedules`; `run_exists` stands for `last_run_id`.
pub record Schedule : Type 0 where
  pub id : ℕ
  pub repeat : Repeat
  pub next_run_at : Option ℕ
  pub status : Status
  pub created_by_id : ℕ
  pub last_run_id : Option ℕ
  pub last_triggered_at : Option ℕ
  pub last_message : String
  pub trigger_count : ℕ

-- The caller, as far as `schedulesAPI` asks.
pub record Caller : Type 0 where
  pub id : ℕ
  pub administrator : Bool
  pub views_resumes : Bool

pub data Command : Type 0 where
  cancel pause resume : Command

abbrev pub is_active : Status → Bool
is_active active = true
is_active _ = false

abbrev is_paused : Status → Bool
is_paused paused = true
is_paused _ = false

abbrev is_cancelled : Status → Bool
is_cancelled cancelled = true
is_cancelled _ = false

-- The time at which a resumed schedule runs next: a time that has passed is replaced. `now` is the
-- instant of the request.
abbrev resumed_time : Repeat → ℕ → ℕ → ℕ
resumed_time repeat next now =
    if ltb now next
    then next
    else elim (next_schedule_time next repeat now) [ none ↦ now | some t ↦ t ]

-- The `switch` of `schedulesAPI`. A paused schedule without a next time cannot be parsed.
pub switch_schedule : Command → Caller → ℕ → Schedule → Result Schedule
switch_schedule cancel caller now s = do
  refuse_if (not (is_active s.status || (is_paused s.status || is_cancelled s.status)))
      (api_error 409 "定时计划已结束")
  ok (record s { status = cancelled; next_run_at = none })
switch_schedule pause caller now s = do
  refuse_if (not (is_active s.status || is_paused s.status)) (api_error 409 "只能暂停启用中的计划")
  ok (record s { status = paused })
switch_schedule resume caller now s = do
  refuse_if (not (is_paused s.status)) (api_error 409 "只能恢复已暂停的计划")
  refuse_if (not caller.views_resumes) (api_error 403 "无简历库查看权限")
  elim s.next_run_at [
    | none ↦ err (api_error 500 "操作失败，请稍后重试")
    | some next ↦
        ok (record s { status = active; next_run_at = some (resumed_time s.repeat next now) })
  ]

-- The part of `schedulesAPI` after the row is locked.
pub control_schedule : Command → Caller → ℕ → Schedule → Result Schedule
control_schedule command caller now s = do
  refuse_if (not caller.administrator && not (s.created_by_id == caller.id))
      (api_error 403 "只能取消自己创建的定时任务")
  switch_schedule command caller now s

-- What `triggerSchedule` finds: the creator with the rights of now, unless the account is disabled,
-- the status of the last run, the answer of `resolveRunCandidates`, the identifiers of the candidates
-- that exist, and the identifier that a new run gets, also as a text.
pub record Situation : Type 0 where
  pub creator : Option Principal
  pub last_run_status : String
  pub selected : List ℕ
  pub candidates : List ℕ
  pub new_run_id : ℕ
  pub new_run_text : String

-- `p == nil || !p.has("pipeline.run") || !p.has("resume.view")`, negated
unfoldable pub authorized : Situation → Bool
authorized w = elim w.creator [
  | none ↦ false
  | some p ↦ has p "pipeline.run" && has p "resume.view"
]

unfoldable pub last_run_active : Situation → Bool
last_run_active w = active_run w.last_run_status

-- `SELECT count(*) FROM core_candidate WHERE id=ANY($1)`
unfoldable pub existing_count : Situation → ℕ
existing_count w = length (keep (λ c. any (λ id. id == c) w.selected) w.candidates)

abbrev pub given : Option ℕ → Bool
given none = false
given (some _) = true

-- What the trigger writes besides the times: status, next time, last run, message; and whether a
-- run was created.
pub record Trigger : Type 0 where
  pub status : Status
  pub next : Option ℕ
  pub run_id : Option ℕ
  pub message : String
  pub created : Bool

-- A row is due: `status='active' AND next_run_at<=$1`.
pub due : ℕ → Schedule → Bool
due now s = is_active s.status && (elim s.next_run_at [ none ↦ false | some t ↦ leb t now ])

pub decide_trigger : Situation → ℕ → ℕ → Schedule → Trigger
decide_trigger w now at s =
    let next = next_schedule_time at s.repeat now in
    let status : Status = elim next [ none ↦ completed | some _ ↦ active ] in
    if not (authorized w)
    then record {
      status = failed;
      next = none;
      run_id = s.last_run_id;
      message = "创建人已停用或失去简历处理权限，请重新创建任务";
      created = false;
    }
    else if given s.last_run_id && last_run_active w
    then record {
      status = status;
      next = next;
      run_id = s.last_run_id;
      message = "上一轮仍在处理，本轮已跳过";
      created = false;
    }
    else if length w.selected == 0
    then record {
      status = status;
      next = next;
      run_id = s.last_run_id;
      message = "本轮没有符合范围的候选人，已跳过";
      created = false;
    }
    else if not (existing_count w == length w.selected)
    then record {
      status = failed;
      next = none;
      run_id = s.last_run_id;
      message = "固定范围中的候选人已被删除，请重新创建任务";
      created = false;
    }
    else record {
      status = status;
      next = next;
      run_id = some w.new_run_id;
      message = text_append "已提交处理任务 #" w.new_run_text;
      created = true;
    }

-- What the trigger writes for the time `at` that has come, and whether a run was created.
pub write_trigger : Situation → ℕ → ℕ → Schedule → Schedule × Bool
write_trigger w now at s =
    let t = decide_trigger w now at s in
    (
      record s {
        status = t.status;
        next_run_at = t.next;
        last_run_id = t.run_id;
        last_triggered_at = some now;
        last_message = t.message;
        trigger_count = s.trigger_count + 1;
      },
      t.created,
    )

-- `triggerSchedule` on the row that it claims, or nothing where the row is not due.
pub trigger_schedule : Situation → ℕ → Schedule → Option (Schedule × Bool)
trigger_schedule w now s =
    if due now s
    then (elim s.next_run_at [ none ↦ none | some at ↦ some (write_trigger w now at s) ])
    else none

-- `ORDER BY next_run_at,id`; a row that is due has a time.
abbrev time_of : Option ℕ → ℕ
time_of none = 0
time_of (some t) = t

abbrev pub comes_before : Schedule → Schedule → Bool
comes_before a b =
    ltb (time_of a.next_run_at) (time_of b.next_run_at)
    || (time_of a.next_run_at == time_of b.next_run_at && ltb a.id b.id)

-- The row that `triggerSchedule` claims; `locked` are the rows that others hold.
abbrev pub claims : (ℕ → Bool) → ℕ → Schedule → Bool
claims locked now s = due now s && not (locked s.id)

unfoldable pub first_due : (ℕ → Bool) → ℕ → List Schedule → Option Schedule
first_due locked now [] = none
first_due locked now (s ∷ rows) =
    let rest = first_due locked now rows in
    if claims locked now s
    then (elim rest [ none ↦ some s | some r ↦ if comes_before r s then some r else some s ])
    else rest

abbrev put_schedule : Schedule → List Schedule → List Schedule
put_schedule s [] = []
put_schedule s (r ∷ rows) = (if r.id == s.id then s else r) ∷ put_schedule s rows

-- The rows after `triggerSchedule`, and whether it claimed one.
unfoldable pub trigger_due : (ℕ → Bool) → Situation → ℕ → List Schedule → List Schedule × Bool
trigger_due locked w now rows = elim (first_due locked now rows) [
  | none ↦ (rows, false)
  | some s ↦ (elim (trigger_schedule w now s) [
    | none ↦ (rows, false)
    | some written ↦ (put_schedule written.0 rows, true)
  ])
]

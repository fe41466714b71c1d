-- ===== src/Candidate/Workflow.antt =====
-- internal/platform/workflows.go: the workflow of a candidate and its department attempts.
pub mod Action
pub mod Accounting
use resume_platform.Shared.{
  ℕ, zero, suc, ◌+◌, String, Bool, true, false, not, ◌&&◌, ◌||◌, Option, none, some, List, [], ◌∷◌,
  any, keep, leb, api_error, bad, ◌==◌, if◌then◌else◌,
}
use resume_platform.Candidate.Case.{
  Case, Status, Resume, Workflow, WorkflowStatus, Department, Attempt, AttemptStatus, Source,
  Target, HandlingEvent, open_attempt, effective_attempt, find_row, update_row,
}
use resume_platform.Candidate.Transaction.{Tx, pure, fail, gets, modify, refuse_when, ◌>>=◌, ◌>>◌}
use resume_platform.Candidate.Application.{
  application_state, require_open_application, close_pool_memberships,
}

abbrev pub attempt_key : Attempt → ℕ
attempt_key a = a.id

abbrev resume_key : Resume → ℕ
resume_key r = r.id

abbrev pub department_key : Department → ℕ
department_key d = d.id

-- `a.get(…)`: the row, or 404.
pub require : {A : Type 0} → Option A → Tx Case A
require none = fail (api_error 404 "未找到记录")
require (some a) = pure a

-- `touchWorkflow`
pub touch_workflow : Resume → Tx Case (Unit {0})
touch_workflow resume = do
  close_pool_memberships (some resume.id) "volunteer_changed"
  modify λ c. record c {
    workflow = record c.workflow {
      status = WorkflowStatus.in_progress;
      current_resume_id = some resume.id;
      current_rank = resume.volunteer_rank;
      dispatch_strategy = "ai";
      archive_reason = "";
      archive_detail = "";
      block_reason = "";
      block_detail = "";
      completed_at = none;
      started_at = elim c.workflow.started_at [ none ↦ some c.now | some t ↦ some t ];
    };
  }

-- `archiveWorkflow`
pub archive_workflow : String → String → Tx Case (Unit {0})
archive_workflow reason detail = do
  close_pool_memberships none reason
  modify λ c. record c {
    workflow = record c.workflow {
      status = WorkflowStatus.archived;
      archive_reason = reason;
      archive_detail = detail;
      block_reason = "";
      block_detail = "";
      completed_at = some c.now;
    };
  }

-- `invalidateWorkflow`
pub invalidate_workflow : Tx Case (Unit {0})
invalidate_workflow = modify λ c. record c {
  workflow = record c.workflow {
    active_processing_scope_item_id = none;
    active_processing_token = none;
    active_processing_expires_at = none;
    revision = c.workflow.revision + 1;
  };
}

-- `event`: the columns that identify what happened.
pub add_event : ℕ → String → Option ℕ → Option ℕ → String → Tx Case (Unit {0})
add_event attempt_id event_type from_department to_department note = modify λ c. record c {
  handling_events =
      record {
        attempt_id = attempt_id;
        event_type = event_type;
        from_department_id = from_department;
        to_department_id = to_department;
        note = note;
      }
      ∷ c.handling_events;
}

-- `a.save(ctx, db, "core_assignmentattempt", id, values)`
pub save_attempt : ℕ → (Attempt → Attempt) → Tx Case (Unit {0})
save_attempt id f = modify λ c. record c { attempts = update_row attempt_key id f c.attempts }

abbrev cancel_row : String → ℕ → Attempt → Attempt
cancel_row reason now a = record a {
  status = AttemptStatus.cancelled;
  cancel_reason = reason;
  cancelled_at = some now;
}

-- The loop of `cancelOpenAttempts`.
pub cancel_each : String → List Attempt → Tx Case (Unit {0})
cancel_each reason [] = pure tt
cancel_each reason (at ∷ rest) = do
  now ← gets (λ c. c.now)
  save_attempt at.id (cancel_row reason now)
  application_state at.resume_id Status.cancelled reason
  add_event at.id "cancelled" (some at.current_department_id) none reason
  cancel_each reason rest

abbrev source_number : Source → ℕ
source_number Source.rule = 0
source_number Source.ai = 1
source_number Source.manual = 2

-- `len(sources) > 0 && !contains(sources, …)` skips an attempt.
abbrev selected : List Source → Attempt → Bool
selected [] at = open_attempt at.status
selected (s ∷ sources) at =
    open_attempt at.status && any (λ t. source_number t == source_number at.source) (s ∷ sources)

-- `cancelOpenAttempts`
pub cancel_open_attempts : String → List Source → Tx Case (Unit {0})
cancel_open_attempts reason sources = do
  attempts ← gets (λ c. keep (selected sources) c.attempts)
  cancel_each reason attempts

-- `isJobDepartment`
abbrev pub is_job_department : ℕ → Bool
is_job_department level = level == 1 || level == 2

-- `receivingDepartment`
pub receiving_department : Department → Tx Case Department
receiving_department target =
    if is_job_department target.level then pure target else fail (bad "目标部门必须是有效一级或二级部门")

-- `COALESCE(max(attempt_no),0)+1`
abbrev next_attempt_no : List Attempt → ℕ
next_attempt_no [] = 1
next_attempt_no (a ∷ rest) =
    let n = next_attempt_no rest in if leb n a.attempt_no then a.attempt_no + 1 else n

-- What the callers of `createAttempt` pass in `values`.
pub record AttemptValues : Type 0 where
  pub source : Source
  pub match_mode : String
  pub match_reason : String
  pub manual_reason : String

abbrev new_attempt : AttemptValues → Resume → Department → Department → Case → Attempt
new_attempt values resume receiver target c = record {
  id = c.next_attempt_id;
  resume_id = resume.id;
  attempt_no = next_attempt_no c.attempts;
  source = values.source;
  match_mode = values.match_mode;
  match_reason = values.match_reason;
  manual_reason = values.manual_reason;
  status = AttemptStatus.pending_dispatch;
  initial_department_id = receiver.id;
  current_department_id = target.id;
  assigned_screener_id = none;
  screener_assigned_at = none;
  dispatched_at = none;
  feedback_result = "";
  feedback_reason_code = "";
  feedback_note = "";
  feedback_at = none;
  cancel_reason = "";
  cancelled_at = none;
}

-- The insertion: the unique index admits one effective attempt of a workflow.
pub insert_attempt : Attempt → Tx Case (Unit {0})
insert_attempt at = do
  taken ← gets (λ c. any (λ (a : Attempt). effective_attempt a.status) c.attempts)
  refuse_when taken (api_error 400 "数据重复，请检查唯一字段")
  modify λ c. record c { attempts = at ∷ c.attempts; next_attempt_id = c.next_attempt_id + 1 }

-- A manual assignment records its department as the target.
pub insert_target : Attempt → Department → Tx Case (Unit {0})
insert_target at target = modify λ c. record c {
  targets =
      if source_number at.source == source_number Source.manual
      then record { attempt_id = at.id; department_id = target.id; department_name = target.name }
        ∷ c.targets
      else c.targets;
}

pub set_strategy : String → Tx Case (Unit {0})
set_strategy mode =
    modify λ c. record c { workflow = record c.workflow { dispatch_strategy = mode } }

-- `createAttempt`
pub create_attempt : AttemptValues → Resume → Department → Tx Case Attempt
create_attempt values resume target = do
  require_open_application resume.id
  receiver ← receiving_department target
  at ← gets (new_attempt values resume receiver target)
  insert_attempt at
  insert_target at target
  add_event at.id "attempt_created" none none values.match_reason
  touch_workflow resume
  set_strategy at.match_mode
  application_state resume.id Status.pending_dispatch at.match_reason
  pure at

abbrev is_passed : WorkflowStatus → Bool
is_passed WorkflowStatus.passed = true
is_passed _ = false

-- `manualAssign`
pub manual_assign : ℕ → ℕ → String → Tx Case Attempt
manual_assign resume_id target_id reason = do
  found ← gets (λ c. find_row resume_key resume_id c.resumes)
  resume ← require found
  done ← gets (λ c. is_passed c.workflow.status)
  refuse_when done (api_error 409 "已通过候选人不可再强制分配")
  department ← gets (λ c. find_row department_key target_id c.departments)
  target ← require department
  receiving_department target
  invalidate_workflow
  cancel_open_attempts "manual_replaced" []
  close_pool_memberships none "manual_replaced"
  create_attempt
      (record {
        source = Source.manual;
        match_mode = "manual";
        match_reason = "HR 手动强制分配";
        manual_reason = reason;
      })
      resume target

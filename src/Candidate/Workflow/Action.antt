-- ===== src/Candidate/Workflow/Action.antt =====
-- `mutateAttempt` of internal/platform/workflows.go: what a user does to one attempt.
pub mod Accounting
use Prim.Native.String.{◌++◌ as str_append}
use resume_platform.Shared.{
  ℕ, zero, suc, String, Bool, true, false, not, ◌&&◌, ◌||◌, Option, none, some, List, [], ◌∷◌, any,
  ltb, str_eq, trim_space, Failure, api_error, bad, ◌==◌, if◌then◌else◌,
}
use resume_platform.Candidate.Case.{
  Case, Status, Workflow, WorkflowStatus, Department, Attempt, AttemptStatus, Source, open_attempt,
  find_row,
}
use resume_platform.Candidate.Transaction.{Tx, pure, fail, gets, modify, refuse_when, ◌>>=◌, ◌>>◌}
use resume_platform.Candidate.Application.{application_state, wait_after_department_rejection}
use resume_platform.Candidate.Workflow.{
  attempt_key, department_key, require, invalidate_workflow, archive_workflow, add_event,
  save_attempt, cancel_open_attempts, receiving_department, manual_assign, source_number,
}

-- A contact as a screener: the columns that the transfer reads.
pub record Screener : Type 0 where
  pub id : ℕ
  pub employee_no : String
  pub name : String

-- What the authorization of the user answers about an attempt; the choices of the column
-- `feedback_reason_code` with their labels come from the schema.
pub record Rights : Type 0 where
  pub visible : Attempt → Bool
  pub can_manage : Attempt → Bool
  pub can_transfer : Attempt → Option Department → Bool
  pub eligible_screener : Attempt → ℕ → Option Screener
  pub can_feedback : Attempt → Bool
  pub reason_label : String → Option String

-- The actions, with the fields of the request that each reads.
pub data Action : Type 0 where
  dispatch_welink : String → Action
  transfer : Option ℕ → Option ℕ → String → Action
  review : Action
  cancel_attempt : String → Action
  feedback : String → String → String → Action
  other : Action

-- The `values` to save, the event, and its departments and note.
pub record Change : Type 0 where
  pub values : Attempt → Attempt
  pub event_type : String
  pub from_department : Option ℕ
  pub to_department : Option ℕ
  pub note : String

abbrev is_status : AttemptStatus → AttemptStatus → Bool
is_status AttemptStatus.pending_review AttemptStatus.pending_review = true
is_status AttemptStatus.pending_dispatch AttemptStatus.pending_dispatch = true
is_status AttemptStatus.dispatched AttemptStatus.dispatched = true
is_status AttemptStatus.passed AttemptStatus.passed = true
is_status AttemptStatus.rejected AttemptStatus.rejected = true
is_status AttemptStatus.cancelled AttemptStatus.cancelled = true
is_status _ _ = false

-- `num(v)`: a missing identifier is 0.
abbrev num : Option ℕ → ℕ
num none = 0
num (some n) = n

abbrev pub given : {A : Type 0} → Option A → Bool
given none = false
given (some _) = true

abbrev label_of : Option String → String
label_of none = ""
label_of (some l) = l

-- The branch of `transfer` that names a screener.
pub assign_screener : Attempt → Option Screener → String → Tx Case Change
assign_screener at none note = fail (bad "请选择当前接收部门内已启用并有反馈权限的简历筛选人")
assign_screener at (some s) note = do
  now ← gets (λ c. c.now)
  refuse_when (num at.assigned_screener_id == s.id) (bad "该简历已转派给此筛选人")
  pure (record {
    values = λ a. record a { assigned_screener_id = some s.id; screener_assigned_at = some now };
    event_type = "screener_assigned";
    from_department = none;
    to_department = none;
    note = note;
  })

-- The branch of `transfer` that names a department.
pub transfer_department : Rights → Attempt → ℕ → String → Tx Case Change
transfer_department rights at target_id note = do
  found ← gets (λ c. find_row department_key target_id c.departments)
  refuse_when (not (given found)) (bad "目标部门不存在")
  target ← require found
  receiving_department target
  refuse_when (not (rights.can_transfer at (some target))) (api_error 403 "当前部门授权不允许转派到该目标部门")
  refuse_when (target.id == at.current_department_id) (bad "目标部门与当前接收部门相同")
  pure (record {
    values = λ a. record a {
      assigned_screener_id = none;
      screener_assigned_at = none;
      current_department_id = target.id;
    };
    event_type = "department_transferred";
    from_department = some at.current_department_id;
    to_department = some target.id;
    note = note;
  })

abbrev feedback_status : String → AttemptStatus
feedback_status result =
    if str_eq result "passed" then AttemptStatus.passed else AttemptStatus.rejected

-- The branch of `feedback`, after the state and the authorization.
pub give_feedback : Rights → Attempt → String → String → String → Tx Case Change
give_feedback rights at result reason note = do
  now ← gets (λ c. c.now)
  refuse_when (not (str_eq result "passed" || str_eq result "rejected"))
      (bad "反馈结果必须是 passed 或 rejected")
  refuse_when (str_eq result "passed" && not (str_eq reason "")) (bad "通过反馈不能填写不通过原因")
  refuse_when
      (str_eq result "rejected"
        && (str_eq (label_of (rights.reason_label reason)) ""
            || (str_eq reason "other" && str_eq (trim_space note) "")))
      (bad "不通过时必须选择有效原因；选择其他时必须填写备注")
  pure (record {
    values = λ a. record a {
      status = feedback_status result;
      feedback_result = result;
      feedback_note = note;
      feedback_reason_code = reason;
      feedback_at = some now;
    };
    event_type = str_append "feedback_" result;
    from_department = some at.current_department_id;
    to_department = none;
    note = note;
  })

-- The `switch`.
pub decide_action : Rights → Attempt → Action → Tx Case Change
decide_action rights at (dispatch_welink note) = do
  now ← gets (λ c. c.now)
  refuse_when (not (rights.can_manage at)) (api_error 403 "无当前部门下发权限")
  refuse_when (not (is_status at.status AttemptStatus.pending_dispatch))
      (api_error 409 "仅待下发尝试可以下发")
  pure (record {
    values = λ a. record a { status = AttemptStatus.dispatched; dispatched_at = some now };
    event_type = "department_dispatched";
    from_department = none;
    to_department = some at.current_department_id;
    note = note;
  })
decide_action rights at (transfer target_screener target_department note) = do
  refuse_when (not (rights.can_transfer at none)) (api_error 403 "当前接口人没有部门转派权限")
  refuse_when (not (is_status at.status AttemptStatus.dispatched)) (api_error 409 "仅已下发且未反馈的尝试可以转派")
  refuse_when (given target_screener && given target_department) (bad "一次只能选择部门或简历筛选人")
  if given target_screener
      then assign_screener at (rights.eligible_screener at (num target_screener)) note
      else transfer_department rights at (num target_department) note
decide_action rights at review = fail (api_error 410 "待复核阶段已取消，请按当前入池状态继续处理")
decide_action rights at (cancel_attempt reason) = do
  now ← gets (λ c. c.now)
  refuse_when (not (rights.can_manage at)) (api_error 403 "无当前部门下发权限")
  refuse_when (not (is_status at.status AttemptStatus.pending_dispatch))
      (api_error 409 "当前尝试状态不可取消")
  let why = if str_eq reason "" then "hr_cancelled" else reason
  pure (record {
    values = λ a. record a {
      status = AttemptStatus.cancelled;
      cancelled_at = some now;
      cancel_reason = why;
    };
    event_type = "cancelled";
    from_department = some at.current_department_id;
    to_department = none;
    note = why;
  })
decide_action rights at (feedback result reason note) = do
  refuse_when (not (is_status at.status AttemptStatus.dispatched) || given at.feedback_at)
      (api_error 409 "仅已下发且未反馈的尝试可以反馈")
  refuse_when (not (rights.can_feedback at)) (api_error 403 "只有当前接收部门的启用接口人可以提交反馈")
  give_feedback rights at result reason note
decide_action rights at other = fail (bad "不支持的流程操作")

pub pass_workflow : ℕ → Tx Case (Unit {0})
pass_workflow attempt_id = modify λ c. record c {
  workflow = record c.workflow {
    status = WorkflowStatus.passed;
    passed_attempt_id = some attempt_id;
    block_reason = "";
    block_detail = "";
    completed_at = some c.now;
  };
}

-- After a feedback: the application is closed, and the workflow passes or waits.
pub settle_feedback : Rights → Attempt → Tx Case (Unit {0})
settle_feedback rights at = do
  let summary = trim_space (
      str_append (label_of (rights.reason_label at.feedback_reason_code))
        (str_append " " at.feedback_note))
  let through = is_status at.status AttemptStatus.passed
  application_state at.resume_id (if through then Status.passed else Status.department_rejected)
      summary
  if through
      then (do pass_workflow at.id; cancel_open_attempts "workflow_passed" [])
      else wait_after_department_rejection

-- The application of an attempt that stays open, or that was cancelled.
pub settle_state : Attempt → String → Tx Case (Unit {0})
settle_state at note =
    if is_status at.status AttemptStatus.dispatched
    then application_state at.resume_id Status.department_review note
    else if is_status at.status AttemptStatus.pending_dispatch
    then application_state at.resume_id Status.pending_dispatch note
    else if is_status at.status AttemptStatus.cancelled
    then application_state at.resume_id Status.cancelled note
    else pure tt

-- After a cancellation with no open attempt left, the workflow is archived.
pub settle_cancellation : Attempt → Tx Case (Unit {0})
settle_cancellation at = do
  still ← gets (λ c. any (λ (a : Attempt). open_attempt a.status) c.attempts)
  if still
      then pure tt
      else archive_workflow
          (if source_number at.source == source_number Source.ai
            then "agent_no_recommendation"
            else "hr_cancelled")
          "HR 已取消当前建议，可重试 Agent 或手动分配"

abbrev is_feedback : Action → Bool
is_feedback (feedback _ _ _) = true
is_feedback _ = false

abbrev is_cancellation : Action → Bool
is_cancellation (cancel_attempt _) = true
is_cancellation _ = false

-- What follows the `switch`.
pub settle : Rights → Action → Attempt → String → Tx Case (Unit {0})
settle rights action at note = do
  if is_feedback action then settle_feedback rights at else settle_state at note
  if is_cancellation action then settle_cancellation at else pure tt

-- `mutateAttempt`, but for `transfer_to_manual`: `initial` is the row as it was read before the
-- lock was taken.
pub mutate_attempt : Rights → Attempt → Action → Tx Case Attempt
mutate_attempt rights initial action = do
  refuse_when (not (rights.visible initial)) (api_error 404 "未找到记录")
  found ← gets (λ c. find_row attempt_key initial.id c.attempts)
  at ← require found
  refuse_when (not (at.current_department_id == initial.current_department_id))
      (api_error 409 "当前接收部门已变更，请刷新后重试")
  refuse_when (not (num at.assigned_screener_id == num initial.assigned_screener_id))
      (api_error 409 "当前简历筛选人已变更，请刷新后重试")
  refuse_when (not (rights.visible at)) (api_error 404 "未找到记录")
  change ← decide_action rights at action
  invalidate_workflow
  save_attempt at.id change.values
  add_event at.id change.event_type change.from_department change.to_department change.note
  settle rights action (change.values at) change.note
  pure (change.values at)

-- The action `transfer_to_manual`, which returns before the lock.
pub transfer_to_manual : Rights → Attempt → ℕ → String → Tx Case Attempt
transfer_to_manual rights initial target_department_id manual_reason = do
  refuse_when (not (rights.visible initial)) (api_error 404 "未找到记录")
  manual_assign initial.resume_id target_department_id manual_reason

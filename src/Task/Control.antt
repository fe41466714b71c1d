-- ===== src/Task/Control.antt =====
-- What users do to the tasks of a scope: the commands `cancel` and `retry` of a task, and the pause
-- of the scope, in internal/platform/allocation_api.go.
use resume_platform.Shared.{
  ℕ, ◌+◌, String, Bool, false, not, ◌&&◌, ◌||◌, Option, none, some, List, api_error, bad, ltb, ◌==◌,
  str_eq, if_none,
}
use resume_platform.Shared.Text.{is_blank}
use resume_platform.Candidate.Transaction.{Tx, fail, gets, modify, refuse_when, ◌>>=◌, ◌>>◌}
use resume_platform.Task.{
  TaskStatus, WorkStatus, PlanStatus, Task, WorkItem, Plan, Desk, task_is, plan_is, set_tasks,
  set_task, set_items, set_plans,
}
use resume_platform.Task.Queue.{active_work, owned_by, release_lease, create_task}

pub record Caller : Type 0 where
  pub id : ℕ
  pub administrator : Bool

abbrev created_by : Caller → Option ℕ → Bool
created_by caller none = caller.id == 0
created_by caller (some k) = k == caller.id

abbrev pub cancelled_task : Task → Task
cancelled_task t = record t { status = TaskStatus.cancelled }

-- The command `cancel`, on the task that was read.
abbrev pub cancel_found : Caller → ℕ → Option Task → Tx Desk (Unit {0})
cancel_found caller k none = fail (api_error 404 "未找到")
cancel_found caller k (some t) = do
  refuse_when (task_is t.status TaskStatus.completed) (api_error 409 "已完成任务不能通过取消撤销业务归属")
  refuse_when (not (created_by caller t.created_by) && not caller.administrator)
      (api_error 403 "仅创建者或管理员可取消任务")
  modify (set_task k cancelled_task)
  modify (
      set_plans (λ (p : Plan). p.task_id == k && plan_is p.status PlanStatus.proposed)
        (λ p. record p { status = PlanStatus.cancelled }))
  modify (
      set_items (λ (i : WorkItem). owned_by k i.task_id && active_work i.status)
        (λ i. record i { status = WorkStatus.cancelled; reason_code = "task_cancelled" }))
  modify (release_lease t.worker_token)

unfoldable pub cancel_task : Caller → ℕ → Tx Desk (Unit {0})
cancel_task caller k = do task ← gets (λ d. d.tasks k); cancel_found caller k task

module _ (fingerprint : ℕ → List ℕ → String → String → String) where
  -- The command `retry`: a new task like the one that has ended.
  abbrev pub retry_like : Caller → String → ℕ → Option Task → Tx Desk ℕ
  retry_like caller key k none = fail (api_error 404 "未找到")
  retry_like caller key k (some t) = do
    refuse_when
        (not (
          task_is t.status TaskStatus.failed
          || (task_is t.status TaskStatus.cancelled || task_is t.status TaskStatus.completed)))
        (api_error 409 "任务仍在运行")
    refuse_when (str_eq key "") (bad "重试须提供幂等键")
    create_task fingerprint
        (record {
          members = t.member_ids;
          mode = t.mode;
          key = key;
          actor = some caller.id;
          automatic = false;
          version = t.execution_version;
        })
        key

  unfoldable pub retry_task : Caller → String → ℕ → Tx Desk ℕ
  retry_task caller key k = do task ← gets (λ d. d.tasks k); retry_like caller key k task

abbrev lease_held : ℕ → Option ℕ → Bool
lease_held now none = false
lease_held now (some t) = ltb now t

-- The tasks of the scope that have not ended.
abbrev pub unfinished : Desk → Task → Bool
unfinished d t =
    t.scope_id == d.scope.id
    && (task_is t.status TaskStatus.pending || task_is t.status TaskStatus.running)

abbrev cancelled_in : Desk → Option Task → Bool
cancelled_in d none = false
cancelled_in d (some t) = t.scope_id == d.scope.id && task_is t.status TaskStatus.cancelled

-- The writes of a pause or a resumption.
abbrev pub switch_scope : Bool → Desk → Desk
switch_scope paused d = record d {
  scope = record d.scope {
    paused = paused;
    epoch = d.scope.epoch + 1;
    revision = d.scope.revision + 1;
    lease_token = 0;
    lease_until = none;
  };
}

abbrev pub paused_task : Task → Task
paused_task t = record t { status = TaskStatus.cancelled; error_code = "allocation_scope_paused" }

-- The pause or the resumption of the scope, with the revision that the user saw.
unfoldable pub pause_scope : Bool → String → String → ℕ → Tx Desk (Unit {0})
pause_scope paused mode reason expected = do
  refuse_when ((not (str_eq mode "") && not (str_eq mode "execute_v1")) || is_blank reason)
      (bad "请使用独立分配并填写暂停或恢复原因")
  revision ← gets (λ d. d.scope.revision)
  refuse_when (not (expected == revision)) (api_error 409 "范围版本已变化，请刷新")
  held ← gets (λ d. lease_held d.now d.scope.lease_until)
  refuse_when (held && not paused) (api_error 409 "当前分配任务尚未结束，请稍后切换")
  modify (switch_scope paused)
  modify (λ d. set_tasks (unfinished d) paused_task d)
  modify (λ d.
      set_plans
        (λ (p : Plan). plan_is p.status PlanStatus.proposed && cancelled_in d (d.tasks p.task_id))
        (λ p. record p {
          status = PlanStatus.cancelled;
          validation_code = "allocation_scope_changed";
        })
        d)
  modify (λ d.
      set_items
        (λ (i : WorkItem).
          active_work i.status && if_none i.task_id false (λ k. cancelled_in d (d.tasks k)))
        (λ i. record i { status = WorkStatus.pending; task_id = none; reason_code = "" }) d)

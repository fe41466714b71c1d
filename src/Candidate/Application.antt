-- ===== src/Candidate/Application.antt =====
-- internal/platform/applications.go: the state of an application and its audit log.
pub mod Tests
pub mod Audit
pub mod Accounting
pub mod Moves
use resume_platform.Shared.{
  ℕ, ◌+◌, String, Bool, true, false, not, ◌&&◌, Option, none, some, List, [], ◌∷◌, ◌++◌, any,
  str_eq, Result, ok, err, api_error, ◌==◌, if◌then◌else◌,
}
use resume_platform.Candidate.Case.{
  Case, Status, Application, ApplicationEvent, Resume, Workflow, WorkflowStatus, Membership,
  MemberStatus, PoolEvent, status_eq, closed_application, active_member, find_row, update_row,
}
use resume_platform.Candidate.Transaction.{Tx, pure, fail, gets, modify, refuse_when, ◌>>=◌, ◌>>◌}

abbrev pub application_key : Application → ℕ
application_key a = a.resume_id

-- `INSERT … SELECT id,candidate_id FROM core_resume WHERE id=$1 ON CONFLICT DO NOTHING`, with the
-- defaults of the table.
pub ensure_application : ℕ → Case → Case
ensure_application resume_id c = elim (find_row application_key resume_id c.applications) [
  | some _ ↦ c
  | none ↦
      if any (λ (r : Resume). r.id == resume_id) c.resumes
      then record c {
        applications =
            record {
              resume_id = resume_id;
              status = Status.pending;
              reason = "";
              updated_at = c.now;
              completed_at = none;
            }
            ∷ c.applications;
      }
      else c
]

-- The `UPDATE` and the `INSERT` of the event.
pub write_application : Application → Status → String → Case → Case
write_application prior status reason c = record c {
  applications =
      update_row application_key prior.resume_id
        (λ a. record a {
          status = status;
          reason = reason;
          updated_at = c.now;
          completed_at = if closed_application status then some c.now else none;
        })
        c.applications;
  application_events =
      record {
        resume_id = prior.resume_id;
        from_status = prior.status;
        to_status = status;
        reason = reason;
      }
      ∷ c.application_events;
}

-- The rest of `applicationState`, once the row is read.
pub change_application : Option Application → Status → String → Tx Case (Unit {0})
change_application none status reason = fail (api_error 404 "未找到记录")
change_application (some prior) status reason =
    if status_eq prior.status status && str_eq prior.reason reason
    then pure tt
    else if closed_application prior.status
    then fail (api_error 409 "该志愿已结束，不能覆盖历史结果")
    else modify (write_application prior status reason)

-- `applicationState`
pub application_state : ℕ → Status → String → Tx Case (Unit {0})
application_state resume_id status reason = do
  modify (ensure_application resume_id)
  prior ← gets (λ c. find_row application_key resume_id c.applications)
  change_application prior status reason

-- `requireOpenApplication`
pub require_open_application : ℕ → Tx Case (Unit {0})
require_open_application resume_id = do
  closed ← gets (λ c.
      any (λ (a : Application). a.resume_id == resume_id && closed_application a.status)
        c.applications)
  refuse_when closed (api_error 409 "该志愿已结束，不能重新处理或分配；历史结果已保留")

-- `closePoolMemberships` of internal/platform/pools.go: the active memberships, but for those of
-- the excepted resume, are closed, and each gets an event.
abbrev to_close : Option ℕ → Membership → Bool
to_close none m = active_member m.status
to_close (some r) m = not (m.resume_id == r) && active_member m.status

pub close_members : Option ℕ → List Membership → List Membership
close_members except [] = []
close_members except (m ∷ ms) =
    (if to_close except m
      then record m { status = MemberStatus.closed; revision = m.revision + 1 }
      else m)
    ∷ close_members except ms

pub closing_events : Option ℕ → String → List Membership → List PoolEvent
closing_events except reason [] = []
closing_events except reason (m ∷ ms) =
    let rest = closing_events except reason ms in
    if to_close except m
    then record { member_id = m.id; kind = "closed"; reason = reason } ∷ rest
    else rest

pub close_pool_memberships : Option ℕ → String → Tx Case (Unit {0})
close_pool_memberships except reason = modify λ c. record c {
  members = close_members except c.members;
  pool_events = closing_events except reason c.members ++ c.pool_events;
}

-- The query of `talentPool` and `waitAfterDepartmentRejection`: some resume of the candidate has
-- no application, or one that is not closed.
pub remaining : Case → Bool
remaining c =
    any
      (λ (r : Resume). elim (find_row application_key r.id c.applications) [
        | none ↦ true
        | some a ↦ not (closed_application a.status)
      ])
      c.resumes

-- `waitForNextApplication`
pub wait_for_next_application : Tx Case (Unit {0})
wait_for_next_application = modify λ c. record c {
  workflow = record c.workflow {
    status = WorkflowStatus.waiting_next;
    current_resume_id = none;
    current_rank = none;
    archive_reason = "";
    archive_detail = "";
    block_reason = "";
    block_detail = "";
    completed_at = none;
  };
}

pub enter_talent_pool : Tx Case (Unit {0})
enter_talent_pool = modify λ c. record c {
  workflow = record c.workflow {
    status = WorkflowStatus.talent_pool;
    archive_reason = "all_rejected";
    archive_detail = "全部志愿均未通过，进入人才库等待后续筛选策略";
    block_reason = "";
    block_detail = "";
    completed_at = some c.now;
  };
}

-- `talentPool`
pub talent_pool : Tx Case (Unit {0})
talent_pool = do
  more ← gets remaining
  if more
      then wait_for_next_application
      else (do close_pool_memberships none "all_rejected"; enter_talent_pool)

-- `waitAfterDepartmentRejection`
pub wait_after_department_rejection : Tx Case (Unit {0})
wait_after_department_rejection = do
  close_pool_memberships none "department_rejected"
  more ← gets remaining
  if not more then talent_pool else wait_for_next_application

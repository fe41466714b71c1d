-- ===== src/Candidate/Application/Tests.antt =====
-- A candidate with one resume, its application from the start to a rejection and the talent pool.
use resume_platform.Shared.{◌≡◌, refl, none, some, [], ◌∷◌}
use resume_platform.Candidate.Case.{
  Case, Status, WorkflowStatus, Workflow, Application, find_row, update_row,
}
use resume_platform.Candidate.Transaction.{◌>>=◌}
use resume_platform.Candidate.Application.{
  application_key, ensure_application, write_application, change_application, application_state,
  talent_pool, close_members, closing_events, close_pool_memberships, remaining,
  wait_for_next_application, enter_talent_pool,
}
use resume_platform.Candidate.Application.Audit.{Audited, logged}
use resume_platform.Candidate.History.{Step, History, History-Audited, History-closed}

abbrev pub fresh_workflow : Workflow
fresh_workflow = record {
  status = WorkflowStatus.pending;
  current_resume_id = none;
  current_rank = none;
  dispatch_strategy = "ai";
  archive_reason = "";
  archive_detail = "";
  block_reason = "";
  block_detail = "";
  passed_attempt_id = none;
  started_at = none;
  completed_at = none;
  revision = 1;
  active_processing_scope_item_id = none;
  active_processing_token = none;
  active_processing_expires_at = none;
}

abbrev pub fresh_case : Case
fresh_case = record {
  now = 100;
  workflow = fresh_workflow;
  resumes =
      record { id = 1; volunteer_rank = some 1; apply_id = "A1"; position_name = "Engineer" } ∷ [];
  applications = [];
  application_events = [];
  members = [];
  pool_events = [];
  attempts = [];
  handling_events = [];
  targets = [];
  departments = [];
  next_attempt_id = 1;
}

abbrev row : Status → Application
row status = record {
  resume_id = 1;
  status = status;
  reason = "r";
  updated_at = 100;
  completed_at = none;
}

abbrev rejected_row : Application
rejected_row = record {
  resume_id = 1;
  status = Status.ai_rejected;
  reason = "r";
  updated_at = 100;
  completed_at = some 100;
}

abbrev assessed_case : Case
assessed_case = record fresh_case {
  applications = row Status.assessing ∷ [];
  application_events =
      record {
        resume_id = 1;
        from_status = Status.pending;
        to_status = Status.assessing;
        reason = "r";
      }
      ∷ [];
}

abbrev rejected_case : Case
rejected_case = record assessed_case {
  applications = rejected_row ∷ [];
  application_events =
      record {
        resume_id = 1;
        from_status = Status.assessing;
        to_status = Status.ai_rejected;
        reason = "r";
      }
      ∷ assessed_case.application_events;
}

abbrev pooled_case : Case
pooled_case = record rejected_case {
  workflow = record fresh_workflow {
    status = WorkflowStatus.talent_pool;
    archive_reason = "all_rejected";
    archive_detail = "全部志愿均未通过，进入人才库等待后续筛选策略";
    completed_at = some 100;
  };
}

assess : Step fresh_case assessed_case
unfolding ensure_application write_application change_application application_state ◌>>=◌ find_row
    update_row
assess = Step.state 1 Status.assessing "r" tt refl

reject : Step assessed_case rejected_case
unfolding ensure_application write_application change_application application_state ◌>>=◌ find_row
    update_row
reject = Step.state 1 Status.ai_rejected "r" tt refl

pool : Step rejected_case pooled_case
unfolding talent_pool close_members closing_events close_pool_memberships remaining
    wait_for_next_application enter_talent_pool ◌>>=◌ find_row
pool = Step.pool tt refl

fresh_case-Audited : Audited fresh_case
unfolding logged find_row
fresh_case-Audited = record { current = λ k. refl; chained = tt }

rejected_row-found : find_row application_key 1 rejected_case.applications ≡ some rejected_row
unfolding find_row
rejected_row-found = refl

History-Audited_example : Audited pooled_case
History-Audited_example =
    History-Audited (History.then (History.then (History.then History.start assess) reject) pool)
      fresh_case-Audited

History-closed_example : find_row application_key 1 pooled_case.applications ≡ some rejected_row
History-closed_example =
    History-closed 1 rejected_row (History.then History.start pool) rejected_row-found refl

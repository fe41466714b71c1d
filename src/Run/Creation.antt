-- ===== src/Run/Creation.antt =====
-- `createRun` of internal/platform/runs.go. Its stages stand in the order of their numbers; labels
-- and the JSON columns that only keep the request are left out.
use resume_platform.Shared.{
  ℕ, ◌+◌, String, Bool, true, false, not, ◌&&◌, ◌||◌, Option, none, some, List, [], ◌∷◌, ◌++◌, any,
  length, api_error, bad, ◌==◌, str_eq, if◌then◌else◌, if_none, Failure,
}
use resume_platform.Candidate.Case.{
  Case, WorkflowStatus, Application, Attempt, closed_application, effective_attempt,
}
use resume_platform.Candidate.Transaction.{Tx, pure, fail, gets, modify, refuse_when, ◌>>=◌, ◌>>◌}
use resume_platform.Run.{stages}
use resume_platform.Run.Progress.{Counts, Stage, Item, Board}

-- A row of `core_candidate`, with the rows that `lockWorkflow` finds for it.
pub record Candidate : Type 0 where
  pub id : ℕ
  pub case : Option Case

-- A run that a rejection of a department started before.
pub record Continued : Type 0 where
  pub run : ℕ
  pub candidate : ℕ
  pub resume : ℕ
  pub revision : ℕ

-- What a run is asked for: the parts of `scope` that `createRun` reads, and the candidates.
pub record Request : Type 0 where
  pub step : String
  pub ai_retry : Bool
  pub feedback_rejected : Bool
  pub retry_resume_id : ℕ
  pub expected_workflow_revision : Option ℕ
  pub ids : List ℕ

-- The tables; candidates stand in the order of their identifiers.
pub record Store : Type 0 where
  pub now : ℕ
  pub candidates : List Candidate
  pub continued : List Continued
  pub runs : ℕ → Option Board
  pub jobs : List ℕ
  pub next_run : ℕ
  pub next_item : ℕ

abbrev pub find_candidate : ℕ → List Candidate → Option Candidate
find_candidate id [] = none
find_candidate id (c ∷ cs) = if c.id == id then some c else find_candidate id cs

abbrev ended_workflow : WorkflowStatus → Bool
ended_workflow WorkflowStatus.passed = true
ended_workflow WorkflowStatus.talent_pool = true
ended_workflow _ = false

abbrev resume_or_zero : Option ℕ → ℕ
resume_or_zero none = 0
resume_or_zero (some id) = id

abbrev pub one_retry : Failure
one_retry = bad "AI 重试必须指定一个候选人"

abbrev pub one_continuation : Failure
one_continuation = bad "续办必须指定一个候选人"

abbrev pub not_found : Failure
not_found = api_error 404 "未找到记录"

abbrev pub left_behind : Failure
left_behind = api_error 409 "该决策已不属于当前可处理志愿，历史结果已保留"

-- Where the request names one candidate: `len(ids) != 1` is refused.
abbrev pub sole : List ℕ → Option ℕ
sole [] = none
sole (id ∷ []) = some id
sole (_ ∷ _ ∷ _) = none

-- The guards of a retry by the model, on the workflow that was locked.
abbrev pub retry_guards : Request → Case → Tx Store (Unit {0})
retry_guards r c = do
  refuse_when
      (ended_workflow c.workflow.status
        || not (resume_or_zero c.workflow.current_resume_id == r.retry_resume_id))
      left_behind
  refuse_when
      (any (λ (a : Application). a.resume_id == r.retry_resume_id && closed_application a.status)
        c.applications)
      (api_error 409 "该志愿已结束，不能重新处理或分配；历史结果已保留")
  refuse_when (any (λ (a : Attempt). effective_attempt a.status) c.attempts)
      (api_error 409 "候选人已进入分配或部门处理，不能重新评估")

-- A workflow that is missing is created without a current resume, which is not the resume of the
-- retry: identifiers are positive.
abbrev pub check_retry : Request → Tx Store (Unit {0})
check_retry r = if_none (sole r.ids) (fail one_retry) λ id. do
  found ← gets (λ s. find_candidate id s.candidates)
  if_none found (fail not_found) λ c. if_none c.case (fail left_behind) λ case. retry_guards r case

abbrev pub find_continued : ℕ → ℕ → ℕ → List Continued → Option ℕ
find_continued candidate resume revision [] = none
find_continued candidate resume revision (c ∷ cs) =
    if c.candidate == candidate && (c.resume == resume && c.revision == revision)
    then some c.run
    else find_continued candidate resume revision cs

-- The guards of a continuation, and the run that it already has.
abbrev pub continuation_of : Request → ℕ → ℕ → Case → Tx Store (Option ℕ)
continuation_of r id expected c = do
  refuse_when (not (c.workflow.revision == expected)) (api_error 409 "续办前流程已被修改")
  gets (λ s. find_continued id r.retry_resume_id expected s.continued)

abbrev pub check_continuation : Request → Tx Store (Option ℕ)
check_continuation r = if_none r.expected_workflow_revision (pure none) λ expected.
    if_none (sole r.ids) (fail one_continuation) λ id. do
      found ← gets (λ s. find_candidate id s.candidates)
      if_none found (fail not_found)
          λ c. if_none c.case (fail not_found) λ case. continuation_of r id expected case

abbrev pub no_counts : Counts
no_counts = record {
  processed_count = 0;
  completed_count = 0;
  success_count = 0;
  needs_attention_count = 0;
  failed_count = 0;
  skipped_count = 0;
  cancelled_count = 0;
  review_count = 0;
  dispatch_count = 0;
  archive_count = 0;
}

abbrev revision_of : Option Case → Option ℕ
revision_of none = none
revision_of (some c) = some c.workflow.revision

abbrev pub new_item : ℕ → Candidate → Item
new_item id c = record {
  id = id;
  candidate_id = c.id;
  workflow_revision_at_submit = revision_of c.case;
  status = "pending";
  processing_node = "pending";
  result_type = "";
  reason_code = "";
  result_message = "";
  error_code = "";
  error_message = "";
  finished_at = none;
  prepared_resume_id = none;
}

-- `INSERT … SELECT … WHERE c.id=ANY($2) ORDER BY c.id`
abbrev pub new_items : ℕ → List ℕ → List Candidate → List Item
new_items next ids [] = []
new_items next ids (c ∷ cs) =
    if any (λ id. id == c.id) ids
    then new_item next c ∷ new_items (next + 1) ids cs
    else new_items next ids cs

abbrev pub new_stages : ℕ → ℕ → List String → List Stage
new_stages now candidates [] = []
new_stages now candidates (step ∷ steps) =
    record {
      step = step;
      status = if str_eq step "queued" then "running" else "pending";
      message = "";
      error = "";
      total_count =
          if any (str_eq step) ("queued" ∷ "initialize" ∷ "finalize" ∷ []) then 1 else candidates;
      counts = no_counts;
      started_at = if str_eq step "queued" then some now else none;
      finished_at = none;
    }
    ∷ new_stages now candidates steps

abbrev cases_of : List Candidate → List Case
cases_of [] = []
cases_of (c ∷ cs) = elim c.case [ none ↦ cases_of cs | some case ↦ case ∷ cases_of cs ]

abbrev pub new_run : ℕ → Request → Store → Board
new_run now r s = record {
  now = now;
  run = record {
    step = r.step;
    total_count = length r.ids;
    status = "pending";
    current_stage = "queued";
    message = "任务已提交，等待后台开始处理";
    error = "";
    counts = no_counts;
    started_at = none;
    finished_at = none;
    cancel_requested_at = none;
    cancelled_by = none;
    cancelled_at = none;
    last_heartbeat_at = none;
  };
  stages = new_stages now (length r.ids) (stages r.step);
  items = new_items s.next_item r.ids s.candidates;
  recommendations = [];
  cases = cases_of s.candidates;
}

abbrev as_continued : ℕ → Request → List Continued
as_continued run r = if_none r.expected_workflow_revision [] λ revision.
    if_none (sole r.ids) [] λ id.
      if r.feedback_rejected
      then record { run = run; candidate = id; resume = r.retry_resume_id; revision = revision }
        ∷ []
      else []

abbrev pub with_run : Request → Store → Store
with_run r s = record s {
  runs = λ k. if k == s.next_run then some (new_run s.now r s) else s.runs k;
  jobs = s.next_run ∷ s.jobs;
  next_run = s.next_run + 1;
  next_item = s.next_item + length r.ids;
  continued = s.continued ++ as_continued s.next_run r;
}

abbrev pub insert_run : Request → Tx Store ℕ
insert_run r = do
  run ← gets (λ s. s.next_run)
  items ← gets (λ s. length (new_items s.next_item r.ids s.candidates))
  refuse_when (not (items == length r.ids)) (bad "选择的候选人已不存在")
  modify (with_run r)
  pure run

-- `createRun`
unfoldable pub create_run : Request → Tx Store ℕ
create_run r = do
  if r.ai_retry then check_retry r else pure tt
  existing ← check_continuation r
  if_none existing (insert_run r) pure

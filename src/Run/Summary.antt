-- ===== src/Run/Summary.antt =====
-- `summarizeRun`, `cancelRun` and `stopRun` of internal/platform/runs.go.
use resume_platform.Shared.{
  ℕ, String, Bool, false, not, ◌&&◌, ◌||◌, Option, none, some, List, [], ◌∷◌, any, Result, ok, err,
  api_error, task_error, ltb, ◌==◌, str_eq, if◌then◌else◌,
}
use resume_platform.Candidate.Case.{Case, Status, find_row, status_eq}
use resume_platform.Candidate.Application.{application_key, application_state}
use resume_platform.Candidate.Transaction.{Tx, pure, gets, modify, refuse_when, ◌>>=◌, ◌>>◌}
use resume_platform.Run.{active_run}
use resume_platform.Run.Progress.{
  Counts, Run, Stage, Item, Recommendation, Board, update_where, count, is_set,
}

abbrev recommends : ℕ → Option Recommendation → Bool
recommends k none = false
recommends k (some Recommendation.review) = k == 0
recommends k (some Recommendation.dispatch) = k == 1
recommends k (some Recommendation.archive) = k == 2

-- The two queries of `summarizeRun`.
abbrev pub counted : Board → Counts
counted b = record {
  processed_count = count (λ (i : Item). is_set i.finished_at) b.items;
  completed_count = count (λ (i : Item). str_eq i.result_type "completed") b.items;
  success_count = count (λ (i : Item). str_eq i.status "success") b.items;
  needs_attention_count = count (λ (i : Item). str_eq i.result_type "needs_attention") b.items;
  failed_count = count (λ (i : Item). str_eq i.result_type "failed") b.items;
  skipped_count = count (λ (i : Item). str_eq i.status "skipped_manual_change") b.items;
  cancelled_count = count (λ (i : Item). str_eq i.status "cancelled") b.items;
  review_count = count (recommends 0) b.recommendations;
  dispatch_count = count (recommends 1) b.recommendations;
  archive_count = count (recommends 2) b.recommendations;
}

abbrev pub final_status : Counts → String
final_status c =
    if ltb 0 c.failed_count
    then "partial_failed"
    else if ltb 0 c.needs_attention_count
    then "needs_attention"
    else "success"

-- `summarizeRun`; `report` is the message with the four numbers printed.
module _ (report : ℕ → ℕ → ℕ → ℕ → String) where
  abbrev pub finished_run : ℕ → Counts → Run → Run
  finished_run now c r = record r {
    status = final_status c;
    current_stage = "";
    last_heartbeat_at = some now;
    finished_at = some now;
    message = report c.completed_count c.needs_attention_count c.failed_count c.skipped_count;
    counts = c;
  }

  abbrev pub summarized : Bool → Board → Board
  summarized finish b =
      let c = counted b in
      record b {
        run = if finish then finished_run b.now c b.run else record b.run { counts = c };
        stages =
            update_where (λ (s : Stage). str_eq s.step "step4") (λ s. record s { counts = c })
              b.stages;
      }

  unfoldable pub summarize_run : Bool → Tx Board (Unit {0})
  summarize_run finish = do
    asked ← gets (λ b. is_set b.run.cancel_requested_at)
    refuse_when (finish && asked) (task_error "agent_cancelled" "任务已取消")
    modify (summarized finish)

-- `cancelRun`
abbrev pub asked_to_cancel : ℕ → Board → Board
asked_to_cancel user b = record b {
  run = record b.run {
    status = "cancelling";
    cancel_requested_at = some b.now;
    cancelled_by = some user;
    message = "正在停止提取与分析，取消后续写入";
  };
}

unfoldable pub cancel_run : ℕ → Tx Board (Unit {0})
cancel_run user = do
  active ← gets (λ b. active_run b.run.status)
  refuse_when (not active) (api_error 409 "任务已结束，不能取消")
  asked ← gets (λ b. is_set b.run.cancel_requested_at)
  if asked then pure tt else modify (asked_to_cancel user)

-- The error that stopped a run, as far as `failureInfo` tells them apart.
pub data Cause : Type 0 where
  task_failure : String → String → Cause
  pdf_failure : String → String → Cause
  context_cancelled : Cause
  deadline_exceeded : Cause
  other_error : Cause

-- `failureInfo`
abbrev pub failure_info : Cause → String × String
failure_info (Cause.task_failure code message) = (code, message)
failure_info (Cause.pdf_failure code message) = (code, message)
failure_info Cause.context_cancelled = ("agent_cancelled", "任务已取消")
failure_info Cause.deadline_exceeded = ("llm_timeout", "处理超时，可重试此份简历")
failure_info Cause.other_error = ("processing_error", "后台处理失败，请重试或联系管理员")

-- `status IN ('running','waiting_conflict')` and `status IN ('pending','processing',…)`
abbrev pub open_stage : String → Bool
open_stage s = str_eq s "running" || str_eq s "waiting_conflict"

abbrev pub open_item : String → Bool
open_item s = str_eq s "pending" || (str_eq s "processing" || str_eq s "waiting_conflict")

abbrev pub stopped_run : Bool → String → ℕ → Run → Run
stopped_run cancelled message now r = record r {
  status = if cancelled then "cancelled" else "failed";
  finished_at = some now;
  message = message;
  error = if cancelled then "" else message;
  cancelled_at = if cancelled then some now else r.cancelled_at;
}

abbrev pub stopped_stage : Bool → String → ℕ → Stage → Stage
stopped_stage cancelled message now s = record s {
  status = if cancelled then "cancelled" else "failed";
  message = message;
  error = if cancelled then "" else message;
  finished_at = some now;
}

abbrev pub skipped_stage : ℕ → Stage → Stage
skipped_stage now s = record s {
  status = "skipped";
  message = "任务已停止，此节点未执行";
  finished_at = some now;
}

abbrev pub stopped_item : Bool → String → String → ℕ → Item → Item
stopped_item cancelled code message now i =
    let status = if cancelled then "cancelled" else "failed" in
    record i {
      status = status;
      result_type = status;
      processing_node = status;
      error_code = code;
      error_message = message;
      result_message = message;
      reason_code = code;
      finished_at = some now;
    }

abbrev pub stopped_rows : Bool → String → String → Board → Board
stopped_rows cancelled code message b = record b {
  run = stopped_run cancelled message b.now b.run;
  stages =
      update_where (λ (s : Stage). str_eq s.status "pending") (skipped_stage b.now)
        (update_where (λ (s : Stage). open_stage s.status) (stopped_stage cancelled message b.now)
          b.stages);
  items =
      update_where (λ (i : Item). open_item i.status) (stopped_item cancelled code message b.now)
        b.items;
}

-- The query for the applications to block: the resume of the item of the run that holds the
-- workflow, where its application is being assessed.
abbrev pub prepared_resume : List Item → Option ℕ → Option ℕ
prepared_resume items none = none
prepared_resume items (some id) = elim (find_row (λ (i : Item). i.id) id items) [
  | none ↦ none
  | some i ↦ i.prepared_resume_id
]

abbrev pub assessed : Option ℕ → Case → Option ℕ
assessed none c = none
assessed (some resume) c = elim (find_row application_key resume c.applications) [
  | none ↦ none
  | some a ↦ if status_eq a.status Status.assessing then some resume else none
]

abbrev pub claimed_resume : List Item → Case → Option ℕ
claimed_resume items c =
    assessed (prepared_resume items c.workflow.active_processing_scope_item_id) c

abbrev pub block_claimed : String → Option ℕ → Tx Case (Unit {0})
block_claimed message none = pure tt
block_claimed message (some resume) = application_state resume Status.blocked message

abbrev pub held_by : List Item → Option ℕ → Bool
held_by items none = false
held_by items (some id) = any (λ (i : Item). i.id == id) items

-- The last `UPDATE` of `stopRun`.
abbrev pub release_workflow : List Item → Case → Case
release_workflow items c =
    if held_by items c.workflow.active_processing_scope_item_id
    then record c {
      workflow = record c.workflow {
        active_processing_scope_item_id = none;
        active_processing_token = none;
        active_processing_expires_at = none;
      };
    }
    else c

unfoldable pub stop_case : List Item → String → Tx Case (Unit {0})
stop_case items message = do
  claimed ← gets (claimed_resume items)
  block_claimed message claimed
  modify (release_workflow items)

abbrev pub cons_case :
    Result (Unit {0} × Case) → Result (Unit {0} × List Case) → Result (Unit {0} × List Case)
cons_case (err e) rest = err e
cons_case (ok (_, c)) (err e) = err e
cons_case (ok (_, c)) (ok (_, cs)) = ok (tt, c ∷ cs)

-- The same for each case in turn.
unfoldable pub stop_cases : List Item → String → Tx (List Case) (Unit {0})
stop_cases items message [] = ok (tt, [])
stop_cases items message (c ∷ cs) =
    cons_case (stop_case items message c) (stop_cases items message cs)

abbrev pub with_cases : Board → Result (Unit {0} × List Case) → Result (Unit {0} × Board)
with_cases b (err e) = err e
with_cases b (ok (_, cs)) = ok (tt, record b { cases = cs })

unfoldable pub stop_claims : String → Tx Board (Unit {0})
stop_claims message b = with_cases b (stop_cases b.items message b.cases)

-- `stopRun`
module _ (report : ℕ → ℕ → ℕ → ℕ → String) where
  unfoldable pub stop_run : Cause → Tx Board (Unit {0})
  stop_run cause =
      let (code, message) = failure_info cause in
      do
        modify (stopped_rows (str_eq code "agent_cancelled") code message)
        stop_claims message
        summarize_run report false

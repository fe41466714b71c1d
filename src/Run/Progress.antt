-- ===== src/Run/Progress.antt =====
-- The rows of one processing run and the operations on them: internal/platform/runs.go and
-- `itemOutcome` of internal/platform/processing.go. An instant is a natural number. A pool-level
-- statement is a transaction of its own, so that `beginStage` is two of them.
use resume_platform.Shared.{
  ℕ, ◌+◌, String, Bool, true, false, not, ◌&&◌, Option, none, some, List, [], ◌∷◌, task_error, ltb,
  ◌==◌, str_eq, if◌then◌else◌,
}
use resume_platform.Candidate.Case.{Case}
use resume_platform.Candidate.Transaction.{Tx, gets, modify, refuse_when, ◌>>=◌, ◌>>◌}
use resume_platform.Run.{Outcome, item_outcome}

-- What `summarizeRun` counts.
pub record Counts : Type 0 where
  pub processed_count : ℕ
  pub completed_count : ℕ
  pub success_count : ℕ
  pub needs_attention_count : ℕ
  pub failed_count : ℕ
  pub skipped_count : ℕ
  pub cancelled_count : ℕ
  pub review_count : ℕ
  pub dispatch_count : ℕ
  pub archive_count : ℕ

-- A row of `core_processingrun`.
pub record Run : Type 0 where
  pub step : String
  pub total_count : ℕ
  pub status : String
  pub current_stage : String
  pub message : String
  pub error : String
  pub counts : Counts
  pub started_at : Option ℕ
  pub finished_at : Option ℕ
  pub cancel_requested_at : Option ℕ
  pub cancelled_by : Option ℕ
  pub cancelled_at : Option ℕ
  pub last_heartbeat_at : Option ℕ

-- A row of `core_processingrunstage`.
pub record Stage : Type 0 where
  pub step : String
  pub status : String
  pub message : String
  pub error : String
  pub total_count : ℕ
  pub counts : Counts
  pub started_at : Option ℕ
  pub finished_at : Option ℕ

-- A row of `core_processingrunscopeitem`.
pub record Item : Type 0 where
  pub id : ℕ
  pub candidate_id : ℕ
  pub workflow_revision_at_submit : Option ℕ
  pub status : String
  pub processing_node : String
  pub result_type : String
  pub reason_code : String
  pub result_message : String
  pub error_code : String
  pub error_message : String
  pub finished_at : Option ℕ
  pub prepared_resume_id : Option ℕ

-- The recommendation of a row of `core_agentdispatchdecision`.
pub data Recommendation : Type 0 where
  review dispatch archive : Recommendation

-- The rows of a run, the recommendations of its decisions, and the rows of the candidates in the
-- order of their workflows.
pub record Board : Type 0 where
  pub now : ℕ
  pub run : Run
  pub stages : List Stage
  pub items : List Item
  pub recommendations : List (Option Recommendation)
  pub cases : List Case

module _ {A : Type 0} where
  -- `UPDATE … WHERE`
  abbrev pub update_where : (A → Bool) → (A → A) → List A → List A
  update_where selects change [] = []
  update_where selects change (x ∷ xs) =
      (if selects x then change x else x) ∷ update_where selects change xs

  -- `count(*) FILTER(WHERE …)`
  abbrev pub count : (A → Bool) → List A → ℕ
  count selects [] = 0
  count selects (x ∷ xs) = (if selects x then 1 else 0) + count selects xs

-- `stageDescriptions`
abbrev pub stage_description : String → String
stage_description step =
    if str_eq step "queued"
    then "任务已提交，等待后台开始处理。"
    else if str_eq step "initialize"
    then "检查模型连接和分析服务，准备本次处理配置。"
    else if str_eq step "preparing"
    then "读取所选简历，准备候选人材料和岗位信息。"
    else if str_eq step "step1"
    then "检查重复投递，整理候选人的志愿顺序。"
    else if str_eq step "step2"
    then "依据院校和学历要求核验候选人资格。"
    else if str_eq step "step3"
    then "确定当前志愿对应的可选岗位。"
    else if str_eq step "step4"
    then "逐份提取全文、校验文本、分析岗位匹配并保存结果；材料异常可单份重试。"
    else if str_eq step "finalize"
    then "核对完成、需处理和失败数量，生成任务汇总。"
    else ""

-- `COALESCE(…,now())`
abbrev pub coalesce : Option ℕ → ℕ → Option ℕ
coalesce none now = some now
coalesce (some t) now = some t

abbrev pub is_set : Option ℕ → Bool
is_set none = false
is_set (some t) = true

-- The first statement of `beginStage`, with its count of rows, and the second one.
unfoldable pub begin_run : String → Tx Board (Unit {0})
begin_run step = do
  asked ← gets (λ b. is_set b.run.cancel_requested_at)
  refuse_when asked (task_error "agent_cancelled" "任务已取消")
  modify (λ b. record b {
    run = record b.run {
      status = "running";
      current_stage = step;
      message = stage_description step;
      last_heartbeat_at = some b.now;
      started_at = coalesce b.run.started_at b.now;
    };
  })

unfoldable pub begin_row : String → Tx Board (Unit {0})
begin_row step = modify λ b. record b {
  stages =
      update_where (λ (s : Stage). str_eq s.step step && not (str_eq s.status "success"))
        (λ s. record s {
          status = "running";
          started_at = coalesce s.started_at b.now;
          message = stage_description step;
          error = "";
        })
        b.stages;
}

-- `finishStage`
abbrev pub finished_row : ℕ → Stage → Stage
finished_row now s =
    let analysis = str_eq s.step "step4" in
    record s {
      status =
          if analysis && ltb 0 s.counts.failed_count
          then "partial_failed"
          else if analysis && ltb 0 s.counts.needs_attention_count
          then "needs_attention"
          else "success";
      started_at = coalesce s.started_at now;
      finished_at = some now;
      counts =
          if analysis
          then s.counts
          else record s.counts { processed_count = s.total_count; success_count = s.total_count };
    }

unfoldable pub finish_stage : String → Tx Board (Unit {0})
finish_stage step = modify λ b. record b {
  stages = update_where (λ (s : Stage). str_eq s.step step) (finished_row b.now) b.stages;
}

-- The values that `itemOutcome` writes to a row, the error only where the outcome has one.
abbrev pub with_outcome : ℕ → Outcome → Item → Item
with_outcome now o i = record i {
  status = o.status;
  processing_node = o.processing_node;
  result_type = o.result_type;
  reason_code = o.reason_code;
  result_message = o.result_message;
  finished_at = some now;
  error_code = elim o.error_code [ none ↦ i.error_code | some code ↦ code ];
  error_message = elim o.error_code [ none ↦ i.error_message | some code ↦ o.result_message ];
}

-- `itemOutcome`, on the rows
unfoldable pub write_outcome : ℕ → String → String → String → Tx Board (Unit {0})
write_outcome id status code message = modify λ b. record b {
  items =
      update_where (λ (i : Item). i.id == id)
        (with_outcome b.now (item_outcome status code message)) b.items;
}

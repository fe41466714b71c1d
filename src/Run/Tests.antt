-- ===== src/Run/Tests.antt =====
-- A request that lists an identifier twice, and a run that is cancelled, stopped and summed up.
use resume_platform.Shared.{
  ℕ, ◌≡◌, refl, String, true, false, Option, none, some, List, [], ◌∷◌, All, ok, err, task_error,
  ◌⊎◌, inl,
}
use resume_platform.Candidate.Case.{Case, Status, WorkflowStatus}
use resume_platform.Candidate.Transaction.{◌>>=◌}
use resume_platform.Run.Progress.{
  Counts, Item, Stage, Board, begin_run, write_outcome, with_outcome,
}
use resume_platform.Run.Summary.{
  Cause, failure_info, stop_run, summarize_run, summarized, cancel_run, asked_to_cancel,
}
use resume_platform.Run.Stopped.{IsStopped, stop_run-IsStopped}
use resume_platform.Run.History.{History, start, next, stops, decides, halting, cancel_run-halts}
use resume_platform.Run.Tally.{AddsUp, NoneFailed, summarize_run-AddsUp}
use resume_platform.Run.Jobs.{JobStatus, Job, Duty, owning, over, claimed_job, claim_job, end_job}
use resume_platform.Run.Creation.{Store, Request}
use resume_platform.Run.Leases.{IsFree, IsClaim, claim_job-IsClaim, end_job-settles}
use resume_platform.Run.{collect_ids, positive_ids, item_outcome}
use resume_platform.Run.Identifiers.{has_id, names_id, Distinct, positive_ids-Distinct}

abbrev listed : List (Option ℕ)
listed = some 7 ∷ some 3 ∷ some 7 ∷ []

listed-accepted : positive_ids listed ≡ ok (7 ∷ 3 ∷ [])
unfolding positive_ids collect_ids
listed-accepted = refl

positive_ids-Distinct_example :
    Distinct (7 ∷ 3 ∷ []) × ((n : ℕ) → has_id n (7 ∷ 3 ∷ []) ≡ names_id n listed)
positive_ids-Distinct_example = positive_ids-Distinct listed (7 ∷ 3 ∷ []) listed-accepted

-- A run of two items: the first one waits, the second one is processed and holds its candidate.
abbrev no_counts : Counts
no_counts = record {
  processed_count = 0;
  completed_count = 0;
  success_count = 0;
  needs_attention_count = 0;
  failed_count = 0;
  skipped_count = 0;
  cancelled_count = 0;
  review_count = 0;
  dispatch_count = 0;
  archive_count = 0;
}

abbrev open_row : ℕ → String → Item
open_row id status = record {
  id = id;
  candidate_id = id;
  workflow_revision_at_submit = some 1;
  status = status;
  processing_node = "";
  result_type = "";
  reason_code = "";
  result_message = "";
  error_code = "";
  error_message = "";
  finished_at = none;
  prepared_resume_id = some id;
}

abbrev running_stage : Stage
running_stage = record {
  step = "step4";
  status = "running";
  message = "";
  error = "";
  total_count = 2;
  counts = no_counts;
  started_at = some 5;
  finished_at = none;
}

abbrev pending_stage : Stage
pending_stage = record {
  step = "finalize";
  status = "pending";
  message = "";
  error = "";
  total_count = 2;
  counts = no_counts;
  started_at = none;
  finished_at = none;
}

abbrev held_case : Case
held_case = record {
  now = 10;
  workflow = record {
    status = WorkflowStatus.in_progress;
    current_resume_id = some 2;
    current_rank = some 1;
    dispatch_strategy = "ai";
    archive_reason = "";
    archive_detail = "";
    block_reason = "";
    block_detail = "";
    passed_attempt_id = none;
    started_at = some 5;
    completed_at = none;
    revision = 1;
    active_processing_scope_item_id = some 2;
    active_processing_token = some 77;
    active_processing_expires_at = some 90;
  };
  resumes =
      record { id = 2; volunteer_rank = some 1; apply_id = "A2"; position_name = "Engineer" } ∷ [];
  applications =
      record {
        resume_id = 2;
        status = Status.assessing;
        reason = "";
        updated_at = 6;
        completed_at = none;
      }
      ∷ [];
  application_events = [];
  members = [];
  pool_events = [];
  attempts = [];
  handling_events = [];
  targets = [];
  departments = [];
  next_attempt_id = 1;
}

abbrev running_board : Board
running_board = record {
  now = 10;
  run = record {
    step = "all";
    total_count = 2;
    status = "running";
    current_stage = "step4";
    message = "";
    error = "";
    counts = no_counts;
    started_at = some 4;
    finished_at = none;
    cancel_requested_at = none;
    cancelled_by = none;
    cancelled_at = none;
    last_heartbeat_at = some 9;
  };
  stages = running_stage ∷ pending_stage ∷ [];
  items = open_row 1 "pending" ∷ open_row 2 "processing" ∷ [];
  recommendations = [];
  cases = held_case ∷ [];
}

abbrev report : ℕ → ℕ → ℕ → ℕ → String
report completed attention failed skipped = "处理完成"

abbrev timeout_cause : Cause
timeout_cause = Cause.deadline_exceeded

stop_run-IsStopped_example :
    (b : Board) × (stop_run report timeout_cause running_board ≡ ok (tt, b))
    × IsStopped (failure_info timeout_cause).1 running_board b
stop_run-IsStopped_example = stop_run-IsStopped report timeout_cause running_board

abbrev asked_board : Board
asked_board = asked_to_cancel 7 running_board

abbrev halted_board : Board
halted_board = (stop_run-IsStopped report timeout_cause asked_board).0

asked-accepted : cancel_run 7 running_board ≡ ok (tt, asked_board)
unfolding cancel_run ◌>>=◌
asked-accepted = refl

asked-halted : History report asked_board halted_board
asked-halted =
    next start (stops timeout_cause tt (stop_run-IsStopped report timeout_cause asked_board).1)

cancel_run-halts_example :
    (halting halted_board.run.status ≡ true)
    × ((step : String) → begin_run step halted_board ≡ err (task_error "agent_cancelled" "任务已取消"))
    × (summarize_run report true halted_board ≡ err (task_error "agent_cancelled" "任务已取消"))
cancel_run-halts_example = cancel_run-halts report 7 tt refl start asked-accepted asked-halted

abbrev decided_board : Board
decided_board = record running_board {
  items =
      with_outcome 10 (item_outcome "success" "" "") (open_row 1 "pending")
      ∷ open_row 2 "processing"
      ∷ [];
}

decided : write_outcome 1 "success" "" "" running_board ≡ ok (tt, decided_board)
unfolding write_outcome ◌>>=◌
decided = refl

summed : summarize_run report true decided_board ≡ ok (tt, summarized report true decided_board)
unfolding summarize_run ◌>>=◌
summed = refl

summarize_run-AddsUp_example :
    AddsUp (summarized report true decided_board).run.counts
    × (true ≡ true
        → (summarized report true decided_board).run.status ≡ "success"
        → NoneFailed (summarized report true decided_board).items)
summarize_run-AddsUp_example =
    summarize_run-AddsUp report true tt refl (inl (refl, refl, refl), (inl (refl, refl, refl), tt))
      (next start (decides 1 "success" "" "" tt refl decided)) summed

-- A job whose worker is gone, and one that waits.
abbrev stale_job : Job
stale_job = record {
  id = 1;
  run_id = 3;
  status = JobStatus.running;
  lease_until = some 8;
  worker_token = 5;
  attempts = 1;
}

abbrev fresh_job : Job
fresh_job = record {
  id = 2;
  run_id = 4;
  status = JobStatus.pending;
  lease_until = none;
  worker_token = 0;
  attempts = 0;
}

abbrev queue : List Job
queue = stale_job ∷ fresh_job ∷ []

claim_job-IsClaim_example :
    (All (λ (j : Job). IsFree 10 j.status j.lease_until → ⊥) queue
      × (claim_job 6 10 queue ≡ (none, queue)))
    ⊎ IsClaim 6 10 queue (claim_job 6 10 queue)
claim_job-IsClaim_example = claim_job-IsClaim 6 10 queue

abbrev duty : Duty
duty = record { board = running_board; job = claimed_job 6 10 stale_job }

-- Someone asks to cancel the run in between.
abbrev asks : Duty → Duty
asks d = record d { board = asked_to_cancel 7 d.board }

abbrev waits_on : Duty → Duty
waits_on d = d

abbrev cancelled_cause : Cause
cancelled_cause = Cause.task_failure "agent_cancelled" "任务已取消"

end_job-settles_example :
    (left over_with : Duty) × IsStopped
      (failure_info cancelled_cause).1
      (asks duty).board
      left.board
    × (end_job report 6 (waits_on ∷ asks ∷ waits_on ∷ waits_on ∷ []) (owning none) duty
        ≡ (over, over_with))
    × (over_with.job.status ≡ JobStatus.done)
    × (over_with.job.lease_until ≡ none)
    × (over_with.board ≡ left.board)
end_job-settles_example =
    end_job-settles report 6 waits_on asks waits_on waits_on none cancelled_cause duty (λ d. refl)
      (λ d. refl) (λ d. refl) refl refl refl

abbrev store : Store
store = record {
  now = 10;
  candidates = record { id = 4; case = some held_case } ∷ record { id = 5; case = none } ∷ [];
  continued = [];
  runs = λ k. none;
  jobs = [];
  next_run = 1;
  next_item = 1;
}

abbrev request : Request
request = record {
  step = "all";
  ai_retry = false;
  feedback_rejected = true;
  retry_resume_id = 2;
  expected_workflow_revision = some 1;
  ids = 4 ∷ [];
}

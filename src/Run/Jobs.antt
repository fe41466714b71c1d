-- ===== src/Run/Jobs.antt =====
-- The queue of the runs, `platform_go_jobs`: how `worker` of internal/platform/runs.go claims a job,
-- and how `executeJob` keeps the lease of the job and ends it. An instant is a number of seconds; the
-- token 0 is the empty string.
use resume_platform.Shared.{
  ℕ, ◌+◌, String, Bool, true, false, ◌&&◌, Option, none, some, List, [], ◌∷◌, Result, ok, err, ltb,
  ◌==◌, if◌then◌else◌,
}
use resume_platform.Run.Progress.{Board, is_set}
use resume_platform.Run.Summary.{Cause, stop_run}

pub data JobStatus : Type 0 where
  pending running done : JobStatus

-- A row of `platform_go_jobs`.
pub record Job : Type 0 where
  pub id : ℕ
  pub run_id : ℕ
  pub status : JobStatus
  pub lease_until : Option ℕ
  pub worker_token : ℕ
  pub attempts : ℕ

abbrev pub is_running : JobStatus → Bool
is_running JobStatus.running = true
is_running _ = false

abbrev expired : ℕ → Option ℕ → Bool
expired now none = false
expired now (some t) = ltb t now

-- The condition of the claim's subquery, on the status and the lease.
abbrev pub can_claim : ℕ → JobStatus → Option ℕ → Bool
can_claim now JobStatus.pending lease = true
can_claim now JobStatus.running lease = expired now lease
can_claim now JobStatus.done lease = false

abbrev pub claimable : ℕ → Job → Bool
claimable now j = can_claim now j.status j.lease_until

abbrev pub claimed_job : ℕ → ℕ → Job → Job
claimed_job token now j = record j {
  status = JobStatus.running;
  worker_token = token;
  lease_until = some (now + 20);
  attempts = j.attempts + 1;
}

-- The claim of `worker`, on the rows in the order of their identifiers.
unfoldable pub claim_job : ℕ → ℕ → List Job → Option Job × List Job
claim_job token now [] = (none, [])
claim_job token now (j ∷ jobs) =
    let rest = claim_job token now jobs in
    if claimable now j
    then (some (claimed_job token now j), claimed_job token now j ∷ jobs)
    else (rest.0, j ∷ rest.1)

-- A job that is being executed, and the rows of its run.
pub record Duty : Type 0 where
  pub board : Board
  pub job : Job

-- One tick of the lease: whether `executeJob` goes on, and the rows.
abbrev beaten : Duty → Bool × Duty
beaten d = if is_set d.board.run.cancel_requested_at then (false, d) else (
  true,
  record d {
    board = record d.board { run = record d.board.run { last_heartbeat_at = some d.board.now } };
  },
)

unfoldable pub beat : ℕ → Duty → Bool × Duty
beat token d =
    if d.job.worker_token == token && is_running d.job.status
    then beaten (record d { job = record d.job { lease_until = some (d.board.now + 20) } })
    else (false, d)

abbrev live : ℕ → Option ℕ → Bool
live now none = false
live now (some t) = ltb now t

abbrev pub owns : ℕ → Duty → Bool
owns token d = d.job.worker_token == token && live d.board.now d.job.lease_until

-- The error with which `executeJob` ends a run, and whether it leaves the run to another claim.
abbrev pub final_cause : Bool → Option Cause → Option Cause
final_cause asked cause =
    if asked then some (Cause.task_failure "agent_cancelled" "任务已取消") else cause

abbrev pub interrupted : Bool → Option Cause → Bool
interrupted true cause = false
interrupted false (some Cause.context_cancelled) = true
interrupted false _ = false

abbrev pub done_job : ℕ → Duty → Duty
done_job token d = record d {
  job =
      if d.job.worker_token == token
      then record d.job { status = JobStatus.done; lease_until = none }
      else d.job;
}

-- Where `executeJob` stands once `executeRun` has returned: before the check of the lease, before the
-- read of the run, before `stopRun`, before the last `UPDATE`, or at its end.
pub data Phase : Type 0 where
  owning reading : Option Cause → Phase
  stopping : Cause → Phase
  marking over : Phase

abbrev after_read : Option Cause → Phase
after_read none = marking
after_read (some cause) = stopping cause

-- `parent.Err() != nil` ends it before the first statement.
abbrev pub first_phase : Bool → Option Cause → Phase
first_phase parent_done cause = if parent_done then over else owning cause

module _ (report : ℕ → ℕ → ℕ → ℕ → String) where
  -- A stop that cannot be written leaves the job.
  abbrev pub after_stop : Duty → Result (Unit {0} × Board) → Phase × Duty
  after_stop d (err e) = (over, d)
  after_stop d (ok (_, b)) = (marking, record d { board = b })

  -- One statement.
  unfoldable pub end_step : ℕ → Phase → Duty → Phase × Duty
  end_step token (owning cause) d = (if owns token d then reading cause else over, d)
  end_step token (reading cause) d =
      let final = final_cause (is_set d.board.run.cancel_requested_at) cause in
      (
        if interrupted (is_set d.board.run.cancel_requested_at) final
            then over
            else after_read final,
        d,
      )
  end_step token (stopping cause) d = after_stop d (stop_run report cause d.board)
  end_step token marking d = (over, done_job token d)
  end_step token over d = (over, d)

  -- The statements in turn, each after what others do to the rows in between.
  unfoldable pub end_job : ℕ → List (Duty → Duty) → Phase → Duty → Phase × Duty
  end_job token [] phase d = (phase, d)
  end_job token (others ∷ rest) phase d =
      let next = end_step token phase (others d) in end_job token rest next.0 next.1

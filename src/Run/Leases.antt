-- ===== src/Run/Leases.antt =====
-- Who executes a job, and what is left of the run once its job is done.
use resume_platform.Shared.{
  ℕ, ◌+◌, ◌<◌, ◌≡◌, refl, ap, sym, subst, ◌∙◌, String, true, false, Option, none, some, List, [],
  ◌∷◌, ◌++◌, All, arith, ◌⊎◌, inl, inr, ◌==◌, Bool-cases, ok,
}
use resume_platform.Run.Progress.{Board, is_set}
use resume_platform.Run.Summary.{Cause, failure_info, stop_run}
use resume_platform.Run.Stopped.{IsStopped, stop_run-IsStopped}
use resume_platform.Run.Jobs.{
  JobStatus, Job, Duty, Phase, owning, reading, stopping, marking, over, can_claim, claimable,
  claimed_job, claim_job, owns, final_cause, interrupted, done_job, end_step, end_job,
}

-- A job that is pending, or that runs under a lease that is over.
pub data IsFree (now : ℕ) : JobStatus → Option ℕ → Type 0 where
  waits : (lease : Option ℕ) → IsFree now JobStatus.pending lease
  lapsed : (t : ℕ) → t < now → IsFree now JobStatus.running (some t)

can_claim-IsFree :
    (now : ℕ) (s : JobStatus) (l : Option ℕ) → can_claim now s l ≡ true → IsFree now s l
can_claim-IsFree now JobStatus.pending l h = waits l
can_claim-IsFree now JobStatus.running none h = absurd (ground arith)
can_claim-IsFree now JobStatus.running (some t) h = lapsed t (ground arith)
can_claim-IsFree now JobStatus.done l h = absurd (ground arith)

IsFree-can_claim :
    (now : ℕ) (s : JobStatus) (l : Option ℕ) → IsFree now s l → can_claim now s l ≡ false → ⊥
IsFree-can_claim now s l (waits m) h = ground arith
IsFree-can_claim now s l (lapsed t k) h = ground arith

-- The first free job is claimed: it runs under the token for the next twenty seconds, and the
-- others stay.
pub record IsClaim (token now : ℕ) (jobs : List Job) (claimed : Option Job × List Job)
    : Type 0 where
  pub before : List Job
  pub job : Job
  pub after : List Job
  pub taken : Job
  pub split : jobs ≡ before ++ (job ∷ after)
  pub passed : All (λ (j : Job). IsFree now j.status j.lease_until → ⊥) before
  pub free : IsFree now job.status job.lease_until
  pub gives : claimed ≡ (some taken, before ++ (taken ∷ after))
  pub same : (taken.id ≡ job.id) × (taken.run_id ≡ job.run_id)
  pub running : taken.status ≡ JobStatus.running
  pub held : (taken.worker_token ≡ token) × (taken.lease_until ≡ some (now + 20))
  pub again : taken.attempts ≡ job.attempts + 1

-- A worker gets the first job that is pending or whose lease is over: the job runs under its token
-- for twenty seconds from now, and every other job stays as it is, so that a job under a live lease
-- keeps its worker. It gets none only where no job is pending and no lease is over, and then nothing
-- changes.
pub claim_job-IsClaim :
    (token now : ℕ) (jobs : List Job)
    → (All (λ (j : Job). IsFree now j.status j.lease_until → ⊥) jobs
        × (claim_job token now jobs ≡ (none, jobs)))
      ⊎ IsClaim token now jobs (claim_job token now jobs)
unfolding claim_job
claim_job-IsClaim token now [] = inl (tt, refl)
claim_job-IsClaim token now (j ∷ jobs) = elim (Bool-cases (claimable now j)) [
  | inl e ↦ inr (record {
    before = [];
    job = j;
    after = jobs;
    taken = claimed_job token now j;
    split = refl;
    passed = tt;
    free = can_claim-IsFree now j.status j.lease_until e;
    gives = rw e refl;
    same = (refl, refl);
    running = refl;
    held = (refl, refl);
    again = refl;
  })
  | inr e ↦
      let busy : IsFree now j.status j.lease_until → ⊥ =
        λ f. IsFree-can_claim now j.status j.lease_until f e in
      elim (claim_job-IsClaim token now jobs) [
        | inl (none_free, same) ↦ inl ((busy, none_free), rw e (rw same refl))
        | inr c ↦ inr (record {
          before = j ∷ c.before;
          job = c.job;
          after = c.after;
          taken = c.taken;
          split = ap (λ js. j ∷ js) c.split;
          passed = (busy, c.passed);
          free = c.free;
          gives = rw e (rw (c.gives) refl);
          same = c.same;
          running = c.running;
          held = c.held;
          again = c.again;
        })
      ]
]

-- What others do leaves the job to the worker that holds it.
abbrev pub Spares : (Duty → Duty) → Type 0
Spares others = (d : Duty) → (others d).job.worker_token ≡ d.job.worker_token

module _ (report : ℕ → ℕ → ℕ → ℕ → String) where
  end_job-step :
      (token : ℕ) (others : Duty → Duty) (rest : List (Duty → Duty)) (phase after : Phase)
      (d e : Duty)
      → end_step report token phase (others d) ≡ (after, e)
      → end_job report token (others ∷ rest) phase d ≡ end_job report token rest after e
  unfolding end_job
  end_job-step token others rest phase after d e h = ap (λ x. end_job report token rest x.0 x.1) h

  owns-step :
      (token : ℕ) (cause : Option Cause) (d : Duty)
      → owns token d ≡ true
      → end_step report token (owning cause) d ≡ (reading cause, d)
  unfolding end_step
  owns-step token cause d h = rw h refl

  reads-step :
      (token : ℕ) (cause : Option Cause) (final : Cause) (d : Duty)
      → final_cause (is_set d.board.run.cancel_requested_at) cause ≡ some final
      → interrupted (is_set d.board.run.cancel_requested_at) (some final) ≡ false
      → end_step report token (reading cause) d ≡ (stopping final, d)
  unfolding end_step
  reads-step token cause final d h i = rw h (rw i refl)

  stops-step :
      (token : ℕ) (final : Cause) (d : Duty) (b : Board)
      → stop_run report final d.board ≡ ok (tt, b)
      → end_step report token (stopping final) d ≡ (marking, record d { board = b })
  unfolding end_step
  stops-step token final d b h = rw h refl

  -- A worker whose execution failed, or whose run was asked to stop, and that holds the lease when it
  -- checks it: whatever others do to the rows between its statements, as long as they leave the job
  -- to it, it stops the run, with nothing of it open at that moment, and only then marks the job as
  -- done, which changes the job alone.
  pub end_job-settles :
      (token : ℕ) (first second third fourth : Duty → Duty) (cause : Option Cause) (final : Cause)
      (d : Duty)
      → Spares second
      → Spares third
      → Spares fourth
      → owns token (first d) ≡ true
      → final_cause (is_set (second (first d)).board.run.cancel_requested_at) cause ≡ some final
      → interrupted (is_set (second (first d)).board.run.cancel_requested_at) (some final) ≡ false
      → (stopped done : Duty) × IsStopped
          (failure_info final).1
          (third (second (first d))).board
          stopped.board
        × (end_job report token (first ∷ second ∷ third ∷ fourth ∷ []) (owning cause) d
            ≡ (over, done))
        × (done.job.status ≡ JobStatus.done)
        × (done.job.lease_until ≡ none)
        × (done.board ≡ (fourth stopped).board)
  unfolding end_job end_step
  end_job-settles token first second third fourth cause final d s2 s3 s4 own c i =
      let at = third (second (first d)) in
      let (b, h, stopped) = stop_run-IsStopped report final at.board in
      let left : Duty = record at { board = b } in
      let kept : (fourth left).job.worker_token ≡ (first d).job.worker_token =
        s4 left ∙ (s3 (second (first d)) ∙ s2 (first d)) in
      let mine : ((fourth left).job.worker_token == token) ≡ true =
        subst (λ n. (n == token) ≡ true) (sym kept) (ground arith) in
      (
        left,
        done_job token (fourth left),
        stopped,
        end_job-step token first (second ∷ third ∷ fourth ∷ []) (owning cause) (reading cause) d
              (first d) (owns-step token cause (first d) own)
            ∙ (end_job-step token second (third ∷ fourth ∷ []) (reading cause) (stopping final)
                  (first d) (second (first d)) (reads-step token cause final (second (first d)) c i)
                ∙ end_job-step token third (fourth ∷ []) (stopping final) marking (second (first d))
                    left (stops-step token final at b h)),
        rw mine refl,
        rw mine refl,
        refl,
      )

-- ===== src/Task/Commit.antt =====
-- `commitAllocation` and `recordAllocationPlan` of internal/platform/allocation_execute.go.
use Prim.Native.String.{◌++◌ as text_append}
use resume_platform.Shared.{
  ℕ, ◌+◌, String, Bool, not, ◌&&◌, ◌||◌, Option, none, some, List, [], ◌∷◌, any, length, Result, ok,
  err, api_error, task_error, ltb, leb, ◌==◌, str_eq, if_none, if◌then◌else◌,
}
use resume_platform.Allocation.Types.{
  Action, AllocationDecision, AllocationRequest, AllocationResponse,
}
use resume_platform.Allocation.Plan.Result.{validate_allocation_result}
use resume_platform.Candidate.Case.{
  Case, MemberStatus, Membership, Resume, Department, Attempt, Source, find_row, update_row,
}
use resume_platform.Candidate.Transaction.{Tx, pure, fail, gets, modify, refuse_when, ◌>>=◌, ◌>>◌}
use resume_platform.Candidate.Workflow.{AttemptValues, create_attempt}
use resume_platform.Task.{
  TaskStatus, WorkStatus, PlanStatus, Task, WorkItem, Plan, PoolMember, Desk, work_is, set_task,
  set_items, set_plans,
}
use resume_platform.Task.Queue.{Claim, owned_by, lock_lease, release_lease, allocation_revision}

-- A transaction on the rows of one candidate.
abbrev pub put_case : {A : Type 0} → ℕ → Desk → Result (A × Case) → Result (A × Desk)
put_case k d (err e) = err e
put_case k d (ok (a, c)) = ok (a, record d { cases = λ j. if j == k then c else d.cases j })

unfoldable pub on_case : {A : Type 0} → ℕ → Tx Case A → Tx Desk A
on_case k m d = put_case k d (m (d.cases k))

-- A row that has to be there.
abbrev pub found : {A : Type 0} → Option A → Tx Desk A
found none = fail (api_error 404 "未找到")
found (some a) = pure a

abbrev join_tags : List String → String
join_tags [] = ""
join_tags (t ∷ []) = t
join_tags (t ∷ u ∷ ts) = text_append t (text_append "、" (join_tags (u ∷ ts)))

abbrev plan_of : Claim → Plan → Bool
plan_of c p = p.task_id == c.task_id && p.generation == c.generation

abbrev find_plan : Claim → List Plan → Option Plan
find_plan c [] = none
find_plan c (p ∷ ps) = if plan_of c p then some p else find_plan c ps

-- `recordAllocationPlan`: one plan for each generation of a task.
unfoldable pub record_plan : Claim → String → PlanStatus → String → Desk → Desk
record_plan c hash status code d = if any (plan_of c) d.plans then d else record d {
  plans =
      record {
        id = length d.plans + 1;
        task_id = c.task_id;
        generation = c.generation;
        snapshot_hash = hash;
        status = status;
        validation_code = code;
      }
      ∷ d.plans;
}

abbrev ai_values : String → AttemptValues
ai_values reason = record {
  source = Source.ai;
  match_mode = "ai";
  match_reason = reason;
  manual_reason = "";
}

abbrev resume_id_of : Resume → ℕ
resume_id_of r = r.id

abbrev member_id_of : Membership → ℕ
member_id_of m = m.id

-- The writes on the candidate of an assignment: the attempt, and the membership with its event.
unfoldable pub assign_case : ℕ → PoolMember → Department → String → Tx Case Attempt
assign_case member m department reason = do
  resume ← gets (λ c. find_row resume_id_of m.resume_id c.resumes)
  attempt ←
      (if_none resume (fail (api_error 404 "未找到"))
        λ r. create_attempt (ai_values reason) r department)
  modify λ c. record c {
    members =
        update_row member_id_of member
          (λ (x : Membership). record x {
            status = MemberStatus.allocated;
            revision = x.revision + 1;
          })
          c.members;
    pool_events =
        record { member_id = member; kind = "allocated"; reason = reason } ∷ c.pool_events;
  }
  pure attempt

-- The branch of a decision that waits.
abbrev pub wait_items : Claim → AllocationDecision → Desk → Desk
wait_items c x d =
    set_items
      (λ (i : WorkItem).
        i.member_id == x.member_id
        && (owned_by c.task_id i.task_id && work_is i.status WorkStatus.leased))
      (λ i. record i { status = WorkStatus.waiting; reason_code = x.reason_code }) d

abbrev pub settle_items : ℕ → Desk → Desk
settle_items member d =
    set_items
      (λ (i : WorkItem).
        i.member_id == member
        && (work_is i.status WorkStatus.pending
            || (work_is i.status WorkStatus.leased || work_is i.status WorkStatus.waiting)))
      (λ i. record i { status = WorkStatus.assigned; reason_code = "allocated" }) d

abbrev without : ℕ → List ℕ → List ℕ
without m [] = []
without m (k ∷ ks) = if k == m then without m ks else k ∷ without m ks

-- The branch of a decision that assigns.
unfoldable pub assign_member : Plan → AllocationDecision → Tx Desk (Unit {0})
assign_member plan x = do
  row ← gets (λ d. d.members x.member_id)
  member ← found row
  place ← gets (λ d. d.demands x.demand_id)
  department ← found place
  let reason = text_append "归属内部用人需求；命中标签：" (join_tags x.matched_tags)
  attempt ← on_case member.candidate_id (assign_case x.member_id member department reason)
  modify λ d. record d {
    assignments =
        record {
          attempt_id = attempt.id;
          member_id = x.member_id;
          plan_id = plan.id;
          demand_id = x.demand_id;
          department_id = department.id;
          sequence = x.sequence;
        }
        ∷ d.assignments;
    pending_members = without x.member_id d.pending_members;
    changes = d.changes + d.draws;
  }
  modify (settle_items x.member_id)

abbrev pub apply_decision : Claim → Plan → AllocationDecision → Action → Tx Desk (Unit {0})
apply_decision c plan x Action.wait = modify (wait_items c x)
apply_decision c plan x Action.assign = assign_member plan x

-- The loop over the decisions; a simulation writes nothing.
unfoldable pub apply_decisions : Claim → Plan → List AllocationDecision → Tx Desk (Unit {0})
apply_decisions c plan [] = pure tt
apply_decisions c plan (x ∷ xs) = do
  if c.simulation then pure tt else apply_decision c plan x x.action
  apply_decisions c plan xs

-- `maxSequence` after the loop
abbrev assigned_sequence : AllocationDecision → Action → ℕ
assigned_sequence x Action.wait = 0
assigned_sequence x Action.assign = x.sequence

unfoldable pub max_sequence : List AllocationDecision → ℕ
max_sequence [] = 0
max_sequence (x ∷ xs) =
    let rest = max_sequence xs in
    if leb rest (assigned_sequence x x.action) then assigned_sequence x x.action else rest

-- `next_sequence=GREATEST(next_sequence,max+1),revision=revision+1`
abbrev pub raise_sequence : ℕ → Desk → Desk
raise_sequence top d =
    if ltb 0 top
    then record d {
      scope = record d.scope {
        next_sequence =
            if leb d.scope.next_sequence (top + 1) then top + 1 else d.scope.next_sequence;
        revision = d.scope.revision + 1;
      };
    }
    else d

abbrev pub finished : Task → Task
finished t = record t { status = TaskStatus.completed }

-- What `commitAllocation` asks at the commit: whether the creator of the task may still allocate in
-- the scope, the age of the snapshot in seconds, and the hash of a snapshot taken now.
pub record Check : Type 0 where
  pub authorized : Bool
  pub age : ℕ
  pub current_hash : String

-- The transaction of `commitAllocation`.
unfoldable pub commit_plan : Claim → Check → String → List AllocationDecision → Tx Desk (Unit {0})
commit_plan c check hash decisions = do
  lock_lease c
  refuse_when (not check.authorized) (api_error 403 "任务创建者已无当前分配范围权限")
  refuse_when (ltb 60 check.age) (task_error "allocation_snapshot_stale" "分配快照已过期")
  refuse_when (not (str_eq check.current_hash hash))
      (task_error "allocation_snapshot_stale" "分配期间资格、需求或供给已变化")
  row ← gets (λ d. find_plan c d.plans)
  plan ← found row
  apply_decisions c plan decisions
  modify (λ d.
      if c.simulation
      then set_items
          (λ (i : WorkItem). owned_by c.task_id i.task_id && work_is i.status WorkStatus.leased)
          (λ i. record i { status = WorkStatus.pending; task_id = none }) d
      else d)
  modify (raise_sequence (if c.simulation then 0 else max_sequence decisions))
  modify (λ d.
      set_items
        (λ (i : WorkItem). owned_by c.task_id i.task_id && work_is i.status WorkStatus.waiting)
        (λ i. record i { observed_revision = allocation_revision d }) d)
  modify (
      set_plans (λ (p : Plan). p.id == plan.id)
        (λ p. record p {
          status = if c.simulation then PlanStatus.simulated else PlanStatus.committed;
        }))
  modify (set_task c.task_id finished)
  modify (release_lease c.worker_token)

-- The parts of `commitAllocation`: the result is checked, the plan is recorded, and then the
-- transaction runs, whose failure leaves the recorded plan.
module _ (conforms : AllocationResponse → Bool) where
  abbrev after : Desk → Result (Unit {0} × Desk) → Desk × Result (Unit {0})
  after d (err e) = (d, err e)
  after d (ok (u, d')) = (d', ok tt)

  abbrev checked_commit :
      Claim
      → Check
      → AllocationRequest
      → AllocationResponse
      → Result (Unit {0})
      → Desk
      → Desk × Result (Unit {0})
  checked_commit c check request result (err e) d = (d, err e)
  checked_commit c check request result (ok u) d =
      let planned = record_plan c request.snapshot_hash PlanStatus.proposed "" d in
      after planned (commit_plan c check request.snapshot_hash result.decisions planned)

  unfoldable pub commit_allocation :
      Claim → Check → AllocationRequest → AllocationResponse → Desk → Desk × Result (Unit {0})
  commit_allocation c check request result d =
      checked_commit c check request result (validate_allocation_result conforms request result) d

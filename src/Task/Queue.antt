-- ===== src/Task/Queue.antt =====
-- `createAllocationTask`, `claimAllocation`, `lockAllocationLease`, `releaseAllocationLease` and
-- `finishAllocationFailure` of internal/platform/allocation_tasks.go.
use resume_platform.Shared.{
  ℕ, zero, suc, ◌+◌, String, Bool, true, false, not, ◌&&◌, ◌||◌, Option, none, some, List, [], ◌∷◌,
  ◌++◌, any, length, keep, api_error, task_error, bad, ltb, leb, ◌==◌, str_eq, text_len, if_none,
  if◌then◌else◌,
}
use resume_platform.Candidate.Transaction.{Tx, pure, fail, gets, modify, refuse_when, ◌>>=◌, ◌>>◌}
use resume_platform.Task.{
  TaskStatus, WorkStatus, PlanStatus, Task, WorkItem, Qualification, Desk, task_is, work_is,
  plan_is, set_tasks, set_task, set_items, set_plans, first_task,
}

-- `num` of a number that may be missing
abbrev pub num : Option ℕ → ℕ
num none = 0
num (some n) = n

abbrev pub is_simulation : Task → Bool
is_simulation t = str_eq t.mode "simulate"

-- `status IN ('pending','leased')`
abbrev pub active_work : WorkStatus → Bool
active_work s = work_is s WorkStatus.pending || work_is s WorkStatus.leased

-- The task with an idempotency key.
unfoldable pub find_key : String → Desk → Option ℕ
find_key key d = first_task d.tasks (λ t. str_eq t.idempotency_key key) d.next_task_id

-- The latest qualification of a member: `ORDER BY revision DESC LIMIT 1`.
abbrev later : ℕ → Qualification → Option Qualification → Option Qualification
later member q none = if q.member_id == member then some q else none
later member q (some r) =
    if q.member_id == member && leb r.revision q.revision then some q else some r

abbrev pub latest_qualification : ℕ → List Qualification → Option Qualification
latest_qualification member [] = none
latest_qualification member (q ∷ qs) = later member q (latest_qualification member qs)

-- The insertion of a work item: one active item for each qualification.
abbrev pub add_item : ℕ → ℕ → Option Qualification → Desk → Desk
add_item member task none d = d
add_item member task (some q) d =
    if any (λ (i : WorkItem). i.qualification_id == q.id && active_work i.status) d.items
    then d
    else record d {
      items =
          d.items
          ++ record {
            id = d.next_item_id;
            member_id = member;
            qualification_id = q.id;
            task_id = some task;
            status = WorkStatus.pending;
            reason_code = "";
            observed_revision = 0;
          }
            ∷ [];
      next_item_id = d.next_item_id + 1;
    }

abbrev pub add_items : ℕ → List ℕ → Desk → Desk
add_items task [] d = d
add_items task (m ∷ members) d =
    add_items task members (add_item m task (latest_qualification m d.qualifications) d)

abbrev is_member : ℕ → List ℕ → Bool
is_member m ids = any (λ k. k == m) ids

abbrev unowned : Option ℕ → Bool
unowned none = true
unowned (some k) = false

abbrev pub owned_by : ℕ → Option ℕ → Bool
owned_by task none = false
owned_by task (some k) = k == task

-- `UPDATE … SET task_id WHERE member_id=ANY($1) AND status='pending' AND task_id IS NULL`
abbrev pub own_items : ℕ → List ℕ → Desk → Desk
own_items task ids d =
    set_items
      (λ (i : WorkItem).
        is_member i.member_id ids && (work_is i.status WorkStatus.pending && unowned i.task_id))
      (λ i. record i { task_id = some task }) d

pub record Request : Type 0 where
  pub members : List ℕ
  pub mode : String
  pub key : String
  pub actor : Option ℕ
  pub automatic : Bool
  pub version : String

abbrev pub new_task : Request → String → String → Desk → Task
new_task r key hash d = record {
  scope_id = d.scope.id;
  mode = r.mode;
  status = TaskStatus.pending;
  generation = 1;
  idempotency_key = key;
  input_hash = hash;
  member_ids = r.members;
  worker_token = 0;
  error_code = "";
  created_by = r.actor;
  automatic = r.automatic;
  execution_version = r.version;
}

abbrev pub insert_task : Request → String → String → Desk → Desk
insert_task r key hash d =
    let id = d.next_task_id in
    let task = new_task r key hash d in
    record d { tasks = λ k. if k == id then some task else d.tasks k; next_task_id = suc id }

abbrev pub enqueued : Request → ℕ → Desk → Desk
enqueued r task d =
    if str_eq r.mode "simulate" then d else own_items task r.members (add_items task r.members d)

-- `fingerprint` of the scope, the members, the mode and the version is a parameter.
module _ (fingerprint : ℕ → List ℕ → String → String → String) where
  abbrev pub hash_of : Request → Desk → String
  hash_of r d = fingerprint d.scope.id r.members r.mode r.version

  -- The task that a repeated request gets, if it is the same request.
  abbrev pub reuse : Request → String → Option Task → ℕ → Tx Desk ℕ
  reuse r hash none k = fail (api_error 404 "未找到")
  reuse r hash (some t) k =
      if not (str_eq t.input_hash hash) || not (num t.created_by == num r.actor)
      then fail (api_error 409 "幂等键已用于不同请求")
      else pure k

  -- `createAllocationTask`; `fresh` is the random key of a request that brings none.
  unfoldable pub create_task : Request → String → Tx Desk ℕ
  create_task r fresh = do
    paused ← gets (λ d. d.scope.paused)
    refuse_when (paused && not (str_eq r.mode "simulate")) (api_error 409 "当前范围已暂停分配")
    refuse_when
        (length r.members == 0
          || (ltb 100 (length r.members)
              || not (str_eq r.mode "simulate" || str_eq r.mode "execute")))
        (bad "分配任务须包含 1 到 100 名候选人")
    let key = if str_eq r.key "" then fresh else r.key
    refuse_when (ltb 128 (text_len key)) (bad "幂等键过长")
    hash ← gets (hash_of r)
    existing ← gets (find_key key)
    if_none existing
        (do
          id ← gets (λ d. d.next_task_id)
          modify (insert_task r key hash)
          modify (enqueued r id)
          pure id)
        λ k. (do t ← gets (λ d. d.tasks k); reuse r hash t k)

-- `allocationRevision`
abbrev pub allocation_revision : Desk → ℕ
allocation_revision d = d.scope.revision + d.changes

-- `lease_until IS NULL OR lease_until < now()`
abbrev lease_over : ℕ → Option ℕ → Bool
lease_over now none = true
lease_over now (some t) = ltb t now

abbrev in_scope : Desk → Task → Bool
in_scope d t = t.scope_id == d.scope.id

-- A task of the scope that may be claimed.
abbrev pub claimable : Desk → Task → Bool
claimable d t =
    in_scope d t && (task_is t.status TaskStatus.pending && (not d.scope.paused || is_simulation t))

-- No later item of the same qualification.
abbrev is_last : List WorkItem → WorkItem → Bool
is_last items i =
    not (any (λ (j : WorkItem). j.qualification_id == i.qualification_id && ltb i.id j.id) items)

-- An item that a claim may wake or start: of a member that waits for allocation, the last of its
-- qualification, which is the member's newest, and pending or waiting for another revision.
abbrev ready_item : Desk → WorkItem → Bool
ready_item d i =
    is_member i.member_id d.pending_members
    && (is_last d.items i
        && (not (
              any (λ (q : Qualification). q.member_id == i.member_id && ltb i.qualification_id q.id)
                d.qualifications)
            && (work_is i.status WorkStatus.pending
                || (work_is i.status WorkStatus.waiting
                    && ltb i.observed_revision (allocation_revision d)))))

-- The condition under which `claimAllocation` picks the scope.
abbrev has_work : Desk → Bool
has_work d =
    (elim (first_task d.tasks
      (λ t.
        in_scope d t
        && ((task_is t.status TaskStatus.pending || task_is t.status TaskStatus.running)
            && (not d.scope.paused || is_simulation t)))
      d.next_task_id) [ none ↦ false | some k ↦ true ])
    || (not d.scope.paused && any (ready_item d) d.items)

-- A task whose worker's lease is over is claimed again, at most twice.
abbrev pub recovered : Task → Task
recovered t = record t {
  status = if leb 3 t.generation then TaskStatus.failed else TaskStatus.pending;
  error_code = "allocation_lease_expired";
  generation = t.generation + 1;
  worker_token = 0;
}

abbrev pub recover_tasks : Desk → Desk
recover_tasks d = set_tasks (λ t. in_scope d t && task_is t.status TaskStatus.running) recovered d

-- What becomes of a leased item, of its task.
abbrev released_item : Desk → WorkItem → Option Task → WorkItem
released_item d i none = i
released_item d i (some t) =
    if in_scope d t && task_is t.status TaskStatus.failed
    then record i { status = WorkStatus.failed }
    else if in_scope d t && task_is t.status TaskStatus.pending
    then record i { status = WorkStatus.pending }
    else i

abbrev pub recover_items : Desk → Desk
recover_items d =
    set_items (λ (i : WorkItem). work_is i.status WorkStatus.leased)
      (λ i. if_none i.task_id i λ k. released_item d i (d.tasks k)) d

-- Waiting items are woken where the inputs have changed.
abbrev pub wake_items : Desk → Desk
wake_items d =
    set_items
      (λ (i : WorkItem).
        work_is i.status WorkStatus.waiting
        && (ltb i.observed_revision (allocation_revision d)
            && (is_member i.member_id d.pending_members
                && (not (
                      any
                        (λ (j : WorkItem).
                          j.qualification_id == i.qualification_id && active_work j.status)
                        d.items)
                    && is_last d.items i))))
      (λ i. record i { status = WorkStatus.pending; task_id = none }) d

abbrev first_hundred : ℕ → List ℕ → List ℕ
first_hundred n [] = []
first_hundred zero (m ∷ ms) = []
first_hundred (suc n) (m ∷ ms) = m ∷ first_hundred n ms

-- The members of a task that a claim creates.
abbrev pub due_members : Desk → List ℕ
due_members d = first_hundred 100 (
    keep
      (λ m. any (λ (i : WorkItem). i.member_id == m && work_is i.status WorkStatus.pending) d.items)
      d.pending_members)

abbrev pub started : ℕ → Task → Task
started fence t = record t { status = TaskStatus.running; worker_token = fence; error_code = "" }

-- The claimed task runs under the fence, which the scope holds as its lease.
abbrev pub start_task : ℕ → ℕ → Desk → Desk
start_task fence k d =
    set_task k (started fence)
      (record d { scope = record d.scope { lease_token = fence; lease_until = some (d.now + 90) } })

abbrev pub lease_items : ℕ → Option Task → Desk → Desk
lease_items k none d = d
lease_items k (some t) d =
    if is_simulation t
    then d
    else set_items
        (λ (i : WorkItem).
          is_member i.member_id t.member_ids && work_is i.status WorkStatus.pending)
        (λ i. record i { status = WorkStatus.leased; task_id = some k }) d

-- The end of a claim, once there is a task.
unfoldable pub begin_task : ℕ → ℕ → Tx Desk (Option ℕ)
begin_task fence k = do
  modify (start_task fence k)
  modify (λ d. lease_items k (d.tasks k) d)
  pure (some k)

-- The request of a claim for the members that wait.
abbrev pub automatic_request : List ℕ → Request
automatic_request members = record {
  members = members;
  mode = "execute";
  key = "";
  actor = none;
  automatic = true;
  version = "v1";
}

module _ (fingerprint : ℕ → List ℕ → String → String → String) where
  -- `claimAllocation`, with a random fence and a random key for a new task. `none` stands for the
  -- 404 of a claim that finds nothing to do, after which the recovery is committed all the same.
  unfoldable pub claim : ℕ → String → Tx Desk (Option ℕ)
  claim fence fresh = do
    due ← gets (λ d. lease_over d.now d.scope.lease_until && has_work d)
    if not due then pure none else do
      modify recover_tasks
      modify recover_items
      found ← gets (λ d. first_task d.tasks (claimable d) d.next_task_id)
      paused ← gets (λ d. d.scope.paused)
      if_none found
          (if paused then pure none else do
            modify wake_items
            members ← gets due_members
            if length members == 0 then pure none else do
              k ← create_task fingerprint (automatic_request members) fresh
              begin_task fence k)
          λ k. begin_task fence k

-- What a worker holds of its claim: the task's identifier, generation and mode, and its token.
pub record Claim : Type 0 where
  pub task_id : ℕ
  pub generation : ℕ
  pub simulation : Bool
  pub worker_token : ℕ

abbrev lease_live : ℕ → Option ℕ → Bool
lease_live now none = false
lease_live now (some t) = ltb now t

abbrev pub held_scope : Claim → Desk → Bool
held_scope c d =
    (not d.scope.paused || c.simulation)
    && (d.scope.lease_token == c.worker_token && lease_live d.now d.scope.lease_until)

abbrev pub held_task : Claim → Option Task → Bool
held_task c none = false
held_task c (some t) =
    t.generation == c.generation
    && (task_is t.status TaskStatus.running && t.worker_token == c.worker_token)

-- `lockAllocationLease`
unfoldable pub lock_lease : Claim → Tx Desk (Unit {0})
lock_lease c = do
  held ← gets (held_scope c)
  refuse_when (not held) (task_error "allocation_lease_lost" "分配租约失效")
  running ← gets (λ d. held_task c (d.tasks c.task_id))
  refuse_when (not running) (task_error "allocation_lease_lost" "任务已取消或由新代次接管")

-- `releaseAllocationLease`
abbrev pub release_lease : ℕ → Desk → Desk
release_lease token d = record d {
  scope =
      if d.scope.lease_token == token
      then record d.scope { lease_token = 0; lease_until = none }
      else d.scope;
}

-- The task of a failure: a stale snapshot is tried again, at most twice.
abbrev again : String → Claim → Bool
again code c = str_eq code "allocation_snapshot_stale" && ltb c.generation 3

abbrev pub failed_task : String → Claim → Task → Task
failed_task code c t = record t {
  status = if again code c then TaskStatus.pending else TaskStatus.failed;
  error_code = code;
  generation = if again code c then c.generation + 1 else c.generation;
  worker_token = 0;
}

-- `finishAllocationFailure`, of the code of the failure
unfoldable pub finish_failure : Claim → String → Tx Desk (Unit {0})
finish_failure c code = do
  lock_lease c
  modify (set_task c.task_id (failed_task code c))
  modify (
      set_plans
        (λ p.
          p.task_id == c.task_id
          && (p.generation == c.generation && plan_is p.status PlanStatus.proposed))
        (λ p. record p {
          status =
              if str_eq code "allocation_snapshot_stale"
              then PlanStatus.stale
              else PlanStatus.invalid;
          validation_code = code;
        }))
  modify (
      set_items
        (λ (i : WorkItem). owned_by c.task_id i.task_id && work_is i.status WorkStatus.leased)
        (λ i. record i {
          status = if again code c then WorkStatus.pending else WorkStatus.failed;
          reason_code = code;
        }))
  modify (release_lease c.worker_token)

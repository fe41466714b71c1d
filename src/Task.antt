-- ===== src/Task.antt =====
-- The rows that the allocation tasks of one scope read and write: internal/platform/allocation_tasks.go,
-- allocation_execute.go and allocation_api.go. Every operation locks the row of the scope first. A
-- token is a number, and 0 stands for the empty one; so does an instant for a time.
pub mod Queue
pub mod Control
pub mod Commit
pub mod Sound
pub mod Elsewhere
pub mod Steps
pub mod Creation
pub mod Operations
pub mod Work
pub mod Claiming
pub mod History
pub mod Idempotence
pub mod Tests
use resume_platform.Shared.{
  ℕ, zero, suc, ◌+◌, ◌<◌, ◌≡◌, refl, String, Bool, true, false, not, ◌&&◌, ◌||◌, Option, none, some,
  List, [], ◌∷◌, any, ltb, ◌==◌, if_none, if◌then◌else◌, arith, Bool-cases, Option-cases, inl, inr,
}
use resume_platform.Candidate.Case.{Case, Department}

pub data TaskStatus : Type 0 where
  pending running completed failed cancelled : TaskStatus

pub data WorkStatus : Type 0 where
  pending leased assigned waiting failed cancelled : WorkStatus

pub data PlanStatus : Type 0 where
  proposed simulated committed stale invalid cancelled : PlanStatus

-- A row of `platform_allocation_scopes`.
pub record Scope : Type 0 where
  pub id : ℕ
  pub paused : Bool
  pub revision : ℕ
  pub epoch : ℕ
  pub next_sequence : ℕ
  pub lease_token : ℕ
  pub lease_until : Option ℕ

-- A row of `platform_allocation_tasks`, without its snapshot, pin and progress.
pub record Task : Type 0 where
  pub scope_id : ℕ
  pub mode : String
  pub status : TaskStatus
  pub generation : ℕ
  pub idempotency_key : String
  pub input_hash : String
  pub member_ids : List ℕ
  pub worker_token : ℕ
  pub error_code : String
  pub created_by : Option ℕ
  pub automatic : Bool
  pub execution_version : String

-- A row of `platform_allocation_work_items`.
pub record WorkItem : Type 0 where
  pub id : ℕ
  pub member_id : ℕ
  pub qualification_id : ℕ
  pub task_id : Option ℕ
  pub status : WorkStatus
  pub reason_code : String
  pub observed_revision : ℕ

-- A row of `platform_screening_qualifications`.
pub record Qualification : Type 0 where
  pub id : ℕ
  pub member_id : ℕ
  pub revision : ℕ

-- A row of `platform_allocation_plans`, without the result.
pub record Plan : Type 0 where
  pub id : ℕ
  pub task_id : ℕ
  pub generation : ℕ
  pub snapshot_hash : String
  pub status : PlanStatus
  pub validation_code : String

-- A row of `platform_assignment_targets` with the target kind `demand`.
pub record Assignment : Type 0 where
  pub attempt_id : ℕ
  pub member_id : ℕ
  pub plan_id : ℕ
  pub demand_id : ℕ
  pub department_id : ℕ
  pub sequence : ℕ

-- What an assignment reads of a membership and of a demand.
pub record PoolMember : Type 0 where
  pub candidate_id : ℕ
  pub resume_id : ℕ

-- The tasks of all scopes stand under their identifiers. `pending_members` are the members of the
-- scope that are pending_allocation, by creation and identifier, and `changes` is the largest
-- identifier of a change of the scope; `draws` is by how much it grows when the triggers log the rows
-- of one assignment, from a sequence that the scopes share. `cases` are the rows of each candidate, `members` the
-- memberships, and `demands` the departments of the demands.
pub record Desk : Type 0 where
  pub now : ℕ
  pub scope : Scope
  pub tasks : ℕ → Option Task
  pub next_task_id : ℕ
  pub items : List WorkItem
  pub next_item_id : ℕ
  pub plans : List Plan
  pub qualifications : List Qualification
  pub pending_members : List ℕ
  pub changes : ℕ
  pub draws : ℕ
  pub cases : ℕ → Case
  pub members : ℕ → Option PoolMember
  pub demands : ℕ → Option Department
  pub assignments : List Assignment

abbrev task_number : TaskStatus → ℕ
task_number TaskStatus.pending = 0
task_number TaskStatus.running = 1
task_number TaskStatus.completed = 2
task_number TaskStatus.failed = 3
task_number TaskStatus.cancelled = 4

abbrev pub task_is : TaskStatus → TaskStatus → Bool
task_is a b = task_number a == task_number b

abbrev work_number : WorkStatus → ℕ
work_number WorkStatus.pending = 0
work_number WorkStatus.leased = 1
work_number WorkStatus.assigned = 2
work_number WorkStatus.waiting = 3
work_number WorkStatus.failed = 4
work_number WorkStatus.cancelled = 5

abbrev pub work_is : WorkStatus → WorkStatus → Bool
work_is a b = work_number a == work_number b

abbrev plan_number : PlanStatus → ℕ
plan_number PlanStatus.proposed = 0
plan_number PlanStatus.simulated = 1
plan_number PlanStatus.committed = 2
plan_number PlanStatus.stale = 3
plan_number PlanStatus.invalid = 4
plan_number PlanStatus.cancelled = 5

abbrev pub plan_is : PlanStatus → PlanStatus → Bool
plan_is a b = plan_number a == plan_number b

-- The columns that an `UPDATE` of a table sets in the rows that it selects.
module _ {A : Type 0} (selects : A → Bool) (change : A → A) where
  abbrev pub set_where : List A → List A
  set_where [] = []
  set_where (x ∷ xs) = (if selects x then change x else x) ∷ set_where xs

-- The same on the table of tasks.
abbrev pub change_task : (Task → Bool) → (Task → Task) → Option Task → Option Task
change_task selects change none = none
change_task selects change (some t) = some (if selects t then change t else t)

abbrev pub set_tasks : (Task → Bool) → (Task → Task) → Desk → Desk
set_tasks selects change d = record d { tasks = λ k. change_task selects change (d.tasks k) }

-- `UPDATE platform_allocation_tasks … WHERE id=$1`
abbrev pub set_task : ℕ → (Task → Task) → Desk → Desk
set_task id change d = record d {
  tasks = λ k. if k == id then change_task (λ _. true) change (d.tasks k) else d.tasks k;
}

abbrev pub set_items : (WorkItem → Bool) → (WorkItem → WorkItem) → Desk → Desk
set_items selects change d = record d { items = set_where selects change d.items }

abbrev pub set_plans : (Plan → Bool) → (Plan → Plan) → Desk → Desk
set_plans selects change d = record d { plans = set_where selects change d.plans }

abbrev pub holds : (Task → Bool) → Option Task → Bool
holds p none = false
holds p (some t) = p t

-- The least identifier below a bound whose task passes a test: `ORDER BY id LIMIT 1`.
unfoldable pub first_task : (ℕ → Option Task) → (Task → Bool) → ℕ → Option ℕ
first_task tasks p zero = none
first_task tasks p (suc n) =
    if_none (first_task tasks p n) (if holds p (tasks n) then some n else none) λ k. some k

-- What the search finds passes the test.
pub first_task-holds :
    (tasks : ℕ → Option Task) (p : Task → Bool) (n k : ℕ)
    → first_task tasks p n ≡ some k
    → (t : Task) × (tasks k ≡ some t) × (p t ≡ true)
unfolding first_task
first_task-holds tasks p zero k h = cc
first_task-holds tasks p (suc n) k h = elim (Option-cases (first_task tasks p n)) [
  | inr (j, e) ↦ first_task-holds tasks p n k (ground arith)
  | inl e ↦ elim (Option-cases (tasks n)) [
    | inl q ↦ absurd (ground arith)
    | inr (t, q) ↦ elim (Bool-cases (p t)) [
      | inr r ↦ absurd (ground arith)
      | inl r ↦ let same : n ≡ k = ground arith in rw (← same) (t, q, r)
    ]
  ]
]

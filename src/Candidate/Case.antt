-- ===== src/Candidate/Case.antt =====
-- The rows that belong to one candidate. Every operation locks the candidate first
-- (`lockWorkflow` of internal/platform/processing.go) and reads and writes these rows only, so one
-- case is the state of each operation. An instant is a natural number.
use resume_platform.Shared.{
  ℕ, String, ◌≡◌, Bool, true, false, Option, none, some, List, [], ◌∷◌, arith, ◌==◌, if◌then◌else◌,
}

-- The thirteen values of `platform_applications.status`.
pub data Status : Type 0 where
  pending assessing blocked pending_review pending_allocation needs_reanalysis : Status
  pending_dispatch department_review cancelled : Status
  ai_rejected department_rejected review_rejected passed : Status

abbrev status_number : Status → ℕ
status_number Status.pending = 0
status_number Status.assessing = 1
status_number Status.blocked = 2
status_number Status.pending_review = 3
status_number Status.pending_allocation = 4
status_number Status.needs_reanalysis = 5
status_number Status.pending_dispatch = 6
status_number Status.department_review = 7
status_number Status.cancelled = 8
status_number Status.ai_rejected = 9
status_number Status.department_rejected = 10
status_number Status.review_rejected = 11
status_number Status.passed = 12

abbrev pub status_eq : Status → Status → Bool
status_eq a b = status_number a == status_number b

-- `closedApplication`
abbrev pub closed_application : Status → Bool
closed_application Status.ai_rejected = true
closed_application Status.department_rejected = true
closed_application Status.review_rejected = true
closed_application Status.passed = true
closed_application _ = false

-- A row of `platform_applications`.
pub record Application : Type 0 where
  pub resume_id : ℕ
  pub status : Status
  pub reason : String
  pub updated_at : ℕ
  pub completed_at : Option ℕ

-- A row of `platform_application_events`, without its free-form payload.
pub record ApplicationEvent : Type 0 where
  pub resume_id : ℕ
  pub from_status : Status
  pub to_status : Status
  pub reason : String

pub data WorkflowStatus : Type 0 where
  pending in_progress passed archived waiting_next talent_pool : WorkflowStatus

-- The columns of `core_candidateworkflow` that the operations read or write.
pub record Workflow : Type 0 where
  pub status : WorkflowStatus
  pub current_resume_id : Option ℕ
  pub current_rank : Option ℕ
  pub dispatch_strategy : String
  pub archive_reason : String
  pub archive_detail : String
  pub block_reason : String
  pub block_detail : String
  pub passed_attempt_id : Option ℕ
  pub started_at : Option ℕ
  pub completed_at : Option ℕ
  pub revision : ℕ
  pub active_processing_scope_item_id : Option ℕ
  pub active_processing_token : Option ℕ
  pub active_processing_expires_at : Option ℕ

pub record Resume : Type 0 where
  pub id : ℕ
  pub volunteer_rank : Option ℕ
  pub apply_id : String
  pub position_name : String

pub data MemberStatus : Type 0 where
  pending_review pending_allocation allocated needs_reanalysis closed rejected : MemberStatus

-- A row of `platform_pool_memberships`.
pub record Membership : Type 0 where
  pub id : ℕ
  pub resume_id : ℕ
  pub status : MemberStatus
  pub revision : ℕ

pub record PoolEvent : Type 0 where
  pub member_id : ℕ
  pub kind : String
  pub reason : String

pub data AttemptStatus : Type 0 where
  pending_review pending_dispatch dispatched passed rejected cancelled : AttemptStatus

pub data Source : Type 0 where
  rule ai manual : Source

pub record Department : Type 0 where
  pub id : ℕ
  pub level : ℕ
  pub name : String

-- The columns of `core_assignmentattempt` that the operations read or write.
pub record Attempt : Type 0 where
  pub id : ℕ
  pub resume_id : ℕ
  pub attempt_no : ℕ
  pub source : Source
  pub match_mode : String
  pub match_reason : String
  pub manual_reason : String
  pub status : AttemptStatus
  pub initial_department_id : ℕ
  pub current_department_id : ℕ
  pub assigned_screener_id : Option ℕ
  pub screener_assigned_at : Option ℕ
  pub dispatched_at : Option ℕ
  pub feedback_result : String
  pub feedback_reason_code : String
  pub feedback_note : String
  pub feedback_at : Option ℕ
  pub cancel_reason : String
  pub cancelled_at : Option ℕ

-- A row of `core_assignmenthandlingevent`.
pub record HandlingEvent : Type 0 where
  pub attempt_id : ℕ
  pub event_type : String
  pub from_department_id : Option ℕ
  pub to_department_id : Option ℕ
  pub note : String

-- A row of `platform_assignment_targets` with the target kind `department_only`.
pub record Target : Type 0 where
  pub attempt_id : ℕ
  pub department_id : ℕ
  pub department_name : String

-- Logs list the newest row first, and attempts too. `now` is the clock of the transaction.
pub record Case : Type 0 where
  pub now : ℕ
  pub workflow : Workflow
  pub resumes : List Resume
  pub applications : List Application
  pub application_events : List ApplicationEvent
  pub members : List Membership
  pub pool_events : List PoolEvent
  pub attempts : List Attempt
  pub handling_events : List HandlingEvent
  pub targets : List Target
  pub departments : List Department
  pub next_attempt_id : ℕ

-- `status IN ('pending_review','pending_dispatch','dispatched')`
abbrev pub open_attempt : AttemptStatus → Bool
open_attempt AttemptStatus.pending_review = true
open_attempt AttemptStatus.pending_dispatch = true
open_attempt AttemptStatus.dispatched = true
open_attempt _ = false

-- The statuses that the unique index `platform_one_effective_attempt` ranges over.
abbrev pub effective_attempt : AttemptStatus → Bool
effective_attempt AttemptStatus.passed = true
effective_attempt s = open_attempt s

-- `status IN ('pending_review','pending_allocation','allocated','needs_reanalysis')`
abbrev pub active_member : MemberStatus → Bool
active_member MemberStatus.closed = false
active_member MemberStatus.rejected = false
active_member _ = true

module _ {A : Type 0} (key : A → ℕ) where
  -- The row with this key; keys are unique in each table.
  unfoldable pub find_row : ℕ → List A → Option A
  find_row k [] = none
  find_row k (x ∷ xs) = if key x == k then some x else find_row k xs

  -- `UPDATE … WHERE key=$1`
  unfoldable pub update_row : ℕ → (A → A) → List A → List A
  update_row k f [] = []
  update_row k f (x ∷ xs) = if key x == k then f x ∷ xs else x ∷ update_row k f xs

  pub find_row-update_row :
      (k j : ℕ) (f : A → A) (xs : List A)
      → ((x : A) → key (f x) ≡ key x)
      → find_row j (update_row k f xs) ≡ (
          if k == j
          then (elim (find_row j xs) [ none ↦ none | some x ↦ some (f x) ])
          else find_row j xs)
  unfolding find_row update_row
  find_row-update_row k j f [] h = ground arith
  find_row-update_row k j f (x ∷ xs) h = ground (arith, h x, find_row-update_row k j f xs h)

  pub key-find_row : (k : ℕ) (xs : List A) (x : A) → find_row k xs ≡ some x → key x ≡ k
  unfolding find_row
  key-find_row k [] x h = cc
  key-find_row k (y ∷ ys) x h = ground (arith, key-find_row k ys x)

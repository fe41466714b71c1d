-- ===== src/Allocation/Types.antt =====
-- internal/contract/allocation_types.go: the frozen snapshot, the request and the response.
-- Identifiers, revisions and counts are not negative and are natural numbers; an instant is the
-- number of its microseconds, the precision of the text form that the snapshot carries.
use resume_platform.Shared.{ℕ, String, Bool, List, ℤ}

pub record AllocationPin : Type 0 where
  pub pin_id : String
  pub kernel_build : String
  pub protocol_version : String
  pub result_schema_version : String
  pub toolset_version : String
  pub policy_version : String
  pub instruction_version : String

pub record AllocationTag : Type 0 where
  pub code : String
  pub status : String
  pub confidence_bps : ℕ
  pub source : String
  pub assertion_ref : String
  pub verified : Bool

pub record AllocationMember : Type 0 where
  pub member_id : ℕ
  pub candidate_ref : String
  pub application_ref : String
  pub qualification_ref : String
  pub qualification_revision : ℕ
  pub member_revision : ℕ
  pub workflow_revision : ℕ
  pub source_revision : ℕ
  pub standard_ref : String
  pub standard_hash : String
  pub tags_hash : String
  pub admitted : Bool
  pub created_at : ℕ
  pub tags : List AllocationTag
  pub allowed_demand_ids : List ℕ
  pub counted_demand_ids : List ℕ

pub record AllocationDemand : Type 0 where
  pub demand_id : ℕ
  pub department_ref : String
  pub revision : ℕ
  pub reception_state : String
  pub required_tags : List String
  pub preferred_tags : List String
  pub priority : ℕ
  pub recent_supply_count : ℕ
  pub last_allocation_sequence : ℕ

pub record AllocationSnapshot : Type 0 where
  pub snapshot_id : String
  pub snapshot_at : ℕ
  pub scope_ref : String
  pub entity_ref : String
  pub pool_ref : String
  pub scope_revision : ℕ
  pub policy_revision : ℕ
  pub epoch : ℕ
  pub next_sequence : ℕ
  pub window_seconds : ℕ
  pub members : List AllocationMember
  pub demands : List AllocationDemand

pub record AllocationBudget : Type 0 where
  pub max_duration_seconds : ℕ
  pub max_tool_calls : ℕ

pub record AllocationRequest : Type 0 where
  pub protocol_version : String
  pub task_kind : String
  pub execution_mode : String
  pub task_id : String
  pub idempotency_key : String
  pub pin : AllocationPin
  pub snapshot_hash : String
  pub snapshot : AllocationSnapshot
  pub budget : AllocationBudget

-- The two values that the field `action` takes.
pub data Action : Type 0 where
  wait assign : Action

pub record AllocationDecision : Type 0 where
  pub member_id : ℕ
  pub qualification_ref : String
  pub action : Action
  pub demand_id : ℕ
  pub department_ref : String
  pub matched_tags : List String
  pub assertion_refs : List String
  pub order : List ℤ
  pub sequence : ℕ
  pub reason_code : String

pub record AllocationTrace : Type 0 where
  pub tool_names : List String
  pub tool_call_count : ℕ
  pub duration_ms : ℕ
  pub reused : Bool

pub record AllocationResponse : Type 0 where
  pub protocol_version : String
  pub result_schema_version : String
  pub task_id : String
  pub idempotency_key : String
  pub pin : AllocationPin
  pub snapshot_hash : String
  pub terminal_state : String
  pub decisions : List AllocationDecision
  pub safe_trace : AllocationTrace

-- ===== src/Allocation/Plan/Result/Tests.antt =====
-- A snapshot with two members and two demands, its plan, and the theorems about plans at it.
use mathlib.Core.List.Perm
use resume_platform.Shared.Int.{lex_less}
use resume_platform.Shared.{
  ℕ, ◌≡◌, refl, sym, ap, ◌∙◌, true, false, List, [], ◌∷◌, All, inl, inr, ok, pos, arith,
}
use resume_platform.Allocation.Types.{
  AllocationPin, AllocationTag, AllocationMember, AllocationDemand, AllocationSnapshot,
  AllocationRequest, AllocationResponse, AllocationDecision, wait, assign,
}
use resume_platform.Allocation.Plan.{
  starting, sort_members, member_before, insert_member, expected_allocation, usable, tag_map,
  add_key, match_required, match_preferred, insert_string, sort_strings, recent_supply,
  last_sequence, order_of, assignment, compete, consider, choose, waiting, decide, charge, allocate,
}
use resume_platform.Allocation.Plan.Order.{Identified, expected_allocation-perm}
use resume_platform.Allocation.Plan.Soundness.{
  Justified, Numbered, Planned, expected_allocation-Justified, expected_allocation-Numbered,
  expected_allocation-Planned,
}
use resume_platform.Allocation.Plan.Result.{
  list_eq, action_eq, decision_eq, pin_eq, validate_allocation_result,
  validate_allocation_result_sound,
}

abbrev tag_go : AllocationTag
tag_go = record {
  code = "go";
  status = "supported";
  confidence_bps = 9000;
  source = "ai";
  assertion_ref = "assertion-1";
  verified = true;
}

abbrev tag_sql : AllocationTag
tag_sql = record {
  code = "sql";
  status = "supported";
  confidence_bps = 7000;
  source = "ai";
  assertion_ref = "assertion-2";
  verified = true;
}

abbrev member : ℕ → ℕ → List AllocationTag → AllocationMember
member id created tags = record {
  member_id = id;
  candidate_ref = "candidate";
  application_ref = "application";
  qualification_ref = "qualification";
  qualification_revision = 1;
  member_revision = 1;
  workflow_revision = 1;
  source_revision = 1;
  standard_ref = "standard";
  standard_hash = "";
  tags_hash = "";
  admitted = true;
  created_at = created;
  tags = tags;
  allowed_demand_ids = 7 ∷ 8 ∷ [];
  counted_demand_ids = [];
}

abbrev demand : ℕ → ℕ → AllocationDemand
demand id priority = record {
  demand_id = id;
  department_ref = "department";
  revision = 1;
  reception_state = "receiving";
  required_tags = "go" ∷ [];
  preferred_tags = [];
  priority = priority;
  recent_supply_count = 0;
  last_allocation_sequence = 0;
}

abbrev later : AllocationMember
later = member 1 20 (tag_go ∷ [])

abbrev earlier : AllocationMember
earlier = member 2 10 (tag_sql ∷ [])

abbrev two_members : AllocationSnapshot
two_members = record {
  snapshot_id = "snapshot";
  snapshot_at = 30;
  scope_ref = "scope";
  entity_ref = "GW";
  pool_ref = "pool";
  scope_revision = 1;
  policy_revision = 1;
  epoch = 1;
  next_sequence = 5;
  window_seconds = 3600;
  members = later ∷ earlier ∷ [];
  demands = demand 7 2 ∷ demand 8 1 ∷ [];
}

abbrev waits : AllocationDecision
waits = record {
  member_id = 2;
  qualification_ref = "qualification";
  action = wait;
  demand_id = 0;
  department_ref = "";
  matched_tags = [];
  assertion_refs = [];
  order = [];
  sequence = 0;
  reason_code = "required_tags_unavailable";
}

abbrev assigned : AllocationDecision
assigned = record {
  member_id = 1;
  qualification_ref = "qualification";
  action = assign;
  demand_id = 8;
  department_ref = "department";
  matched_tags = "go" ∷ [];
  assertion_refs = "assertion-1" ∷ [];
  order = pos 0 ∷ pos 1 ∷ pos 0 ∷ pos 0 ∷ pos 8 ∷ [];
  sequence = 5;
  reason_code = "allocated";
}

plan_of_two_members : expected_allocation two_members ≡ (waits ∷ assigned ∷ [])
unfolding starting sort_members member_before insert_member expected_allocation usable tag_map
    add_key match_required match_preferred insert_string sort_strings recent_supply last_sequence
    order_of assignment compete consider choose waiting decide charge allocate lex_less
plan_of_two_members = refl

abbrev pin : AllocationPin
pin = record {
  pin_id = "pin";
  kernel_build = "build";
  protocol_version = "resume-allocation/v1";
  result_schema_version = "resume-allocation-plan/v1";
  toolset_version = "1";
  policy_version = "allocation-order/v1";
  instruction_version = "1";
}

abbrev request : AllocationRequest
request = record {
  protocol_version = "resume-allocation/v1";
  task_kind = "allocation";
  execution_mode = "plan";
  task_id = "task";
  idempotency_key = "key";
  pin = pin;
  snapshot_hash = "hash";
  snapshot = two_members;
  budget = record { max_duration_seconds = 60; max_tool_calls = 10 };
}

abbrev response : AllocationResponse
response = record {
  protocol_version = "resume-allocation/v1";
  result_schema_version = "resume-allocation-plan/v1";
  task_id = "task";
  idempotency_key = "key";
  pin = pin;
  snapshot_hash = "hash";
  terminal_state = "DONE";
  decisions = waits ∷ assigned ∷ [];
  safe_trace = record { tool_names = []; tool_call_count = 0; duration_ms = 5; reused = false };
}

response_accepted : validate_allocation_result (λ _. true) request response ≡ ok tt
unfolding starting sort_members member_before insert_member expected_allocation usable tag_map
    add_key match_required match_preferred insert_string sort_strings recent_supply last_sequence
    order_of assignment compete consider choose waiting decide charge allocate lex_less
    validate_allocation_result list_eq action_eq decision_eq pin_eq
response_accepted = refl

validate_allocation_result_sound_example :
    (true ≡ true)
    × ((response.task_id ≡ request.task_id)
        × ((response.idempotency_key ≡ request.idempotency_key)
            × ((response.snapshot_hash ≡ request.snapshot_hash)
                × ((response.pin ≡ request.pin)
                    × ((response.terminal_state ≡ "DONE")
                        × (response.decisions ≡ expected_allocation two_members))))))
validate_allocation_result_sound_example =
    validate_allocation_result_sound (λ _. true) request response response_accepted

expected_allocation-Planned_example :
    Planned two_members.demands
      (starting two_members)
      (sort_members two_members.members)
      (expected_allocation two_members)
expected_allocation-Planned_example = expected_allocation-Planned two_members

expected_allocation-Justified_example :
    All
      (λ r. r.action ≡ assign → Justified two_members.members two_members.demands r)
      (expected_allocation two_members)
expected_allocation-Justified_example = expected_allocation-Justified two_members

expected_allocation-Numbered_example : Numbered 5 (expected_allocation two_members)
expected_allocation-Numbered_example = expected_allocation-Numbered two_members

two_members-Identified : Identified two_members.members
two_members-Identified a b (inl p) (inl q) e = sym p ∙ q
two_members-Identified a b (inl p) (inr (inl q)) e =
    absurd (omega (arith, ap AllocationMember.member_id p, ap AllocationMember.member_id q, e))
two_members-Identified a b (inr (inl p)) (inl q) e =
    absurd (omega (arith, ap AllocationMember.member_id p, ap AllocationMember.member_id q, e))
two_members-Identified a b (inr (inl p)) (inr (inl q)) e = sym p ∙ q
two_members-Identified a b (inl p) (inr (inr x)) e = elim x [ ]
two_members-Identified a b (inr (inl p)) (inr (inr x)) e = elim x [ ]
two_members-Identified a b (inr (inr x)) _ e = elim x [ ]

expected_allocation-perm_example :
    expected_allocation (record two_members { members = earlier ∷ later ∷ [] })
    ≡ expected_allocation two_members
expected_allocation-perm_example =
    expected_allocation-perm two_members (earlier ∷ later ∷ []) two_members-Identified
      (Perm.swap earlier later [])

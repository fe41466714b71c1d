-- ===== src/Allocation/Plan/Result.antt =====
-- `validateAllocationResult` of internal/platform/allocation_policy.go.
pub mod Tests
use resume_platform.Shared.{
  ℕ, String, ◌≡◌, refl, ap, Bool, true, false, not, ◌&&◌, List, [], ◌∷◌, All, ℤ, int_eq,
  int_eq_sound, &&-eq-true, Result, ok, err, Failure, task_error, ◌>>=◌, ◌>>◌, refuse_if, arith,
  ◌==◌, ==_iff, str_eq, eq_iff, if◌then◌else◌,
}
use resume_platform.Allocation.Types.{
  AllocationPin, AllocationSnapshot, AllocationDecision, AllocationRequest, AllocationResponse,
  Action, wait, assign,
}
use resume_platform.Allocation.Plan.{expected_allocation}

-- `reflect.DeepEqual`, at the types that the check compares.
module _ {A : Type 0} (eq : A → A → Bool) where
  pub list_eq : List A → List A → Bool
  list_eq [] [] = true
  list_eq (x ∷ xs) (y ∷ ys) = eq x y && list_eq xs ys
  list_eq _ _ = false

pub action_eq : Action → Action → Bool
action_eq wait wait = true
action_eq assign assign = true
action_eq _ _ = false

pub decision_eq : AllocationDecision → AllocationDecision → Bool
decision_eq a b =
    a.member_id == b.member_id
    && (str_eq a.qualification_ref b.qualification_ref
        && (action_eq a.action b.action
            && (a.demand_id == b.demand_id
                && (str_eq a.department_ref b.department_ref
                    && (list_eq str_eq a.matched_tags b.matched_tags
                        && (list_eq str_eq a.assertion_refs b.assertion_refs
                            && (list_eq int_eq a.order b.order
                                && (a.sequence == b.sequence
                                    && str_eq a.reason_code b.reason_code))))))))

pub pin_eq : AllocationPin → AllocationPin → Bool
pin_eq a b =
    str_eq a.pin_id b.pin_id
    && (str_eq a.kernel_build b.kernel_build
        && (str_eq a.protocol_version b.protocol_version
            && (str_eq a.result_schema_version b.result_schema_version
                && (str_eq a.toolset_version b.toolset_version
                    && (str_eq a.policy_version b.policy_version
                        && str_eq a.instruction_version b.instruction_version)))))

-- `conforms` is the check against the JSON schema `allocation.response`, which the contract bundle
-- defines.
module _ (conforms : AllocationResponse → Bool) where
  pub validate_allocation_result : AllocationRequest → AllocationResponse → Result (Unit {0})
  validate_allocation_result request result = do
    refuse_if (not (conforms result)) (task_error "allocation_output_invalid" "分配结果协议无效")
    refuse_if
        (not (
          str_eq result.task_id request.task_id
          && (str_eq result.idempotency_key request.idempotency_key
              && (str_eq result.snapshot_hash request.snapshot_hash
                  && (pin_eq result.pin request.pin && str_eq result.terminal_state "DONE")))))
        (task_error "allocation_output_invalid" "分配结果与冻结任务不一致")
    refuse_if (not (list_eq decision_eq (expected_allocation request.snapshot) result.decisions))
        (task_error "allocation_output_invalid" "分配方案未通过平台独立优先级复算")

module _ {A : Type 0} (eq : A → A → Bool) (sound : (a b : A) → eq a b ≡ true → a ≡ b) where
  list_eq_sound : (xs ys : List A) → list_eq eq xs ys ≡ true → xs ≡ ys
  unfolding list_eq
  list_eq_sound [] [] h = refl
  list_eq_sound [] (y ∷ ys) h = cc
  list_eq_sound (x ∷ xs) [] h = cc
  list_eq_sound (x ∷ xs) (y ∷ ys) h =
      let (p, q) = &&-eq-true (eq x y) (list_eq eq xs ys) h in
      cc (sound x y p, list_eq_sound xs ys q)

action_eq_sound : (a b : Action) → action_eq a b ≡ true → a ≡ b
unfolding action_eq
action_eq_sound a b h = ground arith

strings_eq_sound : (xs ys : List String) → list_eq str_eq xs ys ≡ true → xs ≡ ys
strings_eq_sound = list_eq_sound str_eq (λ a b. (eq_iff a b).0)

decision_eq_sound : (a b : AllocationDecision) → decision_eq a b ≡ true → a ≡ b
unfolding decision_eq
decision_eq_sound a b h = ground (
  arith,
  eq_iff a.qualification_ref b.qualification_ref,
  action_eq_sound a.action b.action,
  eq_iff a.department_ref b.department_ref,
  strings_eq_sound a.matched_tags b.matched_tags,
  strings_eq_sound a.assertion_refs b.assertion_refs,
  list_eq_sound int_eq int_eq_sound a.order b.order,
  eq_iff a.reason_code b.reason_code,
)

pin_eq_sound : (a b : AllocationPin) → pin_eq a b ≡ true → a ≡ b
unfolding pin_eq
pin_eq_sound a b h = ground (
  arith,
  eq_iff a.pin_id b.pin_id,
  eq_iff a.kernel_build b.kernel_build,
  eq_iff a.protocol_version b.protocol_version,
  eq_iff a.result_schema_version b.result_schema_version,
  eq_iff a.toolset_version b.toolset_version,
  eq_iff a.policy_version b.policy_version,
  eq_iff a.instruction_version b.instruction_version,
)

module _ (conforms : AllocationResponse → Bool) where
  -- A result that the platform accepts conforms to the schema and answers this very request: its
  -- task, key, snapshot and pin are the request's, it is done, and its decisions are exactly the
  -- plan that the platform computes itself from the request's snapshot.
  pub validate_allocation_result_sound :
      (request : AllocationRequest) (result : AllocationResponse)
      → validate_allocation_result conforms request result ≡ ok tt
      → (conforms result ≡ true)
        × ((result.task_id ≡ request.task_id)
            × ((result.idempotency_key ≡ request.idempotency_key)
                × ((result.snapshot_hash ≡ request.snapshot_hash)
                    × ((result.pin ≡ request.pin)
                        × ((result.terminal_state ≡ "DONE")
                            × (result.decisions ≡ expected_allocation request.snapshot))))))
  unfolding validate_allocation_result
  validate_allocation_result_sound request result h = ground (
    arith,
    eq_iff result.task_id request.task_id,
    eq_iff result.idempotency_key request.idempotency_key,
    eq_iff result.snapshot_hash request.snapshot_hash,
    eq_iff result.terminal_state "DONE",
    pin_eq_sound result.pin request.pin,
    list_eq_sound decision_eq decision_eq_sound (expected_allocation request.snapshot)
        result.decisions,
  )

-- ===== src/Candidate/Retention.antt =====
-- `retainApplicationWork` of internal/platform/applications.go: whether a run leaves a candidate as
-- it is, with the code and the message of its outcome. `force` is `forceReprocess`.
use resume_platform.Shared.{
  String, ◌≡◌, Bool, true, false, not, ◌&&◌, Option, none, some, any, ok, arith, Bool-cases, inl,
  inr, if◌then◌else◌,
}
use resume_platform.Candidate.Case.{
  Case, WorkflowStatus, Attempt, Membership, MemberStatus, effective_attempt,
}
use resume_platform.Candidate.Transaction.{Tx, pure, gets, ◌>>=◌, ◌>>◌}
use resume_platform.Candidate.Workflow.{invalidate_workflow}

-- `passed` and `talent_pool`, and `archived` unless it is forced.
abbrev is_over : Bool → WorkflowStatus → Bool
is_over force WorkflowStatus.passed = true
is_over force WorkflowStatus.talent_pool = true
is_over force WorkflowStatus.archived = not force
is_over force _ = false

abbrev awaits_allocation : MemberStatus → Bool
awaits_allocation MemberStatus.pending_allocation = true
awaits_allocation _ = false

abbrev pub has_effective_attempt : Case → Bool
has_effective_attempt c = any (λ (a : Attempt). effective_attempt a.status) c.attempts

abbrev has_waiting_member : Case → Bool
has_waiting_member c = any (λ (m : Membership). awaits_allocation m.status) c.members

unfoldable pub retain_application_work : Bool → Tx Case (Option (String × String))
retain_application_work force = do
  over ← gets (λ c. is_over force c.workflow.status)
  active ← gets has_effective_attempt
  waiting ← gets has_waiting_member
  if over
      then pure (some ("terminal_workflow", "流程已结束，已保留现有结果"))
      else if active
      then pure (some ("awaiting_department", "候选人已有分配或部门处理记录，保留当前流程"))
      else if waiting && not force
      then (do invalidate_workflow; pure (some ("allocation_queued", "筛选资格已保留，等待独立分配")))
      else pure none

-- A candidate with an open or a passed attempt is left as it is, forced or not: the run gets an
-- outcome, and no row changes.
retain_application_work-effective :
    (force : Bool) (c : Case)
    → has_effective_attempt c ≡ true
    → (outcome : String × String) × (retain_application_work force c ≡ ok (some outcome, c))
unfolding retain_application_work ◌>>=◌
retain_application_work-effective force c h = elim (Bool-cases (is_over force c.workflow.status)) [
  | inl e ↦ (("terminal_workflow", "流程已结束，已保留现有结果"), ground arith)
  | inr e ↦ (("awaiting_department", "候选人已有分配或部门处理记录，保留当前流程"), ground arith)
]

-- ===== src/Candidate/Workflow/Action/Accounting.antt =====
-- Every action on an attempt accounts for the applications of the case.
use resume_platform.Shared.{ℕ, String, refl, Option, none, some}
use resume_platform.Candidate.Case.{Attempt}
use resume_platform.Candidate.Transaction.Rules.{Relates}
use resume_platform.Candidate.Application.Audit.{Accounts}
use resume_platform.Candidate.Application.Accounting.{
  ok_fail, ok_modify, accounting, wait_after_department_rejection-Accounts,
}
use resume_platform.Candidate.Workflow.Action.{
  Rights, Action, dispatch_welink, transfer, review, cancel_attempt, feedback, other, Screener,
  pass_workflow, assign_screener, transfer_department, give_feedback, decide_action,
  settle_feedback, settle_state, settle_cancellation, settle, mutate_attempt, transfer_to_manual,
}
use resume_platform.Candidate.Workflow.Accounting.{
  require-Accounts, archive_workflow-Accounts, invalidate_workflow-Accounts, add_event-Accounts,
  save_attempt-Accounts, receiving_department-Accounts, cancel_open_attempts-Accounts,
  manual_assign-Accounts,
}

assign_screener-Accounts :
    (at : Attempt) (o : Option Screener) (note : String)
    → Relates Accounts (assign_screener at o note)
unfolding assign_screener
assign_screener-Accounts at none note = ok_fail _
assign_screener-Accounts at (some s) note = search accounting

transfer_department-Accounts :
    (rights : Rights) (at : Attempt) (target : ℕ) (note : String)
    → Relates Accounts (transfer_department rights at target note)
unfolding transfer_department
transfer_department-Accounts rights at target note =
    search (accounting, require-Accounts, receiving_department-Accounts) depth 16

give_feedback-Accounts :
    (rights : Rights) (at : Attempt) (result reason note : String)
    → Relates Accounts (give_feedback rights at result reason note)
unfolding give_feedback
give_feedback-Accounts rights at result reason note = search accounting depth 12

decide_action-Accounts :
    (rights : Rights) (at : Attempt) (action : Action)
    → Relates Accounts (decide_action rights at action)
unfolding decide_action
decide_action-Accounts rights at (dispatch_welink note) = search accounting depth 12
decide_action-Accounts rights at (transfer s d note) =
    search (accounting, assign_screener-Accounts, transfer_department-Accounts) depth 12
decide_action-Accounts rights at review = ok_fail _
decide_action-Accounts rights at (cancel_attempt reason) = search accounting depth 12
decide_action-Accounts rights at (feedback result reason note) =
    search (accounting, give_feedback-Accounts) depth 12
decide_action-Accounts rights at other = ok_fail _

pass_workflow-Accounts : (id : ℕ) → Relates Accounts (pass_workflow id)
unfolding pass_workflow
pass_workflow-Accounts id = ok_modify _ (λ c. refl) (λ c. refl)

settle_feedback-Accounts :
    (rights : Rights) (at : Attempt) → Relates Accounts (settle_feedback rights at)
unfolding settle_feedback
settle_feedback-Accounts rights at =
    search
      (
        accounting, pass_workflow-Accounts, cancel_open_attempts-Accounts,
        wait_after_department_rejection-Accounts,
      )
      depth 12

settle-Accounts :
    (rights : Rights) (action : Action) (at : Attempt) (note : String)
    → Relates Accounts (settle rights action at note)
unfolding settle settle_state settle_cancellation
settle-Accounts rights action at note =
    search (accounting, settle_feedback-Accounts, archive_workflow-Accounts) depth 12

pub mutate_attempt-Accounts :
    (rights : Rights) (initial : Attempt) (action : Action)
    → Relates Accounts (mutate_attempt rights initial action)
unfolding mutate_attempt
mutate_attempt-Accounts rights initial action =
    search
      (
        accounting, require-Accounts, decide_action-Accounts, invalidate_workflow-Accounts,
        save_attempt-Accounts, add_event-Accounts, settle-Accounts,
      )
      depth 30

pub transfer_to_manual-Accounts :
    (rights : Rights) (initial : Attempt) (target : ℕ) (reason : String)
    → Relates Accounts (transfer_to_manual rights initial target reason)
unfolding transfer_to_manual
transfer_to_manual-Accounts rights initial target reason =
    search (accounting, manual_assign-Accounts) depth 8

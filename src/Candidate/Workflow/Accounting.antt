-- ===== src/Candidate/Workflow/Accounting.antt =====
-- Every operation of the workflow accounts for the applications of the case.
use resume_platform.Shared.{ℕ, String, refl, Option, none, some, List, [], ◌∷◌}
use resume_platform.Candidate.Case.{Resume, Department, Attempt, Source}
use resume_platform.Candidate.Transaction.Rules.{Relates}
use resume_platform.Candidate.Application.Audit.{Accounts}
use resume_platform.Candidate.Application.Accounting.{
  ok_pure, ok_fail, ok_gets, ok_refuse, ok_bind, ok_modify, accounting,
  close_pool_memberships-Accounts, require_open_application-Accounts,
}
use resume_platform.Candidate.Workflow.{
  AttemptValues, require, touch_workflow, archive_workflow, invalidate_workflow, add_event,
  save_attempt, cancel_each, cancel_open_attempts, receiving_department, insert_attempt,
  insert_target, set_strategy, create_attempt, manual_assign,
}

pub require-Accounts : {A : Type 0} (o : Option A) → Relates Accounts (require o)
unfolding require
require-Accounts none = ok_fail _
require-Accounts (some a) = ok_pure a

touch_workflow-Accounts : (resume : Resume) → Relates Accounts (touch_workflow resume)
unfolding touch_workflow
touch_workflow-Accounts resume =
    ok_bind _ _ (close_pool_memberships-Accounts _ _) (λ _. ok_modify _ (λ c. refl) (λ c. refl))

pub archive_workflow-Accounts :
    (reason detail : String) → Relates Accounts (archive_workflow reason detail)
unfolding archive_workflow
archive_workflow-Accounts reason detail =
    ok_bind _ _ (close_pool_memberships-Accounts _ _) (λ _. ok_modify _ (λ c. refl) (λ c. refl))

pub invalidate_workflow-Accounts : Relates Accounts invalidate_workflow
unfolding invalidate_workflow
invalidate_workflow-Accounts = ok_modify _ (λ c. refl) (λ c. refl)

pub add_event-Accounts :
    (id : ℕ) (kind : String) (from to : Option ℕ) (note : String)
    → Relates Accounts (add_event id kind from to note)
unfolding add_event
add_event-Accounts id kind from to note = ok_modify _ (λ c. refl) (λ c. refl)

pub save_attempt-Accounts : (id : ℕ) (f : Attempt → Attempt) → Relates Accounts (save_attempt id f)
unfolding save_attempt
save_attempt-Accounts id f = ok_modify _ (λ c. refl) (λ c. refl)

insert_target-Accounts :
    (at : Attempt) (target : Department) → Relates Accounts (insert_target at target)
unfolding insert_target
insert_target-Accounts at target = ok_modify _ (λ c. refl) (λ c. refl)

set_strategy-Accounts : (mode : String) → Relates Accounts (set_strategy mode)
unfolding set_strategy
set_strategy-Accounts mode = ok_modify _ (λ c. refl) (λ c. refl)

insert_attempt-Accounts : (at : Attempt) → Relates Accounts (insert_attempt at)
unfolding insert_attempt
insert_attempt-Accounts at =
    ok_bind _ _ (ok_gets _)
      (λ taken. ok_bind _ _ (ok_refuse _ _) (λ _. ok_modify _ (λ c. refl) (λ c. refl)))

pub receiving_department-Accounts :
    (target : Department) → Relates Accounts (receiving_department target)
unfolding receiving_department
receiving_department-Accounts target = search accounting

cancel_each-Accounts :
    (reason : String) (attempts : List Attempt) → Relates Accounts (cancel_each reason attempts)
unfolding cancel_each
cancel_each-Accounts reason [] = ok_pure tt
cancel_each-Accounts reason (at ∷ rest) =
    let later = cancel_each-Accounts reason rest in
    search (accounting, save_attempt-Accounts, add_event-Accounts) depth 12

pub cancel_open_attempts-Accounts :
    (reason : String) (sources : List Source)
    → Relates Accounts (cancel_open_attempts reason sources)
unfolding cancel_open_attempts
cancel_open_attempts-Accounts reason sources = search (accounting, cancel_each-Accounts)

pub create_attempt-Accounts :
    (values : AttemptValues) (resume : Resume) (target : Department)
    → Relates Accounts (create_attempt values resume target)
unfolding create_attempt
create_attempt-Accounts values resume target =
    search
      (
        accounting, require_open_application-Accounts, receiving_department-Accounts,
        insert_attempt-Accounts, insert_target-Accounts, add_event-Accounts,
        touch_workflow-Accounts, set_strategy-Accounts,
      )
      depth 20

pub manual_assign-Accounts :
    (r target : ℕ) (reason : String) → Relates Accounts (manual_assign r target reason)
unfolding manual_assign
manual_assign-Accounts r target reason =
    search
      (
        accounting, require-Accounts, receiving_department-Accounts, invalidate_workflow-Accounts,
        cancel_open_attempts-Accounts, close_pool_memberships-Accounts, create_attempt-Accounts,
      )
      depth 24

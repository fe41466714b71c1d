-- ===== src/Candidate/History.antt =====
-- What holds along every history of a case: operations that commit, and changes by others of the
-- rows that are not applications, in any order. An operation that fails writes nothing.
use resume_platform.Shared.{ℕ, String, ◌≡◌, true, some, ok}
use resume_platform.Candidate.Case.{
  Case, Status, Application, Resume, Department, Attempt, closed_application, find_row,
}
use resume_platform.Candidate.Application.{
  application_key, application_state, talent_pool, wait_after_department_rejection,
}
use resume_platform.Candidate.Application.Audit.{
  Audited, Accounts, Accounts-preorder, Accounts-elsewhere, application_state-Accounts,
}
use resume_platform.Candidate.Application.Accounting.{
  talent_pool-Accounts, wait_after_department_rejection-Accounts,
}
use resume_platform.Candidate.Workflow.{AttemptValues, create_attempt, manual_assign}
use resume_platform.Candidate.Workflow.Accounting.{create_attempt-Accounts, manual_assign-Accounts}
use resume_platform.Candidate.Workflow.Action.{Rights, Action, mutate_attempt, transfer_to_manual}
use resume_platform.Candidate.Workflow.Action.Accounting.{
  mutate_attempt-Accounts, transfer_to_manual-Accounts,
}

pub data Step (c c' : Case) : Type 0 where
  state :
      (r : ℕ) (s : Status) (reason : String) (u : Unit {0})
      → application_state r s reason c ≡ ok (u, c')
      → Step c c'
  pool : (u : Unit {0}) → talent_pool c ≡ ok (u, c') → Step c c'
  rejected : (u : Unit {0}) → wait_after_department_rejection c ≡ ok (u, c') → Step c c'
  create :
      (values : AttemptValues) (resume : Resume) (target : Department) (a : Attempt)
      → create_attempt values resume target c ≡ ok (a, c')
      → Step c c'
  assign :
      (r target : ℕ) (reason : String) (a : Attempt)
      → manual_assign r target reason c ≡ ok (a, c')
      → Step c c'
  mutate :
      (rights : Rights) (initial : Attempt) (action : Action) (a : Attempt)
      → mutate_attempt rights initial action c ≡ ok (a, c')
      → Step c c'
  reassign :
      (rights : Rights) (initial : Attempt) (target : ℕ) (reason : String) (a : Attempt)
      → transfer_to_manual rights initial target reason c ≡ ok (a, c')
      → Step c c'
  elsewhere :
      c'.applications ≡ c.applications → c'.application_events ≡ c.application_events → Step c c'

pub data History (c : Case) : Case → Type 0 where
  start : History c c
  then : {d e : Case} → History c d → Step d e → History c e

Step-Accounts : (c c' : Case) → Step c c' → Accounts c c'
Step-Accounts c c' (state r s reason u h) = (application_state-Accounts r s reason).at c c' u h
Step-Accounts c c' (pool u h) = talent_pool-Accounts.at c c' u h
Step-Accounts c c' (rejected u h) = wait_after_department_rejection-Accounts.at c c' u h
Step-Accounts c c' (create v r t a h) = (create_attempt-Accounts v r t).at c c' a h
Step-Accounts c c' (assign r t why a h) = (manual_assign-Accounts r t why).at c c' a h
Step-Accounts c c' (mutate rights i x a h) = (mutate_attempt-Accounts rights i x).at c c' a h
Step-Accounts c c' (reassign rights i t why a h) =
    (transfer_to_manual-Accounts rights i t why).at c c' a h
Step-Accounts c c' (elsewhere p q) = Accounts-elsewhere c c' p q

History-Accounts : {c c' : Case} → History c c' → Accounts c c'
History-Accounts {c} start = Accounts-preorder.stay c
History-Accounts {c} (then {d} {e} h s) =
    Accounts-preorder.chain c d e (History-Accounts h) (Step-Accounts d e s)

-- If the log of a case accounts for every status, it does so after any history: each application
-- has the status of its latest event, each event starts from the status that the log had for its
-- resume, and no event leaves a closed status.
pub History-Audited : {c c' : Case} → History c c' → Audited c → Audited c'
History-Audited h = (History-Accounts h).audited

-- A closed application keeps its whole row, status, reason and times, along any history.
pub History-closed :
    {c c' : Case} (k : ℕ) (a : Application)
    → History c c'
    → find_row application_key k c.applications ≡ some a
    → closed_application a.status ≡ true
    → find_row application_key k c'.applications ≡ some a
History-closed k a h = (History-Accounts h).retained k a

-- ===== src/Candidate/Application/Accounting.antt =====
-- Every operation of internal/platform/applications.go accounts for the applications of the case.
use resume_platform.Shared.{ℕ, String, ◌≡◌, refl, Bool, Option, if◌then◌else◌, Failure}
use resume_platform.Candidate.Case.{Case}
use resume_platform.Candidate.Transaction.{Tx, pure, fail, gets, modify, refuse_when, ◌>>=◌}
use resume_platform.Candidate.Transaction.Rules.{
  Relates, Relates-pure, Relates-fail, Relates-gets, Relates-if, Relates-modify,
  Relates-refuse_when, Relates-bind,
}
use resume_platform.Candidate.Application.{
  require_open_application, close_pool_memberships, wait_for_next_application, enter_talent_pool,
  talent_pool, wait_after_department_rejection,
}
use resume_platform.Candidate.Application.Audit.{
  Accounts, Accounts-preorder, Accounts-elsewhere, application_state-Accounts,
}

-- The rules at the relation `Accounts`.
pub ok_pure : {A : Type 0} (a : A) → Relates Accounts (pure a)
ok_pure = Relates-pure Accounts-preorder

pub ok_fail : {A : Type 0} (e : Failure) → Relates Accounts (fail {A = A} e)
ok_fail = Relates-fail Accounts-preorder

pub ok_gets : {A : Type 0} (f : Case → A) → Relates Accounts (gets f)
ok_gets = Relates-gets Accounts-preorder

pub ok_refuse : (b : Bool) (e : Failure) → Relates Accounts (refuse_when b e)
ok_refuse = Relates-refuse_when Accounts-preorder

pub ok_bind :
    {A B : Type 0} (m : Tx Case A) (f : A → Tx Case B)
    → Relates Accounts m
    → ((a : A) → Relates Accounts (f a))
    → Relates Accounts (m >>= f)
ok_bind = Relates-bind Accounts-preorder

pub ok_if :
    {A : Type 0} (b : Bool) (m n : Tx Case A)
    → Relates Accounts m
    → Relates Accounts n
    → Relates Accounts (if b then m else n)
ok_if b m n km kn = Relates-if Accounts-preorder b m n (λ _. km) (λ _. kn)

pub ruleset accounting =
    (ok_pure, ok_fail, ok_gets, ok_refuse, ok_bind, ok_if, application_state-Accounts)

pub ok_modify :
    (f : Case → Case)
    → ((c : Case) → (f c).applications ≡ c.applications)
    → ((c : Case) → (f c).application_events ≡ c.application_events)
    → Relates Accounts (modify f)
ok_modify f p q = Relates-modify f (λ c. Accounts-elsewhere c (f c) (p c) (q c))

pub close_pool_memberships-Accounts :
    (except : Option ℕ) (reason : String) → Relates Accounts (close_pool_memberships except reason)
unfolding close_pool_memberships
close_pool_memberships-Accounts except reason = ok_modify _ (λ c. refl) (λ c. refl)

wait_for_next_application-Accounts : Relates Accounts wait_for_next_application
unfolding wait_for_next_application
wait_for_next_application-Accounts = ok_modify _ (λ c. refl) (λ c. refl)

enter_talent_pool-Accounts : Relates Accounts enter_talent_pool
unfolding enter_talent_pool
enter_talent_pool-Accounts = ok_modify _ (λ c. refl) (λ c. refl)

pub require_open_application-Accounts : (r : ℕ) → Relates Accounts (require_open_application r)
unfolding require_open_application
require_open_application-Accounts r = search accounting

pub talent_pool-Accounts : Relates Accounts talent_pool
unfolding talent_pool
talent_pool-Accounts = search (
  accounting, close_pool_memberships-Accounts, wait_for_next_application-Accounts,
  enter_talent_pool-Accounts,
)

pub wait_after_department_rejection-Accounts : Relates Accounts wait_after_department_rejection
unfolding wait_after_department_rejection
wait_after_department_rejection-Accounts = search (
  accounting, close_pool_memberships-Accounts, wait_for_next_application-Accounts,
  talent_pool-Accounts,
)

-- ===== src/Task/History.antt =====
-- What holds along every history of the tasks of a scope: operations that commit, by users and by
-- workers that may be late, in any order, and writes of others to other rows. An operation that
-- fails writes nothing.
use resume_platform.Shared.{
  ℕ, ◌<◌, ◌≡◌, ◌≢◌, refl, sym, ◌∙◌, inl, inr, String, Bool, Option, some, List, ok, err, task_error,
  arith, Bool-cases,
}
use resume_platform.Allocation.Types.{AllocationDecision}
use resume_platform.Candidate.Transaction.{◌>>=◌}
use resume_platform.Task.{TaskStatus, Task, Desk}
use resume_platform.Task.Queue.{
  Request, Claim, create_task, claim, held_scope, lock_lease, finish_failure,
}
use resume_platform.Task.Control.{Caller, cancel_task, retry_task, pause_scope}
use resume_platform.Task.Commit.{Check, commit_plan}
use resume_platform.Task.Sound.{IsSound, Follows}
use resume_platform.Task.Elsewhere.{Elsewhere}
use resume_platform.Task.Steps.{Fresh, moved-Follows}
use resume_platform.Task.Operations.{
  KeyFree, create_task-Follows, retry_task-Follows, pause_scope-Follows, cancel_task-Follows,
}
use resume_platform.Task.Work.{finish_failure-Follows, commit_plan-Follows}
use resume_platform.Task.Claiming.{claim-Follows}

module _ (fingerprint : ℕ → List ℕ → String → String → String) (Allowed : ℕ → Type 0) where
  -- One operation that commits. A claim takes a random fence and key: no task holds them yet.
  pub data Step (d d' : Desk) : Type 0 where
    creates :
        (r : Request) (fresh : String) (k : ℕ)
        → create_task fingerprint r fresh d ≡ ok (k, d')
        → Step d d'
    retries :
        (caller : Caller) (key : String) (task k : ℕ)
        → retry_task fingerprint caller key task d ≡ ok (k, d')
        → Step d d'
    cancels :
        (caller : Caller) (task : ℕ) (u : Unit {0})
        → cancel_task caller task d ≡ ok (u, d')
        → Step d d'
    pauses :
        (paused : Bool) (mode reason : String) (expected : ℕ) (u : Unit {0})
        → pause_scope paused mode reason expected d ≡ ok (u, d')
        → Step d d'
    claims :
        (fence : ℕ) (fresh : String) (k : Option ℕ)
        → 0 < fence
        → Allowed fence
        → Fresh fence d
        → KeyFree fresh d
        → claim fingerprint fence fresh d ≡ ok (k, d')
        → Step d d'
    fails :
        (c : Claim) (code : String) (u : Unit {0})
        → finish_failure c code d ≡ ok (u, d')
        → Step d d'
    commits :
        (c : Claim) (check : Check) (hash : String) (xs : List AllocationDecision) (u : Unit {0})
        → commit_plan c check hash xs d ≡ ok (u, d')
        → Step d d'
    others : Elsewhere d d' → Step d d'

  pub data History (d : Desk) : Desk → Type 0 where
    start : History d d
    then : {e f : Desk} → History d e → Step e f → History d f

  Step-Follows : (d₀ d d' : Desk) → Follows Allowed d₀ d → Step d d' → Follows Allowed d₀ d'
  Step-Follows d₀ d d' s (creates r fresh k h) =
      (create_task-Follows Allowed d₀ fingerprint r fresh).at d d' k s h
  Step-Follows d₀ d d' s (retries caller key task k h) =
      (retry_task-Follows Allowed d₀ fingerprint caller key task).at d d' k s h
  Step-Follows d₀ d d' s (cancels caller task u h) =
      (cancel_task-Follows Allowed d₀ caller task).at d d' u s h
  Step-Follows d₀ d d' s (pauses paused mode reason expected u h) =
      (pause_scope-Follows Allowed d₀ paused mode reason expected).at d d' u s h
  Step-Follows d₀ d d' s (claims fence fresh k pos allowed new free h) =
      (claim-Follows Allowed d₀ fence fingerprint fresh pos allowed).at d d' k (s, new, free) h
  Step-Follows d₀ d d' s (fails c code u h) =
      (finish_failure-Follows Allowed d₀ c code).at d d' u s h
  Step-Follows d₀ d d' s (commits c check hash xs u h) =
      (commit_plan-Follows Allowed d₀ c check hash xs).at d d' u s h
  Step-Follows d₀ d d' s (others e) = moved-Follows Allowed d₀ d d' e s

  History-Follows : {d d' : Desk} → IsSound d → History d d' → Follows Allowed d d'
  History-Follows {d} s start = record {
    sound = s;
    scope_id = refl;
    done = λ k t p q. p;
    lease = inl refl;
  }
  History-Follows {d} s (then {e} {f} h step) = Step-Follows d e f (History-Follows s h) step

  -- After any history of a sound desk: a running task of the scope holds the token of the scope's
  -- lease, no two tasks hold the same token, so that at most one task of the scope runs; no task has
  -- passed its fourth generation, and one that may still run is in its third at most.
  pub History-IsSound : {d d' : Desk} → IsSound d → History d d' → IsSound d'
  History-IsSound s h = (History-Follows s h).sound

  -- A completed task keeps its whole row along any history: it is not run, failed or cancelled again.
  pub History-completed :
      {d d' : Desk} (k : ℕ) (t : Task)
      → IsSound d
      → History d d'
      → d.tasks k ≡ some t
      → t.status ≡ TaskStatus.completed
      → d'.tasks k ≡ some t
  History-completed k t s h p q = (History-Follows s h).done k t p q

lock_lease-lost :
    (c : Claim) (d : Desk)
    → d.scope.lease_token ≢ c.worker_token
    → lock_lease c d ≡ err (task_error "allocation_lease_lost" "分配租约失效")
unfolding lock_lease ◌>>=◌
lock_lease-lost c d lost = elim (Bool-cases (held_scope c d)) [
  | inl e ↦ absurd (lost (ground arith))
  | inr e ↦ rw e refl
]

refused_commit :
    (c : Claim) (check : Check) (hash : String) (decisions : List AllocationDecision) (d : Desk)
    → lock_lease c d ≡ err (task_error "allocation_lease_lost" "分配租约失效")
    → commit_plan c check hash decisions d ≡ err (task_error "allocation_lease_lost" "分配租约失效")
unfolding commit_plan ◌>>=◌
refused_commit c check hash decisions d h = rw h refl

refused_failure :
    (c : Claim) (code : String) (d : Desk)
    → lock_lease c d ≡ err (task_error "allocation_lease_lost" "分配租约失效")
    → finish_failure c code d ≡ err (task_error "allocation_lease_lost" "分配租约失效")
unfolding finish_failure ◌>>=◌
refused_failure c code d h = rw h refl

-- A worker that has lost its lease never gets it back: if the scope's lease is not under its token,
-- then after any history in which no other claim draws the same token its commit is refused, and so
-- is its report of a failure.
pub commit_plan-lost :
    (fingerprint : ℕ → List ℕ → String → String → String) (c : Claim) {d d' : Desk}
    → IsSound d
    → 0 < c.worker_token
    → d.scope.lease_token ≢ c.worker_token
    → History fingerprint (λ fence. fence ≢ c.worker_token) d d'
    → (check : Check) (hash code : String) (decisions : List AllocationDecision)
    → (commit_plan c check hash decisions d' ≡ err (task_error "allocation_lease_lost" "分配租约失效"))
      × (finish_failure c code d' ≡ err (task_error "allocation_lease_lost" "分配租约失效"))
commit_plan-lost fingerprint c {d} {d'} s pos lost h check hash code decisions =
    let now = History-Follows fingerprint (λ fence. fence ≢ c.worker_token) s h in
    let gone : d'.scope.lease_token ≢ c.worker_token = λ q. elim now.lease [
      | inl e ↦ lost (sym e ∙ q)
      | inr (inl e) ↦ absurd (omega (arith, pos, e, q))
      | inr (inr other) ↦ other q
    ] in
    let refused = lock_lease-lost c d' gone in
    (refused_commit c check hash decisions d' refused, refused_failure c code d' refused)

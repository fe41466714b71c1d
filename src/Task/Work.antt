-- ===== src/Task/Work.antt =====
-- What the workers do to the tasks keeps to `Follows`.
use resume_platform.Shared.{
  ℕ, ◌≡◌, refl, ap, ◌∙◌, subst, inl, inr, String, true, Option, none, some, List, arith,
}
use resume_platform.Allocation.Types.{AllocationDecision}
use resume_platform.Candidate.Transaction.Triples.{
  Triple, Triple-pure, Triple-fail, Triple-refuse, Triple-gets, Triple-bind, Triple-modify,
  Triple-of-relation, Triple-after,
}
use resume_platform.Task.{TaskStatus, Task, Plan, Desk, set_task}
use resume_platform.Task.Queue.{Claim, held_task, lock_lease, failed_task, finish_failure}
use resume_platform.Task.Commit.{Check, commit_plan, found, finished}
use resume_platform.Task.Sound.{Calm, Follows}
use resume_platform.Task.Elsewhere.{
  Elsewhere, raise_sequence-Elsewhere, apply_decisions-Elsewhere, Elsewhere-if,
}
use resume_platform.Task.Steps.{NotHeld, moved-Follows, release-Follows, stop-Follows}
use resume_platform.Task.Operations.{Fine, quiet_moved, held_task-inverse, lock_lease-Triple}

module _ (Allowed : ℕ → Type 0) (d₀ : Desk) where
  -- The desk is fine, and the claim's task runs under the claim's token.
  Held : Claim → Desk → Type 0
  Held c d = Follows Allowed d₀ d × (held_task c (d.tasks c.task_id) ≡ true)

  lock-Held : (c : Claim) → Triple (Fine Allowed d₀) (lock_lease c) (λ _ d. Held c d)
  unfolding Held
  lock-Held c = Triple-after _ (lock_lease-Triple Allowed d₀ c) λ _ d p. (p.0, p.2)

  -- The end of the claim's task: it does not run any more, and the claim's token is not held.
  stop-Held :
      (c : Claim) (change : Task → Task)
      → ((t : Task)
          → t.generation ≡ c.generation
          → t.status ≡ TaskStatus.running
          → Calm t (change t) × ((change t).status ≡ TaskStatus.running → ⊥))
      → (d : Desk) → Held c d
      → Follows Allowed d₀ (set_task c.task_id change d)
        × NotHeld c.worker_token (set_task c.task_id change d)
  unfolding Held
  stop-Held c change calm d (s, h) =
      let (t, p, g, r, e) = held_task-inverse Allowed d₀ c (d.tasks c.task_id) h in
      let stopped =
        stop-Follows Allowed d₀ c.task_id change d t p (calm t g r).0 (calm t g r).1 s in
      (stopped.0, subst (λ token. NotHeld token (set_task c.task_id change d)) e stopped.1)

  failed-Calm :
      (code : String) (c : Claim) (t : Task)
      → t.generation ≡ c.generation
      → t.status ≡ TaskStatus.running
      → Calm t (failed_task code c t) × ((failed_task code c t).status ≡ TaskStatus.running → ⊥)
  failed-Calm code c t g r = (
    record {
      same_scope = refl;
      token = inr refl;
      stays = λ q. absurd (ground arith);
      bound = λ a b. ground arith;
      final = λ q. absurd (cc);
    },
    λ q. absurd (ground arith),
  )

  pub finish_failure-Follows :
      (c : Claim) (code : String)
      → Triple (Fine Allowed d₀) (finish_failure c code) (λ _ d. Fine Allowed d₀ d)
  unfolding finish_failure
  finish_failure-Follows c code = Triple-bind _ _ (lock-Held c) λ _.
      Triple-bind {R = λ _ d. Fine Allowed d₀ d × NotHeld c.worker_token d} _ _
        (Triple-modify _ λ d h. stop-Held c (failed_task code c) (failed-Calm code c) d h)
        λ _.
          Triple-bind _ _
            (quiet_moved Allowed d₀ c.worker_token _ (λ d. refl) (λ d. refl) (λ d. refl))
            λ _.
              Triple-bind _ _
                (quiet_moved Allowed d₀ c.worker_token _ (λ d. refl) (λ d. refl) (λ d. refl))
                λ _. Triple-modify _ λ d (s, q). release-Follows Allowed d₀ c.worker_token d s q

  Held-Elsewhere : (c : Claim) (d d' : Desk) → Elsewhere d d' → Held c d → Held c d'
  unfolding Held
  Held-Elsewhere c d d' e (s, h) = (
    moved-Follows Allowed d₀ d d' e s,
    ap (λ (f : ℕ → Option Task). held_task c (f c.task_id)) e.tasks ∙ h,
  )

  finished-Calm :
      (c : Claim) (t : Task)
      → t.generation ≡ c.generation
      → t.status ≡ TaskStatus.running
      → Calm t (finished t) × ((finished t).status ≡ TaskStatus.running → ⊥)
  finished-Calm c t g r = (
    record {
      same_scope = refl;
      token = inl refl;
      stays = λ q. cc;
      bound = λ a b. ground arith;
      final = λ q. absurd (cc);
    },
    λ q. cc,
  )

  found-Held : (c : Claim) (o : Option Plan) → Triple (Held c) (found o) (λ _ d. Held c d)
  found-Held c none = Triple-fail _
  found-Held c (some p) = Triple-pure p λ d h. h

  pub commit_plan-Follows :
      (c : Claim) (check : Check) (hash : String) (decisions : List AllocationDecision)
      → Triple (Fine Allowed d₀) (commit_plan c check hash decisions) (λ _ d. Fine Allowed d₀ d)
  unfolding commit_plan
  commit_plan-Follows c check hash decisions = Triple-bind _ _ (lock-Held c) λ _.
      Triple-bind {R = λ _ d. Held c d} _ _ (Triple-after _ (Triple-refuse _ _) λ _ d p. p.0) λ _.
        Triple-bind {R = λ _ d. Held c d} _ _ (Triple-after _ (Triple-refuse _ _) λ _ d p. p.0) λ _.
          Triple-bind {R = λ _ d. Held c d} _ _ (Triple-after _ (Triple-refuse _ _) λ _ d p. p.0)
            λ _.
              Triple-bind {R = λ _ d. Held c d} _ _ (Triple-after _ (Triple-gets _) λ _ d p. p.0)
                λ row. Triple-bind _ _ (found-Held c row) λ plan.
                  Triple-bind _ _
                    (Triple-of-relation _ (apply_decisions-Elsewhere c plan decisions)
                      (Held-Elsewhere c))
                    λ _.
                      Triple-bind {R = λ _ d. Held c d} _ _
                        (Triple-modify _ λ d h.
                          Held-Elsewhere c d _
                            (Elsewhere-if c.simulation d _ (record {
                              scope_id = refl;
                              lease = refl;
                              next = refl;
                              paused = refl;
                              tasks = refl;
                            }))
                            h)
                        λ _.
                          Triple-bind {R = λ _ d. Held c d} _ _
                            (Triple-modify _
                              λ d h. Held-Elsewhere c d _ (raise_sequence-Elsewhere _ d) h)
                            λ _.
                              Triple-bind {R = λ _ d. Held c d} _ _
                                (Triple-modify _ λ d h.
                                  Held-Elsewhere c d _
                                    (record {
                                      scope_id = refl;
                                      lease = refl;
                                      next = refl;
                                      paused = refl;
                                      tasks = refl;
                                    })
                                    h)
                                λ _.
                                  Triple-bind {R = λ _ d. Held c d} _ _
                                    (Triple-modify _ λ d h.
                                      Held-Elsewhere c d _
                                        (record {
                                          scope_id = refl;
                                          lease = refl;
                                          next = refl;
                                          paused = refl;
                                          tasks = refl;
                                        })
                                        h)
                                    λ _.
                                      Triple-bind
                                        {R = λ _ d. Fine Allowed d₀ d × NotHeld c.worker_token d} _
                                        _
                                        (Triple-modify _
                                          λ d h. stop-Held c finished (finished-Calm c) d h)
                                        λ _. Triple-modify _ λ d (s, q).
                                          release-Follows Allowed d₀ c.worker_token d s q

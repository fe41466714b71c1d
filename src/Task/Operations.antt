-- ===== src/Task/Operations.antt =====
-- What users do to the tasks keeps to `Follows`, and what a lock of the lease establishes.
use resume_platform.Shared.{
  ℕ, ◌≡◌, refl, sym, ap, ◌∙◌, inl, String, Bool, true, false, Option, none, some, List, arith,
  str_eq,
}
use resume_platform.Candidate.Transaction.{modify}
use resume_platform.Candidate.Transaction.Triples.{
  Triple, Triple-fail, Triple-weaken, Triple-refuse, Triple-gets, Triple-bind, Triple-Image,
  Triple-modify, Triple-after,
}
use resume_platform.Task.{TaskStatus, Task, Desk, task_is}
use resume_platform.Task.Queue.{
  Request, Claim, hash_of, new_task, insert_task, create_task, held_scope, held_task, lock_lease,
}
use resume_platform.Task.Control.{
  Caller, cancelled_task, cancel_found, cancel_task, retry_like, retry_task, pause_scope,
}
use resume_platform.Task.Sound.{Calm, Follows}
use resume_platform.Task.Elsewhere.{enqueued-Elsewhere}
use resume_platform.Task.Steps.{
  NotHeld, moved-Follows, release-Follows, stop-Follows, pause-Follows, insert-Follows,
}
use resume_platform.Task.Creation.{key_of, created, create_task-Triple}

-- No task has this idempotency key.
abbrev pub KeyFree : String → Desk → Type 0
KeyFree key d = (k : ℕ) (t : Task) → d.tasks k ≡ some t → str_eq t.idempotency_key key ≡ false

module _ (Allowed : ℕ → Type 0) (d₀ : Desk) where
  abbrev pub Fine : Desk → Type 0
  Fine = Follows Allowed d₀

  pub created-Follows :
      (r : Request) (key hash : String) (d : Desk) → Fine d → Fine (created r key hash d)
  created-Follows r key hash d s =
      moved-Follows Allowed d₀ (insert_task r key hash d) (created r key hash d)
        (enqueued-Elsewhere r d.next_task_id (insert_task r key hash d))
        (insert-Follows Allowed d₀ (new_task r key hash d) d refl refl refl s
          (insert_task r key hash d) refl refl (λ j. refl))

  module _ (fingerprint : ℕ → List ℕ → String → String → String) where
    pub create_task-Follows :
        (r : Request) (fresh : String)
        → Triple Fine (create_task fingerprint r fresh) (λ _ d. Fine d)
    create_task-Follows r fresh =
        create_task-Triple fingerprint r fresh
          (λ d p _ _. created-Follows r (key_of r fresh) (hash_of fingerprint r d) d p)
          λ d k t p _ _ _ _. p

    pub retry_task-Follows :
        (caller : Caller) (key : String) (k : ℕ)
        → Triple Fine (retry_task fingerprint caller key k) (λ _ d. Fine d)
    unfolding retry_task
    retry_task-Follows caller key k = Triple-bind _ _ (Triple-gets _) λ task. retry task
      where
        retry :
            (o : Option Task)
            → Triple
                (λ d. Fine d × (d.tasks k ≡ o))
                (retry_like fingerprint caller key k o)
                (λ _ d. Fine d)
        retry none = Triple-fail _
        retry (some t) = Triple-bind _ _ (Triple-refuse _ _) λ _.
            Triple-bind _ _ (Triple-refuse _ _)
              λ _. Triple-weaken _ (λ d p. p.0.0.0) (create_task-Follows _ key)

  pub pause_scope-Follows :
      (paused : Bool) (mode reason : String) (expected : ℕ)
      → Triple Fine (pause_scope paused mode reason expected) (λ _ d. Fine d)
  unfolding pause_scope
  pause_scope-Follows paused mode reason expected = Triple-bind _ _ (Triple-refuse _ _) λ _.
      Triple-bind _ _ (Triple-gets _) λ revision. Triple-bind _ _ (Triple-refuse _ _) λ _.
        Triple-bind _ _ (Triple-gets _) λ held. Triple-bind _ _ (Triple-refuse _ _) λ _.
          Triple-bind _ _ (Triple-Image _) λ _.
            Triple-bind {R = λ _ d. Fine d} _ _
              (Triple-modify _ λ d (e, p, q). rw q (pause-Follows Allowed d₀ paused e p.0.0.0.0.0))
              λ _.
                Triple-bind {R = λ _ d. Fine d} _ _
                  (Triple-modify _ λ d s.
                    moved-Follows Allowed d₀ d _
                      (record {
                        scope_id = refl;
                        lease = refl;
                        next = refl;
                        paused = refl;
                        tasks = refl;
                      })
                      s)
                  λ _. Triple-modify _ λ d s.
                    moved-Follows Allowed d₀ d _
                      (record {
                        scope_id = refl;
                        lease = refl;
                        next = refl;
                        paused = refl;
                        tasks = refl;
                      })
                      s

  cancelled-Calm :
      (t : Task) → task_is t.status TaskStatus.completed ≡ false → Calm t (cancelled_task t)
  cancelled-Calm t open_task = record {
    same_scope = refl;
    token = inl refl;
    stays = λ r. cc;
    bound = λ a b. ground arith;
    final = λ r. absurd (ground arith);
  }

  -- A change of other rows keeps both that the desk is fine and that a token is not held.
  pub quiet_moved :
      (token : ℕ) (f : Desk → Desk)
      → ((d : Desk) → (f d).tasks ≡ d.tasks)
      → ((d : Desk) → (f d).scope ≡ d.scope)
      → ((d : Desk) → (f d).next_task_id ≡ d.next_task_id)
      → Triple (λ d. Fine d × NotHeld token d) (modify f) (λ _ d. Fine d × NotHeld token d)
  quiet_moved token f tasks scope next = Triple-modify f λ d (s, q). (
    moved-Follows Allowed d₀ d (f d)
        (record {
          scope_id = ap (λ s. s.id) (scope d);
          lease = ap (λ s. s.lease_token) (scope d);
          next = next d;
          paused = ap (λ s. s.paused) (scope d);
          tasks = tasks d;
        })
        s,
    λ k t p r. q k t (ap (λ g. g k) (sym (tasks d)) ∙ p) (r ∙ ap (λ s. s.id) (scope d)),
  )

  pub cancel_task-Follows :
      (caller : Caller) (k : ℕ) → Triple Fine (cancel_task caller k) (λ _ d. Fine d)
  unfolding cancel_task
  cancel_task-Follows caller k = Triple-bind _ _ (Triple-gets _) λ task. cancel task
    where
      cancel :
          (o : Option Task)
          → Triple (λ d. Fine d × (d.tasks k ≡ o)) (cancel_found caller k o) (λ _ d. Fine d)
      cancel none = Triple-fail _
      cancel (some t) =
          Triple-bind _ _ (Triple-refuse (task_is t.status TaskStatus.completed) _) λ _.
            Triple-bind
              {R = λ _ d.
                (Fine d × (d.tasks k ≡ some t)) × (task_is t.status TaskStatus.completed ≡ false)}
              _ _ (Triple-after _ (Triple-refuse _ _) λ _ d p. p.0)
              λ _.
                Triple-bind {R = λ _ d. Fine d × NotHeld t.worker_token d} _ _
                  (Triple-modify _ λ d p.
                    stop-Follows Allowed d₀ k cancelled_task d t p.0.1 (cancelled-Calm t p.1)
                      (λ r. cc) p.0.0)
                  λ _.
                    Triple-bind _ _
                      (quiet_moved t.worker_token _ (λ d. refl) (λ d. refl) (λ d. refl))
                      λ _.
                        Triple-bind _ _
                          (quiet_moved t.worker_token _ (λ d. refl) (λ d. refl) (λ d. refl))
                          λ _.
                            Triple-modify _
                              λ d (s, q). release-Follows Allowed d₀ t.worker_token d s q

  -- A worker that holds its lease has a running task of its generation under its token.
  pub held_task-inverse :
      (c : Claim) (o : Option Task)
      → held_task c o ≡ true
      → (t : Task) × (o ≡ some t)
        × (t.generation ≡ c.generation)
        × (t.status ≡ TaskStatus.running)
        × (t.worker_token ≡ c.worker_token)
  held_task-inverse c none h = cc
  held_task-inverse c (some t) h = (t, refl, ground arith, ground arith, ground arith)

  pub lock_lease-Triple :
      {P : Desk → Type 0} (c : Claim)
      → Triple P
          (lock_lease c)
          (λ _ d. P d × (held_scope c d ≡ true) × (held_task c (d.tasks c.task_id) ≡ true))
  unfolding lock_lease
  lock_lease-Triple c = Triple-bind _ _ (Triple-gets _) λ held.
      Triple-bind _ _ (Triple-refuse _ _) λ _. Triple-bind _ _ (Triple-gets _) λ running.
        Triple-after _ (Triple-refuse _ _)
          λ _ d p. (p.0.0.0.0, ground (arith, p.0.0.0.1, p.0.0.1), ground (arith, p.0.1, p.1))

-- ===== src/Task/Claiming.antt =====
-- A claim keeps to `Follows`, if its fence is held by no task and its new key is unknown.
use resume_platform.Shared.{
  ℕ, ◌<◌, ◌≡◌, ◌≢◌, refl, sym, ap, ◌∙◌, inl, inr, String, Bool, true, false, not, Option, none,
  some, List, arith, length, ◌==◌, ==_iff, str_eq, if◌then◌else◌,
}
use resume_platform.Candidate.Transaction.Triples.{
  Triple, Triple-pure, Triple-if, Triple-if_none, Triple-weaken, Triple-gets, Triple-bind,
  Triple-modify, Triple-after,
}
use resume_platform.Task.{TaskStatus, Task, Desk, first_task-holds}
use resume_platform.Task.Queue.{
  Request, automatic_request, hash_of, find_key, new_task, insert_task, claim, begin_task,
  recovered, recover_tasks, recover_items, wake_items, claimable,
}
use resume_platform.Task.Sound.{NoneRuns, Follows}
use resume_platform.Task.Elsewhere.{Elsewhere, enqueued-Elsewhere, lease_items-Elsewhere}
use resume_platform.Task.Steps.{
  Fresh, moved-Follows, recover-Follows, start-Follows, change_task-inverse, inserted_row,
  insert-Follows,
}
use resume_platform.Task.Creation.{created, create_task-Triple}
use resume_platform.Task.Operations.{KeyFree}

module _ (Allowed : ℕ → Type 0) (d₀ : Desk) (fence : ℕ) where
  -- No task of the scope runs, and the fence is new.
  pub record Idle (d : Desk) : Type 0 where
    pub fine : Follows Allowed d₀ d
    pub quiet : NoneRuns d
    pub fresh : Fresh fence d

  -- There is a pending task under this identifier.
  abbrev Startable : ℕ → Desk → Type 0
  Startable k d = (t : Task) × (d.tasks k ≡ some t) × (t.status ≡ TaskStatus.pending)

  moved-Idle : (d d' : Desk) → Elsewhere d d' → Idle d → Idle d'
  moved-Idle d d' e i = record {
    fine = moved-Follows Allowed d₀ d d' e i.fine;
    quiet = λ k t p q r.
        i.quiet k t (ap (λ (f : ℕ → Option Task). f k) (sym e.tasks) ∙ p) (q ∙ e.scope_id) r;
    fresh = λ k t p. i.fresh k t (ap (λ (f : ℕ → Option Task). f k) (sym e.tasks) ∙ p);
  }

  recover-Idle :
      0 < fence → (d : Desk) → Follows Allowed d₀ d → Fresh fence d → Idle (recover_tasks d)
  recover-Idle pos d s new = record {
    fine = (recover-Follows Allowed d₀ d s).0;
    quiet = (recover-Follows Allowed d₀ d s).1;
    fresh = λ k u p q.
        let (t, p', e) = change_task-inverse _ recovered (d.tasks k) u p in
        let old = new k t p' in absurd (recovered_fresh t u _ e old q);
  }
    where
      recovered_fresh :
          (t u : Task) (b : Bool)
          → u ≡ (if b then recovered t else t)
          → t.worker_token ≢ fence
          → u.worker_token ≡ fence
          → ⊥
      recovered_fresh t u true e old q =
          absurd (omega (arith, pos, q, ap (λ (x : Task). x.worker_token) e))
      recovered_fresh t u false e old q = old (ap (λ (x : Task). x.worker_token) (sym e) ∙ q)

  recover-KeyFree : (key : String) (d : Desk) → KeyFree key d → KeyFree key (recover_tasks d)
  recover-KeyFree key d free k u p =
      let (t, p', e) = change_task-inverse _ recovered (d.tasks k) u p in
      let old = free k t p' in ground arith

  begin_task-Follows :
      0 < fence
      → Allowed fence
      → (k : ℕ)
      → Triple (λ d. Idle d × Startable k d) (begin_task fence k) (λ _ d. Follows Allowed d₀ d)
  unfolding begin_task
  begin_task-Follows pos allowed k =
      Triple-bind {R = λ _ d. Follows Allowed d₀ d} _ _
        (Triple-modify _ λ d (i, (t, p, q)).
          start-Follows Allowed d₀ fence k d t pos allowed i.fresh i.quiet p q i.fine)
        λ _.
          Triple-bind {R = λ _ d. Follows Allowed d₀ d} _ _
            (Triple-modify _
              λ d s. moved-Follows Allowed d₀ d _ (lease_items-Elsewhere k (d.tasks k) d) s)
            λ _. Triple-pure (some k) λ d s. s

  created-Idle :
      0 < fence
      → (r : Request) (key hash : String) (d : Desk) → Idle d
      → Idle (created r key hash d) × Startable d.next_task_id (created r key hash d)
  created-Idle pos r key hash d i =
      let e = insert_task r key hash d in
      let new = new_task r key hash d in
      let moved = enqueued-Elsewhere r d.next_task_id e in
      let at : (created r key hash d).tasks d.next_task_id ≡ some new =
        ap (λ (f : ℕ → Option Task). f d.next_task_id) moved.tasks
        ∙ rw ((==_iff d.next_task_id d.next_task_id).1 refl) refl in
      let inserted : Idle e = record {
        fine = insert-Follows Allowed d₀ new d refl refl refl i.fine e refl refl (λ j. refl);
        quiet = λ j u p q r. elim (inserted_row d.next_task_id new (d.tasks j) j u p) [
          | inl (_, same) ↦ absurd (ground arith)
          | inr old ↦ i.quiet j u old q r
        ];
        fresh = λ j u p q. elim (inserted_row d.next_task_id new (d.tasks j) j u p) [
          | inl (_, same) ↦ absurd (omega (arith, pos, q, ap (λ (x : Task). x.worker_token) same))
          | inr old ↦ i.fresh j u old q
        ];
      } in
      (moved-Idle e (created r key hash d) moved inserted, (new, at, refl))

  -- A key that is unknown is not found.
  known_key :
      {A : Type 0} (key : String) (d : Desk) (k : ℕ) → KeyFree key d → find_key key d ≡ some k → A
  unfolding find_key
  known_key key d k free known =
      let (t, q, e) =
        first_task-holds d.tasks (λ u. str_eq u.idempotency_key key) d.next_task_id k known in
      absurd (ground (arith, free k t q))

  module _ (fingerprint : ℕ → List ℕ → String → String → String) where
    pub claim-Follows :
        (fresh_key : String)
        → 0 < fence
        → Allowed fence
        → Triple
            (λ d. Follows Allowed d₀ d × Fresh fence d × KeyFree fresh_key d)
            (claim fingerprint fence fresh_key)
            (λ _ d. Follows Allowed d₀ d)
    unfolding claim
    claim-Follows fresh_key pos allowed =
        Triple-bind {R = λ _ d. Follows Allowed d₀ d × Fresh fence d × KeyFree fresh_key d} _ _
          (Triple-after _ (Triple-gets _) λ _ d p. p.0)
          λ due.
            Triple-if (not due) _ _ (λ _. Triple-pure none λ d p. p.0)
              λ _.
                Triple-bind {R = λ _ d. Idle d × KeyFree fresh_key d} _ _
                  (Triple-modify _
                    λ d p. (recover-Idle pos d p.0 p.1, recover-KeyFree fresh_key d p.2))
                  λ _.
                    Triple-bind {R = λ _ d. Idle d × KeyFree fresh_key d} _ _
                      (Triple-modify _ λ d p. (
                        moved-Idle d (recover_items d)
                            (record {
                              scope_id = refl;
                              lease = refl;
                              next = refl;
                              paused = refl;
                              tasks = refl;
                            })
                            p.0,
                        p.1,
                      ))
                      λ _. Triple-bind _ _ (Triple-gets _) λ found.
                        Triple-bind _ _ (Triple-gets _) λ paused.
                          Triple-if_none found _ _
                            (λ missing.
                              Triple-if paused _ _ (λ _. Triple-pure none λ d p. p.0.0.0.fine)
                                λ _.
                                  Triple-bind {R = λ _ d. Idle d × KeyFree fresh_key d} _ _
                                    (Triple-modify _ λ d p. (
                                      moved-Idle d (wake_items d)
                                          (record {
                                            scope_id = refl;
                                            lease = refl;
                                            next = refl;
                                            paused = refl;
                                            tasks = refl;
                                          })
                                          p.0.0.0,
                                      p.0.0.1,
                                    ))
                                    λ _.
                                      Triple-bind {R = λ _ d. Idle d × KeyFree fresh_key d} _ _
                                        (Triple-after _ (Triple-gets _) λ _ d p. p.0)
                                        λ members.
                                          Triple-if (length members == 0) _ _
                                            (λ _. Triple-pure none λ d p. p.0.fine)
                                            λ _.
                                              Triple-bind _ _
                                                (create_task-Triple fingerprint
                                                  (automatic_request members) fresh_key
                                                  (λ d p _ _.
                                                    created-Idle pos (automatic_request members)
                                                      fresh_key
                                                      (hash_of fingerprint
                                                        (automatic_request members) d)
                                                      d p.0)
                                                  (λ d k t p _ known _ _.
                                                    known_key fresh_key d k p.1 known))
                                                λ k. begin_task-Follows pos allowed k)
                            λ k start.
                              Triple-weaken _
                                (λ d p.
                                  let (t, q, e) =
                                    first_task-holds d.tasks (claimable d) d.next_task_id k
                                      (p.0.1 ∙ start) in
                                  (p.0.0.0, (t, q, ground arith)))
                                (begin_task-Follows pos allowed k)

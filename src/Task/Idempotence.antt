-- ===== src/Task/Idempotence.antt =====
-- A request for a task that is repeated under its key gets the task again.
use resume_platform.Shared.{
  ℕ, zero, suc, ◌≡◌, refl, sym, ap, ◌∙◌, String, Bool, true, false, Option, none, some, List, ok,
  arith, ltb, ==_iff, str_eq, eq_iff,
}
use resume_platform.Candidate.Transaction.{◌>>=◌}
use resume_platform.Task.{Task, Desk, holds, first_task}
use resume_platform.Task.Queue.{Request, num, hash_of, find_key, new_task, insert_task, create_task}
use resume_platform.Task.Elsewhere.{enqueued-Elsewhere}
use resume_platform.Task.Creation.{Checked, key_of, created, differs, create_task-Triple}

-- The search below a bound reads the tasks below it only.
first_task-ext :
    (f g : ℕ → Option Task) (p : Task → Bool) (n : ℕ)
    → ((k : ℕ) → ltb k n ≡ true → f k ≡ g k)
    → first_task f p n ≡ first_task g p n
unfolding first_task
first_task-ext f g p zero h = refl
first_task-ext f g p (suc n) h =
    ground (arith, first_task-ext f g p n (λ k q. h k (ground arith)), h n)

first_task_new :
    (f : ℕ → Option Task) (p : Task → Bool) (n : ℕ)
    → first_task f p n ≡ none
    → holds p (f n) ≡ true
    → first_task f p (suc n) ≡ some n
unfolding first_task
first_task_new f p n h q = rw h (rw q refl)

text_eq_refl : (s : String) → str_eq s s ≡ true
text_eq_refl s = (eq_iff s s).1 refl

module _ (fingerprint : ℕ → List ℕ → String → String → String) where
  -- A request under a known key, for the same inputs and creator, changes nothing.
  create_known :
      (r : Request) (fresh : String) (d : Desk) (k : ℕ) (t : Task)
      → Checked fingerprint r (key_of r fresh) d
      → find_key (key_of r fresh) d ≡ some k
      → d.tasks k ≡ some t
      → differs (hash_of fingerprint r d) r t ≡ false
      → create_task fingerprint r fresh d ≡ ok (k, d)
  unfolding create_task ◌>>=◌
  create_known r fresh d k t c known at same =
      rw (c.running) (rw (c.sized) (rw (c.short) (rw known (rw at (rw same refl)))))

  -- The key is found under the new task.
  find_key-created :
      (r : Request) (key hash : String) (d : Desk)
      → find_key key d ≡ none
      → find_key key (created r key hash d) ≡ some d.next_task_id
  unfolding find_key
  find_key-created r key hash d unknown =
      let e = insert_task r key hash d in
      let moved = enqueued-Elsewhere r d.next_task_id e in
      let test = λ (t : Task). str_eq t.idempotency_key key in
      let below : first_task e.tasks test d.next_task_id ≡ none =
        first_task-ext e.tasks d.tasks test d.next_task_id (λ k q. ground arith) ∙ unknown in
      rw (moved.tasks) (
        rw (moved.next) (
          first_task_new e.tasks test d.next_task_id below
            (rw ((==_iff d.next_task_id d.next_task_id).1 refl) (text_eq_refl key))))

  -- The request after its task was created.
  create_created :
      (r : Request) (fresh : String) (d : Desk)
      → Checked fingerprint r (key_of r fresh) d
      → find_key (key_of r fresh) d ≡ none
      → create_task fingerprint r fresh (created r (key_of r fresh) (hash_of fingerprint r d) d)
        ≡ ok (d.next_task_id, created r (key_of r fresh) (hash_of fingerprint r d) d)
  create_created r fresh d c unknown =
      let key = key_of r fresh in
      let hash = hash_of fingerprint r d in
      let e = insert_task r key hash d in
      let moved = enqueued-Elsewhere r d.next_task_id e in
      let new = new_task r key hash d in
      let at : (created r key hash d).tasks d.next_task_id ≡ some new =
        ap (λ (f : ℕ → Option Task). f d.next_task_id) moved.tasks
        ∙ rw ((==_iff d.next_task_id d.next_task_id).1 refl) refl in
      let same : hash_of fingerprint r (created r key hash d) ≡ hash =
        ap (λ (s : ℕ). fingerprint s r.members r.mode r.version) moved.scope_id in
      create_known r fresh (created r key hash d) d.next_task_id new
        (record { running = rw (moved.paused) c.running; sized = c.sized; short = c.short })
        (find_key-created r key hash d unknown) at
        (rw same (rw (text_eq_refl hash) (rw ((==_iff (num r.actor) (num r.actor)).1 refl) refl)))

  -- The key that is drawn does not matter to a request with its own.
  create_by_key :
      (r : Request) (fresh later : String) (d : Desk)
      → str_eq r.key "" ≡ false
      → create_task fingerprint r fresh d ≡ create_task fingerprint r later d
  unfolding create_task
  create_by_key r fresh later d own = rw own refl

  -- A request that brings its own key and succeeds gives the same task when it is sent again, and
  -- the second time nothing changes, whatever key is drawn in passing.
  pub create_task-again :
      (r : Request) (fresh later : String) (d d' : Desk) (k : ℕ)
      → str_eq r.key "" ≡ false
      → create_task fingerprint r fresh d ≡ ok (k, d')
      → create_task fingerprint r later d' ≡ ok (k, d')
  create_task-again r fresh later d d' k own h =
      sym (create_by_key r fresh later d' own)
      ∙ (create_task-Triple fingerprint {P = λ _. Unit {0}}
            {Q = λ j e. create_task fingerprint r fresh e ≡ ok (j, e)} r fresh
            (λ e _ c unknown. create_created r fresh e c unknown)
            (λ e j t _ c known at differ. create_known r fresh e j t c known at differ)).at
          d d' k tt h

-- ===== src/Task/Tests.antt =====
-- A scope with a task that a second worker has taken over, and a request for a task.
use resume_platform.Shared.{
  ℕ, ◌<◌, ◌≡◌, ◌≢◌, refl, inl, inr, String, true, false, none, some, List, [], ◌∷◌, ok, err,
  task_error, arith, ◌==◌, if◌then◌else◌,
}
use resume_platform.Shared.Text.{is_blank, is_space, text_len}
use resume_platform.Candidate.Application.Tests.{fresh_case}
use resume_platform.Candidate.Transaction.{Tx, ◌>>=◌}
use resume_platform.Task.{TaskStatus, Task, Desk, first_task}
use resume_platform.Task.Queue.{
  Claim, Request, find_key, create_task, claim, begin_task, finish_failure,
}
use resume_platform.Task.Control.{pause_scope}
use resume_platform.Task.Commit.{Check, commit_plan}
use resume_platform.Task.Sound.{IsSound}
use resume_platform.Task.Steps.{inserted_row}
use resume_platform.Task.History.{
  Step, History, History-IsSound, History-completed, commit_plan-lost,
}
use resume_platform.Task.Idempotence.{create_task-again}

abbrev same_hash : ℕ → List ℕ → String → String → String
same_hash scope members mode version = "h"

abbrev task_with : TaskStatus → ℕ → ℕ → Task
task_with status generation token = record {
  scope_id = 1;
  mode = "execute";
  status = status;
  generation = generation;
  idempotency_key = "k";
  input_hash = "h";
  member_ids = 4 ∷ [];
  worker_token = token;
  error_code = "";
  created_by = none;
  automatic = true;
  execution_version = "v1";
}

-- The task 1, and a lease under this token.
abbrev desk_with : Task → ℕ → Desk
desk_with t token = record {
  now = 100;
  scope = record {
    id = 1;
    paused = false;
    revision = 3;
    epoch = 1;
    next_sequence = 1;
    lease_token = token;
    lease_until = if token == 0 then none else some 150;
  };
  tasks = λ k. if k == 1 then some t else none;
  next_task_id = 2;
  items = [];
  next_item_id = 1;
  plans = [];
  qualifications = [];
  pending_members = [];
  changes = 0;
  draws = 4;
  cases = λ k. fresh_case;
  members = λ k. none;
  demands = λ k. none;
  assignments = [];
}

desk_with-IsSound :
    (t : Task) (token : ℕ)
    → t.generation ≡ 1
    → (t.status ≡ TaskStatus.running → (t.worker_token ≡ token) × (0 < t.worker_token))
    → IsSound (desk_with t token)
desk_with-IsSound t token g held = record {
  held = λ k u p q r. elim (inserted_row 1 t none k u p) [
    | inl (_, same) ↦ rw same (held (rw (← same) r))
    | inr old ↦ cc
  ];
  apart = λ k j u v p q e pos. elim (inserted_row 1 t none k u p) [
    | inr old ↦ cc
    | inl (a, _) ↦ elim (inserted_row 1 t none j v q) [ inr old ↦ cc | inl (b, _) ↦ omega arith ]
  ];
  bounded =
      λ k u p. elim (inserted_row 1 t none k u p) [ inl (_, same) ↦ ground arith | inr old ↦ cc ];
  free = λ k low. ground arith;
}

-- The state after a transaction.
abbrev after : {A : Type 0} → Tx Desk A → Desk → Desk
after m d = elim (m d) [ err e ↦ d | ok (a, e) ↦ e ]

abbrev waiting_desk : Desk
waiting_desk = desk_with (task_with TaskStatus.pending 1 0) 0

waiting_desk-IsSound : IsSound waiting_desk
waiting_desk-IsSound = desk_with-IsSound (task_with TaskStatus.pending 1 0) 0 refl (λ h. cc)

abbrev claimed_desk : Desk
claimed_desk = after (claim same_hash 9 "new") waiting_desk

claim_it : (P : ℕ → Type 0) → P 9 → Step same_hash P waiting_desk claimed_desk
unfolding claim begin_task ◌>>=◌ first_task
claim_it P h =
    Step.claims 9 "new" (some 1) (omega arith) h
      (λ k t p q. elim (inserted_row 1 (task_with TaskStatus.pending 1 0) none k t p) [
        | inl (_, same) ↦ absurd (ground arith)
        | inr old ↦ cc
      ])
      (λ k t p. elim (inserted_row 1 (task_with TaskStatus.pending 1 0) none k t p) [
        | inl (_, same) ↦ rw same refl
        | inr old ↦ cc
      ])
      refl

-- The worker under the token 9 claims the waiting task.
History-IsSound_example : IsSound claimed_desk
History-IsSound_example =
    History-IsSound same_hash (λ _. Unit {0}) waiting_desk-IsSound
      (History.then History.start (claim_it (λ _. Unit {0}) tt))

abbrev done_task : Task
done_task = task_with TaskStatus.completed 1 9

abbrev done_desk : Desk
done_desk = desk_with done_task 0

abbrev paused_desk : Desk
paused_desk = after (pause_scope true "" "holiday" 3) done_desk

pause_it : (P : ℕ → Type 0) → Step same_hash P done_desk paused_desk
unfolding pause_scope ◌>>=◌ is_blank is_space
pause_it P = Step.pauses true "" "holiday" 3 tt refl

History-completed_example : paused_desk.tasks 1 ≡ some done_task
History-completed_example =
    History-completed same_hash (λ _. Unit {0}) {d = done_desk} {d' = paused_desk} 1 done_task
      (desk_with-IsSound done_task 0 refl (λ h. cc))
      (History.then History.start (pause_it (λ _. Unit {0}))) refl refl

-- The claim of a worker that was replaced.
abbrev late_claim : Claim
late_claim = record { task_id = 1; generation = 1; simulation = false; worker_token = 5 }

abbrev check : Check
check = record { authorized = true; age = 0; current_hash = "s" }

commit_plan-lost_example :
    (commit_plan late_claim check "s" [] claimed_desk
      ≡ err (task_error "allocation_lease_lost" "分配租约失效"))
    × (finish_failure late_claim "kernel_unavailable" claimed_desk
        ≡ err (task_error "allocation_lease_lost" "分配租约失效"))
commit_plan-lost_example =
    commit_plan-lost same_hash late_claim {d = waiting_desk} {d' = claimed_desk}
      waiting_desk-IsSound (omega arith) (λ q. absurd (omega (arith, q)))
      (History.then History.start (claim_it (λ fence. fence ≢ 5) (λ q. absurd (omega (arith, q)))))
      check "s" "kernel_unavailable" []

abbrev request : Request
request = record {
  members = 4 ∷ [];
  mode = "execute";
  key = "mine";
  actor = some 2;
  automatic = false;
  version = "v1";
}

abbrev requested_desk : Desk
requested_desk = after (create_task same_hash request "new") waiting_desk

request-created : create_task same_hash request "new" waiting_desk ≡ ok (2, requested_desk)
unfolding create_task find_key first_task text_len ◌>>=◌
request-created = refl

create_task-again_example :
    create_task same_hash request "other" requested_desk ≡ ok (2, requested_desk)
create_task-again_example =
    create_task-again same_hash request "new" "other" waiting_desk requested_desk 2 refl
      request-created

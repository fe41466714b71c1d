-- ===== src/Task/Elsewhere.antt =====
-- The writes that leave the tasks and the lease of a scope alone.
use resume_platform.Shared.{
  ℕ, ◌≡◌, refl, ◌∙◌, subst, inl, inr, Bool, true, false, Option, none, some, List, [], ◌∷◌, any,
  ltb, Result, ok, err, ◌==◌, str_eq, if◌then◌else◌, Bool-cases, api_error, ◌&&◌,
}
use resume_platform.Allocation.Types.{Action, AllocationDecision}
use resume_platform.Candidate.Case.{Case}
use resume_platform.Candidate.Transaction.{Tx, modify}
use resume_platform.Candidate.Transaction.Rules.{
  Relates, IsPreorder, Relates-pure, Relates-fail, Relates-gets, Relates-modify, Relates-bind,
  Relates-if,
}
use resume_platform.Task.{Task, WorkItem, Qualification, Plan, Desk}
use resume_platform.Task.Queue.{
  Claim, Request, active_work, latest_qualification, add_item, add_items, enqueued, lease_items,
  is_simulation,
}
use resume_platform.Task.Commit.{
  on_case, put_case, found, apply_decision, apply_decisions, assign_member, raise_sequence,
}

pub record Elsewhere (d d' : Desk) : Type 0 where
  pub scope_id : d'.scope.id ≡ d.scope.id
  pub lease : d'.scope.lease_token ≡ d.scope.lease_token
  pub next : d'.next_task_id ≡ d.next_task_id
  pub paused : d'.scope.paused ≡ d.scope.paused
  pub tasks : d'.tasks ≡ d.tasks

pub Elsewhere-refl : (d : Desk) → Elsewhere d d
Elsewhere-refl d = record {
  scope_id = refl;
  lease = refl;
  next = refl;
  paused = refl;
  tasks = refl;
}

pub Elsewhere-preorder : IsPreorder Elsewhere
Elsewhere-preorder = record {
  stay = Elsewhere-refl;
  chain = λ d e f p q. record {
    scope_id = q.scope_id ∙ p.scope_id;
    lease = q.lease ∙ p.lease;
    next = q.next ∙ p.next;
    paused = q.paused ∙ p.paused;
    tasks = q.tasks ∙ p.tasks;
  };
}

add_item-Elsewhere :
    (m task : ℕ) (q : Option Qualification) (d : Desk) → Elsewhere d (add_item m task q d)
add_item-Elsewhere m task none d = Elsewhere-refl d
add_item-Elsewhere m task (some q) d =
    elim (Bool-cases
      (any (λ (i : WorkItem). i.qualification_id == q.id && active_work i.status) d.items)) [
        | inl e ↦ rw e (Elsewhere-refl d)
        | inr e ↦
            rw e
              (record { scope_id = refl; lease = refl; next = refl; paused = refl; tasks = refl })
      ]

add_items-Elsewhere : (task : ℕ) (ms : List ℕ) (d : Desk) → Elsewhere d (add_items task ms d)
add_items-Elsewhere task [] d = Elsewhere-refl d
add_items-Elsewhere task (m ∷ ms) d =
    let e = add_item m task (latest_qualification m d.qualifications) d in
    Elsewhere-preorder.chain d e (add_items task ms e)
      (add_item-Elsewhere m task (latest_qualification m d.qualifications) d)
      (add_items-Elsewhere task ms e)

pub enqueued-Elsewhere : (r : Request) (task : ℕ) (d : Desk) → Elsewhere d (enqueued r task d)
enqueued-Elsewhere r task d = elim (Bool-cases (str_eq r.mode "simulate")) [
  | inl e ↦ rw e (Elsewhere-refl d)
  | inr e ↦ rw e (
      let f = add_items-Elsewhere task r.members d in
      record {
        scope_id = f.scope_id;
        lease = f.lease;
        next = f.next;
        paused = f.paused;
        tasks = f.tasks;
      })
]

pub raise_sequence-Elsewhere : (top : ℕ) (d : Desk) → Elsewhere d (raise_sequence top d)
raise_sequence-Elsewhere top d = elim (Bool-cases (ltb 0 top)) [
  | inl e ↦
      rw e (record { scope_id = refl; lease = refl; next = refl; paused = refl; tasks = refl })
  | inr e ↦ rw e (Elsewhere-refl d)
]

on_case-Elsewhere : {A : Type 0} (k : ℕ) (m : Tx Case A) → Relates Elsewhere (on_case k m)
unfolding on_case
on_case-Elsewhere {A} k m = record { at = λ d d' a h. kept d (m (d.cases k)) d' a h }
  where
    kept :
        (d : Desk) (r : Result (A × Case)) (d' : Desk) (a : A)
        → put_case k d r ≡ ok (a, d')
        → Elsewhere d d'
    kept d (err e) d' a h = cc
    kept d (ok (b, c)) d' a h =
        let same : record d { cases = λ j. if j == k then c else d.cases j } ≡ d' = cc in
        subst (Elsewhere d) same
          (record { scope_id = refl; lease = refl; next = refl; paused = refl; tasks = refl })

Elsewhere-modify :
    (f : Desk → Desk) → ((d : Desk) → Elsewhere d (f d)) → Relates Elsewhere (modify f)
Elsewhere-modify f h = Relates-modify f h

Elsewhere-found : {A : Type 0} (o : Option A) → Relates Elsewhere (found o)
Elsewhere-found none = Relates-fail Elsewhere-preorder (api_error 404 "未找到")
Elsewhere-found (some a) = Relates-pure Elsewhere-preorder a

assign_member-Elsewhere :
    (plan : Plan) (x : AllocationDecision) → Relates Elsewhere (assign_member plan x)
unfolding assign_member
assign_member-Elsewhere plan x =
    Relates-bind Elsewhere-preorder _ _ (Relates-gets Elsewhere-preorder _) λ row.
      Relates-bind Elsewhere-preorder _ _ (Elsewhere-found row) λ member.
        Relates-bind Elsewhere-preorder _ _ (Relates-gets Elsewhere-preorder _) λ place.
          Relates-bind Elsewhere-preorder _ _ (Elsewhere-found place) λ department.
            Relates-bind Elsewhere-preorder _ _ (on_case-Elsewhere _ _) λ attempt.
              Relates-bind Elsewhere-preorder _ _
                (Elsewhere-modify _ λ d. record {
                  scope_id = refl;
                  lease = refl;
                  next = refl;
                  paused = refl;
                  tasks = refl;
                })
                λ _. Elsewhere-modify _ λ d. record {
                  scope_id = refl;
                  lease = refl;
                  next = refl;
                  paused = refl;
                  tasks = refl;
                }

apply_decision-Elsewhere :
    (c : Claim) (plan : Plan) (x : AllocationDecision) (a : Action)
    → Relates Elsewhere (apply_decision c plan x a)
apply_decision-Elsewhere c plan x Action.wait =
    Elsewhere-modify _
      λ d. record { scope_id = refl; lease = refl; next = refl; paused = refl; tasks = refl }
apply_decision-Elsewhere c plan x Action.assign = assign_member-Elsewhere plan x

pub apply_decisions-Elsewhere :
    (c : Claim) (plan : Plan) (xs : List AllocationDecision)
    → Relates Elsewhere (apply_decisions c plan xs)
unfolding apply_decisions
apply_decisions-Elsewhere c plan [] = Relates-pure Elsewhere-preorder tt
apply_decisions-Elsewhere c plan (x ∷ xs) =
    Relates-bind Elsewhere-preorder _ _
      (Relates-if Elsewhere-preorder c.simulation _ _ (λ _. Relates-pure Elsewhere-preorder tt)
        λ _. apply_decision-Elsewhere c plan x x.action)
      λ _. apply_decisions-Elsewhere c plan xs

pub Elsewhere-if : (b : Bool) (d e : Desk) → Elsewhere d e → Elsewhere d (if b then e else d)
Elsewhere-if true d e h = h
Elsewhere-if false d e h = Elsewhere-refl d

pub lease_items-Elsewhere : (k : ℕ) (o : Option Task) (d : Desk) → Elsewhere d (lease_items k o d)
lease_items-Elsewhere k none d = Elsewhere-refl d
lease_items-Elsewhere k (some t) d = elim (Bool-cases (is_simulation t)) [
  | inl e ↦ rw e (Elsewhere-refl d)
  | inr e ↦
      rw e (record { scope_id = refl; lease = refl; next = refl; paused = refl; tasks = refl })
]

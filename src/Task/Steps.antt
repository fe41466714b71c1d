-- ===== src/Task/Steps.antt =====
-- What the single changes of tasks and leases do to a desk that follows another one.
use resume_platform.Shared.{
  ℕ, suc, ◌<◌, ◌≡◌, ◌≢◌, refl, sym, ap, ◌∙◌, subst, ◌⊎◌, inl, inr, Bool, false, ◌&&◌, Option, none,
  some, arith, ==_iff, ◌==◌, Bool-cases, if◌then◌else◌,
}
use resume_platform.Task.{TaskStatus, Scope, Task, Desk, task_is, set_tasks, set_task, change_task}
use resume_platform.Task.Queue.{recovered, recover_tasks, release_lease, started, start_task}
use resume_platform.Task.Control.{switch_scope, unfinished, paused_task}
use resume_platform.Task.Elsewhere.{Elsewhere}
use resume_platform.Task.Sound.{
  Calm, AllCalm, AllCalm-change, AllCalm-refl, NoneRuns, Follows, calm-Follows, elsewhere-Follows,
}

-- No task of the scope runs under this token.
abbrev pub NotHeld : ℕ → Desk → Type 0
NotHeld token d =
    (k : ℕ) (t : Task)
    → d.tasks k ≡ some t
    → t.scope_id ≡ d.scope.id
    → t.status ≡ TaskStatus.running
    → t.worker_token ≡ token
    → ⊥

pub set_task-at :
    (k : ℕ) (change : Task → Task) (d : Desk) (t : Task)
    → d.tasks k ≡ some t
    → (set_task k change d).tasks k ≡ some (change t)
set_task-at k change d t h = rw ((==_iff k k).1 refl) (rw h refl)

-- A row of the changed table is the changed row, or another one as it was.
set_task-inverse :
    (k : ℕ) (change : Task → Task) (d : Desk) (t : Task)
    → d.tasks k ≡ some t
    → (j : ℕ) (u : Task) → (set_task k change d).tasks j ≡ some u
    → ((j ≡ k) × (u ≡ change t)) ⊎ ((j ≢ k) × (d.tasks j ≡ some u))
set_task-inverse k change d t h j u p = elim (Bool-cases (j == k)) [
  | inl e ↦
      let same : j ≡ k = (==_iff j k).0 e in
      let at : some (change t) ≡ some u =
        sym (set_task-at k change d t h)
        ∙ subst (λ i. (set_task k change d).tasks i ≡ some u) same p in
      inl (same, cc)
  | inr e ↦ inr (λ q. ground (arith, ==_iff j k), rw e at p)
]

set_task-Calm :
    (k : ℕ) (change : Task → Task) (d : Desk) (t : Task)
    → d.tasks k ≡ some t
    → Calm t (change t)
    → (j : ℕ) → AllCalm (d.tasks j) ((set_task k change d).tasks j)
set_task-Calm k change d t h c j = elim (Bool-cases (j == k)) [
  | inr e ↦ rw e (AllCalm-refl (d.tasks j))
  | inl e ↦ let same : j ≡ k = (==_iff j k).0 e in rw e (rw same (rw h c))
]

pub change_task-inverse :
    (selects : Task → Bool) (change : Task → Task) (o : Option Task) (u : Task)
    → change_task selects change o ≡ some u
    → (t : Task) × (o ≡ some t) × (u ≡ (if selects t then change t else t))
change_task-inverse selects change none u h = cc
change_task-inverse selects change (some t) u h = (t, refl, cc)

module _ (Allowed : ℕ → Type 0) (d₀ : Desk) where
  abbrev Fine : Desk → Type 0
  Fine = Follows Allowed d₀

  pub moved-Follows : (d d' : Desk) → Elsewhere d d' → Follows Allowed d₀ d → Follows Allowed d₀ d'
  moved-Follows d d' e s = elsewhere-Follows Allowed d₀ d d' s e.scope_id e.lease e.next e.tasks

  pub release-Follows :
      (token : ℕ) (d : Desk)
      → Follows Allowed d₀ d
      → NotHeld token d
      → Follows Allowed d₀ (release_lease token d)
  release-Follows token d s quiet = elim (Bool-cases (d.scope.lease_token == token)) [
    | inr e ↦
        calm-Follows Allowed d₀ d (release_lease token d) s (rw e refl) refl (inl (rw e refl))
          λ k. AllCalm-refl (d.tasks k)
    | inl e ↦
        let same : d.scope.lease_token ≡ token = (==_iff _ _).0 e in
        calm-Follows Allowed d₀ d (release_lease token d) s (rw e refl) refl
          (inr (
            rw e refl,
            λ k t p q r.
                let q' : t.scope_id ≡ d.scope.id = ground arith in
                quiet k t p q' r ((s.sound.held k t p q' r).0 ∙ same),
          ))
          λ k. AllCalm-refl (d.tasks k)
  ]

  -- A task that is stopped holds its lease no longer, and neither does another one.
  pub stop-Follows :
      (k : ℕ) (change : Task → Task) (d : Desk) (t : Task)
      → d.tasks k ≡ some t
      → Calm t (change t)
      → ((change t).status ≡ TaskStatus.running → ⊥)
      → Follows Allowed d₀ d
      → Follows Allowed d₀ (set_task k change d) × NotHeld t.worker_token (set_task k change d)
  stop-Follows k change d t h c stopped s = (
    calm-Follows Allowed d₀ d (set_task k change d) s refl refl (inl refl)
        (set_task-Calm k change d t h c),
    λ j u p q r e. elim (Bool-cases (j == k)) [
      | inl same ↦
          let at : some (change t) ≡ some u =
            sym (set_task-at k change d t h)
            ∙ subst (λ i. (set_task k change d).tasks i ≡ some u) ((==_iff j k).0 same) p in
          stopped (cc)
      | inr other ↦
          let p' : d.tasks j ≡ some u = rw other at p in
          let b = s.sound.held j u p' q r in
          let clash : j ≡ k = s.sound.apart j k u t p' h e b.1 in
          absurd (ground (arith, ==_iff j k))
    ],
  )

  -- The recovery of the tasks whose worker is gone.
  pub recover-Follows :
      (d : Desk)
      → Follows Allowed d₀ d
      → Follows Allowed d₀ (recover_tasks d) × NoneRuns (recover_tasks d)
  recover-Follows d s = (
    calm-Follows Allowed d₀ d (recover_tasks d) s refl refl (inl refl) (λ k.
        AllCalm-change (λ t. (t.scope_id == d.scope.id) && task_is t.status TaskStatus.running)
          recovered (d.tasks k)
          λ t p q. record {
            same_scope = refl;
            token = inr refl;
            stays = λ r. absurd (ground arith);
            bound = λ a b. ground arith;
            final = λ r. absurd (ground arith);
          }),
    λ k u p q r.
        let (t, p', e) = change_task-inverse _ recovered (d.tasks k) u p in absurd (ground arith),
  )

  -- The cancellation of the tasks of a scope that is paused or resumed.
  pub pause-Follows :
      (paused : Bool) (d : Desk)
      → Follows Allowed d₀ d
      → Follows Allowed d₀
          (set_tasks (unfinished (switch_scope paused d)) paused_task (switch_scope paused d))
  pause-Follows paused d s =
      let e = switch_scope paused d in
      calm-Follows Allowed d₀ d (set_tasks (unfinished e) paused_task e) s refl refl
        (inr (
          refl,
          λ k u p q r.
              let (t, p', h) = change_task-inverse (unfinished e) paused_task (d.tasks k) u p in
              absurd (ground arith),
        ))
        λ k. AllCalm-change (unfinished e) paused_task (d.tasks k) λ t p q. record {
          same_scope = refl;
          token = inl refl;
          stays = λ r. cc;
          bound = λ a b. ground arith;
          final = λ r. absurd (ground arith);
        }

==-ne : (a b : ℕ) → b < a → (a == b) ≡ false
==-ne a b h = ground arith

pub inserted_row :
    (n : ℕ) (new : Task) (o : Option Task) (j : ℕ) (u : Task)
    → (if j == n then some new else o) ≡ some u
    → ((j ≡ n) × (u ≡ new)) ⊎ (o ≡ some u)
inserted_row n new o j u h = elim (Bool-cases (j == n)) [
  | inl e ↦ inl ((==_iff j n).0 e, let p : some new ≡ some u = rw e at h in cc)
  | inr e ↦ inr (rw e at h)
]

-- No task holds this token.
abbrev pub Fresh : ℕ → Desk → Type 0
Fresh fence d = (k : ℕ) (t : Task) → d.tasks k ≡ some t → t.worker_token ≢ fence

module _ (Allowed : ℕ → Type 0) (d₀ : Desk) where
  -- The start of a pending task where none runs, under a fence that no task holds.
  pub start-Follows :
      (fence k : ℕ) (d : Desk) (t : Task)
      → 0 < fence
      → Allowed fence
      → Fresh fence d
      → NoneRuns d
      → d.tasks k ≡ some t
      → t.status ≡ TaskStatus.pending
      → Follows Allowed d₀ d
      → Follows Allowed d₀ (start_task fence k d)
  start-Follows fence k d t pos allowed fresh none_runs h pending s = record {
    sound = record {
      held = λ j u p q r. elim (set_task-inverse k (started fence) d t h j u p) [
        | inl (e, same) ↦ (ap (λ (x : Task). x.worker_token) same, rw same pos)
        | inr (e, old) ↦ absurd (none_runs j u old q r)
      ];
      apart = λ i j u v p q e pos'. elim (set_task-inverse k (started fence) d t h i u p) [
        | inl (a, same) ↦ elim (set_task-inverse k (started fence) d t h j v q) [
          | inl (b, _) ↦ a ∙ sym b
          | inr (b, old) ↦ absurd (fresh j v old (sym e ∙ ap (λ (x : Task). x.worker_token) same))
        ]
        | inr (a, old) ↦ elim (set_task-inverse k (started fence) d t h j v q) [
          | inl (b, same) ↦ absurd (fresh i u old (e ∙ ap (λ (x : Task). x.worker_token) same))
          | inr (b, old') ↦ s.sound.apart i j u v old old' e pos'
        ]
      ];
      bounded = λ j u p. elim (set_task-inverse k (started fence) d t h j u p) [
        | inl (a, same) ↦ let b = s.sound.bounded k t h in ground arith
        | inr (a, old) ↦ s.sound.bounded j u old
      ];
      free = λ j low. elim (Bool-cases (j == k)) [
        | inl e ↦
            let same : j ≡ k = (==_iff j k).0 e in
            absurd (ground (arith, s.sound.free j low, h, ap d.tasks same))
        | inr e ↦ rw e (s.sound.free j low)
      ];
    };
    scope_id = s.scope_id;
    done = λ j u p q.
        let old = s.done j u p q in
        elim (Bool-cases (j == k)) [
          | inl e ↦
              let same : j ≡ k = (==_iff j k).0 e in
              absurd (ground (arith, old, h, ap d.tasks same))
          | inr e ↦ rw e old
        ];
    lease = inr (inr allowed);
  }

  -- A new task, pending and without a token.
  pub insert-Follows :
      (new : Task) (d : Desk)
      → new.status ≡ TaskStatus.pending
      → new.generation ≡ 1
      → new.worker_token ≡ 0
      → Follows Allowed d₀ d
      → (d' : Desk) → d'.scope ≡ d.scope
      → d'.next_task_id ≡ suc d.next_task_id
      → ((j : ℕ) → d'.tasks j ≡ (if j == d.next_task_id then some new else d.tasks j))
      → Follows Allowed d₀ d'
  insert-Follows new d pending first blank s d' scope next tasks =
      let row = λ (j : ℕ) (u : Task) (p : d'.tasks j ≡ some u).
        inserted_row d.next_task_id new (d.tasks j) j u (sym (tasks j) ∙ p) in
      record {
        sound = record {
          held = λ j u p q r. elim (row j u p) [
            | inl (_, same) ↦ absurd (ground arith)
            | inr old ↦
                let b = s.sound.held j u old (q ∙ ap (λ (x : Scope). x.id) scope) r in
                (b.0 ∙ ap (λ (x : Scope). x.lease_token) (sym scope), b.1)
          ];
          apart = λ i j u v p q e pos. elim (row i u p) [
            | inl (_, same) ↦ absurd (ground arith)
            | inr old ↦ elim (row j v q) [
              | inl (_, same) ↦ absurd (ground arith)
              | inr old' ↦ s.sound.apart i j u v old old' e pos
            ]
          ];
          bounded = λ j u p. elim (row j u p) [
            | inl (_, same) ↦ ground arith
            | inr old ↦ s.sound.bounded j u old
          ];
          free = λ j low.
              tasks j ∙ rw (==-ne j d.next_task_id (omega arith)) (s.sound.free j (omega arith));
        };
        scope_id = ap (λ (x : Scope). x.id) scope ∙ s.scope_id;
        done = λ j u p q.
            let old = s.done j u p q in
            elim (Bool-cases (j == d.next_task_id)) [
              | inl e ↦ absurd (ground (arith, ==_iff j d.next_task_id, s.sound.free j))
              | inr e ↦ tasks j ∙ rw e old
            ];
        lease = rw (ap (λ (x : Scope). x.lease_token) scope) s.lease;
      }

-- ===== src/Task/Sound.antt =====
-- The invariant of the tasks of a scope, and the changes of rows that keep it.
use resume_platform.Shared.{
  ℕ, ◌<◌, ◌≤◌, ◌≡◌, refl, sym, ap, ◌∙◌, subst, ◌⊎◌, inl, inr, Bool, true, false, ◌||◌, Option, none,
  some, arith, if◌then◌else◌,
}
use resume_platform.Task.{TaskStatus, Task, Desk, task_is, change_task}

-- Pending or running.
abbrev pub is_active : TaskStatus → Bool
is_active s = task_is s TaskStatus.pending || task_is s TaskStatus.running

-- A running task of the scope holds the token of the scope's lease, no two tasks hold the same
-- token, a task that may still run is in its third generation at most, and identifiers from
-- `next_task_id` on are free.
pub record IsSound (d : Desk) : Type 0 where
  pub held :
      (k : ℕ) (t : Task)
      → d.tasks k ≡ some t
      → t.scope_id ≡ d.scope.id
      → t.status ≡ TaskStatus.running
      → (t.worker_token ≡ d.scope.lease_token) × (0 < t.worker_token)
  pub apart :
      (k j : ℕ) (t u : Task)
      → d.tasks k ≡ some t
      → d.tasks j ≡ some u
      → t.worker_token ≡ u.worker_token
      → 0 < t.worker_token
      → k ≡ j
  pub bounded :
      (k : ℕ) (t : Task)
      → d.tasks k ≡ some t
      → (t.generation ≤ 4) × (is_active t.status ≡ true → t.generation ≤ 3)
  pub free : (k : ℕ) → d.next_task_id ≤ k → d.tasks k ≡ none

-- A change of a row that gives no token away, starts no task and leaves a completed one alone.
pub record Calm (t u : Task) : Type 0 where
  pub same_scope : u.scope_id ≡ t.scope_id
  pub token : (u.worker_token ≡ t.worker_token) ⊎ (u.worker_token ≡ 0)
  pub stays :
      u.status ≡ TaskStatus.running
      → (t.status ≡ TaskStatus.running) × (u.worker_token ≡ t.worker_token)
  pub bound :
      t.generation ≤ 4
      → (is_active t.status ≡ true → t.generation ≤ 3)
      → (u.generation ≤ 4) × (is_active u.status ≡ true → u.generation ≤ 3)
  pub final : t.status ≡ TaskStatus.completed → u ≡ t

abbrev pub AllCalm : Option Task → Option Task → Type 0
AllCalm none none = Unit
AllCalm (some t) (some u) = Calm t u
AllCalm _ _ = ⊥

pub Calm-refl : (t : Task) → Calm t t
Calm-refl t = record {
  same_scope = refl;
  token = inl refl;
  stays = λ h. (h, refl);
  bound = λ h k. (h, k);
  final = λ h. refl;
}

pub AllCalm-refl : (o : Option Task) → AllCalm o o
AllCalm-refl none = tt
AllCalm-refl (some t) = Calm-refl t

pub AllCalm-change :
    (selects : Task → Bool) (change : Task → Task) (o : Option Task)
    → ((t : Task) → o ≡ some t → selects t ≡ true → Calm t (change t))
    → AllCalm o (change_task selects change o)
AllCalm-change selects change none h = tt
AllCalm-change selects change (some t) h = split (selects t) (h t refl)
  where
    split : (b : Bool) → (b ≡ true → Calm t (change t)) → Calm t (if b then change t else t)
    split true k = k refl
    split false k = Calm-refl t

pub AllCalm-some :
    (o o' : Option Task) (u : Task)
    → AllCalm o o'
    → o' ≡ some u
    → (t : Task) × (o ≡ some t) × Calm t u
AllCalm-some none none u c h = cc
AllCalm-some none (some v) u c h = absurd c
AllCalm-some (some t) none u c h = absurd c
AllCalm-some (some t) (some v) u c h = let same : v ≡ u = cc in (t, refl, rw (← same) c)

AllCalm-none : (o o' : Option Task) → AllCalm o o' → o ≡ none → o' ≡ none
AllCalm-none none none c h = refl
AllCalm-none none (some v) c h = absurd c
AllCalm-none (some t) o' c h = cc

-- No task of the scope runs under the token of its lease.
abbrev pub NoneRuns : Desk → Type 0
NoneRuns d =
    (k : ℕ) (t : Task)
    → d.tasks k ≡ some t
    → t.scope_id ≡ d.scope.id
    → t.status ≡ TaskStatus.running
    → ⊥

apart_calm :
    (d d' : Desk)
    → IsSound d
    → ((k : ℕ) → AllCalm (d.tasks k) (d'.tasks k))
    → (k j : ℕ) (t u : Task) → d'.tasks k ≡ some t
    → d'.tasks j ≡ some u
    → t.worker_token ≡ u.worker_token
    → 0 < t.worker_token
    → k ≡ j
apart_calm d d' s calm k j t u p q e pos =
    let (t', p', c) = AllCalm-some (d.tasks k) (d'.tasks k) t (calm k) p in
    let (u', q', c') = AllCalm-some (d.tasks j) (d'.tasks j) u (calm j) q in
    let r : t'.worker_token ≡ t.worker_token = ground (arith, c.token) in
    let r' : u'.worker_token ≡ u.worker_token = ground (arith, c'.token) in
    s.apart k j t' u' p' q' (omega arith) (omega arith)

-- Calm changes keep the invariant, if the lease stays or no task runs any more.
pub calm-IsSound :
    (d d' : Desk)
    → IsSound d
    → d'.scope.id ≡ d.scope.id
    → d'.next_task_id ≡ d.next_task_id
    → (d'.scope.lease_token ≡ d.scope.lease_token) ⊎ NoneRuns d'
    → ((k : ℕ) → AllCalm (d.tasks k) (d'.tasks k))
    → IsSound d'
calm-IsSound d d' s id next lease calm = record {
  held = λ k u p q r.
      let (t, p', c) = AllCalm-some (d.tasks k) (d'.tasks k) u (calm k) p in
      elim lease [
        | inl e ↦
            let h = s.held k t p' (ground (arith, c.same_scope)) (c.stays r).0 in
            let same = (c.stays r).1 in (omega (arith, h.0, same), omega (arith, h.1, same))
        | inr f ↦ absurd (f k u p q r)
      ];
  apart = apart_calm d d' s calm;
  bounded = λ k u p.
      let (t, p', c) = AllCalm-some (d.tasks k) (d'.tasks k) u (calm k) p in
      let b = s.bounded k t p' in c.bound b.0 b.1;
  free = λ k h. AllCalm-none (d.tasks k) (d'.tasks k) (calm k) (s.free k (omega arith));
}

-- A desk that has come from another one by operations whose claims take allowed fences: it is sound,
-- it is of the same scope, the completed tasks are the same, and the lease is the old one, or free,
-- or under an allowed fence.
pub record Follows (Allowed : ℕ → Type 0) (d d' : Desk) : Type 0 where
  pub sound : IsSound d'
  pub scope_id : d'.scope.id ≡ d.scope.id
  pub done :
      (k : ℕ) (t : Task)
      → d.tasks k ≡ some t
      → t.status ≡ TaskStatus.completed
      → d'.tasks k ≡ some t
  pub lease :
      (d'.scope.lease_token ≡ d.scope.lease_token)
      ⊎ (d'.scope.lease_token ≡ 0)
      ⊎ Allowed d'.scope.lease_token

AllCalm-final :
    (o o' : Option Task) (t : Task)
    → AllCalm o o'
    → o ≡ some t
    → t.status ≡ TaskStatus.completed
    → o' ≡ some t
AllCalm-final none none t c h q = cc
AllCalm-final none (some u) t c h q = absurd c
AllCalm-final (some s) none t c h q = absurd c
AllCalm-final (some s) (some u) t c h q =
    let same : s ≡ t = cc in
    let fixed : u ≡ s = c.final (ap (λ (x : Task). x.status) same ∙ q) in cc

module _ (Allowed : ℕ → Type 0) (d₀ : Desk) where
  pub calm-Follows :
      (d d' : Desk)
      → Follows Allowed d₀ d
      → d'.scope.id ≡ d.scope.id
      → d'.next_task_id ≡ d.next_task_id
      → (d'.scope.lease_token ≡ d.scope.lease_token) ⊎ ((d'.scope.lease_token ≡ 0) × NoneRuns d')
      → ((k : ℕ) → AllCalm (d.tasks k) (d'.tasks k))
      → Follows Allowed d₀ d'
  calm-Follows d d' s id next lease calm = record {
    sound =
        calm-IsSound d d' s.sound id next (elim lease [ inl e ↦ inl e | inr e ↦ inr (e.1) ]) calm;
    scope_id = id ∙ s.scope_id;
    done = λ k t p q. AllCalm-final (d.tasks k) (d'.tasks k) t (calm k) (s.done k t p q) q;
    lease = elim lease [
      | inr e ↦ inr (inl (e.0))
      | inl e ↦ elim s.lease [
        | inl q ↦ inl (e ∙ q)
        | inr (inl q) ↦ inr (inl (e ∙ q))
        | inr (inr q) ↦ inr (inr (subst Allowed (sym e) q))
      ]
    ];
  }

  -- What the operations write elsewhere.
  pub elsewhere-Follows :
      (d d' : Desk)
      → Follows Allowed d₀ d
      → d'.scope.id ≡ d.scope.id
      → d'.scope.lease_token ≡ d.scope.lease_token
      → d'.next_task_id ≡ d.next_task_id
      → d'.tasks ≡ d.tasks
      → Follows Allowed d₀ d'
  elsewhere-Follows d d' s id lease next tasks = calm-Follows d d' s id next (inl lease) λ k.
      subst (λ (o : Option Task). AllCalm (d.tasks k) o)
        (ap (λ (f : ℕ → Option Task). f k) (sym tasks)) (AllCalm-refl (d.tasks k))

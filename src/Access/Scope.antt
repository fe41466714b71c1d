-- ===== src/Access/Scope.antt =====
-- `departmentInScope` follows the parents: its loop ends, cycles included, and finds exactly the
-- departments at or above the start.
use resume_platform.Shared.{
  ℕ, zero, suc, ◌+◌, ◌≤◌, ◌<◌, ◌≡◌, ◌≢◌, refl, ap, sym, ◌∙◌, subst, Bool, true, false, not, ◌⊎◌,
  inl, inr, ◌↔◌, Option, none, some, List, [], ◌∷◌, In, any, length, keep, arith, ◌==◌, Bool-cases,
  Option-cases,
}
use resume_platform.Access.{Department, get, scope_loop, department_in_scope}

-- The department `root` is the department or above it.
pub data Above (table : List Department) (root : ℕ) : Option Department → Type 0 where
  here : (d : Department) → d.id ≡ root → Above table root (some d)
  up : (d : Department) → Above table root (get table d.parent_id) → Above table root (some d)

visited_by : List ℕ → Department → Bool
visited_by visited d = any (λ v. v == d.id) visited

-- The rows that a loop has not visited.
left : List ℕ → List Department → ℕ
left visited table = length (keep (λ d. not (visited_by visited d)) table)

left-less :
    (id : ℕ) (visited : List ℕ) (table : List Department)
    → left (id ∷ visited) table ≤ left visited table
unfolding left visited_by
left-less id visited [] = omega arith
left-less id visited (d ∷ table) = ground (arith, left-less id visited table)

left-fewer :
    (id : ℕ) (visited : List ℕ) (table : List Department) (d : Department)
    → get table id ≡ some d
    → d.id ≡ id
    → visited_by visited d ≡ false
    → left (id ∷ visited) table < left visited table
unfolding left visited_by get
left-fewer id visited [] d g e h = absurd (ground arith)
left-fewer id visited (x ∷ table) d g e h =
    ground (arith, left-less id visited table, left-fewer id visited table d)

id-get : (table : List Department) (id : ℕ) (d : Department) → get table id ≡ some d → d.id ≡ id
unfolding get
id-get [] id d h = absurd (ground arith)
id-get (x ∷ table) id d h = ground (arith, id-get table id d)

left-length : (visited : List ℕ) (table : List Department) → left visited table ≤ length table
unfolding left
left-length visited [] = omega arith
left-length visited (d ∷ table) = ground (arith, left-length visited table)

any-visited : (visited : List ℕ) (d : Department) → visited_by visited d ≡ true → In d.id visited
unfolding visited_by
any-visited [] d h = absurd (ground arith)
any-visited (v ∷ visited) d h = ground (arith, any-visited visited d)

some_injective : (x y : Department) → some x ≡ some y → x ≡ y
some_injective x y h = ap (λ (o : Option Department). elim o [ none ↦ x | some z ↦ z ]) h

module _ (table : List Department) (root : ℕ) where
  -- A department that is a row of the table.
  abbrev pub Stored : Option Department → Type 0
  Stored dep = (d : Department) → dep ≡ some d → get table d.id ≡ some d

  pub Stored-get : (id : ℕ) → Stored (get table id)
  Stored-get id d h = subst (λ n. get table n ≡ some d) (sym (id-get table id d h)) h

  scope_loop-ends :
      (fuel : ℕ) (visited : List ℕ) (dep : Option Department)
      → Stored dep
      → left visited table < fuel
      → (b : Bool) × (scope_loop table root fuel visited dep ≡ some b)
  unfolding scope_loop visited_by
  scope_loop-ends zero visited dep s h = absurd (ground arith)
  scope_loop-ends (suc fuel) visited none s h = (false, refl)
  scope_loop-ends (suc fuel) visited (some d) s h = elim (Bool-cases (visited_by visited d)) [
    | inl e ↦ (false, ground arith)
    | inr e ↦
        let fewer = left-fewer d.id visited table d (s d refl) refl e in
        let (b, p) =
          scope_loop-ends fuel (d.id ∷ visited) (get table d.parent_id) (Stored-get d.parent_id)
            (ground arith) in
        elim (Bool-cases (d.id == root)) [
          | inl q ↦ (true, ground arith)
          | inr q ↦ (b, ground arith)
        ]
  ]

  scope_loop-Above :
      (fuel : ℕ) (visited : List ℕ) (dep : Option Department)
      → scope_loop table root fuel visited dep ≡ some true
      → Above table root dep
  unfolding scope_loop
  scope_loop-Above zero visited dep h = absurd (ground arith)
  scope_loop-Above (suc fuel) visited none h = absurd (ground arith)
  scope_loop-Above (suc fuel) visited (some d) h = elim (Bool-cases (d.id == root)) [
    | inl q ↦ Above.here d (ground arith)
    | inr q ↦
        Above.up d (scope_loop-Above fuel (d.id ∷ visited) (get table d.parent_id) (ground arith))
  ]

  Above-some : (dep : Option Department) → Above table root dep → dep ≢ none
  Above-some dep (Above.here d p) h = cc
  Above-some dep (Above.up d a) h = cc

  -- Every visited department but the last leads to a visited one, and none is the root.
  Trail : List ℕ → Option Department → Type 0
  Trail visited dep =
      (v : ℕ)
      → In v visited
      → (v ≢ root)
        × ((d e : Department)
            → get table v ≡ some d
            → get table d.parent_id ≡ some e
            → In e.id visited ⊎ (dep ≡ some e))

  cycle-not_Above :
      (visited : List ℕ) (d : Department)
      → Trail visited (some d)
      → In d.id visited
      → (dep : Option Department) → Above table root dep
      → (x : Department) → dep ≡ some x
      → get table x.id ≡ some x
      → In x.id visited
      → ⊥
  unfolding Trail
  cycle-not_Above visited d t m dep (Above.here y p) x e s n =
      (t x.id n).0 (ap Department.id (sym (some_injective y x e)) ∙ p)
  cycle-not_Above visited d t m dep (Above.up y a) x e s n =
      elim (Option-cases (get table y.parent_id)) [
        | inl q ↦ Above-some (get table y.parent_id) a q
        | inr (z, q) ↦
            let parent : get table x.parent_id ≡ some z =
              subst (λ r. get table r.parent_id ≡ some z) (some_injective y x e) q in
            let again : In z.id visited = elim ((t x.id n).1 x z s parent) [
              | inl k ↦ k
              | inr k ↦ subst (λ r. In r.id visited) (some_injective d z k) m
            ] in
            cycle-not_Above visited d t m (get table y.parent_id) a z q (Stored-get y.parent_id z q)
              again
      ]

  Above-inverse :
      (dep : Option Department)
      → Above table root dep
      → (d : Department) → dep ≡ some d
      → (d.id ≡ root) ⊎ Above table root (get table d.parent_id)
  Above-inverse dep (Above.here y p) d e = inl (ap Department.id (sym (some_injective y d e)) ∙ p)
  Above-inverse dep (Above.up y a) d e =
      inr (subst (λ r. Above table root (get table r.parent_id)) (some_injective y d e) a)

  Trail-up :
      (visited : List ℕ) (d : Department)
      → get table d.id ≡ some d
      → d.id ≢ root
      → Trail visited (some d)
      → Trail (d.id ∷ visited) (get table d.parent_id)
  unfolding Trail
  Trail-up visited d s away t v (inl p) = (
    (λ q. away (p ∙ q)),
    λ x e g h. inr (
        subst (λ r. get table r.parent_id ≡ some e)
          (some_injective x d (sym g ∙ (ap (get table) (sym p) ∙ s))) h),
  )
  Trail-up visited d s away t v (inr m) = (
    (t v m).0,
    λ x e g h. elim ((t v m).1 x e g h) [
      | inl k ↦ inl (inr k)
      | inr k ↦ inl (inl (ap Department.id (some_injective d e k)))
    ],
  )

  scope_loop-not_Above :
      (fuel : ℕ) (visited : List ℕ) (dep : Option Department)
      → Stored dep
      → Trail visited dep
      → scope_loop table root fuel visited dep ≡ some false
      → Above table root dep
      → ⊥
  unfolding scope_loop Trail visited_by
  scope_loop-not_Above zero visited dep s t h a = ground arith
  scope_loop-not_Above (suc fuel) visited none s t h a = Above-some none a refl
  scope_loop-not_Above (suc fuel) visited (some d) s t h a =
      elim (Bool-cases (visited_by visited d)) [
        | inl e ↦
            let m = any-visited visited d e in
            cycle-not_Above visited d t m (some d) a d refl (s d refl) m
        | inr e ↦
            let away : d.id ≢ root = λ q. ground arith in
            elim (Above-inverse (some d) a d refl) [
              | inl q ↦ away q
              | inr above ↦
                  scope_loop-not_Above fuel (d.id ∷ visited) (get table d.parent_id)
                    (Stored-get d.parent_id) (Trail-up visited d (s d refl) away t) (ground arith)
                    above
            ]
      ]

  -- The loop ends, with the answer that `departmentInScope` returns, within two rounds more than the
  -- table has rows; and the answer is yes exactly where the root is the department or one of the
  -- departments above it, whatever cycles the parents form. The department is a row of the table or
  -- missing.
  pub department_in_scope_iff :
      (dep : Option Department)
      → Stored dep
      → (b : Bool) × (scope_loop table root (length table + 2) [] dep ≡ some b)
        × (department_in_scope table dep root ≡ b)
        × ((b ≡ true) ↔ Above table root dep)
  unfolding department_in_scope Trail
  department_in_scope_iff dep s =
      let (b, p) =
        scope_loop-ends (length table + 2) [] dep s (omega (arith, left-length [] table)) in
      (
        b,
        p,
        ap (λ (o : Option Bool). elim o [ none ↦ false | some b ↦ b ]) p,
        (
          (λ h. scope_loop-Above (length table + 2) [] dep (p ∙ ap some h)),
          λ a. elim (Bool-cases b) [
            | inl e ↦ e
            | inr e ↦ absurd (
                scope_loop-not_Above (length table + 2) [] dep s (λ v m. absurd m) (p ∙ ap some e)
                  a)
          ],
        ),
      )

  pub department_in_scope-Above :
      (dep : Option Department)
      → Stored dep
      → department_in_scope table dep root ≡ true
      → Above table root dep
  department_in_scope-Above dep s h =
      let (b, ends, same, answer) = department_in_scope_iff dep s in answer.0 (sym same ∙ h)

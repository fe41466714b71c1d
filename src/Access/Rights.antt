-- ===== src/Access/Rights.antt =====
-- What the permission checks grant: who may manage, feed back on and export an attempt.
use resume_platform.Shared.{
  false, ◌<◌, ◌≡◌, subst, String, true, ◌&&◌, ◌⊎◌, inl, inr, some, List, In, any-find, any-In,
  Bool-cases, Option-cases, arith, ◌==◌, eq_iff,
}
use resume_platform.Access.{
  Contact, eligible_screener, Attempt, Department, DepartmentGrant, Principal, can_export_attempt,
  can_feedback_attempt, can_manage_attempt, can_transfer_attempt, contact_includes_descendants,
  department_grants, get, grant_can_delegate, grant_can_feedback, grant_can_view_attempt,
  grant_covers, grant_has, has, id_of, is_department_hr, is_job_department, target_allowed,
}
use resume_platform.Access.Scope.{Above, Stored, Stored-get, department_in_scope-Above}

-- A grant reaches a department: it is the grant's own, or the grant includes descendants and its
-- department is above.
pub Reaches : List Department → DepartmentGrant → Department → Type 0
Reaches table grant d =
    (g : Department) × (grant.department ≡ some g)
    × ((g.id ≡ d.id)
        ⊎ ((contact_includes_descendants grant.contact.contact_level ≡ true)
            × Above table g.id (some d)))

module _ (table : List Department) where
  grant_covers-Reaches :
      (grant : DepartmentGrant) (d : Department)
      → Stored table 0 (some d)
      → grant_covers table grant (some d) ≡ true
      → Reaches table grant d
  unfolding grant_covers Reaches
  grant_covers-Reaches grant d s h = elim (Option-cases grant.department) [
    | inl e ↦ absurd (ground arith)
    | inr (g, e) ↦ elim (Bool-cases (g.id == d.id)) [
      | inl q ↦ (g, e, inl (ground arith))
      | inr q ↦
          (g, e, inr (ground arith, department_in_scope-Above table g.id (some d) s (ground arith)))
    ]
  ]

  grant_has-active :
      (p : Principal) (grant : DepartmentGrant) (code : String)
      → grant_has p grant code ≡ true
      → grant.contact.is_active ≡ true
  unfolding grant_has
  grant_has-active p grant code h = ground arith

  -- Whoever manages an attempt has the permission, and sees every attempt or is an active department
  -- HR whose grant has the permission and reaches the attempt's current department.
  pub can_manage_attempt-Reaches :
      (p : Principal) (at : Attempt) (code : String)
      → can_manage_attempt table p at code ≡ true
      → (has p code ≡ true)
        × ((has p "attempt.view_all" ≡ true)
            ⊎ ((grant : DepartmentGrant) × (d : Department) × In grant (department_grants p)
                × (get table at.current_department_id ≡ some d)
                × (grant.contact.is_active ≡ true)
                × (grant.contact.contact_level ≡ "secondary_hr")
                × (grant_has p grant code ≡ true)
                × Reaches table grant d))
  unfolding can_manage_attempt
  can_manage_attempt-Reaches p at code h = elim (Bool-cases (has p "attempt.view_all")) [
    | inl e ↦ (ground arith, inl e)
    | inr e ↦ elim (Option-cases (get table at.current_department_id)) [
      | inl q ↦ absurd (ground arith)
      | inr (d, q) ↦
          let (grant, m, t) =
            any-find
              (λ (grant : DepartmentGrant).
                is_department_hr grant.contact.contact_level
                && grant_has p grant code
                && grant_has p grant "attempt.view_department"
                && grant_covers table grant (some d))
              (department_grants p) (ground arith) in
          (
            ground arith,
            inr (
              grant,
              d,
              m,
              q,
              ground (arith, grant_has-active p grant code),
              ground (arith, eq_iff grant.contact.contact_level "secondary_hr"),
              ground arith,
              grant_covers-Reaches grant d
                  (subst (Stored table 0) q (Stored-get table 0 at.current_department_id))
                  (ground arith),
            ),
          )
    ]
  ]

-- An attempt with a screener takes feedback from that screener alone: whoever may give it has an
-- active grant for the attempt's department whose contact is the screener.
can_feedback_attempt-screener :
    (p : Principal) (at : Attempt)
    → 0 < at.assigned_screener_id
    → can_feedback_attempt p at ≡ true
    → (grant : DepartmentGrant) × In grant (department_grants p)
      × (grant.contact.id ≡ at.assigned_screener_id)
      × (grant.contact.contact_level ≡ "tertiary")
      × (id_of grant.department ≡ at.current_department_id)
      × (grant_has p grant "attempt.feedback" ≡ true)
unfolding can_feedback_attempt grant_can_feedback
can_feedback_attempt-screener p at h t =
    let (grant, m, q) = any-find (grant_can_feedback p at) (department_grants p) t in
    (
      grant,
      m,
      ground arith,
      ground (arith, eq_iff grant.contact.contact_level "tertiary"),
      ground arith,
      ground arith,
    )

module _ (table : List Department) where
  -- Whoever exports an attempt without the right to all attempts has an active grant that may view
  -- and export it and reaches the attempt's current department.
  can_export_attempt-Reaches :
      (p : Principal) (at : Attempt)
      → has p "attempt.view_all" ≡ false
      → can_export_attempt table p at ≡ true
      → (grant : DepartmentGrant) × (d : Department) × In grant (department_grants p)
        × (get table at.current_department_id ≡ some d)
        × (grant_can_view_attempt p grant at ≡ true)
        × (grant_has p grant "attempt.export" ≡ true)
        × Reaches table grant d
  unfolding can_export_attempt
  can_export_attempt-Reaches p at e h = elim (Option-cases (get table at.current_department_id)) [
    | inl q ↦ absurd (ground arith)
    | inr (d, q) ↦
        let (grant, m, t) =
          any-find
            (λ (grant : DepartmentGrant).
              grant_can_view_attempt p grant at
              && grant_has p grant "attempt.export"
              && grant_covers table grant (some d))
            (department_grants p) (ground arith) in
        (
          grant,
          d,
          m,
          q,
          ground arith,
          ground arith,
          grant_covers-Reaches table grant d
              (subst (Stored table 0) q (Stored-get table 0 at.current_department_id))
              (ground arith),
        )
  ]

  -- Whoever transfers an attempt to a department without the right to all attempts has a delegating
  -- grant that reaches the attempt's current department, and the target is a department of the
  -- first or second level; a department HR reaches the target too.
  can_transfer_attempt-Reaches :
      (p : Principal) (at : Attempt) (target : Department)
      → get table target.id ≡ some target
      → has p "attempt.view_all" ≡ false
      → can_transfer_attempt table p at (some target) ≡ true
      → (grant : DepartmentGrant) × (d : Department) × In grant (department_grants p)
        × (get table at.current_department_id ≡ some d)
        × (grant_can_delegate p grant ≡ true)
        × Reaches table grant d
        × (is_job_department target.level ≡ true)
        × (grant.contact.contact_level ≡ "secondary_hr" → Reaches table grant target)
  unfolding can_transfer_attempt target_allowed
  can_transfer_attempt-Reaches p at target stored e h =
      elim (Option-cases (get table at.current_department_id)) [
        | inl q ↦ absurd (ground arith)
        | inr (d, q) ↦
            let (grant, m, t) =
              any-find
                (λ (grant : DepartmentGrant).
                  grant_can_delegate p grant
                  && grant_covers table grant (some d)
                  && target_allowed table grant (some target))
                (department_grants p) (ground arith) in
            (
              grant,
              d,
              m,
              q,
              ground arith,
              grant_covers-Reaches table grant d
                  (subst (Stored table 0) q (Stored-get table 0 at.current_department_id))
                  (ground arith),
              ground arith,
              λ hr.
                  grant_covers-Reaches table grant target
                    (subst (Stored table 0) stored (Stored-get table 0 target.id))
                    (ground (arith, eq_iff grant.contact.contact_level "secondary_hr")),
            )
      ]

-- A grant carries the row of its contact, and the department of that row.
abbrev pub Loaded : Contact → DepartmentGrant → Type 0
Loaded contact grant =
    grant.contact.id ≡ contact.id
    → (grant.contact.contact_level ≡ contact.contact_level)
      × (id_of grant.department ≡ contact.department_id)

-- An eligible screener to whom the attempt is assigned may give the feedback, where the principal's
-- grants carry the rows of their contacts.
eligible_screener-can_feedback_attempt :
    (p : Principal) (contact : Contact) (at : Attempt)
    → 0 < contact.id
    → ((grant : DepartmentGrant) → In grant (department_grants p) → Loaded contact grant)
    → eligible_screener (some p) contact at ≡ true
    → can_feedback_attempt p
        (record at { assigned_screener_id = contact.id; screener_assigned = true })
      ≡ true
unfolding eligible_screener can_feedback_attempt grant_can_feedback
eligible_screener-can_feedback_attempt p contact at positive loaded h =
    let (grant, m, t) =
      any-find
        (λ (grant : DepartmentGrant).
          grant.contact.id == contact.id
          && grant_has p grant "attempt.view_department"
          && grant_has p grant "attempt.feedback")
        (department_grants p) (ground arith) in
    let (level, place) = loaded grant m (ground arith) in
    any-In
      (grant_can_feedback p
        (record at { assigned_screener_id = contact.id; screener_assigned = true }))
      (department_grants p) grant m
      (ground (
        arith,
        eq_iff grant.contact.contact_level "tertiary",
        eq_iff contact.contact_level "tertiary",
      ))

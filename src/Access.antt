-- ===== src/Access.antt =====
-- Who may act on an attempt: internal/platform/contact_grants.go, departments.go, screeners.go and
-- the permissions of a principal in auth.go. A row of JSON is a record; a missing number is 0.
pub mod Tests
pub mod Scope
pub mod Rights
use text.Mathlib.Text.{starts_with}
use resume_platform.Shared.{
  ℕ, zero, suc, ◌+◌, String, Bool, true, false, not, ◌&&◌, ◌||◌, Option, none, some, List, [], ◌∷◌,
  any, length, ltb, ◌==◌, str_eq, if◌then◌else◌,
}

pub record Department : Type 0 where
  pub id : ℕ
  pub level : ℕ
  pub parent_id : ℕ

pub record Contact : Type 0 where
  pub id : ℕ
  pub department_id : ℕ
  pub contact_level : String
  pub is_active : Bool
  pub can_delegate : Bool

-- `DepartmentGrant`
pub record DepartmentGrant : Type 0 where
  pub contact : Contact
  pub department : Option Department

-- `Principal`, which is never nil once a request is authenticated; a map is a function.
pub record Principal : Type 0 where
  pub is_superuser : Bool
  pub permissions : String → Bool
  pub roles : List String
  pub contact : Option Contact
  pub department : Option Department
  pub grants : Option (List DepartmentGrant)
  pub global_permissions : Option (String → Bool)
  pub grant_permissions : String → String → Bool

-- The part of an attempt that the checks read.
pub record Attempt : Type 0 where
  pub status : String
  pub current_department_id : ℕ
  pub assigned_screener_id : ℕ
  pub screener_assigned : Bool

-- `isJobDepartment`
abbrev pub is_job_department : ℕ → Bool
is_job_department level = level == 1 || level == 2

-- `contactIncludesDescendants`
abbrev pub contact_includes_descendants : String → Bool
contact_includes_descendants level = str_eq level "secondary" || str_eq level "secondary_hr"

-- `validContactLevel`
abbrev valid_contact_level : String → Bool
valid_contact_level level = any (str_eq level) ("secondary" ∷ "tertiary" ∷ "secondary_hr" ∷ [])

-- `isDepartmentHR`
abbrev pub is_department_hr : String → Bool
is_department_hr role = str_eq role "secondary_hr"

-- `contactRoleMatchesDepartment`; a department that is nil has level 0.
abbrev level_of : Option Department → ℕ
level_of none = 0
level_of (some d) = d.level

pub contact_role_matches_department : String → Option Department → Bool
contact_role_matches_department role department =
    is_job_department (level_of department)
    && (not (str_eq role "secondary_hr") || level_of department == 2)

-- `departmentGrants`
pub department_grants : Principal → List DepartmentGrant
department_grants p = elim p.grants [
  | some grants ↦ grants
  | none ↦ (elim p.contact [
    | none ↦ []
    | some c ↦ (elim p.department [
      | none ↦ []
      | some d ↦ record { contact = c; department = some d } ∷ []
    ])
  ])
]

-- `isAdministrator`, `has` and `grantHas`
pub is_administrator : Principal → Bool
is_administrator p = p.is_superuser || any (str_eq "管理员") p.roles

unfoldable pub has : Principal → String → Bool
has p code = p.permissions code && (not (starts_with code "settings.") || is_administrator p)

pub grant_has : Principal → DepartmentGrant → String → Bool
grant_has p grant code =
    if not grant.contact.is_active
      || (not (valid_contact_level grant.contact.contact_level)
          || not (contact_role_matches_department grant.contact.contact_level grant.department))
    then false
    else (elim p.global_permissions [
      | none ↦ has p code
      | some global ↦
          if p.is_superuser
          then has p code
          else global code || p.grant_permissions grant.contact.contact_level code
    ])

-- The rows of `core_department`, and `a.get` by identifier.
pub get : List Department → ℕ → Option Department
get [] id = none
get (d ∷ ds) id = let rest = get ds id in if d.id == id then some d else rest

-- The loop of `departmentInScope`, with its `visited` map as the list of keys, on fuel; `none` is
-- out of fuel.
pub scope_loop : List Department → ℕ → ℕ → List ℕ → Option Department → Option Bool
scope_loop table root zero visited department = none
scope_loop table root (suc fuel) visited none = some false
scope_loop table root (suc fuel) visited (some d) =
    let rest = scope_loop table root fuel (d.id ∷ visited) (get table d.parent_id) in
    if any (λ v. v == d.id) visited then some false else if d.id == root then some true else rest

-- `departmentInScope`, whose loop has an answer within these rounds.
pub department_in_scope : List Department → Option Department → ℕ → Bool
department_in_scope table department root =
    elim (scope_loop table root (length table + 2) [] department) [ none ↦ false | some b ↦ b ]

-- `grantCovers`
pub grant_covers : List Department → DepartmentGrant → Option Department → Bool
grant_covers table grant department = elim grant.department [
  | none ↦ false
  | some g ↦ (elim department [
    | none ↦ false
    | some d ↦
        if g.id == d.id
        then true
        else contact_includes_descendants grant.contact.contact_level
          && department_in_scope table (some d) g.id
  ])
]

-- `grantCanViewAttempt`
pub grant_can_view_attempt : Principal → DepartmentGrant → Attempt → Bool
grant_can_view_attempt p grant at =
    if not (grant_has p grant "attempt.view_department")
    then false
    else if is_department_hr grant.contact.contact_level
    then true
    else if not (any (str_eq at.status) ("dispatched" ∷ "passed" ∷ "rejected" ∷ []))
    then false
    else not (str_eq grant.contact.contact_level "tertiary")
      || at.assigned_screener_id == grant.contact.id

-- `canManageAttempt`; a department that is missing is the error of `a.get`.
pub can_manage_attempt : List Department → Principal → Attempt → String → Bool
can_manage_attempt table p at code =
    if not (has p code)
    then false
    else if has p "attempt.view_all"
    then true
    else (elim (get table at.current_department_id) [
      | none ↦ false
      | some dep ↦
          any
            (λ grant.
              is_department_hr grant.contact.contact_level
              && grant_has p grant code
              && grant_has p grant "attempt.view_department"
              && grant_covers table grant (some dep))
            (department_grants p)
    ])

-- `grantCanDelegate`
pub grant_can_delegate : Principal → DepartmentGrant → Bool
grant_can_delegate p grant =
    grant_has p grant "attempt.view_department"
    && grant_has p grant "attempt.transfer_department"
    && contact_includes_descendants grant.contact.contact_level
    && grant.contact.can_delegate

-- The target test of `canTransferAttempt`.
pub target_allowed : List Department → DepartmentGrant → Option Department → Bool
target_allowed table grant none = true
target_allowed table grant (some target) =
    is_job_department target.level
    && (not (is_department_hr grant.contact.contact_level)
        || grant_covers table grant (some target))

-- `canTransferAttempt`
pub can_transfer_attempt : List Department → Principal → Attempt → Option Department → Bool
can_transfer_attempt table p at target =
    if not (has p "attempt.transfer_department")
    then false
    else if has p "attempt.view_all"
    then true
    else (elim (get table at.current_department_id) [
      | none ↦ false
      | some current ↦
          any
            (λ grant.
              grant_can_delegate p grant
              && grant_covers table grant (some current)
              && target_allowed table grant target)
            (department_grants p)
    ])

-- `canFeedbackAttempt`, where `num` of a nil department's identifier is 0.
abbrev pub id_of : Option Department → ℕ
id_of none = 0
id_of (some d) = d.id

pub grant_can_feedback : Principal → Attempt → DepartmentGrant → Bool
grant_can_feedback p at grant =
    grant_has p grant "attempt.view_department"
    && grant_has p grant "attempt.feedback"
    && id_of grant.department == at.current_department_id
    && (if ltb 0 at.assigned_screener_id || at.screener_assigned
        then at.assigned_screener_id == grant.contact.id
          && str_eq grant.contact.contact_level "tertiary"
        else str_eq grant.contact.contact_level "secondary")

pub can_feedback_attempt : Principal → Attempt → Bool
can_feedback_attempt p at = any (grant_can_feedback p at) (department_grants p)

-- `canExportAttempt`
pub can_export_attempt : List Department → Principal → Attempt → Bool
can_export_attempt table p at =
    if has p "attempt.view_all"
    then has p "attempt.export"
    else (elim (get table at.current_department_id) [
      | none ↦ false
      | some department ↦
          any
            (λ grant.
              grant_can_view_attempt p grant at
              && grant_has p grant "attempt.export"
              && grant_covers table grant (some department))
            (department_grants p)
    ])

-- `eligibleScreener`: `found` is the principal of the active user with the contact's employee number.
pub eligible_screener : Option Principal → Contact → Attempt → Bool
eligible_screener found contact at =
    if not (str_eq contact.contact_level "tertiary")
      || (not contact.is_active || not (contact.department_id == at.current_department_id))
    then false
    else (elim found [
      | none ↦ false
      | some p ↦
          any
            (λ grant.
              grant.contact.id == contact.id
              && grant_has p grant "attempt.view_department"
              && grant_has p grant "attempt.feedback")
            (department_grants p)
    ])

-- ===== src/Access/Tests.antt =====
-- Three departments, two of which are each other's parent, and a department HR and a screener.
use resume_platform.Shared.{
  inl, inr, sym, ap, ℕ, String, ◌≡◌, refl, Bool, length, ◌+◌, true, false, none, some, List, [],
  ◌∷◌, In, ◌⊎◌, ◌↔◌, str_eq,
}
use resume_platform.Access.{
  eligible_screener, can_export_attempt, grant_can_view_attempt, can_transfer_attempt,
  grant_can_delegate, target_allowed, Department, Contact, DepartmentGrant, Principal, Attempt, get,
  has, grant_has, department_grants, scope_loop, department_in_scope, grant_covers,
  can_manage_attempt, grant_can_feedback, can_feedback_attempt, id_of,
  contact_role_matches_department, is_administrator,
}
use resume_platform.Access.Scope.{Above, Stored, Stored-get, department_in_scope_iff}
use resume_platform.Access.Rights.{Loaded, Reaches, can_manage_attempt-Reaches}

abbrev sales : Department
sales = record { id = 2; level = 2; parent_id = 3 }

abbrev region : Department
region = record { id = 3; level = 2; parent_id = 2 }

abbrev departments : List Department
departments = sales ∷ region ∷ record { id = 4; level = 1; parent_id = 0 } ∷ []

sales-Stored : Stored departments 4 (some sales)
unfolding get
sales-Stored = Stored-get departments 4 2

department_in_scope_iff_example :
    (b : Bool) × (scope_loop departments 4 (length departments + 2) [] (some sales) ≡ some b)
    × (department_in_scope departments (some sales) 4 ≡ b)
    × ((b ≡ true) ↔ Above departments 4 (some sales))
department_in_scope_iff_example = department_in_scope_iff departments 4 (some sales) sales-Stored

abbrev contact : ℕ → String → Contact
contact id level = record {
  id = id;
  department_id = 3;
  contact_level = level;
  is_active = true;
  can_delegate = false;
}

abbrev person : Department → ℕ → String → Principal
person d id level = record {
  is_superuser = false;
  permissions = λ code. str_eq code "attempt.dispatch";
  roles = [];
  contact = none;
  department = none;
  grants = some (record { contact = contact id level; department = some d } ∷ []);
  global_permissions = some (λ _. false);
  grant_permissions = λ _ _. true;
}

abbrev attempt : Attempt
attempt = record {
  status = "dispatched";
  current_department_id = 2;
  assigned_screener_id = 11;
  screener_assigned = true;
}

hr_manages :
    can_manage_attempt departments (person region 10 "secondary_hr") attempt "attempt.dispatch"
    ≡ true
unfolding get has grant_has department_grants scope_loop department_in_scope grant_covers
    can_manage_attempt contact_role_matches_department is_administrator
hr_manages = refl

can_manage_attempt-Reaches_example :
    (has (person region 10 "secondary_hr") "attempt.dispatch" ≡ true)
    × ((has (person region 10 "secondary_hr") "attempt.view_all" ≡ true)
        ⊎ ((grant : DepartmentGrant) × (d : Department) × In grant
              (department_grants (person region 10 "secondary_hr"))
            × (get departments 2 ≡ some d)
            × (grant.contact.is_active ≡ true)
            × (grant.contact.contact_level ≡ "secondary_hr")
            × (grant_has (person region 10 "secondary_hr") grant "attempt.dispatch" ≡ true)
            × Reaches departments grant d))
can_manage_attempt-Reaches_example =
    can_manage_attempt-Reaches departments (person region 10 "secondary_hr") attempt
      "attempt.dispatch" hr_manages

screener_feeds_back : can_feedback_attempt (person sales 11 "tertiary") attempt ≡ true
unfolding has grant_has department_grants grant_can_feedback can_feedback_attempt
    contact_role_matches_department is_administrator
screener_feeds_back = refl

exporter_exports : can_export_attempt departments (person region 10 "secondary_hr") attempt ≡ true
unfolding get has grant_has department_grants scope_loop department_in_scope grant_covers
    can_export_attempt grant_can_view_attempt contact_role_matches_department is_administrator
exporter_exports = refl

not_all : has (person region 10 "secondary_hr") "attempt.view_all" ≡ false
unfolding has is_administrator
not_all = refl

abbrev delegate : Principal
delegate = record (person region 10 "secondary_hr") {
  permissions = λ code. str_eq code "attempt.transfer_department";
  grants = some (
      record {
        contact = record (contact 10 "secondary_hr") { can_delegate = true };
        department = some region;
      }
      ∷ []);
}

delegate_transfers : can_transfer_attempt departments delegate attempt (some region) ≡ true
unfolding get has grant_has department_grants scope_loop department_in_scope grant_covers
    can_transfer_attempt grant_can_delegate target_allowed contact_role_matches_department
    is_administrator
delegate_transfers = refl

delegate_not_all : has delegate "attempt.view_all" ≡ false
unfolding has is_administrator
delegate_not_all = refl

region-stored : get departments 3 ≡ some region
unfolding get
region-stored = refl

abbrev screener : Contact
screener = record (contact 11 "tertiary") { department_id = 2 }

abbrev screener_principal : Principal
screener_principal = record (person sales 11 "tertiary") {
  grants = some (record { contact = screener; department = some sales } ∷ []);
}

screener-Loaded :
    (grant : DepartmentGrant)
    → In grant (department_grants screener_principal)
    → Loaded screener grant
unfolding department_grants
screener-Loaded grant (inl p) e =
    (ap (λ g. g.contact.contact_level) (sym p), ap (λ g. id_of g.department) (sym p))
screener-Loaded grant (inr x) e = elim x [ ]

screener_eligible : eligible_screener (some screener_principal) screener attempt ≡ true
unfolding eligible_screener has grant_has department_grants contact_role_matches_department
    is_administrator
screener_eligible = refl

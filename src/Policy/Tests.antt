-- ===== src/Policy/Tests.antt =====
-- A small policy and a candidate with two volunteers, with the theorems about policies at them.
use Prim.Native.Char.{Char}
use resume_platform.Shared.Text.{is_space, trim_space}
use resume_platform.Shared.{
  ℕ, String, ◌≡◌, ◌≢◌, refl, true, false, Option, none, some, List, [], ◌∷◌, In, inl, inr, pos, any,
  ok, int_lt, str_eq, if◌then◌else◌,
}
use resume_platform.Policy.Standards.{
  Standard, Policy, Volunteer, policy_item, normalized, considered, names_match, find_standard,
  resolve_application_standard,
}
use resume_platform.Policy.Validate.{
  each, validate_policy_strings, is_lower, code_tail, is_pool_code, check_items, check_name,
  check_tag, check_pool, check_tags, check_field, check_standard, check_rule, check_demand_count,
  check_reachable, add_names, add_mappings, validate_pool_policy,
}
use resume_platform.Policy.Validate.Unambiguous.{resolve_application_standard-finds}
use resume_platform.Policy.Snapshot.{
  decide_current, find_current, Candidate, AdmissionRule, Snapshot, takes, tags_match,
  education_match, admitted, admission, prepare_snapshot,
}
use resume_platform.Policy.Snapshot.Admission.{fits, admission-admits}
use resume_platform.Policy.Continuation.{continued_snapshot, prepare_snapshot-continued_snapshot}
use resume_platform.Policy.Preparation.{
  HasIssue, prepare_snapshot-refuses, prepare_snapshot-unambiguous,
}

-- The texts below have no upper-case letters.
abbrev same_case : Char → Char
same_case c = c

abbrev jobs : ℕ → Option String
jobs id = some "gw"

abbrev backend : Standard
backend = record {
  code = "backend";
  name = "backend";
  entity = "gw";
  pool_code = "gw_pool";
  application_names = "go engineer" ∷ [];
  required_majors = [];
  responsibilities = "services";
  tag_codes = "go" ∷ [];
  configuration_issue = "";
  active = none;
}

abbrev frontend : Standard
frontend = record backend {
  code = "frontend";
  name = "frontend";
  application_names = "web engineer" ∷ [];
  active = some true;
}

abbrev small_policy : Policy
small_policy = record {
  tags =
      record {
        code = "go";
        name = "go";
        category = "skill";
        description = "writes go";
        active = none;
      }
      ∷ [];
  pools = record { code = "gw_pool"; name = "pool"; entity = "gw"; active = none } ∷ [];
  standards = frontend ∷ backend ∷ [];
  rules =
      record {
        job_id = 3;
        pool_code = "gw_pool";
        priority = pos 1;
        required_tags = "go" ∷ [];
        preferred_tags = [];
        active = none;
      }
      ∷ [];
}

small_policy-valid : validate_pool_policy same_case jobs small_policy ≡ ok tt
unfolding each validate_policy_strings is_lower code_tail is_pool_code check_items check_name
    check_tag check_pool check_tags check_field check_standard check_rule check_demand_count
    check_reachable add_names add_mappings validate_pool_policy policy_item normalized trim_space
    is_space
small_policy-valid = refl

abbrev volunteer : String → String → Volunteer
volunteer ref date = record {
  ref = ref;
  entity = "gw";
  position_name = "go engineer";
  apply_date = date;
  rejected = false;
}

-- A standard whose open issue is spelled like the status of an ambiguous mapping.
abbrev issue_backend : Standard
issue_backend = record backend { configuration_issue = "job_mapping_ambiguous" }

abbrev issue_policy : Policy
issue_policy = record small_policy { standards = issue_backend ∷ [] }

issue_policy-valid : validate_pool_policy same_case jobs issue_policy ≡ ok tt
unfolding each validate_policy_strings is_lower code_tail is_pool_code check_items check_name
    check_tag check_pool check_tags check_field check_standard check_rule check_demand_count
    check_reachable add_names add_mappings validate_pool_policy policy_item normalized trim_space
    is_space
issue_policy-valid = refl

backend-considered : considered same_case small_policy (volunteer "v1" "") backend ≡ true
unfolding considered policy_item normalized is_space
backend-considered = refl

backend-names_match : names_match same_case (volunteer "v1" "") backend ≡ true
unfolding names_match normalized is_space
backend-names_match = refl

gw_not_blank : str_eq (trim_space "gw") "" ≡ false
unfolding trim_space is_space
gw_not_blank = refl

services_not_blank : str_eq (trim_space "services") "" ≡ false
unfolding trim_space is_space
services_not_blank = refl

resolve_application_standard-finds_example :
    resolve_application_standard same_case small_policy (volunteer "v1" "")
    ≡ ("ready", some backend)
resolve_application_standard-finds_example =
    resolve_application_standard-finds same_case jobs small_policy (volunteer "v1" "") backend
      small_policy-valid gw_not_blank (inr (inl refl)) backend-considered backend-names_match refl
      services_not_blank

backend_resolved :
    resolve_application_standard same_case small_policy (volunteer "v1" "")
    ≡ ("ready", some backend)
unfolding resolve_application_standard find_standard considered names_match policy_item normalized
    trim_space is_space
backend_resolved = refl

abbrev rule : String → ℕ → List String → AdmissionRule
rule ref priority educations = record {
  ref = ref;
  priority = pos priority;
  first_tag_refs = "t1" ∷ [];
  highest_tag_refs = "t2" ∷ [];
  educations = educations;
}

abbrev graduate : Candidate
graduate = record {
  household_province = "北京市";
  highest_degree_province = "";
  first_degree_province = "";
  first_degree_tag_ref = "t1";
  highest_degree_tag_ref = "t2";
  highest_education = "本科";
}

abbrev strict_rules : List AdmissionRule
strict_rules = rule "r1" 1 ("博士" ∷ []) ∷ rule "r2" 2 ("硕士" ∷ []) ∷ []

abbrev open_rules : List AdmissionRule
open_rules = rule "r3" 5 [] ∷ strict_rules

abbrev two_volunteers : Snapshot
two_volunteers = record {
  candidate = graduate;
  volunteers = volunteer "v1" "2025-03-01" ∷ volunteer "v2" "2025-01-01" ∷ [];
  admission_rules = strict_rules;
  retry_volunteer_ref = "";
  pool_policy = small_policy;
}

effective : takes "" (volunteer "v1" "2025-03-01") ≡ true
unfolding takes
effective = refl

none_fits : any (fits graduate) strict_rules ≡ false
unfolding tags_match education_match
none_fits = refl

strict_rules_given : strict_rules ≢ []
strict_rules_given h = cc

prepare_snapshot-refuses_example :
    ((prepare_snapshot same_case two_volunteers).admission_passed ≡ false)
    × ((prepare_snapshot same_case two_volunteers).standard ≡ none)
    × ((prepare_snapshot same_case two_volunteers).outcome ≡ (
        if any (tags_match graduate) strict_rules
        then "education_not_eligible"
        else "school_not_eligible"))
prepare_snapshot-refuses_example =
    prepare_snapshot-refuses same_case two_volunteers (volunteer "v1" "2025-03-01") (inl refl)
      effective strict_rules_given none_fits

abbrev issue_snapshot : Snapshot
issue_snapshot = record two_volunteers {
  volunteers = volunteer "v1" "" ∷ [];
  admission_rules = [];
  pool_policy = issue_policy;
}

issue_outcome : (prepare_snapshot same_case issue_snapshot).outcome ≡ "job_mapping_ambiguous"
unfolding prepare_snapshot decide_current find_current admission takes resolve_application_standard
    find_standard considered names_match policy_item normalized trim_space is_space
issue_outcome = refl

prepare_snapshot-unambiguous_example : HasIssue same_case issue_snapshot "job_mapping_ambiguous"
prepare_snapshot-unambiguous_example =
    prepare_snapshot-unambiguous same_case issue_snapshot jobs issue_policy-valid issue_outcome

open_fits : fits graduate (rule "r3" 5 []) ≡ true
unfolding tags_match education_match
open_fits = refl

admission-admits_example :
    (q : AdmissionRule) × In q open_rules
    × (fits graduate q ≡ true)
    × (admission graduate open_rules ≡ admitted q.ref)
    × (int_lt (pos 5) q.priority ≡ false)
admission-admits_example =
    admission-admits graduate open_rules (rule "r3" 5 []) (inl refl) open_fits

abbrev rejected_ref : String
rejected_ref = "v2"

rejected_ref_given : rejected_ref ≢ ""
rejected_ref_given h = cc

prepare_snapshot-continued_snapshot_example :
    (prepare_snapshot same_case (continued_snapshot "v2" two_volunteers)).current_volunteer_ref
    ≢ "v2"
prepare_snapshot-continued_snapshot_example =
    prepare_snapshot-continued_snapshot same_case "v2" two_volunteers rejected_ref_given

-- ===== src/Policy/Snapshot.antt =====
-- `prepareSnapshot` and `preferredEntity` of internal/platform/policy.go: the order of a candidate's
-- volunteers, the current one, and the admission rules, on records in place of JSON objects. A text
-- that is missing is empty, as `str` makes it.
pub mod Volunteers
pub mod Admission
use Prim.Native.Char.{Char}
use text.Mathlib.Text.{find?}
use resume_platform.Shared.{
  ℕ, ◌+◌, String, Bool, true, false, not, ◌&&◌, ◌||◌, Option, none, some, List, [], ◌∷◌, map, ℤ,
  int_lt, any, str_eq, text_lt, sort_stable, if◌then◌else◌,
}
use resume_platform.Policy.Standards.{Standard, Policy, Volunteer, resolve_application_standard}

pub record Candidate : Type 0 where
  pub household_province : String
  pub highest_degree_province : String
  pub first_degree_province : String
  pub first_degree_tag_ref : String
  pub highest_degree_tag_ref : String
  pub highest_education : String

pub record AdmissionRule : Type 0 where
  pub ref : String
  pub priority : ℤ
  pub first_tag_refs : List String
  pub highest_tag_refs : List String
  pub educations : List String

pub record Snapshot : Type 0 where
  pub candidate : Candidate
  pub volunteers : List Volunteer
  pub admission_rules : List AdmissionRule
  pub retry_volunteer_ref : String
  pub pool_policy : Policy

abbrev north : List String
north =
    "北京" ∷ "天津" ∷ "河北" ∷ "山西" ∷ "内蒙古" ∷ "辽宁" ∷ "吉林" ∷ "黑龙江" ∷ "山东" ∷ "河南" ∷ "陕西" ∷ "甘肃" ∷ "宁夏"
    ∷ "新疆" ∷ "青海" ∷ []

abbrev south : List String
south =
    "上海" ∷ "江苏" ∷ "浙江" ∷ "安徽" ∷ "福建" ∷ "江西" ∷ "湖北" ∷ "湖南" ∷ "广东" ∷ "广西" ∷ "海南" ∷ "重庆" ∷ "四川" ∷ "贵州"
    ∷ "云南" ∷ "西藏" ∷ []

-- `strings.Contains`
abbrev contains_text : String → String → Bool
contains_text v t = elim (find? v t) [ none ↦ false | some _ ↦ true ]

-- The loop over the three keys.
abbrev entity_of : List String → String
entity_of [] = ""
entity_of (v ∷ vs) =
    let rest = entity_of vs in
    if any (contains_text v) north
    then "GW"
    else if any (contains_text v) south
    then "YLS"
    else rest

abbrev pub preferred_entity : Candidate → String
preferred_entity c =
    entity_of (c.household_province ∷ c.highest_degree_province ∷ c.first_degree_province ∷ [])

-- `ad`: no date comes last.
abbrev pub date_key : String → String
date_key d = if str_eq d "" then "9999-12-31" else d

-- The `less` of the stable sort of the volunteers.
abbrev is_preferred : String → Volunteer → Bool
is_preferred preferred v = not (str_eq preferred "") && str_eq v.entity preferred

pub volunteer_less : String → Volunteer → Volunteer → Bool
volunteer_less preferred a b =
    let ap = is_preferred preferred a in
    let bp = is_preferred preferred b in
    if (if ap then not bp else bp)
    then ap
    else text_lt (date_key a.apply_date) (date_key b.apply_date)

-- The volunteer that the loop takes as current.
unfoldable pub takes : String → Volunteer → Bool
takes retry v = not v.rejected && (str_eq retry "" || str_eq v.ref retry)

-- The loop that finds the current volunteer; `rank` is `i + 1`.
unfoldable pub find_current : String → ℕ → List Volunteer → Option (ℕ × Volunteer)
find_current retry rank [] = none
find_current retry rank (v ∷ vs) =
    let rest = find_current retry (rank + 1) vs in if takes retry v then some (rank, v) else rest

-- The tests of an admission rule.
unfoldable pub tags_match : Candidate → AdmissionRule → Bool
tags_match c r =
    any (λ t. str_eq t c.first_degree_tag_ref) r.first_tag_refs
    && any (λ t. str_eq t c.highest_degree_tag_ref) r.highest_tag_refs

unfoldable pub education_match : Candidate → AdmissionRule → Bool
education_match c r =
    (elim r.educations [ [] ↦ true | _ ∷ _ ↦ false ])
    || any (λ e. str_eq e c.highest_education) r.educations

pub data Admittance : Type 0 where
  admitted : String → Admittance
  refused : Bool → Admittance

-- The loop over the rules: the rule that admits, or `tagMatch` after all of them.
pub admit : Candidate → Bool → List AdmissionRule → Admittance
admit c tag_match [] = refused tag_match
admit c tag_match (r ∷ rs) =
    let seen = admit c true rs in
    let unseen = admit c tag_match rs in
    if tags_match c r then (if education_match c r then admitted r.ref else seen) else unseen

-- `admission_passed` and `admission_rule_ref`, or `tagMatch`: without rules everyone is admitted.
unfoldable pub admission : Candidate → List AdmissionRule → Admittance
admission c [] = admitted ""
admission c (r ∷ rs) = admit c false (sort_stable (λ a b. int_lt a.priority b.priority) (r ∷ rs))

-- What `prepareSnapshot` decides.
pub record Decision : Type 0 where
  pub volunteer_order : List String
  pub current_volunteer_ref : String
  pub current_rank : ℕ
  pub admission_passed : Bool
  pub admission_rule_ref : String
  pub standard : Option Standard
  pub outcome : String

-- The decision on a current volunteer.
abbrev current_decision :
    List String → ℕ → Volunteer → Bool → String → Option Standard → String → Decision
current_decision order rank current passed rule standard outcome = record {
  volunteer_order = order;
  current_volunteer_ref = current.ref;
  current_rank = rank;
  admission_passed = passed;
  admission_rule_ref = rule;
  standard = standard;
  outcome = outcome;
}

module _ (to_lower : Char → Char) where
  -- What follows once the current volunteer is found.
  unfoldable pub decide_current : Snapshot → List String → ℕ → Volunteer → Decision
  decide_current s order rank current = elim (admission s.candidate s.admission_rules) [
    | refused tag_match ↦
        current_decision order rank current false "" none
          (if tag_match then "education_not_eligible" else "school_not_eligible")
    | admitted rule ↦
        let found = resolve_application_standard to_lower s.pool_policy current in
        current_decision order rank current true rule found.1 found.0
  ]

  unfoldable pub prepare_snapshot : Snapshot → Decision
  prepare_snapshot s =
      let volunteers = sort_stable (volunteer_less (preferred_entity s.candidate)) s.volunteers in
      let order = map Volunteer.ref volunteers in
      elim (find_current s.retry_volunteer_ref 1 volunteers) [
        | none ↦ record {
          volunteer_order = order;
          current_volunteer_ref = "";
          current_rank = 0;
          admission_passed = true;
          admission_rule_ref = "";
          standard = none;
          outcome = "no_effective_volunteer";
        }
        | some found ↦ decide_current s order found.0 found.1
      ]

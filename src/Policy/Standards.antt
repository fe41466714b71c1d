-- ===== src/Policy/Standards.antt =====
-- internal/platform/pools_policy.go: the pool policy as its JSON decodes where every field has its
-- type, and `resolveApplicationStandard`. A missing `active` is `none`. The same JSON keys give the
-- field names. `to_lower` stands for `unicode.ToLower`, which the Unicode tables define.
pub mod Resolved
use Prim.Native.Char.{Char, code}
use resume_platform.Shared.{
  ℕ, ◌+◌, String, Bool, true, false, not, ◌&&◌, ◌||◌, Option, none, some, List, [], ◌∷◌, ◌++◌, map,
  ℤ, any, is_space, trim_space, str_eq, if◌then◌else◌,
}

pub record PolicyTag : Type 0 where
  pub code : String
  pub name : String
  pub category : String
  pub description : String
  pub active : Option Bool

pub record Pool : Type 0 where
  pub code : String
  pub name : String
  pub entity : String
  pub active : Option Bool

pub record Standard : Type 0 where
  pub code : String
  pub name : String
  pub entity : String
  pub pool_code : String
  pub application_names : List String
  pub required_majors : List String
  pub responsibilities : String
  pub tag_codes : List String
  pub configuration_issue : String
  pub active : Option Bool

pub record Rule : Type 0 where
  pub job_id : ℕ
  pub pool_code : String
  pub priority : ℤ
  pub required_tags : List String
  pub preferred_tags : List String
  pub active : Option Bool

pub record Policy : Type 0 where
  pub tags : List PolicyTag
  pub pools : List Pool
  pub standards : List Standard
  pub rules : List Rule

-- A volunteer of the snapshot: one application of the candidate.
pub record Volunteer : Type 0 where
  pub ref : String
  pub entity : String
  pub position_name : String
  pub apply_date : String
  pub rejected : Bool

-- `item["active"] != false`
abbrev pub enabled : Option Bool → Bool
enabled none = true
enabled (some b) = b

-- `policyItem(policy, kind, code)`, over the list of that kind.
module _ {A : Type 0} (code_of : A → String) where
  unfoldable pub policy_item : List A → String → Option A
  policy_item [] code = none
  policy_item (x ∷ xs) code =
      let rest = policy_item xs code in if str_eq (code_of x) code then some x else rest

-- `activePolicyItem`
module _ {A : Type 0} (active_of : A → Option Bool) where
  abbrev pub active_item : Option A → Bool
  active_item none = false
  active_item (some x) = enabled (active_of x)

module _ (to_lower : Char → Char) where
  -- `normalized` of crud.go
  unfoldable pub normalized : String → String
  normalized String.[] = String.[]
  normalized (String.◌∷◌ c s) =
      let rest = normalized s in if is_space (code c) then rest else String.◌∷◌ (to_lower c) rest

  -- The tests of the loop over the standards, up to the names.
  unfoldable pub considered : Policy → Volunteer → Standard → Bool
  considered policy current s =
      enabled s.active
      && active_item Pool.active (policy_item Pool.code policy.pools s.pool_code)
      && (str_eq (normalized current.entity) ""
          || str_eq (normalized current.entity) (normalized s.entity))

  unfoldable pub names_match : Volunteer → Standard → Bool
  names_match current s =
      any (λ name. str_eq (normalized name) (normalized current.position_name)) s.application_names

  -- The loop over the standards, with what is found so far; a second standard of another code ends
  -- it with `none`.
  unfoldable pub find_standard :
      Policy → Volunteer → Option Standard → List Standard → Option (Option Standard)
  find_standard policy current found [] = some found
  find_standard policy current found (s ∷ ss) =
      let skipped = find_standard policy current found ss in
      let taken = find_standard policy current (some s) ss in
      if considered policy current s && names_match current s
      then (elim found [ none ↦ taken | some f ↦ if str_eq f.code s.code then taken else none ])
      else skipped

  -- `resolveApplicationStandard`: the status, a string that a standard's open issue may set too, and,
  -- where it is ready, the standard whose code and
  -- pool the snapshot gets.
  unfoldable pub resolve_application_standard : Policy → Volunteer → String × Option Standard
  resolve_application_standard policy current =
      if str_eq (trim_space current.entity) ""
      then ("assessment_standard_missing", none)
      else (elim (find_standard policy current none policy.standards) [
        | none ↦ ("job_mapping_ambiguous", none)
        | some none ↦ ("assessment_standard_missing", none)
        | some (some s) ↦
            if not (str_eq s.configuration_issue "")
            then (s.configuration_issue, none)
            else if str_eq (trim_space s.responsibilities) ""
            then ("job_responsibility_missing", none)
            else ("ready", some s)
      ])

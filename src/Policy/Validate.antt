-- ===== src/Policy/Validate.antt =====
-- `validatePoolPolicy` and `validatePolicyStrings` of internal/platform/pools_policy.go, on a policy
-- whose JSON values have their fields' types: what the source refuses for a value of another type
-- (a list that is none, a flag that is no Boolean, a priority that is no integer) is no value here.
pub mod Mappings
pub mod Unambiguous
use Prim.Native.Char.{Char, code}
use Prim.Native.String.{count, ◌++◌ as join}
use resume_platform.Shared.{
  ℕ, ◌+◌, String, Bool, true, false, not, ◌&&◌, ◌||◌, Option, none, some, List, [], ◌∷◌, ◌++◌, map,
  ℤ, pos, int_lt, any, all, keep, length, Result, ok, err, bad, refuse_if, ◌>>=◌, ◌>>◌, trim_space,
  leb, ltb, ◌==◌, str_eq, if◌then◌else◌,
}
use resume_platform.Policy.Standards.{
  PolicyTag, Pool, Standard, Rule, Policy, enabled, policy_item, active_item, normalized,
}

abbrev blank : String → Bool
blank s = str_eq (trim_space s) ""

-- `for ... { if err := ...; err != nil { return err } }`
module _ {A : Type 0} where
  unfoldable pub each : (A → Result (Unit {0})) → List A → Result (Unit {0})
  each check [] = ok tt
  each check (x ∷ xs) = do check x; each check xs

-- `validatePolicyStrings`
unfoldable pub validate_policy_strings : List String → Result (Unit {0})
validate_policy_strings values = do
  refuse_if (ltb 200 (length values)) (bad "映射、专业和标签必须为列表，最多 200 项")
  each (λ s. refuse_if (blank s || ltb 200 (count s)) (bad "列表项必须为非空文本，最多 200 字")) values

-- `poolCode`: `^[a-z][a-z0-9_]{0,63}$`
unfoldable pub is_lower : ℕ → Bool
is_lower c = leb 97 c && leb c 122

unfoldable pub code_tail : ℕ → String → Bool
code_tail n String.[] = leb n 63
code_tail n (String.◌∷◌ c s) =
    let rest = code_tail (n + 1) s in
    (is_lower (code c) || ((leb 48 (code c) && leb (code c) 57) || code c == 95)) && rest

unfoldable pub is_pool_code : String → Bool
is_pool_code String.[] = false
is_pool_code (String.◌∷◌ c s) = is_lower (code c) && code_tail 0 s

-- The loop over the items of one kind: `seen` holds the keys so far.
module _ {A K : Type 0} (key : A → K) (same : K → K → Bool) (missing : K → Bool)
    (check : A → Result (Unit {0})) where
  unfoldable pub check_items : String → List K → List A → Result (Unit {0})
  check_items kind seen [] = ok tt
  check_items kind seen (x ∷ xs) = do
    refuse_if (missing (key x) || any (same (key x)) seen) (bad (join "配置标识缺失或重复：" kind))
    check x
    check_items kind (key x ∷ seen) xs

unfoldable pub check_name : String → String → Result (Unit {0})
check_name code name =
    refuse_if (not (is_pool_code code) || (blank name || ltb 100 (count name)))
      (bad "标识仅支持小写字母、数字、下划线，名称不能为空")

unfoldable pub check_tag : PolicyTag → Result (Unit {0})
check_tag t = do
  check_name t.code t.name
  refuse_if
      (not (any (str_eq t.category) ("direction" ∷ "skill" ∷ "experience" ∷ []))
        || (blank t.description || ltb 1000 (count t.description)))
      (bad "能力标签必须填写类别和证据判定说明")

unfoldable pub check_pool : Pool → Result (Unit {0})
check_pool p = do check_name p.code p.name; refuse_if (blank p.entity) (bad "内部职位池必须指定招聘主体")

-- The loop over the tags of a field.
unfoldable pub check_tags : Policy → List String → List String → Result (Unit {0})
check_tags policy seen [] = ok tt
check_tags policy seen (t ∷ ts) = do
  refuse_if
      ((elim (policy_item PolicyTag.code policy.tags t) [ none ↦ true | some _ ↦ false ])
        || any (str_eq t) seen)
      (bad (join "标签不存在或重复：" t))
  check_tags policy (t ∷ seen) ts

unfoldable pub check_field : Policy → List String → Result (Unit {0})
check_field policy field = do validate_policy_strings field; check_tags policy [] field

-- `to_lower` is `unicode.ToLower`; `job_entity` finds the entity of a job in `core_job`.
module _ (to_lower : Char → Char) (job_entity : ℕ → Option String) where
  unfoldable pub check_standard : Policy → Standard → Result (Unit {0})
  check_standard policy s = do
    check_name s.code s.name
    elim (policy_item Pool.code policy.pools s.pool_code) [
      | none ↦ err (bad "未找到关联的内部职位池")
      | some pool ↦ do
        validate_policy_strings s.application_names
        validate_policy_strings s.required_majors
        refuse_if
            (str_eq s.configuration_issue ""
              && (not (str_eq s.entity pool.entity)
                  || (length s.application_names == 0 || blank s.responsibilities)))
            (bad "投递评估标准必须指定同主体职位池、投递映射和职责")
        each (λ name. refuse_if (str_eq (normalized to_lower name) "") (bad "投递映射名称不能为空"))
            s.application_names
        check_field policy s.tag_codes
    ]

  unfoldable pub check_rule : Policy → Rule → Result (Unit {0})
  check_rule policy r = elim (policy_item Pool.code policy.pools r.pool_code) [
    | none ↦ err (bad "未找到关联的内部职位池")
    | some pool ↦ do
      refuse_if (int_lt r.priority (pos 0) || int_lt (pos 999) r.priority)
          (bad "分配优先级必须为 0 到 999 的整数")
      refuse_if (r.job_id == 0) (bad "部门需求必须选择有效岗位")
      refuse_if
          (elim (job_entity r.job_id) [
            | none ↦ true
            | some entity ↦
                not (str_eq (normalized to_lower entity) (normalized to_lower pool.entity))
          ])
          (bad "部门岗位与职位池的招聘主体不一致")
      refuse_if (enabled r.active && (length r.required_tags + length r.preferred_tags) == 0)
          (bad "分配规则至少需要一个必需或优先标签")
      check_field policy r.required_tags
      check_field policy r.preferred_tags
  ]

  -- At most 200 active demands in a pool.
  unfoldable pub check_demand_count : Policy → Pool → Result (Unit {0})
  check_demand_count policy pool =
      refuse_if
        (ltb 200
          (length (keep (λ r. enabled r.active && str_eq r.pool_code pool.code) policy.rules)))
        (bad "同一职位池最多启用 200 条需求")

  unfoldable pub check_reachable : Policy → Standard → Result (Unit {0})
  check_reachable policy s =
      if not (enabled s.active) || not (str_eq s.configuration_issue "")
      then ok tt
      else each
          (λ r.
            if not (enabled r.active) || not (str_eq r.pool_code s.pool_code)
            then ok tt
            else each
                (λ tag.
                  refuse_if (not (any (λ c. str_eq c tag) s.tag_codes))
                    (bad (join "投递标准 " (join s.code (join " 缺少可达需求标签：" tag)))))
                (r.required_tags ++ r.preferred_tags))
          policy.rules

  -- `key` of the last loop; U+001F separates the parts.
  abbrev pub mapping_key : String → String → String
  mapping_key entity name =
      join (normalized to_lower entity) (join "\u{1f}" (normalized to_lower name))

  -- The inner and the outer loop that collect `mappings`.
  unfoldable pub add_names : String → List String → List String → Result (List String)
  add_names entity [] mappings = ok mappings
  add_names entity (name ∷ names) mappings = do
    refuse_if (any (str_eq (mapping_key entity name)) mappings) (bad "同主体投递映射存在多个评估标准")
    add_names entity names (mapping_key entity name ∷ mappings)

  unfoldable pub add_mappings : List Standard → List String → Result (List String)
  add_mappings [] mappings = ok mappings
  add_mappings (s ∷ ss) mappings =
      if enabled s.active
      then add_names s.entity s.application_names mappings >>= add_mappings ss
      else add_mappings ss mappings

  unfoldable pub validate_pool_policy : Policy → Result (Unit {0})
  validate_pool_policy policy = do
    refuse_if (ltb 200 (length policy.tags)) (bad "配置列表无效或超出上限")
    check_items PolicyTag.code str_eq (str_eq "") check_tag "tags" [] policy.tags
    refuse_if (ltb 2000 (length policy.pools)) (bad "配置列表无效或超出上限")
    check_items Pool.code str_eq (str_eq "") check_pool "pools" [] policy.pools
    refuse_if (ltb 2000 (length policy.standards)) (bad "配置列表无效或超出上限")
    check_items Standard.code str_eq (str_eq "") (check_standard policy) "standards" []
        policy.standards
    refuse_if (ltb 2000 (length policy.rules)) (bad "配置列表无效或超出上限")
    check_items Rule.job_id ◌==◌ (λ _. false) (check_rule policy) "rules" [] policy.rules
    each (check_demand_count policy) policy.pools
    each (check_reachable policy) policy.standards
    add_mappings policy.standards [] >>= λ _. ok tt

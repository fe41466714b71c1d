-- ===== src/Schedule/Request.antt =====
-- `validateSchedule` of internal/platform/schedules.go. A field is `none` where its key is missing,
-- and where its value has another type and the source treats both alike; an array of another type is
-- empty. `year` is the calendar year of an instant, and `filters_valid` the check of the saved
-- filters, which `validateSavedCandidateFilters` hands on to the filters of the candidate list.
use Prim.Native.String.{count, ◌++◌ as join}
use resume_platform.Shared.{
  ℕ, ◌<◌, ◌≡◌, String, Bool, true, false, not, ◌&&◌, ◌||◌, ◌⊎◌, inl, inr, Option, none, some, List,
  [], ◌∷◌, any, Result, ok, err, bad, refuse_if, ◌>>=◌, ◌>>◌, Result-cases, Option-cases,
  trim_space, arith, ltb, str_eq,
}
use resume_platform.Run.{positive_ids}
use resume_platform.Run.Identifiers.{Distinct, positive_ids-Distinct}

pub record Scope (Filters : Type 0) : Type 0 where
  pub fields : List String
  pub candidate_ids : Option (List (Option ℕ))
  pub system_statuses : Option (List String)
  pub candidate_filters : Option (Option Filters)
  pub force_reprocess : Option Bool

pub record Request (Filters : Type 0) : Type 0 where
  pub fields : List String
  pub name : Option String
  pub run_at : Option ℕ
  pub repeat : String
  pub scope : Option (Scope Filters)

-- What is stored: the time, and the identifiers where the scope selects candidates.
pub record Accepted : Type 0 where
  pub run_at : ℕ
  pub ids : Option (List ℕ)

abbrev one_of : List String → String → Bool
one_of allowed key = any (str_eq key) allowed

-- A loop over keys that refuses one that is not allowed.
unfoldable pub check_keys : List String → String → List String → Result (Unit {0})
check_keys allowed message [] = ok tt
check_keys allowed message (key ∷ keys) = do
  refuse_if (not (one_of allowed key)) (bad (join message key))
  check_keys allowed message keys

-- `systemLabels` of internal/platform/serialize.go, and the historical `pending_review`.
abbrev known_status : String → Bool
known_status = one_of (
    "raw" ∷ "talent_pool" ∷ "pending_allocation" ∷ "archived" ∷ "pending_reallocation"
    ∷ "pending_dispatch" ∷ "pending_screening" ∷ "screening_passed" ∷ "screening_rejected"
    ∷ "pending_review" ∷ [])

unfoldable pub check_statuses : List String → Result (Unit {0})
check_statuses [] = ok tt
check_statuses (s ∷ rest) = do refuse_if (not (known_status s)) (bad "未知系统状态"); check_statuses rest

abbrev exists_value : {A : Type 0} → Option A → Bool
exists_value none = false
exists_value (some _) = true

module _ {Filters : Type 0} (year : ℕ → ℕ) (filters_valid : Filters → Result (Unit {0})) where
  abbrev check_filters : Option (Option Filters) → Result (Unit {0})
  check_filters none = ok tt
  check_filters (some none) = err (bad "candidate_filters 必须是对象")
  check_filters (some (some filters)) = filters_valid filters

  -- The selected candidates, or the statuses.
  abbrev select_candidates : Scope Filters → Result (Option (List ℕ))
  select_candidates scope = elim scope.candidate_ids [
    | some values ↦ positive_ids values >>= λ ids. ok (some ids)
    | none ↦ (elim scope.system_statuses [
      | none ↦ err (bad "请选择至少一种简历状态")
      | some [] ↦ err (bad "请选择至少一种简历状态")
      | some (s ∷ rest) ↦ do check_statuses (s ∷ rest); ok none
    ])
  ]

  abbrev refuses_force : Scope Filters → Bool
  refuses_force scope = elim scope.force_reprocess [
    | none ↦ false
    | some forced ↦ not (exists_value scope.candidate_ids) || not forced
  ]

  unfoldable pub validate_scope : Scope Filters → Result (Option (List ℕ))
  validate_scope scope = do
    check_keys ("candidate_ids" ∷ "system_statuses" ∷ "candidate_filters" ∷ "force_reprocess" ∷ [])
        "不支持的定时处理范围字段：" scope.fields
    check_filters scope.candidate_filters
    refuse_if
        ((exists_value scope.candidate_ids && exists_value scope.system_statuses)
          || ((not (exists_value scope.candidate_ids) && not (exists_value scope.system_statuses))
              || (exists_value scope.candidate_ids && exists_value scope.candidate_filters)))
        (bad "请选择候选人或简历状态，两种范围互斥")
    ids ← select_candidates scope
    refuse_if (refuses_force scope) (bad "强制重新处理仅支持明确选中的候选人")
    ok ids

  abbrev bad_name : Option String → Bool
  bad_name none = true
  bad_name (some name) = str_eq (trim_space name) "" || ltb 100 (count name)

  unfoldable pub validate_schedule : Request Filters → ℕ → Result Accepted
  validate_schedule request now = do
    check_keys ("name" ∷ "scope" ∷ "repeat" ∷ "run_at" ∷ []) "不支持的定时任务字段：" request.fields
    refuse_if (bad_name request.name) (bad "任务名称须为 1 至 100 个字符")
    elim request.run_at [
      | none ↦ err (bad "触发时间必须是带时区的未来时间")
      | some at ↦ do
        refuse_if (not (ltb now at) || ltb 9999 (year at)) (bad "触发时间必须是带时区的未来时间")
        refuse_if (not (one_of ("once" ∷ "daily" ∷ "weekly" ∷ []) request.repeat))
            (bad "重复方式须为 once、daily 或 weekly")
        elim request.scope [
          | none ↦ err (bad "请选择处理范围")
          | some scope ↦ do ids ← validate_scope scope; ok (record { run_at = at; ids = ids })
        ]
    ]

  -- A schedule that is accepted runs in the future.
  pub validate_schedule-future :
      (request : Request Filters) (now : ℕ) (a : Accepted)
      → validate_schedule request now ≡ ok a
      → (now < a.run_at) × (request.run_at ≡ some a.run_at)
  unfolding validate_schedule
  validate_schedule-future request now a h = elim (Option-cases request.run_at) [
    | inl e ↦ absurd (ground arith)
    | inr (at, e) ↦ elim (Option-cases request.scope) [
      | inl q ↦ absurd (ground arith)
      | inr (scope, q) ↦ ground (arith, Result-cases (validate_scope scope))
    ]
  ]

  -- A scope that is accepted selects either candidates, by distinct positive identifiers and without
  -- statuses or filters, or statuses, and then it forces nothing.
  pub validate_scope-exclusive :
      (scope : Scope Filters) (ids : Option (List ℕ))
      → validate_scope scope ≡ ok ids
      → ((l : List ℕ) × (ids ≡ some l)
          × Distinct l
          × (scope.system_statuses ≡ none)
          × (scope.candidate_filters ≡ none))
        ⊎ ((ids ≡ none) × (scope.candidate_ids ≡ none) × (scope.force_reprocess ≡ none))
  unfolding validate_scope
  validate_scope-exclusive scope ids h = elim (Option-cases scope.candidate_ids) [
    | inl e ↦ inr (ground (arith, Option-cases scope.system_statuses), e, ground arith)
    | inr (values, e) ↦ elim (Result-cases (positive_ids values)) [
      | inr (failure, p) ↦ absurd (ground arith)
      | inl (l, p) ↦
          inl (l, ground arith, (positive_ids-Distinct values l p).0, ground arith, ground arith)
    ]
  ]

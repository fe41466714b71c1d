-- ===== src/Policy/Validate/Unambiguous.antt =====
-- A valid policy gives every application at most one standard.
use Prim.Native.Char.{Char}
use resume_platform.Shared.{
  ℕ, String, ◌≡◌, ◌≢◌, refl, sym, subst, Bool, true, false, ◌&&◌, inl, inr, Option, none, some,
  List, [], ◌∷◌, any, In, ok, arith, str_eq, eq_iff, Bool-cases, Option-cases, trim_space,
  trim_space-is_blank, any-In, Result-cases,
}
use resume_platform.Shared.Text.{is_blank}
use resume_platform.Policy.Standards.{
  Standard, Policy, Volunteer, enabled, normalized, considered, names_match, find_standard,
  resolve_application_standard,
}
use resume_platform.Policy.Standards.Resolved.{Fitting, find_standard-fits}
use resume_platform.Policy.Validate.{mapping_key, add_mappings, validate_pool_policy}
use resume_platform.Policy.Validate.Mappings.{
  maps, add_names-adds, add_mappings-inactive, add_mappings-active, add_mappings-new,
  gives-mapping_key,
}

cons_not_empty : (c : Char) (s : String) → String.◌∷◌ c s ≢ ""
cons_not_empty c s h = cc

is_blank-normalized :
    (to_lower : Char → Char) (s : String) → normalized to_lower s ≡ "" → is_blank s ≡ true
unfolding normalized is_blank
is_blank-normalized to_lower String.[] h = refl
is_blank-normalized to_lower (String.◌∷◌ c s) h =
    ground
      (arith, is_blank-normalized to_lower s, cons_not_empty (to_lower c) (normalized to_lower s))

normalized-trim_space :
    (to_lower : Char → Char) (s : String)
    → str_eq (trim_space s) "" ≡ false
    → normalized to_lower s ≢ ""
normalized-trim_space to_lower s h e =
    ground
      (arith, eq_iff (trim_space s) "", trim_space-is_blank s (is_blank-normalized to_lower s e))

module _ (to_lower : Char → Char) (job_entity : ℕ → Option String) where
  module _ (policy : Policy) (current : Volunteer) where
    abbrev matches : Standard → Bool
    matches s = considered to_lower policy current s && names_match to_lower current s

    abbrev key : String
    key = mapping_key to_lower job_entity current.entity current.position_name

    module _ (named : normalized to_lower current.entity ≢ "") where
      matches-maps : (s : Standard) → matches s ≡ true → maps to_lower job_entity key s ≡ true
      unfolding considered names_match
      matches-maps s h = ground (
        arith,
        eq_iff (normalized to_lower current.entity) "",
        eq_iff (normalized to_lower current.entity) (normalized to_lower s.entity),
        gives-mapping_key to_lower job_entity current.entity s.entity current.position_name
            s.application_names,
      )

      find_standard-kept :
          (f : Standard) (ss : List Standard)
          → any (maps to_lower job_entity key) ss ≡ false
          → find_standard to_lower policy current (some f) ss ≡ some (some f)
      unfolding find_standard
      find_standard-kept f [] h = refl
      find_standard-kept f (s ∷ ss) h = ground (arith, find_standard-kept f ss, matches-maps s)

      find_standard-unambiguous :
          (ss : List Standard) (mappings out : List String)
          → add_mappings to_lower job_entity ss mappings ≡ ok out
          → find_standard to_lower policy current none ss ≢ none
      unfolding find_standard
      find_standard-unambiguous [] mappings out h p = cc
      find_standard-unambiguous (s ∷ ss) mappings out h p = elim (Bool-cases (enabled s.active)) [
        | inr e ↦ ground (
          arith,
          matches-maps s,
          find_standard-unambiguous ss mappings out
              (add_mappings-inactive to_lower job_entity s ss mappings out h e),
        )
        | inl e ↦
            let (more, q, r) = add_mappings-active to_lower job_entity s ss mappings out h e in
            ground (
              arith,
              matches-maps s,
              find_standard-unambiguous ss more out r,
              find_standard-kept s ss,
              add_mappings-new to_lower job_entity key ss more out r,
              add_names-adds to_lower job_entity s.entity key s.application_names mappings more q,
            )
      ]

      find_standard-head :
          (s : Standard) (ss : List Standard) (mappings out : List String)
          → add_mappings to_lower job_entity (s ∷ ss) mappings ≡ ok out
          → matches s ≡ true
          → find_standard to_lower policy current none (s ∷ ss) ≡ some (some s)
      unfolding find_standard
      find_standard-head s ss mappings out h e =
          let active : enabled s.active ≡ true = ground (arith, matches-maps s) in
          let (more, q, r) = add_mappings-active to_lower job_entity s ss mappings out h active in
          ground (
            arith,
            matches-maps s,
            find_standard-kept s ss,
            add_mappings-new to_lower job_entity key ss more out r,
            add_names-adds to_lower job_entity s.entity key s.application_names mappings more q,
          )

      -- A standard that maps the key is the only one.
      maps-alone :
          (x : Standard) (ss : List Standard) (mappings out : List String)
          → add_mappings to_lower job_entity (x ∷ ss) mappings ≡ ok out
          → any (maps to_lower job_entity key) ss ≡ true
          → maps to_lower job_entity key x ≡ false
      maps-alone x ss mappings out h m = elim (Bool-cases (enabled x.active)) [
        | inr a ↦ ground arith
        | inl a ↦
            let (more, q, r) = add_mappings-active to_lower job_entity x ss mappings out h a in
            ground (
              arith,
              add_mappings-new to_lower job_entity key ss more out r,
              add_names-adds to_lower job_entity x.entity key x.application_names mappings more q,
            )
      ]

      add_mappings-rest :
          (x : Standard) (ss : List Standard) (mappings out : List String)
          → add_mappings to_lower job_entity (x ∷ ss) mappings ≡ ok out
          → (more : List String) × (add_mappings to_lower job_entity ss more ≡ ok out)
      add_mappings-rest x ss mappings out h = elim (Bool-cases (enabled x.active)) [
        | inr a ↦ (mappings, add_mappings-inactive to_lower job_entity x ss mappings out h a)
        | inl a ↦
            let (more, q, r) = add_mappings-active to_lower job_entity x ss mappings out h a in
            (more, r)
      ]

      find_standard-finds :
          (s : Standard) (ss : List Standard) (mappings out : List String)
          → add_mappings to_lower job_entity ss mappings ≡ ok out
          → In s ss
          → matches s ≡ true
          → find_standard to_lower policy current none ss ≡ some (some s)
      unfolding find_standard
      find_standard-finds s [] mappings out h m e = absurd m
      find_standard-finds s (x ∷ ss) mappings out h (inl p) e =
          subst (λ y. find_standard to_lower policy current none (y ∷ ss) ≡ some (some s)) (sym p)
            (find_standard-head s ss mappings out
              (subst (λ y. add_mappings to_lower job_entity (y ∷ ss) mappings ≡ ok out) p h) e)
      find_standard-finds s (x ∷ ss) mappings out h (inr m) e =
          let (more, r) = add_mappings-rest x ss mappings out h in
          ground (
            arith,
            matches-maps x,
            maps-alone x ss mappings out h
                (any-In (maps to_lower job_entity key) ss s m (matches-maps s e)),
            find_standard-finds s ss more out r m e,
          )

    validate_pool_policy-mappings :
        validate_pool_policy to_lower job_entity policy ≡ ok tt
        → (out : List String) × (add_mappings to_lower job_entity policy.standards [] ≡ ok out)
    unfolding validate_pool_policy
    validate_pool_policy-mappings h =
        elim (Result-cases (add_mappings to_lower job_entity policy.standards [])) [
          | inl found ↦ found
          | inr (e, p) ↦ absurd (ground arith)
        ]

    pub resolve_application_standard-unambiguous :
        validate_pool_policy to_lower job_entity policy ≡ ok tt
        → (resolve_application_standard to_lower policy current).0 ≡ "job_mapping_ambiguous"
        → (s : Standard) × In s policy.standards
          × Fitting to_lower policy current s
          × (s.configuration_issue ≡ "job_mapping_ambiguous")
    unfolding resolve_application_standard
    resolve_application_standard-unambiguous h p =
        let (out, q) = validate_pool_policy-mappings h in
        elim (Bool-cases (str_eq (trim_space current.entity) "")) [
          | inl e ↦
              absurd (ground (arith, eq_iff "assessment_standard_missing" "job_mapping_ambiguous"))
          | inr e ↦
              elim (Option-cases (find_standard to_lower policy current none policy.standards)) [
                | inl f ↦ absurd (
                    find_standard-unambiguous (normalized-trim_space to_lower current.entity e)
                      policy.standards [] out q f)
                | inr (none, f) ↦
                    absurd
                      (ground (arith, eq_iff "assessment_standard_missing" "job_mapping_ambiguous"))
                | inr (some s, f) ↦
                    let (m, fits) = find_standard-fits to_lower policy current s f in
                    (
                      s,
                      m,
                      fits,
                      ground (
                        arith,
                        eq_iff "job_responsibility_missing" "job_mapping_ambiguous",
                        eq_iff "ready" "job_mapping_ambiguous",
                      ),
                    )
              ]
        ]

    -- Under a policy that `validatePoolPolicy` accepts, an application with an entity resolves to any
    -- standard of the policy that is considered for it, lists its position under some name, has no
    -- open issue and states responsibilities, wherever the standard stands in the list.
    pub resolve_application_standard-finds :
        (s : Standard)
        → validate_pool_policy to_lower job_entity policy ≡ ok tt
        → str_eq (trim_space current.entity) "" ≡ false
        → In s policy.standards
        → considered to_lower policy current s ≡ true
        → names_match to_lower current s ≡ true
        → str_eq s.configuration_issue "" ≡ true
        → str_eq (trim_space s.responsibilities) "" ≡ false
        → resolve_application_standard to_lower policy current ≡ ("ready", some s)
    unfolding resolve_application_standard
    resolve_application_standard-finds s h named m c n issue duties =
        let (out, q) = validate_pool_policy-mappings h in
        ground (
          arith,
          find_standard-finds (normalized-trim_space to_lower current.entity named) s
              policy.standards [] out q m,
        )

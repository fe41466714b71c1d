-- ===== src/Policy/Preparation.antt =====
-- `prepareSnapshot` as a whole: its volunteers, its admission and its standard together.
use Prim.Native.Char.{Char}
use resume_platform.Shared.{
  ℕ, String, ◌≡◌, ◌≢◌, sym, subst, refl, ◌⊎◌, eq_iff, Bool, true, false, Option, none, Option-cases,
  List, [], map, In, any, ok, arith, if◌then◌else◌, inl, inr,
}
use resume_platform.Policy.Standards.{Volunteer, Standard}
use resume_platform.Policy.Validate.{validate_pool_policy}
use resume_platform.Policy.Validate.Unambiguous.{resolve_application_standard-unambiguous}
use resume_platform.Policy.Snapshot.{
  Snapshot, Admittance, admitted, refused, admission, prepare_snapshot, decide_current, takes,
  tags_match, find_current,
}
use resume_platform.Policy.Snapshot.Volunteers.{find_current-least, prepare_snapshot-found, sorted}
use resume_platform.Policy.Snapshot.Admission.{fits, admission-refuses}

Admittance-cases :
    (a : Admittance)
    → ((rule : String) × (a ≡ admitted rule)) ⊎ ((tag_match : Bool) × (a ≡ refused tag_match))
Admittance-cases (admitted rule) = inl (rule, refl)
Admittance-cases (refused tag_match) = inr (tag_match, refl)

module _ (to_lower : Char → Char) (s : Snapshot) where
  -- Where some volunteer is effective, there are admission rules, and none fits the candidate, the
  -- candidate is not admitted, no standard is chosen, and the outcome says whether a rule matched
  -- the schools.
  pub prepare_snapshot-refuses :
      (v : Volunteer)
      → In v s.volunteers
      → takes s.retry_volunteer_ref v ≡ true
      → s.admission_rules ≢ []
      → any (fits s.candidate) s.admission_rules ≡ false
      → ((prepare_snapshot to_lower s).admission_passed ≡ false)
        × ((prepare_snapshot to_lower s).standard ≡ none)
        × ((prepare_snapshot to_lower s).outcome ≡ (
            if any (tags_match s.candidate) s.admission_rules
            then "education_not_eligible"
            else "school_not_eligible"))
  unfolding decide_current
  prepare_snapshot-refuses v m t rules h =
      let (u, r, i, e, p, l) = find_current-least to_lower s v m t in
      subst
        (λ d.
          (d.admission_passed ≡ false)
          × (d.standard ≡ none)
          × (d.outcome ≡ (
              if any (tags_match s.candidate) s.admission_rules
              then "education_not_eligible"
              else "school_not_eligible")))
        (prepare_snapshot-found to_lower s r u p)
        (ground (arith, admission-refuses s.candidate s.admission_rules rules h))

  -- What an ambiguous outcome comes from: an open issue of a standard.
  abbrev pub HasIssue : String → Type 0
  HasIssue word = (x : Standard) × In x s.pool_policy.standards × (x.configuration_issue ≡ word)

  decide_current-unambiguous :
      (job_entity : ℕ → Option String) (order : List String) (rank : ℕ) (v : Volunteer)
      → validate_pool_policy to_lower job_entity s.pool_policy ≡ ok tt
      → (decide_current to_lower s order rank v).outcome ≡ "job_mapping_ambiguous"
      → HasIssue "job_mapping_ambiguous"
  unfolding decide_current
  decide_current-unambiguous job_entity order rank v h p =
      elim (Admittance-cases (admission s.candidate s.admission_rules)) [
        | inl (rule, e) ↦
            let found =
              resolve_application_standard-unambiguous to_lower job_entity s.pool_policy v h
                (ground arith) in
            (found.0, found.1, found.3)
        | inr (true, e) ↦
            absurd (ground (arith, eq_iff "education_not_eligible" "job_mapping_ambiguous"))
        | inr (false, e) ↦
            absurd (ground (arith, eq_iff "school_not_eligible" "job_mapping_ambiguous"))
      ]

  -- With a pool policy that `validatePoolPolicy` accepts, a snapshot is prepared to the status
  -- `job_mapping_ambiguous` only where a standard of the policy carries this word as its open issue.
  pub prepare_snapshot-unambiguous :
      (job_entity : ℕ → Option String)
      → validate_pool_policy to_lower job_entity s.pool_policy ≡ ok tt
      → (prepare_snapshot to_lower s).outcome ≡ "job_mapping_ambiguous"
      → HasIssue "job_mapping_ambiguous"
  unfolding prepare_snapshot
  prepare_snapshot-unambiguous job_entity h p =
      elim (Option-cases (find_current s.retry_volunteer_ref 1 (sorted to_lower s))) [
        | inl e ↦ absurd (ground (arith, eq_iff "no_effective_volunteer" "job_mapping_ambiguous"))
        | inr ((r, u), e) ↦
            decide_current-unambiguous job_entity (map Volunteer.ref (sorted to_lower s)) r u h (
              subst (λ d. d.outcome ≡ "job_mapping_ambiguous")
                (sym (prepare_snapshot-found to_lower s r u e)) p)
      ]

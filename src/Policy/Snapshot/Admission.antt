-- ===== src/Policy/Snapshot/Admission.antt =====
-- The admission of a candidate by the rules on schools and education.
use resume_platform.Shared.{
  ◌≡◌, ◌≢◌, refl, ap, ◌∙◌, int_lt_irrefl, int_lt_asym, int_lt_cotrans, any-sort, Bool, true, false,
  ◌&&◌, ◌||◌, some, List, [], ◌∷◌, In, any, arith, int_lt, sort_stable, In-sort, sort-In,
  sort-Sorted, first, first-least,
}
use resume_platform.Policy.Snapshot.{
  Candidate, AdmissionRule, tags_match, education_match, admitted, refused, admit, admission,
}

module _ (c : Candidate) where
  abbrev pub fits : AdmissionRule → Bool
  fits r = tags_match c r && education_match c r

  admit-admitted :
      (seen : Bool) (rs : List AdmissionRule) (r : AdmissionRule)
      → first fits rs ≡ some r
      → admit c seen rs ≡ admitted r.ref
  unfolding admit
  admit-admitted seen [] r h = absurd (ground arith)
  admit-admitted seen (x ∷ rs) r h =
      ground (arith, admit-admitted true rs r, admit-admitted seen rs r)

  admit-refused :
      (seen : Bool) (rs : List AdmissionRule)
      → any fits rs ≡ false
      → admit c seen rs ≡ refused (seen || any (tags_match c) rs)
  unfolding admit
  admit-refused seen [] h = ground arith
  admit-refused seen (x ∷ rs) h = ground (arith, admit-refused true rs, admit-refused seen rs)

  -- Where a rule fits, the candidate is admitted by a fitting rule that no fitting rule precedes in
  -- priority.
  pub admission-admits :
      (rules : List AdmissionRule) (r : AdmissionRule)
      → In r rules
      → fits r ≡ true
      → (q : AdmissionRule) × In q rules
        × (fits q ≡ true)
        × (admission c rules ≡ admitted q.ref)
        × (int_lt r.priority q.priority ≡ false)
  unfolding admission
  admission-admits [] r m h = absurd m
  admission-admits (x ∷ rules) r m h =
      let less = λ (a b : AdmissionRule). int_lt a.priority b.priority in
      let (q, i, t, f, l) =
        first-least fits less (λ a. int_lt_irrefl a.priority) (sort_stable less (x ∷ rules))
          (sort-Sorted less (λ a b. int_lt_asym a.priority b.priority)
            (λ a b d. int_lt_cotrans a.priority b.priority d.priority) (x ∷ rules))
          r (In-sort less r (x ∷ rules) m) h in
      (
        q,
        sort-In less q (x ∷ rules) i,
        t,
        admit-admitted false (sort_stable less (x ∷ rules)) q f,
        l,
      )

  -- Where there are rules and none fits, the candidate is refused, and what is kept is whether a
  -- rule matches the schools.
  pub admission-refuses :
      (rules : List AdmissionRule)
      → rules ≢ []
      → any fits rules ≡ false
      → admission c rules ≡ refused (any (tags_match c) rules)
  unfolding admission
  admission-refuses [] some_rule h = absurd (some_rule refl)
  admission-refuses (x ∷ rules) some_rule h =
      let less = λ (a b : AdmissionRule). int_lt a.priority b.priority in
      admit-refused false (sort_stable less (x ∷ rules)) (any-sort less fits (x ∷ rules) ∙ h)
      ∙ ap refused (any-sort less (tags_match c) (x ∷ rules))

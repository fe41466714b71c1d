-- ===== src/Run/Identifiers.antt =====
-- The identifiers that a request selects.
use resume_platform.Shared.{
  ℕ, ◌<◌, ◌≡◌, refl, ap, subst, Bool, true, false, ◌||◌, inl, inr, Option, none, some, List, [],
  ◌∷◌, any, Result, ok, err, Result-cases, arith, ◌==◌, Bool-cases,
}
use resume_platform.Run.{collect_ids, positive_ids}

abbrev pub has_id : ℕ → List ℕ → Bool
has_id n ids = any (λ m. m == n) ids

abbrev pub names_id : ℕ → List (Option ℕ) → Bool
names_id n values = any (λ v. elim v [ none ↦ false | some m ↦ m == n ]) values

-- No identifier stands twice, and none is 0.
abbrev pub Distinct : List ℕ → Type 0
Distinct [] = Unit
Distinct (n ∷ ids) = (0 < n) × (has_id n ids ≡ false) × Distinct ids

ok_injective : (xs ys : List ℕ) → ok xs ≡ ok ys → xs ≡ ys
ok_injective xs ys h = ap (λ (r : Result (List ℕ)). elim r [ err _ ↦ xs | ok zs ↦ zs ]) h

collect_ids-has_id :
    (seen : List ℕ) (values : List (Option ℕ)) (ids : List ℕ) (n : ℕ)
    → collect_ids seen values ≡ ok ids
    → (has_id n seen ≡ true → has_id n ids ≡ false)
      × (has_id n seen ≡ false → has_id n ids ≡ names_id n values)
unfolding collect_ids
collect_ids-has_id seen [] ids n h = ground arith
collect_ids-has_id seen (none ∷ values) ids n h = absurd (ground arith)
collect_ids-has_id seen (some m ∷ values) ids n h =
    elim (Result-cases (collect_ids (m ∷ seen) values)) [
      | inl (rest, p) ↦ ground (
        arith,
        collect_ids-has_id seen values ids n,
        collect_ids-has_id (m ∷ seen) values rest n p,
      )
      | inr (e, p) ↦ ground (arith, collect_ids-has_id seen values ids n)
    ]

collect_ids-Distinct :
    (seen : List ℕ) (values : List (Option ℕ)) (ids : List ℕ)
    → collect_ids seen values ≡ ok ids
    → Distinct ids
unfolding collect_ids
collect_ids-Distinct seen [] ids h = subst Distinct (ok_injective [] ids h) tt
collect_ids-Distinct seen (none ∷ values) ids h = absurd (ground arith)
collect_ids-Distinct seen (some m ∷ values) ids h =
    elim (Bool-cases (m == 0 || any (λ k. k == m) seen)) [
      | inl q ↦ collect_ids-Distinct seen values ids (ground arith)
      | inr q ↦ elim (Result-cases (collect_ids (m ∷ seen) values)) [
        | inr (e, p) ↦ absurd (ground arith)
        | inl (rest, p) ↦
            let all : Distinct (m ∷ rest) = (
              ground arith,
              (collect_ids-has_id (m ∷ seen) values rest m p).0 (ground arith),
              collect_ids-Distinct (m ∷ seen) values rest p,
            ) in
            subst Distinct (ok_injective (m ∷ rest) ids (ground arith)) all
      ]
    ]

-- The identifiers that a request selects are positive and distinct, and are exactly the numbers that
-- it lists.
pub positive_ids-Distinct :
    (values : List (Option ℕ)) (ids : List ℕ)
    → positive_ids values ≡ ok ids
    → Distinct ids × ((n : ℕ) → has_id n ids ≡ names_id n values)
unfolding positive_ids
positive_ids-Distinct [] ids h = absurd (ground arith)
positive_ids-Distinct (v ∷ values) ids h = (
  collect_ids-Distinct [] (v ∷ values) ids h,
  λ n. (collect_ids-has_id [] (v ∷ values) ids n h).1 refl,
)

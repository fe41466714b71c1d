-- ===== src/Run/Rows.antt =====
-- What the updates and counts of rows do to a predicate on every row.
use resume_platform.Shared.{◌≡◌, Bool, false, List, [], ◌∷◌, All, arith, inl, inr, Bool-cases}
use resume_platform.Run.Progress.{update_where, count}

pub All-update_where :
    {A : Type 0} (P : A → Type 0) (selects : A → Bool) (change : A → A) (xs : List A)
    → ((x : A) → P x → P (change x))
    → All P xs
    → All P (update_where selects change xs)
All-update_where P selects change [] k h = tt
All-update_where P selects change (x ∷ xs) k h = (
  (elim (Bool-cases (selects x)) [ inl e ↦ rw e (k x h.0) | inr e ↦ rw e h.0 ]),
  All-update_where P selects change xs k h.1,
)

-- Where the change takes a row out of the selection, no row is selected after it.
pub update_where-clears :
    {A : Type 0} (selects : A → Bool) (change : A → A) (xs : List A)
    → ((x : A) → selects (change x) ≡ false)
    → All (λ x. selects x ≡ false) (update_where selects change xs)
update_where-clears selects change [] k = tt
update_where-clears selects change (x ∷ xs) k = (
  (elim (Bool-cases (selects x)) [ inl e ↦ rw e (k x) | inr e ↦ rw e e ]),
  update_where-clears selects change xs k,
)

pub count-none :
    {A : Type 0} (selects : A → Bool) (xs : List A)
    → count selects xs ≡ 0
    → All (λ x. selects x ≡ false) xs
count-none selects [] h = tt
count-none selects (x ∷ xs) h = elim (Bool-cases (selects x)) [
  | inl e ↦ absurd (ground arith)
  | inr e ↦ (e, count-none selects xs (ground arith))
]

pub All-zip :
    {A : Type 0} (P Q : A → Type 0) (xs : List A) → All P xs → All Q xs → All (λ x. P x × Q x) xs
All-zip P Q [] p q = tt
All-zip P Q (x ∷ xs) p q = ((p.0, q.0), All-zip P Q xs p.1 q.1)

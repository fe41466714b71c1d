-- ===== src/Shared/Sorting.antt =====
-- `sort.SliceStable`, whose result the input and the order determine: it is written as an insertion
-- sort that keeps equal elements in their order. And the first element of a list that passes a test.
use mathlib.Core.Path.{◌≡◌, refl, sym, ap, subst}
use mathlib.Core.Logic.{◌⊎◌, inl, inr}
use mathlib.Core.Bool.{Bool, true, false, ◌||◌}
use mathlib.Core.Option.{Option, none, some}
use mathlib.Core.List.{List, [], ◌∷◌}
use native.Mathlib.Omega.{arith}
use resume_platform.Shared.Tests.{if◌then◌else◌, Bool-cases}
use resume_platform.Shared.Lists.{All, In, All-In, any}

module _ {A : Type 0} (less : A → A → Bool) where
  -- An element goes before the first that is not less.
  abbrev insert_stable : A → List A → List A
  insert_stable x [] = x ∷ []
  insert_stable x (y ∷ ys) = if less y x then y ∷ insert_stable x ys else x ∷ y ∷ ys

  abbrev pub sort_stable : List A → List A
  sort_stable [] = []
  sort_stable (x ∷ xs) = insert_stable x (sort_stable xs)

  In-insert : (a x : A) (ys : List A) → (x ≡ a) ⊎ In a ys → In a (insert_stable x ys)
  In-insert a x [] m = m
  In-insert a x (y ∷ ys) m = ground (arith, In-insert a x ys)

  insert-In : (a x : A) (ys : List A) → In a (insert_stable x ys) → (x ≡ a) ⊎ In a ys
  insert-In a x [] m = m
  insert-In a x (y ∷ ys) m = ground (arith, insert-In a x ys)

  pub In-sort : (a : A) (xs : List A) → In a xs → In a (sort_stable xs)
  In-sort a [] m = m
  In-sort a (x ∷ xs) m = In-insert a x (sort_stable xs) (ground (arith, In-sort a xs))

  pub sort-In : (a : A) (xs : List A) → In a (sort_stable xs) → In a xs
  sort-In a [] m = m
  sort-In a (x ∷ xs) m = ground (arith, insert-In a x (sort_stable xs) m, sort-In a xs)

  -- No element is less than one before it.
  abbrev pub Sorted : List A → Type 0
  Sorted [] = Unit
  Sorted (x ∷ xs) = All (λ y. less y x ≡ false) xs × Sorted xs

  module _ (asym : (a b : A) → less a b ≡ true → less b a ≡ false)
      (cotrans : (a b c : A) → less a b ≡ false → less b c ≡ false → less a c ≡ false) where
    All-cotrans :
        (x y : A) (ys : List A)
        → less y x ≡ false
        → All (λ z. less z y ≡ false) ys
        → All (λ z. less z x ≡ false) ys
    All-cotrans x y [] h all = tt
    All-cotrans x y (z ∷ ys) h all = (cotrans z y x all.0 h, All-cotrans x y ys h all.1)

    All-insert :
        (x y : A) (ys : List A)
        → less x y ≡ false
        → All (λ z. less z y ≡ false) ys
        → All (λ z. less z y ≡ false) (insert_stable x ys)
    All-insert x y [] h all = (h, tt)
    All-insert x y (z ∷ ys) h all = ground (arith, All-insert x y ys h all.1)

    insert-Sorted : (x : A) (ys : List A) → Sorted ys → Sorted (insert_stable x ys)
    insert-Sorted x [] s = (tt, tt)
    insert-Sorted x (y ∷ ys) s =
        ground (arith, asym y x, All-insert x y ys, All-cotrans x y ys, insert-Sorted x ys s.1)

    pub sort-Sorted : (xs : List A) → Sorted (sort_stable xs)
    sort-Sorted [] = tt
    sort-Sorted (x ∷ xs) = insert-Sorted x (sort_stable xs) (sort-Sorted xs)

module _ {A : Type 0} (less : A → A → Bool) (p : A → Bool) where
  any-insert : (x : A) (ys : List A) → any p (insert_stable less x ys) ≡ (p x || any p ys)
  any-insert x [] = refl
  any-insert x (y ∷ ys) = ground (arith, any-insert x ys)

  pub any-sort : (xs : List A) → any p (sort_stable less xs) ≡ any p xs
  any-sort [] = refl
  any-sort (x ∷ xs) = ground (arith, any-insert x (sort_stable less xs), any-sort xs)

-- The first element that passes a test: the loops that stop there.
module _ {A : Type 0} (p : A → Bool) where
  abbrev pub first : List A → Option A
  first [] = none
  first (x ∷ xs) = if p x then some x else first xs

  -- In a sorted list the first one that passes is one of the least that pass.
  pub first-least :
      (less : A → A → Bool)
      → ((a : A) → less a a ≡ false)
      → (xs : List A) → Sorted less xs
      → (a : A) → In a xs
      → p a ≡ true
      → (b : A) × In b xs × (p b ≡ true) × (first xs ≡ some b) × (less a b ≡ false)
  first-least less irrefl [] s a m h = absurd m
  first-least less irrefl (x ∷ xs) s a m h = elim (Bool-cases (p x)) [
    | inl e ↦
        let below : less a x ≡ false = elim m [
          | inl q ↦ subst (λ y. less a y ≡ false) (sym q) (irrefl a)
          | inr q ↦ All-In (λ y. less y x ≡ false) xs s.0 a q
        ] in
        (x, inl refl, e, ground arith, below)
    | inr e ↦
        let tail : In a xs = elim m [ inl q ↦ absurd (ground (arith, ap p q)) | inr q ↦ q ] in
        let (b, i, q, f, l) = first-least less irrefl xs s.1 a tail h in
        (b, inr i, q, ground arith, l)
  ]

-- ===== src/Pagination/Links.antt =====
-- Following the links of a listing: they lead to valid pages, and the pages make up the listing.
use resume_platform.Shared.{
  ℕ, zero, suc, ◌+◌, ◌-◌, ◌*◌, ◌≤◌, ◌<◌, ◌≡◌, refl, ap, sym, subst, ◌∙◌, ◌⊎◌, ◌↔◌, none, some, List,
  [], ◌∷◌, ◌++◌, ℤ, pos, negsuc, length, ok, err, bad, Result, ◌>>=◌, arith, Option-cases, if_none,
  inl, inr,
}
use native.Mathlib.Nat.{le-div_iff_mul-le}
use resume_platform.Pagination.{
  Query, size_of, page_count, page_of, page_bounds, next_page, previous_page, link, skip, limit,
  page_rows, missing,
}

size_of_bounds : (n : ℤ) → (1 ≤ size_of n) × (size_of n ≤ 500)
unfolding size_of
size_of_bounds (negsuc n) = omega arith
size_of_bounds (pos n) = ground arith

-- A page is one of the count exactly where it starts inside the listing.
within_count :
    (p total size : ℕ) → 0 < size → ((p + 1 ≤ page_count total size) ↔ (p * size < total))
within_count p total size h =
    let (f, g) = le-div_iff_mul-le {k = size} {x = p + 1} {y = total + size - 1} h in
    ((λ k. omega (arith, f k)), λ k. g (omega arith))

-- A page that is accepted has between 1 and 500 rows at most, and starts inside the listing unless
-- it is the first.
page_bounds_sound :
    (q : Query) (total page size : ℕ)
    → page_bounds q total ≡ ok (page, size)
    → (1 ≤ page) × ((1 ≤ size) × ((size ≤ 500) × ((page ≡ 1) ⊎ ((page - 1) * size < total))))
unfolding page_bounds
page_bounds_sound q total page size h = ground (
  arith,
  size_of_bounds q.page_size,
  Option-cases (page_of q.page total (size_of q.page_size)),
  within_count (page - 1) total (size_of q.page_size),
)

-- The link to the next page of an accepted page is accepted too, at the same size: it never leads to
-- an error while the number of rows stays.
pub page_bounds-next :
    (q : Query) (total page size next : ℕ)
    → page_bounds q total ≡ ok (page, size)
    → next_page total page size ≡ some next
    → page_bounds (link q next) total ≡ ok (next, size)
unfolding page_bounds next_page link page_of
page_bounds-next q total page size next h n = ground (
  arith,
  size_of_bounds q.page_size,
  Option-cases (page_of q.page total (size_of q.page_size)),
  within_count page total (size_of q.page_size),
)

-- The link to the previous page of an accepted page is accepted too, at the same size.
pub page_bounds-previous :
    (q : Query) (total page size previous : ℕ)
    → page_bounds q total ≡ ok (page, size)
    → previous_page page ≡ some previous
    → page_bounds (link q previous) total ≡ ok (previous, size)
unfolding page_bounds previous_page link page_of
page_bounds-previous q total page size previous h n =
    ground
      (arith, size_of_bounds q.page_size, Option-cases (page_of q.page total (size_of q.page_size)))

le_mul : (n size : ℕ) → 0 < size → n ≤ (0 + suc n) * size
le_mul n zero h = absurd (omega arith)
le_mul n (suc k) h = omega arith

next_page-some :
    (total page size next : ℕ)
    → next_page total page size ≡ some next
    → (next ≡ page + 1) × (page * size < total)
unfolding next_page
next_page-some total page size next h = ground arith

next_page-none : (total page size : ℕ) → next_page total page size ≡ none → total ≤ page * size
unfolding next_page
next_page-none total page size h = ground arith

module _ {A : Type 0} where
  skip-limit : (n : ℕ) (xs : List A) → (limit n xs ++ skip n xs) ≡ xs
  unfolding limit skip
  skip-limit n [] = refl
  skip-limit n (x ∷ xs) = ground (arith, skip-limit (n - 1) xs)

  skip-skip : (m n : ℕ) (xs : List A) → skip m (skip n xs) ≡ skip (n + m) xs
  unfolding skip
  skip-skip m n [] = refl
  skip-skip m zero (x ∷ xs) = ap (λ k. skip k (x ∷ xs)) (omega arith)
  skip-skip m (suc n) (x ∷ xs) = ground (arith, skip-skip m n xs)

  length-skip : (n : ℕ) (xs : List A) → length (skip n xs) ≡ length xs - n
  unfolding skip
  length-skip n [] = omega arith
  length-skip n (x ∷ xs) = ground (arith, length-skip (n - 1) xs)

  limit-all : (n : ℕ) (xs : List A) → length xs ≤ n → limit n xs ≡ xs
  unfolding limit
  limit-all n [] h = refl
  limit-all n (x ∷ xs) h = ground (arith, limit-all (n - 1) xs)

  -- What a client gets that follows the links to the next page from a query on: each query is
  -- answered by `pageBounds` and the rows of the page, or refused. `fuel` bounds the further pages;
  -- a link that is left over counts as a failure.
  unfoldable pub follow : ℕ → List A → Query → Result (List A)
  follow zero rows q = page_bounds q (length rows) >>= λ bounds.
      if_none (next_page (length rows) bounds.0 bounds.1) (ok (page_rows rows bounds.0 bounds.1))
        λ next. err (bad "unfinished")
  follow (suc fuel) rows q = page_bounds q (length rows) >>= λ bounds.
      if_none (next_page (length rows) bounds.0 bounds.1) (ok (page_rows rows bounds.0 bounds.1))
        λ next.
          follow fuel rows (link q next) >>= λ rest. ok (page_rows rows bounds.0 bounds.1 ++ rest)

  page_rows-last :
      (rows : List A) (p size : ℕ)
      → length rows ≤ (p + 1) * size
      → page_rows rows (p + 1) size ≡ skip (p * size) rows
  unfolding page_rows
  page_rows-last rows p size h =
      ap (λ k. limit size (skip (k * size) rows)) (omega arith)
      ∙ limit-all size (skip (p * size) rows) (omega (arith, length-skip (p * size) rows))

  page_rows-more :
      (rows : List A) (p size : ℕ)
      → (page_rows rows (p + 1) size ++ skip ((p + 1) * size) rows) ≡ skip (p * size) rows
  unfolding page_rows
  page_rows-more rows p size =
      ap (λ k. limit size (skip (k * size) rows) ++ skip ((p + 1) * size) rows) (omega arith)
      ∙ (ap (λ zs. limit size (skip (p * size) rows) ++ zs)
            (ap (λ k. skip k rows) (omega arith) ∙ sym (skip-skip size (p * size) rows))
          ∙ skip-limit size (skip (p * size) rows))

  follow-skip :
      (fuel : ℕ) (rows : List A) (q : Query) (p size : ℕ)
      → page_bounds q (length rows) ≡ ok (p + 1, size)
      → length rows ≤ (p + suc fuel) * size
      → follow fuel rows q ≡ ok (skip (p * size) rows)
  unfolding follow
  follow-skip zero rows q p size h enough =
      elim (Option-cases (next_page (length rows) (p + 1) size)) [
        | inl e ↦ rw h (
            rw e (ap ok (page_rows-last rows p size (next_page-none (length rows) (p + 1) size e))))
        | inr (next, e) ↦
            absurd (omega (arith, (next_page-some (length rows) (p + 1) size next e).1))
      ]
  follow-skip (suc fuel) rows q p size h enough =
      elim (Option-cases (next_page (length rows) (p + 1) size)) [
        | inl e ↦ rw h (
            rw e (ap ok (page_rows-last rows p size (next_page-none (length rows) (p + 1) size e))))
        | inr (next, e) ↦
            let same = (next_page-some (length rows) (p + 1) size next e).0 in
            let accepted =
              subst (λ n. page_bounds (link q next) (length rows) ≡ ok (n, size)) same
                (page_bounds-next q (length rows) (p + 1) size next h e) in
            let rest = follow-skip fuel rows (link q next) (p + 1) size accepted (omega arith) in
            rw h (rw e (rw rest (ap ok (page_rows-more rows p size))))
      ]

  skip-zero : (k : ℕ) (rows : List A) → k ≡ 0 → skip k rows ≡ rows
  unfolding skip
  skip-zero k [] h = refl
  skip-zero k (x ∷ rows) h = ground arith

  -- Following the links to the next page from the first one, each by the query that the link names,
  -- is never refused, ends within as many further pages as there are rows, and shows every row once
  -- and in order, at any size of the pages.
  pub follow-all :
      (rows : List A) (page_size : ℤ)
      → follow (length rows) rows (record { page_size = page_size; page = missing }) ≡ ok rows
  unfolding page_bounds page_of
  follow-all rows page_size =
      let size = size_of page_size in
      follow-skip (length rows) rows (record { page_size = page_size; page = missing }) 0 size refl
        (le_mul (length rows) size (omega (arith, size_of_bounds page_size)))
      ∙ ap ok (skip-zero (0 * size) rows (omega arith))

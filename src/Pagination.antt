-- ===== src/Pagination.antt =====
-- `pageBounds` and the links of `pageResponse` in internal/platform/pagination.go. The query holds
-- the parameters as the source parses them: `num` of `page_size`, and `page`, which is empty, the
-- word `last`, a number, or text that `strconv.Atoi` refuses. The numbers do not reach 2^63.
pub mod Tests
pub mod Links
use resume_platform.Shared.{
  ℕ, ◌+◌, ◌-◌, ◌*◌, ◌/◌, Bool, true, false, not, ◌&&◌, ◌||◌, Option, none, some, List, [], ◌∷◌, ℤ,
  pos, negsuc, length, Result, ok, err, api_error, leb, ltb, ◌==◌, if◌then◌else◌,
}

pub data Page : Type 0 where
  missing last malformed : Page
  number : ℤ → Page

pub record Query : Type 0 where
  pub page_size : ℤ
  pub page : Page

-- `size`: 20 unless it is positive, and at most 500.
pub size_of : ℤ → ℕ
size_of (negsuc n) = 20
size_of (pos n) = if n == 0 then 20 else if leb n 500 then n else 500

-- `(total+size-1)/size`
abbrev pub page_count : ℕ → ℕ → ℕ
page_count total size = (total + size - 1) / size

-- The number of the page, before it is checked; a negative one is refused like 0.
pub page_of : Page → ℕ → ℕ → Option ℕ
page_of missing total size = some 1
page_of last total size = some (if leb (page_count total size) 1 then 1 else page_count total size)
page_of malformed total size = none
page_of (number (pos n)) total size = some n
page_of (number (negsuc n)) total size = some 0

pub page_bounds : Query → ℕ → Result (ℕ × ℕ)
page_bounds q total =
    let size = size_of q.page_size in
    elim (page_of q.page total size) [
      | none ↦ err (api_error 404 "无效页码")
      | some page ↦
          if ltb page 1 || (ltb 1 page && ltb (page_count total size) page)
          then err (api_error 404 "无效页码")
          else ok (page, size)
    ]

-- The pages of the links of `pageResponse`, and the query of a link: the parameter `page` is dropped
-- for the first page and set for another, and the others stay.
pub next_page : ℕ → ℕ → ℕ → Option ℕ
next_page total page size = if ltb (page * size) total then some (page + 1) else none

pub previous_page : ℕ → Option ℕ
previous_page page = if ltb 1 page then some (page - 1) else none

pub link : Query → ℕ → Query
link q page = record q { page = if page == 1 then missing else number (pos page) }

-- The rows of a page: `LIMIT size OFFSET (page-1)*size`.
module _ {A : Type 0} where
  pub skip : ℕ → List A → List A
  skip n [] = []
  skip n (x ∷ xs) = if n == 0 then x ∷ xs else skip (n - 1) xs

  pub limit : ℕ → List A → List A
  limit n [] = []
  limit n (x ∷ xs) = if n == 0 then [] else x ∷ limit (n - 1) xs

  pub page_rows : List A → ℕ → ℕ → List A
  page_rows rows page size = limit size (skip ((page - 1) * size) rows)

-- ===== src/Pagination/Tests.antt =====
-- A listing of 45 rows, and its pages.
use resume_platform.Shared.{ℕ, ◌≡◌, refl, some, List, [], ◌∷◌, pos, ok}
use resume_platform.Pagination.{
  Query, number, missing, size_of, page_of, page_bounds, next_page, previous_page,
}
use resume_platform.Pagination.Links.{follow, follow-all}

abbrev second_page : Query
second_page = record { page_size = pos 20; page = number (pos 2) }

second_page_accepted : page_bounds second_page 45 ≡ ok (2, 20)
unfolding page_bounds page_of size_of
second_page_accepted = refl

third_follows : next_page 45 2 20 ≡ some 3
unfolding next_page
third_follows = refl

first_precedes : previous_page 2 ≡ some 1
unfolding previous_page
first_precedes = refl

abbrev page_two : ℕ
page_two = 2

abbrev three_rows : List ℕ
three_rows = 7 ∷ 8 ∷ 9 ∷ []

follow-all_example :
    follow 3 three_rows (record { page_size = pos 2; page = missing }) ≡ ok three_rows
follow-all_example = follow-all three_rows (pos 2)

-- ===== src/Storage/Bounded/Checks.antt =====
-- Bounded reads of a small collection, and instances of their theorems.
use appport_services.Common.{
  ◌≡◌, refl, ◌≢◌, ◌≤◌, ℕ, Bool, true, false, ltb, none, some, List, [], ◌∷◌, length, every,
}
use appport_services.Storage.Bounded.{Page, Query, pages, bounded_find}
use appport_services.Storage.Bounded.Pages.{OnlyMatching, bounded_find-IsBounded, bounded_find_ends}
use appport_services.Exec.{ok}

-- Pages of one record, without end.
abbrev page_of : ℕ → Page ℕ
page_of n = record { records = n ∷ []; exhausted = false; next_cursor = some "next" }

abbrev endless : Query ℕ ℕ
endless matches n cursor s = (ok (page_of 7), s)

abbrev is_small : ℕ → Bool
is_small n = ltb n 9

abbrev sevens : List ℕ
sevens = 7 ∷ 7 ∷ []

read_two : (bounded_find endless is_small 2 3 0).0 ≡ ok sevens
unfolding bounded_find
read_two = refl

bounded_find-IsBounded_example : (length sevens ≤ 2) × (every is_small sevens ≡ true)
bounded_find-IsBounded_example = bounded_find-IsBounded endless is_small 2 3 0 sevens read_two

only_small : OnlyMatching endless is_small 2
only_small n cursor s page e = rw (← same) refl
  where
    same : page_of 7 ≡ page
    same = cc e

bounded_find_ends_example : (pages endless is_small 2 3 none [] 0).0 ≢ ok none
bounded_find_ends_example = bounded_find_ends endless is_small 2 only_small 0

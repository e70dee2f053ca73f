-- ===== src/Helpers/Tests.antt =====
-- The helpers at concrete inputs.
use flowdeck_backend.Helpers.Slug
use flowdeck_backend.Base.{List, [], arith, codes, false, length, refl, true, ℕ, ◌↔◌, ◌∷◌, ◌≡◌, ◌≤◌}
use flowdeck_backend.Helpers.Pagination.{first_pages, first_pages-eq_rows, page_count, paginate}
use flowdeck_backend.Helpers.Password.{IsStrong, Issue, password_issues, password_issues_iff}
use flowdeck_backend.Helpers.Slug.{slug_of, slug_of-is_slug}

abbrev rows : List ℕ
rows = 1 ∷ 2 ∷ 3 ∷ 4 ∷ 5 ∷ []

-- The last page of five rows, two on each.
paginate_runs : paginate rows (record { page = 3; limit = 2 }) ≡ record {
  items = 5 ∷ [];
  pagination = record {
    page = 3;
    limit = 2;
    total = 5;
    pages = 3;
    has_next = false;
    has_previous = true;
  };
}
unfolding paginate page_count
paginate_runs = refl

weak_runs :
    password_issues (codes "secret")
    ≡ Issue.too_short ∷ Issue.no_upper ∷ Issue.no_digit ∷ Issue.no_symbol ∷ []
unfolding password_issues
weak_runs = refl

strong_runs : password_issues (codes "Secret-2024") ≡ []
unfolding password_issues
strong_runs = refl

slug_runs : slug_of (codes " docs & plans! ") ≡ codes "docs-plans"
unfolding slug_of Slug.push_character
slug_runs = refl

-- The cut at 60 characters can leave a separator at the end.
cut_runs :
    slug_of (codes "aaaaaaaaaaaaaaaaaaaaaaaaaaaaaaaaaaaaaaaaaaaaaaaaaaaaaaaaaaa b")
    ≡ codes "aaaaaaaaaaaaaaaaaaaaaaaaaaaaaaaaaaaaaaaaaaaaaaaaaaaaaaaaaaa-"
unfolding slug_of Slug.push_character
cut_runs = refl

first_pages-eq_rows_example :
    first_pages rows 2 (paginate rows (record { page = 1; limit = 2 })).pagination.pages ≡ rows
first_pages-eq_rows_example =
    first_pages-eq_rows rows (record { page = 1; limit = 2 }) (omega arith)

password_issues_iff_example :
    (password_issues (codes "Secret-2024") ≡ []) ↔ IsStrong (codes "Secret-2024")
password_issues_iff_example = password_issues_iff (codes "Secret-2024")

slug_of-is_slug_example :
    (Slug.is_slug_after false (slug_of (codes "docs")) ≡ true)
    × (length (slug_of (codes "docs")) ≤ 60)
slug_of-is_slug_example = slug_of-is_slug (codes "docs")

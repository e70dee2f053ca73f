-- ===== src/Pages/Tests.antt =====
-- Requests on a few pages, and the theorems at concrete inputs.
use flowdeck_backend.Constants.PageMessages
use flowdeck_backend.Base.{
  List, Option, [], arith, count, elem, false, find, length, map, none, refl, some, ℕ, ◌∷◌, ◌≡◌,
}
use flowdeck_backend.Models.{Db, Page, empty_db, list_models}
use flowdeck_backend.Pages.{
  UpdatePageInput, create_page, has_page_id, invalidate, load_page, new_page, notify_about_page,
  resolve_parent, restore_revision, save_with_revision, update_page,
}
use flowdeck_backend.Pages.Forest.{IsForest}
use flowdeck_backend.Pages.History.{
  Gives, IsBack, archive_page-Outcome, restore_revision-update_page,
}
use flowdeck_backend.Pages.Requests.{Reach, Reach-IsForest, Reach-acyclic, Step}
use flowdeck_backend.Pages.Tree.{
  archive_page, is_in_subtree, move_page, move_subtree, rebase_each, reorder_each, reorder_pages,
}
use flowdeck_backend.Pages.Tree.Handlers.{IsForestIn}
use flowdeck_backend.Pages.Tree.Shape.{IsForest-append}
use flowdeck_backend.Store.{
  Ensures, UnlessRefused, bad_request, err, modify, ok, pure, reads, ◌>>=◌,
}

abbrev page_at : ℕ → Option ℕ → List ℕ → Page
page_at id parent path =
    new_page id 7 (parent, path) 0 40
      (record { title = "Notes"; body = some "one"; icon = none; parent = none })

-- 1 is above 2, and 2 above 3; 4 is another root.
abbrev start : Db list_models
start = record empty_db {
  pages =
      page_at 1 none []
      ∷ page_at 2 (some 1) (1 ∷ [])
      ∷ page_at 3 (some 2) (1 ∷ 2 ∷ [])
      ∷ page_at 4 none []
      ∷ [];
}

no_pages-IsForest : IsForest []
no_pages-IsForest = record { unique = λ x. ground arith; placed = λ x d found. absurd cc }

start-IsForestIn : IsForestIn start
start-IsForestIn = IsForest-append _ (page_at 4 none []) refl refl (
    IsForest-append _ (page_at 3 (some 2) (1 ∷ 2 ∷ [])) refl
      (page_at 2 (some 1) (1 ∷ []), refl, refl, refl)
      (IsForest-append _ (page_at 2 (some 1) (1 ∷ [])) refl (page_at 1 none [], refl, refl, refl)
        (IsForest-append [] (page_at 1 none []) refl refl no_pages-IsForest)))

pages : Unit {0}
unfolding load_page resolve_parent invalidate notify_about_page create_page save_with_revision
    update_page restore_revision rebase_each reorder_each move_subtree move_page reorder_pages
    archive_page ◌>>=◌ reads modify pure
pages = tt

abbrev paths : Db list_models → List (ℕ × Option ℕ × List ℕ)
paths db = map (λ d. (d.id, d.parent, d.path)) db.pages

-- Moving 2 below 4 takes 3 along.
moved :
    paths (move_page 7 2 (record { parent = some (some 4); position = none }) start).1
    ≡ (1, none, []) ∷ (2, some 4, 4 ∷ []) ∷ (3, some 2, 4 ∷ 2 ∷ []) ∷ (4, none, []) ∷ []
unfolding pages
moved = refl

-- A page goes below neither itself nor what is below it.
refusals :
    ((move_page 7 1 (record { parent = some (some 3); position = none }) start).0
      ≡ err (bad_request PageMessages.cannot_nest_in_descendant))
    × ((move_page 7 1 (record { parent = some (some 1); position = none }) start).0
        ≡ err (bad_request PageMessages.cannot_nest_in_self))
unfolding pages
refusals = (refl, refl)

-- A request that gives a position and no parent moves the page to the root.
position_only :
    paths (move_page 7 3 (record { parent = none; position = some 5 }) start).1
    ≡ (1, none, []) ∷ (2, some 1, 1 ∷ []) ∷ (3, none, []) ∷ (4, none, []) ∷ []
unfolding pages
position_only = refl

-- A page seven levels down takes a page with one below it, which is then deeper than a new page could
-- be.
too_deep :
    map
      (λ d. length d.path)
      (move_page 7 1
        (record { parent = some (some 9); position = none })
        (record start {
          pages =
              page_at 1 none []
              ∷ page_at 2 (some 1) (1 ∷ [])
              ∷ page_at 3 (some 2) (1 ∷ 2 ∷ [])
              ∷ page_at 9 (some 8) (10 ∷ 11 ∷ 12 ∷ 13 ∷ 14 ∷ 15 ∷ 8 ∷ [])
              ∷ [];
        })).1.pages
    ≡ 8 ∷ 9 ∷ 10 ∷ 7 ∷ []
unfolding pages
too_deep = refl

abbrev edit : UpdatePageInput
edit = record { title = some "Plan"; body = some "two"; icon = none }

loads : load_page 7 2 start ≡ ok (page_at 2 (some 1) (1 ∷ []))
unfolding pages
loads = refl

restore_revision-update_page_example :
    Ensures
      (Gives (IsBack 7 2 40 edit (page_at 2 (some 1) (1 ∷ [])) start))
      (restore_revision 7 2 1 41)
      (update_page 7 2 40 edit start).1
restore_revision-update_page_example =
    restore_revision-update_page 7 2 40 41 edit start (page_at 2 (some 1) (1 ∷ [])) start-IsForestIn
      loads refl

archive_page-Outcome_example :
    Ensures
      (UnlessRefused start (λ n db'.
        (n ≡ count (is_in_subtree 7 2) start.pages) × (count (is_in_subtree 7 2) db'.pages ≡ 0)))
      (archive_page 5 7 2 40)
      start
archive_page-Outcome_example = archive_page-Outcome 5 7 2 40 start start-IsForestIn

abbrev after_three : Db list_models
after_three =
    (archive_page 5 7 1 40
      (move_page 7 2 (record { parent = some (some 4); position = none })
        (create_page 5 7 40
          (record { title = "New"; body = none; icon = none; parent = some (some 3) })
          start).1).1).1

three_requests : Reach start after_three
three_requests =
    Reach.next
      (Reach.next
        (Reach.next Reach.here (
          Step.create_page 5 7 40
            (record { title = "New"; body = none; icon = none; parent = some (some 3) }) refl))
        (Step.move_page 7 2 (record { parent = some (some 4); position = none })))
      (Step.archive_page 5 7 1 40)

Reach-IsForest_example : IsForestIn after_three
Reach-IsForest_example = Reach-IsForest three_requests start-IsForestIn

abbrev found_after : Page
found_after = page_at 3 (some 2) (4 ∷ 2 ∷ [])

finds : find (has_page_id 3) after_three.pages ≡ some found_after
unfolding pages
finds = refl

Reach-acyclic_example : elem 3 found_after.path ≡ false
Reach-acyclic_example = Reach-acyclic 3 found_after three_requests start-IsForestIn finds

-- ===== src/Pages/Requests.antt =====
-- Sequences of requests of page.service.ts, in any order, valid or not.
use flowdeck_backend.Pages
use flowdeck_backend.Pages.Tree
use flowdeck_backend.Base.{List, count, elem, false, find, some, ℕ, ◌≡◌}
use flowdeck_backend.Models.{Db, Models, Page}
use flowdeck_backend.Pages.{CreatePageInput, UpdatePageInput, has_page_id}
use flowdeck_backend.Pages.Forest.{elem_self}
use flowdeck_backend.Pages.Handlers.{
  archive_page-Keeps, create_page-Keeps, reorder_pages-Keeps, restore_revision-Keeps,
  update_page-Keeps,
}
use flowdeck_backend.Pages.Tree.{MovePageInput, ReorderEntry}
use flowdeck_backend.Pages.Tree.Handlers.{IsForestIn, move_page-Keeps}

-- One request. Whoever creates a page gives it an id that no page has.
pub data Step {m : Models} (db : Db m) : Db m → Type 0 where
  create_page :
      (id ws author : ℕ) (payload : CreatePageInput)
      → count (has_page_id id) (m.page.docs db.pages) ≡ 0
      → Step db (Pages.create_page id ws author payload db).1
  update_page :
      (ws p editor : ℕ) (payload : UpdatePageInput)
      → Step db (Pages.update_page ws p editor payload db).1
  restore_revision :
      (ws p version editor : ℕ) → Step db (Pages.restore_revision ws p version editor db).1
  move_page : (ws p : ℕ) (input : MovePageInput) → Step db (Tree.move_page ws p input db).1
  reorder_pages :
      (ws : ℕ) (entries : List ReorderEntry) → Step db (Tree.reorder_pages ws entries db).1
  archive_page : (now ws p actor : ℕ) → Step db (Tree.archive_page now ws p actor db).1

pub data Reach {m : Models} (db : Db m) : Db m → Type 0 where
  here : Reach db db
  next : {db' db'' : Db m} → Reach db db' → Step db' db'' → Reach db db''

Step-IsForestIn : {m : Models} {db db' : Db m} → Step db db' → IsForestIn db → IsForestIn db'
Step-IsForestIn {db} (Step.create_page id ws author payload fresh) h =
    (create_page-Keeps id ws author payload db fresh h).at
Step-IsForestIn {db} (Step.update_page ws p editor payload) h =
    (update_page-Keeps ws p editor payload db h).at
Step-IsForestIn {db} (Step.restore_revision ws p version editor) h =
    (restore_revision-Keeps ws p version editor db h).at
Step-IsForestIn {db} (Step.move_page ws p input) h = (move_page-Keeps ws p input db h).at
Step-IsForestIn {db} (Step.reorder_pages ws entries) h = (reorder_pages-Keeps ws entries db h).at
Step-IsForestIn {db} (Step.archive_page now ws p actor) h =
    (archive_page-Keeps now ws p actor db h).at

-- From a forest of pages, any sequence of requests to create, edit, restore, move, reorder and
-- archive pages, refused or carried out, leaves a forest: page ids are unique, a page at the root has
-- an empty path, and the path of any other page is that of its parent and the parent, which is in the
-- same workspace.
pub Reach-IsForest : {m : Models} {db db' : Db m} → Reach db db' → IsForestIn db → IsForestIn db'
Reach-IsForest Reach.here h = h
Reach-IsForest (Reach.next r st) h = Step-IsForestIn st (Reach-IsForest r h)

-- After any sequence of requests that begins at a forest of pages, no page has its own id on its path.
pub Reach-acyclic :
    {m : Models} {db db' : Db m} (x : ℕ) (d : Page)
    → Reach db db'
    → IsForestIn db
    → find (has_page_id x) (m.page.docs db'.pages) ≡ some d
    → elem x d.path ≡ false
Reach-acyclic x d r h found = elem_self x _ d (Reach-IsForest r h) found

-- ===== src/Pages/Tree.antt =====
-- src/services/page.service.ts: the operations on the tree of pages.
pub mod Rewrite
pub mod Moves
pub mod Handlers
pub mod Shape
use flowdeck_backend.Constants.PageMessages
use flowdeck_backend.Base.{
  Bool, List, Option, [], any, concat, drop, elem, false, get_or, is_none, length, none, some, ℕ,
  ◌&&◌, ◌++◌, ◌+◌, ◌==◌, ◌||◌, ◌∷◌,
}
use flowdeck_backend.Models.{AppLink, Db, Models, NotificationType, Page}
use flowdeck_backend.Pages.{
  has_page_id, invalidate, is_page, load_page, notify_about_page, parent_id, resolve_parent,
}
use flowdeck_backend.Store.{Exec, bad_request, gets, modify, pure, raise_if, reads, ◌>>=◌, ◌>>◌}

pub record MovePageInput : Type 0 where
  -- absent, `null`, or an id
  pub parent : Option (Option ℕ)
  pub position : Option ℕ

pub record ReorderEntry : Type 0 where
  pub page : ℕ
  pub position : ℕ

-- `path: pageId` matches a page whose path holds the id.
abbrev pub is_below : ℕ → ℕ → Page → Bool
is_below ws p d = d.workspace == ws && elem p d.path

abbrev pub is_given : ℕ → Option ℕ → Bool
is_given p none = false
is_given p (some q) = q == p

abbrev pub put_below : Option ℕ × List ℕ → Option ℕ → Page → Page
put_below spot position d = record d {
  parent = spot.0;
  path = spot.1;
  position = get_or position d.position;
}

-- The path of a page below the one that moves, from its path before.
abbrev pub rebase : ℕ → ℕ → List ℕ → List ℕ → List ℕ
rebase p cutoff path old = path ++ p ∷ drop (cutoff + 1) old

abbrev pub with_path : List ℕ → Page → Page
with_path path d = record d { path = path }

abbrev pub at_position : ℕ → Page → Page
at_position position d = record d { position = position }

abbrev pub archived_page : ℕ → Page → Page
archived_page now d = record d { archived_at = some now }

-- Is the page, or lies below it, and is not archived yet?
abbrev pub is_in_subtree : ℕ → ℕ → Page → Bool
is_in_subtree ws p d = d.workspace == ws && (d.id == p || elem p d.path) && is_none d.archived_at

module _ (m : Models) where
  -- One write for each page below, with the path that was read before any write.
  unfoldable pub rebase_each : ℕ → ℕ → List ℕ → List Page → m.page.Coll → m.page.Coll
  rebase_each p cutoff path [] pages = pages
  rebase_each p cutoff path (child ∷ children) pages =
      rebase_each p cutoff path children (
        m.page.update_one (has_page_id child.id) (with_path (rebase p cutoff path child.path))
          pages)

  unfoldable pub reorder_each : ℕ → List ReorderEntry → m.page.Coll → m.page.Coll
  reorder_each ws [] pages = pages
  reorder_each ws (entry ∷ entries) pages =
      reorder_each ws entries
        (m.page.update_one (is_page ws entry.page) (at_position entry.position) pages)

module _ {m : Models} where
  -- The writes of the transaction.
  unfoldable pub move_subtree : Page → List Page → Option ℕ × List ℕ → Option ℕ → Db m → Db m
  move_subtree page descendants spot position db = record db {
    pages =
        rebase_each m page.id (length page.path) spot.1 descendants
          (m.page.update_one (has_page_id page.id) (put_below spot position) db.pages);
  }

  unfoldable pub move_page : ℕ → ℕ → MovePageInput → Exec (Db m) Page
  move_page ws p input = do
    page ← reads (load_page ws p)
    let next = parent_id input.parent
    raise_if (is_given p next) (bad_request PageMessages.cannot_nest_in_self)
    descendants ← gets (λ db. m.page.find_many (is_below ws page.id) db.pages)
    raise_if (any (λ child. is_given child.id next) descendants)
        (bad_request PageMessages.cannot_nest_in_descendant)
    spot ← reads (resolve_parent ws next)
    modify (move_subtree page descendants spot input.position)
    invalidate ws
    pure (put_below spot input.position page)

  unfoldable pub reorder_pages : ℕ → List ReorderEntry → Exec (Db m) ℕ
  reorder_pages ws entries = do
    modify (λ db. record db { pages = reorder_each m ws entries db.pages })
    invalidate ws
    pure (length entries)

  unfoldable pub archive_page : ℕ → ℕ → ℕ → ℕ → Exec (Db m) ℕ
  archive_page now ws p actor = do
    page ← reads (load_page ws p)
    affected ← gets (λ db. m.page.count_documents (is_in_subtree ws page.id) db.pages)
    modify (λ db. record db {
      pages = m.page.update_many (is_in_subtree ws page.id) (archived_page now) db.pages;
    })
    invalidate ws
    notify_about_page ws page actor NotificationType.page_archived
        (concat ("archived your page \"" ∷ page.title ∷ "\"" ∷ [])) (AppLink.workspace ws)
    pure affected

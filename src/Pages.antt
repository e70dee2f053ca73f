-- ===== src/Pages.antt =====
-- src/services/page.service.ts: what its operations share, and the operations that write one page.
pub mod Tree
pub mod Forest
pub mod Handlers
pub mod Requests
pub mod History
mod Tests
use flowdeck_backend.Constants.PageMessages
use flowdeck_backend.Base.{
  Bool, List, Option, String, [], concat, false, get_or, if◌then◌else◌, is_none, leb, length, none,
  some, ℕ, ◌&&◌, ◌++◌, ◌+◌, ◌==◌, ◌∷◌,
}
use flowdeck_backend.Models.{
  AppLink, AuditEntity, Db, Effect, Models, NotificationType, Page, PageRevision, SocketEvent,
  cause,
}
use flowdeck_backend.Store.{
  Exec, Result, bad_request, err, gets, modify, not_found, ok, or_raise, pure, reads, ◌>>=◌, ◌>>◌,
}

abbrev pub max_depth : ℕ
max_depth = 8

pub record CreatePageInput : Type 0 where
  pub title : String
  pub body : Option String
  pub icon : Option String
  -- absent, `null`, or an id
  pub parent : Option (Option ℕ)

pub record UpdatePageInput : Type 0 where
  pub title : Option String
  pub body : Option String
  pub icon : Option (Option String)

-- What a test of the parent's id for truth tells apart: an id, or `null` or nothing.
abbrev pub parent_id : Option (Option ℕ) → Option ℕ
parent_id none = none
parent_id (some p) = p

abbrev pub same_parent : Option ℕ → Option ℕ → Bool
same_parent none q = is_none q
same_parent (some p) q = elim q [ none ↦ false | some k ↦ p == k ]

abbrev pub is_page : ℕ → ℕ → Page → Bool
is_page ws p d = d.id == p && d.workspace == ws

abbrev pub has_page_id : ℕ → Page → Bool
has_page_id p d = d.id == p

module _ {m : Models} where
  unfoldable pub load_page : ℕ → ℕ → Db m → Result Page
  load_page ws p db = elim (m.page.find_one (is_page ws p) db.pages) [
    | none ↦ err (not_found PageMessages.not_found)
    | some page ↦
        if is_none page.archived_at then ok page else err (not_found PageMessages.not_found)
  ]

  -- The parent and the path of a page that is put below it.
  unfoldable pub resolve_parent : ℕ → Option ℕ → Db m → Result (Option ℕ × List ℕ)
  resolve_parent ws none db = ok (none, [])
  resolve_parent ws (some q) db = elim (load_page ws q db) [
    | err e ↦ err e
    | ok parent ↦
        if leb max_depth (length parent.path)
        then err (bad_request PageMessages.too_deep)
        else ok (some parent.id, parent.path ++ parent.id ∷ [])
  ]

  unfoldable pub invalidate : ℕ → Exec (Db m) (Unit {0})
  invalidate ws = cause (Effect.invalidate ws)

  unfoldable pub notify_about_page :
      ℕ → Page → ℕ → NotificationType → String → AppLink → Exec (Db m) (Unit {0})
  notify_about_page ws page actor type message link = cause (
      Effect.notify (record {
        recipients = page.created_by ∷ [];
        workspace = ws;
        type = type;
        message = message;
        body = none;
        actor = some actor;
        entity_type = some AuditEntity.page;
        entity_id = some page.id;
        link = some link;
      }))

abbrev pub new_page : ℕ → ℕ → Option ℕ × List ℕ → ℕ → ℕ → CreatePageInput → Page
new_page id ws spot position author payload = record {
  id = id;
  workspace = ws;
  parent = spot.0;
  path = spot.1;
  title = payload.title;
  body = get_or payload.body "";
  icon = payload.icon;
  position = position;
  version = 1;
  created_by = author;
  updated_by = some author;
  archived_at = none;
}

-- The revision that keeps what a page was.
abbrev pub revision_of : ℕ → Page → PageRevision
revision_of ws page = record {
  page = page.id;
  workspace = ws;
  version = page.version;
  title = page.title;
  body = page.body;
  edited_by = get_or page.updated_by page.created_by;
}

abbrev pub edited : ℕ → UpdatePageInput → Page → Page
edited editor payload d = record d {
  title = get_or payload.title d.title;
  body = get_or payload.body d.body;
  icon = get_or payload.icon d.icon;
  updated_by = some editor;
  version = d.version + 1;
}

abbrev pub restored : ℕ → PageRevision → Page → Page
restored editor revision d = record d {
  title = revision.title;
  body = revision.body;
  updated_by = some editor;
  version = d.version + 1;
}

abbrev pub is_revision : ℕ → ℕ → PageRevision → Bool
is_revision p version d = d.page == p && d.version == version

module _ {m : Models} where
  -- `id` is the object id that the page gets.
  unfoldable pub create_page : ℕ → ℕ → ℕ → CreatePageInput → Exec (Db m) Page
  create_page id ws author payload = do
    spot ← reads (resolve_parent ws (parent_id payload.parent))
    siblings ← gets (λ db.
        m.page.count_documents
          (λ d. d.workspace == ws && same_parent d.parent spot.0 && is_none d.archived_at) db.pages)
    let page = new_page id ws spot siblings author payload
    modify (λ db. record db { pages = m.page.create page db.pages })
    invalidate ws
    pure page

  -- The two writes of the transaction: the revision, and the page with the change.
  unfoldable pub save_with_revision : ℕ → Page → (Page → Page) → Db m → Db m
  save_with_revision ws page change db = record db {
    revisions = m.page_revision.create (revision_of ws page) db.revisions;
    pages = m.page.update_one (has_page_id page.id) change db.pages;
  }

  unfoldable pub update_page : ℕ → ℕ → ℕ → UpdatePageInput → Exec (Db m) Page
  update_page ws p editor payload = do
    page ← reads (load_page ws p)
    modify (save_with_revision ws page (edited editor payload))
    let updated = edited editor payload page
    invalidate ws
    cause (
        Effect.emit_to_workspace ws
          (SocketEvent.page_updated updated.id updated.title updated.version))
    notify_about_page ws updated editor NotificationType.page_edited
        (concat ("edited your page \"" ∷ updated.title ∷ "\"" ∷ [])) (AppLink.page ws updated.id)
    pure updated

  unfoldable pub restore_revision : ℕ → ℕ → ℕ → ℕ → Exec (Db m) Page
  restore_revision ws p version editor = do
    page ← reads (load_page ws p)
    revision ← reads (λ db.
        or_raise (m.page_revision.find_one (is_revision page.id version) db.revisions)
          (not_found PageMessages.revision_not_found))
    modify (save_with_revision ws page (restored editor revision))
    invalidate ws
    pure (restored editor revision page)

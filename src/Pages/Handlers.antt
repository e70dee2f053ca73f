-- ===== src/Pages/Handlers.antt =====
-- The requests of src/services/page.service.ts that write single pages, and the forest of pages.
use flowdeck_backend.Base.{
  Bool, List, Option, String, [], ap, count, none, refl, some, subst, sym, ℕ, ◌∙◌, ◌∷◌, ◌≡◌,
}
use flowdeck_backend.Models.{AppLink, Db, Models, NotificationType, Page}
use flowdeck_backend.Pages.{
  CreatePageInput, UpdatePageInput, create_page, edited, has_page_id, invalidate, is_page,
  load_page, notify_about_page, parent_id, resolve_parent, restore_revision, restored,
  save_with_revision, update_page,
}
use flowdeck_backend.Pages.Forest.{IsForest, IsPlaced}
use flowdeck_backend.Pages.Tree.{
  ReorderEntry, archive_page, archived_page, at_position, is_in_subtree, reorder_each,
  reorder_pages,
}
use flowdeck_backend.Pages.Tree.Handlers.{IsForestIn, load_page_unique, ok-injective, resolved}
use flowdeck_backend.Pages.Tree.Shape.{
  AreSameShapes-map_first, AreSameShapes-map_where, IsForest-AreSameShapes, IsForest-append,
  IsSameShape,
}
use flowdeck_backend.Store.{
  Keeps, Keeps-call, Keeps-gets, Keeps-modify, Keeps-pure, Keeps-reads, modify, ok,
}

module _ (m : Models) where
  update_one-IsForest :
      (p : Page → Bool) (f : Page → Page) (pages : m.page.Coll)
      → ((d : Page) → IsSameShape d (f d))
      → IsForest (m.page.docs pages)
      → IsForest (m.page.docs (m.page.update_one p f pages))
  update_one-IsForest p f pages keeps h =
      rw (m.page.docs-update_one p f pages)
        (IsForest-AreSameShapes _ _ (AreSameShapes-map_first p f keeps _) h)

  update_many-IsForest :
      (p : Page → Bool) (f : Page → Page) (pages : m.page.Coll)
      → ((d : Page) → IsSameShape d (f d))
      → IsForest (m.page.docs pages)
      → IsForest (m.page.docs (m.page.update_many p f pages))
  update_many-IsForest p f pages keeps h =
      rw (m.page.docs-update_many p f pages)
        (IsForest-AreSameShapes _ _ (AreSameShapes-map_where p f keeps _) h)

  reorder_each-IsForest :
      (ws : ℕ) (entries : List ReorderEntry) (pages : m.page.Coll)
      → IsForest (m.page.docs pages)
      → IsForest (m.page.docs (reorder_each m ws entries pages))
  unfolding reorder_each
  reorder_each-IsForest ws [] pages h = h
  reorder_each-IsForest ws (entry ∷ entries) pages h = reorder_each-IsForest ws entries _ (
      update_one-IsForest (is_page ws entry.page) (at_position entry.position) pages
        (λ d. record { ids = refl; workspaces = refl; parents = refl; paths = refl }) h)

  create-IsForest :
      (n : Page) (pages : m.page.Coll)
      → count (has_page_id n.id) (m.page.docs pages) ≡ 0
      → IsPlaced (m.page.docs pages) n.parent n
      → IsForest (m.page.docs pages)
      → IsForest (m.page.docs (m.page.create n pages))
  create-IsForest n pages fresh at h =
      rw (m.page.docs-create n pages) (IsForest-append _ n fresh at h)

module _ {m : Models} where
  notify_about_page-Keeps :
      (ws : ℕ) (page : Page) (actor : ℕ) (type : NotificationType) (message : String)
      (link : AppLink) (db : Db m)
      → IsForestIn db
      → Keeps IsForestIn (notify_about_page ws page actor type message link) db
  unfolding notify_about_page modify
  notify_about_page-Keeps ws page actor type message link db h = record { at = h }

  pub update_page-Keeps :
      (ws p editor : ℕ) (payload : UpdatePageInput) (db : Db m)
      → IsForestIn db
      → Keeps IsForestIn (update_page ws p editor payload) db
  unfolding update_page invalidate save_with_revision
  update_page-Keeps ws p editor payload db h = Keeps-reads _ _ _ _ h λ page _.
      Keeps-modify _ _ _ _ (
        Keeps-modify _ _ _ _ (
          Keeps-modify _ _ _ _ (
            Keeps-call _ _ _ _
              (notify_about_page-Keeps ws _ editor _ _ _ _ (
                update_one-IsForest m (has_page_id page.id) (edited editor payload) db.pages
                  (λ d. record { ids = refl; workspaces = refl; parents = refl; paths = refl }) h))
              (λ _ s' hs. Keeps-pure _ _ s' hs))))

  pub restore_revision-Keeps :
      (ws p version editor : ℕ) (db : Db m)
      → IsForestIn db
      → Keeps IsForestIn (restore_revision ws p version editor) db
  unfolding restore_revision invalidate save_with_revision
  restore_revision-Keeps ws p version editor db h = Keeps-reads _ _ _ _ h λ page _.
      Keeps-reads _ _ _ _ h λ revision _. Keeps-modify _ _ _ _ (
        Keeps-modify _ _ _ _ (
          Keeps-pure _ _ _ (
            update_one-IsForest m (has_page_id page.id) (restored editor revision) db.pages
              (λ d. record { ids = refl; workspaces = refl; parents = refl; paths = refl }) h)))

  pub reorder_pages-Keeps :
      (ws : ℕ) (entries : List ReorderEntry) (db : Db m)
      → IsForestIn db
      → Keeps IsForestIn (reorder_pages ws entries) db
  unfolding reorder_pages invalidate
  reorder_pages-Keeps ws entries db h =
      Keeps-modify _ _ _ _
        (Keeps-modify _ _ _ _ (Keeps-pure _ _ _ (reorder_each-IsForest m ws entries db.pages h)))

  pub archive_page-Keeps :
      (now ws p actor : ℕ) (db : Db m)
      → IsForestIn db
      → Keeps IsForestIn (archive_page now ws p actor) db
  unfolding archive_page invalidate
  archive_page-Keeps now ws p actor db h = Keeps-reads _ _ _ _ h λ page _. Keeps-gets _ _ _ _ (
      Keeps-modify _ _ _ _ (
        Keeps-modify _ _ _ _ (
          Keeps-call _ _ _ _
            (notify_about_page-Keeps ws page actor _ _ _ _ (
              update_many-IsForest m (is_in_subtree ws page.id) (archived_page now) db.pages
                (λ d. record { ids = refl; workspaces = refl; parents = refl; paths = refl }) h))
            (λ _ s' hs. Keeps-pure _ _ s' hs))))

  resolve_parent-IsPlaced :
      (ws : ℕ) (o : Option ℕ) (db : Db m) (spot : Option ℕ × List ℕ) (n : Page)
      → IsForestIn db
      → resolve_parent ws o db ≡ ok spot
      → n.workspace ≡ ws
      → n.path ≡ spot.1
      → IsPlaced (m.page.docs db.pages) spot.0 n
  unfolding resolve_parent
  resolve_parent-IsPlaced ws none db spot n h e home path =
      let at : (none, []) ≡ spot = ok-injective e in
      subst (λ (o : Option ℕ). IsPlaced (m.page.docs db.pages) o n)
        (ap (λ (s : Option ℕ × List ℕ). s.0) at)
        (path ∙ ap (λ (s : Option ℕ × List ℕ). s.1) (sym at))
  resolve_parent-IsPlaced ws (some q) db spot n h e home path =
      let (parent, ran, at) = resolved (load_page ws q db) spot e in
      let (found, home', _) = load_page_unique ws q db parent h ran in
      subst (λ (o : Option ℕ). IsPlaced (m.page.docs db.pages) o n)
        (ap (λ (s : Option ℕ × List ℕ). s.0) (sym at))
        (parent, found, home' ∙ sym home, path ∙ ap (λ (s : Option ℕ × List ℕ). s.1) at)

  pub create_page-Keeps :
      (id ws author : ℕ) (payload : CreatePageInput) (db : Db m)
      → count (has_page_id id) (m.page.docs db.pages) ≡ 0
      → IsForestIn db
      → Keeps IsForestIn (create_page id ws author payload) db
  unfolding create_page invalidate
  create_page-Keeps id ws author payload db fresh h = Keeps-reads _ _ _ _ h λ spot e.
      Keeps-gets _ _ _ _ (
        Keeps-modify _ _ _ _ (
          Keeps-modify _ _ _ _ (
            Keeps-pure _ _ _ (
              create-IsForest m _ db.pages fresh
                (resolve_parent-IsPlaced ws (parent_id payload.parent) db spot _ h e refl refl)
                h))))

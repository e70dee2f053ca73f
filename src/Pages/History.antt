-- ===== src/Pages/History.antt =====
-- Editing and restoring in page.service.ts, and what archiving leaves.
use flowdeck_backend.Constants.PageMessages
use flowdeck_backend.Base.{
  List, Option, [], ap, arith, count, find, find-append_new, find-map_first, find-none, find_sound,
  if◌then◌else◌, is_none, map_first, map_where, none, refl, some, subst, sym, true, ℕ, ◌++◌, ◌+◌,
  ◌∙◌, ◌∷◌, ◌≡◌,
}
use flowdeck_backend.Models.{Db, Models, Page, PageRevision}
use flowdeck_backend.Pages.{
  UpdatePageInput, edited, has_page_id, invalidate, is_page, is_revision, load_page,
  notify_about_page, restore_revision, restored, revision_of, save_with_revision, update_page,
}
use flowdeck_backend.Pages.Tree.{archive_page, archived_page, is_in_subtree}
use flowdeck_backend.Pages.Tree.Handlers.{IsForestIn, load_page_unique}
use flowdeck_backend.Store.{
  Ensures, Ensures-gets, Ensures-modify, Ensures-pure, Ensures-reads, Ensures-returns, Result,
  UnlessRefused, err, not_found, ok,
}

-- The action returns, with `P` of its value and of what it leaves.
abbrev pub Gives : {S A : Type 0} → (A → S → Type 0) → Result A → S → Type 0
Gives P (ok a) s = P a s
Gives P (err e) s = ⊥

active :
    (o : Option Page) (page : Page)
    → elim o as (λ _. Result Page) [
      | none ↦ err (not_found PageMessages.not_found)
      | some d ↦ if is_none d.archived_at then ok d else err (not_found PageMessages.not_found)
    ]
      ≡ ok page
    → is_none page.archived_at ≡ true
active none page e = absurd cc
active (some d) page e = ground arith

find-rewritten :
    (ws p : ℕ) (f : Page → Page) (ps : List Page) (page : Page)
    → find (has_page_id page.id) ps ≡ some page
    → page.workspace ≡ ws
    → page.id ≡ p
    → (f page).workspace ≡ page.workspace
    → (f page).id ≡ page.id
    → find (is_page ws p) (map_first (has_page_id page.id) f ps) ≡ some (f page)
find-rewritten ws p f [] page here home same w i = cc
find-rewritten ws p f (d ∷ ps) page here home same w i =
    ground (arith, find-rewritten ws p f ps page)

count-archived :
    (now ws p : ℕ) (ps : List Page)
    → count (is_in_subtree ws p) (map_where (is_in_subtree ws p) (archived_page now) ps) ≡ 0
count-archived now ws p [] = refl
count-archived now ws p (d ∷ ps) = ground (arith, count-archived now ws p ps)

module _ {m : Models} where
  load_page-ok :
      (ws p : ℕ) (db : Db m) (page : Page)
      → find (is_page ws p) (m.page.docs db.pages) ≡ some page
      → is_none page.archived_at ≡ true
      → load_page ws p db ≡ ok page
  unfolding load_page
  load_page-ok ws p db page found active =
      let e : m.page.find_one (is_page ws p) db.pages ≡ some page =
        m.page.find_one_lem (is_page ws p) db.pages ∙ found in
      rw (e, load_page) (rw active refl)

  load_page-active :
      (ws p : ℕ) (db : Db m) (page : Page)
      → load_page ws p db ≡ ok page
      → is_none page.archived_at ≡ true
  unfolding load_page
  load_page-active ws p db page e = active (m.page.find_one (is_page ws p) db.pages) page e

  -- What an edit leaves of pages and revisions.
  update_page-saves :
      (ws p editor : ℕ) (payload : UpdatePageInput) (db : Db m) (page : Page)
      → load_page ws p db ≡ ok page
      → Ensures
          (λ _ db'.
            (db'.pages ≡ m.page.update_one (has_page_id page.id) (edited editor payload) db.pages)
            × (db'.revisions ≡ m.page_revision.create (revision_of ws page) db.revisions))
          (update_page ws p editor payload)
          db
  unfolding update_page invalidate notify_about_page save_with_revision
  update_page-saves ws p editor payload db page e = Ensures-returns _ _ _ _ page e (
      Ensures-modify _ _ _ _ (
        Ensures-modify _ _ _ _
          (Ensures-modify _ _ _ _ (Ensures-modify _ _ _ _ (Ensures-pure _ _ _ (refl, refl))))))

  -- What a restoration returns, and leaves of pages and revisions.
  abbrev Saved : ℕ → ℕ → Page → PageRevision → Db m → Result Page → Db m → Type 0
  Saved ws editor page revision db r db' =
      (r ≡ ok (restored editor revision page))
      × (db'.pages ≡ m.page.update_one (has_page_id page.id) (restored editor revision) db.pages)
      × (db'.revisions ≡ m.page_revision.create (revision_of ws page) db.revisions)

  restore_revision-saves :
      (ws p version editor : ℕ) (db : Db m) (page : Page) (revision : PageRevision)
      → load_page ws p db ≡ ok page
      → m.page_revision.find_one (is_revision page.id version) db.revisions ≡ some revision
      → Ensures (Saved ws editor page revision db) (restore_revision ws p version editor) db
  unfolding restore_revision invalidate save_with_revision
  restore_revision-saves ws p version editor db page revision e found =
      Ensures-returns _ _ _ _ page e (
        Ensures-returns _ _ _ _ revision (rw found refl)
          (Ensures-modify _ _ _ _ (Ensures-modify _ _ _ _ (Ensures-pure _ _ _ (refl, refl, refl)))))

  -- The page has the title and the body that it had, as the version after the next, and its edited
  -- state is kept as the last revision.
  abbrev pub IsBack : ℕ → ℕ → ℕ → UpdatePageInput → Page → Db m → Page → Db m → Type 0
  IsBack ws p editor payload page db back db' =
      (back.title ≡ page.title)
      × (back.body ≡ page.body)
      × (back.version ≡ page.version + 2)
      × (find (is_page ws p) (m.page.docs db'.pages) ≡ some back)
      × (m.page_revision.docs db'.revisions
          ≡ (m.page_revision.docs db.revisions ++ revision_of ws page ∷ [])
            ++ revision_of ws (edited editor payload page) ∷ [])

  -- After an edit of a page, restoring the version that it had returns and stores its title and body
  -- of before, as the version after the next, and keeps both versions that were replaced as the last
  -- revisions, where page ids are unique and no revision with that version was there before.
  pub restore_revision-update_page :
      (ws p editor restorer : ℕ) (payload : UpdatePageInput) (db : Db m) (page : Page)
      → IsForestIn db
      → load_page ws p db ≡ ok page
      → count (is_revision page.id page.version) (m.page_revision.docs db.revisions) ≡ 0
      → Ensures
          (Gives (IsBack ws p editor payload page db))
          (restore_revision ws p page.version restorer)
          (update_page ws p editor payload db).1
  restore_revision-update_page ws p editor restorer payload db page h e fresh =
      let db' = (update_page ws p editor payload db).1 in
      let (saved, kept) = (update_page-saves ws p editor payload db page e).at in
      let new = edited editor payload page in
      let old = revision_of ws page in
      let (here, home, same) = load_page_unique ws p db page h e in
      let stored : find (is_page ws p) (m.page.docs db'.pages) ≡ some new = rw saved (
        rw (m.page.docs-update_one (has_page_id page.id) (edited editor payload) db.pages) (
          find-rewritten ws p (edited editor payload) (m.page.docs db.pages) page here home same
            refl refl)) in
      let load : load_page ws p db' ≡ ok new =
        load_page-ok ws p db' new stored (load_page-active ws p db page e) in
      let found : m.page_revision.find_one (is_revision new.id page.version) db'.revisions
          ≡ some old =
        m.page_revision.find_one_lem (is_revision new.id page.version) db'.revisions
        ∙ rw kept (
            rw (m.page_revision.docs-create old db.revisions) (
              find-append_new (is_revision page.id page.version) _ old
                (find-none (is_revision page.id page.version) _ fresh) (ground arith))) in
      let done = (restore_revision-saves ws p page.version restorer db' new old load found).at in
      let f = restored restorer old in
      let here' : find (has_page_id page.id) (m.page.docs db'.pages) ≡ some new = rw saved (
        rw (m.page.docs-update_one (has_page_id page.id) (edited editor payload) db.pages) (
          find-map_first (has_page_id page.id) (edited editor payload) (m.page.docs db.pages) page
            here (find_sound (has_page_id page.id) (m.page.docs db.pages) page here))) in
      record {
        at =
            subst
              (λ (r : Result Page).
                Gives {S = Db m} (IsBack ws p editor payload page db) r
                  (restore_revision ws p page.version restorer db').1)
              (sym done.0)
              (
                refl,
                refl,
                omega arith,
                ap (λ c. find (is_page ws p) (m.page.docs c)) done.1
                    ∙ ap (find (is_page ws p))
                        (m.page.docs-update_one (has_page_id new.id) f db'.pages)
                    ∙ find-rewritten ws p f (m.page.docs db'.pages) new here' home same refl refl,
                ap m.page_revision.docs done.2
                    ∙ m.page_revision.docs-create (revision_of ws new) db'.revisions
                    ∙ ap (λ rs. rs ++ revision_of ws new ∷ [])
                        (ap m.page_revision.docs kept
                          ∙ m.page_revision.docs-create old db.revisions),
              );
      }

  -- Archiving a page is refused and changes nothing, or it returns how many pages it archived and
  -- leaves no page of the workspace active that is the page or lies below it.
  pub archive_page-Outcome :
      (now ws p actor : ℕ) (db : Db m)
      → IsForestIn db
      → Ensures
          (UnlessRefused db (λ n db'.
            (n ≡ count (is_in_subtree ws p) (m.page.docs db.pages))
            × (count (is_in_subtree ws p) (m.page.docs db'.pages) ≡ 0)))
          (archive_page now ws p actor)
          db
  unfolding archive_page invalidate notify_about_page
  archive_page-Outcome now ws p actor db h =
      Ensures-reads _ _ _ _ (λ _. refl)
        λ page e.
          let same = (load_page_unique ws p db page h e).2 in
          Ensures-gets _ _ _ _ (
            Ensures-modify _ _ _ _ (
              Ensures-modify _ _ _ _ (
                Ensures-modify _ _ _ _ (
                  Ensures-pure _ _ _ (
                    m.page.count_lem (is_in_subtree ws page.id) db.pages
                        ∙ ap (λ k. count (is_in_subtree ws k) (m.page.docs db.pages)) same,
                    rw
                        (m.page.docs-update_many (is_in_subtree ws page.id) (archived_page now)
                          db.pages)
                        (rw same (count-archived now ws p (m.page.docs db.pages))),
                  )))))

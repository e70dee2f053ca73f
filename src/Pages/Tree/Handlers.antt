-- ===== src/Pages/Tree/Handlers.antt =====
-- `movePage` of src/services/page.service.ts, from the request to the forest that it leaves.
use flowdeck_backend.Constants.PageMessages
use flowdeck_backend.Base.{
  Bool, Bool-cases, List, Option, [], any, ap, arith, count, count-map_first_same, elem, false,
  filter, find, find_sound, find_unique, if◌then◌else◌, inl, inr, is_none, leb, length, map,
  map_first, none, refl, some, subst, sym, ℕ, ◌&&◌, ◌++◌, ◌==◌, ◌∙◌, ◌∷◌, ◌≡◌,
}
use flowdeck_backend.Models.{Db, Models, Page}
use flowdeck_backend.Pages.{
  has_page_id, invalidate, is_page, load_page, max_depth, parent_id, resolve_parent,
}
use flowdeck_backend.Pages.Forest.{IsForest, elem-append, elem_self}
use flowdeck_backend.Pages.Tree.{
  MovePageInput, is_below, is_given, move_page, move_subtree, put_below, rebase, with_path,
}
use flowdeck_backend.Pages.Tree.Moves.{IsSpot, relocated-IsForest}
use flowdeck_backend.Pages.Tree.Rewrite.{
  docs-rebase_each, filter-map_first_out, map_where-map_first, rebase_docs, rebase_docs-map_where,
  relocated,
}
use flowdeck_backend.Store.{
  Keeps, Keeps-gets, Keeps-guard, Keeps-modify, Keeps-pure, Keeps-reads, Result, bad_request, err,
  not_found, ok,
}

abbrev pub IsForestIn : {m : Models} → Db m → Type 0
IsForestIn {m} db = IsForest (m.page.docs db.pages)

loaded :
    (o : Option Page) (page : Page)
    → elim o as (λ _. Result Page) [
      | none ↦ err (not_found PageMessages.not_found)
      | some d ↦ if is_none d.archived_at then ok d else err (not_found PageMessages.not_found)
    ]
      ≡ ok page
    → o ≡ some page
loaded none page e = absurd cc
loaded (some d) page e = ground arith

module _ (ws : ℕ) (page : Page) (spot : Option ℕ × List ℕ) (position : Option ℕ) where
  -- The writes of a move are one rewrite of all pages.
  docs-move_subtree :
      {m : Models} (db : Db m)
      → IsForestIn db
      → find (has_page_id page.id) (m.page.docs db.pages) ≡ some page
      → is_below ws page.id (put_below spot position page) ≡ false
      → m.page.docs
          (move_subtree page
            (filter (is_below ws page.id) (m.page.docs db.pages))
            spot
            position
            db).pages
        ≡ map (relocated ws page spot position) (m.page.docs db.pages)
  unfolding move_subtree
  docs-move_subtree {m} db h here clear =
      let ps = m.page.docs db.pages in
      let below = is_below ws page.id in
      let put = put_below spot position in
      let rebased : Page → Page =
        λ d. with_path (rebase page.id (length page.path) spot.1 d.path) d in
      let off : is_below ws page.id page ≡ false =
        ground (arith, elem_self page.id ps page h here) in
      let saved = map_first (has_page_id page.id) put ps in
      let same_count : (x : ℕ) → count (has_page_id x) saved ≡ count (has_page_id x) ps =
        λ x. count-map_first_same (has_page_id page.id) (has_page_id x) put ps (λ d _. refl) in
      docs-rebase_each m page.id (length page.path) spot.1 (filter below ps) _
      ∙ ap (rebase_docs page.id (length page.path) spot.1 (filter below ps))
          (m.page.docs-update_one (has_page_id page.id) put db.pages)
      ∙ ap (λ cs. rebase_docs page.id (length page.path) spot.1 cs saved)
          (sym
            (filter-map_first_out below (has_page_id page.id) put rebased ps page here off clear))
      ∙ rebase_docs-map_where page.id (length page.path) spot.1 below saved
          (λ x. rw (same_count x) (h.unique x))
      ∙ map_where-map_first below (has_page_id page.id) put rebased ps page here (h.unique page.id)
          clear

any-filter :
    (q : ℕ) (b : Page → Bool) (ps : List Page) (a : Page)
    → find (has_page_id q) ps ≡ some a
    → any (λ child. is_given child.id (some q)) (filter b ps) ≡ false
    → b a ≡ false
any-filter q b [] a e h = cc
any-filter q b (d ∷ ps) a e h = ground (arith, any-filter q b ps a)

IsSpot-clear :
    (ws : ℕ) (page : Page) (ps : List Page) (o : Option ℕ) (path : List ℕ)
    → IsSpot ws page ps o path
    → page.workspace ≡ ws
    → (page.workspace == ws && elem page.id path) ≡ false
IsSpot-clear ws page ps none path empty home = ground (arith, ap (elem page.id) empty)
IsSpot-clear ws page ps (some q) path (parent, found, same, other, out, e) home = ground (
  arith,
  ap (elem page.id) e,
  elem-append page.id q parent.path,
  find_sound (has_page_id q) ps parent found,
)

pub resolved :
    (r : Result Page) (spot : Option ℕ × List ℕ)
    → elim r as (λ _. Result (Option ℕ × List ℕ)) [
      | err e ↦ err e
      | ok parent ↦
          if leb max_depth (length parent.path)
          then err (bad_request PageMessages.too_deep)
          else ok (some parent.id, parent.path ++ parent.id ∷ [])
    ]
      ≡ ok spot
    → (parent : Page) × (r ≡ ok parent) × (spot ≡ (some parent.id, parent.path ++ parent.id ∷ []))
resolved (err e) spot h = absurd cc
resolved (ok parent) spot h = elim (Bool-cases (leb max_depth (length parent.path))) [
  | inl deep ↦ absurd (ground (arith, h))
  | inr room ↦ (parent, refl, ground (arith, h))
]

pub ok-injective : {A : Type 0} {a b : A} → ok a ≡ ok b → a ≡ b
ok-injective e = cc

module _ {m : Models} where
  load_page-find :
      (ws p : ℕ) (db : Db m) (page : Page)
      → load_page ws p db ≡ ok page
      → find (is_page ws p) (m.page.docs db.pages) ≡ some page
  unfolding load_page
  load_page-find ws p db page e =
      sym (m.page.find_one_lem (is_page ws p) db.pages)
      ∙ loaded (m.page.find_one (is_page ws p) db.pages) page e

  -- The page that was loaded is the one with its id, in the workspace of the request.
  pub load_page_unique :
      (ws p : ℕ) (db : Db m) (page : Page)
      → IsForestIn db
      → load_page ws p db ≡ ok page
      → (find (has_page_id page.id) (m.page.docs db.pages) ≡ some page)
        × (page.workspace ≡ ws)
        × (page.id ≡ p)
  load_page_unique ws p db page h e =
      let found = load_page-find ws p db page e in
      let at = find_sound (is_page ws p) _ page found in
      (
        find_unique (is_page ws p) (has_page_id page.id) _ page found (ground arith)
            (h.unique page.id),
        ground arith,
        ground arith,
      )

  move_subtree-IsForest :
      (ws : ℕ) (page : Page) (spot : Option ℕ × List ℕ) (position : Option ℕ) (db : Db m)
      → IsForestIn db
      → find (has_page_id page.id) (m.page.docs db.pages) ≡ some page
      → page.workspace ≡ ws
      → IsSpot ws page (m.page.docs db.pages) spot.0 spot.1
      → IsForest (
          m.page.docs
            (move_subtree page
              (m.page.find_many (is_below ws page.id) db.pages)
              spot
              position
              db).pages)
  move_subtree-IsForest ws page spot position db h here home at =
      rw (m.page.find_many_lem (is_below ws page.id) db.pages) (
        rw
          (docs-move_subtree ws page spot position db h here
            (IsSpot-clear ws page _ spot.0 spot.1 at home))
          (relocated-IsForest ws page spot position _ h here home at))

  resolve_parent-IsSpot :
      (ws p : ℕ) (page : Page) (next : Option ℕ) (db : Db m) (spot : Option ℕ × List ℕ)
      → IsForestIn db
      → page.id ≡ p
      → is_given p next ≡ false
      → any (λ child. is_given child.id next) (m.page.find_many (is_below ws page.id) db.pages)
        ≡ false
      → resolve_parent ws next db ≡ ok spot
      → IsSpot ws page (m.page.docs db.pages) spot.0 spot.1
  unfolding resolve_parent
  resolve_parent-IsSpot ws p page none db spot h id given out e =
      let at : (none, []) ≡ spot = ok-injective e in
      subst (λ (s : Option ℕ × List ℕ). IsSpot ws page (m.page.docs db.pages) s.0 s.1) at refl
  resolve_parent-IsSpot ws p page (some q) db spot h id given out e =
      let (parent, ran, at) = resolved (load_page ws q db) spot e in
      let (found, home, same) = load_page_unique ws q db parent h ran in
      let off =
        any-filter q (is_below ws page.id) (m.page.docs db.pages) parent
          (subst (λ k. find (has_page_id k) (m.page.docs db.pages) ≡ some parent) same found)
          (subst (λ cs. any (λ child. is_given child.id (some q)) cs ≡ false)
            (m.page.find_many_lem (is_below ws page.id) db.pages) out) in
      subst (λ (s : Option ℕ × List ℕ). IsSpot ws page (m.page.docs db.pages) s.0 s.1) (sym at)
        (parent, found, home, ground arith, off, refl)

  -- A request to move a page, refused or carried out, keeps the forest: page ids are unique, and the
  -- path of every page is that of its parent and the parent, all in one workspace.
  pub move_page-Keeps :
      (ws p : ℕ) (input : MovePageInput) (db : Db m)
      → IsForestIn db
      → Keeps IsForestIn (move_page ws p input) db
  unfolding move_page invalidate
  move_page-Keeps ws p input db h = Keeps-reads _ _ _ _ h λ page e. Keeps-guard _ _ _ _ _ h λ given.
      Keeps-gets _ _ _ _ (
        Keeps-guard _ _ _ _ _ h λ out. Keeps-reads _ _ _ _ h λ spot e'.
          let (here, home, same) = load_page_unique ws p db page h e in
          let at =
            resolve_parent-IsSpot ws p page (parent_id input.parent) db spot h same given out e' in
          Keeps-modify _ _ _ _ (
            Keeps-modify _ _ _ _ (
              Keeps-pure _ _ _
                (move_subtree-IsForest ws page spot input.position db h here home at))))

-- ===== src/Pages/Tree/Rewrite.antt =====
-- What the writes of `movePage` in page.service.ts leave, as one function on pages.
use flowdeck_backend.Base.{
  All, Bool, Bool-cases, List, Option, [], ap, arith, count, false, filter, find, if◌then◌else◌,
  inl, inr, length, map, map_first, map_where, refl, some, ℕ, ◌==◌, ◌∙◌, ◌∷◌, ◌≡◌, ◌≤◌,
}
use flowdeck_backend.Models.{Models, Page}
use flowdeck_backend.Pages.{has_page_id}
use flowdeck_backend.Pages.Tree.{is_below, put_below, rebase, rebase_each, with_path}

-- At most one page has any given id.
abbrev pub HasUniquePageIds : List Page → Type 0
HasUniquePageIds ps = (x : ℕ) → count (has_page_id x) ps ≤ 1

-- The page, as it stands after a move of `page` to `spot`.
abbrev pub relocated : ℕ → Page → Option ℕ × List ℕ → Option ℕ → Page → Page
relocated ws page spot position d =
    if d.id == page.id
    then put_below spot position d
    else (if is_below ws page.id d
        then with_path (rebase page.id (length page.path) spot.1 d.path) d
        else d)

-- `rebase_each` on documents.
abbrev pub rebase_docs : ℕ → ℕ → List ℕ → List Page → List Page → List Page
rebase_docs p cutoff path [] ps = ps
rebase_docs p cutoff path (child ∷ children) ps =
    rebase_docs p cutoff path children
      (map_first (has_page_id child.id) (with_path (rebase p cutoff path child.path)) ps)

pub docs-rebase_each :
    (m : Models) (p cutoff : ℕ) (path : List ℕ) (children : List Page) (pages : m.page.Coll)
    → m.page.docs (rebase_each m p cutoff path children pages)
      ≡ rebase_docs p cutoff path children (m.page.docs pages)
unfolding rebase_each
docs-rebase_each m p cutoff path [] pages = refl
docs-rebase_each m p cutoff path (child ∷ children) pages =
    docs-rebase_each m p cutoff path children _
    ∙ ap (rebase_docs p cutoff path children) (
        m.page.docs-update_one (has_page_id child.id) (with_path (rebase p cutoff path child.path))
          pages)

module _ (p cutoff : ℕ) (path : List ℕ) where
  -- Writes for pages with other ids pass over the first page.
  rebase_docs-skip :
      (children : List Page) (d : Page) (ps : List Page)
      → All (λ c. (c.id == d.id) ≡ false) children
      → rebase_docs p cutoff path children (d ∷ ps) ≡ d ∷ rebase_docs p cutoff path children ps
  rebase_docs-skip [] d ps h = refl
  rebase_docs-skip (c ∷ children) d ps h =
      let other : (d.id == c.id) ≡ false = ground (arith, h.0) in
      rw other (rebase_docs-skip children d _ h.1)

  All-filter_other :
      (q : Page → Bool) (x : ℕ) (ps : List Page)
      → count (has_page_id x) ps ≡ 0
      → All (λ c. (c.id == x) ≡ false) (filter q ps)
  All-filter_other q x [] h = tt
  All-filter_other q x (d ∷ ps) h = elim (Bool-cases (q d)) [
    | inl e ↦ rw e (ground arith, All-filter_other q x ps (ground arith))
    | inr e ↦ rw e (All-filter_other q x ps (ground arith))
  ]

  -- One write for each page that passes the test is a rewrite of all that pass it.
  pub rebase_docs-map_where :
      (q : Page → Bool) (ps : List Page)
      → HasUniquePageIds ps
      → rebase_docs p cutoff path (filter q ps) ps
        ≡ map_where q (λ d. with_path (rebase p cutoff path d.path) d) ps
  rebase_docs-map_where q [] u = refl
  rebase_docs-map_where q (d ∷ ps) u =
      let rest = rebase_docs-map_where q ps (λ x. ground (arith, u x)) in
      let new = λ (d : Page). with_path (rebase p cutoff path d.path) d in
      let here : map_first (has_page_id d.id) (with_path (rebase p cutoff path d.path)) (d ∷ ps)
          ≡ new d ∷ ps =
        ground arith in
      let others = All-filter_other q d.id ps (ground (arith, u d.id)) in
      elim (Bool-cases (q d)) [
        | inl e ↦ rw e (
            ap (rebase_docs p cutoff path (filter q ps)) here
            ∙ rebase_docs-skip (filter q ps) (new d) ps others
            ∙ ap (λ xs. new d ∷ xs) rest)
        | inr e ↦ rw e (rebase_docs-skip (filter q ps) d ps others ∙ ap (λ xs. d ∷ xs) rest)
      ]

module _ (q r : Page → Bool) (f g : Page → Page) where
  -- A rewrite of one page that the test does not pass, before or after, leaves what passes it.
  pub filter-map_first_out :
      (ps : List Page) (a : Page)
      → find r ps ≡ some a
      → q a ≡ false
      → q (f a) ≡ false
      → filter q (map_first r f ps) ≡ filter q ps
  filter-map_first_out [] a e n n' = refl
  filter-map_first_out (d ∷ ps) a e n n' = ground (arith, filter-map_first_out ps a)

  -- The page that passes `r` by `f`, else those that pass `q` by `g`.
  abbrev pub either_way : Page → Page
  either_way d = if r d then f d else (if q d then g d else d)

  map_where-map : (ps : List Page) → count r ps ≡ 0 → map_where q g ps ≡ map either_way ps
  map_where-map [] z = refl
  map_where-map (d ∷ ps) z = ground (arith, map_where-map ps)

  pub map_where-map_first :
      (ps : List Page) (a : Page)
      → find r ps ≡ some a
      → count r ps ≤ 1
      → q (f a) ≡ false
      → map_where q g (map_first r f ps) ≡ map either_way ps
  map_where-map_first [] a e u n = refl
  map_where-map_first (d ∷ ps) a e u n = ground (arith, map_where-map_first ps a, map_where-map ps)

module _ (f : Page → Page) (keeps : (d : Page) → (f d).id ≡ d.id) (x : ℕ) where
  pub count-map_ids : (ps : List Page) → count (has_page_id x) (map f ps) ≡ count (has_page_id x) ps
  count-map_ids [] = refl
  count-map_ids (d ∷ ps) = ground (arith, keeps d, count-map_ids ps)

  pub find-map_ids :
      (ps : List Page) (d : Page)
      → find (has_page_id x) ps ≡ some d
      → find (has_page_id x) (map f ps) ≡ some (f d)
  find-map_ids [] d e = cc
  find-map_ids (c ∷ ps) d e = ground (arith, keeps c, find-map_ids ps d)

  pub find-map_ids_from :
      (ps : List Page) (d' : Page)
      → find (has_page_id x) (map f ps) ≡ some d'
      → (d : Page) × (find (has_page_id x) ps ≡ some d) × (d' ≡ f d)
  find-map_ids_from [] d' e = absurd cc
  find-map_ids_from (c ∷ ps) d' e = elim (Bool-cases (c.id == x)) [
    | inl t ↦ (c, ground arith, ground (arith, keeps c))
    | inr t ↦
        let (d, found, same) = find-map_ids_from ps d' (ground (arith, keeps c)) in
        (d, ground arith, same)
  ]

-- ===== src/Pages/Tree/Shape.antt =====
-- Writes of page.service.ts that leave ids, workspaces, parents and paths as they are.
use flowdeck_backend.Base.{
  ==_iff, Bool, Bool-cases, List, Option, Option-cases, [], ap, arith, count, count-append, find,
  find-append_absent, find-append_some, inl, inr, map_first, map_where, none, refl, some,
  some-injective, subst, sym, ℕ, ◌++◌, ◌==◌, ◌∙◌, ◌∷◌, ◌≡◌, ◌≤◌,
}
use flowdeck_backend.Models.{Page}
use flowdeck_backend.Pages.{has_page_id}
use flowdeck_backend.Pages.Forest.{IsForest, IsPlaced}

-- The pages take the same place in the forest.
pub record IsSameShape (d e : Page) : Type 0 where
  pub ids : d.id ≡ e.id
  pub workspaces : d.workspace ≡ e.workspace
  pub parents : d.parent ≡ e.parent
  pub paths : d.path ≡ e.path

abbrev pub AreSameShapes : List Page → List Page → Type 0
AreSameShapes [] [] = Unit {0}
AreSameShapes [] (e ∷ es) = ⊥
AreSameShapes (d ∷ ds) [] = ⊥
AreSameShapes (d ∷ ds) (e ∷ es) = IsSameShape d e × AreSameShapes ds es

pub same_shape : (d : Page) → IsSameShape d d
same_shape d = record { ids = refl; workspaces = refl; parents = refl; paths = refl }

pub same_shapes : (ds : List Page) → AreSameShapes ds ds
same_shapes [] = tt
same_shapes (d ∷ ds) = (same_shape d, same_shapes ds)

count-AreSameShapes :
    (x : ℕ) (ds es : List Page)
    → AreSameShapes ds es
    → count (has_page_id x) ds ≡ count (has_page_id x) es
count-AreSameShapes x [] [] h = refl
count-AreSameShapes x [] (e ∷ es) h = absurd h
count-AreSameShapes x (d ∷ ds) [] h = absurd h
count-AreSameShapes x (d ∷ ds) (e ∷ es) h = ground (arith, h.0.ids, count-AreSameShapes x ds es h.1)

find-AreSameShapes :
    (x : ℕ) (ds es : List Page) (d : Page)
    → AreSameShapes ds es
    → find (has_page_id x) ds ≡ some d
    → (e : Page) × (find (has_page_id x) es ≡ some e) × IsSameShape d e
find-AreSameShapes x [] [] d h found = absurd cc
find-AreSameShapes x [] (e ∷ es) d h found = absurd h
find-AreSameShapes x (c ∷ ds) [] d h found = absurd h
find-AreSameShapes x (c ∷ ds) (e ∷ es) d h found = elim (Bool-cases (c.id == x)) [
  | inl t ↦ (e, ground (arith, h.0.ids), subst (λ (k : Page). IsSameShape k e) (ground arith) h.0)
  | inr t ↦
      let (e', found', same) = find-AreSameShapes x ds es d h.1 (ground arith) in
      (e', ground (arith, h.0.ids), same)
]

back : (ds es : List Page) → AreSameShapes ds es → AreSameShapes es ds
back [] [] h = tt
back [] (e ∷ es) h = absurd h
back (d ∷ ds) [] h = absurd h
back (d ∷ ds) (e ∷ es) h = (
  record {
    ids = sym h.0.ids;
    workspaces = sym h.0.workspaces;
    parents = sym h.0.parents;
    paths = sym h.0.paths;
  },
  back ds es h.1,
)

IsPlaced-AreSameShapes :
    (ds es : List Page) (o : Option ℕ) (d e : Page)
    → AreSameShapes ds es
    → IsSameShape d e
    → IsPlaced ds o d
    → IsPlaced es o e
IsPlaced-AreSameShapes ds es none d e h same empty = sym same.paths ∙ empty
IsPlaced-AreSameShapes ds es (some q) d e h same (parent, found, home, path) =
    let (parent', found', like) = find-AreSameShapes q ds es parent h found in
    (
      parent',
      found',
      sym like.workspaces ∙ home ∙ same.workspaces,
      sym same.paths ∙ path ∙ ap (λ xs. xs ++ q ∷ []) like.paths,
    )

pub IsForest-AreSameShapes : (ds es : List Page) → AreSameShapes ds es → IsForest ds → IsForest es
IsForest-AreSameShapes ds es h f = record {
  unique = λ x. subst (λ n. n ≤ 1) (count-AreSameShapes x ds es h) (f.unique x);
  placed = λ x e found.
      let (d, found', same) = find-AreSameShapes x es ds e (back ds es h) found in
      subst (λ o. IsPlaced es o e) (sym same.parents)
        (IsPlaced-AreSameShapes ds es d.parent d e h
          (record {
            ids = sym same.ids;
            workspaces = sym same.workspaces;
            parents = sym same.parents;
            paths = sym same.paths;
          })
          (f.placed x d found'));
}

module _ (p : Page → Bool) (f : Page → Page) (keeps : (d : Page) → IsSameShape d (f d)) where
  pub AreSameShapes-map_first : (ds : List Page) → AreSameShapes ds (map_first p f ds)
  AreSameShapes-map_first [] = tt
  AreSameShapes-map_first (d ∷ ds) = elim (Bool-cases (p d)) [
    | inl t ↦ rw t (keeps d, same_shapes ds)
    | inr t ↦ rw t (same_shape d, AreSameShapes-map_first ds)
  ]

  pub AreSameShapes-map_where : (ds : List Page) → AreSameShapes ds (map_where p f ds)
  AreSameShapes-map_where [] = tt
  AreSameShapes-map_where (d ∷ ds) = elim (Bool-cases (p d)) [
    | inl t ↦ rw t (keeps d, AreSameShapes-map_where ds)
    | inr t ↦ rw t (same_shape d, AreSameShapes-map_where ds)
  ]

-- A new page, put where a page may go.
module _ (ps : List Page) (n : Page) where
  find-append_old :
      (x : ℕ) (d : Page)
      → find (has_page_id x) ps ≡ some d
      → find (has_page_id x) (ps ++ n ∷ []) ≡ some d
  find-append_old x d e = find-append_some (has_page_id x) ps (n ∷ []) d e

  IsPlaced-append : (o : Option ℕ) (d : Page) → IsPlaced ps o d → IsPlaced (ps ++ n ∷ []) o d
  IsPlaced-append none d h = h
  IsPlaced-append (some q) d (parent, found, home, path) =
      (parent, find-append_old q parent found, home, path)

  pub IsForest-append :
      count (has_page_id n.id) ps ≡ 0
      → IsPlaced ps n.parent n
      → IsForest ps
      → IsForest (ps ++ n ∷ [])
  IsForest-append fresh at f = record {
    unique =
        λ x. grind (arith, count-append (has_page_id x) ps (n ∷ []), f.unique x, ==_iff n.id x);
    placed = λ x d found. elim (Option-cases (find (has_page_id x) ps)) [
      | inl absent ↦
          let new : n ≡ d = ground (arith, find-append_absent (has_page_id x) ps n absent, found) in
          subst (λ (k : Page). IsPlaced (ps ++ n ∷ []) k.parent k) new
            (IsPlaced-append n.parent n at)
      | inr (d', e) ↦
          let old : d' ≡ d = some-injective (sym (find-append_old x d' e) ∙ found) in
          subst (λ (k : Page). IsPlaced (ps ++ n ∷ []) k.parent k) old
            (IsPlaced-append d'.parent d' (f.placed x d' e))
    ];
  }

-- ===== src/Pages/Tree/Moves.antt =====
-- The pages after `movePage` of src/services/page.service.ts, place by place.
use flowdeck_backend.Base.{
  Bool-cases, List, Option, [], ap, arith, drop, elem, false, find, find_sound, if◌then◌else◌, inl,
  inr, length, map, none, refl, some, some-injective, subst, sym, true, ℕ, ◌++◌, ◌+◌, ◌<◌, ◌==◌,
  ◌∙◌, ◌∷◌, ◌≡◌,
}
use flowdeck_backend.Models.{Page}
use flowdeck_backend.Pages.{has_page_id}
use flowdeck_backend.Pages.Forest.{
  IsAbove-elem, IsForest, IsPlaced, append-assoc_last, drop-append, drop-past, elem-append,
}
use flowdeck_backend.Pages.Tree.{is_below, put_below, rebase, with_path}
use flowdeck_backend.Pages.Tree.Rewrite.{count-map_ids, find-map_ids, find-map_ids_from, relocated}

-- Where a page goes: to the root, or directly below a page of the workspace that is neither the page
-- itself nor below it.
abbrev pub IsSpot : ℕ → Page → List Page → Option ℕ → List ℕ → Type 0
IsSpot ws page ps none path = path ≡ []
IsSpot ws page ps (some q) path =
    (parent : Page) × (find (has_page_id q) ps ≡ some parent)
    × (parent.workspace ≡ ws)
    × ((parent.id == page.id) ≡ false)
    × (is_below ws page.id parent ≡ false)
    × (path ≡ parent.path ++ q ∷ [])

module _ (ws : ℕ) (page : Page) (spot : Option ℕ × List ℕ) (position : Option ℕ) (ps : List Page)
    (h : IsForest ps) (here : find (has_page_id page.id) ps ≡ some page)
    (home : page.workspace ≡ ws) where
  -- A page that neither is the one that moves nor lies below it stays as it is.
  relocated-eq_self :
      (d : Page)
      → (d.id == page.id) ≡ false
      → is_below ws page.id d ≡ false
      → relocated ws page spot position d ≡ d
  relocated-eq_self d other off = rw other (rw off refl)

  relocated-eq_rebase :
      (d : Page)
      → (d.id == page.id) ≡ false
      → is_below ws page.id d ≡ true
      → relocated ws page spot position d
        ≡ with_path (rebase page.id (length page.path) spot.1 d.path) d
  relocated-eq_rebase d other on = rw other (rw on refl)

  relocated-eq_put : relocated ws page spot position page ≡ put_below spot position page
  relocated-eq_put =
      let same : (page.id == page.id) ≡ true = ground arith in
      ap
        (λ b.
          if b
          then put_below spot position page
          else (if is_below ws page.id page
              then with_path (rebase page.id (length page.path) spot.1 page.path) page
              else page))
        same

  relocated-id : (d : Page) → (relocated ws page spot position d).id ≡ d.id
  relocated-id d = ground arith

  relocated-workspace : (d : Page) → (relocated ws page spot position d).workspace ≡ d.workspace
  relocated-workspace d = ground arith

  -- The path of a page directly below the one that moves.
  path-below_moved :
      (d : Page)
      → (d.id == page.id) ≡ false
      → page.workspace ≡ d.workspace
      → d.path ≡ page.path ++ page.id ∷ []
      → (relocated ws page spot position d).path
        ≡ (relocated ws page spot position page).path ++ page.id ∷ []
  path-below_moved d other same path =
      let at : elem page.id d.path ≡ true =
        ground (arith, ap (elem page.id) path, elem-append page.id page.id page.path) in
      let on : is_below ws page.id d ≡ true = ground arith in
      ap (λ (e : Page). e.path) (relocated-eq_rebase d other on)
      ∙ ap (λ xs. spot.1 ++ page.id ∷ drop (length page.path + 1) xs) path
      ∙ ap (λ xs. spot.1 ++ page.id ∷ xs) (drop-past page.id page.path)
      ∙ ap (λ (e : Page). e.path ++ page.id ∷ []) (sym relocated-eq_put)

  path-below_parent :
      (q : ℕ) (d parent : Page)
      → (d.id == page.id) ≡ false
      → (parent.id == page.id) ≡ true
      → find (has_page_id q) ps ≡ some parent
      → parent.workspace ≡ d.workspace
      → d.path ≡ parent.path ++ q ∷ []
      → (relocated ws page spot position d).path
        ≡ (relocated ws page spot position parent).path ++ q ∷ []
  path-below_parent q d parent other t found same path =
      let at = find_sound (has_page_id q) ps parent found in
      let id : page.id ≡ q = ground arith in
      let self : page ≡ parent =
        some-injective
          (sym here ∙ subst (λ k. find (has_page_id k) ps ≡ some parent) (sym id) found) in
      subst
        (λ k.
          (relocated ws page spot position d).path
          ≡ (relocated ws page spot position parent).path ++ k ∷ [])
        id
        (subst
          (λ (e : Page).
            (relocated ws page spot position d).path
            ≡ (relocated ws page spot position e).path ++ page.id ∷ [])
          self
          (path-below_moved d other (ap (λ (e : Page). e.workspace) self ∙ same) (
            path
            ∙ ap (λ k. parent.path ++ k ∷ []) (sym id)
            ∙ ap (λ (e : Page). e.path ++ page.id ∷ []) (sym self))))

  -- The path of a page whose parent lies below the one that moves.
  path-below_below :
      (q : ℕ) (d parent : Page)
      → (d.id == page.id) ≡ false
      → (parent.id == page.id) ≡ false
      → find (has_page_id q) ps ≡ some parent
      → parent.workspace ≡ d.workspace
      → d.path ≡ parent.path ++ q ∷ []
      → is_below ws page.id parent ≡ true
      → (relocated ws page spot position d).path
        ≡ (relocated ws page spot position parent).path ++ q ∷ []
  path-below_below q d parent other other' found same path below =
      let up = IsAbove-elem page.id q ps parent h found (ground arith) in
      let size : length page.path < length parent.path =
        subst (λ (p : Page). length p.path < length parent.path)
          (some-injective (sym up.found ∙ here)) up.shorter in
      let on : is_below ws page.id d ≡ true =
        ground (arith, ap (elem page.id) path, elem-append page.id q parent.path) in
      ap (λ (e : Page). e.path) (relocated-eq_rebase d other on)
      ∙ ap (λ xs. spot.1 ++ page.id ∷ drop (length page.path + 1) xs) path
      ∙ ap (λ xs. spot.1 ++ page.id ∷ xs)
          (drop-append (length page.path + 1) q parent.path (ground arith))
      ∙ append-assoc_last page.id q spot.1 _
      ∙ ap (λ (e : Page). e.path ++ q ∷ []) (sym (relocated-eq_rebase parent other' below))

  -- The path of a page elsewhere.
  path-elsewhere :
      (q : ℕ) (d parent : Page)
      → (d.id == page.id) ≡ false
      → (parent.id == page.id) ≡ false
      → find (has_page_id q) ps ≡ some parent
      → parent.workspace ≡ d.workspace
      → d.path ≡ parent.path ++ q ∷ []
      → is_below ws page.id parent ≡ false
      → (relocated ws page spot position d).path
        ≡ (relocated ws page spot position parent).path ++ q ∷ []
  path-elsewhere q d parent other other' found same path out =
      let at = find_sound (has_page_id q) ps parent found in
      let off : is_below ws page.id d ≡ false =
        ground (arith, ap (elem page.id) path, elem-append page.id q parent.path) in
      ap (λ (e : Page). e.path) (relocated-eq_self d other off)
      ∙ path
      ∙ ap (λ (e : Page). e.path ++ q ∷ []) (sym (relocated-eq_self parent other' out))

  -- A page that does not move, below one that moves or stays.
  IsPlaced-relocated :
      (o : Option ℕ) (d : Page)
      → (d.id == page.id) ≡ false
      → IsPlaced ps o d
      → IsPlaced (map (relocated ws page spot position) ps) o (relocated ws page spot position d)
  IsPlaced-relocated none d other empty =
      let off : is_below ws page.id d ≡ false = ground (arith, ap (elem page.id) empty) in
      ap (λ (e : Page). e.path) (relocated-eq_self d other off) ∙ empty
  IsPlaced-relocated (some q) d other (parent, found, same, path) = (
    relocated ws page spot position parent,
    find-map_ids (relocated ws page spot position) relocated-id q ps parent found,
    relocated-workspace parent ∙ same ∙ sym (relocated-workspace d),
    elim (Bool-cases (parent.id == page.id)) [
      | inl t ↦ path-below_parent q d parent other t found same path
      | inr other' ↦ elim (Bool-cases (is_below ws page.id parent)) [
        | inl below ↦ path-below_below q d parent other other' found same path below
        | inr out ↦ path-elsewhere q d parent other other' found same path out
      ]
    ],
  )

  IsPlaced-put :
      (o : Option ℕ)
      → IsSpot ws page ps o spot.1
      → IsPlaced (map (relocated ws page spot position) ps) o (put_below spot position page)
  IsPlaced-put none empty = empty
  IsPlaced-put (some q) (parent, found, same, other, out, path) = (
    relocated ws page spot position parent,
    find-map_ids (relocated ws page spot position) relocated-id q ps parent found,
    relocated-workspace parent ∙ same ∙ sym home,
    path ∙ ap (λ (e : Page). e.path ++ q ∷ []) (sym (relocated-eq_self parent other out)),
  )

  relocated-parent :
      (d : Page) → (d.id == page.id) ≡ false → (relocated ws page spot position d).parent ≡ d.parent
  relocated-parent d other = ground arith

  IsPlaced-any :
      (x : ℕ) (d : Page)
      → IsSpot ws page ps spot.0 spot.1
      → find (has_page_id x) ps ≡ some d
      → IsPlaced
          (map (relocated ws page spot position) ps)
          (relocated ws page spot position d).parent
          (relocated ws page spot position d)
  IsPlaced-any x d at found = elim (Bool-cases (d.id == page.id)) [
    | inl t ↦
        let id : page.id ≡ x = ground (arith, find_sound (has_page_id x) ps d found) in
        let self : page ≡ d =
          some-injective
            (sym here ∙ subst (λ k. find (has_page_id k) ps ≡ some d) (sym id) found) in
        subst
          (λ (e : Page).
            IsPlaced (map (relocated ws page spot position) ps)
              (relocated ws page spot position e).parent (relocated ws page spot position e))
          self
          (subst (λ (e : Page). IsPlaced (map (relocated ws page spot position) ps) e.parent e)
            (sym relocated-eq_put) (IsPlaced-put spot.0 at))
    | inr other ↦
        subst
          (λ o.
            IsPlaced (map (relocated ws page spot position) ps) o
              (relocated ws page spot position d))
          (sym (relocated-parent d other))
          (IsPlaced-relocated d.parent d other (h.placed x d found))
  ]

  pub relocated-IsForest :
      IsSpot ws page ps spot.0 spot.1 → IsForest (map (relocated ws page spot position) ps)
  relocated-IsForest at = record {
    unique =
        λ x. rw (count-map_ids (relocated ws page spot position) relocated-id x ps) (h.unique x);
    placed = λ x d' found.
        let (d, e, same) =
          find-map_ids_from (relocated ws page spot position) relocated-id x ps d' found in
        subst (λ (e : Page). IsPlaced (map (relocated ws page spot position) ps) e.parent e)
          (sym same) (IsPlaced-any x d at e);
  }

-- ===== src/Pages/Forest.antt =====
-- The invariant of the pages of src/services/page.service.ts: the path of a page is the path of its
-- parent and the parent.
use flowdeck_backend.Base.{
  ==_iff, Bool-cases, List, Option, [], ap, arith, drop, elem, false, find, inl, inr, length, none,
  refl, some, subst, suc, sym, true, zero, ℕ, ◌++◌, ◌+◌, ◌<◌, ◌==◌, ◌||◌, ◌∙◌, ◌∷◌, ◌≡◌, ◌≤◌,
}
use flowdeck_backend.Models.{Page}
use flowdeck_backend.Pages.{has_page_id}
use flowdeck_backend.Pages.Tree.Rewrite.{HasUniquePageIds}

abbrev pub IsPlaced : List Page → Option ℕ → Page → Type 0
IsPlaced ps none d = d.path ≡ []
IsPlaced ps (some q) d =
    (parent : Page) × (find (has_page_id q) ps ≡ some parent)
    × (parent.workspace ≡ d.workspace)
    × (d.path ≡ parent.path ++ q ∷ [])

pub record IsForest (ps : List Page) : Type 0 where
  pub unique : HasUniquePageIds ps
  pub placed : (x : ℕ) (d : Page) → find (has_page_id x) ps ≡ some d → IsPlaced ps d.parent d

pub elem-append : (a q : ℕ) (xs : List ℕ) → elem a (xs ++ q ∷ []) ≡ elem a xs || (a == q)
elem-append a q [] = ground arith
elem-append a q (x ∷ xs) = ground (arith, elem-append a q xs)

pub length-append : (q : ℕ) (xs : List ℕ) → length (xs ++ q ∷ []) ≡ length xs + 1
length-append q [] = refl
length-append q (x ∷ xs) = ground (arith, length-append q xs)

pub drop-append :
    (n q : ℕ) (xs : List ℕ) → n ≤ length xs → drop n (xs ++ q ∷ []) ≡ drop n xs ++ q ∷ []
drop-append zero q xs h = refl
drop-append (suc n) q [] h = ground arith
drop-append (suc n) q (x ∷ xs) h = drop-append n q xs (ground arith)

pub drop-past : (q : ℕ) (xs : List ℕ) → drop (length xs + 1) (xs ++ q ∷ []) ≡ []
drop-past q [] = refl
drop-past q (x ∷ xs) =
    let size : suc (length xs + 1) ≡ suc (length xs) + 1 = omega arith in
    subst (λ k. drop k (x ∷ (xs ++ q ∷ [])) ≡ []) size (drop-past q xs)

pub append-assoc_last :
    (p q : ℕ) (xs ys : List ℕ) → xs ++ p ∷ (ys ++ q ∷ []) ≡ (xs ++ p ∷ ys) ++ q ∷ []
append-assoc_last p q [] ys = refl
append-assoc_last p q (x ∷ xs) ys = ap (λ zs. x ∷ zs) (append-assoc_last p q xs ys)

-- A page on the path of `d`: above it, in the same workspace, with a shorter path.
pub record IsAbove (ps : List Page) (a : ℕ) (d : Page) : Type 0 where
  pub page : Page
  pub found : find (has_page_id a) ps ≡ some page
  pub shorter : length page.path < length d.path
  pub same : page.workspace ≡ d.workspace

elem-empty : (a : ℕ) (xs : List ℕ) → length xs ≤ 0 → elem a xs ≡ true → ⊥
elem-empty a [] h e = cc
elem-empty a (x ∷ xs) h e = ground arith

IsAbove-parent :
    (ps : List Page) (a : ℕ) (o : Option ℕ) (d : Page)
    → IsPlaced ps o d
    → elem a d.path ≡ true
    → ((q : ℕ) (parent : Page)
        → find (has_page_id q) ps ≡ some parent
        → length parent.path < length d.path
        → elem a parent.path ≡ true
        → IsAbove ps a parent)
    → IsAbove ps a d
IsAbove-parent ps a none d empty on go = absurd (elem-empty a d.path (ground arith) on)
IsAbove-parent ps a (some q) d (parent, found, same, path) on go =
    let size : length d.path ≡ length parent.path + 1 =
      ap length path ∙ length-append q parent.path in
    elim (Bool-cases (elem a parent.path)) [
      | inl up ↦
          let rest = go q parent found (ground arith) up in
          record {
            page = rest.page;
            found = rest.found;
            shorter = ground (arith, rest.shorter);
            same = rest.same ∙ same;
          }
      | inr last ↦
          let at : (a == q) ≡ true =
            ground (arith, sym (ap (elem a) path) ∙ on, elem-append a q parent.path) in
          record {
            page = parent;
            found =
                subst (λ k. find (has_page_id k) ps ≡ some parent) (sym ((==_iff a q).0 at)) found;
            shorter = ground arith;
            same = same;
          }
    ]

IsAbove-length :
    (n a x : ℕ) (ps : List Page) (d : Page)
    → length d.path ≤ n
    → IsForest ps
    → find (has_page_id x) ps ≡ some d
    → elem a d.path ≡ true
    → IsAbove ps a d
IsAbove-length zero a x ps d bound h found on = absurd (elem-empty a d.path bound on)
IsAbove-length (suc n) a x ps d bound h found on =
    IsAbove-parent ps a d.parent d (h.placed x d found) on
      (λ q parent e shorter up. IsAbove-length n a q ps parent (ground arith) h e up)

-- Everything on a path is a page above.
pub IsAbove-elem :
    (a x : ℕ) (ps : List Page) (d : Page)
    → IsForest ps
    → find (has_page_id x) ps ≡ some d
    → elem a d.path ≡ true
    → IsAbove ps a d
IsAbove-elem a x ps d = IsAbove-length (length d.path) a x ps d (ground arith)

-- No page lies below itself.
pub elem_self :
    (x : ℕ) (ps : List Page) (d : Page)
    → IsForest ps
    → find (has_page_id x) ps ≡ some d
    → elem x d.path ≡ false
elem_self x ps d h found = elim (Bool-cases (elem x d.path)) [
  | inl on ↦
      let up = IsAbove-elem x x ps d h found on in
      let same : up.page ≡ d = cc in
      absurd (ground (arith, up.shorter, ap (λ (p : Page). length p.path) same))
  | inr off ↦ off
]

-- ===== src/Boards/Positions.antt =====
-- The order of the cards of a list: how many active cards stand at a position, and how the shifts
-- of `moveCard` and `archiveCard` change these numbers.
use flowdeck_backend.Base.{
  Bool, List, [], arith, count, find, if◌then◌else◌, is_none, ltb, map_first, map_where, not, refl,
  some, ℕ, ◌&&◌, ◌+◌, ◌-◌, ◌==◌, ◌∷◌, ◌≡◌, ◌≤◌,
}
use flowdeck_backend.Boards.{is_card}
use flowdeck_backend.Boards.Moves.{is_behind, is_from, place, step_back, step_on}
use flowdeck_backend.Models.{Card, Db, Models}

-- The active cards of list `l` at position `k`.
abbrev pub stands_at : ℕ → ℕ → Card → Bool
stands_at l k d = d.list == l && d.position == k && is_none d.archived_at

abbrev pub is_active_in : ℕ → Card → Bool
is_active_in l d = d.list == l && is_none d.archived_at

unfoldable pub cards_at : ℕ → ℕ → List Card → ℕ
cards_at l k cs = count (stands_at l k) cs

unfoldable pub size_of : ℕ → List Card → ℕ
size_of l cs = count (is_active_in l) cs

-- In every list the active cards stand at the positions 0 to n - 1, one at each.
abbrev pub IsContiguous : List Card → Type 0
IsContiguous cs = (l k : ℕ) → cards_at l k cs ≡ (if ltb k (size_of l cs) then 1 else 0)

abbrev pub HasUniqueIds : List Card → Type 0
HasUniqueIds cs = (x : ℕ) → count (λ d. d.id == x) cs ≤ 1

-- Card ids are unique, and the positions of the active cards of every list are 0 to n - 1.
abbrev pub IsOrdered : {m : Models} → Db m → Type 0
IsOrdered {m} db = HasUniqueIds (m.card.docs db.cards) × IsContiguous (m.card.docs db.cards)

module _ (x : ℕ) where
  -- The same numbers over the cards other than `x`, and over `x` alone.
  unfoldable pub others_at : ℕ → ℕ → List Card → ℕ
  others_at l k cs = count (λ d. stands_at l k d && not (d.id == x)) cs

  unfoldable pub others_in : ℕ → List Card → ℕ
  others_in l cs = count (λ d. d.list == l && is_none d.archived_at && not (d.id == x)) cs

  unfoldable pub self_at : ℕ → ℕ → List Card → ℕ
  self_at l k cs = count (λ d. stands_at l k d && d.id == x) cs

  unfoldable pub self_in : ℕ → List Card → ℕ
  self_in l cs = count (λ d. is_active_in l d && d.id == x) cs

  pub cards_at-split :
      (l k : ℕ) (cs : List Card) → cards_at l k cs ≡ others_at l k cs + self_at l k cs
  unfolding cards_at others_at self_at
  cards_at-split l k [] = omega arith
  cards_at-split l k (d ∷ cs) = ground (arith, cards_at-split l k cs)

  pub size_of-split : (l : ℕ) (cs : List Card) → size_of l cs ≡ others_in l cs + self_in l cs
  unfolding size_of others_in self_in
  size_of-split l [] = omega arith
  size_of-split l (d ∷ cs) = ground (arith, size_of-split l cs)

module _ (card : Card) where
  pub others_at-step_back :
      (l k : ℕ) (cs : List Card)
      → others_at card.id l k (map_where (is_behind card) step_back cs) ≡ (
          if l == card.list
          then (if ltb k card.position
              then others_at card.id l k cs
              else if k == card.position
              then others_at card.id l k cs + others_at card.id l (k + 1) cs
              else others_at card.id l (k + 1) cs)
          else others_at card.id l k cs)
  unfolding others_at
  others_at-step_back l k [] = ground arith
  others_at-step_back l k (d ∷ cs) = ground (arith, others_at-step_back l k cs)

  pub others_at-step_on :
      (t n l k : ℕ) (cs : List Card)
      → others_at card.id l k (map_where (is_from card t n) step_on cs) ≡ (
          if l == t
          then (if ltb k n
              then others_at card.id l k cs
              else if k == n
              then 0
              else others_at card.id l (k - 1) cs)
          else others_at card.id l k cs)
  unfolding others_at
  others_at-step_on t n l k [] = ground arith
  others_at-step_on t n l k (d ∷ cs) = ground (arith, others_at-step_on t n l k cs)

  pub others_in-step_back :
      (l : ℕ) (cs : List Card)
      → others_in card.id l (map_where (is_behind card) step_back cs) ≡ others_in card.id l cs
  unfolding others_in
  others_in-step_back l [] = refl
  others_in-step_back l (d ∷ cs) = ground (arith, others_in-step_back l cs)

  pub others_in-step_on :
      (t n l : ℕ) (cs : List Card)
      → others_in card.id l (map_where (is_from card t n) step_on cs) ≡ others_in card.id l cs
  unfolding others_in
  others_in-step_on t n l [] = refl
  others_in-step_on t n l (d ∷ cs) = ground (arith, others_in-step_on t n l cs)

  -- Saving the card changes none of the others.
  pub others_at-place :
      (t n l k : ℕ) (cs : List Card)
      → others_at card.id l k (map_first (λ d. d.id == card.id) (place t n) cs)
        ≡ others_at card.id l k cs
  unfolding others_at
  others_at-place t n l k [] = refl
  others_at-place t n l k (d ∷ cs) = ground (arith, others_at-place t n l k cs)

  pub others_in-place :
      (t n l : ℕ) (cs : List Card)
      → others_in card.id l (map_first (λ d. d.id == card.id) (place t n) cs)
        ≡ others_in card.id l cs
  unfolding others_in
  others_in-place t n l [] = refl
  others_in-place t n l (d ∷ cs) = ground (arith, others_in-place t n l cs)

abbrev pub has_id : ℕ → Card → Bool
has_id x d = d.id == x

-- Whoever is not in the list stands nowhere.
pub self_at-absent : (x l k : ℕ) (cs : List Card) → count (has_id x) cs ≡ 0 → self_at x l k cs ≡ 0
unfolding self_at
self_at-absent x l k [] h = refl
self_at-absent x l k (d ∷ cs) h = ground (arith, self_at-absent x l k cs)

pub self_in-absent : (x l : ℕ) (cs : List Card) → count (has_id x) cs ≡ 0 → self_in x l cs ≡ 0
unfolding self_in
self_in-absent x l [] h = refl
self_in-absent x l (d ∷ cs) h = ground (arith, self_in-absent x l cs)

pub has_id-find :
    (b x : ℕ) (card : Card) (cs : List Card)
    → find (is_card b x) cs ≡ some card
    → 1 ≤ count (has_id x) cs
has_id-find b x card [] e = cc
has_id-find b x card (d ∷ cs) e = ground (arith, has_id-find b x card cs)

module _ (b x : ℕ) (card : Card) where
  -- A card that was found stands at its own list and position, and nowhere else.
  pub self_at-find :
      (l k : ℕ) (cs : List Card)
      → find (is_card b x) cs ≡ some card
      → count (has_id x) cs ≤ 1
      → self_at x l k cs ≡ (if card.list == l && card.position == k then 1 else 0)
  unfolding self_at
  self_at-find l k [] e u = cc
  self_at-find l k (d ∷ cs) e u =
      ground (arith, self_at-find l k cs, has_id-find b x card cs, self_at-absent x l k cs)

  pub self_in-find :
      (l : ℕ) (cs : List Card)
      → find (is_card b x) cs ≡ some card
      → count (has_id x) cs ≤ 1
      → self_in x l cs ≡ (if card.list == l then 1 else 0)
  unfolding self_in
  self_in-find l [] e u = cc
  self_in-find l (d ∷ cs) e u =
      ground (arith, self_in-find l cs, has_id-find b x card cs, self_in-absent x l cs)

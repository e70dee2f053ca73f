-- ===== src/Boards/Moves/Contiguous.antt =====
-- The shifts of `moveCard` in src/services/board.service.ts, and contiguous positions.
use flowdeck_backend.Base.{
  List, [], arith, count, find, if◌then◌else◌, ltb, map_first, map_where, refl, some, ℕ, ◌&&◌, ◌+◌,
  ◌-◌, ◌==◌, ◌∙◌, ◌∷◌, ◌≡◌, ◌≤◌,
}
use flowdeck_backend.Boards.{is_card}
use flowdeck_backend.Boards.Moves.{is_behind, is_from, place, step_back, step_on}
use flowdeck_backend.Boards.Positions.{
  HasUniqueIds, IsContiguous, cards_at, cards_at-split, has_id, has_id-find, others_at,
  others_at-place, others_at-step_back, others_at-step_on, others_in, others_in-place,
  others_in-step_back, others_in-step_on, self_at, self_at-absent, self_at-find, self_in,
  self_in-absent, self_in-find, size_of, size_of-split,
}
use flowdeck_backend.Models.{Card}

module _ (b : ℕ) (card : Card) where
  find-step_back :
      (cs : List Card)
      → find (is_card b card.id) (map_where (is_behind card) step_back cs)
        ≡ find (is_card b card.id) cs
  find-step_back [] = refl
  find-step_back (d ∷ cs) = ground (arith, find-step_back cs)

  find-step_on :
      (t n : ℕ) (cs : List Card)
      → find (is_card b card.id) (map_where (is_from card t n) step_on cs)
        ≡ find (is_card b card.id) cs
  find-step_on t n [] = refl
  find-step_on t n (d ∷ cs) = ground (arith, find-step_on t n cs)

  self_at-place :
      (t n l k : ℕ) (cs : List Card)
      → find (is_card b card.id) cs ≡ some card
      → count (has_id card.id) cs ≤ 1
      → self_at card.id l k (map_first (has_id card.id) (place t n) cs)
        ≡ (if t == l && n == k then 1 else 0)
  unfolding self_at
  self_at-place t n l k [] e u = cc
  self_at-place t n l k (d ∷ cs) e u = ground (
    arith,
    self_at-place t n l k cs,
    has_id-find b card.id card cs,
    self_at-absent card.id l k cs,
  )

  self_in-place :
      (t n l : ℕ) (cs : List Card)
      → find (is_card b card.id) cs ≡ some card
      → count (has_id card.id) cs ≤ 1
      → self_in card.id l (map_first (has_id card.id) (place t n) cs) ≡ (if t == l then 1 else 0)
  unfolding self_in
  self_in-place t n l [] e u = cc
  self_in-place t n l (d ∷ cs) e u =
      ground
        (arith, self_in-place t n l cs, has_id-find b card.id card cs, self_in-absent card.id l cs)

module _ (b : ℕ) (card : Card) where
  find-place :
      (t n : ℕ) (cs : List Card)
      → find (is_card b card.id) cs ≡ some card
      → count (has_id card.id) cs ≤ 1
      → find (is_card b card.id) (map_first (has_id card.id) (place t n) cs) ≡ some (place t n card)
  find-place t n [] e u = cc
  find-place t n (d ∷ cs) e u = ground (arith, find-place t n cs, has_id-find b card.id card cs)

module _ (x : ℕ) (card : Card) where
  pub has_id-step_back :
      (cs : List Card)
      → count (has_id x) (map_where (is_behind card) step_back cs) ≡ count (has_id x) cs
  has_id-step_back [] = refl
  has_id-step_back (d ∷ cs) = ground (arith, has_id-step_back cs)

  pub has_id-step_on :
      (t n : ℕ) (cs : List Card)
      → count (has_id x) (map_where (is_from card t n) step_on cs) ≡ count (has_id x) cs
  has_id-step_on t n [] = refl
  has_id-step_on t n (d ∷ cs) = ground (arith, has_id-step_on t n cs)

  pub has_id-place :
      (t n : ℕ) (cs : List Card)
      → count (has_id x) (map_first (has_id card.id) (place t n) cs) ≡ count (has_id x) cs
  has_id-place t n [] = refl
  has_id-place t n (d ∷ cs) = ground (arith, has_id-place t n cs)

-- The documents after the transaction of `moveCard`.
abbrev pub shifted : Card → ℕ → ℕ → List Card → List Card
shifted card t n cs =
    map_first (has_id card.id) (place t n)
      (map_where (is_from card t n) step_on (map_where (is_behind card) step_back cs))

pub shifted-HasUniqueIds :
    (card : Card) (t n : ℕ) (cs : List Card) → HasUniqueIds cs → HasUniqueIds (shifted card t n cs)
shifted-HasUniqueIds card t n cs u x = omega (
  arith,
  u x,
  has_id-place x card t n
      (map_where (is_from card t n) step_on (map_where (is_behind card) step_back cs)),
  has_id-step_on x card t n (map_where (is_behind card) step_back cs),
  has_id-step_back x card cs,
)

module _ (b t n : ℕ) (card : Card) (cs : List Card)
    (found : find (is_card b card.id) cs ≡ some card) (unique : HasUniqueIds cs) where
  abbrev closed : List Card
  closed = map_where (is_behind card) step_back cs

  abbrev opened : List Card
  opened = map_where (is_from card t n) step_on closed

  still_found : find (is_card b card.id) opened ≡ some card
  still_found = find-step_on b card t n closed ∙ find-step_back b card cs ∙ found

  still_unique : count (has_id card.id) opened ≤ 1
  still_unique = omega (
    arith,
    unique card.id,
    has_id-step_on card.id card t n closed,
    has_id-step_back card.id card cs,
  )

  -- The moved card is counted in its new place, and the others as before.
  pub size_of-shifted :
      (l : ℕ) → size_of l (shifted card t n cs) ≡ others_in card.id l cs + (if t == l then 1 else 0)
  size_of-shifted l = omega (
    arith,
    size_of-split card.id l (shifted card t n cs),
    others_in-place card t n l opened,
    others_in-step_on card t n l closed,
    others_in-step_back card l cs,
    self_in-place b card t n l opened still_found still_unique,
  )

  size_of-before :
      (l : ℕ) → size_of l cs ≡ others_in card.id l cs + (if card.list == l then 1 else 0)
  size_of-before l =
      omega
        (arith, size_of-split card.id l cs, self_in-find b card.id card l cs found (unique card.id))

  others_at-before :
      (l k : ℕ)
      → IsContiguous cs
      → others_at card.id l k cs + (if card.list == l && card.position == k then 1 else 0)
        ≡ (if ltb k (others_in card.id l cs + (if card.list == l then 1 else 0)) then 1 else 0)
  others_at-before l k h = ground (
    arith,
    h l k,
    size_of-before l,
    cards_at-split card.id l k cs,
    self_at-find b card.id card l k cs found (unique card.id),
  )

  cards_at-shifted :
      (l k : ℕ)
      → cards_at l k (shifted card t n cs)
        ≡ others_at card.id l k opened + (if t == l && n == k then 1 else 0)
  cards_at-shifted l k = omega (
    arith,
    cards_at-split card.id l k (shifted card t n cs),
    others_at-place card t n l k opened,
    self_at-place b card t n l k opened still_found still_unique,
  )

  -- Once the source list has closed up, the others stand contiguously in every list.
  pub others_at-closed :
      IsContiguous cs
      → (l k : ℕ) → others_at card.id l k closed ≡ (if ltb k (others_in card.id l cs) then 1 else 0)
  others_at-closed h l k = ground (
    arith,
    others_at-step_back card l k cs,
    others_at-before l k h,
    others_at-before l (k + 1) h,
    others_at-before card.list card.position h,
  )

  -- From contiguous positions, with a new position that is at most the number of the other cards
  -- in the target list.
  pub shifted-IsContiguous :
      IsContiguous cs → n ≤ others_in card.id t cs → IsContiguous (shifted card t n cs)
  shifted-IsContiguous h le l k = ground (
    arith,
    size_of-shifted l,
    cards_at-shifted l k,
    others_at-step_on card t n l k closed,
    others_at-closed h l k,
    others_at-closed h l (k - 1),
  )

  -- The moved card is found with its new list and position, and nothing else of it has changed.
  pub find-shifted : find (is_card b card.id) (shifted card t n cs) ≡ some (place t n card)
  find-shifted = find-place b card t n opened still_found still_unique

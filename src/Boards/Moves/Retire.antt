-- ===== src/Boards/Moves/Retire.antt =====
-- The shift of `archiveCard` in src/services/board.service.ts, and contiguous positions.
use flowdeck_backend.Base.{
  List, [], arith, count, find, map_first, map_where, refl, some, ℕ, ◌∷◌, ◌≡◌, ◌≤◌,
}
use flowdeck_backend.Boards.{is_card}
use flowdeck_backend.Boards.Moves.{is_after, is_behind, retire, step_back}
use flowdeck_backend.Boards.Moves.Contiguous.{others_at-closed}
use flowdeck_backend.Boards.Positions.{
  HasUniqueIds, IsContiguous, cards_at-split, has_id, others_at, others_in, self_at, self_at-absent,
  self_in, self_in-absent, size_of-split,
}
use flowdeck_backend.Models.{Card}

-- The documents after the transaction of `archiveCard`.
abbrev pub retired : Card → ℕ → List Card → List Card
retired card now cs =
    map_where (is_after card) step_back (map_first (has_id card.id) (retire now) cs)

module _ (x : ℕ) (card : Card) (now : ℕ) where
  has_id-is_after :
      (cs : List Card)
      → count (has_id x) (map_where (is_after card) step_back cs) ≡ count (has_id x) cs
  has_id-is_after [] = refl
  has_id-is_after (d ∷ cs) = ground (arith, has_id-is_after cs)

  has_id-retire :
      (cs : List Card)
      → count (has_id x) (map_first (has_id card.id) (retire now) cs) ≡ count (has_id x) cs
  has_id-retire [] = refl
  has_id-retire (d ∷ cs) = ground (arith, has_id-retire cs)

pub retired-HasUniqueIds :
    (card : Card) (now : ℕ) (cs : List Card) → HasUniqueIds cs → HasUniqueIds (retired card now cs)
retired-HasUniqueIds card now cs u x = omega (
  arith,
  u x,
  has_id-is_after x card now (map_first (has_id card.id) (retire now) cs),
  has_id-retire x card now cs,
)

module _ (card : Card) (now : ℕ) where
  -- Where no card has the id, the filters of `archiveCard` and `moveCard` agree.
  others_at-is_after :
      (l k : ℕ) (cs : List Card)
      → others_at card.id l k (map_where (is_after card) step_back cs)
        ≡ others_at card.id l k (map_where (is_behind card) step_back cs)
  unfolding others_at
  others_at-is_after l k [] = refl
  others_at-is_after l k (d ∷ cs) = ground (arith, others_at-is_after l k cs)

  -- The other cards move as they do when the card leaves its list.
  others_at-retired :
      (l k : ℕ) (cs : List Card)
      → others_at card.id l k (retired card now cs)
        ≡ others_at card.id l k (map_where (is_behind card) step_back cs)
  unfolding others_at
  others_at-retired l k [] = refl
  others_at-retired l k (d ∷ cs) =
      ground (arith, others_at-retired l k cs, others_at-is_after l k cs)

  others_in-is_after :
      (l : ℕ) (cs : List Card)
      → others_in card.id l (map_where (is_after card) step_back cs) ≡ others_in card.id l cs
  unfolding others_in
  others_in-is_after l [] = refl
  others_in-is_after l (d ∷ cs) = ground (arith, others_in-is_after l cs)

  others_in-retire :
      (l : ℕ) (cs : List Card)
      → others_in card.id l (map_first (has_id card.id) (retire now) cs) ≡ others_in card.id l cs
  unfolding others_in
  others_in-retire l [] = refl
  others_in-retire l (d ∷ cs) = ground (arith, others_in-retire l cs)

  -- The archived card is counted nowhere.
  self_at-retired :
      (l k : ℕ) (cs : List Card)
      → count (has_id card.id) cs ≤ 1
      → self_at card.id l k (retired card now cs) ≡ 0
  unfolding self_at
  self_at-retired l k [] u = refl
  self_at-retired l k (d ∷ cs) u = ground (
    arith,
    self_at-retired l k cs,
    has_id-is_after card.id card now cs,
    self_at-absent card.id l k (map_where (is_after card) step_back cs),
  )

  self_in-retired :
      (l : ℕ) (cs : List Card)
      → count (has_id card.id) cs ≤ 1
      → self_in card.id l (retired card now cs) ≡ 0
  unfolding self_in
  self_in-retired l [] u = refl
  self_in-retired l (d ∷ cs) u = ground (
    arith,
    self_in-retired l cs,
    has_id-is_after card.id card now cs,
    self_in-absent card.id l (map_where (is_after card) step_back cs),
  )

  pub retired-IsContiguous :
      (b : ℕ) (cs : List Card)
      → find (is_card b card.id) cs ≡ some card
      → HasUniqueIds cs
      → IsContiguous cs
      → IsContiguous (retired card now cs)
  retired-IsContiguous b cs found unique h l k = ground (
    arith,
    cards_at-split card.id l k (retired card now cs),
    size_of-split card.id l (retired card now cs),
    self_at-retired l k cs (unique card.id),
    self_in-retired l cs (unique card.id),
    others_at-retired l k cs,
    others_in-is_after l (map_first (has_id card.id) (retire now) cs),
    others_in-retire l cs,
    others_at-closed b 0 0 card cs found unique h l k,
  )

-- ===== src/Boards/Manage/Handlers.antt =====
-- What archiving lists and boards does to the order of the cards.
use flowdeck_backend.Base.{
  ==_iff, All, Bool, List, [], ap, arith, count, if◌then◌else◌, is_none, map_where, refl, true, ℕ,
  ◌==◌, ◌∷◌, ◌≡◌,
}
use flowdeck_backend.Boards.{invalidate}
use flowdeck_backend.Boards.Manage.{archive_board, archive_list}
use flowdeck_backend.Boards.Moves.{retire}
use flowdeck_backend.Boards.Positions.{
  HasUniqueIds, IsContiguous, IsOrdered, cards_at, has_id, is_active_in, size_of,
}
use flowdeck_backend.Models.{Card, Db, Models}
use flowdeck_backend.Store.{Keeps, Keeps-modify, Keeps-pure, Keeps-reads}

-- The test takes, of the active cards, those of the lists that `g` names, and no others.
abbrev pub TakesLists : (Card → Bool) → (ℕ → Bool) → Card → Type 0
TakesLists p g d = is_none d.archived_at ≡ true → p d ≡ g d.list

module _ (p : Card → Bool) (g : ℕ → Bool) (now : ℕ) where
  cards_at-retire_those :
      (l k : ℕ) (cs : List Card)
      → All (TakesLists p g) cs
      → cards_at l k (map_where p (retire now) cs) ≡ (if g l then 0 else cards_at l k cs)
  unfolding cards_at
  cards_at-retire_those l k [] t = ground arith
  cards_at-retire_those l k (d ∷ cs) t =
      grind (arith, cards_at-retire_those l k cs t.1, t.0, ==_iff d.list l)

  size_of-retire_those :
      (l : ℕ) (cs : List Card)
      → All (TakesLists p g) cs
      → size_of l (map_where p (retire now) cs) ≡ (if g l then 0 else size_of l cs)
  unfolding size_of
  size_of-retire_those l [] t = ground arith
  size_of-retire_those l (d ∷ cs) t =
      grind (arith, size_of-retire_those l cs t.1, t.0, ==_iff d.list l)

  has_id-retire_those :
      (x : ℕ) (cs : List Card)
      → count (has_id x) (map_where p (retire now) cs) ≡ count (has_id x) cs
  has_id-retire_those x [] = refl
  has_id-retire_those x (d ∷ cs) = ground (arith, has_id-retire_those x cs)

  pub retire_those-IsContiguous :
      (cs : List Card)
      → All (TakesLists p g) cs
      → IsContiguous cs
      → IsContiguous (map_where p (retire now) cs)
  retire_those-IsContiguous cs t h l k =
      ground (arith, h l k, cards_at-retire_those l k cs t, size_of-retire_those l cs t)

  pub retire_those-HasUniqueIds :
      (cs : List Card) → HasUniqueIds cs → HasUniqueIds (map_where p (retire now) cs)
  retire_those-HasUniqueIds cs u x = rw (has_id-retire_those x cs) (u x)

takes_list : (l : ℕ) (cs : List Card) → All (TakesLists (is_active_in l) (λ k. k == l)) cs
takes_list l [] = tt
takes_list l (d ∷ cs) = (λ active. ground arith, takes_list l cs)

-- Every card lies on the board of its list, where `board_of` tells the board of a list.
abbrev pub IsOnBoard : (ℕ → ℕ) → Card → Type 0
IsOnBoard board_of d = d.board ≡ board_of d.list

takes_board :
    (board_of : ℕ → ℕ) (b : ℕ) (cs : List Card)
    → All (IsOnBoard board_of) cs
    → All (TakesLists (λ d. d.board == b) (λ l. board_of l == b)) cs
takes_board board_of b [] on = tt
takes_board board_of b (d ∷ cs) on =
    (λ active. ap (λ x. x == b) on.0, takes_board board_of b cs on.1)

update_many-IsOrdered :
    (m : Models) (p : Card → Bool) (g : ℕ → Bool) (now : ℕ) (cards : m.card.Coll)
    → All (TakesLists p g) (m.card.docs cards)
    → HasUniqueIds (m.card.docs cards) × IsContiguous (m.card.docs cards)
    → HasUniqueIds (m.card.docs (m.card.update_many p (retire now) cards))
      × IsContiguous (m.card.docs (m.card.update_many p (retire now) cards))
update_many-IsOrdered m p g now cards t (u, h) =
    rw (m.card.docs-update_many p (retire now) cards)
      (retire_those-HasUniqueIds p g now _ u, retire_those-IsContiguous p g now _ t h)

module _ {m : Models} where
  archive_list-Keeps :
      (now ws b l : ℕ) (db : Db m) → IsOrdered db → Keeps IsOrdered (archive_list now ws b l) db
  unfolding archive_list invalidate
  archive_list-Keeps now ws b l db h = Keeps-reads _ _ _ _ h λ board _.
      Keeps-reads _ _ _ _ h λ list _. Keeps-modify _ _ _ _ (
        Keeps-modify _ _ _ _ (
          Keeps-pure _ _ _
            (update_many-IsOrdered m _ (λ k. k == list.id) now db.cards (takes_list list.id _) h)))

  -- Archiving a list, refused or carried out, keeps card ids unique and the positions of every list
  -- 0 to n - 1.
  pub archive_list-IsOrdered :
      (now ws b l : ℕ) (db : Db m) → IsOrdered db → IsOrdered (archive_list now ws b l db).1
  archive_list-IsOrdered now ws b l db h = (archive_list-Keeps now ws b l db h).at

  archive_board-Keeps :
      (board_of : ℕ → ℕ) (now ws b : ℕ) (db : Db m)
      → All (IsOnBoard board_of) (m.card.docs db.cards)
      → IsOrdered db
      → Keeps IsOrdered (archive_board now ws b) db
  unfolding archive_board invalidate
  archive_board-Keeps board_of now ws b db on h = Keeps-reads _ _ _ _ h λ board _.
      Keeps-modify _ _ _ _ (
        Keeps-modify _ _ _ _ (
          Keeps-pure _ _ _ (
            update_many-IsOrdered m _ (λ l. board_of l == board.id) now db.cards
              (takes_board board_of board.id _ on) h)))

  -- Where every card lies on the board of its list, archiving a board, refused or carried out,
  -- keeps card ids unique and the positions of every list 0 to n - 1.
  pub archive_board-IsOrdered :
      (board_of : ℕ → ℕ) (now ws b : ℕ) (db : Db m)
      → All (IsOnBoard board_of) (m.card.docs db.cards)
      → IsOrdered db
      → IsOrdered (archive_board now ws b db).1
  archive_board-IsOrdered board_of now ws b db on h =
      (archive_board-Keeps board_of now ws b db on h).at

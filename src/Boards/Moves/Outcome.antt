-- ===== src/Boards/Moves/Outcome.antt =====
-- What a request to move a card leaves, by how it ended.
use mathlib.Core.Path.{subst}
use flowdeck_backend.Base.{
  Bool, List, Option, ap, arith, false, find, get_or, min, none, not, refl, some, sym, true, ℕ,
  ◌&&◌, ◌+◌, ◌<◌, ◌==◌, ◌≡◌, ◌≢◌, ◌≤◌,
}
use flowdeck_backend.Boards.{invalidate, is_card, load_card, load_list, notify_about_card}
use flowdeck_backend.Boards.Moves.{
  MoveCardInput, move_card, place, reaches_limit, shift_cards, tell_about_move,
}
use flowdeck_backend.Boards.Moves.Contiguous.{find-shifted, shifted, size_of-shifted}
use flowdeck_backend.Boards.Moves.Handlers.{docs-shift_cards, load_card-find}
use flowdeck_backend.Boards.Positions.{HasUniqueIds, IsOrdered, others_in, size_of}
use flowdeck_backend.Models.{BoardList, Card, Db, Models}
use flowdeck_backend.Store.{
  Ensures, Ensures-call, Ensures-gets, Ensures-guard, Ensures-modify, Ensures-pure, Ensures-reads,
  Returns, UnlessRefused, modify, ok, pure, reads, ◌>>=◌,
}

-- The number is at most the limit, if there is one.
abbrev pub IsWithin : Option ℕ → ℕ → Type 0
IsWithin none n = Unit {0}
IsWithin (some limit) n = 0 < limit → n ≤ limit

pub IsWithin-reaches_limit :
    (limit : Option ℕ) (n : ℕ) → reaches_limit limit n ≡ false → IsWithin limit (n + 1)
unfolding reaches_limit
IsWithin-reaches_limit none n h = tt
IsWithin-reaches_limit (some limit) n h = λ pos. ground arith

-- Of a list that the card comes to from another: room before the move is room for one more.
IsWithin-shifted :
    (t n next : ℕ) (limit : Option ℕ) (b : ℕ) (card : Card) (cs : List Card)
    → find (is_card b card.id) cs ≡ some card
    → HasUniqueIds cs
    → n ≡ others_in card.id t cs
    → not (t == card.list) && reaches_limit limit n ≡ false
    → t ≢ card.list
    → IsWithin limit (size_of t (shifted card t next cs))
IsWithin-shifted t n next limit b card cs found u same_n room ne =
    let size : size_of t (shifted card t next cs) ≡ n + 1 =
      ground (arith, size_of-shifted b t next card cs found u t) in
    rw size (IsWithin-reaches_limit limit n (ground arith))

module _ {m : Models} (b c : ℕ) (input : MoveCardInput) (db : Db m) where
  -- The result and the cards after a move that was carried out: the card stands in the list that
  -- the request names, or in its own, at the requested position or at the end, whichever comes
  -- first; it is stored so, with all else unchanged; and a list that it came to from another list
  -- holds no more than its limit.
  pub record IsMoved (moved : Card) (cards : m.card.Coll) : Type 0 where
    pub card : Card
    pub target : BoardList
    pub from : load_card b c db ≡ ok card
    pub to : load_list b (get_or input.list card.list) db ≡ ok target
    pub placed :
        moved
        ≡ place target.id
            (min
              (get_or input.position (others_in card.id target.id (m.card.docs db.cards)))
              (others_in card.id target.id (m.card.docs db.cards)))
            card
    pub stored : find (is_card b c) (m.card.docs cards) ≡ some moved
    pub within :
        target.id ≢ card.list → IsWithin target.card_limit (size_of target.id (m.card.docs cards))

module _ {m : Models} where
  tell_about_move-cards :
      (same : Bool) (ws b actor : ℕ) (card : Card) (target : BoardList) (db : Db m)
      → Ensures
          (Returns (λ db'. db'.cards ≡ db.cards))
          (tell_about_move same ws b card target actor)
          db
  unfolding tell_about_move notify_about_card ◌>>=◌ reads modify pure
  tell_about_move-cards true ws b actor card target db = record { at = refl }
  tell_about_move-cards false ws b actor card target db = record { at = refl }

  shift_cards-IsMoved :
      (b c n : ℕ) (input : MoveCardInput) (db : Db m) (card : Card) (target : BoardList)
      → IsOrdered db
      → load_card b c db ≡ ok card
      → load_list b (get_or input.list card.list) db ≡ ok target
      → n ≡ others_in card.id target.id (m.card.docs db.cards)
      → not (target.id == card.list) && reaches_limit target.card_limit n ≡ false
      → IsMoved b c input db
          (place target.id (min (get_or input.position n) n) card)
          (shift_cards card target.id (min (get_or input.position n) n) db).cards
  shift_cards-IsMoved b c n input db card target (u, h) from to same_n room =
      let (found, same) = load_card-find b c db card from in
      let t = target.id in
      let next = min (get_or input.position n) n in
      record {
        card = card;
        target = target;
        from = from;
        to = to;
        placed = ap (λ k. place t (min (get_or input.position k) k) card) same_n;
        stored =
            subst
              (λ x.
                find (is_card b x) (m.card.docs (shift_cards card t next db).cards)
                ≡ some (place t next card))
              same (rw (docs-shift_cards card t next db) (find-shifted b t next card _ found u));
        within = λ ne.
            rw (docs-shift_cards card t next db)
              (IsWithin-shifted t n next target.card_limit b card _ found u same_n room ne);
      }

  -- A request to move a card is refused and changes nothing, or it is carried out and leaves what
  -- `IsMoved` says.
  pub move_card-Outcome :
      (ws b c actor : ℕ) (input : MoveCardInput) (db : Db m)
      → IsOrdered db
      → Ensures
          (UnlessRefused db (λ moved db'. IsMoved b c input db moved db'.cards))
          (move_card ws b c actor input)
          db
  unfolding move_card invalidate others_in
  move_card-Outcome ws b c actor input db h =
      Ensures-reads _ _ _ _ (λ _. refl)
        λ board _.
          Ensures-reads _ _ _ _ (λ _. refl)
            λ card from.
              Ensures-reads _ _ _ _ (λ _. refl)
                λ target to. Ensures-gets _ _ _ _ (
                  Ensures-guard _ _ _ _ _ refl λ room.
                    let done =
                      shift_cards-IsMoved b c _ input db card target h from to
                        (m.card.count_lem _ db.cards) room in
                    Ensures-modify _ _ _ _ (
                      Ensures-modify _ _ _ _ (
                        Ensures-modify _ _ _ _ (
                          Ensures-call _ (λ db'. db'.cards ≡ _) _ _ _
                            (tell_about_move-cards _ ws b actor card target _)
                            (λ _ s' e.
                              Ensures-pure _ _ _ (subst (IsMoved b c input db _) (sym e) done))))))

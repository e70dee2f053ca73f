-- ===== src/Boards/Moves/Handlers.antt =====
-- What `moveCard` and `archiveCard` do to the order of the cards, the whole handlers with their
-- guards: from the request to the final state.
use mathlib.Core.Path.{subst}
use flowdeck_backend.Base.{
  Bool, Option, arith, false, find, find_sound, get_or, is_none, min, not, some, sym, true, ℕ, ◌&&◌,
  ◌==◌, ◌≡◌, ◌≤◌,
}
use flowdeck_backend.Boards.{invalidate, is_card, load_card, notify_about_card}
use flowdeck_backend.Boards.Moves.{
  MoveCardInput, archive_card, move_card, retire_card, shift_cards, tell_about_move,
}
use flowdeck_backend.Boards.Moves.Contiguous.{shifted, shifted-HasUniqueIds, shifted-IsContiguous}
use flowdeck_backend.Boards.Moves.Retire.{retired-HasUniqueIds, retired-IsContiguous}
use flowdeck_backend.Boards.Positions.{IsOrdered, others_in}
use flowdeck_backend.Models.{BoardList, Card, Db, Models}
use flowdeck_backend.Store.{
  Keeps, Keeps-call, Keeps-gets, Keeps-guard, Keeps-modify, Keeps-pure, Keeps-reads, modify, ok,
  or_raise-eq-ok, pure, reads, ◌>>=◌,
}

module _ {m : Models} where
  pub load_card-find :
      (b c : ℕ) (db : Db m) (card : Card)
      → load_card b c db ≡ ok card
      → (find (is_card b card.id) (m.card.docs db.cards) ≡ some card) × (card.id ≡ c)
  unfolding load_card
  load_card-find b c db card e =
      let found : find (is_card b c) (m.card.docs db.cards) ≡ some card =
        rw (← m.card.find_one_lem (is_card b c) db.cards) (or_raise-eq-ok _ _ card e) in
      let here : card.id ≡ c = ground (arith, find_sound (is_card b c) _ card found) in
      (subst (λ x. find (is_card b x) (m.card.docs db.cards) ≡ some card) (sym here) found, here)

  pub docs-shift_cards :
      (card : Card) (t n : ℕ) (db : Db m)
      → m.card.docs (shift_cards card t n db).cards ≡ shifted card t n (m.card.docs db.cards)
  unfolding shift_cards
  docs-shift_cards card t n db = simp (m.card.docs-update_one, m.card.docs-update_many)

  shift_cards-IsOrdered :
      (b c t n : ℕ) (db : Db m) (card : Card)
      → load_card b c db ≡ ok card
      → n ≤ others_in card.id t (m.card.docs db.cards)
      → IsOrdered db
      → IsOrdered (shift_cards card t n db)
  shift_cards-IsOrdered b c t n db card e le (u, h) =
      let found = (load_card-find b c db card e).0 in
      rw (docs-shift_cards card t n db)
        (shifted-HasUniqueIds card t n _ u, shifted-IsContiguous b t n card _ found u h le)

  tell_about_move-Keeps :
      (same : Bool) (ws b actor : ℕ) (card : Card) (target : BoardList) (db : Db m)
      → IsOrdered db
      → Keeps IsOrdered (tell_about_move same ws b card target actor) db
  unfolding tell_about_move notify_about_card ◌>>=◌ reads modify pure
  tell_about_move-Keeps true ws b actor card target db h = record { at = h }
  tell_about_move-Keeps false ws b actor card target db h = record { at = h }

  -- The new position is at most what `moveCard` counts in the target list.
  pub next-le :
      (wanted : Option ℕ) (t : ℕ) (card : Card) (db : Db m)
      → let occupied =
          m.card.count_documents
            (λ d. d.list == t && is_none d.archived_at && not (d.id == card.id))
            db.cards in
        min (get_or wanted occupied) occupied ≤ others_in card.id t (m.card.docs db.cards)
  unfolding others_in
  next-le wanted t card db = omega (arith, m.card.count_lem _ db.cards)

  move_card-Keeps :
      (ws b c actor : ℕ) (input : MoveCardInput) (db : Db m)
      → IsOrdered db
      → Keeps IsOrdered (move_card ws b c actor input) db
  unfolding move_card invalidate
  move_card-Keeps ws b c actor input db h = Keeps-reads _ _ _ _ h λ board _.
      Keeps-reads _ _ _ _ h λ card e. Keeps-reads _ _ _ _ h λ target _. Keeps-gets _ _ _ _ (
        Keeps-guard _ _ _ _ _ h λ _. Keeps-modify _ _ _ _ (
          Keeps-modify _ _ _ _ (
            Keeps-modify _ _ _ _ (
              Keeps-call _ _ _ _
                (tell_about_move-Keeps _ ws b actor card target _ (
                  shift_cards-IsOrdered b c target.id _ db card e
                    (next-le input.position target.id card db) h))
                (λ _ s' hs. Keeps-pure _ _ s' hs)))))

  -- Whatever the request, and whether it is refused or carried out, moving a card leaves card ids
  -- unique and the positions of the active cards of every list 0 to n - 1, if they were so before.
  pub move_card-IsOrdered :
      (ws b c actor : ℕ) (input : MoveCardInput) (db : Db m)
      → IsOrdered db
      → IsOrdered (move_card ws b c actor input db).1
  move_card-IsOrdered ws b c actor input db h = (move_card-Keeps ws b c actor input db h).at

  retire_card-IsOrdered :
      (b c now : ℕ) (db : Db m) (card : Card)
      → load_card b c db ≡ ok card
      → IsOrdered db
      → IsOrdered (retire_card card now db)
  unfolding retire_card
  retire_card-IsOrdered b c now db card e (u, h) =
      let found = (load_card-find b c db card e).0 in
      simp (m.card.docs-update_many, m.card.docs-update_one)
        (retired-HasUniqueIds card now _ u, retired-IsContiguous card now b _ found u h)

  archive_card-Keeps :
      (ws b c actor now : ℕ) (db : Db m)
      → IsOrdered db
      → Keeps IsOrdered (archive_card ws b c actor now) db
  unfolding archive_card invalidate notify_about_card
  archive_card-Keeps ws b c actor now db h = Keeps-reads _ _ _ _ h λ board _.
      Keeps-reads _ _ _ _ h λ card e.
        let gone = retire_card-IsOrdered b c now db card e h in
        Keeps-modify _ _ _ _ (
          Keeps-modify _ _ _ _
            (Keeps-modify _ _ _ _ (Keeps-modify _ _ _ _ (Keeps-pure _ _ _ gone))))

  -- Archiving a card, refused or carried out, keeps card ids unique and the positions of every list
  -- 0 to n - 1.
  pub archive_card-IsOrdered :
      (ws b c actor now : ℕ) (db : Db m)
      → IsOrdered db
      → IsOrdered (archive_card ws b c actor now db).1
  archive_card-IsOrdered ws b c actor now db h = (archive_card-Keeps ws b c actor now db h).at

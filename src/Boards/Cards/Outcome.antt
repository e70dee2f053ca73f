-- ===== src/Boards/Cards/Outcome.antt =====
-- What a request to create a card leaves, by how it ended.
use mathlib.Core.Path.{subst}
use flowdeck_backend.Base.{
  Bool, List, String, [], ap, arith, count-append, false, none, refl, sym, true, ℕ, ◌++◌, ◌+◌, ◌∙◌,
  ◌∷◌, ◌≡◌,
}
use flowdeck_backend.Boards.{invalidate, load_list, notify_about_card}
use flowdeck_backend.Boards.Cards.{CreateCardInput, create_card}
use flowdeck_backend.Boards.Moves.{reaches_limit}
use flowdeck_backend.Boards.Moves.Outcome.{IsWithin, IsWithin-reaches_limit}
use flowdeck_backend.Boards.Positions.{is_active_in, size_of}
use flowdeck_backend.Models.{BoardList, Card, Db, Models, NotificationType}
use flowdeck_backend.Store.{
  Ensures, Ensures-call, Ensures-gets, Ensures-guard, Ensures-modify, Ensures-pure, Ensures-reads,
  Returns, UnlessRefused, modify, ok, pure, when,
}

module _ {m : Models} (b : ℕ) (payload : CreateCardInput) (db : Db m) where
  -- The new card stands behind the others of its list, it is the one document added, and the list
  -- holds no more than its limit.
  pub record IsCreated (card : Card) (cards : m.card.Coll) : Type 0 where
    pub list : BoardList
    pub to : load_list b payload.list db ≡ ok list
    pub placed : card.list ≡ list.id
    pub last : card.position ≡ size_of list.id (m.card.docs db.cards)
    pub added : m.card.docs cards ≡ m.card.docs db.cards ++ card ∷ []
    pub within : IsWithin list.card_limit (size_of list.id (m.card.docs cards))

size_of-append :
    (card : Card) (cs : List Card)
    → card.archived_at ≡ none
    → size_of card.list (cs ++ card ∷ []) ≡ size_of card.list cs + 1
unfolding size_of
size_of-append card cs new = ground (arith, count-append (is_active_in card.list) cs (card ∷ []))

module _ {m : Models} where
  create-IsCreated :
      (b n : ℕ) (payload : CreateCardInput) (db : Db m) (list : BoardList) (card : Card)
      → load_list b payload.list db ≡ ok list
      → n ≡ size_of list.id (m.card.docs db.cards)
      → card.list ≡ list.id
      → card.archived_at ≡ none
      → card.position ≡ n
      → reaches_limit list.card_limit n ≡ false
      → IsCreated b payload db card (m.card.create card db.cards)
  create-IsCreated b n payload db list card to same_n here new last room =
      let size : size_of list.id (m.card.docs db.cards ++ card ∷ []) ≡ n + 1 =
        subst
          (λ l.
            size_of l (m.card.docs db.cards ++ card ∷ []) ≡ size_of l (m.card.docs db.cards) + 1)
          here (size_of-append card _ new)
        ∙ ap (λ k. k + 1) (sym same_n) in
      record {
        list = list;
        to = to;
        placed = here;
        last = last ∙ same_n;
        added = m.card.docs-create card db.cards;
        within =
            rw (m.card.docs-create card db.cards)
              (rw size (IsWithin-reaches_limit list.card_limit n room));
      }

  notify_about_card-cards :
      (c : Bool) (ws b : ℕ) (card : Card) (actor : ℕ) (type : NotificationType) (message : String)
      (to : List ℕ) (body : String) (db : Db m)
      → Ensures
          (Returns (λ db'. db'.cards ≡ db.cards))
          (when c (notify_about_card ws b card actor type message to body))
          db
  unfolding notify_about_card modify when pure
  notify_about_card-cards true ws b card actor type message to body db = record { at = refl }
  notify_about_card-cards false ws b card actor type message to body db = record { at = refl }

  -- A request to create a card is refused and changes nothing, or it is carried out and leaves what
  -- `IsCreated` says.
  pub create_card-Outcome :
      (id ws b author : ℕ) (payload : CreateCardInput) (db : Db m)
      → Ensures
          (UnlessRefused db (λ card db'. IsCreated b payload db card db'.cards))
          (create_card id ws b author payload)
          db
  unfolding create_card invalidate size_of
  create_card-Outcome id ws b author payload db =
      Ensures-reads _ _ _ _ (λ _. refl)
        λ board _.
          Ensures-reads _ _ _ _ (λ _. refl)
            λ list to.
              Ensures-reads _ _ _ _ (λ _. refl)
                λ _ _. Ensures-gets _ _ _ _ (
                  Ensures-guard _ _ _ _ _ refl λ room.
                    let done =
                      create-IsCreated b _ payload db list _ to (m.card.count_lem _ db.cards) refl
                        refl refl room in
                    Ensures-modify _ _ _ _ (
                      Ensures-modify _ _ _ _ (
                        Ensures-call _ (λ db'. db'.cards ≡ _) _ _ _
                          (notify_about_card-cards _ ws b _ author _ _ _ _ _)
                          (λ _ s' e.
                            Ensures-modify _ _ _ _ (
                              Ensures-pure _ _ _
                                (subst (IsCreated b payload db _) (sym e) done))))))

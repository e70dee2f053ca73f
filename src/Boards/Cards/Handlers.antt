-- ===== src/Boards/Cards/Handlers.antt =====
-- What creating, updating and archiving cards does to the order of the cards.
use flowdeck_backend.Base.{
  Bool, List, String, [], arith, count, count-append, map_first, none, refl, ℕ, ◌++◌, ◌∙◌, ◌∷◌, ◌≡◌,
}
use flowdeck_backend.Boards.{invalidate, notify_about_card}
use flowdeck_backend.Boards.Cards.{
  CreateCardInput, UpdateCardInput, create_card, tell_about_update, update_card, with_changes,
}
use flowdeck_backend.Boards.Positions.{
  HasUniqueIds, IsContiguous, IsOrdered, cards_at, has_id, is_active_in, size_of, stands_at,
}
use flowdeck_backend.Models.{Card, Db, Models, NotificationType}
use flowdeck_backend.Store.{
  Keeps, Keeps-call, Keeps-gets, Keeps-guard, Keeps-modify, Keeps-pure, Keeps-reads, Keeps-when,
  modify,
}

-- Creating a card at the end of its list.
pub append-IsContiguous :
    (card : Card) (cs : List Card)
    → card.archived_at ≡ none
    → card.position ≡ size_of card.list cs
    → IsContiguous cs
    → IsContiguous (cs ++ card ∷ [])
unfolding cards_at size_of
append-IsContiguous card cs new last h l k = ground (
  arith,
  h l k,
  count-append (stands_at l k) cs (card ∷ []),
  count-append (is_active_in l) cs (card ∷ []),
)

pub append-HasUniqueIds :
    (card : Card) (cs : List Card)
    → count (has_id card.id) cs ≡ 0
    → HasUniqueIds cs
    → HasUniqueIds (cs ++ card ∷ [])
append-HasUniqueIds card cs fresh u x = ground (arith, u x, count-append (has_id x) cs (card ∷ []))

-- A rewrite of one card that leaves its id, list, position and archival as they are.
abbrev pub IsInPlace : (Card → Card) → Type 0
IsInPlace f =
    (d : Card)
    → ((f d).id ≡ d.id)
      × ((f d).list ≡ d.list)
      × ((f d).position ≡ d.position)
      × ((f d).archived_at ≡ d.archived_at)

count-in_place :
    (q p : Card → Bool) (f : Card → Card) (cs : List Card)
    → ((d : Card) → q (f d) ≡ q d)
    → count q (map_first p f cs) ≡ count q cs
count-in_place q p f [] e = refl
count-in_place q p f (d ∷ cs) e = ground (arith, e d, count-in_place q p f cs e)

module _ (p : Card → Bool) (f : Card → Card) (same : IsInPlace f) where
  at-in_place : (l k : ℕ) (cs : List Card) → cards_at l k (map_first p f cs) ≡ cards_at l k cs
  unfolding cards_at
  at-in_place l k cs = count-in_place (stands_at l k) p f cs λ d. ground (arith, same d)

  size-in_place : (l : ℕ) (cs : List Card) → size_of l (map_first p f cs) ≡ size_of l cs
  unfolding size_of
  size-in_place l cs = count-in_place (is_active_in l) p f cs λ d. ground (arith, same d)

  in_place-IsContiguous : (cs : List Card) → IsContiguous cs → IsContiguous (map_first p f cs)
  in_place-IsContiguous cs h l k = rw (at-in_place l k cs, size-in_place l cs) (h l k)

  in_place-HasUniqueIds : (cs : List Card) → HasUniqueIds cs → HasUniqueIds (map_first p f cs)
  in_place-HasUniqueIds cs u x =
      rw (count-in_place (has_id x) p f cs (λ d. ground (arith, same d))) (u x)

module _ {m : Models} where
  notify_about_card-Keeps :
      (ws b : ℕ) (card : Card) (actor : ℕ) (type : NotificationType) (message : String)
      (to : List ℕ) (body : String) (db : Db m)
      → IsOrdered db
      → Keeps IsOrdered (notify_about_card ws b card actor type message to body) db
  unfolding notify_about_card modify
  notify_about_card-Keeps ws b card actor type message to body db h = record { at = h }

  created-IsOrdered :
      (card : Card) (db : Db m)
      → card.archived_at ≡ none
      → card.position ≡ m.card.count_documents (is_active_in card.list) db.cards
      → count (has_id card.id) (m.card.docs db.cards) ≡ 0
      → IsOrdered db
      → IsOrdered (record db { cards = m.card.create card db.cards })
  unfolding size_of
  created-IsOrdered card db new last fresh (u, h) = rw (m.card.docs-create card db.cards) (
    append-HasUniqueIds card _ fresh u,
    append-IsContiguous card _ new (last ∙ m.card.count_lem _ db.cards) h,
  )

  create_card-Keeps :
      (id ws b author : ℕ) (payload : CreateCardInput) (db : Db m)
      → count (has_id id) (m.card.docs db.cards) ≡ 0
      → IsOrdered db
      → Keeps IsOrdered (create_card id ws b author payload) db
  unfolding create_card invalidate
  create_card-Keeps id ws b author payload db fresh h = Keeps-reads _ _ _ _ h λ board _.
      Keeps-reads _ _ _ _ h λ list _. Keeps-reads _ _ _ _ h λ _ _. Keeps-gets _ _ _ _ (
        Keeps-guard _ _ _ _ _ h λ _. Keeps-modify _ _ _ _ (
          Keeps-modify _ _ _ _ (
            let made = created-IsOrdered _ db refl refl fresh h in
            Keeps-call _ _ _ _
              (Keeps-when _ _ _ _ made (notify_about_card-Keeps ws b _ author _ _ _ _ _ made))
              (λ _ s' hs. Keeps-modify _ _ _ _ (Keeps-pure _ _ _ hs)))))

  -- Creating a card under a fresh id, refused or carried out, keeps card ids unique and the
  -- positions of every list 0 to n - 1.
  pub create_card-IsOrdered :
      (id ws b author : ℕ) (payload : CreateCardInput) (db : Db m)
      → count (has_id id) (m.card.docs db.cards) ≡ 0
      → IsOrdered db
      → IsOrdered (create_card id ws b author payload db).1
  create_card-IsOrdered id ws b author payload db fresh h =
      (create_card-Keeps id ws b author payload db fresh h).at

  updated-IsOrdered :
      (p : Card → Bool) (f : Card → Card) (db : Db m)
      → IsInPlace f
      → IsOrdered db
      → IsOrdered (record db { cards = m.card.update_one p f db.cards })
  updated-IsOrdered p f db same (u, h) =
      rw (m.card.docs-update_one p f db.cards)
        (in_place-HasUniqueIds p f same _ u, in_place-IsContiguous p f same _ h)

  tell_about_update-Keeps :
      (ws b actor : ℕ) (old card : Card) (db : Db m)
      → IsOrdered db
      → Keeps IsOrdered (tell_about_update ws b actor old card) db
  unfolding tell_about_update
  tell_about_update-Keeps ws b actor old card db h =
      let told =
        λ (type : NotificationType) (message : String) (to : List ℕ) (c : Bool) (s : Db m)
            (hs : IsOrdered s).
          Keeps-when {S = Db m} IsOrdered c
            (notify_about_card ws b card actor type message to card.title) s hs
            (notify_about_card-Keeps ws b card actor type message to card.title s hs) in
      Keeps-call _ _ _ _ (told _ _ _ _ _ h) λ _ s1 h1.
        Keeps-call _ _ _ _ (told _ _ _ _ s1 h1) λ _ s2 h2.
          Keeps-call _ _ _ _ (told _ _ _ _ s2 h2)
            λ _ s3 h3. Keeps-call _ _ _ _ (told _ _ _ _ s3 h3) λ _ s4 h4. told _ _ _ _ s4 h4

  update_card-Keeps :
      (now ws b c actor : ℕ) (changes : UpdateCardInput) (db : Db m)
      → IsOrdered db
      → Keeps IsOrdered (update_card now ws b c actor changes) db
  unfolding update_card invalidate
  update_card-Keeps now ws b c actor changes db h = Keeps-reads _ _ _ _ h λ board _.
      Keeps-reads _ _ _ _ h λ old _. Keeps-reads _ _ _ _ h λ _ _. Keeps-modify _ _ _ _ (
        Keeps-modify _ _ _ _ (
          Keeps-modify _ _ _ _ (
            let saved =
              updated-IsOrdered _ (with_changes changes now) db (λ d. (refl, refl, refl, refl)) h in
            Keeps-call _ _ _ _ (tell_about_update-Keeps ws b actor old _ _ saved)
              (λ _ s' hs. Keeps-pure _ _ _ hs))))

  -- Updating a card, refused or carried out, keeps card ids unique and the positions of every list
  -- 0 to n - 1.
  pub update_card-IsOrdered :
      (now ws b c actor : ℕ) (changes : UpdateCardInput) (db : Db m)
      → IsOrdered db
      → IsOrdered (update_card now ws b c actor changes db).1
  update_card-IsOrdered now ws b c actor changes db h =
      (update_card-Keeps now ws b c actor changes db h).at

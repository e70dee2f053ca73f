-- ===== src/Boards/Requests.antt =====
-- Sequences of requests on the cards and lists of one database, in any order, valid or not.
use flowdeck_backend.Boards.Cards
use flowdeck_backend.Boards.Moves
use flowdeck_backend.Boards.Manage
use flowdeck_backend.Base.{count, ℕ, ◌≡◌}
use flowdeck_backend.Boards.Cards.{CreateCardInput, UpdateCardInput}
use flowdeck_backend.Boards.Cards.Handlers.{create_card-IsOrdered, update_card-IsOrdered}
use flowdeck_backend.Boards.Manage.Handlers.{archive_list-IsOrdered}
use flowdeck_backend.Boards.Moves.{MoveCardInput}
use flowdeck_backend.Boards.Moves.Handlers.{archive_card-IsOrdered, move_card-IsOrdered}
use flowdeck_backend.Boards.Positions.{IsOrdered, has_id}
use flowdeck_backend.Models.{Db, Models}

-- One request. Whoever creates a document gives it an id that no card has; archived documents
-- stay in the database.
pub data Step {m : Models} (db : Db m) : Db m → Type 0 where
  create_card :
      (id ws b author : ℕ) (payload : CreateCardInput)
      → count (has_id id) (m.card.docs db.cards) ≡ 0
      → Step db (Cards.create_card id ws b author payload db).1
  update_card :
      (now ws b c actor : ℕ) (changes : UpdateCardInput)
      → Step db (Cards.update_card now ws b c actor changes db).1
  move_card :
      (ws b c actor : ℕ) (input : MoveCardInput) → Step db (Moves.move_card ws b c actor input db).1
  archive_card : (ws b c actor now : ℕ) → Step db (Moves.archive_card ws b c actor now db).1
  archive_list : (now ws b l : ℕ) → Step db (Manage.archive_list now ws b l db).1

-- `db'` is left by some sequence of requests that begins at `db`.
pub data Reach {m : Models} (db : Db m) : Db m → Type 0 where
  here : Reach db db
  next : {db' db'' : Db m} → Reach db db' → Step db' db'' → Reach db db''

Step-IsOrdered : {m : Models} {db db' : Db m} → Step db db' → IsOrdered db → IsOrdered db'
Step-IsOrdered {db} (Step.create_card id ws b author payload fresh) h =
    create_card-IsOrdered id ws b author payload db fresh h
Step-IsOrdered {db} (Step.update_card now ws b c actor changes) h =
    update_card-IsOrdered now ws b c actor changes db h
Step-IsOrdered {db} (Step.move_card ws b c actor input) h =
    move_card-IsOrdered ws b c actor input db h
Step-IsOrdered {db} (Step.archive_card ws b c actor now) h =
    archive_card-IsOrdered ws b c actor now db h
Step-IsOrdered {db} (Step.archive_list now ws b l) h = archive_list-IsOrdered now ws b l db h

-- From ordered cards, after any sequence of requests to create, update, move and archive cards and
-- to archive lists, refused or carried out, card ids are unique and the active cards of every list
-- stand at the positions 0 to n - 1, one at each.
pub Reach-IsOrdered : {m : Models} {db db' : Db m} → Reach db db' → IsOrdered db → IsOrdered db'
Reach-IsOrdered here h = h
Reach-IsOrdered (next r st) h = Step-IsOrdered st (Reach-IsOrdered r h)

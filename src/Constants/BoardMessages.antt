-- ===== src/Constants/BoardMessages.antt =====
-- `BOARD_MESSAGES` of src/constants/messages.ts
use flowdeck_backend.Base.{String}

abbrev pub not_found : String
not_found = "Board not found"

abbrev pub list_not_found : String
list_not_found = "List not found on this board"

abbrev pub list_full : String
list_full = "This list has reached its card limit"

abbrev pub card_not_found : String
card_not_found = "Card not found on this board"

abbrev pub assignee_not_member : String
assignee_not_member = "Cards can only be assigned to workspace members"

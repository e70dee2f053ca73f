-- ===== src/Constants/PageMessages.antt =====
-- `PAGE_MESSAGES` of src/constants/messages.ts
use flowdeck_backend.Base.{String}

abbrev pub not_found : String
not_found = "Page not found"

abbrev pub revision_not_found : String
revision_not_found = "That revision does not exist for this page"

abbrev pub too_deep : String
too_deep = "Pages cannot be nested any deeper"

abbrev pub cannot_nest_in_self : String
cannot_nest_in_self = "A page cannot be nested inside itself"

abbrev pub cannot_nest_in_descendant : String
cannot_nest_in_descendant = "A page cannot be nested inside one of its own children"

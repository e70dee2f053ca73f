-- ===== src/Constants/FileMessages.antt =====
-- src/constants/files.ts: the messages of the file service.
use flowdeck_backend.Base.{String}

abbrev pub not_found : String
not_found = "File not found"

abbrev pub not_owner : String
not_owner = "Only the uploader or a workspace admin can delete this file"

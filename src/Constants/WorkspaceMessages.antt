-- ===== src/Constants/WorkspaceMessages.antt =====
-- `WORKSPACE_MESSAGES` of src/constants/messages.ts
use flowdeck_backend.Base.{String}

abbrev pub not_found : String
not_found = "Workspace not found"

abbrev pub not_a_member : String
not_a_member = "You are not a member of this workspace"

abbrev pub role_too_low : String
role_too_low = "Your workspace role does not allow this action"

abbrev pub member_exists : String
member_exists = "This user is already a member of the workspace"

abbrev pub member_not_found : String
member_not_found = "Member not found in this workspace"

abbrev pub owner_role_locked : String
owner_role_locked = "The workspace owner role can only change through a transfer"

abbrev pub owner_cannot_leave : String
owner_cannot_leave = "Transfer ownership before leaving the workspace"

abbrev pub user_not_found : String
user_not_found = "No account exists with that email"

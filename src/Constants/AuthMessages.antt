-- ===== src/Constants/AuthMessages.antt =====
-- `AUTH_MESSAGES` of src/constants/messages.ts
use flowdeck_backend.Base.{String}

abbrev pub email_taken : String
email_taken = "An account with this email already exists"

abbrev pub invalid_credentials : String
invalid_credentials = "Email or password is incorrect"

abbrev pub account_not_active : String
account_not_active = "This account is not active, please contact support"

abbrev pub refresh_token_required : String
refresh_token_required = "A refresh token is required"

abbrev pub refresh_token_invalid : String
refresh_token_invalid = "Refresh token is invalid or has already been used"

abbrev pub current_password_wrong : String
current_password_wrong = "Current password is incorrect"

abbrev pub session_not_found : String
session_not_found = "Session not found"

abbrev pub token_missing : String
token_missing = "Authorization header with a bearer token is required"

abbrev pub token_invalid : String
token_invalid = "Access token is invalid"

abbrev pub token_expired : String
token_expired = "Access token has expired"

abbrev pub session_revoked : String
session_revoked = "This session is no longer valid, please sign in again"

abbrev pub role_not_allowed : String
role_not_allowed = "Your role does not allow this action"

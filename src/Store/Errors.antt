-- ===== src/Store/Errors.antt =====
-- src/helpers/apiError.ts and src/constants/statusCodes.ts
use flowdeck_backend.Base.{ℕ, String}

pub record ApiError : Type 0 where
  pub status_code : ℕ
  pub message : String
  pub code : String

abbrev pub bad_request : String → ApiError
bad_request message = record { status_code = 400; message = message; code = "VALIDATION_FAILED" }

abbrev pub unauthorized : String → ApiError
unauthorized message = record { status_code = 401; message = message; code = "UNAUTHENTICATED" }

abbrev pub forbidden : String → ApiError
forbidden message = record { status_code = 403; message = message; code = "FORBIDDEN" }

abbrev pub not_found : String → ApiError
not_found message = record { status_code = 404; message = message; code = "RESOURCE_NOT_FOUND" }

abbrev pub conflict : String → ApiError
conflict message = record { status_code = 409; message = message; code = "DUPLICATE_RESOURCE" }

abbrev pub unprocessable : String → ApiError
unprocessable message = record { status_code = 422; message = message; code = "VALIDATION_FAILED" }

abbrev pub too_many_requests : String → ApiError
too_many_requests message = record { status_code = 429; message = message; code = "RATE_LIMITED" }

pub data Result {ℓ} (A : Type ℓ) : Type ℓ where
  ok : A → Result A
  err : ApiError → Result A

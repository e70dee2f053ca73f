-- ===== src/Auth/Tokens.antt =====
-- src/helpers/token.ts. jsonwebtoken, node:crypto and bcryptjs are not part of the repository: the
-- fields of `Crypto` are what the code calls of them, and the laws their documented behaviour.
-- Moments count milliseconds; `now` and what is random are arguments. jsonwebtoken counts whole
-- seconds: the moment that a token lasts to is the whole second of its signing and the lifetime.
use flowdeck_backend.Base.{
  Bool, Option, String, if◌then◌else◌, ltb, some, true, ℕ, ◌*◌, ◌+◌, ◌/◌, ◌≡◌,
}
use flowdeck_backend.Models.{SystemRole, User}
use flowdeck_backend.Security.{Env}

pub record AccessClaims : Type 0 where
  pub sub : ℕ
  pub role : SystemRole
  pub ver : Option ℕ

pub record RefreshClaims : Type 0 where
  pub sub : ℕ
  pub family : String
  pub jti : String

pub data Verified {ℓ} (A : Type ℓ) : Type ℓ where
  claims : A → Verified A
  expired invalid : Verified A

-- What `jwt.verify` answers to a token of its own, signed to last until a second.
abbrev pub lasting : {A : Type 0} → ℕ → ℕ → A → Verified A
lasting now until c = if ltb (now / 1000) until then Verified.claims c else Verified.expired

-- The signing fields take the second at which the token expires. There is one pair of them for each
-- of the two secrets.
pub record Crypto : Type 0 where
  pub sign_access : ℕ → AccessClaims → String
  pub verify_access : ℕ → String → Verified AccessClaims
  pub sign_refresh : ℕ → RefreshClaims → String
  pub verify_refresh : ℕ → String → Verified RefreshClaims
  pub sha256 : String → String
  -- `bcrypt.hash`, with its salt
  pub hash_password : String → String → String
  pub compare_password : String → String → Bool
  pub verify_access_lem :
      (now until : ℕ) (c : AccessClaims)
      → verify_access now (sign_access until c) ≡ lasting now until c
  pub verify_refresh_lem :
      (now until : ℕ) (c : RefreshClaims)
      → verify_refresh now (sign_refresh until c) ≡ lasting now until c
  pub sign_access-nonempty : (until : ℕ) (c : AccessClaims) → sign_access until c ≡ "" → ⊥
  pub compare_password_lem : (salt p : String) → compare_password p (hash_password salt p) ≡ true

pub record SignedRefresh : Type 0 where
  pub token : String
  pub family : String
  pub expires_at : ℕ

module _ (crypto : Crypto) where
  unfoldable pub hash_token : String → String
  hash_token token = crypto.sha256 token

  unfoldable pub verify_access_token : ℕ → String → Verified AccessClaims
  verify_access_token now token = crypto.verify_access now token

  unfoldable pub verify_refresh_token : ℕ → String → Verified RefreshClaims
  verify_refresh_token now token = crypto.verify_refresh now token

module _ (env : Env) (crypto : Crypto) where
  unfoldable pub sign_access_token : ℕ → User → String
  sign_access_token now u =
      crypto.sign_access (now / 1000 + env.access_token_ttl)
        (record { sub = u.id; role = u.role; ver = some u.token_version })

  unfoldable pub sign_refresh_token : ℕ → String → User → String → SignedRefresh
  sign_refresh_token now jti u family = record {
    token =
        crypto.sign_refresh (now / 1000 + env.refresh_token_ttl)
          (record { sub = u.id; family = family; jti = jti });
    family = family;
    expires_at = now + env.refresh_token_ttl * 1000;
  }

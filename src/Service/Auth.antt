-- ===== src/Service/Auth.antt =====
-- src/infrastructure/services/auth.service.ts over the packages bcrypt and jsonwebtoken, which are
-- parameters with what their documentation promises, and the default times of src/config/env.config.ts.
use hanghae_plus_backend.Prelude.{ℕ, ◌+◌, ◌/◌, ◌<◌, ◌≡◌, String, Bool, true, Option, none, some}
use hanghae_plus_backend.App.{Action, pure, raise, gets, catch, ◌>>=◌}
use hanghae_plus_backend.Database.Env.{Env}
use hanghae_plus_backend.Failure.{
  plain, internal, unauthorized_error, server_error, token_invalid, refresh_token_invalid,
}

-- What a token carries.
pub record Payload : Type 0 where
  pub user_id : ℕ
  pub email : String

-- A call that throws is none. A hash depends on random salt, and times are in milliseconds.
pub record Crypto : Type 1 where
  pub Token : Type 0
  pub hash : (salt : ℕ) → (password : String) → Option String
  pub compare : (password hashed_password : String) → Option Bool
  pub sign : (now : ℕ) → Payload → (seconds : ℕ) → Option Token
  pub verify : (now : ℕ) → Token → Option Payload
  -- A password matches its own hash.
  pub compare-hash :
      (salt : ℕ) (password : String) {h : String}
      → hash salt password ≡ some h
      → compare password h ≡ some true
  -- A token is what was signed until the second in which it expires.
  pub verify-sign :
      (now : ℕ) (p : Payload) (seconds : ℕ) {t : Token}
      → sign now p seconds ≡ some t
      → (later : ℕ) → later / 1000 < now / 1000 + seconds
      → verify later t ≡ some p

pub record Tokens (crypto : Crypto) : Type 0 where
  pub token : crypto.Token
  pub refresh_token : crypto.Token

-- A call of a package.
abbrev pub external : {env : Env} {A : Type 0} → Option A → Action env A
external none = raise (plain server_error)
external (some a) = pure a

module _ {env : Env} (crypto : Crypto) where
  -- `generateToken` and `generateRefreshToken`: 24 hours and 7 days.
  unfoldable pub generate_tokens : Payload → Action env (Tokens crypto)
  generate_tokens p = do
    now ← gets (λ s. s.now)
    token ← external (crypto.sign now p 86400)
    refresh_token ← external (crypto.sign now p 604800)
    pure (record { token = token; refresh_token = refresh_token })

  unfoldable pub register : Payload → Action env (Tokens crypto)
  register p = catch (generate_tokens p) (λ _. raise (internal server_error))

  unfoldable pub login : Payload → Action env (Tokens crypto)
  login p = catch (generate_tokens p) (λ _. raise (internal server_error))

  unfoldable pub validate_token : crypto.Token → Action env Payload
  validate_token token =
      catch (gets (λ s. s.now) >>= λ now. external (crypto.verify now token))
        (λ _. raise (unauthorized_error token_invalid))

  unfoldable pub refresh_token : crypto.Token → Action env (Tokens crypto)
  refresh_token token =
      catch
        (gets (λ s. s.now) >>= λ now. external (crypto.verify now token) >>= λ p. generate_tokens p)
        (λ _. raise (unauthorized_error refresh_token_invalid))

  unfoldable pub hash_password : (salt : ℕ) → String → Action env String
  hash_password salt password = external (crypto.hash salt password)

  unfoldable pub verify_password : (password hashed_password : String) → Action env Bool
  verify_password password hashed_password = external (crypto.compare password hashed_password)

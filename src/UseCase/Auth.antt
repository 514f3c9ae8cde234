-- ===== src/UseCase/Auth.antt =====
-- src/application/use-cases/auth: registration, login and the test of a token.
use hanghae_plus_backend.Prelude.{
  ℕ, ◌+◌, String, Bool, true, false, Option, none, some, if◌then◌else◌,
}
use hanghae_plus_backend.Prelude.Int.{pos}
use hanghae_plus_backend.App.{Action, pure, raise, lift, gets, catch, ◌>>=◌, ◌>>◌}
use hanghae_plus_backend.Database.Env.{Env}
use hanghae_plus_backend.Dto.{RegisterDto, LoginDto}
use hanghae_plus_backend.Failure.{
  Exception, Kind, plain_error, bad_request, not_found, internal_server_error, unauthorized,
  conflict, bad, missing, unauthorized_error, conflict_error, includes, user_missing,
  email_required, password_required, email_format_wrong, name_required, password_under_six,
  password_wrong, email_taken, token_invalid,
}
use hanghae_plus_backend.Domain.User.{User}
use hanghae_plus_backend.Validation.Auth.{validate_registration, validate_login}
use hanghae_plus_backend.Repository.User as Rows
use hanghae_plus_backend.Service.Auth.{Crypto, Payload, Tokens, hash_password, verify_password}
use hanghae_plus_backend.Service.Auth as Auth

pub record AuthResponseDto (crypto : Crypto) : Type 0 where
  pub user_id : ℕ
  pub email : String
  pub name : String
  pub token : crypto.Token
  pub refresh_token : crypto.Token
  pub expires_at : ℕ

-- The exceptions that are passed on as they are.
abbrev is_login_error : Kind → Bool
is_login_error plain_error = false
is_login_error bad_request = true
is_login_error not_found = true
is_login_error internal_server_error = false
is_login_error unauthorized = true
is_login_error conflict = false

abbrev is_register_error : Kind → Bool
is_register_error plain_error = false
is_register_error bad_request = true
is_register_error not_found = false
is_register_error internal_server_error = false
is_register_error unauthorized = false
is_register_error conflict = true

abbrev is_token_error : Kind → Bool
is_token_error plain_error = false
is_token_error bad_request = false
is_token_error not_found = true
is_token_error internal_server_error = false
is_token_error unauthorized = true
is_token_error conflict = false

-- The three catch blocks.
abbrev pub login_error : Exception → Exception
login_error e =
    if includes e.message email_required
    then bad e.message
    else if includes e.message password_required
    then bad e.message
    else if includes e.message email_format_wrong
    then bad e.message
    else if is_login_error e.kind
    then e
    else bad e.message

abbrev pub register_error : Exception → Exception
register_error e =
    if includes e.message email_required
    then bad e.message
    else if includes e.message password_required
    then bad e.message
    else if includes e.message name_required
    then bad e.message
    else if includes e.message email_format_wrong
    then bad e.message
    else if includes e.message password_under_six
    then bad e.message
    else if is_register_error e.kind
    then e
    else bad e.message

abbrev pub token_error : Exception → Exception
token_error e = if is_token_error e.kind then e else unauthorized_error token_invalid

-- `new User(0, name, email, 0, hashedPassword)`
abbrev pub new_user : RegisterDto → String → User
new_user dto hashed_password = record {
  id = 0;
  name = dto.name;
  email = dto.email;
  points = pos 0;
  password = hashed_password;
  version = 0;
}

abbrev pub payload : User → Payload
payload u = record { user_id = u.id; email = u.email }

abbrev pub auth_response : {crypto : Crypto} → User → Tokens crypto → ℕ → AuthResponseDto crypto
auth_response u tokens now = record {
  user_id = u.id;
  email = u.email;
  name = u.name;
  token = tokens.token;
  refresh_token = tokens.refresh_token;
  expires_at = now + 86400000;
}

module _ {env : Env} (crypto : Crypto) where
  -- From the user that was found by the email on.
  unfoldable pub log_in : LoginDto → Option User → Action env (AuthResponseDto crypto)
  log_in dto none = raise (missing user_missing)
  log_in dto (some u) = do
    is_valid ← verify_password crypto dto.password u.password
    if is_valid
        then (Auth.login crypto (payload u) >>= λ tokens.
            gets (λ s. s.now) >>= λ now. pure (auth_response u tokens now))
        else raise (unauthorized_error password_wrong)

  unfoldable pub login : LoginDto → Action env (AuthResponseDto crypto)
  login dto =
      catch
        (lift (validate_login dto.email dto.password)
          >> (Rows.find_by_email dto.email >>= λ user. log_in dto user))
        (λ e. raise (login_error e))

  -- From the user that has the email already on. The salt is random.
  unfoldable pub sign_up :
      (salt : ℕ) → RegisterDto → Option User → Action env (AuthResponseDto crypto)
  sign_up salt dto (some existing) = raise (conflict_error email_taken)
  sign_up salt dto none = do
    hashed_password ← hash_password crypto salt dto.password
    saved ← Rows.save (new_user dto hashed_password)
    tokens ← Auth.register crypto (record { user_id = saved.id; email = dto.email })
    now ← gets (λ s. s.now)
    pure (auth_response saved tokens now)

  unfoldable pub register : (salt : ℕ) → RegisterDto → Action env (AuthResponseDto crypto)
  register salt dto =
      catch
        (lift (validate_registration dto.email dto.password dto.name)
          >> (Rows.find_by_email dto.email >>= λ existing. sign_up salt dto existing))
        (λ e. raise (register_error e))

  unfoldable pub found_user : Option User → Action env User
  found_user none = raise (missing user_missing)
  found_user (some u) = pure u

  unfoldable pub validate_token : crypto.Token → Action env User
  validate_token token =
      catch
        (Auth.validate_token crypto token >>= λ p.
          Rows.find_by_id p.user_id >>= λ user. found_user user)
        (λ e. raise (token_error e))

-- ===== src/Tests/Accounts.antt =====
-- The theorems on coupons' stock and messages, and on registration and login, with a cipher that
-- hides nothing.
use hanghae_plus_backend.Prelude.{
  ℕ, ◌≡◌, ◌≤◌, ◌<◌, ◌⊎◌, ◌+◌, ◌/◌, refl, sym, String, true, none, some, List, [], ◌∷◌, arith, ltb,
  str_eq, if◌then◌else◌,
}
use hanghae_plus_backend.Prelude.Int.{pos_part}
use hanghae_plus_backend.App.{State, Action, pure}
use hanghae_plus_backend.Database.Redis.{coupon_stock}
use hanghae_plus_backend.RedisService.Map.{str_eq_refl}
use hanghae_plus_backend.Domain.Coupon.{Coupon}
use hanghae_plus_backend.Dto.{IssueCouponDto, RegisterDto, LoginDto}
use hanghae_plus_backend.Event.{CouponIssueRequestEvent, CouponIssueResponseEvent}
use hanghae_plus_backend.Failure.{ok, err, Exception}
use hanghae_plus_backend.Repository.User as Rows
use hanghae_plus_backend.Repository.User.{to_user}
use hanghae_plus_backend.Service.RedisCall.{redis_write}
use hanghae_plus_backend.Service.CouponQueries.{initialize_coupon_stock}
use hanghae_plus_backend.Service.Issuing.{issue_coupon}
use hanghae_plus_backend.Service.Auth as Auth
use hanghae_plus_backend.Service.Auth.{
  Crypto, Payload, Tokens, generate_tokens, hash_password, verify_password,
}
use hanghae_plus_backend.Validation.Auth.{
  validate_login, validate_registration, validate_email, validate_password, validate_name, length,
  is_blank, read,
}
use hanghae_plus_backend.UseCase.AsyncIssue.{
  request_dto, failed_result, handle_coupon_issue_request,
}
use hanghae_plus_backend.UseCase.Auth.{
  AuthResponseDto, login, log_in, register, sign_up, validate_token,
}
use hanghae_plus_backend.Issuing.Calls.{value}
use hanghae_plus_backend.Issuing.Bound.{answered}
use hanghae_plus_backend.Issuing.Initial.{initial, answered-initialize_coupon_stock}
use hanghae_plus_backend.Issuing.Messages.{issued, Sent, handle_coupon_issue_request-Sent}
use hanghae_plus_backend.Authentication.Login.{validate_token-login}
use hanghae_plus_backend.Authentication.Register.{Registered, register-Registered}
use hanghae_plus_backend.Tests.Memory.{in_memory}
use hanghae_plus_backend.Tests.Shop.{shop, kim}
use hanghae_plus_backend.Tests.Runs.{ran}

initializes : (initialize_coupon_stock shop).0 ≡ ok tt
unfolding initialize_coupon_stock redis_write
initializes = refl

abbrev asks : List IssueCouponDto
asks = record { user_id = 1; coupon_type = "FIXED_1000" } ∷ []

answered-initialize_coupon_stock_example :
    answered "FIXED_1000" asks (initialize_coupon_stock shop).1
    ≤ pos_part (initial "FIXED_1000" (value (coupon_stock "FIXED_1000") shop))
answered-initialize_coupon_stock_example =
    answered-initialize_coupon_stock "FIXED_1000" asks shop
      (ran initialize_coupon_stock shop initializes)

abbrev message : CouponIssueRequestEvent
message = record {
  request_id = "r-1";
  user_id = 1;
  coupon_type = "FIXED_1000";
  timestamp = 1700000000000;
  correlation_id = none;
}

-- A broker that takes every message.
abbrev broker : CouponIssueResponseEvent → Action in_memory (Unit {0})
broker e = pure tt

handle_coupon_issue_request-Sent_example :
    (s₁ s' : State in_memory) × (handle_coupon_issue_request broker (some message) shop
      ≡ (ok tt, s'))
    × (((c : Coupon) × (issue_coupon (request_dto message) shop ≡ (ok c, s₁))
          × Sent broker message (issued c) s₁ s')
        ⊎ ((x : Exception) × (issue_coupon (request_dto message) shop ≡ (err x, s₁))
            × Sent broker message (failed_result x.message) s₁ s'))
handle_coupon_issue_request-Sent_example = handle_coupon_issue_request-Sent broker message shop

same_password :
    (password h : String) → some password ≡ some h → some (str_eq password h) ≡ some true
same_password password h hashed =
    let same : password ≡ h = ground arith in rw (sym same, str_eq_refl password)

in_time :
    (n : ℕ) (p : Payload) (t : Payload × ℕ)
    → some (p, n) ≡ some t
    → (later : ℕ) → later < n
    → (if ltb later t.1 then some t.0 else none) ≡ some p
in_time n p t signed later soon =
    let same : (p, n) ≡ t = ground arith in
    let early : ltb later n ≡ true = ground arith in rw (sym same, early)

-- A token is its payload and the second in which it expires, and a hash is the password.
abbrev open_crypto : Crypto
open_crypto = record {
  Token = Payload × ℕ;
  hash = λ salt password. some password;
  compare = λ password hashed. some (str_eq password hashed);
  sign = λ now p seconds. some (p, now / 1000 + seconds);
  verify = λ now t. if ltb (now / 1000) t.1 then some t.0 else none;
  compare-hash = λ salt password {h} hashed. same_password password h hashed;
  verify-sign =
      λ now p seconds {t} h later soon. in_time (now / 1000 + seconds) p t h (later / 1000) soon;
}

abbrev kim_secret : State in_memory
kim_secret = record shop { users = record kim { password = "secret12" } ∷ [] }

abbrev kim_login : LoginDto
kim_login = record { email = "kim@example.com"; password = "secret12" }

abbrev kim_response : AuthResponseDto open_crypto
kim_response = record {
  user_id = 1;
  email = "kim@example.com";
  name = "Kim";
  token = (record { user_id = 1; email = "kim@example.com" }, 1700086400);
  refresh_token = (record { user_id = 1; email = "kim@example.com" }, 1700604800);
  expires_at = 1700086400000;
}

logs_in : (login open_crypto kim_login kim_secret).0 ≡ ok kim_response
unfolding login log_in Auth.login generate_tokens verify_password Rows.find_by_email validate_login
    validate_email validate_password length is_blank read
logs_in = refl

validate_token-login_example :
    (1700000900000 / 1000 < 1700000000000 / 1000 + 86400
      → validate_token open_crypto kim_response.token (record kim_secret { now = 1700000900000 })
        ≡ (
          ok (to_user (record kim { password = "secret12" })),
          record kim_secret { now = 1700000900000 },
        ))
    × (1700000900000 / 1000 < 1700000000000 / 1000 + 604800
        → validate_token open_crypto kim_response.refresh_token
            (record kim_secret { now = 1700000900000 })
          ≡ (
            ok (to_user (record kim { password = "secret12" })),
            record kim_secret { now = 1700000900000 },
          ))
validate_token-login_example =
    validate_token-login open_crypto kim_login kim_secret {r = kim_response}
      (record kim { password = "secret12" }) (record kim_secret { now = 1700000900000 })
      (ran (login open_crypto kim_login) kim_secret logs_in) refl

abbrev lee : RegisterDto
lee = record { email = "lee@example.com"; password = "secret34"; name = "Lee" }

abbrev lee_response : AuthResponseDto open_crypto
lee_response = record {
  user_id = 2;
  email = "lee@example.com";
  name = "Lee";
  token = (record { user_id = 2; email = "lee@example.com" }, 1700086400);
  refresh_token = (record { user_id = 2; email = "lee@example.com" }, 1700604800);
  expires_at = 1700086400000;
}

registers : (register open_crypto 0 lee shop).0 ≡ ok lee_response
unfolding register sign_up Auth.register hash_password generate_tokens Rows.find_by_email Rows.save
    validate_registration validate_email validate_password validate_name length is_blank read
registers = refl

register-Registered_example :
    Registered open_crypto 0 lee lee_response shop (register open_crypto 0 lee shop).1
register-Registered_example =
    register-Registered open_crypto 0 lee shop (ran (register open_crypto 0 lee) shop registers)

-- ===== src/Authentication/Login.antt =====
-- src/application/use-cases/auth/login.use-case.ts and validate-token.use-case.ts: who gets a token, and whom
-- a token stands for.
use hanghae_plus_backend.Prelude.{
  ℕ, ◌+◌, ◌/◌, ◌<◌, ◌≤◌, ◌≡◌, ◌⊎◌, refl, inl, inr, String, true, false, none, some, List, [], ◌∷◌,
  arith, Option-cases, str_eq,
}
use hanghae_plus_backend.App.{State, run-cases}
use hanghae_plus_backend.Database.Env.{Env}
use hanghae_plus_backend.Database.Entity.{UserEntity}
use hanghae_plus_backend.Dto.{LoginDto}
use hanghae_plus_backend.Failure.{ok, err, missing, user_missing, Result-cases}
use hanghae_plus_backend.Domain.User.{User}
use hanghae_plus_backend.Validation.Auth.{
  validate_login, validate_email, validate_password, length, is_blank, read, nothing, is_complete,
}
use hanghae_plus_backend.Repository.User.{to_user}
use hanghae_plus_backend.Repository.User as Rows
use hanghae_plus_backend.Repository.Contract.User.{user}
use hanghae_plus_backend.Service.Auth.{
  Crypto, Payload, Tokens, external, generate_tokens, verify_password,
}
use hanghae_plus_backend.Service.Auth as Auth
use hanghae_plus_backend.UseCase.Auth.{
  AuthResponseDto, payload, auth_response, log_in, login, found_user, validate_token,
}

-- An email address and a password that the validation lets pass.
pub record IsLogin (email password : String) : Type 0 where
  pub written : is_blank email ≡ false
  pub address : is_complete (read nothing email) ≡ true
  pub long : 8 ≤ length password
  pub short : length password ≤ 100

validate_login-ok :
    (email password : String) → validate_login email password ≡ ok tt → IsLogin email password
unfolding validate_login validate_email validate_password
validate_login-ok email password h = record {
  written = ground arith;
  address = ground arith;
  long = ground arith;
  short = ground arith;
}

-- Both tokens are signed for the same payload.
pub record AreTokens {crypto : Crypto} (now : ℕ) (p : Payload) (t : Tokens crypto) : Type 0 where
  pub token : crypto.sign now p 86400 ≡ some t.token
  pub refresh : crypto.sign now p 604800 ≡ some t.refresh_token

pub List-cases :
    {A : Type 0} (xs : List A) → (xs ≡ []) ⊎ ((x : A) × (rest : List A) × (xs ≡ x ∷ rest))
List-cases [] = inl refl
List-cases (x ∷ xs) = inr (x, xs, refl)

module _ {env : Env} where
  -- The rows with an email.
  abbrev pub with_email : String → State env → List UserEntity
  with_email email s = env.users.find s.users (λ e. str_eq e.email email)

module _ {env : Env} (crypto : Crypto) where
  pub generate_tokens-ok :
      (p : Payload) (s : State env) {t : Tokens crypto} {s' : State env}
      → generate_tokens crypto p s ≡ (ok t, s')
      → AreTokens s.now p t × (s' ≡ s)
  unfolding generate_tokens
  generate_tokens-ok p s h = elim (Option-cases (crypto.sign s.now p 86400)) [
    | inl failed ↦ ground arith
    | inr (token, signed) ↦ elim (Option-cases (crypto.sign s.now p 604800)) [
      | inl failed ↦ ground arith
      | inr (refresh, signed_too) ↦
          (record { token = ground arith; refresh = ground arith }, ground arith)
    ]
  ]

  log_in-none :
      (dto : LoginDto) (s : State env) → log_in crypto dto none s ≡ (err (missing user_missing), s)
  unfolding log_in
  log_in-none dto s = refl

  log_in-ok :
      (dto : LoginDto) (u : User) (s : State env) {r : AuthResponseDto crypto} {s' : State env}
      → log_in crypto dto (some u) s ≡ (ok r, s')
      → (crypto.compare dto.password u.password ≡ some true)
        × (t : Tokens crypto) × AreTokens s.now (payload u) t
        × (r ≡ auth_response u t s.now)
        × (s' ≡ s)
  unfolding log_in verify_password Auth.login
  log_in-ok dto u s {r} {s'} h = elim (Option-cases (crypto.compare dto.password u.password)) [
    | inl failed ↦ ground arith
    | inr (false, wrong) ↦ ground arith
    | inr (true, right) ↦ elim (run-cases (generate_tokens crypto (payload u)) s) [
      | inr (e, s₁, failed) ↦ ground arith
      | inl (t, s₁, made) ↦
          (let (signed, same) = generate_tokens-ok (payload u) s made in
            (right, t, signed, ground (arith, same), ground (arith, same)))
    ]
  ]

  -- A login that returns gave an address and a password that are well formed; the first user with
  -- that address is the one who is logged in, and the password matches the stored hash. Both tokens
  -- of the response are signed for that user, and nothing has changed.
  pub login-ok :
      (dto : LoginDto) (s : State env) {r : AuthResponseDto crypto} {s' : State env}
      → login crypto dto s ≡ (ok r, s')
      → IsLogin dto.email dto.password
        × (u : UserEntity) × (rest : List UserEntity) × (with_email dto.email s ≡ u ∷ rest)
        × (crypto.compare dto.password u.password ≡ some true)
        × (t : Tokens crypto) × AreTokens s.now (record { user_id = u.id; email = u.email }) t
        × (r ≡ auth_response (to_user u) t s.now)
        × (s' ≡ s)
  unfolding login Rows.find_by_email
  login-ok dto s {r} {s'} h = elim (Result-cases (validate_login dto.email dto.password)) [
    | inl (e, invalid) ↦ ground arith
    | inr (_, valid) ↦ elim (List-cases (with_email dto.email s)) [
      | inl unknown ↦ ground (arith, log_in-none dto s)
      | inr (u, rest, found) ↦
          (let (right, t, signed, answer, same) =
              log_in-ok dto (to_user u) s {r = r} {s' = s'} (ground arith) in
            (
              validate_login-ok dto.email dto.password valid,
              u,
              rest,
              found,
              right,
              t,
              signed,
              answer,
              same,
            ))
    ]
  ]

  -- Until the tokens of a login expire, each of them is accepted for the user who logged in: the
  -- token, for a day, and the refresh token just as well, for a week, since nothing tells them
  -- apart.
  pub validate_token-login :
      (dto : LoginDto) (s : State env) {r : AuthResponseDto crypto} {s' : State env}
      (u : UserEntity) (later : State env)
      → login crypto dto s ≡ (ok r, s')
      → user later r.user_id ≡ some u
      → (later.now / 1000 < s.now / 1000 + 86400
          → validate_token crypto r.token later ≡ (ok (to_user u), later))
        × (later.now / 1000 < s.now / 1000 + 604800
            → validate_token crypto r.refresh_token later ≡ (ok (to_user u), later))
  unfolding validate_token Auth.validate_token found_user Rows.find_by_id
  validate_token-login dto s {r} {s'} u later h found =
      let (_, v, _, _, _, t, signed, answer, _) = login-ok dto s h in
      let p : Payload = record { user_id = v.id; email = v.email } in
      (
        (λ soon.
            (let valid = crypto.verify-sign s.now p 86400 signed.token later.now soon in
              ground (arith, answer, valid))),
        (λ soon.
            (let valid = crypto.verify-sign s.now p 604800 signed.refresh later.now soon in
              ground (arith, answer, valid))),
      )

-- ===== src/Authentication/Register.antt =====
-- src/application/use-cases/auth/register.use-case.ts: what a registration stores, and whom it refuses.
use hanghae_plus_backend.Prelude.{
  ℕ, ◌≡◌, ◌≢◌, refl, sym, ap, inl, inr, String, none, some, List, [], ◌∷◌, arith, if◌then◌else◌,
  ◌==◌, Option-cases,
}
use hanghae_plus_backend.Prelude.Int.{pos}
use hanghae_plus_backend.App.{State, run-cases}
use hanghae_plus_backend.Database.Env.{Env}
use hanghae_plus_backend.Database.Entity.{UserEntity}
use hanghae_plus_backend.Dto.{RegisterDto}
use hanghae_plus_backend.Failure.{ok, err, conflict_error, email_taken, Result-cases}
use hanghae_plus_backend.Domain.User.{User}
use hanghae_plus_backend.Validation.Auth.{validate_registration}
use hanghae_plus_backend.Repository.User.{to_user, of_user}
use hanghae_plus_backend.Repository.User as Rows
use hanghae_plus_backend.Repository.Contract.User.{user}
use hanghae_plus_backend.Service.Auth.{Crypto, Tokens, generate_tokens, hash_password}
use hanghae_plus_backend.Service.Auth as Auth
use hanghae_plus_backend.UseCase.Auth.{AuthResponseDto, auth_response, new_user, sign_up, register}
use hanghae_plus_backend.Authentication.Login.{
  AreTokens, generate_tokens-ok, with_email, List-cases,
}

-- The row of a new account.
abbrev pub account : RegisterDto → String → ℕ → UserEntity
account dto hashed_password id = record {
  id = id;
  email = dto.email;
  name = dto.name;
  points = pos 0;
  password = hashed_password;
}

module _ {env : Env} where
  -- A new user is a new row under a new key.
  save-new :
      (dto : RegisterDto) (h : String) (s : State env) {v : User} {s' : State env}
      → Rows.save (new_user dto h) s ≡ (ok v, s')
      → (v ≡ to_user (account dto h v.id))
        × (v.id ≢ 0)
        × (user s v.id ≡ none)
        × ((i : ℕ) → user s' i ≡ (if v.id == i then some (account dto h v.id) else user s i))
        × (s' ≡ record s { users = s'.users })
  unfolding Rows.save
  save-new dto h s {v} {s'} saved =
      elim (Result-cases (env.users.save s.users (of_user (new_user dto h)))) [
        | inl (e, failed) ↦ ground arith
        | inr ((e, rows), done) ↦
            (let (new, known, unknown) =
                env.users.save_insert s.users (of_user (new_user dto h)) done refl in
              let made : e ≡ account dto h e.id = new in
              (
                ground (arith, made),
                ground (arith, known),
                ground (arith, unknown),
                (λ i. ground (
                  arith,
                  made,
                  env.users.find_one-save s.users (of_user (new_user dto h)) done i,
                )),
                ground arith,
              ))
      ]

move-AreTokens :
    {crypto : Crypto} {n m i j : ℕ}
    → n ≡ m
    → i ≡ j
    → (email : String) (t : Tokens crypto) → AreTokens n (record { user_id = i; email = email }) t
    → AreTokens m (record { user_id = j; email = email }) t
move-AreTokens p q email t h = record {
  token = rw (sym p, sym q) h.token;
  refresh = rw (sym p, sym q) h.refresh;
}

module _ {env : Env} (crypto : Crypto) where
  -- What a registration leaves: one more row, under a new key.
  pub record Registered (salt : ℕ) (dto : RegisterDto) (r : AuthResponseDto crypto)
      (s s' : State env) : Type 0 where
    pub valid : validate_registration dto.email dto.password dto.name ≡ ok tt
    pub unused : with_email dto.email s ≡ []
    pub hashed_password : String
    pub hashed : crypto.hash salt dto.password ≡ some hashed_password
    pub new_key : (r.user_id ≢ 0) × (user s r.user_id ≡ none)
    pub row :
        (i : ℕ)
        → user s' i
          ≡ (if r.user_id == i then some (account dto hashed_password r.user_id) else user s i)
    pub frame : s' ≡ record s { users = s'.users }
    pub tokens : Tokens crypto
    pub signed : AreTokens s.now (record { user_id = r.user_id; email = dto.email }) tokens
    pub answer : r ≡ auth_response (to_user (account dto hashed_password r.user_id)) tokens s.now

  sign_up-ok :
      (salt : ℕ) (dto : RegisterDto) (s : State env) {r : AuthResponseDto crypto} {s' : State env}
      → sign_up crypto salt dto none s ≡ (ok r, s')
      → (h : String) × (v : User) × (s₁ : State env) × (t : Tokens crypto) × (crypto.hash salt
            dto.password
          ≡ some h)
        × (Rows.save (new_user dto h) s ≡ (ok v, s₁))
        × AreTokens s₁.now (record { user_id = v.id; email = dto.email }) t
        × (r ≡ auth_response v t s₁.now)
        × (s' ≡ s₁)
  unfolding sign_up hash_password Auth.register
  sign_up-ok salt dto s {r} {s'} e = elim (Option-cases (crypto.hash salt dto.password)) [
    | inl failed ↦ ground arith
    | inr (h, hashed) ↦ elim (run-cases (Rows.save (new_user dto h)) s) [
      | inr (x, s₁, failed) ↦ ground arith
      | inl (v, s₁, saved) ↦
          elim (run-cases (generate_tokens crypto (record { user_id = v.id; email = dto.email }))
            s₁) [
              | inr (x, s₂, failed) ↦ ground arith
              | inl (t, s₂, made) ↦
                  (let (signed, same) =
                      generate_tokens-ok crypto (record { user_id = v.id; email = dto.email }) s₁
                        made in
                    (
                      h,
                      v,
                      s₁,
                      t,
                      hashed,
                      saved,
                      signed,
                      ground (arith, same),
                      ground (arith, same),
                    ))
            ]
    ]
  ]

  sign_up-taken :
      (salt : ℕ) (dto : RegisterDto) (u : User) (s : State env)
      → sign_up crypto salt dto (some u) s ≡ (err (conflict_error email_taken), s)
  unfolding sign_up
  sign_up-taken salt dto u s = refl

  signed_up-Registered :
      (salt : ℕ) (dto : RegisterDto) (s s₁ s' : State env) (r : AuthResponseDto crypto)
      (hash : String) (v : User) (t : Tokens crypto)
      → validate_registration dto.email dto.password dto.name ≡ ok tt
      → with_email dto.email s ≡ []
      → crypto.hash salt dto.password ≡ some hash
      → Rows.save (new_user dto hash) s ≡ (ok v, s₁)
      → AreTokens s₁.now (record { user_id = v.id; email = dto.email }) t
      → r ≡ auth_response v t s₁.now
      → s' ≡ s₁
      → Registered salt dto r s s'
  signed_up-Registered salt dto s s₁ s' r hash v t valid unused hashed saved signed answer same =
      let (made, known, unknown, row, frame) = save-new dto hash s saved in
      let id : r.user_id ≡ v.id = ap (λ a. a.user_id) answer in
      let now : s₁.now ≡ s.now = ap (λ a. a.now) frame in
      record {
        valid = valid;
        unused = unused;
        hashed_password = hash;
        hashed = hashed;
        new_key = (ground (arith, id, known), ground (arith, id, unknown));
        row = λ i. ground (arith, row i, same, id);
        frame = ground (arith, same, frame);
        tokens = t;
        signed = move-AreTokens now (sym id) dto.email t signed;
        answer = ground (arith, answer, made, id, now);
      }

  -- A registration that returns gave data that the validation lets pass, and no user had the
  -- address. There is one more row, under a new key: the new account with no points and with the
  -- hash in place of the password. Both tokens are signed for it, and no other row of any table has
  -- changed.
  pub register-Registered :
      (salt : ℕ) (dto : RegisterDto) (s : State env) {r : AuthResponseDto crypto} {s' : State env}
      → register crypto salt dto s ≡ (ok r, s')
      → Registered salt dto r s s'
  unfolding register Rows.find_by_email
  register-Registered salt dto s {r} {s'} h =
      elim (Result-cases (validate_registration dto.email dto.password dto.name)) [
        | inl (e, invalid) ↦ ground arith
        | inr (_, valid) ↦ elim (List-cases (with_email dto.email s)) [
          | inr (u, rest, taken) ↦ ground (arith, sign_up-taken salt dto (to_user u) s)
          | inl unused ↦
              (let (hash, v, s₁, t, hashed, saved, signed, answer, same) =
                  sign_up-ok salt dto s {r = r} {s' = s'} (ground arith) in
                signed_up-Registered salt dto s s₁ s' r hash v t valid unused hashed saved signed
                  answer same)
        ]
      ]

  -- With an address that a user has already, and data that are well formed, a registration is
  -- refused as a conflict and changes nothing.
  pub register-taken :
      (salt : ℕ) (dto : RegisterDto) (u : UserEntity) (rest : List UserEntity) (s : State env)
      → validate_registration dto.email dto.password dto.name ≡ ok tt
      → with_email dto.email s ≡ u ∷ rest
      → register crypto salt dto s ≡ (err (conflict_error email_taken), s)
  unfolding register Rows.find_by_email
  register-taken salt dto u rest s valid taken =
      ground (arith, sign_up-taken salt dto (to_user u) s)

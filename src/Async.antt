-- ===== src/Async.antt =====
-- Async functions of the language over a world that every call may change, as the interceptors of
-- src/common/interceptors and the lock service use them: a call returns or throws.
use hanghae_plus_backend.Prelude.{
  ℕ, ◌≡◌, ◌⊎◌, refl, inl, inr, String, Bool, true, false, Option, none, some,
}
use text.Mathlib.Text.{find?}

-- What is thrown: `BadRequestException` of @nestjs/common, `Error`, and anything else, with the
-- `name`, `message` and `code` that are read of it.
pub data Thrown : Type 0 where
  bad_request plain_error : String → Thrown
  other : (name message code : String) → Thrown

abbrev pub name : Thrown → String
name (bad_request m) = "BadRequestException"
name (plain_error m) = "Error"
name (other n m c) = n

abbrev pub message : Thrown → String
message (bad_request m) = m
message (plain_error m) = m
message (other n m c) = m

abbrev pub code : Thrown → String
code (bad_request m) = ""
code (plain_error m) = ""
code (other n m c) = c

abbrev pub found : Option ℕ → Bool
found none = false
found (some i) = true

-- `text.includes(part)`
abbrev pub includes : String → String → Bool
includes text part = found (find? text part)

pub data Outcome (A : Type 0) : Type 0 where
  throws : Thrown → Outcome A
  returns : A → Outcome A

abbrev pub Async : Type 0 → Type 0 → Type 0
Async W A = W → Outcome A × W

infixl 5 ◌>>=◌ ◌>>◌
module _ {W : Type 0} where
  abbrev pub return : {A : Type 0} → A → Async W A
  return a w = (returns a, w)

  abbrev pub throw : {A : Type 0} → Thrown → Async W A
  throw e w = (throws e, w)

  abbrev pub ◌>>=◌ : {A B : Type 0} → Async W A → (A → Async W B) → Async W B
  ◌>>=◌ m next w = let (r, w₁) = m w in elim r [ throws e ↦ (throws e, w₁) | returns a ↦ next a w₁ ]

  abbrev pub ◌>>◌ : {A B : Type 0} → Async W A → Async W B → Async W B
  ◌>>◌ m next w = let (r, w₁) = m w in elim r [ throws e ↦ (throws e, w₁) | returns a ↦ next w₁ ]

  -- `try { m } catch (error) { handle(error) }`
  abbrev pub catch : {A : Type 0} → Async W A → (Thrown → Async W A) → Async W A
  catch m handle w =
      let (r, w₁) = m w in elim r [ throws e ↦ handle e w₁ | returns a ↦ (returns a, w₁) ]

  -- `try { m } finally { last }`: what `last` throws replaces the outcome of `m`.
  abbrev pub finally : {A B : Type 0} → Async W A → Async W B → Async W A
  finally m last w =
      let (r, w₁) = m w in
      let (l, w₂) = last w₁ in elim l [ throws e ↦ (throws e, w₂) | returns b ↦ (r, w₂) ]

  pub outcome-cases :
      {A : Type 0} (p : Outcome A × W)
      → ((e : Thrown) × (w : W) × (p ≡ (throws e, w))) ⊎ ((a : A) × (w : W) × (p ≡ (returns a, w)))
  outcome-cases (throws e, w) = inl (e, w, refl)
  outcome-cases (returns a, w) = inr (a, w, refl)

  pub async-cases :
      {A : Type 0} (m : Async W A) (w : W)
      → ((e : Thrown) × (w₁ : W) × (m w ≡ (throws e, w₁)))
        ⊎ ((a : A) × (w₁ : W) × (m w ≡ (returns a, w₁)))
  async-cases m w = outcome-cases (m w)

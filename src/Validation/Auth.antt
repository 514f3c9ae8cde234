-- ===== src/Validation/Auth.antt =====
-- src/domain/services/auth-validation.service.ts. A text is measured in the units of 16 bits in which the
-- language measures it.
use Prim.Native.Char.{Char, code}
use Prim.Native.String.{String, [], ◌∷◌}
use hanghae_plus_backend.Prelude.{
  ℕ, ◌+◌, Bool, true, false, not, ◌&&◌, ◌||◌, Option, none, some, ◌==◌, ltb, leb, if◌then◌else◌,
}
use hanghae_plus_backend.Failure.{
  Check, ok, err, plain, throw_if, ◌>>◌, email_required, email_malformed, password_too_short,
  password_too_long, name_required, name_too_long, user_missing, password_wrong, email_taken,
  token_required,
}
use hanghae_plus_backend.Domain.User.{User}

-- `text.length`
unfoldable pub length : String → ℕ
length [] = 0
length (c ∷ s) = (if ltb (code c) 65536 then 1 else 2) + length s

-- `\s`, which is also what `trim` removes.
abbrev pub is_space : Char → Bool
is_space c =
    (leb 9 (code c) && leb (code c) 13)
    || (code c == 32)
    || (code c == 160)
    || (code c == 5760)
    || (leb 8192 (code c) && leb (code c) 8202)
    || (code c == 8232)
    || (code c == 8233)
    || (code c == 8239)
    || (code c == 8287)
    || (code c == 12288)
    || (code c == 65279)

-- `!text || text.trim().length === 0`
unfoldable pub is_blank : String → Bool
is_blank [] = true
is_blank (c ∷ s) = is_space c && is_blank s

-- How far `/^[^\s@]+@[^\s@]+\.[^\s@]+$/` has read: nothing yet, a name, its `@`, a domain, a dot
-- inside of it, what follows the dot; or a character that does not fit.
pub data Read : Type 0 where
  nothing local_part at_sign domain_part dot after_dot unfit : Read

abbrev pub next : Read → Char → Read
next nothing c = if is_space c || (code c == 64) then unfit else local_part
next local_part c = if is_space c then unfit else if code c == 64 then at_sign else local_part
next at_sign c = if is_space c || (code c == 64) then unfit else domain_part
next domain_part c =
    if is_space c || (code c == 64) then unfit else if code c == 46 then dot else domain_part
next dot c = if is_space c || (code c == 64) then unfit else after_dot
next after_dot c = if is_space c || (code c == 64) then unfit else after_dot
next unfit c = unfit

abbrev pub is_complete : Read → Bool
is_complete nothing = false
is_complete local_part = false
is_complete at_sign = false
is_complete domain_part = false
is_complete dot = false
is_complete after_dot = true
is_complete unfit = false

unfoldable pub read : Read → String → Read
read r [] = r
read r (c ∷ s) = read (next r c) s

unfoldable pub validate_email : String → Check
validate_email email = do
  throw_if (is_blank email) email_required
  throw_if (not (is_complete (read nothing email))) email_malformed

unfoldable pub validate_password : String → Check
validate_password password = do
  throw_if (ltb (length password) 8) password_too_short
  throw_if (ltb 100 (length password)) password_too_long

unfoldable pub validate_name : String → Check
validate_name name = do
  throw_if (is_blank name) name_required
  throw_if (ltb 50 (length name)) name_too_long

unfoldable pub validate_registration : (email password name : String) → Check
validate_registration email password name = do
  validate_email email
  validate_password password
  validate_name name

unfoldable pub validate_login : (email password : String) → Check
validate_login email password = do validate_email email; validate_password password

unfoldable pub validate_user_exists : Option User → Check
validate_user_exists none = err (plain user_missing)
validate_user_exists (some u) = ok tt

unfoldable pub validate_password_match : Bool → Check
validate_password_match is_valid = throw_if (not is_valid) password_wrong

unfoldable pub validate_email_not_exists : Option User → Check
validate_email_not_exists none = ok tt
validate_email_not_exists (some u) = err (plain email_taken)

unfoldable pub validate_token : String → Check
validate_token token = throw_if (is_blank token) token_required

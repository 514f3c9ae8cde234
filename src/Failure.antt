-- ===== src/Failure.antt =====
-- Exceptions as values. A message is a constructor for each text that the source throws, and
-- `includes` is the test `error.message.includes('…')` of the catch blocks.
use hanghae_plus_backend.Prelude.{◌≡◌, refl, ◌⊎◌, inl, inr, ℕ, Bool, String, ◌==◌, if◌then◌else◌}

-- `Error`, and the exceptions of @nestjs/common.
pub data Kind : Type 0 where
  plain_error bad_request not_found internal_server_error unauthorized conflict : Kind

pub data Message : Type 0 where
  negative_points insufficient_points : Message
  negative_quantity insufficient_stock : Message
  product_short : String → Message
  user_missing product_missing order_missing coupon_missing payment_missing : Message
  product_gone : ℕ → Message
  coupon_gone : ℕ → Message
  payment_processed order_processed : Message
  invalid_coupon_type unknown_coupon_type coupon_sold_out : String → Message
  invalid_coupon used_coupon expired_coupon : Message
  negative_discount discount_over_total : Message
  no_items item_incomplete item_quantity : Message
  zero_total negative_final zero_payment final_over_total : Message
  charge_too_small charge_too_large use_too_small : Message
  zero_price zero_product_quantity no_product_name : Message
  invalid_category : String → Message
  products_unavailable product_unsaved server_error reservation_failed : Message
  invalid_order_data invalid_payment_data duplicate_payment redis_failure : Message
  coupon_unavailable : String → Message
  points_unreadable product_unreadable products_unreadable : Message
  product_absent : ℕ → Message
  email_required email_malformed email_format_wrong password_required password_too_short : Message
  password_under_six password_too_long name_required name_too_long : Message
  password_wrong email_taken token_required token_invalid refresh_token_invalid : Message

-- A number for each text, without what is put into it.
abbrev pub code : Message → ℕ
code negative_points = 0
code insufficient_points = 1
code negative_quantity = 2
code insufficient_stock = 3
code (product_short _) = 4
code user_missing = 5
code product_missing = 6
code order_missing = 7
code coupon_missing = 8
code payment_missing = 9
code (product_gone _) = 10
code (coupon_gone _) = 11
code payment_processed = 12
code order_processed = 13
code (invalid_coupon_type _) = 14
code (unknown_coupon_type _) = 15
code (coupon_sold_out _) = 16
code invalid_coupon = 17
code used_coupon = 18
code expired_coupon = 19
code negative_discount = 20
code discount_over_total = 21
code no_items = 22
code item_incomplete = 23
code item_quantity = 24
code zero_total = 25
code negative_final = 26
code zero_payment = 27
code final_over_total = 28
code charge_too_small = 29
code charge_too_large = 30
code use_too_small = 31
code zero_price = 32
code zero_product_quantity = 33
code no_product_name = 34
code (invalid_category _) = 35
code products_unavailable = 36
code product_unsaved = 37
code server_error = 38
code reservation_failed = 39
code invalid_order_data = 40
code invalid_payment_data = 41
code duplicate_payment = 42
code redis_failure = 43
code (coupon_unavailable _) = 44
code points_unreadable = 45
code product_unreadable = 46
code products_unreadable = 47
code (product_absent _) = 48
code email_required = 49
code email_malformed = 50
code email_format_wrong = 51
code password_required = 52
code password_too_short = 53
code password_under_six = 54
code password_too_long = 55
code name_required = 56
code name_too_long = 57
code password_wrong = 58
code email_taken = 59
code token_required = 60
code token_invalid = 61
code refresh_token_invalid = 62

-- Whether a message has the text of another, up to what is put into it.
abbrev pub includes : Message → Message → Bool
includes m part = code m == code part

pub record Exception : Type 0 where
  pub kind : Kind
  pub message : Message

-- `new Error(m)`
abbrev pub plain : Message → Exception
plain m = record { kind = plain_error; message = m }

abbrev pub bad : Message → Exception
bad m = record { kind = bad_request; message = m }

abbrev pub missing : Message → Exception
missing m = record { kind = not_found; message = m }

abbrev pub internal : Message → Exception
internal m = record { kind = internal_server_error; message = m }

abbrev pub unauthorized_error : Message → Exception
unauthorized_error m = record { kind = unauthorized; message = m }

abbrev pub conflict_error : Message → Exception
conflict_error m = record { kind = conflict; message = m }

pub data Result {ℓ} (A : Type ℓ) : Type ℓ where
  err : Exception → Result A
  ok : A → Result A

-- The next call is made only if nothing was thrown.
infixl 5 ◌>>=◌ ◌>>◌
abbrev pub ◌>>=◌ {ℓ μ} :
    {A : Type ℓ} {B : Type μ} (first : Result A) (next : A → Result B) → Result B
err x >>= next = err x
ok value >>= next = next value

abbrev pub ◌>>◌ {μ} : {B : Type μ} (check : Result (Unit {0})) (after : Result B) → Result B
err x >> after = err x
ok _ >> after = after

-- The result of a validation, which throws or returns nothing.
abbrev pub Check : Type 0
Check = Result (Unit {0})

-- `if (c) throw new Error(m)`
abbrev pub throw_if : Bool → Message → Check
throw_if c m = if c then err (plain m) else ok tt

pub Result-cases {ℓ} :
    {A : Type ℓ} (r : Result A) → ((e : Exception) × (r ≡ err e)) ⊎ ((a : A) × (r ≡ ok a))
Result-cases (ok a) = inr (a, refl)
Result-cases (err e) = inl (e, refl)

-- ===== src/Validation/Issuance.antt =====
-- The two descriptions of who may still get a coupon agree (coupon-validation.service.ts).
use hanghae_plus_backend.Prelude.{◌+◌, ◌≤◌, ◌<◌, ◌≡◌, ◌↔◌, String, true, List, ◌∷◌, arith, length}
use hanghae_plus_backend.Failure.{ok}
use hanghae_plus_backend.Domain.Coupon.{Coupon}
use hanghae_plus_backend.Validation.Coupon.{
  validate_coupon_issuance, can_issue_coupon, get_remaining_coupon_count, get_coupon_limit,
}

-- Issuing passes validation exactly when `canIssueCoupon` says so, and exactly when coupons remain.
pub validate_coupon_issuance_iff :
    (t : String) (existing : List Coupon)
    → ((validate_coupon_issuance t existing ≡ ok tt) ↔ (can_issue_coupon t existing ≡ true))
      × ((can_issue_coupon t existing ≡ true) ↔ (0 < get_remaining_coupon_count t existing))
unfolding validate_coupon_issuance can_issue_coupon get_remaining_coupon_count
validate_coupon_issuance_iff t existing = ground arith

-- One more coupon lowers a remaining count that is not 0 by one, so never more coupons than the limit
-- of the type pass validation.
pub get_remaining_coupon_count-cons :
    (t : String) (c : Coupon) (existing : List Coupon)
    → validate_coupon_issuance t existing ≡ ok tt
    → (get_remaining_coupon_count t (c ∷ existing) + 1 ≡ get_remaining_coupon_count t existing)
      × (length (c ∷ existing) ≤ get_coupon_limit t)
unfolding validate_coupon_issuance get_remaining_coupon_count get_coupon_limit
get_remaining_coupon_count-cons t c existing h = ground arith

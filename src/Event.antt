-- ===== src/Event.antt =====
-- src/domain/events: the events, and the name of the class of each, by which the bus files them.
use hanghae_plus_backend.Prelude.{ℕ, String, Bool, Option, List}
use hanghae_plus_backend.Prelude.Int.{ℤ}
use hanghae_plus_backend.Failure.{Message}
use hanghae_plus_backend.Domain.Order.{OrderItem}

pub record OrderCreatedEvent : Type 0 where
  pub order_id : ℕ
  pub user_id : ℕ
  pub items : List OrderItem
  pub total_amount : ℤ
  pub discount_amount : ℤ
  pub final_amount : ℤ
  pub coupon_id : Option ℕ
  pub coupon_used : Bool
  pub created_at : ℕ
  pub expires_at : ℕ

-- What the compensating handlers read of an item: `items` is `any[]` in both failure events, the
-- items of the request in one and those of the order in the other.
pub record EventItem : Type 0 where
  pub product_id : ℕ
  pub quantity : ℤ

-- `orderId` is `'TEMP_' + Date.now()` here, and is read by the log only.
pub record OrderFailedEvent : Type 0 where
  pub user_id : ℕ
  pub items : List EventItem
  pub coupon_id : Option ℕ
  pub failure_reason : Message
  pub failed_at : ℕ

pub record PaymentCompletedEvent : Type 0 where
  pub order_id : ℕ
  pub user_id : ℕ
  pub products : List OrderItem
  pub total_amount : ℤ
  pub discount_amount : ℤ
  pub final_amount : ℤ
  pub coupon_used : Bool
  pub paid_at : ℕ
  pub status : String

-- `failureReason` is a message of an exception, or none for '결제 시간 초과 (10분)'.
pub record PaymentFailedEvent : Type 0 where
  pub order_id : ℕ
  pub user_id : ℕ
  pub items : List EventItem
  pub coupon_id : Option ℕ
  pub failure_reason : Option Message
  pub failed_at : ℕ
  pub is_timeout : Bool

pub data Event : Type 0 where
  order_created : OrderCreatedEvent → Event
  order_failed : OrderFailedEvent → Event
  payment_completed : PaymentCompletedEvent → Event
  payment_failed : PaymentFailedEvent → Event

-- `event.constructor.name`
abbrev pub class_name : Event → String
class_name (order_created _) = "OrderCreatedEvent"
class_name (order_failed _) = "OrderFailedEvent"
class_name (payment_completed _) = "PaymentCompletedEvent"
class_name (payment_failed _) = "PaymentFailedEvent"

-- The messages of src/domain/events/coupon-issue-request.event.ts and coupon-issue-response.event.ts.
pub record CouponIssueRequestEvent : Type 0 where
  pub request_id : String
  pub user_id : ℕ
  pub coupon_type : String
  pub timestamp : ℕ
  pub correlation_id : Option String

pub record CouponIssueResponseEvent : Type 0 where
  pub request_id : String
  pub user_id : ℕ
  pub coupon_type : String
  pub success : Bool
  pub coupon_id : Option ℕ
  pub error_message : Option Message
  pub timestamp : ℕ
  pub correlation_id : Option String

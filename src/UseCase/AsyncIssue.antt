-- ===== src/UseCase/AsyncIssue.antt =====
-- The issue of coupons by messages: src/application/use-cases/coupons/issue-coupon-async.use-case.ts,
-- src/infrastructure/services/kafka-coupon-consumer.service.ts, and
-- src/application/use-cases/coupons/get-user-coupons.use-case.ts. What kafkajs and uuid do is given.
use hanghae_plus_backend.Prelude.{ℕ, String, Bool, true, false, Option, none, some, List, map}
use hanghae_plus_backend.App.{Action, pure, gets, catch, ◌>>=◌, ◌>>◌}
use hanghae_plus_backend.Database.Env.{Env}
use hanghae_plus_backend.Dto.{IssueCouponDto}
use hanghae_plus_backend.Event.{CouponIssueRequestEvent, CouponIssueResponseEvent}
use hanghae_plus_backend.Failure.{Message}
use hanghae_plus_backend.Service.Issuing.{issue_coupon}
use hanghae_plus_backend.Service.CouponQueries as CouponQueries
use hanghae_plus_backend.UseCase.Issue.{CouponResponseDto, coupon_response}

-- The message that says that the request was received is left out.
pub record AsyncCouponIssueResponseDto : Type 0 where
  pub request_id : String
  pub status : String

-- `processCouponIssue`'s result
pub record IssueResult : Type 0 where
  pub success : Bool
  pub coupon_id : Option ℕ
  pub error_message : Option Message

-- The request that a message of the topic stands for: a request event, whose identifier its sender wrote.
abbrev pub request_dto : CouponIssueRequestEvent → IssueCouponDto
request_dto e = record { user_id = e.user_id; coupon_type = e.coupon_type }

abbrev pub response_event : CouponIssueRequestEvent → IssueResult → ℕ → CouponIssueResponseEvent
response_event e result now = record {
  request_id = e.request_id;
  user_id = e.user_id;
  coupon_type = e.coupon_type;
  success = result.success;
  coupon_id = result.coupon_id;
  error_message = result.error_message;
  timestamp = now;
  correlation_id = e.correlation_id;
}

abbrev pub failed_result : Message → IssueResult
failed_result m = record { success = false; coupon_id = none; error_message = some m }

module _ {env : Env} where
  unfoldable pub get_user_coupons : ℕ → Action env (List CouponResponseDto)
  get_user_coupons user_id =
      CouponQueries.get_user_coupons user_id >>= λ coupons. pure (map coupon_response coupons)

  -- `send` is `sendCouponIssueRequest`, and the identifiers are uuid's and of the user and the time.
  unfoldable pub issue_async :
      (send : CouponIssueRequestEvent → Action env (Unit {0}))
      → (request_id correlation_id : String) → IssueCouponDto
      → Action env AsyncCouponIssueResponseDto
  issue_async send request_id correlation_id dto = do
    now ← gets (λ s. s.now)
    send (record {
      request_id = request_id;
      user_id = dto.user_id;
      coupon_type = dto.coupon_type;
      timestamp = now;
      correlation_id = some correlation_id;
    })
    pure (record { request_id = request_id; status = "PENDING" })

  unfoldable pub process_coupon_issue : CouponIssueRequestEvent → Action env IssueResult
  process_coupon_issue e =
      catch
        (issue_coupon (request_dto e) >>= λ coupon.
          pure (record { success = true; coupon_id = some coupon.id; error_message = none }))
        (λ error. pure (failed_result error.message))

  -- `send` is `sendCouponIssueResponse`; a message that is no JSON is none.
  unfoldable pub handle_coupon_issue_request :
      (send : CouponIssueResponseEvent → Action env (Unit {0}))
      → Option CouponIssueRequestEvent
      → Action env (Unit {0})
  handle_coupon_issue_request send none = pure tt
  handle_coupon_issue_request send (some e) =
      catch
        (process_coupon_issue e >>= λ result.
          gets (λ s. s.now) >>= λ now. send (response_event e result now))
        (λ error.
          catch
            (gets (λ s. s.now) >>= λ now. send (response_event e (failed_result error.message) now))
            (λ response_error. pure tt))

-- ===== src/Issuing/Messages.antt =====
-- The consumer of requests for coupons: what
-- src/infrastructure/services/kafka-coupon-consumer.service.ts answers to a message.
use hanghae_plus_backend.Prelude.{◌≡◌, ◌⊎◌, inl, inr, true, none, some, arith}
use hanghae_plus_backend.App.{State, Action, run-cases}
use hanghae_plus_backend.Database.Env.{Env}
use hanghae_plus_backend.Domain.Coupon.{Coupon}
use hanghae_plus_backend.Event.{CouponIssueRequestEvent, CouponIssueResponseEvent}
use hanghae_plus_backend.Failure.{ok, err, Exception}
use hanghae_plus_backend.Service.Issuing.{issue_coupon}
use hanghae_plus_backend.UseCase.AsyncIssue.{
  IssueResult, request_dto, response_event, failed_result, process_coupon_issue,
  handle_coupon_issue_request,
}

-- A result that names the issued coupon, or the error.
abbrev pub issued : Coupon → IssueResult
issued c = record { success = true; coupon_id = some c.id; error_message = none }

module _ {env : Env} (send : CouponIssueResponseEvent → Action env (Unit {0}))
    (e : CouponIssueRequestEvent) where
  -- What follows a request that came to a result: the response is sent; and if that throws, a second one says
  -- that the request has failed.
  pub data Sent (result : IssueResult) (s s' : State env) : Type 0 where
    sent : send (response_event e result s.now) s ≡ (ok tt, s') → Sent result s s'
    resent :
        (x : Exception) (s₁ : State env)
        → send (response_event e result s.now) s ≡ (err x, s₁)
        → (send (response_event e (failed_result x.message) s₁.now) s₁).1 ≡ s'
        → Sent result s s'

  -- The consumer handles a request event without throwing, whatever the producer does: it issues
  -- the coupon once, and answers with the coupon's identifier if it was issued and else with the
  -- message of the error. If this response cannot be sent, the response that follows says that the
  -- request failed, issued or not.
  pub handle_coupon_issue_request-Sent :
      (s : State env)
      → (s₁ s' : State env) × (handle_coupon_issue_request send (some e) s ≡ (ok tt, s'))
        × (((c : Coupon) × (issue_coupon (request_dto e) s ≡ (ok c, s₁)) × Sent (issued c) s₁ s')
            ⊎ ((x : Exception) × (issue_coupon (request_dto e) s ≡ (err x, s₁))
                × Sent (failed_result x.message) s₁ s'))
  unfolding handle_coupon_issue_request process_coupon_issue
  handle_coupon_issue_request-Sent s = elim (run-cases (issue_coupon (request_dto e)) s) [
    | inl (c, s₁, made) ↦ elim (run-cases (send (response_event e (issued c) s₁.now)) s₁) [
      | inl (_, s₂, done) ↦ (s₁, s₂, ground arith, inl (c, made, sent done))
      | inr (x, s₂, failed) ↦
          elim (run-cases (send (response_event e (failed_result x.message) s₂.now)) s₂) [
            | inl (_, s₃, again) ↦
                (s₁, s₃, ground arith, inl (c, made, resent x s₂ failed (ground (arith, again))))
            | inr (y, s₃, lost) ↦
                (s₁, s₃, ground arith, inl (c, made, resent x s₂ failed (ground (arith, lost))))
          ]
    ]
    | inr (z, s₁, refused) ↦
        elim (run-cases (send (response_event e (failed_result z.message) s₁.now)) s₁) [
          | inl (_, s₂, done) ↦ (s₁, s₂, ground arith, inr (z, refused, sent done))
          | inr (x, s₂, failed) ↦
              elim (run-cases (send (response_event e (failed_result x.message) s₂.now)) s₂) [
                | inl (_, s₃, again) ↦ (
                  s₁,
                  s₃,
                  ground arith,
                  inr (z, refused, resent x s₂ failed (ground (arith, again))),
                )
                | inr (y, s₃, lost) ↦ (
                  s₁,
                  s₃,
                  ground arith,
                  inr (z, refused, resent x s₂ failed (ground (arith, lost))),
                )
              ]
        ]
  ]

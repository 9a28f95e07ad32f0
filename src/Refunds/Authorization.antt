-- ===== src/Refunds/Authorization.antt =====
-- src/features/refunds/authorization.ts.
use seatflow.Prelude.{ℕ, ◌==◌, Bool, true, false, not, List, contains, if◌then◌else◌}
use seatflow.Domain.{
  BookingStatus, CheckoutOrderStatus, PaymentAttemptStatus, EventSessionStatus, TicketStatus,
  RefundInitiator,
}

pub data RefundEligibilityReason : Type 0 where
  booking_not_confirmed payment_not_captured order_not_fulfilled : RefundEligibilityReason
  nothing_refundable already_fully_refunded : RefundEligibilityReason
  session_already_completed under_financial_review : RefundEligibilityReason

pub data RefundEligibility : Type 0 where
  eligible : RefundEligibility
  ineligible : RefundEligibilityReason → RefundEligibility

pub record EligibilityInput : Type 0 where
  pub booking_status : BookingStatus
  pub order_status : CheckoutOrderStatus
  pub payment_status : PaymentAttemptStatus
  pub session_status : EventSessionStatus
  pub remaining_refundable_minor : ℕ
  pub is_under_financial_review : Bool

abbrev pub is_captured : PaymentAttemptStatus → Bool
is_captured PaymentAttemptStatus.succeeded = true
is_captured _ = false

abbrev pub is_refunded : BookingStatus → Bool
is_refunded BookingStatus.refunded = true
is_refunded BookingStatus.confirmed = false

abbrev pub is_confirmed : BookingStatus → Bool
is_confirmed BookingStatus.confirmed = true
is_confirmed BookingStatus.refunded = false

-- `["FULFILLED", "PAID", "PAID_UNFULFILLED"].includes(status)`.
abbrev pub is_paid_order : CheckoutOrderStatus → Bool
is_paid_order CheckoutOrderStatus.fulfilled = true
is_paid_order CheckoutOrderStatus.paid = true
is_paid_order CheckoutOrderStatus.paid_unfulfilled = true
is_paid_order _ = false

unfoldable pub evaluate_refund_eligibility : EligibilityInput → RefundEligibility
evaluate_refund_eligibility i =
    if not (is_captured i.payment_status)
    then ineligible payment_not_captured
    else if is_refunded i.booking_status
    then ineligible already_fully_refunded
    else if not (is_confirmed i.booking_status)
    then ineligible booking_not_confirmed
    else if not (is_paid_order i.order_status)
    then ineligible order_not_fulfilled
    else if i.is_under_financial_review
    then ineligible under_financial_review
    else if i.remaining_refundable_minor == 0
    then ineligible nothing_refundable
    else eligible

pub data RefundActorRole : Type 0 where
  customer organizer platform_admin : RefundActorRole

pub data RefundAuthorizationDenial : Type 0 where
  not_booking_owner not_in_organization : RefundAuthorizationDenial
  organizer_cannot_initiate_provider_refund unknown_role : RefundAuthorizationDenial

pub data RefundAuthorizationDecision : Type 0 where
  allowed : RefundInitiator → Bool → RefundAuthorizationDecision
  denied : RefundAuthorizationDenial → RefundAuthorizationDecision

pub record ActorInput : Type 0 where
  pub role : RefundActorRole
  pub actor_user_id : ℕ
  pub booking_owner_user_id : ℕ
  pub booking_organization_id : ℕ
  pub actor_organization_ids : List ℕ
  pub is_platform_admin : Bool

abbrev authorize_as : RefundActorRole → ActorInput → RefundAuthorizationDecision
authorize_as RefundActorRole.customer i =
    if i.actor_user_id == i.booking_owner_user_id
    then allowed RefundInitiator.customer true
    else denied not_booking_owner
authorize_as RefundActorRole.organizer i =
    if contains i.actor_organization_ids i.booking_organization_id
    then denied organizer_cannot_initiate_provider_refund
    else denied not_in_organization
authorize_as RefundActorRole.platform_admin i =
    if i.is_platform_admin
    then allowed RefundInitiator.platform_admin false
    else denied unknown_role

unfoldable pub authorize_refund_request : ActorInput → RefundAuthorizationDecision
authorize_refund_request i = authorize_as i.role i

unfoldable pub can_read_organization_financials : Bool → List ℕ → ℕ → Bool
can_read_organization_financials is_platform_admin organizations resource =
    if is_platform_admin then true else contains organizations resource

pub data TicketNoActionReason : Type 0 where
  seat_not_refunded used_tickets_remain already_revoked : TicketNoActionReason

pub data RefundTicketConsequence : Type 0 where
  revoke : RefundTicketConsequence
  no_action : TicketNoActionReason → RefundTicketConsequence

unfoldable pub decide_refund_ticket_consequence : TicketStatus → Bool → RefundTicketConsequence
decide_refund_ticket_consequence ticket false = no_action seat_not_refunded
decide_refund_ticket_consequence TicketStatus.used true = no_action used_tickets_remain
decide_refund_ticket_consequence TicketStatus.revoked true = no_action already_revoked
decide_refund_ticket_consequence TicketStatus.active true = revoke

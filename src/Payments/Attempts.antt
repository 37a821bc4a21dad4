-- ===== src/Payments/Attempts.antt =====
-- Opening a card order's payment session:
-- apps/api/src/orders/card-payment/card-payment.service.ts, and the gateway that it asks,
-- apps/api/src/payments/dominaite.gateway.ts. The client of Dominaite's SDK is a parameter: what it
-- answers to a session request. A session is asked for by the order, the attempt and the amount,
-- which are also its idempotency key.
pub mod Bounds
pub mod Payable
pub mod Asking
use vp_parts.Base.{ℕ, ◌+◌, Bool, true, false, ◌&&◌, Option, none, some, ltb, leb, if◌then◌else◌}
use vp_parts.Orders.{
  OrderStatus, is_pending_payment, OrderContact, CardPaymentStatus, «open», succeeded, failed,
  abandoned, attempt_cancelled, is_open, Shop,
}
use vp_parts.Payments.{
  PaymentAttempt, PayableOrder, OpenedCheckoutSession, find_owned_order, record_opened, mark_failed,
}

abbrev pub max_payment_attempts : ℕ
max_payment_attempts = 5

pub record CheckoutSessionRequest : Type 0 where
  pub order_reference : ℕ
  pub attempt : ℕ
  pub amount : ℕ
  pub customer : OrderContact

-- The codes of a refusal that the gateway tells apart.
pub data ErrorCode : Type 0 where
  payment_processing_unavailable duplicate_request already_processed prior_attempt_failed :
      ErrorCode
  other_code : ℕ → ErrorCode

-- What the SDK's client answers: a session, or the error that it throws.
pub data ClientAnswer : Type 0 where
  session_opened : OpenedCheckoutSession → ClientAnswer
  refused : ErrorCode → Option ℕ → ClientAnswer
  transport_error rate_limited : ClientAnswer
  other_error : ℕ → ClientAnswer

pub data SpentOutcome : Type 0 where
  was_paid has_failed : SpentOutcome

-- What opening a payment throws: the exceptions of the service and the gateway.
pub data PaymentError : Type 0 where
  order_not_found order_not_payable payment_processing payment_unavailable : PaymentError
  key_spent : SpentOutcome → Option ℕ → PaymentError
  refused_session : ErrorCode → PaymentError
  passed_on : ℕ → PaymentError

pub data Outcome {ℓ} (A : Type ℓ) : Type ℓ where
  done : A → Outcome A
  throws : PaymentError → Outcome A

-- `SPENT_KEY_OUTCOMES` and `RETRYABLE_REFUSALS`, in the order that they are asked.
unfoldable pub translate_refusal : ErrorCode → Option ℕ → PaymentError
translate_refusal already_processed transaction_id = key_spent was_paid transaction_id
translate_refusal prior_attempt_failed transaction_id = key_spent has_failed transaction_id
translate_refusal payment_processing_unavailable transaction_id = payment_unavailable
translate_refusal duplicate_request transaction_id = payment_unavailable
translate_refusal (other_code c) transaction_id = refused_session (other_code c)

unfoldable pub translate : ClientAnswer → Outcome OpenedCheckoutSession
unfolding translate_refusal
translate (session_opened session) = done session
translate (refused code transaction_id) = throws (translate_refusal code transaction_id)
translate transport_error = throws payment_unavailable
translate rate_limited = throws payment_unavailable
translate (other_error e) = throws (passed_on e)

unfoldable pub attempt_after : ℕ → Outcome ℕ
attempt_after failed_attempt =
    if leb max_payment_attempts failed_attempt
    then throws order_not_payable
    else done (failed_attempt + 1)

abbrev pub is_failed : CardPaymentStatus → Bool
is_failed failed = true
is_failed «open» = false
is_failed succeeded = false
is_failed abandoned = false
is_failed attempt_cancelled = false

unfoldable pub attempt_to_open : Option PaymentAttempt → ℕ → Outcome ℕ
unfolding attempt_after
attempt_to_open none now = done 1
attempt_to_open (some latest) now =
    if is_failed latest.status
    then attempt_after latest.attempt
    else if is_open latest.status && ltb now latest.expires_at
    then done latest.attempt
    else throws order_not_payable

-- `customer_id` is the customer of the signed-in account, if there is one.
unfoldable pub find_payable_order : Option ℕ → ℕ → Shop → Outcome PayableOrder
find_payable_order none order_reference s = throws order_not_found
find_payable_order (some customer_id) order_reference s =
    elim (find_owned_order order_reference customer_id s) [
      | none ↦ throws order_not_found
      | some order ↦
          if is_pending_payment order.status then done order else throws order_not_payable
    ]

-- `new_id` gives the identifier of the row that an attempt gets.
module _ (client : CheckoutSessionRequest → ClientAnswer) (new_id : ℕ → ℕ) where
  unfoldable pub open_session : PayableOrder → ℕ → Shop → Outcome OpenedCheckoutSession × Shop
  unfolding translate
  open_session order attempt s =
      elim (translate (
        client (record {
          order_reference = order.order_reference;
          attempt = attempt;
          amount = order.total;
          customer = order.payer;
        }))) [
          | throws e ↦ (throws e, s)
          | done session ↦ (done session, record_opened (new_id attempt) order.id attempt session s)
        ]

  -- What `openAttempt` does with what the first session threw.
  unfoldable pub retry_attempt :
      PayableOrder → ℕ → PaymentError → Shop → Outcome OpenedCheckoutSession × Shop
  unfolding open_session attempt_after
  retry_attempt order attempt (key_spent was_paid t) s = (throws payment_processing, s)
  retry_attempt order attempt (key_spent has_failed t) s =
      let marked = mark_failed order.id attempt s in
      elim (attempt_after attempt) [
        | throws e ↦ (throws e, marked)
        | done next ↦ open_session order next marked
      ]
  retry_attempt order attempt e s = (throws e, s)

  unfoldable pub open_attempt : PayableOrder → ℕ → Shop → Outcome OpenedCheckoutSession × Shop
  unfolding open_session retry_attempt
  open_attempt order attempt s = elim (open_session order attempt s).0 [
    | done session ↦ open_session order attempt s
    | throws e ↦ retry_attempt order attempt e s
  ]

  unfoldable pub open_payment : Option ℕ → ℕ → ℕ → Shop → Outcome OpenedCheckoutSession × Shop
  unfolding find_payable_order attempt_to_open open_attempt
  open_payment customer_id order_reference now s =
      elim (find_payable_order customer_id order_reference s) [
        | throws e ↦ (throws e, s)
        | done order ↦ elim (attempt_to_open order.latest_attempt now) [
          | throws e ↦ (throws e, s)
          | done attempt ↦ open_attempt order attempt s
        ]
      ]

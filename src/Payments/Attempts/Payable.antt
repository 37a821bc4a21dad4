-- ===== src/Payments/Attempts/Payable.antt =====
-- The order that a payment is opened for.
use vp_parts.Base.{
  ℕ, ◌≡◌, refl, sym, ap, ◌≢◌, ◌⊎◌, inl, inr, Bool, true, ◌&&◌, Option, none, some, List, [], ◌∷◌,
  arith, any_row, Has-append_right, ◌==◌, is_some_of, Bool-cases, Option-cases, Has, find_row,
  find_row-Has,
}
use vp_parts.Orders.{
  OrderStatus, pending_payment, is_pending_payment, Order, CardPayment, «open», Shop,
}
use vp_parts.Payments.{
  OpenedCheckoutSession, is_same_payment, record_opened, PayableOrder, latest_attempt_of,
  to_payable_order, find_owned_order,
}
use vp_parts.Payments.Attempts.{CheckoutSessionRequest, done, find_payable_order}

-- What is asked for an attempt.
abbrev pub asked : PayableOrder → ℕ → CheckoutSessionRequest
asked order n = record {
  order_reference = order.order_reference;
  attempt = n;
  amount = order.total;
  customer = order.payer;
}

pub payable-latest :
    (customer_id : Option ℕ) (order_reference : ℕ) (s : Shop) (order : PayableOrder)
    → find_payable_order customer_id order_reference s ≡ done order
    → order.latest_attempt ≡ latest_attempt_of order.id s
unfolding find_payable_order find_owned_order to_payable_order
payable-latest none order_reference s order h = cc
payable-latest (some c) order_reference s order h = ground (arith, h)

is_some_of-eq : (o : Option ℕ) (k : ℕ) → is_some_of o k ≡ true → o ≡ some k
is_some_of-eq none k h = cc
is_some_of-eq (some j) k h = ground (arith, h)

pending-eq : (status : OrderStatus) → is_pending_payment status ≡ true → status ≡ pending_payment
pending-eq pending_payment h = refl
pending-eq other h = cc

-- An order of a customer's that waits for its payment, by its reference.
abbrev pub IsPayable : Option ℕ → ℕ → Shop → Order → Type 0
IsPayable customer_id order_reference s o =
    Has o s.orders
    × (customer_id ≢ none)
    × (o.customer_id ≡ customer_id)
    × (o.order_reference ≡ order_reference)
    × (o.status ≡ pending_payment)

-- The row that is read for a payment.
pub find_payable_order-IsPayable :
    (customer_id : Option ℕ) (order_reference : ℕ) (s : Shop) (order : PayableOrder)
    → find_payable_order customer_id order_reference s ≡ done order
    → (o : Order) × IsPayable customer_id order_reference s o
      × (order.id ≡ o.id)
      × (order.order_reference ≡ o.order_reference)
      × (order.total ≡ o.money.total)
      × (order.payer ≡ o.contact)
unfolding find_payable_order find_owned_order to_payable_order
find_payable_order-IsPayable none order_reference s order h = cc
find_payable_order-IsPayable (some c) order_reference s order h =
    let p = λ (o : Order). (o.order_reference == order_reference) && is_some_of o.customer_id c in
    elim (Option-cases (find_row p s.orders)) [
      | inl missing ↦ absurd (ground (arith, missing, h))
      | inr (o, there) ↦ elim (Bool-cases (is_pending_payment o.status)) [
        | inr other ↦ absurd (ground (arith, there, other, h))
        | inl pending ↦
            let (row, fits) = find_row-Has p o s.orders there in
            let same : to_payable_order o s ≡ order = ground (arith, there, pending, h) in
            (
              o,
              (
                row,
                λ e. cc,
                is_some_of-eq o.customer_id c (ground (arith, fits)),
                ground (arith, fits),
                pending-eq o.status pending,
              ),
              ap (λ (x : PayableOrder). x.id) (sym same),
              ap (λ (x : PayableOrder). x.order_reference) (sym same),
              ap (λ (x : PayableOrder). x.total) (sym same),
              ap (λ (x : PayableOrder). x.payer) (sym same),
            )
      ]
    ]

pub asked-own :
    (order : PayableOrder) (o : Order) (order_reference n : ℕ)
    → order.order_reference ≡ o.order_reference
    → o.order_reference ≡ order_reference
    → order.total ≡ o.money.total
    → order.payer ≡ o.contact
    → asked order n ≡ record {
      order_reference = order_reference;
      attempt = n;
      amount = o.money.total;
      customer = o.contact;
    }
asked-own order o order_reference n e e' total payer = ground arith

-- A row of the payments stands for the session: that of its attempt, or one that was there before with
-- the identifier or the transaction that it would have.
abbrev pub IsRecorded : ℕ → ℕ → ℕ → OpenedCheckoutSession → Shop → Type 0
IsRecorded id order_id attempt session s =
    (p : CardPayment) × Has p s.card_payments
    × ((p.id ≡ id)
        ⊎ (p.transaction_id ≡ session.transaction_id)
        ⊎ ((p.order_id ≡ order_id) × (p.attempt ≡ attempt)))

any_row-Has :
    (q : CardPayment → Bool) (payments : List CardPayment)
    → any_row q payments ≡ true
    → (p : CardPayment) × Has p payments × (q p ≡ true)
any_row-Has q [] h = absurd (ground (arith, h))
any_row-Has q (p ∷ payments) h = elim (Bool-cases (q p)) [
  | inl this ↦ (p, inl refl, this)
  | inr other ↦
      let (x, there, e) = any_row-Has q payments (ground (arith, h, other)) in (x, inr there, e)
]

pub record_opened-IsRecorded :
    (id order_id attempt : ℕ) (session : OpenedCheckoutSession) (s : Shop)
    → IsRecorded id order_id attempt session (record_opened id order_id attempt session s)
unfolding record_opened
record_opened-IsRecorded id order_id attempt session s =
    let row : CardPayment = record {
      id = id;
      order_id = order_id;
      attempt = attempt;
      transaction_id = session.transaction_id;
      status = «open»;
      amount = session.amount;
      currency = session.currency;
      expires_at = session.expires_at;
    } in
    elim (Bool-cases (any_row (is_same_payment row) s.card_payments)) [
      | inl there ↦
          let (p, held, same) = any_row-Has (is_same_payment row) s.card_payments there in
          (p, rw there held, ground (arith, same))
      | inr new ↦
          (row, rw new (Has-append_right row s.card_payments (row ∷ []) (inl refl)), inl refl)
    ]

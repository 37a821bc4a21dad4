-- ===== src/Payments/Changes.antt =====
-- What each change of the orders does to the number of announced and of settled orders.
use vp_parts.Base.{
  ℕ, ◌+◌, ◌-◌, ◌≤◌, ◌≡◌, refl, subst, inl, inr, Bool, not, ◌&&◌, List, [], ◌∷◌, ◌++◌, arith,
  ℕ_discrete, ◌==◌, if◌then◌else◌, Bool-cases, update_where, count_where, any_row,
  count-update_where, count_where-append,
}
use vp_parts.Outbox.{OutboxEvent, append}
use vp_parts.Cart.Tables.{Result, ok}
use vp_parts.Orders.{
  NewOrder, Order, is_pending_payment, Shop, Drawn, WebhookDelivery, to_order_data, announce,
}
use vp_parts.Orders.Effects.{Result-cases, IsPlaced, announced_events}
use vp_parts.Payments.{
  ReportedAttempt, DeliveryEffect, is_awaiting, pay_order, confirm_change, once_for_delivery,
}
use vp_parts.Payments.Runs.{announcements, named, settled}

-- What one step keeps: an identifier names at most one order, and what is newly announced is newly
-- settled.
abbrev pub Keeps : ℕ → Shop → Shop → Type 0
Keeps k s s' =
    (named k s'.orders ≤ 1)
    × (settled k s'.orders
        ≡ settled k s.orders + (announcements k s'.outbox - announcements k s.outbox))

-- A step that leaves the orders and announces nothing.
pub quiet :
    (k : ℕ) (s s' : Shop)
    → s'.orders ≡ s.orders
    → announcements k s'.outbox ≤ announcements k s.outbox
    → named k s.orders ≤ 1
    → Keeps k s s'
quiet k s s' same fewer one = rw same (one, omega (arith, fewer))

pub announcements-append :
    (k order_id : ℕ) (drawn : Drawn) (events : List OutboxEvent)
    → announcements k (announced_events order_id drawn events)
      ≡ announcements k events + (if order_id == k then 1 else 0)
unfolding append
announcements-append k order_id drawn [] = ground arith
announcements-append k order_id drawn (e ∷ events) =
    ground (arith, announcements-append k order_id drawn events)

pub placed-Keeps :
    (k : ℕ) (n : NewOrder) (drawn : Drawn) (s s' : Shop)
    → named drawn.order_id s.orders ≡ 0
    → n.is_announced ≡ not (is_pending_payment n.initial_status)
    → IsPlaced n drawn s s'
    → named k s.orders ≤ 1
    → Keeps k s s'
unfolding to_order_data
placed-Keeps k n drawn s s' fresh told (orders, outbox) one =
    let o = to_order_data n drawn.order_id s.next_reference in
    let q = λ (x : Order). (x.id == k) && not (is_pending_payment x.status) in
    let more = count_where-append (λ (x : Order). x.id == k) s.orders (o ∷ []) in
    let more_settled = count_where-append q s.orders (o ∷ []) in
    let events = announcements-append k drawn.order_id drawn s.outbox in
    rw (orders, outbox)
      (elim (ℕ_discrete drawn.order_id k) [
        | yes e ↦
            let none_yet : named k s.orders ≡ 0 = rw (← e) fresh in
            ground (arith, more, more_settled, events, none_yet, told)
        | no other ↦ ground (arith, more, more_settled, events, told)
      ])

-- The rows of an order wait or are settled.
pub settled-split :
    (k : ℕ) (orders : List Order)
    → named k orders ≡ count_where (is_awaiting k) orders + settled k orders
settled-split k [] = refl
settled-split k (o ∷ orders) = ground (arith, settled-split k orders)

settled-pay :
    (k j transaction_id : ℕ) (orders : List Order)
    → settled k (update_where (is_awaiting j) (pay_order transaction_id) orders)
      ≡ settled k orders + (if j == k then count_where (is_awaiting k) orders else 0)
settled-pay k j t [] = ground arith
settled-pay k j t (o ∷ orders) = elim (ℕ_discrete j k) [
  | yes e ↦ ground (arith, settled-pay k j t orders, e)
  | no other ↦ ground (arith, settled-pay k j t orders)
]

count-awaiting-other :
    (k j : ℕ) (orders : List Order)
    → j ≡ k
    → count_where (is_awaiting k) orders ≡ count_where (is_awaiting j) orders
count-awaiting-other k j orders e = rw e refl

pub confirm_change-Keeps :
    (k : ℕ) (attempt : ReportedAttempt) (drawn : Drawn) (s s' : Shop) (b : Bool)
    → confirm_change attempt drawn s ≡ ok (b, s')
    → named k s.orders ≤ 1
    → Keeps k s s'
unfolding confirm_change announce
confirm_change-Keeps k attempt drawn s s' b h one =
    let j = attempt.order_id in
    let t = attempt.transaction_id in
    let awaiting = count_where (is_awaiting j) s.orders in
    let paid = update_where (is_awaiting j) (pay_order t) s.orders in
    let kept : named k paid ≡ named k s.orders =
      count-update_where (λ o. o.id == k) (is_awaiting j) (pay_order t) s.orders (λ o. refl) in
    let more = settled-pay k j t s.orders in
    let split = settled-split k s.orders in
    let events = announcements-append k j drawn s.outbox in
    elim (Bool-cases (any_row (λ p. p.id == attempt.id) s.card_payments)) [
      | inr missing ↦ ground (arith, missing, h)
      | inl there ↦ elim (ℕ_discrete awaiting 0) [
        | yes nothing ↦
            let orders : s'.orders ≡ paid = ground (arith, there, nothing, h) in
            let outbox : s'.outbox ≡ s.outbox = ground (arith, there, nothing, h) in
            rw (orders, outbox)
              (ground (arith, kept, more, split, nothing, one, count-awaiting-other k j s.orders))
        | no some_awaiting ↦
            let orders : s'.orders ≡ paid = ground (arith, there, some_awaiting, h) in
            let outbox : s'.outbox ≡ announced_events j drawn s.outbox =
              ground (arith, there, some_awaiting, h) in
            rw (orders, outbox)
              (ground (
                arith,
                kept,
                more,
                split,
                events,
                some_awaiting,
                one,
                count-awaiting-other k j s.orders,
              ))
      ]
    ]

-- The row of a delivery comes before its change.
pub once-Keeps :
    (k : ℕ) (delivery : WebhookDelivery) (change : Shop → Result (Bool × Shop)) (s s' : Shop)
    (e : DeliveryEffect)
    → ((t t' : Shop) (b : Bool)
        → t.orders ≡ s.orders
        → t.outbox ≡ s.outbox
        → change t ≡ ok (b, t')
        → Keeps k t t')
    → once_for_delivery delivery change s ≡ ok (e, s')
    → named k s.orders ≤ 1
    → Keeps k s s'
unfolding once_for_delivery
once-Keeps k delivery change s s' e keeps h one =
    let t = record s { deliveries = s.deliveries ++ delivery ∷ [] } in
    elim (Bool-cases (any_row (λ d. d.id == delivery.id) s.deliveries)) [
      | inl seen ↦
          let same : s' ≡ s = ground (arith, seen, h) in
          rw same (quiet k s s refl (omega arith) one)
      | inr new ↦ elim (Result-cases (change t)) [
        | inl ((b, t'), done) ↦
            let same : t' ≡ s' = ground (arith, new, done, h) in
            subst (Keeps k t) same (keeps t t' b refl refl done)
        | inr (x, thrown) ↦ ground (arith, new, thrown, h)
      ]
    ]

-- ===== src/Payments/Webhooks/Redelivery.antt =====
-- A webhook event that is delivered again.
use vp_parts.Base.{
  ℕ, ◌≡◌, subst, ◌⊎◌, inl, inr, Bool, true, ◌&&◌, List, [], ◌∷◌, ◌++◌, arith, ◌==◌, Bool-cases,
  Option-cases, any_row,
}
use vp_parts.Cart.Tables.{Result, ok, ◌>>=◌}
use vp_parts.Orders.{EventType, WebhookDelivery, Shop, Drawn, announce}
use vp_parts.Orders.Effects.{Result-cases}
use vp_parts.Payments.{
  ReportedAttempt, DeliveryEffect, find_reported_attempt, once_for_delivery, confirm_change,
  confirm_paid, close_change, close_attempt,
}
use vp_parts.Payments.Webhooks.{
  WebhookEvent, payment_currency, attempt_status_by_event, is_succeeded, confirm,
  apply_webhook_event,
}

abbrev pub has_delivery : ℕ → Shop → Bool
has_delivery id s = any_row (λ d. d.id == id) s.deliveries

recorded :
    (id : ℕ) (e : EventType) (deliveries : List WebhookDelivery)
    → any_row (λ d. d.id == id) (deliveries ++ record { id = id; event_type = e } ∷ []) ≡ true
recorded id e [] = ground arith
recorded id e (d ∷ deliveries) = ground (arith, recorded id e deliveries)

confirm_change-deliveries :
    (attempt : ReportedAttempt) (drawn : Drawn) (s s' : Shop) (b : Bool)
    → confirm_change attempt drawn s ≡ ok (b, s')
    → s'.deliveries ≡ s.deliveries
unfolding confirm_change announce
confirm_change-deliveries attempt drawn s s' b h = ground (arith, h)

-- The delivery is among those of the tables after.
once-records :
    (delivery : WebhookDelivery) (change : Shop → Result (Bool × Shop)) (s s' : Shop)
    (e : DeliveryEffect)
    → ((t t' : Shop) (b : Bool) → change t ≡ ok (b, t') → t'.deliveries ≡ t.deliveries)
    → once_for_delivery delivery change s ≡ ok (e, s')
    → has_delivery delivery.id s' ≡ true
unfolding once_for_delivery
once-records delivery change s s' e keeps h =
    let t = record s { deliveries = s.deliveries ++ delivery ∷ [] } in
    elim (Bool-cases (has_delivery delivery.id s)) [
      | inl seen ↦ ground (arith, seen, h)
      | inr new ↦ elim (Result-cases (change t)) [
        | inr (x, thrown) ↦ ground (arith, new, thrown, h)
        | inl ((b, t'), done) ↦
            let same : t' ≡ s' = ground (arith, new, done, h) in
            subst (λ u. has_delivery delivery.id u ≡ true) same
              (rw (keeps t t' b done) (recorded delivery.id delivery.event_type s.deliveries))
      ]
    ]

-- An event whose delivery is recorded changes nothing, whatever became of its payment.
seen-unchanged :
    (event : WebhookEvent) (drawn : Drawn) (s : Shop)
    → has_delivery event.id s ≡ true
    → apply_webhook_event event drawn s ≡ ok s
unfolding apply_webhook_event confirm confirm_paid close_attempt once_for_delivery
seen-unchanged event drawn s seen = elim (Option-cases (attempt_status_by_event event.event_type)) [
  | inl other ↦ ground (arith, other)
  | inr (status, outcome) ↦ elim (Option-cases (find_reported_attempt event.transaction_id s)) [
    | inl unknown ↦ ground (arith, outcome, unknown)
    | inr (attempt, known) ↦ ground (arith, outcome, known, seen)
  ]
]

abbrev pub in_full : ReportedAttempt → WebhookEvent → Bool
in_full attempt event =
    (event.amount == attempt.order_total) && (event.currency == payment_currency)

kept :
    (delivery : WebhookDelivery) (change : Shop → Result (Bool × Shop)) (s s' : Shop)
    → ((t t' : Shop) (b : Bool) → change t ≡ ok (b, t') → t'.deliveries ≡ t.deliveries)
    → once_for_delivery delivery change s >>= (λ r. ok r.1) ≡ ok s'
    → has_delivery delivery.id s' ≡ true
kept delivery change s s' keeps h = elim (Result-cases (once_for_delivery delivery change s)) [
  | inl ((e, t), done) ↦
      let same : t ≡ s' = ground (arith, done, h) in
      subst (λ u. has_delivery delivery.id u ≡ true) same
        (once-records delivery change s t e keeps done)
  | inr (x, thrown) ↦ ground (arith, thrown, h)
]

-- An event was recorded, or passed over whatever the database draws.
recorded_or_passed :
    (event : WebhookEvent) (drawn : Drawn) (s s' : Shop)
    → apply_webhook_event event drawn s ≡ ok s'
    → (has_delivery event.id s' ≡ true)
      ⊎ ((s' ≡ s) × ((again : Drawn) → apply_webhook_event event again s ≡ ok s))
unfolding apply_webhook_event confirm confirm_paid close_attempt close_change
recorded_or_passed event drawn s s' h =
    elim (Option-cases (attempt_status_by_event event.event_type)) [
      | inl other ↦ inr (ground (arith, other, h), λ again. ground (arith, other))
      | inr (status, outcome) ↦ elim (Option-cases (find_reported_attempt event.transaction_id s)) [
        | inl unknown ↦
            inr (ground (arith, outcome, unknown, h), λ again. ground (arith, outcome, unknown))
        | inr (attempt, known) ↦
            let delivery : WebhookDelivery = record {
              id = event.id;
              event_type = event.event_type;
            } in
            elim (Bool-cases (is_succeeded status)) [
              | inl paid ↦ elim (Bool-cases (in_full attempt event)) [
                | inl whole ↦ inl (
                    kept delivery (confirm_change attempt drawn) s s'
                      (confirm_change-deliveries attempt drawn)
                      (ground (arith, outcome, known, paid, whole, h)))
                | inr part ↦ inr (
                  ground (arith, outcome, known, paid, part, h),
                  λ again. ground (arith, outcome, known, paid, part),
                )
              ]
              | inr ended ↦ inl (
                  kept delivery (close_change attempt.id status) s s'
                    (λ t t' b done. ground (arith, done))
                    (ground (arith, outcome, known, ended, h)))
            ]
      ]
    ]

-- A webhook event that is delivered again, whatever the database draws then, changes nothing: the
-- tables after both deliveries are those after the first. The first delivery went through.
pub apply_webhook_event_twice :
    (event : WebhookEvent) (drawn again : Drawn) (s s' : Shop)
    → apply_webhook_event event drawn s ≡ ok s'
    → apply_webhook_event event again s' ≡ ok s'
apply_webhook_event_twice event drawn again s s' h = elim (recorded_or_passed event drawn s s' h) [
  | inl seen ↦ seen-unchanged event again s' seen
  | inr (same, passed) ↦ rw same (passed again)
]

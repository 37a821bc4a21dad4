-- ===== src/Payments/Once.antt =====
-- That every order is announced once, however the operations follow each other.
use vp_parts.Base.{
  ℕ, ◌≤◌, ◌≡◌, refl, ap, ◌∙◌, ◌≢◌, inl, inr, Bool, ◌&&◌, none, some, List, [], ◌∷◌, arith, ◌==◌,
  if◌then◌else◌, Option-cases, contains, find_row, count-update_where, count-keep_if-le,
}
use vp_parts.Outbox.{
  OutboxEvent, NewOutboxEvent, ClaimOptions, append, due_ids, claim_row, claim_due, held_by,
  push_handler, reschedule, record_handler_done, delete_delivered, schedule_retry,
}
use vp_parts.Orders.{Order, is_pending_payment, Shop, order_placed}
use vp_parts.Orders.Effects.{place-effect}
use vp_parts.Payments.{
  OpenedCheckoutSession, record_opened, mark_failed, confirm_change, confirm_paid, close_change,
  close_attempt,
}
use vp_parts.Payments.Runs.{
  announcements, named, settled, ShopStep, places, confirms, closes, opens, fails, changes_carts,
  appends_other, claims, records, deletes, retries, Run, here, next,
}
use vp_parts.Payments.Changes.{
  Keeps, quiet, placed-Keeps, settled-split, confirm_change-Keeps, once-Keeps,
}

announcements-claim :
    (k : ℕ) (o : ClaimOptions) (locked : ℕ → Bool) (tokens : ℕ → ℕ) (events : List OutboxEvent)
    → announcements k (claim_due o locked tokens events).1 ≡ announcements k events
unfolding claim_due claim_row
announcements-claim k o locked tokens events =
    count-update_where (λ (x : OutboxEvent). (x.event_type == order_placed) && (x.payload == k))
      (λ r. contains (due_ids o locked events) r.id) (claim_row o tokens) events (λ x. refl)

announcements-other :
    (k : ℕ) (event : NewOutboxEvent) (id now : ℕ) (events : List OutboxEvent)
    → event.event_type ≢ order_placed
    → announcements k (append event id now events) ≡ announcements k events
unfolding append
announcements-other k event id now [] other = ground arith
announcements-other k event id now (e ∷ events) other =
    ground (arith, announcements-other k event id now events other)

record_opened-orders :
    (id order_id attempt : ℕ) (session : OpenedCheckoutSession) (s : Shop)
    → (record_opened id order_id attempt session s).orders ≡ s.orders
unfolding record_opened
record_opened-orders id order_id attempt session s = ground arith

record_opened-outbox :
    (id order_id attempt : ℕ) (session : OpenedCheckoutSession) (s : Shop)
    → (record_opened id order_id attempt session s).outbox ≡ s.outbox
unfolding record_opened
record_opened-outbox id order_id attempt session s = ground arith

step-Keeps : (k : ℕ) (s t : Shop) → ShopStep s t → named k s.orders ≤ 1 → Keeps k s t
unfolding confirm_paid close_attempt close_change record_opened mark_failed record_handler_done
    delete_delivered schedule_retry
step-Keeps k s t (places n drawn p s' fresh told h) one = elim (place-effect n drawn s s' p h) [
  | inl same ↦ rw same (quiet k s s refl (omega arith) one)
  | inr done ↦ placed-Keeps k n drawn s s' fresh told done one
]
step-Keeps k s t (confirms delivery attempt drawn e s' h) one =
    once-Keeps k delivery (confirm_change attempt drawn) s s' e
      (λ u u' b orders outbox done.
        confirm_change-Keeps k attempt drawn u u' b done (rw orders one))
      h one
step-Keeps k s t (closes delivery attempt_id status e s' h) one =
    once-Keeps k delivery (close_change attempt_id status) s s' e
      (λ u u' b orders outbox done.
        quiet k u u' (ground (arith, done)) (ground (arith, done)) (rw orders one))
      h one
step-Keeps k s t (opens id order_id attempt session) one =
    quiet k s t (record_opened-orders id order_id attempt session s)
      (omega (arith, ap (announcements k) (record_opened-outbox id order_id attempt session s))) one
step-Keeps k s t (fails order_id attempt) one = quiet k s t refl (omega arith) one
step-Keeps k s t (changes_carts tables) one = quiet k s t refl (omega arith) one
step-Keeps k s t (appends_other event id now other) one =
    quiet k s t refl (omega (arith, announcements-other k event id now s.outbox other)) one
step-Keeps k s t (claims o locked tokens) one =
    quiet k s t refl (omega (arith, announcements-claim k o locked tokens s.outbox)) one
step-Keeps k s t (records lease name) one =
    quiet k s t refl
      (omega (
        arith,
        count-update_where (λ (x : OutboxEvent). (x.event_type == order_placed) && (x.payload == k))
            (held_by lease) (push_handler name) s.outbox (λ x. refl),
      ))
      one
step-Keeps k s t (deletes lease) one = quiet k s t refl (count-keep_if-le _ _ s.outbox) one
step-Keeps k s t (retries lease available_at error) one =
    quiet k s t refl
      (omega (
        arith,
        count-update_where (λ (x : OutboxEvent). (x.event_type == order_placed) && (x.payload == k))
            (held_by lease) (reschedule available_at error) s.outbox (λ x. refl),
      ))
      one

Run-Keeps :
    (k : ℕ) (start : Shop) (n : ℕ) (s : Shop)
    → start.orders ≡ []
    → Run k start n s
    → (named k s.orders ≤ 1) × (n ≡ settled k s.orders)
Run-Keeps k start n s empty here = rw empty (omega arith, refl)
Run-Keeps k start n s empty (next {n = m} {s = t} run step) =
    let (one, told) = Run-Keeps k start m t empty run in
    let (one', told') = step-Keeps k t s step one in (one', omega (arith, told, told'))

settled-found :
    (k : ℕ) (o : Order) (orders : List Order)
    → named k orders ≤ 1
    → find_row (λ x. x.id == k) orders ≡ some o
    → settled k orders ≡ (if is_pending_payment o.status then 0 else 1)
settled-found k o [] one h = cc
settled-found k o (x ∷ xs) one h = ground (arith, settled-found k o xs, settled-split k xs)

named-missing :
    (k : ℕ) (orders : List Order) → find_row (λ o. o.id == k) orders ≡ none → named k orders ≡ 0
named-missing k [] h = refl
named-missing k (x ∷ xs) h = ground (arith, named-missing k xs)

-- Every order is announced exactly once, or not yet. Whatever placements, payments, webhook
-- deliveries, relays' writes and changes of carts happen, in whatever order, from a shop without
-- orders: an order that waits for its payment has not been announced, an order that does not wait
-- for it has been announced once, and an order that is not there has never been.
pub order_announced_once :
    (k : ℕ) (start : Shop) (n : ℕ) (s : Shop)
    → start.orders ≡ []
    → Run k start n s
    → n ≡ (elim (find_row (λ o. o.id == k) s.orders) [
      | none ↦ 0
      | some o ↦ if is_pending_payment o.status then 0 else 1
    ])
order_announced_once k start n s empty run =
    let (one, told) = Run-Keeps k start n s empty run in
    elim (Option-cases (find_row (λ (o : Order). o.id == k) s.orders)) [
      | inl missing ↦
          let nowhere = named-missing k s.orders missing in
          rw missing (omega (arith, told, settled-split k s.orders, nowhere))
      | inr (o, found) ↦ rw found (told ∙ settled-found k o s.orders one found)
    ]

-- ===== src/Orders/Effects.antt =====
-- What a placement does to the orders and the outbox, by inversion of its outcome.
use vp_parts.Base.{
  ℕ, ◌≡◌, refl, ◌⊎◌, inl, inr, true, ◌&&◌, Option, none, some, List, [], ◌∷◌, ◌++◌, arith, ◌==◌,
  if◌then◌else◌, Bool-cases, Option-cases,
}
use vp_parts.Outbox.{OutboxEvent, append}
use vp_parts.Cart.Tables.{CartError, Result, ok, err, LockedCart, is_active, lock_cart}
use vp_parts.Cart.Lifecycle.{close_for_order}
use vp_parts.Orders.{
  NewOrder, OrderReference, OrderPlacement, placed, replayed, stale, Shop, Drawn, find_reference,
  order_placed, to_order_data, create_order, announce, place, place_open, replay_order,
}

pub Result-cases {ℓ} :
    {A : Type ℓ} (r : Result A) → ((a : A) × (r ≡ ok a)) ⊎ ((e : CartError) × (r ≡ err e))
Result-cases (ok a) = inl (a, refl)
Result-cases (err e) = inr (e, refl)

-- The events after an announcement.
abbrev pub announced_events : ℕ → Drawn → List OutboxEvent → List OutboxEvent
announced_events order_id drawn events =
    append (record { event_type = order_placed; payload = order_id }) drawn.event_id drawn.now
      events

-- The order and, if it is announced, its event are written; nothing else of the two tables is.
abbrev pub IsPlaced : NewOrder → Drawn → Shop → Shop → Type 0
IsPlaced n drawn s s' =
    (s'.orders ≡ s.orders ++ to_order_data n drawn.order_id s.next_reference ∷ [])
    × (s'.outbox
        ≡ (if n.is_announced then announced_events drawn.order_id drawn s.outbox else s.outbox))

pub place_open-effect :
    (n : NewOrder) (drawn : Drawn) (token : Option ℕ) (s s' : Shop) (p : OrderPlacement)
    → place_open n drawn token s ≡ ok (p, s')
    → IsPlaced n drawn s s'
unfolding place_open create_order announce
place_open-effect n drawn token s s' p h =
    let created = create_order n drawn.order_id s in
    let announced = if n.is_announced then announce drawn.order_id drawn created else created in
    elim (Result-cases (
      close_for_order
        (record {
          cart_id = n.cart_id;
          order_id = drawn.order_id;
          customer_id = n.customer_id;
          token = token;
        })
        drawn.cart_id drawn.now announced.cart_tables)) [
          | inl (carts, e) ↦ ground (arith, e, h)
          | inr (x, e) ↦ ground (arith, e, h)
        ]

-- A placement places the order or changes nothing.
pub place-effect :
    (n : NewOrder) (drawn : Drawn) (s s' : Shop) (p : OrderPlacement)
    → place n drawn s ≡ ok (p, s')
    → (s' ≡ s) ⊎ IsPlaced n drawn s s'
unfolding place replay_order
place-effect n drawn s s' p h = elim (Option-cases (lock_cart n.cart_id s.cart_tables)) [
  | inl missing ↦ ground (arith, missing, h)
  | inr (cart, there) ↦ elim (Option-cases cart.order_id) [
    | inr (order_id, ordered) ↦ ground (arith, there, ordered, h)
    | inl free ↦ elim (Bool-cases (is_active cart.status && (cart.version == n.cart_version))) [
      | inl fits ↦
          inr (place_open-effect n drawn cart.token s s' p (ground (arith, there, free, fits, h)))
      | inr other ↦ ground (arith, there, free, other, h)
    ]
  ]
]

place_open-answer :
    (n : NewOrder) (drawn : Drawn) (token : Option ℕ) (s s' : Shop) (p : OrderPlacement)
    → place_open n drawn token s ≡ ok (p, s')
    → p ≡ placed (record { id = drawn.order_id; order_reference = s.next_reference })
unfolding place_open
place_open-answer n drawn token s s' p h =
    let created = create_order n drawn.order_id s in
    let announced = if n.is_announced then announce drawn.order_id drawn created else created in
    elim (Result-cases (
      close_for_order
        (record {
          cart_id = n.cart_id;
          order_id = drawn.order_id;
          customer_id = n.customer_id;
          token = token;
        })
        drawn.cart_id drawn.now announced.cart_tables)) [
          | inl (carts, e) ↦ ground (arith, e, h)
          | inr (x, e) ↦ ground (arith, e, h)
        ]

replay_order-answer :
    (k : ℕ) (s s' : Shop) (p : OrderPlacement)
    → replay_order k s ≡ ok (p, s')
    → (r : OrderReference) × (p ≡ replayed r) × (s' ≡ s)
unfolding replay_order
replay_order-answer k s s' p h = elim (Option-cases (find_reference k s)) [
  | inl missing ↦ absurd (ground (arith, missing, h))
  | inr (r, known) ↦ (r, ground (arith, known, h), ground (arith, known, h))
]

-- What the transaction does, by its answer: a replay and a stale cart change nothing, and an order is
-- placed from a cart that is open, free and at the version that was priced.
pub place-cases :
    (n : NewOrder) (drawn : Drawn) (s s' : Shop) (p : OrderPlacement)
    → place n drawn s ≡ ok (p, s')
    → ((r : OrderReference) × (p ≡ replayed r) × (s' ≡ s))
      ⊎ (p ≡ stale)
      ⊎ ((c : LockedCart) × (lock_cart n.cart_id s.cart_tables ≡ some c)
          × (c.order_id ≡ none)
          × (is_active c.status ≡ true)
          × (c.version ≡ n.cart_version)
          × (p ≡ placed (record { id = drawn.order_id; order_reference = s.next_reference }))
          × IsPlaced n drawn s s')
unfolding place
place-cases n drawn s s' p h = elim (Option-cases (lock_cart n.cart_id s.cart_tables)) [
  | inl missing ↦ inr (inl (ground (arith, missing, h)))
  | inr (cart, there) ↦ elim (Option-cases cart.order_id) [
    | inr (k, ordered) ↦ inl (replay_order-answer k s s' p (ground (arith, there, ordered, h)))
    | inl free ↦ elim (Bool-cases (is_active cart.status && (cart.version == n.cart_version))) [
      | inr other ↦ inr (inl (ground (arith, there, free, other, h)))
      | inl fits ↦
          let opened : place_open n drawn cart.token s ≡ ok (p, s') =
            ground (arith, there, free, fits, h) in
          inr (
            inr (
              cart,
              there,
              free,
              ground (arith, fits),
              ground (arith, fits),
              place_open-answer n drawn cart.token s s' p opened,
              place_open-effect n drawn cart.token s s' p opened,
            ))
    ]
  ]
]

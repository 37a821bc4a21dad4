-- ===== src/Orders.antt =====
-- Orders as they are stored, and their placement: apps/api/src/orders/orders.repository.ts, on the
-- tables of apps/api/prisma/schema.prisma that one transaction may change together.
-- An order's reference is the number that its text `VP-ORD-…` shows. Texts that are only stored or
-- compared are numbers, as is the JSON of a delivery's destination. Identifiers that the database
-- draws are arguments. A transaction that throws leaves the tables as they were, so an error
-- carries no tables (the sequence of order numbers, which is not rolled back, then has a gap).
mod Tables
pub mod Effects
mod Examples
pub mod Placement
pub mod Service
pub use Tables.*
use vp_parts.Base.{
  ℕ, ◌+◌, ◌*◌, ◌&&◌, Option, none, some, [], ◌∷◌, ◌++◌, ◌==◌, if◌then◌else◌, find_row,
}
use vp_parts.Outbox.{OutboxEvent, append}
use vp_parts.Cart.Tables.{
  Cart, CartStatus, Carts, LockedCart, Result, ok, err, ◌>>=◌, record_not_found, is_active,
  lock_cart,
}
use vp_parts.Cart.Lifecycle.{CartOrderClosure, close_for_order}

-- `ORDER_PLACED`
abbrev pub order_placed : ℕ
order_placed = 1

abbrev pub reference_only : Order → OrderReference
reference_only o = record { id = o.id; order_reference = o.order_reference }

unfoldable pub find_reference : ℕ → Shop → Option OrderReference
find_reference order_id s = elim (find_row (λ o. o.id == order_id) s.orders) [
  | none ↦ none
  | some o ↦ some (reference_only o)
]

unfoldable pub to_order_data : NewOrder → ℕ → ℕ → Order
to_order_data n id order_reference = record {
  id = id;
  order_reference = order_reference;
  customer_id = n.customer_id;
  cart_id = n.cart_id;
  status = n.initial_status;
  delivery = n.delivery;
  money = n.money;
  payment_method = n.payment_method;
  payment_reference = none;
  contact = n.contact;
  terms_version = n.terms_version;
  items = n.items;
}

unfoldable pub create_order : NewOrder → ℕ → Shop → Shop
unfolding to_order_data
create_order n order_id s = record s {
  orders = s.orders ++ to_order_data n order_id s.next_reference ∷ [];
  status_history =
      s.status_history
      ++ record { order_id = order_id; status = n.initial_status; source = from_shop } ∷ [];
  next_reference = s.next_reference + 1;
}

unfoldable pub announce : ℕ → Drawn → Shop → Shop
unfolding append
announce order_id drawn s = record s {
  outbox =
      append (record { event_type = order_placed; payload = order_id }) drawn.event_id drawn.now
        s.outbox;
}

-- The rest of the transaction, on a cart that may be ordered from.
unfoldable pub place_open : NewOrder → Drawn → Option ℕ → Shop → Result (OrderPlacement × Shop)
unfolding create_order announce close_for_order
place_open n drawn token s =
    let created = create_order n drawn.order_id s in
    let announced = if n.is_announced then announce drawn.order_id drawn created else created in
    close_for_order
      (record {
        cart_id = n.cart_id;
        order_id = drawn.order_id;
        customer_id = n.customer_id;
        token = token;
      })
      drawn.cart_id drawn.now announced.cart_tables
    >>= (λ carts. ok (
      placed (record { id = drawn.order_id; order_reference = s.next_reference }),
      record announced { cart_tables = carts },
    ))

-- `findUniqueOrThrow` for the order that a cart names.
unfoldable pub replay_order : ℕ → Shop → Result (OrderPlacement × Shop)
unfolding find_reference
replay_order order_id s = elim (find_reference order_id s) [
  | none ↦ err record_not_found
  | some r ↦ ok (replayed r, s)
]

unfoldable pub place : NewOrder → Drawn → Shop → Result (OrderPlacement × Shop)
unfolding lock_cart replay_order place_open
place n drawn s = elim (lock_cart n.cart_id s.cart_tables) [
  | none ↦ ok (stale, s)
  | some cart ↦ elim cart.order_id [
    | some order_id ↦ replay_order order_id s
    | none ↦
        if is_active cart.status && (cart.version == n.cart_version)
        then place_open n drawn cart.token s
        else ok (stale, s)
  ]
]

-- ===== src/Orders/Placement.antt =====
-- What a placement answers and leaves, and what a second one for the same cart does.
use vp_parts.Base.{
  ℕ, ◌≡◌, refl, ◌∙◌, ◌≢◌, inl, inr, true, false, ◌&&◌, none, some, [], ◌∷◌, ◌++◌, arith, ◌==◌,
  if◌then◌else◌, Option-cases, find_row, count_where, find_row-append,
}
use vp_parts.Cart.Tables.{Cart, Carts, ok, is_active, in_cart, lock_cart, find_by_id}
use vp_parts.Cart.Lifecycle.{CartOrderClosure, close_cart, close_for_order}
use vp_parts.Cart.Lifecycle.Closing.{close_for_order_splits}
use vp_parts.Orders.{
  NewOrder, Order, placed, replayed, stale, OrderReference, Shop, Drawn, to_order_data,
  create_order, announce, place, place_open, replay_order, find_reference,
}
use vp_parts.Orders.Effects.{announced_events}

-- What the transaction relies on: the cart is there, and what the database draws is new.
abbrev pub IsPlaceable : NewOrder → Drawn → Shop → Cart → Type 0
IsPlaceable n drawn s c =
    (find_by_id n.cart_id s.cart_tables ≡ some c)
    × (find_by_id drawn.cart_id s.cart_tables ≡ none)
    × (count_where (in_cart drawn.cart_id) s.cart_tables.items ≡ 0)
    × (find_reference drawn.order_id s ≡ none)

abbrev closure : NewOrder → Drawn → Cart → CartOrderClosure
closure n drawn c = record {
  cart_id = n.cart_id;
  order_id = drawn.order_id;
  customer_id = n.customer_id;
  token = c.token;
}

abbrev answer : Drawn → Shop → OrderReference
answer drawn s = record { id = drawn.order_id; order_reference = s.next_reference }

-- The shop after a placement that left the carts at `carts`.
abbrev placed_shop : NewOrder → Drawn → Shop → Carts → Shop
placed_shop n drawn s carts = record (create_order n drawn.order_id s) {
  outbox = if n.is_announced then announced_events drawn.order_id drawn s.outbox else s.outbox;
  cart_tables = carts;
}

open-placed :
    (n : NewOrder) (drawn : Drawn) (s : Shop) (c : Cart) (carts : Carts)
    → close_for_order (closure n drawn c) drawn.cart_id drawn.now s.cart_tables ≡ ok carts
    → place_open n drawn c.token s ≡ ok (placed (answer drawn s), placed_shop n drawn s carts)
unfolding place_open create_order announce
open-placed n drawn s c carts e = ground (arith, e)

locks :
    (cart_id : ℕ) (s : Carts) (c : Cart)
    → find_by_id cart_id s ≡ some c
    → lock_cart cart_id s
      ≡ some (record {
        status = c.status;
        version = c.version;
        order_id = c.order_id;
        token = c.token;
      })
unfolding lock_cart find_by_id
locks cart_id s c e = ground (arith, e)

find-created :
    (n : NewOrder) (order_id : ℕ) (s : Shop)
    → find_reference order_id s ≡ none
    → find_reference order_id (create_order n order_id s)
      ≡ some (record { id = order_id; order_reference = s.next_reference })
unfolding find_reference create_order to_order_data
find-created n order_id s e =
    let missing : find_row (λ (o : Order). o.id == order_id) s.orders ≡ none = ground (arith, e) in
    ground (
      arith,
      find_row-append (λ (o : Order). o.id == order_id) s.orders
          (to_order_data n order_id s.next_reference ∷ []) missing,
    )

pub place_outcomes :
    (n : NewOrder) (drawn : Drawn) (s : Shop) (c : Cart)
    → IsPlaceable n drawn s c
    → ((k : ℕ) (r : OrderReference)
        → c.order_id ≡ some k
        → find_reference k s ≡ some r
        → place n drawn s ≡ ok (replayed r, s))
      × (c.order_id ≡ none
          → is_active c.status && (c.version == n.cart_version) ≡ false
          → place n drawn s ≡ ok (stale, s))
      × (c.order_id ≡ none
          → is_active c.status && (c.version == n.cart_version) ≡ true
          → (s' : Shop) × (place n drawn s ≡ ok (placed (answer drawn s), s'))
            × (s'.orders ≡ s.orders ++ to_order_data n drawn.order_id s.next_reference ∷ [])
            × (s'.outbox ≡ (
                if n.is_announced
                then announced_events drawn.order_id drawn s.outbox
                else s.outbox))
            × (find_by_id n.cart_id s'.cart_tables ≡ some (close_cart (closure n drawn c) c))
            × (find_reference drawn.order_id s' ≡ some (answer drawn s)))
unfolding place replay_order create_order find_reference
place_outcomes n drawn s c (there, free, fresh, new) =
    let locked = locks n.cart_id s.cart_tables c there in
    (
      λ k r ordered known. ground (arith, locked, ordered, known),
      λ unordered other. ground (arith, locked, unordered, other),
      λ unordered fits.
          let (carts, closed, after, _, _, _, _) =
            close_for_order_splits (closure n drawn c) drawn.cart_id drawn.now s.cart_tables c
              (there, free, fresh) in
          (
            placed_shop n drawn s carts,
            ground (arith, locked, unordered, fits, open-placed n drawn s c carts closed),
            refl,
            refl,
            after,
            find-created n drawn.order_id s new,
          ),
    )

-- A second placement for a cart that names an order.
second :
    (m : NewOrder) (again : Drawn) (s : Shop) (c : Cart) (k : ℕ) (r : OrderReference)
    → find_by_id m.cart_id s.cart_tables ≡ some c
    → c.order_id ≡ some k
    → find_reference k s ≡ some r
    → place m again s ≡ ok (replayed r, s)
unfolding place replay_order
second m again s c k r there ordered known =
    ground (arith, locks m.cart_id s.cart_tables c there, ordered, known)

answered :
    (n : NewOrder) (drawn : Drawn) (s s' t : Shop) (r : OrderReference)
    → place n drawn s ≡ ok (placed (answer drawn s), t)
    → place n drawn s ≡ ok (placed r, s')
    → answer drawn s ≡ r
answered n drawn s s' t r done e = ground (arith, done, e)

replay-none : (k : ℕ) (s s' : Shop) (r : OrderReference) → replay_order k s ≢ ok (placed r, s')
unfolding replay_order
replay-none k s s' r h = ground (arith, h)

-- Only an open cart's placement places.
placed-fits :
    (n : NewOrder) (drawn : Drawn) (s s' : Shop) (c : Cart) (r : OrderReference)
    → IsPlaceable n drawn s c
    → place n drawn s ≡ ok (placed r, s')
    → (c.order_id ≡ none) × (is_active c.status && (c.version == n.cart_version) ≡ true)
unfolding place
placed-fits n drawn s s' c r h e =
    let locked = locks n.cart_id s.cart_tables c h.0 in
    elim (Option-cases c.order_id) [
      | inr (k, ordered) ↦ absurd (replay-none k s s' r (ground (arith, locked, ordered, e)))
      | inl unordered ↦ ground (arith, locked, unordered, e)
    ]

-- Two requests for one cart end in one order: once a placement has placed an order, any further
-- placement for its cart, whatever it asks for, answers that order and changes nothing. The cart
-- was there, and the identifiers drawn for the first were new.
pub place_twice :
    (n m : NewOrder) (drawn again : Drawn) (s s' : Shop) (c : Cart) (r : OrderReference)
    → IsPlaceable n drawn s c
    → place n drawn s ≡ ok (placed r, s')
    → m.cart_id ≡ n.cart_id
    → place m again s' ≡ ok (replayed r, s')
place_twice n m drawn again s s' c r h e same =
    let (replays, stales, places) = place_outcomes n drawn s c h in
    let (unordered, fits) = placed-fits n drawn s s' c r h e in
    let (t, done, _, _, after, known) = places unordered fits in
    let there : t ≡ s' = ground (arith, done, e) in
    second m again s' (close_cart (closure n drawn c) c) drawn.order_id (answer drawn s)
      (rw (same, ← there) after) refl (rw (← there) known)
    ∙ rw (answered n drawn s s' t r done e) refl

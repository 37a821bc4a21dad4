-- ===== src/Orders/Service/Answers.antt =====
-- What an answer of placing says.
use vp_parts.Base.{
  ◌*◌, ◌<◌, ◌≡◌, refl, sym, ap, ◌∙◌, ◌⊎◌, inl, inr, Bool, true, false, not, ◌&&◌, none, some, List,
  [], ◌∷◌, ◌++◌, map, arith, ◌==◌, if◌then◌else◌, count_where, AllPairs, AllPairs-map,
}
use vp_parts.Cart.Tables.{LockedCart, is_active, lock_cart}
use vp_parts.Orders.{
  NewOrderItem, is_pending_payment, Order, OrderReference, Shop, Drawn, to_order_data, place,
}
use vp_parts.Orders.Effects.{Result-cases, announced_events, place-cases}
use vp_parts.Orders.Service.Inversion.{placing-inversion}
use vp_parts.Orders.Service.{
  PricedOrderLine, PricedOrder, CartForOrder, PlaceOrderRequest, PlacedOrder, Placing, answers,
  Orderer, is_awaiting_confirmation, count_awaiting_confirmation, admit, to_order_item,
  to_new_order, settle, place_from_cart,
}

-- An item of an order, for the line that was priced.
abbrev pub IsItemOf : PricedOrderLine → NewOrderItem → Type 0
IsItemOf line item =
    (item.brand_id ≡ line.brand_id)
    × (item.article_number ≡ line.article_number)
    × (item.brand_name ≡ line.brand_name)
    × (item.description ≡ line.description)
    × (item.thumbnail_url ≡ line.thumbnail_url)
    × (item.quantity ≡ line.quantity)
    × (item.unit_price ≡ line.unit_price)
    × (item.line_total ≡ line.unit_price * line.quantity)

items-IsItemOf : (lines : List PricedOrderLine) → AllPairs IsItemOf lines (map to_order_item lines)
unfolding to_order_item
items-IsItemOf lines =
    AllPairs-map IsItemOf to_order_item lines
      (λ line. (refl, refl, refl, refl, refl, refl, refl, refl))

-- The stored order is the orderer's, from the cart, at the checkout's prices.
abbrev pub IsOrderOf :
    CartForOrder → PlaceOrderRequest → Orderer → PricedOrder → OrderReference → Order → Type 0
IsOrderOf cart request orderer priced r o =
    (o.id ≡ r.id)
    × (o.order_reference ≡ r.order_reference)
    × (o.cart_id ≡ cart.id)
    × (o.customer_id ≡ orderer.customer_id)
    × (o.contact ≡ orderer.contact)
    × (o.status ≡ orderer.initial_status)
    × (o.payment_method ≡ request.payment_method)
    × (o.payment_reference ≡ none)
    × (o.delivery ≡ priced.delivery)
    × (o.money ≡ priced.money)
    × (o.money.total ≡ request.expected_total_cents)
    × AllPairs IsItemOf priced.lines o.items

-- Who orders without an account has passed the bot check, and has fewer orders waiting for a call
-- than a phone number may.
abbrev pub IsAdmitted : Orderer → Bool → Shop → Type 0
IsAdmitted orderer is_human before =
    orderer.admits ≡ true
    → (is_human ≡ true)
      × (count_where
            (λ o. (o.contact.phone == orderer.contact.phone) && is_awaiting_confirmation o.status)
            before.orders
          < 3)

admit-IsAdmitted :
    (orderer : Orderer) (is_human : Bool) (before : Shop)
    → admit orderer is_human before ≡ none
    → IsAdmitted orderer is_human before
unfolding admit count_awaiting_confirmation
admit-IsAdmitted orderer is_human before h admits = ground (arith, h, admits)

-- One order is written, last, and its announcement unless it waits for its payment.
abbrev pub IsWritten :
    CartForOrder
    → PlaceOrderRequest
    → Orderer
    → PricedOrder
    → Drawn
    → OrderReference
    → Shop
    → Shop
    → Type 0
IsWritten cart request orderer priced drawn r s s' =
    ((o : Order) × (s'.orders ≡ s.orders ++ o ∷ []) × IsOrderOf cart request orderer priced r o)
    × (s'.outbox ≡ (
        if is_pending_payment orderer.initial_status
        then s.outbox
        else announced_events r.id drawn s.outbox))
    × (locked : LockedCart) × (lock_cart cart.id s.cart_tables ≡ some locked)
    × (locked.order_id ≡ none)
    × (is_active locked.status ≡ true)
    × (locked.version ≡ request.cart_version)

-- A replay that changes nothing, or a new order at what the customer saw.
abbrev pub IsAnswered :
    CartForOrder
    → PlaceOrderRequest
    → Orderer
    → Bool
    → Placing PricedOrder
    → Drawn
    → Shop
    → Shop
    → PlacedOrder
    → Shop
    → Type 0
IsAnswered cart request orderer is_human prices drawn before s p s' =
    ((p.is_replay ≡ true) × (s' ≡ s))
    ⊎ ((p.is_replay ≡ false)
        × IsAdmitted orderer is_human before
        × (priced : PricedOrder) × (prices ≡ answers priced)
        × IsWritten cart request orderer priced drawn p.order s s')

if_not {ℓ} : {A : Type ℓ} (b : Bool) (x y : A) → (if not b then x else y) ≡ (if b then y else x)
if_not true x y = refl
if_not false x y = refl

settled :
    (cart : CartForOrder) (request : PlaceOrderRequest) (orderer : Orderer) (priced : PricedOrder)
    (drawn : Drawn) (s s' : Shop) (p : PlacedOrder)
    → cart.version ≡ request.cart_version
    → priced.money.total ≡ request.expected_total_cents
    → settle (place (to_new_order cart request orderer priced) drawn s) ≡ answers (p, s')
    → ((p.is_replay ≡ true) × (s' ≡ s))
      ⊎ ((p.is_replay ≡ false) × IsWritten cart request orderer priced drawn p.order s s')
unfolding settle to_new_order to_order_data
settled cart request orderer priced drawn s s' p version total h =
    let n = to_new_order cart request orderer priced in
    elim (Result-cases (place n drawn s)) [
      | inr (e, thrown) ↦ absurd (ground (arith, thrown, h))
      | inl ((q, t), done) ↦ elim (place-cases n drawn s t q done) [
        | inl (r, replays, same) ↦ inl (ground (arith, done, replays, same, h))
        | inr (inl stales) ↦ absurd (ground (arith, done, stales, h))
        | inr (inr (locked, there, free, open_cart, at, places, (orders, outbox))) ↦
            let whole : t ≡ s' = ground (arith, done, places, h) in
            let answered : p ≡ record {
              order = record { id = drawn.order_id; order_reference = s.next_reference };
              is_replay = false;
            } =
              ground (arith, done, places, h) in
            let id : p.order.id ≡ drawn.order_id = ap (λ (x : PlacedOrder). x.order.id) answered in
            let reference : p.order.order_reference ≡ s.next_reference =
              ap (λ (x : PlacedOrder). x.order.order_reference) answered in
            inr (
              ap (λ (x : PlacedOrder). x.is_replay) answered,
              (
                (
                  to_order_data n drawn.order_id s.next_reference,
                  ap (λ (x : Shop). x.orders) (sym whole) ∙ orders,
                  (
                    sym id,
                    sym reference,
                    refl,
                    refl,
                    refl,
                    refl,
                    refl,
                    refl,
                    refl,
                    refl,
                    total,
                    items-IsItemOf priced.lines,
                  ),
                ),
                ap (λ (x : Shop). x.outbox) (sym whole)
                    ∙ outbox
                    ∙ rw id (
                        if_not (is_pending_payment orderer.initial_status)
                          (announced_events drawn.order_id drawn s.outbox) s.outbox),
                locked,
                there,
                free,
                open_cart,
                at ∙ version,
              ),
            )
      ]
    ]

-- What an answer of placing from a cart that was read says. It is a replay that leaves the shop as it
-- is; or the orderer is admitted, and exactly one order is written: of the cart, for the orderer, with
-- an item for each line that the checkout priced, at the checkout's delivery and money, whose total
-- is exactly what the customer saw, from a cart that in the transaction was still open, free and at
-- the version that the customer saw. It is announced unless it waits for its payment.
pub place_from_cart_answers :
    (cart : CartForOrder) (request : PlaceOrderRequest) (orderer : Orderer) (is_human : Bool)
    (prices : Placing PricedOrder) (drawn : Drawn) (before s s' : Shop) (p : PlacedOrder)
    → place_from_cart (some cart) request orderer is_human prices drawn before s ≡ answers (p, s')
    → IsAnswered cart request orderer is_human prices drawn before s p s'
place_from_cart_answers cart request orderer is_human prices drawn before s s' p h =
    elim (placing-inversion cart request orderer is_human prices drawn before s s' p h) [
      | inl (replays, _, same) ↦ inl (replays, same)
      | inr (priced, known, free, open_cart, version, admitted, total, done) ↦
          elim (settled cart request orderer priced drawn s s' p version total done) [
            | inl replays ↦ inl replays
            | inr (fresh, written) ↦
                inr
                  (fresh, admit-IsAdmitted orderer is_human before admitted, priced, known, written)
          ]
    ]

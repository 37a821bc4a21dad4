-- ===== src/Orders/Service/Inversion.antt =====
-- The branches of `placeFromCart` that answer.
use vp_parts.Base.{
  ◌≡◌, refl, ◌≢◌, ◌⊎◌, inl, inr, Bool, true, ◌&&◌, none, some, arith, ◌==◌, Bool-cases,
  Option-cases,
}
use vp_parts.Cart.Tables.{is_active}
use vp_parts.Orders.{Shop, Drawn, find_reference, place}
use vp_parts.Orders.Effects.{}
use vp_parts.Orders.Service.{
  PricedOrder, CartForOrder, PlaceOrderRequest, PlacedOrder, PlaceError, Placing, answers, throws,
  Orderer, admit, to_new_order, settle, replay, place_from_cart,
}

placing-cases {ℓ} :
    {A : Type ℓ} (r : Placing A) → ((a : A) × (r ≡ answers a)) ⊎ ((e : PlaceError) × (r ≡ throws e))
placing-cases (answers a) = inl (a, refl)
placing-cases (throws e) = inr (e, refl)

-- The ways that an answer comes about, for a cart as it was read.
abbrev pub ComesAbout :
    CartForOrder
    → PlaceOrderRequest
    → Orderer
    → Bool
    → Placing PricedOrder
    → Drawn
    → Shop
    → Shop
    → PlacedOrder
    → Shop
    → Type 0
ComesAbout cart request orderer is_human prices drawn before s p s' =
    ((p.is_replay ≡ true) × (cart.order_id ≢ none) × (s' ≡ s))
    ⊎ ((priced : PricedOrder) × (prices ≡ answers priced)
        × (cart.order_id ≡ none)
        × (is_active cart.status ≡ true)
        × (cart.version ≡ request.cart_version)
        × (admit orderer is_human before ≡ none)
        × (priced.money.total ≡ request.expected_total_cents)
        × (settle (place (to_new_order cart request orderer priced) drawn s) ≡ answers (p, s')))

pub placing-inversion :
    (cart : CartForOrder) (request : PlaceOrderRequest) (orderer : Orderer) (is_human : Bool)
    (prices : Placing PricedOrder) (drawn : Drawn) (before s s' : Shop) (p : PlacedOrder)
    → place_from_cart (some cart) request orderer is_human prices drawn before s ≡ answers (p, s')
    → ComesAbout cart request orderer is_human prices drawn before s p s'
unfolding place_from_cart replay
placing-inversion cart request orderer is_human prices drawn before s s' p h =
    elim (Option-cases cart.order_id) [
      | inr (k, ordered) ↦ elim (Option-cases (find_reference k s)) [
        | inl missing ↦ ground (arith, ordered, missing, h)
        | inr (r, known) ↦ inl (ground (arith, ordered, known, h))
      ]
      | inl free ↦
          elim (Bool-cases (is_active cart.status && (cart.version == request.cart_version))) [
            | inr other ↦ ground (arith, free, other, h)
            | inl fits ↦ elim (Option-cases (admit orderer is_human before)) [
              | inr (e, not_admitted) ↦ ground (arith, free, fits, not_admitted, h)
              | inl admitted ↦ elim (placing-cases prices) [
                | inr (e, thrown) ↦ ground (arith, free, fits, admitted, thrown, h)
                | inl (priced, known) ↦
                    elim (Bool-cases (priced.money.total == request.expected_total_cents)) [
                      | inr other ↦ ground (arith, free, fits, admitted, known, other, h)
                      | inl same ↦ inr (
                        priced,
                        known,
                        free,
                        ground (arith, fits),
                        ground (arith, fits),
                        admitted,
                        ground (arith, same),
                        ground (arith, free, fits, admitted, known, same, h),
                      )
                    ]
              ]
            ]
          ]
    ]

-- ===== src/Delivery/Checkout/Couriers.antt =====
-- That the price of a courier's delivery in delivery.service.ts does not depend on whether it binds.
use vp_parts.Base.{ℕ, ◌≡◌, refl, inl, inr, Bool, true, false, Option, some, arith, Option-cases}
use vp_parts.Delivery.Carriers.{
  Outcome, done, refused, ◌>>=◌, Destination, to_office, to_address, PlaceOrderDelivery,
  DeliveryCarrier, PricedDelivery, StockedLines, DeliveryTerms, require_deliverable,
  check_and_quote, carrier_for, price_courier, price_delivery,
}
use vp_parts.Delivery.Checkout.{to_courier_delivery}

-- An answer of two steps has answers of both.
pub bind_done :
    {A B : Type 0} (r : Outcome A) (f : A → Outcome B) (b : B)
    → r >>= f ≡ done b
    → (a : A) × (r ≡ done a) × (f a ≡ done b)
bind_done (done a) f b e = (a, refl, e)
bind_done (refused x) f b e = absurd (cc)

pub done_eq : {A : Type 0} (a b : A) → done a ≡ done b → a ≡ b
done_eq a b e = cc

module _ (shop_date_of : ℕ → ℕ) (carriers : ℕ → Option DeliveryCarrier) where
  abbrev pub terms_of : Bool → Option ℕ → DeliveryTerms
  terms_of is_binding goods = record { goods_to_collect_cents = goods; is_binding = is_binding }

  -- What an order's courier answers, a quote's does, and the courier is registered.
  price_courier-unbound :
      (choice : PlaceOrderDelivery) (carrier : ℕ) (destination : Destination)
      (stocked : StockedLines)
      → (goods : Option ℕ) (p : PricedDelivery)
      → price_courier shop_date_of carriers choice carrier destination stocked (terms_of true goods)
        ≡ done p
      → (price_courier shop_date_of carriers choice carrier destination stocked
            (terms_of false goods)
          ≡ done p)
        × ((courier : DeliveryCarrier) × (carrier_for carriers carrier ≡ done courier))
  unfolding price_courier
  price_courier-unbound choice carrier destination stocked goods p e =
      let (courier, e1, r1) = bind_done (carrier_for carriers carrier) _ p e in
      let (quoted, e2, r2) =
        bind_done (check_and_quote shop_date_of courier destination stocked goods) _ p r1 in
      let (ok, e3, r3) = bind_done (require_deliverable courier destination) _ p r2 in
      (rw e1 (rw e2 r3), (courier, e1))

  pub registered :
      (carrier : ℕ) (courier : DeliveryCarrier)
      → carrier_for carriers carrier ≡ done courier
      → carriers carrier ≡ some courier
  registered carrier courier e = elim (Option-cases (carriers carrier)) [
    | inl f ↦ absurd (ground (arith, e, f))
    | inr (c, f) ↦ ground (arith, e, f)
  ]

  -- The other way, for a destination that the courier does not refuse.
  price_courier-bound :
      (choice : PlaceOrderDelivery) (carrier : ℕ) (destination : Destination)
      (stocked : StockedLines)
      → (goods : Option ℕ) (p : PricedDelivery)
      → ((courier : DeliveryCarrier)
          → carriers carrier ≡ some courier
          → require_deliverable courier destination ≡ done tt)
      → price_courier shop_date_of carriers choice carrier destination stocked
          (terms_of false goods)
        ≡ done p
      → price_courier shop_date_of carriers choice carrier destination stocked (terms_of true goods)
        ≡ done p
  unfolding price_courier
  price_courier-bound choice carrier destination stocked goods p deliverable e =
      let (courier, e1, r1) = bind_done (carrier_for carriers carrier) _ p e in
      let (quoted, e2, r2) =
        bind_done (check_and_quote shop_date_of courier destination stocked goods) _ p r1 in
      rw e1 (rw e2 (rw (deliverable courier (registered carrier courier e1)) r2))

  abbrev pub price : PlaceOrderDelivery → StockedLines → DeliveryTerms → Outcome PricedDelivery
  price choice stocked terms = price_delivery shop_date_of carriers stocked choice terms

  pub price-unbound :
      (carrier : ℕ) (destination : Destination) (stocked : StockedLines) (goods : Option ℕ)
      → (p : PricedDelivery)
      → price (to_courier_delivery carrier destination) stocked (terms_of true goods) ≡ done p
      → (price (to_courier_delivery carrier destination) stocked (terms_of false goods) ≡ done p)
        × ((courier : DeliveryCarrier) × (carrier_for carriers carrier ≡ done courier))
  unfolding price_delivery
  price-unbound carrier (to_office code) stocked goods p =
      price_courier-unbound (to_courier_delivery carrier (to_office code)) carrier (to_office code)
        stocked goods p
  price-unbound carrier (to_address address) stocked goods p =
      price_courier-unbound (to_courier_delivery carrier (to_address address)) carrier
        (to_address address) stocked goods p

  pub price-bound :
      (carrier : ℕ) (destination : Destination) (stocked : StockedLines) (goods : Option ℕ)
      → (p : PricedDelivery)
      → ((courier : DeliveryCarrier)
          → carriers carrier ≡ some courier
          → require_deliverable courier destination ≡ done tt)
      → price (to_courier_delivery carrier destination) stocked (terms_of false goods) ≡ done p
      → price (to_courier_delivery carrier destination) stocked (terms_of true goods) ≡ done p
  unfolding price_delivery
  price-bound carrier (to_office code) stocked goods p =
      price_courier-bound (to_courier_delivery carrier (to_office code)) carrier (to_office code)
        stocked goods p
  price-bound carrier (to_address address) stocked goods p =
      price_courier-bound (to_courier_delivery carrier (to_address address)) carrier
        (to_address address) stocked goods p

-- ===== src/Delivery/Checkout/Prices.antt =====
-- That what the binding price of checkout.service.ts answers, the price of a quote does, and back.
use vp_parts.Base.{
  ℕ, ◌≤◌, ◌≡◌, sym, ap, ◌∙◌, Bool, true, false, ◌&&◌, ◌||◌, Option, some, List, map, arith,
  ℕ_discrete, ltb, if◌then◌else◌, length,
}
use vp_parts.Checkout.{VatRate, PricedLines}
use vp_parts.Inventory.Availability.{ArticleInventoryDetail}
use vp_parts.Delivery.Parcel.{ParcelLine}
use vp_parts.Delivery.Carriers.{
  Outcome, done, refused, ◌>>=◌, article_unavailable, Destination, DeliveryCarrier, PricedDelivery,
  StockedLines, require_deliverable, carrier_for,
}
use vp_parts.Delivery.Checkout.{
  DeliveryChoice, PricedCheckout, to_courier_delivery, price_goods, money_of, goods_to_collect,
  price_checked, price_stocked, price_with_delivery,
}
use vp_parts.Delivery.Checkout.Couriers.{
  bind_done, done_eq, terms_of, price, price-unbound, price-bound,
}

module _ (shop_date_of : ℕ → ℕ) (carriers : ℕ → Option DeliveryCarrier) (rate : VatRate)
    (read : List ℕ → Outcome (ℕ → Option ArticleInventoryDetail)) where
  abbrev pub request : ℕ → Destination → Bool → Bool → DeliveryChoice
  request carrier destination is_cash is_binding = record {
    delivery = to_courier_delivery carrier destination;
    is_cash_on_delivery = is_cash;
    is_binding = is_binding;
  }

  abbrev pub goods_of : (ℕ → Option ArticleInventoryDetail) → List ParcelLine → PricedLines
  goods_of availability lines = price_goods shop_date_of carriers rate read availability lines

  abbrev pub stocked_price :
      List ParcelLine
      → DeliveryChoice
      → (ℕ → Option ArticleInventoryDetail)
      → Outcome PricedCheckout
  stocked_price lines r availability =
      price_stocked shop_date_of carriers rate read lines r availability

  unfoldable pub checked :
      List ParcelLine
      → DeliveryChoice
      → (ℕ → Option ArticleInventoryDetail)
      → Outcome PricedCheckout
  checked lines r availability =
      price_checked shop_date_of carriers rate read lines r availability
        (goods_of availability lines)

  abbrev pub checkout_at :
      (ℕ → Option ArticleInventoryDetail) → List ParcelLine → PricedDelivery → PricedCheckout
  checkout_at availability lines p = record {
    goods = goods_of availability lines;
    delivery = p;
    money =
        money_of shop_date_of carriers rate read (goods_of availability lines).priced
          p.delivery_price p.cash_on_delivery_fee;
  }

  checked-unbound :
      (lines : List ParcelLine) (carrier : ℕ) (destination : Destination) (is_cash : Bool)
      → (availability : ℕ → Option ArticleInventoryDetail) (c : PricedCheckout)
      → checked lines (request carrier destination is_cash true) availability ≡ done c
      → (checked lines (request carrier destination is_cash false) availability ≡ done c)
        × (c.goods ≡ goods_of availability lines)
        × ((courier : DeliveryCarrier) × (carrier_for carriers carrier ≡ done courier))
  unfolding checked price_checked
  checked-unbound lines carrier destination is_cash availability c e =
      let goods = goods_of availability lines in
      let stocked : StockedLines = record { lines = lines; availability = availability } in
      let collect = goods_to_collect shop_date_of carriers rate read is_cash goods.priced in
      let (p, e1, r1) =
        bind_done
          (price shop_date_of carriers (to_courier_delivery carrier destination) stocked
            (terms_of shop_date_of carriers true collect))
          (λ p. done (checkout_at availability lines p)) c e in
      let (e2, courier) =
        price-unbound shop_date_of carriers carrier destination stocked collect p e1 in
      (rw e2 r1, ap (λ d. d.goods) (sym (done_eq (checkout_at availability lines p) c r1)), courier)

  pub price_stocked-orderable :
      (lines : List ParcelLine) (carrier : ℕ) (destination : Destination)
      (is_cash is_binding : Bool)
      → (availability : ℕ → Option ArticleInventoryDetail)
      → length (goods_of availability lines).unorderable ≡ 0
      → stocked_price lines (request carrier destination is_cash is_binding) availability
        ≡ checked lines (request carrier destination is_cash is_binding) availability
  unfolding price_stocked checked
  price_stocked-orderable lines carrier destination is_cash is_binding availability h =
      ground (arith, h)

  price_stocked-refused :
      (lines : List ParcelLine) (carrier : ℕ) (destination : Destination) (is_cash : Bool)
      → (availability : ℕ → Option ArticleInventoryDetail)
      → 1 ≤ length (goods_of availability lines).unorderable
      → stocked_price lines (request carrier destination is_cash true) availability
        ≡ refused article_unavailable
  unfolding price_stocked
  price_stocked-refused lines carrier destination is_cash availability h = ground (arith, h)

  checked-bound :
      (lines : List ParcelLine) (carrier : ℕ) (destination : Destination) (is_cash : Bool)
      → (availability : ℕ → Option ArticleInventoryDetail) (c : PricedCheckout)
      → ((courier : DeliveryCarrier)
          → carriers carrier ≡ some courier
          → require_deliverable courier destination ≡ done tt)
      → checked lines (request carrier destination is_cash false) availability ≡ done c
      → checked lines (request carrier destination is_cash true) availability ≡ done c
  unfolding checked price_checked
  checked-bound lines carrier destination is_cash availability c deliverable e =
      let goods = goods_of availability lines in
      let stocked : StockedLines = record { lines = lines; availability = availability } in
      let collect = goods_to_collect shop_date_of carriers rate read is_cash goods.priced in
      let (p, e1, r1) =
        bind_done
          (price shop_date_of carriers (to_courier_delivery carrier destination) stocked
            (terms_of shop_date_of carriers false collect))
          (λ p. done (checkout_at availability lines p)) c e in
      rw (price-bound shop_date_of carriers carrier destination stocked collect p deliverable e1) r1

  guarded_goods :
      (lines : List ParcelLine) (availability : ℕ → Option ArticleInventoryDetail)
      → (c : PricedCheckout) (b : Bool) (x : Outcome PricedDelivery)
      → (if b
          then refused article_unavailable
          else x >>= (λ p. done (checkout_at availability lines p)))
        ≡ done c
      → c.goods ≡ goods_of availability lines
  guarded_goods lines availability c true x e = absurd (cc)
  guarded_goods lines availability c false (refused y) e = absurd (cc)
  guarded_goods lines availability c false (done p) e =
      ap (λ d. d.goods) (sym (done_eq (checkout_at availability lines p) c e))

  -- The goods of an answer are those of the lines.
  stocked_goods :
      (lines : List ParcelLine) (r : DeliveryChoice)
      → (availability : ℕ → Option ArticleInventoryDetail) (c : PricedCheckout)
      → stocked_price lines r availability ≡ done c
      → c.goods ≡ goods_of availability lines
  unfolding price_stocked price_checked
  stocked_goods lines r availability c e =
      guarded_goods lines availability c
        (ltb 0 (length (goods_of availability lines).unorderable)
          && (r.is_binding || r.is_cash_on_delivery))
        (price shop_date_of carriers r.delivery
          (record { lines = lines; availability = availability })
          (record {
            goods_to_collect_cents =
                goods_to_collect shop_date_of carriers rate read r.is_cash_on_delivery
                  (goods_of availability lines).priced;
            is_binding = r.is_binding;
          }))
        e

  -- What the binding answer is, the other is too, and all lines can be ordered.
  pub with_delivery-unbound :
      (lines : List ParcelLine) (carrier : ℕ) (destination : Destination) (is_cash : Bool)
      → (c : PricedCheckout)
      → price_with_delivery shop_date_of carriers rate read lines
          (request carrier destination is_cash true)
        ≡ done c
      → (price_with_delivery shop_date_of carriers rate read lines
            (request carrier destination is_cash false)
          ≡ done c)
        × (length c.goods.unorderable ≡ 0)
        × ((courier : DeliveryCarrier) × (carrier_for carriers carrier ≡ done courier))
  unfolding price_with_delivery
  with_delivery-unbound lines carrier destination is_cash c e =
      let (availability, e1, r1) =
        bind_done (read (map (λ l. l.article) lines))
          (stocked_price lines (request carrier destination is_cash true)) c e in
      elim (ℕ_discrete (length (goods_of availability lines).unorderable) 0) [
        | yes all ↦
            let eq =
              price_stocked-orderable lines carrier destination is_cash true availability all in
            let eq' =
              price_stocked-orderable lines carrier destination is_cash false availability all in
            let (other, goods, courier) =
              checked-unbound lines carrier destination is_cash availability c (sym eq ∙ r1) in
            (rw e1 (eq' ∙ other), ap (λ g. length g.unorderable) goods ∙ all, courier)
        | no more ↦
            let eq =
              price_stocked-refused lines carrier destination is_cash availability
                (omega (arith, more)) in
            absurd (refused_done (sym eq ∙ r1))
      ]
    where
      refused_done : refused article_unavailable ≡ done c → ⊥
      refused_done r = cc

  -- The other way, where all lines can be ordered and the courier does not refuse the destination.
  pub with_delivery-bound :
      (lines : List ParcelLine) (carrier : ℕ) (destination : Destination) (is_cash : Bool)
      → (c : PricedCheckout)
      → ((courier : DeliveryCarrier)
          → carriers carrier ≡ some courier
          → require_deliverable courier destination ≡ done tt)
      → price_with_delivery shop_date_of carriers rate read lines
          (request carrier destination is_cash false)
        ≡ done c
      → length c.goods.unorderable ≡ 0
      → price_with_delivery shop_date_of carriers rate read lines
          (request carrier destination is_cash true)
        ≡ done c
  unfolding price_with_delivery
  with_delivery-bound lines carrier destination is_cash c deliverable e all =
      let (availability, e1, r1) =
        bind_done (read (map (λ l. l.article) lines))
          (stocked_price lines (request carrier destination is_cash false)) c e in
      let goods =
        stocked_goods lines (request carrier destination is_cash false) availability c r1 in
      let none_left = ap (λ g. length g.unorderable) (sym goods) ∙ all in
      let eq =
        price_stocked-orderable lines carrier destination is_cash false availability none_left in
      let eq' =
        price_stocked-orderable lines carrier destination is_cash true availability none_left in
      rw e1 (
        eq'
        ∙ checked-bound lines carrier destination is_cash availability c deliverable (sym eq ∙ r1))

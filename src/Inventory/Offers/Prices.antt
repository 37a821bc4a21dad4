-- ===== src/Inventory/Offers/Prices.antt =====
-- The price of the offer that best-offer.ts selects.
use vp_parts.Base.{
  ℕ, ◌≤◌, max, ◌≡◌, refl, ap, ◌∙◌, inl, inr, true, Option, none, some, List, arith, ltb, Bool-cases,
}
use vp_parts.Checkout.{VatRate}
use vp_parts.Inventory.Offers.{
  OwnOffer, SupplierOffer, BestOffer, sourced_supplier_sell_price, select_best_offer,
}
use vp_parts.Inventory.Offers.Best.{IsSourced, IsSourced-price, sourced_from-cases}
use vp_parts.Inventory.Offers.Selection.{scan_offer, select_best_offer-scan, sourced_price-some}

-- The price of a part whose sourced supplier asks `reference`.
abbrev pub shown_price : Option OwnOffer → ℕ → ℕ
shown_price none reference = reference
shown_price (some own) reference = max own.price_inc_vat reference

pub sourced_price-IsSourced :
    (m : SupplierOffer) (suppliers : List SupplierOffer)
    → IsSourced m suppliers
    → sourced_supplier_sell_price suppliers ≡ some m.sell_price
sourced_price-IsSourced m suppliers s = elim (sourced_from-cases suppliers) [
  | inl (q, no_stock) ↦ absurd (omega (arith, no_stock m s.listed, s.in_stock))
  | inr (r, q, t) ↦ sourced_price-some suppliers r q ∙ ap some (IsSourced-price r m suppliers t s)
]

pub scan_offer-price :
    (own : Option OwnOffer) (price : ℕ) (rate : VatRate)
    → ((scan_offer own (some price) rate).available ≡ true)
      × ((scan_offer own (some price) rate).price_inc_vat ≡ some (shown_price own price))
scan_offer-price none price rate = (refl, refl)
scan_offer-price (some own) price rate = (
  refl,
  elim (Bool-cases (ltb own.price_inc_vat price)) [
    | inl e ↦ ground (arith, e)
    | inr e ↦ ground (arith, e)
  ],
)

-- While a supplier has the part in stock, the offer is available and its price is that of the
-- supplier that the shop would buy from, the fastest and then the cheapest to buy, or the shop's own
-- if that is higher: a part is never sold below the supplier that it is bought from, whichever of
-- the suppliers in stock and first by rank, buy price and sell price that is. A slower supplier that
-- sells for less does not count.
pub select_best_offer_covers :
    (own : Option OwnOffer) (suppliers : List SupplierOffer) (rate : VatRate)
    → (m : SupplierOffer) → IsSourced m suppliers
    → (offer : BestOffer) × (select_best_offer own suppliers rate ≡ some offer)
      × (offer.available ≡ true)
      × (offer.price_inc_vat ≡ some (shown_price own m.sell_price))
      × (m.sell_price ≤ shown_price own m.sell_price)
select_best_offer_covers own suppliers rate m s =
    let (available, price) = scan_offer-price own m.sell_price rate in
    (
      scan_offer own (some m.sell_price) rate,
      select_best_offer-scan own suppliers rate
          ∙ ap (λ p. some (scan_offer own p rate)) (sourced_price-IsSourced m suppliers s),
      available,
      price,
      covers own,
    )
  where
    covers : (o : Option OwnOffer) → m.sell_price ≤ shown_price o m.sell_price
    covers none = ground arith
    covers (some o) = ground arith

-- ===== src/Inventory/Offers/Selection.antt =====
-- What best-offer.ts selects, by the buckets and by the scan of the suppliers' lines.
use vp_parts.Base.{
  ℕ, ◌≤◌, ◌≡◌, refl, ap, ◌∙◌, inl, inr, Option, none, some, List, [], ◌∷◌, arith, ltb,
  if◌then◌else◌, Bool-cases, Option-cases, Has,
}
use vp_parts.Checkout.{VatRate}
use vp_parts.Inventory.Offers.{
  OwnOffer, SupplierOffer, BestOffer, DeliveryBucket, OfferSource, own_source, to_source,
  add_suppliers, own_buckets, fastest_window_sources, sourced_from, sourced_supplier_sell_price,
  from_inc_vat_price, keep_or_raise, resolve_price, unavailable_offer, available_offer,
  offer_of_buckets, select_best_offer,
}
use vp_parts.Inventory.Offers.Best.{IsSourced, sourced_from-cases}
use vp_parts.Inventory.Offers.Window.{window-sourced}
use vp_parts.Inventory.Offers.Buckets.{Holds, add_suppliers-Holds, add_suppliers-keeps}

-- The offer by the price of the supplier that would be sourced, without buckets.
abbrev pub scan_offer : Option OwnOffer → Option ℕ → VatRate → BestOffer
scan_offer none none rate = unavailable_offer none
scan_offer none (some price) rate = available_offer (from_inc_vat_price price rate)
scan_offer (some own) none rate =
    if ltb 0 own.quantity
    then available_offer (keep_or_raise own none rate)
    else unavailable_offer (some own)
scan_offer (some own) (some price) rate = available_offer (keep_or_raise own (some price) rate)

add_suppliers-no_stock :
    (buckets : List DeliveryBucket) (suppliers : List SupplierOffer)
    → ((a : SupplierOffer) → Has a suppliers → a.quantity ≡ 0)
    → add_suppliers buckets suppliers ≡ buckets
add_suppliers-no_stock buckets [] h = refl
add_suppliers-no_stock buckets (x ∷ xs) h =
    ground (arith, h x (inl refl), add_suppliers-no_stock buckets xs (λ a m. h a (inr m)))

IsCons : List DeliveryBucket → Type 0
IsCons buckets = (b : DeliveryBucket) × (bs : List DeliveryBucket) × (buckets ≡ b ∷ bs)

Holds-IsCons :
    (rank : ℕ) (s : OfferSource) (buckets : List DeliveryBucket)
    → Holds rank s buckets
    → IsCons buckets
unfolding IsCons
Holds-IsCons rank s [] h = absurd h
Holds-IsCons rank s (b ∷ bs) h = (b, bs, refl)

stocked-IsCons :
    (a : SupplierOffer) (buckets : List DeliveryBucket) (suppliers : List SupplierOffer)
    → IsSourced a suppliers
    → IsCons (add_suppliers buckets suppliers)
stocked-IsCons a buckets suppliers s =
    Holds-IsCons a.delivery.rank (to_source a) _
      (add_suppliers-Holds a buckets suppliers s.listed s.in_stock)

own-IsCons :
    (own : OwnOffer) (suppliers : List SupplierOffer)
    → 1 ≤ own.quantity
    → IsCons (add_suppliers (own_buckets (some own)) suppliers)
own-IsCons own suppliers h =
    Holds-IsCons 0 (own_source own) _ (
      add_suppliers-keeps 0 (own_source own) (own_buckets (some own)) suppliers (ground (arith, h)))

-- With a bucket, the part that the shop carries is available at its price or the one it raises to.
offer_of_buckets-own :
    (own : OwnOffer) (suppliers : List SupplierOffer) (rate : VatRate)
    → (buckets : List DeliveryBucket) → IsCons buckets
    → offer_of_buckets (some own) suppliers rate buckets
      ≡ some (available_offer (keep_or_raise own (sourced_supplier_sell_price suppliers) rate))
unfolding IsCons offer_of_buckets resolve_price
offer_of_buckets-own own suppliers rate buckets (b, bs, e) = rw e refl

pub sourced_price-some :
    (suppliers : List SupplierOffer) (r : SupplierOffer)
    → sourced_from none suppliers ≡ some r
    → sourced_supplier_sell_price suppliers ≡ some r.sell_price
unfolding sourced_supplier_sell_price
sourced_price-some suppliers r e = rw (e, sourced_supplier_sell_price) refl

sourced_price-none :
    (suppliers : List SupplierOffer)
    → sourced_from none suppliers ≡ none
    → sourced_supplier_sell_price suppliers ≡ none
unfolding sourced_supplier_sell_price
sourced_price-none suppliers e = rw (e, sourced_supplier_sell_price) refl

-- Without own stock the first source of the fastest window sets the price.
offer_of_buckets-none :
    (suppliers : List SupplierOffer) (rate : VatRate) (b : DeliveryBucket)
    → (bs : List DeliveryBucket) (h : OfferSource) (rest : List OfferSource)
    → fastest_window_sources b bs ≡ h ∷ rest
    → offer_of_buckets none suppliers rate (b ∷ bs)
      ≡ some (available_offer (from_inc_vat_price h.sell_price rate))
unfolding offer_of_buckets resolve_price
offer_of_buckets-none suppliers rate b bs h rest e = ground (arith, e)

select_none-scan :
    (suppliers : List SupplierOffer) (rate : VatRate)
    → select_best_offer none suppliers rate
      ≡ some (scan_offer none (sourced_supplier_sell_price suppliers) rate)
unfolding select_best_offer IsCons offer_of_buckets
select_none-scan suppliers rate = elim (sourced_from-cases suppliers) [
  | inl (q, no_stock) ↦
      rw (sourced_price-none suppliers q) (rw (add_suppliers-no_stock [] suppliers no_stock) refl)
  | inr (r, q, s) ↦
      let (b, bs, made) = stocked-IsCons r [] suppliers s in
      let (h, rest, sorted, price) = window-sourced r suppliers b bs s made in
      let offer = offer_of_buckets-none suppliers rate b bs h rest sorted in
      rw (sourced_price-some suppliers r q)
        (rw made (offer ∙ ap (λ p. some (available_offer (from_inc_vat_price p rate))) price))
]

offer_of_buckets-empty :
    (own : OwnOffer) (suppliers : List SupplierOffer) (rate : VatRate)
    → offer_of_buckets (some own) suppliers rate [] ≡ some (unavailable_offer (some own))
unfolding offer_of_buckets
offer_of_buckets-empty own suppliers rate = refl

select_own-scan :
    (own : OwnOffer) (suppliers : List SupplierOffer) (rate : VatRate)
    → select_best_offer (some own) suppliers rate
      ≡ some (scan_offer (some own) (sourced_supplier_sell_price suppliers) rate)
unfolding select_best_offer
select_own-scan own suppliers rate = elim (Bool-cases (ltb 0 own.quantity)) [
  | inl e ↦
      let offer =
        offer_of_buckets-own own suppliers rate _ (own-IsCons own suppliers (ground (arith, e))) in
      elim (Option-cases (sourced_supplier_sell_price suppliers)) [
        | inl q ↦ ground (arith, offer, q, e)
        | inr (p, q) ↦ ground (arith, offer, q, e)
      ]
  | inr e ↦ elim (sourced_from-cases suppliers) [
    | inl (q, no_stock) ↦
        let buckets : add_suppliers (own_buckets (some own)) suppliers ≡ [] =
          add_suppliers-no_stock _ suppliers no_stock ∙ ground (arith, e) in
        ground (
          arith,
          buckets,
          sourced_price-none suppliers q,
          offer_of_buckets-empty own suppliers rate,
          e,
        )
    | inr (r, q, s) ↦
        let offer =
          offer_of_buckets-own own suppliers rate _
            (stocked-IsCons r (own_buckets (some own)) suppliers s) in
        ground (arith, offer, sourced_price-some suppliers r q, e)
  ]
]

-- The offer that the buckets lead to is the one that the scan over the suppliers' lines gives: there
-- is always an offer; without own stock it is the sourced supplier's price, and with own stock the
-- shop's price, raised to that price where it is below it.
pub select_best_offer-scan :
    (own : Option OwnOffer) (suppliers : List SupplierOffer) (rate : VatRate)
    → select_best_offer own suppliers rate
      ≡ some (scan_offer own (sourced_supplier_sell_price suppliers) rate)
select_best_offer-scan none suppliers rate = select_none-scan suppliers rate
select_best_offer-scan (some own) suppliers rate = select_own-scan own suppliers rate

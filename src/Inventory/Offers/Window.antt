-- ===== src/Inventory/Offers/Window.antt =====
-- The first source of the fastest delivery window, and that it costs what the sourced supplier's
-- line costs, in best-offer.ts.
use vp_parts.Base.{
  ℕ, ◌≤◌, ◌≡◌, refl, sym, ap, ◌∙◌, subst, inl, inr, true, false, List, [], ◌∷◌, arith, ltb, ◌==◌,
  if◌then◌else◌, Bool-cases, length, All, Has, All-mono, keep_if, sort_by, length-sort_by,
  IsOrdered, sort_by-IsOrdered, Has-sort_by, sort_by-Has, Distinct, Distinct-eq, keep_if-all,
  keep_if-none,
}
use vp_parts.Inventory.Offers.{
  SupplierOffer, OfferSource, DeliveryBucket, to_source, add_suppliers, fastest_of,
  fastest_window_sources, is_source_before, is_sourced_before, is_own_source, is_purchased,
  sorted_cheapest_first,
}
use vp_parts.Inventory.Offers.Buckets.{
  bucket_rank, Holds, InAll, InStock, add_suppliers-Holds, add_suppliers-Distinct,
  add_suppliers-InAll,
}
use vp_parts.Inventory.Offers.Best.{IsSourced, source_before-IsStrict}

fastest_of-Has :
    (current : DeliveryBucket) (buckets : List DeliveryBucket)
    → Has (fastest_of current buckets) (current ∷ buckets)
fastest_of-Has current [] = inl refl
fastest_of-Has current (b ∷ bs) = elim (Bool-cases (ltb (bucket_rank b) (bucket_rank current))) [
  | inl e ↦ inr (ground (arith, e, fastest_of-Has b bs))
  | inr e ↦ elim (fastest_of-Has current bs) [
    | inl f ↦ inl (ground (arith, e, f))
    | inr h ↦ inr (inr (ground (arith, e, h)))
  ]
]

fastest_of-le :
    (a current : DeliveryBucket) (buckets : List DeliveryBucket)
    → Has a (current ∷ buckets)
    → bucket_rank (fastest_of current buckets) ≤ bucket_rank a
fastest_of-le a current [] (inl e) = omega (arith, ap bucket_rank e)
fastest_of-le a current [] (inr h) = absurd h
fastest_of-le a current (b ∷ bs) h = elim (Bool-cases (ltb (bucket_rank b) (bucket_rank current))) [
  | inl e ↦ elim h [
    | inl f ↦ ground (arith, e, fastest_of-le b b bs (inl refl), ap bucket_rank f)
    | inr k ↦ ground (arith, e, fastest_of-le a b bs k)
  ]
  | inr e ↦ elim h [
    | inl f ↦ ground (arith, e, fastest_of-le a current bs (inl f))
    | inr k ↦ elim k [
      | inl f ↦ ground (arith, e, fastest_of-le current current bs (inl refl), ap bucket_rank f)
      | inr l ↦ ground (arith, e, fastest_of-le a current bs (inr l))
    ]
  ]
]

-- A source under a rank stands in the bucket of the rank.
Holds-bucket :
    (rank : ℕ) (s : OfferSource) (buckets : List DeliveryBucket)
    → Holds rank s buckets
    → (b : DeliveryBucket) × Has b buckets × (bucket_rank b ≡ rank) × Has s b.sources
Holds-bucket rank s [] h = absurd h
Holds-bucket rank s (b ∷ bs) (inl h) = (b, inl refl, h.0, h.1)
Holds-bucket rank s (b ∷ bs) (inr h) =
    let (c, m, e, k) = Holds-bucket rank s bs h in (c, inr m, e, k)

Has-All : {A : Type 0} (P : A → Type 0) (a : A) (xs : List A) → Has a xs → All P xs → P a
Has-All P a [] h k = absurd h
Has-All P a (x ∷ xs) (inl e) k = subst P (sym e) k.0
Has-All P a (x ∷ xs) (inr h) k = Has-All P a xs h k.1

-- The first of the sorted sources, when all are bought in.
sorted_cheapest_first-first :
    (sources : List OfferSource)
    → 1 ≤ length sources
    → All (λ s. is_purchased s ≡ true) sources
    → (h : OfferSource) × (rest : List OfferSource) × (sorted_cheapest_first sources ≡ h ∷ rest)
      × Has h sources
      × ((t : OfferSource) → Has t sources → is_source_before t h ≡ false)
sorted_cheapest_first-first sources nonempty purchased =
    split (sort_by is_source_before sources) refl
  where
    none_own : keep_if is_own_source sources ≡ []
    none_own = keep_if-none is_own_source sources (
        All-mono (λ s. is_purchased s ≡ true) (λ s. is_own_source s ≡ false) sources
          (λ s e. ground (arith, e)) purchased)

    split :
        (sorted : List OfferSource)
        → sort_by is_source_before sources ≡ sorted
        → (h : OfferSource) × (rest : List OfferSource) × (sorted_cheapest_first sources ≡ h ∷ rest)
          × Has h sources
          × ((t : OfferSource) → Has t sources → is_source_before t h ≡ false)
    split [] e =
        absurd (omega (arith, nonempty, length-sort_by is_source_before sources, ap length e))
    split (h ∷ rest) e = (
      h,
      rest,
      rw none_own (rw (keep_if-all is_purchased sources purchased) e),
      Has-sort_by is_source_before h sources (subst (Has h) (sym e) (inl refl)),
      λ t m.
          let ordered =
            subst (IsOrdered is_source_before) e
              (sort_by-IsOrdered is_source_before source_before-IsStrict sources) in
          elim (subst (Has t) e (sort_by-Has is_source_before t sources m)) [
            | inl f ↦
                let irreflexive : is_source_before h h ≡ false = ground arith in
                subst (λ z. is_source_before z h ≡ false) (sym f) irreflexive
            | inr k ↦ Has-All (λ y. is_source_before y h ≡ false) t rest k ordered.0
          ],
    )

equal_rank :
    (r b s q c t : ℕ)
    → r ≤ q
    → (if r == q then is_sourced_before b s c t else ltb r q) ≡ false
    → q ≡ r
equal_rank r b s q c t l p = ground arith

-- The source of one of the suppliers in stock, under its rank.
abbrev FromSupplier : List SupplierOffer → ℕ → OfferSource → Type 0
FromSupplier suppliers rank s =
    (a : SupplierOffer) × Has a suppliers × InStock a × (a.delivery.rank ≡ rank) × (s ≡ to_source a)

equal_price :
    (r b s q c t : ℕ)
    → r ≤ q
    → (if r == q then is_sourced_before b s c t else ltb r q) ≡ false
    → is_sourced_before c t b s ≡ false
    → s ≡ t
equal_price r b s q c t l p k = ground arith

FromSupplier-purchased :
    (suppliers : List SupplierOffer) (rank : ℕ) (sources : List OfferSource)
    → All (FromSupplier suppliers rank) sources
    → All (λ s. is_purchased s ≡ true) sources
FromSupplier-purchased suppliers rank sources h =
    All-mono (FromSupplier suppliers rank) (λ s. is_purchased s ≡ true) sources
      (λ s (a, m, k, q, e). ap is_purchased e) h

-- The buckets of the suppliers' lines alone are not empty when one is in stock, and the first source
-- of the fastest costs what the sourced supplier asks.
pub window-sourced :
    (m : SupplierOffer) (suppliers : List SupplierOffer) (b : DeliveryBucket)
    → (bs : List DeliveryBucket) → IsSourced m suppliers
    → add_suppliers [] suppliers ≡ b ∷ bs
    → (h : OfferSource) × (rest : List OfferSource) × (fastest_window_sources b bs ≡ h ∷ rest)
      × (h.sell_price ≡ m.sell_price)
window-sourced m suppliers b bs best made =
    let all = subst (InAll (FromSupplier suppliers)) made (
      add_suppliers-InAll (FromSupplier suppliers) [] suppliers (λ a k l. (a, k, l, refl, refl))
        tt) in
    let distinct = subst (Distinct bucket_rank) made (add_suppliers-Distinct [] suppliers tt) in
    let f = fastest_of b bs in
    let (nonempty, from) =
      Has-All (λ c. (1 ≤ length c.sources) × All (FromSupplier suppliers (bucket_rank c)) c.sources)
        f (b ∷ bs) (fastest_of-Has b bs) all in
    let (h, rest, sorted, among, least) =
      sorted_cheapest_first-first f.sources nonempty
        (FromSupplier-purchased suppliers (bucket_rank f) f.sources from) in
    let (x, listed, in_stock, rank, same) =
      Has-All (FromSupplier suppliers (bucket_rank f)) h f.sources among from in
    let (c, filed, c_rank, held) = Holds-bucket m.delivery.rank (to_source m) (b ∷ bs) (
      subst (Holds m.delivery.rank (to_source m)) made
        (add_suppliers-Holds m [] suppliers best.listed best.in_stock)) in
    let lower = fastest_of-le c b bs filed in
    let not_preferred = best.first x listed in_stock in
    let rank_le : x.delivery.rank ≤ m.delivery.rank = omega (arith, rank, c_rank, lower) in
    let same_rank : m.delivery.rank ≡ x.delivery.rank =
      equal_rank x.delivery.rank x.buy_price x.sell_price m.delivery.rank m.buy_price m.sell_price
        rank_le not_preferred in
    let c_is_f : c ≡ f =
      Distinct-eq bucket_rank c f (b ∷ bs) distinct filed (fastest_of-Has b bs)
        (omega (arith, c_rank, same_rank, rank)) in
    let m_least = least (to_source m) (subst (λ d. Has (to_source m) d.sources) c_is_f held) in
    let prices =
      equal_price x.delivery.rank x.buy_price x.sell_price m.delivery.rank m.buy_price m.sell_price
        rank_le not_preferred
        (subst (λ t. is_source_before (to_source m) t ≡ false) same m_least) in
    (h, rest, sorted, ap (λ t. t.sell_price) same ∙ prices)

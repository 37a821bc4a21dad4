-- ===== src/Inventory/Offers/Buckets.antt =====
-- What the buckets of best-offer.ts hold: the sources of the suppliers in stock, each under its
-- rank, and which of them the fastest window has first.
use vp_parts.Base.{
  ℕ, ◌≤◌, ◌≡◌, refl, sym, ap, subst, ◌⊎◌, inl, inr, false, ◌||◌, List, [], ◌∷◌, map, arith,
  ℕ_discrete, leb, ◌==◌, Bool-cases, length, All, Has, length-append, All-append, Has-append_left,
  Has-append_right, contains, Distinct,
}
use vp_parts.Inventory.Rules.{DeliveryOutcome}
use vp_parts.Inventory.Offers.{
  SupplierOffer, OfferSource, DeliveryBucket, add_source, to_source, add_suppliers,
}

abbrev pub bucket_rank : DeliveryBucket → ℕ
bucket_rank bucket = bucket.outcome.rank

-- `source` stands in a bucket of that rank.
abbrev pub Holds : ℕ → OfferSource → List DeliveryBucket → Type 0
Holds rank source [] = ⊥
Holds rank source (bucket ∷ buckets) =
    ((bucket_rank bucket ≡ rank) × Has source bucket.sources) ⊎ Holds rank source buckets

add_source-Holds :
    (o : DeliveryOutcome) (s : OfferSource) (buckets : List DeliveryBucket)
    → Holds o.rank s (add_source o s buckets)
add_source-Holds o s [] = inl (refl, inl refl)
add_source-Holds o s (bucket ∷ buckets) =
    ground
      (arith, add_source-Holds o s buckets, Has-append_right s bucket.sources (s ∷ []) (inl refl))

add_source-keeps :
    (o : DeliveryOutcome) (s : OfferSource) (rank : ℕ) (t : OfferSource)
    → (buckets : List DeliveryBucket) → Holds rank t buckets
    → Holds rank t (add_source o s buckets)
add_source-keeps o s rank t [] h = absurd h
add_source-keeps o s rank t (bucket ∷ buckets) (inl h) =
    ground (arith, Has-append_left t bucket.sources (s ∷ []) h.1)
add_source-keeps o s rank t (bucket ∷ buckets) (inr h) =
    ground (arith, add_source-keeps o s rank t buckets h)

contains-add_source :
    (o : DeliveryOutcome) (s : OfferSource) (rank : ℕ) (buckets : List DeliveryBucket)
    → contains (map bucket_rank (add_source o s buckets)) rank
      ≡ contains (map bucket_rank buckets) rank || (o.rank == rank)
contains-add_source o s rank [] = ground arith
contains-add_source o s rank (bucket ∷ buckets) =
    ground (arith, contains-add_source o s rank buckets)

pub Distinct-add_source :
    (o : DeliveryOutcome) (s : OfferSource) (buckets : List DeliveryBucket)
    → Distinct bucket_rank buckets
    → Distinct bucket_rank (add_source o s buckets)
Distinct-add_source o s [] d = (refl, tt)
Distinct-add_source o s (bucket ∷ buckets) d = ground (
  arith,
  Distinct-add_source o s buckets d.1,
  contains-add_source o s (bucket_rank bucket) buckets,
)

-- A property of the sources under their ranks that holds in all buckets.
module _ (P : ℕ → OfferSource → Type 0) where
  abbrev pub InAll : List DeliveryBucket → Type 0
  InAll buckets = All (λ b. (1 ≤ length b.sources) × All (P (bucket_rank b)) b.sources) buckets

  pub InAll-add_source :
      (o : DeliveryOutcome) (s : OfferSource) (buckets : List DeliveryBucket)
      → P o.rank s
      → InAll buckets
      → InAll (add_source o s buckets)
  InAll-add_source o s [] p h = ((omega arith, (p, tt)), tt)
  InAll-add_source o s (bucket ∷ buckets) p h = elim (ℕ_discrete (bucket_rank bucket) o.rank) [
    | yes e ↦
        let all =
          All-append (P (bucket_rank bucket)) bucket.sources (s ∷ []) h.0.1
            (subst (λ r. P r s) (sym e) p, tt) in
        ground (arith, all, e, h.1, length-append bucket.sources (s ∷ []))
    | no ne ↦ ground (arith, ne, InAll-add_source o s buckets p h.1)
  ]

abbrev pub InStock : SupplierOffer → Type 0
InStock supplier = 1 ≤ supplier.quantity

-- The loop keeps what it found, and files every supplier in stock.
pub add_suppliers-keeps :
    (rank : ℕ) (t : OfferSource) (buckets : List DeliveryBucket) (suppliers : List SupplierOffer)
    → Holds rank t buckets
    → Holds rank t (add_suppliers buckets suppliers)
add_suppliers-keeps rank t buckets [] h = h
add_suppliers-keeps rank t buckets (x ∷ xs) h = elim (Bool-cases (leb x.quantity 0)) [
  | inl e ↦ ground (arith, e, add_suppliers-keeps rank t buckets xs h)
  | inr e ↦ ground (
    arith,
    e,
    add_suppliers-keeps rank t (add_source x.delivery (to_source x) buckets) xs
        (add_source-keeps x.delivery (to_source x) rank t buckets h),
  )
]

pub add_suppliers-Holds :
    (a : SupplierOffer) (buckets : List DeliveryBucket) (suppliers : List SupplierOffer)
    → Has a suppliers
    → InStock a
    → Holds a.delivery.rank (to_source a) (add_suppliers buckets suppliers)
add_suppliers-Holds a buckets [] h k = absurd h
add_suppliers-Holds a buckets (x ∷ xs) (inl e) k =
    let filed =
      add_suppliers-keeps x.delivery.rank (to_source x)
        (add_source x.delivery (to_source x) buckets) xs
        (add_source-Holds x.delivery (to_source x) buckets) in
    let in_stock : leb x.quantity 0 ≡ false = ground (arith, ap (λ s. s.quantity) e) in
    ground (arith, e, in_stock, filed)
add_suppliers-Holds a buckets (x ∷ xs) (inr h) k = elim (Bool-cases (leb x.quantity 0)) [
  | inl e ↦ ground (arith, e, add_suppliers-Holds a buckets xs h k)
  | inr e ↦
      ground (arith, e, add_suppliers-Holds a (add_source x.delivery (to_source x) buckets) xs h k)
]

pub add_suppliers-Distinct :
    (buckets : List DeliveryBucket) (suppliers : List SupplierOffer)
    → Distinct bucket_rank buckets
    → Distinct bucket_rank (add_suppliers buckets suppliers)
add_suppliers-Distinct buckets [] d = d
add_suppliers-Distinct buckets (x ∷ xs) d = elim (Bool-cases (leb x.quantity 0)) [
  | inl e ↦ ground (arith, e, add_suppliers-Distinct buckets xs d)
  | inr e ↦ ground (
    arith,
    e,
    add_suppliers-Distinct (add_source x.delivery (to_source x) buckets) xs
        (Distinct-add_source x.delivery (to_source x) buckets d),
  )
]

pub add_suppliers-InAll :
    (P : ℕ → OfferSource → Type 0) (buckets : List DeliveryBucket) (suppliers : List SupplierOffer)
    → ((a : SupplierOffer) → Has a suppliers → InStock a → P a.delivery.rank (to_source a))
    → InAll P buckets
    → InAll P (add_suppliers buckets suppliers)
add_suppliers-InAll P buckets [] f h = h
add_suppliers-InAll P buckets (x ∷ xs) f h = elim (Bool-cases (leb x.quantity 0)) [
  | inl e ↦ ground (arith, e, add_suppliers-InAll P buckets xs (λ a m k. f a (inr m) k) h)
  | inr e ↦
      let filed =
        InAll-add_source P x.delivery (to_source x) buckets (f x (inl refl) (ground arith)) h in
      ground (
        arith,
        e,
        add_suppliers-InAll P (add_source x.delivery (to_source x) buckets) xs
            (λ a m k. f a (inr m) k) filed,
      )
]

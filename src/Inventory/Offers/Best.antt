-- ===== src/Inventory/Offers/Best.antt =====
-- The supplier that the scan over the suppliers' lines in best-offer.ts answers, and the orders that
-- it and the sort of the sources compare by.
use vp_parts.Base.{
  ℕ, ◌≡◌, refl, sym, ap, subst, ◌⊎◌, inl, inr, Bool, true, false, none, some, List, [], ◌∷◌, arith,
  ltb, leb, ◌==◌, if◌then◌else◌, get_or_else, Bool-cases, Has, IsStrict,
}
use vp_parts.Inventory.Offers.{
  SupplierOffer, is_source_before, is_sourced_before, is_preferred_supplier, sourced_from,
}
use vp_parts.Inventory.Offers.Buckets.{InStock}

sourced_before-asymmetric :
    (b s c t : ℕ) → is_sourced_before b s c t ≡ true → is_sourced_before c t b s ≡ false
sourced_before-asymmetric b s c t h = ground arith

sourced_before-negatively_transitive :
    (b s c t d u : ℕ)
    → is_sourced_before b s c t ≡ false
    → is_sourced_before c t d u ≡ false
    → is_sourced_before b s d u ≡ false
sourced_before-negatively_transitive b s c t d u h k = ground arith

pub source_before-IsStrict : IsStrict is_source_before
source_before-IsStrict = record {
  asymmetric = λ x y h.
      sourced_before-asymmetric (get_or_else x.buy_price 0) x.sell_price (get_or_else y.buy_price 0)
        y.sell_price h;
  negatively_transitive = λ x y z h k.
      sourced_before-negatively_transitive (get_or_else x.buy_price 0) x.sell_price
        (get_or_else y.buy_price 0) y.sell_price (get_or_else z.buy_price 0) z.sell_price h k;
}

abbrev preferred : ℕ → ℕ → ℕ → ℕ → ℕ → ℕ → Bool
preferred r b s q c t = if r == q then is_sourced_before b s c t else ltb r q

preferred-asymmetric :
    (r b s q c t : ℕ) → preferred r b s q c t ≡ true → preferred q c t r b s ≡ false
preferred-asymmetric r b s q c t h = ground arith

preferred-negatively_transitive :
    (r b s q c t p d u : ℕ)
    → preferred r b s q c t ≡ false
    → preferred q c t p d u ≡ false
    → preferred r b s p d u ≡ false
preferred-negatively_transitive r b s q c t p d u h k = ground arith

preferred_supplier-asymmetric :
    (x y : SupplierOffer) → is_preferred_supplier x y ≡ true → is_preferred_supplier y x ≡ false
preferred_supplier-asymmetric x y h =
    preferred-asymmetric x.delivery.rank x.buy_price x.sell_price y.delivery.rank y.buy_price
      y.sell_price h

preferred_supplier-negatively_transitive :
    (x y z : SupplierOffer)
    → is_preferred_supplier x y ≡ false
    → is_preferred_supplier y z ≡ false
    → is_preferred_supplier x z ≡ false
preferred_supplier-negatively_transitive x y z h k =
    preferred-negatively_transitive x.delivery.rank x.buy_price x.sell_price y.delivery.rank
      y.buy_price y.sell_price z.delivery.rank z.buy_price z.sell_price h k

preferred_supplier-irreflexive : (x : SupplierOffer) → is_preferred_supplier x x ≡ false
preferred_supplier-irreflexive x = ground arith

-- `best` is in stock, and no supplier in stock is preferred to it.
pub record IsSourced (best : SupplierOffer) (suppliers : List SupplierOffer) : Type 0 where
  pub listed : Has best suppliers
  pub in_stock : InStock best
  pub first :
      (a : SupplierOffer) → Has a suppliers → InStock a → is_preferred_supplier a best ≡ false

-- The loop from a supplier that it has already found.
sourced_from-some :
    (m : SupplierOffer) (xs : List SupplierOffer)
    → InStock m
    → (r : SupplierOffer) × (sourced_from (some m) xs ≡ some r) × IsSourced r (m ∷ xs)
sourced_from-some m [] k = (
  m,
  refl,
  record {
    listed = inl refl;
    in_stock = k;
    first = λ a h l. elim h [
      | inl e ↦
          subst (λ b. is_preferred_supplier b m ≡ false) (sym e) (preferred_supplier-irreflexive m)
      | inr h ↦ absurd h
    ];
  },
)
sourced_from-some m (x ∷ xs) k = elim (Bool-cases (leb x.quantity 0)) [
  | inl e ↦
      let (r, q, s) = sourced_from-some m xs k in
      (
        r,
        ground (arith, e, q),
        record {
          listed = elim s.listed [ inl f ↦ inl f | inr h ↦ inr (inr h) ];
          in_stock = s.in_stock;
          first = λ a h l. elim h [
            | inl f ↦ s.first a (inl f) l
            | inr h ↦ elim h [
              | inl f ↦ absurd (ground (arith, e, l, ap (λ z. z.quantity) f))
              | inr h ↦ s.first a (inr h) l
            ]
          ];
        },
      )
  | inr e ↦ elim (Bool-cases (is_preferred_supplier x m)) [
    | inl p ↦
        let (r, q, s) = sourced_from-some x xs (ground (arith, e)) in
        (
          r,
          ground (arith, e, p, q),
          record {
            listed = inr s.listed;
            in_stock = s.in_stock;
            first = λ a h l. elim h [
              | inl f ↦
                  let after =
                    preferred_supplier-negatively_transitive m x r
                      (preferred_supplier-asymmetric x m p)
                      (s.first x (inl refl) (ground (arith, e))) in
                  subst (λ b. is_preferred_supplier b r ≡ false) (sym f) after
              | inr h ↦ s.first a h l
            ];
          },
        )
    | inr p ↦
        let (r, q, s) = sourced_from-some m xs k in
        (
          r,
          ground (arith, e, p, q),
          record {
            listed = elim s.listed [ inl f ↦ inl f | inr h ↦ inr (inr h) ];
            in_stock = s.in_stock;
            first = λ a h l. elim h [
              | inl f ↦ s.first a (inl f) l
              | inr h ↦ elim h [
                | inl f ↦
                    let after =
                      preferred_supplier-negatively_transitive x m r p (s.first m (inl refl) k) in
                    subst (λ b. is_preferred_supplier b r ≡ false) (sym f) after
                | inr h ↦ s.first a (inr h) l
              ]
            ];
          },
        )
  ]
]

-- None is in stock and there is no answer, or the answer is the supplier that would be sourced.
pub sourced_from-cases :
    (xs : List SupplierOffer)
    → ((sourced_from none xs ≡ none) × ((a : SupplierOffer) → Has a xs → a.quantity ≡ 0))
      ⊎ ((r : SupplierOffer) × (sourced_from none xs ≡ some r) × IsSourced r xs)
sourced_from-cases [] = inl (refl, λ a h. absurd h)
sourced_from-cases (x ∷ xs) = elim (Bool-cases (leb x.quantity 0)) [
  | inl e ↦ elim (sourced_from-cases xs) [
    | inl (q, no_stock) ↦ inl (
      ground (arith, e, q),
      λ a h. elim h [ inl f ↦ ground (arith, e, ap (λ z. z.quantity) f) | inr h ↦ no_stock a h ],
    )
    | inr (r, q, s) ↦ inr (
      r,
      ground (arith, e, q),
      record {
        listed = inr s.listed;
        in_stock = s.in_stock;
        first = λ a h l. elim h [
          | inl f ↦ absurd (ground (arith, e, l, ap (λ z. z.quantity) f))
          | inr h ↦ s.first a h l
        ];
      },
    )
  ]
  | inr e ↦
      let (r, q, s) = sourced_from-some x xs (ground (arith, e)) in inr (r, ground (arith, e, q), s)
]

equal_sell_price :
    (r b s q c t : ℕ) → preferred r b s q c t ≡ false → preferred q c t r b s ≡ false → s ≡ t
equal_sell_price r b s q c t h k = ground arith

-- Two suppliers that would be sourced ask the same.
pub IsSourced-price :
    (a b : SupplierOffer) (xs : List SupplierOffer)
    → IsSourced a xs
    → IsSourced b xs
    → a.sell_price ≡ b.sell_price
IsSourced-price a b xs s t =
    equal_sell_price a.delivery.rank a.buy_price a.sell_price b.delivery.rank b.buy_price
      b.sell_price (t.first a s.listed s.in_stock) (s.first b t.listed t.in_stock)

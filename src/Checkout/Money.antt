-- ===== src/Checkout/Money.antt =====
-- That the figures of an order add up, and which lines it charges.
use vp_parts.Base.{
  ℕ, ◌+◌, ◌*◌, ◌/◌, ◌%◌, ◌≤◌, ◌<◌, ◌≡◌, refl, sym, subst, inl, inr, Option, none, some, List, [],
  ◌∷◌, ◌++◌, map, arith, dec_le, is_none, Option-cases, length, All, keep_if, count_where,
  length-keep_if, append-nil, append_one-append,
}
use vp_parts.Checkout.{
  OrderMoneyLine, VatRate, goods_total, without_vat, order_money, AvailabilityDetail,
  orderable_unit_price, OrderableLine, PricedLine, PricedLines, price_from, price_lines,
  require_priced_lines,
}
use native.Mathlib.Nat.{mod-lt, div-add-mod, mul-le-mul_left}

-- The rounded net is at most half a cent off, in units of `1 / (rate_den + rate_num)` cents.
without_vat-near :
    (total g den : ℕ)
    → 1 ≤ g
    → (2 * g * ((2 * total * den + g) / (2 * g)) ≤ 2 * total * den + g)
      × (2 * total * den < 2 * g * ((2 * total * den + g) / (2 * g)) + g)
without_vat-near total g den h =
    let parts = div-add-mod (2 * total * den + g) (2 * g) in
    let rest : (2 * total * den + g) % (2 * g) < 2 * g =
      mod-lt (2 * total * den + g) (omega arith) in
    (omega (arith, parts), omega (arith, parts, rest))

net-le-total :
    (total den num q : ℕ)
    → 1 ≤ den
    → 2 * (den + num) * q ≤ 2 * total * den + (den + num)
    → q ≤ total
net-le-total total den num q h near = elim (dec_le q total) [
  | yes e ↦ e
  | no more ↦
      let beyond : total + 1 ≤ q = omega (arith, more) in
      let above = mul-le-mul_left (2 * (den + num)) beyond in
      absurd (omega (arith, near, above, spread))
]
  where
    spread : 2 * (den + num) * (total + 1) ≡ 2 * total * den + 2 * (num * total) + 2 * (den + num)
    spread = grind arith

-- An order's figures add up. The total is the goods, the delivery and the cash-on-delivery fee; the
-- net amount and the VAT add up to the total exactly; and the net amount is the total without VAT
-- to the nearest cent: taxed again, it is at most half a taxed cent above or below. The rate's
-- denominator is not 0.
pub order_money_adds_up :
    (lines : List OrderMoneyLine) (delivery_price fee : ℕ) (rate : VatRate)
    → 1 ≤ rate.rate_den
    → let money = order_money lines delivery_price fee rate in
      let taxed = rate.rate_den + rate.rate_num in
      (money.total ≡ goods_total lines + delivery_price + fee)
      × (money.net_amount + money.vat_amount ≡ money.total)
      × (2 * taxed * money.net_amount ≤ 2 * money.total * rate.rate_den + taxed)
      × (2 * money.total * rate.rate_den < 2 * taxed * money.net_amount + taxed)
unfolding order_money without_vat
order_money_adds_up lines delivery_price fee rate h =
    let total = goods_total lines + delivery_price + fee in
    let taxed = rate.rate_den + rate.rate_num in
    let (above, below) = without_vat-near total taxed rate.rate_den (omega (arith, h)) in
    let less = net-le-total total rate.rate_den rate.rate_num _ h above in
    (refl, omega (arith, less), above, below)

module _ (availability : ℕ → Option AvailabilityDetail) where
  abbrev price_of : OrderableLine → Option ℕ
  price_of line = orderable_unit_price (availability line.article) line.quantity

  abbrev to_priced : List OrderableLine → List PricedLine
  to_priced [] = []
  to_priced (line ∷ lines) = elim (price_of line) [
    | none ↦ to_priced lines
    | some u ↦ record { line = line; unit_price = u } ∷ to_priced lines
  ]

  price_from-parts :
      (r : PricedLines) (lines : List OrderableLine)
      → price_from availability r lines ≡ record {
        priced = r.priced ++ to_priced lines;
        unorderable = r.unorderable ++ keep_if (λ l. is_none (price_of l)) lines;
      }
  price_from-parts r [] = ground (arith, append-nil r.priced, append-nil r.unorderable)
  price_from-parts r (line ∷ lines) = elim (Option-cases (price_of line)) [
    | inl e ↦ ground (
      arith,
      e,
      price_from-parts (record r { unorderable = r.unorderable ++ line ∷ [] }) lines,
      append_one-append r.unorderable line (keep_if (λ l. is_none (price_of l)) lines),
    )
    | inr (u, e) ↦
        let row : PricedLine = record { line = line; unit_price = u } in
        ground (
          arith,
          e,
          price_from-parts (record r { priced = r.priced ++ row ∷ [] }) lines,
          append_one-append r.priced row (to_priced lines),
        )
  ]

  to_priced-length :
      (lines : List OrderableLine)
      → count_where (λ l. is_none (price_of l)) lines + length (to_priced lines) ≡ length lines
  to_priced-length [] = refl
  to_priced-length (line ∷ lines) = ground (arith, to_priced-length lines)

  skips :
      (line : OrderableLine) (lines : List OrderableLine)
      → price_of line ≡ none
      → to_priced (line ∷ lines) ≡ to_priced lines
  skips line lines e = ground (arith, e)

  takes :
      (line : OrderableLine) (lines : List OrderableLine) (u : ℕ)
      → price_of line ≡ some u
      → to_priced (line ∷ lines) ≡ record { line = line; unit_price = u } ∷ to_priced lines
  takes line lines u e = ground (arith, e)

  to_priced-All :
      (lines : List OrderableLine)
      → All (λ p. price_of p.line ≡ some p.unit_price) (to_priced lines)
  to_priced-All [] = tt
  to_priced-All (line ∷ lines) = elim (Option-cases (price_of line)) [
    | inl e ↦
        subst (All (λ p. price_of p.line ≡ some p.unit_price)) (sym (skips line lines e))
          (to_priced-All lines)
    | inr (u, e) ↦
        subst (All (λ p. price_of p.line ≡ some p.unit_price)) (sym (takes line lines u e))
          (e, to_priced-All lines)
  ]

  to_priced-lines :
      (lines : List OrderableLine)
      → count_where (λ l. is_none (price_of l)) lines ≡ 0
      → map (λ p. p.line) (to_priced lines) ≡ lines
  to_priced-lines [] h = refl
  to_priced-lines (line ∷ lines) h = elim (Option-cases (price_of line)) [
    | inl e ↦ ground (arith, e, h)
    | inr (u, e) ↦ ground (arith, e, to_priced-lines lines)
  ]

-- An order charges every line or none. Pricing parts the lines: each is priced at its orderable
-- price, or set apart because it has none, and none is lost. All lines are required: there is an
-- answer exactly when no line is set apart, and it has the lines themselves, in their order, each
-- at its orderable price.
pub price_lines_parts :
    (availability : ℕ → Option AvailabilityDetail) (lines : List OrderableLine)
    → let price = λ (l : OrderableLine). orderable_unit_price (availability l.article) l.quantity in
      let parts = price_lines availability lines in
      All (λ p. price p.line ≡ some p.unit_price) parts.priced
      × (parts.unorderable ≡ keep_if (λ l. is_none (price l)) lines)
      × (length parts.unorderable + length parts.priced ≡ length lines)
      × (length parts.unorderable ≡ 0
          → (require_priced_lines availability lines ≡ some parts.priced)
            × (map (λ p. p.line) parts.priced ≡ lines))
      × (1 ≤ length parts.unorderable → require_priced_lines availability lines ≡ none)
unfolding price_lines require_priced_lines
price_lines_parts availability lines =
    let price = λ (l : OrderableLine). orderable_unit_price (availability l.article) l.quantity in
    let parts = price_from-parts availability (record { priced = []; unorderable = [] }) lines in
    let counted = length-keep_if (λ l. is_none (price l)) lines in
    let lengths = to_priced-length availability lines in
    rw parts (
      to_priced-All availability lines,
      refl,
      omega (arith, counted, lengths),
      λ all.
          (ground (arith, all), to_priced-lines availability lines (omega (arith, counted, all))),
      λ some_left. ground (arith, some_left),
    )

-- ===== src/Inventory/Availability/Answers.antt =====
-- What inventory.service.ts answers for each requested article.
use vp_parts.Base.{
  ℕ, ◌≡◌, refl, ap, ◌∙◌, inl, inr, true, ◌||◌, none, some, List, [], ◌∷◌, ◌++◌, arith, ℕ_discrete,
  ◌==◌, if◌then◌else◌, get_or_else, Bool-cases, Option-cases, contains, find_row,
}
use vp_parts.Checkout.{VatRate}
use vp_parts.Inventory.Offers.{sourced_supplier_sell_price}
use vp_parts.Inventory.Offers.Selection.{scan_offer, select_best_offer-scan}
use vp_parts.Inventory.Stock.{find_by_article, rows_of}
use vp_parts.Inventory.Stock.Reads.{find_by_articles-rows}
use vp_parts.Inventory.Availability.{
  StockTables, StockByArticle, ResolvedOffers, DeliveryClock, ProjectedWarehouse,
  ArticleInventoryDetail, AvailabilityEntry, empty_offers, unique_from, unique_articles,
  read_single, read_batch, read_stock, to_own_offer, to_offers, offers_of,
  build_warehouse_availability, to_inventory_detail, set_entry, detail_of, set_details,
  get_availability,
}

contains-append_one :
    (xs : List ℕ) (a k : ℕ) → contains (xs ++ a ∷ []) k ≡ contains xs k || (a == k)
contains-append_one [] a k = ground arith
contains-append_one (x ∷ xs) a k = ground (arith, contains-append_one xs a k)

contains-unique_from :
    (seen articles : List ℕ) (k : ℕ)
    → contains (unique_from seen articles) k ≡ contains seen k || contains articles k
contains-unique_from seen [] k = ground arith
contains-unique_from seen (a ∷ articles) k = elim (Bool-cases (contains seen a)) [
  | inl e ↦ elim (ℕ_discrete a k) [
    | yes q ↦ ground (arith, e, contains-unique_from seen articles k, ap (contains seen) q)
    | no ne ↦ ground (arith, e, ne, contains-unique_from seen articles k)
  ]
  | inr e ↦
      ground
        (arith, e, contains-unique_from (seen ++ a ∷ []) articles k, contains-append_one seen a k)
]

-- The read of the wanted articles finds the rows of each that the read of it alone does.
read_stock-rows :
    (tables : StockTables) (wanted : List ℕ) (k : ℕ)
    → contains wanted k ≡ true
    → (get_or_else (rows_of (read_stock tables wanted).own k) []
        ≡ find_by_article (λ r. r.article) tables.own_table k)
      × (get_or_else (rows_of (read_stock tables wanted).suppliers k) []
          ≡ find_by_article (λ r. r.article) tables.supplier_table k)
unfolding read_single read_batch
read_stock-rows tables [] k h = absurd (ground (arith, h))
read_stock-rows tables (a ∷ []) k h = elim (ℕ_discrete a k) [
  | yes q ↦
      let own = ap (find_by_article (λ r. r.article) tables.own_table) q in
      let suppliers = ap (find_by_article (λ r. r.article) tables.supplier_table) q in
      ground (arith, q, own, suppliers)
  | no ne ↦ absurd (ground (arith, h, ne))
]
read_stock-rows tables (a ∷ b ∷ wanted) k h = (
  find_by_articles-rows (λ r. r.article) tables.own_table (a ∷ b ∷ wanted) k h,
  find_by_articles-rows (λ r. r.article) tables.supplier_table (a ∷ b ∷ wanted) k h,
)

offers_of-rows :
    (clock : DeliveryClock) (stock : StockByArticle) (k : ℕ)
    → get_or_else (offers_of clock stock k) empty_offers
      ≡ to_offers clock
          (get_or_else (rows_of stock.own k) [])
          (get_or_else (rows_of stock.suppliers k) [])
unfolding offers_of to_offers to_own_offer
offers_of-rows clock stock k = elim (Option-cases (rows_of stock.own k)) [
  | inl e ↦ elim (Option-cases (rows_of stock.suppliers k)) [
    | inl f ↦ ground (arith, e, f)
    | inr (ys, f) ↦ ground (arith, e, f)
  ]
  | inr (xs, e) ↦ ground (arith, e)
]

find_row-set_entry :
    (es : List AvailabilityEntry) (entry : AvailabilityEntry) (k : ℕ)
    → find_row (λ e. k == e.article) (set_entry es entry)
      ≡ (if k == entry.article then some entry else find_row (λ e. k == e.article) es)
find_row-set_entry [] entry k = ground arith
find_row-set_entry (e ∷ es) entry k = ground (arith, find_row-set_entry es entry k)

module _ (clock : DeliveryClock) (rate : VatRate) (projections : List ProjectedWarehouse)
    (now : ℕ) where
  -- The detail of an article with those offers.
  abbrev pub detail_with : ResolvedOffers → ArticleInventoryDetail
  detail_with offers =
      to_inventory_detail
        (scan_offer offers.own (sourced_supplier_sell_price offers.suppliers) rate)
        (build_warehouse_availability offers projections) now

  pub detail_of-some :
      (offers : ResolvedOffers)
      → detail_of clock rate projections now offers ≡ some (detail_with offers)
  unfolding detail_of
  detail_of-some offers = rw (select_best_offer-scan offers.own offers.suppliers rate) refl

  -- The entry that the loop writes for an article.
  abbrev entry_of : StockByArticle → ℕ → AvailabilityEntry
  entry_of stock k = record {
    article = k;
    detail = detail_with (get_or_else (offers_of clock stock k) empty_offers);
  }

  set_details-find :
      (stock : StockByArticle) (result : List AvailabilityEntry) (articles : List ℕ) (k : ℕ)
      → (r : List AvailabilityEntry) × (set_details clock rate projections now stock result articles
          ≡ some r)
        × (find_row (λ e. k == e.article) r ≡ (
            if contains articles k
            then some (entry_of stock k)
            else find_row (λ e. k == e.article) result))
  set_details-find stock result [] k = (result, refl, refl)
  set_details-find stock result (a ∷ articles) k =
      let (r, made, found) =
        set_details-find stock (set_entry result (entry_of stock a)) articles k in
      let one = find_row-set_entry result (entry_of stock a) k in
      (
        r,
        rw (detail_of-some (get_or_else (offers_of clock stock a) empty_offers), set_details) made,
        elim (ℕ_discrete a k) [
          | yes q ↦
              let same : some (entry_of stock a) ≡ some (entry_of stock k) =
                ap (λ z. some (entry_of stock z)) q in
              found ∙ ground (arith, one, q, same)
          | no ne ↦ found ∙ ground (arith, one, ne)
        ],
      )

-- The read answers each article for itself. While the tables can be read, there is an answer; it has
-- an entry for each requested article and for no other, and the entry is computed from the rows of
-- that article alone, as many articles as are asked for at once, in whatever order and however often.
pub get_availability-each :
    (clock : DeliveryClock) (rate : VatRate) (projections : List ProjectedWarehouse) (now : ℕ)
    → (tables : StockTables) (articles : List ℕ) (k : ℕ)
    → (r : List AvailabilityEntry) × (get_availability clock rate projections now
          (some tables)
          articles
        ≡ some r)
      × (find_row (λ e. k == e.article) r ≡ (
          if contains articles k
          then some (record {
            article = k;
            detail = detail_with clock rate projections now (
                to_offers clock
                  (find_by_article (λ r. r.article) tables.own_table k)
                  (find_by_article (λ r. r.article) tables.supplier_table k));
          })
          else none))
unfolding get_availability unique_articles
get_availability-each clock rate projections now tables [] k = ([], refl, refl)
get_availability-each clock rate projections now tables (a ∷ articles) k =
    let stock = read_stock tables (unique_articles (a ∷ articles)) in
    let (r, made, found) = set_details-find clock rate projections now stock [] (a ∷ articles) k in
    (
      r,
      made,
      found ∙ elim (Bool-cases (contains (a ∷ articles) k)) [
        | inl e ↦
            let wanted = contains-unique_from [] (a ∷ articles) k ∙ e in
            let (own, suppliers) =
              read_stock-rows tables (unique_articles (a ∷ articles)) k wanted in
            rw e (
              ap
                (λ o.
                  some (record { article = k; detail = detail_with clock rate projections now o }))
                (offers_of-rows clock stock k ∙ rw own (rw suppliers refl)))
        | inr e ↦ rw e refl
      ],
    )

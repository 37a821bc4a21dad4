-- ===== src/Inventory/Stock.antt =====
-- The shop's and the suppliers' stock, apps/api/src/inventory/autoparts.repository.ts and
-- supplier-stock.repository.ts: the two tables as lists of their rows, an article as its identity's
-- key, stocks and prices as read, not negative. A query answers its rows in the order of the table.
pub mod Reads
use vp_parts.Base.{
  ℕ, Option, none, some, List, [], ◌∷◌, ◌++◌, ◌==◌, if◌then◌else◌, contains, keep_if,
}
use vp_parts.Inventory.Rules.{Supplier, WarehouseCode}

pub record OwnStockRow : Type 0 where
  pub article : ℕ
  pub available_quantity : ℕ
  pub sell_price_ex_vat : ℕ
  pub sell_price_inc_vat : ℕ

pub record SupplierStockRow : Type 0 where
  pub article : ℕ
  pub supplier_source : Option Supplier
  pub warehouse_code : Option WarehouseCode
  pub availability : Option ℕ
  pub buy_price : ℕ
  pub sell_price : ℕ

-- An entry of a map from articles to their rows.
pub record Group (A : Type 0) : Type 0 where
  pub article : ℕ
  pub rows : List A

module _ {A : Type 0} (article_of : A → ℕ) where
  -- The read of one article.
  abbrev pub find_by_article : List A → ℕ → List A
  find_by_article table article = keep_if (λ r. article == article_of r) table

  abbrev pub add_to_group : A → List (Group A) → List (Group A)
  add_to_group row [] = record { article = article_of row; rows = row ∷ [] } ∷ []
  add_to_group row (group ∷ groups) =
      let rest = add_to_group row groups in
      if group.article == article_of row
      then record group { rows = group.rows ++ row ∷ [] } ∷ groups
      else group ∷ rest

  abbrev pub group_rows : List (Group A) → List A → List (Group A)
  group_rows groups [] = groups
  group_rows groups (row ∷ rows) = group_rows (add_to_group row groups) rows

  -- The batch read of distinct articles: their rows, grouped.
  abbrev pub find_by_articles : List A → List ℕ → List (Group A)
  find_by_articles table [] = []
  find_by_articles table (article ∷ articles) =
      group_rows [] (keep_if (λ r. contains (article ∷ articles) (article_of r)) table)

-- `get` of a map from articles to rows.
abbrev pub rows_of : {A : Type 0} → List (Group A) → ℕ → Option (List A)
rows_of [] article = none
rows_of (group ∷ groups) article =
    if group.article == article then some group.rows else rows_of groups article

-- ===== src/Cart/Service.antt =====
-- Adopting a guest's cart: `adopt` of apps/api/src/cart/cart.service.ts, with the stored lines of
-- apps/api/src/cart/cart.mapper.ts. The customer that the account resolves to is an argument. A
-- stored line's `addedAt`, written as text and read back, is the instant itself. The errors are the
-- repository's, before they are translated for the client.
pub mod Units
pub mod Adoption
use vp_parts.Base.{ℕ, Option, none, some, List, [], map}
use vp_parts.Cart.Shipping.{from_shipping_columns}
use vp_parts.Cart.Tables.{
  Cart, CartItem, Carts, Identity, MergedCartLine, Result, ok, ◌>>=◌, find_active_by_token,
  find_active_by_customer, items_of,
}
use vp_parts.Cart.Merge.{StoredLine, CartMergeResult, merge_cart_lines}
use vp_parts.Cart.Lifecycle.{claim_for_customer, merge_into}

unfoldable pub to_stored_line : CartItem → StoredLine
unfolding from_shipping_columns
to_stored_line item = record {
  identity = record { brand_id = item.brand_id; article_number = item.article_number };
  quantity = item.quantity;
  is_selected = item.is_selected;
  added_at = item.added_at;
  catalog = item.catalog;
  shipping_profile = from_shipping_columns item.shipping;
}

unfoldable pub to_merged_line : StoredLine → MergedCartLine
to_merged_line line = record {
  line = record {
    identity = line.identity;
    quantity = line.quantity;
    catalog = line.catalog;
    shipping_profile = line.shipping_profile;
  };
  is_selected = line.is_selected;
  added_at = line.added_at;
}

-- `mergeCartLines` of two carts as they were read.
unfoldable pub merged_of : Cart → Cart → Carts → CartMergeResult
unfolding to_stored_line items_of
merged_of account guest s =
    merge_cart_lines (map to_stored_line (items_of account.id s))
      (map to_stored_line (items_of guest.id s))

-- `merge`: the carts and their lines were read from `read`; the write is in `s`.
unfoldable pub merge_carts : Cart → Cart → ℕ → Carts → Carts → Result (Carts × List Identity)
unfolding merged_of to_merged_line
merge_carts account guest now read s =
    let merged = merged_of account guest read in
    merge_into account.id account.version guest.id (map to_merged_line merged.lines) now s
    >>= (λ s'. ok (s', merged.dropped))

-- What is dropped is answered with the tables. `read` are the tables when the carts were read.
unfoldable pub adopt : ℕ → Option ℕ → ℕ → Carts → Carts → Result (Carts × List Identity)
unfolding find_active_by_token find_active_by_customer claim_for_customer merge_carts
adopt customer_id token now read s =
    let guest_cart : Option Cart = elim token [
      | none ↦ none
      | some t ↦ find_active_by_token t read
    ] in
    elim guest_cart [
      | none ↦ ok (s, [])
      | some guest ↦ elim (find_active_by_customer customer_id read) [
        | none ↦ claim_for_customer guest.id customer_id now s >>= (λ s'. ok (s', []))
        | some account ↦ merge_carts account guest now read s
      ]
    ]

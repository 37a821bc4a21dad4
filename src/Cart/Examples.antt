-- ===== src/Cart/Examples.antt =====
-- A customer's cart and a guest's.
use vp_parts.Base.{
  ℕ, ◌≤◌, ◌≡◌, refl, ◌↔◌, Bool, true, false, none, some, List, [], ◌∷◌, arith, length, Has,
}
use vp_parts.Cart.Tables.{
  find_active_by_customer, find_active_by_token, Identity, Cart, active, ordered, CartItem, Carts,
  Catalog, CartLineInput, MergedCartLine, ok, max_cart_lines, lock_cart, find_by_id,
}
use vp_parts.Cart.Shipping.{
  ResolvedShippingProfile, CartShippingColumns, to_shipping_columns, from_shipping_columns,
  shipping_columns_roundtrip,
}
use vp_parts.Cart.Lines.Valid.{IsValid, Keeps}
use vp_parts.Cart.Lines.Operations.{adds, apply_op}
use vp_parts.Cart.Lines.Invariant.{apply_op-IsValid}
use vp_parts.Cart.Lines.Refinement.{apply_op-Simulates}
use vp_parts.Cart.Lines.Simulation.{Simulates}
use vp_parts.Cart.Lines.Frame.{IsFramed, apply_op-IsFramed}
use vp_parts.Cart.Lifecycle.{
  CartOrderClosure, close_for_order, merge_into, delete_expired_guest_carts,
}
use vp_parts.Cart.Lifecycle.Closing.{close_for_order_splits}
use vp_parts.Cart.Lifecycle.Uniting.{merge_into_united}
use vp_parts.Cart.Lifecycle.Sweeping.{IsExpiredGuest, delete_expired_guest_carts_sweeps}
use vp_parts.Cart.Requests.{CartRequester, request_add}
use vp_parts.Cart.Requests.Keeping.{requests_keep_valid}
use vp_parts.Cart.Service.{adopt}
use vp_parts.Cart.Service.Adoption.{adopt_unites}
use vp_parts.Cart.Merge.{StoredLine, oldest_first, merge_cart_lines}
use vp_parts.Cart.Merge.Reference.{merge_by_key, merge_cart_lines-eq-merge_by_key}
use vp_parts.Cart.Merge.Union.{merge_cart_lines_union}

abbrev account_cart : Cart
account_cart = record {
  id = 1;
  token = none;
  released_token = none;
  customer_id = some 5;
  status = active;
  version = 3;
  merged_into_id = none;
  order_id = none;
  expires_at = 1000;
}

abbrev guest_cart : Cart
guest_cart = record account_cart { id = 2; token = some 70; customer_id = none }

abbrev a_catalog : Catalog
a_catalog = record {
  brand_name = 40;
  brand_logo_url = none;
  description = 41;
  thumbnail_url = none;
  added_at_price_inc_vat = some 1200;
}

abbrev a_profile : ResolvedShippingProfile
a_profile = record { weight_grams = some 900; package_cm = none; is_estimated = true }

abbrev whole_columns : CartShippingColumns
whole_columns = record {
  weight_grams = some 900;
  package_length_cm = none;
  package_width_cm = none;
  package_height_cm = none;
  is_shipping_estimated = true;
}

abbrev an_item : ℕ → ℕ → Bool → CartItem
an_item cart_id article_number is_selected = record {
  cart_id = cart_id;
  brand_id = 30;
  article_number = article_number;
  quantity = 2;
  is_selected = is_selected;
  added_at = 10;
  catalog = a_catalog;
  shipping = whole_columns;
}

abbrev tables : Carts
tables = record {
  carts = account_cart ∷ guest_cart ∷ [];
  items = an_item 1 31 true ∷ an_item 1 32 false ∷ an_item 2 31 true ∷ [];
}

abbrev empty_tables : Carts
empty_tables = record {
  carts = account_cart ∷ record guest_cart { status = ordered } ∷ [];
  items = [];
}

abbrev empty_tables-IsValid : IsValid empty_tables
empty_tables-IsValid = record {
  room = λ c. omega arith;
  unique = λ c i. omega arith;
  quantities = tt;
}

abbrev a_line_input : CartLineInput
a_line_input = record {
  identity = record { brand_id = 30; article_number = 31 };
  quantity = 2;
  catalog = a_catalog;
  shipping_profile = a_profile;
}

apply_op-IsValid_example : Keeps IsValid (apply_op 1 20 (adds a_line_input) empty_tables)
apply_op-IsValid_example =
    apply_op-IsValid 1 20 (adds a_line_input) empty_tables (omega arith, omega arith)
      empty_tables-IsValid

apply_op-IsFramed_example : Keeps (IsFramed 1 20 tables) (apply_op 1 20 (adds a_line_input) tables)
apply_op-IsFramed_example = apply_op-IsFramed 1 20 (adds a_line_input) tables

apply_op-Simulates_example :
    Simulates 1 (adds a_line_input) tables (apply_op 1 20 (adds a_line_input) tables)
unfolding lock_cart
apply_op-Simulates_example = apply_op-Simulates 1 20 (adds a_line_input) tables _ refl refl

abbrev a_closure : CartOrderClosure
a_closure = record { cart_id = 1; order_id = 100; customer_id = some 5; token = none }

close_for_order_splits_example : (s' : Carts) × (close_for_order a_closure 3 20 tables ≡ ok s')
unfolding find_by_id
close_for_order_splits_example = (
  (close_for_order_splits a_closure 3 20 tables account_cart (refl, refl, refl)).0,
  (close_for_order_splits a_closure 3 20 tables account_cart (refl, refl, refl)).1,
)

abbrev a_merged_line : MergedCartLine
a_merged_line = record { line = a_line_input; is_selected = true; added_at = 10 }

merge_into_united_example : (s' : Carts) × (merge_into 1 3 2 (a_merged_line ∷ []) 20 tables ≡ ok s')
unfolding find_by_id
merge_into_united_example = (
  ((merge_into_united 1 2 3 20 (a_merged_line ∷ []) tables account_cart guest_cart refl refl
        (λ e. omega (arith, e))).1
      refl).0,
  ((merge_into_united 1 2 3 20 (a_merged_line ∷ []) tables account_cart guest_cart refl refl
        (λ e. omega (arith, e))).1
      refl).1,
)

delete_expired_guest_carts_sweeps_example :
    Has guest_cart (delete_expired_guest_carts 2000 tables).1.carts
    ↔ (Has guest_cart tables.carts × (¬ IsExpiredGuest 2000 guest_cart))
delete_expired_guest_carts_sweeps_example =
    (delete_expired_guest_carts_sweeps 2000 tables).0 guest_cart

abbrev stored : ℕ → ℕ → StoredLine
stored article_number added_at = record {
  identity = record { brand_id = 30; article_number = article_number };
  quantity = 60;
  is_selected = true;
  added_at = added_at;
  catalog = a_catalog;
  shipping_profile = a_profile;
}

abbrev existing_lines : List StoredLine
existing_lines = stored 31 10 ∷ stored 32 11 ∷ []

abbrev incoming_lines : List StoredLine
incoming_lines = stored 33 9 ∷ stored 31 8 ∷ []

merge_cart_lines-eq-merge_by_key_example :
    merge_cart_lines existing_lines incoming_lines
    ≡ merge_by_key (record { lines = existing_lines; dropped = [] }) (oldest_first incoming_lines)
merge_cart_lines-eq-merge_by_key_example =
    merge_cart_lines-eq-merge_by_key existing_lines incoming_lines (refl, (refl, tt))

merge_cart_lines_union_example :
    length (merge_cart_lines existing_lines incoming_lines).lines ≤ max_cart_lines
merge_cart_lines_union_example =
    (merge_cart_lines_union existing_lines incoming_lines (refl, (refl, tt)) (omega arith)
      ((omega arith, omega arith), ((omega arith, omega arith), tt))
      ((omega arith, omega arith), ((omega arith, omega arith), tt))).4

shipping_columns_roundtrip_example :
    from_shipping_columns (to_shipping_columns a_profile) ≡ a_profile
shipping_columns_roundtrip_example =
    (shipping_columns_roundtrip a_profile whole_columns (refl, refl)).0

abbrev new_visitor : CartRequester
new_visitor = record { clerk_id = none; token = none }

requests_keep_valid_example :
    IsValid
      (request_add
        (λ clerk_id. none)
        new_visitor
        20
        empty_tables
        empty_tables
        3
        71
        a_line_input).tables
requests_keep_valid_example =
    (requests_keep_valid (λ clerk_id. none) new_visitor 20 empty_tables empty_tables 3 71
      a_line_input a_line_input.identity (record { quantity = some 4; is_selected = none }) true
      empty_tables-IsValid (omega arith, omega arith) (omega arith, omega arith)).0

tables-IsValid : IsValid tables
tables-IsValid = record {
  room = λ c. ground arith;
  unique = λ c i. ground arith;
  quantities =
      ((omega arith, omega arith), ((omega arith, omega arith), ((omega arith, omega arith), tt)));
}

adopt_unites_example :
    (s' : Carts) × (dropped : List Identity) × (adopt 5 (some 70) 20 tables tables
      ≡ ok (s', dropped))
unfolding find_active_by_customer find_active_by_token find_by_id
adopt_unites_example = (
  (adopt_unites 5 70 20 tables account_cart guest_cart tables-IsValid refl refl refl refl
      (λ e. omega (arith, e))).0,
  (adopt_unites 5 70 20 tables account_cart guest_cart tables-IsValid refl refl refl refl
      (λ e. omega (arith, e))).1,
  (adopt_unites 5 70 20 tables account_cart guest_cart tables-IsValid refl refl refl refl
      (λ e. omega (arith, e))).2,
)

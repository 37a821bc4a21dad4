-- ===== src/Cart/Lifecycle.antt =====
-- The operations of apps/api/src/cart/cart.repository.ts that open, unite, sweep and retire carts.
pub mod Uniting
pub mod Sweeping
pub mod Closing
use vp_parts.Base.{
  ℕ, ◌+◌, Bool, not, ◌&&◌, Option, none, some, List, ◌++◌, map, ltb, ◌==◌, if◌then◌else◌, is_none,
  contains, update_where, keep_if, count_where,
}
use vp_parts.Cart.Shipping.{to_shipping_columns}
use vp_parts.Cart.Tables.{
  Cart, CartStatus, active, merged, ordered, is_active, CartItem, Carts, MergedCartLine, Result, ok,
  err, ◌>>=◌, version_conflict, record_not_found, guest_expiry, in_cart, lock_cart, new_cart,
  add_cart, update_cart, touch,
}

-- `update` by the primary key: an error when there is no such row.
abbrev pub update_row : ℕ → (Cart → Cart) → Carts → Result Carts
update_row cart_id f s =
    if ltb 0 (count_where (λ c. c.id == cart_id) s.carts)
    then ok (update_cart cart_id f s)
    else err record_not_found

unfoldable pub claim_for_customer : ℕ → ℕ → ℕ → Carts → Result Carts
unfolding guest_expiry
claim_for_customer cart_id customer_id now = update_row cart_id λ c. record c {
  customer_id = some customer_id;
  token = none;
  version = c.version + 1;
  expires_at = guest_expiry now;
}

unfoldable pub merged_item : ℕ → MergedCartLine → CartItem
unfolding to_shipping_columns
merged_item cart_id m = record {
  cart_id = cart_id;
  brand_id = m.line.identity.brand_id;
  article_number = m.line.identity.article_number;
  quantity = m.line.quantity;
  is_selected = m.is_selected;
  added_at = m.added_at;
  catalog = m.line.catalog;
  shipping = to_shipping_columns m.line.shipping_profile;
}

-- The source cart, merged away.
abbrev pub retired : ℕ → Cart → Cart
retired target_id c = record c { status = merged; token = none; merged_into_id = some target_id }

write_lines : ℕ → List MergedCartLine → Carts → Carts
unfolding merged_item
write_lines target_id lines s = record s {
  items = keep_if (λ x. not (in_cart target_id x)) s.items ++ map (merged_item target_id) lines;
}

pub merge_into : ℕ → ℕ → ℕ → List MergedCartLine → ℕ → Carts → Result Carts
unfolding lock_cart guest_expiry write_lines
merge_into target_id target_version source_id lines now s = elim (lock_cart target_id s) [
  | none ↦ err version_conflict
  | some target ↦
      if is_active target.status && (target.version == target_version)
      then update_row source_id (retired target_id) (write_lines target_id lines s)
        >>= (λ s'. update_row target_id (touch (guest_expiry now)) s')
      else err version_conflict
]

abbrev pub is_swept : ℕ → Cart → Bool
is_swept now c =
    is_active c.status && (is_none c.customer_id && (is_none c.order_id && ltb c.expires_at now))

-- How many carts were deleted, and the tables after. A deleted cart's lines go with it
-- (`onDelete: Cascade`).
pub delete_expired_guest_carts : ℕ → Carts → ℕ × Carts
delete_expired_guest_carts now s =
    let swept = map (λ c. c.id) (keep_if (is_swept now) s.carts) in
    (
      count_where (is_swept now) s.carts,
      record {
        carts = keep_if (λ c. not (is_swept now c)) s.carts;
        items = keep_if (λ x. not (contains swept x.cart_id)) s.items;
      },
    )

pub record CartOrderClosure : Type 0 where
  pub cart_id : ℕ
  pub order_id : ℕ
  pub customer_id : Option ℕ
  pub token : Option ℕ

-- The ordered cart: a guest's token is released.
abbrev pub close_cart : CartOrderClosure → Cart → Cart
close_cart o c = record c {
  status = ordered;
  order_id = some o.order_id;
  version = c.version + 1;
  token = elim o.token [ none ↦ c.token | some t ↦ none ];
  released_token = elim o.token [ none ↦ c.released_token | some t ↦ some t ];
}

abbrev pub is_unselected : ℕ → CartItem → Bool
is_unselected cart_id x = in_cart cart_id x && not x.is_selected

-- In the caller's transaction. `next_id` is the identifier that a fresh cart gets.
unfoldable pub close_for_order : CartOrderClosure → ℕ → ℕ → Carts → Result Carts
unfolding new_cart guest_expiry
close_for_order o next_id now s = update_row o.cart_id (close_cart o) s >>= (λ s'.
    if count_where (is_unselected o.cart_id) s'.items == 0
    then ok s'
    else ok (record (add_cart (new_cart next_id o.token o.customer_id now) s') {
      items = update_where (is_unselected o.cart_id) (λ x. record x { cart_id = next_id }) s'.items;
    }))

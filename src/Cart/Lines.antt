-- ===== src/Cart/Lines.antt =====
-- The line operations of apps/api/src/cart/cart.repository.ts. A transaction is a function from the
-- tables: it answers the tables after it, or the error that rolled it back, and the row lock makes
-- it one step. The clock is an argument.
pub mod Operations
pub mod Valid
pub mod Adding
pub mod Invariant
pub mod Frame
pub mod Book
pub mod Simulation
pub mod Refinement
use vp_parts.Base.{
  ℕ, ◌+◌, Bool, true, not, ◌&&◌, none, some, [], ◌∷◌, ◌++◌, ltb, leb, ◌==◌, if◌then◌else◌,
  get_or_else, update_where, keep_if, count_where,
}
use vp_parts.Cart.Shipping.{CartShippingColumns, to_shipping_columns}
use vp_parts.Cart.Tables.{
  CartItem, Carts, Identity, CartLineInput, CartLinePatch, Result, ok, err, ◌>>=◌, cart_closed,
  capacity_conflict, item_not_found, max_cart_lines, max_cart_line_quantity, guest_expiry,
  is_active, in_cart, is_line, lock_cart, update_cart, touch,
}

-- Every change of a cart: under its lock, refused unless it is active, and followed by `touch`.
pub mutate : ℕ → ℕ → (Carts → Result Carts) → Carts → Result Carts
unfolding lock_cart guest_expiry
mutate cart_id now change s = elim (lock_cart cart_id s) [
  | none ↦ err cart_closed
  | some cart ↦
      if is_active cart.status
      then change s >>= (λ s'. ok (update_cart cart_id (touch (guest_expiry now)) s'))
      else err cart_closed
]

pub assert_room_for_line : ℕ → Identity → Carts → Result Carts
assert_room_for_line cart_id i s =
    if ltb 0 (count_where (is_line cart_id i) s.items)
    then ok s
    else if leb max_cart_lines (count_where (in_cart cart_id) s.items)
    then err capacity_conflict
    else ok s

abbrev raise_line : ℕ → CartShippingColumns → CartItem → CartItem
raise_line quantity shipping item = record item {
  quantity = item.quantity + quantity;
  is_selected = true;
  shipping = shipping;
}

pub new_item : ℕ → ℕ → CartLineInput → CartItem
unfolding to_shipping_columns
new_item cart_id now line = record {
  cart_id = cart_id;
  brand_id = line.identity.brand_id;
  article_number = line.identity.article_number;
  quantity = line.quantity;
  is_selected = true;
  added_at = now;
  catalog = line.catalog;
  shipping = to_shipping_columns line.shipping_profile;
}

-- `upsert`
pub upsert_line : ℕ → ℕ → CartLineInput → Carts → Carts
unfolding new_item to_shipping_columns
upsert_line cart_id now line s =
    if ltb 0 (count_where (is_line cart_id line.identity) s.items)
    then record s {
      items =
          update_where (is_line cart_id line.identity)
            (raise_line line.quantity (to_shipping_columns line.shipping_profile)) s.items;
    }
    else record s { items = s.items ++ new_item cart_id now line ∷ [] }

abbrev capped : CartItem → CartItem
capped item = record item { quantity = max_cart_line_quantity }

pub clamp_line : ℕ → Identity → Carts → Carts
clamp_line cart_id i s = record s {
  items =
      update_where (λ x. is_line cart_id i x && ltb max_cart_line_quantity x.quantity) capped
        s.items;
}

abbrev patched : CartLinePatch → CartItem → CartItem
patched patch item = record item {
  quantity = get_or_else patch.quantity item.quantity;
  is_selected = get_or_else patch.is_selected item.is_selected;
}

-- The changes that the operations make under the lock.
abbrev adding : ℕ → ℕ → CartLineInput → Carts → Result Carts
adding cart_id now line s =
    assert_room_for_line cart_id line.identity s
    >>= (λ s'. ok (clamp_line cart_id line.identity (upsert_line cart_id now line s')))

abbrev patching : ℕ → Identity → CartLinePatch → Carts → Result Carts
patching cart_id i patch s =
    if count_where (is_line cart_id i) s.items == 0
    then err item_not_found
    else ok (record s { items = update_where (is_line cart_id i) (patched patch) s.items })

abbrev removing : ℕ → Identity → Carts → Result Carts
removing cart_id i s = ok (record s { items = keep_if (λ x. not (is_line cart_id i x)) s.items })

abbrev selected : Bool → CartItem → CartItem
selected b x = record x { is_selected = b }

abbrev selecting : ℕ → Bool → Carts → Result Carts
selecting cart_id b s =
    ok (record s { items = update_where (in_cart cart_id) (selected b) s.items })

abbrev emptying : ℕ → Carts → Result Carts
emptying cart_id s = ok (record s { items = keep_if (λ x. not (in_cart cart_id x)) s.items })

pub add_line : ℕ → ℕ → CartLineInput → Carts → Result Carts
unfolding assert_room_for_line upsert_line clamp_line
add_line cart_id now line = mutate cart_id now (adding cart_id now line)

pub update_line : ℕ → ℕ → Identity → CartLinePatch → Carts → Result Carts
update_line cart_id now i patch = mutate cart_id now (patching cart_id i patch)

pub remove_line : ℕ → ℕ → Identity → Carts → Result Carts
remove_line cart_id now i = mutate cart_id now (removing cart_id i)

pub set_all_selected : ℕ → ℕ → Bool → Carts → Result Carts
set_all_selected cart_id now b = mutate cart_id now (selecting cart_id b)

pub clear : ℕ → ℕ → Carts → Result Carts
clear cart_id now = mutate cart_id now (emptying cart_id)

-- ===== src/Cart/Tables.antt =====
-- The cart tables, and the reads and creations of apps/api/src/cart/cart.repository.ts.
use vp_parts.Base.{
  ℕ, ◌+◌, ◌*◌, Bool, true, false, ◌&&◌, Option, none, some, List, [], ◌∷◌, ◌++◌, ltb, ◌==◌,
  is_some_of, find_row, update_where, keep_if, sort_by,
}
use vp_parts.Cart.Shipping.{ResolvedShippingProfile, CartShippingColumns}

pub data CartStatus : Type 0 where
  active merged ordered : CartStatus

abbrev pub is_active : CartStatus → Bool
is_active active = true
is_active merged = false
is_active ordered = false

pub record Cart : Type 0 where
  pub id : ℕ
  pub token : Option ℕ
  pub released_token : Option ℕ
  pub customer_id : Option ℕ
  pub status : CartStatus
  pub version : ℕ
  pub merged_into_id : Option ℕ
  pub order_id : Option ℕ
  pub expires_at : ℕ

-- The part of a line that names it and that the customer saw.
pub record Catalog : Type 0 where
  pub brand_name : ℕ
  pub brand_logo_url : Option ℕ
  pub description : ℕ
  pub thumbnail_url : Option ℕ
  pub added_at_price_inc_vat : Option ℕ

pub record CartItem : Type 0 where
  pub cart_id : ℕ
  pub brand_id : ℕ
  pub article_number : ℕ
  pub quantity : ℕ
  pub is_selected : Bool
  pub added_at : ℕ
  pub catalog : Catalog
  pub shipping : CartShippingColumns

pub record Carts : Type 0 where
  pub carts : List Cart
  pub items : List CartItem

pub record Identity : Type 0 where
  pub brand_id : ℕ
  pub article_number : ℕ

pub record CartLineInput : Type 0 where
  pub identity : Identity
  pub quantity : ℕ
  pub catalog : Catalog
  pub shipping_profile : ResolvedShippingProfile

pub record CartLinePatch : Type 0 where
  pub quantity : Option ℕ
  pub is_selected : Option Bool

pub record MergedCartLine : Type 0 where
  pub line : CartLineInput
  pub is_selected : Bool
  pub added_at : ℕ

pub record LockedCart : Type 0 where
  pub status : CartStatus
  pub version : ℕ
  pub order_id : Option ℕ
  pub token : Option ℕ

-- The repository's errors. `record_not_found` is Prisma's, of an `update` that names no row.
pub data CartError : Type 0 where
  version_conflict cart_closed capacity_conflict item_not_found record_not_found : CartError

pub data Result {ℓ} (A : Type ℓ) : Type ℓ where
  ok : A → Result A
  err : CartError → Result A

infixl 5 ◌>>=◌
abbrev pub ◌>>=◌ {ℓ κ} : {A : Type ℓ} {B : Type κ} → Result A → (A → Result B) → Result B
ok a >>= f = f a
err e >>= f = err e

abbrev pub max_cart_lines : ℕ
max_cart_lines = 50

abbrev pub max_cart_line_quantity : ℕ
max_cart_line_quantity = 99

abbrev pub guest_cart_ttl_days : ℕ
guest_cart_ttl_days = 30

unfoldable pub guest_expiry : ℕ → ℕ
guest_expiry now = now + guest_cart_ttl_days * 24 * 60 * 60 * 1000

abbrev pub in_cart : ℕ → CartItem → Bool
in_cart cart_id item = item.cart_id == cart_id

-- The unique key of a line.
abbrev pub is_line : ℕ → Identity → CartItem → Bool
is_line cart_id i item =
    in_cart cart_id item
    && ((item.brand_id == i.brand_id) && (item.article_number == i.article_number))

unfoldable pub lock_cart : ℕ → Carts → Option LockedCart
lock_cart cart_id s = elim (find_row (λ c. c.id == cart_id) s.carts) [
  | none ↦ none
  | some c ↦
      some
        (record { status = c.status; version = c.version; order_id = c.order_id; token = c.token })
]

-- `findFirst` over the active carts.
unfoldable pub find_active_by_token : ℕ → Carts → Option Cart
find_active_by_token token s =
    find_row (λ c. is_some_of c.token token && is_active c.status) s.carts

unfoldable pub find_active_by_customer : ℕ → Carts → Option Cart
find_active_by_customer customer_id s =
    find_row (λ c. is_some_of c.customer_id customer_id && is_active c.status) s.carts

unfoldable pub find_by_id : ℕ → Carts → Option Cart
find_by_id cart_id s = find_row (λ c. c.id == cart_id) s.carts

-- `include: withItems`
unfoldable pub items_of : ℕ → Carts → List CartItem
items_of cart_id s = sort_by (λ a b. ltb a.added_at b.added_at) (keep_if (in_cart cart_id) s.items)

unfoldable pub new_cart : ℕ → Option ℕ → Option ℕ → ℕ → Cart
unfolding guest_expiry
new_cart id token customer_id now = record {
  id = id;
  token = token;
  released_token = none;
  customer_id = customer_id;
  status = active;
  version = 0;
  merged_into_id = none;
  order_id = none;
  expires_at = guest_expiry now;
}

abbrev pub add_cart : Cart → Carts → Carts
add_cart c s = record s { carts = s.carts ++ c ∷ [] }

unfoldable pub create_for_guest : ℕ → ℕ → ℕ → Carts → Carts
unfolding new_cart
create_for_guest id token now s = add_cart (new_cart id (some token) none now) s

unfoldable pub create_for_customer : ℕ → ℕ → ℕ → Carts → Carts
unfolding new_cart
create_for_customer id customer_id now s = add_cart (new_cart id none (some customer_id) now) s

abbrev pub update_cart : ℕ → (Cart → Cart) → Carts → Carts
update_cart cart_id f s = record s { carts = update_where (λ c. c.id == cart_id) f s.carts }

-- The version rises and the expiry moves out.
abbrev pub touch : ℕ → Cart → Cart
touch expires_at c = record c { version = c.version + 1; expires_at = expires_at }

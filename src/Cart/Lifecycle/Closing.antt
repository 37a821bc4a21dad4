-- ===== src/Cart/Lifecycle/Closing.antt =====
-- What `closeForOrder` does to the tables.
use vp_parts.Base.{
  ℕ, ◌≡◌, refl, sym, ◌∙◌, subst, ◌≢◌, Bool, ◌&&◌, none, some, List, [], ◌∷◌, ◌++◌, map, arith, ◌==◌,
  if◌then◌else◌, length, find_row, update_where, keep_if, count_where, length-update_where,
  update_where-none, find_row-update_where, find_row-append, count-found, append-nil,
  find_row-update_other, find_row-append_found,
}
use vp_parts.Cart.Tables.{Cart, CartItem, Carts, ok, in_cart, find_by_id, new_cart}
use vp_parts.Cart.Lifecycle.{CartOrderClosure, close_cart, is_unselected, close_for_order}

abbrev pub into_cart : ℕ → CartItem → CartItem
into_cart next_id x = record x { cart_id = next_id }

abbrev is_kept : ℕ → CartItem → Bool
is_kept cart_id x = in_cart cart_id x && x.is_selected

keep-moved :
    (cart_id next_id : ℕ) (xs : List CartItem)
    → next_id ≢ cart_id
    → keep_if (in_cart cart_id) (update_where (is_unselected cart_id) (into_cart next_id) xs)
      ≡ keep_if (is_kept cart_id) xs
keep-moved cart_id next_id [] apart = refl
keep-moved cart_id next_id (x ∷ xs) apart = ground (arith, keep-moved cart_id next_id xs apart)

next-moved :
    (cart_id next_id : ℕ) (xs : List CartItem)
    → count_where (in_cart next_id) xs ≡ 0
    → keep_if (in_cart next_id) (update_where (is_unselected cart_id) (into_cart next_id) xs)
      ≡ map (into_cart next_id) (keep_if (is_unselected cart_id) xs)
next-moved cart_id next_id [] fresh = refl
next-moved cart_id next_id (x ∷ xs) fresh = ground (arith, next-moved cart_id next_id xs)

abbrev closed_carts : CartOrderClosure → List Cart → List Cart
closed_carts o carts = update_where (λ c. c.id == o.cart_id) (close_cart o) carts

abbrev fresh_carts : CartOrderClosure → ℕ → ℕ → Carts → List Cart
fresh_carts o next_id now s =
    if count_where (is_unselected o.cart_id) s.items == 0
    then []
    else new_cart next_id o.token o.customer_id now ∷ []

-- The tables after: when no line is unselected, the update of such lines is none.
abbrev closed_tables : CartOrderClosure → ℕ → ℕ → Carts → Carts
closed_tables o next_id now s = record {
  carts = closed_carts o s.carts ++ fresh_carts o next_id now s;
  items = update_where (is_unselected o.cart_id) (into_cart next_id) s.items;
}

closes :
    (o : CartOrderClosure) (next_id now : ℕ) (s : Carts) (c : Cart)
    → find_by_id o.cart_id s ≡ some c
    → close_for_order o next_id now s ≡ ok (closed_tables o next_id now s)
unfolding close_for_order find_by_id
closes o next_id now s c there = ground (
  arith,
  count-found (λ x. x.id == o.cart_id) c s.carts there,
  append-nil (closed_carts o s.carts),
  update_where-none (is_unselected o.cart_id) (into_cart next_id) s.items,
)

other_cart :
    (o : CartOrderClosure) (next_id : ℕ) (s : Carts) (c : Cart)
    → find_by_id o.cart_id s ≡ some c
    → find_by_id next_id s ≡ none
    → next_id ≢ o.cart_id
unfolding find_by_id
other_cart o next_id s c there free e =
    let both : some c ≡ none = sym there ∙ subst (λ k. find_by_id k s ≡ none) e free in cc

module _ (o : CartOrderClosure) (next_id now : ℕ) (s : Carts) (c : Cart) where
  cart_after :
      find_by_id o.cart_id s ≡ some c
      → find_by_id o.cart_id (closed_tables o next_id now s) ≡ some (close_cart o c)
  unfolding find_by_id
  cart_after there =
      find_row-append_found (λ x. x.id == o.cart_id) (close_cart o c) (closed_carts o s.carts)
        (fresh_carts o next_id now s)
        (find_row-update_where (λ x. x.id == o.cart_id) (close_cart o) s.carts (λ x. refl)
          ∙ rw there refl)

  fresh_after :
      find_by_id o.cart_id s ≡ some c
      → find_by_id next_id s ≡ none
      → find_by_id next_id (closed_tables o next_id now s) ≡ (
          if count_where (is_unselected o.cart_id) s.items == 0
          then none
          else some (new_cart next_id o.token o.customer_id now))
  unfolding find_by_id new_cart
  fresh_after there free =
      let apart = other_cart o next_id s c there free in
      let gone : find_row (λ x. x.id == next_id) (closed_carts o s.carts) ≡ none =
        find_row-update_other (λ x. x.id == next_id) (λ x. x.id == o.cart_id) (close_cart o) s.carts
          (λ x. refl) (λ x h. ground arith)
        ∙ free in
      find_row-append (λ x. x.id == next_id) (closed_carts o s.carts) (fresh_carts o next_id now s)
        gone
      ∙ ground arith

-- What the order's transaction relies on: the cart is there, and `next_id` names no cart and no
-- line's cart.
abbrev pub IsClosable : CartOrderClosure → ℕ → Carts → Cart → Type 0
IsClosable o next_id s c =
    (find_by_id o.cart_id s ≡ some c)
    × (find_by_id next_id s ≡ none)
    × (count_where (in_cart next_id) s.items ≡ 0)

-- Closing a cart for an order succeeds. The cart is ordered and names the order; it holds exactly
-- the lines of it that were selected. The unselected ones, and no others, are in the fresh cart,
-- which exists and is active with the order's token and customer when there are any. No line is
-- lost or added. The cart exists, and the fresh identifier is in use for no cart and no line.
pub close_for_order_splits :
    (o : CartOrderClosure) (next_id now : ℕ) (s : Carts) (c : Cart)
    → IsClosable o next_id s c
    → (s' : Carts) × (close_for_order o next_id now s ≡ ok s')
      × (find_by_id o.cart_id s' ≡ some (close_cart o c))
      × (keep_if (in_cart o.cart_id) s'.items
          ≡ keep_if (λ x. in_cart o.cart_id x && x.is_selected) s.items)
      × (keep_if (in_cart next_id) s'.items
          ≡ map (into_cart next_id) (keep_if (is_unselected o.cart_id) s.items))
      × (find_by_id next_id s' ≡ (
          if count_where (is_unselected o.cart_id) s.items == 0
          then none
          else some (new_cart next_id o.token o.customer_id now)))
      × (length s'.items ≡ length s.items)
close_for_order_splits o next_id now s c (there, free, fresh) =
    let apart : next_id ≢ o.cart_id = other_cart o next_id s c there free in
    (
      closed_tables o next_id now s,
      closes o next_id now s c there,
      cart_after o next_id now s c there,
      keep-moved o.cart_id next_id s.items apart,
      next-moved o.cart_id next_id s.items fresh,
      fresh_after o next_id now s c there free,
      length-update_where (is_unselected o.cart_id) (into_cart next_id) s.items,
    )

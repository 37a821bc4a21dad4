-- ===== src/Cart/Lines/Valid.antt =====
-- What holds of the cart tables between two transactions.
use vp_parts.Base.{
  ℕ, ◌≤◌, ◌≡◌, inl, inr, Bool, arith, Bool-cases, Option-cases, All, update_where, keep_if,
  count_where, count-update_where, count-keep_if-le, All-keep_if,
}
use vp_parts.Cart.Tables.{
  CartItem, Carts, Identity, Result, ok, err, max_cart_lines, max_cart_line_quantity, is_active,
  in_cart, is_line, lock_cart, update_cart, guest_expiry, touch, ◌>>=◌,
}
use vp_parts.Cart.Lines.{mutate}

-- What a result that is no error satisfies.
abbrev pub Keeps {ℓ} : {A : Type 0} → (A → Type ℓ) → Result A → Type ℓ
Keeps P (ok a) = P a
Keeps P (err e) = Unit

abbrev pub IsQuantity : CartItem → Type 0
IsQuantity x = (1 ≤ x.quantity) × (x.quantity ≤ max_cart_line_quantity)

pub record IsValid (s : Carts) : Type 0 where
  -- No cart holds more lines than it may.
  pub room : (c : ℕ) → count_where (in_cart c) s.items ≤ max_cart_lines
  -- A cart holds an article once.
  pub unique : (c : ℕ) (i : Identity) → count_where (is_line c i) s.items ≤ 1
  -- Every quantity lies between one and the maximum of a line.
  pub quantities : All IsQuantity s.items

touch-IsValid : (k e : ℕ) (s : Carts) → IsValid s → IsValid (update_cart k (touch e) s)
touch-IsValid k e s v = record { room = v.room; unique = v.unique; quantities = v.quantities }

pub mutate-IsValid :
    (k now : ℕ) (change : Carts → Result Carts) (s : Carts)
    → Keeps IsValid (change s)
    → Keeps IsValid (mutate k now change s)
unfolding mutate
mutate-IsValid k now change s kept = elim (Option-cases (lock_cart k s)) [
  | inl e ↦ rw (e, mutate) tt
  | inr (cart, e) ↦
      rw (e, mutate)
        (elim (Bool-cases (is_active cart.status)) [
          | inl on ↦ rw on (step (change s) kept)
          | inr off ↦ rw off tt
        ])
]
  where
    step :
        (r : Result Carts)
        → Keeps IsValid r
        → Keeps IsValid (r >>= (λ s'. ok (update_cart k (touch (guest_expiry now)) s')))
    step (ok s') v = touch-IsValid k (guest_expiry now) s' v
    step (err e) v = tt

-- Tests on a line's cart and article are not touched by an update of its other columns.
module _ (s : Carts) (v : IsValid s) (p : CartItem → Bool) (f : CartItem → CartItem) where
  pub updated-IsValid :
      ((c : ℕ) (x : CartItem) → in_cart c (f x) ≡ in_cart c x)
      → ((c : ℕ) (i : Identity) (x : CartItem) → is_line c i (f x) ≡ is_line c i x)
      → All IsQuantity (update_where p f s.items)
      → IsValid (record s { items = update_where p f s.items })
  updated-IsValid same_cart same_line quantities = record {
    room = λ c. omega (arith, v.room c, count-update_where (in_cart c) p f s.items (same_cart c));
    unique = λ c i.
        omega (arith, v.unique c i, count-update_where (is_line c i) p f s.items (same_line c i));
    quantities = quantities;
  }

pub kept-IsValid :
    (s : Carts) (p : CartItem → Bool) → IsValid s → IsValid (record s { items = keep_if p s.items })
kept-IsValid s p v = record {
  room = λ c. omega (arith, v.room c, count-keep_if-le (in_cart c) p s.items);
  unique = λ c i. omega (arith, v.unique c i, count-keep_if-le (is_line c i) p s.items);
  quantities = All-keep_if IsQuantity p s.items v.quantities;
}

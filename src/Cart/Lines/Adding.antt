-- ===== src/Cart/Lines/Adding.antt =====
-- Adding a line keeps the carts valid, whether the article is in the cart already or not.
use vp_parts.Base.{
  ℕ, ◌+◌, ◌≤◌, ◌<◌, ◌≡◌, refl, ap, inl, inr, Bool, true, ◌&&◌, List, [], ◌∷◌, ◌++◌, arith, ltb, leb,
  ltb→lt, Bool-cases, All, All-append, update_where, count_where, count-update_where,
  count_where-append, All-update_where,
}
use vp_parts.Cart.Shipping.{to_shipping_columns}
use vp_parts.Cart.Tables.{
  CartItem, Carts, Identity, CartLineInput, max_cart_lines, max_cart_line_quantity, in_cart,
  is_line,
}
use vp_parts.Cart.Lines.{
  assert_room_for_line, upsert_line, clamp_line, new_item, raise_line, capped, adding,
}
use vp_parts.Cart.Lines.Valid.{Keeps, IsQuantity, IsValid}

abbrev pub over_full : ℕ → Identity → CartItem → Bool
over_full k i x = is_line k i x && ltb max_cart_line_quantity x.quantity

module _ (k : ℕ) (i : Identity) (q : ℕ) where
  raised-quantities :
      (f : CartItem → CartItem) (xs : List CartItem)
      → ((x : CartItem) → (f x).quantity ≡ x.quantity + q)
      → ((x : CartItem) → is_line k i (f x) ≡ is_line k i x)
      → All IsQuantity xs
      → All IsQuantity (
          update_where
            (λ x. is_line k i x && ltb max_cart_line_quantity x.quantity)
            capped
            (update_where (is_line k i) f xs))
  raised-quantities f [] more same h = tt
  raised-quantities f (x ∷ xs) more same h =
      ground (arith, raised-quantities f xs more same h.1, more x, same x)

module _ (k now : ℕ) (line : CartLineInput) (s : Carts) where
  unfoldable pub raised : CartItem → CartItem
  raised = raise_line line.quantity (to_shipping_columns line.shipping_profile)

  -- With the line in the cart, its quantity is raised and clamped.
  pub upsert_line-raise :
      0 < count_where (is_line k line.identity) s.items
      → clamp_line k line.identity (upsert_line k now line s) ≡ record s {
        items =
            update_where
              (over_full k line.identity)
              capped
              (update_where (is_line k line.identity) raised s.items);
      }
  unfolding clamp_line upsert_line raised
  upsert_line-raise held = ground arith

  -- Without it, the line comes last.
  pub upsert_line-insert :
      count_where (is_line k line.identity) s.items ≡ 0
      → clamp_line k line.identity (upsert_line k now line s) ≡ record s {
        items =
            update_where (over_full k line.identity) capped (s.items ++ new_item k now line ∷ []);
      }
  unfolding clamp_line upsert_line
  upsert_line-insert absent = ground arith

  raise-IsValid :
      IsValid s
      → 0 < count_where (is_line k line.identity) s.items
      → IsValid (clamp_line k line.identity (upsert_line k now line s))
  unfolding raised
  raise-IsValid v held =
      let once = update_where (is_line k line.identity) raised s.items in
      rw (upsert_line-raise held) (record {
        room = λ c. omega (
          arith,
          v.room c,
          count-update_where (in_cart c) (is_line k line.identity) raised s.items (λ x. refl),
          count-update_where (in_cart c) (over_full k line.identity) capped once (λ x. refl),
        );
        unique = λ c i. omega (
          arith,
          v.unique c i,
          count-update_where (is_line c i) (is_line k line.identity) raised s.items (λ x. refl),
          count-update_where (is_line c i) (over_full k line.identity) capped once (λ x. refl),
        );
        quantities =
            raised-quantities k line.identity line.quantity raised s.items (λ x. refl) (λ x. refl)
              v.quantities;
      })

  -- An identity names the new line only if it is the new line's.
  new_item-line :
      (c : ℕ) (i : Identity)
      → is_line c i (new_item k now line) ≡ true
      → (c ≡ k) × (i ≡ line.identity)
  unfolding new_item
  new_item-line c i h = ground arith

  new_item-cart : (c : ℕ) → in_cart c (new_item k now line) ≡ true → c ≡ k
  unfolding new_item
  new_item-cart c h = ground arith

  insert-room :
      (c : ℕ)
      → count_where (in_cart c) s.items ≤ max_cart_lines
      → count_where (in_cart k) s.items < max_cart_lines
      → count_where (in_cart c) (s.items ++ new_item k now line ∷ []) ≤ max_cart_lines
  insert-room c room space = elim (Bool-cases (in_cart c (new_item k now line))) [
    | inl same ↦
        let e = ap (λ j. count_where (in_cart j) s.items) (new_item-cart c same) in
        ground (arith, count_where-append (in_cart c) s.items (new_item k now line ∷ []), e)
    | inr other ↦ ground (arith, count_where-append (in_cart c) s.items (new_item k now line ∷ []))
  ]

  insert_unique :
      (c : ℕ) (i : Identity)
      → count_where (is_line c i) s.items ≤ 1
      → count_where (is_line k line.identity) s.items ≡ 0
      → count_where (is_line c i) (s.items ++ new_item k now line ∷ []) ≤ 1
  insert_unique c i unique absent = elim (Bool-cases (is_line c i (new_item k now line))) [
    | inl same ↦
        let (e, e') = new_item-line c i same in
        let none_yet : count_where (is_line c i) s.items ≡ 0 = rw (e, e') absent in
        ground
          (arith, count_where-append (is_line c i) s.items (new_item k now line ∷ []), none_yet)
    | inr other ↦
        ground (arith, count_where-append (is_line c i) s.items (new_item k now line ∷ []))
  ]

  -- A line that is not there yet needs room, and a quantity that the request's schema admits.
  insert-IsValid :
      IsValid s
      → 1 ≤ line.quantity
      → line.quantity ≤ max_cart_line_quantity
      → count_where (is_line k line.identity) s.items ≡ 0
      → count_where (in_cart k) s.items < max_cart_lines
      → IsValid (clamp_line k line.identity (upsert_line k now line s))
  insert-IsValid v pos small absent space =
      let with_item = s.items ++ new_item k now line ∷ [] in
      rw (upsert_line-insert absent) (record {
        room = λ c. omega (
          arith,
          insert-room c (v.room c) space,
          count-update_where (in_cart c) (over_full k line.identity) capped with_item (λ x. refl),
        );
        unique = λ c i. omega (
          arith,
          insert_unique c i (v.unique c i) absent,
          count-update_where (is_line c i) (over_full k line.identity) capped with_item (λ x. refl),
        );
        quantities =
            All-update_where IsQuantity (over_full k line.identity) capped with_item
              (λ x h _. (omega arith, omega arith))
              (All-append IsQuantity s.items (new_item k now line ∷ []) v.quantities
                ((unfold new_item in (pos, small)), tt));
      })

pub adding-IsValid :
    (k now : ℕ) (line : CartLineInput) (s : Carts)
    → 1 ≤ line.quantity
    → line.quantity ≤ max_cart_line_quantity
    → IsValid s
    → Keeps IsValid (adding k now line s)
unfolding assert_room_for_line
adding-IsValid k now line s pos small v = elim (Bool-cases (ltb 0 held)) [
  | inl present ↦ rw present (raise-IsValid k now line s v (ltb→lt 0 held present))
  | inr absent ↦ elim (Bool-cases (leb max_cart_lines lines)) [
    | inl full ↦ rw (absent, full) tt
    | inr room ↦
        rw (absent, room) (insert-IsValid k now line s v pos small (ground arith) (ground arith))
  ]
]
  where
    held : ℕ
    held = count_where (is_line k line.identity) s.items

    lines : ℕ
    lines = count_where (in_cart k) s.items
